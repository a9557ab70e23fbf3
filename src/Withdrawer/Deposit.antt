-- ===== src/Withdrawer/Deposit.antt =====
-- What one deposit makes the strategy do, and what the loop over the deposits collects
-- (`find_withdrawal_opportunities` of withdrawer.rs).
use alula_liquidator.Prelude.{
  ◌≡◌, refl, sym, subst, ◌∙◌, ap, String, Bool, true, false, ◌⊎◌, inl, inr, Option, some, none,
  List, [], ◌∷◌, ◌++◌, In, Bool-cases, if◌then◌else◌,
}
use alula_liquidator.Prelude.Outcome.{Outcome, ok, err, panic, bind-elim}
use alula_liquidator.Prelude.Int.{ℤ, pos, leb_ℤ, eqb_ℤ, min_ℤ}
use alula_liquidator.Amount.{JTokens, Underlying}
use alula_liquidator.Pool.{PoolData, compute_max_safe_withdrawal, j_tokens_to_tokens_floor}
use alula_liquidator.Market.{MarketData, ObligationKey, DepositPosition, pool_of}
use alula_liquidator.Execute.{Action}
use alula_liquidator.Withdrawer.{
  Withdrawer, Verdict, pass, stop, act, on_ok, compute_withdrawal_value_cents, requested,
  build_withdrawal_action, judge_value, judge_position, judge_deposit, dispatch, withdrawals_from,
}

on_ok-act :
    {Op : Type 0} {A : Type 0} (m : Outcome A) (f : A → Outcome (Verdict Op)) (a : Action Op)
    → on_ok m (ok pass) f ≡ ok (act a)
    → (x : A) × (m ≡ ok x) × (f x ≡ ok (act a))
on_ok-act (ok x) f a h = (x, refl, h)
on_ok-act (err e) f a h = cc
on_ok-act panic f a h = cc

unless-act :
    {Op : Type 0} (t : Bool) (m : Outcome (Verdict Op)) (a : Action Op)
    → (if t then ok pass else m) ≡ ok (act a)
    → (t ≡ false) × (m ≡ ok (act a))
unless-act true m a h = cc
unless-act false m a h = (refl, h)

pub In-push : {A : Type 0} (x a : A) (xs : List A) → In x (xs ++ a ∷ []) → In x xs ⊎ (x ≡ a)
In-push x a [] (inl e) = inr e
In-push x a [] (inr k) = absurd k
In-push x a (y ∷ ys) (inl e) = inl (inl e)
In-push x a (y ∷ ys) (inr k) = elim (In-push x a ys k) [ inl i ↦ inl (inr i) | inr e ↦ inr e ]

pub ok_list : {A : Type 0} (x y : List A) → ok x ≡ ok y → x ≡ y
ok_list x y h = cc

module _ {Op : Type 0}
    (withdraw_op : String → ObligationKey → String → Underlying → Option Op) where
  -- The action withdraws from a priced pool of a deposit the lesser of the deposit's worth and what is
  -- safe to take, both above zero, and that is worth the configured minimum.
  abbrev Justified : Withdrawer → String → MarketData → PoolData → JTokens → Action Op → Type 0
  Justified self market market_data pool j_tokens action =
      (safe : Underlying) × (underlying : Underlying) × (value : ℤ) × (compute_max_safe_withdrawal
          pool self.utilization_safety_margin_bps
        ≡ ok safe)
      × (eqb_ℤ safe (pos 0) ≡ false)
      × (j_tokens_to_tokens_floor pool j_tokens ≡ ok underlying)
      × (eqb_ℤ underlying (pos 0) ≡ false)
      × (compute_withdrawal_value_cents pool market_data (min_ℤ underlying safe) ≡ ok (some value))
      × (leb_ℤ self.min_withdraw_value_cents value ≡ true)
      × (build_withdrawal_action withdraw_op self market pool.pool_address
            (requested underlying (min_ℤ underlying safe))
          ≡ some action)

  abbrev pub FromDeposit :
      Withdrawer → String → MarketData → List DepositPosition → Action Op → Type 0
  FromDeposit self market market_data deposits action =
      (d : DepositPosition) × (pool : PoolData) × In d deposits
      × (pool_of market_data d.pool_address ≡ some pool)
      × Justified self market market_data pool d.j_tokens action

  judge_value-act :
      (self : Withdrawer) (market : String) (pool : PoolData) (amount : Underlying) (v : Option ℤ)
      (action : Action Op)
      → judge_value withdraw_op self market pool amount v ≡ act action
      → (value : ℤ) × (v ≡ some value)
        × (leb_ℤ self.min_withdraw_value_cents value ≡ true)
        × (build_withdrawal_action withdraw_op self market pool.pool_address amount ≡ some action)
  unfolding judge_value
  judge_value-act self market pool amount none action h = cc
  judge_value-act self market pool amount (some value) action h =
      elim (Bool-cases (leb_ℤ self.min_withdraw_value_cents value)) [
        | inl e ↦ (
          value,
          refl,
          e,
          dispatched (build_withdrawal_action withdraw_op self market pool.pool_address amount)
              (rw e at h),
        )
        | inr e ↦ absurd (passed (rw e at h))
      ]
    where
      dispatched : (o : Option (Action Op)) → dispatch withdraw_op o ≡ act action → o ≡ some action
      dispatched none k = cc
      dispatched (some x) k = cc

      passed : ◌≡◌ {A = Verdict Op} pass (act action) → ⊥
      passed k = cc

  judge_position-act :
      (self : Withdrawer) (market : String) (market_data : MarketData) (pool : PoolData)
      (j_tokens : JTokens) (action : Action Op)
      → judge_position withdraw_op self market market_data pool j_tokens ≡ ok (act action)
      → Justified self market market_data pool j_tokens action
  unfolding judge_position
  judge_position-act self market market_data pool j_tokens action h =
      let (safe, es, h₁) =
        on_ok-act (compute_max_safe_withdrawal pool self.utilization_safety_margin_bps) _ action
          h in
      let (zs, h₂) = unless-act (eqb_ℤ safe (pos 0)) _ action h₁ in
      let (underlying, eu, h₃) = on_ok-act (j_tokens_to_tokens_floor pool j_tokens) _ action h₂ in
      let (zu, h₄) = unless-act (eqb_ℤ underlying (pos 0)) _ action h₃ in
      bind-elim (compute_withdrawal_value_cents pool market_data (min_ℤ underlying safe)) _ h₄
        λ v ev h₅.
          let (value, e, l, b) =
            judge_value-act self market pool (requested underlying (min_ℤ underlying safe)) v action
              (ok-injective _ _ h₅) in
          (safe, underlying, value, es, zs, eu, zu, ev ∙ ap ok e, l, b)
    where
      ok-injective : (x y : Verdict Op) → ok x ≡ ok y → x ≡ y
      ok-injective x y k = cc

  judge_deposit-act :
      (self : Withdrawer) (market : String) (market_data : MarketData) (d : DepositPosition)
      (action : Action Op)
      → judge_deposit withdraw_op self market market_data d ≡ ok (act action)
      → (pool : PoolData) × (pool_of market_data d.pool_address ≡ some pool)
        × Justified self market market_data pool d.j_tokens action
  unfolding judge_deposit
  judge_deposit-act self market market_data d action h =
      split (pool_of market_data d.pool_address) refl h
    where
      split :
          (o : Option PoolData)
          → pool_of market_data d.pool_address ≡ o
          → elim o [
            | none ↦ ok pass
            | some pool ↦ judge_position withdraw_op self market market_data pool d.j_tokens
          ]
            ≡ ok (act action)
          → (pool : PoolData) × (pool_of market_data d.pool_address ≡ some pool)
            × Justified self market market_data pool d.j_tokens action
      split none e k = cc
      split (some pool) e k =
          (pool, e, judge_position-act self market market_data pool d.j_tokens action k)

  pub withdrawals_from_sound :
      (self : Withdrawer) (market : String) (market_data : MarketData)
      (deposits : List DepositPosition) (found actions : List (Action Op)) (action : Action Op)
      → withdrawals_from withdraw_op self market market_data deposits found ≡ ok actions
      → In action actions
      → In action found ⊎ FromDeposit self market market_data deposits action
  unfolding withdrawals_from
  withdrawals_from_sound self market market_data [] found actions action h i =
      inl (subst (In action) (sym (ok_list found actions h)) i)
  withdrawals_from_sound self market market_data (d ∷ rest) found actions action h i =
      bind-elim (judge_deposit withdraw_op self market market_data d) _ h λ verdict ev h₁.
        after (λ f q j. withdrawals_from_sound self market market_data rest f actions action q j)
          verdict ev h₁
    where
      later :
          FromDeposit self market market_data rest action
          → FromDeposit self market market_data (d ∷ rest) action
      later (d', pool, k, e, j) = (d', pool, inr k, e, j)

      here :
          (a : Action Op)
          → judge_deposit withdraw_op self market market_data d ≡ ok (act a)
          → action ≡ a
          → FromDeposit self market market_data (d ∷ rest) action
      here a ev e =
          let (pool, ep, j) = judge_deposit-act self market market_data d action (
            subst (λ z. judge_deposit withdraw_op self market market_data d ≡ ok (act z)) (sym e)
              ev) in
          (d, pool, inl refl, ep, j)

      Carried : Type 0
      Carried =
          (f : List (Action Op))
          → withdrawals_from withdraw_op self market market_data rest f ≡ ok actions
          → In action actions
          → In action f ⊎ FromDeposit self market market_data rest action

      after :
          Carried
          → (verdict : Verdict Op)
          → judge_deposit withdraw_op self market market_data d ≡ ok verdict
          → elim verdict [
            | pass ↦ withdrawals_from withdraw_op self market market_data rest found
            | stop ↦ ok []
            | act a ↦ withdrawals_from withdraw_op self market market_data rest (found ++ a ∷ [])
          ]
            ≡ ok actions
          → In action found ⊎ FromDeposit self market market_data (d ∷ rest) action
      after go pass ev h₁ = elim (go found h₁ i) [ inl k ↦ inl k | inr k ↦ inr (later k) ]
      after go stop ev h₁ = absurd (subst (In action) (sym (ok_list [] actions h₁)) i)
      after go (act a) ev h₁ = elim (go (found ++ a ∷ []) h₁ i) [
        | inl k ↦ elim (In-push action a found k) [ inl k' ↦ inl k' | inr e ↦ inr (here a ev e) ]
        | inr k ↦ inr (later k)
      ]
