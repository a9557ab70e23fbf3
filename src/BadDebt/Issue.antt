-- ===== src/BadDebt/Issue.antt =====
-- Which requests the strategy issues for the cached obligations of a market, and which rows it deletes
-- (the inner loop of `handle_new_ledger` of bad_debt_request_initiator.rs).
use alula_liquidator.Prelude.{
  ℕ, ◌≡◌, refl, sym, subst, String, Bool, true, ◌⊎◌, inl, inr, Option, some, none, List, [], ◌∷◌,
  In, Bool-cases,
}
use alula_liquidator.Prelude.Outcome.{Outcome, ok, err, panic, bind-elim}
use alula_liquidator.Market.{MarketData, Obligation, ObligationKey}
use alula_liquidator.Execute.{Action}
use alula_liquidator.Withdrawer.Deposit.{In-push}
use alula_liquidator.BadDebt.{
  BadDebtRequestInitiator, ObligationRead, fresh, gone, failed, Sweep, or_ineligible,
  judge_eligibility, is_eligible_for_bad_debt_request_issuance, build_issue_bad_debt, push_action,
  recheck, sweep_obligation, sweep_obligations,
}

pub judged-true :
    (self : BadDebtRequestInitiator) (now : ℕ) (o : Obligation) (m : MarketData)
    → judge_eligibility self now o m ≡ ok true
    → is_eligible_for_bad_debt_request_issuance self now o m ≡ ok true
unfolding judge_eligibility
judged-true self now o m h = split (is_eligible_for_bad_debt_request_issuance self now o m) h
  where
    split : (x : Outcome Bool) → or_ineligible x ≡ ok true → x ≡ ok true
    split (ok b) e = e
    split (err e') e = cc
    split panic e = cc

same_sweep : {Op : Type 0} (s t : Sweep Op) → ok s ≡ ok t → s ≡ t
same_sweep s t h = cc

module _ {Op : Type 0} (cover_bad_debt_op : String → ObligationKey → Option Op) where
  module _ (now later : ObligationKey → ℕ)
      (read_user_obligation : String → ObligationKey → ObligationRead) where
    -- The obligation was read again, judged eligible as read, and the action was built for its key.
    abbrev pub IssuedFor :
        BadDebtRequestInitiator → String → MarketData → ObligationKey → Action Op → Type 0
    IssuedFor self market market_data key action =
        (o : Obligation) × (read_user_obligation market key ≡ fresh o)
        × (is_eligible_for_bad_debt_request_issuance self (later key) o market_data ≡ ok true)
        × (build_issue_bad_debt cover_bad_debt_op self market key ≡ some action)

    -- What a step adds: actions issued for the key, and its row where it is gone.
    abbrev Adds :
        BadDebtRequestInitiator → String → MarketData → ObligationKey → Sweep Op → Sweep Op → Type 0
    Adds self market market_data key s t =
        ((action : Action Op)
          → In action t.actions
          → In action s.actions ⊎ IssuedFor self market market_data key action)
        × ((row : String × ObligationKey)
            → In row t.deleted
            → In row s.deleted ⊎ ((row ≡ (market, key)) × (read_user_obligation market key ≡ gone)))

    nothing-Adds :
        (self : BadDebtRequestInitiator) (market : String) (market_data : MarketData)
        (key : ObligationKey) (s t : Sweep Op)
        → ok s ≡ ok t
        → Adds self market market_data key s t
    nothing-Adds self market market_data key s t h =
        subst (Adds self market market_data key s) (same_sweep s t h)
          ((λ action i. inl i), (λ row i. inl i))

    recheck-Adds :
        (self : BadDebtRequestInitiator) (market : String) (market_data : MarketData)
        (key : ObligationKey) (s t : Sweep Op) (r : ObligationRead)
        → read_user_obligation market key ≡ r
        → recheck cover_bad_debt_op self (later key) market market_data key r s ≡ ok t
        → Adds self market market_data key s t
    unfolding recheck
    recheck-Adds self market market_data key s t failed er h =
        nothing-Adds self market market_data key s t h
    recheck-Adds self market market_data key s t gone er h =
        subst (Adds self market market_data key s) (same_sweep _ t h)
          ((λ action i. inl i), (λ row i. elim i [ inl e ↦ inr (e, er) | inr k ↦ inl k ]))
    recheck-Adds self market market_data key s t (fresh o) er h =
        bind-elim (judge_eligibility self (later key) o market_data) _ h λ eligible ej h₁.
          elim (Bool-cases eligible) [
            | inr f ↦ nothing-Adds self market market_data key s t (rw f at h₁)
            | inl e ↦
                pushed (judged-true self (later key) o market_data (rw e at ej))
                  (build_issue_bad_debt cover_bad_debt_op self market key) refl (rw e at h₁)
          ]
      where
        pushed :
            is_eligible_for_bad_debt_request_issuance self (later key) o market_data ≡ ok true
            → (a : Option (Action Op)) → build_issue_bad_debt cover_bad_debt_op self market key ≡ a
            → ok (push_action cover_bad_debt_op a s) ≡ ok t
            → Adds self market market_data key s t
        pushed e none eb k = nothing-Adds self market market_data key s t k
        pushed e (some a) eb k = subst (Adds self market market_data key s) (same_sweep _ t k) (
          (λ action i. elim (In-push action a s.actions i) [
            | inl j ↦ inl j
            | inr q ↦ inr (
              o,
              er,
              e,
              subst (λ z. build_issue_bad_debt cover_bad_debt_op self market key ≡ some z) (sym q)
                  eb,
            )
          ]),
          (λ row i. inl i),
        )

    sweep_obligation-Adds :
        (self : BadDebtRequestInitiator) (market : String) (market_data : MarketData)
        (key : ObligationKey) (cached : Obligation) (s t : Sweep Op)
        → sweep_obligation cover_bad_debt_op now later read_user_obligation self market market_data
            key cached s
          ≡ ok t
        → Adds self market market_data key s t
    unfolding sweep_obligation
    sweep_obligation-Adds self market market_data key cached s t h =
        bind-elim (judge_eligibility self (now key) cached market_data) _ h λ eligible ej h₁.
          elim (Bool-cases eligible) [
            | inr f ↦ nothing-Adds self market market_data key s t (rw f at h₁)
            | inl e ↦
                recheck-Adds self market market_data key s t (read_user_obligation market key) refl
                  (rw e at h₁)
          ]

    -- Over the cached obligations of a market: each action that the sweep adds is for the key of a cached
    -- obligation that was read again from the ledger, was eligible as read, and whose operation was
    -- built.
    pub sweep_obligations-issued :
        (self : BadDebtRequestInitiator) (market : String) (market_data : MarketData)
        (cached : List (ObligationKey × Obligation)) (s t : Sweep Op) (action : Action Op)
        → sweep_obligations cover_bad_debt_op now later read_user_obligation self market market_data
            cached s
          ≡ ok t
        → In action t.actions
        → In action s.actions
          ⊎ ((c : ObligationKey × Obligation) × In c cached
              × IssuedFor self market market_data c.0 action)
    unfolding sweep_obligations
    sweep_obligations-issued self market market_data [] s t action h i =
        inl (subst (λ z. In action z.actions) (sym (same_sweep s t h)) i)
    sweep_obligations-issued self market market_data (c ∷ rest) s t action h i =
        bind-elim
          (sweep_obligation cover_bad_debt_op now later read_user_obligation self market market_data
            c.0 c.1 s)
          _ h
          λ mid em h₁.
            let adds = sweep_obligation-Adds self market market_data c.0 c.1 s mid em in
            elim (sweep_obligations-issued self market market_data rest mid t action h₁ i) [
              | inr x ↦ inr (x.0, inr x.1, x.2)
              | inl j ↦ elim (adds.0 action j) [ inl a ↦ inl a | inr b ↦ inr (c, inl refl, b) ]
            ]

    -- Each row that the sweep deletes is of the key of a cached obligation that the ledger says is gone.
    pub sweep_obligations-deleted :
        (self : BadDebtRequestInitiator) (market : String) (market_data : MarketData)
        (cached : List (ObligationKey × Obligation)) (s t : Sweep Op) (row : String × ObligationKey)
        → sweep_obligations cover_bad_debt_op now later read_user_obligation self market market_data
            cached s
          ≡ ok t
        → In row t.deleted
        → In row s.deleted
          ⊎ ((c : ObligationKey × Obligation) × In c cached
              × (row ≡ (market, c.0))
              × (read_user_obligation market c.0 ≡ gone))
    unfolding sweep_obligations
    sweep_obligations-deleted self market market_data [] s t row h i =
        inl (subst (λ z. In row z.deleted) (sym (same_sweep s t h)) i)
    sweep_obligations-deleted self market market_data (c ∷ rest) s t row h i =
        bind-elim
          (sweep_obligation cover_bad_debt_op now later read_user_obligation self market market_data
            c.0 c.1 s)
          _ h
          λ mid em h₁.
            let adds = sweep_obligation-Adds self market market_data c.0 c.1 s mid em in
            elim (sweep_obligations-deleted self market market_data rest mid t row h₁ i) [
              | inr x ↦ inr (x.0, inr x.1, x.2, x.3)
              | inl j ↦ elim (adds.1 row j) [ inl a ↦ inl a | inr b ↦ inr (c, inl refl, b.0, b.1) ]
            ]
