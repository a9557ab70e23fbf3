-- ===== src/Liquidator/Dispatch/Funds.antt =====
-- What a dispatch does to the shared capital (`execute_liquidation_plan` of liquidator.rs).
use alula_liquidator.Gateway.{BatchSimulation, passed, failed, Gateway}
use alula_liquidator.World.{take_id, reserve_now, release_now}
use alula_liquidator.Prelude.{
  ℕ, suc, ◌≡◌, refl, sym, subst, ◌≤◌, ◌⊎◌, inl, inr, String, Option, some, none, List, arith,
  Bool-cases,
}
use alula_liquidator.Prelude.Outcome.{Outcome, ok, err, panic}
use alula_liquidator.Prelude.Int.{ℤ, pos, ltb_ℤ}
use alula_liquidator.Market.{ObligationKey}
use alula_liquidator.Capital.{
  CapitalInner, ReserveResult, reserved, internal_error, not_enough_available_balance,
  new_reservation, insert_reservation, unlock_expired, reserve, release, get_freshly_cached_balance,
  store_read,
}
use alula_liquidator.Capital.Ledger.{held}
use alula_liquidator.Capital.Effects.{
  ReserveEnds, reserve-ReserveEnds, held-unlock, held-release, held-release-insert,
}
use alula_liquidator.World.{
  Surroundings, World, Run, value, nothing, panics, pure, given, caught, asked, waited, with_inner,
  look, await, get_balance, ◌>>=◌,
}
use alula_liquidator.World.Laws.{Ends, then-Ends, given-Ends}
use alula_liquidator.Liquidator.{LiquidatorConfig, LiquidationPlan}
use alula_liquidator.Liquidator.Plans.{usable}
use alula_liquidator.Liquidator.Dispatch.{
  Undispatched, other, Dispatch, dispatched, undispatched, reserve_of, build_batch_requests,
  acquire, hand_over, after_simulation, try_dispatch, execute_liquidation_plan,
}

-- At most `h` of the token is reserved.
abbrev Within : String → ℕ → World → Type 0
Within token h w = held token w.inner.reservations ≤ h

-- The other tasks reserve nothing more of the token.
abbrev IsQuiet : Surroundings → String → Type 0
IsQuiet env token =
    (n : ℕ) (i : CapitalInner)
    → held token (env.meanwhile n i).reservations ≤ held token i.reservations

le_le : (a b c : ℕ) → a ≤ b → b ≤ c → a ≤ c
le_le a b c h k = omega (arith, h, k)

store_read-held :
    (token asset : String) (now : ℕ) (answer : Option ℤ) (i : CapitalInner)
    → held token (store_read now asset answer i).1.reservations ≡ held token i.reservations
unfolding store_read
store_read-held token asset now none i = refl
store_read-held token asset now (some a) i = refl

module _ (env : Surroundings) (token : String) (quiet : IsQuiet env token) (h : ℕ) where
  get_balance-Within :
      (asset : String) (w : World)
      → Within token h w
      → Ends (λ _ u. Within token h u) (Within token h) (get_balance env asset w)
  unfolding get_balance
  get_balance-Within asset w k =
      split (get_freshly_cached_balance env.capital (env.instant w.tick) asset w.inner)
    where
      after : World
      after = waited env (asked w)

      split :
          (o : Option ℤ)
          → Ends
              (λ _ u. Within token h u)
              (Within token h)
              (elim o [
                | some b ↦ value (some b) (asked w)
                | none ↦ with_inner (suc after.tick) (
                    store_read
                      (env.instant after.tick)
                      asset
                      (env.read_token_balance (suc w.tick) asset)
                      after.inner)
              ])
      split (some b) = k
      split none =
          subst (λ z. z ≤ h)
            (sym (
              store_read-held token asset (env.instant after.tick)
                (env.read_token_balance (suc w.tick) asset) after.inner))
            (le_le _ (held token w.inner.reservations) h (quiet (suc w.tick) w.inner) k)

  -- After the release that may follow, at most `h` is reserved.
  abbrev Releasable : ℕ → World → Type 0
  Releasable id w = held token (release id w.inner).reservations ≤ h

  releasable : (id : ℕ) (w : World) → Within token h w → Releasable id w
  releasable id w k =
      le_le (held token (release id w.inner).reservations) (held token w.inner.reservations) h
        (held-release token id w.inner) k

  reserve_now-Releasable :
      (amount available : ℤ) (asset : String) (w : World)
      → Within token h w
      → Ends Releasable (Within token h) (reserve_now env amount available asset w)
  unfolding reserve_now
  reserve_now-Releasable amount available asset w k =
      split
        (reserve env.capital (env.instant w.tick) (env.random_id w.tick) amount available asset
          w.inner)
        refl
    where
      fresh : CapitalInner
      fresh = unlock_expired (env.instant w.tick) env.capital.reservation_ttl w.inner

      kept : (i : CapitalInner) → (i ≡ w.inner) ⊎ (i ≡ fresh) → held token i.reservations ≤ h
      kept i (inl e) = subst (λ (z : CapitalInner). held token z.reservations ≤ h) (sym e) k
      kept i (inr e) =
          subst (λ (z : CapitalInner). held token z.reservations ≤ h) (sym e)
            (le_le (held token fresh.reservations) (held token w.inner.reservations) h
              (held-unlock token (env.instant w.tick) env.capital.reservation_ttl w.inner) k)

      undone :
          (id : ℕ) (i : CapitalInner)
          → ReserveEnds env.capital
              (env.instant w.tick)
              (env.random_id w.tick)
              amount
              asset
              w.inner
              (reserved id)
              i
          → held token (release id i).reservations ≤ h
      undone id i (inl (e, q)) =
          let same : id ≡ env.random_id w.tick = reserved-injective e in
          subst (λ (z : CapitalInner). held token (release id z).reservations ≤ h) (sym q)
            (subst
              (λ z.
                held token
                  (release id (
                    insert_reservation z (new_reservation amount (env.instant w.tick) asset)
                      fresh)).reservations
                ≤ h)
              same
              (le_le _ (held token fresh.reservations) h
                (held-release-insert token id (new_reservation amount (env.instant w.tick) asset)
                  fresh)
                (kept fresh (inr refl))))
        where
          reserved-injective : {a b : ℕ} → reserved a ≡ reserved b → a ≡ b
          reserved-injective x = cc
      undone id i (inr (e, q)) =
          le_le _ (held token i.reservations) h (held-release token id i) (kept i q)

      refused :
          (r : ReserveResult) (i : CapitalInner)
          → ((id : ℕ) → r ≡ reserved id → ⊥)
          → ReserveEnds env.capital
              (env.instant w.tick)
              (env.random_id w.tick)
              amount
              asset
              w.inner
              r
              i
          → held token i.reservations ≤ h
      refused r i never (inl (e, q)) = absurd (never (env.random_id w.tick) e)
      refused r i never (inr (e, q)) = kept i q

      split :
          (o : Outcome (ReserveResult × CapitalInner))
          → reserve env.capital
              (env.instant w.tick)
              (env.random_id w.tick)
              amount
              available
              asset
              w.inner
            ≡ o
          → Ends Releasable (Within token h) (take_id (suc w.tick) o)
      split (ok (reserved id, i)) e = undone id i (
          reserve-ReserveEnds env.capital (env.instant w.tick) (env.random_id w.tick) amount
            available asset w.inner (reserved id) i e)
      split (ok (internal_error, i)) e =
          refused internal_error i (λ id x. not_reserved id x)
            (reserve-ReserveEnds env.capital (env.instant w.tick) (env.random_id w.tick) amount
              available asset w.inner internal_error i e)
        where
          not_reserved : (id : ℕ) → internal_error ≡ reserved id → ⊥
          not_reserved id x = cc
      split (ok (not_enough_available_balance, i)) e =
          refused not_enough_available_balance i (λ id x. not_reserved id x)
            (reserve-ReserveEnds env.capital (env.instant w.tick) (env.random_id w.tick) amount
              available asset w.inner not_enough_available_balance i e)
        where
          not_reserved : (id : ℕ) → not_enough_available_balance ≡ reserved id → ⊥
          not_reserved id x = cc
      split (err x) e = tt
      split panic e = tt

-- What an undispatched plan leaves; a dispatched one keeps its reservation for the executor.
abbrev Leaves : {Op : Type 0} → String → ℕ → Dispatch Op → World → Type 0
Leaves token h (dispatched action) w = Unit
Leaves token h (undispatched why) w = Within token h w

module _ {Op : Type 0} {Request : Type 0} (gateway : Gateway Op Request) (env : Surroundings)
    (config : LiquidatorConfig) (skey : String) (token : String) (quiet : IsQuiet env token)
    (h : ℕ) where
  acquire-Releasable :
      (asset : String) (amount : ℤ) (w : World)
      → Within token h w
      → Ends
          (Releasable env token quiet h)
          (Within token h)
          (acquire gateway env config skey (asset, amount) w)
  unfolding acquire look
  acquire-Releasable asset amount w k = elim (Bool-cases (ltb_ℤ (pos 0) amount)) [
    | inl e ↦ rw e (
        then-Ends (get_balance env asset) _ w (λ _ u. Within token h u)
          (Releasable env token quiet h) (Within token h)
          (get_balance-Within env token quiet h asset w k)
          λ answer u l.
            then-Ends (given answer) _ u (λ _ u. Within token h u) (Releasable env token quiet h)
              (Within token h) (given-Ends answer u (Within token h) l)
              λ raw_balance v m.
                reserve_now-Releasable env token quiet h amount (usable config asset raw_balance)
                  asset v m)
    | inr e ↦ rw e (releasable env token quiet h (env.random_id w.tick) w k)
  ]

  hand_over-Leaves :
      (market : String) (plan : LiquidationPlan) (op_id : ℕ) (built : Option Op) (w : World)
      → Releasable env token quiet h op_id w
      → Ends
          (Leaves token h)
          (Within token h)
          (hand_over gateway env config skey market plan op_id built w)
  unfolding hand_over release_now
  hand_over-Leaves market plan op_id none w k = k
  hand_over-Leaves market plan op_id (some op) w k = tt

  after_simulation-Leaves :
      (market : String) (plan : LiquidationPlan) (key : ObligationKey) (requests : List Request)
      (simulation : BatchSimulation) (w : World)
      → Within token h w
      → Ends
          (Leaves token h)
          (Within token h)
          (after_simulation gateway env config skey market plan key requests simulation w)
  unfolding after_simulation
  after_simulation-Leaves market plan key requests (failed code) w k = k
  after_simulation-Leaves market plan key requests passed w k =
      let r = reserve_of plan plan.liquidation_type in
      then-Ends (acquire gateway env config skey r) _ w (Releasable env token quiet h)
        (Leaves token h) (Within token h) (acquire-Releasable r.0 r.1 w k)
        λ op_id u l. hand_over-Leaves market plan op_id (gateway.batch_op market key requests) u l

  try_dispatch-Leaves :
      (market : String) (plan : LiquidationPlan) (key : ObligationKey) (w : World)
      → Within token h w
      → Ends
          (Leaves token h)
          (Within token h)
          (try_dispatch gateway env config skey market plan key w)
  unfolding try_dispatch await
  try_dispatch-Leaves market plan key w k =
      then-Ends (given (build_batch_requests gateway plan)) _ w (λ _ u. Within token h u)
        (Leaves token h) (Within token h)
        (given-Ends (build_batch_requests gateway plan) w (Within token h) k)
        λ requests u l.
          let answer = gateway.simulate_batch u.tick market key requests in
          let later = waited env u in
          then-Ends (given answer) _ later (λ _ u. Within token h u) (Leaves token h)
            (Within token h)
            (given-Ends answer later (Within token h)
              (le_le _ (held token u.inner.reservations) h (quiet u.tick u.inner) l))
            λ simulation v m. after_simulation-Leaves market plan key requests simulation v m

-- A plan that was not dispatched leaves no reservation behind: whatever made the dispatch stop, the
-- requests that could not be built, a failed simulation, an unknown balance, a refused reservation or
-- an operation that could not be built after it, at the end no more of any token is reserved than at the
-- start, provided the other tasks reserve nothing more of that token meanwhile.
pub execute_liquidation_plan-undispatched :
    {Op : Type 0} {Request : Type 0} (gateway : Gateway Op Request) (env : Surroundings)
    (config : LiquidatorConfig) (skey token market : String) (plan : LiquidationPlan)
    (key : ObligationKey) (w : World) (why : Undispatched) (w' : World)
    → IsQuiet env token
    → execute_liquidation_plan gateway env config skey market plan key w
      ≡ value (undispatched why) w'
    → held token w'.inner.reservations ≤ held token w.inner.reservations
unfolding execute_liquidation_plan
execute_liquidation_plan-undispatched {Op} gateway env config skey token market plan key w why w'
      quiet e =
    split (try_dispatch gateway env config skey market plan key w)
      (try_dispatch-Leaves gateway env config skey token quiet (held token w.inner.reservations)
        market plan key w (omega arith))
      e
  where
    split :
        (r : Run (Dispatch Op))
        → Ends
            (Leaves token (held token w.inner.reservations))
            (Within token (held token w.inner.reservations))
            r
        → ((λ (u : World). caught r) >>= λ result.
              pure (elim result [ none ↦ undispatched other | some d ↦ d ]))
            w
          ≡ value (undispatched why) w'
        → held token w'.inner.reservations ≤ held token w.inner.reservations
    split (value (dispatched a) u) k q = cc
    split (value (undispatched x) u) k q =
        let same : u ≡ w' = cc in subst (Within token (held token w.inner.reservations)) same k
    split (nothing u) k q =
        let same : u ≡ w' = cc in subst (Within token (held token w.inner.reservations)) same k
    split panics k q = cc
