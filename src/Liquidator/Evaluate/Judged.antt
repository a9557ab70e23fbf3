-- ===== src/Liquidator/Evaluate/Judged.antt =====
-- Which obligations the scan acts on (`evaulate_market` and `try_liquidate` of liquidator.rs).
use alula_liquidator.Gateway.{Gateway}
use alula_liquidator.Maps.{lookup}
use alula_liquidator.Prelude.{
  ℕ, suc, ◌≡◌, ◌⊎◌, ◌≤◌, refl, sym, subst, ◌∙◌, String, Bool, true, false, not, Option, some, none,
  List, [], ◌∷◌, In, inl, inr, ltb, str_eq, Bool-cases, arith,
}
use alula_liquidator.Prelude.Outcome.{ok}
use alula_liquidator.Market.{MarketData, Obligation, ObligationKey, is_empty, new_key}
use alula_liquidator.Liquidation.Health.{is_sweep, compute_is_liquidatable, compute_is_insolvent}
use alula_liquidator.Liquidation.Unpriced.{unpriced_pools_touched}
use alula_liquidator.Withdrawer.Deposit.{In-push}
use alula_liquidator.Execute.{Action, push}
use alula_liquidator.World.{
  Surroundings, World, M, value, pure, given, guard, dropping, attempt, look,
}
use alula_liquidator.World.Laws.{
  then-elim, given-eq-value, guard-eq-value, dropping-eq-value, pure-eq-value, attempt-eq-some,
}
use alula_liquidator.Liquidator.{LiquidationPlan, MarketSnapshot, age, Rows, Liquidator}
use alula_liquidator.Liquidator.Dispatch.{
  Dispatch, dispatched, undispatched, leaves_dust, other, execute_liquidation_plan,
}
use alula_liquidator.Liquidator.Evaluate.Aimed.{
  IsAimed, IsAimedOr, best_over_borrows-IsAimed, replan_pair-IsAimed,
}
use alula_liquidator.Liquidator.Evaluate.{
  rows_of, best_over_borrows, replan_pair, action_of, after_dispatch, try_liquidate,
  judge_obligation, judge_rows, judge_snapshot, evaulate_market,
}

module _ {Op : Type 0} {Request : Type 0} (gateway : Gateway Op Request) (env : Surroundings)
    (self : Liquidator) where
  -- The action is the dispatch of a plan on the borrower, with the strategy's own key as the batch's.
  abbrev pub IsPlanOf : String → ObligationKey → Action Op → Type 0
  IsPlanOf market key action =
      (plan : LiquidationPlan) × (before : World) × (after : World) × IsAimed key plan
      × (execute_liquidation_plan gateway env self.config self.skey market plan (new_key self.pkey)
            before
          ≡ value (dispatched action) after)

  action_of-value :
      (d : Dispatch Op) (action : Action Op) (w w' : World)
      → action_of d w ≡ value action w'
      → (d ≡ dispatched action)
  action_of-value (dispatched a) action w w' h = cc
  action_of-value (undispatched x) action w w' h = cc

  after_dispatch-IsPlanOf :
      (market : String) (is_insolvent : Bool) (view : MarketData) (obligation : Obligation)
      (key : ObligationKey) (plan : LiquidationPlan) (first : Dispatch Op) (action : Action Op)
      (before w w' : World)
      → IsAimed key plan
      → execute_liquidation_plan gateway env self.config self.skey market plan
          (new_key self.pkey)
          before
        ≡ value first w
      → after_dispatch gateway env self market is_insolvent view obligation key plan first w
        ≡ value action w'
      → IsPlanOf market key action
  unfolding after_dispatch
  after_dispatch-IsPlanOf market is_insolvent view obligation key plan (dispatched a) action before
        w w' aim e h =
      (plan, before, w, aim, e ∙ cc)
  after_dispatch-IsPlanOf market is_insolvent view obligation key plan (undispatched other) action
        before w w' aim e h =
      cc
  after_dispatch-IsPlanOf market is_insolvent view obligation key plan (undispatched leaves_dust)
        action before w w' aim e h =
      then-elim (guard (not (is_sweep self.config.dust_rules))) _ h λ _ u _ h₁.
        then-elim
          (replan_pair env self.config is_insolvent view obligation key plan.borrow_pool_address
            plan.collateral_pool_address)
          _ h₁
          λ again v r h₂.
            then-elim
              (execute_liquidation_plan gateway env self.config self.skey market again
                (new_key self.pkey))
              _ h₂
              λ retried x x_eq h₃.
                let same = action_of-value retried action x w' h₃ in
                (
                  again,
                  v,
                  x,
                  replan_pair-IsAimed env self.config is_insolvent view obligation key
                      plan.borrow_pool_address plan.collateral_pool_address u v again r,
                  x_eq ∙ (rw same),
                )

  -- What the scan has established of an obligation that it acts on.
  pub record IsActedOn (market : String) (view : MarketData) (key : ObligationKey)
      (obligation : Obligation) (action : Action Op) : Type 0 where
    not_own : str_eq key.user self.pkey ≡ false
    pub priced : is_empty (unpriced_pools_touched obligation view) ≡ true
    pub liquidatable : compute_is_liquidatable obligation view self.config.dust_rules ≡ ok true
    pub is_insolvent : Bool
    pub judged : compute_is_insolvent obligation view ≡ ok is_insolvent
    pub planned : IsPlanOf market key action

  judge_obligation-IsActedOn :
      (market : String) (view : MarketData) (key : ObligationKey) (obligation : Obligation)
      (action : Action Op) (w w' : World)
      → judge_obligation gateway env self market view key obligation w ≡ value action w'
      → IsActedOn market view key obligation action
  unfolding judge_obligation try_liquidate
  judge_obligation-IsActedOn market view key obligation action w w' h =
      then-elim (guard (not (str_eq key.user self.pkey))) _ h λ _ u₁ g₁ h₁.
        then-elim (guard (is_empty (unpriced_pools_touched obligation view))) _ h₁ λ _ u₂ g₂ h₂.
          then-elim (dropping (compute_is_liquidatable obligation view self.config.dust_rules)) _ h₂
            λ liquidatable u₃ g₃ h₃. then-elim (guard liquidatable) _ h₃ λ _ u₄ g₄ h₄.
              then-elim (dropping (compute_is_insolvent obligation view)) _ h₄
                λ is_insolvent u₅ g₅ h₅.
                  then-elim
                    (best_over_borrows env self.config is_insolvent view obligation key
                      obligation.borrows none)
                    _ h₅
                    λ best u₆ g₆ h₆. then-elim (given best) _ h₆ λ plan u₇ g₇ h₇.
                      then-elim
                        (execute_liquidation_plan gateway env self.config self.skey market plan
                          (new_key self.pkey))
                        _ h₇
                        λ first u₈ g₈ h₈. record {
                          not_own = negated (str_eq key.user self.pkey) ((guard-eq-value _ g₁).0);
                          priced = (guard-eq-value _ g₂).0;
                          liquidatable =
                              (dropping-eq-value _ g₃).0 ∙ (rw (guard-eq-value liquidatable g₄).0);
                          is_insolvent = is_insolvent;
                          judged = (dropping-eq-value _ g₅).0;
                          planned =
                              after_dispatch-IsPlanOf market is_insolvent view obligation key plan
                                first action u₇ u₈ w'
                                (subst (IsAimedOr key) (given-eq-value best g₇).0 (
                                  best_over_borrows-IsAimed env self.config is_insolvent view
                                    obligation key obligation.borrows none u₅ u₆ best tt g₆))
                                g₈ h₈;
                        }
    where
      negated : (b : Bool) → not b ≡ true → b ≡ false
      negated true e = cc
      negated false e = refl

  -- A row among these that the action is the outcome of.
  abbrev pub FromRow : String → MarketData → Rows → Action Op → Type 0
  FromRow market view rows action =
      (key : ObligationKey) × (obligation : Obligation) × (In (key, obligation) rows)
      × IsActedOn market view key obligation action

  In-pushed :
      (x : Action Op) (found : Option (Action Op)) (xs : List (Action Op))
      → In x (push found xs)
      → In x xs ⊎ (found ≡ some x)
  In-pushed x none xs i = inl i
  In-pushed x (some a) xs i = elim (In-push x a xs i) [ inl k ↦ inl k | inr e ↦ inr (rw e) ]

  judge_rows-FromRow :
      (market : String) (view : MarketData) (rows : Rows) (sofar : List (Action Op)) (w w' : World)
      (actions : List (Action Op)) (action : Action Op)
      → judge_rows gateway env self market view rows sofar w ≡ value actions w'
      → In action actions
      → In action sofar ⊎ FromRow market view rows action
  unfolding judge_rows
  judge_rows-FromRow market view [] sofar w w' actions action h i =
      inl (subst (In action) (sym (pure-eq-value h).0) i)
  judge_rows-FromRow market view ((key, obligation) ∷ rest) sofar w w' actions action h i =
      then-elim (attempt (judge_obligation gateway env self market view key obligation)) _ h
        λ found u e h₁.
          elim (judge_rows-FromRow market view rest (push found sofar) u w' actions action h₁ i) [
            | inl k ↦ elim (In-pushed action found sofar k) [
              | inl j ↦ inl j
              | inr q ↦ inr (
                key,
                obligation,
                inl refl,
                judge_obligation-IsActedOn market view key obligation action w u (
                    attempt-eq-some (judge_obligation gateway env self market view key obligation) (
                      subst
                        (λ z.
                          attempt (judge_obligation gateway env self market view key obligation) w
                          ≡ value z u)
                        q e)),
              )
            ]
            | inr r ↦ inr (r.0, r.1, inr r.2, r.3)
          ]

  judge_snapshot-FromRow :
      (market : String) (snapshot : MarketSnapshot) (started : ℕ) (w w' : World)
      (actions : List (Action Op)) (action : Action Op)
      → judge_snapshot gateway env self market snapshot started w ≡ value actions w'
      → In action actions
      → (age snapshot started ≤ self.config.max_market_data_age)
        × FromRow market snapshot.view (rows_of (lookup market self.obligations)) action
  unfolding judge_snapshot
  judge_snapshot-FromRow market snapshot started w w' actions action h i =
      elim (Bool-cases (ltb self.config.max_market_data_age (age snapshot started))) [
        | inl e ↦ absurd (subst (In action) (sym (pure-eq-value (rw e at h)).0) i)
        | inr e ↦
            elim (judge_rows-FromRow market snapshot.view (rows_of (lookup market self.obligations))
              [] w w' actions action (rw e at h) i) [
                | inl k ↦ absurd k
                | inr r ↦ (ground (arith, e), r)
              ]
      ]

-- Every action of a scan is the dispatch of a plan whose borrower is the owner of a cached obligation of
-- that market, judged on a view of the market that was refreshed, at the scan's start, no longer ago than
-- the configured age; the obligation is not the strategy's own, touches no unpriced pool, and is
-- liquidatable on that view.
pub evaulate_market-FromRow :
    {Op : Type 0} {Request : Type 0} (gateway : Gateway Op Request) (env : Surroundings)
    (self : Liquidator) (market : String) (w w' : World) (actions : List (Action Op))
    (action : Action Op)
    → evaulate_market gateway env self market w ≡ value actions w'
    → In action actions
    → (snapshot : MarketSnapshot) × (lookup market self.snapshots ≡ some snapshot)
      × (age snapshot (env.instant w.tick) ≤ self.config.max_market_data_age)
      × FromRow gateway env self market snapshot.view
          (rows_of (lookup market self.obligations))
          action
unfolding evaulate_market look
evaulate_market-FromRow {Op} gateway env self market w w' actions action h i =
    split (lookup market self.snapshots) refl h
  where
    split :
        (o : Option MarketSnapshot)
        → lookup market self.snapshots ≡ o
        → (elim o as (λ _. M (List (Action Op))) [
          | none ↦ pure []
          | some snapshot ↦ judge_snapshot gateway env self market snapshot (env.instant w.tick)
        ])
            (record { inner = w.inner; tick = suc w.tick })
          ≡ value actions w'
        → (snapshot : MarketSnapshot) × (lookup market self.snapshots ≡ some snapshot)
          × (age snapshot (env.instant w.tick) ≤ self.config.max_market_data_age)
          × FromRow gateway env self market snapshot.view
              (rows_of (lookup market self.obligations))
              action
    split none e q = absurd (subst (In action) (sym (pure-eq-value q).0) i)
    split (some snapshot) e q =
        let r =
          judge_snapshot-FromRow gateway env self market snapshot (env.instant w.tick) _ w' actions
            action q i in
        (snapshot, e, r.0, r.1)
