-- ===== src/Liquidator/Cache/Views.antt =====
-- The market views that the strategy holds (`install_snapshot`, `refresh_market_data` and `sync_state`
-- of liquidator.rs).
use alula_liquidator.Gateway.{Gateway}
use alula_liquidator.Maps.{lookup, insert_at}
use alula_liquidator.Maps.Laws.{lookup-insert_at, lookup-insert_at-other}
use alula_liquidator.Prelude.{
  ℕ, ◌-◌, ap, ◌≡◌, ◌≢◌, ◌⊎◌, ◌&&◌, not, refl, sym, subst, ◌∙◌, inl, inr, String, false, Option,
  some, none, List, [], ◌∷◌, Bool-cases, ltb, str_eq, eq_iff,
}
use alula_liquidator.Pool.{PoolData}
use alula_liquidator.Market.{MarketData, is_empty, prices_nothing, Obligation, ObligationKey}
use alula_liquidator.World.{Surroundings, World, Run, value, nothing, panics, look, await, waited}
use alula_liquidator.World.Laws.{Reaches, then-Reaches, then-elim, pure-eq-value}
use alula_liquidator.Liquidation.Unpriced.{contains}
use alula_liquidator.Execute.{Action}
use alula_liquidator.Withdrawer.{
  OperationEvent, repay, borrow, deposit, withdraw, liquidate, add_collateral, remove_collateral,
  issue_cover_bad_debt, claim_cover_bad_debt_results,
}
use alula_liquidator.BadDebt.{ObligationRead, fresh, gone, failed}
use alula_liquidator.Liquidator.{MarketSnapshot, Rows, Liquidator}
use alula_liquidator.Liquidator.Evaluate.{evaulate_markets}
use alula_liquidator.Liquidator.Cache.{
  DecodedEvent, upsert_obligation, delete_obligation, apply_obligation_snapshot, apply_read,
  save_cursor, reread_obligation, on_position, on_liquidation, on_issue, apply_event, apply_decoded,
  liquidator_on_event, liquidate_on_new_ledger, install_snapshot, install_read, refresh_markets,
  refresh_market_data, load_rows, sync_markets, sync_state,
}

-- Every view that is held prices some pool, or names none as unavailable.
abbrev pub IsPriced : Liquidator → Type 0
IsPriced self =
    (market : String) (snapshot : MarketSnapshot)
    → lookup market self.snapshots ≡ some snapshot
    → (snapshot.view.pools_data ≢ []) ⊎ (snapshot.view.unavailable_pools ≡ [])

-- What the test of a view admits.
prices_or_complete :
    (view : MarketData)
    → prices_nothing view ≡ false
    → (view.pools_data ≢ []) ⊎ (view.unavailable_pools ≡ [])
unfolding prices_nothing
prices_or_complete view h = split view.pools_data view.unavailable_pools h
  where
    split :
        (pools : List PoolData) (unavailable : List String)
        → (is_empty pools && not (is_empty unavailable)) ≡ false
        → (pools ≢ []) ⊎ (unavailable ≡ [])
    split (p ∷ rest) unavailable k = inl (λ e. cc)
    split [] [] k = inr refl
    split [] (u ∷ rest) k = cc

install_snapshot-IsPriced :
    (market : String) (view : MarketData) (now : ℕ) (self : Liquidator)
    → IsPriced self
    → IsPriced (install_snapshot market view now self)
unfolding install_snapshot
install_snapshot-IsPriced market view now self h = elim (Bool-cases (prices_nothing view)) [
  | inl e ↦ rw e h
  | inr e ↦ rw e (λ m s l. elim (Bool-cases (str_eq market m)) [
    | inl same ↦
        let first : lookup m
              (insert_at market (record { view = view; refreshed_at = now }) self.snapshots)
            ≡ some (record { view = view; refreshed_at = now }) =
          subst
            (λ z.
              lookup z
                (insert_at market (record { view = view; refreshed_at = now }) self.snapshots)
              ≡ some (record { view = view; refreshed_at = now }))
            ((eq_iff market m).0 same)
            (lookup-insert_at market (record { view = view; refreshed_at = now }) self.snapshots) in
        subst (λ (z : MarketSnapshot). (z.view.pools_data ≢ []) ⊎ (z.view.unavailable_pools ≡ []))
          (some-injective (sym first ∙ l)) (prices_or_complete view e)
    | inr differs ↦ h m s (
        sym (
          lookup-insert_at-other m market (record { view = view; refreshed_at = now })
            self.snapshots differs)
        ∙ l)
  ])
]
  where
    some-injective : {a b : MarketSnapshot} → some a ≡ some b → a ≡ b
    some-injective k = cc

module _ (env : Surroundings) (read_market_data : ℕ → String → Option MarketData) where
  install_read-IsPriced :
      (market : String) (answer : Option MarketData) (self : Liquidator) (w : World)
      → IsPriced self
      → Reaches (λ next _. IsPriced next) (install_read env read_market_data market answer self w)
  unfolding install_read look
  install_read-IsPriced market none self w h = h
  install_read-IsPriced market (some view) self w h =
      install_snapshot-IsPriced market view (env.instant w.tick) self h

  sync_markets-IsPriced :
      (load_all : String → Option (List (ObligationKey × Obligation))) (markets : List String)
      (self : Liquidator) (w : World)
      → IsPriced self
      → Reaches
          (λ next _. IsPriced next)
          (sync_markets env read_market_data load_all markets self w)
  unfolding sync_markets await load_rows
  sync_markets-IsPriced load_all [] self w h = h
  sync_markets-IsPriced load_all (market ∷ rest) self w h =
      then-Reaches (install_read env read_market_data market (read_market_data w.tick market) self)
        _ (waited env w) (λ next _. IsPriced next) (λ next _. IsPriced next)
        (install_read-IsPriced market (read_market_data w.tick market) self (waited env w) h)
        λ next u k.
          sync_markets-IsPriced load_all rest (load_rows market (load_all market) next) u k

  refresh_markets-IsPriced :
      (markets : List String) (self : Liquidator) (w : World)
      → IsPriced self
      → Reaches (λ next _. IsPriced next) (refresh_markets env read_market_data markets self w)
  unfolding refresh_markets await
  refresh_markets-IsPriced [] self w h = h
  refresh_markets-IsPriced (market ∷ rest) self w h =
      then-Reaches (install_read env read_market_data market (read_market_data w.tick market) self)
        _ (waited env w) (λ next _. IsPriced next) (λ next _. IsPriced next)
        (install_read-IsPriced market (read_market_data w.tick market) self (waited env w) h)
        λ next u k. refresh_markets-IsPriced rest next u k

same_snapshots : (a b : Liquidator) → b.snapshots ≡ a.snapshots → IsPriced a → IsPriced b
same_snapshots a b e h market snapshot l =
    h market snapshot (subst (λ z. lookup market z ≡ some snapshot) e l)

-- An event changes no view.
apply_obligation_snapshot-snapshots :
    (market : String) (key : ObligationKey) (parsed : Option (Option Obligation))
    (self : Liquidator)
    → (apply_obligation_snapshot market key parsed self).snapshots ≡ self.snapshots
unfolding apply_obligation_snapshot upsert_obligation delete_obligation
apply_obligation_snapshot-snapshots market key none self = refl
apply_obligation_snapshot-snapshots market key (some none) self = refl
apply_obligation_snapshot-snapshots market key (some (some o)) self = refl

apply_read-snapshots :
    (market : String) (key : ObligationKey) (answer : ObligationRead) (self : Liquidator)
    → (apply_read market key answer self).snapshots ≡ self.snapshots
unfolding apply_read upsert_obligation delete_obligation
apply_read-snapshots market key (fresh o) self = refl
apply_read-snapshots market key gone self = refl
apply_read-snapshots market key failed self = refl

module _ (env : Surroundings)
    (read_user_obligation : ℕ → String → ObligationKey → ObligationRead) where
  on_position-snapshots :
      (event : DecodedEvent) (key : Option ObligationKey) (self : Liquidator) (w : World)
      → Reaches
          (λ next _. next.snapshots ≡ self.snapshots)
          (on_position env read_user_obligation event key self w)
  unfolding on_position save_cursor
  on_position-snapshots event none self w = refl
  on_position-snapshots event (some key) self w =
      apply_obligation_snapshot-snapshots event.contract_id key (event.field "obligation" key) self

  on_liquidation-snapshots :
      (event : DecodedEvent) (key : Option ObligationKey) (self : Liquidator) (w : World)
      → Reaches
          (λ next _. next.snapshots ≡ self.snapshots)
          (on_liquidation env read_user_obligation event key self w)
  unfolding on_liquidation save_cursor
  on_liquidation-snapshots event none self w = refl
  on_liquidation-snapshots event (some key) self w =
      let own : ObligationKey = record { user = event.liquidator; seed = none } in
      let one = event.field "borrower_obligation" key in
      apply_obligation_snapshot-snapshots event.contract_id own
        (event.field "liquidator_obligation" own)
        (apply_obligation_snapshot event.contract_id key one self)
      ∙ apply_obligation_snapshot-snapshots event.contract_id key one self

  on_issue-snapshots :
      (event : DecodedEvent) (key : Option ObligationKey) (self : Liquidator) (w : World)
      → Reaches
          (λ next _. next.snapshots ≡ self.snapshots)
          (on_issue env read_user_obligation event key self w)
  unfolding on_issue reread_obligation await save_cursor
  on_issue-snapshots event none self w = refl
  on_issue-snapshots event (some key) self w =
      apply_read-snapshots event.contract_id key (read_user_obligation w.tick event.contract_id key)
        self

  apply_decoded-snapshots :
      (event : DecodedEvent) (operation : Option OperationEvent) (self : Liquidator) (w : World)
      → Reaches
          (λ next _. next.snapshots ≡ self.snapshots)
          (apply_decoded env read_user_obligation event operation self w)
  unfolding apply_decoded apply_event
  apply_decoded-snapshots event none self w = refl
  apply_decoded-snapshots event (some liquidate) self w =
      on_liquidation-snapshots event (event.key_of_topic 2) self w
  apply_decoded-snapshots event (some issue_cover_bad_debt) self w =
      on_issue-snapshots event (event.key_of_topic 1) self w
  apply_decoded-snapshots event (some claim_cover_bad_debt_results) self w =
      on_position-snapshots event (event.key_of_topic 1) self w
  apply_decoded-snapshots event (some deposit) self w =
      on_position-snapshots event (event.key_of_topic 2) self w
  apply_decoded-snapshots event (some borrow) self w =
      on_position-snapshots event (event.key_of_topic 2) self w
  apply_decoded-snapshots event (some add_collateral) self w =
      on_position-snapshots event (event.key_of_topic 2) self w
  apply_decoded-snapshots event (some repay) self w =
      on_position-snapshots event (event.key_of_topic 2) self w
  apply_decoded-snapshots event (some withdraw) self w =
      on_position-snapshots event (event.key_of_topic 2) self w
  apply_decoded-snapshots event (some remove_collateral) self w =
      on_position-snapshots event (event.key_of_topic 2) self w

  liquidator_on_event-snapshots :
      (event : DecodedEvent) (self : Liquidator) (w : World)
      → Reaches
          (λ next _. next.snapshots ≡ self.snapshots)
          (liquidator_on_event env read_user_obligation event self w)
  unfolding liquidator_on_event
  liquidator_on_event-snapshots event self w =
      elim (Bool-cases (contains self.config.markets event.contract_id)) [
        | inl e ↦ rw e (apply_decoded-snapshots event event.operation self w)
        | inr e ↦ rw e refl
      ]

-- Every view that the strategy holds prices some pool, or names no pool as unavailable, so that a market
-- read of which every pool failed is never held. The initial load and every event return with a state of
-- which that holds, if it held before, and so does every new ledger's step that returns.
pub views-IsPriced :
    {Op : Type 0} {Request : Type 0} (gateway : Gateway Op Request) (env : Surroundings)
    (read_market_data : ℕ → String → Option MarketData)
    (read_user_obligation : ℕ → String → ObligationKey → ObligationRead)
    (load_all : String → Option Rows) (event : DecodedEvent) (seq_num : ℕ) (self : Liquidator)
    (w : World)
    → IsPriced self
    → Reaches (λ next _. IsPriced next) (sync_state env read_market_data load_all self w)
      × Reaches
          (λ next _. IsPriced next)
          (liquidator_on_event env read_user_obligation event self w)
      × ((actions : List (Action Op)) (next : Liquidator) (w' : World)
          → liquidate_on_new_ledger env read_market_data gateway seq_num self w
            ≡ value (actions, next) w'
          → IsPriced next)
unfolding sync_state liquidate_on_new_ledger refresh_market_data
views-IsPriced gateway env read_market_data read_user_obligation load_all event seq_num self w h = (
  sync_markets-IsPriced env read_market_data load_all self.config.markets self w h,
  weaken (liquidator_on_event env read_user_obligation event self w)
      (liquidator_on_event-snapshots env read_user_obligation event self w),
  λ actions next w' e.
      elim (Bool-cases
        (ltb (seq_num - self.last_refresh_ledger) self.config.refresh_interval_blocks)) [
          | inl q ↦
              let r = pure-eq-value (rw q at e) in
              same_snapshots self next (ap (λ z. z.1.snapshots) (sym r.0)) h
          | inr q ↦
              then-elim
                (refresh_markets env read_market_data self.config.markets
                  (record self { last_refresh_ledger = seq_num }))
                _ (rw q at e)
                λ refreshed u r e₁.
                  then-elim (evaulate_markets gateway env refreshed refreshed.config.markets []) _
                    e₁
                    λ found v _ e₂.
                      same_snapshots refreshed next
                        (ap (λ z. z.1.snapshots) (sym (pure-eq-value e₂).0))
                        (subst (Reaches (λ x _. IsPriced x)) r (
                          refresh_markets-IsPriced env read_market_data self.config.markets
                            (record self { last_refresh_ledger = seq_num }) w h))
        ],
)
  where
    weaken :
        (r : Run Liquidator)
        → Reaches (λ next _. next.snapshots ≡ self.snapshots) r
        → Reaches (λ next _. IsPriced next) r
    weaken (value a u) e = same_snapshots self a e h
    weaken (nothing u) e = absurd e
    weaken panics e = absurd e
