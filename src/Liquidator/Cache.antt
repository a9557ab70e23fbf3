-- ===== src/Liquidator/Cache.antt =====
-- The market views and the cached obligations that the strategy keeps (`install_snapshot`,
-- `refresh_market_data`, `sync_state`, `handle_soroban_event` and the obligation cache of
-- liquidator.rs), and the step on a new ledger. The event's topics and its value come decoded: what each
-- decoding returns is an argument. A call of the obligations' database may fail, which changes nothing
-- else; a call of the cursor repository is recorded only.
pub mod Maps
pub mod Keys
pub mod Mirror
pub mod Views
pub mod Refresh
use alula_liquidator.Maps.{insert_at}
use alula_liquidator.Gateway.{Gateway}
use alula_liquidator.Maps.{lookup}
use alula_liquidator.Prelude.{
  ℕ, ◌-◌, String, Bool, true, false, ◌&&◌, Option, some, none, List, [], ◌∷◌, ltb, str_eq,
  if◌then◌else◌,
}
use alula_liquidator.Market.{
  MarketData, prices_nothing, Obligation, ObligationKey, is_empty, new_key,
}
use alula_liquidator.Liquidation.Unpriced.{contains}
use alula_liquidator.Execute.{Action}
use alula_liquidator.World.{Surroundings, World, M, pure, look, await, ◌>>=◌, ◌>>◌}
use alula_liquidator.Withdrawer.{
  OperationEvent, repay, borrow, deposit, withdraw, liquidate, add_collateral, remove_collateral,
  issue_cover_bad_debt, claim_cover_bad_debt_results,
}
use alula_liquidator.BadDebt.{ObligationRead, fresh, gone, failed}
use alula_liquidator.Liquidator.{
  MarketSnapshot, RepoWrite, put, delete, ObligationsRepo, Rows, Liquidator,
}
use alula_liquidator.Liquidator.Evaluate.{rows_of, evaulate_markets}

-- The derived equality of keys.
abbrev pub seed_eq : Option String → Option String → Bool
seed_eq none none = true
seed_eq (some a) (some b) = str_eq a b
seed_eq _ _ = false

abbrev pub key_eq : ObligationKey → ObligationKey → Bool
key_eq a b = str_eq a.user b.user && seed_eq a.seed b.seed

-- `HashMap::insert` and `HashMap::remove` on keys.
unfoldable pub insert_row : ObligationKey → Obligation → Rows → Rows
insert_row key o [] = (key, o) ∷ []
insert_row key o ((k, p) ∷ rest) =
    let later = insert_row key o rest in if key_eq k key then (key, o) ∷ rest else (k, p) ∷ later

unfoldable pub remove_row : ObligationKey → Rows → Rows
remove_row key [] = []
remove_row key ((k, p) ∷ rest) =
    let later = remove_row key rest in if key_eq k key then later else (k, p) ∷ later

-- `self.obligations_repo.put(..)` and `.delete(..)`: the answer is kept beside the call, and read by
-- nothing but a warning.
unfoldable pub call_repo : RepoWrite → ObligationsRepo → ObligationsRepo
call_repo write repo = record repo {
  calls = (write, repo.carries_out repo.calls write) ∷ repo.calls;
}

-- `entry(market).or_default().insert(key, obligation)`, after the call, whether it failed or not.
unfoldable pub upsert_obligation : String → ObligationKey → Obligation → Liquidator → Liquidator
upsert_obligation market key obligation self = record self {
  obligations_repo = call_repo (put market key obligation) self.obligations_repo;
  obligations =
      insert_at market (insert_row key obligation (rows_of (lookup market self.obligations)))
        self.obligations;
}

-- `get_mut(market)`, then `remove(key)`.
unfoldable pub remove_at : ObligationKey → String → List (String × Rows) → List (String × Rows)
remove_at key market [] = []
remove_at key market ((s, rows) ∷ rest) =
    let later = remove_at key market rest in
    if str_eq s market then (s, remove_row key rows) ∷ rest else (s, rows) ∷ later

unfoldable pub delete_obligation : String → ObligationKey → Liquidator → Liquidator
delete_obligation market key self = record self {
  obligations_repo = call_repo (delete market key) self.obligations_repo;
  obligations = remove_at key market self.obligations;
}

-- What a value's field parses to: an obligation, none (it was deleted), or an error.
unfoldable pub apply_obligation_snapshot :
    String → ObligationKey → Option (Option Obligation) → Liquidator → Liquidator
apply_obligation_snapshot market key (some (some obligation)) self =
    upsert_obligation market key obligation self
apply_obligation_snapshot market key (some none) self = delete_obligation market key self
apply_obligation_snapshot market key none self = self

unfoldable pub apply_read : String → ObligationKey → ObligationRead → Liquidator → Liquidator
apply_read market key (fresh obligation) self = upsert_obligation market key obligation self
apply_read market key gone self = delete_obligation market key self
apply_read market key failed self = self

-- An event as the gateway decodes it: its operation, the key in each topic, the address in topic 1, the
-- obligation under each field of its value, and its id and ledger.
pub record DecodedEvent : Type 0 where
  pub contract_id : String
  pub operation : Option OperationEvent
  pub key_of_topic : ℕ → Option ObligationKey
  pub liquidator : String
  pub field : (name : String) → ObligationKey → Option (Option Obligation)
  pub id : String
  pub ledger : ℕ

unfoldable pub save_cursor : DecodedEvent → Liquidator → Liquidator
save_cursor event self = record self { cursor_repo = (event.id, event.ledger) ∷ self.cursor_repo }

module _ (env : Surroundings)
    (read_user_obligation : ℕ → String → ObligationKey → ObligationRead) where
  unfoldable pub reread_obligation : String → ObligationKey → Liquidator → M Liquidator
  reread_obligation market key self = do
    answer ← await env (λ n. read_user_obligation n market key)
    pure (apply_read market key answer self)

  -- A position update: the obligation stands under `obligation`.
  unfoldable pub on_position : DecodedEvent → Option ObligationKey → Liquidator → M Liquidator
  on_position event none self = pure self
  on_position event (some key) self = pure (
      save_cursor event
        (apply_obligation_snapshot event.contract_id key (event.field "obligation" key) self))

  unfoldable pub on_liquidation : DecodedEvent → Option ObligationKey → Liquidator → M Liquidator
  on_liquidation event none self = pure self
  on_liquidation event (some borrower) self =
      let own : ObligationKey = record { user = event.liquidator; seed = none } in
      pure (
        save_cursor event (
          apply_obligation_snapshot event.contract_id own (event.field "liquidator_obligation" own)
            (apply_obligation_snapshot event.contract_id borrower
              (event.field "borrower_obligation" borrower) self)))

  unfoldable pub on_issue : DecodedEvent → Option ObligationKey → Liquidator → M Liquidator
  on_issue event none self = pure self
  on_issue event (some key) self = do
    reread ← reread_obligation event.contract_id key self
    pure (save_cursor event reread)

  unfoldable pub apply_event : DecodedEvent → OperationEvent → Liquidator → M Liquidator
  apply_event event liquidate self = on_liquidation event (event.key_of_topic 2) self
  apply_event event issue_cover_bad_debt self = on_issue event (event.key_of_topic 1) self
  apply_event event claim_cover_bad_debt_results self =
      on_position event (event.key_of_topic 1) self
  apply_event event deposit self = on_position event (event.key_of_topic 2) self
  apply_event event borrow self = on_position event (event.key_of_topic 2) self
  apply_event event add_collateral self = on_position event (event.key_of_topic 2) self
  apply_event event repay self = on_position event (event.key_of_topic 2) self
  apply_event event withdraw self = on_position event (event.key_of_topic 2) self
  apply_event event remove_collateral self = on_position event (event.key_of_topic 2) self

  unfoldable pub apply_decoded : DecodedEvent → Option OperationEvent → Liquidator → M Liquidator
  apply_decoded event none self = pure self
  apply_decoded event (some operation) self = apply_event event operation self

  -- `handle_soroban_event`, which returns no action.
  unfoldable pub liquidator_on_event : DecodedEvent → Liquidator → M Liquidator
  liquidator_on_event event self =
      let applied = apply_decoded event event.operation self in
      if contains self.config.markets event.contract_id then applied else pure self

-- A view that prices no pool is refused.
unfoldable pub install_snapshot : String → MarketData → ℕ → Liquidator → Liquidator
install_snapshot market market_data now self =
    let installed = record self {
      snapshots =
          insert_at market (record { view = market_data; refreshed_at = now }) self.snapshots;
    } in
    if prices_nothing market_data then self else installed

-- `load_all` answers the rows of a market, `none` where it fails.
unfoldable pub load_rows : String → Option Rows → Liquidator → Liquidator
load_rows market loaded self = record self {
  obligations = insert_at market (rows_of loaded) self.obligations;
}

module _ (env : Surroundings) (read_market_data : ℕ → String → Option MarketData) where
  unfoldable pub install_read : String → Option MarketData → Liquidator → M Liquidator
  install_read market none self = pure self
  install_read market (some market_data) self = do
    now ← look env.instant
    pure (install_snapshot market market_data now self)

  unfoldable pub refresh_markets : List String → Liquidator → M Liquidator
  refresh_markets [] self = pure self
  refresh_markets (market ∷ rest) self = do
    answer ← await env (λ n. read_market_data n market)
    next ← install_read market answer self
    refresh_markets rest next

  unfoldable pub refresh_market_data : Liquidator → M Liquidator
  refresh_market_data self = refresh_markets self.config.markets self

  unfoldable pub sync_markets : (String → Option Rows) → List String → Liquidator → M Liquidator
  sync_markets load_all [] self = pure self
  sync_markets load_all (market ∷ rest) self = do
    answer ← await env (λ n. read_market_data n market)
    next ← install_read market answer self
    sync_markets load_all rest (load_rows market (load_all market) next)

  unfoldable pub sync_state : (String → Option Rows) → Liquidator → M Liquidator
  sync_state load_all self = sync_markets load_all self.config.markets self

  module _ {Op : Type 0} {Request : Type 0} (gateway : Gateway Op Request) where
    -- `handle_new_ledger`
    unfoldable pub liquidate_on_new_ledger : ℕ → Liquidator → M (List (Action Op) × Liquidator)
    liquidate_on_new_ledger seq_num self =
        let refreshed = do
          next ← refresh_market_data (record self { last_refresh_ledger = seq_num })
          actions ← evaulate_markets gateway env next next.config.markets []
          pure (actions, next)
        in if ltb (seq_num - self.last_refresh_ledger) self.config.refresh_interval_blocks
          then pure ([], self)
          else refreshed
