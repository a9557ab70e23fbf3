-- ===== src/Tests/Cached.antt =====
-- The theorems on the strategy's cached views and obligations, on concrete inputs.
use alula_liquidator.Prelude.{
  ℕ, ◌≡◌, ◌≢◌, ◌⊎◌, [], refl, subst, String, false, Option, some, none, List, inl, inr, Bool-cases,
  str_eq, if◌then◌else◌,
}
use alula_liquidator.Market.{MarketData, prices_nothing, ObligationKey}
use alula_liquidator.Execute.{Action}
use alula_liquidator.World.{value, World}
use alula_liquidator.World.Laws.{Reaches}
use alula_liquidator.Withdrawer.{liquidate}
use alula_liquidator.BadDebt.{ObligationRead, fresh}
use alula_liquidator.Liquidator.{MarketSnapshot, Rows, Liquidator}
use alula_liquidator.Liquidator.Cache.{
  DecodedEvent, liquidator_on_event, refresh_market_data, sync_state, liquidate_on_new_ledger,
}
use alula_liquidator.Liquidator.Cache.Views.{IsPriced, views-IsPriced}
use alula_liquidator.Liquidator.Cache.Refresh.{IsRefreshed, refresh_market_data-IsRefreshed}
use alula_liquidator.Tests.Data.{program, market, obligation}
use alula_liquidator.Tests.Liquidations.{env, gateway, self, borrower, start}

abbrev read_market : ℕ → String → Option MarketData
read_market n m = some market

abbrev read_obligation : ℕ → String → ObligationKey → ObligationRead
read_obligation n m key = fresh obligation

abbrev load : String → Option Rows
load m = none

-- A liquidation that deleted the borrower's obligation and left the liquidator one.
abbrev liquidated : DecodedEvent
liquidated = record {
  contract_id = "m";
  operation = some liquidate;
  key_of_topic = λ n. some borrower;
  liquidator = "rival";
  field =
      λ name key. if str_eq name "borrower_obligation" then some none else some (some obligation);
  id = "e1";
  ledger = 7;
}

priced_market : prices_nothing market ≡ false
unfolding program
priced_market = refl

self-IsPriced : IsPriced self
unfolding program
self-IsPriced m snapshot h = elim (Bool-cases (str_eq "m" m)) [
  | inl e ↦
      let same : some (record { view = market; refreshed_at = 90 }) ≡ some snapshot = rw e at h in
      subst (λ (z : MarketSnapshot). (z.view.pools_data ≢ []) ⊎ (z.view.unavailable_pools ≡ []))
        (held same) (inl (λ k. cc))
  | inr e ↦ absurd (never (rw e at h))
]
  where
    held : {a b : MarketSnapshot} → some a ≡ some b → a ≡ b
    held k = cc

    never : none ≡ some snapshot → ⊥
    never k = cc

views-IsPriced_example :
    Reaches (λ next _. IsPriced next) (sync_state env read_market load self start)
    × Reaches
        (λ next _. IsPriced next)
        (liquidator_on_event env read_obligation liquidated self start)
    × ((actions : List (Action String)) (next : Liquidator) (w' : World)
        → liquidate_on_new_ledger env read_market gateway 9 self start ≡ value (actions, next) w'
        → IsPriced next)
views-IsPriced_example =
    views-IsPriced gateway env read_market read_obligation load liquidated 9 self start
      self-IsPriced

refresh_market_data-IsRefreshed_example :
    Reaches
      (λ next u. IsRefreshed env read_market "m" 0 u.tick next)
      (refresh_market_data env read_market self start)
refresh_market_data-IsRefreshed_example =
    refresh_market_data-IsRefreshed env read_market "m" self start
      (λ n. (market, refl, priced_market)) (inl refl)
