-- ===== src/Tests/Requests.antt =====
-- The theorems on bad debt requests and on cached balances, on concrete inputs.
use alula_liquidator.Prelude.{
  ℕ, ◌≡◌, refl, ◌⊎◌, inl, String, true, false, Option, some, none, List, [], ◌∷◌, In,
}
use alula_liquidator.Prelude.Int.{ℤ, pos}
use alula_liquidator.Prelude.Outcome.{ok}
use alula_liquidator.Market.{ObligationKey, Obligation, is_empty}
use alula_liquidator.Profitability.{cents_to_oracle_value_ceil}
use alula_liquidator.Liquidation.Health.{no_dust}
use alula_liquidator.Capital.{LiquidatorCapitalConfig, get_freshly_cached_balance, new_capital}
use alula_liquidator.Execute.{Action, submit_tx}
use alula_liquidator.Withdrawer.{liquidate}
use alula_liquidator.BadDebt.{
  BadDebtRequestInitiator, ObligationRead, fresh, gone, Sweep,
  is_eligible_for_bad_debt_request_issuance, sweep_obligations, request_on_event,
}
use alula_liquidator.BadDebt.Eligible.{AllDust, NotLeft, is_eligible-true}
use alula_liquidator.BadDebt.Issue.{IssuedFor, sweep_obligations-issued, sweep_obligations-deleted}
use alula_liquidator.BadDebt.Event.{Requested, request_on_event-issued}
use alula_liquidator.Tests.Data.{program, market, borrow_a}

abbrev self : BadDebtRequestInitiator
self = record {
  skey = "secret";
  max_retries = 3;
  markets = "main" ∷ [];
  refresh_interval_blocks = 10;
  dust_rules = no_dust;
  min_profit_margin_cents = pos 100;
}

-- 200 tokens of debt, and one token of collateral worth less than the floor.
abbrev residual : Obligation
residual = record {
  borrows = borrow_a ∷ [];
  deposits = record { j_tokens = pos 1; collateral = pos 0; pool_address = "pool-b" } ∷ [];
  open_bad_debt_requests = 0;
}

eligible : is_eligible_for_bad_debt_request_issuance self 100 residual market ≡ ok true
unfolding program
eligible = refl

is_eligible-true_example :
    (is_empty residual.borrows ≡ false)
    × (residual.open_bad_debt_requests ≡ 0)
    × ((is_empty residual.deposits ≡ true)
        ⊎ ((threshold : ℤ) × (cents_to_oracle_value_ceil market.min_collateral_value_cents
                market.oracle_price_decimals
              ≡ ok threshold)
            × AllDust market threshold residual.deposits
            × NotLeft self 100 residual market))
is_eligible-true_example = is_eligible-true self 100 residual market eligible

abbrev alice : ObligationKey
alice = record { user = "alice"; seed = none }

abbrev bob : ObligationKey
bob = record { user = "bob"; seed = some "second" }

abbrev is_alice : Option String → ObligationRead
is_alice none = fresh residual
is_alice (some _) = gone

-- Alice's obligation is still there, Bob's is gone.
abbrev read : String → ObligationKey → ObligationRead
read _ key = is_alice key.seed

abbrev clock : ObligationKey → ℕ
clock _ = 100

abbrev cover : String → ObligationKey → Option String
cover _ key = some key.user

abbrev for_alice : Action String
for_alice =
    submit_tx (record {
      op = "alice";
      signing_key = "secret";
      max_submission_retries = 3;
      on_settle = none;
    })

abbrev cached : List (ObligationKey × Obligation)
cached = (alice, residual) ∷ (bob, residual) ∷ []

abbrev start : Sweep String
start = record { actions = []; deleted = [] }

abbrev swept : Sweep String
swept = record { actions = for_alice ∷ []; deleted = ("main", bob) ∷ [] }

sweeps : sweep_obligations cover clock clock read self "main" market cached start ≡ ok swept
unfolding program
sweeps = refl

sweep_obligations-issued_example :
    In for_alice start.actions
    ⊎ ((c : ObligationKey × Obligation) × In c cached
        × IssuedFor cover clock clock read self "main" market c.0 for_alice)
sweep_obligations-issued_example =
    sweep_obligations-issued cover clock clock read self "main" market cached start swept for_alice
      sweeps (inl refl)

sweep_obligations-deleted_example :
    In ("main", bob) start.deleted
    ⊎ ((c : ObligationKey × Obligation) × In c cached
        × (◌≡◌ {A = String × ObligationKey} ("main", bob) ("main", c.0))
        × (read "main" c.0 ≡ gone))
sweep_obligations-deleted_example =
    sweep_obligations-deleted cover clock clock read self "main" market cached start swept
      ("main", bob) sweeps (inl refl)

requests :
    request_on_event cover self 100 "main"
      (some liquidate)
      (some alice)
      (some (some residual))
      (some market)
    ≡ ok (for_alice ∷ [])
unfolding program
requests = refl

request_on_event-issued_example :
    In "main" self.markets
    × (some liquidate ≡ some liquidate)
    × Requested cover self 100 "main" (some alice) (some (some residual)) (some market) for_alice
request_on_event-issued_example =
    request_on_event-issued cover self 100 "main" (some liquidate) (some alice)
      (some (some residual)) (some market) (for_alice ∷ []) for_alice requests (inl refl)

abbrev config : LiquidatorCapitalConfig
config = record { xlm_address = "xlm"; reservation_ttl = 60; balance_cache_ttl = 10 }

none_cached : get_freshly_cached_balance config 100 "usdc" new_capital ≡ none
unfolding program
none_cached = refl
