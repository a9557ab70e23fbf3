-- ===== src/Tests/Liquidations.antt =====
-- The theorems on the liquidator strategy, on concrete inputs.
use alula_liquidator.Gateway.{passed, Gateway}
use alula_liquidator.Maps.{lookup}
use alula_liquidator.Prelude.{
  true, ℕ, ◌≡◌, ◌≤◌, refl, String, false, Option, some, none, List, [], ◌∷◌, inl, arith,
}
use alula_liquidator.Prelude.Int.{ℤ, pos, ◌≤ℤ◌}
use alula_liquidator.Market.{ObligationKey}
use alula_liquidator.Liquidation.Health.{no_dust}
use alula_liquidator.Liquidation.Pair.{initial_margin}
use alula_liquidator.Execute.{Action}
use alula_liquidator.World.{Surroundings, World, value}
use alula_liquidator.Liquidator.{
  LiquidatorConfig, LiquidationPlan, LiquidationType, direct, flash, MarketSnapshot, age,
  Liquidator, Target,
}
use alula_liquidator.Liquidator.Build.{
  Sizing, direct_candidate, flash_candidate, build_liquidation_plan,
}
use alula_liquidator.Capital.{Reservation, CachedBalance, new_reservation}
use alula_liquidator.Capital.Ledger.{held, IsValid}
use alula_liquidator.Liquidator.Quotes.{best_swap_quote}
use alula_liquidator.Liquidator.Quotes.Best.{IsBest, offers, out_answers, best_swap_quote-IsBest}
use alula_liquidator.Liquidator.Plans.{new_plan}
use alula_liquidator.Liquidator.Plans.Profit.{IsDirect}
use alula_liquidator.Liquidator.Plans.Flash.{IsFlash}
use alula_liquidator.Liquidator.Build.Chosen.{
  ChosenFrom, direct_candidate-funded, flash_candidate-covered, build_liquidation_plan-ChosenFrom,
}
use alula_liquidator.Liquidator.Dispatch.Funds.{execute_liquidation_plan-undispatched}
use alula_liquidator.Liquidator.Dispatch.Backed.{
  IsDispatched, execute_liquidation_plan-IsDispatched,
}
use alula_liquidator.Liquidator.Evaluate.Judged.{FromRow, evaulate_market-FromRow}
use alula_liquidator.Liquidator.Dispatch.{
  other, dispatched, undispatched, submission, execute_liquidation_plan,
}
use alula_liquidator.Liquidator.Evaluate.{rows_of, evaulate_market}
use alula_liquidator.Tests.Data.{program, pool_a, pool_b, pair, market, obligation, deposit_b}

-- The wallet has 1000 of every token; the provider `amm` swaps one for two.
abbrev pub env : Surroundings
env = record {
  capital = record { xlm_address = "native"; reservation_ttl = 60; balance_cache_ttl = 10 };
  instant = λ n. 100;
  unix_now = λ n. 100;
  random_id = λ n. n;
  read_token_balance = λ n token. some (pos 1000);
  get_amount_out = λ n amount from to provider. some (pos 500);
  get_amount_in = λ n amount from to provider. some (pos 100);
  meanwhile = λ n i. i;
}

abbrev pub config : LiquidatorConfig
config = record {
  max_retries = 3;
  xlm_address = "native";
  markets = "m" ∷ [];
  xlm_safety_margin = pos 5;
  assets_to_hold = [];
  swap_providers = "amm" ∷ [];
  refresh_interval_blocks = 5;
  min_profit_margin_cents = pos 1;
  max_market_data_age = 30;
  max_allowed_swap_slippage_bps = pos 100;
  dust_rules = no_dust;
}

abbrev pub borrower : ObligationKey
borrower = record { user = "borrower"; seed = none }

abbrev pub target : Target
target = record {
  is_insolvent = false;
  borrow_pool = pool_a;
  obligation = obligation;
  market_data = market;
  collateral_pool = pool_b;
  deposit_position = deposit_b;
  borrower_key = borrower;
}

abbrev pub start : World
start = record { inner = record { reservations = []; balances = [] }; tick = 0 }

abbrev pub gateway : Gateway String String
gateway = record {
  liquidate_request = λ b p c r m. some "liquidate";
  flash_borrow_request = λ p a. some "flash";
  withdraw_request = λ p a. some "withdraw";
  swap_exact_tokens_request = λ s i o f t. some "swap";
  batch_op = λ m k r. some "batch";
  simulate_batch = λ n m k r. some passed;
}

abbrev pub self : Liquidator
self = record {
  pkey = "own";
  skey = "secret";
  config = config;
  last_refresh_ledger = 0;
  snapshots = ("m", record { view = market; refreshed_at = 90 }) ∷ [];
  obligations = ("m", (borrower, obligation) ∷ []) ∷ [];
  obligations_repo = record { carries_out = λ earlier write. true; calls = [] };
  cursor_repo = [];
}

-- The caps of the pair.
abbrev sizing : Sizing
sizing = record {
  pair = pair;
  lifts_close_factor = false;
  max_feasible_repay = pos 100;
  profit_margin_borrow = pos 1;
  max_profitable_repay = pos 100;
}

-- No provider quotes.
abbrev unquoted : Surroundings
unquoted = record env { get_amount_out = λ n amount from to provider. none }

abbrev plan_of : (repay net seized : ℤ) → LiquidationType → LiquidationPlan
plan_of repay net seized kind = new_plan target repay net seized kind

-- The world after some questions, with what is reserved and the cached balance of a token.
abbrev pub later_on : ℕ → List (ℕ × Reservation) → List (String × CachedBalance) → World
later_on tick reservations balances = record {
  inner = record { reservations = reservations; balances = balances };
  tick = tick;
}

abbrev pub fetched : String → List (String × CachedBalance)
fetched token = (token, record { amount = pos 1000; fetched_at = 100 }) ∷ []

best_swap_quote-IsBest_example :
    (r : Option (String × ℤ)) × (w' : World) × (best_swap_quote env
        ("amm" ∷ "other" ∷ [])
        (pos 210)
        "xlm"
        "usdc"
        start
      ≡ value r w')
    × IsBest
        (λ a b. a ≤ℤ b)
        r
        (offers (out_answers env (pos 210) "xlm" "usdc") 0 ("amm" ∷ "other" ∷ []))
best_swap_quote-IsBest_example =
    best_swap_quote-IsBest env (pos 210) "xlm" "usdc" ("amm" ∷ "other" ∷ []) start

direct_run :
    direct_candidate env config target sizing (pos 80) (pos 1) start
    ≡ value (plan_of (pos 80) (pos 40) (pos 168) direct) start
unfolding program
direct_run = refl

direct_candidate-funded_example :
    (repay : ℤ) × (repay ≤ℤ pos 80)
    × IsDirect no_dust target repay (pos 1) (plan_of (pos 80) (pos 40) (pos 168) direct)
direct_candidate-funded_example =
    direct_candidate-funded env config target sizing (pos 80) (pos 1) start start
      (plan_of (pos 80) (pos 40) (pos 168) direct) (omega arith) direct_run

abbrev flash_kind : LiquidationType
flash_kind = flash (pos 101) "amm" (pos 210)

flash_run :
    flash_candidate env config target sizing (pos 100) (pos 1) start
    ≡ value (plan_of (pos 100) (pos 40) (pos 210) flash_kind) (later_on 1 [] [])
unfolding program
flash_run = refl

flash_candidate-covered_example :
    (repay : ℤ) × (repay ≤ℤ pos 500)
    × IsFlash env config target repay
        (pos 1)
        start
        (plan_of (pos 100) (pos 40) (pos 210) flash_kind)
flash_candidate-covered_example =
    flash_candidate-covered env config target sizing (pos 100) (pos 1) start (later_on 1 [] [])
      (plan_of (pos 100) (pos 40) (pos 210) flash_kind) (omega arith) (omega arith) flash_run

build_run :
    build_liquidation_plan unquoted config target (pos 160) initial_margin start
    ≡ value (plan_of (pos 100) (pos 50) (pos 210) direct) (later_on 5 [] (fetched "usdc"))
unfolding program
build_run = refl

build_liquidation_plan-ChosenFrom_example :
    ChosenFrom unquoted config target
      (pos 160)
      initial_margin
      start
      (later_on 5 [] (fetched "usdc"))
      (plan_of (pos 100) (pos 50) (pos 210) direct)
build_liquidation_plan-ChosenFrom_example =
    build_liquidation_plan-ChosenFrom unquoted config target (pos 160) initial_margin start
      (later_on 5 [] (fetched "usdc")) (plan_of (pos 100) (pos 50) (pos 210) direct) build_run

abbrev direct_plan : LiquidationPlan
direct_plan = plan_of (pos 100) (pos 50) (pos 210) direct

abbrev dispatched_world : World
dispatched_world = later_on 5 ((4, new_reservation (pos 100) 100 "pool-a") ∷ []) (fetched "pool-a")

abbrev submitted : Action String
submitted = submission gateway env config "secret" "m" direct_plan 4 "batch"

dispatch_run :
    execute_liquidation_plan gateway env config "secret" "m" direct_plan borrower start
    ≡ value (dispatched submitted) dispatched_world
unfolding program
dispatch_run = refl

pub start-IsValid : IsValid start.inner
start-IsValid = record { sound = tt; unique = tt }

execute_liquidation_plan-IsDispatched_example :
    IsDispatched gateway env config "secret" "m" direct_plan borrower submitted start
      dispatched_world
execute_liquidation_plan-IsDispatched_example =
    execute_liquidation_plan-IsDispatched gateway env config "secret" "m" direct_plan borrower start
      submitted dispatched_world (λ n i v. v) start-IsValid dispatch_run

-- The builder fails after the reservation.
abbrev unbuilt : Gateway String String
unbuilt = record gateway { batch_op = λ m k r. none }

undispatch_run :
    execute_liquidation_plan unbuilt env config "secret" "m" direct_plan borrower start
    ≡ value (undispatched other) (later_on 5 [] (fetched "pool-a"))
unfolding program
undispatch_run = refl

execute_liquidation_plan-undispatched_example : held "pool-a" [] ≤ 0
execute_liquidation_plan-undispatched_example =
    execute_liquidation_plan-undispatched unbuilt env config "secret" "pool-a" "m" direct_plan
      borrower start other (later_on 5 [] (fetched "pool-a")) (λ n i. omega arith) undispatch_run

abbrev scanned : Action String
scanned =
    submission gateway env config "secret" "m" (plan_of (pos 100) (pos 40) (pos 210) flash_kind) 7
      "batch"

scan_run :
    evaulate_market gateway env self "m" start
    ≡ value (scanned ∷ []) (later_on 8 [] (fetched "usdc"))
unfolding program
scan_run = refl

evaulate_market-FromRow_example :
    (snapshot : MarketSnapshot) × (lookup "m" self.snapshots ≡ some snapshot)
    × (age snapshot 100 ≤ 30)
    × FromRow gateway env self "m" snapshot.view (rows_of (lookup "m" self.obligations)) scanned
evaulate_market-FromRow_example =
    evaulate_market-FromRow gateway env self "m" start (later_on 8 [] (fetched "usdc"))
      (scanned ∷ []) scanned scan_run (inl refl)
