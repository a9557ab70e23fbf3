-- ===== src/Tests/Swaps.antt =====
-- The theorems on the balancer and on the executor, on concrete inputs.
use alula_liquidator.Prelude.{
  ◌+◌, ◌*◌, ◌<◌, ◌==◌, ◌≡◌, refl, String, true, some, none, [], ◌∷◌, arith, if◌then◌else◌,
}
use alula_liquidator.Prelude.Int.{pos}
use alula_liquidator.Capital.{new_reservation}
use alula_liquidator.Execute.{Action, TransactionSettleHook, SubmitStellarTx}
use alula_liquidator.Execute.Submit.{Rpc, sent, refused, execute}
use alula_liquidator.Execute.Submit.Settled.{IsSettling, execute-IsSettling}
use alula_liquidator.World.{World, value}
use alula_liquidator.World.Laws.{Reaches}
use alula_liquidator.Balancer.{Balancer, swap_action, evaluate_rebalancable_candidate}
use alula_liquidator.Balancer.Impact.{compute_swap_price_impact}
use alula_liquidator.Balancer.Impact.Bounds.{input, output, compute_swap_price_impact-bounds}
use alula_liquidator.Balancer.Swap.{IsSwap, evaluate_rebalancable_candidate-IsSwap}
use alula_liquidator.Tests.Data.{program}
use alula_liquidator.Tests.Liquidations.{
  env, gateway, start, start-IsValid, later_on, fetched, borrower,
}

abbrev balancer : Balancer
balancer = record {
  pkey = "own";
  skey = "secret";
  config = record {
    market = "m";
    xlm_address = "native";
    xlm_safety_margin = pos 5;
    max_price_impact_bps = pos 100;
    max_retries = 3;
    allowed_swap_slippage_bps = pos 50;
    assets_to_hold = "pool-a" ∷ [];
    swap_providers = "amm" ∷ [];
    refresh_interval_blocks = 5;
    max_swap_provider_probes = 4;
    min_swap_amount_value_cents = pos 10;
  };
  liquidator_key = borrower;
  asset_index =
      ("pool-a", record { decimals = 1; oracle_price = pos 100; oracle_decimals = 2 })
      ∷ ("pool-b", record { decimals = 1; oracle_price = pos 50; oracle_decimals = 2 })
      ∷ [];
}

no_loss :
    compute_swap_price_impact (pos 50) (pos 1000) (pos 500) 1 1 2
    ≡ some (record { bps = pos 0; execution_price_scaled = pos 50 })
unfolding program
no_loss = refl

compute_swap_price_impact-bounds_example :
    10000 * (50 * input 1000 1 1) < 10000 * output 500 1 1 2 + 101 * (50 * input 1000 1 1)
compute_swap_price_impact-bounds_example =
    compute_swap_price_impact-bounds 50 1000 500 1 1 2 100
      (record { bps = pos 0; execution_price_scaled = pos 50 }) no_loss (omega arith)

abbrev swapped : Action String
swapped = swap_action env balancer gateway "batch" 4

abbrev swapped_world : World
swapped_world = later_on 5 ((4, new_reservation (pos 1000) 100 "pool-b") ∷ []) (fetched "pool-b")

swap_run :
    evaluate_rebalancable_candidate env balancer gateway "pool-a" "pool-b" 2
      (pos 100)
      (pos 50)
      start
    ≡ value swapped swapped_world
unfolding program
swap_run = refl

evaluate_rebalancable_candidate-IsSwap_example :
    IsSwap gateway env balancer "pool-a" "pool-b" 2 (pos 100) (pos 50) swapped start swapped_world
evaluate_rebalancable_candidate-IsSwap_example =
    evaluate_rebalancable_candidate-IsSwap gateway env balancer "pool-a" "pool-b" 2 (pos 100)
      (pos 50) start swapped swapped_world (λ n i v. v) start-IsValid swap_run

-- The second attempt is sent.
abbrev rpc : Rpc String
rpc = record {
  get_account = λ n. some (pos 7);
  build_and_send = λ n seq tx. if n == 1 then refused else sent "hash";
  get_transaction_polling = λ n hash. true;
  is_hash = λ hash. true;
}

abbrev hook : TransactionSettleHook
hook = record { op_id = 4; liquidation_outcome = none }

abbrev submitted : SubmitStellarTx String
submitted = record {
  op = "batch";
  signing_key = "secret";
  max_submission_retries = 3;
  on_settle = some hook;
}

execute-IsSettling_example :
    Reaches (IsSettling env rpc hook) (execute env rpc submitted swapped_world)
execute-IsSettling_example = execute-IsSettling env rpc submitted hook swapped_world refl
