-- ===== src/Liquidator/Evaluate.antt =====
-- The scan of a market's obligations on a new ledger (`try_liquidate`, `replan_pair`,
-- `evaulate_market` and `handle_new_ledger` of liquidator.rs). The order of a hash map is that of its
-- association list.
pub mod Aimed
pub mod Judged
use alula_liquidator.Maps.{lookup}
use alula_liquidator.Gateway.{Gateway}
use alula_liquidator.Prelude.{
  ℕ, ◌-◌, String, Bool, true, false, not, ◌&&◌, ◌||◌, Option, some, none, List, [], ◌∷◌, ◌++◌, find,
  ltb, str_eq, if◌then◌else◌,
}
use alula_liquidator.Prelude.Outcome.{Outcome, ok, err, panic}
use alula_liquidator.Prelude.Int.{ℤ, pos, ltb_ℤ}
use alula_liquidator.Pool.{PoolData}
use alula_liquidator.Market.{
  MarketData, Obligation, ObligationKey, BorrowPosition, DepositPosition, pool_of, is_empty,
  new_key,
}
use alula_liquidator.Liquidation.Health.{
  DustRules, is_sweep, compute_is_liquidatable, compute_is_insolvent,
}
use alula_liquidator.Liquidation.Unpriced.{unpriced_pools_touched}
use alula_liquidator.Liquidation.Pair.{initial_margin, retry_margin}
use alula_liquidator.Execute.{Action, push}
use alula_liquidator.World.{
  Surroundings, World, Run, M, pure, stop, guard, dropping, given, attempt, look, ◌>>=◌, ◌>>◌,
}
use alula_liquidator.Liquidator.{
  LiquidatorConfig, LiquidationPlan, MarketSnapshot, age, Rows, Liquidator, Target,
}
use alula_liquidator.Liquidator.Build.{build_liquidation_plan}
use alula_liquidator.Liquidator.Dispatch.{
  Dispatch, dispatched, undispatched, Undispatched, leaves_dust, other, execute_liquidation_plan,
}

-- The rows of a market that is known; none is an empty map.
abbrev pub rows_of : Option Rows → Rows
rows_of none = []
rows_of (some rows) = rows

-- The plan of the higher net profit; of equal ones the first.
unfoldable pub keep_better :
    Option LiquidationPlan → Option LiquidationPlan → Option LiquidationPlan
keep_better none best = best
keep_better (some plan) none = some plan
keep_better (some plan) (some best) =
    if ltb_ℤ best.net_profit_value plan.net_profit_value then some plan else some best

-- `!j_tokens.is_positive() && !collateral.is_positive()`
unfoldable pub is_empty_deposit : DepositPosition → Bool
is_empty_deposit d = not (ltb_ℤ (pos 0) d.j_tokens) && not (ltb_ℤ (pos 0) d.collateral)

-- The actions of a dispatch that went through.
abbrev pub action_of : {Op : Type 0} → Dispatch Op → M (Action Op)
action_of (dispatched action) = pure action
action_of (undispatched why) = stop

module _ (env : Surroundings) (config : LiquidatorConfig) (is_insolvent : Bool)
    (market_data : MarketData) (obligation : Obligation) (borrower_key : ObligationKey) where
  abbrev pub target : PoolData → PoolData → DepositPosition → Target
  target borrow_pool collateral_pool deposit = record {
    is_insolvent = is_insolvent;
    borrow_pool = borrow_pool;
    obligation = obligation;
    market_data = market_data;
    collateral_pool = collateral_pool;
    deposit_position = deposit;
    borrower_key = borrower_key;
  }

  -- The body of the inner loop; nothing is its `continue`.
  unfoldable pub plan_for_deposit : BorrowPosition → PoolData → DepositPosition → M LiquidationPlan
  plan_for_deposit borrow borrow_pool deposit = do
    guard (not (str_eq deposit.pool_address borrow.pool_address))
    guard (not (is_empty_deposit deposit))
    collateral_pool ← given (pool_of market_data deposit.pool_address)
    build_liquidation_plan env config (target borrow_pool collateral_pool deposit) borrow.d_tokens
        initial_margin

  unfoldable pub best_over_deposits :
      BorrowPosition
      → PoolData
      → List DepositPosition
      → Option LiquidationPlan
      → M (Option LiquidationPlan)
  best_over_deposits borrow borrow_pool [] best = pure best
  best_over_deposits borrow borrow_pool (deposit ∷ rest) best = do
    plan ← attempt (plan_for_deposit borrow borrow_pool deposit)
    best_over_deposits borrow borrow_pool rest (keep_better plan best)

  unfoldable pub best_over_borrows :
      List BorrowPosition → Option LiquidationPlan → M (Option LiquidationPlan)
  best_over_borrows [] best = pure best
  best_over_borrows (borrow ∷ rest) best = elim (pool_of market_data borrow.pool_address) [
    | none ↦ best_over_borrows rest best
    | some borrow_pool ↦ best_over_deposits borrow borrow_pool obligation.deposits best >>= λ next.
        best_over_borrows rest next
  ]

  unfoldable pub replan_pair :
      (borrow_pool_address collateral_pool_address : String) → M LiquidationPlan
  replan_pair borrow_pool_address collateral_pool_address = do
    borrow ← given (
        find (λ (b : BorrowPosition). str_eq b.pool_address borrow_pool_address) obligation.borrows)
    deposit ← given (
        find (λ (d : DepositPosition). str_eq d.pool_address collateral_pool_address)
          obligation.deposits)
    borrow_pool ← given (pool_of market_data borrow_pool_address)
    collateral_pool ← given (pool_of market_data collateral_pool_address)
    build_liquidation_plan env config (target borrow_pool collateral_pool deposit) borrow.d_tokens
        retry_margin

module _ {Op : Type 0} {Request : Type 0} (gateway : Gateway Op Request) (env : Surroundings)
    (self : Liquidator) where
  -- What follows a first dispatch: a no-dust market's refusal is planned once more.
  unfoldable pub after_dispatch :
      String
      → Bool
      → MarketData
      → Obligation
      → ObligationKey
      → LiquidationPlan
      → Dispatch Op
      → M (Action Op)
  after_dispatch market is_insolvent market_data obligation key plan (dispatched action) =
      pure action
  after_dispatch market is_insolvent market_data obligation key plan (undispatched other) = stop
  after_dispatch market is_insolvent market_data obligation key plan (undispatched leaves_dust) = do
    guard (not (is_sweep self.config.dust_rules))
    again ←
        replan_pair env self.config is_insolvent market_data obligation key plan.borrow_pool_address
          plan.collateral_pool_address
    retried ←
        execute_liquidation_plan gateway env self.config self.skey market again (new_key self.pkey)
    action_of retried

  unfoldable pub try_liquidate :
      String → Bool → MarketData → Obligation → ObligationKey → M (Action Op)
  try_liquidate market is_insolvent market_data obligation key = do
    best ←
        best_over_borrows env self.config is_insolvent market_data obligation key obligation.borrows
          none
    plan ← given best
    first ←
        execute_liquidation_plan gateway env self.config self.skey market plan (new_key self.pkey)
    after_dispatch market is_insolvent market_data obligation key plan first

  -- The body of the loop over a market's obligations; nothing is its `continue`.
  unfoldable pub judge_obligation : String → MarketData → ObligationKey → Obligation → M (Action Op)
  judge_obligation market market_data key obligation = do
    guard (not (str_eq key.user self.pkey))
    guard (is_empty (unpriced_pools_touched obligation market_data))
    liquidatable ← dropping (compute_is_liquidatable obligation market_data self.config.dust_rules)
    guard liquidatable
    is_insolvent ← dropping (compute_is_insolvent obligation market_data)
    try_liquidate market is_insolvent market_data obligation key

  unfoldable pub judge_rows : String → MarketData → Rows → List (Action Op) → M (List (Action Op))
  judge_rows market market_data [] actions = pure actions
  judge_rows market market_data ((key, obligation) ∷ rest) actions = do
    found ← attempt (judge_obligation market market_data key obligation)
    judge_rows market market_data rest (push found actions)

  -- The age guard, and what follows it.
  unfoldable pub judge_snapshot : String → MarketSnapshot → ℕ → M (List (Action Op))
  judge_snapshot market snapshot started =
      let judged = judge_rows market snapshot.view (rows_of (lookup market self.obligations)) [] in
      if ltb self.config.max_market_data_age (age snapshot started) then pure [] else judged

  unfoldable pub evaulate_market : String → M (List (Action Op))
  evaulate_market market = do
    started ← look env.instant
    elim (lookup market self.snapshots) [
      | none ↦ pure []
      | some snapshot ↦ judge_snapshot market snapshot started
    ]

  unfoldable pub evaulate_markets : List String → List (Action Op) → M (List (Action Op))
  evaulate_markets [] actions = pure actions
  evaulate_markets (market ∷ rest) actions = do
    found ← evaulate_market market
    evaulate_markets rest (actions ++ found)
