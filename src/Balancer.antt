-- ===== src/Balancer.antt =====
-- The strategy that swaps the wallet's other assets into the target asset
-- (keeper/src/strategy/balancer.rs). An error of a candidate or of a provider ends there like a
-- `None` of it; only the metrics, which are left out, tell the two apart.
pub mod Value
pub mod Impact
pub mod Probing
pub mod Swap
use alula_liquidator.Prelude.{
  ℕ, zero, suc, ◌==◌, String, Bool, true, false, not, ◌&&◌, ◌||◌, Option, some, none, List, [], ◌∷◌,
  ◌++◌, find, ltb, leb, str_eq, if◌then◌else◌,
}
use alula_liquidator.Prelude.Outcome.{Outcome, ok, err, panic}
use alula_liquidator.Prelude.Int.{
  ℤ, pos, ◌*ℤ◌, leb_ℤ, ltb_ℤ, eqb_ℤ, plain, plain_div, plain_sub, pow10, saturating_mul,
  saturating_sub,
}
use alula_liquidator.Amount.{bps_factor}
use alula_liquidator.Pool.{PoolData}
use alula_liquidator.Market.{MarketData, ObligationKey, pool_of, is_empty}
use alula_liquidator.Liquidation.Unpriced.{contains}
use alula_liquidator.Maps.{lookup, insert_at}
use alula_liquidator.Execute.{Action, submit_tx, push}
use alula_liquidator.Gateway.{Gateway}
use alula_liquidator.Withdrawer.{OperationEvent, withdraw, liquidate, is_multiple_of}
use alula_liquidator.World.{
  Surroundings, World, Run, value, panics, M, pure, stop, guard, dropping, given, attempt, look,
  await, get_balance, reserve_now, ◌>>=◌, ◌>>◌,
}
use alula_liquidator.Balancer.Value.{AssetInfo, compute_value_cents}
use alula_liquidator.Balancer.Impact.{SwapPriceImpact, compute_swap_price_impact}

pub record BalancerConfig : Type 0 where
  pub market : String
  pub xlm_address : String
  pub xlm_safety_margin : ℤ
  pub max_price_impact_bps : ℤ
  pub max_retries : ℕ
  pub allowed_swap_slippage_bps : ℤ
  pub assets_to_hold : List String
  pub swap_providers : List String
  pub refresh_interval_blocks : ℕ
  pub max_swap_provider_probes : ℕ
  pub min_swap_amount_value_cents : ℤ

pub record Balancer : Type 0 where
  pub pkey : String
  pub skey : String
  pub config : BalancerConfig
  pub liquidator_key : ObligationKey
  pub asset_index : List (String × AssetInfo)

-- `HashMap::get(..).expect(..)`
abbrev pub expect {ℓ} : {A : Type ℓ} → Option A → M A
expect none w = panics
expect (some a) w = value a w

-- An event as the gateway decodes it: its operation, the texts and the key in its topics, and the
-- plain collateral seized under a liquidation's result, when that was there and parsed.
pub record SwapEvent : Type 0 where
  pub operation : Option OperationEvent
  pub topic : ℕ → String
  pub key_of_topic : ℕ → Option ObligationKey
  pub plain_collateral_seized : Option ℤ

-- The guards on the result of a liquidation.
unfoldable pub seized_asset : String → Option ℤ → Option String
seized_asset collateral_pool none = none
seized_asset collateral_pool (some seized) =
    if eqb_ℤ seized (pos 0) then none else some collateral_pool

unfoldable pub try_parse_asset_from_liquidate_event : Balancer → SwapEvent → Option String
try_parse_asset_from_liquidate_event self event =
    if not (str_eq (event.topic 1) self.pkey) || contains self.config.assets_to_hold (event.topic 4)
    then none
    else seized_asset (event.topic 4) event.plain_collateral_seized

unfoldable pub withdrawn_asset : Balancer → String → Option ObligationKey → Option String
withdrawn_asset self pool none = none
withdrawn_asset self pool (some withdrawer) =
    if str_eq withdrawer.user self.pkey then some pool else none

unfoldable pub try_parse_asset_from_withdraw_event : Balancer → SwapEvent → Option String
try_parse_asset_from_withdraw_event self event =
    withdrawn_asset self (event.topic 1) (event.key_of_topic 2)

unfoldable pub asset_by : Balancer → SwapEvent → Option OperationEvent → Option String
asset_by self event (some liquidate) = try_parse_asset_from_liquidate_event self event
asset_by self event (some withdraw) = try_parse_asset_from_withdraw_event self event
asset_by self event _ = none

unfoldable pub asset_to_swap : Balancer → SwapEvent → Option String
asset_to_swap self event = asset_by self event event.operation

abbrev is_some {ℓ} : {A : Type ℓ} → Option A → Bool
is_some none = false
is_some (some a) = true

unfoldable pub is_swap_reasonable : Balancer → Bool
is_swap_reasonable self =
    not (is_empty self.config.assets_to_hold) && not (is_empty self.config.swap_providers)

-- The loop over the pools.
unfoldable pub index_pools :
    ℕ → List PoolData → List (String × AssetInfo) → List (String × AssetInfo)
index_pools oracle_decimals [] index = index
index_pools oracle_decimals (pool ∷ rest) index = index_pools oracle_decimals rest (
    insert_at pool.pool_address
      (record {
        decimals = pool.token_decimals;
        oracle_price = pool.oracle_asset_price;
        oracle_decimals = oracle_decimals;
      })
      index)

unfoldable pub update_asset_index : MarketData → Balancer → Balancer
update_asset_index market_data self = record self {
  asset_index =
      index_pools market_data.oracle_price_decimals market_data.pools_data self.asset_index;
}

-- An amount to swap, with what the provider quoted for it and the realised price.
pub record Probe : Type 0 where
  pub amount_in : ℤ
  pub amount_out : ℤ
  pub realised_price_scaled : ℤ

module _ (env : Surroundings) (self : Balancer) where
  -- The probes that are left, each of half the amount before.
  unfoldable pub probe_from :
      (provider asset_in asset_out : String)
      → (oracle_price : ℤ) → (oracle_decimals : ℕ) → (in_info out_info : AssetInfo) → (probes : ℕ)
      → (amount_in : ℤ) → M Probe
  probe_from provider asset_in asset_out oracle_price oracle_decimals in_info out_info zero
        amount_in =
      stop
  probe_from provider asset_in asset_out oracle_price oracle_decimals in_info out_info (suc probes)
        amount_in =
      do
        answer ← await env (λ n. env.get_amount_out n amount_in asset_in asset_out provider)
        amount_out ← given answer
        impact ← given (
            compute_swap_price_impact oracle_price amount_in amount_out in_info.decimals
              out_info.decimals oracle_decimals)
        let halved = do
          half ← dropping (plain_div amount_in (pos 2))
          probe_from provider asset_in asset_out oracle_price oracle_decimals in_info out_info
              probes half
        if leb_ℤ impact.bps self.config.max_price_impact_bps
            then pure (record {
              amount_in = amount_in;
              amount_out = amount_out;
              realised_price_scaled = impact.execution_price_scaled;
            })
            else halved

  unfoldable pub probe_provider :
      (provider asset_in asset_out : String)
      → (oracle_price : ℤ) → (oracle_decimals : ℕ) → (swappable_balance : ℤ) → M Probe
  probe_provider provider asset_in asset_out oracle_price oracle_decimals swappable_balance = do
    in_info ← given (lookup asset_in self.asset_index)
    out_info ← given (lookup asset_out self.asset_index)
    probe_from provider asset_in asset_out oracle_price oracle_decimals in_info out_info
        self.config.max_swap_provider_probes swappable_balance

  -- The probe of the larger amount; of equal ones the first.
  unfoldable pub take_larger :
      String → Option Probe → Option (String × Probe) → Option (String × Probe)
  take_larger provider none best = best
  take_larger provider (some probe) none = some (provider, probe)
  take_larger provider (some probe) (some (other, best)) =
      if ltb_ℤ best.amount_in probe.amount_in then some (provider, probe) else some (other, best)

  unfoldable pub best_provider_from :
      (candidate target : String)
      → (quoted : ℤ) → (oracle_decimals : ℕ) → (swappable_balance : ℤ) → List String
      → Option (String × Probe)
      → M (Option (String × Probe))
  best_provider_from candidate target quoted oracle_decimals swappable_balance [] best = pure best
  best_provider_from candidate target quoted oracle_decimals swappable_balance (provider ∷ rest)
        best =
      do
        probe ←
            attempt
              (probe_provider provider candidate target quoted oracle_decimals swappable_balance)
        best_provider_from candidate target quoted oracle_decimals swappable_balance rest
            (take_larger provider probe best)

  unfoldable pub swappable_of : String → ℤ → ℤ
  swappable_of candidate raw_balance =
      if str_eq candidate self.config.xlm_address
      then saturating_sub raw_balance self.config.xlm_safety_margin
      else raw_balance

  -- The least that the swap may return.
  unfoldable pub min_amount_out_of : ℤ → M ℤ
  min_amount_out_of amount_out = do
    kept_bps ← dropping (plain_sub bps_factor self.config.allowed_swap_slippage_bps)
    dropping (plain_div (saturating_mul amount_out kept_bps) bps_factor)

  module _ {Op : Type 0} {Request : Type 0} (gateway : Gateway Op Request) where
    abbrev pub swap_action : Op → ℕ → Action Op
    swap_action op op_id = submit_tx (record {
      op = op;
      signing_key = self.skey;
      max_submission_retries = self.config.max_retries;
      on_settle = some (record { op_id = op_id; liquidation_outcome = none });
    })

    -- What follows the choice of a provider.
    unfoldable pub submit_swap :
        (target candidate : String) → (swappable_balance : ℤ) → String × Probe → M (Action Op)
    submit_swap target candidate swappable_balance (provider, probe) = do
      info ← expect (lookup candidate self.asset_index)
      swap_value_cents ← dropping (compute_value_cents probe.amount_in info)
      guard (not (ltb_ℤ swap_value_cents self.config.min_swap_amount_value_cents))
      min_amount_out ← min_amount_out_of probe.amount_out
      request ← given (
          gateway.swap_exact_tokens_request provider probe.amount_in min_amount_out candidate
            target)
      op ← given (gateway.batch_op self.config.market self.liquidator_key (request ∷ []))
      op_id ← reserve_now env probe.amount_in swappable_balance candidate
      pure (swap_action op op_id)

    unfoldable pub evaluate_rebalancable_candidate :
        (target candidate : String)
        → (oracle_decimals : ℕ) → (target_oracle_price candidate_oracle_price : ℤ) → M (Action Op)
    evaluate_rebalancable_candidate target candidate oracle_decimals target_oracle_price
          candidate_oracle_price =
        do
          answer ← get_balance env candidate
          raw_balance ← given answer
          let swappable_balance = swappable_of candidate raw_balance
          guard (ltb_ℤ (pos 0) swappable_balance)
          guard (ltb_ℤ (pos 0) target_oracle_price)
          oracle_scale ← dropping (pow10 oracle_decimals)
          scaled ← dropping (plain (candidate_oracle_price *ℤ oracle_scale))
          candidate_quoted_in_target ← dropping (plain_div scaled target_oracle_price)
          best ←
              best_provider_from candidate target candidate_quoted_in_target oracle_decimals
                swappable_balance self.config.swap_providers none
          chosen ← given best
          submit_swap target candidate swappable_balance chosen

    -- `find(..).map(|p| p.oracle_asset_price)`
    unfoldable pub oracle_price_of : MarketData → String → Option ℤ
    oracle_price_of market_data address = elim (pool_of market_data address) [
      | none ↦ none
      | some p ↦ some p.oracle_asset_price
    ]

    -- The loop over the keys of the asset index; the assets to hold are passed over.
    unfoldable pub rebalance_from :
        MarketData
        → (target : String) → (target_oracle_price : ℤ) → List (String × AssetInfo)
        → List (Action Op)
        → M (List (Action Op))
    rebalance_from market_data target target_oracle_price [] actions = pure actions
    rebalance_from market_data target target_oracle_price ((candidate, info) ∷ rest) actions = do
      found ← attempt (
          guard (not (contains self.config.assets_to_hold candidate))
          >> given (oracle_price_of market_data candidate)
          >>= λ candidate_oracle_price.
              evaluate_rebalancable_candidate target candidate market_data.oracle_price_decimals
                target_oracle_price candidate_oracle_price)
      rebalance_from market_data target target_oracle_price rest (push found actions)

    unfoldable pub first_held : M String
    first_held = expect (elim self.config.assets_to_hold [ [] ↦ none | asset ∷ rest ↦ some asset ])

    -- `find_rebalance_actions` after `update_asset_index`.
    unfoldable pub find_indexed_actions : MarketData → M (List (Action Op))
    find_indexed_actions market_data = do
      target_asset ← first_held
      elim (oracle_price_of market_data target_asset) [
        | none ↦ pure []
        | some target_oracle_price ↦
            rebalance_from market_data target_asset target_oracle_price self.asset_index []
      ]

module _ {Op : Type 0} {Request : Type 0} (gateway : Gateway Op Request) (env : Surroundings)
    (read_market_data : ℕ → String → Option MarketData) where
  unfoldable pub find_rebalance_actions : MarketData → Balancer → M (List (Action Op) × Balancer)
  find_rebalance_actions market_data self = do
    let next = update_asset_index market_data self
    actions ← find_indexed_actions env next gateway market_data
    pure (actions, next)

  -- The read of the market, and what follows it.
  unfoldable pub rebalance_market : Balancer → M (List (Action Op) × Balancer)
  rebalance_market self = do
    answer ← await env (λ n. read_market_data n self.config.market)
    elim answer [
      | none ↦ pure ([], self)
      | some market_data ↦ find_rebalance_actions market_data self
    ]

  unfoldable pub rebalance_on_new_ledger : ℕ → Balancer → M (List (Action Op) × Balancer)
  rebalance_on_new_ledger seq_num self =
      let rebalanced = rebalance_market self in
      if is_multiple_of seq_num self.config.refresh_interval_blocks && is_swap_reasonable self
      then rebalanced
      else pure ([], self)

  unfoldable pub rebalance_on_event : SwapEvent → Balancer → M (List (Action Op) × Balancer)
  rebalance_on_event event self =
      let rebalanced = rebalance_market self in
      if is_swap_reasonable self && is_some (asset_to_swap self event)
      then rebalanced
      else pure ([], self)
