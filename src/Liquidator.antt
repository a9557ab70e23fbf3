-- ===== src/Liquidator.antt =====
-- The strategy that liquidates (keeper/src/strategy/liquidator.rs): its configuration, its state, and
-- the plans it makes. The children hold its parts; the log lines and the metrics are left out.
pub mod Quotes
pub mod Plans
pub mod Build
pub mod Dispatch
pub mod Evaluate
pub mod Cache
use alula_liquidator.Prelude.{ℕ, ◌-◌, String, Bool, List}
use alula_liquidator.Prelude.Int.{ℤ}
use alula_liquidator.Pool.{PoolData}
use alula_liquidator.Market.{MarketData, Obligation, ObligationKey, DepositPosition}
use alula_liquidator.Liquidation.Health.{DustRules}

pub record LiquidatorConfig : Type 0 where
  pub max_retries : ℕ
  pub xlm_address : String
  pub markets : List String
  pub xlm_safety_margin : ℤ
  pub assets_to_hold : List String
  pub swap_providers : List String
  pub refresh_interval_blocks : ℕ
  pub min_profit_margin_cents : ℤ
  pub max_market_data_age : ℕ
  pub max_allowed_swap_slippage_bps : ℤ
  pub dust_rules : DustRules

-- A cached market view and the moment it was read.
pub record MarketSnapshot : Type 0 where
  pub view : MarketData
  pub refreshed_at : ℕ

-- `saturating_duration_since`
unfoldable pub age : MarketSnapshot → ℕ → ℕ
age snapshot now = now - snapshot.refreshed_at

pub data LiquidationType : Type 0 where
  direct : LiquidationType
  pre_swap :
      (source_asset : String) (source_amount_in min_amount_out : ℤ) (swap_provider : String)
      → LiquidationType
  flash :
      (flash_repay_amount : ℤ) (swap_provider : String) (immediate_withdraw_amount : ℤ)
      → LiquidationType

pub record LiquidationPlan : Type 0 where
  pub repay_amount : ℤ
  pub net_profit_value : ℤ
  pub borrower_key : ObligationKey
  pub borrow_pool_address : String
  pub collateral_pool_address : String
  pub expected_seized_collateral : ℤ
  pub liquidation_type : LiquidationType

-- A call of the database on the cached obligations.
pub data RepoWrite : Type 0 where
  put : (market : String) (key : ObligationKey) (obligation : Obligation) → RepoWrite
  delete : (market : String) (key : ObligationKey) → RepoWrite

-- The database on the cached obligations: whether it carries out a call, which may depend on the calls
-- before, and the calls made, the last first, each with whether it was carried out.
pub record ObligationsRepo : Type 0 where
  pub carries_out : List (RepoWrite × Bool) → RepoWrite → Bool
  pub calls : List (RepoWrite × Bool)

-- A market's cached obligations.
abbrev pub Rows : Type 0
Rows = List (ObligationKey × Obligation)

-- The state. The calls of the cursor repository are listed, the last first.
pub record Liquidator : Type 0 where
  pub pkey : String
  pub skey : String
  pub config : LiquidatorConfig
  pub last_refresh_ledger : ℕ
  pub snapshots : List (String × MarketSnapshot)
  pub obligations : List (String × Rows)
  pub obligations_repo : ObligationsRepo
  pub cursor_repo : List (String × ℕ)

-- What the planners of one pair share as arguments.
pub record Target : Type 0 where
  pub is_insolvent : Bool
  pub borrow_pool : PoolData
  pub obligation : Obligation
  pub market_data : MarketData
  pub collateral_pool : PoolData
  pub deposit_position : DepositPosition
  pub borrower_key : ObligationKey
