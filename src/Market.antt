-- ===== src/Market.antt =====
-- A market and the positions held in it (engine/src/lending_model/market.rs and obligation.rs).
use alula_liquidator.Prelude.{
  ℕ, String, Bool, Option, some, none, ◌&&◌, not, List, [], ◌∷◌, find, str_eq,
}
use alula_liquidator.Prelude.Int.{ℤ}
use alula_liquidator.Amount.{JTokens, DTokens, Underlying}
use alula_liquidator.Pool.{PoolData}

pub record MarketData : Type 0 where
  pub insolvency_ltv_bps : ℤ
  pub pools_data : List PoolData
  pub oracle_price_decimals : ℕ
  pub min_collateral_value_cents : ℤ
  pub unavailable_pools : List String

-- `Vec::is_empty`
abbrev pub is_empty : {A : Type 0} → List A → Bool
is_empty [] = Bool.true
is_empty (x ∷ xs) = Bool.false

unfoldable pub prices_nothing : MarketData → Bool
prices_nothing m = is_empty m.pools_data && not (is_empty m.unavailable_pools)

-- `pools_data.iter().find(|p| p.pool_address == address)`
unfoldable pub pool_of : MarketData → String → Option PoolData
pool_of m address = find (λ p. str_eq p.pool_address address) m.pools_data

pub record ObligationKey : Type 0 where
  pub user : String
  pub seed : Option String

unfoldable pub new_key : String → ObligationKey
new_key user = record { user = user; seed = none }

unfoldable pub new_key_with_seed : String → String → ObligationKey
new_key_with_seed user seed = record { user = user; seed = some seed }

unfoldable pub seed_as_str : ObligationKey → String
seed_as_str k = elim k.seed [ none ↦ "" | some s ↦ s ]

pub record DepositPosition : Type 0 where
  pub j_tokens : JTokens
  pub collateral : Underlying
  pub pool_address : String

pub record BorrowPosition : Type 0 where
  pub d_tokens : DTokens
  pub pool_address : String

pub record Obligation : Type 0 where
  pub borrows : List BorrowPosition
  pub deposits : List DepositPosition
  pub open_bad_debt_requests : ℕ
