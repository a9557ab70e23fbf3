-- ===== src/Balancer/Value.antt =====
-- What an amount of an asset is worth (`AssetInfo` and `compute_value_cents` of balancer.rs).
use alula_liquidator.Prelude.{ℕ, ◌-◌, ltb, if◌then◌else◌}
use alula_liquidator.Prelude.Outcome.{Outcome, ok, ◌>>=◌}
use alula_liquidator.Prelude.Int.{ℤ, pos, max_ℤ, leb_ℤ, plain_div, pow10, eqb_ℤ, saturating_mul}
use alula_liquidator.Withdrawer.{plain_add_u32}

pub record AssetInfo : Type 0 where
  pub decimals : ℕ
  pub oracle_price : ℤ
  pub oracle_decimals : ℕ

-- The value once the decimals are summed; the division is by a power of ten.
unfoldable pub cents_of : ℕ → ℤ → Outcome ℤ
cents_of denom_pow product = do
  denom ← pow10 (denom_pow - 2)
  let divided = do value ← plain_div product denom; ok (max_ℤ value (pos 0))
  if eqb_ℤ denom (pos 0) then ok (pos 0) else divided

unfoldable pub compute_value_cents : ℤ → AssetInfo → Outcome ℤ
compute_value_cents token_amount info =
    let valued = do
      denom_pow ← plain_add_u32 info.decimals info.oracle_decimals
      if ltb denom_pow 2
          then ok (pos 0)
          else cents_of denom_pow (saturating_mul token_amount info.oracle_price)
    in if leb_ℤ info.oracle_price (pos 0) then ok (pos 0) else valued
