-- ===== src/Balancer/Impact.antt =====
-- What a quoted swap loses against the oracle's price (`compute_swap_price_impact` of balancer.rs).
pub mod Bounds
use alula_liquidator.Prelude.{ℕ, ◌+◌, ◌-◌, Bool, ◌||◌, Option, some, none, leb, if◌then◌else◌}
use alula_liquidator.Prelude.Int.{
  ℤ, pos, leb_ℤ, checked_sub, checked_mul, checked_div, checked_pow10,
}
use alula_liquidator.Amount.{bps_factor}

pub record SwapPriceImpact : Type 0 where
  pub bps : ℤ
  pub execution_price_scaled : ℤ

-- `?` on an `Option`.
infixl 5 ◌>>=◌
abbrev pub ◌>>=◌ {ℓ κ} : {A : Type ℓ} {B : Type κ} → Option A → (A → Option B) → Option B
none >>= f = none
some a >>= f = f a

-- `u32::abs_diff`
abbrev pub abs_diff : ℕ → ℕ → ℕ
abs_diff a b = (a - b) + (b - a)

-- The two sides of the realised price; the difference of the decimals goes to the one or the other.
unfoldable pub price_sides :
    (amount_in amount_out scale correction : ℤ)
    → (amount_in_decimals amount_out_decimals : ℕ) → Option (ℤ × ℤ)
price_sides amount_in amount_out scale correction amount_in_decimals amount_out_decimals =
    let more_in = do
      scaled ← checked_mul amount_out scale
      numerator ← checked_mul scaled correction
      some (numerator, amount_in)
    in let more_out = do
      numerator ← checked_mul amount_out scale
      denominator ← checked_mul amount_in correction
      some (numerator, denominator)
      in if leb amount_out_decimals amount_in_decimals then more_in else more_out

unfoldable pub compute_swap_price_impact :
    (oracle_price amount_in amount_out : ℤ)
    → (amount_in_decimals amount_out_decimals oracle_price_decimals : ℕ) → Option SwapPriceImpact
compute_swap_price_impact oracle_price amount_in amount_out amount_in_decimals amount_out_decimals
      oracle_price_decimals =
    let compared = do
      scale ← checked_pow10 oracle_price_decimals
      correction ← checked_pow10 (abs_diff amount_in_decimals amount_out_decimals)
      sides ←
          price_sides amount_in amount_out scale correction amount_in_decimals amount_out_decimals
      execution_price_scaled ← checked_div sides.0 sides.1
      price_diff ← checked_sub oracle_price execution_price_scaled
      scaled_diff ← checked_mul price_diff bps_factor
      bps ← checked_div scaled_diff oracle_price
      some (record { bps = bps; execution_price_scaled = execution_price_scaled })
    in if leb_ℤ amount_in (pos 0) || leb_ℤ oracle_price (pos 0) then none else compared
