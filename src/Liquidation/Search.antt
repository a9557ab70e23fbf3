-- ===== src/Liquidation/Search.antt =====
-- The two binary searches of liquidation.rs, over the test that a probe runs: `repay_buying` inside
-- `clearing` looks for the least amount that passes, `largest_partial_repay` for the greatest one.
-- A round halves the range, so that 128 rounds are enough for a range of `i128`.
pub mod Least
pub mod Greatest
use alula_liquidator.Prelude.{ℕ, zero, suc, Bool, true, false}
use alula_liquidator.Prelude.Outcome.{Outcome, ok, panic, ◌>>=◌}
use alula_liquidator.Prelude.Int.{ℤ, pos, ltb_ℤ, plain_add, plain_sub, plain_div}

abbrev pub search_rounds : ℕ
search_rounds = 128

-- `low + (high - low) / 2`
unfoldable pub lower_mid : ℤ → ℤ → Outcome ℤ
lower_mid low high = do
  width ← plain_sub high low
  half ← plain_div width (pos 2)
  plain_add low half

-- `low + (high - low + 1) / 2`
unfoldable pub upper_mid : ℤ → ℤ → Outcome ℤ
upper_mid low high = do
  width ← plain_sub high low
  wider ← plain_add width (pos 1)
  half ← plain_div wider (pos 2)
  plain_add low half

-- `while low < high { if test(mid)? { high = mid } else { low = mid + 1 } }`, then `high`.
unfoldable pub least : ℕ → (ℤ → Outcome Bool) → ℤ → ℤ → Outcome ℤ
least zero test low high = panic
least (suc rounds) test low high = elim (ltb_ℤ low high) [
  | false ↦ ok high
  | true ↦ do
    mid ← lower_mid low high
    passes ← test mid
    elim passes [
      | true ↦ least rounds test low mid
      | false ↦ do next ← plain_add mid (pos 1); least rounds test next high
    ]
]

-- `while low < high { if test(mid)? { low = mid } else { high = mid - 1 } }`, then `low`.
unfoldable pub greatest : ℕ → (ℤ → Outcome Bool) → ℤ → ℤ → Outcome ℤ
greatest zero test low high = panic
greatest (suc rounds) test low high = elim (ltb_ℤ low high) [
  | false ↦ ok low
  | true ↦ do
    mid ← upper_mid low high
    passes ← test mid
    elim passes [
      | true ↦ greatest rounds test mid high
      | false ↦ do next ← plain_sub mid (pos 1); greatest rounds test low next
    ]
]
