-- ===== src/Pool/Shares.antt =====
-- Converting shares of a pool to tokens and back (`j_tokens_*`, `d_tokens_*` of pool.rs).
use alula_liquidator.Prelude.{◌+◌, ◌*◌, ◌≤◌, ◌<◌, ◌≡◌}
use alula_liquidator.Prelude.Outcome.{ok}
use alula_liquidator.Prelude.Int.{ℤ, pos, pos_part, IsNonneg, i128_max, ◌≤ℤ◌, ◌+ℤ◌}
use alula_liquidator.Pool.{
  PoolData, j_tokens_to_tokens_floor, j_tokens_to_tokens_ceil, tokens_to_j_tokens_floor,
  d_tokens_to_tokens_ceil, tokens_to_d_tokens_ceil,
}
-- The totals of a pool are amounts.
use alula_liquidator.Pool.Convert.{IsWellFormed, floor_round_trip, ceil_round_trip, floor_ceil_gap}

-- For a well-formed pool and j-tokens whose product with the supply fits in an `i128`: converting
-- them to tokens and back, rounding down, returns both times and never yields more j-tokens.
pub j_tokens_round_trip_floor :
    (p : PoolData) (j : ℤ)
    → IsWellFormed p
    → IsNonneg j
    → pos_part j * pos_part p.total_supply ≤ i128_max
    → (t : ℤ) × (back : ℤ) × (j_tokens_to_tokens_floor p j ≡ ok t)
      × (tokens_to_j_tokens_floor p t ≡ ok back)
      × (back ≤ℤ j)
unfolding j_tokens_to_tokens_floor tokens_to_j_tokens_floor
j_tokens_round_trip_floor p j w hj fits =
    floor_round_trip p.total_supply p.total_j_tokens j w.supply w.j_tokens hj fits

-- For a well-formed pool with debt and d-tokens whose product with the borrowed total leaves room for
-- both totals in an `i128`: converting them to tokens and back, rounding up, returns both times and
-- never yields fewer d-tokens.
d_tokens_round_trip_ceil :
    (p : PoolData) (d : ℤ)
    → IsWellFormed p
    → IsNonneg d
    → 0 < pos_part p.total_borrowed
    → 0 < pos_part p.total_d_tokens
    → pos_part d * pos_part p.total_borrowed + pos_part p.total_d_tokens + pos_part p.total_borrowed
      ≤ i128_max
    → (t : ℤ) × (back : ℤ) × (d_tokens_to_tokens_ceil p d ≡ ok t)
      × (tokens_to_d_tokens_ceil p t ≡ ok back)
      × (d ≤ℤ back)
unfolding d_tokens_to_tokens_ceil tokens_to_d_tokens_ceil
d_tokens_round_trip_ceil p d w hd pb ps fits =
    ceil_round_trip p.total_borrowed p.total_d_tokens d w.borrowed w.d_tokens hd pb ps fits

-- For a well-formed pool, where both conversions of an amount of j-tokens return a value, the one that
-- rounds up is the one that rounds down or one more.
j_tokens_floor_ceil_gap :
    (p : PoolData) (j f c : ℤ)
    → IsWellFormed p
    → IsNonneg j
    → j_tokens_to_tokens_floor p j ≡ ok f
    → j_tokens_to_tokens_ceil p j ≡ ok c
    → (f ≤ℤ c) × (c ≤ℤ f +ℤ pos 1)
unfolding j_tokens_to_tokens_floor j_tokens_to_tokens_ceil
j_tokens_floor_ceil_gap p j f c w hj =
    floor_ceil_gap p.total_supply p.total_j_tokens j f c w.supply w.j_tokens hj
