-- ===== src/Pool/Convert.antt =====
-- Round trips of a conversion between shares and tokens, for any two totals (the eight conversions of
-- pool.rs are one division in two directions and two roundings).
use alula_liquidator.Prelude.{
  ◌+◌, ◌*◌, ◌≤◌, ◌<◌, ◌≡◌, inl, inr, false, arith, if◌then◌else◌, ℕ, zero, suc, Bool-cases,
  le_of_mul_le, lt_of_mul_lt,
}
use alula_liquidator.Prelude.Outcome.{Outcome, ok}
use alula_liquidator.Prelude.Int.{ℤ, pos, pos_part, IsNonneg, i128_max, eqb_ℤ, ◌≤ℤ◌, ◌+ℤ◌}
use alula_liquidator.Amount.{mul_div_floor, mul_div_ceil}
use alula_liquidator.Amount.Ratio.{
  IsCeilOf, mul_div_floor-IsFloorOf, mul_div_ceil-IsCeilOf, mul_div_floor-total, mul_div_ceil-total,
}
use alula_liquidator.Pool.{PoolData}

-- The totals of a pool are amounts.
pub record IsWellFormed (p : PoolData) : Type 0 where
  pub supply : IsNonneg p.total_supply
  pub borrowed : IsNonneg p.total_borrowed
  pub j_tokens : IsNonneg p.total_j_tokens
  pub d_tokens : IsNonneg p.total_d_tokens

-- Shares become tokens at `num / den` (none where there are no shares), and tokens become shares at
-- `den / num` (one for one where there are no tokens).
abbrev to_tokens : (ℤ → ℤ → ℤ → Outcome ℤ) → ℤ → ℤ → ℤ → Outcome ℤ
to_tokens divide tokens shares x =
    if eqb_ℤ shares (pos 0) then ok (pos 0) else divide x tokens shares

abbrev to_shares : (ℤ → ℤ → ℤ → Outcome ℤ) → ℤ → ℤ → ℤ → Outcome ℤ
to_shares divide tokens shares x = if eqb_ℤ tokens (pos 0) then ok x else divide x shares tokens

eqb_zero : (z : ℤ) → eqb_ℤ z (pos 0) ≡ false → IsNonneg z → 0 < pos_part z
eqb_zero z h n = ground arith

to_tokens-floor :
    (tokens shares x t : ℤ)
    → IsNonneg tokens
    → IsNonneg shares
    → IsNonneg x
    → to_tokens mul_div_floor tokens shares x ≡ ok t
    → IsNonneg t
      × (pos_part t * pos_part shares ≤ pos_part x * pos_part tokens)
      × (pos_part shares ≡ 0 → pos_part t ≡ 0)
to_tokens-floor tokens shares x t ht hs hx e =
    ground (arith, mul_div_floor-IsFloorOf x tokens shares t hx ht hs)

to_shares-floor :
    (tokens shares x y : ℤ)
    → IsNonneg tokens
    → IsNonneg shares
    → IsNonneg x
    → to_shares mul_div_floor tokens shares x ≡ ok y
    → IsNonneg y
      × (pos_part y * pos_part tokens ≤ pos_part x * pos_part shares)
      × (pos_part tokens ≡ 0 → pos_part y ≡ pos_part x)
to_shares-floor tokens shares x y ht hs hx e =
    ground (arith, mul_div_floor-IsFloorOf x shares tokens y hx hs ht)

floor_bound :
    (x t y s j : ℕ) → (j ≡ 0 → t ≡ 0) → (s ≡ 0 → y ≡ t) → t * j ≤ x * s → y * s ≤ t * j → y ≤ x
floor_bound x t y zero zero a b c d = omega arith
floor_bound x zero y zero (suc j) a b c d = omega arith
floor_bound x (suc t) y zero (suc j) a b c d = absurd (omega arith)
floor_bound x t y (suc s) j a b c d = le_of_mul_le y x (suc s) (omega arith) (omega arith)

to_tokens-floor_total :
    (tokens shares x : ℤ)
    → IsNonneg tokens
    → IsNonneg shares
    → IsNonneg x
    → pos_part x * pos_part tokens ≤ i128_max
    → (t : ℤ) × (to_tokens mul_div_floor tokens shares x ≡ ok t)
to_tokens-floor_total tokens shares x ht hs hx fits = elim (Bool-cases (eqb_ℤ shares (pos 0))) [
  | inl empty ↦ (pos 0, rw empty)
  | inr held ↦ rw held (mul_div_floor-total x tokens shares hx ht (eqb_zero shares held hs) fits)
]

to_shares-floor_total :
    (tokens shares x : ℤ)
    → IsNonneg tokens
    → IsNonneg shares
    → IsNonneg x
    → pos_part x * pos_part shares ≤ i128_max
    → (t : ℤ) × (to_shares mul_div_floor tokens shares x ≡ ok t)
to_shares-floor_total tokens shares x ht hs hx fits = elim (Bool-cases (eqb_ℤ tokens (pos 0))) [
  | inl empty ↦ (x, rw empty)
  | inr held ↦ rw held (mul_div_floor-total x shares tokens hx hs (eqb_zero tokens held ht) fits)
]

-- Rounding down both ways never yields more shares than it began with.
floor_round_trip-le :
    (tokens shares x t y : ℤ)
    → IsNonneg tokens
    → IsNonneg shares
    → IsNonneg x
    → to_tokens mul_div_floor tokens shares x ≡ ok t
    → to_shares mul_div_floor tokens shares t ≡ ok y
    → y ≤ℤ x
floor_round_trip-le tokens shares x t y ht hs hx e₁ e₂ =
    let f = to_tokens-floor tokens shares x t ht hs hx e₁ in
    let g = to_shares-floor tokens shares t y ht hs f.0 e₂ in
    let b =
      floor_bound (pos_part x) (pos_part t) (pos_part y) (pos_part tokens) (pos_part shares) f.2 g.2
        f.1 g.1 in
    omega arith

-- Both conversions return, and the second gives back at most what the first began with.
pub floor_round_trip :
    (tokens shares x : ℤ)
    → IsNonneg tokens
    → IsNonneg shares
    → IsNonneg x
    → pos_part x * pos_part tokens ≤ i128_max
    → (t : ℤ) × (y : ℤ) × (to_tokens mul_div_floor tokens shares x ≡ ok t)
      × (to_shares mul_div_floor tokens shares t ≡ ok y)
      × (y ≤ℤ x)
floor_round_trip tokens shares x ht hs hx fits =
    let (t, e₁) = to_tokens-floor_total tokens shares x ht hs hx fits in
    let f = to_tokens-floor tokens shares x t ht hs hx e₁ in
    let (y, e₂) = to_shares-floor_total tokens shares t ht hs f.0 (omega arith) in
    (t, y, e₁, e₂, floor_round_trip-le tokens shares x t y ht hs hx e₁ e₂)

to_tokens-ceil :
    (tokens shares x t : ℤ)
    → IsNonneg tokens
    → IsNonneg shares
    → IsNonneg x
    → 0 < pos_part shares
    → to_tokens mul_div_ceil tokens shares x ≡ ok t
    → IsCeilOf x tokens shares t
to_tokens-ceil tokens shares x t ht hs hx held e =
    ground (arith, mul_div_ceil-IsCeilOf x tokens shares t hx ht hs)

to_shares-ceil :
    (tokens shares x y : ℤ)
    → IsNonneg tokens
    → IsNonneg shares
    → IsNonneg x
    → 0 < pos_part tokens
    → to_shares mul_div_ceil tokens shares x ≡ ok y
    → IsCeilOf x shares tokens y
to_shares-ceil tokens shares x y ht hs hx held e =
    ground (arith, mul_div_ceil-IsCeilOf x shares tokens y hx hs ht)

-- Rounding up both ways never yields fewer shares than it began with.
ceil_round_trip-le :
    (tokens shares x t y : ℤ)
    → IsNonneg tokens
    → IsNonneg shares
    → IsNonneg x
    → 0 < pos_part tokens
    → 0 < pos_part shares
    → to_tokens mul_div_ceil tokens shares x ≡ ok t
    → to_shares mul_div_ceil tokens shares t ≡ ok y
    → x ≤ℤ y
ceil_round_trip-le tokens shares x t y ht hs hx pt ps e₁ e₂ =
    let f = to_tokens-ceil tokens shares x t ht hs hx ps e₁ in
    let g = to_shares-ceil tokens shares t y ht hs f.0 pt e₂ in
    let b = le_of_mul_le (pos_part x) (pos_part y) (pos_part tokens) pt (omega arith) in omega arith

ceil_total :
    (den : ℤ) (quotient : Outcome ℤ) (other : ℤ)
    → 0 < pos_part den
    → (t : ℤ) × (quotient ≡ ok t)
    → (t : ℤ) × ((if eqb_ℤ den (pos 0) then ok other else quotient) ≡ ok t)
ceil_total den quotient other h q = (q.0, ground arith)

-- Both conversions return, and the second gives back at least what the first began with.
pub ceil_round_trip :
    (tokens shares x : ℤ)
    → IsNonneg tokens
    → IsNonneg shares
    → IsNonneg x
    → 0 < pos_part tokens
    → 0 < pos_part shares
    → pos_part x * pos_part tokens + pos_part shares + pos_part tokens ≤ i128_max
    → (t : ℤ) × (y : ℤ) × (to_tokens mul_div_ceil tokens shares x ≡ ok t)
      × (to_shares mul_div_ceil tokens shares t ≡ ok y)
      × (x ≤ℤ y)
ceil_round_trip tokens shares x ht hs hx pt ps fits =
    let (t, e₁) =
      ceil_total shares (mul_div_ceil x tokens shares) (pos 0) ps
        (mul_div_ceil-total x tokens shares hx ht ps (omega arith)) in
    let f = to_tokens-ceil tokens shares x t ht hs hx ps e₁ in
    let (y, e₂) =
      ceil_total tokens (mul_div_ceil t shares tokens) t pt
        (mul_div_ceil-total t shares tokens f.0 hs pt (omega arith)) in
    (t, y, e₁, e₂, ceil_round_trip-le tokens shares x t y ht hs hx pt ps e₁ e₂)

ceil_step :
    (x f c d : ℕ) → x < (f + 1) * d → c * d < x + d → f * d ≤ x → x ≤ c * d → (f ≤ c) × (c ≤ f + 1)
ceil_step x f c d h₁ h₂ h₃ h₄ = (lower, upper)
  where
    lower : f ≤ c
    lower = le_of_mul_le f c d (omega arith) (omega arith)

    upper : c ≤ f + 1
    upper = let h : c < f + 2 = lt_of_mul_lt c (f + 2) d (omega arith) in omega arith

-- The two roundings of one amount differ by one at most.
pub floor_ceil_gap :
    (tokens shares x f c : ℤ)
    → IsNonneg tokens
    → IsNonneg shares
    → IsNonneg x
    → to_tokens mul_div_floor tokens shares x ≡ ok f
    → to_tokens mul_div_ceil tokens shares x ≡ ok c
    → (f ≤ℤ c) × (c ≤ℤ f +ℤ pos 1)
floor_ceil_gap tokens shares x f c ht hs hx e₁ e₂ = ground (
  arith,
  mul_div_floor-IsFloorOf x tokens shares f hx ht hs,
  mul_div_ceil-IsCeilOf x tokens shares c hx ht hs,
  ceil_step (pos_part x * pos_part tokens) (pos_part f) (pos_part c) (pos_part shares),
)
