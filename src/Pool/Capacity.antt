-- ===== src/Pool/Capacity.antt =====
-- That the sizing functions of a pool return (`utilization_ratio_bps`, `compute_max_safe_withdrawal`
-- of pool.rs), and what borrowing `available_for_borrow` does to the utilization.
use alula_liquidator.Prelude.{
  ℕ, ◌+◌, ◌-◌, ◌*◌, ◌≤◌, ◌<◌, ◌≡◌, ◌≢◌, refl, sym, inl, inr, false, arith, Bool-cases, lt_of_mul_lt,
}
use alula_liquidator.Prelude.Outcome.{ok, returned-via}
use alula_liquidator.Prelude.Int.{
  ℤ, pos, negsuc, pos_part, IsNonneg, i128_max, leb_ℤ, eqb_ℤ, ◌≤ℤ◌, ◌+ℤ◌, saturating_sub,
  saturating_mul, saturating_div, plain_sub,
}
use alula_liquidator.Prelude.Int.Laws.{parts_disjoint}
use alula_liquidator.Amount.{bps_factor, bps_fixed_div_ceil, bps_fixed_div_floor}
use alula_liquidator.Amount.Ratio.{
  IsFloorOf, mul_div_floor-IsFloorOf, mul_div_floor-total, mul_div_ceil-total,
  mul_div_ceil-IsCeilOf,
}
use alula_liquidator.Pool.{
  PoolData, utilization_ratio_bps, available_for_borrow, compute_max_safe_withdrawal,
}
use alula_liquidator.Pool.Convert.{IsWellFormed}

test_nonzero : (z : ℤ) → eqb_ℤ z (pos 0) ≡ false → IsNonneg z → 0 < pos_part z
test_nonzero z h n = ground arith

utilization-IsFloorOf :
    (p : PoolData) (u : ℤ)
    → IsWellFormed p
    → 0 < pos_part p.total_supply
    → utilization_ratio_bps p ≡ ok u
    → IsFloorOf p.total_borrowed bps_factor p.total_supply u
unfolding utilization_ratio_bps bps_fixed_div_floor
utilization-IsFloorOf p u wf h e = ground (
  arith,
  mul_div_floor-IsFloorOf p.total_borrowed bps_factor p.total_supply u wf.borrowed refl wf.supply,
)

utilization-total :
    (p : PoolData)
    → IsWellFormed p
    → pos_part p.total_borrowed * 10000 ≤ i128_max
    → (u : ℤ) × (utilization_ratio_bps p ≡ ok u)
unfolding utilization_ratio_bps bps_fixed_div_floor
utilization-total p wf fits = elim (Bool-cases (eqb_ℤ p.total_supply (pos 0))) [
  | inl empty ↦ (pos 0, rw empty)
  | inr held ↦ rw held (
      mul_div_floor-total p.total_borrowed bps_factor p.total_supply wf.borrowed refl
        (test_nonzero p.total_supply held wf.supply) fits)
]

difference-total :
    (s m : ℤ)
    → IsNonneg s
    → IsNonneg m
    → pos_part s ≤ i128_max
    → leb_ℤ s m ≡ false
    → (w : ℤ) × (plain_sub s m ≡ ok w)
unfolding plain_sub
difference-total (pos s) (pos m) hs hm fits h = (pos (s - m), ground arith)
difference-total (negsuc s) _ hs hm fits h = absurd (omega arith)
difference-total (pos s) (negsuc m) hs hm fits h = absurd (omega arith)

margin_leaves :
    (limit margin : ℤ)
    → limit ≤ℤ pos 10000
    → pos 0 ≤ℤ margin
    → leb_ℤ (saturating_sub limit margin) (pos 0) ≡ false
    → (0 < pos_part (saturating_sub limit margin))
      × (pos_part (saturating_sub limit margin) ≤ 10000)
unfolding saturating_sub
margin_leaves (pos l) (pos m) hl hm h = ground arith
margin_leaves (negsuc l) (pos m) hl hm h = ground arith
margin_leaves _ (negsuc m) hl hm h = absurd (omega arith)

minimum-total :
    (p : PoolData) (safe : ℤ)
    → IsWellFormed p
    → pos_part p.total_borrowed * 10000 + 10000 ≤ i128_max
    → 0 < pos_part safe
    → pos_part safe ≤ 10000
    → (m : ℤ) × (bps_fixed_div_ceil p.total_borrowed safe ≡ ok m) × IsNonneg m
unfolding bps_fixed_div_ceil
minimum-total p safe wf room ps le =
    let (m, em) =
      mul_div_ceil-total p.total_borrowed bps_factor safe wf.borrowed refl ps (omega arith) in
    let c =
      mul_div_ceil-IsCeilOf p.total_borrowed bps_factor safe m wf.borrowed refl
        (parts_disjoint safe ps) em in
    (m, em, c.0)

-- For a well-formed pool whose supply fits in an `i128` and whose debt leaves room for the factor of
-- 10000, a limit of at most 100% and a margin that is not negative: the largest safe withdrawal is
-- computed without an error and without a panic.
pub max_safe_withdrawal_total :
    (p : PoolData) (margin : ℤ)
    → IsWellFormed p
    → pos_part p.total_supply ≤ i128_max
    → pos_part p.total_borrowed * 10000 + 10000 ≤ i128_max
    → p.utilization_ratio_limit_bps ≤ℤ pos 10000
    → pos 0 ≤ℤ margin
    → (w : ℤ) × (compute_max_safe_withdrawal p margin ≡ ok w)
unfolding compute_max_safe_withdrawal
max_safe_withdrawal_total p margin wf fits room hl hm =
    let (u, eu) = utilization-total p wf (omega arith) in
    let safe = saturating_sub p.utilization_ratio_limit_bps margin in
    rw eu (elim (Bool-cases (leb_ℤ safe (pos 0))) [
      | inl e ↦ (pos 0, rw e)
      | inr wide ↦ elim (Bool-cases (leb_ℤ safe u)) [
        | inl e ↦ (pos 0, rw (wide, e))
        | inr below ↦
            let b = margin_leaves p.utilization_ratio_limit_bps margin hl hm wide in
            let (m, em, hm') = minimum-total p safe wf room b.0 b.1 in
            rw (wide, below, em)
              (elim (Bool-cases (leb_ℤ p.total_supply m)) [
                | inl e ↦ (pos 0, rw e)
                | inr above ↦ rw above (difference-total p.total_supply m wf.supply hm' fits above)
              ])
      ]
    ])

-- Room below the limit, in tokens.
room_bound :
    (supply left a : ℤ)
    → IsNonneg supply
    → IsNonneg left
    → saturating_div (saturating_mul supply left) bps_factor ≡ ok a
    → IsNonneg a × (pos_part a * 10000 ≤ pos_part supply * pos_part left)
unfolding saturating_div saturating_mul
room_bound (pos s) (pos l) a hs hl h = ground arith
room_bound (negsuc s) _ a hs hl h = absurd (omega arith)
room_bound (pos s) (negsuc l) a hs hl h = absurd (omega arith)

-- An amount that is not zero was sized by the room that is left.
room_cases :
    (p : PoolData) (a : ℤ)
    → available_for_borrow p ≡ ok a
    → a ≢ pos 0
    → (u : ℤ) × (left : ℤ) × (utilization_ratio_bps p ≡ ok u)
      × (leb_ℤ p.utilization_ratio_limit_bps u ≡ false)
      × (plain_sub p.utilization_ratio_limit_bps u ≡ ok left)
      × (saturating_div (saturating_mul p.total_supply left) bps_factor ≡ ok a)
unfolding available_for_borrow
room_cases p a h ne =
    let (u, eu, h₁) = returned-via (utilization_ratio_bps p) _ h in
    elim (Bool-cases (leb_ℤ p.utilization_ratio_limit_bps u)) [
      | inl full ↦ absurd (ne (ground (arith, h₁)))
      | inr open' ↦
          let h₂ = rw open' at h₁ in
          let (left, el, h₃) = returned-via (plain_sub p.utilization_ratio_limit_bps u) _ h₂ in
          (u, left, eu, open', el, h₃)
    ]

left_parts :
    (limit u left : ℤ)
    → IsNonneg u
    → leb_ℤ limit u ≡ false
    → plain_sub limit u ≡ ok left
    → IsNonneg left × IsNonneg limit × (pos_part left + pos_part u ≡ pos_part limit)
unfolding plain_sub
left_parts (pos l) (pos u) left hu h e = ground arith
left_parts (negsuc l) (pos u) left hu h e = absurd (ground arith)
left_parts _ (negsuc u) left hu h e = absurd (omega arith)

sum_parts :
    (a b : ℤ)
    → IsNonneg a
    → IsNonneg b
    → IsNonneg (a +ℤ b) × (pos_part (a +ℤ b) ≡ pos_part a + pos_part b)
sum_parts (pos a) (pos b) ha hb = (refl, refl)
sum_parts (negsuc a) _ ha hb = absurd (omega arith)
sum_parts (pos a) (negsuc b) ha hb = absurd (omega arith)

after_borrow :
    (b s u l a v : ℕ)
    → b * 10000 < (u + 1) * s
    → a * 10000 ≤ s * l
    → v * s ≤ (b + a) * 10000
    → v ≤ u + l
after_borrow b s u l a v h₁ h₂ h₃ =
    let r : v < u + l + 1 = lt_of_mul_lt v (u + l + 1) s (omega arith) in omega arith

exact_borrow :
    (b s u l a : ℕ)
    → b * 10000 < (u + 1) * s
    → a * 10000 ≤ s * l
    → (b + a) * 10000 < (l + u + 1) * s
exact_borrow b s u l a h₁ h₂ = omega arith

-- For a well-formed pool with a supply: when what `available_for_borrow` reports is not zero and is
-- borrowed, the utilization rounded down to basis points, as `utilization_ratio_bps` computes it, stays at
-- or below the pool's limit, and the exact one is less than one basis point above it.
pub available_for_borrow_keeps_limit :
    (p : PoolData) (a v : ℤ)
    → IsWellFormed p
    → 0 < pos_part p.total_supply
    → available_for_borrow p ≡ ok a
    → a ≢ pos 0
    → utilization_ratio_bps (record p { total_borrowed = p.total_borrowed +ℤ a }) ≡ ok v
    → (v ≤ℤ p.utilization_ratio_limit_bps)
      × (pos_part (p.total_borrowed +ℤ a) * 10000
          < (pos_part p.utilization_ratio_limit_bps + 1) * pos_part p.total_supply)
available_for_borrow_keeps_limit p a v wf held h ne ev =
    let (u, left, eu, below, el, er) = room_cases p a h ne in
    let f = utilization-IsFloorOf p u wf held eu in
    let l = left_parts p.utilization_ratio_limit_bps u left f.0 below el in
    let r = room_bound p.total_supply left a wf.supply l.0 er in
    let s = sum_parts p.total_borrowed a wf.borrowed r.0 in
    let g =
      utilization-IsFloorOf (record p { total_borrowed = p.total_borrowed +ℤ a }) v
        (record {
          supply = wf.supply;
          borrowed = s.0;
          j_tokens = wf.j_tokens;
          d_tokens = wf.d_tokens;
        })
        held ev in
    let o =
      exact_borrow (pos_part p.total_borrowed) (pos_part p.total_supply) (pos_part u)
        (pos_part left) (pos_part a) f.2 r.1 in
    let exactly : pos_part (p.total_borrowed +ℤ a) * 10000
        < (pos_part p.utilization_ratio_limit_bps + 1) * pos_part p.total_supply =
      rw (s.1, sym l.2) o in
    let b =
      after_borrow (pos_part p.total_borrowed) (pos_part p.total_supply) (pos_part u)
        (pos_part left) (pos_part a) (pos_part v) f.2 r.1 (omega arith) in
    (omega (arith, l, g.0, b), exactly)
