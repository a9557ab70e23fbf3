-- ===== src/Pool/Utilization.antt =====
-- The utilization of a pool after what the keeper takes out of it (`compute_max_safe_withdrawal`,
-- `available_for_borrow` of pool.rs).
use alula_liquidator.Prelude.{
  ℕ, zero, suc, ◌+◌, ◌-◌, ◌*◌, ◌≤◌, ◌<◌, ◌≡◌, ◌≢◌, ◌⊎◌, refl, inl, inr, false, arith, Bool-cases,
  lt_of_mul_lt,
}
use alula_liquidator.Prelude.Outcome.{ok, returned-via}
use alula_liquidator.Prelude.Int.{
  ℤ, pos, negsuc, pos_part, IsNonneg, leb_ℤ, ◌≤ℤ◌, ◌<ℤ◌, ◌+ℤ◌, ◌-ℤ◌, saturating_sub, plain_sub,
}
use alula_liquidator.Amount.{bps_factor, bps_fixed_div_ceil}
use alula_liquidator.Amount.Ratio.{IsCeilOf, mul_div_ceil-IsCeilOf}
use alula_liquidator.Pool.{PoolData, utilization_ratio_bps, compute_max_safe_withdrawal}
use alula_liquidator.Pool.Convert.{IsWellFormed}

-- What a withdrawal that is not zero was computed from.
abbrev Sized : PoolData → ℤ → ℤ → Type 0
Sized p safe w =
    (m : ℤ) × (bps_fixed_div_ceil p.total_borrowed safe ≡ ok m)
    × (leb_ℤ safe (pos 0) ≡ false)
    × (leb_ℤ p.total_supply m ≡ false)
    × (plain_sub p.total_supply m ≡ ok w)

withdrawal_cases :
    (p : PoolData) (margin w : ℤ)
    → compute_max_safe_withdrawal p margin ≡ ok w
    → (w ≡ pos 0) ⊎ Sized p (saturating_sub p.utilization_ratio_limit_bps margin) w
unfolding compute_max_safe_withdrawal
withdrawal_cases p margin w h =
    let safe = saturating_sub p.utilization_ratio_limit_bps margin in
    let (current, _, h₁) = returned-via (utilization_ratio_bps p) _ h in
    elim (Bool-cases (leb_ℤ safe (pos 0))) [
      | inl e ↦ inl (ground (arith, h₁))
      | inr wide ↦ elim (Bool-cases (leb_ℤ safe current)) [
        | inl e ↦ inl (ground (arith, h₁))
        | inr below ↦
            let h₂ = rw (wide, below) at h₁ in
            let (m, em, h₃) = returned-via (bps_fixed_div_ceil p.total_borrowed safe) _ h₂ in
            elim (Bool-cases (leb_ℤ p.total_supply m)) [
              | inl e ↦ inl (ground (arith, h₃))
              | inr above ↦ inr (m, em, wide, above, rw above at h₃)
            ]
      ]
    ]

IsNonneg-of_test : (z : ℤ) → leb_ℤ z (pos 0) ≡ false → IsNonneg z
IsNonneg-of_test (pos n) h = refl
IsNonneg-of_test (negsuc n) h = absurd (ground arith)

difference_parts :
    (s m w : ℤ)
    → IsNonneg s
    → IsNonneg m
    → leb_ℤ s m ≡ false
    → plain_sub s m ≡ ok w
    → (s -ℤ w ≡ m) × IsNonneg w × (pos_part w ≤ pos_part s)
unfolding plain_sub
difference_parts (pos s) (pos m) w hs hm lt e = ground arith
difference_parts (pos s) (negsuc m) w hs hm lt e = absurd (omega arith)
difference_parts (negsuc s) _ w hs hm lt e = absurd (omega arith)

-- A positive withdrawal is the supply less `m`, the least supply that keeps the safe utilization.
withdrawal_parts :
    (p : PoolData) (margin w : ℤ)
    → IsWellFormed p
    → compute_max_safe_withdrawal p margin ≡ ok w
    → w ≢ pos 0
    → let safe = saturating_sub p.utilization_ratio_limit_bps margin in
      (m : ℤ) × IsCeilOf p.total_borrowed bps_factor safe m
      × IsNonneg safe
      × (p.total_supply -ℤ w ≡ m)
      × (IsNonneg w)
      × (pos_part w ≤ pos_part p.total_supply)
unfolding bps_fixed_div_ceil
withdrawal_parts p margin w wf h ne = elim (withdrawal_cases p margin w h) [
  | inl e ↦ absurd (ne e)
  | inr (m, em, wide, above, ew) ↦
      let safe = saturating_sub p.utilization_ratio_limit_bps margin in
      let hs = IsNonneg-of_test safe wide in
      let c = mul_div_ceil-IsCeilOf p.total_borrowed bps_factor safe m wf.borrowed refl hs em in
      let d = difference_parts p.total_supply m w wf.supply c.0 above ew in
      (m, c, hs, d.0, d.1, d.2)
]

ratio_below : (b m s u : ℕ) → b ≤ m * s → u * m < b + m → u ≤ s
ratio_below b m s u h k = let l : u < s + 1 = lt_of_mul_lt u (s + 1) m (omega arith) in omega arith

-- For a well-formed pool: when the keeper takes out a computed withdrawal that is not zero, the
-- utilization that the contract then computes, rounding up, is at most the limit less the margin, and
-- the withdrawal is at most the supply.
pub max_safe_withdrawal_stays_safe :
    (p : PoolData) (margin w u : ℤ)
    → IsWellFormed p
    → compute_max_safe_withdrawal p margin ≡ ok w
    → w ≢ pos 0
    → bps_fixed_div_ceil p.total_borrowed (p.total_supply -ℤ w) ≡ ok u
    → (u ≤ℤ saturating_sub p.utilization_ratio_limit_bps margin)
      × (pos 0 ≤ℤ w)
      × (w ≤ℤ p.total_supply)
unfolding bps_fixed_div_ceil
max_safe_withdrawal_stays_safe p margin w u wf h ne eu =
    let (m, c, hs, em, hw, le) = withdrawal_parts p margin w wf h ne in
    let k =
      mul_div_ceil-IsCeilOf p.total_borrowed bps_factor m u wf.borrowed refl c.0 (rw em at eu) in
    let safe = saturating_sub p.utilization_ratio_limit_bps margin in
    let b =
      ratio_below (pos_part p.total_borrowed * 10000) (pos_part m) (pos_part safe) (pos_part u) c.1
        k.2 in
    (omega (arith, k.0, hs), omega (arith, hw), omega (arith, hw, wf.supply))

one_more :
    (s w m : ℤ)
    → IsNonneg s
    → IsNonneg w
    → IsNonneg m
    → s -ℤ w ≡ m
    → 0 < pos_part m
    → s -ℤ (w +ℤ pos 1) ≡ pos (pos_part m - 1)
one_more (pos s) (pos w) (pos m) hs hw hm e h = ground arith
one_more (negsuc s) _ _ hs hw hm e h = absurd (omega arith)
one_more (pos s) (negsuc w) _ hs hw hm e h = absurd (omega arith)
one_more (pos s) (pos w) (negsuc m) hs hw hm e h = absurd (omega arith)

ratio_above : (b m s v : ℕ) → 0 < m → m * s < b + s → b ≤ v * (m - 1) → s < v
ratio_above b zero s v h k l = elim h [ ]
ratio_above b (suc m) s v h k l =
    let l' : b ≤ v * m = rw sub-self at l in lt_of_mul_lt s v m (omega arith)
  where
    sub-self : suc m - 1 ≡ m
    sub-self = omega arith

room_needed : (b m s : ℕ) → 0 < b → b * 10000 ≤ m * s → 0 < m
room_needed b zero s h k = absurd (omega arith)
room_needed b (suc m) s h k = omega arith

-- For a well-formed pool with debt: one token more than a computed withdrawal that is not zero takes
-- the utilization that the contract computes, rounding up, above the limit less the margin.
pub max_safe_withdrawal_is_tight :
    (p : PoolData) (margin w v : ℤ)
    → IsWellFormed p
    → compute_max_safe_withdrawal p margin ≡ ok w
    → w ≢ pos 0
    → 0 < pos_part p.total_borrowed
    → bps_fixed_div_ceil p.total_borrowed (p.total_supply -ℤ (w +ℤ pos 1)) ≡ ok v
    → saturating_sub p.utilization_ratio_limit_bps margin <ℤ v
unfolding bps_fixed_div_ceil
max_safe_withdrawal_is_tight p margin w v wf h ne debt ev =
    let (m, c, hs, em, hw, le) = withdrawal_parts p margin w wf h ne in
    let safe = saturating_sub p.utilization_ratio_limit_bps margin in
    let pm = room_needed (pos_part p.total_borrowed) (pos_part m) (pos_part safe) debt c.1 in
    let k =
      mul_div_ceil-IsCeilOf p.total_borrowed bps_factor (pos (pos_part m - 1)) v wf.borrowed refl
        refl (rw (one_more p.total_supply w m wf.supply hw c.0 em pm) at ev) in
    let above =
      ratio_above (pos_part p.total_borrowed * 10000) (pos_part m) (pos_part safe) (pos_part v) pm
        c.2 k.1 in
    omega (arith, k.0, hs, above)
