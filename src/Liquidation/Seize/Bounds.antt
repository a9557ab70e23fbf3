-- ===== src/Liquidation/Seize/Bounds.antt =====
-- What a sweep market's seizure leaves (`compute_expected_seized_collateral` of liquidation.rs).
use alula_liquidator.Prelude.{
  ℕ, ◌≡◌, ◌⊎◌, inl, inr, Bool, true, false, sym, subst, arith, Bool-cases, if◌then◌else◌, ◌||◌,
}
use alula_liquidator.Prelude.Outcome.{ok, bind-elim, ◌>>=◌, m_ou}
use alula_liquidator.Prelude.Int.{
  ℤ, pos, leb_ℤ, ltb_ℤ, min_ℤ, max_ℤ, ◌≤ℤ◌, ◌<ℤ◌, checked_add, checked_sub,
}
use alula_liquidator.Amount.{checked_mul_div_floor}
use alula_liquidator.Pool.{PoolData}
use alula_liquidator.Market.{DepositPosition}
use alula_liquidator.Liquidation.Health.{fixed_mul_floor, token_factor, min_collateral_value}
use alula_liquidator.Liquidation.Seize.{
  with_incentive, ltv_collateral, sweep_dust, compute_expected_seized_collateral,
}

-- The whole position is taken, or nothing, or what is left is worth at least the floor.
abbrev pub SweepsDust : ℤ → ℤ → PoolData → ℤ → ℕ → Type 0
SweepsDust seized sum p cents decimals =
    (seized ≡ sum)
    ⊎ ((seized ≡ pos 0)
        ⊎ ((left : ℤ) × (factor : ℤ) × (value : ℤ) × (floor : ℤ) × (m_ou (checked_sub sum seized)
              ≡ ok left)
            × (token_factor p ≡ ok factor)
            × (checked_mul_div_floor left p.oracle_asset_price factor ≡ ok value)
            × (min_collateral_value cents decimals ≡ ok floor)
            × (floor ≤ℤ value)))

-- Between nothing and the whole position, with no dust left.
abbrev Seizes : ℤ → ℤ → PoolData → ℤ → ℕ → Type 0
Seizes s sum p cents decimals = (pos 0 ≤ℤ s) × (s ≤ℤ sum) × SweepsDust s sum p cents decimals

module _ (sum : ℤ) (p : PoolData) (factor cents : ℤ) (decimals : ℕ) where
  swept :
      (seized left value floor s : ℤ)
      → pos 0 <ℤ sum
      → seized ≤ℤ sum
      → token_factor p ≡ ok factor
      → m_ou (checked_sub sum seized) ≡ ok left
      → checked_mul_div_floor left p.oracle_asset_price factor ≡ ok value
      → min_collateral_value cents decimals ≡ ok floor
      → ok (max_ℤ (if ltb_ℤ value floor then sum else seized) (pos 0)) ≡ ok s
      → Seizes s sum p cents decimals
  swept seized left value floor s ps le ef el ev em e = elim (Bool-cases (ltb_ℤ value floor)) [
    | inl dust ↦
        let es : sum ≡ s = whole (rw dust at e) in
        (
          subst (λ z. pos 0 ≤ℤ z) es (omega arith),
          subst (λ z. z ≤ℤ sum) es (omega arith),
          inl (sym es),
        )
    | inr worth ↦ elim (Bool-cases (leb_ℤ seized (pos 0))) [
      | inl none_taken ↦
          let es : pos 0 ≡ s = nothing none_taken (rw worth at e) in
          (
            subst (λ z. pos 0 ≤ℤ z) es (omega arith),
            subst (λ z. z ≤ℤ sum) es (omega arith),
            inr (inl (sym es)),
          )
      | inr some_taken ↦
          let es : seized ≡ s = part some_taken (rw worth at e) in
          (
            subst (λ z. pos 0 ≤ℤ z) es (ground (arith, some_taken)),
            subst (λ z. z ≤ℤ sum) es le,
            inr (
                inr (
                  left,
                  factor,
                  value,
                  floor,
                  subst (λ z. m_ou (checked_sub sum z) ≡ ok left) es el,
                  ef,
                  ev,
                  em,
                  ground (arith, worth),
                )),
          )
    ]
  ]
    where
      whole : ok (max_ℤ sum (pos 0)) ≡ ok s → sum ≡ s
      whole h = ground (arith, h)

      nothing : leb_ℤ seized (pos 0) ≡ true → ok (max_ℤ seized (pos 0)) ≡ ok s → pos 0 ≡ s
      nothing t h = ground (arith, t, h)

      part : leb_ℤ seized (pos 0) ≡ false → ok (max_ℤ seized (pos 0)) ≡ ok s → seized ≡ s
      part t h = ground (arith, t, h)

  sweep_dust-Seizes :
      (seized s : ℤ)
      → pos 0 <ℤ sum
      → seized ≤ℤ sum
      → token_factor p ≡ ok factor
      → sweep_dust seized sum p factor cents decimals ≡ ok s
      → Seizes s sum p cents decimals
  unfolding sweep_dust
  sweep_dust-Seizes seized s ps le ef h =
      bind-elim (m_ou (checked_sub sum seized)) _ h λ left el h₁.
        bind-elim (checked_mul_div_floor left p.oracle_asset_price factor) _ h₁ λ value ev h₂.
          bind-elim (min_collateral_value cents decimals) _ h₂
            λ floor em h₃. swept seized left value floor s ps le ef el ev em h₃

nothing_seized :
    (sum s : ℤ) (p : PoolData) (cents : ℤ) (decimals : ℕ)
    → pos 0 <ℤ sum
    → ok (pos 0) ≡ ok s
    → Seizes s sum p cents decimals
nothing_seized sum s p cents decimals ps e =
    let es : pos 0 ≡ s = cc in
    (
      subst (λ z. pos 0 ≤ℤ z) es (omega arith),
      subst (λ z. z ≤ℤ sum) es (omega arith),
      inr (inl (sym es)),
    )

min_le : (a b : ℤ) → min_ℤ a b ≤ℤ a
min_le a b = ground arith

min_min_le : (a b c : ℤ) → min_ℤ (min_ℤ a b) c ≤ℤ a
min_min_le a b c = let k = min_le (min_ℤ a b) c in let l = min_le a b in omega (arith, k, l)

-- Where the position holds a positive `sum` of collateral and the call returns: it seizes between
-- nothing and the whole sum, and unless it seizes nothing or the whole, what is left is worth at least
-- the market's floor.
pub seized_collateral_bounds :
    (repay : ℤ) (b p : PoolData) (deposit : DepositPosition) (debt_value collateral_value : ℤ)
    (is_insolvent : Bool) (cents : ℤ) (decimals : ℕ) (sum s : ℤ)
    → m_ou
        (checked_add (fixed_mul_floor deposit.j_tokens p.j_token_rate_floor_bps) deposit.collateral)
      ≡ ok sum
    → pos 0 <ℤ sum
    → compute_expected_seized_collateral repay b p deposit debt_value collateral_value is_insolvent
        cents decimals
      ≡ ok s
    → (pos 0 ≤ℤ s) × (s ≤ℤ sum) × SweepsDust s sum p cents decimals
unfolding compute_expected_seized_collateral
seized_collateral_bounds repay b p deposit debt_value collateral_value is_insolvent cents decimals
      sum s es ps h =
    elim (Bool-cases (leb_ℤ repay (pos 0) || leb_ℤ p.oracle_asset_price (pos 0))) [
      | inl e ↦ nothing_seized sum s p cents decimals ps (rw e at h)
      | inr e ↦ bind-elim (token_factor b) _ (rw (e, es, held) at h) λ bf _ h₁.
          bind-elim (checked_mul_div_floor repay b.oracle_asset_price bf) _ h₁ λ value _ h₂.
            bind-elim (token_factor p) _ h₂ λ factor ef h₃.
              bind-elim (with_incentive value b p factor) _ h₃
                λ bought _ h₄. by_solvency is_insolvent factor ef bought value h₄
    ]
  where
    held : leb_ℤ sum (pos 0) ≡ false
    held = ground (arith, ps)

    by_solvency :
        (insolvent : Bool) (factor : ℤ)
        → token_factor p ≡ ok factor
        → (bought value : ℤ)
        → (if insolvent
            then sweep_dust (min_ℤ sum bought) sum p factor cents decimals
            else if leb_ℤ debt_value (pos 0) || leb_ℤ collateral_value (pos 0)
            then ok (pos 0)
            else (ltv_collateral value p factor debt_value collateral_value >>= λ cap.
                sweep_dust (min_ℤ (min_ℤ sum bought) cap) sum p factor cents decimals))
          ≡ ok s
        → (pos 0 ≤ℤ s) × (s ≤ℤ sum) × SweepsDust s sum p cents decimals
    by_solvency true factor ef bought value e =
        sweep_dust-Seizes sum p factor cents decimals (min_ℤ sum bought) s ps (min_le sum bought) ef
          e
    by_solvency false factor ef bought value e =
        elim (Bool-cases (leb_ℤ debt_value (pos 0) || leb_ℤ collateral_value (pos 0))) [
          | inl f ↦ nothing_seized sum s p cents decimals ps (rw f at e)
          | inr f ↦
              bind-elim (ltv_collateral value p factor debt_value collateral_value) _ (rw f at e)
                λ cap _ e'.
                  sweep_dust-Seizes sum p factor cents decimals (min_ℤ (min_ℤ sum bought) cap) s ps
                    (min_min_le sum bought cap) ef e'
        ]
