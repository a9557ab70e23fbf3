-- ===== src/Liquidation/Health/Solvency.antt =====
-- What `compute_is_insolvent` of liquidation.rs decides.
use alula_liquidator.Prelude.{
  ℕ, zero, suc, ◌+◌, ◌*◌, ◌≤◌, ◌<◌, ◌≡◌, ◌↔◌, ◌⊎◌, inl, inr, Bool, true, false, refl, arith,
  lt_of_mul_lt, mul_le_mul,
}
use alula_liquidator.Prelude.Outcome.{ok, bind-elim}
use alula_liquidator.Prelude.Int.{ℤ, pos, pos_part, eqb_ℤ, ltb_ℤ, leb_ℤ}
use alula_liquidator.Amount.{bps_fixed_div_ceil, bps_factor}
use alula_liquidator.Amount.Ratio.{IsCeilOf, mul_div_ceil-IsCeilOf}
use alula_liquidator.Market.{MarketData, Obligation}
use alula_liquidator.Liquidation.Health.{
  compute_obligation_debt_value, compute_obligation_collateral_value, compute_is_insolvent,
}

-- The debt is worth something, and the collateral nothing, or the debt is above the share of the
-- collateral that `l` basis points allow.
abbrev pub IsInsolvent : ℕ → ℕ → ℕ → Type 0
IsInsolvent l debt collateral = (0 < debt) × ((collateral ≡ 0) ⊎ (l * collateral < debt * 10000))

above_share : (l debt c u : ℕ) → u * c < debt * 10000 + c → suc l ≤ u → l * c < debt * 10000
above_share l debt c zero hi h = absurd (omega arith)
above_share l debt c (suc v) hi h =
    let k : l * c ≤ v * c = mul_le_mul l v c (omega arith) in omega arith

at_limit : (l debt c u : ℕ) → debt * 10000 ≤ u * c → l * c < debt * 10000 → suc l ≤ u
at_limit l debt c u lo h = lt_of_mul_lt l u c (omega arith)

not_below : (n : ℕ) → ltb_ℤ (pos (suc n)) (pos 0) ≡ false
not_below n = ground arith

not_zero : (n : ℕ) → eqb_ℤ (pos (suc n)) (pos 0) ≡ false
not_zero n = ground arith

-- Where the debt and the collateral of the obligation are priced at `debt` and `collateral`, the
-- market's limit is `l + 1` basis points and the call returns: the obligation is insolvent exactly when
-- the debt is worth something and the collateral is worth nothing or the debt is above the collateral's
-- share at `l` basis points.
pub compute_is_insolvent_iff :
    (o : Obligation) (m : MarketData) (debt collateral l : ℕ) (b : Bool)
    → compute_obligation_debt_value o m ≡ ok (pos debt)
    → compute_obligation_collateral_value o m ≡ ok (pos collateral)
    → m.insolvency_ltv_bps ≡ pos (suc l)
    → compute_is_insolvent o m ≡ ok b
    → (b ≡ true) ↔ IsInsolvent l debt collateral
unfolding compute_is_insolvent bps_fixed_div_ceil
compute_is_insolvent_iff o m zero c l b ed ec el h =
    ((λ e. absurd (no_debt (rw ed at h) e)), (λ i. absurd (omega (arith, i.0))))
  where
    no_debt : ok false ≡ ok b → b ≡ true → ⊥
    no_debt e f = cc
compute_is_insolvent_iff o m (suc d) zero l b ed ec el h =
    ((λ _. (omega arith, inl refl)), (λ _. worthless (rw (ed, not_below d, not_zero d, ec) at h)))
  where
    worthless : ok true ≡ ok b → b ≡ true
    worthless e = cc
compute_is_insolvent_iff o m (suc d) (suc c) l b ed ec el h =
    bind-elim (bps_fixed_div_ceil (pos (suc d)) (pos (suc c))) _
      (rw (ed, not_below d, not_zero d, ec, not_below c, not_zero c) at h)
      λ u eu h₁.
        let q = mul_div_ceil-IsCeilOf (pos (suc d)) bps_factor (pos (suc c)) u refl refl refl eu in
        decide u q (rw el at h₁)
  where
    decide :
        (u : ℤ)
        → IsCeilOf (pos (suc d)) bps_factor (pos (suc c)) u
        → ok (leb_ℤ (pos (suc l)) u) ≡ ok b
        → (b ≡ true) ↔ IsInsolvent l (suc d) (suc c)
    decide u q e = (forth, back)
      where
        forth : b ≡ true → IsInsolvent l (suc d) (suc c)
        forth t = (
          omega arith,
          inr (
              above_share l (suc d) (suc c) (pos_part u) (omega (arith, q)) (ground (arith, e, t))),
        )

        back : IsInsolvent l (suc d) (suc c) → b ≡ true
        back (_, inl z) = absurd (omega (arith, z))
        back (_, inr k) =
            let k' = at_limit l (suc d) (suc c) (pos_part u) (omega (arith, q)) k in
            ground (arith, e, k', q.0)
