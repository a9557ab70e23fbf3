-- ===== src/Profitability/Margin.antt =====
-- The profit margin in the sizing of a liquidation (`compute_profit_margin_in_borrow_token`,
-- `compute_repay_cap_from_collateral`, `compute_liquidation_profitability` of profitability.rs).
use alula_liquidator.Prelude.{
  ℕ, suc, ◌≡◌, ◌↔◌, inl, inr, Bool, true, false, sym, subst, arith, Bool-cases, if◌then◌else◌, ◌||◌,
}
use alula_liquidator.Prelude.Outcome.{Outcome, ok, bind-elim, m_ou, err, internal_error}
use alula_liquidator.Prelude.Int.{
  ℤ, pos, negsuc, leb_ℤ, ltb_ℤ, eqb_ℤ, min_ℤ, ◌≤ℤ◌, ◌<ℤ◌, ◌+ℤ◌, saturating_sub, checked_add,
  checked_sub, checked_abs, checked_neg,
}
use alula_liquidator.Amount.{bps_factor}
use alula_liquidator.Pool.{PoolData}
use alula_liquidator.Profitability.{
  LiquidationProfitability, compute_liquidation_profitability, compute_repay_cap_from_collateral,
  effective_incentive_bps, max_repay_borrow_units, compute_profit_margin_in_borrow_token,
  cents_to_oracle_value_ceil, value_to_underlying_asset_amount_ceil,
}

-- Where the call returns: the gain and the cost are positive, the net value is their difference, and the
-- liquidation is acceptable exactly when the gain is above the cost and the margin together.
pub compute_liquidation_profitability-ok :
    (gain cost margin : ℤ) (r : LiquidationProfitability)
    → compute_liquidation_profitability gain cost margin ≡ ok r
    → (pos 0 <ℤ gain)
      × (pos 0 <ℤ cost)
      × (r.net_value +ℤ cost ≡ gain)
      × ((r.is_acceptable ≡ true) ↔ (cost +ℤ margin <ℤ gain))
unfolding compute_liquidation_profitability checked_sub
compute_liquidation_profitability-ok (pos g) (pos c) (pos m) r h = ground (arith, h)
compute_liquidation_profitability-ok (pos g) (pos c) (negsuc m) r h = ground (arith, h)
compute_liquidation_profitability-ok (pos g) (negsuc c) m r h = absurd (ground (arith, h))
compute_liquidation_profitability-ok (negsuc g) c m r h = absurd (ground (arith, h))

saturating_sub_antitone : (u a b : ℤ) → a ≤ℤ b → saturating_sub u b ≤ℤ saturating_sub u a
unfolding saturating_sub
saturating_sub_antitone (pos u) (pos a) (pos b) h = ground arith
saturating_sub_antitone _ _ _ h = ground arith

min_mono : (a x y : ℤ) → x ≤ℤ y → min_ℤ a x ≤ℤ min_ℤ a y
min_mono a x y h = ground arith

module _ (is_solvent : Bool) (b c : PoolData)
    (feasible available debt_value collateral_value : ℤ) where
  abbrev incentive : ℤ
  incentive = min_ℤ b.max_liquidation_incentive_bps c.max_liquidation_incentive_bps

  -- The cap is the feasible repay, or what the collateral pays for less the margin.
  abbrev CapOf : ℤ → ℤ → Type 0
  CapOf margin x =
      (i : ℤ) × (f : ℤ) × (u : ℤ) × (effective_incentive_bps is_solvent incentive debt_value
          collateral_value
        ≡ ok i)
      × (m_ou (checked_add bps_factor i) ≡ ok f)
      × (max_repay_borrow_units b c available f ≡ ok u)
      × (x ≡ min_ℤ feasible (saturating_sub u margin))

  cap-CapOf :
      (margin x : ℤ)
      → compute_repay_cap_from_collateral is_solvent b feasible c available debt_value margin
          collateral_value
        ≡ ok x
      → CapOf margin x
  unfolding compute_repay_cap_from_collateral
  cap-CapOf margin x h =
      let h₁ = past_error (leb_ℤ available (pos 0)) _ h in
      let h₂ =
        past_error (leb_ℤ b.oracle_asset_price (pos 0) || leb_ℤ c.oracle_asset_price (pos 0)) _
          h₁ in
      bind-elim (effective_incentive_bps is_solvent incentive debt_value collateral_value) _ h₂
        λ i ei h₃. bind-elim (m_ou (checked_add bps_factor i)) _ h₃ λ f ef h₄.
          bind-elim (max_repay_borrow_units b c available f) _ (past_error (leb_ℤ f (pos 0)) _ h₄)
            λ u eu h₅. (i, f, u, ei, ef, eu, result u h₅)
    where
      past_error :
          (t : Bool) (y : Outcome ℤ) → (if t then err internal_error else y) ≡ ok x → y ≡ ok x
      past_error true y e = cc
      past_error false y e = e

      result :
          (u : ℤ)
          → ok (min_ℤ feasible (saturating_sub u margin)) ≡ ok x
          → x ≡ min_ℤ feasible (saturating_sub u margin)
      result u e = cc

  same_cap : (m n x y : ℤ) → m ≤ℤ n → CapOf m x → CapOf n y → (y ≤ℤ x) × (x ≤ℤ feasible)
  same_cap m n x y le (i, f, u, ei, ef, eu, ex) (i', f', u', ei', ef', eu', ey) =
      let same_i : i ≡ i' = cc in
      let same_f : f ≡ f' = cc in
      let same_u : u ≡ u' = cc in
      let step =
        min_mono feasible (saturating_sub u n) (saturating_sub u m)
          (saturating_sub_antitone u m n le) in
      let ey' : y ≡ min_ℤ feasible (saturating_sub u n) = cc in
      (
        subst (λ z. z ≤ℤ x) (sym ey')
            (subst (λ z. min_ℤ feasible (saturating_sub u n) ≤ℤ z) (sym ex) step),
        subst (λ z. z ≤ℤ feasible) (sym ex) (ground arith),
      )

  -- Where both calls return: a larger margin never raises the repay cap, and the cap is at most the
  -- feasible repay.
  pub repay_cap_antitone :
      (m n x y : ℤ)
      → m ≤ℤ n
      → compute_repay_cap_from_collateral is_solvent b feasible c available debt_value m
          collateral_value
        ≡ ok x
      → compute_repay_cap_from_collateral is_solvent b feasible c available debt_value n
          collateral_value
        ≡ ok y
      → (y ≤ℤ x) × (x ≤ℤ feasible)
  repay_cap_antitone m n x y le hx hy = same_cap m n x y le (cap-CapOf m x hx) (cap-CapOf n y hy)

abbrev PositiveTests : ℕ → Type 0
PositiveTests n =
    (eqb_ℤ (pos (suc n)) (pos 0) ≡ false)
    × (ltb_ℤ (pos (suc n)) (pos 0) ≡ false)
    × (eqb_ℤ (negsuc n) (pos 0) ≡ false)
    × (ltb_ℤ (negsuc n) (pos 0) ≡ true)

tests_hold : (n : ℕ) → PositiveTests n
tests_hold n = (ground arith, ground arith, ground arith, ground arith)

-- Where the call returns for a positive number of cents: the margin of the same loss budget, the number
-- of cents negated, is the margin's opposite.
profit_margin-neg :
    (n decimals : ℕ) (p : PoolData) (x : ℤ)
    → compute_profit_margin_in_borrow_token (pos (suc n)) decimals p ≡ ok x
    → compute_profit_margin_in_borrow_token (negsuc n) decimals p ≡ m_ou (checked_neg x)
unfolding compute_profit_margin_in_borrow_token checked_abs
profit_margin-neg n decimals p x h =
    let (t₁, t₂, t₃, t₄) = tests_hold n in
    elim (Bool-cases (leb_ℤ p.oracle_asset_price (pos 0))) [
      | inl e ↦ absurd (refused (rw e at h))
      | inr priced ↦
          bind-elim (m_ou (checked_abs (pos (suc n)))) _ (rw (priced, t₁) at h) λ cents ec h₁.
            bind-elim (cents_to_oracle_value_ceil cents decimals) _ h₁ λ value ev h₂.
              bind-elim
                (value_to_underlying_asset_amount_ceil value p.oracle_asset_price p.token_decimals)
                _ h₂
                λ magnitude em h₃.
                  let same : magnitude ≡ x = result magnitude (rw t₂ at h₃) in
                  rw (priced, t₃, ec, ev, em, t₄, same)
    ]
  where
    refused : err internal_error ≡ ok x → ⊥
    refused e = cc

    result : (m : ℤ) → ok m ≡ ok x → m ≡ x
    result m e = cc
