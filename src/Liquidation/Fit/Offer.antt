-- ===== src/Liquidation/Fit/Offer.antt =====
-- The offer that `fit_repay` (liquidation.rs) makes is one that the market accepts.
use alula_liquidator.Prelude.{
  ◌≤◌, ◌≡◌, inl, inr, sym, ap, subst, true, false, Option, some, none, arith, Bool-cases,
  if◌then◌else◌,
}
use alula_liquidator.Prelude.Outcome.{Outcome, ok, bind-elim}
use alula_liquidator.Prelude.Int.{ℤ, pos_part, i128_max, min_ℤ, max_ℤ, leb_ℤ, ◌≤ℤ◌}
use alula_liquidator.Liquidation.Health.{no_dust, is_sweep}
use alula_liquidator.Liquidation.Pair.{LiquidationPair}
use alula_liquidator.Liquidation.Fit.{
  Clearing, clearing, accepts, offer_or, largest_partial_repay, fit_by_clearing, fit_repay,
}
use alula_liquidator.Liquidation.Fit.Partial.{offer_or-some, largest_partial_repay-some}

-- The market accepts the offer, and it is within the bound.
abbrev Fits : LiquidationPair → ℤ → ℤ → Type 0
Fits pair max_offer x = (accepts pair x ≡ ok true) × (x ≤ℤ max_offer)

module _ (pair : LiquidationPair) (repay max_offer : ℤ) where
  offered :
      (offer : ℤ) (otherwise : Outcome (Option ℤ)) (x : ℤ)
      → offer ≤ℤ max_offer
      → (otherwise ≡ ok (some x) → Fits pair max_offer x)
      → offer_or pair offer otherwise ≡ ok (some x)
      → Fits pair max_offer x
  offered offer otherwise x le rest h = elim (offer_or-some pair offer otherwise x h) [
    | inl (ex, ea) ↦
        (subst (λ z. accepts pair z ≡ ok true) (sym ex) ea, subst (λ z. z ≤ℤ max_offer) (sym ex) le)
    | inr e ↦ rest e
  ]

  partial-Fits :
      (x : ℤ)
      → repay ≤ℤ max_offer
      → pos_part max_offer ≤ i128_max
      → largest_partial_repay pair (min_ℤ repay max_offer) ≡ ok (some x)
      → Fits pair max_offer x
  partial-Fits x le fits h =
      let m = min_bounds repay max_offer in
      let (ea, (n, en, one, hi, _)) =
        largest_partial_repay-some pair (min_ℤ repay max_offer) x (omega (arith, m.1)) h in
      (ea, subst (λ z. z ≤ℤ max_offer) (sym en) (omega (arith, hi, m.0)))
    where
      min_bounds : (a b : ℤ) → (min_ℤ a b ≤ℤ b) × (a ≤ℤ b → pos_part (min_ℤ a b) ≤ pos_part b)
      min_bounds a b = ground arith

  fit_by_clearing-Fits :
      (partial : Outcome (Option ℤ)) (clear : Option Clearing) (x : ℤ)
      → repay ≤ℤ max_offer
      → (partial ≡ ok (some x) → Fits pair max_offer x)
      → fit_by_clearing pair repay max_offer partial clear ≡ ok (some x)
      → Fits pair max_offer x
  unfolding fit_by_clearing
  fit_by_clearing-Fits partial none x le rest h = offered repay partial x le rest h
  fit_by_clearing-Fits partial (some clear) x le rest h =
      elim (Bool-cases (leb_ℤ clear.at_snapshot repay)) [
        | inl e ↦
            offered (min_ℤ (max_ℤ repay clear.offer) max_offer) partial x
              (min_right (max_ℤ repay clear.offer) max_offer) rest (rw e at h)
        | inr e ↦
            offered repay
              (let clears = offer_or pair clear.offer partial in
                if leb_ℤ clear.offer max_offer then clears else partial)
              x le (wider clear.offer) (rw e at h)
      ]
    where
      min_right : (a b : ℤ) → min_ℤ a b ≤ℤ b
      min_right a b = ground arith

      wider :
          (o : ℤ)
          → (if leb_ℤ o max_offer then offer_or pair o partial else partial) ≡ ok (some x)
          → Fits pair max_offer x
      wider o e = elim (Bool-cases (leb_ℤ o max_offer)) [
        | inl within ↦ offered o partial x (ground (arith, within)) rest (rw within at e)
        | inr beyond ↦ rest (rw beyond at e)
      ]

-- On a no-dust market, for a planned repay of at most `max_offer`, which lies within `i128`: the market
-- accepts every offer that `fit_repay` makes, and the offer is at most `max_offer`.
pub fit_repay-accepted :
    (pair : LiquidationPair) (repay max_offer x : ℤ)
    → pair.rules ≡ no_dust
    → repay ≤ℤ max_offer
    → pos_part max_offer ≤ i128_max
    → fit_repay pair repay max_offer ≡ ok (some x)
    → (accepts pair x ≡ ok true) × (x ≤ℤ max_offer)
unfolding fit_repay
fit_repay-accepted pair repay max_offer x rules le fits h =
    let not_sweep : is_sweep pair.rules ≡ false = ap is_sweep rules in
    bind-elim (clearing pair) _ (rw not_sweep at h) λ clear _ h₁.
      fit_by_clearing-Fits pair repay max_offer (largest_partial_repay pair (min_ℤ repay max_offer))
        clear x le (λ e. partial-Fits pair repay max_offer x le fits e) h₁
