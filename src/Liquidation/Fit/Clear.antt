-- ===== src/Liquidation/Fit/Clear.antt =====
-- The least repay that buys a target of collateral (`repay_buying` inside `clearing` of
-- liquidation.rs).
use alula_liquidator.Prelude.{
  ℕ, ◌-◌, ◌≤◌, ◌<◌, ◌≡◌, ◌⊎◌, inl, inr, sym, subst, ◌∙◌, Bool, true, false, some, none, arith,
  if◌then◌else◌,
}
use alula_liquidator.Prelude.Outcome.{ok, bind-elim, ◌>>=◌}
use alula_liquidator.Prelude.Int.{ℤ, pos, i128_max, ◌≤ℤ◌, ◌<ℤ◌}
use alula_liquidator.Liquidation.Search.{least, search_rounds}
use alula_liquidator.Liquidation.Search.Least.{least-IsLeast}
use alula_liquidator.Liquidation.Pair.{LiquidationPair, buys}
use alula_liquidator.Liquidation.Fit.{buys_target, repay_buying}

-- What a probe says of the collateral that a repay buys.
buys_target-true :
    (pair : LiquidationPair) (lifted : Bool) (target repay : ℤ)
    → buys_target pair lifted target repay ≡ ok true
    → (b : ℤ) × (buys pair repay lifted ≡ ok b) × (target ≤ℤ b)
unfolding buys_target
buys_target-true pair lifted target repay h =
    bind-elim (buys pair repay lifted) _ h λ b eb h₁. (b, eb, ground (arith, h₁))

buys_target-false :
    (pair : LiquidationPair) (lifted : Bool) (target repay : ℤ)
    → buys_target pair lifted target repay ≡ ok false
    → (b : ℤ) × (buys pair repay lifted ≡ ok b) × (b <ℤ target)
unfolding buys_target
buys_target-false pair lifted target repay h =
    bind-elim (buys pair repay lifted) _ h λ b eb h₁. (b, eb, ground (arith, h₁))

-- For a positive debt within `i128`: a repay that `repay_buying` finds lies between one token and the
-- debt, buys at least the target, and one token less buys less than the target, unless it is one.
pub repay_buying-some :
    (pair : LiquidationPair) (lifted : Bool) (target x : ℤ) (debt : ℕ)
    → 0 < debt
    → debt ≤ i128_max
    → repay_buying pair lifted target (pos debt) ≡ ok (some x)
    → (n : ℕ) × (x ≡ pos n)
      × (1 ≤ n)
      × (n ≤ debt)
      × ((b : ℤ) × (buys pair (pos n) lifted ≡ ok b) × (target ≤ℤ b))
      × ((n ≡ 1) ⊎ ((b : ℤ) × (buys pair (pos (n - 1)) lifted ≡ ok b) × (b <ℤ target)))
unfolding repay_buying
repay_buying-some pair lifted target x debt owed fits h =
    bind-elim (buys_target pair lifted target (pos debt)) _ h λ reached er h₁. go reached er h₁
  where
    passes :
        (n : ℕ)
        → buys_target pair lifted target (pos debt) ≡ ok true
        → ((n ≡ debt) ⊎ (buys_target pair lifted target (pos n) ≡ ok true))
        → (b : ℤ) × (buys pair (pos n) lifted ≡ ok b) × (target ≤ℤ b)
    passes n er (inl e) =
        buys_target-true pair lifted target (pos n)
          (subst (λ z. buys_target pair lifted target (pos z) ≡ ok true) (sym e) er)
    passes n er (inr e) = buys_target-true pair lifted target (pos n) e

    fails :
        (n : ℕ)
        → ((n ≡ 1) ⊎ (buys_target pair lifted target (pos (n - 1)) ≡ ok false))
        → (n ≡ 1) ⊎ ((b : ℤ) × (buys pair (pos (n - 1)) lifted ≡ ok b) × (b <ℤ target))
    fails n (inl e) = inl e
    fails n (inr e) = inr (buys_target-false pair lifted target (pos (n - 1)) e)

    go :
        (reached : Bool)
        → buys_target pair lifted target (pos debt) ≡ ok reached
        → (if reached
            then (least search_rounds (buys_target pair lifted target) (pos 1) (pos debt)
                >>= λ repay. ok (some repay))
            else ok none)
          ≡ ok (some x)
        → (n : ℕ) × (x ≡ pos n)
          × (1 ≤ n)
          × (n ≤ debt)
          × ((b : ℤ) × (buys pair (pos n) lifted ≡ ok b) × (target ≤ℤ b))
          × ((n ≡ 1) ⊎ ((b : ℤ) × (buys pair (pos (n - 1)) lifted ≡ ok b) × (b <ℤ target)))
    go false er h₁ = cc
    go true er h₁ =
        bind-elim (least search_rounds (buys_target pair lifted target) (pos 1) (pos debt)) _ h₁
          λ r el h₂.
            let (n, en, l) =
              least-IsLeast search_rounds (buys_target pair lifted target) 1 debt r owed fits el in
            let ex : x ≡ r = cc in (n, ex ∙ en, l.0, l.1, passes n er l.2, fails n l.3)
