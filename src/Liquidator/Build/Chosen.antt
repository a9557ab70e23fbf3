-- ===== src/Liquidator/Build/Chosen.antt =====
-- What bounds the repay of a candidate, and which candidate is chosen (`fit_repay` and
-- `build_liquidation_plan_for_asset_pool_pair` of liquidator.rs).
use alula_liquidator.Prelude.{
  ◌≡◌, refl, sym, subst, ap, ◌∙◌, ◌⊎◌, inl, inr, ◌≤◌, true, false, Option, some, none, List, [],
  ◌∷◌, In, arith, Bool-cases,
}
use alula_liquidator.Prelude.Outcome.{ok}
use alula_liquidator.Prelude.Int.{ℤ, pos, pos_part, i128_max, ◌≤ℤ◌, min_ℤ, ltb_ℤ, leb_ℤ}
use alula_liquidator.Liquidation.Health.{DustRules, sweep, no_dust}
use alula_liquidator.Liquidation.Pair.{LiquidationPair, ClearingMargin}
use alula_liquidator.Liquidation.Fit.{fit_repay}
use alula_liquidator.Liquidation.Fit.Offer.{fit_repay-accepted}
use alula_liquidator.World.{Surroundings, World, value, guard, dropping, attempt, get_balance}
use alula_liquidator.World.Laws.{then-elim, dropping-eq-value, given-eq-value, guard-eq-value}
use alula_liquidator.Liquidator.{LiquidatorConfig, LiquidationPlan, Target}
use alula_liquidator.Liquidator.Plans.{fit_or_skip, usable}
use alula_liquidator.Liquidator.Plans.Profit.{IsDirect, try_direct_plan-IsDirect}
use alula_liquidator.Liquidator.Plans.Flash.{IsFlash, try_flash_plan-IsFlash}
use alula_liquidator.Liquidator.Build.{
  Sizing, or_zero, cents_value, size_position, direct_candidate, flash_size, flash_candidate,
  preswap_candidate, pushed, max_by_repay, build_liquidation_plan,
}

fit_repay_sweep :
    (pair : LiquidationPair) (repay max_offer x : ℤ)
    → pair.rules ≡ sweep
    → fit_repay pair repay max_offer ≡ ok (some x)
    → repay ≡ x
unfolding fit_repay
fit_repay_sweep pair repay max_offer x e h = same (rw e at h)
  where
    same : ok (some repay) ≡ ok (some x) → repay ≡ x
    same k = cc

-- Under either rules, a fitted repay stays within the offer.
fit_repay-le :
    (pair : LiquidationPair) (repay max_offer x : ℤ)
    → repay ≤ℤ max_offer
    → pos_part max_offer ≤ i128_max
    → fit_repay pair repay max_offer ≡ ok (some x)
    → x ≤ℤ max_offer
fit_repay-le pair repay max_offer x le fits h = split pair.rules refl
  where
    split : (rules : DustRules) → pair.rules ≡ rules → x ≤ℤ max_offer
    split sweep e = subst (λ z. z ≤ℤ max_offer) (fit_repay_sweep pair repay max_offer x e h) le
    split no_dust e = (fit_repay-accepted pair repay max_offer x e le fits h).1

fit_or_skip-le :
    (pair : LiquidationPair) (repay max_offer x : ℤ) (w w' : World)
    → repay ≤ℤ max_offer
    → pos_part max_offer ≤ i128_max
    → fit_or_skip pair repay max_offer w ≡ value x w'
    → x ≤ℤ max_offer
unfolding fit_or_skip
fit_or_skip-le pair repay max_offer x w w' le fits h =
    then-elim (dropping (fit_repay pair repay max_offer)) _ h λ fitted u e k.
      fit_repay-le pair repay max_offer x le fits
        ((dropping-eq-value _ e).0 ∙ ap ok (given-eq-value fitted k).0)

fit_or_skip-world :
    (pair : LiquidationPair) (repay max_offer x : ℤ) (w w' : World)
    → fit_or_skip pair repay max_offer w ≡ value x w'
    → w ≡ w'
unfolding fit_or_skip
fit_or_skip-world pair repay max_offer x w w' h =
    then-elim (dropping (fit_repay pair repay max_offer)) _ h
      λ fitted u e k. (dropping-eq-value _ e).1 ∙ (given-eq-value fitted k).1

min_le_right : (a b : ℤ) → min_ℤ a b ≤ℤ b
min_le_right a b = ground arith

-- A direct candidate repays at most what the wallet may spend of the borrowed token, provided that this
-- is within `i128`; the market, as the snapshot has it, accepts the repay, and what it seizes is worth
-- more than what it charges by more than the margin.
pub direct_candidate-funded :
    (env : Surroundings) (config : LiquidatorConfig) (t : Target) (s : Sizing)
    (usable_borrow margin : ℤ) (w w' : World) (plan : LiquidationPlan)
    → pos_part usable_borrow ≤ i128_max
    → direct_candidate env config t s usable_borrow margin w ≡ value plan w'
    → (repay : ℤ) × (repay ≤ℤ usable_borrow) × IsDirect config.dust_rules t repay margin plan
unfolding direct_candidate
direct_candidate-funded env config t s usable_borrow margin w w' plan fits h =
    let size = min_ℤ s.max_profitable_repay usable_borrow in
    then-elim (guard (ltb_ℤ (pos 0) size)) _ h λ _ u _ h₁.
      then-elim (fit_or_skip s.pair size usable_borrow) _ h₁ λ repay u₁ er h₂. (
        repay,
        fit_or_skip-le s.pair size usable_borrow repay u u₁
            (min_le_right s.max_profitable_repay usable_borrow) fits er,
        try_direct_plan-IsDirect config.dust_rules t repay margin u₁ w' plan h₂,
      )

-- A flash candidate of a size within what the pool has available, which is within `i128`, borrows at most
-- that; the market, as the snapshot has it, accepts the repay; the plan swaps at most what is seized, with
-- the provider that, of the configured ones, answers the largest positive amount for it, asked in turn
-- from the planner's start on, and that amount, less the slippage, covers the borrowed repay with its
-- fee; and the seized value exceeds the cost by more
-- than the margin.
pub flash_candidate-covered :
    (env : Surroundings) (config : LiquidatorConfig) (t : Target) (s : Sizing)
    (flash_repay margin : ℤ) (w w' : World) (plan : LiquidationPlan)
    → flash_repay ≤ℤ t.borrow_pool.total_available_adjusted
    → pos_part t.borrow_pool.total_available_adjusted ≤ i128_max
    → flash_candidate env config t s flash_repay margin w ≡ value plan w'
    → (repay : ℤ) × (repay ≤ℤ t.borrow_pool.total_available_adjusted)
      × IsFlash env config t repay margin w plan
unfolding flash_candidate
flash_candidate-covered env config t s flash_repay margin w w' plan le fits h =
    then-elim (guard (ltb_ℤ (pos 0) flash_repay)) _ h λ _ u eg h₁.
      then-elim (fit_or_skip s.pair flash_repay t.borrow_pool.total_available_adjusted) _ h₁
        λ repay u₁ er h₂. (
          repay,
          fit_or_skip-le s.pair flash_repay t.borrow_pool.total_available_adjusted repay u u₁ le
              fits er,
          subst (λ z. IsFlash env config t repay margin z plan)
              (sym (
                (guard-eq-value _ eg).1
                ∙ fit_or_skip-world s.pair flash_repay t.borrow_pool.total_available_adjusted repay
                    u u₁ er))
              (try_flash_plan-IsFlash env config t repay margin u₁ w' plan h₂),
        )

-- The plan is one of the candidates, and none repays more.
abbrev IsLargest : LiquidationPlan → List LiquidationPlan → Type 0
IsLargest plan l =
    In plan l × ((q : LiquidationPlan) → In q l → q.repay_amount ≤ℤ plan.repay_amount)

leb_yes : (a b : ℤ) → leb_ℤ a b ≡ true → a ≤ℤ b
leb_yes a b h = ground (arith, h)

leb_no : (a b : ℤ) → leb_ℤ a b ≡ false → b ≤ℤ a
leb_no a b h = ground (arith, h)

le_trans_ℤ : (a b c : ℤ) → a ≤ℤ b → b ≤ℤ c → a ≤ℤ c
le_trans_ℤ a b c h k = omega (arith, h, k)

max_by_repay_best :
    (l : List LiquidationPlan) (b : LiquidationPlan)
    → (r : LiquidationPlan) × (max_by_repay l (some b) ≡ some r)
      × ((r ≡ b) ⊎ In r l)
      × (b.repay_amount ≤ℤ r.repay_amount)
      × ((q : LiquidationPlan) → In q l → q.repay_amount ≤ℤ r.repay_amount)
unfolding max_by_repay
max_by_repay_best [] b = (b, refl, inl refl, omega arith, λ q i. absurd i)
max_by_repay_best (p ∷ rest) b = elim (Bool-cases (leb_ℤ b.repay_amount p.repay_amount)) [
  | inl t ↦
      let (r, e, i, le, all) = max_by_repay_best rest p in
      (
        r,
        rw t e,
        elim i [ inl x ↦ inr (inl x) | inr x ↦ inr (inr x) ],
        le_trans_ℤ b.repay_amount p.repay_amount r.repay_amount
            (leb_yes b.repay_amount p.repay_amount t) le,
        λ q j. elim j [
          | inl x ↦ subst (λ (z : LiquidationPlan). z.repay_amount ≤ℤ r.repay_amount) (sym x) le
          | inr x ↦ all q x
        ],
      )
  | inr f ↦
      let (r, e, i, le, all) = max_by_repay_best rest b in
      (
        r,
        rw f e,
        elim i [ inl x ↦ inl x | inr x ↦ inr (inr x) ],
        le,
        λ q j. elim j [
          | inl x ↦
              subst (λ (z : LiquidationPlan). z.repay_amount ≤ℤ r.repay_amount) (sym x)
                (le_trans_ℤ p.repay_amount b.repay_amount r.repay_amount
                  (leb_no b.repay_amount p.repay_amount f) le)
          | inr x ↦ all q x
        ],
      )
]

max_by_repay-IsLargest :
    (l : List LiquidationPlan) (plan : LiquidationPlan)
    → max_by_repay l none ≡ some plan
    → IsLargest plan l
unfolding max_by_repay
max_by_repay-IsLargest [] plan h = cc
max_by_repay-IsLargest (p ∷ rest) plan h =
    let (r, e, i, le, all) = max_by_repay_best rest p in
    let same : r ≡ plan = some-injective r plan (sym e ∙ h) in
    subst (λ (z : LiquidationPlan). IsLargest z (p ∷ rest)) same
      (
        i,
        λ q j. elim j [
          | inl x ↦ subst (λ (z : LiquidationPlan). z.repay_amount ≤ℤ r.repay_amount) (sym x) le
          | inr x ↦ all q x
        ],
      )
  where
    some-injective : (a b : LiquidationPlan) → some a ≡ some b → a ≡ b
    some-injective a b k = cc

-- The candidates of a pair, each the outcome of its planner, one after the other, on the sizing of the
-- position and the configured margin, the direct one with the usable part of the balance that the wallet
-- answered after the sizing, and the plan the largest of them.
abbrev pub ChosenFrom :
    Surroundings
    → LiquidatorConfig
    → Target
    → ℤ
    → ClearingMargin
    → World
    → World
    → LiquidationPlan
    → Type 0
ChosenFrom env config t borrow_d_tokens margin w w' plan =
    (s : Sizing) × (balance : Option ℤ) × (min_value : ℤ) × (flash_repay : ℤ) × (d : Option
      LiquidationPlan)
    × (f : Option LiquidationPlan) × (p : Option LiquidationPlan) × (w₀ : World) × (w₁ : World)
    × (w₂ : World) × (w₃ : World) × (w₄ : World) × (answered : World) × (size_position env config t
          borrow_d_tokens margin w
        ≡ value s w₀)
    × (get_balance env t.borrow_pool.token_address w₀ ≡ value balance answered)
    × (cents_value config.min_profit_margin_cents t answered ≡ value min_value w₁)
    × (attempt
          (direct_candidate env config t s
            (usable config t.borrow_pool.token_address (or_zero balance)) min_value)
          w₁
        ≡ value d w₂)
    × (flash_size env config t s w₂ ≡ value flash_repay w₃)
    × (attempt (flash_candidate env config t s flash_repay min_value) w₃ ≡ value f w₄)
    × (attempt (preswap_candidate env config t s min_value) w₄ ≡ value p w')
    × IsLargest plan (pushed d (pushed f (pushed p [])))

-- The plan that is built for a pair is one of its candidates, and no candidate repays more. The run sizes
-- the position, asks `try_get_balance` for the borrowed token and converts the configured margin; then the
-- candidates are the outcomes of the direct, the flash and the pre-swap planner, in this order, on that
-- sizing and that margin: the direct one with the usable part of that balance, or of 0 where there was no
-- answer, and the flash one with what `flash_size` allows.
pub build_liquidation_plan-ChosenFrom :
    (env : Surroundings) (config : LiquidatorConfig) (t : Target) (borrow_d_tokens : ℤ)
    (margin : ClearingMargin) (w w' : World) (plan : LiquidationPlan)
    → build_liquidation_plan env config t borrow_d_tokens margin w ≡ value plan w'
    → ChosenFrom env config t borrow_d_tokens margin w w' plan
unfolding build_liquidation_plan
build_liquidation_plan-ChosenFrom env config t borrow_d_tokens margin w w' plan h =
    then-elim (size_position env config t borrow_d_tokens margin) _ h λ s w₀ es h₁.
      then-elim (get_balance env t.borrow_pool.token_address) _ h₁ λ balance u eb h₂.
        then-elim (cents_value config.min_profit_margin_cents t) _ h₂ λ min_value v em h₃.
          then-elim
            (attempt (
              direct_candidate env config t s
                (usable config t.borrow_pool.token_address (or_zero balance)) min_value))
            _ h₃
            λ d w₁ ed h₄. then-elim (flash_size env config t s) _ h₄ λ flash_repay w₂ ef h₅.
              then-elim (attempt (flash_candidate env config t s flash_repay min_value)) _ h₅
                λ f w₃ eff h₆.
                  then-elim (attempt (preswap_candidate env config t s min_value)) _ h₆
                    λ p w₄ epp h₇.
                      let g =
                        given-eq-value (max_by_repay (pushed d (pushed f (pushed p []))) none) h₇ in
                      (
                        s,
                        balance,
                        min_value,
                        flash_repay,
                        d,
                        f,
                        p,
                        w₀,
                        v,
                        w₁,
                        w₂,
                        w₃,
                        u,
                        es,
                        eb,
                        em,
                        ed,
                        ef,
                        eff,
                        epp ∙ ap (λ z. value p z) g.1,
                        max_by_repay-IsLargest (pushed d (pushed f (pushed p []))) plan g.0,
                      )
