-- ===== src/Liquidator/Evaluate/Aimed.antt =====
-- Whom a plan liquidates (`build_liquidation_plan_for_asset_pool_pair` and `try_liquidate` of
-- liquidator.rs).
use alula_liquidator.Prelude.{
  ◌≡◌, ◌⊎◌, inl, inr, refl, sym, subst, ap, String, Bool, not, Option, some, none, List, [], ◌∷◌,
  In, find, str_eq, Bool-cases,
}
use alula_liquidator.Prelude.Int.{ℤ, pos, i128_max, min_ℤ, ltb_ℤ, saturating_sub}
use alula_liquidator.Pool.{PoolData}
use alula_liquidator.Market.{
  MarketData, Obligation, ObligationKey, BorrowPosition, DepositPosition, pool_of,
}
use alula_liquidator.Profitability.{compute_liquidation_profitability}
use alula_liquidator.Liquidation.Pair.{
  LiquidationPair, ClearingMargin, initial_margin, retry_margin,
}
use alula_liquidator.World.{
  Surroundings, World, value, M, pure, guard, given, dropping, attempt, ◌>>=◌,
}
use alula_liquidator.World.Laws.{then-elim, given-eq-value, pure-eq-value, attempt-eq-some}
use alula_liquidator.Liquidator.{LiquidatorConfig, LiquidationPlan, Target}
use alula_liquidator.Liquidator.Plans.{
  worth, compute_seized, keep_larger, fit_or_skip, usable, size_preswap, judge_preswap,
  finish_preswap, preswap_from, try_preswap_plan,
}
use alula_liquidator.Liquidator.Plans.Profit.{try_direct_plan-IsDirect}
use alula_liquidator.Liquidator.Plans.Flash.{try_flash_plan-IsFlash}
use alula_liquidator.Liquidator.Build.{
  Sizing, or_zero, direct_candidate, flash_candidate, preswap_candidate, pushed,
  build_liquidation_plan,
}
use alula_liquidator.Liquidator.Evaluate.{
  keep_better, is_empty_deposit, target, plan_for_deposit, best_over_deposits, best_over_borrows,
  replan_pair,
}
use alula_liquidator.Liquidator.Build.Chosen.{build_liquidation_plan-ChosenFrom}

-- The plan liquidates the target's borrower.
abbrev pub IsAimed : ObligationKey → LiquidationPlan → Type 0
IsAimed key plan = plan.borrower_key ≡ key

abbrev pub IsAimedOr : ObligationKey → Option LiquidationPlan → Type 0
IsAimedOr key none = Unit
IsAimedOr key (some plan) = IsAimed key plan

keep_larger-IsAimed :
    (key : ObligationKey) (found best : Option LiquidationPlan)
    → IsAimedOr key found
    → IsAimedOr key best
    → IsAimedOr key (keep_larger found best)
unfolding keep_larger
keep_larger-IsAimed key none best f b = b
keep_larger-IsAimed key (some plan) none f b = f
keep_larger-IsAimed key (some plan) (some best) f b =
    elim (Bool-cases (ltb_ℤ best.repay_amount plan.repay_amount)) [
      | inl e ↦ rw e f
      | inr e ↦ rw e b
    ]

module _ (env : Surroundings) (config : LiquidatorConfig) (t : Target) where
  judge_preswap-IsAimed :
      (margin : ℤ) (asset : String) (sized : String × ℤ × ℤ) (repay seized repaid : ℤ)
      (pool : PoolData) (w w' : World) (found : Option LiquidationPlan)
      → judge_preswap env config t margin asset sized repay seized repaid pool w ≡ value found w'
      → IsAimedOr t.borrower_key found
  unfolding judge_preswap
  judge_preswap-IsAimed margin asset sized repay seized repaid pool w w' found h =
      then-elim (worth (saturating_sub repay repaid) t.borrow_pool) _ h λ refund u₁ _ h₁.
        then-elim (worth sized.1 pool) _ h₁ λ spent u₂ _ h₂.
          then-elim (worth seized t.collateral_pool) _ h₂ λ gain u₃ _ h₃.
            then-elim
              (dropping
                (compute_liquidation_profitability gain (saturating_sub spent refund) margin))
              _ h₃
              λ p u₄ _ h₄.
                subst (IsAimedOr t.borrower_key) (pure-eq-value h₄).0
                  (elim (Bool-cases p.is_acceptable) [ inl e ↦ rw e refl | inr e ↦ rw e tt ])

  finish_preswap-IsAimed :
      (margin : ℤ) (asset : String) (sized : Option ((String × ℤ × ℤ) × ℤ)) (w w' : World)
      (found : Option LiquidationPlan)
      → finish_preswap env config t margin asset sized w ≡ value found w'
      → IsAimedOr t.borrower_key found
  unfolding finish_preswap
  finish_preswap-IsAimed margin asset none w w' found h =
      subst (IsAimedOr t.borrower_key) (pure-eq-value h).0 tt
  finish_preswap-IsAimed margin asset (some (sized, repay)) w w' found h =
      then-elim (compute_seized config.dust_rules t repay) _ h λ seizure u _ h₁.
        split seizure u
          (find (λ (p : PoolData). str_eq p.token_address asset) t.market_data.pools_data) h₁
    where
      split :
          (seizure : ℤ × ℤ) (u : World) (o : Option PoolData)
          → (elim o as (λ _. M (Option LiquidationPlan)) [
            | none ↦ pure none
            | some pool ↦
                judge_preswap env config t margin asset sized repay seizure.0 seizure.1 pool
          ])
              u
            ≡ value found w'
          → IsAimedOr t.borrower_key found
      split seizure u none q = subst (IsAimedOr t.borrower_key) (pure-eq-value q).0 tt
      split seizure u (some pool) q =
          judge_preswap-IsAimed margin asset sized repay seizure.0 seizure.1 pool u w' found q

  preswap_from-IsAimed :
      (pair : LiquidationPair) (repay margin : ℤ) (assets : List String)
      (best : Option LiquidationPlan) (w w' : World) (found : Option LiquidationPlan)
      → IsAimedOr t.borrower_key best
      → preswap_from env config t pair repay margin assets best w ≡ value found w'
      → IsAimedOr t.borrower_key found
  unfolding preswap_from
  preswap_from-IsAimed pair repay margin [] best w w' found b h =
      subst (IsAimedOr t.borrower_key) (pure-eq-value h).0 b
  preswap_from-IsAimed pair repay margin (asset ∷ rest) best w w' found b h =
      then-elim (attempt (size_preswap env config t pair repay asset)) _ h λ sized u _ h₁.
        then-elim (finish_preswap env config t margin asset sized) _ h₁ λ one u₁ e h₂.
          preswap_from-IsAimed pair repay margin rest (keep_larger one best) u₁ w' found
            (keep_larger-IsAimed t.borrower_key one best
              (finish_preswap-IsAimed margin asset sized u u₁ one e) b)
            h₂

  direct_candidate-IsAimed :
      (s : Sizing) (usable margin : ℤ) (w w' : World) (plan : LiquidationPlan)
      → direct_candidate env config t s usable margin w ≡ value plan w'
      → IsAimed t.borrower_key plan
  unfolding direct_candidate
  direct_candidate-IsAimed s usable margin w w' plan h =
      then-elim (guard (ltb_ℤ (pos 0) (min_ℤ s.max_profitable_repay usable))) _ h λ _ u _ h₁.
        then-elim (fit_or_skip s.pair (min_ℤ s.max_profitable_repay usable) usable) _ h₁
          λ repay u₁ _ h₂.
            let direct = try_direct_plan-IsDirect config.dust_rules t repay margin u₁ w' plan h₂ in
            ap (λ (z : LiquidationPlan). z.borrower_key) direct.9

  flash_candidate-IsAimed :
      (s : Sizing) (flash_repay margin : ℤ) (w w' : World) (plan : LiquidationPlan)
      → flash_candidate env config t s flash_repay margin w ≡ value plan w'
      → IsAimed t.borrower_key plan
  unfolding flash_candidate
  flash_candidate-IsAimed s flash_repay margin w w' plan h =
      then-elim (guard (ltb_ℤ (pos 0) flash_repay)) _ h λ _ u _ h₁.
        then-elim (fit_or_skip s.pair flash_repay t.borrow_pool.total_available_adjusted) _ h₁
          λ repay u₁ _ h₂.
            ap (λ (z : LiquidationPlan). z.borrower_key)
              (try_flash_plan-IsFlash env config t repay margin u₁ w' plan h₂).plan_is

  preswap_candidate-IsAimed :
      (s : Sizing) (margin : ℤ) (w w' : World) (plan : LiquidationPlan)
      → preswap_candidate env config t s margin w ≡ value plan w'
      → IsAimed t.borrower_key plan
  unfolding preswap_candidate try_preswap_plan
  preswap_candidate-IsAimed s margin w w' plan h =
      then-elim (fit_or_skip s.pair s.max_profitable_repay (pos i128_max)) _ h λ repay u _ h₁.
        then-elim (preswap_from env config t s.pair repay margin config.assets_to_hold none) _ h₁
          λ best u₁ e h₂.
            subst (IsAimedOr t.borrower_key) (given-eq-value best h₂).0
              (preswap_from-IsAimed s.pair repay margin config.assets_to_hold none u u₁ best tt e)

  In-pushed :
      (found : Option LiquidationPlan) (rest : List LiquidationPlan) (plan : LiquidationPlan)
      → In plan (pushed found rest)
      → (found ≡ some plan) ⊎ In plan rest
  In-pushed none rest plan i = inr i
  In-pushed (some p) rest plan (inl e) = inl (ap (λ z. some z) (sym e))
  In-pushed (some p) rest plan (inr i) = inr i

  attempted :
      (m : M LiquidationPlan) (found : Option LiquidationPlan) (w w' : World)
      (plan : LiquidationPlan)
      → attempt m w ≡ value found w'
      → found ≡ some plan
      → m w ≡ value plan w'
  attempted m found w w' plan e same =
      attempt-eq-some m (subst (λ z. attempt m w ≡ value z w') same e)

  build_liquidation_plan-IsAimed :
      (borrow_d_tokens : ℤ) (margin : ClearingMargin) (w w' : World) (plan : LiquidationPlan)
      → build_liquidation_plan env config t borrow_d_tokens margin w ≡ value plan w'
      → IsAimed t.borrower_key plan
  build_liquidation_plan-IsAimed borrow_d_tokens margin w w' plan h =
      let (
        s, balance, least, flash_repay, d, f, p, w₀, w₁, w₂, w₃, w₄, u, es, eb, em, ed, ef, eff, ep,
        largest,
      ) =
        build_liquidation_plan-ChosenFrom env config t borrow_d_tokens margin w w' plan h in
      elim (In-pushed d (pushed f (pushed p [])) plan largest.0) [
        | inl e ↦
            direct_candidate-IsAimed s (usable config t.borrow_pool.token_address (or_zero balance))
              least w₁ w₂ plan
              (attempted
                (direct_candidate env config t s
                  (usable config t.borrow_pool.token_address (or_zero balance)) least)
                d w₁ w₂ plan ed e)
        | inr i ↦ elim (In-pushed f (pushed p []) plan i) [
          | inl e ↦
              flash_candidate-IsAimed s flash_repay least w₃ w₄ plan
                (attempted (flash_candidate env config t s flash_repay least) f w₃ w₄ plan eff e)
          | inr j ↦ elim (In-pushed p [] plan j) [
            | inl e ↦
                preswap_candidate-IsAimed s least w₄ w' plan
                  (attempted (preswap_candidate env config t s least) p w₄ w' plan ep e)
            | inr k ↦ absurd k
          ]
        ]
      ]

keep_better-IsAimed :
    (key : ObligationKey) (found best : Option LiquidationPlan)
    → IsAimedOr key found
    → IsAimedOr key best
    → IsAimedOr key (keep_better found best)
unfolding keep_better
keep_better-IsAimed key none best f b = b
keep_better-IsAimed key (some plan) none f b = f
keep_better-IsAimed key (some plan) (some best) f b =
    elim (Bool-cases (ltb_ℤ best.net_profit_value plan.net_profit_value)) [
      | inl e ↦ rw e f
      | inr e ↦ rw e b
    ]

module _ (env : Surroundings) (config : LiquidatorConfig) (is_insolvent : Bool) (view : MarketData)
    (obligation : Obligation) (key : ObligationKey) where
  plan_for_deposit-IsAimed :
      (borrow : BorrowPosition) (pool : PoolData) (deposit : DepositPosition) (w w' : World)
      (plan : LiquidationPlan)
      → plan_for_deposit env config is_insolvent view obligation key borrow pool deposit w
        ≡ value plan w'
      → IsAimed key plan
  unfolding plan_for_deposit
  plan_for_deposit-IsAimed borrow pool deposit w w' plan h =
      then-elim (guard (not (str_eq deposit.pool_address borrow.pool_address))) _ h λ _ u₁ _ h₁.
        then-elim (guard (not (is_empty_deposit deposit))) _ h₁ λ _ u₂ _ h₂.
          then-elim (given (pool_of view deposit.pool_address)) _ h₂ λ collateral_pool u₃ _ h₃.
            build_liquidation_plan-IsAimed env config
              (target env config is_insolvent view obligation key pool collateral_pool deposit)
              borrow.d_tokens initial_margin u₃ w' plan h₃

  best_over_deposits-IsAimed :
      (borrow : BorrowPosition) (pool : PoolData) (deposits : List DepositPosition)
      (best : Option LiquidationPlan) (w w' : World) (found : Option LiquidationPlan)
      → IsAimedOr key best
      → best_over_deposits env config is_insolvent view obligation key borrow pool deposits best w
        ≡ value found w'
      → IsAimedOr key found
  unfolding best_over_deposits
  best_over_deposits-IsAimed borrow pool [] best w w' found b h =
      subst (IsAimedOr key) (pure-eq-value h).0 b
  best_over_deposits-IsAimed borrow pool (deposit ∷ rest) best w w' found b h =
      then-elim
        (attempt (plan_for_deposit env config is_insolvent view obligation key borrow pool deposit))
        _ h
        λ one u e h₁.
          best_over_deposits-IsAimed borrow pool rest (keep_better one best) u w' found
            (keep_better-IsAimed key one best (aimed one u e) b) h₁
    where
      aimed :
          (one : Option LiquidationPlan) (u : World)
          → attempt
              (plan_for_deposit env config is_insolvent view obligation key borrow pool deposit)
              w
            ≡ value one u
          → IsAimedOr key one
      aimed none u e = tt
      aimed (some plan) u e = plan_for_deposit-IsAimed borrow pool deposit w u plan (
          attempt-eq-some
            (plan_for_deposit env config is_insolvent view obligation key borrow pool deposit) e)

  pub best_over_borrows-IsAimed :
      (borrows : List BorrowPosition) (best : Option LiquidationPlan) (w w' : World)
      (found : Option LiquidationPlan)
      → IsAimedOr key best
      → best_over_borrows env config is_insolvent view obligation key borrows best w
        ≡ value found w'
      → IsAimedOr key found
  unfolding best_over_borrows
  best_over_borrows-IsAimed [] best w w' found b h = subst (IsAimedOr key) (pure-eq-value h).0 b
  best_over_borrows-IsAimed (borrow ∷ rest) best w w' found b h =
      split (pool_of view borrow.pool_address) (best_over_borrows-IsAimed rest) h
    where
      Rest : Type 0
      Rest =
          (next : Option LiquidationPlan) (u u' : World) (out : Option LiquidationPlan)
          → IsAimedOr key next
          → best_over_borrows env config is_insolvent view obligation key rest next u ≡ value out u'
          → IsAimedOr key out

      split :
          (o : Option PoolData)
          → Rest
          → (elim o as (λ _. M (Option LiquidationPlan)) [
            | none ↦ best_over_borrows env config is_insolvent view obligation key rest best
            | some pool ↦
                best_over_deposits env config is_insolvent view obligation key borrow pool
                  obligation.deposits best
                >>= λ next. best_over_borrows env config is_insolvent view obligation key rest next
          ])
              w
            ≡ value found w'
          → IsAimedOr key found
      split none k q = k best w w' found b q
      split (some pool) k q =
          then-elim
            (best_over_deposits env config is_insolvent view obligation key borrow pool
              obligation.deposits best)
            _ q
            λ next u e q₁.
              k next u w' found
                (best_over_deposits-IsAimed borrow pool obligation.deposits best w u next b e) q₁

  pub replan_pair-IsAimed :
      (borrow_pool_address collateral_pool_address : String) (w w' : World) (plan : LiquidationPlan)
      → replan_pair env config is_insolvent view obligation key borrow_pool_address
          collateral_pool_address w
        ≡ value plan w'
      → IsAimed key plan
  unfolding replan_pair
  replan_pair-IsAimed borrow_pool_address collateral_pool_address w w' plan h =
      then-elim
        (given (
          find (λ (b : BorrowPosition). str_eq b.pool_address borrow_pool_address)
            obligation.borrows))
        _ h
        λ borrow u₁ _ h₁.
          then-elim
            (given (
              find (λ (d : DepositPosition). str_eq d.pool_address collateral_pool_address)
                obligation.deposits))
            _ h₁
            λ deposit u₂ _ h₂.
              then-elim (given (pool_of view borrow_pool_address)) _ h₂ λ pool u₃ _ h₃.
                then-elim (given (pool_of view collateral_pool_address)) _ h₃
                  λ collateral_pool u₄ _ h₄.
                    build_liquidation_plan-IsAimed env config
                      (target env config is_insolvent view obligation key pool collateral_pool
                        deposit)
                      borrow.d_tokens retry_margin u₄ w' plan h₄
