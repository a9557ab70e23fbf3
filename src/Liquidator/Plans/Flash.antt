-- ===== src/Liquidator/Plans/Flash.antt =====
-- What a flash plan promises (`try_flash_plan` of liquidator.rs).
use alula_liquidator.Prelude.{
  ◌≡◌, sym, subst, ◌∙◌, String, true, not, Option, some, Bool-cases, inl, inr, arith,
}
use alula_liquidator.Prelude.Outcome.{ok}
use alula_liquidator.Prelude.Int.{
  ℤ, pos, negsuc, ◌≤ℤ◌, ◌+ℤ◌, min_ℤ, ltb_ℤ, leb_ℤ, checked_add, plain_sub, saturating_add,
  saturating_sub, saturating_mul, saturating_div,
}
use alula_liquidator.Amount.{bps_factor}
use alula_liquidator.Pool.{j_tokens_to_tokens_floor}
use alula_liquidator.Profitability.{compute_flash_fee}
use alula_liquidator.World.{Surroundings, World, value, guard, dropping, given}
use alula_liquidator.World.Laws.{
  then-elim, dropping-eq-value, given-eq-value, guard-eq-value, pure-eq-value,
}
use alula_liquidator.Liquidator.{LiquidatorConfig, LiquidationPlan, flash, Target}
use alula_liquidator.Liquidator.Quotes.{best_swap_quote}
use alula_liquidator.Liquidator.Quotes.Best.{out_answers, offers, IsBest, best_swap_quote-IsBest}
use alula_liquidator.Liquidator.Plans.{
  worth, compute_seized, acceptable_net, new_plan, seizure_parts, try_flash_plan,
}
use alula_liquidator.Liquidator.Plans.Profit.{
  IsWorth, Profits, Seizes, worth-IsWorth, compute_seized-Seizes, compute_seized-world,
  acceptable_net-Profits,
}

-- What a flash plan is: its swap sells at most what the seizure hands over, and the largest positive
-- amount that the configured providers, asked in turn from `start` on, answer for it, less the slippage, covers the borrowed repay with its fee; the seized value exceeds the
-- cost, the refund taken off, by more than the margin.
pub record IsFlash (env : Surroundings) (config : LiquidatorConfig) (t : Target) (repay margin : ℤ)
    (start : World) (plan : LiquidationPlan) : Type 0 where
  pub seized : ℤ
  pub repaid : ℤ
  pub plain : ℤ
  pub withdrawn : ℤ
  pub sold : ℤ
  pub fee : ℤ
  pub provider : String
  pub quoted : ℤ
  best_quote :
      IsBest
        (λ a b. a ≤ℤ b)
        (some (provider, quoted))
        (offers
          (out_answers env sold t.collateral_pool.token_address t.borrow_pool.token_address)
          start.tick
          config.swap_providers)
  pub kept_bps : ℤ
  pub least_out : ℤ
  pub gain : ℤ
  pub cost : ℤ
  pub net : ℤ
  pub accepted_by_market : Seizes config.dust_rules t repay seized repaid
  pub parts_sold : checked_add plain withdrawn ≡ some sold
  pub parts_seized : plain +ℤ withdrawn ≤ℤ seized
  pub fee_is : compute_flash_fee repay t.borrow_pool.flash_loan_fee_bps ≡ ok fee
  pub kept_is : plain_sub bps_factor config.max_allowed_swap_slippage_bps ≡ ok kept_bps
  pub least_is : saturating_div (saturating_mul quoted kept_bps) bps_factor ≡ ok least_out
  pub covers : saturating_add repay fee ≤ℤ least_out
  pub gain_is : IsWorth sold t.collateral_pool gain
  cost_is :
      IsWorth
        (saturating_sub (saturating_add repay fee) (saturating_sub repay repaid))
        t.borrow_pool
        cost
  pub profits : Profits gain cost margin net
  pub plan_is :
      plan ≡ new_plan t repay net seized (flash (saturating_add repay fee) provider withdrawn)

not_below : (a b : ℤ) → not (ltb_ℤ a b) ≡ true → b ≤ℤ a
not_below a b h = ground (arith, h)

whole_part : (s p : ℤ) → leb_ℤ s p ≡ true → s +ℤ pos 0 ≤ℤ s
whole_part (pos n) p h = omega arith
whole_part (negsuc n) p h = ground arith

beyond_parts : (s p d l : ℤ) → plain_sub s p ≡ ok l → p +ℤ min_ℤ d l ≤ℤ s
unfolding plain_sub
beyond_parts (pos s) (pos p) d l h = ground (arith, h)
beyond_parts (pos s) (negsuc p) d l h = ground (arith, h)
beyond_parts (negsuc s) (pos p) d l h = ground (arith, h)
beyond_parts (negsuc s) (negsuc p) d l h = ground (arith, h)

seizure_parts-le :
    (t : Target) (s : ℤ) (w w' : World) (r : ℤ × ℤ)
    → seizure_parts t s w ≡ value r w'
    → r.0 +ℤ r.1 ≤ℤ s
unfolding seizure_parts
seizure_parts-le t s w w' r h =
    let all_plain = t.deposit_position.collateral in
    elim (Bool-cases (leb_ℤ s all_plain)) [
      | inl e ↦
          subst (λ (z : ℤ × ℤ). z.0 +ℤ z.1 ≤ℤ s) (pure-eq-value (rw e at h)).0
            (whole_part s all_plain e)
      | inr e ↦
          then-elim
            (dropping (j_tokens_to_tokens_floor t.collateral_pool t.deposit_position.j_tokens)) _
            (rw e at h)
            λ all_deposit u _ h₁. then-elim (dropping (plain_sub s all_plain)) _ h₁ λ left u₁ el h₂.
              subst (λ (z : ℤ × ℤ). z.0 +ℤ z.1 ≤ℤ s) (pure-eq-value h₂).0
                (beyond_parts s all_plain all_deposit left (dropping-eq-value _ el).0)
    ]

seizure_parts-world :
    (t : Target) (s : ℤ) (w w' : World) (r : ℤ × ℤ) → seizure_parts t s w ≡ value r w' → w ≡ w'
unfolding seizure_parts
seizure_parts-world t s w w' r h = elim (Bool-cases (leb_ℤ s t.deposit_position.collateral)) [
  | inl e ↦ (pure-eq-value (rw e at h)).1
  | inr e ↦
      then-elim (dropping (j_tokens_to_tokens_floor t.collateral_pool t.deposit_position.j_tokens))
        _ (rw e at h)
        λ all_deposit u ea h₁.
          then-elim (dropping (plain_sub s t.deposit_position.collateral)) _ h₁ λ left u₁ el h₂.
            (dropping-eq-value _ ea).1 ∙ (dropping-eq-value _ el).1 ∙ (pure-eq-value h₂).1
]

-- The offer that a quote chose is the best of the providers' answers from the quote's start on.
quoted-IsBest :
    (env : Surroundings) (config : LiquidatorConfig) (sold : ℤ) (asset_in asset_out : String)
    (start w w' : World) (best : Option (String × ℤ)) (offer : String × ℤ)
    → start ≡ w
    → best_swap_quote env config.swap_providers sold asset_in asset_out w ≡ value best w'
    → best ≡ some offer
    → IsBest
        (λ a b. a ≤ℤ b)
        (some offer)
        (offers (out_answers env sold asset_in asset_out) start.tick config.swap_providers)
quoted-IsBest env config sold asset_in asset_out start w w' best offer at h e =
    let (r, u, q, i) = best_swap_quote-IsBest env sold asset_in asset_out config.swap_providers w in
    let same : r ≡ some offer = (pure-eq-value (sym q ∙ h)).0 ∙ e in
    subst
      (λ (z : World).
        IsBest (λ a b. a ≤ℤ b) (some offer)
          (offers (out_answers env sold asset_in asset_out) z.tick config.swap_providers))
      (sym at)
      (subst
        (λ z.
          IsBest (λ a b. a ≤ℤ b) z
            (offers (out_answers env sold asset_in asset_out) w.tick config.swap_providers))
        same i)

pub try_flash_plan-IsFlash :
    (env : Surroundings) (config : LiquidatorConfig) (t : Target) (repay margin : ℤ) (w w' : World)
    (plan : LiquidationPlan)
    → try_flash_plan env config t repay margin w ≡ value plan w'
    → IsFlash env config t repay margin w plan
unfolding try_flash_plan
try_flash_plan-IsFlash env config t repay margin w w' plan h =
    then-elim (compute_seized config.dust_rules t repay) _ h λ z u ez h₁.
      then-elim (seizure_parts t z.0) _ h₁ λ parts u₁ ep h₂.
        then-elim (given (checked_add parts.0 parts.1)) _ h₂ λ sold u₂ es h₃.
          then-elim (dropping (compute_flash_fee repay t.borrow_pool.flash_loan_fee_bps)) _ h₃
            λ fee u₃ ef h₄.
              then-elim
                (best_swap_quote env config.swap_providers sold t.collateral_pool.token_address
                  t.borrow_pool.token_address)
                _ h₄
                λ best u₄ eb h₅. then-elim (given best) _ h₅ λ offer u₅ eo h₆.
                  then-elim (dropping (plain_sub bps_factor config.max_allowed_swap_slippage_bps)) _
                    h₆
                    λ kept u₆ ek h₇.
                      then-elim (dropping (saturating_div (saturating_mul offer.1 kept) bps_factor))
                        _ h₇
                        λ least u₇ el h₈.
                          then-elim (guard (not (ltb_ℤ least (saturating_add repay fee)))) _ h₈
                            λ _ u₈ eg h₉.
                              then-elim
                                (worth
                                  (saturating_sub (saturating_add repay fee)
                                    (saturating_sub repay z.1))
                                  t.borrow_pool)
                                _ h₉
                                λ cost u₉ ec k.
                                  then-elim (worth sold t.collateral_pool) _ k λ gain v ev k₁.
                                    then-elim (acceptable_net gain cost margin) _ k₁ λ net v₁ en k₂.
                                      record {
                                        seized = z.0;
                                        repaid = z.1;
                                        plain = parts.0;
                                        withdrawn = parts.1;
                                        sold = sold;
                                        fee = fee;
                                        provider = offer.0;
                                        quoted = offer.1;
                                        best_quote =
                                            quoted-IsBest env config sold
                                              t.collateral_pool.token_address
                                              t.borrow_pool.token_address w u₃ u₄ best offer
                                              (compute_seized-world config.dust_rules t repay w u z
                                                  ez
                                                ∙ seizure_parts-world t z.0 u u₁ parts ep
                                                ∙ (given-eq-value _ es).1
                                                ∙ (dropping-eq-value _ ef).1)
                                              eb (given-eq-value best eo).0;
                                        kept_bps = kept;
                                        least_out = least;
                                        gain = gain;
                                        cost = cost;
                                        net = net;
                                        accepted_by_market =
                                            compute_seized-Seizes config.dust_rules t repay w u z
                                              ez;
                                        parts_sold =
                                            (given-eq-value (checked_add parts.0 parts.1) es).0;
                                        parts_seized = seizure_parts-le t z.0 u u₁ parts ep;
                                        fee_is = (dropping-eq-value _ ef).0;
                                        kept_is = (dropping-eq-value _ ek).0;
                                        least_is = (dropping-eq-value _ el).0;
                                        covers =
                                            not_below least (saturating_add repay fee)
                                              (guard-eq-value _ eg).0;
                                        gain_is = worth-IsWorth sold t.collateral_pool u₉ v gain ev;
                                        cost_is = worth-IsWorth _ t.borrow_pool u₈ u₉ cost ec;
                                        profits =
                                            acceptable_net-Profits gain cost margin v v₁ net en;
                                        plan_is = sym (pure-eq-value k₂).0;
                                      }
