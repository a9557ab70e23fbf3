-- ===== src/Liquidator/Plans/Profit.antt =====
-- What a direct and a flash plan promise (`try_direct_plan` and `try_flash_plan` of liquidator.rs).
use alula_liquidator.Prelude.{
  ◌≡◌, refl, sym, subst, ap, ◌∙◌, true, ◌↔◌, if◌then◌else◌, Bool-cases, inl, inr, arith,
}
use alula_liquidator.Prelude.Outcome.{ok}
use alula_liquidator.Prelude.Int.{ℤ, pos, ◌<ℤ◌, ◌+ℤ◌, ltb_ℤ, pow10, saturating_mul, saturating_div}
use alula_liquidator.Pool.{PoolData}
use alula_liquidator.Profitability.{LiquidationProfitability, compute_liquidation_profitability}
use alula_liquidator.Profitability.Margin.{compute_liquidation_profitability-ok}
use alula_liquidator.Liquidation.Health.{DustRules}
use alula_liquidator.Liquidation.Pair.{
  LiquidationPair, Seizure, accepted, over_close_factor, leaves_dust, new_pair, quote,
}
use alula_liquidator.World.{World, Run, value, nothing, pure, stop, dropping}
use alula_liquidator.World.Laws.{then-elim, dropping-eq-value, pure-eq-value}
use alula_liquidator.Liquidator.{LiquidationPlan, direct, Target}
use alula_liquidator.Liquidator.Plans.{
  worth, liquidation_pair, take_seizure, compute_seized, acceptable_net, new_plan, try_direct_plan,
}

-- `v` is the value of an amount at a pool's price.
abbrev pub IsWorth : ℤ → PoolData → ℤ → Type 0
IsWorth amount p v =
    (unit : ℤ) × (pow10 p.token_decimals ≡ ok unit)
    × (saturating_div (saturating_mul amount p.oracle_asset_price) unit ≡ ok v)

-- The gain is the cost and the net value, and above the cost and the margin.
abbrev pub Profits : (gain cost margin net : ℤ) → Type 0
Profits gain cost margin net = (pos 0 <ℤ cost) × (net +ℤ cost ≡ gain) × (cost +ℤ margin <ℤ gain)

-- The market, as the snapshot has it, accepts the repay, charges `repaid` and hands over `seized`.
abbrev pub Seizes : DustRules → Target → (repay seized repaid : ℤ) → Type 0
Seizes rules t repay seized repaid =
    (pair : LiquidationPair) × (new_pair rules t.obligation t.market_data t.borrow_pool
        t.collateral_pool t.deposit_position t.is_insolvent
      ≡ ok pair)
    × (quote pair repay ≡ ok (accepted seized repaid))
    × (pos 0 <ℤ seized)

pub worth-IsWorth :
    (amount : ℤ) (p : PoolData) (w w' : World) (v : ℤ)
    → worth amount p w ≡ value v w'
    → IsWorth amount p v
unfolding worth
worth-IsWorth amount p w w' v h = then-elim (dropping (pow10 p.token_decimals)) _ h λ unit u e k.
    (unit, (dropping-eq-value (pow10 p.token_decimals) e).0, (dropping-eq-value _ k).0)

take_seizure-accepted :
    (z : Seizure) (w w' : World) (p : ℤ × ℤ)
    → take_seizure z w ≡ value p w'
    → (z ≡ accepted p.0 p.1) × (pos 0 <ℤ p.0)
take_seizure-accepted (accepted s r) w w' p h = elim (Bool-cases (ltb_ℤ (pos 0) s)) [
  | inl t ↦ taken t (pure-eq-value (rw t at h)).0
  | inr f ↦ absurd (stopped (rw f at h))
]
  where
    positive : (n : ℤ) → ltb_ℤ (pos 0) n ≡ true → pos 0 <ℤ n
    positive n e = ground (arith, e)

    taken : ltb_ℤ (pos 0) s ≡ true → (s, r) ≡ p → (accepted s r ≡ accepted p.0 p.1) × (pos 0 <ℤ p.0)
    taken t e =
        subst (λ (z : ℤ × ℤ). (accepted s r ≡ accepted z.0 z.1) × (pos 0 <ℤ z.0)) e
          (refl, positive s t)

    stopped : ◌≡◌ {A = Run (ℤ × ℤ)} (nothing w) (value p w') → ⊥
    stopped e = cc
take_seizure-accepted over_close_factor w w' p h = cc
take_seizure-accepted leaves_dust w w' p h = cc

take_seizure-world :
    (z : Seizure) (w w' : World) (p : ℤ × ℤ) → take_seizure z w ≡ value p w' → w ≡ w'
take_seizure-world (accepted s r) w w' p h = elim (Bool-cases (ltb_ℤ (pos 0) s)) [
  | inl t ↦ (pure-eq-value (rw t at h)).1
  | inr f ↦ absurd (stopped (rw f at h))
]
  where
    stopped : ◌≡◌ {A = Run (ℤ × ℤ)} (nothing w) (value p w') → ⊥
    stopped e = cc
take_seizure-world over_close_factor w w' p h = cc
take_seizure-world leaves_dust w w' p h = cc

-- The seizure of a repay is computed from the snapshot, without a question.
pub compute_seized-world :
    (rules : DustRules) (t : Target) (repay : ℤ) (w w' : World) (r : ℤ × ℤ)
    → compute_seized rules t repay w ≡ value r w'
    → w ≡ w'
unfolding compute_seized liquidation_pair
compute_seized-world rules t repay w w' r h =
    then-elim
      (dropping (
        new_pair rules t.obligation t.market_data t.borrow_pool t.collateral_pool t.deposit_position
          t.is_insolvent))
      _ h
      λ pair u ep k. then-elim (dropping (quote pair repay)) _ k λ z u₁ ez k₁.
        (dropping-eq-value _ ep).1
        ∙ (dropping-eq-value (quote pair repay) ez).1
        ∙ take_seizure-world z u₁ w' r k₁

pub compute_seized-Seizes :
    (rules : DustRules) (t : Target) (repay : ℤ) (w w' : World) (r : ℤ × ℤ)
    → compute_seized rules t repay w ≡ value r w'
    → Seizes rules t repay r.0 r.1
unfolding compute_seized liquidation_pair
compute_seized-Seizes rules t repay w w' r h =
    then-elim
      (dropping (
        new_pair rules t.obligation t.market_data t.borrow_pool t.collateral_pool t.deposit_position
          t.is_insolvent))
      _ h
      λ pair u ep k. then-elim (dropping (quote pair repay)) _ k λ z u₁ ez k₁.
        let (e, p) = take_seizure-accepted z u₁ w' r k₁ in
        (pair, (dropping-eq-value _ ep).0, (dropping-eq-value (quote pair repay) ez).0 ∙ ap ok e, p)

pub acceptable_net-Profits :
    (gain cost margin : ℤ) (w w' : World) (net : ℤ)
    → acceptable_net gain cost margin w ≡ value net w'
    → Profits gain cost margin net
unfolding acceptable_net
acceptable_net-Profits gain cost margin w w' net h =
    then-elim (dropping (compute_liquidation_profitability gain cost margin)) _ h λ p u ep k.
      let q = compute_liquidation_profitability-ok gain cost margin p (dropping-eq-value _ ep).0 in
      judged p u q k
  where
    stopped : (u : World) → ◌≡◌ {A = Run ℤ} (nothing u) (value net w') → ⊥
    stopped u e = cc

    judged :
        (p : LiquidationProfitability) (u : World)
        → (pos 0 <ℤ gain)
          × (pos 0 <ℤ cost)
          × (p.net_value +ℤ cost ≡ gain)
          × ((p.is_acceptable ≡ true) ↔ (cost +ℤ margin <ℤ gain))
        → (if p.is_acceptable then pure p.net_value else stop) u ≡ value net w'
        → Profits gain cost margin net
    judged p u q k = elim (Bool-cases p.is_acceptable) [
      | inl t ↦
          let e = (pure-eq-value (rw t at k)).0 in
          (q.1, subst (λ z. z +ℤ cost ≡ gain) e q.2, q.3.0 t)
      | inr f ↦ absurd (stopped u (rw f at k))
    ]

-- What a direct plan is: the repay as given, whose seizure the market accepts and whose seized value
-- exceeds the value of what it charges by more than the margin; the plan's net profit is the difference.
abbrev pub IsDirect : DustRules → Target → (repay margin : ℤ) → LiquidationPlan → Type 0
IsDirect rules t repay margin plan =
    (seized : ℤ) × (repaid : ℤ) × (gain : ℤ) × (cost : ℤ) × (net : ℤ) × Seizes rules t repay seized
      repaid
    × IsWorth seized t.collateral_pool gain
    × IsWorth repaid t.borrow_pool cost
    × Profits gain cost margin net
    × (plan ≡ new_plan t repay net seized direct)

pub try_direct_plan-IsDirect :
    (rules : DustRules) (t : Target) (repay margin : ℤ) (w w' : World) (plan : LiquidationPlan)
    → try_direct_plan rules t repay margin w ≡ value plan w'
    → IsDirect rules t repay margin plan
unfolding try_direct_plan
try_direct_plan-IsDirect rules t repay margin w w' plan h =
    then-elim (compute_seized rules t repay) _ h λ z u ez h₁.
      then-elim (worth z.1 t.borrow_pool) _ h₁ λ cost u₁ ec h₂.
        then-elim (worth z.0 t.collateral_pool) _ h₂ λ gain u₂ eg h₃.
          then-elim (acceptable_net gain cost margin) _ h₃ λ net u₃ en h₄. (
            z.0,
            z.1,
            gain,
            cost,
            net,
            compute_seized-Seizes rules t repay w u z ez,
            worth-IsWorth z.0 t.collateral_pool u₁ u₂ gain eg,
            worth-IsWorth z.1 t.borrow_pool u u₁ cost ec,
            acceptable_net-Profits gain cost margin u₂ u₃ net en,
            sym (pure-eq-value h₄).0,
          )
