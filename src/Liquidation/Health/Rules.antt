-- ===== src/Liquidation/Health/Rules.antt =====
-- How the two rule sets of a market compare in `compute_is_liquidatable` of liquidation.rs.
use alula_liquidator.Prelude.{◌≡◌, inl, inr, true, false, arith, Bool-cases, length}
use alula_liquidator.Prelude.Outcome.{ok, bind-elim, m_ou}
use alula_liquidator.Prelude.Int.{ℤ, pos, eqb_ℤ, checked_mul}
use alula_liquidator.Market.{MarketData, Obligation}
use alula_liquidator.Liquidation.Health.{
  sweep, no_dust, has_any_collateral, scaled_debt, scaled_collateral, judge_health,
  min_collateral_value, compute_is_liquidatable,
}

judge-sweep :
    (o : Obligation) (m : MarketData) (debt collateral : ℤ)
    → judge_health o m sweep debt collateral ≡ ok true
    → judge_health o m no_dust debt collateral ≡ ok true
unfolding judge_health
judge-sweep o m debt collateral h =
    bind-elim (min_collateral_value m.min_collateral_value_cents m.oracle_price_decimals) _ h
      λ per ep h₁.
        bind-elim (m_ou (checked_mul per (pos (length o.deposits)))) _ h₁
          λ sub es h₂. rw ep (rw es (ground (arith, h₂)))

-- What a sweep market's rules find liquidatable is liquidatable under a no-dust market's rules.
pub sweep_liquidatable-no_dust :
    (o : Obligation) (m : MarketData)
    → compute_is_liquidatable o m sweep ≡ ok true
    → compute_is_liquidatable o m no_dust ≡ ok true
unfolding compute_is_liquidatable
sweep_liquidatable-no_dust o m h = elim (Bool-cases (has_any_collateral m o.deposits)) [
  | inr e ↦ absurd (refused (rw e at h))
  | inl held ↦ rw held (
      bind-elim (scaled_debt m o.borrows (pos 0)) _ (rw held at h) λ debt ed h₁.
        rw ed (elim (Bool-cases (eqb_ℤ debt (pos 0))) [
          | inl e ↦ absurd (refused (rw e at h₁))
          | inr owed ↦ rw owed (
              bind-elim (scaled_collateral m o.deposits (pos 0)) _ (rw owed at h₁)
                λ c ec h₂. rw ec (judge-sweep o m debt c h₂))
        ]))
]
  where
    refused : ok false ≡ ok true → ⊥
    refused e = cc
