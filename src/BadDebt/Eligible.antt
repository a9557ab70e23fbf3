-- ===== src/BadDebt/Eligible.antt =====
-- What an eligible obligation is (`is_eligible_for_bad_debt_request_issuance` of
-- bad_debt_request_initiator.rs).
use alula_liquidator.Prelude.{
  ℕ, ◌≡◌, refl, ◌⊎◌, inl, inr, ltb, Bool, true, false, Option, some, none, List, [], ◌∷◌, arith,
  Bool-cases, if◌then◌else◌,
}
use alula_liquidator.Prelude.Outcome.{ok, bind-elim, ◌>>=◌}
use alula_liquidator.Prelude.Int.{ℤ, ltb_ℤ, ◌≤ℤ◌}
use alula_liquidator.Pool.{PoolData}
use alula_liquidator.Market.{MarketData, Obligation, DepositPosition, pool_of, is_empty}
use alula_liquidator.Profitability.{cents_to_oracle_value_ceil}
use alula_liquidator.Liquidation.Health.{is_sweep}
use alula_liquidator.Liquidation.Scan.{has_acceptable_liquidation, seizable_collateral_covers_debt}
use alula_liquidator.BadDebt.{
  BadDebtRequestInitiator, deposit_value, all_under, left_to_liquidation,
  is_eligible_for_bad_debt_request_issuance,
}

-- The deposits are in priced pools and each is worth at most the threshold.
abbrev pub AllDust : MarketData → ℤ → List DepositPosition → Type 0
AllDust market_data threshold [] = Unit
AllDust market_data threshold (d ∷ rest) =
    ((pool : PoolData) × (value : ℤ) × (pool_of market_data d.pool_address ≡ some pool)
      × (deposit_value pool d ≡ ok value)
      × (value ≤ℤ threshold))
    × AllDust market_data threshold rest

-- The market sweeps dust, or the collateral does not cover the debt and no liquidation is acceptable.
abbrev pub NotLeft : BadDebtRequestInitiator → ℕ → Obligation → MarketData → Type 0
NotLeft self now obligation market_data =
    (is_sweep self.dust_rules ≡ true)
    ⊎ ((seizable_collateral_covers_debt obligation market_data ≡ ok false)
        × (has_acceptable_liquidation obligation market_data self.min_profit_margin_cents now
            ≡ ok false))

at_most : (a b : ℤ) → ltb_ℤ a b ≡ false → b ≤ℤ a
at_most a b h = ground (arith, h)

false_not_true : ok false ≡ ok true → ⊥
false_not_true h = cc

all_under-AllDust :
    (market_data : MarketData) (threshold : ℤ) (ds : List DepositPosition)
    → all_under market_data threshold ds ≡ ok true
    → AllDust market_data threshold ds
unfolding all_under
all_under-AllDust market_data threshold [] h = tt
all_under-AllDust market_data threshold (d ∷ rest) h =
    dust (pool_of market_data d.pool_address) refl h (all_under-AllDust market_data threshold rest)
  where
    dust :
        (o : Option PoolData)
        → pool_of market_data d.pool_address ≡ o
        → elim o [
          | none ↦ ok false
          | some pool ↦ deposit_value pool d >>= λ value.
              if ltb_ℤ threshold value then ok false else all_under market_data threshold rest
        ]
          ≡ ok true
        → (all_under market_data threshold rest ≡ ok true → AllDust market_data threshold rest)
        → AllDust market_data threshold (d ∷ rest)
    dust none e k later = absurd (false_not_true k)
    dust (some pool) e k later = bind-elim (deposit_value pool d) _ k λ value ev k₁.
        elim (Bool-cases (ltb_ℤ threshold value)) [
          | inl t ↦ absurd (false_not_true (rw t at k₁))
          | inr f ↦ ((pool, value, e, ev, at_most threshold value f), later (rw f at k₁))
        ]

left-NotLeft :
    (self : BadDebtRequestInitiator) (now : ℕ) (obligation : Obligation) (market_data : MarketData)
    → left_to_liquidation self now obligation market_data ≡ ok false
    → NotLeft self now obligation market_data
unfolding left_to_liquidation
left-NotLeft self now obligation market_data h = elim (Bool-cases (is_sweep self.dust_rules)) [
  | inl e ↦ inl e
  | inr e ↦
      bind-elim (seizable_collateral_covers_debt obligation market_data) _ (rw e at h)
        λ covers ec h₁. inr (uncovered covers ec h₁)
]
  where
    uncovered :
        (covers : Bool)
        → seizable_collateral_covers_debt obligation market_data ≡ ok covers
        → (if covers
            then ok true
            else has_acceptable_liquidation obligation market_data self.min_profit_margin_cents now)
          ≡ ok false
        → (seizable_collateral_covers_debt obligation market_data ≡ ok false)
          × (has_acceptable_liquidation obligation market_data self.min_profit_margin_cents now
              ≡ ok false)
    uncovered true ec k = cc
    uncovered false ec k = (ec, k)

-- A positive verdict means that the obligation has a debt and no open request, and either no deposit, or
-- deposits that are each in a priced pool and worth at most the market's floor, and that are not left to
-- liquidation: the market sweeps dust, or its seizable collateral does not cover the debt and no
-- liquidation of it is acceptable.
pub is_eligible-true :
    (self : BadDebtRequestInitiator) (now : ℕ) (obligation : Obligation) (market_data : MarketData)
    → is_eligible_for_bad_debt_request_issuance self now obligation market_data ≡ ok true
    → (is_empty obligation.borrows ≡ false)
      × (obligation.open_bad_debt_requests ≡ 0)
      × ((is_empty obligation.deposits ≡ true)
          ⊎ ((threshold : ℤ) × (cents_to_oracle_value_ceil market_data.min_collateral_value_cents
                  market_data.oracle_price_decimals
                ≡ ok threshold)
              × AllDust market_data threshold obligation.deposits
              × NotLeft self now obligation market_data))
unfolding is_eligible_for_bad_debt_request_issuance
is_eligible-true self now obligation market_data h =
    elim (Bool-cases (is_empty obligation.borrows)) [
      | inl e ↦ absurd (false_not_true (rw e at h))
      | inr owed ↦ elim (Bool-cases (ltb 0 obligation.open_bad_debt_requests)) [
        | inl e ↦ absurd (false_not_true (rw (owed, e) at h))
        | inr closed ↦ (
          owed,
          none_open obligation.open_bad_debt_requests closed,
          elim (Bool-cases (is_empty obligation.deposits)) [
            | inl e ↦ inl e
            | inr held ↦ inr (weighed (rw (owed, closed, held) at h))
          ],
        )
      ]
    ]
  where
    none_open : (n : ℕ) → ltb 0 n ≡ false → n ≡ 0
    none_open n e = ground (arith, e)

    opposite : (left : Bool) → ok (if left then false else true) ≡ ok true → left ≡ false
    opposite true e = cc
    opposite false e = refl

    weighed :
        (cents_to_oracle_value_ceil market_data.min_collateral_value_cents
              market_data.oracle_price_decimals
            >>= λ threshold. all_under market_data threshold obligation.deposits >>= λ under.
                if under
                then (left_to_liquidation self now obligation market_data >>= λ left.
                    ok (if left then false else true))
                else ok false)
          ≡ ok true
        → (threshold : ℤ) × (cents_to_oracle_value_ceil market_data.min_collateral_value_cents
              market_data.oracle_price_decimals
            ≡ ok threshold)
          × AllDust market_data threshold obligation.deposits
          × NotLeft self now obligation market_data
    weighed k =
        bind-elim
          (cents_to_oracle_value_ceil market_data.min_collateral_value_cents
            market_data.oracle_price_decimals)
          _ k
          λ threshold et k₁.
            bind-elim (all_under market_data threshold obligation.deposits) _ k₁ λ under eu k₂.
              elim (Bool-cases under) [
                | inr f ↦ absurd (false_not_true (rw f at k₂))
                | inl t ↦
                    bind-elim (left_to_liquidation self now obligation market_data) _ (rw t at k₂)
                      λ left el k₃. (
                        threshold,
                        et,
                        all_under-AllDust market_data threshold obligation.deposits (rw t at eu),
                        left-NotLeft self now obligation market_data (rw (opposite left k₃) at el),
                      )
              ]
