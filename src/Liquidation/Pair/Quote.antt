-- ===== src/Liquidation/Pair/Quote.antt =====
-- What an accepted quote on a no-dust market guarantees (`quote_no_dust` of liquidation.rs).
use alula_liquidator.Prelude.{
  ◌≡◌, ◌⊎◌, inl, inr, refl, sym, ap, subst, ◌∙◌, Bool, true, false, arith, Bool-cases,
  if◌then◌else◌,
}
use alula_liquidator.Prelude.Outcome.{ok, returned-via, bind-elim, ◌>>=◌}
use alula_liquidator.Prelude.Int.{ℤ, pos, min_ℤ, leb_ℤ, ltb_ℤ, eqb_ℤ, ◌≤ℤ◌, ◌<ℤ◌, plain_sub}
use alula_liquidator.Liquidation.Health.{value_floor, value_ceil}
use alula_liquidator.Liquidation.Pair.{
  LiquidationPair, accepted, leaves_dust, over_close_factor, position_collateral, dust_floor,
  is_small_position, lifts_close_factor, buys, whole_position_repay, leaves_dust_under_floor,
  is_over_close_factor, charge, settle, check_and_settle, quote_no_dust,
}

-- A side is cleared, or both sides are worth at least the market's floor.
abbrev pub LeavesNoDust : LiquidationPair → ℤ → ℤ → Type 0
LeavesNoDust pair collateral_left debt_left =
    (collateral_left ≤ℤ pos 0)
    ⊎ ((debt_left ≤ℤ pos 0)
        ⊎ ((floor : ℤ) × (value : ℤ) × (debt_value : ℤ) × (dust_floor pair ≡ ok floor)
            × (value_floor collateral_left pair.collateral_pool ≡ ok value)
            × (value_ceil debt_left pair.borrow_pool ≡ ok debt_value)
            × (floor ≤ℤ value)
            × (floor ≤ℤ debt_value)))

leb_holds : (a b : ℤ) → leb_ℤ a b ≡ true → a ≤ℤ b
leb_holds a b h = ground arith

ltb_fails : (a b : ℤ) → ltb_ℤ a b ≡ false → b ≤ℤ a
ltb_fails a b h = ground arith

dust-LeavesNoDust :
    (pair : LiquidationPair) (c d : ℤ)
    → leaves_dust_under_floor pair c d ≡ ok false
    → LeavesNoDust pair c d
unfolding leaves_dust_under_floor
dust-LeavesNoDust pair c d h = elim (Bool-cases (leb_ℤ c (pos 0))) [
  | inl e ↦ inl (leb_holds c (pos 0) e)
  | inr more ↦ elim (Bool-cases (leb_ℤ d (pos 0))) [
    | inl e ↦ inr (inl (leb_holds d (pos 0) e))
    | inr owed ↦
        let (floor, ef, h₁) = returned-via (dust_floor pair) _ (rw (more, owed) at h) in
        let (value, ev, h₂) = returned-via (value_floor c pair.collateral_pool) _ h₁ in
        elim (Bool-cases (ltb_ℤ value floor)) [
          | inl e ↦ absurd (clash (rw e at h₂))
          | inr covered ↦
              let (debt_value, ed, h₃) =
                returned-via (value_ceil d pair.borrow_pool) _ (rw covered at h₂) in
              inr (
                inr (
                  floor,
                  value,
                  debt_value,
                  ef,
                  ev,
                  ed,
                  ltb_fails value floor covered,
                  ltb_fails debt_value floor (cc),
                ))
        ]
  ]
]
  where
    clash : ok true ≡ ok false → ⊥
    clash e = cc

-- The bounds of an accepted quote, and that it leaves no dust.
abbrev Kept : LiquidationPair → ℤ → ℤ → ℤ → ℤ → Type 0
Kept pair c repaid s r =
    (s ≤ℤ c)
    × (r ≤ℤ repaid)
    × ((cl : ℤ) × (dl : ℤ) × (plain_sub c s ≡ ok cl)
        × (plain_sub pair.position_debt r ≡ ok dl)
        × LeavesNoDust pair cl dl)

-- The charge is at most the repay that the close factor let through.
charge_at_most :
    (pair : LiquidationPair) (collateral repaid seized charged : ℤ)
    → charge pair collateral repaid seized ≡ ok charged
    → charged ≤ℤ repaid
unfolding charge
charge_at_most pair collateral repaid seized charged h =
    elim (Bool-cases (eqb_ℤ seized collateral)) [
      | inr part ↦ ground (arith, h)
      | inl all ↦
          let (small, _, h₁) = returned-via (is_small_position pair) _ (rw all at h) in
          elim (Bool-cases small) [
            | inr large ↦ ground (arith, h₁)
            | inl tiny ↦
                let (whole, _, h₂) =
                  returned-via (whole_position_repay pair collateral) _ (rw tiny at h₁) in
                ground (arith, h₂)
          ]
    ]

accepted_parts :
    (dust : Bool) (s r s' r' : ℤ)
    → ok (if dust then leaves_dust else accepted s r) ≡ ok (accepted s' r')
    → (dust ≡ false) × (s' ≡ s) × (r' ≡ r)
accepted_parts true s r s' r' h = absurd (ground (arith, h))
accepted_parts false s r s' r' h = (refl, cc, cc)

min_le : (a b : ℤ) → (min_ℤ a b ≤ℤ a) × (min_ℤ a b ≤ℤ b)
min_le a b = ground arith

settled :
    (pair : LiquidationPair) (c repaid seized charged cl dl : ℤ) (dust : Bool) (s r : ℤ)
    → seized ≤ℤ c
    → charged ≤ℤ repaid
    → plain_sub c seized ≡ ok cl
    → plain_sub pair.position_debt charged ≡ ok dl
    → leaves_dust_under_floor pair cl dl ≡ ok dust
    → (dust ≡ false) × (s ≡ seized) × (r ≡ charged)
    → Kept pair c repaid s r
settled pair c repaid seized charged cl dl dust s r hs hr el ed eu (clean, es, er) = (
  subst (λ x. x ≤ℤ c) (sym es) hs,
  subst (λ x. x ≤ℤ repaid) (sym er) hr,
  (
    cl,
    dl,
    subst (λ x. plain_sub c x ≡ ok cl) (sym es) el,
    subst (λ x. plain_sub pair.position_debt x ≡ ok dl) (sym er) ed,
    dust-LeavesNoDust pair cl dl (eu ∙ ap ok clean),
  ),
)

settle-accepted :
    (pair : LiquidationPair) (c repaid : ℤ) (lifted : Bool) (s r : ℤ)
    → settle pair c repaid lifted ≡ ok (accepted s r)
    → Kept pair c repaid s r
unfolding settle
settle-accepted pair c repaid lifted s r h = bind-elim (buys pair repaid lifted) _ h λ bought eb h₁.
    bind-elim (charge pair c repaid (min_ℤ c bought)) _ h₁ λ charged ec h₂.
      bind-elim (plain_sub c (min_ℤ c bought)) _ h₂ λ cl el h₃.
        bind-elim (plain_sub pair.position_debt charged) _ h₃ λ dl ed h₄.
          bind-elim (leaves_dust_under_floor pair cl dl) _ h₄ λ dust eu h₅.
            settled pair c repaid (min_ℤ c bought) charged cl dl dust s r (min_le c bought).0
              (charge_at_most pair c repaid (min_ℤ c bought) charged ec) el ed eu
              (accepted_parts dust (min_ℤ c bought) charged s r h₅)

check-accepted :
    (pair : LiquidationPair) (c repaid s r : ℤ)
    → check_and_settle pair c repaid ≡ ok (accepted s r)
    → Kept pair c repaid s r
      × ((lifts_close_factor pair ≡ ok true) ⊎ (is_over_close_factor pair repaid ≡ ok false))
unfolding check_and_settle
check-accepted pair c repaid s r h =
    bind-elim (lifts_close_factor pair) _ h λ lifted el h₁. by_lift lifted el h₁
  where
    refused : ok over_close_factor ≡ ok (accepted s r) → ⊥
    refused e = cc

    within :
        (over : Bool)
        → is_over_close_factor pair repaid ≡ ok over
        → (if over then ok over_close_factor else settle pair c repaid false) ≡ ok (accepted s r)
        → Kept pair c repaid s r
          × ((lifts_close_factor pair ≡ ok true) ⊎ (is_over_close_factor pair repaid ≡ ok false))
    within true eo h₂ = absurd (refused h₂)
    within false eo h₂ = (settle-accepted pair c repaid false s r h₂, inr eo)

    by_lift :
        (lifted : Bool)
        → lifts_close_factor pair ≡ ok lifted
        → (if lifted
            then settle pair c repaid lifted
            else (is_over_close_factor pair repaid >>= λ over.
                if over then ok over_close_factor else settle pair c repaid lifted))
          ≡ ok (accepted s r)
        → Kept pair c repaid s r
          × ((lifts_close_factor pair ≡ ok true) ⊎ (is_over_close_factor pair repaid ≡ ok false))
    by_lift true el h₁ = (settle-accepted pair c repaid true s r h₁, inl el)
    by_lift false el h₁ =
        bind-elim (is_over_close_factor pair repaid) _ h₁ λ over eo h₂. within over eo h₂

not_le_zero : (z : ℤ) → pos 0 <ℤ z → leb_ℤ z (pos 0) ≡ false
not_le_zero z h = ground arith

-- For a positive repay, debt, collateral and prices: a quote that the market accepts seizes at most the
-- position's collateral, charges at most the repay and at most the debt, leaves on each side nothing or
-- at least the dust floor, and keeps to the close factor unless the pair lifts it.
pub quote_no_dust-accepted :
    (pair : LiquidationPair) (repay c s r : ℤ)
    → pos 0 <ℤ repay
    → pos 0 <ℤ pair.position_debt
    → position_collateral pair ≡ ok c
    → pos 0 <ℤ c
    → pos 0 <ℤ pair.borrow_pool.oracle_asset_price
    → pos 0 <ℤ pair.collateral_pool.oracle_asset_price
    → quote_no_dust pair repay ≡ ok (accepted s r)
    → (s ≤ℤ c)
      × (r ≤ℤ repay)
      × (r ≤ℤ pair.position_debt)
      × ((lifts_close_factor pair ≡ ok true)
          ⊎ (is_over_close_factor pair (min_ℤ repay pair.position_debt) ≡ ok false))
      × ((cl : ℤ) × (dl : ℤ) × (plain_sub c s ≡ ok cl)
          × (plain_sub pair.position_debt r ≡ ok dl)
          × LeavesNoDust pair cl dl)
unfolding quote_no_dust
quote_no_dust-accepted pair repay c s r pr pd ec pc pb pk h =
    let h₁ =
      rw
        (
          ec,
          not_le_zero repay pr,
          not_le_zero pair.position_debt pd,
          not_le_zero c pc,
          not_le_zero pair.borrow_pool.oracle_asset_price pb,
          not_le_zero pair.collateral_pool.oracle_asset_price pk,
        )
        at h in
    let (bounds, close) = check-accepted pair c (min_ℤ repay pair.position_debt) s r h₁ in
    let m = min_le repay pair.position_debt in
    (bounds.0, omega (arith, bounds.1, m), omega (arith, bounds.1, m), close, bounds.2)
