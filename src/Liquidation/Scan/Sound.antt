-- ===== src/Liquidation/Scan/Sound.antt =====
-- What a positive answer of `has_acceptable_liquidation` (liquidation.rs) rests on.
use alula_liquidator.Prelude.{
  ℕ, ◌≡◌, ◌≢◌, ◌⊎◌, inl, inr, Bool, true, false, refl, subst, arith, if◌then◌else◌, ◌||◌, Option,
  some, none, List, [], ◌∷◌, In, str_eq, eq_iff,
}
use alula_liquidator.Prelude.Outcome.{Outcome, ok, bind-elim, ok_or, ok_or-eq-ok, internal_error}
use alula_liquidator.Prelude.Int.{ℤ, pos, leb_ℤ, ltb_ℤ, ◌<ℤ◌}
use alula_liquidator.Pool.{PoolData}
use alula_liquidator.Market.{
  MarketData, Obligation, DepositPosition, BorrowPosition, pool_of, is_empty,
}
use alula_liquidator.Liquidation.Health.{no_dust, compute_is_insolvent}
use alula_liquidator.Liquidation.Unpriced.{unpriced_pools_touched}
use alula_liquidator.Liquidation.Pair.{
  LiquidationPair, Seizure, accepted, over_close_factor, leaves_dust, new_pair, accruing_until,
  quote,
}
use alula_liquidator.Liquidation.Fit.{direct_repay, nets_more_than}
use alula_liquidator.Liquidation.Scan.{
  burns_share, judge_seizure, judge_repay, judge_pair, scan_deposits, scan_borrows,
  has_acceptable_liquidation,
}

-- The pair has a direct repay whose quote the market accepts: it seizes something, clears the debt or
-- burns a share of it, and nets more than the margin.
abbrev AcceptablePlan : LiquidationPair → ℤ → Type 0
AcceptablePlan pair margin =
    (repay : ℤ) × (seized : ℤ) × (repaid : ℤ) × (direct_repay pair margin ≡ ok (some repay))
    × (quote pair repay ≡ ok (accepted seized repaid))
    × (pos 0 <ℤ seized)
    × (burns_share pair repaid ≡ ok true)
    × (nets_more_than pair seized repaid margin ≡ ok true)

false_or :
    (x : Outcome Bool) (b : Bool)
    → (if b then x else ok false) ≡ ok true
    → (b ≡ true) × (x ≡ ok true)
false_or x true h = (refl, h)
false_or x false h = cc

module _ (pair : LiquidationPair) (margin : ℤ) where
  judge_seizure-true :
      (z : Seizure)
      → judge_seizure pair margin z ≡ ok true
      → (s : ℤ) × (r : ℤ) × (z ≡ accepted s r)
        × (pos 0 <ℤ s)
        × (burns_share pair r ≡ ok true)
        × (nets_more_than pair s r margin ≡ ok true)
  unfolding judge_seizure
  judge_seizure-true (accepted s r) h =
      let (taken, h₁) = false_or _ (ltb_ℤ (pos 0) s) h in
      bind-elim (burns_share pair r) _ h₁ λ burns eb h₂.
        let (yes_burns, h₃) = false_or (nets_more_than pair s r margin) burns h₂ in
        (s, r, refl, ground (arith, taken), rw yes_burns at eb, h₃)
  judge_seizure-true over_close_factor h = cc
  judge_seizure-true leaves_dust h = cc

  judge_repay-true :
      (repay : Option ℤ)
      → direct_repay pair margin ≡ ok repay
      → judge_repay pair margin repay ≡ ok true
      → AcceptablePlan pair margin
  unfolding judge_repay
  judge_repay-true none er h = cc
  judge_repay-true (some repay) er h = bind-elim (quote pair repay) _ h λ z ez h₁.
      let (s, r, ea, ps, eb, en) = judge_seizure-true z h₁ in
      (repay, s, r, er, subst (λ x. quote pair repay ≡ ok x) ea ez, ps, eb, en)

module _ (o : Obligation) (m : MarketData) (margin : ℤ) (now : ℕ) (insolvent : Bool) where
  -- The pools differ, the collateral counts for the market, and the pair has an acceptable plan.
  abbrev pub AcceptablePair : PoolData → PoolData → DepositPosition → Type 0
  AcceptablePair borrow_pool collateral_pool deposit =
      (collateral_pool.pool_address ≢ borrow_pool.pool_address)
      × (pos 0 <ℤ collateral_pool.close_ltv_bps)
      × ((fresh : LiquidationPair) × (pair : LiquidationPair) × (new_pair no_dust o m borrow_pool
              collateral_pool deposit insolvent
            ≡ ok fresh)
          × (accruing_until fresh now ≡ ok pair)
          × AcceptablePlan pair margin)

  judge_pair-true :
      (b c : PoolData) (d : DepositPosition)
      → judge_pair o m margin now insolvent b c d ≡ ok true
      → AcceptablePair b c d
  unfolding judge_pair
  judge_pair-true b c d h =
      let (skips, h₁) = or_false _ _ h in
      bind-elim (new_pair no_dust o m b c d insolvent) _ h₁ λ fresh ef h₂.
        bind-elim (accruing_until fresh now) _ h₂ λ pair ep h₃.
          bind-elim (direct_repay pair margin) _ h₃ λ repay er h₄. (
            (λ e. differs e skips),
            (ground (arith, skips)),
            (fresh, pair, ef, ep, judge_repay-true pair margin repay er h₄),
          )
    where
      or_false :
          (t : Bool) (x : Outcome Bool)
          → (if t then ok false else x) ≡ ok true
          → (t ≡ false) × (x ≡ ok true)
      or_false true x e = cc
      or_false false x e = (refl, e)

      differs :
          c.pool_address ≡ b.pool_address
          → (str_eq c.pool_address b.pool_address || leb_ℤ c.close_ltv_bps (pos 0)) ≡ false
          → ⊥
      differs e f = ground (arith, eq_iff c.pool_address b.pool_address, e, f)

  true_or :
      (b : Bool) (x : Outcome Bool)
      → (if b then ok true else x) ≡ ok true
      → (b ≡ true) ⊎ (x ≡ ok true)
  true_or true x h = inl refl
  true_or false x h = inr h

  scan_deposits-true :
      (judge : DepositPosition → PoolData → Outcome Bool) (ds : List DepositPosition)
      → scan_deposits judge m ds ≡ ok true
      → (d : DepositPosition) × (c : PoolData) × In d ds
        × (pool_of m d.pool_address ≡ some c)
        × (judge d c ≡ ok true)
  unfolding scan_deposits
  scan_deposits-true judge [] h = cc
  scan_deposits-true judge (d ∷ ds) h =
      bind-elim (ok_or (pool_of m d.pool_address) internal_error) _ h λ c ec h₁.
        bind-elim (judge d c) _ h₁ λ acceptable ea h₂.
          elim (true_or acceptable (scan_deposits judge m ds) h₂) [
            | inl t ↦ (
              d,
              c,
              inl refl,
              ok_or-eq-ok (pool_of m d.pool_address) internal_error ec,
              rw t at ea,
            )
            | inr rest ↦
                let (d', c', i, ep, ej) = scan_deposits-true judge ds rest in
                (d', c', inr i, ep, ej)
          ]

  scan_borrows-true :
      (judge : PoolData → DepositPosition → PoolData → Outcome Bool) (ds : List DepositPosition)
      (bs : List BorrowPosition)
      → scan_borrows judge m ds bs ≡ ok true
      → (b : BorrowPosition) × (p : PoolData) × In b bs
        × (pool_of m b.pool_address ≡ some p)
        × ((d : DepositPosition) × (c : PoolData) × In d ds
            × (pool_of m d.pool_address ≡ some c)
            × (judge p d c ≡ ok true))
  unfolding scan_borrows
  scan_borrows-true judge ds [] h = cc
  scan_borrows-true judge ds (b ∷ bs) h =
      bind-elim (ok_or (pool_of m b.pool_address) internal_error) _ h λ p ep h₁.
        bind-elim (scan_deposits (judge p) m ds) _ h₁ λ acceptable ea h₂.
          elim (true_or acceptable (scan_borrows judge m ds bs) h₂) [
            | inl t ↦ (
              b,
              p,
              inl refl,
              ok_or-eq-ok (pool_of m b.pool_address) internal_error ep,
              scan_deposits-true (judge p) ds (rw t at ea),
            )
            | inr rest ↦
                let (b', p', i, e, r) = scan_borrows-true judge ds bs rest in (b', p', inr i, e, r)
          ]

-- A positive answer names no unpriced pool, and comes from a borrow and a deposit of the obligation, in
-- two different priced pools, whose pair, with the interest accrued until now, has a direct repay that
-- the market accepts, that seizes collateral, clears the debt or burns a share, and nets more than the
-- margin.
pub has_acceptable_liquidation-true :
    (o : Obligation) (m : MarketData) (margin : ℤ) (now : ℕ)
    → has_acceptable_liquidation o m margin now ≡ ok true
    → (is_empty (unpriced_pools_touched o m) ≡ true)
      × ((insolvent : Bool) × (b : BorrowPosition) × (p : PoolData) × (d : DepositPosition)
          × (c : PoolData) × (compute_is_insolvent o m ≡ ok insolvent)
          × In b o.borrows
          × In d o.deposits
          × (pool_of m b.pool_address ≡ some p)
          × (pool_of m d.pool_address ≡ some c)
          × AcceptablePair o m margin now insolvent p c d)
unfolding has_acceptable_liquidation
has_acceptable_liquidation-true o m margin now h =
    let (priced, h₁) = false_or _ (is_empty (unpriced_pools_touched o m)) h in
    (
      priced,
      bind-elim (compute_is_insolvent o m) _ h₁ λ insolvent ei h₂.
          let (b, p, ib, ep, (d, c, id', ec, ej)) =
            scan_borrows-true o m margin now insolvent
              (λ bp dp cp. judge_pair o m margin now insolvent bp cp dp) o.deposits o.borrows h₂ in
          (
            insolvent,
            b,
            p,
            d,
            c,
            ei,
            ib,
            id',
            ep,
            ec,
            judge_pair-true o m margin now insolvent p c d ej,
          ),
    )
