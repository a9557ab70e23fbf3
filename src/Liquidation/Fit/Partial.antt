-- ===== src/Liquidation/Fit/Partial.antt =====
-- The largest partial repay (`largest_partial_repay` of liquidation.rs): it keeps both sides at or
-- above the floor, no larger one that the search met does, and the market accepts it.
use alula_liquidator.Prelude.{
  ℕ, ◌+◌, ◌≤◌, ◌≡◌, ◌⊎◌, inl, inr, refl, sym, ap, subst, ◌∙◌, Bool, true, false, Option, some, none,
  arith, Bool-cases, if◌then◌else◌,
}
use alula_liquidator.Prelude.Outcome.{Outcome, ok, bind-elim, ◌>>=◌}
use alula_liquidator.Prelude.Int.{ℤ, pos, negsuc, pos_part, i128_max, ltb_ℤ, ◌≤ℤ◌}
use alula_liquidator.Liquidation.Search.{greatest, search_rounds}
use alula_liquidator.Liquidation.Search.Greatest.{greatest-IsGreatest}
use alula_liquidator.Liquidation.Pair.{
  LiquidationPair, position_collateral, lifts_close_factor, dust_floor,
}
use alula_liquidator.Liquidation.Fit.{keeps_both_sides, accepts, offer_or, largest_partial_repay}

-- An offer that `offer_or` returns was accepted, or is what it would have returned otherwise.
pub offer_or-some :
    (pair : LiquidationPair) (offer : ℤ) (otherwise : Outcome (Option ℤ)) (x : ℤ)
    → offer_or pair offer otherwise ≡ ok (some x)
    → ((x ≡ offer) × (accepts pair offer ≡ ok true)) ⊎ (otherwise ≡ ok (some x))
unfolding offer_or
offer_or-some pair offer otherwise x h = bind-elim (accepts pair offer) _ h λ a ea h₁. go a ea h₁
  where
    go :
        (a : Bool)
        → accepts pair offer ≡ ok a
        → (if a then ok (some offer) else otherwise) ≡ ok (some x)
        → ((x ≡ offer) × (accepts pair offer ≡ ok true)) ⊎ (otherwise ≡ ok (some x))
    go true ea e = inl (cc, ea)
    go false ea e = inr e

-- A partial repay of `n`, out of at most `upper`.
abbrev pub IsLargestPartial : LiquidationPair → ℤ → ℕ → Type 0
IsLargestPartial pair upper n =
    (collateral : ℤ) × (lifted : Bool) × (floor : ℤ) × (position_collateral pair ≡ ok collateral)
    × (lifts_close_factor pair ≡ ok lifted)
    × (dust_floor pair ≡ ok floor)
    × (keeps_both_sides pair collateral lifted floor (pos n) ≡ ok true)
    × ((pos n ≡ upper) ⊎ (keeps_both_sides pair collateral lifted floor (pos (n + 1)) ≡ ok false))

searched_upper : (z : ℤ) → ltb_ℤ z (pos 1) ≡ false → (u : ℕ) × (z ≡ pos u) × (1 ≤ u)
searched_upper (pos u) h = (u, refl, ground arith)
searched_upper (negsuc u) h = absurd (ground arith)

-- What the search found, with the probe of the smallest repay.
found :
    (pair : LiquidationPair) (c : ℤ) (lifted : Bool) (floor : ℤ) (u : ℕ) (r : ℤ)
    → 1 ≤ u
    → u ≤ i128_max
    → position_collateral pair ≡ ok c
    → lifts_close_factor pair ≡ ok lifted
    → dust_floor pair ≡ ok floor
    → keeps_both_sides pair c lifted floor (pos 1) ≡ ok true
    → greatest search_rounds (keeps_both_sides pair c lifted floor) (pos 1) (pos u) ≡ ok r
    → (n : ℕ) × (r ≡ pos n) × (1 ≤ n) × (n ≤ u) × IsLargestPartial pair (pos u) n
found pair c lifted floor u r one fits ec el ef e₁ er =
    let (n, en, g) =
      greatest-IsGreatest search_rounds (keeps_both_sides pair c lifted floor) 1 u r (omega arith)
        one fits er in
    (n, en, g.0, g.1, (c, lifted, floor, ec, el, ef, passes n g.2, stops n g.3))
  where
    passes :
        (n : ℕ)
        → ((n ≡ 1) ⊎ (keeps_both_sides pair c lifted floor (pos n) ≡ ok true))
        → keeps_both_sides pair c lifted floor (pos n) ≡ ok true
    passes n (inl e) = rw e e₁
    passes n (inr e) = e

    stops :
        (n : ℕ)
        → ((n ≡ u) ⊎ (keeps_both_sides pair c lifted floor (pos (n + 1)) ≡ ok false))
        → (pos n ≡ pos u) ⊎ (keeps_both_sides pair c lifted floor (pos (n + 1)) ≡ ok false)
    stops n (inl e) = inl (ap pos e)
    stops n (inr e) = inr e

-- For an upper bound within `i128`: a largest partial repay is a positive amount of at most the bound,
-- it keeps collateral and debt at or above the floor, one token more does not unless the bound is
-- reached, and the market accepts it as an offer.
pub largest_partial_repay-some :
    (pair : LiquidationPair) (upper x : ℤ)
    → pos_part upper ≤ i128_max
    → largest_partial_repay pair upper ≡ ok (some x)
    → (accepts pair x ≡ ok true)
      × ((n : ℕ) × (x ≡ pos n) × (1 ≤ n) × (pos n ≤ℤ upper) × IsLargestPartial pair upper n)
unfolding largest_partial_repay
largest_partial_repay-some pair upper x fits h = bind-elim (position_collateral pair) _ h λ c ec h₁.
    bind-elim (lifts_close_factor pair) _ h₁ λ lifted el h₂.
      bind-elim (dust_floor pair) _ h₂ λ floor ef h₃. elim (Bool-cases (ltb_ℤ upper (pos 1))) [
        | inl e ↦ absurd (nothing (rw e at h₃))
        | inr wide ↦
            bind-elim (keeps_both_sides pair c lifted floor (pos 1)) _ (rw wide at h₃)
              λ smallest e₁ h₄. probed c lifted floor smallest ec el ef e₁ wide h₄
      ]
  where
    nothing : ok none ≡ ok (some x) → ⊥
    nothing e = cc

    probed :
        (c : ℤ) (lifted : Bool) (floor : ℤ) (smallest : Bool)
        → position_collateral pair ≡ ok c
        → lifts_close_factor pair ≡ ok lifted
        → dust_floor pair ≡ ok floor
        → keeps_both_sides pair c lifted floor (pos 1) ≡ ok smallest
        → ltb_ℤ upper (pos 1) ≡ false
        → (if smallest
            then (greatest search_rounds (keeps_both_sides pair c lifted floor) (pos 1) upper
                >>= λ low. offer_or pair low (ok none))
            else ok none)
          ≡ ok (some x)
        → (accepts pair x ≡ ok true)
          × ((n : ℕ) × (x ≡ pos n) × (1 ≤ n) × (pos n ≤ℤ upper) × IsLargestPartial pair upper n)
    probed c lifted floor false ec el ef e₁ wide h₄ = absurd (nothing h₄)
    probed c lifted floor true ec el ef e₁ wide h₄ =
        bind-elim (greatest search_rounds (keeps_both_sides pair c lifted floor) (pos 1) upper) _ h₄
          λ low eg h₅. elim (offer_or-some pair low (ok none) x h₅) [
            | inr e ↦ absurd (nothing e)
            | inl (ex, ea) ↦
                let (u, eu, one) = searched_upper upper wide in
                let (n, en, lo, hi, g) =
                  found pair c lifted floor u low one (subst (λ z. pos_part z ≤ i128_max) eu fits)
                    ec el ef e₁
                    (subst
                      (λ z.
                        greatest search_rounds (keeps_both_sides pair c lifted floor) (pos 1) z
                        ≡ ok low)
                      eu eg) in
                (
                  subst (λ z. accepts pair z ≡ ok true) (sym ex) ea,
                  (
                    n,
                    ex ∙ en,
                    lo,
                    subst (λ z. pos n ≤ℤ z) (sym eu) (omega arith),
                    subst (λ z. IsLargestPartial pair z n) (sym eu) g,
                  ),
                )
          ]
