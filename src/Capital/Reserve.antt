-- ===== src/Capital/Reserve.antt =====
-- Reservations never commit more of a token than is available (`reserve` of liquidator_capital.rs).
use alula_liquidator.Prelude.{
  ℕ, ◌+◌, ◌≤◌, ◌≡◌, ◌≢◌, refl, subst, ◌∙◌, String, false, arith, str_eq, Bool-cases, inl, inr,
}
use alula_liquidator.Prelude.Outcome.{Outcome, ok, bind-elim}
use alula_liquidator.Prelude.Int.{
  ℤ, pos, negsuc, pos_part, IsNonneg, i128_max, leb_ℤ, ltb_ℤ, ◌<ℤ◌, saturating_add,
}
use alula_liquidator.Capital.{
  Reservation, CapitalInner, LiquidatorCapitalConfig, ReserveResult, reserved, internal_error,
  not_enough_available_balance, unlock_expired, committed, insert_reservation, new_reservation,
  reserve,
}
-- What is reserved of a token.
use alula_liquidator.Capital.Ledger.{
  held, IsValid, held-remove, committed-held, fresh-IsValid, insert-IsValid,
}

-- What the test of `reserve` admits stays within what is available.
fits :
    (total amount available : ℤ)
    → IsNonneg total
    → pos 0 <ℤ amount
    → available <ℤ pos i128_max
    → ltb_ℤ available (saturating_add total amount) ≡ false
    → pos_part amount + pos_part total ≤ pos_part available
unfolding saturating_add
fits (pos t) (pos a) (pos v) n p l h = ground (arith, h)
fits (pos t) (pos a) (negsuc v) n p l h = ground (arith, h)
fits (pos t) (negsuc a) v n p l h = absurd (omega (arith, p))
fits (negsuc t) a v n p l h = absurd (omega (arith, n))

held-insert :
    (token : String) (id : ℕ) (r : Reservation) (inner : CapitalInner)
    → held token (insert_reservation id r inner).reservations
      ≤ pos_part r.amount + held token inner.reservations
unfolding insert_reservation
held-insert token id r inner =
    let k = held-remove token id inner.reservations in
    elim (Bool-cases (str_eq r.token_address token)) [
      | inl e ↦ rw e (omega (arith, k))
      | inr e ↦ rw e (omega (arith, k))
    ]

positive_of : (a : ℤ) → leb_ℤ a (pos 0) ≡ false → pos 0 <ℤ a
positive_of a h = ground (arith, h)

ok_pair :
    {A : Type 0} {B : Type 0} (a c : A) (b d : B)
    → ◌≡◌ {A = Outcome (A × B)} (ok (a, b)) (ok (c, d))
    → (a ≡ c) × (b ≡ d)
ok_pair a c b d h = (cc, cc)

refused_not_reserved : (i : ℕ) → not_enough_available_balance ≢ reserved i
refused_not_reserved i h = cc

error_not_reserved : (i : ℕ) → internal_error ≢ reserved i
error_not_reserved i h = cc

-- What every run of `reserve` that returns does.
reserve_steps :
    (config : LiquidatorCapitalConfig) (now id : ℕ) (amount available : ℤ) (token : String)
    (inner : CapitalInner) (r : ReserveResult) (inner' : CapitalInner)
    → IsValid inner
    → reserve config now id amount available token inner ≡ ok (r, inner')
    → IsValid inner'
      × ((i : ℕ)
          → r ≡ reserved i
          → available <ℤ pos i128_max
          → held token inner'.reservations ≤ pos_part available)
unfolding reserve
reserve_steps config now id amount available token inner r inner' v h =
    elim (Bool-cases (leb_ℤ amount (pos 0))) [
      | inl e ↦
          let h₁ : ok (internal_error, inner) ≡ ok (r, inner') = rw e at h in
          let q = ok_pair internal_error r inner inner' h₁ in
          (subst IsValid q.1 v, λ i k l. absurd (error_not_reserved i (q.0 ∙ k)))
      | inr e ↦
          let fresh = unlock_expired now config.reservation_ttl inner in
          let f = fresh-IsValid now config.reservation_ttl inner v in
          bind-elim (committed token fresh.reservations (pos 0)) _ (rw e at h) λ total c h₁.
            let t = committed-held token fresh.reservations (pos 0) total f.sound refl c in
            elim (Bool-cases (ltb_ℤ available (saturating_add total amount))) [
              | inl e₁ ↦
                  let h₂ : ok (not_enough_available_balance, fresh) ≡ ok (r, inner') =
                    rw e₁ at h₁ in
                  let q = ok_pair not_enough_available_balance r fresh inner' h₂ in
                  (subst IsValid q.1 f, λ i k l. absurd (refused_not_reserved i (q.0 ∙ k)))
              | inr e₁ ↦
                  let next = insert_reservation id (new_reservation amount now token) fresh in
                  let h₂ : ok (reserved id, next) ≡ ok (r, inner') = rw e₁ at h₁ in
                  let q = (ok_pair (reserved id) r next inner' h₂).1 in
                  let p = positive_of amount e in
                  (
                    subst IsValid q
                        (insert-IsValid id (new_reservation amount now token) fresh p f),
                    λ i k l.
                        subst (λ z. held token z.reservations ≤ pos_part available) q
                          (omega (
                            arith,
                            fits total amount available t.0 p l e₁,
                            t.1,
                            held-insert token id (new_reservation amount now token) fresh,
                          )),
                  )
            ]
    ]

-- Whatever `reserve` answers, when it returns, the reservations that it leaves are of positive amounts
-- and stand under distinct ids, if those it found did.
pub reserve-IsValid :
    (config : LiquidatorCapitalConfig) (now id : ℕ) (amount available : ℤ) (token : String)
    (inner : CapitalInner) (r : ReserveResult) (inner' : CapitalInner)
    → IsValid inner
    → reserve config now id amount available token inner ≡ ok (r, inner')
    → IsValid inner'
reserve-IsValid config now id amount available token inner r inner' v h =
    (reserve_steps config now id amount available token inner r inner' v h).0

-- A successful `reserve` never overcommits: from a valid state, and with an available balance below
-- `i128::MAX`, at which the saturating sum is no longer a test, all that is reserved of the token
-- afterwards, the new amount included, is at most the available balance.
pub reserve_never_overcommits :
    (config : LiquidatorCapitalConfig) (now id : ℕ) (amount available : ℤ) (token : String)
    (inner : CapitalInner) (i : ℕ) (inner' : CapitalInner)
    → IsValid inner
    → available <ℤ pos i128_max
    → reserve config now id amount available token inner ≡ ok (reserved i, inner')
    → held token inner'.reservations ≤ pos_part available
reserve_never_overcommits config now id amount available token inner i inner' v l h =
    (reserve_steps config now id amount available token inner (reserved i) inner' v h).1 i refl l
