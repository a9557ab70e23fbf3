-- ===== src/Capital/Effects.antt =====
-- What `reserve` leaves in each case, and what a release undoes (liquidator_capital.rs).
use alula_liquidator.Prelude.{
  ℕ, ◌≡◌, refl, subst, ap, ◌∙◌, ◌≤◌, String, true, List, [], ◌∷◌, In, ◌==◌, ◌⊎◌, inl, inr, arith,
  Bool-cases,
}
use alula_liquidator.Prelude.Outcome.{Outcome, ok, bind-elim}
use alula_liquidator.Prelude.Int.{ℤ, pos, leb_ℤ, ltb_ℤ, saturating_add}
use alula_liquidator.Capital.{
  Reservation, CapitalInner, LiquidatorCapitalConfig, ReserveResult, reserved, internal_error,
  not_enough_available_balance, unlock_expired, remove_reservation, committed, insert_reservation,
  new_reservation, reserve, release,
}
use alula_liquidator.Capital.Ledger.{Free, held, held-retain, held-remove}

-- The amount was reserved under the id, or nothing was added.
abbrev pub ReserveEnds :
    LiquidatorCapitalConfig
    → (now id : ℕ) → ℤ
    → String
    → CapitalInner
    → ReserveResult
    → CapitalInner
    → Type 0
ReserveEnds config now id amount token inner r inner' =
    ((r ≡ reserved id)
      × (inner'
          ≡ insert_reservation id (new_reservation amount now token)
              (unlock_expired now config.reservation_ttl inner)))
    ⊎ (((r ≡ internal_error) ⊎ (r ≡ not_enough_available_balance))
        × ((inner' ≡ inner) ⊎ (inner' ≡ unlock_expired now config.reservation_ttl inner)))

ok_parts :
    (a c : ReserveResult) (b d : CapitalInner)
    → ◌≡◌ {A = Outcome (ReserveResult × CapitalInner)} (ok (a, b)) (ok (c, d))
    → (c ≡ a) × (d ≡ b)
ok_parts a c b d h = (cc, cc)

pub reserve-ReserveEnds :
    (config : LiquidatorCapitalConfig) (now id : ℕ) (amount available : ℤ) (token : String)
    (inner : CapitalInner) (r : ReserveResult) (inner' : CapitalInner)
    → reserve config now id amount available token inner ≡ ok (r, inner')
    → ReserveEnds config now id amount token inner r inner'
unfolding reserve
reserve-ReserveEnds config now id amount available token inner r inner' h =
    elim (Bool-cases (leb_ℤ amount (pos 0))) [
      | inl e ↦ let q = ok_parts internal_error r inner inner' (rw e at h) in inr (inl q.0, inl q.1)
      | inr e ↦
          let fresh = unlock_expired now config.reservation_ttl inner in
          bind-elim (committed token fresh.reservations (pos 0)) _ (rw e at h) λ total _ h₁.
            elim (Bool-cases (ltb_ℤ available (saturating_add total amount))) [
              | inl e₁ ↦
                  let q = ok_parts not_enough_available_balance r fresh inner' (rw e₁ at h₁) in
                  inr (inr q.0, inr q.1)
              | inr e₁ ↦
                  let next = insert_reservation id (new_reservation amount now token) fresh in
                  inl (ok_parts (reserved id) r next inner' (rw e₁ at h₁))
            ]
    ]

pub held-unlock :
    (token : String) (now ttl : ℕ) (inner : CapitalInner)
    → held token (unlock_expired now ttl inner).reservations ≤ held token inner.reservations
unfolding unlock_expired
held-unlock token now ttl inner = held-retain token now ttl inner.reservations

pub held-release :
    (token : String) (id : ℕ) (inner : CapitalInner)
    → held token (release id inner).reservations ≤ held token inner.reservations
unfolding release
held-release token id inner = held-remove token id inner.reservations

-- A release undoes an insertion.
pub held-release-insert :
    (token : String) (id : ℕ) (r : Reservation) (inner : CapitalInner)
    → held token (release id (insert_reservation id r inner)).reservations
      ≤ held token inner.reservations
unfolding release insert_reservation remove_reservation
held-release-insert token id r inner =
    let same : (id == id) ≡ true = ground arith in
    rw same (
      omega (
        arith,
        held-remove token id (remove_reservation id inner.reservations),
        held-remove token id inner.reservations,
      ))

pub insert-In :
    (id : ℕ) (r : Reservation) (inner : CapitalInner)
    → In (id, r) (insert_reservation id r inner).reservations
unfolding insert_reservation
insert-In id r inner = inl refl

remove_absent : (id : ℕ) (l : List (ℕ × Reservation)) → Free id l → remove_reservation id l ≡ l
unfolding remove_reservation
remove_absent id [] h = refl
remove_absent id ((k, r) ∷ rest) h = elim (Bool-cases (k == id)) [
  | inl e ↦ absurd (h.0 (ground (arith, e)))
  | inr e ↦ rw e (ap (λ z. (k, r) ∷ z) (remove_absent id rest h.1))
]

release-insert :
    (id : ℕ) (r : Reservation) (inner : CapitalInner)
    → Free id inner.reservations
    → release id (insert_reservation id r inner) ≡ inner
unfolding release insert_reservation remove_reservation
release-insert id r inner h =
    let same : (id == id) ≡ true = ground arith in
    let gone = remove_absent id inner.reservations h in rw (same, gone, gone) refl

named : (a b : ℕ) → reserved a ≡ reserved b → b ≡ a
named a b h = cc

-- Releasing what a successful `reserve` has just reserved undoes it: under the id that `reserve` names,
-- provided that no reservation that had not expired stood under the id drawn, what is left is just what
-- the removal of the expired reservations leaves, every other reservation and balance as it was.
pub release-reserve :
    (config : LiquidatorCapitalConfig) (now drawn : ℕ) (amount available : ℤ) (token : String)
    (inner : CapitalInner) (id : ℕ) (inner' : CapitalInner)
    → Free drawn (unlock_expired now config.reservation_ttl inner).reservations
    → reserve config now drawn amount available token inner ≡ ok (reserved id, inner')
    → release id inner' ≡ unlock_expired now config.reservation_ttl inner
release-reserve config now drawn amount available token inner id inner' free h =
    elim (reserve-ReserveEnds config now drawn amount available token inner (reserved id) inner'
      h) [
        | inl e ↦
            subst (λ z. release z inner' ≡ unlock_expired now config.reservation_ttl inner)
              (named id drawn e.0)
              (ap (release drawn) e.1
                ∙ release-insert drawn (new_reservation amount now token)
                    (unlock_expired now config.reservation_ttl inner) free)
        | inr e ↦ absurd (refused e.0)
      ]
  where
    refused : (reserved id ≡ internal_error) ⊎ (reserved id ≡ not_enough_available_balance) → ⊥
    refused (inl q) = cc
    refused (inr q) = cc
