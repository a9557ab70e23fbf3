-- ===== src/Capital/Ledger.antt =====
-- What the reservations keep, one list operation at a time (`unlock_expired`, the sum of `reserve` and
-- the map operations of liquidator_capital.rs).
use alula_liquidator.Prelude.{
  ℕ, ◌+◌, ◌-◌, ◌≤◌, ◌≡◌, ◌≢◌, String, List, [], ◌∷◌, arith, ltb, ◌==◌, str_eq, if◌then◌else◌,
  Bool-cases, inl, inr,
}
use alula_liquidator.Prelude.Outcome.{ok, bind-elim}
use alula_liquidator.Prelude.Int.{ℤ, pos, negsuc, pos_part, IsNonneg, ◌<ℤ◌, plain_add}
use alula_liquidator.Capital.{
  Reservation, CapitalInner, retain_fresh, unlock_expired, remove_reservation, committed,
  insert_reservation,
}

-- What is reserved of a token.
abbrev pub held : String → List (ℕ × Reservation) → ℕ
held token [] = 0
held token ((k, r) ∷ rest) =
    (if str_eq r.token_address token then pos_part r.amount else 0) + held token rest

-- Every reservation is of a positive amount.
abbrev IsSound : List (ℕ × Reservation) → Type 0
IsSound [] = Unit
IsSound ((k, r) ∷ rest) = (pos 0 <ℤ r.amount) × IsSound rest

-- No reservation stands under the id.
abbrev pub Free : ℕ → List (ℕ × Reservation) → Type 0
Free id [] = Unit
Free id ((k, r) ∷ rest) = (k ≢ id) × Free id rest

-- No id stands twice.
abbrev UniqueIds : List (ℕ × Reservation) → Type 0
UniqueIds [] = Unit
UniqueIds ((k, r) ∷ rest) = Free k rest × UniqueIds rest

pub record IsValid (inner : CapitalInner) : Type 0 where
  pub sound : IsSound inner.reservations
  pub unique : UniqueIds inner.reservations

retain-IsSound :
    (now ttl : ℕ) (l : List (ℕ × Reservation)) → IsSound l → IsSound (retain_fresh now ttl l)
unfolding retain_fresh
retain-IsSound now ttl [] h = tt
retain-IsSound now ttl (x ∷ l) h = ground (arith, retain-IsSound now ttl l h.1)

retain-Free :
    (now ttl id : ℕ) (l : List (ℕ × Reservation)) → Free id l → Free id (retain_fresh now ttl l)
unfolding retain_fresh
retain-Free now ttl id [] h = tt
retain-Free now ttl id (x ∷ l) h = elim (Bool-cases (ltb (now - x.1.created_at) ttl)) [
  | inl e ↦ rw e (h.0, retain-Free now ttl id l h.1)
  | inr e ↦ rw e (retain-Free now ttl id l h.1)
]

retain-UniqueIds :
    (now ttl : ℕ) (l : List (ℕ × Reservation)) → UniqueIds l → UniqueIds (retain_fresh now ttl l)
unfolding retain_fresh
retain-UniqueIds now ttl [] h = tt
retain-UniqueIds now ttl (x ∷ l) h = elim (Bool-cases (ltb (now - x.1.created_at) ttl)) [
  | inl e ↦ rw e (retain-Free now ttl x.0 l h.0, retain-UniqueIds now ttl l h.1)
  | inr e ↦ rw e (retain-UniqueIds now ttl l h.1)
]

pub held-retain :
    (token : String) (now ttl : ℕ) (l : List (ℕ × Reservation))
    → held token (retain_fresh now ttl l) ≤ held token l
unfolding retain_fresh
held-retain token now ttl [] = omega arith
held-retain token now ttl (x ∷ l) = ground (arith, held-retain token now ttl l)

remove-IsSound :
    (id : ℕ) (l : List (ℕ × Reservation)) → IsSound l → IsSound (remove_reservation id l)
unfolding remove_reservation
remove-IsSound id [] h = tt
remove-IsSound id (x ∷ l) h = ground (arith, remove-IsSound id l h.1)

remove-Free : (id k : ℕ) (l : List (ℕ × Reservation)) → Free k l → Free k (remove_reservation id l)
unfolding remove_reservation
remove-Free id k [] h = tt
remove-Free id k (x ∷ l) h = elim (Bool-cases (x.0 == id)) [
  | inl e ↦ rw e (remove-Free id k l h.1)
  | inr e ↦ rw e (h.0, remove-Free id k l h.1)
]

pub remove_frees : (id : ℕ) (l : List (ℕ × Reservation)) → Free id (remove_reservation id l)
unfolding remove_reservation
remove_frees id [] = tt
remove_frees id (x ∷ l) = elim (Bool-cases (x.0 == id)) [
  | inl e ↦ rw e (remove_frees id l)
  | inr e ↦ rw e ((λ k. absurd (ground (arith, e, k))), remove_frees id l)
]

remove-UniqueIds :
    (id : ℕ) (l : List (ℕ × Reservation)) → UniqueIds l → UniqueIds (remove_reservation id l)
unfolding remove_reservation
remove-UniqueIds id [] h = tt
remove-UniqueIds id (x ∷ l) h = elim (Bool-cases (x.0 == id)) [
  | inl e ↦ rw e (remove-UniqueIds id l h.1)
  | inr e ↦ rw e (remove-Free id x.0 l h.0, remove-UniqueIds id l h.1)
]

pub held-remove :
    (token : String) (id : ℕ) (l : List (ℕ × Reservation))
    → held token (remove_reservation id l) ≤ held token l
unfolding remove_reservation
held-remove token id [] = omega arith
held-remove token id (x ∷ l) = ground (arith, held-remove token id l)

positive_sum :
    (a b c : ℤ)
    → IsNonneg a
    → pos 0 <ℤ b
    → plain_add a b ≡ ok c
    → IsNonneg c × (pos_part c ≡ pos_part a + pos_part b)
unfolding plain_add
positive_sum (pos a) (pos b) c na pb e = ground (arith, e)
positive_sum (pos a) (negsuc b) c na pb e = ground (arith, pb)
positive_sum (negsuc a) b c na pb e = ground (arith, na)

-- The sum is what is held, where no addition leaves `i128`.
pub committed-held :
    (token : String) (l : List (ℕ × Reservation)) (total r : ℤ)
    → IsSound l
    → IsNonneg total
    → committed token l total ≡ ok r
    → IsNonneg r × (pos_part r ≡ pos_part total + held token l)
unfolding committed
committed-held token [] total r s n h = ground (arith, h)
committed-held token (x ∷ l) total r s n h = elim (Bool-cases (str_eq x.1.token_address token)) [
  | inr e ↦
      let k = committed-held token l total r s.1 n (rw e at h) in (k.0, rw e (omega (arith, k.1)))
  | inl e ↦ bind-elim (plain_add total x.1.amount) _ (rw e at h) λ sum es h₁.
      let p = positive_sum total x.1.amount sum n s.0 es in
      let k = committed-held token l sum r s.1 p.0 h₁ in (k.0, rw e (omega (arith, k.1, p.1)))
]

pub fresh-IsValid :
    (now ttl : ℕ) (inner : CapitalInner) → IsValid inner → IsValid (unlock_expired now ttl inner)
unfolding unlock_expired
fresh-IsValid now ttl inner v = record {
  sound = retain-IsSound now ttl inner.reservations v.sound;
  unique = retain-UniqueIds now ttl inner.reservations v.unique;
}

pub insert-IsValid :
    (id : ℕ) (r : Reservation) (inner : CapitalInner)
    → pos 0 <ℤ r.amount
    → IsValid inner
    → IsValid (insert_reservation id r inner)
unfolding insert_reservation
insert-IsValid id r inner p v = record {
  sound = (p, remove-IsSound id inner.reservations v.sound);
  unique = (remove_frees id inner.reservations, remove-UniqueIds id inner.reservations v.unique);
}
