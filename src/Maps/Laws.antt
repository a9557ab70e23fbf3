-- ===== src/Maps/Laws.antt =====
-- What a lookup reads after an insertion.
use alula_liquidator.Prelude.{
  ◌≡◌, refl, ap, ◌∙◌, String, true, false, some, List, [], ◌∷◌, inl, inr, Bool-cases, str_eq,
  eq_iff,
}
use alula_liquidator.Maps.{lookup, insert_at}

pub str_eq_same : (k : String) → str_eq k k ≡ true
str_eq_same k = (eq_iff k k).1 refl

pub lookup-insert_at {ℓ} :
    {A : Type ℓ} (k : String) (a : A) (l : List (String × A)) → lookup k (insert_at k a l) ≡ some a
unfolding lookup insert_at
lookup-insert_at k a [] = rw (str_eq_same k) refl
lookup-insert_at k a ((s, b) ∷ rest) = elim (Bool-cases (str_eq s k)) [
  | inl e ↦ rw e (rw (str_eq_same k) refl)
  | inr e ↦ rw e (rw e (lookup-insert_at k a rest))
]

pub lookup-insert_at-other {ℓ} :
    {A : Type ℓ} (j k : String) (a : A) (l : List (String × A))
    → str_eq k j ≡ false
    → lookup j (insert_at k a l) ≡ lookup j l
unfolding lookup insert_at
lookup-insert_at-other j k a [] h = rw h refl
lookup-insert_at-other j k a ((s, b) ∷ rest) h = elim (Bool-cases (str_eq s k)) [
  | inl e ↦
      let same : str_eq s j ≡ false = (ap (λ z. str_eq z j) ((eq_iff s k).0 e)) ∙ h in
      rw e (rw h (rw same refl))
  | inr e ↦ rw e (rw (lookup-insert_at-other j k a rest h) refl)
]
