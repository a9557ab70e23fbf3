-- ===== src/Liquidator/Cache/Keys.antt =====
-- What a lookup of a key reads after the changes of a market's rows (the hash maps of liquidator.rs).
use alula_liquidator.Prelude.{
  ◌≡◌, refl, sym, subst, ◌∙◌, Bool, true, false, Option, some, none, [], ◌∷◌, inl, inr, Bool-cases,
  if◌then◌else◌,
}
use alula_liquidator.Market.{Obligation, ObligationKey}
use alula_liquidator.Liquidator.{Rows}
use alula_liquidator.Liquidator.Cache.{key_eq, insert_row, remove_row}
use alula_liquidator.Liquidator.Cache.Maps.{key_eq_same, eq_of_key_eq}

-- `HashMap::get` on a market's rows.
abbrev pub find_row : ObligationKey → Rows → Option Obligation
find_row key [] = none
find_row key ((k, o) ∷ rest) = if key_eq k key then some o else find_row key rest

-- Two tests that do not both hold may be asked in either order.
swapped :
    {A : Type 0} (a b : Bool) (x y z : A)
    → (a ≡ true → b ≡ true → ⊥)
    → (if a then x else (if b then y else z)) ≡ (if b then y else (if a then x else z))
swapped true true x y z h = absurd (h refl refl)
swapped true false x y z h = refl
swapped false b x y z h = refl

overwritten :
    {A : Type 0} (a : Bool) (x y z : A)
    → (if a then x else z) ≡ (if a then x else (if a then y else z))
overwritten true x y z = refl
overwritten false x y z = refl

apart :
    (k key j : ObligationKey) → key_eq k key ≡ false → key_eq k j ≡ true → key_eq key j ≡ true → ⊥
apart k key j e a b =
    let same : k ≡ key = eq_of_key_eq k j a ∙ sym (eq_of_key_eq key j b) in
    let yes_too : key_eq k key ≡ true = subst (λ z. key_eq k z ≡ true) same (key_eq_same k) in cc

pub find_row-insert_row :
    (j key : ObligationKey) (o : Obligation) (rows : Rows)
    → find_row j (insert_row key o rows) ≡ (if key_eq key j then some o else find_row j rows)
unfolding insert_row
find_row-insert_row j key o [] = refl
find_row-insert_row j key o ((k, p) ∷ rest) = elim (Bool-cases (key_eq k key)) [
  | inl e ↦ rw e (
      subst
        (λ z.
          (if key_eq key j then some o else find_row j rest)
          ≡ (if key_eq key j then some o else (if key_eq z j then some p else find_row j rest)))
        (sym (eq_of_key_eq k key e))
        (overwritten (key_eq key j) (some o) (some p) (find_row j rest)))
  | inr e ↦ rw e (
      rw (find_row-insert_row j key o rest)
        (swapped (key_eq k j) (key_eq key j) (some p) (some o) (find_row j rest) (apart k key j e)))
]

pub find_row-remove_row :
    (j key : ObligationKey) (rows : Rows)
    → find_row j (remove_row key rows) ≡ (if key_eq key j then none else find_row j rows)
unfolding remove_row
find_row-remove_row j key [] = both (key_eq key j)
  where
    both : (b : Bool) → ◌≡◌ {A = Option Obligation} none (if b then none else none)
    both true = refl
    both false = refl
find_row-remove_row j key ((k, p) ∷ rest) = elim (Bool-cases (key_eq k key)) [
  | inl e ↦ rw e (
      rw (find_row-remove_row j key rest) (
        subst
          (λ z.
            (if key_eq key j then none else find_row j rest)
            ≡ (if key_eq key j then none else (if key_eq z j then some p else find_row j rest)))
          (sym (eq_of_key_eq k key e))
          (overwritten (key_eq key j) none (some p) (find_row j rest))))
  | inr e ↦ rw e (
      rw (find_row-remove_row j key rest)
        (swapped (key_eq k j) (key_eq key j) (some p) none (find_row j rest) (apart k key j e)))
]
