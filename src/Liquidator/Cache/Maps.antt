-- ===== src/Liquidator/Cache/Maps.antt =====
-- What a lookup reads after the changes of the two maps (the hash maps of liquidator.rs).
use alula_liquidator.Maps.{lookup}
use alula_liquidator.Maps.Laws.{str_eq_same}
use alula_liquidator.Maps.{lookup}
use alula_liquidator.Prelude.{
  ◌≡◌, refl, ap, ◌∙◌, ◌&&◌, String, Bool, true, false, Option, some, none, List, [], ◌∷◌, inl, inr,
  Bool-cases, str_eq, eq_iff,
}
use alula_liquidator.Market.{ObligationKey}
use alula_liquidator.Liquidator.{Rows}
use alula_liquidator.Liquidator.Evaluate.{rows_of}
use alula_liquidator.Liquidator.Cache.{seed_eq, key_eq, remove_row, remove_at}

-- The other market's rows are untouched, and this one's lose the key.
pub rows-remove_at :
    (key : ObligationKey) (k : String) (l : List (String × Rows))
    → rows_of (lookup k (remove_at key k l)) ≡ remove_row key (rows_of (lookup k l))
unfolding lookup remove_at remove_row
rows-remove_at key k [] = refl
rows-remove_at key k ((s, rows) ∷ rest) = elim (Bool-cases (str_eq s k)) [
  | inl e ↦ rw e (rw e refl)
  | inr e ↦ rw e (rw e (rows-remove_at key k rest))
]

pub lookup-remove_at-other :
    (key : ObligationKey) (j k : String) (l : List (String × Rows))
    → str_eq k j ≡ false
    → lookup j (remove_at key k l) ≡ lookup j l
unfolding lookup remove_at
lookup-remove_at-other key j k [] h = refl
lookup-remove_at-other key j k ((s, rows) ∷ rest) h = elim (Bool-cases (str_eq s k)) [
  | inl e ↦
      let same : str_eq s j ≡ false = (ap (λ z. str_eq z j) ((eq_iff s k).0 e)) ∙ h in
      rw e (rw same refl)
  | inr e ↦ rw e (rw (lookup-remove_at-other key j k rest h) refl)
]

seed_eq_same : (a : Option String) → seed_eq a a ≡ true
seed_eq_same none = refl
seed_eq_same (some a) = str_eq_same a

pub key_eq_same : (a : ObligationKey) → key_eq a a ≡ true
key_eq_same a = rw (str_eq_same a.user) (seed_eq_same a.seed)

eq_of_seed_eq : (a b : Option String) → seed_eq a b ≡ true → a ≡ b
eq_of_seed_eq none none h = refl
eq_of_seed_eq none (some b) h = cc
eq_of_seed_eq (some a) none h = cc
eq_of_seed_eq (some a) (some b) h = ap (λ z. some z) ((eq_iff a b).0 h)

both_true : (a b : Bool) → a && b ≡ true → (a ≡ true) × (b ≡ true)
both_true true b h = (refl, h)
both_true false b h = cc

key_of : (a b : ObligationKey) → a.user ≡ b.user → a.seed ≡ b.seed → a ≡ b
key_of a b u s =
    ap (λ z. record { user = z; seed = a.seed }) u ∙ ap (λ z. record { user = b.user; seed = z }) s

pub eq_of_key_eq : (a b : ObligationKey) → key_eq a b ≡ true → a ≡ b
eq_of_key_eq a b h =
    let q = both_true (str_eq a.user b.user) (seed_eq a.seed b.seed) h in
    key_of a b ((eq_iff a.user b.user).0 q.0) (eq_of_seed_eq a.seed b.seed q.1)
