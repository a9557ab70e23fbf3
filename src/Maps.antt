-- ===== src/Maps.antt =====
-- A hash map with text keys, as an association list in which an insertion replaces the entry in place.
pub mod Laws
use alula_liquidator.Prelude.{String, Option, some, none, List, [], ◌∷◌, str_eq, if◌then◌else◌}

-- `HashMap::get`
unfoldable pub lookup {ℓ} : {A : Type ℓ} → String → List (String × A) → Option A
lookup k [] = none
lookup k ((s, a) ∷ rest) = let later = lookup k rest in if str_eq s k then some a else later

-- `HashMap::insert`
unfoldable pub insert_at {ℓ} : {A : Type ℓ} → String → A → List (String × A) → List (String × A)
insert_at k a [] = (k, a) ∷ []
insert_at k a ((s, b) ∷ rest) =
    let later = insert_at k a rest in if str_eq s k then (k, a) ∷ rest else (s, b) ∷ later
