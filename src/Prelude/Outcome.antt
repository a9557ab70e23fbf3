-- ===== src/Prelude/Outcome.antt =====
-- What a Rust call comes to: a value, the error `LendingModelError` (engine/src/lending_model/error.rs),
-- or a panic. Every profile sets `overflow-checks`, so that a plain operator which leaves its type panics.
use mathlib.Core.Path.{◌≡◌, refl}
use mathlib.Core.Option.{Option, none, some}

pub data LendingModelError : Type 0 where
  internal_error over_or_underflow : LendingModelError

pub data Outcome {ℓ} (A : Type ℓ) : Type ℓ where
  ok : A → Outcome A
  err : LendingModelError → Outcome A
  panic : Outcome A

-- `?`
infixl 5 ◌>>=◌ ◌>>◌
abbrev pub ◌>>=◌ {ℓ κ} : {A : Type ℓ} {B : Type κ} → Outcome A → (A → Outcome B) → Outcome B
ok a >>= f = f a
err e >>= f = err e
panic >>= f = panic

abbrev pub ◌>>◌ {ℓ} : {B : Type ℓ} → Outcome (Unit {0}) → Outcome B → Outcome B
m >> k = m >>= λ _. k

-- `MapArithmeticError::m_ou`
abbrev pub m_ou {ℓ} : {A : Type ℓ} → Option A → Outcome A
m_ou none = err over_or_underflow
m_ou (some a) = ok a

-- `Option::ok_or`
abbrev pub ok_or {ℓ} : {A : Type ℓ} → Option A → LendingModelError → Outcome A
ok_or none e = err e
ok_or (some a) e = ok a

pub ok_or-eq-ok {ℓ} :
    {A : Type ℓ} (o : Option A) (e : LendingModelError) {a : A} → ok_or o e ≡ ok a → o ≡ some a
ok_or-eq-ok none e h = cc
ok_or-eq-ok (some x) e h = cc

-- The same, to go on with the value as a variable.
pub bind-elim {ℓ κ μ} :
    {A : Type ℓ} {B : Type κ} {P : Type μ} (m : Outcome A) (f : A → Outcome B) {b : B}
    → (m >>= f) ≡ ok b
    → ((a : A) → m ≡ ok a → f a ≡ ok b → P)
    → P
bind-elim (ok a) f h k = k a refl h
bind-elim (err e) f h k = cc
bind-elim panic f h k = cc

-- A call chain that returned a value, as the value in the middle and the two runs.
pub returned-via {ℓ κ} :
    {Mid : Type ℓ} {Out : Type κ} (call : Outcome Mid) (next : Mid → Outcome Out) {out : Out}
    → call >>= next ≡ ok out
    → (mid : Mid) × (call ≡ ok mid) × (next mid ≡ ok out)
returned-via call next h = bind-elim call next h λ mid e₁ e₂. (mid, e₁, e₂)
