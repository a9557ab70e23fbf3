-- ===== src/World/Laws.antt =====
-- How a run that returned a value is taken apart.
use alula_liquidator.Prelude.{◌≡◌, refl, Option, some, none, Bool, true, false}
use alula_liquidator.Prelude.Outcome.{Outcome, ok, err, panic}
use alula_liquidator.World.{
  World, Run, value, nothing, panics, M, then_run, ◌>>=◌, dropping, given, caught, attempt, guard,
}

-- A chain that returned a value, with the value in the middle as a variable.
pub then-elim {ℓ κ μ} :
    {A : Type ℓ} {B : Type κ} {P : Type μ} (m : M A) (f : A → M B) {w w' : World} {b : B}
    → (m >>= f) w ≡ value b w'
    → ((a : A) (u : World) → m w ≡ value a u → f a u ≡ value b w' → P)
    → P
then-elim {A = A} {P = P} m f {w} {w' = w'} {b = b} h k = split (m w) refl h
  where
    split : (r : Run A) → m w ≡ r → then_run r f ≡ value b w' → P
    split (value a u) e q = k a u e q
    split (nothing u) e q = cc
    split panics e q = cc

pub dropping-eq-value {ℓ} :
    {A : Type ℓ} (o : Outcome A) {w w' : World} {a : A}
    → dropping o w ≡ value a w'
    → (o ≡ ok a) × (w ≡ w')
dropping-eq-value (ok x) h = (cc, cc)
dropping-eq-value (err e) h = cc
dropping-eq-value panic h = cc

pub given-eq-value {ℓ} :
    {A : Type ℓ} (o : Option A) {w w' : World} {a : A}
    → given o w ≡ value a w'
    → (o ≡ some a) × (w ≡ w')
given-eq-value none h = cc
given-eq-value (some x) h = (cc, cc)

pub attempt-eq-some {ℓ} :
    {A : Type ℓ} (m : M A) {w w' : World} {a : A}
    → attempt m w ≡ value (some a) w'
    → m w ≡ value a w'
attempt-eq-some {A = A} m {w} {w' = w'} {a = a} h = split (m w) h
  where
    split : (r : Run A) → caught r ≡ value (some a) w' → r ≡ value a w'
    split (value x u) q = cc
    split (nothing u) q = cc
    split panics q = cc

pub guard-eq-value :
    (b : Bool) {w w' : World} {u : Unit {0}} → guard b w ≡ value u w' → (b ≡ true) × (w ≡ w')
guard-eq-value true h = (refl, cc)
guard-eq-value false h = cc

pub pure-eq-value {ℓ} :
    {A : Type ℓ} {x a : A} {w w' : World} → value x w ≡ value a w' → (x ≡ a) × (w ≡ w')
pure-eq-value h = (cc, cc)

-- What holds at the end of a run: `Q` of a value, `N` where there is none; a panic ends the process.
abbrev pub Ends {ℓ} : {A : Type ℓ} → (A → World → Type 0) → (World → Type 0) → Run A → Type 0
Ends Q N (value a w) = Q a w
Ends Q N (nothing w) = N w
Ends Q N panics = Unit

pub then-Ends {ℓ κ} :
    {A : Type ℓ} {B : Type κ} (m : M A) (f : A → M B) (w : World) (Q : A → World → Type 0)
    (R : B → World → Type 0) (N : World → Type 0)
    → Ends Q N (m w)
    → ((a : A) (u : World) → Q a u → Ends R N (f a u))
    → Ends R N ((m >>= f) w)
then-Ends {A = A} m f w Q R N h k = split (m w) h
  where
    split : (r : Run A) → Ends Q N r → Ends R N (then_run r f)
    split (value a u) q = k a u q
    split (nothing u) q = q
    split panics q = tt

pub given-Ends {ℓ} :
    {A : Type ℓ} (o : Option A) (w : World) (N : World → Type 0)
    → N w
    → Ends (λ _ u. N u) N (given o w)
given-Ends none w N h = h
given-Ends (some a) w N h = h

-- The run returns a value, of which `Q` holds.
abbrev pub Reaches {ℓ} : {A : Type ℓ} → (A → World → Type 0) → Run A → Type 0
Reaches Q (value a w) = Q a w
Reaches Q (nothing w) = ⊥
Reaches Q panics = ⊥

pub then-Reaches {ℓ κ} :
    {A : Type ℓ} {B : Type κ} (m : M A) (f : A → M B) (w : World) (Q : A → World → Type 0)
    (R : B → World → Type 0)
    → Reaches Q (m w)
    → ((a : A) (u : World) → Q a u → Reaches R (f a u))
    → Reaches R ((m >>= f) w)
then-Reaches {A = A} m f w Q R h k = split (m w) h
  where
    split : (r : Run A) → Reaches Q r → Reaches R (then_run r f)
    split (value a u) q = k a u q
    split (nothing u) q = absurd q
    split panics q = absurd q

-- A chain that starts with a value at hand.
pub given-then-Ends {ℓ κ} :
    {A : Type ℓ} {B : Type κ} (o : Option A) (f : A → M B) (w : World) (R : B → World → Type 0)
    (N : World → Type 0)
    → N w
    → ((a : A) → o ≡ some a → Ends R N (f a w))
    → Ends R N ((given o >>= f) w)
given-then-Ends none f w R N n h = n
given-then-Ends (some a) f w R N n h = h a refl

pub dropping-then-Ends {ℓ κ} :
    {A : Type ℓ} {B : Type κ} (o : Outcome A) (f : A → M B) (w : World) (R : B → World → Type 0)
    (N : World → Type 0)
    → N w
    → ((a : A) → o ≡ ok a → Ends R N (f a w))
    → Ends R N ((dropping o >>= f) w)
dropping-then-Ends (ok a) f w R N n h = h a refl
dropping-then-Ends (err e) f w R N n h = n
dropping-then-Ends panic f w R N n h = tt

guard-then-Ends {κ} :
    {B : Type κ} (b : Bool) (f : Unit {0} → M B) (w : World) (R : B → World → Type 0)
    (N : World → Type 0)
    → N w
    → (b ≡ true → Ends R N (f tt w))
    → Ends R N ((guard b >>= f) w)
guard-then-Ends true f w R N n h = h refl
guard-then-Ends false f w R N n h = n
