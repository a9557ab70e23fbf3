-- ===== src/World.antt =====
-- What a strategy's step runs in: the capital that it shares with the other strategies, and the answers
-- of the clock, the ledger and the random numbers. Every question to them takes the number of questions
-- asked so far, so that no two answers are assumed to agree; an awaited one also lets the other tasks
-- change the shared capital. `Run` is the result of a function that returns an `Option` or a value.
pub mod Laws
pub mod Reserved
use alula_liquidator.Prelude.{ℕ, suc, String, Bool, true, false, Option, some, none}
use alula_liquidator.Prelude.Outcome.{Outcome, ok, err, panic}
use alula_liquidator.Prelude.Int.{ℤ}
use alula_liquidator.Capital.{
  CapitalInner, LiquidatorCapitalConfig, ReserveResult, reserved, internal_error,
  not_enough_available_balance, reserve, release, get_freshly_cached_balance, store_read,
}

pub record World : Type 0 where
  pub inner : CapitalInner
  pub tick : ℕ

-- A value, `None`, or a panic.
pub data Run {ℓ} (A : Type ℓ) : Type ℓ where
  value : A → World → Run A
  nothing : World → Run A
  panics : Run A

abbrev pub M {ℓ} : Type ℓ → Type ℓ
M A = World → Run A

abbrev pub then_run {ℓ κ} : {A : Type ℓ} {B : Type κ} → Run A → (A → M B) → Run B
then_run (value a w) f = f a w
then_run (nothing w) f = nothing w
then_run panics f = panics

-- `?` on an `Option`.
infixl 5 ◌>>=◌ ◌>>◌
abbrev pub ◌>>=◌ {ℓ κ} : {A : Type ℓ} {B : Type κ} → M A → (A → M B) → M B
(m >>= f) w = then_run (m w) f

abbrev pub ◌>>◌ {ℓ} : {B : Type ℓ} → M (Unit {0}) → M B → M B
m >> k = m >>= λ _. k

abbrev pub pure {ℓ} : {A : Type ℓ} → A → M A
pure a w = value a w

-- `return None`
abbrev pub stop {ℓ} : {A : Type ℓ} → M A
stop w = nothing w

-- An early `return None` unless the test holds.
abbrev pub guard : Bool → M (Unit {0})
guard true w = value tt w
guard false w = nothing w

-- `.ok()?`
abbrev pub dropping {ℓ} : {A : Type ℓ} → Outcome A → M A
dropping (ok a) w = value a w
dropping (err e) w = nothing w
dropping panic w = panics

-- `?` on an `Option` at hand.
abbrev pub given {ℓ} : {A : Type ℓ} → Option A → M A
given none w = nothing w
given (some a) w = value a w

abbrev pub caught {ℓ} : {A : Type ℓ} → Run A → Run (Option A)
caught (value a w) = value (some a) w
caught (nothing w) = value none w
caught panics = panics

-- `let Some(x) = .. else ..`: the `None` of a call as a value.
abbrev pub attempt {ℓ} : {A : Type ℓ} → M A → M (Option A)
attempt m w = caught (m w)

-- The shared state after a question that is not awaited.
abbrev pub asked : World → World
asked w = record { inner = w.inner; tick = suc w.tick }

-- A question that is answered at once.
unfoldable pub look {ℓ} : {A : Type ℓ} → (ℕ → A) → M A
look answer w = value (answer w.tick) (asked w)

-- What the strategies' tasks share: what they ask, and how the capital is configured.
pub record Surroundings : Type 0 where
  pub capital : LiquidatorCapitalConfig
  pub instant : ℕ → ℕ
  pub unix_now : ℕ → ℕ
  pub random_id : ℕ → ℕ
  pub read_token_balance : ℕ → String → Option ℤ
  pub get_amount_out : ℕ → (amount_in : ℤ) → (asset_in asset_out provider : String) → Option ℤ
  pub get_amount_in : ℕ → (amount_out : ℤ) → (asset_in asset_out provider : String) → Option ℤ
  pub meanwhile : ℕ → CapitalInner → CapitalInner

abbrev pub waited : Surroundings → World → World
waited env w = record { inner = env.meanwhile w.tick w.inner; tick = suc w.tick }

-- A question that is awaited.
unfoldable pub await {ℓ} : {A : Type ℓ} → Surroundings → (ℕ → A) → M A
await env answer w = value (answer w.tick) (waited env w)

abbrev pub with_inner {ℓ} : {A : Type ℓ} → ℕ → A × CapitalInner → Run A
with_inner tick (a, inner) = value a (record { inner = inner; tick = tick })

-- `LiquidatorCapital::try_get_balance` with the read of the ledger awaited between the two locks;
-- `none` is its error.
unfoldable pub get_balance : Surroundings → String → M (Option ℤ)
get_balance env token w =
    let cached = get_freshly_cached_balance env.capital (env.instant w.tick) token w.inner in
    let after = waited env (asked w) in
    elim cached [
      | some b ↦ value (some b) (asked w)
      | none ↦ with_inner (suc after.tick) (
          store_read (env.instant after.tick) token (env.read_token_balance (suc w.tick) token)
            after.inner)
    ]

-- What `reserve` left, and the id that it gave.
abbrev pub take_id : ℕ → Outcome (ReserveResult × CapitalInner) → Run ℕ
take_id tick (ok (reserved id, inner)) = value id (record { inner = inner; tick = tick })
take_id tick (ok (internal_error, inner)) = nothing (record { inner = inner; tick = tick })
take_id tick (ok (not_enough_available_balance, inner)) =
    nothing (record { inner = inner; tick = tick })
take_id tick (err e) = panics
take_id tick panic = panics

-- `LiquidatorCapital::reserve`; its errors are nothing.
unfoldable pub reserve_now : Surroundings → (amount available : ℤ) → String → M ℕ
reserve_now env amount available token w =
    take_id (suc w.tick) (
      reserve env.capital (env.instant w.tick) (env.random_id w.tick) amount available token
        w.inner)

-- `LiquidatorCapital::release`
unfoldable pub release_now : ℕ → M (Unit {0})
release_now id w = value tt (record { inner = release id w.inner; tick = w.tick })
