-- ===== src/Capital.antt =====
-- The capital that the strategies reserve and the balances that they cache
-- (keeper/src/liquidator_capital.rs). The mutex makes each call one step on `CapitalInner`; the maps
-- are association lists. `Instant` is a ℕ of one monotonic clock, passed as `now`, and the number that
-- `random_id` draws and what the ledger answers are arguments.
pub mod Ledger
pub mod Reserve
pub mod Effects
pub mod Balance
use alula_liquidator.Prelude.{
  ℕ, ◌-◌, String, Bool, true, false, Option, some, none, List, [], ◌∷◌, ltb, ◌==◌, str_eq,
  if◌then◌else◌,
}
use alula_liquidator.Prelude.Outcome.{Outcome, ok, err, panic, ◌>>=◌}
use alula_liquidator.Prelude.Int.{ℤ, pos, leb_ℤ, ltb_ℤ, plain_add, saturating_add}

pub record Reservation : Type 0 where
  pub amount : ℤ
  pub created_at : ℕ
  pub token_address : String

pub record CachedBalance : Type 0 where
  pub amount : ℤ
  pub fetched_at : ℕ

pub record CapitalInner : Type 0 where
  pub reservations : List (ℕ × Reservation)
  pub balances : List (String × CachedBalance)

pub record LiquidatorCapitalConfig : Type 0 where
  pub xlm_address : String
  pub reservation_ttl : ℕ
  pub balance_cache_ttl : ℕ

-- `LiquidatorCapital::new`
abbrev pub new_capital : CapitalInner
new_capital = record { reservations = []; balances = [] }

unfoldable pub retain_fresh : ℕ → ℕ → List (ℕ × Reservation) → List (ℕ × Reservation)
retain_fresh now ttl [] = []
retain_fresh now ttl ((k, r) ∷ rest) =
    let kept = retain_fresh now ttl rest in
    if ltb (now - r.created_at) ttl then (k, r) ∷ kept else kept

unfoldable pub unlock_expired : ℕ → ℕ → CapitalInner → CapitalInner
unlock_expired now ttl inner = record inner {
  reservations = retain_fresh now ttl inner.reservations;
}

-- `HashMap::remove`
unfoldable pub remove_reservation : ℕ → List (ℕ × Reservation) → List (ℕ × Reservation)
remove_reservation id [] = []
remove_reservation id ((k, r) ∷ rest) =
    let kept = remove_reservation id rest in if k == id then kept else (k, r) ∷ kept

-- The sum of what is reserved of a token.
unfoldable pub committed : String → List (ℕ × Reservation) → ℤ → Outcome ℤ
committed token [] total = ok total
committed token ((k, r) ∷ rest) total =
    let counted = do sum ← plain_add total r.amount; committed token rest sum
    in let skipped = committed token rest total in
      if str_eq r.token_address token then counted else skipped

pub data ReserveResult : Type 0 where
  reserved : (id : ℕ) → ReserveResult
  internal_error : ReserveResult
  not_enough_available_balance : ReserveResult

-- `HashMap::insert` replaces what stands under the key.
unfoldable pub insert_reservation : ℕ → Reservation → CapitalInner → CapitalInner
insert_reservation id r inner = record inner {
  reservations = (id, r) ∷ remove_reservation id inner.reservations;
}

abbrev pub new_reservation : ℤ → ℕ → String → Reservation
new_reservation amount now token = record {
  amount = amount;
  created_at = now;
  token_address = token;
}

unfoldable pub reserve :
    LiquidatorCapitalConfig
    → ℕ
    → ℕ
    → ℤ
    → ℤ
    → String
    → CapitalInner
    → Outcome (ReserveResult × CapitalInner)
reserve config now random_id amount available token inner =
    let locked = do
      let fresh = unlock_expired now config.reservation_ttl inner
      total ← committed token fresh.reservations (pos 0)
      if ltb_ℤ available (saturating_add total amount)
          then ok (not_enough_available_balance, fresh)
          else ok (
            reserved random_id,
            insert_reservation random_id (new_reservation amount now token) fresh,
          )
    in if leb_ℤ amount (pos 0) then ok (internal_error, inner) else locked

unfoldable pub release : ℕ → CapitalInner → CapitalInner
release reservation_id inner = record inner {
  reservations = remove_reservation reservation_id inner.reservations;
}

unfoldable pub lookup_balance : String → List (String × CachedBalance) → Option CachedBalance
lookup_balance token [] = none
lookup_balance token ((k, b) ∷ rest) = if str_eq k token then some b else lookup_balance token rest

-- The `filter` and the `map` on the cached balance.
unfoldable pub if_fresh : ℕ → ℕ → Option CachedBalance → Option ℤ
if_fresh now ttl none = none
if_fresh now ttl (some b) = if ltb (now - b.fetched_at) ttl then some b.amount else none

unfoldable pub get_freshly_cached_balance :
    LiquidatorCapitalConfig → ℕ → String → CapitalInner → Option ℤ
get_freshly_cached_balance config now token inner =
    if_fresh now config.balance_cache_ttl (lookup_balance token inner.balances)

unfoldable pub insert_balance :
    String → CachedBalance → List (String × CachedBalance) → List (String × CachedBalance)
insert_balance token b [] = (token, b) ∷ []
insert_balance token b ((k, c) ∷ rest) =
    let later = insert_balance token b rest in
    if str_eq k token then (token, b) ∷ rest else (k, c) ∷ later

-- `read` is the ledger's answer, `none` where the read failed; `later` is the time of the insertion.
unfoldable pub store_read : ℕ → String → Option ℤ → CapitalInner → Option ℤ × CapitalInner
store_read later token none inner = (none, inner)
store_read later token (some amount) inner = (
  some amount,
  record inner {
    balances = insert_balance token (record { amount = amount; fetched_at = later }) inner.balances;
  },
)

unfoldable pub serve_balance :
    ℕ → String → Option ℤ → Option ℤ → CapitalInner → Option ℤ × CapitalInner
serve_balance later token read (some b) inner = (some b, inner)
serve_balance later token read none inner = store_read later token read inner

unfoldable pub try_get_balance :
    LiquidatorCapitalConfig
    → (now later : ℕ) → String
    → Option ℤ
    → CapitalInner
    → Option ℤ × CapitalInner
try_get_balance config now later token read inner =
    serve_balance later token read (get_freshly_cached_balance config now token inner) inner
