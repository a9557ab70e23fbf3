-- ===== src/Capital/Balance.antt =====
-- The cached balances (`try_get_balance` of liquidator_capital.rs).
use alula_liquidator.Prelude.{
  ℕ, ◌≡◌, refl, ◌-◌, ◌<◌, String, true, Option, some, none, List, [], ◌∷◌, arith, ltb, str_eq,
  eq_iff, Bool-cases, inl, inr,
}
use alula_liquidator.Prelude.Int.{ℤ}
use alula_liquidator.Capital.{
  CachedBalance, CapitalInner, LiquidatorCapitalConfig, lookup_balance, insert_balance, if_fresh,
  get_freshly_cached_balance, store_read, serve_balance, try_get_balance,
}

lookup-insert :
    (token : String) (b : CachedBalance) (l : List (String × CachedBalance))
    → lookup_balance token (insert_balance token b l) ≡ some b
unfolding lookup_balance insert_balance
lookup-insert token b [] =
    let e : str_eq token token ≡ true = (eq_iff token token).1 refl in rw e refl
lookup-insert token b ((k, c) ∷ rest) =
    let e : str_eq token token ≡ true = (eq_iff token token).1 refl in
    elim (Bool-cases (str_eq k token)) [
      | inl t ↦ rw t (rw e refl)
      | inr f ↦ rw f (rw f (lookup-insert token b rest))
    ]

-- A balance that was read from the ledger, because none was fresh, is what every later call returns
-- while its age is below the time to live, whatever the ledger would then answer; and such a call
-- changes nothing.
try_get_balance_cached :
    (config : LiquidatorCapitalConfig) (now later at_call after : ℕ) (token : String) (amount : ℤ)
    (read : Option ℤ) (inner : CapitalInner)
    → get_freshly_cached_balance config now token inner ≡ none
    → at_call - later < config.balance_cache_ttl
    → try_get_balance config at_call after token read
        (try_get_balance config now later token (some amount) inner).1
      ≡ (some amount, (try_get_balance config now later token (some amount) inner).1)
unfolding try_get_balance serve_balance store_read get_freshly_cached_balance if_fresh
try_get_balance_cached config now later at_call after token amount read inner stale young =
    let fresh : ltb (at_call - later) config.balance_cache_ttl ≡ true = ground (arith, young) in
    rw stale (
      rw (lookup-insert token (record { amount = amount; fetched_at = later }) inner.balances)
        (rw fresh refl))
