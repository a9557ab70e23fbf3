-- ===== src/World/Reserved.antt =====
-- A reservation that is made against a balance that was asked for (`try_get_balance` and `reserve` of
-- liquidator_capital.rs, as the strategies call them).
use alula_liquidator.World.{take_id, reserve_now}
use alula_liquidator.Prelude.{
  ℕ, suc, ◌≡◌, ◌⊎◌, refl, sym, subst, ◌∙◌, ◌≤◌, String, Option, some, none, In, inl, inr,
}
use alula_liquidator.Prelude.Outcome.{Outcome, ok, err, panic}
use alula_liquidator.Prelude.Int.{ℤ, pos, pos_part, i128_max, ◌<ℤ◌}
use alula_liquidator.Capital.{
  CapitalInner, ReserveResult, reserved, internal_error, not_enough_available_balance,
  new_reservation, insert_reservation, unlock_expired, reserve, get_freshly_cached_balance,
  store_read,
}
use alula_liquidator.Capital.Ledger.{held, IsValid}
use alula_liquidator.Capital.Effects.{reserve-ReserveEnds, insert-In}
use alula_liquidator.Capital.Reserve.{reserve_never_overcommits}
use alula_liquidator.World.{Surroundings, World, value, asked, waited, with_inner, get_balance}
use alula_liquidator.World.Laws.{Ends}

-- The other tasks keep the reservations valid.
abbrev pub KeepsValid : Surroundings → Type 0
KeepsValid env = (n : ℕ) (i : CapitalInner) → IsValid i → IsValid (env.meanwhile n i)

store_read-IsValid :
    (asset : String) (now : ℕ) (answer : Option ℤ) (i : CapitalInner)
    → IsValid i
    → IsValid (store_read now asset answer i).1
unfolding store_read
store_read-IsValid asset now none i v = v
store_read-IsValid asset now (some a) i v = record { sound = v.sound; unique = v.unique }

module _ (env : Surroundings) (keeps : KeepsValid env) where
  pub get_balance-IsValid :
      (asset : String) (w : World)
      → IsValid w.inner
      → Ends (λ _ u. IsValid u.inner) (λ u. IsValid u.inner) (get_balance env asset w)
  unfolding get_balance
  get_balance-IsValid asset w v =
      split (get_freshly_cached_balance env.capital (env.instant w.tick) asset w.inner)
    where
      after : World
      after = waited env (asked w)

      split :
          (o : Option ℤ)
          → Ends
              (λ _ u. IsValid u.inner)
              (λ u. IsValid u.inner)
              (elim o [
                | some b ↦ value (some b) (asked w)
                | none ↦ with_inner (suc after.tick) (
                    store_read
                      (env.instant after.tick)
                      asset
                      (env.read_token_balance (suc w.tick) asset)
                      after.inner)
              ])
      split (some b) = v
      split none =
          store_read-IsValid asset (env.instant after.tick)
            (env.read_token_balance (suc w.tick) asset) after.inner (keeps (suc w.tick) w.inner v)

-- The amount stands under the id, and with it all that is reserved of the token is within what is usable
-- of the balance that `try_get_balance` answers when it is called at `before`.
pub record IsBacked (env : Surroundings) (spendable : ℤ → ℤ) (token : String) (amount : ℤ)
    (before : World) (id : ℕ) (w : World) : Type 0 where
  pub created : ℕ
  pub stands : In (id, new_reservation amount created token) w.inner.reservations
  pub after : World
  pub raw_balance : ℤ
  pub read : get_balance env token before ≡ value (some raw_balance) after
  pub within :
      spendable raw_balance <ℤ pos i128_max
      → held token w.inner.reservations ≤ pos_part (spendable raw_balance)

same_id :
    (a b : ℕ) (token : String) (amount : ℤ) (now : ℕ) (i fresh : CapitalInner)
    → reserved a ≡ reserved b
    → i ≡ insert_reservation b (new_reservation amount now token) fresh
    → In (a, new_reservation amount now token) i.reservations
same_id a b token amount now i fresh e q =
    let same : b ≡ a = cc in
    subst (λ (z : CapitalInner). In (a, new_reservation amount now token) z.reservations) (sym q)
      (subst
        (λ z.
          In (z, new_reservation amount now token)
            (insert_reservation b (new_reservation amount now token) fresh).reservations)
        same (insert-In b (new_reservation amount now token) fresh))

not_refused :
    (r : ReserveResult) (id : ℕ)
    → r ≡ reserved id
    → (r ≡ internal_error) ⊎ (r ≡ not_enough_available_balance)
    → ⊥
not_refused r id e (inl q) = cc
not_refused r id e (inr q) = cc

module _ (env : Surroundings) (spendable : ℤ → ℤ) (token : String) (amount raw_balance : ℤ) where
  pub reserve_now-IsBacked :
      (before answered v : World)
      → get_balance env token before ≡ value (some raw_balance) answered
      → IsValid v.inner
      → (id : ℕ) (w' : World) → reserve_now env amount (spendable raw_balance) token v ≡ value id w'
      → IsBacked env spendable token amount before id w'
  unfolding reserve_now
  reserve_now-IsBacked before answered v read valid id w' h =
      split
        (reserve env.capital (env.instant v.tick) (env.random_id v.tick) amount
          (spendable raw_balance) token v.inner)
        refl h
    where
      backed :
          (i : CapitalInner)
          → reserve env.capital
              (env.instant v.tick)
              (env.random_id v.tick)
              amount
              (spendable raw_balance)
              token
              v.inner
            ≡ ok (reserved id, i)
          → IsBacked env spendable token amount before id (record { inner = i; tick = suc v.tick })
      backed i e =
          elim (reserve-ReserveEnds env.capital (env.instant v.tick) (env.random_id v.tick) amount
            (spendable raw_balance) token v.inner (reserved id) i e) [
              | inl q ↦ record {
                created = env.instant v.tick;
                stands =
                    same_id id (env.random_id v.tick) token amount (env.instant v.tick) i
                      (unlock_expired (env.instant v.tick) env.capital.reservation_ttl v.inner) q.0
                      q.1;
                after = answered;
                raw_balance = raw_balance;
                read = read;
                within = λ l.
                    reserve_never_overcommits env.capital (env.instant v.tick)
                      (env.random_id v.tick) amount (spendable raw_balance) token v.inner id i valid
                      l e;
              }
              | inr q ↦ absurd (not_refused (reserved id) id refl q.0)
            ]

      split :
          (o : Outcome (ReserveResult × CapitalInner))
          → reserve env.capital
              (env.instant v.tick)
              (env.random_id v.tick)
              amount
              (spendable raw_balance)
              token
              v.inner
            ≡ o
          → take_id (suc v.tick) o ≡ value id w'
          → IsBacked env spendable token amount before id w'
      split (ok (reserved j, i)) e q =
          let same : j ≡ id = cc in
          let place : record { inner = i; tick = suc v.tick } ≡ w' = cc in
          subst (IsBacked env spendable token amount before id) place (backed i (e ∙ (rw same)))
      split (ok (internal_error, i)) e q = cc
      split (ok (not_enough_available_balance, i)) e q = cc
      split (err x) e q = cc
      split panic e q = cc
