-- ===== src/Tests/Keeper.antt =====
-- The theorems on the reserved capital and on the withdrawer, on concrete inputs.
use alula_liquidator.Prelude.{
  ℕ, ◌≡◌, ◌≢◌, refl, ◌≤◌, String, true, Option, some, none, [], ◌∷◌, In, inl, arith,
}
use alula_liquidator.Prelude.Int.{ℤ, pos, i128_max}
use alula_liquidator.Prelude.Outcome.{ok}
use alula_liquidator.Market.{ObligationKey, Obligation, MarketData}
use alula_liquidator.Amount.{Underlying}
use alula_liquidator.Capital.{
  CapitalInner, LiquidatorCapitalConfig, reserved, new_reservation, unlock_expired, reserve,
  release,
}
use alula_liquidator.Capital.Ledger.{IsValid, Free, held}
use alula_liquidator.Capital.Reserve.{reserve-IsValid, reserve_never_overcommits}
use alula_liquidator.Capital.Effects.{release-reserve}
use alula_liquidator.Execute.{Action, submit_tx}
use alula_liquidator.Withdrawer.{
  repay, Withdrawer, increases_liquidity, is_multiple_of, find_withdrawal_opportunities,
  handle_new_ledger, handle_soroban_event,
}
use alula_liquidator.Withdrawer.Deposit.{FromDeposit}
use alula_liquidator.Withdrawer.Sound.{
  FromMarket, find_withdrawal_opportunities-justified, handle_new_ledger-justified,
  handle_soroban_event-justified,
}
use alula_liquidator.Tests.Data.{program, market}

abbrev config : LiquidatorCapitalConfig
config = record { xlm_address = "xlm"; reservation_ttl = 60; balance_cache_ttl = 10 }

-- 30 of `usdc` under the id 7, and 20 that have expired at 100 under the id 8.
abbrev inner : CapitalInner
inner = record {
  reservations =
      (7, new_reservation (pos 30) 90 "usdc") ∷ (8, new_reservation (pos 20) 10 "usdc") ∷ [];
  balances = [];
}

different : ◌≢◌ {A = ℕ} 8 7
different e = absurd (omega (arith, e))

inner-IsValid : IsValid inner
inner-IsValid = record {
  sound = (omega arith, (omega arith, tt));
  unique = ((different, tt), (tt, tt));
}

abbrev after : CapitalInner
after = record {
  reservations =
      (9, new_reservation (pos 70) 100 "usdc") ∷ (7, new_reservation (pos 30) 90 "usdc") ∷ [];
  balances = [];
}

reserved_70 : reserve config 100 9 (pos 70) (pos 100) "usdc" inner ≡ ok (reserved 9, after)
unfolding program
reserved_70 = refl

apart : ◌≢◌ {A = ℕ} 7 9
apart e = absurd (omega (arith, e))

nine-Free : Free 9 (unlock_expired 100 60 inner).reservations
unfolding program
nine-Free = (apart, tt)

reserve-IsValid_example : IsValid after
reserve-IsValid_example =
    reserve-IsValid config 100 9 (pos 70) (pos 100) "usdc" inner (reserved 9) after inner-IsValid
      reserved_70

reserve_never_overcommits_example : held "usdc" after.reservations ≤ 100
reserve_never_overcommits_example =
    reserve_never_overcommits config 100 9 (pos 70) (pos 100) "usdc" inner 9 after inner-IsValid
      (omega arith) reserved_70

release-reserve_example : release 9 after ≡ unlock_expired 100 60 inner
release-reserve_example =
    release-reserve config 100 9 (pos 70) (pos 100) "usdc" inner 9 after nine-Free reserved_70

abbrev key : ObligationKey
key = record { user = "keeper"; seed = none }

abbrev self : Withdrawer
self = record {
  max_retries = 3;
  markets = "main" ∷ [];
  refresh_interval_blocks = 10;
  min_withdraw_value_cents = pos 100;
  utilization_safety_margin_bps = pos 500;
  skey = "secret";
  liquidator_key = key;
}

abbrev own : Obligation
own = record {
  borrows = [];
  deposits = record { j_tokens = pos 70; collateral = pos 0; pool_address = "pool-a" } ∷ [];
  open_bad_debt_requests = 0;
}

-- An operation is the pool and the amount.
abbrev withdraw_op : String → ObligationKey → String → Underlying → Option (String × ℤ)
withdraw_op _ _ pool amount = some (pool, amount)

abbrev read_own : String → ObligationKey → Option Obligation
read_own _ _ = some own

abbrev read_market : String → Option MarketData
read_market _ = some market

abbrev whole : Action (String × ℤ)
whole = submit_tx (record {
  op = ("pool-a", pos i128_max);
  signing_key = "secret";
  max_submission_retries = 3;
  on_settle = none;
})

found : find_withdrawal_opportunities withdraw_op self "main" market own ≡ ok (whole ∷ [])
unfolding program
found = refl

find_withdrawal_opportunities-justified_example :
    FromDeposit withdraw_op self "main" market own.deposits whole
find_withdrawal_opportunities-justified_example =
    find_withdrawal_opportunities-justified withdraw_op self "main" market own (whole ∷ []) whole
      found (inl refl)

on_ledger : handle_new_ledger withdraw_op read_own read_market self 40 ≡ ok (whole ∷ [])
unfolding program
on_ledger = refl

handle_new_ledger-justified_example :
    (is_multiple_of 40 10 ≡ true)
    × ((m : String) × In m self.markets × FromMarket withdraw_op read_own read_market self m whole)
handle_new_ledger-justified_example =
    handle_new_ledger-justified withdraw_op read_own read_market self 40 (whole ∷ []) whole
      on_ledger (inl refl)

on_repay :
    handle_soroban_event withdraw_op read_own read_market self "main" (some repay) ≡ ok (whole ∷ [])
unfolding program
on_repay = refl

handle_soroban_event-justified_example :
    In "main" self.markets
    × (increases_liquidity (some repay) ≡ true)
    × FromMarket withdraw_op read_own read_market self "main" whole
handle_soroban_event-justified_example =
    handle_soroban_event-justified withdraw_op read_own read_market self "main" (some repay)
      (whole ∷ []) whole on_repay (inl refl)
