-- ===== src/Withdrawer.antt =====
-- The strategy that takes the liquidator's own deposits out of pools where that costs no scarcity fee
-- (keeper/src/strategy/withdrawer.rs; the events of engine/src/ports/operation_event.rs, the actions of
-- keeper/src/execute). The operation builder, the ledger's answers and the decoder are parameters; the
-- log lines and the metrics are left out.
pub mod Deposit
pub mod Sound
use alula_liquidator.Prelude.{
  ℕ, ◌+◌, ◌-◌, ◌%◌, ◌^◌, String, Bool, true, false, Option, some, none, List, [], ◌∷◌, ◌++◌, ltb,
  ◌==◌, str_eq, if◌then◌else◌,
}
use alula_liquidator.Prelude.Outcome.{Outcome, ok, err, panic, ◌>>=◌}
use alula_liquidator.Prelude.Int.{
  ℤ, pos, i128_max, leb_ℤ, eqb_ℤ, min_ℤ, max_ℤ, checked_mul, plain_div, pow10,
}
use alula_liquidator.Amount.{JTokens, Underlying}
use alula_liquidator.Pool.{PoolData, compute_max_safe_withdrawal, j_tokens_to_tokens_floor}
use alula_liquidator.Market.{MarketData, Obligation, ObligationKey, DepositPosition, pool_of}
use alula_liquidator.Liquidation.Unpriced.{contains}
use alula_liquidator.Execute.{Action, submit_tx}

pub data OperationEvent : Type 0 where
  repay borrow deposit withdraw liquidate add_collateral remove_collateral : OperationEvent
  issue_cover_bad_debt claim_cover_bad_debt_results : OperationEvent

-- The names that the market publishes, in the order of the match.
abbrev event_names : List (String × OperationEvent)
event_names =
    ("repay_event", repay)
    ∷ ("borrow_event", borrow)
    ∷ ("deposit_event", deposit)
    ∷ ("withdraw_event", withdraw)
    ∷ ("liquidate_event", liquidate)
    ∷ ("add_collateral_event", add_collateral)
    ∷ ("remove_collateral_event", remove_collateral)
    ∷ ("issue_cover_bad_debt", issue_cover_bad_debt)
    ∷ ("claim_cover_bad_debt_results", claim_cover_bad_debt_results)
    ∷ []

unfoldable pub lookup_event : String → List (String × OperationEvent) → Option OperationEvent
lookup_event s [] = none
lookup_event s ((name, event) ∷ rest) = if str_eq s name then some event else lookup_event s rest

-- `none` is `OperationEventError::Unknown`.
unfoldable pub try_from : String → Option OperationEvent
try_from s = lookup_event s event_names

-- Whether the event adds available liquidity; `none` is an event that does not decode.
unfoldable pub increases_liquidity : Option OperationEvent → Bool
increases_liquidity (some deposit) = true
increases_liquidity (some repay) = true
increases_liquidity (some liquidate) = true
increases_liquidity _ = false

-- `u32::is_multiple_of`
abbrev pub is_multiple_of : ℕ → ℕ → Bool
is_multiple_of n d = if d == 0 then n == 0 else n % d == 0

-- The keys of the strategy, its configuration and its signing key.
pub record Withdrawer : Type 0 where
  pub max_retries : ℕ
  pub markets : List String
  pub refresh_interval_blocks : ℕ
  pub min_withdraw_value_cents : ℤ
  pub utilization_safety_margin_bps : ℤ
  pub skey : String
  pub liquidator_key : ObligationKey

-- A failed call makes the loop pass on; a panic ends it.
abbrev pub on_ok {ℓ κ} :
    {A : Type ℓ} {B : Type κ} → Outcome A → Outcome B → (A → Outcome B) → Outcome B
on_ok (ok a) failed next = next a
on_ok (err e) failed next = failed
on_ok panic failed next = panic

-- The plain sum of two `u32`.
unfoldable pub plain_add_u32 : ℕ → ℕ → Outcome ℕ
plain_add_u32 a b = if ltb (a + b) (2 ^ 32) then ok (a + b) else panic

-- `numerator / 10_i128.pow(pow - 2)`, at least zero, of the product that `.ok()?` found.
unfoldable pub value_of : ℕ → Option ℤ → Outcome (Option ℤ)
value_of pow none = ok none
value_of pow (some numerator) = do
  unit ← pow10 (pow - 2)
  value_raw ← plain_div numerator unit
  ok (some (max_ℤ value_raw (pos 0)))

unfoldable pub compute_withdrawal_value_cents :
    PoolData → MarketData → Underlying → Outcome (Option ℤ)
compute_withdrawal_value_cents pool market_data token_amount =
    let price = pool.oracle_asset_price in
    let valued = do
      pow ← plain_add_u32 pool.token_decimals market_data.oracle_price_decimals
      if ltb pow 2 then ok none else value_of pow (checked_mul token_amount price)
    in if leb_ℤ price (pos 0) then ok none else valued

-- The whole deposit is asked for as `i128::MAX`.
unfoldable pub requested : Underlying → Underlying → Underlying
requested liquidator_underlying amount =
    if eqb_ℤ amount liquidator_underlying then pos i128_max else amount

-- What one deposit makes the loop do: `continue`, `return vec![]`, or push an action.
pub data Verdict (Op : Type 0) : Type 0 where
  pass stop : Verdict Op
  act : Action Op → Verdict Op

module _ {Op : Type 0}
    (withdraw_op : String → ObligationKey → String → Underlying → Option Op) where
  unfoldable pub build_withdrawal_action :
      Withdrawer → String → String → Underlying → Option (Action Op)
  build_withdrawal_action self market pool_address amount =
      elim (withdraw_op market self.liquidator_key pool_address amount) [
        | none ↦ none
        | some op ↦ some (
            submit_tx (record {
              op = op;
              signing_key = self.skey;
              max_submission_retries = self.max_retries;
              on_settle = none;
            }))
      ]

  abbrev pub dispatch : Option (Action Op) → Verdict Op
  dispatch none = pass
  dispatch (some action) = act action

  -- The threshold, once the value is known; an unknown value stops the loop.
  unfoldable pub judge_value : Withdrawer → String → PoolData → Underlying → Option ℤ → Verdict Op
  judge_value self market pool amount none = stop
  judge_value self market pool amount (some value) =
      if leb_ℤ self.min_withdraw_value_cents value
      then dispatch (build_withdrawal_action self market pool.pool_address amount)
      else pass

  unfoldable pub judge_position :
      Withdrawer → String → MarketData → PoolData → JTokens → Outcome (Verdict Op)
  judge_position self market market_data pool j_tokens =
      on_ok (compute_max_safe_withdrawal pool self.utilization_safety_margin_bps) (ok pass)
        λ max_withdrawal.
          let position = on_ok (j_tokens_to_tokens_floor pool j_tokens) (ok pass) λ underlying.
            let withdrawal_amount = min_ℤ underlying max_withdrawal in
            let valued =
              compute_withdrawal_value_cents pool market_data withdrawal_amount >>= λ value.
              ok (judge_value self market pool (requested underlying withdrawal_amount) value) in
            if eqb_ℤ underlying (pos 0) then ok pass else valued in
          if eqb_ℤ max_withdrawal (pos 0) then ok pass else position

  unfoldable pub judge_deposit :
      Withdrawer → String → MarketData → DepositPosition → Outcome (Verdict Op)
  judge_deposit self market market_data d = elim (pool_of market_data d.pool_address) [
    | none ↦ ok pass
    | some pool ↦ judge_position self market market_data pool d.j_tokens
  ]

  -- The loop over the deposits, with the actions found so far.
  unfoldable pub withdrawals_from :
      Withdrawer
      → String
      → MarketData
      → List DepositPosition
      → List (Action Op)
      → Outcome (List (Action Op))
  withdrawals_from self market market_data [] actions = ok actions
  withdrawals_from self market market_data (d ∷ rest) actions =
      judge_deposit self market market_data d >>= λ verdict. elim verdict [
        | pass ↦ withdrawals_from self market market_data rest actions
        | stop ↦ ok []
        | act action ↦ withdrawals_from self market market_data rest (actions ++ action ∷ [])
      ]

  unfoldable pub find_withdrawal_opportunities :
      Withdrawer → String → MarketData → Obligation → Outcome (List (Action Op))
  find_withdrawal_opportunities self market market_data obligation =
      withdrawals_from self market market_data obligation.deposits []

  -- The two reads of a market, `none` where a read failed.
  module _ (read_user_obligation : String → ObligationKey → Option Obligation)
      (read_market_data : String → Option MarketData) where
    unfoldable pub scan_market : Withdrawer → String → Outcome (List (Action Op))
    scan_market self market = elim (read_user_obligation market self.liquidator_key) [
      | none ↦ ok []
      | some obligation ↦ elim (read_market_data market) [
        | none ↦ ok []
        | some market_data ↦ find_withdrawal_opportunities self market market_data obligation
      ]
    ]

    unfoldable pub scan_markets : Withdrawer → List String → Outcome (List (Action Op))
    scan_markets self [] = ok []
    scan_markets self (market ∷ rest) = do
      found ← scan_market self market
      others ← scan_markets self rest
      ok (found ++ others)

    unfoldable pub handle_new_ledger : Withdrawer → ℕ → Outcome (List (Action Op))
    handle_new_ledger self seq_num =
        let scanned = scan_markets self self.markets in
        if is_multiple_of seq_num self.refresh_interval_blocks then scanned else ok []

    unfoldable pub handle_soroban_event :
        Withdrawer → String → Option OperationEvent → Outcome (List (Action Op))
    handle_soroban_event self market decoded =
        let scanned =
          let found = scan_market self market in
          if increases_liquidity decoded then found else ok [] in
        if contains self.markets market then scanned else ok []
