-- ===== src/BadDebt.antt =====
-- The strategy that asks a market to cover bad debt
-- (keeper/src/strategy/bad_debt_request_initiator.rs). The cache of obligations, the ledger's answers and
-- the operation builder are parameters; the log lines and the metrics are left out.
pub mod Eligible
pub mod Issue
pub mod Event
use alula_liquidator.Prelude.{
  ℕ, String, Bool, true, false, Option, some, none, List, [], ◌∷◌, ◌++◌, ltb, if◌then◌else◌,
}
use alula_liquidator.Prelude.Outcome.{Outcome, ok, err, panic, m_ou, ◌>>=◌}
use alula_liquidator.Prelude.Int.{ℤ, pos, ltb_ℤ, checked_add, checked_mul, saturating_div, pow10}
use alula_liquidator.Pool.{PoolData, j_tokens_to_tokens_ceil}
use alula_liquidator.Market.{
  MarketData, Obligation, ObligationKey, DepositPosition, BorrowPosition, pool_of, is_empty,
}
use alula_liquidator.Profitability.{cents_to_oracle_value_ceil}
use alula_liquidator.Liquidation.Health.{DustRules, is_sweep}
use alula_liquidator.Liquidation.Scan.{has_acceptable_liquidation, seizable_collateral_covers_debt}
use alula_liquidator.Execute.{Action, submit_tx}
use alula_liquidator.Withdrawer.{is_multiple_of, OperationEvent, liquidate}
use alula_liquidator.Liquidation.Unpriced.{contains}

-- The configuration and the signing key.
pub record BadDebtRequestInitiator : Type 0 where
  pub skey : String
  pub max_retries : ℕ
  pub markets : List String
  pub refresh_interval_blocks : ℕ
  pub dust_rules : DustRules
  pub min_profit_margin_cents : ℤ

-- The collateral of one deposit in oracle units.
unfoldable pub deposit_value : PoolData → DepositPosition → Outcome ℤ
deposit_value pool deposit_pos = do
  underlying_from_j ← j_tokens_to_tokens_ceil pool deposit_pos.j_tokens
  total_collateral ← m_ou (checked_add underlying_from_j deposit_pos.collateral)
  product ← m_ou (checked_mul total_collateral pool.oracle_asset_price)
  unit ← pow10 pool.token_decimals
  saturating_div product unit

-- The loop over the deposits: each is in a priced pool and worth at most the threshold.
unfoldable pub all_under : MarketData → ℤ → List DepositPosition → Outcome Bool
all_under market_data threshold [] = ok true
all_under market_data threshold (deposit_pos ∷ rest) =
    let next = all_under market_data threshold rest in
    elim (pool_of market_data deposit_pos.pool_address) [
      | none ↦ ok false
      | some pool ↦ do
        value ← deposit_value pool deposit_pos
        if ltb_ℤ threshold value then ok false else next
    ]

-- What a no-dust market's rules leave to liquidation is not eligible.
unfoldable pub left_to_liquidation :
    BadDebtRequestInitiator → ℕ → Obligation → MarketData → Outcome Bool
left_to_liquidation self now obligation market_data =
    let judged = do
      covers ← seizable_collateral_covers_debt obligation market_data
      let taken = has_acceptable_liquidation obligation market_data self.min_profit_margin_cents now
      if covers then ok true else taken
    in if is_sweep self.dust_rules then ok false else judged

-- `now` is what `unix_now` answers.
unfoldable pub is_eligible_for_bad_debt_request_issuance :
    BadDebtRequestInitiator → ℕ → Obligation → MarketData → Outcome Bool
is_eligible_for_bad_debt_request_issuance self now obligation market_data =
    let weighed = do
      threshold ←
          cents_to_oracle_value_ceil market_data.min_collateral_value_cents
            market_data.oracle_price_decimals
      under ← all_under market_data threshold obligation.deposits
      let last = do
        left ← left_to_liquidation self now obligation market_data
        ok (if left then false else true)
      if under then last else ok false
    in if is_empty obligation.borrows
      then ok false
      else if ltb 0 obligation.open_bad_debt_requests
      then ok false
      else if is_empty obligation.deposits
      then ok true
      else weighed

-- An evaluation error counts as ineligible.
abbrev pub or_ineligible : Outcome Bool → Outcome Bool
or_ineligible (ok b) = ok b
or_ineligible (err e) = ok false
or_ineligible panic = panic

unfoldable pub judge_eligibility :
    BadDebtRequestInitiator → ℕ → Obligation → MarketData → Outcome Bool
judge_eligibility self now obligation market_data =
    or_ineligible (is_eligible_for_bad_debt_request_issuance self now obligation market_data)

abbrev pub is_liquidate : Option OperationEvent → Bool
is_liquidate (some liquidate) = true
is_liquidate _ = false

-- What the ledger answers for an obligation: it, that it does not exist, or another error.
pub data ObligationRead : Type 0 where
  fresh : Obligation → ObligationRead
  gone failed : ObligationRead

-- The actions, and the cached rows that were deleted.
pub record Sweep (Op : Type 0) : Type 0 where
  pub actions : List (Action Op)
  pub deleted : List (String × ObligationKey)

module _ {Op : Type 0} (cover_bad_debt_op : String → ObligationKey → Option Op) where
  unfoldable pub build_issue_bad_debt :
      BadDebtRequestInitiator → String → ObligationKey → Option (Action Op)
  build_issue_bad_debt self market obl_key = elim (cover_bad_debt_op market obl_key) [
    | none ↦ none
    | some op ↦ some (
        submit_tx (record {
          op = op;
          signing_key = self.skey;
          max_submission_retries = self.max_retries;
          on_settle = none;
        }))
  ]

  abbrev pub push_action : Option (Action Op) → Sweep Op → Sweep Op
  push_action none s = s
  push_action (some action) s = record { actions = s.actions ++ action ∷ []; deleted = s.deleted }

  -- What follows the first verdict: the obligation is read again and judged again.
  unfoldable pub recheck :
      BadDebtRequestInitiator
      → ℕ
      → String
      → MarketData
      → ObligationKey
      → ObligationRead
      → Sweep Op
      → Outcome (Sweep Op)
  recheck self now market market_data key (fresh obligation) s = do
    eligible ← judge_eligibility self now obligation market_data
    ok (if eligible then push_action (build_issue_bad_debt self market key) s else s)
  recheck self now market market_data key gone s =
      ok (record { actions = s.actions; deleted = (market, key) ∷ s.deleted })
  recheck self now market market_data key failed s = ok s

  -- `now` and `later` are the clock at the two verdicts on an obligation.
  module _ (now later : ObligationKey → ℕ)
      (read_user_obligation : String → ObligationKey → ObligationRead) where
    unfoldable pub sweep_obligation :
        BadDebtRequestInitiator
        → String
        → MarketData
        → ObligationKey
        → Obligation
        → Sweep Op
        → Outcome (Sweep Op)
    sweep_obligation self market market_data key cached s = do
      eligible ← judge_eligibility self (now key) cached market_data
      let next = recheck self (later key) market market_data key (read_user_obligation market key) s
      if eligible then next else ok s

    unfoldable pub sweep_obligations :
        BadDebtRequestInitiator
        → String
        → MarketData
        → List (ObligationKey × Obligation)
        → Sweep Op
        → Outcome (Sweep Op)
    sweep_obligations self market market_data [] s = ok s
    sweep_obligations self market market_data ((key, cached) ∷ rest) s =
        sweep_obligation self market market_data key cached s >>= λ t.
        sweep_obligations self market market_data rest t

    -- `load_all` answers for a market after the rows named so far were deleted; `none` is a failed read.
    unfoldable pub sweep_market :
        (List (String × ObligationKey) → String → Option (List (ObligationKey × Obligation)))
        → (String → Option MarketData)
        → BadDebtRequestInitiator
        → String
        → Sweep Op
        → Outcome (Sweep Op)
    sweep_market load_all read_market_data self market s = elim (load_all s.deleted market) [
      | none ↦ ok s
      | some loaded ↦ elim (read_market_data market) [
        | none ↦ ok s
        | some market_data ↦ sweep_obligations self market market_data loaded s
      ]
    ]

    unfoldable pub sweep_markets :
        (List (String × ObligationKey) → String → Option (List (ObligationKey × Obligation)))
        → (String → Option MarketData)
        → BadDebtRequestInitiator
        → List String
        → Sweep Op
        → Outcome (Sweep Op)
    sweep_markets load_all read_market_data self [] s = ok s
    sweep_markets load_all read_market_data self (market ∷ rest) s =
        sweep_market load_all read_market_data self market s >>= λ t.
        sweep_markets load_all read_market_data self rest t

    unfoldable pub request_on_new_ledger :
        (List (String × ObligationKey) → String → Option (List (ObligationKey × Obligation)))
        → (String → Option MarketData)
        → BadDebtRequestInitiator
        → ℕ
        → Outcome (Sweep Op)
    request_on_new_ledger load_all read_market_data self seq_num =
        let swept =
          sweep_markets load_all read_market_data self self.markets
            (record { actions = []; deleted = [] }) in
        if is_multiple_of seq_num self.refresh_interval_blocks
        then swept
        else ok (record { actions = []; deleted = [] })

  abbrev pub as_list : Option (Action Op) → List (Action Op)
  as_list none = []
  as_list (some action) = action ∷ []

  -- The event's borrower key and obligation, as far as they parse; `some none` is a removed obligation.
  unfoldable pub request_for :
      BadDebtRequestInitiator
      → ℕ
      → String
      → Option ObligationKey
      → Option (Option Obligation)
      → Option MarketData
      → Outcome (List (Action Op))
  request_for self now market (some key) (some (some obligation)) (some market_data) = do
    eligible ← judge_eligibility self now obligation market_data
    ok (if eligible then as_list (build_issue_bad_debt self market key) else [])
  request_for self now market _ _ _ = ok []

  unfoldable pub request_on_event :
      BadDebtRequestInitiator
      → ℕ
      → String
      → Option OperationEvent
      → Option ObligationKey
      → Option (Option Obligation)
      → Option MarketData
      → Outcome (List (Action Op))
  request_on_event self now market decoded key obligation market_data =
      let requested = request_for self now market key obligation market_data in
      let liquidated = if is_liquidate decoded then requested else ok [] in
      if contains self.markets market then liquidated else ok []
