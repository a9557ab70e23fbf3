-- ===== src/Execute.antt =====
-- What the strategies hand to the executor (keeper/src/execute/mod.rs and stellar_tx.rs): the action,
-- the submission and the hook that settles it.
pub mod Submit
use alula_liquidator.Prelude.{ℕ, String, Option, some, none, List, [], ◌∷◌, ◌++◌}
use alula_liquidator.Prelude.Int.{ℤ}

pub record LiquidationOutcomeMetric : Type 0 where
  pub market : String
  pub expected_net_value : ℤ

-- The hook's capital is the one that all strategies share.
pub record TransactionSettleHook : Type 0 where
  pub op_id : ℕ
  pub liquidation_outcome : Option LiquidationOutcomeMetric

pub record SubmitStellarTx (Op : Type 0) : Type 0 where
  pub op : Op
  pub signing_key : String
  pub max_submission_retries : ℕ
  pub on_settle : Option TransactionSettleHook

pub data Action (Op : Type 0) : Type 0 where
  submit_tx : SubmitStellarTx Op → Action Op

-- `if let Some(action) = ..`
abbrev pub push : {Op : Type 0} → Option (Action Op) → List (Action Op) → List (Action Op)
push none actions = actions
push (some action) actions = actions ++ action ∷ []
