-- ===== src/Execute/Submit.antt =====
-- The executor (keeper/src/execute/stellar_tx.rs): the attempts to send a transaction, the poll for its
-- confirmation, and the release of the reserved capital at the end. `build_and_send` and the remote
-- client are parameters, as the encodings, the simulation and the signature are calls of libraries.
pub mod Settled
use alula_liquidator.Prelude.{
  ℕ, zero, suc, ◌-◌, ◌^◌, String, Bool, true, false, Option, some, none, leb, if◌then◌else◌,
}
use alula_liquidator.Prelude.Int.{ℤ, pos, ◌+ℤ◌, min_ℤ}
use alula_liquidator.Execute.{LiquidationOutcomeMetric, TransactionSettleHook, SubmitStellarTx}
use alula_liquidator.World.{
  Surroundings, World, Run, panics, M, pure, await, release_now, ◌>>=◌, ◌>>◌,
}

-- How one attempt to build and send ended: the errors that `is_no_simulation_results_error` accepts
-- stand apart.
pub data Sending : Type 0 where
  sent : (hash : String) → Sending
  no_simulation_results refused : Sending

-- The remote client, by the number of the question; `none` and `false` are errors of it.
pub record Rpc (Op : Type 0) : Type 0 where
  pub get_account : ℕ → Option ℤ
  pub build_and_send : ℕ → (seq_num : ℤ) → SubmitStellarTx Op → Sending
  pub get_transaction_polling : ℕ → (hash : String) → Bool
  pub is_hash : String → Bool

-- `account.seq_num.0.saturating_add(1)` on `i64`
unfoldable pub next_seq_num : ℤ → ℤ
next_seq_num seq_num = min_ℤ (seq_num +ℤ pos 1) (pos (2 ^ 63 - 1))

pub data SubmitOutcome : Type 0 where
  sim_empty seq_fetch_failed retry_exhausted : SubmitOutcome
  success : (hash : String) → SubmitOutcome

-- What `execute` leaves: a poll that it spawned, or a settled submission with its result.
pub data Execution : Type 0 where
  polling : (hash : String) → Execution
  settled : (succeeded : Bool) → Execution

-- `TransactionSettleHook::release`, where there is a hook.
unfoldable pub release_hook : Option TransactionSettleHook → M (Unit {0})
release_hook none = pure tt
release_hook (some hook) = release_now hook.op_id

module _ {Op : Type 0} (env : Surroundings) (rpc : Rpc Op) (tx : SubmitStellarTx Op) where
  -- The backoff: the other tasks go on.
  unfoldable pub paused : M (Unit {0})
  paused = await env (λ n. tt)

  -- What an attempt makes of its sending; `again` is the rest of the loop.
  unfoldable pub after_sending : Bool → M SubmitOutcome → Sending → M SubmitOutcome
  after_sending is_last again (sent hash) = pure (success hash)
  after_sending is_last again no_simulation_results = pure sim_empty
  after_sending is_last again refused = if is_last then pure retry_exhausted else again

  unfoldable pub after_account : Bool → M SubmitOutcome → Option ℤ → M SubmitOutcome
  after_account is_last again none = if is_last then pure seq_fetch_failed else again
  after_account is_last again (some seq_num) =
      await env (λ n. rpc.build_and_send n (next_seq_num seq_num) tx) >>= λ sending.
      after_sending is_last again sending

  -- The loop from an attempt on; running out of fuel is a panic.
  unfoldable pub submit_from : ℕ → (attempt : ℕ) → M SubmitOutcome
  submit_from zero attempt w = panics
  submit_from (suc fuel) attempt w =
      let again = paused >> submit_from fuel (suc attempt) in
      (await env (λ n. rpc.get_account n) >>= λ account.
      after_account (leb tx.max_submission_retries attempt) again account)
        w

  unfoldable pub after_submission : SubmitOutcome → M Execution
  after_submission (success hash) = pure (polling hash)
  after_submission sim_empty = release_hook tx.on_settle >> pure (settled true)
  after_submission seq_fetch_failed = release_hook tx.on_settle >> pure (settled false)
  after_submission retry_exhausted = release_hook tx.on_settle >> pure (settled false)

  -- There are at most as many attempts as retries, and one.
  unfoldable pub execute : M Execution
  execute = submit_from (suc tx.max_submission_retries) 1 >>= λ outcome. after_submission outcome

-- The profit that a confirmed liquidation records.
abbrev pub realised : Bool → Option TransactionSettleHook → Option LiquidationOutcomeMetric
realised true (some hook) = hook.liquidation_outcome
realised _ _ = none

-- The detached task, with the profit that it records.
unfoldable pub spawn_confirmation_poll :
    {Op : Type 0}
    → Surroundings
    → Rpc Op
    → String
    → Option TransactionSettleHook
    → M (Option LiquidationOutcomeMetric)
spawn_confirmation_poll env rpc hash on_settle =
    let polled = do
      confirmed ← await env (λ n. rpc.get_transaction_polling n hash)
      release_hook on_settle >> pure (realised confirmed on_settle)
    in let undecoded = release_hook on_settle >> pure none in
      if rpc.is_hash hash then polled else undecoded
