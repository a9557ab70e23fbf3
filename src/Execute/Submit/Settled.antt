-- ===== src/Execute/Submit/Settled.antt =====
-- Every submission ends and frees its reservation (`execute` and `spawn_confirmation_poll` of
-- stellar_tx.rs).
use alula_liquidator.Prelude.{
  ℕ, zero, suc, ◌+◌, ◌≡◌, ◌≤◌, refl, sym, subst, Bool, true, false, Option, some, none, Bool-cases,
  inl, inr, leb, arith, String, if◌then◌else◌,
}
use alula_liquidator.Prelude.Int.{ℤ}
use alula_liquidator.Capital.{release}
use alula_liquidator.Capital.Ledger.{Free, remove_frees}
use alula_liquidator.Execute.{TransactionSettleHook, SubmitStellarTx}
use alula_liquidator.World.{Surroundings, World, Run, M, pure, await, waited, release_now, ◌>>◌}
use alula_liquidator.World.Laws.{Reaches, then-Reaches}
use alula_liquidator.Execute.Submit.{
  Sending, sent, no_simulation_results, refused, Rpc, next_seq_num, SubmitOutcome, sim_empty,
  seq_fetch_failed, retry_exhausted, success, Execution, polling, settled, release_hook, paused,
  after_sending, after_account, submit_from, after_submission, execute, spawn_confirmation_poll,
}

-- No reservation stands under the hook's id.
abbrev IsFreed : TransactionSettleHook → World → Type 0
IsFreed hook w = Free hook.op_id w.inner.reservations

abbrev Returns : {A : Type 0} → Run A → Type 0
Returns r = Reaches (λ _ _. Unit) r

last_or_again :
    (is_last : Bool) (outcome : SubmitOutcome) (again : M SubmitOutcome) (w : World)
    → (is_last ≡ false → Returns (again w))
    → Returns ((if is_last then pure outcome else again) w)
last_or_again true outcome again w h = tt
last_or_again false outcome again w h = h refl

module _ {Op : Type 0} (env : Surroundings) (rpc : Rpc Op) (tx : SubmitStellarTx Op) where
  after_sending-Returns :
      (is_last : Bool) (again : M SubmitOutcome) (sending : Sending) (w : World)
      → (is_last ≡ false → Returns (again w))
      → Returns (after_sending env rpc tx is_last again sending w)
  unfolding after_sending
  after_sending-Returns is_last again (sent hash) w h = tt
  after_sending-Returns is_last again no_simulation_results w h = tt
  after_sending-Returns is_last again refused w h = last_or_again is_last retry_exhausted again w h

  after_account-Returns :
      (is_last : Bool) (again : M SubmitOutcome) (account : Option ℤ) (w : World)
      → ((u : World) → is_last ≡ false → Returns (again u))
      → Returns (after_account env rpc tx is_last again account w)
  unfolding after_account await
  after_account-Returns is_last again none w h =
      last_or_again is_last seq_fetch_failed again w (h w)
  after_account-Returns is_last again (some seq_num) w h =
      after_sending-Returns is_last again (rpc.build_and_send w.tick (next_seq_num seq_num) tx)
        (waited env w) (h (waited env w))

  -- Enough fuel is left for the attempts that are left.
  submit_from-Returns :
      (fuel attempt : ℕ) (w : World)
      → 1 ≤ fuel
      → tx.max_submission_retries + 1 ≤ fuel + attempt
      → Returns (submit_from env rpc tx fuel attempt w)
  unfolding submit_from paused await
  submit_from-Returns zero attempt w h k = absurd (omega (arith, h))
  submit_from-Returns (suc fuel) attempt w h k =
      after_account-Returns (leb tx.max_submission_retries attempt) _ (rpc.get_account w.tick)
        (waited env w)
        λ u more.
          let before : attempt + 1 ≤ tx.max_submission_retries = ground (arith, more) in
          submit_from-Returns fuel (suc attempt) (waited env u) (omega (arith, k, before))
            (omega (arith, k))

-- What holds when a submission has ended: a settled one has freed its reservation, and of one that is
-- polled the poll returns and frees it, whenever it runs.
abbrev pub IsSettling :
    {Op : Type 0} → Surroundings → Rpc Op → TransactionSettleHook → Execution → World → Type 0
IsSettling env rpc hook (settled succeeded) w = IsFreed hook w
IsSettling env rpc hook (polling hash) w =
    (later : World)
    → Reaches (λ _ u. IsFreed hook u) (spawn_confirmation_poll env rpc hash (some hook) later)

release-IsFreed :
    (hook : TransactionSettleHook) (w : World)
    → Reaches (λ _ u. IsFreed hook u) (release_hook (some hook) w)
unfolding release_hook release_now release
release-IsFreed hook w = remove_frees hook.op_id w.inner.reservations

poll-IsFreed :
    {Op : Type 0} (env : Surroundings) (rpc : Rpc Op) (hash : String) (hook : TransactionSettleHook)
    (w : World)
    → Reaches (λ _ u. IsFreed hook u) (spawn_confirmation_poll env rpc hash (some hook) w)
unfolding spawn_confirmation_poll await release_hook release_now release
poll-IsFreed env rpc hash hook w = elim (Bool-cases (rpc.is_hash hash)) [
  | inl e ↦ rw e (release-IsFreed hook (waited env w))
  | inr e ↦ rw e (release-IsFreed hook w)
]

-- Every submission with a hook ends and gives its capital back, whatever the remote client answers:
-- `execute` returns within its attempts, and then no reservation stands under the hook's id, or a poll
-- was spawned that returns, whenever it runs, with no reservation under that id.
pub execute-IsSettling :
    {Op : Type 0} (env : Surroundings) (rpc : Rpc Op) (tx : SubmitStellarTx Op)
    (hook : TransactionSettleHook) (w : World)
    → tx.on_settle ≡ some hook
    → Reaches (IsSettling env rpc hook) (execute env rpc tx w)
unfolding execute after_submission
execute-IsSettling env rpc tx hook w hooked =
    then-Reaches (submit_from env rpc tx (suc tx.max_submission_retries) 1) _ w (λ _ _. Unit)
      (IsSettling env rpc hook)
      (submit_from-Returns env rpc tx (suc tx.max_submission_retries) 1 w (omega arith)
        (omega arith))
      λ outcome u _. ends outcome u
  where
    freed :
        (succeeded : Bool) (u : World)
        → Reaches
            (IsSettling env rpc hook)
            ((release_hook tx.on_settle >> pure (settled succeeded)) u)
    freed succeeded u =
        subst
          (λ z. Reaches (IsSettling env rpc hook) ((release_hook z >> pure (settled succeeded)) u))
          (sym hooked)
          (then-Reaches (release_hook (some hook)) _ u (λ _ x. IsFreed hook x)
            (IsSettling env rpc hook) (release-IsFreed hook u) λ _ x k. k)

    ends :
        (outcome : SubmitOutcome) (u : World)
        → Reaches (IsSettling env rpc hook) (after_submission env rpc tx outcome u)
    ends (success hash) u = λ later. poll-IsFreed env rpc hash hook later
    ends sim_empty u = freed true u
    ends seq_fetch_failed u = freed false u
    ends retry_exhausted u = freed false u
