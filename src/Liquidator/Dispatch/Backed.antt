-- ===== src/Liquidator/Dispatch/Backed.antt =====
-- What a dispatched plan has behind it (`execute_liquidation_plan` of liquidator.rs).
use alula_liquidator.Gateway.{BatchSimulation, passed, failed, Gateway}
use alula_liquidator.World.{release_now}
use alula_liquidator.Prelude.{ℕ, ◌≡◌, refl, sym, subst, ◌∙◌, String, true, Option, some, none, List}
use alula_liquidator.Prelude.Int.{ℤ, pos, ltb_ℤ}
use alula_liquidator.Market.{ObligationKey}
use alula_liquidator.Capital.Ledger.{IsValid}
use alula_liquidator.Execute.{Action}
use alula_liquidator.World.{
  Surroundings, World, Run, value, waited, given, await, attempt, get_balance,
}
use alula_liquidator.World.Reserved.{
  KeepsValid, get_balance-IsValid, IsBacked, reserve_now-IsBacked,
}
use alula_liquidator.World.Laws.{Ends, then-elim, given-eq-value, pure-eq-value, attempt-eq-some}
use alula_liquidator.Liquidator.{LiquidatorConfig, LiquidationPlan}
use alula_liquidator.Liquidator.Plans.{usable}
use alula_liquidator.Liquidator.Dispatch.{
  other, Dispatch, dispatched, undispatched, reserve_of, build_batch_requests, acquire, submission,
  hand_over, after_simulation, try_dispatch, execute_liquidation_plan,
}

acquire-IsBacked :
    {Op : Type 0} {Request : Type 0} (gateway : Gateway Op Request) (env : Surroundings)
    (config : LiquidatorConfig) (skey token : String) (amount : ℤ) (w : World) (id : ℕ) (w' : World)
    → KeepsValid env
    → IsValid w.inner
    → acquire gateway env config skey (token, amount) w ≡ value id w'
    → ltb_ℤ (pos 0) amount ≡ true
    → IsBacked env (usable config token) token amount w id w'
unfolding acquire
acquire-IsBacked gateway env config skey token amount w id w' keeps valid h spends =
    then-elim (get_balance env token) _ (rw spends at h) λ answer u read h₁.
      then-elim (given answer) _ h₁ λ raw_balance v g h₂.
        let there = given-eq-value answer g in
        let valid_u : IsValid u.inner =
          subst (Ends (λ _ x. IsValid x.inner) (λ x. IsValid x.inner)) read
            (get_balance-IsValid env keeps token w valid) in
        reserve_now-IsBacked env (usable config token) token amount raw_balance w v v
          (subst (λ z. get_balance env token w ≡ value z v) there.0
            (subst (λ z. get_balance env token w ≡ value answer z) there.1 read))
          (subst (λ (z : World). IsValid z.inner) there.1 valid_u) id w' h₂

-- What a dispatched plan went through, from `start` on.
pub record IsDispatched {Op : Type 0} {Request : Type 0} (gateway : Gateway Op Request)
    (env : Surroundings) (config : LiquidatorConfig) (skey market : String) (plan : LiquidationPlan)
    (key : ObligationKey) (action : Action Op) (start w : World) : Type 0 where
  pub requests : List Request
  pub built : build_batch_requests gateway plan ≡ some requests
  pub simulated : gateway.simulate_batch start.tick market key requests ≡ some passed
  pub op : Op
  pub operation : gateway.batch_op market key requests ≡ some op
  pub op_id : ℕ
  pub submitted : action ≡ submission gateway env config skey market plan op_id op
  backed :
      ltb_ℤ (pos 0) (reserve_of plan plan.liquidation_type).1 ≡ true
      → IsBacked env
          (usable config (reserve_of plan plan.liquidation_type).0)
          (reserve_of plan plan.liquidation_type).0
          (reserve_of plan plan.liquidation_type).1
          (waited env start)
          op_id
          w

dispatched-injective : {Op : Type 0} {a b : Action Op} → dispatched a ≡ dispatched b → a ≡ b
dispatched-injective h = cc

module _ {Op : Type 0} {Request : Type 0} (gateway : Gateway Op Request) (env : Surroundings)
    (config : LiquidatorConfig) (skey market : String) (plan : LiquidationPlan)
    (key : ObligationKey) (keeps : KeepsValid env) where
  after_simulation-IsDispatched :
      (requests : List Request) (start : World) (simulation : BatchSimulation) (w : World)
      (action : Action Op) (w' : World)
      → build_batch_requests gateway plan ≡ some requests
      → gateway.simulate_batch start.tick market key requests ≡ some simulation
      → waited env start ≡ w
      → IsValid w.inner
      → after_simulation gateway env config skey market plan key requests simulation w
        ≡ value (dispatched action) w'
      → IsDispatched gateway env config skey market plan key action start w'
  unfolding after_simulation hand_over release_now
  after_simulation-IsDispatched requests start (failed code) w action w' b s at v h = cc
  after_simulation-IsDispatched requests start passed w action w' b s at v h =
      let r = reserve_of plan plan.liquidation_type in
      then-elim (acquire gateway env config skey r) _ h
        λ op_id u a h₁. split op_id u a (gateway.batch_op market key requests) refl h₁
    where
      split :
          (op_id : ℕ) (u : World)
          → acquire gateway env config skey (reserve_of plan plan.liquidation_type) w
            ≡ value op_id u
          → (built : Option Op) → gateway.batch_op market key requests ≡ built
          → hand_over gateway env config skey market plan op_id built u
            ≡ value (dispatched action) w'
          → IsDispatched gateway env config skey market plan key action start w'
      split op_id u a none o q = cc
      split op_id u a (some op) o q =
          let same : submission gateway env config skey market plan op_id op ≡ action =
            dispatched-injective ((pure-eq-value q).0) in
          let place : u ≡ w' = (pure-eq-value q).1 in
          record {
            requests = requests;
            built = b;
            simulated = s;
            op = op;
            operation = o;
            op_id = op_id;
            submitted = sym same;
            backed = λ spends.
                subst
                  (λ (z : World).
                    IsBacked env (usable config (reserve_of plan plan.liquidation_type).0)
                      (reserve_of plan plan.liquidation_type).0
                      (reserve_of plan plan.liquidation_type).1 z op_id w')
                  (sym at)
                  (acquire-IsBacked gateway env config skey
                    (reserve_of plan plan.liquidation_type).0
                    (reserve_of plan plan.liquidation_type).1 w op_id w' keeps v
                    (subst
                      (λ z.
                        acquire gateway env config skey (reserve_of plan plan.liquidation_type) w
                        ≡ value op_id z)
                      place a)
                    spends);
          }

  try_dispatch-IsDispatched :
      (w : World) (action : Action Op) (w' : World)
      → IsValid w.inner
      → try_dispatch gateway env config skey market plan key w ≡ value (dispatched action) w'
      → IsDispatched gateway env config skey market plan key action w w'
  unfolding try_dispatch await
  try_dispatch-IsDispatched w action w' v h =
      then-elim (given (build_batch_requests gateway plan)) _ h λ requests u g h₁.
        let b = given-eq-value (build_batch_requests gateway plan) g in
        then-elim (given (gateway.simulate_batch u.tick market key requests)) _ h₁
          λ simulation x s h₂.
            let t = given-eq-value (gateway.simulate_batch u.tick market key requests) s in
            after_simulation-IsDispatched requests w simulation x action w' b.0
              (subst
                (λ (z : World). gateway.simulate_batch z.tick market key requests ≡ some simulation)
                (sym b.1) t.0)
              (subst (λ (z : World). waited env z ≡ x) (sym b.1) t.1)
              (subst (λ (z : World). IsValid z.inner) t.1
                (keeps u.tick u.inner (subst (λ (z : World). IsValid z.inner) b.1 v)))
              h₂

-- Whatever is handed to the executor has passed the run's simulation, the first thing that the run asks,
-- of the very requests that its operation is built from, and carries the plan's net profit in its settle
-- hook. Where the plan spends from the wallet, the amount stands reserved under the hook's id, and all
-- that is then reserved of that token is within the usable part of the balance that `try_get_balance`
-- answers when it is called right after that simulation, when this part is below `i128::MAX`. The
-- reservations are valid at the start, and the other tasks keep them valid.
pub execute_liquidation_plan-IsDispatched :
    {Op : Type 0} {Request : Type 0} (gateway : Gateway Op Request) (env : Surroundings)
    (config : LiquidatorConfig) (skey market : String) (plan : LiquidationPlan)
    (key : ObligationKey) (w : World) (action : Action Op) (w' : World)
    → KeepsValid env
    → IsValid w.inner
    → execute_liquidation_plan gateway env config skey market plan key w
      ≡ value (dispatched action) w'
    → IsDispatched gateway env config skey market plan key action w w'
unfolding execute_liquidation_plan
execute_liquidation_plan-IsDispatched {Op} gateway env config skey market plan key w action w' keeps
      v h =
    then-elim (attempt (try_dispatch gateway env config skey market plan key)) _ h λ result u a q.
      try_dispatch-IsDispatched gateway env config skey market plan key keeps w action w' v (
        attempt-eq-some (try_dispatch gateway env config skey market plan key)
          (returned result u a q))
  where
    returned :
        (result : Option (Dispatch Op)) (u : World)
        → attempt (try_dispatch gateway env config skey market plan key) w ≡ value result u
        → ◌≡◌ {A = Run (Dispatch Op)}
            (value (elim result [ none ↦ undispatched other | some d ↦ d ]) u)
            (value (dispatched action) w')
        → attempt (try_dispatch gateway env config skey market plan key) w
          ≡ value (some (dispatched action)) w'
    returned none u a q = cc
    returned (some d) u a q = a ∙ cc
