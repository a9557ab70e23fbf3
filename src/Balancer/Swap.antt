-- ===== src/Balancer/Swap.antt =====
-- What a swap that the balancer submits has behind it (`evaluate_rebalancable_candidate` of
-- balancer.rs).
use alula_liquidator.Prelude.{
  ℕ, not, ◌≡◌, sym, subst, ◌∙◌, String, true, Option, some, none, [], ◌∷◌, arith,
}
use alula_liquidator.Prelude.Outcome.{ok}
use alula_liquidator.Prelude.Int.{
  ℤ, pos, ◌*ℤ◌, ◌≤ℤ◌, ltb_ℤ, plain, plain_div, plain_sub, saturating_mul, pow10,
}
use alula_liquidator.Capital.Ledger.{IsValid}
use alula_liquidator.Maps.{lookup}
use alula_liquidator.Execute.{Action}
use alula_liquidator.Gateway.{Gateway}
use alula_liquidator.World.{
  Surroundings, World, value, guard, dropping, given, get_balance, reserve_now,
}
use alula_liquidator.World.Laws.{
  Ends, then-elim, given-eq-value, dropping-eq-value, guard-eq-value, pure-eq-value,
}
use alula_liquidator.World.Reserved.{
  KeepsValid, get_balance-IsValid, IsBacked, reserve_now-IsBacked,
}
use alula_liquidator.Balancer.Value.{AssetInfo, compute_value_cents}
use alula_liquidator.Amount.{bps_factor}
use alula_liquidator.Balancer.Probing.{IsAdmitted, GoodOr, best_provider_from-IsAdmitted}
use alula_liquidator.Balancer.{
  Balancer, Probe, expect, best_provider_from, swappable_of, min_amount_out_of, swap_action,
  submit_swap, evaluate_rebalancable_candidate,
}

-- What `swap_exact_tokens_request` asks for and what the executor is given.
pub record IsSubmitted {Op : Type 0} {Request : Type 0} (gateway : Gateway Op Request)
    (env : Surroundings) (self : Balancer) (target candidate provider : String) (probe : Probe)
    (action : Action Op) (start w : World) : Type 0 where
  pub info : AssetInfo
  pub known : lookup candidate self.asset_index ≡ some info
  pub cents : ℤ
  pub worth : compute_value_cents probe.amount_in info ≡ ok cents
  pub above_dust : self.config.min_swap_amount_value_cents ≤ℤ cents
  pub least_out : ℤ
  pub kept_bps : ℤ
  pub kept_is : plain_sub bps_factor self.config.allowed_swap_slippage_bps ≡ ok kept_bps
  pub least_is : plain_div (saturating_mul probe.amount_out kept_bps) bps_factor ≡ ok least_out
  pub request : Request
  pub requested :
      gateway.swap_exact_tokens_request provider probe.amount_in least_out candidate target
      ≡ some request
  pub op : Op
  pub operation : gateway.batch_op self.config.market self.liquidator_key (request ∷ []) ≡ some op
  pub op_id : ℕ
  pub submitted : action ≡ swap_action env self gateway op op_id
  pub backed :
      IsBacked env (swappable_of env self candidate) candidate probe.amount_in start op_id w

-- What a submitted swap has behind it.
pub record IsSwap {Op : Type 0} {Request : Type 0} (gateway : Gateway Op Request)
    (env : Surroundings) (self : Balancer) (target candidate : String) (oracle_decimals : ℕ)
    (target_oracle_price candidate_oracle_price : ℤ) (action : Action Op) (start w : World)
    : Type 0 where
  pub raw_balance : ℤ
  pub answered : World
  pub read : get_balance env candidate start ≡ value (some raw_balance) answered
  pub oracle_scale : ℤ
  pub scale_is : pow10 oracle_decimals ≡ ok oracle_scale
  pub scaled : ℤ
  pub scaled_is : plain (candidate_oracle_price *ℤ oracle_scale) ≡ ok scaled
  pub oracle_price : ℤ
  pub price_is : plain_div scaled target_oracle_price ≡ ok oracle_price
  pub provider : String
  pub probe : Probe
  pub admitted :
      IsAdmitted env self candidate target oracle_price oracle_decimals
        (swappable_of env self candidate raw_balance)
        provider
        probe
  pub submission : IsSubmitted gateway env self target candidate provider probe action start w

expect-value :
    {A : Type 0} (o : Option A) (a : A) (w u : World)
    → expect o w ≡ value a u
    → (o ≡ some a) × (w ≡ u)
expect-value none a w u h = cc
expect-value (some x) a w u h = (cc, cc)

not_below : (a b : ℤ) → not (ltb_ℤ a b) ≡ true → b ≤ℤ a
not_below a b h = ground (arith, h)

min_amount_out_of-value :
    (env : Surroundings) (self : Balancer) (amount_out least : ℤ) (w u : World)
    → min_amount_out_of env self amount_out w ≡ value least u
    → (kept : ℤ) × (plain_sub bps_factor self.config.allowed_swap_slippage_bps ≡ ok kept)
      × (plain_div (saturating_mul amount_out kept) bps_factor ≡ ok least)
      × (w ≡ u)
unfolding min_amount_out_of
min_amount_out_of-value env self amount_out least w u h =
    then-elim (dropping (plain_sub bps_factor self.config.allowed_swap_slippage_bps)) _ h
      λ kept x e k.
        let d = dropping-eq-value _ e in
        let q = dropping-eq-value _ k in (kept, d.0, q.0, d.1 ∙ q.1)

submit_swap-IsSubmitted :
    {Op : Type 0} {Request : Type 0} (gateway : Gateway Op Request) (env : Surroundings)
    (self : Balancer) (target candidate provider : String) (probe : Probe) (raw_balance : ℤ)
    (before answered w : World) (action : Action Op) (w' : World)
    → get_balance env candidate before ≡ value (some raw_balance) answered
    → IsValid w.inner
    → submit_swap env self gateway target candidate
        (swappable_of env self candidate raw_balance)
        (provider, probe)
        w
      ≡ value action w'
    → IsSubmitted gateway env self target candidate provider probe action before w'
unfolding submit_swap
submit_swap-IsSubmitted gateway env self target candidate provider probe raw_balance before answered
      w action w' read v h =
    then-elim (expect (lookup candidate self.asset_index)) _ h λ info u₁ r₁ h₁.
      then-elim (dropping (compute_value_cents probe.amount_in info)) _ h₁ λ cents u₂ r₂ h₂.
        then-elim (guard (not (ltb_ℤ cents self.config.min_swap_amount_value_cents))) _ h₂
          λ _ u₃ r₃ h₃.
            then-elim (min_amount_out_of env self probe.amount_out) _ h₃ λ least_out u₄ r₄ h₄.
              then-elim
                (given (
                  gateway.swap_exact_tokens_request provider probe.amount_in least_out candidate
                    target))
                _ h₄
                λ request u₅ r₅ h₅.
                  then-elim
                    (given (gateway.batch_op self.config.market self.liquidator_key (request ∷ [])))
                    _ h₅
                    λ op u₆ r₆ h₆.
                      then-elim
                        (reserve_now env probe.amount_in
                          (swappable_of env self candidate raw_balance) candidate)
                        _ h₆
                        λ op_id u₇ r₇ h₇.
                          let q₁ = expect-value (lookup candidate self.asset_index) info w u₁ r₁ in
                          let q₂ =
                            dropping-eq-value (compute_value_cents probe.amount_in info) r₂ in
                          let q₃ =
                            guard-eq-value
                              (not (ltb_ℤ cents self.config.min_swap_amount_value_cents)) r₃ in
                          let q₄ =
                            min_amount_out_of-value env self probe.amount_out least_out u₃ u₄ r₄ in
                          let q₅ =
                            given-eq-value
                              (gateway.swap_exact_tokens_request provider probe.amount_in least_out
                                candidate target)
                              r₅ in
                          let q₆ =
                            given-eq-value
                              (gateway.batch_op self.config.market self.liquidator_key
                                (request ∷ []))
                              r₆ in
                          let moved : w ≡ u₆ = q₁.1 ∙ q₂.1 ∙ q₃.1 ∙ q₄.3 ∙ q₅.1 ∙ q₆.1 in
                          let last = pure-eq-value h₇ in
                          record {
                            info = info;
                            known = q₁.0;
                            cents = cents;
                            worth = q₂.0;
                            above_dust =
                                not_below cents self.config.min_swap_amount_value_cents q₃.0;
                            least_out = least_out;
                            kept_bps = q₄.0;
                            kept_is = q₄.1;
                            least_is = q₄.2;
                            request = request;
                            requested = q₅.0;
                            op = op;
                            operation = q₆.0;
                            op_id = op_id;
                            submitted = sym last.0;
                            backed =
                                subst
                                  (IsBacked env (swappable_of env self candidate) candidate
                                    probe.amount_in before op_id)
                                  last.1
                                  (reserve_now-IsBacked env (swappable_of env self candidate)
                                    candidate probe.amount_in raw_balance before answered u₆ read
                                    (subst (λ (z : World). IsValid z.inner) moved v) op_id u₇ r₇);
                          }

-- Every swap that the balancer submits for a candidate was quoted by the provider it names for just the
-- amount it swaps, which is positive, at most the usable part of the balance that was read, and worth the
-- configured minimum; against the oracle's price of the two assets the quote loses at most the
-- configured part; and the amount stands reserved under the hook's id, with all that is reserved of the
-- asset within the usable part of that same balance, the one that `try_get_balance` answers at the
-- start, when that part is below `i128::MAX`. The reservations are valid at the start, and the other
-- tasks keep them valid.
pub evaluate_rebalancable_candidate-IsSwap :
    {Op : Type 0} {Request : Type 0} (gateway : Gateway Op Request) (env : Surroundings)
    (self : Balancer) (target candidate : String) (oracle_decimals : ℕ)
    (target_oracle_price candidate_oracle_price : ℤ) (w : World) (action : Action Op) (w' : World)
    → KeepsValid env
    → IsValid w.inner
    → evaluate_rebalancable_candidate env self gateway target candidate oracle_decimals
        target_oracle_price candidate_oracle_price w
      ≡ value action w'
    → IsSwap gateway env self target candidate oracle_decimals target_oracle_price
        candidate_oracle_price action w w'
unfolding evaluate_rebalancable_candidate
evaluate_rebalancable_candidate-IsSwap gateway env self target candidate oracle_decimals
      target_oracle_price candidate_oracle_price w action w' keeps v h =
    then-elim (get_balance env candidate) _ h λ answer u₁ r₁ h₁.
      then-elim (given answer) _ h₁ λ raw_balance u₂ r₂ h₂.
        let g = given-eq-value answer r₂ in
        let swappable = swappable_of env self candidate raw_balance in
        let read : get_balance env candidate w ≡ value (some raw_balance) u₁ =
          subst (λ z. get_balance env candidate w ≡ value z u₁) g.0 r₁ in
        let valid₁ : IsValid u₁.inner =
          subst (Ends (λ _ x. IsValid x.inner) (λ x. IsValid x.inner)) r₁
            (get_balance-IsValid env keeps candidate w v) in
        then-elim (guard (ltb_ℤ (pos 0) swappable)) _ h₂ λ _ u₃ r₃ h₃.
          then-elim (guard (ltb_ℤ (pos 0) target_oracle_price)) _ h₃ λ _ u₄ r₄ h₄.
            then-elim (dropping (pow10 oracle_decimals)) _ h₄ λ oracle_scale u₅ r₅ h₅.
              then-elim (dropping (plain (candidate_oracle_price *ℤ oracle_scale))) _ h₅
                λ scaled u₆ r₆ h₆.
                  then-elim (dropping (plain_div scaled target_oracle_price)) _ h₆
                    λ oracle_price u₇ r₇ h₇.
                      let moved : u₁ ≡ u₇ =
                        g.1
                        ∙ (guard-eq-value _ r₃).1
                        ∙ (guard-eq-value _ r₄).1
                        ∙ (dropping-eq-value _ r₅).1
                        ∙ (dropping-eq-value _ r₆).1
                        ∙ (dropping-eq-value _ r₇).1 in
                      then-elim
                        (best_provider_from env self candidate target oracle_price oracle_decimals
                          swappable self.config.swap_providers none)
                        _ h₇
                        λ best u₈ r₈ h₈.
                          let good =
                            subst
                              (Ends
                                (λ chosen u.
                                  GoodOr env self keeps candidate target oracle_price
                                    oracle_decimals swappable chosen
                                  × IsValid u.inner)
                                (λ u. IsValid u.inner))
                              r₈
                              (best_provider_from-IsAdmitted env self keeps candidate target
                                oracle_price oracle_decimals swappable self.config.swap_providers
                                none u₇ tt (subst (λ (z : World). IsValid z.inner) moved valid₁)) in
                          then-elim (given best) _ h₈ λ chosen u₉ r₉ h₉.
                            let chosen_is = given-eq-value best r₉ in
                            let admitted =
                              subst
                                (GoodOr env self keeps candidate target oracle_price oracle_decimals
                                  swappable)
                                chosen_is.0 good.0 in
                            record {
                              raw_balance = raw_balance;
                              answered = u₁;
                              read = read;
                              oracle_scale = oracle_scale;
                              scale_is = (dropping-eq-value _ r₅).0;
                              scaled = scaled;
                              scaled_is = (dropping-eq-value _ r₆).0;
                              oracle_price = oracle_price;
                              price_is = (dropping-eq-value _ r₇).0;
                              provider = chosen.0;
                              probe = chosen.1;
                              admitted = admitted;
                              submission =
                                  submit_swap-IsSubmitted gateway env self target candidate chosen.0
                                    chosen.1 raw_balance w u₁ u₉ action w' read
                                    (subst (λ (z : World). IsValid z.inner) chosen_is.1 good.1) h₉;
                            }
