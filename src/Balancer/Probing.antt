-- ===== src/Balancer/Probing.antt =====
-- Which probes the balancer admits (`probe_provider` and the choice of a provider in
-- `evaluate_rebalancable_candidate` of balancer.rs).
use alula_liquidator.Prelude.{
  ℕ, zero, suc, ◌≡◌, inl, inr, refl, subst, String, true, Option, some, none, List, [], ◌∷◌,
  Bool-cases, arith,
}
use alula_liquidator.Prelude.Outcome.{ok}
use alula_liquidator.Prelude.Int.{ℤ, pos, negsuc, ◌≤ℤ◌, ◌<ℤ◌, leb_ℤ, ltb_ℤ, plain_div}
use alula_liquidator.Prelude.Int.Laws.{plain_div_ok}
use alula_liquidator.Capital.Ledger.{IsValid}
use alula_liquidator.Maps.{lookup}
use alula_liquidator.World.{
  Surroundings, World, Run, value, nothing, panics, caught, then_run, await, waited,
}
use alula_liquidator.World.Laws.{given-then-Ends, dropping-then-Ends, Ends}
use alula_liquidator.World.Reserved.{KeepsValid}
use alula_liquidator.Balancer.Value.{AssetInfo}
use alula_liquidator.Balancer.Impact.{SwapPriceImpact, compute_swap_price_impact}
use alula_liquidator.Balancer.{
  Balancer, Probe, probe_from, probe_provider, take_larger, best_provider_from,
}

impact-positive :
    (price amount_in amount_out : ℤ) (a b c : ℕ) (impact : SwapPriceImpact)
    → compute_swap_price_impact price amount_in amount_out a b c ≡ some impact
    → pos 0 <ℤ amount_in
unfolding compute_swap_price_impact
impact-positive price amount_in amount_out a b c impact h =
    elim (Bool-cases (leb_ℤ amount_in (pos 0))) [
      | inl e ↦ absurd (never (rw e at h))
      | inr e ↦ ground (arith, e)
    ]
  where
    never : none ≡ some impact → ⊥
    never k = cc

half_le : (a half : ℤ) → plain_div a (pos 2) ≡ ok half → pos 0 <ℤ a → half ≤ℤ a
half_le (pos n) half h p = omega (arith, plain_div_ok (pos n) (pos 2) half refl refl h)
half_le (negsuc n) half h p = absurd (omega (arith, p))

at_most : (a b : ℤ) → leb_ℤ a b ≡ true → a ≤ℤ b
at_most a b h = ground (arith, h)

le_le_ℤ : (a b c : ℤ) → a ≤ℤ b → b ≤ℤ c → a ≤ℤ c
le_le_ℤ a b c h k = omega (arith, h, k)

some_eq : {p q : Probe} → some p ≡ some q → p ≡ q
some_eq h = cc

none_eq : {q : Probe} → none ≡ some q → ⊥
none_eq h = cc

-- The provider quoted the amount out for the amount in, at most all that may be swapped, and against
-- the oracle's price that loses at most the configured part.
pub record IsAdmitted (env : Surroundings) (self : Balancer) (candidate target : String)
    (oracle_price : ℤ) (oracle_decimals : ℕ) (swappable_balance : ℤ) (provider : String)
    (probe : Probe) : Type 0 where
  pub in_info : AssetInfo
  pub in_known : lookup candidate self.asset_index ≡ some in_info
  pub out_info : AssetInfo
  pub out_known : lookup target self.asset_index ≡ some out_info
  pub positive : pos 0 <ℤ probe.amount_in
  pub affordable : probe.amount_in ≤ℤ swappable_balance
  pub asked_at : ℕ
  pub quoted :
      env.get_amount_out asked_at probe.amount_in candidate target provider ≡ some probe.amount_out
  pub impact : SwapPriceImpact
  pub compared :
      compute_swap_price_impact oracle_price probe.amount_in probe.amount_out in_info.decimals
        out_info.decimals oracle_decimals
      ≡ some impact
  pub admitted : impact.bps ≤ℤ self.config.max_price_impact_bps

module _ (env : Surroundings) (self : Balancer) (keeps : KeepsValid env) (candidate target : String)
    (oracle_price : ℤ) (oracle_decimals : ℕ) (swappable_balance : ℤ) where
  abbrev Good : String → Probe → Type 0
  Good provider probe =
      IsAdmitted env self candidate target oracle_price oracle_decimals swappable_balance provider
        probe

  abbrev pub GoodOr : Option (String × Probe) → Type 0
  GoodOr none = Unit
  GoodOr (some best) = Good best.0 best.1

  probe_from-IsAdmitted :
      (provider : String) (in_info out_info : AssetInfo)
      → lookup candidate self.asset_index ≡ some in_info
      → lookup target self.asset_index ≡ some out_info
      → (probes : ℕ) (amount_in : ℤ) (w : World) → amount_in ≤ℤ swappable_balance
      → IsValid w.inner
      → Ends
          (λ probe u. Good provider probe × IsValid u.inner)
          (λ u. IsValid u.inner)
          (probe_from env self provider candidate target oracle_price oracle_decimals in_info
            out_info probes amount_in w)
  unfolding probe_from await
  probe_from-IsAdmitted provider in_info out_info ki ko zero amount_in w le v = v
  probe_from-IsAdmitted provider in_info out_info ki ko (suc probes) amount_in w le v =
      let later = waited env w in
      let valid : IsValid later.inner = keeps w.tick w.inner v in
      given-then-Ends (env.get_amount_out w.tick amount_in candidate target provider) _ later
        (λ probe u. Good provider probe × IsValid u.inner) (λ u. IsValid u.inner) valid
        λ amount_out q.
          given-then-Ends
            (compute_swap_price_impact oracle_price amount_in amount_out in_info.decimals
              out_info.decimals oracle_decimals)
            _ later (λ probe u. Good provider probe × IsValid u.inner) (λ u. IsValid u.inner) valid
            λ impact c.
              let positive =
                impact-positive oracle_price amount_in amount_out in_info.decimals out_info.decimals
                  oracle_decimals impact c in
              elim (Bool-cases (leb_ℤ impact.bps self.config.max_price_impact_bps)) [
                | inl e ↦ rw e (
                  record {
                    in_info = in_info;
                    in_known = ki;
                    out_info = out_info;
                    out_known = ko;
                    positive = positive;
                    affordable = le;
                    asked_at = w.tick;
                    quoted = q;
                    impact = impact;
                    compared = c;
                    admitted = at_most impact.bps self.config.max_price_impact_bps e;
                  },
                  valid,
                )
                | inr e ↦ rw e (
                    dropping-then-Ends (plain_div amount_in (pos 2)) _ later
                      (λ probe u. Good provider probe × IsValid u.inner) (λ u. IsValid u.inner)
                      valid
                      λ half d.
                        probe_from-IsAdmitted provider in_info out_info ki ko probes half later
                          (le_le_ℤ half amount_in swappable_balance
                            (half_le amount_in half d positive) le)
                          valid)
              ]

  probe_provider-IsAdmitted :
      (provider : String) (w : World)
      → IsValid w.inner
      → Ends
          (λ probe u. Good provider probe × IsValid u.inner)
          (λ u. IsValid u.inner)
          (probe_provider env self provider candidate target oracle_price oracle_decimals
            swappable_balance w)
  unfolding probe_provider
  probe_provider-IsAdmitted provider w v =
      given-then-Ends (lookup candidate self.asset_index) _ w
        (λ probe u. Good provider probe × IsValid u.inner) (λ u. IsValid u.inner) v
        λ in_info ki.
          given-then-Ends (lookup target self.asset_index) _ w
            (λ probe u. Good provider probe × IsValid u.inner) (λ u. IsValid u.inner) v
            λ out_info ko.
              probe_from-IsAdmitted provider in_info out_info ki ko
                self.config.max_swap_provider_probes swappable_balance w (omega arith) v

  take_larger-IsAdmitted :
      (provider : String) (probe : Option Probe) (best : Option (String × Probe))
      → ((p : Probe) → probe ≡ some p → Good provider p)
      → GoodOr best
      → GoodOr (take_larger env self provider probe best)
  unfolding take_larger
  take_larger-IsAdmitted provider none best h b = b
  take_larger-IsAdmitted provider (some p) none h b = h p refl
  take_larger-IsAdmitted provider (some p) (some (other, q)) h b =
      elim (Bool-cases (ltb_ℤ q.amount_in p.amount_in)) [ inl e ↦ rw e (h p refl) | inr e ↦ rw e b ]

  pub best_provider_from-IsAdmitted :
      (providers : List String) (best : Option (String × Probe)) (w : World)
      → GoodOr best
      → IsValid w.inner
      → Ends
          (λ chosen u. GoodOr chosen × IsValid u.inner)
          (λ u. IsValid u.inner)
          (best_provider_from env self candidate target oracle_price oracle_decimals
            swappable_balance providers best w)
  unfolding best_provider_from
  best_provider_from-IsAdmitted [] best w b v = (b, v)
  best_provider_from-IsAdmitted (provider ∷ rest) best w b v =
      split
        (probe_provider env self provider candidate target oracle_price oracle_decimals
          swappable_balance w)
        (probe_provider-IsAdmitted provider w v) (best_provider_from-IsAdmitted rest)
    where
      split :
          (r : Run Probe)
          → Ends (λ probe u. Good provider probe × IsValid u.inner) (λ u. IsValid u.inner) r
          → ((next : Option (String × Probe)) (u : World)
              → GoodOr next
              → IsValid u.inner
              → Ends
                  (λ chosen u. GoodOr chosen × IsValid u.inner)
                  (λ u. IsValid u.inner)
                  (best_provider_from env self candidate target oracle_price oracle_decimals
                    swappable_balance rest next u))
          → Ends
              (λ chosen u. GoodOr chosen × IsValid u.inner)
              (λ u. IsValid u.inner)
              (then_run (caught r) λ probe.
                best_provider_from env self candidate target oracle_price oracle_decimals
                  swappable_balance rest
                  (take_larger env self provider probe best))
      split (value p u) e k =
          k (take_larger env self provider (some p) best) u
            (take_larger-IsAdmitted provider (some p) best
              (λ q same. subst (Good provider) (some_eq same) e.0) b)
            e.1
      split (nothing u) e k =
          k (take_larger env self provider none best) u
            (take_larger-IsAdmitted provider none best (λ q same. absurd (none_eq same)) b) e
      split panics e k = tt
