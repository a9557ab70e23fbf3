-- ===== src/BadDebt/Event.antt =====
-- What an event makes the strategy request (`handle_soroban_event` of bad_debt_request_initiator.rs).
use alula_liquidator.Prelude.{
  ℕ, ◌≡◌, refl, sym, subst, String, true, inl, inr, Option, some, none, List, [], In, Bool-cases,
}
use alula_liquidator.Prelude.Outcome.{ok, bind-elim}
use alula_liquidator.Market.{MarketData, Obligation, ObligationKey}
use alula_liquidator.Liquidation.Unpriced.{contains}
use alula_liquidator.Liquidation.Unpriced.Sound.{In-of-contains}
use alula_liquidator.Execute.{Action}
use alula_liquidator.Withdrawer.{OperationEvent, liquidate}
use alula_liquidator.Withdrawer.Deposit.{ok_list}
use alula_liquidator.BadDebt.{
  BadDebtRequestInitiator, is_liquidate, judge_eligibility,
  is_eligible_for_bad_debt_request_issuance, build_issue_bad_debt, as_list, request_for,
  request_on_event,
}
use alula_liquidator.BadDebt.Issue.{judged-true}

is_liquidate-true : (e : Option OperationEvent) → is_liquidate e ≡ true → e ≡ some liquidate
is_liquidate-true none h = cc
is_liquidate-true (some liquidate) h = refl
is_liquidate-true (some _) h = cc

module _ {Op : Type 0} (cover_bad_debt_op : String → ObligationKey → Option Op) where
  -- The event names a borrower and carries its obligation, which is eligible, and the action is the one
  -- built for it.
  abbrev pub Requested :
      BadDebtRequestInitiator
      → ℕ
      → String
      → Option ObligationKey
      → Option (Option Obligation)
      → Option MarketData
      → Action Op
      → Type 0
  Requested self now market key obligation market_data action =
      (k : ObligationKey) × (o : Obligation) × (m : MarketData) × (key ≡ some k)
      × (obligation ≡ some (some o))
      × (market_data ≡ some m)
      × (is_eligible_for_bad_debt_request_issuance self now o m ≡ ok true)
      × (build_issue_bad_debt cover_bad_debt_op self market k ≡ some action)

  nothing_added :
      (actions : List (Action Op)) (action : Action Op) → ok [] ≡ ok actions → In action actions → ⊥
  nothing_added actions action h i = subst (In action) (sym (ok_list [] actions h)) i

  request_for-Requested :
      (self : BadDebtRequestInitiator) (now : ℕ) (market : String) (key : Option ObligationKey)
      (obligation : Option (Option Obligation)) (market_data : Option MarketData)
      (actions : List (Action Op)) (action : Action Op)
      → request_for cover_bad_debt_op self now market key obligation market_data ≡ ok actions
      → In action actions
      → Requested self now market key obligation market_data action
  unfolding request_for
  request_for-Requested self now market none o m actions action h i =
      absurd (nothing_added actions action h i)
  request_for-Requested self now market (some k) none m actions action h i =
      absurd (nothing_added actions action h i)
  request_for-Requested self now market (some k) (some none) m actions action h i =
      absurd (nothing_added actions action h i)
  request_for-Requested self now market (some k) (some (some o)) none actions action h i =
      absurd (nothing_added actions action h i)
  request_for-Requested self now market (some k) (some (some o)) (some m) actions action h i =
      bind-elim (judge_eligibility self now o m) _ h λ eligible ej h₁. elim (Bool-cases eligible) [
        | inr f ↦ absurd (nothing_added actions action (rw f at h₁) i)
        | inl e ↦ (
          k,
          o,
          m,
          refl,
          refl,
          refl,
          judged-true self now o m (rw e at ej),
          built (build_issue_bad_debt cover_bad_debt_op self market k)
              (subst (In action) (sym (ok_list _ actions (rw e at h₁))) i),
        )
      ]
    where
      built : (a : Option (Action Op)) → In action (as_list cover_bad_debt_op a) → a ≡ some action
      built none k' = absurd k'
      built (some a) (inl e) = subst (λ z. some a ≡ some z) (sym e) refl
      built (some a) (inr k') = absurd k'

  -- An event makes the strategy request a cover only for a liquidation in a configured market whose
  -- borrower parses and whose obligation, as the event carries it, is still there and eligible.
  pub request_on_event-issued :
      (self : BadDebtRequestInitiator) (now : ℕ) (market : String) (decoded : Option OperationEvent)
      (key : Option ObligationKey) (obligation : Option (Option Obligation))
      (market_data : Option MarketData) (actions : List (Action Op)) (action : Action Op)
      → request_on_event cover_bad_debt_op self now market decoded key obligation market_data
        ≡ ok actions
      → In action actions
      → In market self.markets
        × (decoded ≡ some liquidate)
        × Requested self now market key obligation market_data action
  unfolding request_on_event
  request_on_event-issued self now market decoded key obligation market_data actions action h i =
      elim (Bool-cases (contains self.markets market)) [
        | inr e ↦ absurd (nothing_added actions action (rw e at h) i)
        | inl e ↦ elim (Bool-cases (is_liquidate decoded)) [
          | inr e₁ ↦ absurd (nothing_added actions action (rw (e, e₁) at h) i)
          | inl e₁ ↦ (
            In-of-contains self.markets market e,
            is_liquidate-true decoded e₁,
            request_for-Requested self now market key obligation market_data actions action
                (rw (e, e₁) at h) i,
          )
        ]
      ]
