-- ===== src/Withdrawer/Sound.antt =====
-- Which withdrawals the strategy asks for (`find_withdrawal_opportunities`, `handle_new_ledger` and
-- `handle_soroban_event` of withdrawer.rs).
use alula_liquidator.Prelude.{
  ℕ, ◌≡◌, refl, sym, subst, String, true, ◌⊎◌, inl, inr, Option, some, none, List, [], ◌∷◌, ◌++◌,
  In, Bool-cases,
}
use alula_liquidator.Prelude.Outcome.{ok, bind-elim}
use alula_liquidator.Amount.{Underlying}
use alula_liquidator.Market.{MarketData, Obligation, ObligationKey}
use alula_liquidator.Liquidation.Unpriced.{contains}
use alula_liquidator.Liquidation.Unpriced.Sound.{In-of-contains}
use alula_liquidator.Execute.{Action}
use alula_liquidator.Withdrawer.{
  OperationEvent, increases_liquidity, is_multiple_of, Withdrawer, find_withdrawal_opportunities,
  scan_market, scan_markets, handle_new_ledger, handle_soroban_event,
}
use alula_liquidator.Withdrawer.Deposit.{ok_list, FromDeposit, withdrawals_from_sound}

In-append : {A : Type 0} (x : A) (xs ys : List A) → In x (xs ++ ys) → In x xs ⊎ In x ys
In-append x [] ys h = inr h
In-append x (z ∷ zs) ys (inl e) = inl (inl e)
In-append x (z ∷ zs) ys (inr k) = elim (In-append x zs ys k) [ inl i ↦ inl (inr i) | inr i ↦ inr i ]

module _ {Op : Type 0}
    (withdraw_op : String → ObligationKey → String → Underlying → Option Op) where
  -- Every withdrawal that the strategy finds for an obligation comes from one of its deposits in a priced
  -- pool, asks for the lesser of the deposit's worth and what can be withdrawn under the utilization
  -- limit less the margin (as `i128::MAX` where that is the whole deposit), neither being zero, and is
  -- worth at least the configured minimum.
  pub find_withdrawal_opportunities-justified :
      (self : Withdrawer) (market : String) (market_data : MarketData) (obligation : Obligation)
      (actions : List (Action Op)) (action : Action Op)
      → find_withdrawal_opportunities withdraw_op self market market_data obligation ≡ ok actions
      → In action actions
      → FromDeposit withdraw_op self market market_data obligation.deposits action
  unfolding find_withdrawal_opportunities
  find_withdrawal_opportunities-justified self market market_data obligation actions action h i =
      elim (withdrawals_from_sound withdraw_op self market market_data obligation.deposits []
        actions action h i) [ inl k ↦ absurd k | inr k ↦ k ]

  module _ (read_user_obligation : String → ObligationKey → Option Obligation)
      (read_market_data : String → Option MarketData) where
    -- The market was read, and the action is justified by what the reads returned.
    abbrev pub FromMarket : Withdrawer → String → Action Op → Type 0
    FromMarket self market action =
        (obligation : Obligation) × (market_data : MarketData) × (read_user_obligation market
            self.liquidator_key
          ≡ some obligation)
        × (read_market_data market ≡ some market_data)
        × FromDeposit withdraw_op self market market_data obligation.deposits action

    scan_market_sound :
        (self : Withdrawer) (market : String) (actions : List (Action Op)) (action : Action Op)
        → scan_market withdraw_op read_user_obligation read_market_data self market ≡ ok actions
        → In action actions
        → FromMarket self market action
    unfolding scan_market
    scan_market_sound self market actions action h i =
        split (read_user_obligation market self.liquidator_key) (read_market_data market) refl refl
          h
      where
        split :
            (o : Option Obligation) (m : Option MarketData)
            → read_user_obligation market self.liquidator_key ≡ o
            → read_market_data market ≡ m
            → elim o [
              | none ↦ ok []
              | some obligation ↦ elim m [
                | none ↦ ok []
                | some market_data ↦
                    find_withdrawal_opportunities withdraw_op self market market_data obligation
              ]
            ]
              ≡ ok actions
            → FromMarket self market action
        split none m eo em k = absurd (subst (In action) (sym (ok_list [] actions k)) i)
        split (some o) none eo em k = absurd (subst (In action) (sym (ok_list [] actions k)) i)
        split (some o) (some m) eo em k = (
          o,
          m,
          eo,
          em,
          find_withdrawal_opportunities-justified self market m o actions action k i,
        )

    scan_markets_sound :
        (self : Withdrawer) (markets : List String) (actions : List (Action Op))
        (action : Action Op)
        → scan_markets withdraw_op read_user_obligation read_market_data self markets ≡ ok actions
        → In action actions
        → (market : String) × In market markets × FromMarket self market action
    unfolding scan_markets
    scan_markets_sound self [] actions action h i =
        absurd (subst (In action) (sym (ok_list [] actions h)) i)
    scan_markets_sound self (market ∷ rest) actions action h i =
        bind-elim (scan_market withdraw_op read_user_obligation read_market_data self market) _ h
          λ found ef h₁.
            bind-elim (scan_markets withdraw_op read_user_obligation read_market_data self rest) _
              h₁
              λ others eo h₂.
                elim (In-append action found others
                  (subst (In action) (sym (ok_list (found ++ others) actions h₂)) i)) [
                    | inl k ↦ (market, inl refl, scan_market_sound self market found action ef k)
                    | inr k ↦
                        let (m, im, f) = scan_markets_sound self rest others action eo k in
                        (m, inr im, f)
                  ]

    -- A ledger makes the strategy act only at a multiple of the refresh interval, and each action is
    -- then for a configured market, and justified by what was read of that market.
    pub handle_new_ledger-justified :
        (self : Withdrawer) (seq_num : ℕ) (actions : List (Action Op)) (action : Action Op)
        → handle_new_ledger withdraw_op read_user_obligation read_market_data self seq_num
          ≡ ok actions
        → In action actions
        → (is_multiple_of seq_num self.refresh_interval_blocks ≡ true)
          × ((market : String) × In market self.markets × FromMarket self market action)
    unfolding handle_new_ledger
    handle_new_ledger-justified self seq_num actions action h i =
        elim (Bool-cases (is_multiple_of seq_num self.refresh_interval_blocks)) [
          | inl e ↦ (e, scan_markets_sound self self.markets actions action (rw e at h) i)
          | inr e ↦ absurd (subst (In action) (sym (ok_list [] actions (rw e at h))) i)
        ]

    -- An event makes the strategy act only in a configured market, on a deposit, a repayment or a
    -- liquidation, and each action is then justified by what was read of that market.
    pub handle_soroban_event-justified :
        (self : Withdrawer) (market : String) (decoded : Option OperationEvent)
        (actions : List (Action Op)) (action : Action Op)
        → handle_soroban_event withdraw_op read_user_obligation read_market_data self market decoded
          ≡ ok actions
        → In action actions
        → In market self.markets
          × (increases_liquidity decoded ≡ true)
          × FromMarket self market action
    unfolding handle_soroban_event
    handle_soroban_event-justified self market decoded actions action h i =
        elim (Bool-cases (contains self.markets market)) [
          | inr e ↦ absurd (subst (In action) (sym (ok_list [] actions (rw e at h))) i)
          | inl e ↦ elim (Bool-cases (increases_liquidity decoded)) [
            | inr e₁ ↦ absurd (subst (In action) (sym (ok_list [] actions (rw (e, e₁) at h))) i)
            | inl e₁ ↦ (
              In-of-contains self.markets market e,
              e₁,
              scan_market_sound self market actions action (rw (e, e₁) at h) i,
            )
          ]
        ]
