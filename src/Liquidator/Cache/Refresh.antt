-- ===== src/Liquidator/Cache/Refresh.antt =====
-- What a refresh of the market views installs (`refresh_market_data` of liquidator.rs).
use alula_liquidator.Maps.{lookup}
use alula_liquidator.Maps.Laws.{lookup-insert_at, lookup-insert_at-other}
use alula_liquidator.Prelude.{
  ℕ, suc, ◌≡◌, refl, sym, subst, ◌∙◌, ◌≤◌, ◌<◌, ◌⊎◌, inl, inr, String, false, Option, some, none,
  List, [], ◌∷◌, In, Bool-cases, arith, str_eq, eq_iff,
}
use alula_liquidator.Market.{MarketData, prices_nothing}
use alula_liquidator.World.{Surroundings, World, look, await, waited}
use alula_liquidator.World.Laws.{Reaches, then-Reaches}
use alula_liquidator.Liquidator.{MarketSnapshot, Liquidator}
use alula_liquidator.Liquidator.Cache.{
  install_snapshot, install_read, refresh_markets, refresh_market_data,
}

-- The view held of the market was read between the two moments, and stamped after it was read.
pub record IsRefreshed (env : Surroundings) (read_market_data : ℕ → String → Option MarketData)
    (market : String) (from to : ℕ) (self : Liquidator) : Type 0 where
  pub snapshot : MarketSnapshot
  pub holds : lookup market self.snapshots ≡ some snapshot
  pub read_at : ℕ
  pub view_read : read_market_data read_at market ≡ some snapshot.view
  pub stamped_at : ℕ
  pub stamp : snapshot.refreshed_at ≡ env.instant stamped_at
  pub ordered : (from ≤ read_at) × (read_at < stamped_at) × (stamped_at < to)

module _ (env : Surroundings) (read_market_data : ℕ → String → Option MarketData) (market : String)
    (always : (n : ℕ)
      → (view : MarketData) × (read_market_data n market ≡ some view)
        × (prices_nothing view ≡ false))
    (from : ℕ) where
  later :
      (a b : ℕ) (self : Liquidator)
      → a ≤ b
      → IsRefreshed env read_market_data market from a self
      → IsRefreshed env read_market_data market from b self
  later a b self h r = record {
    snapshot = r.snapshot;
    holds = r.holds;
    read_at = r.read_at;
    view_read = r.view_read;
    stamped_at = r.stamped_at;
    stamp = r.stamp;
    ordered = (r.ordered.0, r.ordered.1, omega (arith, r.ordered.2, h));
  }

  -- Another market's read leaves the view.
  other_install :
      (other : String) (answer : Option MarketData) (self : Liquidator) (w : World)
      → str_eq other market ≡ false
      → IsRefreshed env read_market_data market from w.tick self
      → Reaches
          (λ next u. IsRefreshed env read_market_data market from u.tick next)
          (install_read env read_market_data other answer self w)
  unfolding install_read look install_snapshot
  other_install other none self w d r = r
  other_install other (some view) self w d r = elim (Bool-cases (prices_nothing view)) [
    | inl e ↦ rw e (later w.tick (suc w.tick) self (omega arith) r)
    | inr e ↦
        let s : MarketSnapshot = record { view = view; refreshed_at = env.instant w.tick } in
        rw e (record {
          snapshot = r.snapshot;
          holds = lookup-insert_at-other market other s self.snapshots d ∙ r.holds;
          read_at = r.read_at;
          view_read = r.view_read;
          stamped_at = r.stamped_at;
          stamp = r.stamp;
          ordered = (r.ordered.0, r.ordered.1, omega (arith, r.ordered.2));
        })
  ]

  own_install :
      (read_at : ℕ) (view : MarketData) (self : Liquidator) (w : World)
      → from ≤ read_at
      → read_at < w.tick
      → read_market_data read_at market ≡ some view
      → prices_nothing view ≡ false
      → Reaches
          (λ next u. IsRefreshed env read_market_data market from u.tick next)
          (install_read env read_market_data market (some view) self w)
  unfolding install_read look install_snapshot
  own_install read_at view self w f l e p =
      let s : MarketSnapshot = record { view = view; refreshed_at = env.instant w.tick } in
      rw p (record {
        snapshot = s;
        holds = lookup-insert_at market s self.snapshots;
        read_at = read_at;
        view_read = e;
        stamped_at = w.tick;
        stamp = refl;
        ordered = (f, l, omega arith);
      })

  -- One market of the loop: the view is there after it if it was there before or is this market's.
  one_market :
      (other : String) (self : Liquidator) (w : World)
      → from ≤ w.tick
      → IsRefreshed env read_market_data market from w.tick self ⊎ (other ≡ market)
      → Reaches
          (λ next u. IsRefreshed env read_market_data market from u.tick next)
          (install_read env read_market_data other
            (read_market_data w.tick other)
            self
            (waited env w))
  one_market other self w f h = elim (Bool-cases (str_eq other market)) [
    | inl e ↦ own ((eq_iff other market).0 e)
    | inr e ↦ elim h [
      | inl r ↦
          other_install other (read_market_data w.tick other) self (waited env w) e
            (later w.tick (suc w.tick) self (omega arith) r)
      | inr q ↦ own q
    ]
  ]
    where
      own :
          other ≡ market
          → Reaches
              (λ next u. IsRefreshed env read_market_data market from u.tick next)
              (install_read env read_market_data other
                (read_market_data w.tick other)
                self
                (waited env w))
      own q =
          let a = always w.tick in
          subst
            (λ z.
              Reaches (λ next u. IsRefreshed env read_market_data market from u.tick next)
                (install_read env read_market_data z (read_market_data w.tick z) self
                  (waited env w)))
            (sym q)
            (subst
              (λ z.
                Reaches (λ next u. IsRefreshed env read_market_data market from u.tick next)
                  (install_read env read_market_data market z self (waited env w)))
              (sym a.1) (own_install w.tick a.0 self (waited env w) f (omega arith) a.1 a.2))

  refresh_markets-keeps :
      (markets : List String) (self : Liquidator) (w : World)
      → from ≤ w.tick
      → IsRefreshed env read_market_data market from w.tick self
      → Reaches
          (λ next u. IsRefreshed env read_market_data market from u.tick next)
          (refresh_markets env read_market_data markets self w)
  unfolding refresh_markets await
  refresh_markets-keeps [] self w f r = r
  refresh_markets-keeps (other ∷ rest) self w f r =
      then-Reaches (install_read env read_market_data other (read_market_data w.tick other) self) _
        (waited env w) (λ next u. IsRefreshed env read_market_data market from u.tick next)
        (λ next u. IsRefreshed env read_market_data market from u.tick next)
        (one_market other self w f (inl r))
        λ next u k. refresh_markets-keeps rest next u (after u.tick next k) k
    where
      after :
          (n : ℕ) (next : Liquidator)
          → IsRefreshed env read_market_data market from n next
          → from ≤ n
      after n next k = omega (arith, k.ordered)

  -- Not yet read: the market comes later in the loop, and nothing that is read before it matters.
  refresh_markets-Reaches :
      (markets : List String) (self : Liquidator) (w : World)
      → from ≤ w.tick
      → In market markets
      → Reaches
          (λ next u. IsRefreshed env read_market_data market from u.tick next)
          (refresh_markets env read_market_data markets self w)
  unfolding refresh_markets await install_read look
  refresh_markets-Reaches [] self w f i = absurd i
  refresh_markets-Reaches (other ∷ rest) self w f (inl e) =
      then-Reaches (install_read env read_market_data other (read_market_data w.tick other) self) _
        (waited env w) (λ next u. IsRefreshed env read_market_data market from u.tick next)
        (λ next u. IsRefreshed env read_market_data market from u.tick next)
        (one_market other self w f (inr (sym e)))
        λ next u k. refresh_markets-keeps rest next u (after u.tick next k) k
    where
      after :
          (n : ℕ) (next : Liquidator)
          → IsRefreshed env read_market_data market from n next
          → from ≤ n
      after n next k = omega (arith, k.ordered)
  refresh_markets-Reaches (other ∷ rest) self w f (inr i) =
      then-Reaches (install_read env read_market_data other (read_market_data w.tick other) self) _
        (waited env w) (λ _ u. from ≤ u.tick)
        (λ next u. IsRefreshed env read_market_data market from u.tick next)
        (passes (read_market_data w.tick other)) λ next u k. refresh_markets-Reaches rest next u k i
    where
      passes :
          (answer : Option MarketData)
          → Reaches
              (λ _ u. from ≤ u.tick)
              (install_read env read_market_data other answer self (waited env w))
      passes none = omega (arith, f)
      passes (some view) = omega (arith, f)

-- One refresh brings every market up to date whose reads succeed: it returns a state in which each
-- configured market, whose every read answers a view that prices a pool, holds a view that was read in
-- the course of this refresh, with the time of a moment after that reading; the other markets' reads may
-- fail, or answer a view that prices nothing.
pub refresh_market_data-IsRefreshed :
    (env : Surroundings) (read_market_data : ℕ → String → Option MarketData) (market : String)
    (self : Liquidator) (w : World)
    → ((n : ℕ)
        → (view : MarketData) × (read_market_data n market ≡ some view)
          × (prices_nothing view ≡ false))
    → In market self.config.markets
    → Reaches
        (λ next u. IsRefreshed env read_market_data market w.tick u.tick next)
        (refresh_market_data env read_market_data self w)
unfolding refresh_market_data
refresh_market_data-IsRefreshed env read_market_data market self w always i =
    refresh_markets-Reaches env read_market_data market always w.tick self.config.markets self w
      (omega arith) i
