-- ===== src/Liquidation/Unpriced/Sound.antt =====
-- `unpriced_pools_touched` names exactly the held pools that the snapshot does not price, each once.
use alula_liquidator.Prelude.{
  String, true, false, not, ◌&&◌, ◌≡◌, refl, sym, subst, ◌≢◌, ◌↔◌, ◌⊎◌, inl, inr, List, [], ◌∷◌,
  ◌++◌, In, if◌then◌else◌, arith, str_eq, eq_iff, Bool-cases,
}
use alula_liquidator.Pool.{PoolData}
use alula_liquidator.Market.{MarketData, Obligation}
use alula_liquidator.Liquidation.Unpriced.{
  is_priced, contains, held_pools, collect_unpriced, unpriced_pools_touched,
}

-- No pool that the snapshot holds has the address.
abbrev pub Unpriced : List PoolData → String → Type 0
Unpriced [] x = Unit
Unpriced (p ∷ rest) x = (p.pool_address ≢ x) × Unpriced rest x

-- Each element stands once.
abbrev pub Once : List String → Type 0
Once [] = Unit
Once (x ∷ rest) = (¬ In x rest) × Once rest

Unpriced-of-test :
    (pools : List PoolData) (x : String) → is_priced pools x ≡ false → Unpriced pools x
unfolding is_priced
Unpriced-of-test [] x h = tt
Unpriced-of-test (p ∷ rest) x h = ground (arith, eq_iff p.pool_address x, Unpriced-of-test rest x)

test-of-Unpriced :
    (pools : List PoolData) (x : String) → Unpriced pools x → is_priced pools x ≡ false
unfolding is_priced
test-of-Unpriced [] x h = ground arith
test-of-Unpriced (p ∷ rest) x h =
    ground (arith, eq_iff p.pool_address x, test-of-Unpriced rest x h.1)

contains-of-In : (xs : List String) (x : String) → In x xs → contains xs x ≡ true
unfolding contains
contains-of-In [] x h = absurd h
contains-of-In (y ∷ rest) x h = ground (arith, eq_iff y x, contains-of-In rest x)

pub In-of-contains : (xs : List String) (x : String) → contains xs x ≡ true → In x xs
unfolding contains
In-of-contains [] x h = cc
In-of-contains (y ∷ rest) x h = elim (Bool-cases (str_eq y x)) [
  | inl e ↦ inl (cc ((eq_iff y x).0 e))
  | inr e ↦ inr (In-of-contains rest x (ground arith))
]

In-append_left : (x : String) (xs ys : List String) → In x xs → In x (xs ++ ys)
In-append_left x [] ys h = absurd h
In-append_left x (y ∷ xs) ys (inl e) = inl e
In-append_left x (y ∷ xs) ys (inr h) = inr (In-append_left x xs ys h)

In-append_last : (x : String) (xs : List String) → In x (xs ++ x ∷ [])
In-append_last x [] = inl refl
In-append_last x (y ∷ xs) = inr (In-append_last x xs)

In-append : (x : String) (xs ys : List String) → In x (xs ++ ys) → In x xs ⊎ In x ys
In-append x [] ys h = inr h
In-append x (y ∷ xs) ys (inl e) = inl (inl e)
In-append x (y ∷ xs) ys (inr h) = elim (In-append x xs ys h) [ inl a ↦ inl (inr a) | inr b ↦ inr b ]

Once-append : (x : String) (xs : List String) → Once xs → (¬ In x xs) → Once (xs ++ x ∷ [])
Once-append x [] h ne = (λ b. b, tt)
Once-append x (y ∷ xs) h ne = (fresh, Once-append x xs h.1 (λ i. ne (inr i)))
  where
    fresh : ¬ In y (xs ++ x ∷ [])
    fresh i = elim (In-append y xs (x ∷ []) i) [
      | inl a ↦ h.0 a
      | inr b ↦ elim b [ inl e ↦ ne (inl (sym e)) | inr f ↦ f ]
    ]

module _ (pools : List PoolData) where
  -- One round of the loop.
  abbrev step : String → List String → List String
  step held acc =
      if not (is_priced pools held) && not (contains acc held) then acc ++ held ∷ [] else acc

  step-Once : (held : String) (acc : List String) → Once acc → Once (step held acc)
  step-Once held acc h = elim (Bool-cases (is_priced pools held)) [
    | inl priced ↦ rw priced h
    | inr free ↦ elim (Bool-cases (contains acc held)) [
      | inl seen ↦ rw (free, seen) h
      | inr new ↦ rw (free, new) (Once-append held acc h (λ i. absent held acc new i))
    ]
  ]
    where
      absent : (x : String) (xs : List String) → contains xs x ≡ false → In x xs → ⊥
      absent x xs e i = cc (contains-of-In xs x i)

  step-In :
      (x held : String) (acc : List String)
      → In x (step held acc)
      → In x acc ⊎ ((x ≡ held) × Unpriced pools x)
  step-In x held acc i = elim (Bool-cases (is_priced pools held)) [
    | inl priced ↦ inl (rw priced at i)
    | inr free ↦ elim (Bool-cases (contains acc held)) [
      | inl seen ↦ inl (rw (free, seen) at i)
      | inr new ↦ elim (In-append x acc (held ∷ []) (rw (free, new) at i)) [
        | inl a ↦ inl a
        | inr b ↦ elim b [
          | inl e ↦ inr (e, subst (Unpriced pools) (sym e) (Unpriced-of-test pools held free))
          | inr f ↦ absurd f
        ]
      ]
    ]
  ]

  step_keeps : (x held : String) (acc : List String) → In x acc → In x (step held acc)
  step_keeps x held acc i =
      elim (Bool-cases (not (is_priced pools held) && not (contains acc held))) [
        | inl e ↦ rw e (In-append_left x acc (held ∷ []) i)
        | inr e ↦ rw e i
      ]

  step_covers : (held : String) (acc : List String) → Unpriced pools held → In held (step held acc)
  step_covers held acc u = elim (Bool-cases (contains acc held)) [
    | inl seen ↦ rw (test-of-Unpriced pools held u, seen) (In-of-contains acc held seen)
    | inr new ↦ rw (test-of-Unpriced pools held u, new) (In-append_last held acc)
  ]

  collect-Once : (hs acc : List String) → Once acc → Once (collect_unpriced pools hs acc)
  unfolding collect_unpriced
  collect-Once [] acc h = h
  collect-Once (held ∷ hs) acc h = collect-Once hs (step held acc) (step-Once held acc h)

  collect-In :
      (x : String) (hs acc : List String)
      → In x (collect_unpriced pools hs acc)
      → In x acc ⊎ (In x hs × Unpriced pools x)
  unfolding collect_unpriced
  collect-In x [] acc i = inl i
  collect-In x (held ∷ hs) acc i = elim (collect-In x hs (step held acc) i) [
    | inr (h, u) ↦ inr (inr h, u)
    | inl j ↦ elim (step-In x held acc j) [ inl k ↦ inl k | inr (e, u) ↦ inr (inl e, u) ]
  ]

  collect_keeps :
      (x : String) (hs acc : List String) → In x acc → In x (collect_unpriced pools hs acc)
  unfolding collect_unpriced
  collect_keeps x [] acc i = i
  collect_keeps x (held ∷ hs) acc i = collect_keeps x hs (step held acc) (step_keeps x held acc i)

  collect_covers :
      (x : String) (hs acc : List String)
      → In x hs
      → Unpriced pools x
      → In x (collect_unpriced pools hs acc)
  unfolding collect_unpriced
  collect_covers x [] acc i u = absurd i
  collect_covers x (held ∷ hs) acc (inl e) u = collect_keeps x hs (step held acc) (
      subst (λ y. In y (step held acc)) (sym e) (step_covers held acc (subst (Unpriced pools) e u)))
  collect_covers x (held ∷ hs) acc (inr i) u = collect_covers x hs (step held acc) i u

-- The result lists no pool twice, and lists a pool exactly when the obligation holds a position in it
-- and the snapshot holds no pool of that address.
pub unpriced_pools_touched_exact :
    (o : Obligation) (m : MarketData) (x : String)
    → Once (unpriced_pools_touched o m)
      × (In x (unpriced_pools_touched o m) ↔ (In x (held_pools o) × Unpriced m.pools_data x))
unfolding unpriced_pools_touched
unpriced_pools_touched_exact o m x =
    (collect-Once m.pools_data (held_pools o) [] tt, (forth, λ h. back h.0 h.1))
  where
    forth :
        In x (collect_unpriced m.pools_data (held_pools o) [])
        → In x (held_pools o) × Unpriced m.pools_data x
    forth i = elim (collect-In m.pools_data x (held_pools o) [] i) [ inl f ↦ absurd f | inr h ↦ h ]

    back :
        In x (held_pools o)
        → Unpriced m.pools_data x
        → In x (collect_unpriced m.pools_data (held_pools o) [])
    back i u = collect_covers m.pools_data x (held_pools o) [] i u
