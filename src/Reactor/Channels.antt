-- ===== src/Reactor/Channels.antt =====
-- What the reactor relies on of a channel, and what its sends leave (engine/src/reactor/mod.rs).
use alula_liquidator.Prelude.{
  suc, ◌≡◌, ◌⊎◌, inl, inr, refl, ap, some, List, [], ◌∷◌, ◌++◌, In, length, map,
}
use alula_liquidator.Reactor.{
  got, lagged, Channel, StrategyTask, ExecutorTask, Replaced, here, there, broadcast, deliver,
}

-- What the reactor relies on of a broadcast channel: a receiver that has just subscribed waits for
-- nothing, a message that is sent waits last, the one that is received waited first, and a notice that
-- some were dropped takes them from the front.
pub record IsChannel {X Q : Type 0} (c : Channel X Q) : Type 0 where
  pub waiting : Q → List X
  pub subscribed_waits : waiting c.subscribed ≡ []
  pub send_waits : (x : X) (q : Q) → waiting (c.send x q) ≡ waiting q ++ x ∷ []
  pub got_waits : (x : X) (q rest : Q) → c.recv q ≡ some (got x rest) → waiting q ≡ x ∷ waiting rest
  pub lagged_waits :
      (q rest : Q)
      → c.recv q ≡ some (lagged rest)
      → (dropped : List X) × (waiting q ≡ dropped ++ waiting rest)

pub Replaced-In : {T : Type 0} {x y : T} {l m : List T} → Replaced x y l m → In x l
Replaced-In (here l) = inl refl
Replaced-In (there z r) = inr (Replaced-In r)

pub Replaced-from :
    {T : Type 0} {x y : T} {l m : List T} → Replaced x y l m → (z : T) → In z m → In z l ⊎ (z ≡ y)
Replaced-from (here l) z (inl e) = inr e
Replaced-from (here l) z (inr i) = inl (inr i)
Replaced-from (there v r) z (inl e) = inl (inl e)
Replaced-from (there v r) z (inr i) = elim (Replaced-from r z i) [
  | inl k ↦ inl (inr k)
  | inr e ↦ inr e
]

pub Replaced-map :
    {T U : Type 0} (f : T → U) {x y : T} {l m : List T}
    → f y ≡ f x
    → Replaced x y l m
    → map f m ≡ map f l
Replaced-map f e (here l) = ap (λ z. z ∷ map f l) e
Replaced-map f e (there z r) = ap (λ u. f z ∷ u) (Replaced-map f e r)

pub Replaced-length : {T : Type 0} {x y : T} {l m : List T} → Replaced x y l m → length m ≡ length l
Replaced-length (here l) = refl
Replaced-length (there z r) = ap (λ n. suc n) (Replaced-length r)

pub broadcast-from :
    {A Q : Type 0} (c : Channel A Q) (a : A) (l : List (ExecutorTask Q A)) (x : ExecutorTask Q A)
    → In x (broadcast c a l)
    → (y : ExecutorTask Q A) × (In y l) × (x ≡ record y { queue = c.send a y.queue })
unfolding broadcast
broadcast-from c a [] x i = absurd i
broadcast-from c a (y ∷ l) x (inl e) = (y, inl refl, e)
broadcast-from c a (y ∷ l) x (inr i) = let (z, j, e) = broadcast-from c a l x i in (z, inr j, e)

pub length-broadcast :
    {A Q : Type 0} (c : Channel A Q) (a : A) (l : List (ExecutorTask Q A))
    → length (broadcast c a l) ≡ length l
unfolding broadcast
length-broadcast c a [] = refl
length-broadcast c a (y ∷ l) = ap (λ n. suc n) (length-broadcast c a l)

pub deliver-from :
    {E A S Q : Type 0} (c : Channel E Q) (e : E) (l : List (StrategyTask S Q E A))
    (t : StrategyTask S Q E A)
    → In t (deliver c e l)
    → (p : StrategyTask S Q E A) × (In p l) × (t ≡ record p { queue = c.send e p.queue })
unfolding deliver
deliver-from c e [] t i = absurd i
deliver-from c e (p ∷ l) t (inl h) = (p, inl refl, h)
deliver-from c e (p ∷ l) t (inr i) = let (z, j, h) = deliver-from c e l t i in (z, inr j, h)

pub synced-deliver :
    {E A S Q : Type 0} (c : Channel E Q) (e : E) (l : List (StrategyTask S Q E A))
    → map (λ t. some t.synced) (deliver c e l) ≡ map (λ t. some t.synced) l
unfolding deliver
synced-deliver c e [] = refl
synced-deliver c e (p ∷ l) = ap (λ z. some p.synced ∷ z) (synced-deliver c e l)
