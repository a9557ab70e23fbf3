-- ===== src/Reactor/Tracks.antt =====
-- How what a receiver has taken stands to all that was sent (the two broadcast channels of
-- engine/src/reactor/mod.rs).
use alula_liquidator.Prelude.{
  ◌≡◌, refl, sym, subst, ap, ◌∙◌, ◌⊎◌, inl, inr, Bool, true, false, List, [], ◌∷◌, ◌++◌,
}
use mathlib.Core.List.{append_assoc}

module _ {X : Type 0} where
  -- The first list is the second with some elements left out.
  abbrev pub Within : List X → List X → Type 0
  Within a [] = a ≡ []
  Within a (x ∷ b) = Within a b ⊎ ((rest : List X) × (a ≡ x ∷ rest) × Within rest b)

  Within-same : (l : List X) → Within l l
  Within-same [] = refl
  Within-same (x ∷ l) = inr (l, refl, Within-same l)

  pub Within-more : (a b : List X) (x : X) → Within a b → Within a (b ++ x ∷ [])
  Within-more a [] x h = inl h
  Within-more a (y ∷ b) x (inl h) = inl (Within-more a b x h)
  Within-more a (y ∷ b) x (inr (rest, e, h)) = inr (rest, e, Within-more rest b x h)

  pub Within-both : (a b : List X) (x : X) → Within a b → Within (a ++ x ∷ []) (b ++ x ∷ [])
  Within-both a [] x h = inr ([], ap (λ z. z ++ x ∷ []) h, refl)
  Within-both a (y ∷ b) x (inl h) = inl (Within-both a b x h)
  Within-both a (y ∷ b) x (inr (rest, e, h)) =
      inr (rest ++ x ∷ [], ap (λ z. z ++ x ∷ []) e, Within-both rest b x h)

  Within-trans : (a b c : List X) → Within a b → Within b c → Within a c
  Within-trans a b [] p q = subst (Within a) q p
  Within-trans a b (x ∷ c) p (inl q) = inl (Within-trans a b c p q)
  Within-trans a b (x ∷ c) p (inr (rest, e, q)) = elim (subst (Within a) e p) [
    | inl k ↦ inl (Within-trans a rest c k q)
    | inr k ↦ inr (k.0, k.1, Within-trans k.0 rest c k.2 q)
  ]

  Within-left_out : (log dropped rest : List X) → Within (log ++ rest) (log ++ (dropped ++ rest))
  Within-left_out [] [] rest = Within-same rest
  Within-left_out [] (x ∷ dropped) rest = inl (Within-left_out [] dropped rest)
  Within-left_out (y ∷ log) dropped rest = inr (log ++ rest, refl, Within-left_out log dropped rest)

  -- What a receiver took, in order, followed by what still waits for it, is what was sent less what it
  -- missed; all of it where it missed nothing.
  pub record Tracks (log waiting all : List X) (missed : Bool) : Type 0 where
    pub within : Within (log ++ waiting) all
    pub exact : missed ≡ false → log ++ waiting ≡ all

  pub Tracks-start : (waiting : List X) (missed : Bool) → waiting ≡ [] → Tracks [] waiting [] missed
  Tracks-start waiting missed e = record { within = e; exact = λ m. e }

  pub Tracks-send :
      (log waiting next all : List X) (missed : Bool) (x : X)
      → next ≡ waiting ++ x ∷ []
      → Tracks log waiting all missed
      → Tracks log next (all ++ x ∷ []) missed
  Tracks-send log waiting next all missed x e h =
      let moved : log ++ next ≡ (log ++ waiting) ++ x ∷ [] =
        ap (λ z. log ++ z) e ∙ sym (append_assoc log waiting (x ∷ [])) in
      record {
        within =
            subst (λ z. Within z (all ++ x ∷ [])) (sym moved)
              (Within-both (log ++ waiting) all x h.within);
        exact = λ m. moved ∙ ap (λ z. z ++ x ∷ []) (h.exact m);
      }

  pub Tracks-take :
      (log waiting rest all : List X) (missed : Bool) (x : X)
      → waiting ≡ x ∷ rest
      → Tracks log waiting all missed
      → Tracks (log ++ x ∷ []) rest all missed
  Tracks-take log waiting rest all missed x e h =
      let moved : (log ++ x ∷ []) ++ rest ≡ log ++ waiting =
        append_assoc log (x ∷ []) rest ∙ ap (λ z. log ++ z) (sym e) in
      record {
        within = subst (λ z. Within z all) (sym moved) h.within;
        exact = λ m. moved ∙ h.exact m;
      }

  pub Tracks-miss :
      (log waiting dropped rest all : List X) (missed : Bool)
      → waiting ≡ dropped ++ rest
      → Tracks log waiting all missed
      → Tracks log rest all true
  Tracks-miss log waiting dropped rest all missed e h = record {
    within =
        Within-trans (log ++ rest) (log ++ waiting) all
          (subst (λ z. Within (log ++ rest) (log ++ z)) (sym e) (Within-left_out log dropped rest))
          h.within;
    exact = λ m. cc;
  }
