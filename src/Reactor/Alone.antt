-- ===== src/Reactor/Alone.antt =====
-- What a strategy does on its own with a sequence of events, and how one more event extends it (the loop
-- of a strategy's task in engine/src/reactor/mod.rs).
use alula_liquidator.Prelude.{◌≡◌, refl, sym, ap, ◌∙◌, List, [], ◌∷◌, ◌++◌}
use mathlib.Core.List.{append_assoc, append-nil}

module _ {E A S : Type 0} (process_event : S → E → List A × S) where
  -- The state after the events, and the actions that they give, the first first.
  abbrev pub state_after : S → List E → S
  state_after s [] = s
  state_after s (e ∷ l) = state_after (process_event s e).1 l

  abbrev pub outputs : S → List E → List A
  outputs s [] = []
  outputs s (e ∷ l) = (process_event s e).0 ++ outputs (process_event s e).1 l

  pub state_after-snoc :
      (s : S) (l : List E) (e : E)
      → state_after s (l ++ e ∷ []) ≡ (process_event (state_after s l) e).1
  state_after-snoc s [] e = refl
  state_after-snoc s (x ∷ l) e = state_after-snoc (process_event s x).1 l e

  pub outputs-snoc :
      (s : S) (l : List E) (e : E)
      → outputs s (l ++ e ∷ []) ≡ outputs s l ++ (process_event (state_after s l) e).0
  outputs-snoc s [] e = append-nil (process_event s e).0
  outputs-snoc s (x ∷ l) e =
      let t = (process_event s x).1 in
      ap (λ z. (process_event s x).0 ++ z) (outputs-snoc t l e)
      ∙ sym (append_assoc (process_event s x).0 (outputs t l) (process_event (state_after t l) e).0)
