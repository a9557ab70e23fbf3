-- ===== src/Liquidator/Quotes/Best.antt =====
-- The best of the providers' answers (`best_swap_quote` and `best_swap_base` of liquidator.rs).
use alula_liquidator.Prelude.{
  ℕ, suc, ◌≡◌, refl, sym, subst, ap, ◌∙◌, ◌⊎◌, inl, inr, String, Bool, true, false, Option, some,
  none, List, [], ◌∷◌, In, arith, Bool-cases, if◌then◌else◌,
}
use alula_liquidator.Prelude.Int.{ℤ, pos, ltb_ℤ, ◌≤ℤ◌}
use alula_liquidator.World.{Surroundings, World, value, waited, await}
use alula_liquidator.Liquidator.Quotes.{
  beats, improve, best_out_from, best_swap_quote, best_in_from, best_swap_base,
}

-- The positive amounts that the providers answer, asked in turn from the question `n` on.
abbrev pub offered : String → Option ℤ → List (String × ℤ) → List (String × ℤ)
offered provider none rest = rest
offered provider (some amount) rest =
    if ltb_ℤ (pos 0) amount then (provider, amount) ∷ rest else rest

abbrev pub offers : (ℕ → String → Option ℤ) → ℕ → List String → List (String × ℤ)
offers answer n [] = []
offers answer n (provider ∷ rest) =
    offered provider (answer n provider) (offers answer (suc n) rest)

-- The choice is one of the offers, and no offer beats it; there is none where there is no offer.
abbrev pub IsBest : (ℤ → ℤ → Type 0) → Option (String × ℤ) → List (String × ℤ) → Type 0
IsBest AtMost none l = l ≡ []
IsBest AtMost (some best) l = In best l × ((o : String × ℤ) → In o l → AtMost o.1 best.1)

module _ (better : ℤ → ℤ → Bool) where
  abbrev one_better : (provider : String) (amount : ℤ) → Option (String × ℤ) → Option (String × ℤ)
  one_better provider amount best =
      if beats better amount best then some (provider, amount) else best

  choose : List (String × ℤ) → Option (String × ℤ) → Option (String × ℤ)
  choose [] best = best
  choose ((provider, amount) ∷ rest) best = choose rest (one_better provider amount best)

  -- One step of a loop over the providers is one step of the choice.
  improve-choose :
      (provider : String) (answer : Option ℤ) (rest : List (String × ℤ))
      (best : Option (String × ℤ))
      → choose rest (improve better provider answer best)
        ≡ choose (offered provider answer rest) best
  unfolding improve choose
  improve-choose provider none rest best = refl
  improve-choose provider (some a) rest best = elim (Bool-cases (ltb_ℤ (pos 0) a)) [
    | inl t ↦ rw t refl
    | inr f ↦ rw f refl
  ]

module _ (better : ℤ → ℤ → Bool) (AtMost : ℤ → ℤ → Type 0)
    (yes : (a b : ℤ) → better a b ≡ true → AtMost b a)
    (no : (a b : ℤ) → better a b ≡ false → AtMost a b)
    (trans : (a b c : ℤ) → AtMost a b → AtMost b c → AtMost a c) (same : (a : ℤ) → AtMost a a) where
  -- From a best so far: the choice is it or an offer, and at least every offer and it.
  choose_best :
      (l : List (String × ℤ)) (b : String × ℤ)
      → (r : String × ℤ) × (choose better l (some b) ≡ some r)
        × ((r ≡ b) ⊎ In r l)
        × AtMost b.1 r.1
        × ((o : String × ℤ) → In o l → AtMost o.1 r.1)
  unfolding choose
  choose_best [] b = (b, refl, inl refl, same b.1, λ o i. absurd i)
  choose_best ((p, a) ∷ rest) (q, c) = elim (Bool-cases (better a c)) [
    | inl t ↦
        let (r, e, w, le, all) = choose_best rest (p, a) in
        (
          r,
          rw t e,
          elim w [ inl x ↦ inr (inl x) | inr x ↦ inr (inr x) ],
          trans c a r.1 (yes a c t) le,
          λ o i. elim i [
            | inl x ↦ subst (λ (z : String × ℤ). AtMost z.1 r.1) (sym x) le
            | inr x ↦ all o x
          ],
        )
    | inr f ↦
        let (r, e, w, le, all) = choose_best rest (q, c) in
        (
          r,
          rw f e,
          elim w [ inl x ↦ inl x | inr x ↦ inr (inr x) ],
          le,
          λ o i. elim i [
            | inl x ↦
                subst (λ (z : String × ℤ). AtMost z.1 r.1) (sym x) (trans a c r.1 (no a c f) le)
            | inr x ↦ all o x
          ],
        )
  ]

  choose-IsBest : (l : List (String × ℤ)) → IsBest AtMost (choose better l none) l
  unfolding choose
  choose-IsBest [] = refl
  choose-IsBest ((p, a) ∷ rest) =
      let (r, e, w, le, all) = choose_best rest (p, a) in
      subst (λ z. IsBest AtMost z ((p, a) ∷ rest)) (sym e)
        (
          elim w [ inl x ↦ inl x | inr x ↦ inr x ],
          λ o i. elim i [
            | inl x ↦ subst (λ (z : String × ℤ). AtMost z.1 r.1) (sym x) le
            | inr x ↦ all o x
          ],
        )

abbrev more : ℤ → ℤ → Bool
more a b = ltb_ℤ b a

more_yes : (a b : ℤ) → more a b ≡ true → b ≤ℤ a
more_yes a b h = ground (arith, h)

more_no : (a b : ℤ) → more a b ≡ false → a ≤ℤ b
more_no a b h = ground (arith, h)

at_most_trans : (a b c : ℤ) → a ≤ℤ b → b ≤ℤ c → a ≤ℤ c
at_most_trans a b c h k = omega (arith, h, k)

module _ (env : Surroundings) (amount : ℤ) (asset_in asset_out : String) where
  -- What each provider answers, by the number of the question.
  abbrev pub out_answers : ℕ → String → Option ℤ
  out_answers n provider = env.get_amount_out n amount asset_in asset_out provider

  abbrev in_answers : ℕ → String → Option ℤ
  in_answers n provider = env.get_amount_in n amount asset_in asset_out provider

  best_out_from-choose :
      (providers : List String) (best : Option (String × ℤ)) (w : World)
      → (w' : World) × (best_out_from env amount asset_in asset_out providers best w
          ≡ value (choose more (offers out_answers w.tick providers) best) w')
  unfolding best_out_from await choose
  best_out_from-choose [] best w = (w, refl)
  best_out_from-choose (provider ∷ rest) best w =
      let answer = out_answers w.tick provider in
      let (w', e) = best_out_from-choose rest (improve more provider answer best) (waited env w) in
      (
        w',
        e
            ∙ ap (λ z. value z w')
                (improve-choose more provider answer (offers out_answers (suc w.tick) rest) best),
      )

  best_in_from-choose :
      (providers : List String) (best : Option (String × ℤ)) (w : World)
      → (w' : World) × (best_in_from env amount asset_in asset_out providers best w
          ≡ value (choose ltb_ℤ (offers in_answers w.tick providers) best) w')
  unfolding best_in_from await choose
  best_in_from-choose [] best w = (w, refl)
  best_in_from-choose (provider ∷ rest) best w =
      let answer = in_answers w.tick provider in
      let (w', e) = best_in_from-choose rest (improve ltb_ℤ provider answer best) (waited env w) in
      (
        w',
        e
            ∙ ap (λ z. value z w')
                (improve-choose ltb_ℤ provider answer (offers in_answers (suc w.tick) rest) best),
      )

  -- The call always returns, and with the largest of the positive amounts that the providers answer, or
  -- with none where there is no such answer.
  pub best_swap_quote-IsBest :
      (providers : List String) (w : World)
      → (r : Option (String × ℤ)) × (w' : World) × (best_swap_quote env providers amount asset_in
            asset_out w
          ≡ value r w')
        × IsBest (λ a b. a ≤ℤ b) r (offers out_answers w.tick providers)
  unfolding best_swap_quote
  best_swap_quote-IsBest providers w =
      let (w', e) = best_out_from-choose providers none w in
      (
        choose more (offers out_answers w.tick providers) none,
        w',
        e,
        choose-IsBest more (λ a b. a ≤ℤ b) more_yes more_no at_most_trans (λ a. omega arith)
            (offers out_answers w.tick providers),
      )

  -- The call always returns, and with the smallest of the positive amounts that the providers answer, or
  -- with none where there is no such answer.
  best_swap_base-IsBest :
      (providers : List String) (w : World)
      → (r : Option (String × ℤ)) × (w' : World) × (best_swap_base env providers amount asset_in
            asset_out w
          ≡ value r w')
        × IsBest (λ a b. b ≤ℤ a) r (offers in_answers w.tick providers)
  unfolding best_swap_base
  best_swap_base-IsBest providers w =
      let (w', e) = best_in_from-choose providers none w in
      (
        choose ltb_ℤ (offers in_answers w.tick providers) none,
        w',
        e,
        choose-IsBest ltb_ℤ (λ a b. b ≤ℤ a) (λ a b. more_yes b a) (λ a b. more_no b a)
            (λ a b c h k. at_most_trans c b a k h) (λ a. omega arith)
            (offers in_answers w.tick providers),
      )
