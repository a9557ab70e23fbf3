-- ===== src/Liquidation/Search/Least.antt =====
-- What the search for the least passing amount finds, and that it ends.
use alula_liquidator.Prelude.{
  ℕ, zero, suc, ◌+◌, ◌-◌, ◌*◌, ◌/◌, ◌^◌, ◌≤◌, ◌<◌, ◌≡◌, ◌⊎◌, refl, sym, ap, ◌∙◌, dec_lt, inl, inr,
  Bool, true, false, arith, le→leb, lt→ltb, Bool-cases,
}
use native.Mathlib.Nat.{pow-suc, mul_comm}
use alula_liquidator.Prelude.Outcome.{Outcome, ok, returned-via}
use alula_liquidator.Prelude.Int.{ℤ, pos, i128_max, plain_add, plain_sub, plain_div}
use alula_liquidator.Liquidation.Search.{least, lower_mid, search_rounds}

lower_mid_pos :
    (l h : ℕ) → l < h → h ≤ i128_max → lower_mid (pos l) (pos h) ≡ ok (pos (l + (h - l) / 2))
unfolding lower_mid plain_sub plain_div plain_add
lower_mid_pos l h lt fits = rw (le→leb l h (omega arith)) (
    rw (le→leb (h - l) i128_max (omega arith)) (
      rw (le→leb ((h - l) / 2) i128_max (omega arith))
        (rw (le→leb (l + (h - l) / 2) i128_max (omega arith)) refl)))

abbrev half_way : ℕ → ℕ → ℕ
half_way l h = l + (h - l) / 2

least_stop :
    (rounds : ℕ) (test : ℤ → Outcome Bool) (h : ℕ)
    → least (suc rounds) test (pos h) (pos h) ≡ ok (pos h)
unfolding least
least_stop rounds test h = ground arith

least_pass :
    (rounds : ℕ) (test : ℤ → Outcome Bool) (l h : ℕ)
    → l < h
    → h ≤ i128_max
    → test (pos (half_way l h)) ≡ ok true
    → least (suc rounds) test (pos l) (pos h) ≡ least rounds test (pos l) (pos (half_way l h))
unfolding least
least_pass rounds test l h lt fits e =
    rw (lt→ltb (l + 0) (h + 0) (omega arith), lower_mid_pos l h lt fits, e, least)

least_fail :
    (rounds : ℕ) (test : ℤ → Outcome Bool) (l h : ℕ)
    → l < h
    → h ≤ i128_max
    → test (pos (half_way l h)) ≡ ok false
    → least (suc rounds) test (pos l) (pos h) ≡ least rounds test (pos (half_way l h + 1)) (pos h)
unfolding least plain_add
least_fail rounds test l h lt fits e = rw (
  lt→ltb (l + 0) (h + 0) (omega arith),
  lower_mid_pos l h lt fits,
  e,
  le→leb (half_way l h + 1) i128_max (omega arith),
  least,
)

-- `r` is the least number of a range at which the test can change to passing: `r` passes unless it is
-- the range's end, and the number before `r` fails unless `r` is the range's start.
abbrev pub IsLeast : (ℤ → Outcome Bool) → ℕ → ℕ → ℕ → Type 0
IsLeast test l h r =
    (l ≤ r)
    × (r ≤ h)
    × ((r ≡ h) ⊎ (test (pos r) ≡ ok true))
    × ((r ≡ l) ⊎ (test (pos (r - 1)) ≡ ok false))

least-zero :
    (test : ℤ → Outcome Bool) (l h : ℕ) (r : ℤ) → least zero test (pos l) (pos h) ≡ ok r → ⊥
unfolding least
least-zero test l h r e = cc

-- The probe of a round that went through returned.
least_probe :
    (rounds : ℕ) (test : ℤ → Outcome Bool) (l h : ℕ) (r : ℤ)
    → l < h
    → h ≤ i128_max
    → least (suc rounds) test (pos l) (pos h) ≡ ok r
    → (b : Bool) × (test (pos (half_way l h)) ≡ ok b)
unfolding least
least_probe rounds test l h r lt fits e =
    let e' = rw (lt→ltb (l + 0) (h + 0) (omega arith), lower_mid_pos l h lt fits, least) at e in
    let (b, eb, _) = returned-via (test (pos (half_way l h))) _ e' in (b, eb)

pub least-IsLeast :
    (rounds : ℕ) (test : ℤ → Outcome Bool) (l h : ℕ) (r : ℤ)
    → l ≤ h
    → h ≤ i128_max
    → least rounds test (pos l) (pos h) ≡ ok r
    → (n : ℕ) × (r ≡ pos n) × IsLeast test l h n
least-IsLeast zero test l h r le fits e = absurd (least-zero test l h r e)
least-IsLeast (suc rounds) test l h r le fits e = elim (dec_lt l h) [
  | no empty ↦
      let same : l ≡ h = omega arith in
      let e' = sym (least_stop rounds test h) ∙ rw same at e in
      (h, cc, (omega arith, omega arith, inl refl, inl (omega arith)))
  | yes lt ↦
      let (b, eb) = least_probe rounds test l h r lt fits e in
      elim (Bool-cases b) [
        | inl passes ↦
            let et = rw passes at eb in
            let (n, en, ih) =
              least-IsLeast rounds test l (half_way l h) r (omega arith) (omega arith)
                (sym (least_pass rounds test l h lt fits et) ∙ e) in
            (n, en, ground (arith, ih, et))
        | inr fails ↦
            let et = rw fails at eb in
            let (n, en, ih) =
              least-IsLeast rounds test (half_way l h + 1) h r (omega arith) fits
                (sym (least_fail rounds test l h lt fits et) ∙ e) in
            (n, en, ground (arith, ih, et))
      ]
]

two_to_suc : (k : ℕ) → 2 ^ suc k ≡ 2 * 2 ^ k
two_to_suc k = pow-suc 2 k ∙ mul_comm (2 ^ k) 2

-- With a test that returns on the whole range, one round more than the range's width has bits is
-- enough: the search returns.
least-total :
    (rounds : ℕ) (test : ℤ → Outcome Bool) (l h : ℕ)
    → l ≤ h
    → h ≤ i128_max
    → h - l < 2 ^ rounds
    → ((x : ℕ) → l ≤ x → x ≤ h → (b : Bool) × (test (pos x) ≡ ok b))
    → (r : ℤ) × (least (suc rounds) test (pos l) (pos h) ≡ ok r)
least-total zero test l h le fits width total =
    let one : 2 ^ zero ≡ 1 = refl in
    let same : l ≡ h = omega (arith, one) in (pos h, rw same (least_stop zero test h))
least-total (suc rounds) test l h le fits width total = elim (dec_lt l h) [
  | no empty ↦ let same : l ≡ h = omega arith in (pos h, rw same (least_stop (suc rounds) test h))
  | yes lt ↦
      let w = two_to_suc rounds in
      let (b, eb) = total (half_way l h) (omega arith) (omega arith) in
      elim (Bool-cases b) [
        | inl passes ↦
            let et = rw passes at eb in
            let (r, er) =
              least-total rounds test l (half_way l h) (omega arith) (omega arith)
                (omega (arith, w)) (λ x lx xh. total x lx (omega arith)) in
            (r, least_pass (suc rounds) test l h lt fits et ∙ er)
        | inr fails ↦
            let et = rw fails at eb in
            let (r, er) =
              least-total rounds test (half_way l h + 1) h (omega arith) fits (omega (arith, w))
                (λ x lx xh. total x (omega arith) xh) in
            (r, least_fail (suc rounds) test l h lt fits et ∙ er)
      ]
]

-- For a test that returns on the whole of a range within `i128`: the search with its 128 rounds returns
-- a number of the range that passes unless it is the range's end, and the number before it fails unless
-- it is the range's start.
pub least_finds :
    (test : ℤ → Outcome Bool) (l h : ℕ)
    → l ≤ h
    → h ≤ i128_max
    → ((x : ℕ) → l ≤ x → x ≤ h → (b : Bool) × (test (pos x) ≡ ok b))
    → (n : ℕ) × (least search_rounds test (pos l) (pos h) ≡ ok (pos n)) × IsLeast test l h n
least_finds test l h le fits total =
    let (r, er) = least-total 127 test l h le fits (omega arith) total in
    let (n, en, g) = least-IsLeast search_rounds test l h r le fits er in (n, er ∙ ap ok en, g)
