-- ===== src/Liquidation/Search/Greatest.antt =====
-- What the search for the greatest passing amount finds, and that it ends.
use native.Mathlib.Nat.{pow-suc, mul_comm}
use alula_liquidator.Prelude.{
  ℕ, zero, suc, ◌+◌, ◌-◌, ◌*◌, ◌/◌, ◌^◌, ◌≤◌, ◌<◌, ◌≡◌, ◌⊎◌, refl, sym, ap, ◌∙◌, dec_lt, inl, inr,
  Bool, true, false, arith, le→leb, lt→ltb, Bool-cases,
}
use alula_liquidator.Prelude.Outcome.{Outcome, ok, returned-via}
use alula_liquidator.Prelude.Int.{ℤ, pos, i128_max, plain_add, plain_sub, plain_div}
use alula_liquidator.Liquidation.Search.{greatest, upper_mid, search_rounds}

abbrev upper_half : ℕ → ℕ → ℕ
upper_half l h = l + (h - l + 1) / 2

upper_mid_pos :
    (l h : ℕ) → 0 < l → l < h → h ≤ i128_max → upper_mid (pos l) (pos h) ≡ ok (pos (upper_half l h))
unfolding upper_mid plain_sub plain_div plain_add
upper_mid_pos l h one lt fits = rw (le→leb l h (omega arith)) (
    rw (le→leb (h - l) i128_max (omega arith)) (
      rw (le→leb (h - l + 1) i128_max (omega arith)) (
        rw (le→leb ((h - l + 1) / 2) i128_max (omega arith))
          (rw (le→leb (l + (h - l + 1) / 2) i128_max (omega arith)) refl))))

-- `r` is the greatest number of a range at which the test can change to failing: `r` passes unless it
-- is the range's start, and the number after `r` fails unless `r` is the range's end.
abbrev IsGreatest : (ℤ → Outcome Bool) → ℕ → ℕ → ℕ → Type 0
IsGreatest test l h r =
    (l ≤ r)
    × (r ≤ h)
    × ((r ≡ l) ⊎ (test (pos r) ≡ ok true))
    × ((r ≡ h) ⊎ (test (pos (r + 1)) ≡ ok false))

greatest_stop :
    (rounds : ℕ) (test : ℤ → Outcome Bool) (h : ℕ)
    → greatest (suc rounds) test (pos h) (pos h) ≡ ok (pos h)
unfolding greatest
greatest_stop rounds test h = ground arith

greatest_pass :
    (rounds : ℕ) (test : ℤ → Outcome Bool) (l h : ℕ)
    → 0 < l
    → l < h
    → h ≤ i128_max
    → test (pos (upper_half l h)) ≡ ok true
    → greatest (suc rounds) test (pos l) (pos h)
      ≡ greatest rounds test (pos (upper_half l h)) (pos h)
unfolding greatest
greatest_pass rounds test l h one lt fits e =
    rw (lt→ltb (l + 0) (h + 0) (omega arith), upper_mid_pos l h one lt fits, e, greatest)

greatest_fail :
    (rounds : ℕ) (test : ℤ → Outcome Bool) (l h : ℕ)
    → 0 < l
    → l < h
    → h ≤ i128_max
    → test (pos (upper_half l h)) ≡ ok false
    → greatest (suc rounds) test (pos l) (pos h)
      ≡ greatest rounds test (pos l) (pos (upper_half l h - 1))
unfolding greatest plain_sub
greatest_fail rounds test l h one lt fits e = rw (
  lt→ltb (l + 0) (h + 0) (omega arith),
  upper_mid_pos l h one lt fits,
  e,
  le→leb 1 (upper_half l h) (omega arith),
  le→leb (upper_half l h - 1) i128_max (omega arith),
  greatest,
)

greatest-zero :
    (test : ℤ → Outcome Bool) (l h : ℕ) (r : ℤ) → greatest zero test (pos l) (pos h) ≡ ok r → ⊥
unfolding greatest
greatest-zero test l h r e = cc

-- The probe of a round that went through returned.
greatest_probe :
    (rounds : ℕ) (test : ℤ → Outcome Bool) (l h : ℕ) (r : ℤ)
    → 0 < l
    → l < h
    → h ≤ i128_max
    → greatest (suc rounds) test (pos l) (pos h) ≡ ok r
    → (b : Bool) × (test (pos (upper_half l h)) ≡ ok b)
unfolding greatest
greatest_probe rounds test l h r one lt fits e =
    let e' =
      rw (lt→ltb (l + 0) (h + 0) (omega arith), upper_mid_pos l h one lt fits, greatest) at e in
    let (b, eb, _) = returned-via (test (pos (upper_half l h))) _ e' in (b, eb)

pub greatest-IsGreatest :
    (rounds : ℕ) (test : ℤ → Outcome Bool) (l h : ℕ) (r : ℤ)
    → 0 < l
    → l ≤ h
    → h ≤ i128_max
    → greatest rounds test (pos l) (pos h) ≡ ok r
    → (n : ℕ) × (r ≡ pos n) × IsGreatest test l h n
greatest-IsGreatest zero test l h r one le fits e = absurd (greatest-zero test l h r e)
greatest-IsGreatest (suc rounds) test l h r one le fits e = elim (dec_lt l h) [
  | no empty ↦
      let same : l ≡ h = omega arith in
      let e' = sym (greatest_stop rounds test h) ∙ rw same at e in
      (h, cc, (omega arith, omega arith, inl (omega arith), inl refl))
  | yes lt ↦
      let (b, eb) = greatest_probe rounds test l h r one lt fits e in
      elim (Bool-cases b) [
        | inl passes ↦
            let et = rw passes at eb in
            let (n, en, ih) =
              greatest-IsGreatest rounds test (upper_half l h) h r (omega arith) (omega arith) fits
                (sym (greatest_pass rounds test l h one lt fits et) ∙ e) in
            (n, en, ground (arith, ih, et))
        | inr fails ↦
            let et = rw fails at eb in
            let (n, en, ih) =
              greatest-IsGreatest rounds test l (upper_half l h - 1) r one (omega arith)
                (omega arith) (sym (greatest_fail rounds test l h one lt fits et) ∙ e) in
            (n, en, ground (arith, ih, et))
      ]
]

two_to_suc : (k : ℕ) → 2 ^ suc k ≡ 2 * 2 ^ k
two_to_suc k = pow-suc 2 k ∙ mul_comm (2 ^ k) 2

-- With a test that returns on the whole range, one round more than the range's width has bits is
-- enough: the search returns.
greatest-total :
    (rounds : ℕ) (test : ℤ → Outcome Bool) (l h : ℕ)
    → 0 < l
    → l ≤ h
    → h ≤ i128_max
    → h - l < 2 ^ rounds
    → ((x : ℕ) → l ≤ x → x ≤ h → (b : Bool) × (test (pos x) ≡ ok b))
    → (r : ℤ) × (greatest (suc rounds) test (pos l) (pos h) ≡ ok r)
greatest-total zero test l h one le fits width total =
    let unit : 2 ^ zero ≡ 1 = refl in
    let same : l ≡ h = omega (arith, unit) in (pos h, rw same (greatest_stop zero test h))
greatest-total (suc rounds) test l h one le fits width total = elim (dec_lt l h) [
  | no empty ↦
      let same : l ≡ h = omega arith in (pos h, rw same (greatest_stop (suc rounds) test h))
  | yes lt ↦
      let w = two_to_suc rounds in
      let (b, eb) = total (upper_half l h) (omega arith) (omega arith) in
      elim (Bool-cases b) [
        | inl passes ↦
            let et = rw passes at eb in
            let (r, er) =
              greatest-total rounds test (upper_half l h) h (omega arith) (omega arith) fits
                (omega (arith, w)) (λ x lx xh. total x (omega arith) xh) in
            (r, greatest_pass (suc rounds) test l h one lt fits et ∙ er)
        | inr fails ↦
            let et = rw fails at eb in
            let (r, er) =
              greatest-total rounds test l (upper_half l h - 1) one (omega arith) (omega arith)
                (omega (arith, w)) (λ x lx xh. total x lx (omega arith)) in
            (r, greatest_fail (suc rounds) test l h one lt fits et ∙ er)
      ]
]

-- For a test that returns on the whole of a range of positive numbers within `i128`: the search with its
-- 128 rounds returns a number of the range that passes unless it is the range's start, and the number
-- after it fails unless it is the range's end.
greatest_finds :
    (test : ℤ → Outcome Bool) (l h : ℕ)
    → 0 < l
    → l ≤ h
    → h ≤ i128_max
    → ((x : ℕ) → l ≤ x → x ≤ h → (b : Bool) × (test (pos x) ≡ ok b))
    → (n : ℕ) × (greatest search_rounds test (pos l) (pos h) ≡ ok (pos n)) × IsGreatest test l h n
greatest_finds test l h one le fits total =
    let (r, er) = greatest-total 127 test l h one le fits (omega arith) total in
    let (n, en, g) = greatest-IsGreatest search_rounds test l h r one le fits er in
    (n, er ∙ ap ok en, g)
