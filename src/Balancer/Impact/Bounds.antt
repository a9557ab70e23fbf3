-- ===== src/Balancer/Impact/Bounds.antt =====
-- What an admitted price impact says of the amounts (`compute_swap_price_impact` of balancer.rs).
use alula_liquidator.Prelude.{
  ℕ, ◌+◌, ◌-◌, ◌*◌, ◌/◌, ◌^◌, ◌≤◌, ◌<◌, ◌≡◌, refl, sym, subst, ◌∙◌, ap, false, ◌||◌, Option, some,
  none, inl, inr, Bool-cases, arith, leb, mul_le_mul,
}
use alula_liquidator.Prelude.Int.{
  ℤ, pos, negsuc, ◌≤ℤ◌, leb_ℤ, checked, checked_sub, checked_mul, checked_div, checked_pow10,
}
use alula_liquidator.Amount.{bps_factor}
use alula_liquidator.Balancer.Impact.{
  SwapPriceImpact, ◌>>=◌, abs_diff, price_sides, compute_swap_price_impact,
}

bind-eq-some {ℓ κ} :
    {A : Type ℓ} {B : Type κ} (o : Option A) (f : A → Option B) {b : B}
    → (o >>= f) ≡ some b
    → (a : A) × (o ≡ some a) × (f a ≡ some b)
bind-eq-some none f h = cc
bind-eq-some (some a) f h = (a, refl, h)

checked-eq : (z r : ℤ) → checked z ≡ some r → r ≡ z
unfolding checked
checked-eq (pos n) r h = ground (arith, h)
checked-eq (negsuc n) r h = ground (arith, h)

product_is : (a b : ℕ) (r : ℤ) → checked_mul (pos a) (pos b) ≡ some r → r ≡ pos (a * b)
unfolding checked_mul
product_is a b r h = checked-eq (pos (a * b)) r h

power_is : (n : ℕ) (r : ℤ) → checked_pow10 n ≡ some r → r ≡ pos (10 ^ n)
unfolding checked_pow10
power_is n r h = checked-eq (pos (10 ^ n)) r h

quotient_is : (a b : ℕ) (r : ℤ) → 0 < b → checked_div (pos a) (pos b) ≡ some r → r ≡ pos (a / b)
unfolding checked_div checked
quotient_is a b r h k = ground (arith, h, k)

quotient_le : (a b : ℕ) → 0 < b → (a / b) * b ≤ a
quotient_le a b h = ground arith

quotient_gt : (a b m : ℕ) → 0 < b → a / b ≤ m → a < (m + 1) * b
quotient_gt a b m h k =
    let above : a < (a / b + 1) * b = omega (arith, h) in
    omega (arith, above, mul_le_mul (a / b + 1) (m + 1) b (omega (arith, k)))

difference_is : (p e : ℕ) (r : ℤ) → e ≤ p → checked_sub (pos p) (pos e) ≡ some r → r ≡ pos (p - e)
unfolding checked_sub checked
difference_is p e r h k = ground (arith, h, k)

at_most_pos : (a b : ℕ) → pos a ≤ℤ pos b → a ≤ b
at_most_pos a b h = omega (arith, h)

-- The difference of the prices, in basis points, is at most `m`.
price_kept :
    (p e m : ℕ) (diff scaled bps : ℤ)
    → 0 < p
    → checked_sub (pos p) (pos e) ≡ some diff
    → checked_mul diff bps_factor ≡ some scaled
    → checked_div scaled (pos p) ≡ some bps
    → bps ≤ℤ pos m
    → 10000 * p < 10000 * e + (m + 1) * p
price_kept p e m diff scaled bps h ds ms bs le = elim (Bool-cases (leb e p)) [
  | inl t ↦
      let below : e ≤ p = ground (arith, t) in
      let d : diff ≡ pos (p - e) = difference_is p e diff below ds in
      let s : scaled ≡ pos ((p - e) * 10000) =
        product_is (p - e) 10000 scaled
          (subst (λ z. checked_mul z bps_factor ≡ some scaled) d ms) in
      let b : bps ≡ pos ((p - e) * 10000 / p) =
        quotient_is ((p - e) * 10000) p bps h
          (subst (λ z. checked_div z (pos p) ≡ some bps) s bs) in
      let small : (p - e) * 10000 / p ≤ m =
        at_most_pos ((p - e) * 10000 / p) m (subst (λ z. z ≤ℤ pos m) b le) in
      omega (arith, quotient_gt ((p - e) * 10000) p m h small, below)
  | inr f ↦ let above : p < e = ground (arith, f) in omega (arith, above)
]

some_pair : {p q : ℤ × ℤ} → some p ≡ some q → p ≡ q
some_pair h = cc

one_times : (n k : ℕ) → k ≡ 0 → n ≡ n * 10 ^ k
one_times n k h = subst (λ z. n ≡ n * 10 ^ z) (sym h) (omega arith)

-- What comes out, on the scale of what goes in: the numerator of the realised price and its denominator.
abbrev pub output : (amount_out in_decimals out_decimals price_decimals : ℕ) → ℕ
output amount_out in_decimals out_decimals price_decimals =
    amount_out * 10 ^ price_decimals * 10 ^ (in_decimals - out_decimals)

abbrev pub input : (amount_in in_decimals out_decimals : ℕ) → ℕ
input amount_in in_decimals out_decimals = amount_in * 10 ^ (out_decimals - in_decimals)

sides_are :
    (amount_in amount_out a b d : ℕ) (scale correction : ℤ) (sides : ℤ × ℤ)
    → scale ≡ pos (10 ^ d)
    → correction ≡ pos (10 ^ abs_diff a b)
    → price_sides (pos amount_in) (pos amount_out) scale correction a b ≡ some sides
    → (sides.0 ≡ pos (output amount_out a b d)) × (sides.1 ≡ pos (input amount_in a b))
unfolding price_sides
sides_are amount_in amount_out a b d scale correction sides se ce h = elim (Bool-cases (leb b a)) [
  | inl t ↦
      let le : b ≤ a = ground (arith, t) in
      let up : abs_diff a b ≡ a - b = omega (arith, le) in
      let flat : b - a ≡ 0 = omega (arith, le) in
      let (scaled, s, h₁) = bind-eq-some (checked_mul (pos amount_out) scale) _ (rw t at h) in
      let (numerator, n, h₂) = bind-eq-some (checked_mul scaled correction) _ h₁ in
      let scaled_is =
        product_is amount_out (10 ^ d) scaled
          (subst (λ z. checked_mul (pos amount_out) z ≡ some scaled) se s) in
      let numerator_is = product_is (amount_out * 10 ^ d) (10 ^ (a - b)) numerator (
        subst (λ z. checked_mul z (pos (10 ^ (a - b))) ≡ some numerator) scaled_is
          (subst (λ z. checked_mul scaled z ≡ some numerator) (ce ∙ ap (λ z. pos (10 ^ z)) up)
            n)) in
      let same = some_pair h₂ in
      (
        ap (λ z. z.0) (sym same) ∙ numerator_is,
        ap (λ z. z.1) (sym same) ∙ ap (λ z. pos z) (one_times amount_in (b - a) flat),
      )
  | inr f ↦
      let le : a ≤ b = ground (arith, f) in
      let down : abs_diff a b ≡ b - a = omega (arith, le) in
      let flat : a - b ≡ 0 = omega (arith, le) in
      let (numerator, n, h₁) = bind-eq-some (checked_mul (pos amount_out) scale) _ (rw f at h) in
      let (denominator, m, h₂) = bind-eq-some (checked_mul (pos amount_in) correction) _ h₁ in
      let numerator_is =
        product_is amount_out (10 ^ d) numerator
          (subst (λ z. checked_mul (pos amount_out) z ≡ some numerator) se n) in
      let denominator_is = product_is amount_in (10 ^ (b - a)) denominator (
        subst (λ z. checked_mul (pos amount_in) z ≡ some denominator)
          (ce ∙ ap (λ z. pos (10 ^ z)) down) m) in
      let same = some_pair h₂ in
      (
        ap (λ z. z.0) (sym same)
            ∙ numerator_is
            ∙ ap (λ z. pos z) (one_times (amount_out * 10 ^ d) (a - b) flat),
        ap (λ z. z.1) (sym same) ∙ denominator_is,
      )
]

second_positive : (a p : ℕ) → (leb_ℤ (pos a) (pos 0) || leb_ℤ (pos p) (pos 0)) ≡ false → 0 < p
second_positive a p h = ground (arith, h)

divisor_positive : (a b : ℕ) (r : ℤ) → checked_div (pos a) (pos b) ≡ some r → 0 < b
unfolding checked_div
divisor_positive a b r h = ground (arith, h)

scaled_up :
    (p e m num den : ℕ)
    → 0 < den
    → e * den ≤ num
    → 10000 * p < 10000 * e + (m + 1) * p
    → 10000 * (p * den) < 10000 * num + (m + 1) * (p * den)
scaled_up p e m num den h le k =
    let times = mul_le_mul (10000 * p + 1) (10000 * e + (m + 1) * p) den (omega (arith, k)) in
    omega (arith, times, le, h)

-- An admitted swap returns nearly what the oracle's price asks for. If the impact is computed on a
-- price and on amounts that are not negative, and is at most `m` basis points, then more than `9999 - m` ten-thousandths
-- of the price times the input, each side brought to one scale of decimals, come out.
pub compute_swap_price_impact-bounds :
    (price amount_in amount_out in_decimals out_decimals price_decimals m : ℕ)
    (impact : SwapPriceImpact)
    → compute_swap_price_impact
        (pos price)
        (pos amount_in)
        (pos amount_out)
        in_decimals
        out_decimals
        price_decimals
      ≡ some impact
    → impact.bps ≤ℤ pos m
    → 10000 * (price * input amount_in in_decimals out_decimals)
      < 10000 * output amount_out in_decimals out_decimals price_decimals
        + (m + 1) * (price * input amount_in in_decimals out_decimals)
unfolding compute_swap_price_impact
compute_swap_price_impact-bounds price amount_in amount_out a b d m impact h le =
    elim (Bool-cases (leb_ℤ (pos amount_in) (pos 0) || leb_ℤ (pos price) (pos 0))) [
      | inl t ↦ absurd (never (rw t at h))
      | inr f ↦
          let price_positive : 0 < price = second_positive amount_in price f in
          let (scale, s, h₁) = bind-eq-some (checked_pow10 d) _ (rw f at h) in
          let (correction, c, h₂) = bind-eq-some (checked_pow10 (abs_diff a b)) _ h₁ in
          let (sides, ss, h₃) =
            bind-eq-some (price_sides (pos amount_in) (pos amount_out) scale correction a b) _ h₂ in
          let (e, es, h₄) = bind-eq-some (checked_div sides.0 sides.1) _ h₃ in
          let (diff, ds, h₅) = bind-eq-some (checked_sub (pos price) e) _ h₄ in
          let (scaled, ms, h₆) = bind-eq-some (checked_mul diff bps_factor) _ h₅ in
          let (bps, bs, h₇) = bind-eq-some (checked_div scaled (pos price)) _ h₆ in
          let is =
            sides_are amount_in amount_out a b d scale correction sides (power_is d scale s)
              (power_is (abs_diff a b) correction c) ss in
          let divided =
            subst (λ z. checked_div (pos (output amount_out a b d)) z ≡ some e) is.1
              (subst (λ z. checked_div z sides.1 ≡ some e) is.0 es) in
          let input_positive =
            divisor_positive (output amount_out a b d) (input amount_in a b) e divided in
          let quotient =
            quotient_is (output amount_out a b d) (input amount_in a b) e input_positive divided in
          let kept =
            price_kept price (output amount_out a b d / input amount_in a b) m diff scaled bps
              price_positive (subst (λ z. checked_sub (pos price) z ≡ some diff) quotient ds) ms bs
              (subst (λ z. z ≤ℤ pos m) (bps_of h₇) le) in
          scaled_up price (output amount_out a b d / input amount_in a b) m
            (output amount_out a b d) (input amount_in a b) input_positive
            (quotient_le (output amount_out a b d) (input amount_in a b) input_positive) kept
    ]
  where
    never : none ≡ some impact → ⊥
    never k = cc

    bps_of :
        {x y : ℤ}
        → some (record { bps = x; execution_price_scaled = y }) ≡ some impact
        → impact.bps ≡ x
    bps_of k = cc
