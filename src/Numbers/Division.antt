-- ===== src/Numbers/Division.antt =====
-- Quotient and remainder in server/numbers.c.
use nu_moo.Base.{
  ℕ, zero, suc, ◌+◌, ◌*◌, ◌/◌, ◌%◌, ◌<◌, ◌≡◌, refl, sym, ap, ◌∙◌, ◌≢◌, ◌⊎◌, inl, inr, Bool, true,
  false, ◌&&◌, some, arith, Bool-cases,
}
use mathlib.Core.Path.{subst}
use native.Mathlib.Nat.{mod-add-div', mod-lt}
use nu_moo.Base.Int.{ℤ, pos, negsuc, ◌+ℤ◌, ◌==ℤ◌, ==ℤ_iff}
use nu_moo.Numbers.{
  is_negative, magnitude, with_sign, xor, ◌*ℤ◌, ◌/ℤ◌, ◌%ℤ◌, least, Floats, division_op, do_divide,
  do_modulus,
}
use nu_moo.Value.{int}
use native.Mathlib.Nat.{mod-add-div', mod-lt}

-- A remainder has the sign of the dividend, or is 0.
abbrev pub SignOf : ℤ → ℤ → Type 0
SignOf a r = (r ≡ pos 0) ⊎ (is_negative r ≡ is_negative a)

with_sign-magnitude : (a : ℤ) → with_sign (is_negative a) (magnitude a) ≡ a
unfolding with_sign is_negative
with_sign-magnitude (pos n) = refl
with_sign-magnitude (negsuc n) = refl

magnitude-with_sign : (s : Bool) (n : ℕ) → magnitude (with_sign s n) ≡ n
unfolding with_sign
magnitude-with_sign false n = refl
magnitude-with_sign true zero = refl
magnitude-with_sign true (suc n) = refl

with_sign-add : (s : Bool) (m n : ℕ) → with_sign s m +ℤ with_sign s n ≡ with_sign s (m + n)
unfolding with_sign
with_sign-add false m n = ground arith
with_sign-add true zero zero = refl
with_sign-add true zero (suc n) = ground arith
with_sign-add true (suc m) zero = ground arith
with_sign-add true (suc m) (suc n) = ground arith

with_sign-zero : (s t : Bool) → with_sign s 0 ≡ with_sign t 0
unfolding with_sign
with_sign-zero false false = refl
with_sign-zero false true = refl
with_sign-zero true false = refl
with_sign-zero true true = refl

is_negative-with_sign : (s : Bool) (n : ℕ) → is_negative (with_sign s (suc n)) ≡ s
unfolding is_negative with_sign
is_negative-with_sign false n = refl
is_negative-with_sign true n = refl

xor_twice : (s t : Bool) → xor (xor s t) t ≡ s
xor_twice true true = refl
xor_twice true false = refl
xor_twice false true = refl
xor_twice false false = refl

-- A quotient of a sign, times the divisor.
times_back :
    (s t : Bool) (q : ℕ) (b : ℤ)
    → is_negative b ≡ t
    → with_sign (xor s t) q *ℤ b ≡ with_sign s (q * magnitude b)
unfolding ◌*ℤ◌
times_back s t zero b e =
    with_sign-zero_of (xor (is_negative (with_sign (xor s t) 0)) (is_negative b)) s
      (magnitude (with_sign (xor s t) 0) * magnitude b) (0 * magnitude b)
      (omega (arith, ap (λ n. n * magnitude b) (magnitude-with_sign (xor s t) 0))) (omega arith)
  where
    with_sign-zero_of : (u v : Bool) (m n : ℕ) → m ≡ 0 → n ≡ 0 → with_sign u m ≡ with_sign v n
    with_sign-zero_of u v m n f g =
        ap (with_sign u) f ∙ with_sign-zero u v ∙ ap (with_sign v) (sym g)
times_back s t (suc q) b e =
    ap
      (λ n.
        with_sign (xor (is_negative (with_sign (xor s t) (suc q))) (is_negative b))
          (n * magnitude b))
      (magnitude-with_sign (xor s t) (suc q))
    ∙ ap (λ u. with_sign (xor u (is_negative b)) (suc q * magnitude b))
        (is_negative-with_sign (xor s t) q)
    ∙ ap (λ u. with_sign (xor (xor s t) u) (suc q * magnitude b)) e
    ∙ ap (λ u. with_sign u (suc q * magnitude b)) (xor_twice s t)

divided : (m n : ℕ) → m / n * n + m % n ≡ m
divided m n = swapped (m % n) (m / n * n) ∙ mod-add-div' m n
  where
    swapped : (r p : ℕ) → p + r ≡ r + p
    swapped r p = omega arith

div-mod-whole : (a b : ℤ) → (a /ℤ b) *ℤ b +ℤ (a %ℤ b) ≡ a
unfolding ◌/ℤ◌ ◌%ℤ◌
div-mod-whole a b =
    ap (λ p. p +ℤ (a %ℤ b))
      (times_back (is_negative a) (is_negative b) (magnitude a / magnitude b) b refl)
    ∙ with_sign-add (is_negative a) (magnitude a / magnitude b * magnitude b)
        (magnitude a % magnitude b)
    ∙ ap (with_sign (is_negative a)) (divided (magnitude a) (magnitude b))
    ∙ with_sign-magnitude a

magnitude-pos : (b : ℤ) → b ≢ pos 0 → 0 < magnitude b
magnitude-pos (pos zero) ne = absurd (ne refl)
magnitude-pos (pos (suc n)) ne = omega arith
magnitude-pos (negsuc n) ne = omega arith

rest_sign : (s : Bool) (n : ℕ) → (with_sign s n ≡ pos 0) ⊎ (is_negative (with_sign s n) ≡ s)
unfolding with_sign is_negative
rest_sign false n = inr refl
rest_sign true zero = inl refl
rest_sign true (suc n) = inr refl

module _ (f : Floats) where
  run_division :
      (iop : ℤ → ℤ → ℤ) (fop : ℕ → ℕ → ℕ) (a b : ℤ)
      → b ≢ pos 0
      → ((a ==ℤ least) && (b ==ℤ negsuc 0)) ≡ false
      → division_op f iop fop (int a) (int b) ≡ some (int (iop a b))
  unfolding division_op
  run_division iop fop a b ne fits = elim (Bool-cases (b ==ℤ pos 0)) [
    | inl e ↦ absurd (ne ((==ℤ_iff b (pos 0)).0 e))
    | inr e ↦ rw (e, fits) refl
  ]

  -- `do_divide` and `do_modulus` of integers, for a divisor other than 0 and unless the least number
  -- is divided by -1, give a quotient and a remainder: quotient times divisor and remainder make the
  -- dividend, the remainder is smaller than the divisor in magnitude, and has the dividend's sign or
  -- is 0.
  pub do_divide-do_modulus :
      (a b : ℤ)
      → b ≢ pos 0
      → ((a ==ℤ least) && (b ==ℤ negsuc 0)) ≡ false
      → (q r : ℤ) × (do_divide f (int a) (int b) ≡ some (int q))
        × (do_modulus f (int a) (int b) ≡ some (int r))
        × (q *ℤ b +ℤ r ≡ a)
        × (magnitude r < magnitude b)
        × SignOf a r
  unfolding do_divide do_modulus ◌%ℤ◌
  do_divide-do_modulus a b ne fits = (
    a /ℤ b,
    a %ℤ b,
    run_division (λ a b. a /ℤ b) f.divide a b ne fits,
    run_division (λ a b. a %ℤ b) f.fmod a b ne fits,
    div-mod-whole a b,
    small a b (magnitude-pos b ne),
    sign a b,
  )
    where
      below : (m n : ℕ) → 0 < n → m % n < n
      below m n h = mod-lt m h

      small : (a b : ℤ) → 0 < magnitude b → magnitude (a %ℤ b) < magnitude b
      small a b h =
          subst (λ n. n < magnitude b)
            (sym (magnitude-with_sign (is_negative a) (magnitude a % magnitude b)))
            (below (magnitude a) (magnitude b) h)

      sign : (a b : ℤ) → SignOf a (a %ℤ b)
      sign a b = rest_sign (is_negative a) (magnitude a % magnitude b)
