-- ===== src/Numbers/Power.antt =====
-- The integer powers of server/numbers.c.
use nu_moo.Base.{
  ℕ, zero, suc, ◌+◌, ◌*◌, ◌/◌, ◌%◌, ◌^◌, ◌<◌, ◌≡◌, refl, sym, ap, ◌∙◌, ◌⊎◌, inl, inr, Bool, true,
  false, some, arith, ◌==◌, if◌then◌else◌, ==_iff, Bool-cases, ◌>>=◌, pow_zero, pow_suc,
}
use mathlib.Core.Path.{subst}
use native.Mathlib.Nat.{mod-add-div, add-mul-mod_self_left}
use nu_moo.Base.Int.{ℤ, pos, negsuc, ◌-ℤ◌}
use nu_moo.Numbers.{
  two_64, two_63, word, num_of_word, Floats, power_loop, negative_power, integer_power, do_power,
}
use nu_moo.Value.{int}
use native.Mathlib.Nat.{mod-add-div, add-mul-mod_self_left}
use native.Mathlib.Nat.{mod-add-div, add-mul-mod_self_left}

module _ (m : ℕ) where
  mul_mod : (x y : ℕ) → x % m * y % m ≡ x * y % m
  mul_mod x y =
      sym (add-mul-mod_self_left (x % m * y) m (x / m * y))
      ∙ ap (λ n. n % m) (multiplied (x % m) (x / m) y ∙ ap (λ n. n * y) (mod-add-div x m))
    where
      multiplied : (r q y : ℕ) → r * y + m * (q * y) ≡ (r + m * q) * y
      multiplied r q y = omega arith

  pow_mod : (x n y : ℕ) → (x % m) ^ n * y % m ≡ x ^ n * y % m
  pow_mod x zero y = ap (λ p. p * y % m) (pow_zero (x % m) ∙ sym (pow_zero x))
  pow_mod x (suc n) y =
      ap (λ k. k * y % m) (pow_suc (x % m) n)
      ∙ ap (λ k. k % m) (regroup ((x % m) ^ n) (x % m) y)
      ∙ pow_mod x n (x % m * y)
      ∙ ap (λ k. k % m) (front (x ^ n) (x % m) y)
      ∙ mul_mod x (x ^ n * y)
      ∙ ap (λ k. k % m)
          (sym (front (x ^ n) x y)
            ∙ sym (regroup (x ^ n) x y)
            ∙ ap (λ k. k * y) (sym (pow_suc x n)))
    where
      regroup : (p x y : ℕ) → p * x * y ≡ p * (x * y)
      regroup p x y = omega arith

      front : (p x y : ℕ) → p * (x * y) ≡ x * (p * y)
      front p x y = omega arith

square : (a n : ℕ) → (a * a) ^ n ≡ a ^ (n + n)
square a zero = pow_zero (a * a) ∙ sym (pow_zero a)
square a (suc n) =
    pow_suc (a * a) n
    ∙ ap (λ k. k * (a * a)) (square a n)
    ∙ assoc (a ^ (n + n)) a
    ∙ sym (pow_suc a (suc (n + n)) ∙ ap (λ k. k * a) (pow_suc a (n + n)))
    ∙ ap (λ k. a ^ k) shape
  where
    assoc : (p a : ℕ) → p * (a * a) ≡ p * a * a
    assoc p a = omega arith

    shape : suc (suc (n + n)) ≡ suc n + suc n
    shape = omega arith

module _ (a r b : ℕ) where
  halves_even : b % 2 ≡ 0 → r * (a * a) ^ (b / 2) ≡ r * a ^ b
  halves_even e = ap (λ k. r * k) (square a (b / 2) ∙ ap (λ k. a ^ k) whole)
    where
      whole : b / 2 + b / 2 ≡ b
      whole = omega arith

  halves_odd : b % 2 ≡ 1 → r * a * (a * a) ^ (b / 2) ≡ r * a ^ b
  halves_odd e =
      ap (λ k. r * a * k) (square a (b / 2))
      ∙ last r a (a ^ (b / 2 + b / 2))
      ∙ ap (λ k. r * k) (sym (pow_suc a (b / 2 + b / 2)))
      ∙ ap (λ k. r * a ^ k) whole
    where
      last : (r a p : ℕ) → r * a * p ≡ r * (p * a)
      last r a p = omega arith

      whole : suc (b / 2 + b / 2) ≡ b
      whole = omega arith

-- A round of the loop, where the loop behind it is right.
power_round :
    (a r b : ℕ)
    → (b % 2 ≡ 0) ⊎ (b % 2 ≡ 1)
    → (if b % 2 == 1 then r * a % two_64 else r) * (a * a % two_64) ^ (b / 2) % two_64
      ≡ r * a ^ b % two_64
power_round a r b (inl e) = rw e (
    ap (λ k. k % two_64) (swap r ((a * a % two_64) ^ (b / 2)))
    ∙ pow_mod two_64 (a * a) (b / 2) r
    ∙ ap (λ k. k % two_64) (swap ((a * a) ^ (b / 2)) r ∙ halves_even a r b e))
  where
    swap : (x y : ℕ) → x * y ≡ y * x
    swap x y = omega arith
power_round a r b (inr e) = rw e (
    mul_mod two_64 (r * a) ((a * a % two_64) ^ (b / 2))
    ∙ ap (λ k. k % two_64) (swap (r * a) ((a * a % two_64) ^ (b / 2)))
    ∙ pow_mod two_64 (a * a) (b / 2) (r * a)
    ∙ ap (λ k. k % two_64) (swap ((a * a) ^ (b / 2)) (r * a) ∙ halves_odd a r b e))
  where
    swap : (x y : ℕ) → x * y ≡ y * x
    swap x y = omega arith

two_rests : (b : ℕ) → (b % 2 ≡ 0) ⊎ (b % 2 ≡ 1)
two_rests b = elim (Bool-cases (b % 2 == 0)) [
  | inl e ↦ inl ((==_iff (b % 2) 0).0 e)
  | inr e ↦ inr (ground (arith, e))
]

next_small : (c : Bool) (a r : ℕ) → r < two_64 → (if c then r * a % two_64 else r) < two_64
next_small true a r h = omega arith
next_small false a r h = h

to_zero : (a r : ℕ) → r < two_64 → r * a ^ 0 % two_64 ≡ r
to_zero a r h = ap (λ p. r * p % two_64) (pow_zero a) ∙ once r h
  where
    once : (r : ℕ) → r < two_64 → r * 1 % two_64 ≡ r
    once r h = omega arith

module _ (f : Floats) where
  goes_round :
      (k a r b : ℕ)
      → power_loop f (suc k) a r (suc b)
        ≡ power_loop f k (a * a % two_64) (if suc b % 2 == 1 then r * a % two_64 else r) (suc b / 2)
  unfolding power_loop
  goes_round k a r b = rw some_left refl
    where
      some_left : (suc b == 0) ≡ false
      some_left = ground arith

  -- The loop with enough fuel for the bits of the exponent.
  power_loop-pow :
      (k a r b : ℕ)
      → r < two_64
      → b < 2 ^ k
      → power_loop f (suc k) a r b ≡ some (r * a ^ b % two_64)
  unfolding power_loop
  power_loop-pow zero a r zero small below = ap some (sym (to_zero a r small))
  power_loop-pow zero a r (suc b) small below = absurd (omega (arith, pow_zero 2))
  power_loop-pow (suc k) a r zero small below = ap some (sym (to_zero a r small))
  power_loop-pow (suc k) a r (suc b) small below =
      let c = suc b % 2 == 1 in
      goes_round (suc k) a r b
      ∙ power_loop-pow k (a * a % two_64) (if c then r * a % two_64 else r) (suc b / 2)
          (next_small c a r small) (halved b (2 ^ k) (subst (λ p. suc b < p) (pow_suc 2 k) below))
      ∙ ap some (power_round a r (suc b) (two_rests (suc b)))
    where
      halved : (b p : ℕ) → suc b < p * 2 → suc b / 2 < p
      halved b p h = omega arith

  -- `do_power` of integers, for an exponent that is not negative, ends, and gives the power of the
  -- base's 64 bits mod 2 ^ 64, as a number of 64 bits.
  pub do_power-pow :
      (a : ℤ) (b : ℕ)
      → b < two_63
      → do_power f (int a) (int (pos b)) ≡ some (int (num_of_word (word a ^ b % two_64)))
  unfolding do_power integer_power
  do_power-pow a b h =
      ap (λ m. m >>= λ r. some (int (num_of_word r)))
        (power_loop-pow 64 (word a) 1 b (omega arith) (omega arith)
          ∙ ap some (ap (λ k. k % two_64) (one_times (word a ^ b))))
    where
      one_times : (p : ℕ) → 1 * p ≡ p
      one_times p = omega arith

-- (-1) ^ n
abbrev pub alternating : ℕ → ℤ
alternating n = if n % 2 == 0 then pos 1 else negsuc 0

module _ (f : Floats) where
  -- `do_power` of -1 to a negative exponent gives the opposite of that power of -1, which is the one
  -- to the opposite exponent.
  pub do_power_opposite :
      (n : ℕ)
      → do_power f (int (negsuc 0)) (int (negsuc n)) ≡ some (int (pos 0 -ℤ alternating (suc n)))
  unfolding do_power integer_power negative_power
  do_power_opposite n = ap (λ z. some (int z)) (opposite (n % 2 == 0) refl)
    where
      opposite :
          (b : Bool)
          → (n % 2 == 0) ≡ b
          → (if n % 2 == 0 then pos 1 else negsuc 0) ≡ pos 0 -ℤ alternating (suc n)
      opposite true e = let odd : (suc n % 2 == 0) ≡ false = ground (arith, e) in rw (e, odd) refl
      opposite false e = let even : (suc n % 2 == 0) ≡ true = ground (arith, e) in rw (e, even) refl
