-- ===== src/Numbers/Extremes.antt =====
-- min(), max() and random() of server/numbers.c on integers.
use nu_moo.Base.{
  ℕ, ◌+◌, ◌%◌, ◌≤◌, ◌<◌, ◌≡◌, refl, ap, ◌∙◌, ◌⊎◌, inl, inr, true, false, some, List, [], ◌∷◌, arith,
  if◌then◌else◌, Bool-cases, All,
}
use native.Mathlib.Nat.{mod-lt}
use nu_moo.Base.Int.{ℤ, pos, ◌≤ℤ◌, ltb_ℤ, leb_ℤ}
use nu_moo.Builtins.{ret, raise}
use nu_moo.Numbers.{
  two_63, magnitude, Floats, min_loop, max_loop, extreme, bf_min, bf_max, random_number, bf_random,
}
use nu_moo.Value.{e_invarg, Value, int}
use native.Mathlib.Nat.{mod-lt}

abbrev pub ints : List ℤ → List Value
ints [] = []
ints (n ∷ ns) = int n ∷ ints ns

-- One of the numbers.
abbrev pub OneOf : ℤ → List ℤ → Type 0
OneOf m [] = ⊥
OneOf m (n ∷ ns) = (m ≡ n) ⊎ OneOf m ns

-- A number that is among these, and not after any of them in the order.
pub record First (le : ℤ → ℤ → Type 0) (m : ℤ) (ns : List ℤ) : Type 0 where
  pub among : OneOf m ns
  pub bound : All (le m) ns

abbrev pub AtLeastInt : ℤ → ℤ → Type 0
AtLeastInt m n = n ≤ℤ m

≤ℤ-step : (a b c : ℤ) → a ≤ℤ b → b ≤ℤ c → a ≤ℤ c
≤ℤ-step a b c h k = omega arith

≤ℤ-self : (a : ℤ) → a ≤ℤ a
≤ℤ-self a = omega arith

-- A number that is first among these and comes before one more, which comes before another.
module _ (le : ℤ → ℤ → Type 0) (le-trans : (a b c : ℤ) → le a b → le b c → le a c) where
  First-other : (m a b : ℤ) (ns : List ℤ) → le b a → First le m (b ∷ ns) → First le m (a ∷ b ∷ ns)
  First-other m a b ns h s = record {
    among = inr s.among;
    bound = (le-trans m b a s.bound.0 h, s.bound);
  }

  First-kept : (m a b : ℤ) (ns : List ℤ) → le a b → First le m (a ∷ ns) → First le m (a ∷ b ∷ ns)
  First-kept m a b ns h s = record {
    among = kept s.among;
    bound = (s.bound.0, (le-trans m a b s.bound.0 h, s.bound.1));
  }
    where
      kept : OneOf m (a ∷ ns) → OneOf m (a ∷ b ∷ ns)
      kept (inl e) = inl e
      kept (inr i) = inr (inr i)

module _ (f : Floats) where
  min_loop-First :
      (a : ℤ) (ns : List ℤ)
      → (m : ℤ) × (min_loop f (int a) false (ints ns) ≡ (int m, false)) × First ◌≤ℤ◌ m (a ∷ ns)
  unfolding min_loop
  min_loop-First a [] = (a, refl, record { among = inl refl; bound = (≤ℤ-self a, tt) })
  min_loop-First a (b ∷ ns) = elim (Bool-cases (ltb_ℤ b a)) [
    | inl e ↦
        let (m, run, first) = min_loop-First b ns in
        (
          m,
          ap (λ v. min_loop f v false (ints ns)) (chosen e) ∙ run,
          First-other ◌≤ℤ◌ ≤ℤ-step m a b ns (ground arith) first,
        )
    | inr e ↦
        let (m, run, first) = min_loop-First a ns in
        (
          m,
          ap (λ v. min_loop f v false (ints ns)) (kept_value e) ∙ run,
          First-kept ◌≤ℤ◌ ≤ℤ-step m a b ns (ground arith) first,
        )
  ]
    where
      chosen : ltb_ℤ b a ≡ true → (if ltb_ℤ b a then int b else int a) ≡ int b
      chosen e = rw e refl

      kept_value : ltb_ℤ b a ≡ false → (if ltb_ℤ b a then int b else int a) ≡ int a
      kept_value e = rw e refl

  max_loop-First :
      (a : ℤ) (ns : List ℤ)
      → (m : ℤ) × (max_loop f (int a) false (ints ns) ≡ (int m, false))
        × First AtLeastInt m (a ∷ ns)
  unfolding max_loop
  max_loop-First a [] = (a, refl, record { among = inl refl; bound = (≤ℤ-self a, tt) })
  max_loop-First a (b ∷ ns) = elim (Bool-cases (ltb_ℤ a b)) [
    | inl e ↦
        let (m, run, first) = max_loop-First b ns in
        (
          m,
          ap (λ v. max_loop f v false (ints ns)) (chosen e) ∙ run,
          First-other AtLeastInt (λ a b c h k. ≤ℤ-step c b a k h) m a b ns (ground arith) first,
        )
    | inr e ↦
        let (m, run, first) = max_loop-First a ns in
        (
          m,
          ap (λ v. max_loop f v false (ints ns)) (kept_value e) ∙ run,
          First-kept AtLeastInt (λ a b c h k. ≤ℤ-step c b a k h) m a b ns (ground arith) first,
        )
  ]
    where
      chosen : ltb_ℤ a b ≡ true → (if ltb_ℤ a b then int b else int a) ≡ int b
      chosen e = rw e refl

      kept_value : ltb_ℤ a b ≡ false → (if ltb_ℤ a b then int b else int a) ≡ int a
      kept_value e = rw e refl

  -- min() of integers returns the least of them, and max() the greatest.
  pub bf_min-bf_max :
      (a : ℤ) (ns : List ℤ)
      → (m : ℤ) × (n : ℤ) × (bf_min f (ints (a ∷ ns)) ≡ some (ret (int m)))
        × (bf_max f (ints (a ∷ ns)) ≡ some (ret (int n)))
        × First ◌≤ℤ◌ m (a ∷ ns)
        × First AtLeastInt n (a ∷ ns)
  unfolding bf_min bf_max extreme
  bf_min-bf_max a ns =
      let (m, run, first) = min_loop-First a ns in
      let (n, run', last) = max_loop-First a ns in
      (m, n, ap (λ r. some (extreme f r)) run, ap (λ r. some (extreme f r)) run', first, last)

-- random() of a positive number is from 1 to that number, and what it draws, three times 31 bits,
-- makes a number that does not overflow 63 bits.
pub bf_random-bounds :
    (x y z n : ℕ)
    → x < 2147483648
    → y < 2147483648
    → z < 2147483648
    → 0 < n
    → (random_number x y z < two_63)
      × (r : ℕ) × (bf_random x y z (int (pos n) ∷ []) ≡ some (ret (int (pos r))))
      × (1 ≤ r)
      × (r ≤ n)
unfolding bf_random random_number
bf_random-bounds x y z n h k l some_n = (
  omega arith,
  1 + random_number x y z % n,
  drawn (random_number x y z) n some_n,
  omega arith,
  up_to (random_number x y z) n some_n,
)
  where
    up_to : (d n : ℕ) → 0 < n → 1 + d % n ≤ n
    up_to d n h = omega (arith, mod-lt d h)

    drawn :
        (d n : ℕ)
        → 0 < n
        → (if leb_ℤ (pos n) (pos 0)
            then some (raise e_invarg)
            else some (ret (int (pos (1 + d % magnitude (pos n))))))
          ≡ some (ret (int (pos (1 + d % n))))
    drawn d n h = rw positive refl
      where
        positive : leb_ℤ (pos n) (pos 0) ≡ false
        positive = ground arith
