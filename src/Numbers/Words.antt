-- ===== src/Numbers/Words.antt =====
-- Sums and differences in server/numbers.c that do not overflow.
use nu_moo.Base.{
  ℕ, suc, ◌+◌, ◌-◌, ◌%◌, ◌≤◌, ◌<◌, ◌≡◌, refl, sym, ap, ◌∙◌, inl, inr, arith, leb, Bool-cases,
}
use mathlib.Core.Path.{subst}
use nu_moo.Base.Int.{ℤ, pos, negsuc, sub_ℕ, ◌+ℤ◌, ◌-ℤ◌, ◌≤ℤ◌}
use nu_moo.Numbers.{
  two_64, two_63, word, num_of_word, least, Floats, simple_binary, do_add, do_subtract,
}
use nu_moo.Value.{int}

abbrev pub Fits : ℤ → Type 0
Fits a = (least ≤ℤ a) × (a ≤ℤ pos 9223372036854775807)

word_of_pos : (n : ℕ) → n < two_64 → word (pos n) ≡ n
unfolding word
word_of_pos n h = omega arith

word_of_negsuc : (n : ℕ) → n < two_64 → word (negsuc n) ≡ two_64 - 1 - n
unfolding word
word_of_negsuc n h = omega arith

-- The number of 64 bits back.
num_pos : (w n : ℕ) → w ≡ n → n < two_63 → num_of_word w ≡ pos n
unfolding num_of_word
num_pos w n e h = ground arith

num_negsuc : (w n : ℕ) → w + n + 1 ≡ two_64 → n < two_63 → num_of_word w ≡ negsuc n
unfolding num_of_word
num_negsuc w n e h = ground arith

-- What is not too large to be a number of 64 bits.
sub_small : (a b : ℕ) → Fits (sub_ℕ a b) → (a < b + two_63) × (b < a + two_63 + 1)
sub_small a b h = (ground arith, ground arith)

-- The numbers here are within twice the range.
num_sub-Fits :
    (w a b : ℕ)
    → (w + b) % two_64 ≡ a % two_64
    → w < two_64
    → Fits (sub_ℕ a b)
    → num_of_word w ≡ sub_ℕ a b
num_sub-Fits w a b e h k = elim (Bool-cases (leb b a)) [
  | inl f ↦
      let le : b ≤ a = ground (arith, f) in
      let small = (sub_small a b k).0 in
      num_pos w (a - b) (omega (arith, e)) (omega arith) ∙ rw f refl
  | inr f ↦
      let lt : a < b = ground (arith, f) in
      let small = (sub_small a b k).1 in
      num_negsuc w (b - a - 1) (omega (arith, e)) (omega arith) ∙ rw f refl
]

sum_of_words :
    (a b : ℤ) → Fits a → Fits b → Fits (a +ℤ b) → num_of_word ((word a + word b) % two_64) ≡ a +ℤ b
sum_of_words (pos m) (pos n) h k l =
    num_sub-Fits ((word (pos m) + word (pos n)) % two_64) (m + n) (0 + 0)
      (omega (arith, word_of_pos m, word_of_pos n)) (omega arith) l
sum_of_words (pos m) (negsuc n) h k l =
    num_sub-Fits ((word (pos m) + word (negsuc n)) % two_64) (m + 0) (0 + suc n)
      (omega (arith, word_of_pos m, word_of_negsuc n)) (omega arith) l
sum_of_words (negsuc m) (pos n) h k l =
    num_sub-Fits ((word (negsuc m) + word (pos n)) % two_64) (0 + n) (suc m + 0)
      (omega (arith, word_of_negsuc m, word_of_pos n)) (omega arith) l
sum_of_words (negsuc m) (negsuc n) h k l =
    num_sub-Fits ((word (negsuc m) + word (negsuc n)) % two_64) (0 + 0) (suc m + suc n)
      (omega (arith, word_of_negsuc m, word_of_negsuc n)) (omega arith) l

difference_of_words :
    (a b : ℤ)
    → Fits a
    → Fits b
    → Fits (a -ℤ b)
    → num_of_word ((word a + (two_64 - word b)) % two_64) ≡ a -ℤ b
difference_of_words (pos m) (pos n) h k l =
    num_sub-Fits ((word (pos m) + (two_64 - word (pos n))) % two_64) (m + 0) (0 + n)
      (omega (arith, word_of_pos m, word_of_pos n)) (omega arith) l
difference_of_words (pos m) (negsuc n) h k l =
    num_sub-Fits ((word (pos m) + (two_64 - word (negsuc n))) % two_64) (m + suc n) (0 + 0)
      (omega (arith, word_of_pos m, word_of_negsuc n)) (omega arith) l
difference_of_words (negsuc m) (pos n) h k l =
    num_sub-Fits ((word (negsuc m) + (two_64 - word (pos n))) % two_64) (0 + 0) (suc m + n)
      (omega (arith, word_of_negsuc m, word_of_pos n)) (omega arith) l
difference_of_words (negsuc m) (negsuc n) h k l =
    num_sub-Fits ((word (negsuc m) + (two_64 - word (negsuc n))) % two_64) (0 + suc n) (suc m + 0)
      (omega (arith, word_of_negsuc m, word_of_negsuc n)) (omega arith) l

sum_minus : (a b : ℤ) → (a +ℤ b) -ℤ b ≡ a
sum_minus (pos m) (pos n) = ground arith
sum_minus (pos m) (negsuc n) = ground arith
sum_minus (negsuc m) (pos n) = ground arith
sum_minus (negsuc m) (negsuc n) = ground arith

module _ (f : Floats) where
  -- For integers of 64 bits whose sum is one: `do_add` gives the sum, and `do_subtract` of one of
  -- them from the sum gives the other. These are all differences of 64-bit numbers that are 64-bit
  -- numbers themselves.
  pub do_add-do_subtract :
      (a b : ℤ)
      → Fits a
      → Fits b
      → Fits (a +ℤ b)
      → (do_add f (int a) (int b) ≡ int (a +ℤ b)) × (do_subtract f (int (a +ℤ b)) (int b) ≡ int a)
  unfolding do_add do_subtract simple_binary
  do_add-do_subtract a b h k l = (
    ap int (sum_of_words a b h k l),
    ap int
        (difference_of_words (a +ℤ b) b l k (subst Fits (sym (sum_minus a b)) h) ∙ sum_minus a b),
  )
