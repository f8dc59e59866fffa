-- ===== src/Lists/Copy.antt =====
-- What the copying loops of server/list.c copy.
use nu_moo.Base.{
  ℕ, zero, suc, ◌+◌, ◌≤◌, ◌<◌, ◌≡◌, refl, ap, ◌∙◌, none, some, List, [], ◌∷◌, arith, length, take,
  drop, length-drop,
}
use nu_moo.Lists.{copy}

module _ {ℓ} {A : Type ℓ} where
  pub copy-cons :
      (x : A) (xs : List A) (i n : ℕ) → copy (x ∷ xs) (suc (suc i)) n ≡ copy xs (suc i) n
  unfolding copy
  copy-cons x xs i zero = refl
  copy-cons x xs i (suc n) = ground (arith, copy-cons x xs (i + 1) n)

  pub copy-drop :
      (xs : List A) (i n : ℕ) → i + n ≤ length xs → copy xs (suc i) n ≡ some (take n (drop i xs))
  unfolding copy
  copy-drop xs zero zero h = refl
  copy-drop xs (suc i) zero h = refl
  copy-drop [] i (suc n) h = absurd (omega arith)
  copy-drop (x ∷ xs) zero (suc n) h = ground (arith, copy-cons x xs 0 n, copy-drop xs zero n)
  copy-drop (x ∷ xs) (suc i) (suc n) h =
      copy-cons x xs i (suc n) ∙ copy-drop xs i (suc n) (omega arith)

  pub copy-fault : (xs : List A) (i n : ℕ) → length xs < i + n → 0 < n → copy xs (suc i) n ≡ none
  unfolding copy
  copy-fault xs i zero h p = absurd (omega arith)
  copy-fault [] i (suc n) h p = refl
  copy-fault (x ∷ xs) zero (suc n) h p = ground (arith, copy-cons x xs 0 n, copy-fault xs zero n)
  copy-fault (x ∷ xs) (suc i) (suc n) h p =
      copy-cons x xs i (suc n) ∙ copy-fault xs i (suc n) (omega arith) p

  take_all : (n : ℕ) (xs : List A) → length xs ≤ n → take n xs ≡ xs
  take_all zero [] h = refl
  take_all zero (x ∷ xs) h = absurd (omega arith)
  take_all (suc n) [] h = refl
  take_all (suc n) (x ∷ xs) h = ap (λ ys. x ∷ ys) (take_all n xs (omega arith))

  -- The first `n`, those behind the first `n`, and all of them.
  pub copy-take : (xs : List A) (n : ℕ) → n ≤ length xs → copy xs 1 n ≡ some (take n xs)
  copy-take xs n h = copy-drop xs 0 n (omega arith)

  pub copy_rest : (xs : List A) (i n : ℕ) → i + n ≡ length xs → copy xs (suc i) n ≡ some (drop i xs)
  copy_rest xs i n h =
      copy-drop xs i n (omega arith)
      ∙ ap some (take_all n (drop i xs) (omega (arith, length-drop i xs)))

  pub copy_all : (xs : List A) → copy xs 1 (length xs) ≡ some xs
  copy_all xs = copy_rest xs 0 (length xs) (omega arith)
