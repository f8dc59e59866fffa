-- ===== src/Lists/Range.antt =====
-- `sublist` and `listrangeset` of server/list.c.

use nu_moo.Base.{
  ℕ, zero, suc, ◌+◌, ◌-◌, ◌≤◌, ◌<◌, ◌≡◌, refl, ap, ◌∙◌, inl, inr, true, false, none, some, List, [],
  ◌∷◌, ◌++◌, arith, if◌then◌else◌, Bool-cases, length, take, drop,
}
use nu_moo.Base.Int.{ℤ, pos, pos_part, ◌-ℤ◌, ltb_ℤ}
use nu_moo.Lists.{copy, copy_from, listrangeset, sublist}
use nu_moo.Lists.Copy.{copy-drop, copy-take, copy_rest, copy_all, copy-fault}

-- The numbers that the source computes from positions.
starts_below_end : (i n : ℕ) → ltb_ℤ (pos (i + suc n)) (pos (suc i)) ≡ false
starts_below_end i n = ground arith

less_one : (i : ℕ) → pos (suc i) -ℤ pos 1 ≡ pos i
less_one i = ground arith

span : (i n : ℕ) → pos_part (pos (i + suc n) -ℤ pos (suc i)) + 1 ≡ suc n
span i n = ground arith

len_left : (i : ℕ) → (if ltb_ℤ (pos 1) (pos (suc i)) then pos_part (pos (suc i)) - 1 else 0) ≡ i
len_left i = ground arith

len_right : (j n : ℕ) → pos_part (pos n -ℤ pos j) ≡ n - j
len_right j n = ground arith

module _ {ℓ} {A : Type ℓ} where
  drop_all : (xs : List A) (n : ℕ) → length xs ≤ n → drop n xs ≡ []
  drop_all [] zero h = refl
  drop_all [] (suc n) h = refl
  drop_all (x ∷ xs) zero h = absurd (omega arith)
  drop_all (x ∷ xs) (suc n) h = drop_all xs n (omega arith)

  -- For positions that lie in the list, the first not above the second, `sublist` copies the elements
  -- from the one to the other.
  pub sublist_lem :
      (xs : List A) (i n : ℕ)
      → i + suc n ≤ length xs
      → sublist xs (pos (suc i)) (pos (i + suc n)) ≡ some (take (suc n) (drop i xs))
  unfolding sublist copy_from
  sublist_lem xs i n h =
      rw (starts_below_end i n, less_one i, span i n)
        (ap (λ k. copy xs k (suc n)) (omega arith) ∙ copy-drop xs i (suc n) h)

  -- A range that ends before it begins is empty, wherever the two stand.
  pub sublist_empty :
      (xs : List A) (lower upper : ℤ) → ltb_ℤ upper lower ≡ true → sublist xs lower upper ≡ some []
  unfolding sublist
  sublist_empty xs lower upper h = rw h refl

  -- A range that begins at 1 or above, is not empty and ends behind the list is read outside of it.
  pub sublist-fault :
      (xs : List A) (i : ℕ) (u : ℕ)
      → i < u
      → length xs < u
      → sublist xs (pos (suc i)) (pos u) ≡ none
  unfolding sublist copy_from
  sublist-fault xs i u h k = ground (arith, copy-fault xs i (u - i))

  -- For a start from 1 to one past the end, and an end from 0 to the length, `listrangeset` puts the
  -- elements of the new list between those before the start and those behind the end.
  pub listrangeset_lem :
      (base value : List A) (i j : ℕ)
      → i ≤ length base
      → j ≤ length base
      → listrangeset base (pos (suc i)) (pos j) value ≡ some (take i base ++ value ++ drop j base)
  unfolding listrangeset copy_from
  listrangeset_lem base value i j h k =
      rw (len_left i, copy-take base i h, copy_all value, right) refl
    where
      from_j : j < length base → copy base (j + 1) (length base - j) ≡ some (drop j base)
      from_j lt =
          ap (λ m. copy base m (length base - j)) (omega arith)
          ∙ copy_rest base j (length base - j) (omega arith)

      right :
          (if ltb_ℤ (pos j) (pos (length base))
            then copy_from base (pos j) (pos_part (pos (length base) -ℤ pos j))
            else some [])
          ≡ some (drop j base)
      right = elim (Bool-cases (ltb_ℤ (pos j) (pos (length base)))) [
        | inl lt ↦ rw (lt, len_right j (length base)) (from_j (ground arith))
        | inr ge ↦ rw (ge, drop_all base j (ground arith)) refl
      ]
