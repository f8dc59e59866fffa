-- ===== src/Lists/Insert.antt =====
-- `doinsert`, `listinsert`, `listappend`, `listdelete`, `listconcat` and `listset` of
-- server/list.c.
use nu_moo.Base.{
  ℕ, suc, ◌+◌, ◌-◌, ◌≤◌, ◌<◌, ◌≡◌, refl, ap, ◌∙◌, inl, inr, ◌&&◌, some, List, [], ◌∷◌, ◌++◌, arith,
  ◌==◌, if◌then◌else◌, Bool-cases, length, get_elem?-lt, set, length-append, take, drop,
  take-append-drop, length-take, ◌>>=◌,
}
use nu_moo.Base.Int.{ℤ, pos, pos_part, ltb_ℤ, leb_ℤ}
use nu_moo.Lists.{doinsert, listinsert, listappend, listset, listdelete, listconcat}
use nu_moo.Lists.Copy.{copy-take, copy_rest, copy_all}

-- The position that a request for `i` in a list of `n` elements stands for.
abbrev pub clamp : ℤ → ℕ → ℕ
clamp i n = if leb_ℤ i (pos 0) then 1 else if ltb_ℤ (pos n) i then n + 1 else pos_part i

clamp-le : (i : ℤ) (n : ℕ) → clamp i n - 1 ≤ n
clamp-le i n = ground arith

pub clamp-suc : (i : ℤ) (n : ℕ) → clamp i n ≡ suc (clamp i n - 1)
clamp-suc i n = ground arith

module _ {ℓ} {A : Type ℓ} where
  take_append : (xs ys : List A) → take (length xs) (xs ++ ys) ≡ xs
  take_append [] ys = refl
  take_append (x ∷ xs) ys = ap (λ zs. x ∷ zs) (take_append xs ys)

  take-length : (xs : List A) → take (length xs) xs ≡ xs
  take-length [] = refl
  take-length (x ∷ xs) = ap (λ zs. x ∷ zs) (take-length xs)

  drop-length : (xs : List A) → drop (length xs) xs ≡ []
  drop-length [] = refl
  drop-length (x ∷ xs) = drop-length xs

  -- At a position within the list or at its end, `doinsert` puts the value between the elements
  -- before and behind, and what it does in place, on a block with one reference, is what it does on
  -- a copy.
  pub doinsert_lem :
      (refs : ℕ) (xs : List A) (v : A) (i : ℕ)
      → i ≤ length xs
      → doinsert refs xs v (suc i) ≡ some (take i xs ++ v ∷ drop i xs)
  unfolding doinsert
  doinsert_lem refs xs v i h = elim (Bool-cases (refs == 1 && suc i == length xs + 1)) [
    | inl in_place ↦
        let e : i ≡ length xs = ground arith in rw in_place (rw (e, take-length, drop-length) refl)
    | inr fresh ↦
        rw
          (fresh, sub_one i, copy-take xs i h, copy_rest xs i (length xs + 1 - suc i) (omega arith))
          refl
  ]
    where
      sub_one : (n : ℕ) → suc n - 1 ≡ n
      sub_one n = omega arith

  -- `listinsert` never reads outside the list: for every position the value stands at that position
  -- moved into 1 … length + 1, between the elements before and behind, in their order, whether or
  -- not the block is shared.
  pub listinsert_lem :
      (refs : ℕ) (xs : List A) (v : A) (i : ℤ)
      → listinsert refs xs v i
        ≡ some (take (clamp i (length xs) - 1) xs ++ v ∷ drop (clamp i (length xs) - 1) xs)
  unfolding listinsert
  listinsert_lem refs xs v i =
      ap (doinsert refs xs v) (clamp-suc i (length xs))
      ∙ doinsert_lem refs xs v (clamp i (length xs) - 1) (clamp-le i (length xs))

  -- `listappend` puts the value behind all elements, whether or not the block is shared.
  pub listappend_lem : (refs : ℕ) (xs : List A) (v : A) → listappend refs xs v ≡ some (xs ++ v ∷ [])
  unfolding listappend
  listappend_lem refs xs v =
      ap (doinsert refs xs v) (omega arith)
      ∙ doinsert_lem refs xs v (length xs) (omega arith)
      ∙ rw (take-length, drop-length) refl

  -- `listdelete` at a position of the list keeps all elements but the one there, in their order.
  pub listdelete_lem :
      (xs : List A) (i : ℕ)
      → i < length xs
      → listdelete xs (suc i) ≡ some (take i xs ++ drop (suc i) xs)
  unfolding listdelete
  listdelete_lem xs i h =
      let e : suc i - 1 ≡ i = omega arith in
      let f : suc i + 1 ≡ suc (suc i) = omega arith in
      rw
        (e, f, copy-take xs i (omega arith), copy_rest xs (suc i) (length xs - suc i) (omega arith))
        refl

  append-cons-take :
      (xs ys : List A) (v : A)
      → take (length xs) (xs ++ v ∷ ys) ++ drop (suc (length xs)) (xs ++ v ∷ ys) ≡ xs ++ ys
  append-cons-take [] ys v = refl
  append-cons-take (x ∷ xs) ys v = ap (λ zs. x ∷ zs) (append-cons-take xs ys v)

  pub delete_at_length :
      (xs ys : List A) (v : A) (i : ℕ)
      → length xs ≡ i
      → listdelete (xs ++ v ∷ ys) (suc i) ≡ some (xs ++ ys)
  delete_at_length xs ys v i e =
      listdelete_lem (xs ++ v ∷ ys) i (omega (arith, length-append xs (v ∷ ys)))
      ∙ ap some (rw (← e) (append-cons-take xs ys v))

  -- Deleting at the position where `listinsert` has put a value gives the list back, for every
  -- requested position, below 1 and past the end included.
  pub listdelete-listinsert :
      (refs : ℕ) (xs : List A) (v : A) (i : ℤ)
      → (listinsert refs xs v i >>= λ ys. listdelete ys (clamp i (length xs))) ≡ some xs
  listdelete-listinsert refs xs v i =
      let n = clamp i (length xs) - 1 in
      rw (listinsert_lem refs xs v i) (
        ap (listdelete (take n xs ++ v ∷ drop n xs)) (clamp-suc i (length xs))
        ∙ delete_at_length (take n xs) (drop n xs) v n
            (omega (arith, length-take n xs, clamp-le i (length xs)))
        ∙ ap some (take-append-drop n xs))

  -- `listconcat` copies the elements of both lists, the first one's before the second one's.
  pub listconcat_lem : (xs ys : List A) → listconcat xs ys ≡ some (xs ++ ys)
  unfolding listconcat
  listconcat_lem xs ys = rw (copy_all xs, copy_all ys) refl

  -- `listset` at a position of the list replaces the element there and no other.
  pub listset_lem :
      (xs : List A) (v : A) (i : ℕ) → i < length xs → listset xs v (suc i) ≡ some (set xs i v)
  unfolding listset
  listset_lem xs v i h =
      let (x, e) = get_elem?-lt xs i h in let f : suc i - 1 ≡ i = omega arith in rw (e, f) refl
