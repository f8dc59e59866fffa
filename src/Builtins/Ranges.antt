-- ===== src/Builtins/Ranges.antt =====
-- OP_RANGE_REF of server/execute.c on lists.
use mathlib.Core.Path.{ap₂}
use nu_moo.Base.{
  ℕ, suc, ◌+◌, ◌-◌, ◌≤◌, ◌<◌, ◌≡◌, refl, ap, ◌∙◌, inl, inr, true, false, ◌&&◌, ◌||◌, some, List, [],
  arith, if◌then◌else◌, Bool-cases, length, take, drop,
}
use nu_moo.Base.Int.{ℤ, pos, pos_part, ltb_ℤ, leb_ℤ}
use nu_moo.Lists.Range.{sublist_lem, sublist_empty}
use nu_moo.Value.{Value, Values, list, to_list, of_list, e_range}
use nu_moo.Builtins.{Package, ret, raise, ret_list, range_ref}
use nu_moo.Builtins.Positions.{IsInt, to_int_id}

-- What a range of a list is: E_RANGE, the empty list, or the elements at the positions.
abbrev pub range_of : List Value → ℤ → ℤ → Package
range_of vs from to =
    if ltb_ℤ to from
    then ret (list (of_list []))
    else if leb_ℤ (pos 1) from && leb_ℤ to (pos (length vs))
    then ret (list (of_list (take (pos_part to + 1 - pos_part from) (drop (pos_part from - 1) vs))))
    else raise e_range

module _ (vs : Values) where
  valid_range :
      (i n : ℕ)
      → i + suc n < 2147483648
      → i + suc n ≤ length (to_list vs)
      → range_ref vs (pos (suc i)) (pos (i + suc n))
        ≡ some (ret (list (of_list (take (suc n) (drop i (to_list vs))))))
  unfolding range_ref
  valid_range i n small fits = rw bounds (
      rw (to_int_id (pos (suc i)) (omega arith), to_int_id (pos (i + suc n)) (omega arith))
        (ap ret_list (sublist_lem (to_list vs) i n fits)))
    where
      bounds :
          (leb_ℤ (pos (suc i)) (pos (i + suc n))
            && (leb_ℤ (pos (suc i)) (pos 0)
                || ltb_ℤ (pos (length (to_list vs))) (pos (suc i))
                || leb_ℤ (pos (i + suc n)) (pos 0)
                || ltb_ℤ (pos (length (to_list vs))) (pos (i + suc n))))
          ≡ false
      bounds = ground arith

  empty_range :
      (from to : ℤ)
      → IsInt from
      → IsInt to
      → ltb_ℤ to from ≡ true
      → range_ref vs from to ≡ some (ret (list (of_list [])))
  unfolding range_ref
  empty_range from to h k lt =
      rw unchecked (
        rw (to_int_id from h, to_int_id to k) (ap ret_list (sublist_empty (to_list vs) from to lt)))
    where
      unchecked : leb_ℤ from to ≡ false
      unchecked = ground arith

  outside_range :
      (from to : ℤ)
      → ltb_ℤ to from ≡ false
      → (leb_ℤ (pos 1) from && leb_ℤ to (pos (length (to_list vs)))) ≡ false
      → range_ref vs from to ≡ some (raise e_range)
  unfolding range_ref
  outside_range from to ge bad = rw checked refl
    where
      checked :
          (leb_ℤ from to
            && (leb_ℤ from (pos 0)
                || ltb_ℤ (pos (length (to_list vs))) from
                || leb_ℤ to (pos 0)
                || ltb_ℤ (pos (length (to_list vs))) to))
          ≡ true
      checked = ground arith

  inside_range :
      (from to : ℤ)
      → IsInt to
      → ltb_ℤ to from ≡ false
      → (leb_ℤ (pos 1) from && leb_ℤ to (pos (length (to_list vs)))) ≡ true
      → range_ref vs from to
        ≡ some (
            ret (
              list (
                of_list (
                  take (pos_part to + 1 - pos_part from) (drop (pos_part from - 1) (to_list vs))))))
  inside_range from to k ge good =
      let i = pos_part from - 1 in
      let n = pos_part to - pos_part from in
      let e : from ≡ pos (suc i) = ground arith in
      let f : to ≡ pos (i + suc n) = ground arith in
      let count : suc n ≡ pos_part to + 1 - pos_part from = ground arith in
      ap₂ (range_ref vs) e f
      ∙ valid_range i n (ground arith) (ground arith)
      ∙ ap (λ m. some (ret (list (of_list (take m (drop i (to_list vs))))))) count

  -- With positions that fit an int, a range of a list never fails: it is empty if it ends before it
  -- begins, E_RANGE if it is not empty and not within the list, and else the elements at its
  -- positions.
  pub range_ref_lem :
      (from to : ℤ)
      → IsInt from
      → IsInt to
      → range_ref vs from to ≡ some (range_of (to_list vs) from to)
  range_ref_lem from to h k = elim (Bool-cases (ltb_ℤ to from)) [
    | inl lt ↦ rw lt (empty_range from to h k lt)
    | inr ge ↦ elim (Bool-cases (leb_ℤ (pos 1) from && leb_ℤ to (pos (length (to_list vs))))) [
      | inl good ↦ rw (ge, good) (inside_range from to k ge good)
      | inr bad ↦ rw (ge, bad) (outside_range from to ge bad)
    ]
  ]
