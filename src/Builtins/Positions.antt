-- ===== src/Builtins/Positions.antt =====
-- Positions given to the built-in functions on lists (server/list.c).
use nu_moo.Base.{
  ℕ, zero, suc, ◌+◌, ◌-◌, ◌*◌, ◌<◌, ◌≡◌, refl, ap, ◌∙◌, inl, inr, ◌&&◌, some, [], ◌∷◌, ◌++◌, arith,
  ltb, if◌then◌else◌, Bool-cases, length, take, drop,
}
use nu_moo.Base.Int.{ℤ, pos, negsuc, pos_part, ◌≤ℤ◌, leb_ℤ, to_int}
use nu_moo.Lists.Insert.{clamp, clamp-suc, listinsert_lem, listdelete_lem}
use nu_moo.Value.{Value, Values, int, list, to_list, of_list, e_range}
use nu_moo.Builtins.{ret_list, ret, raise, bf_listinsert, bf_listdelete}

-- A number that an int of 32 bits holds.
abbrev pub IsInt : ℤ → Type 0
IsInt n = (negsuc 2147483647 ≤ℤ n) × (n ≤ℤ pos 2147483647)

pub to_int_id : (n : ℤ) → IsInt n → to_int n ≡ n
to_int_id n h = ground arith

pub to_int_wraps : (k j : ℕ) → to_int (pos (k * 4294967296 + j)) ≡ to_int (pos j)
to_int_wraps k j = ap word (omega arith)
  where
    word : ℕ → ℤ
    word w = if ltb w 2147483648 then pos w else negsuc (4294967295 - w)

-- With a position that fits an int, `listinsert` puts the value there, a position below 1 standing
-- for 1 and one past the end for the end, and never fails.
pub bf_listinsert_lem :
    (refs : ℕ) (vs : Values) (v : Value) (n : ℤ)
    → IsInt n
    → (i : ℕ) × (clamp n (length (to_list vs)) ≡ suc i)
      × (bf_listinsert refs (list vs ∷ v ∷ int n ∷ [])
          ≡ some (ret (list (of_list (take i (to_list vs) ++ v ∷ drop i (to_list vs))))))
unfolding bf_listinsert
bf_listinsert_lem refs vs v n h = (
  clamp n (length (to_list vs)) - 1,
  clamp-suc n (length (to_list vs)),
  rw (to_int_id n h) (ap ret_list (listinsert_lem refs (to_list vs) v n)),
)

-- At a position past the end of a list of fewer than 2 ^ 31 elements, 2 ^ 32 or a multiple of it
-- above the position of an element, `listinsert` puts the value before that element and not at the
-- end.
pub bf_listinsert_wraps :
    (refs : ℕ) (vs : Values) (v : Value) (k i : ℕ)
    → i < length (to_list vs)
    → length (to_list vs) < 2147483648
    → (length (to_list vs) < suc k * 4294967296 + suc i)
      × (bf_listinsert refs (list vs ∷ v ∷ int (pos (suc k * 4294967296 + suc i)) ∷ [])
          ≡ some (ret (list (of_list (take i (to_list vs) ++ v ∷ drop i (to_list vs))))))
unfolding bf_listinsert
bf_listinsert_wraps refs vs v k i h small =
    let place : clamp (pos (suc i)) (length (to_list vs)) - 1 ≡ i = ground arith in
    (
      omega arith,
      rw (to_int_wraps (suc k) (suc i), to_int_id (pos (suc i)) (omega arith, omega arith))
          (ap ret_list (listinsert_lem refs (to_list vs) v (pos (suc i))) ∙ rw place refl),
    )

-- `listdelete`, on every branch, for a list of fewer than 2 ^ 31 elements: a position outside the
-- list is E_RANGE, any other takes out the one element there.
pub bf_listdelete_lem :
    (vs : Values) (n : ℤ)
    → length (to_list vs) < 2147483648
    → bf_listdelete (list vs ∷ int n ∷ []) ≡ (
        if leb_ℤ (pos 1) n && leb_ℤ n (pos (length (to_list vs)))
        then some (
            ret (
              list
                (of_list (take (pos_part n - 1) (to_list vs) ++ drop (pos_part n) (to_list vs)))))
        else some (raise e_range))
unfolding bf_listdelete
bf_listdelete_lem vs (negsuc n) h = ground arith
bf_listdelete_lem vs (pos zero) h = ground arith
bf_listdelete_lem vs (pos (suc i)) h = elim (Bool-cases (ltb i (length (to_list vs)))) [
  | inl lt ↦ ground (arith, to_int_id (pos (suc i)), listdelete_lem (to_list vs) i)
  | inr ge ↦ ground arith
]
