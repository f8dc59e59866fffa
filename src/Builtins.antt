-- ===== src/Builtins.antt =====
-- The built-in functions on lists of server/list.c and the instruction OP_RANGE_REF of
-- server/execute.c on lists. The types of the arguments are checked before a call, so an argument
-- list of another shape is a fault, `none`. Numbers have 64 bits; a position passes through an int.
pub mod Positions
pub mod Ranges
pub mod Assoc
use nu_moo.Base.{
  ℕ, ◌+◌, Bool, true, false, ◌&&◌, ◌||◌, Option, none, some, List, [], ◌∷◌, if◌then◌else◌, length,
}
use nu_moo.Base.Int.{ℤ, pos, pos_part, ◌+ℤ◌, ltb_ℤ, leb_ℤ, to_int}
use nu_moo.Lists.{listset, listinsert, listappend, listdelete, sublist, ismember, setadd, setremove}
use nu_moo.Value.{Value, Values, Error, int, list, to_list, of_list, equality, e_range}

-- `make_var_pack` and `make_error_pack`, or what an instruction pushes.
pub data Package : Type 0 where
  ret : Value → Package
  raise : Error → Package

abbrev pub ret_list : Option (List Value) → Option Package
ret_list none = none
ret_list (some vs) = some (ret (list (of_list vs)))

-- `refs` counts the references to the list that the call passes on.
unfoldable pub bf_listappend : (refs : ℕ) → List Value → Option Package
bf_listappend refs (list vs ∷ v ∷ []) = ret_list (listappend refs (to_list vs) v)
bf_listappend refs (list vs ∷ v ∷ int n ∷ []) =
    ret_list (listinsert refs (to_list vs) v (to_int (n +ℤ pos 1)))
bf_listappend refs _ = none

unfoldable pub bf_listinsert : (refs : ℕ) → List Value → Option Package
bf_listinsert refs (list vs ∷ v ∷ []) = ret_list (listinsert refs (to_list vs) v (pos 1))
bf_listinsert refs (list vs ∷ v ∷ int n ∷ []) = ret_list (listinsert refs (to_list vs) v (to_int n))
bf_listinsert refs _ = none

unfoldable pub bf_listdelete : List Value → Option Package
bf_listdelete (list vs ∷ int n ∷ []) =
    if leb_ℤ n (pos 0) || ltb_ℤ (pos (length (to_list vs))) n
    then some (raise e_range)
    else ret_list (listdelete (to_list vs) (pos_part (to_int n)))
bf_listdelete _ = none

unfoldable pub bf_listset : List Value → Option Package
bf_listset (list vs ∷ v ∷ int n ∷ []) =
    if leb_ℤ n (pos 0) || ltb_ℤ (pos (length (to_list vs))) n
    then some (raise e_range)
    else ret_list (listset (to_list vs) v (pos_part (to_int n)))
bf_listset _ = none

-- The case of a list on the stack: the range check is made on 64-bit numbers.
unfoldable pub range_ref : Values → (from to : ℤ) → Option Package
range_ref vs from to =
    let len = pos (length (to_list vs)) in
    if leb_ℤ from to && (leb_ℤ from (pos 0) || ltb_ℤ len from || leb_ℤ to (pos 0) || ltb_ℤ len to)
    then some (raise e_range)
    else ret_list (sublist (to_list vs) (to_int from) (to_int to))

module _ (same_float : ℕ → ℕ → Bool) where
  unfoldable pub bf_setadd : (refs : ℕ) → List Value → Option Package
  bf_setadd refs (list vs ∷ v ∷ []) =
      ret_list (setadd (λ a b. equality same_float a b false) refs (to_list vs) v)
  bf_setadd refs _ = none

  unfoldable pub bf_setremove : List Value → Option Package
  bf_setremove (list vs ∷ v ∷ []) =
      ret_list (setremove (λ a b. equality same_float a b false) (to_list vs) v)
  bf_setremove _ = none

  unfoldable pub bf_is_member : List Value → Option Package
  bf_is_member (v ∷ list vs ∷ []) =
      some (ret (int (pos (ismember (λ a b. equality same_float a b true) v (to_list vs)))))
  bf_is_member _ = none
