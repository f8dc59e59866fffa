-- ===== src/Builtins/Assoc.antt =====
-- `assoc` and `iassoc` of server/list.c: the first list among the elements of a list that has a
-- given element at a given place.
use nu_moo.Base.{
  ℕ, ◌+◌, ◌≡◌, refl, ap, inl, inr, Bool, true, false, Option, none, some, List, [], ◌∷◌, ◌++◌,
  arith, if◌then◌else◌, Bool-cases, length, All,
}
use nu_moo.Base.Int.{ℤ, pos, pos_part, ltb_ℤ, to_int}
use nu_moo.Builtins.{Package, ret, raise}
use nu_moo.Lists.{get_var}
use nu_moo.Value.{e_range, Value, int, list, nil, to_list, equality}

module _ (same_float : ℕ → ℕ → Bool) where
  abbrev pub equals_at : (vtarget : Value) → Option Value → Bool
  equals_at vtarget none = false
  equals_at vtarget (some v) = equality same_float v vtarget false

  -- The test of an element: a list with at least `vindex` elements, the one there being equal.
  unfoldable pub assoc_entry : (vtarget : Value) → (vindex : ℕ) → Value → Bool
  assoc_entry vtarget vindex (list vs) = equals_at vtarget (get_var (to_list vs) vindex)
  assoc_entry vtarget vindex _ = false

  unfoldable pub iassoc_from : (vtarget : Value) → List Value → (vindex i : ℕ) → ℕ
  iassoc_from vtarget [] vindex i = 0
  iassoc_from vtarget (v ∷ vs) vindex i =
      let rest = iassoc_from vtarget vs vindex (i + 1) in
      if assoc_entry vtarget vindex v then i else rest

  unfoldable pub list_iassoc : (vtarget : Value) → (vlist : List Value) → (vindex : ℕ) → ℕ
  list_iassoc vtarget vlist vindex = iassoc_from vtarget vlist vindex 1

  unfoldable pub list_assoc : (vtarget : Value) → (vlist : List Value) → (vindex : ℕ) → Value
  list_assoc vtarget [] vindex = list nil
  list_assoc vtarget (v ∷ vs) vindex =
      let rest = list_assoc vtarget vs vindex in if assoc_entry vtarget vindex v then v else rest

  -- The index passes through an int.
  abbrev pub with_index : ℤ → (ℕ → Value) → Package
  with_index index f =
      if ltb_ℤ (to_int index) (pos 1) then raise e_range else ret (f (pos_part (to_int index)))

  unfoldable pub bf_iassoc : List Value → Option Package
  bf_iassoc (v ∷ list vs ∷ []) =
      some (with_index (pos 1) (λ i. int (pos (list_iassoc v (to_list vs) i))))
  bf_iassoc (v ∷ list vs ∷ int n ∷ []) =
      some (with_index n (λ i. int (pos (list_iassoc v (to_list vs) i))))
  bf_iassoc _ = none

  unfoldable pub bf_assoc : List Value → Option Package
  bf_assoc (v ∷ list vs ∷ []) = some (with_index (pos 1) (list_assoc v (to_list vs)))
  bf_assoc (v ∷ list vs ∷ int n ∷ []) = some (with_index n (list_assoc v (to_list vs)))
  bf_assoc _ = none

  -- What both functions find: nothing, where no element passes the test, or the first that does.
  pub data AssocFound (vtarget : Value) (vindex i : ℕ) (vs : List Value) (place : ℕ) (entry : Value)
      : Type 0 where
    missed :
        All (λ v. assoc_entry vtarget vindex v ≡ false) vs
        → place ≡ 0
        → entry ≡ list nil
        → AssocFound vtarget vindex i vs place entry
    met :
        (front back : List Value)
        → vs ≡ front ++ entry ∷ back
        → All (λ v. assoc_entry vtarget vindex v ≡ false) front
        → assoc_entry vtarget vindex entry ≡ true
        → place ≡ i + length front
        → AssocFound vtarget vindex i vs place entry

  assoc_from-AssocFound :
      (vtarget : Value) (vs : List Value) (vindex i : ℕ)
      → AssocFound vtarget vindex i vs
          (iassoc_from vtarget vs vindex i)
          (list_assoc vtarget vs vindex)
  unfolding iassoc_from list_assoc
  assoc_from-AssocFound vtarget [] vindex i = missed tt refl refl
  assoc_from-AssocFound vtarget (v ∷ vs) vindex i =
      elim (Bool-cases (assoc_entry vtarget vindex v)) [
        | inl e ↦ rw e (met [] vs refl tt e (omega arith))
        | inr e ↦ rw e (later v vs (assoc_from-AssocFound vtarget vs vindex (i + 1)) e)
      ]
    where
      later :
          {place : ℕ} {entry : Value} (v : Value) (vs : List Value)
          → AssocFound vtarget vindex (i + 1) vs place entry
          → assoc_entry vtarget vindex v ≡ false
          → AssocFound vtarget vindex i (v ∷ vs) place entry
      later v vs (missed all z n) e = missed (e, all) z n
      later v vs (met front back shape before hit place) e =
          met (v ∷ front) back (ap (λ xs. v ∷ xs) shape) (e, before) hit (omega (arith, place))

  -- `list_iassoc` is the place, and `list_assoc` the value, of the first element that is a list with
  -- an element equal to the target at the index; where there is none they are 0 and the empty list.
  pub list_iassoc-AssocFound :
      (vtarget : Value) (vlist : List Value) (vindex : ℕ)
      → AssocFound vtarget vindex 1 vlist
          (list_iassoc vtarget vlist vindex)
          (list_assoc vtarget vlist vindex)
  unfolding list_iassoc
  list_iassoc-AssocFound vtarget vlist vindex = assoc_from-AssocFound vtarget vlist vindex 1
