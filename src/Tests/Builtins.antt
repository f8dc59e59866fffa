-- ===== src/Tests/Builtins.antt =====
-- Equality of values and the built-in functions on lists at concrete inputs.
use nu_moo.Base.{ℕ, ◌<◌, ◌≡◌, Bool, false, some, List, [], ◌∷◌, ◌++◌, arith, take, drop}
use nu_moo.Base.Int.{pos}
use nu_moo.Builtins.{ret, raise, bf_listinsert, range_ref}
use nu_moo.Builtins.Positions.{bf_listinsert_wraps}
use nu_moo.Builtins.Ranges.{range_ref_lem}
use nu_moo.Value.{e_range, Value, int, str, list, Values, nil, cons, to_list, of_list}

-- {1, {"a"}}
abbrev vs : Values
vs = cons (int (pos 1)) (cons (list (cons (str (97 ∷ [])) nil)) nil)

never : ℕ → ℕ → Bool
never a b = false

bf_listinsert_wraps_example :
    (2 < 4294967298)
    × (bf_listinsert 1 (list vs ∷ int (pos 5) ∷ int (pos 4294967298) ∷ [])
        ≡ some (ret (list (of_list (take 1 (to_list vs) ++ int (pos 5) ∷ drop 1 (to_list vs))))))
bf_listinsert_wraps_example = bf_listinsert_wraps 1 vs (int (pos 5)) 0 1 (omega arith) (omega arith)

range_ref_lem_example : range_ref vs (pos 2) (pos 3) ≡ some (raise e_range)
range_ref_lem_example =
    range_ref_lem vs (pos 2) (pos 3) (omega arith, omega arith) (omega arith, omega arith)

-- The first pair whose second element is "B" up to case.
abbrev pairs : List Value
pairs =
    int (pos 7)
    ∷ list (of_list (int (pos 1) ∷ str (97 ∷ []) ∷ []))
    ∷ list (of_list (int (pos 2) ∷ str (98 ∷ []) ∷ []))
    ∷ []
