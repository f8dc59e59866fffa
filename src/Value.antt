-- ===== src/Value.antt =====
-- MOO values (`struct Var` of server/structures.h) and their equality (server/utils.c). A float is
-- known by its 64-bit pattern, a waif by its address. Strings hold no NUL. The
-- markers TYPE_CLEAR, TYPE_NONE, TYPE_CATCH and TYPE_FINALLY are no values.
pub mod Equality
use nu_moo.Base.{ℕ, Bool, true, false, ◌&&◌, List, [], ◌∷◌, ◌==◌, if◌then◌else◌}
use nu_moo.Base.Int.{ℤ, pos, ◌==ℤ◌}
use nu_moo.Strings.{mystrcasecmp}

pub data Error : Type 0 where
  e_none e_type e_div e_perm e_propnf e_verbnf e_varnf e_invind : Error
  e_recmove e_maxrec e_range e_args e_nacc e_invarg e_quota e_float : Error

mutual
  pub data Value : Type 0 where
    int : ℤ → Value
    obj : ℤ → Value
    str : List ℕ → Value
    err : Error → Value
    list : Values → Value
    float : ℕ → Value
    waif : ℕ → Value

  pub data Values : Type 0 where
    nil : Values
    cons : Value → Values → Values

abbrev pub to_list : Values → List Value
to_list nil = []
to_list (cons v vs) = v ∷ to_list vs

abbrev pub of_list : List Value → Values
of_list [] = nil
of_list (v ∷ vs) = cons v (of_list vs)

-- The index of an error in the enumeration.
abbrev pub error_number : Error → ℕ
error_number e_none = 0
error_number e_type = 1
error_number e_div = 2
error_number e_perm = 3
error_number e_propnf = 4
error_number e_verbnf = 5
error_number e_varnf = 6
error_number e_invind = 7
error_number e_recmove = 8
error_number e_maxrec = 9
error_number e_range = 10
error_number e_args = 11
error_number e_nacc = 12
error_number e_invarg = 13
error_number e_quota = 14
error_number e_float = 15

-- `!strcmp`
unfoldable pub str_same : List ℕ → List ℕ → Bool
str_same [] [] = true
str_same [] (b ∷ t) = false
str_same (a ∷ s) [] = false
str_same (a ∷ s) (b ∷ t) = a == b && str_same s t

-- `==` of the C compiler's doubles is a parameter. Lists are compared by their elements even where the
-- source sees that they share their block, which matters for lists of NaNs only.
module _ (same_float : ℕ → ℕ → Bool) where
  unfoldable mutual
    pub equality : Value → Value → Bool → Bool
    equality (int a) (int b) case_matters = a ==ℤ b
    equality (obj a) (obj b) case_matters = a ==ℤ b
    equality (err a) (err b) case_matters = error_number a == error_number b
    equality (str s) (str t) case_matters =
        if case_matters then str_same s t else mystrcasecmp s t ==ℤ pos 0
    equality (list vs) (list ws) case_matters = equality_lists vs ws case_matters
    equality (float x) (float y) case_matters = same_float x y
    equality (waif x) (waif y) case_matters = x == y
    equality _ _ case_matters = false

    -- The test of the lengths and the loop over the elements.
    pub equality_lists : Values → Values → Bool → Bool
    equality_lists nil nil case_matters = true
    equality_lists (cons v vs) (cons w ws) case_matters =
        equality v w case_matters && equality_lists vs ws case_matters
    equality_lists _ _ case_matters = false
