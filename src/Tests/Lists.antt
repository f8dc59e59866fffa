-- ===== src/Tests/Lists.antt =====
-- The list operations of server/list.c, and strings, at concrete inputs.
use nu_moo.Base.{ℕ, ◌%◌, ◌≡◌, refl, ◌↔◌, Bool, List, [], ◌∷◌, arith, ◌==◌}
use nu_moo.Base.Int.{pos}
use nu_moo.Lists.Member.{First}
use nu_moo.Strings.{cmap, mystrcasecmp}
use nu_moo.Strings.Case.{NonNul, EqualUpToCase, mystrcasecmp_iff}

abbrev xs : List ℕ
xs = 7 ∷ 8 ∷ 9 ∷ []

-- Numbers compared by their last digit.
abbrev last_digit : ℕ → ℕ → Bool
last_digit a b = a % 10 == b % 10

First-eight : First last_digit 18 (7 ∷ 8 ∷ 8 ∷ []) (7 ∷ []) 8 (8 ∷ [])
First-eight = record { shape = refl; before = (refl, tt); equal = refl }

-- `Look` and `lOOp`.
abbrev look : List ℕ
look = 76 ∷ 111 ∷ 111 ∷ 107 ∷ []

abbrev loop : List ℕ
loop = 108 ∷ 79 ∷ 79 ∷ 112 ∷ []

abbrev loud_look : List ℕ
loud_look = 76 ∷ 79 ∷ 79 ∷ 75 ∷ []

look-NonNul : NonNul look
look-NonNul = (
  (omega arith, omega arith),
  ((omega arith, omega arith), ((omega arith, omega arith), ((omega arith, omega arith), tt))),
)

loop-NonNul : NonNul loop
loop-NonNul = (
  (omega arith, omega arith),
  ((omega arith, omega arith), ((omega arith, omega arith), ((omega arith, omega arith), tt))),
)

loud-NonNul : NonNul loud_look
loud-NonNul = (
  (omega arith, omega arith),
  ((omega arith, omega arith), ((omega arith, omega arith), ((omega arith, omega arith), tt))),
)

mystrcasecmp_iff_example : (mystrcasecmp look loop ≡ pos 0) ↔ EqualUpToCase look loop
mystrcasecmp_iff_example = mystrcasecmp_iff look loop look-NonNul loop-NonNul

looks_equal : mystrcasecmp look loud_look ≡ pos 0
unfolding mystrcasecmp cmap
looks_equal = refl

-- `g*et take`, with more fuel than bytes, against `take`.
abbrev get_take : List ℕ
get_take = 103 ∷ 42 ∷ 101 ∷ 116 ∷ 32 ∷ 116 ∷ 97 ∷ 107 ∷ 101 ∷ []

abbrev take_word : List ℕ
take_word = 116 ∷ 97 ∷ 107 ∷ 101 ∷ []
