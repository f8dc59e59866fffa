-- ===== src/Commands/Preps.antt =====
-- The prepositions of server/db_verbs.c: the table of their phrases, the search for one among the
-- words of a command, and their names.
pub mod Find
pub mod Names
use nu_moo.Base.{
  ℕ, zero, suc, ◌+◌, ◌-◌, ◌*◌, ◌≤◌, ◌<◌, ◌≡◌, refl, ◌≢◌, Bool, true, false, ◌&&◌, ◌||◌, not, Option,
  none, some, List, [], ◌∷◌, ◌++◌, map, arith, ltb, leb, ◌==◌, if◌then◌else◌, length, get_elem?,
  codes, ◌>>=◌,
}
use nu_moo.Base.Int.{ℤ, pos, negsuc, ◌-ℤ◌, ◌==ℤ◌, to_int}
use nu_moo.Commands.Words.{parse_into_words}
use nu_moo.Db.Verbs.{prep_none}
use nu_moo.Db.Verbs.Handles.{first_byte, is_empty}
use nu_moo.Strings.{mystrcasecmp}

-- `prep_list`: a preposition's phrases stand with slashes between them.
abbrev pub prep_list : List (List ℕ)
prep_list =
    codes "with/using"
    ∷ codes "at/to"
    ∷ codes "in front of"
    ∷ codes "in/inside/into"
    ∷ codes "on top of/on/onto/upon"
    ∷ codes "out of/from inside/from"
    ∷ codes "over"
    ∷ codes "through"
    ∷ codes "under/underneath/beneath"
    ∷ codes "behind"
    ∷ codes "beside"
    ∷ codes "for/about"
    ∷ codes "is"
    ∷ codes "as"
    ∷ codes "off/off of"
    ∷ []

abbrev pub slash? : ℕ → Bool
slash? c = c == 47

-- The bytes up to each slash.
abbrev pub add_to_first : ℕ → List (List ℕ) → List (List ℕ)
add_to_first c [] = (c ∷ []) ∷ []
add_to_first c (p ∷ ps) = (c ∷ p) ∷ ps

unfoldable pub phrases : List ℕ → List (List ℕ)
phrases [] = [] ∷ []
phrases (c ∷ s) = let rest = phrases s in if slash? c then [] ∷ rest else add_to_first c rest

-- The phrases of an entry; a slash in front of the first is skipped.
unfoldable pub entry_phrases : List ℕ → List (List ℕ)
unfolding phrases
entry_phrases [] = []
entry_phrases (c ∷ s) = if slash? c then phrases s else phrases (c ∷ s)

-- The table that `dbpriv_build_prep_table` makes: for each preposition its phrases, cut to words.
unfoldable pub prep_aliases : List ℕ → List (List (List ℕ))
unfolding entry_phrases parse_into_words
prep_aliases p = map parse_into_words (entry_phrases p)

unfoldable pub dbpriv_build_prep_table : List (List (List (List ℕ)))
unfolding prep_aliases
dbpriv_build_prep_table = map prep_aliases prep_list

-- The loop over the words of a phrase, `k == alias->nwords` behind it: `argv` begins with the phrase.
unfoldable pub begins_with : (argv phrase : List (List ℕ)) → Bool
begins_with argv [] = true
begins_with [] (w ∷ ws) = false
begins_with (a ∷ argv) (w ∷ ws) =
    let rest = begins_with argv ws in if mystrcasecmp a w ==ℤ pos 0 then rest else false

-- What is asked of a phrase at the word `i` of `argc`.
unfoldable pub phrase_fits : (exact_match : Bool) → (rest phrase : List (List ℕ)) → Bool
phrase_fits exact_match rest phrase =
    leb (length phrase) (length rest)
    && begins_with rest phrase
    && (not exact_match || length phrase == length rest)

-- The loops over the phrases of a preposition, and over the prepositions from the number `j` on:
-- the first that fits, with the number of its words.
unfoldable pub alias_loop :
    (exact_match : Bool) → (rest : List (List ℕ)) → (aliases : List (List (List ℕ))) → Option ℕ
alias_loop exact_match rest [] = none
alias_loop exact_match rest (phrase ∷ aliases) =
    let others = alias_loop exact_match rest aliases in
    if phrase_fits exact_match rest phrase then some (length phrase) else others

abbrev pub this_prep : ℕ → Option ℕ → Option (ℕ × ℕ) → Option (ℕ × ℕ)
this_prep j none others = others
this_prep j (some n) others = some (j, n)

unfoldable pub prep_loop :
    (exact_match : Bool)
    → (rest : List (List ℕ)) → (j : ℕ) → List (List (List (List ℕ)))
    → Option (ℕ × ℕ)
prep_loop exact_match rest j [] = none
prep_loop exact_match rest j (aliases ∷ preps) =
    let others = prep_loop exact_match rest (suc j) preps in
    this_prep j (alias_loop exact_match rest aliases) others

pub record Prep : Type 0 where
  pub prep : ℕ
  pub first : ℕ
  pub last : ℤ

abbrev pub prep_at : ℕ → ℕ × ℕ → Prep
prep_at i (j, n) = record { prep = j; first = i; last = pos (i + n) -ℤ pos 1 }

abbrev pub this_word : Bool → ℕ → Option (ℕ × ℕ) → Option Prep → Option Prep
this_word exact_match i none others = if exact_match then none else others
this_word exact_match i (some found) others = some (prep_at i found)

-- The loop over the words from the word `i` on. Without a place for `first` and `last` only the
-- first word is tried.
unfoldable pub word_loop : (exact_match : Bool) → (i : ℕ) → (rest : List (List ℕ)) → Option Prep
unfolding dbpriv_build_prep_table
word_loop exact_match i [] = none
word_loop exact_match i (w ∷ rest) =
    let others = word_loop exact_match (suc i) rest in
    this_word exact_match i (prep_loop exact_match (w ∷ rest) 0 dbpriv_build_prep_table) others

-- `none` is PREP_NONE.
unfoldable pub db_find_prep : (argv : List (List ℕ)) → (exact_match : Bool) → Option Prep
db_find_prep argv exact_match = word_loop exact_match 0 argv

abbrev pub nprep : ℕ
nprep = 15

-- The string up to the first slash.
unfoldable pub cut_at_slash : List ℕ → List ℕ
cut_at_slash [] = []
cut_at_slash (c ∷ s) = let rest = cut_at_slash s in if slash? c then [] else c ∷ rest

abbrev pub without_hash : List ℕ → List ℕ
without_hash [] = []
without_hash (c ∷ s) = if c == 35 then s else c ∷ s

abbrev pub prep_number : Option Prep → ℤ
prep_number none = prep_none
prep_number (some p) = pos p.prep

-- `strtol` and `isdigit` are the C library's. The freeing of the copy is left out.
module _ (strtol : List ℕ → ℤ × List ℕ) (isdigit : ℕ → Bool) where
  -- `prep >= NPREPS` compares as size_t, where a negative number is a large one.
  abbrev pub in_table? : ℤ → Bool
  in_table? (pos n) = ltb n nprep
  in_table? (negsuc n) = false

  unfoldable pub db_match_prep : (prepname : List ℕ) → ℤ
  db_match_prep prepname =
      let s = without_hash prepname in
      let (number, rest) = strtol s in
      let prep = to_int number in
      if is_empty rest
      then if isdigit (first_byte s) && in_table? prep then prep else prep_none
      else prep_number (db_find_prep (parse_into_words (cut_at_slash s)) true)

-- Behind the table the source reads out of bounds.
unfoldable pub db_unparse_prep : ℤ → Option (List ℕ)
db_unparse_prep (pos j) = get_elem? prep_list j
db_unparse_prep (negsuc zero) = some (codes "none")
db_unparse_prep (negsuc (suc zero)) = some (codes "any")
db_unparse_prep (negsuc (suc (suc n))) = none
