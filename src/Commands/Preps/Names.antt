-- ===== src/Commands/Preps/Names.antt =====
-- The names of the prepositions (server/db_verbs.c).
use nu_moo.Base.{
  ℕ, zero, suc, ◌+◌, ◌≡◌, refl, Bool, true, false, ◌&&◌, some, List, [], ◌∷◌, arith, leb, ◌==◌,
  get_elem?,
}
use mathlib.Core.Path.{subst}
use nu_moo.Base.Int.{ℤ, pos}
use nu_moo.Commands.Preps.{
  prep_list, begins_with, phrase_fits, alias_loop, prep_loop, word_loop, db_find_prep, cut_at_slash,
  prep_number, db_match_prep, db_unparse_prep,
}
use nu_moo.Commands.Words.{one_word, words_loop, parse_into_words}
use nu_moo.Strings.{cmap, mystrcasecmp, skip_spaces}

-- The C library's `strtol` reads nothing of a string that begins with a letter in lower case.
abbrev pub NoNumber : (List ℕ → ℤ × List ℕ) → Type 0
NoNumber strtol =
    (c : ℕ) (s : List ℕ) → (leb 97 c && leb c 122) ≡ true → strtol (c ∷ s) ≡ (pos 0, c ∷ s)

-- The name begins with a letter, and its first phrase is one of the preposition `j`.
abbrev pub Named : ℕ → List ℕ → Type 0
Named j [] = ⊥
Named j (c ∷ s) =
    ((leb 97 c && leb c 122) ≡ true)
    × (prep_number (db_find_prep (parse_into_words (cut_at_slash (c ∷ s))) true) ≡ pos j)

abbrev AllNamed : ℕ → List (List ℕ) → Type 0
AllNamed j [] = Unit
AllNamed j (p ∷ ps) = Named j p × AllNamed (suc j) ps

prep_list-AllNamed : AllNamed 0 prep_list
unfolding db_find_prep word_loop words_loop cut_at_slash skip_spaces prep_loop alias_loop
    phrase_fits one_word begins_with mystrcasecmp cmap
prep_list-AllNamed = (
  (refl, refl),
  (
    (refl, refl),
    (
      (refl, refl),
      (
        (refl, refl),
        (
          (refl, refl),
          (
            (refl, refl),
            (
              (refl, refl),
              (
                (refl, refl),
                (
                  (refl, refl),
                  (
                    (refl, refl),
                    (
                      (refl, refl),
                      ((refl, refl), ((refl, refl), ((refl, refl), ((refl, refl), tt)))),
                    ),
                  ),
                ),
              ),
            ),
          ),
        ),
      ),
    ),
  ),
)

AllNamed-at :
    (ps : List (List ℕ)) (i j : ℕ) {name : List ℕ}
    → AllNamed i ps
    → get_elem? ps j ≡ some name
    → Named (i + j) name
AllNamed-at [] i j h e = cc e
AllNamed-at (p ∷ ps) i zero {name} h e =
    let same : p ≡ name = cc e in
    let start : i ≡ i + 0 = omega arith in
    subst (λ k. Named k name) start (subst (Named i) same h.0)
AllNamed-at (p ∷ ps) i (suc j) {name} h e =
    let next : suc i + j ≡ i + suc j = omega arith in
    subst (λ k. Named k name) next (AllNamed-at ps (suc i) j h.1 e)

module _ (strtol : List ℕ → ℤ × List ℕ) (isdigit : ℕ → Bool) where
  match-Named :
      (j : ℕ) (name : List ℕ)
      → NoNumber strtol
      → Named j name
      → db_match_prep strtol isdigit name ≡ pos j
  unfolding db_match_prep
  match-Named j [] nn h = absurd h
  match-Named j (c ∷ s) nn (letter, found) =
      let apart : (c == 35) ≡ false = ground (arith, letter) in rw (apart, nn c s letter) found

  -- The number of a preposition is read back from the name that `db_unparse_prep` gives it, if the
  -- C library reads no number where a letter in lower case stands.
  pub db_match_prep-db_unparse_prep :
      (j : ℕ) (name : List ℕ)
      → NoNumber strtol
      → db_unparse_prep (pos j) ≡ some name
      → db_match_prep strtol isdigit name ≡ pos j
  unfolding db_unparse_prep
  db_match_prep-db_unparse_prep j name nn e = match-Named j name nn (
      let named_there = AllNamed-at prep_list 0 j prep_list-AllNamed e in
      let start : 0 + j ≡ j = omega arith in subst (λ k. Named k name) start named_there)
