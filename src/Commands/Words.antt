-- ===== src/Commands/Words.antt =====
-- `parse_into_words`, `build_string` and `parse_into_wordlist` of server/parse_cmd.c. The words
-- overwrite the string they are read from, always behind the place that is read next.
pub mod Loop
pub mod Plain
use nu_moo.Base.{
  ℕ, zero, suc, ◌+◌, ◌-◌, ◌*◌, ◌≤◌, ◌<◌, ◌≡◌, refl, ◌≢◌, Bool, true, false, ◌&&◌, ◌||◌, not, Option,
  none, some, List, [], ◌∷◌, ◌++◌, map, arith, ◌==◌, if◌then◌else◌, length, ◌>>=◌,
}
use nu_moo.Strings.{space?, skip_spaces}
use nu_moo.Value.{Value, str}

abbrev pub quote? : ℕ → Bool
quote? c = c == 34

abbrev pub backslash? : ℕ → Bool
backslash? c = c == 92

abbrev pub add_byte : ℕ → List ℕ × List ℕ × Bool → List ℕ × List ℕ × Bool
add_byte c (word, input, in_quotes) = (c ∷ word, input, in_quotes)

-- The loop over the bytes of a word: the word, where `input` stands behind it, and `in_quotes`.
unfoldable pub one_word : (in_quotes : Bool) → List ℕ → List ℕ × List ℕ × Bool
one_word q [] = ([], [], q)
one_word q (c ∷ []) =
    if not q && space? c
    then ([], c ∷ [], q)
    else if quote? c
    then ([], [], not q)
    else if backslash? c
    then ([], [], q)
    else (c ∷ [], [], q)
one_word q (c ∷ b ∷ s) =
    let quoted = one_word (not q) (b ∷ s) in
    let escaped = one_word q s in
    let plain = one_word q (b ∷ s) in
    if not q && space? c
    then ([], c ∷ b ∷ s, q)
    else if quote? c
    then quoted
    else if backslash? c
    then add_byte b escaped
    else add_byte c plain

-- The loop over the words, on fuel; `none` where the fuel ends before the loop does.
unfoldable pub words_loop : ℕ → (in_quotes : Bool) → List ℕ → Option (List (List ℕ))
words_loop zero q s = none
words_loop (suc k) q [] = some []
words_loop (suc k) q (c ∷ s) =
    let (word, input, q') = one_word q (c ∷ s) in
    words_loop k q' (skip_spaces input) >>= λ ws. some (word ∷ ws)

-- Each round reads a byte at least, so the length is fuel enough for the rounds, and one more for
-- the end.
unfoldable pub words_of : List ℕ → Option (List (List ℕ))
words_of input = words_loop (suc (length input)) false (skip_spaces input)

abbrev or_none : Option (List (List ℕ)) → List (List ℕ)
or_none none = []
or_none (some words) = words

-- The words, where the loop ends.
unfoldable pub parse_into_words : List ℕ → List (List ℕ)
unfolding words_of
parse_into_words input = or_none (words_of input)

-- The words after the first, each behind a space.
unfoldable pub build_rest : List (List ℕ) → List ℕ
build_rest [] = []
build_rest (w ∷ ws) = 32 ∷ w ++ build_rest ws

unfoldable pub build_string : List (List ℕ) → List ℕ
build_string [] = []
build_string (w ∷ ws) = w ++ build_rest ws

unfoldable pub parse_into_wordlist : List ℕ → List Value
parse_into_wordlist command = map str (parse_into_words command)
