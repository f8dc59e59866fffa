-- ===== src/Commands/Words/Plain.antt =====
-- Written words are read back (server/parse_cmd.c): plain ones as `build_string` writes them, and
-- any at all between quotes.
use nu_moo.Base.{
  ℕ, ◌≡◌, refl, sym, ap, ◌∙◌, inl, inr, Bool, true, false, ◌&&◌, ◌||◌, not, List, [], ◌∷◌, ◌++◌,
  map, arith, if◌then◌else◌, Bool-cases, All,
}
use nu_moo.Commands.Words.{
  quote?, backslash?, add_byte, one_word, parse_into_words, build_rest, build_string,
}
use nu_moo.Commands.Words.Loop.{
  Words, all_read, word_read, space-skip, skip_spaces-stop, parse_into_words-Words, Words-unique,
}
use nu_moo.Strings.{space?, skip_spaces}

-- Neither a space, nor a quote, nor a backslash.
abbrev pub PlainByte : ℕ → Type 0
PlainByte c = (space? c ≡ false) × (quote? c ≡ false) × (backslash? c ≡ false)

abbrev pub PlainWord : List ℕ → Type 0
PlainWord [] = ⊥
PlainWord (c ∷ w) = PlainByte c × All PlainByte w

-- A text that the loop over a word reads as the word, up to a space or the end of the command.
pub record Spells (word s : List ℕ) : Type 0 where
  pub starts : (c : ℕ) × (t : List ℕ) × (s ≡ c ∷ t) × (space? c ≡ false)
  pub reads :
      (rest : List (List ℕ))
      → one_word false (s ++ build_rest rest) ≡ (word, build_rest rest, false)

abbrev pub AllSpell : List (List ℕ) → List (List ℕ) → Type 0
AllSpell [] [] = Unit
AllSpell [] (s ∷ ss) = ⊥
AllSpell (w ∷ ws) [] = ⊥
AllSpell (w ∷ ws) (s ∷ ss) = Spells w s × AllSpell ws ss

one_word-space : (t : List ℕ) → one_word false (32 ∷ t) ≡ ([], 32 ∷ t, false)
unfolding one_word
one_word-space [] = refl
one_word-space (b ∷ t) = refl

one_word-rest : (ss : List (List ℕ)) → one_word false (build_rest ss) ≡ ([], build_rest ss, false)
unfolding one_word build_rest
one_word-rest [] = refl
one_word-rest (s ∷ ss) = one_word-space (s ++ build_rest ss)

-- A byte of its own in a word.
one_word-plain :
    (q : Bool) (c : ℕ) (s : List ℕ)
    → not q && space? c ≡ false
    → quote? c ≡ false
    → backslash? c ≡ false
    → one_word q (c ∷ s) ≡ add_byte c (one_word q s)
unfolding one_word
one_word-plain q c [] e f g = rw (e, f, g) refl
one_word-plain q c (b ∷ s) e f g = rw (e, f, g) refl

one_word-byte :
    (q : Bool) (c : ℕ) (s word input : List ℕ) {q' : Bool}
    → PlainByte c
    → one_word q s ≡ (word, input, q')
    → one_word q (c ∷ s) ≡ (c ∷ word, input, q')
one_word-byte q c s word input (e, f, g) h =
    one_word-plain q c s (ground (arith, e)) f g ∙ ap (add_byte c) h

plain-reads :
    (w : List ℕ) (ss : List (List ℕ))
    → All PlainByte w
    → one_word false (w ++ build_rest ss) ≡ (w, build_rest ss, false)
plain-reads [] ss h = one_word-rest ss
plain-reads (c ∷ w) ss (p, h) =
    one_word-byte false c (w ++ build_rest ss) w (build_rest ss) p (plain-reads w ss h)

PlainWord-Spells : (w : List ℕ) → PlainWord w → Spells w w
PlainWord-Spells [] h = absurd h
PlainWord-Spells (c ∷ w) (p, h) = record {
  starts = (c, w, refl, p.0);
  reads = λ ss. plain-reads (c ∷ w) ss (p, h);
}

-- A word between quotes, with a backslash before every quote and backslash of it.
abbrev pub with_escapes : List ℕ → List ℕ
with_escapes [] = 34 ∷ []
with_escapes (c ∷ w) =
    let rest = with_escapes w in if quote? c || backslash? c then 92 ∷ c ∷ rest else c ∷ rest

abbrev pub quote_word : List ℕ → List ℕ
quote_word w = 34 ∷ with_escapes w

one_word-backslash :
    (q : Bool) (c : ℕ) (s : List ℕ) → one_word q (92 ∷ c ∷ s) ≡ add_byte c (one_word q s)
unfolding one_word
one_word-backslash true c s = refl
one_word-backslash false c s = refl

one_word-quote : (q : Bool) (s : List ℕ) → one_word q (34 ∷ s) ≡ one_word (not q) s
unfolding one_word
one_word-quote true [] = refl
one_word-quote false [] = refl
one_word-quote true (b ∷ s) = refl
one_word-quote false (b ∷ s) = refl

with_escapes-reads :
    (w : List ℕ) (ss : List (List ℕ))
    → one_word true (with_escapes w ++ build_rest ss) ≡ (w, build_rest ss, false)
with_escapes-reads [] ss = one_word-quote true (build_rest ss) ∙ one_word-rest ss
with_escapes-reads (c ∷ w) ss = elim (Bool-cases (quote? c || backslash? c)) [
  | inl e ↦ rw e (
      one_word-backslash true c (with_escapes w ++ build_rest ss)
      ∙ ap (add_byte c) (with_escapes-reads w ss))
  | inr e ↦ rw e (
      one_word-plain true c (with_escapes w ++ build_rest ss) refl (ground (arith, e))
        (ground (arith, e))
      ∙ ap (add_byte c) (with_escapes-reads w ss))
]

quote_word-Spells : (w : List ℕ) → Spells w (quote_word w)
quote_word-Spells w = record {
  starts = (34, with_escapes w, refl, refl);
  reads = λ ss. one_word-quote false (with_escapes w ++ build_rest ss) ∙ with_escapes-reads w ss;
}

build_string-cons : (s : List ℕ) (ss : List (List ℕ)) → build_string (s ∷ ss) ≡ s ++ build_rest ss
unfolding build_string
build_string-cons s ss = refl

skip-rest :
    (s : List ℕ) (ss : List (List ℕ))
    → skip_spaces (build_rest (s ∷ ss)) ≡ skip_spaces (s ++ build_rest ss)
unfolding build_rest
skip-rest s ss = space-skip (s ++ build_rest ss)

skip-nothing : skip_spaces [] ≡ []
unfolding skip_spaces
skip-nothing = refl

rest-nil : build_rest [] ≡ []
unfolding build_rest
rest-nil = refl

-- The words of texts that are joined with spaces.
joined-Words :
    (ws ss : List (List ℕ)) → AllSpell ws ss → Words false (skip_spaces (build_rest ss)) ws
joined-Words [] [] h = rw (rest-nil, skip-nothing) all_read
joined-Words [] (s ∷ ss) h = absurd h
joined-Words (w ∷ ws) [] h = absurd h
joined-Words (w ∷ ws) (s ∷ ss) (spell, h) =
    let (c, t, e, f) = spell.starts in
    let shape : s ++ build_rest ss ≡ c ∷ t ++ build_rest ss = ap (λ x. x ++ build_rest ss) e in
    let start : skip_spaces (build_rest (s ∷ ss)) ≡ c ∷ t ++ build_rest ss =
      skip-rest s ss ∙ ap skip_spaces shape ∙ skip_spaces-stop c (t ++ build_rest ss) f in
    rw start (word_read (ap (one_word false) (sym shape) ∙ spell.reads ss) (joined-Words ws ss h))

skip-joined : (ss : List (List ℕ)) → skip_spaces (build_string ss) ≡ skip_spaces (build_rest ss)
unfolding build_string
skip-joined [] = ap skip_spaces (sym rest-nil)
skip-joined (s ∷ ss) = sym (skip-rest s ss)

parse-joined : (ws ss : List (List ℕ)) → AllSpell ws ss → parse_into_words (build_string ss) ≡ ws
parse-joined ws ss h =
    Words-unique (rw (sym (skip-joined ss)) (parse_into_words-Words (build_string ss)))
      (joined-Words ws ss h)

-- Words that are not empty and have no space, quote or backslash are read back from the string that
-- `build_string` makes of them.
pub parse_into_words-build_string :
    (ws : List (List ℕ)) → All PlainWord ws → parse_into_words (build_string ws) ≡ ws
parse_into_words-build_string ws h = parse-joined ws ws (spell ws h)
  where
    spell : (ws : List (List ℕ)) → All PlainWord ws → AllSpell ws ws
    spell [] h = tt
    spell (w ∷ ws) (p, h) = (PlainWord-Spells w p, spell ws h)

-- Any words at all, empty ones and those with spaces too, are read back from the string that
-- `build_string` makes of them when each stands between quotes, with a backslash before every quote
-- and backslash in it.
pub parse_into_words-quote_word :
    (ws : List (List ℕ)) → parse_into_words (build_string (map quote_word ws)) ≡ ws
parse_into_words-quote_word ws = parse-joined ws (map quote_word ws) (spell ws)
  where
    spell : (ws : List (List ℕ)) → AllSpell ws (map quote_word ws)
    spell [] = tt
    spell (w ∷ ws) = (quote_word-Spells w, spell ws)
