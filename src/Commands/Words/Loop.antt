-- ===== src/Commands/Words/Loop.antt =====
-- The loop over the words of a command (server/parse_cmd.c) ends, and reads the whole command.
use nu_moo.Base.{
  ℕ, zero, suc, ◌≤◌, ◌<◌, ◌≡◌, refl, sym, ap, ◌∙◌, ◌⊎◌, inl, inr, Bool, false, ◌&&◌, not, some,
  List, [], ◌∷◌, arith, Bool-cases, length,
}
use mathlib.Core.Path.{subst, ap₂}
use nu_moo.Commands.Words.{quote?, backslash?, one_word, words_loop, words_of, parse_into_words}
use nu_moo.Strings.{space?, skip_spaces}

-- The words that the rest of a command gives: the first byte begins a word, and what is behind the
-- word and the spaces after it gives the others.
pub data Words : Bool → List ℕ → List (List ℕ) → Type 0 where
  all_read : {q : Bool} → Words q [] []
  word_read :
      {q q' : Bool} {c : ℕ} {s word input : List ℕ} {ws : List (List ℕ)}
      → one_word q (c ∷ s) ≡ (word, input, q')
      → Words q' (skip_spaces input) ws
      → Words q (c ∷ s) (word ∷ ws)

pub space-skip : (s : List ℕ) → skip_spaces (32 ∷ s) ≡ skip_spaces s
unfolding skip_spaces
space-skip s = refl

pub skip_spaces-stop : (c : ℕ) (s : List ℕ) → space? c ≡ false → skip_spaces (c ∷ s) ≡ c ∷ s
unfolding skip_spaces
skip_spaces-stop c s e = rw e refl

skip_spaces-le : (v : List ℕ) → length (skip_spaces v) ≤ length v
unfolding skip_spaces
skip_spaces-le [] = omega arith
skip_spaces-le (b ∷ v) = ground (arith, skip_spaces-le v)

-- What is left behind a word is no longer.
one_word-le : (q : Bool) (s : List ℕ) → length (one_word q s).1 ≤ length s
unfolding one_word
one_word-le q [] = omega arith
one_word-le q (c ∷ []) = elim (Bool-cases (not q && space? c)) [
  | inl e ↦ rw e (omega arith)
  | inr e ↦ elim (Bool-cases (quote? c)) [
    | inl f ↦ rw (e, f) (omega arith)
    | inr f ↦ elim (Bool-cases (backslash? c)) [
      | inl g ↦ rw (e, f, g) (omega arith)
      | inr g ↦ rw (e, f, g) (omega arith)
    ]
  ]
]
one_word-le q (c ∷ b ∷ s) = elim (Bool-cases (not q && space? c)) [
  | inl e ↦ rw e (omega arith)
  | inr e ↦ elim (Bool-cases (quote? c)) [
    | inl f ↦ rw (e, f) (omega (arith, one_word-le (not q) (b ∷ s)))
    | inr f ↦ elim (Bool-cases (backslash? c)) [
      | inl g ↦ rw (e, f, g) (omega (arith, one_word-le q s))
      | inr g ↦ rw (e, f, g) (omega (arith, one_word-le q (b ∷ s)))
    ]
  ]
]

-- A word that does not begin at a space takes a byte at least.
one_word-lt :
    (q : Bool) (c : ℕ) (s : List ℕ)
    → not q && space? c ≡ false
    → length (one_word q (c ∷ s)).1 ≤ length s
unfolding one_word
one_word-lt q c [] e = elim (Bool-cases (quote? c)) [
  | inl f ↦ rw (e, f) (omega arith)
  | inr f ↦ elim (Bool-cases (backslash? c)) [
    | inl g ↦ rw (e, f, g) (omega arith)
    | inr g ↦ rw (e, f, g) (omega arith)
  ]
]
one_word-lt q c (b ∷ s) e = elim (Bool-cases (quote? c)) [
  | inl f ↦ rw (e, f) (one_word-le (not q) (b ∷ s))
  | inr f ↦ elim (Bool-cases (backslash? c)) [
    | inl g ↦ rw (e, f, g) (omega (arith, one_word-le q s))
    | inr g ↦ rw (e, f, g) (one_word-le q (b ∷ s))
  ]
]

-- Behind skipped spaces stands none.
skip_spaces-head :
    (s : List ℕ)
    → (skip_spaces s ≡ []) ⊎ ((c : ℕ) × (t : List ℕ) × (skip_spaces s ≡ c ∷ t) × (space? c ≡ false))
unfolding skip_spaces
skip_spaces-head [] = inl refl
skip_spaces-head (c ∷ s) = elim (Bool-cases (space? c)) [
  | inl e ↦ rw e (skip_spaces-head s)
  | inr e ↦ inr (c, s, rw e refl, e)
]

words_loop-Words :
    (k : ℕ) (q : Bool) (s : List ℕ)
    → length (skip_spaces s) < k
    → (ws : List (List ℕ)) × (words_loop k q (skip_spaces s) ≡ some ws) × Words q (skip_spaces s) ws
unfolding words_loop
words_loop-Words zero q s le = absurd (omega arith)
words_loop-Words (suc k) q s le = elim (skip_spaces-head s) [
  | inl e ↦ rw e ([], refl, all_read)
  | inr (c, t, e, f) ↦
      let (word, input, q') = one_word q (c ∷ t) in
      let shorter : length (skip_spaces input) < k =
        omega
          (arith, le, ap length e, skip_spaces-le input, one_word-lt q c t (ground (arith, f))) in
      let (ws, run, w) = words_loop-Words k q' input shorter in
      rw e (word ∷ ws, rw run refl, word_read refl w)
]

-- The loop over the words of a command ends before the fuel does, and its words are those that its
-- rounds read, one after the other, until nothing of the command is left.
words_of_lem :
    (input : List ℕ)
    → (words_of input ≡ some (parse_into_words input))
      × Words false (skip_spaces input) (parse_into_words input)
unfolding words_of parse_into_words
words_of_lem input =
    let (ws, run, w) =
      words_loop-Words (suc (length input)) false input (omega (arith, skip_spaces-le input)) in
    rw run (refl, w)

pub words_of-total : (input : List ℕ) → words_of input ≡ some (parse_into_words input)
words_of-total input = (words_of_lem input).0

pub parse_into_words-Words :
    (input : List ℕ) → Words false (skip_spaces input) (parse_into_words input)
parse_into_words-Words input = (words_of_lem input).1

-- The rest of a command gives one list of words only.
pub Words-unique :
    {q : Bool} {s : List ℕ} {ws us : List (List ℕ)} → Words q s ws → Words q s us → ws ≡ us
Words-unique all_read all_read = refl
Words-unique (word_read {q} {q'} {c} {s} {word} {input} {ws} e w)
      (word_read {q' = r} {word = u} {input = i} {ws = us} f v) =
    let same : (word, input, q') ≡ (u, i, r) = sym e ∙ f in
    let rest : Words q' (skip_spaces input) us =
      subst (λ (p : List ℕ × List ℕ × Bool). Words (p.2) (skip_spaces (p.1)) us) (sym same) v in
    ap₂ (λ a b. a ∷ b) (ap (λ p. p.0) same) (Words-unique w rest)
