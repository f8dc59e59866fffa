-- ===== src/Commands/Preps/Find.antt =====
-- Which preposition `db_find_prep` finds among the words of a command (server/db_verbs.c).
use nu_moo.Base.{
  ℕ, zero, suc, ◌+◌, ◌≤◌, ◌<◌, ◌≡◌, refl, sym, ap, ◌∙◌, inl, inr, true, false, Option, some, List,
  [], ◌∷◌, arith, Bool-cases, Option-cases, length, get_elem?, take, drop, some_injective,
}
use mathlib.Core.Path.{subst}
use nu_moo.Base.Int.{pos, ◌-ℤ◌, ◌==ℤ◌, ==ℤ_iff}
use nu_moo.Commands.Preps.{
  dbpriv_build_prep_table, begins_with, phrase_fits, alias_loop, this_prep, prep_loop, Prep,
  prep_at, this_word, word_loop, db_find_prep,
}
use nu_moo.Strings.{mystrcasecmp}

-- Equal words for `mystrcasecmp`, one by one.
abbrev pub SameWords : List (List ℕ) → List (List ℕ) → Type 0
SameWords [] [] = Unit
SameWords [] (w ∷ ws) = ⊥
SameWords (v ∷ vs) [] = ⊥
SameWords (v ∷ vs) (w ∷ ws) = (mystrcasecmp v w ≡ pos 0) × SameWords vs ws

-- At the word `i` stands a phrase of the preposition `j` in the table, of `n` words.
pub record Stands (table : List (List (List (List ℕ)))) (rest : List (List ℕ)) (j n : ℕ)
    : Type 0 where
  pub aliases : List (List (List ℕ))
  pub phrase : List (List ℕ)
  pub place : ℕ
  pub listed : get_elem? table j ≡ some aliases
  pub alias : get_elem? aliases place ≡ some phrase
  pub size : length phrase ≡ n
  pub there : SameWords (take n rest) phrase

begins-le :
    (rest phrase : List (List ℕ)) → begins_with rest phrase ≡ true → length phrase ≤ length rest
unfolding begins_with
begins-le rest [] e = omega arith
begins-le [] (w ∷ ws) e = cc e
begins-le (v ∷ rest) (w ∷ ws) e = elim (Bool-cases (mystrcasecmp v w ==ℤ pos 0)) [
  | inl f ↦ omega (arith, begins-le rest ws (cc (e, f)))
  | inr f ↦ cc (e, f)
]

begins-same :
    (rest phrase : List (List ℕ))
    → begins_with rest phrase ≡ true
    → SameWords (take (length phrase) rest) phrase
unfolding begins_with
begins-same rest [] e = tt
begins-same [] (w ∷ ws) e = cc e
begins-same (v ∷ rest) (w ∷ ws) e = elim (Bool-cases (mystrcasecmp v w ==ℤ pos 0)) [
  | inl f ↦ ((==ℤ_iff (mystrcasecmp v w) (pos 0)).0 f, begins-same rest ws (cc (e, f)))
  | inr f ↦ cc (e, f)
]

same-begins :
    (rest phrase : List (List ℕ))
    → SameWords (take (length phrase) rest) phrase
    → begins_with rest phrase ≡ true
unfolding begins_with
same-begins rest [] h = refl
same-begins [] (w ∷ ws) h = absurd h
same-begins (v ∷ rest) (w ∷ ws) (e, h) =
    rw ((==ℤ_iff (mystrcasecmp v w) (pos 0)).1 e) (same-begins rest ws h)

fits-same :
    (rest phrase : List (List ℕ))
    → phrase_fits false rest phrase ≡ true
    → SameWords (take (length phrase) rest) phrase
unfolding phrase_fits
fits-same rest phrase e = begins-same rest phrase (ground (arith, e))

same-fits :
    (rest phrase : List (List ℕ))
    → SameWords (take (length phrase) rest) phrase
    → phrase_fits false rest phrase ≡ true
unfolding phrase_fits
same-fits rest phrase h =
    let b = same-begins rest phrase h in let le = begins-le rest phrase b in ground arith

alias-found :
    (rest : List (List ℕ)) (aliases : List (List (List ℕ))) (n : ℕ)
    → alias_loop false rest aliases ≡ some n
    → (k : ℕ) × (phrase : List (List ℕ)) × (get_elem? aliases k ≡ some phrase)
      × (length phrase ≡ n)
      × SameWords (take n rest) phrase
unfolding alias_loop
alias-found rest [] n e = cc e
alias-found rest (phrase ∷ aliases) n e = elim (Bool-cases (phrase_fits false rest phrase)) [
  | inl f ↦
      let size : length phrase ≡ n = cc (e, f) in
      (
        0,
        phrase,
        refl,
        size,
        subst (λ m. SameWords (take m rest) phrase) size (fits-same rest phrase f),
      )
  | inr f ↦
      let (k, p, spot, size, there) = alias-found rest aliases n (cc (e, f)) in
      (suc k, p, spot, size, there)
]

alias-finds :
    (rest : List (List ℕ)) (aliases : List (List (List ℕ))) (k : ℕ) (phrase : List (List ℕ))
    → get_elem? aliases k ≡ some phrase
    → phrase_fits false rest phrase ≡ true
    → (n : ℕ) × (alias_loop false rest aliases ≡ some n)
unfolding alias_loop
alias-finds rest [] k phrase e f = cc e
alias-finds rest (p ∷ aliases) zero phrase e f =
    (length p, rw (ap (phrase_fits false rest) (some_injective e) ∙ f) refl)
alias-finds rest (p ∷ aliases) (suc k) phrase e f = elim (Bool-cases (phrase_fits false rest p)) [
  | inl g ↦ (length p, rw g refl)
  | inr g ↦ rw g (alias-finds rest aliases k phrase e f)
]

prep-is :
    (rest : List (List ℕ)) (aliases : List (List (List ℕ))) (table : List (List (List (List ℕ))))
    (i : ℕ) {m : Option ℕ}
    → alias_loop false rest aliases ≡ m
    → prep_loop false rest i (aliases ∷ table) ≡ this_prep i m (prep_loop false rest (suc i) table)
unfolding prep_loop
prep-is rest aliases table i f = ap (λ m. this_prep i m (prep_loop false rest (suc i) table)) f

word-is :
    (w : List ℕ) (rest : List (List ℕ)) (i : ℕ) {m : Option (ℕ × ℕ)}
    → prep_loop false (w ∷ rest) 0 dbpriv_build_prep_table ≡ m
    → word_loop false i (w ∷ rest) ≡ this_word false i m (word_loop false (suc i) rest)
unfolding word_loop
word-is w rest i f = ap (λ m. this_word false i m (word_loop false (suc i) rest)) f

prep-found :
    (rest : List (List ℕ)) (table : List (List (List (List ℕ)))) (i : ℕ) (j n : ℕ)
    → prep_loop false rest i table ≡ some (j, n)
    → (k : ℕ) × (j ≡ i + k) × Stands table rest k n
unfolding prep_loop
prep-found rest [] i j n e = cc e
prep-found rest (aliases ∷ table) i j n e = elim (Option-cases (alias_loop false rest aliases)) [
  | inl f ↦
      let others : prep_loop false rest (suc i) table ≡ some (j, n) =
        sym (prep-is rest aliases table i f) ∙ e in
      let (k, spot, found) = prep-found rest table (suc i) j n others in
      (
        suc k,
        omega arith,
        record {
          aliases = found.aliases;
          phrase = found.phrase;
          place = found.place;
          listed = found.listed;
          alias = found.alias;
          size = found.size;
          there = found.there;
        },
      )
  | inr (m, f) ↦
      let here : some (i, m) ≡ some (j, n) = sym (prep-is rest aliases table i f) ∙ e in
      let (k, phrase, spot, size, there) = alias-found rest aliases n (f ∙ ap some (cc here)) in
      (
        0,
        ground (arith, here),
        record {
          aliases = aliases;
          phrase = phrase;
          place = k;
          listed = refl;
          alias = spot;
          size = size;
          there = there;
        },
      )
]

prep-finds :
    (rest : List (List ℕ)) (table : List (List (List (List ℕ)))) (i : ℕ) (j n : ℕ)
    → Stands table rest j n
    → (m : ℕ × ℕ) × (prep_loop false rest i table ≡ some m)
unfolding prep_loop
prep-finds rest [] i j n h = cc h.listed
prep-finds rest (aliases ∷ table) i zero n h =
    let fits =
      same-fits rest h.phrase
        (subst (λ m. SameWords (take m rest) h.phrase) (sym h.size) h.there) in
    let same : aliases ≡ h.aliases = cc h.listed in
    let (m, e) =
      alias-finds rest aliases h.place h.phrase (ap (λ a. get_elem? a h.place) same ∙ h.alias)
        fits in
    ((i, m), prep-is rest aliases table i e)
prep-finds rest (aliases ∷ table) i (suc j) n h =
    elim (Option-cases (alias_loop false rest aliases)) [
      | inl f ↦
          let (m, g) = prep-finds rest table (suc i) j n (record {
            aliases = h.aliases;
            phrase = h.phrase;
            place = h.place;
            listed = h.listed;
            alias = h.alias;
            size = h.size;
            there = h.there;
          }) in
          (m, prep-is rest aliases table i f ∙ g)
      | inr (m, f) ↦ ((i, m), prep-is rest aliases table i f)
    ]

word-found :
    (argv : List (List ℕ)) (i : ℕ) (p : Prep)
    → word_loop false i argv ≡ some p
    → (k : ℕ) × (n : ℕ) × (p ≡ prep_at (i + k) (p.prep, n))
      × Stands dbpriv_build_prep_table (drop k argv) p.prep n
unfolding word_loop
word-found [] i p e = cc e
word-found (w ∷ rest) i p e =
    elim (Option-cases (prep_loop false (w ∷ rest) 0 dbpriv_build_prep_table)) [
      | inl f ↦
          let others : word_loop false (suc i) rest ≡ some p = sym (word-is w rest i f) ∙ e in
          let (k, n, spot, found) = word-found rest (suc i) p others in
          let next : suc i + k ≡ i + suc k = omega arith in
          (suc k, n, spot ∙ ap (λ m. prep_at m (p.prep, n)) next, found)
      | inr ((j, n), f) ↦
          let stop : some (prep_at i (j, n)) ≡ some p = sym (word-is w rest i f) ∙ e in
          let same : p ≡ prep_at i (j, n) = cc stop in
          let number : j ≡ p.prep = ap (λ q. q.prep) (sym same) in
          let (k, spot, found) = prep-found (w ∷ rest) dbpriv_build_prep_table 0 j n f in
          let place : k ≡ p.prep = omega (arith, spot, number) in
          let here : i ≡ i + 0 = omega arith in
          (
            0,
            n,
            same ∙ ap (λ m. prep_at i (m, n)) number ∙ ap (λ m. prep_at m (p.prep, n)) here,
            subst (λ m. Stands dbpriv_build_prep_table (w ∷ rest) m n) place found,
          )
    ]

word-finds :
    (argv : List (List ℕ)) (i k j n : ℕ)
    → Stands dbpriv_build_prep_table (drop k argv) j n
    → k < length argv
    → (p : Prep) × (word_loop false i argv ≡ some p) × (p.first ≤ i + k)
unfolding word_loop
word-finds [] i k j n h lt = absurd (omega arith)
word-finds (w ∷ rest) i zero j n h lt =
    let (m, e) = prep-finds (w ∷ rest) dbpriv_build_prep_table 0 j n h in
    (prep_at i m, word-is w rest i e, omega arith)
word-finds (w ∷ rest) i (suc k) j n h lt =
    elim (Option-cases (prep_loop false (w ∷ rest) 0 dbpriv_build_prep_table)) [
      | inl f ↦
          let (p, e, le) = word-finds rest (suc i) k j n h (omega arith) in
          (p, word-is w rest i f ∙ e, omega (arith, le))
      | inr (m, f) ↦ (prep_at i m, word-is w rest i f, omega arith)
    ]

-- The preposition that is found among the words of a command stands there: from the word `first` to
-- the word `last` stand the words of one of its phrases in the table, up to case.
pub db_find_prep-Stands :
    (argv : List (List ℕ)) (p : Prep)
    → db_find_prep argv false ≡ some p
    → (n : ℕ) × Stands dbpriv_build_prep_table (drop p.first argv) p.prep n
      × (p.last ≡ pos (p.first + n) -ℤ pos 1)
unfolding db_find_prep
db_find_prep-Stands argv p e =
    let (k, n, spot, found) = word-found argv 0 p e in
    let start : 0 + k ≡ k = omega arith in
    let first : p.first ≡ k = ap (λ q. q.first) spot ∙ start in
    (
      n,
      subst (λ m. Stands dbpriv_build_prep_table (drop m argv) p.prep n) (sym first) found,
      ap (λ q. q.last) spot ∙ ap (λ m. pos (m + n) -ℤ pos 1) (start ∙ sym first),
    )

-- Where a phrase of a preposition stands among the words of a command, one is found, that word or
-- an earlier one being its first.
pub db_find_prep_finds :
    (argv : List (List ℕ)) (i j n : ℕ)
    → Stands dbpriv_build_prep_table (drop i argv) j n
    → i < length argv
    → (p : Prep) × (db_find_prep argv false ≡ some p) × (p.first ≤ i)
unfolding db_find_prep
db_find_prep_finds argv i j n h lt =
    let (p, e, le) = word-finds argv 0 i j n h lt in (p, e, omega (arith, le))
