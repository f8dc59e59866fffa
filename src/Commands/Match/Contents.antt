-- ===== src/Commands/Match/Contents.antt =====
-- Which object of two lists of contents `match_contents` means by a name (server/match.c).
use nu_moo.Base.{
  ℕ, ◌+◌, ◌≤◌, ◌<◌, ◌≡◌, refl, sym, ap, ◌∙◌, ◌⊎◌, inl, inr, Bool, true, false, Option, none, some,
  List, [], ◌∷◌, ◌++◌, arith, if◌then◌else◌, Bool-cases, length, length-append, All, ◌>>=◌,
}
use mathlib.Core.List.{append_assoc, append-nil}
use mathlib.Core.Path.{subst, ap₂}
use nu_moo.Base.Int.{pos}
use nu_moo.Commands.Match.{MatchData, strings, names_loop, with_names, aliases, match_proc}
use nu_moo.Commands.Match.Names.{
  whole?, part?, any, free, add, after_names, names_loop-after, names_loop-stop,
}
use nu_moo.Commands.Match.Which.{
  which, one_partial, first_exact, only, which-snoc, which-append, which-absent, Distinct-absent,
}
use nu_moo.Db.Links.{contents}
use nu_moo.Db.Links.Chain.{has, Distinct}
use nu_moo.Db.Object.{Objid, nothing, same, same_refl, Object}
use nu_moo.Db.Objects.{db_object_name}
use nu_moo.Db.Objects.Counts.{visit}
use nu_moo.Db.State.{Db}
use nu_moo.Value.{Value}

abbrev pub all_names : List (List ℕ) → Option Object → List (List ℕ)
all_names names none = []
all_names names (some o) = o.name ∷ names

name-found :
    (d : Db) (x : Objid) (o : Object) → d.objects x ≡ some o → db_object_name d x ≡ some o.name
unfolding db_object_name
name-found d x o e = ap (λ m. m >>= (λ o. some o.name)) e

module _ (find_property : Db → Objid → List ℕ → Option Value) (d : Db) (name : List ℕ) where
  -- The name of an object and its aliases.
  abbrev pub names_of : Objid → List (List ℕ)
  names_of x = all_names (strings (aliases find_property d x)) (d.objects x)

  abbrev pub exactly : Objid → Bool
  exactly x = any (whole? name) (names_of x)

  abbrev pub partly : Objid → Bool
  partly x = any (part? name) (names_of x)

  abbrev pub Known : Objid → Type 0
  Known x = (o : Object) × (d.objects x ≡ some o) × (i : ℕ) × (x ≡ pos i)

  abbrev pub state : List Objid → MatchData
  state seen = record {
    exact = first_exact (which exactly seen);
    partial = one_partial (which partly seen);
  }

  proc-names :
      (x : Objid) (m : MatchData)
      → Known x
      → match_proc find_property d name (some m) x
        ≡ ((names_loop name x (names_of x) m).0, some ((names_loop name x (names_of x) m).1))
  unfolding match_proc
  proc-names x m (o, e, i, known) =
      let names = strings (aliases find_property d x) in
      ap (with_names name x names m) (name-found d x o e)
      ∙ ap (λ cs. ((names_loop name x cs m).0, some ((names_loop name x cs m).1)))
          (ap (all_names names) (sym e))

  next_exact :
      (b : Bool) (x : Objid) (es : List Objid)
      → (es ≡ []) ⊎ (b ≡ false)
      → (if b then x else first_exact es) ≡ first_exact (es ++ only b x)
  next_exact true x [] h = refl
  next_exact true x (e ∷ es) h = elim h [ inl f ↦ cc f | inr f ↦ cc f ]
  next_exact false x es h = ap first_exact (sym (append-nil es))

  next_partial :
      (b : Bool) (x : Objid) (ps : List Objid)
      → Known x
      → All Known ps
      → has x ps ≡ false
      → (if b then add (one_partial ps) x else one_partial ps) ≡ one_partial (ps ++ only b x)
  unfolding same
  next_partial false x ps known all h = ap one_partial (sym (append-nil ps))
  next_partial true x [] known all h = refl
  next_partial true x (p ∷ []) (o, e, i, f) ((o', e', i', f'), all) h = ground arith
  next_partial true x (p ∷ q ∷ ps) (o, e, i, f) all h = rw f (ground arith)

  pub All-which : (test : Objid → Bool) (xs : List Objid) → All Known xs → All Known (which test xs)
  All-which test [] h = tt
  All-which test (x ∷ xs) h = elim (Bool-cases (test x)) [
    | inl e ↦ rw e (h.0, All-which test xs h.1)
    | inr e ↦ rw e (All-which test xs h.1)
  ]

  All-snoc : (xs : List Objid) (x : Objid) → All Known xs → Known x → All Known (xs ++ x ∷ [])
  All-snoc [] x h k = (k, tt)
  All-snoc (y ∷ xs) x h k = (h.0, All-snoc xs x h.1 k)

  state-snoc :
      (seen : List Objid) (x : Objid)
      → All Known seen
      → Known x
      → has x seen ≡ false
      → (which exactly seen ≡ []) ⊎ (exactly x ≡ false)
      → after_names x (exactly x) (partly x) (state seen) ≡ state (seen ++ x ∷ [])
  state-snoc seen x all known out h =
      ap₂ (λ a b. record { exact = a; partial = b })
        (next_exact (exactly x) x (which exactly seen) h
          ∙ ap first_exact (sym (which-snoc exactly seen x)))
        (next_partial (partly x) x (which partly seen) known (All-which partly seen all)
            (which-absent partly x seen out)
          ∙ ap one_partial (sym (which-snoc partly seen x)))

  free-state :
      (x : Objid) (es : List Objid) (partial : Objid)
      → es ≡ []
      → free x (record { exact = first_exact es; partial = partial }) ≡ true
  free-state x es partial e = rw (e, same_refl nothing) refl

  -- One object more is looked at, and the search goes on.
  proc-go :
      (seen : List Objid) (x : Objid)
      → All Known seen
      → Known x
      → has x seen ≡ false
      → (which exactly seen ≡ []) ⊎ (exactly x ≡ false)
      → match_proc find_property d name (some (state seen)) x
        ≡ (false, some (state (seen ++ x ∷ [])))
  proc-go seen x all known out h =
      let go : (free x (state seen) ≡ true) ⊎ (exactly x ≡ false) = elim h [
        | inl e ↦ inl (free-state x (which exactly seen) (one_partial (which partly seen)) e)
        | inr e ↦ inr e
      ] in
      proc-names x (state seen) known
      ∙ ap (λ r. (r.0, some (r.1))) (names_loop-after name x (names_of x) (state seen) go)
      ∙ ap (λ m. (false, some m)) (state-snoc seen x all known out h)

  busy :
      (x : Objid) (es : List Objid) (partial : Objid)
      → All Known es
      → has x es ≡ false
      → 0 < length es
      → free x (record { exact = first_exact es; partial = partial }) ≡ false
  unfolding same
  busy x [] partial all out lt = absurd (omega arith)
  busy x (e ∷ es) partial ((o, f, i, g), all) out lt = ground arith

  -- A second object matches exactly, and the search stops.
  proc-stop :
      (seen : List Objid) (x : Objid)
      → All Known seen
      → Known x
      → has x seen ≡ false
      → 0 < length (which exactly seen)
      → exactly x ≡ true
      → (m : MatchData) × (match_proc find_property d name (some (state seen)) x ≡ (true, some m))
  proc-stop seen x all known out lt e =
      let busy_state =
        busy x (which exactly seen) (one_partial (which partly seen)) (All-which exactly seen all)
          (which-absent exactly x seen out) lt in
      let r = names_loop name x (names_of x) (state seen) in
      (
        r.1,
        proc-names x (state seen) known
            ∙ ap (λ b. (b, some r.1))
                (names_loop-stop name x (names_of x) (state seen) busy_state e),
      )

  visit-step :
      (x : Objid) (xs : List Objid) (dat : Option MatchData) {r : Bool × Option MatchData}
      → match_proc find_property d name dat x ≡ r
      → visit contents d.objects (match_proc find_property d name) (x ∷ xs) dat ≡ (
          if r.0
          then (true, r.1)
          else visit contents d.objects (match_proc find_property d name) xs r.1)
  visit-step x xs dat e =
      ap
        (λ r.
          if r.0
          then (true, r.1)
          else visit contents d.objects (match_proc find_property d name) xs r.1)
        e

  exact_count :
      (seen : List Objid) (x : Objid)
      → length (which exactly (seen ++ x ∷ []))
        ≡ length (which exactly seen) + (if exactly x then 1 else 0)
  exact_count seen x =
      ap length (which-snoc exactly seen x)
      ∙ length-append (which exactly seen) (only (exactly x) x)
      ∙ elim (Bool-cases (exactly x)) [ inl e ↦ rw e refl | inr e ↦ rw e refl ]

  pub exact_le :
      (seen xs : List Objid) → length (which exactly seen) ≤ length (which exactly (seen ++ xs))
  exact_le seen xs = omega (
    arith,
    ap length (which-append exactly seen xs),
    length-append (which exactly seen) (which exactly xs),
  )

  pub visit-state :
      (xs seen : List Objid)
      → All Known seen
      → All Known xs
      → Distinct (seen ++ xs)
      → length (which exactly (seen ++ xs)) ≤ 1
      → visit contents d.objects (match_proc find_property d name) xs (some (state seen))
        ≡ (false, some (state (seen ++ xs)))
  visit-state [] seen all h distinct le = ap (λ s. (false, some (state s))) (sym (append-nil seen))
  visit-state (x ∷ xs) seen all (known, h) distinct le =
      let shape : (seen ++ x ∷ []) ++ xs ≡ seen ++ x ∷ xs = append_assoc seen (x ∷ []) xs in
      let count = exact_count seen x in
      let bound = exact_le (seen ++ x ∷ []) xs in
      let le' : length (which exactly ((seen ++ x ∷ []) ++ xs)) ≤ 1 =
        omega (arith, le, ap (λ s. length (which exactly s)) shape) in
      let go : (which exactly seen ≡ []) ⊎ (exactly x ≡ false) = elim (Bool-cases (exactly x)) [
        | inl e ↦ inl (empty (which exactly seen) (ground (arith, count, bound, le', e)))
        | inr e ↦ inr e
      ] in
      visit-step x xs (some (state seen))
        (proc-go seen x all known (Distinct-absent seen x xs distinct) go)
      ∙ visit-state xs (seen ++ x ∷ []) (All-snoc seen x all known) h
          (subst Distinct (sym shape) distinct) le'
      ∙ ap (λ s. (false, some (state s))) shape
    where
      empty : (ys : List Objid) → length ys ≤ 0 → ys ≡ []
      empty [] h = refl
      empty (y ∷ ys) h = absurd (omega arith)

  pub visit-stop :
      (xs seen : List Objid)
      → All Known seen
      → All Known xs
      → Distinct (seen ++ xs)
      → length (which exactly seen) ≤ 1
      → 1 < length (which exactly (seen ++ xs))
      → (m : MatchData) × (visit contents d.objects
            (match_proc find_property d name)
            xs
            (some (state seen))
          ≡ (true, some m))
  visit-stop [] seen all h distinct le lt =
      absurd (omega (arith, le, lt, ap (λ s. length (which exactly s)) (append-nil seen)))
  visit-stop (x ∷ xs) seen all (known, h) distinct le lt =
      let shape : (seen ++ x ∷ []) ++ xs ≡ seen ++ x ∷ xs = append_assoc seen (x ∷ []) xs in
      let out = Distinct-absent seen x xs distinct in
      let count = exact_count seen x in
      let lt' : 1 < length (which exactly ((seen ++ x ∷ []) ++ xs)) =
        omega (arith, lt, ap (λ s. length (which exactly s)) shape) in
      let next : (length (which exactly (seen ++ x ∷ [])) ≤ 1)
          → ((which exactly seen ≡ []) ⊎ (exactly x ≡ false))
          → (m : MatchData) × (visit contents d.objects (match_proc find_property d name) (x ∷ xs)
                (some (state seen))
              ≡ (true, some m)) =
        λ few go.
          let (m, e) =
            visit-stop xs (seen ++ x ∷ []) (All-snoc seen x all known) h
              (subst Distinct (sym shape) distinct) few lt' in
          (m, visit-step x xs (some (state seen)) (proc-go seen x all known out go) ∙ e) in
      elim (Bool-cases (exactly x)) [
        | inr e ↦ next (ground (arith, count, e, le)) (inr e)
        | inl e ↦ elim (length-cases (which exactly seen)) [
          | inl none_yet ↦ next (ground (arith, count, e, ap length none_yet)) (inl none_yet)
          | inr some_exact ↦
              let (m, f) = proc-stop seen x all known out some_exact e in
              (m, visit-step x xs (some (state seen)) f)
        ]
      ]
    where
      length-cases : (ys : List Objid) → (ys ≡ []) ⊎ (0 < length ys)
      length-cases [] = inl refl
      length-cases (y ∷ ys) = inr (omega arith)
