-- ===== src/Commands/Match/Names.antt =====
-- What the names of one object add to a search (server/match.c).
use nu_moo.Base.{
  ℕ, ◌≡◌, refl, sym, ap, ◌∙◌, ◌⊎◌, inl, inr, Bool, true, false, ◌&&◌, ◌||◌, not, List, [], ◌∷◌,
  arith, ◌==◌, if◌then◌else◌, Bool-cases, length, get_or,
}
use mathlib.Core.Path.{ap₂}
use nu_moo.Base.Int.{pos, ◌==ℤ◌}
use nu_moo.Commands.Match.{ambiguous, failed_match, MatchData, match_one, names_loop}
use nu_moo.Db.Object.{Objid, nothing, same, same_iff, same_refl}
use nu_moo.Strings.{mystrncasecmp}

-- A name that begins with what is looked for, up to case: all of it, or part of it.
abbrev pub begins? : (name candidate : List ℕ) → Bool
begins? name candidate = mystrncasecmp candidate name (length name) ==ℤ pos 0

abbrev pub whole? : (name candidate : List ℕ) → Bool
whole? name candidate = begins? name candidate && get_or candidate (length name) 0 == 0

abbrev pub part? : (name candidate : List ℕ) → Bool
part? name candidate = begins? name candidate && not (get_or candidate (length name) 0 == 0)

abbrev pub any : (List ℕ → Bool) → List (List ℕ) → Bool
any test [] = false
any test (c ∷ cs) = test c || any test cs

-- No other object matches exactly.
abbrev pub free : Objid → MatchData → Bool
free oid m = same m.exact nothing || same m.exact oid

abbrev pub add : Objid → Objid → Objid
add partial oid = if same partial failed_match || same partial oid then oid else ambiguous

abbrev pub after_names : Objid → (exactly partly : Bool) → MatchData → MatchData
after_names oid exactly partly m = record {
  exact = if exactly then oid else m.exact;
  partial = if partly then add m.partial oid else m.partial;
}

add-add : (p oid : Objid) → add (add p oid) oid ≡ add p oid
unfolding same
add-add p oid = elim (Bool-cases (same p failed_match || same p oid)) [
  | inl e ↦ rw (e, same_refl oid) (ground arith)
  | inr e ↦ rw e (elim (Bool-cases (same ambiguous oid)) [
    | inl f ↦ rw f (sym ((same_iff ambiguous oid).0 f))
    | inr f ↦ rw f refl
  ])
]

after-nothing : (oid : Objid) (m : MatchData) → after_names oid false false m ≡ m
after-nothing oid m = refl

after-after :
    (oid : Objid) (a b a' b' : Bool) (m : MatchData)
    → after_names oid a' b' (after_names oid a b m) ≡ after_names oid (a || a') (b || b') m
after-after oid a b a' b' m =
    ap₂ (λ x y. record { exact = x; partial = y }) (exacts a a') (partials b b')
  where
    exacts :
        (a a' : Bool)
        → (if a' then oid else if a then oid else m.exact) ≡ (if a || a' then oid else m.exact)
    exacts true true = refl
    exacts true false = refl
    exacts false true = refl
    exacts false false = refl

    partials :
        (b b' : Bool)
        → (if b'
            then add (if b then add m.partial oid else m.partial) oid
            else if b
            then add m.partial oid
            else m.partial)
          ≡ (if b || b' then add m.partial oid else m.partial)
    partials true true = add-add m.partial oid
    partials true false = refl
    partials false true = refl
    partials false false = refl

module _ (name : List ℕ) (oid : Objid) where
  match_one-whole :
      (c : List ℕ) (m : MatchData)
      → whole? name c ≡ true
      → free oid m ≡ true
      → match_one name oid c m ≡ (false, after_names oid true false m)
  unfolding match_one
  match_one-whole c m e f =
      let b : begins? name c ≡ true = ground (arith, e) in
      let g : (get_or c (length name) 0 == 0) ≡ true = ground (arith, e) in rw (b, g, f) refl

  match_one-stop :
      (c : List ℕ) (m : MatchData)
      → whole? name c ≡ true
      → free oid m ≡ false
      → match_one name oid c m ≡ (true, m)
  unfolding match_one
  match_one-stop c m e f =
      let b : begins? name c ≡ true = ground (arith, e) in
      let g : (get_or c (length name) 0 == 0) ≡ true = ground (arith, e) in rw (b, g, f) refl

  match_one-part :
      (c : List ℕ) (m : MatchData)
      → whole? name c ≡ false
      → match_one name oid c m ≡ (false, after_names oid false (part? name c) m)
  unfolding match_one
  match_one-part c m e = elim (Bool-cases (begins? name c)) [
    | inr b ↦ rw b refl
    | inl b ↦
        let g : (get_or c (length name) 0 == 0) ≡ false = ground (arith, e, b) in
        elim (Bool-cases (same m.partial failed_match || same m.partial oid)) [
          | inl h ↦ rw (b, g, h) refl
          | inr h ↦ rw (b, g, h) refl
        ]
  ]

  names-step :
      (c : List ℕ) (cs : List (List ℕ)) (m : MatchData) {r : Bool × MatchData}
      → match_one name oid c m ≡ r
      → names_loop name oid (c ∷ cs) m ≡ (if r.0 then (true, r.1) else names_loop name oid cs r.1)
  unfolding names_loop
  names-step c cs m e = ap (λ r. if r.0 then (true, r.1) else names_loop name oid cs r.1) e

  names-nil : (m : MatchData) → names_loop name oid [] m ≡ (false, m)
  unfolding names_loop
  names-nil m = refl

  -- Where no other object matches exactly, or no name of this one does, the search goes on.
  pub names_loop-after :
      (cs : List (List ℕ)) (m : MatchData)
      → (free oid m ≡ true) ⊎ (any (whole? name) cs ≡ false)
      → names_loop name oid cs m
        ≡ (false, after_names oid (any (whole? name) cs) (any (part? name) cs) m)
  names_loop-after [] m h = names-nil m
  names_loop-after (c ∷ cs) m h = elim (Bool-cases (whole? name c)) [
    | inl e ↦
        let is_free : free oid m ≡ true = elim h [
          | inl f ↦ f
          | inr f ↦ absurd (ground (arith, e, f))
        ] in
        let no_part : part? name c ≡ false = ground (arith, e) in
        let again : free oid (after_names oid true false m) ≡ true =
          rw (same_refl oid) (ground arith) in
        names-step c cs m (match_one-whole c m e is_free)
        ∙ names_loop-after cs (after_names oid true false m) (inl again)
        ∙ ap (λ m. (false, m))
            (after-after oid true false (any (whole? name) cs) (any (part? name) cs) m
              ∙ ap₂
                  (λ a b. after_names oid (a || any (whole? name) cs) (b || any (part? name) cs) m)
                  (sym e) (sym no_part))
    | inr e ↦
        let rest : (free oid m ≡ true) ⊎ (any (whole? name) cs ≡ false) = elim h [
          | inl f ↦ inl f
          | inr f ↦ inr (ground (arith, e, f))
        ] in
        names-step c cs m (match_one-part c m e)
        ∙ names_loop-after cs (after_names oid false (part? name c) m) rest
        ∙ ap (λ m. (false, m))
            (after-after oid false (part? name c) (any (whole? name) cs) (any (part? name) cs) m
              ∙ ap
                  (λ a.
                    after_names oid (a || any (whole? name) cs)
                      (part? name c || any (part? name) cs) m)
                  (sym e))
  ]

  -- Where another object matches exactly, and a name of this one does too, the search stops.
  pub names_loop-stop :
      (cs : List (List ℕ)) (m : MatchData)
      → free oid m ≡ false
      → any (whole? name) cs ≡ true
      → (names_loop name oid cs m).0 ≡ true
  names_loop-stop [] m f e = cc e
  names_loop-stop (c ∷ cs) m f e = elim (Bool-cases (whole? name c)) [
    | inl w ↦ ap (λ r. r.0) (names-step c cs m (match_one-stop c m w f))
    | inr w ↦
        ap (λ r. r.0) (names-step c cs m (match_one-part c m w))
        ∙ names_loop-stop cs (after_names oid false (part? name c) m) f (ground (arith, e, w))
  ]
