-- ===== src/Commands/Match/Verdict.antt =====
-- `match_contents` and `match_object` of server/match.c, where the lists of contents are in order.
use nu_moo.Base.{
  ℕ, ◌≤◌, ◌<◌, ◌≡◌, refl, sym, ap, ◌∙◌, ◌≢◌, inl, inr, true, false, Option, some, List, [], ◌∷◌,
  ◌++◌, arith, leb, ◌==◌, if◌then◌else◌, Bool-cases, Option-cases, length, codes, All, ◌>>=◌,
  some_injective,
}
use nu_moo.Base.Int.{ℤ, pos, ◌==ℤ◌}
use nu_moo.Commands.Match.{
  ambiguous, failed_match, MatchData, start, match_proc, match_step, after_second, after_first,
  match_contents, match_object,
}
use nu_moo.Commands.Match.Contents.{
  exactly, partly, Known, state, All-which, exact_le, visit-state, visit-stop,
}
use nu_moo.Commands.Match.Which.{which, one_partial, verdict, first_exact}
use nu_moo.Db.Links.{contents}
use nu_moo.Db.Links.Chain.{has, Distinct, has_cons, field-some}
use nu_moo.Db.Object.{Objid, nothing, same, same_refl, Object}
use nu_moo.Db.Objects.{db_object_location}
use nu_moo.Db.Objects.Counts.{visit, db_for_all_contents_lem}
use nu_moo.Db.Objects.Taking.{InOrder, valid-is_some, is_some_inv}
use nu_moo.Db.State.{Db, is_some, valid}
use nu_moo.Db.Verbs.Handles.{first_byte, is_empty}
use nu_moo.Strings.{mystrcasecmp}
use nu_moo.Value.{Value}

All-of_has :
    (P : Objid → Type 0) (xs : List Objid) → ((a : Objid) → has a xs ≡ true → P a) → All P xs
All-of_has P [] h = tt
All-of_has P (x ∷ xs) h =
    (h x (rw (same_refl x) refl), All-of_has P xs (λ a i. h a (has_cons a x xs i)))

Distinct-append :
    (xs ys : List Objid)
    → Distinct xs
    → Distinct ys
    → ((a : Objid) → has a xs ≡ true → has a ys ≡ false)
    → Distinct (xs ++ ys)
Distinct-append [] ys dx dy apart = dy
Distinct-append (x ∷ xs) ys (out, dx) dy apart = (
  absent x xs ys out (apart x (rw (same_refl x) refl)),
  Distinct-append xs ys dx dy (λ a i. apart a (has_cons a x xs i)),
)
  where
    absent :
        (x : Objid) (xs ys : List Objid)
        → has x xs ≡ false
        → has x ys ≡ false
        → has x (xs ++ ys) ≡ false
    absent x [] ys h k = k
    absent x (y ∷ xs) ys h k =
        let rest = absent x xs ys (ground (arith, h)) k in ground (arith, h, rest)

many : (es ps : List Objid) → 1 < length es → verdict es ps ≡ ambiguous
many [] ps lt = absurd (omega arith)
many (e ∷ []) ps lt = absurd (omega arith)
many (e ∷ f ∷ es) ps lt = refl

few :
    (es ps : List Objid)
    → length es ≤ 1
    → All (λ a. (i : ℕ) × (a ≡ pos i)) es
    → (if same (first_exact es) nothing then one_partial ps else first_exact es) ≡ verdict es ps
unfolding same
few [] ps le known = refl
few (e ∷ []) ps le ((i, f), known) = rw f (ground arith)
few (e ∷ f ∷ es) ps le known = absurd (omega arith)

module _ (find_property : Db → Objid → List ℕ → Option Value) (d : Db) {cs : Objid → List Objid}
    (ok : InOrder d cs) (name : List ℕ) where
  Known-inside : (l : Objid) → All (Known find_property d name) (cs l)
  Known-inside l = All-of_has (Known find_property d name) (cs l) (λ a i.
      let (o, e, up) = field-some (λ o. o.location) d.objects a (ok.on_list l a i) in
      let (j, f, lt) = ok.bounded a o e in (o, e, j, f))

  match_step-visit :
      (l : Objid) (dat : Option MatchData)
      → match_step find_property d name l dat
        ≡ some (visit contents d.objects (match_proc find_property d name) (cs l) dat)
  unfolding match_step
  match_step-visit l dat = elim (Option-cases (d.objects l)) [
    | inl e ↦
        let gone : valid d l ≡ false = valid-is_some d ok.bounded l ∙ ap is_some e in
        rw (gone, ok.no_list l e) refl
    | inr (o, e) ↦
        let there : valid d l ≡ true = valid-is_some d ok.bounded l ∙ ap is_some e in
        rw there (db_for_all_contents_lem (match_proc find_property d name) d l o dat ok e)
  ]

  module _ (player : Objid) (o : Object) (found : d.objects player ≡ some o) where
    abbrev pub in_reach : List Objid
    in_reach = cs player ++ cs o.location

    abbrev pub meant : Objid
    meant =
        verdict (which (exactly find_property d name) in_reach)
          (which (partly find_property d name) in_reach)

    apart :
        o.location ≢ player → (a : Objid) → has a (cs player) ≡ true → has a (cs o.location) ≡ false
    apart ne a i = elim (Bool-cases (has a (cs o.location))) [
      | inl j ↦
          absurd (ne (some_injective (sym (ok.on_list o.location a j) ∙ ok.on_list player a i)))
      | inr out ↦ out
    ]

    in_reach-Distinct : o.location ≢ player → Distinct in_reach
    in_reach-Distinct ne =
        Distinct-append (cs player) (cs o.location) (ok.distinct player) (ok.distinct o.location)
          (apart ne)

    contents-run :
        match_contents find_property d player name
        ≡ after_first find_property d name o.location
            (visit contents d.objects (match_proc find_property d name) (cs player) (some start))
    unfolding match_contents db_object_location
    contents-run =
        let there : valid d player ≡ true = valid-is_some d ok.bounded player ∙ ap is_some found in
        rw (there, found)
          (ap (λ m. m >>= after_first find_property d name o.location)
            (match_step-visit player (some start)))

    numbered :
        (es : List Objid)
        → All (Known find_property d name) es
        → All (λ a. (i : ℕ) × (a ≡ pos i)) es
    numbered [] h = tt
    numbered (e ∷ es) ((o, f, i, known), h) = ((i, known), numbered es h)

    All-append :
        (xs ys : List Objid)
        → All (Known find_property d name) xs
        → All (Known find_property d name) ys
        → All (Known find_property d name) (xs ++ ys)
    All-append [] ys h k = k
    All-append (x ∷ xs) ys h k = (h.0, All-append xs ys h.1 k)

    first_list :
        length (which (exactly find_property d name) (cs player)) ≤ 1
        → match_contents find_property d player name ≡ (
            some (
              visit contents d.objects
                (match_proc find_property d name)
                (cs o.location)
                (some (state find_property d name (cs player))))
            >>= after_second find_property)
    first_list le =
        contents-run
        ∙ ap (after_first find_property d name o.location) (
            visit-state find_property d name (cs player) [] tt (Known-inside player)
              (ok.distinct player) le)
        ∙ ap (λ m. m >>= after_second find_property)
            (match_step-visit o.location (some (state find_property d name (cs player))))

    -- The search in the contents of a player that exists and of its location, which is not the
    -- player, ends. Where two objects match exactly it is ambiguous; where one does, it is that one;
    -- otherwise where one matches in part it is that one, where more do it is ambiguous, and where
    -- none does the match has failed.
    pub match_contents_lem :
        o.location ≢ player → match_contents find_property d player name ≡ some meant
    match_contents_lem ne =
        let es = which (exactly find_property d name) in_reach in
        let ps = which (partly find_property d name) in_reach in
        let visit_second =
          visit-state find_property d name (cs o.location) (cs player) (Known-inside player)
            (Known-inside o.location) (in_reach-Distinct ne) in
        let known =
          All-append (cs player) (cs o.location) (Known-inside player) (Known-inside o.location) in
        elim (Bool-cases (leb (length es) 1)) [
          | inl le ↦
              let one_only : length es ≤ 1 = ground (arith, le) in
              first_list
                (omega (arith, one_only, exact_le find_property d name (cs player) (cs o.location)))
              ∙ ap (after_second find_property) (visit_second one_only)
              ∙ ap some (
                  few es ps one_only (
                    numbered es (
                      All-which find_property d name (exactly find_property d name) in_reach
                        known)))
          | inr gt ↦
              let two : 1 < length es = ground (arith, gt) in
              elim (Bool-cases
                (leb (length (which (exactly find_property d name) (cs player))) 1)) [
                  | inl le ↦
                      let le_first : length (which (exactly find_property d name) (cs player)) ≤ 1 =
                        ground (arith, le) in
                      let (m, e) =
                        visit-stop find_property d name (cs o.location) (cs player)
                          (Known-inside player) (Known-inside o.location) (in_reach-Distinct ne)
                          le_first two in
                      first_list le_first
                      ∙ ap (after_second find_property) e
                      ∙ ap some (sym (many es ps two))
                  | inr more ↦
                      let (m, e) =
                        visit-stop find_property d name (cs player) [] tt (Known-inside player)
                          (ok.distinct player) (omega arith) (ground (arith, more)) in
                      contents-run
                      ∙ ap (after_first find_property d name o.location) e
                      ∙ ap some (sym (many es ps two))
                ]
        ]

  -- Where no player that exists is its own location, the object that a name means is found, for any
  -- player and any name.
  pub match_object_total :
      (strtol : List ℕ → ℤ × List ℕ) (player : Objid)
      → ((o : Object) → d.objects player ≡ some o → o.location ≢ player)
      → (r : Objid) × (match_object find_property strtol d player name ≡ some r)
  unfolding match_object db_object_location
  match_object_total strtol player ne = elim (Bool-cases (is_empty name)) [
    | inl e ↦ rw e (nothing, refl)
    | inr e ↦ elim (Bool-cases (first_byte name == 35)) [
      | inl f ↦ rw (e, f) (_, refl)
      | inr f ↦ elim (Bool-cases (valid d player)) [
        | inr gone ↦ rw (e, f, gone) (failed_match, refl)
        | inl there ↦
            let (o, found) =
              is_some_inv (d.objects player) (sym (valid-is_some d ok.bounded player) ∙ there) in
            elim (Bool-cases (mystrcasecmp name (codes "me") ==ℤ pos 0)) [
              | inl g ↦ rw (e, f, there, g) (player, refl)
              | inr g ↦ elim (Bool-cases (mystrcasecmp name (codes "here") ==ℤ pos 0)) [
                | inl h ↦ rw (e, f, there, g, h, found) (o.location, refl)
                | inr h ↦
                    rw (e, f, there, g, h)
                      (meant player o found, match_contents_lem player o found (ne o found))
              ]
            ]
      ]
    ]
  ]
