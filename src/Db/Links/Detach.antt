-- ===== src/Db/Links/Detach.antt =====
-- Taking an object off its list.
use mathlib.Core.Option
use mathlib.Core.Path.{subst}
use nu_moo.Base.{
  ℕ, ◌+◌, ◌≡◌, refl, sym, ap, ◌∙◌, ◌≢◌, inl, inr, Bool, true, false, some, List, arith,
  if◌then◌else◌, Bool-cases,
}
use nu_moo.Db.Object.{Objid, same, same_iff, same-ne, ne-same, Object, Objects}
use nu_moo.Db.Links.{Links, ll_remove}
use nu_moo.Db.Links.Chain.{has, Distinct, without, field, has-ne, some_eq}
use nu_moo.Db.Links.Frame.{Relisted}
use nu_moo.Db.Links.Remove.{has-without, not-has-without, ll_remove-Relisted}
use nu_moo.Db.Links.Lists.{
  Lists, Distinct-without, length-Lists, relist, up_kept, was_there, none_kept, bounded_kept,
  chains_kept,
}

abbrev pub nobody : Objid → Bool
nobody a = false

-- An object of a list less `w` is on the list and is not `w`.
has_of_without :
    (a w : Objid) (xs : List Objid)
    → Distinct xs
    → has a (without w xs) ≡ true
    → (a ≢ w) × (has a xs ≡ true)
has_of_without a w xs d i =
    let ne : a ≢ w = has-ne a w (without w xs) i (not-has-without w xs d) in
    (ne, sym (has-without a w xs ne) ∙ i)

module _ (links : Links) {h : Objects} {n : ℕ} {cs : Objid → List Objid}
    (ok : Lists links h n cs nobody) where
  open links use {head, next, up, core}

  module _ (whr what : Objid) {h' : Objects}
      (r : Relisted links h h' whr what (cs whr) (without what (cs whr))) where
    abbrev cs' : Objid → List Objid
    cs' = relist cs whr (without what (cs whr))

    on_old :
        field up h what ≡ some whr
        → (l a : Objid) → has a (cs' l) ≡ true
        → (a ≢ what) × (has a (cs l) ≡ true)
    on_old at_up l a i = go (same l whr) refl i
      where
        go :
            (b : Bool)
            → same l whr ≡ b
            → has a (if b then without what (cs whr) else cs l) ≡ true
            → (a ≢ what) × (has a (cs l) ≡ true)
        go true e j =
            let (ne, k) = has_of_without a what (cs whr) (ok.distinct whr) j in
            (ne, subst (λ m. has a (cs m) ≡ true) (sym ((same_iff l whr).0 e)) k)
        go false e j =
            (λ t. ne-same l whr e (some_eq (sym (ok.on_list l a j) ∙ ap (field up h) t ∙ at_up)), j)

    detached : field up h what ≡ some whr → Lists links h' n cs' (λ a. same a what)
    detached at_up = record {
      bounded = bounded_kept links ok r;
      chains = chains_kept links ok r (λ l ne. elim (Bool-cases (has what (cs l))) [
        | inl i ↦ absurd (ne (some_eq (sym (ok.on_list l what i) ∙ at_up)))
        | inr out ↦ out
      ]);
      distinct = λ l. elim (Bool-cases (same l whr)) [
        | inl hit ↦ rw hit (Distinct-without what (cs whr) (ok.distinct whr))
        | inr miss ↦ rw miss (ok.distinct l)
      ];
      on_list = λ l a i. up_kept links ok r a ∙ ok.on_list l a (on_old at_up l a i).1;
      not_off = λ l a i. same-ne a what (on_old at_up l a i).0;
      listed = λ l a o found apart e.
          let (o0, e0, f0) = was_there links ok r l o found in
          let was : has a (cs l) ≡ true =
            ok.listed l a o0 e0 refl (sym (up_kept links ok r a) ∙ e) in
          elim (Bool-cases (same l whr)) [
            | inl hit ↦ rw hit (
                has-without a what (cs whr) (ne-same a what apart)
                ∙ subst (λ m. has a (cs m) ≡ true) ((same_iff l whr).0 hit) was)
            | inr miss ↦ rw miss was
          ];
      no_list = λ l missing. elim (Bool-cases (same l whr)) [
        | inl hit ↦ rw hit (
            ap (without what) (
              ok.no_list whr
                (ap h (sym ((same_iff l whr).0 hit)) ∙ none_kept links ok r l missing)))
        | inr miss ↦ rw miss (ok.no_list l (none_kept links ok r l missing))
      ];
    }

  -- LL_REMOVE from the list on which an object stands: it succeeds, the object is then on no list,
  -- and the lists of all others, and the fields other than the links, are as they were.
  pub ll_remove-Lists :
      (whr what : Objid) (o w : Object)
      → h what ≡ some o
      → up o ≡ whr
      → h whr ≡ some w
      → (h' : Objects) × (ll_remove links (n + 1) whr what h ≡ some h')
        × Lists links h' n (relist cs whr (without what (cs whr))) (λ a. same a what)
        × ((a : Objid) → field core h' a ≡ field core h a)
  ll_remove-Lists whr what o w found at_whr there =
      let at_up : field up h what ≡ some whr = ap (Option.map up) found ∙ ap some at_whr in
      let (h', run, r) =
        ll_remove-Relisted links h (n + 1) whr what (head w) o (cs whr) (ap (Option.map head) there)
          (ok.chains whr w there) (ok.distinct whr) (ok.listed whr what w there refl at_up) found
          (omega (arith, length-Lists links ok whr)) in
      (h', run, detached whr what r at_up, r.others.rest)
