-- ===== src/Db/Objects/Lost.antt =====
-- An object whose location does not exist is on no list.
use mathlib.Core.Path.{subst}
use nu_moo.Base.{
  ℕ, ◌≡◌, refl, sym, ap, ◌∙◌, ◌≢◌, inl, inr, none, some, List, Bool-cases, Option-cases,
}
use nu_moo.Db.Object.{Objid, same, same_iff, ne-same, Object, Objects, write}
use nu_moo.Db.Links.{contents}
use nu_moo.Db.Links.Chain.{
  Chain, frame, field, some_eq, field-write_self, field-write_ne, field-there, field-keeps,
}
use nu_moo.Db.Links.Lists.{Lists}
use nu_moo.Db.Links.Detach.{nobody}

-- An object on no list, given a location that does not exist.
module _ {h : Objects} {n : ℕ} {cs : Objid → List Objid} (oid location : Objid)
    (ok : Lists contents h n cs (λ a. same a oid)) (x : Object) (found : h oid ≡ some x)
    (missing : h location ≡ none) where
  abbrev pub lost : Objects
  lost = write h oid (record x { location = location })

  module _ {B : Type 0} (get : Object → B)
      (kept : get (record x { location = location }) ≡ get x) where
    lost-field : (a : Objid) → field get lost a ≡ field get h a
    lost-field a = field-keeps get h oid (record x { location = location }) found kept a

    lost_back :
        (a : Objid) (o : Object)
        → lost a ≡ some o
        → (o0 : Object) × (h a ≡ some o0) × (get o0 ≡ get o)
    lost_back a o e = field-there get lost h a (sym (lost-field a)) e

  lost-none : (a : Objid) → lost a ≡ none → h a ≡ none
  lost-none a e = elim (Option-cases (h a)) [
    | inl f ↦ f
    | inr (o, f) ↦
        let (o', g, k) = field-there (λ y. y.next) h lost a (lost-field (λ y. y.next) refl a) f in
        cc (e, g)
  ]

  up_lost : (a : Objid) → a ≢ oid → field contents.up lost a ≡ field contents.up h a
  up_lost a ne = field-write_ne contents.up h oid (record x { location = location }) a ne

  pub lost-Lists : Lists contents lost n cs nobody
  lost-Lists = record {
    bounded = λ a o e. let (o0, e0, f) = lost_back (λ y. y.next) refl a o e in ok.bounded a o0 e0;
    chains = λ l o e.
        let (o0, e0, f) = lost_back contents.head refl l o e in
        subst (λ p. Chain (field contents.next lost) p (cs l)) f
          (frame (contents.head o0) (cs l) (ok.chains l o0 e0)
            (λ a i. lost-field contents.next refl a));
    distinct = ok.distinct;
    on_list = λ l a i. up_lost a (ne-same a oid (ok.not_off l a i)) ∙ ok.on_list l a i;
    not_off = λ l a i. refl;
    listed = λ l a o e apart f.
        let (o0, e0, g) = lost_back (λ y. y.next) refl l o e in
        elim (Bool-cases (same a oid)) [
          | inl hit ↦
              let at_loc : location ≡ l = some_eq (
                sym (field-write_self contents.up h oid (record x { location = location }))
                ∙ ap (field contents.up lost) (sym ((same_iff a oid).0 hit))
                ∙ f) in
              cc (e0, missing, ap h at_loc)
          | inr miss ↦ ok.listed l a o0 e0 miss (sym (up_lost a (ne-same a oid miss)) ∙ f)
        ];
    no_list = λ l e. ok.no_list l (lost-none l e);
  }
