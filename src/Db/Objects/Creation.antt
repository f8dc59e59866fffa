-- ===== src/Db/Objects/Creation.antt =====
-- `db_create_object` of server/db_objects.c on lists that are in order.
use mathlib.Core.Option
use nu_moo.Base.{
  ℕ, ◌+◌, ◌<◌, ◌≡◌, refl, sym, ap, ◌∙◌, ◌≢◌, ◌⊎◌, inl, inr, true, none, some, List, [], arith,
  Bool-cases, Option-cases,
}
use mathlib.Core.Path.{subst}
use nu_moo.Base.Int.{pos}
use nu_moo.Db.Links.{Links, children, contents}
use nu_moo.Db.Links.Chain.{has, Chain, some_eq, frame, field, field-some}
use nu_moo.Db.Links.Detach.{nobody}
use nu_moo.Db.Links.Lists.{Lists}
use nu_moo.Db.Object.{Objid, nothing, same, same_iff, same_refl, same-ne, ne-same, Object, Objects}
use nu_moo.Db.Objects.Taking.{valid-is_some}
use nu_moo.Db.State.{
  Db, is_some, valid, ensure_new_object, put, dbpriv_new_object, db_create_object,
}

-- A new object, on no list and with none, put at the first number that is not in use.
module _ (links : Links) {h : Objects} {n : ℕ} {cs : Objid → List Objid}
    (ok : Lists links h n cs nobody) (x : Object) (no_head : links.head x ≡ nothing)
    (no_up : links.up x ≡ nothing) (unnamed : (a : Objid) → field links.up h a ≢ some (pos n))
    (h' : Objects) (here : h' (pos n) ≡ some x) (there : (a : Objid) → a ≢ pos n → h' a ≡ h a) where
  open links use {head, next, up}

  unused : h (pos n) ≡ none
  unused = elim (Option-cases (h (pos n))) [
    | inl e ↦ e
    | inr (o, e) ↦ let (i, f, lt) = ok.bounded (pos n) o e in absurd (omega (arith, pos_eq f))
  ]
    where
      pos_eq : {i j : ℕ} → pos i ≡ pos j → i ≡ j
      pos_eq e = cc e

  listed_old : (l a : Objid) → has a (cs l) ≡ true → a ≢ pos n
  listed_old l a i e =
      let (o, found, f) = field-some up h a (ok.on_list l a i) in cc (found, unused, ap h e)

  -- The new number, or an old one.
  old_or_new : (a : Objid) → (a ≡ pos n) ⊎ (a ≢ pos n)
  old_or_new a = elim (Bool-cases (same a (pos n))) [
    | inl hit ↦ inl ((same_iff a (pos n)).0 hit)
    | inr miss ↦ inr (ne-same a (pos n) miss)
  ]

  created_listed :
      (l a : Objid) (o : Object) → h' l ≡ some o → field up h' a ≡ some l → has a (cs l) ≡ true
  created_listed l a o found f = elim (old_or_new a) [
    | inl new ↦
        let at_nothing : nothing ≡ l =
          sym no_up ∙ some_eq (sym (ap (Option.map up) (ap h' new ∙ here)) ∙ f) in
        absurd (no_nothing (ap h' at_nothing ∙ found))
    | inr old ↦ elim (old_or_new l) [
      | inl new_l ↦ absurd (unnamed a (ap (Option.map up) (sym (there a old)) ∙ f ∙ ap some new_l))
      | inr old_l ↦
          ok.listed l a o (sym (there l old_l) ∙ found) refl
            (ap (Option.map up) (sym (there a old)) ∙ f)
    ]
  ]
    where
      no_nothing : h' nothing ≡ some o → ⊥
      no_nothing e =
          let (i, g, lt) = ok.bounded nothing o (sym (there nothing (λ k. cc k)) ∙ e) in cc g

  created : Lists links h' (n + 1) cs nobody
  created = record {
    bounded = λ a o found. elim (old_or_new a) [
      | inl new ↦ (n, new, omega arith)
      | inr old ↦ let (i, e, lt) = ok.bounded a o (sym (there a old) ∙ found) in (i, e, omega arith)
    ];
    chains = λ l o found. elim (old_or_new l) [
      | inl new ↦
          let same_x : some x ≡ some o = sym here ∙ ap h' (sym new) ∙ found in
          subst (λ xs. Chain (field next h') (head o) xs)
            (sym (ap cs new ∙ ok.no_list (pos n) unused))
            (sym (some_eq (ap (Option.map head) same_x)) ∙ no_head)
      | inr old ↦
          frame (head o) (cs l) (ok.chains l o (sym (there l old) ∙ found))
            (λ a i. ap (Option.map next) (there a (listed_old l a i)))
    ];
    distinct = ok.distinct;
    on_list = λ l a i. ap (Option.map up) (there a (listed_old l a i)) ∙ ok.on_list l a i;
    not_off = λ l a i. refl;
    listed = λ l a o found apart f. created_listed l a o found f;
    no_list = λ l missing. elim (old_or_new l) [
      | inl new ↦ cc (missing, ap h' new, here)
      | inr old ↦ ok.no_list l (sym (there l old) ∙ missing)
    ];
  }

module _ (raw : Object) (d : Db) where
  abbrev pub after : Db
  after = (db_create_object raw d).1

  pub new_number : (db_create_object raw d).0 ≡ pos d.num_objects
  unfolding db_create_object dbpriv_new_object ensure_new_object
  new_number = refl

  pub new_count : after.num_objects ≡ d.num_objects + 1
  unfolding db_create_object dbpriv_new_object ensure_new_object
  new_count = refl

  abbrev pub fresh : Object
  fresh = record raw {
    id = pos d.num_objects;
    waif_propdefs = none;
    name = [];
    flags = 0;
    parent = nothing;
    child = nothing;
    sibling = nothing;
    location = nothing;
    contents = nothing;
    next = nothing;
    propval = [];
    propdefs = record { max_length = 0; l = [] };
    verbdefs = [];
  }

  pub new_object :
      (x : Object) × (after.objects (pos d.num_objects) ≡ some x)
      × ((x.contents ≡ nothing) × (x.location ≡ nothing))
      × ((x.child ≡ nothing) × (x.parent ≡ nothing))
  unfolding db_create_object dbpriv_new_object ensure_new_object put
  new_object = (fresh, rw (same_refl (pos d.num_objects)) refl, (refl, refl), (refl, refl))

  pub new_fresh : after.objects (pos d.num_objects) ≡ some fresh
  unfolding db_create_object dbpriv_new_object ensure_new_object put
  new_fresh = rw (same_refl (pos d.num_objects)) refl

  pub new_cache : after.verb_cache ≡ d.verb_cache
  unfolding db_create_object dbpriv_new_object ensure_new_object
  new_cache = refl

  pub old_object : (a : Objid) → a ≢ pos d.num_objects → after.objects a ≡ d.objects a
  unfolding db_create_object dbpriv_new_object ensure_new_object put
  old_object a ne = rw (same-ne a (pos d.num_objects) ne) refl

-- In a database whose lists of contents and of children are in order, and where no object names the
-- number behind the end of the table as its location or parent, `db_create_object` returns that
-- number, whether or not lower ones are unused, and it is then valid; the lists are in order, the new object is on none and has none, and every other object
-- is as before.
pub db_create_object_lem :
    (raw : Object) (d : Db) {cs ds : Objid → List Objid} (a : Objid)
    → Lists contents d.objects d.num_objects cs nobody
    → Lists children d.objects d.num_objects ds nobody
    → ((b : Objid) → field contents.up d.objects b ≢ some (pos d.num_objects))
    → ((b : Objid) → field children.up d.objects b ≢ some (pos d.num_objects))
    → a ≢ pos d.num_objects
    → (d' : Db) × (db_create_object raw d ≡ (pos d.num_objects, d'))
      × (valid d' (pos d.num_objects) ≡ true)
      × Lists contents d'.objects d'.num_objects cs nobody
      × Lists children d'.objects d'.num_objects ds nobody
      × ((cs (pos d.num_objects) ≡ []) × (ds (pos d.num_objects) ≡ []))
      × (d'.objects a ≡ d.objects a)
db_create_object_lem raw d {cs} {ds} a in_order kin_in_order located parented ne =
    let (x, here, (no_contents, no_location), (no_child, no_parent)) = new_object raw d in
    let unused_number =
      unused contents in_order x no_contents no_location located (after raw d).objects here
        (old_object raw d) in
    let inside =
      created contents in_order x no_contents no_location located (after raw d).objects here
        (old_object raw d) in
    let below =
      created children kin_in_order x no_child no_parent parented (after raw d).objects here
        (old_object raw d) in
    (
      after raw d,
      ap (λ i. (i, after raw d)) (new_number raw d),
      valid-is_some (after raw d)
            (subst
              (λ m.
                (b : Objid) (o : Object)
                → (after raw d).objects b ≡ some o
                → (i : ℕ) × (b ≡ pos i) × (i < m))
              (sym (new_count raw d)) inside.bounded)
            (pos d.num_objects)
          ∙ ap is_some here,
      subst (λ m. Lists contents (after raw d).objects m cs nobody) (sym (new_count raw d)) inside,
      subst (λ m. Lists children (after raw d).objects m ds nobody) (sym (new_count raw d)) below,
      (
        in_order.no_list (pos d.num_objects) unused_number,
        kin_in_order.no_list (pos d.num_objects) unused_number,
      ),
      old_object raw d a ne,
    )
