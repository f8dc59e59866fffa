-- ===== src/Db/Objects/Taking.antt =====
-- The first half of `db_change_location` of server/db_objects.c: an object is taken off its list.
use mathlib.Core.Option
use mathlib.Core.Path.{subst, fun_ext}
use nu_moo.Base.{
  ℕ, ◌<◌, ◌≡◌, refl, sym, ap, ◌∙◌, ◌≢◌, inl, inr, Bool, true, false, Option, none, some, List, [],
  ◌∷◌, ◌++◌, arith, if◌then◌else◌, Bool-cases, Option-cases,
}
use nu_moo.Base.Int.{pos}
use nu_moo.Db.Object.{Objid, same, same_iff, same-ne, ne-same, Object, Objects}
use nu_moo.Db.Links.{contents, ll_remove}
use nu_moo.Db.Links.Chain.{has, without, field, some_eq}
use nu_moo.Db.Links.Lists.{Lists, relist}
use nu_moo.Db.Links.Sets.{without_absent}
use nu_moo.Db.Links.Detach.{nobody, ll_remove-Lists}
use nu_moo.Db.State.{Db, dbpriv_find_object, valid, is_some}
use nu_moo.Db.Objects.{fuel}

-- The contents of all objects of a database are in order.
abbrev pub InOrder : Db → (Objid → List Objid) → Type 0
InOrder d cs = Lists contents d.objects d.num_objects cs nobody

abbrev pub with_objects : Db → Objects → Db
with_objects d h = record d { objects = h }

-- The lists after `oid` has been moved to `location`: it is off the list it stood on, and at the
-- end of that of `location`, if there is such an object.
abbrev pub taken : (Objid → List Objid) → Objid → Objid → List Objid
taken cs oid l = without oid (cs l)

abbrev pub moved : Db → (Objid → List Objid) → (oid location : Objid) → Objid → List Objid
moved d cs oid location =
    if valid d location
    then relist (taken cs oid) location (taken cs oid location ++ oid ∷ [])
    else taken cs oid

-- In a table whose objects all stand below `num_objects`, an object is valid if it is there.
pub valid-is_some :
    (d : Db)
    → ((a : Objid) (o : Object)
        → d.objects a ≡ some o
        → (i : ℕ) × (a ≡ pos i) × (i < d.num_objects))
    → (l : Objid) → valid d l ≡ is_some (d.objects l)
unfolding valid dbpriv_find_object
valid-is_some d bounded l = elim (Option-cases (d.objects l)) [
  | inl e ↦ rw e (ground arith)
  | inr (o, e) ↦ let (i, f, lt) = bounded l o e in rw e (rw f (ground arith))
]

pub is_some_inv : {A : Type 0} (m : Option A) → is_some m ≡ true → (a : A) × (m ≡ some a)
is_some_inv none e = cc e
is_some_inv (some a) e = (a, refl)

pub not_is_some : {A : Type 0} (m : Option A) → is_some m ≡ false → m ≡ none
not_is_some none e = refl
not_is_some (some a) e = cc e

-- LL_REMOVE as `db_change_location` does it.
abbrev pub take_off : Db → (oid : Objid) → Object → Option Objects
take_off d oid o =
    if valid d o.location
    then ll_remove contents (fuel d) o.location oid d.objects
    else some d.objects

module _ (d : Db) {cs : Objid → List Objid} (ok : InOrder d cs) (oid : Objid) (o : Object)
    (found : d.objects oid ≡ some o) where
  off_others : (l : Objid) → l ≢ o.location → has oid (cs l) ≡ false
  off_others l ne = elim (Bool-cases (has oid (cs l))) [
    | inl i ↦
        absurd (ne (some_eq (sym (ok.on_list l oid i) ∙ ap (Option.map (λ x. x.location)) found)))
    | inr out ↦ out
  ]

  relist-taken : relist cs o.location (without oid (cs o.location)) ≡ taken cs oid
  relist-taken = fun_ext (λ l. elim (Bool-cases (same l o.location)) [
    | inl hit ↦ rw hit (ap (λ m. without oid (cs m)) (sym ((same_iff l o.location).0 hit)))
    | inr miss ↦
        rw miss (sym (without_absent oid (cs l) (off_others l (ne-same l o.location miss))))
  ])

  -- An object without a valid location is on no list.
  nowhere : d.objects o.location ≡ none → (l : Objid) → has oid (cs l) ≡ false
  nowhere missing l = elim (Bool-cases (same l o.location)) [
    | inl hit ↦ rw (ap cs ((same_iff l o.location).0 hit)) (rw (ok.no_list o.location missing) refl)
    | inr miss ↦ off_others l (ne-same l o.location miss)
  ]

  unlisted :
      d.objects o.location ≡ none → Lists contents d.objects d.num_objects cs (λ a. same a oid)
  unlisted missing = record {
    bounded = ok.bounded;
    chains = ok.chains;
    distinct = ok.distinct;
    on_list = ok.on_list;
    not_off = λ l a i. same-ne a oid (λ e. cc (i, nowhere missing l, ap (λ m. has m (cs l)) e));
    listed = λ l a x e apart f. ok.listed l a x e refl f;
    no_list = ok.no_list;
  }

  abbrev Outcome : Bool → Type 0
  Outcome b =
      (h : Objects) × ((if b
          then ll_remove contents (fuel d) o.location oid d.objects
          else some d.objects)
        ≡ some h)
      × Lists contents h d.num_objects (taken cs oid) (λ a. same a oid)
      × ((a : Objid) → field contents.core h a ≡ field contents.core d.objects a)

  -- It succeeds, and the object is then on no list; the others are as they were.
  pub taken_off : Outcome (valid d o.location)
  taken_off = go (valid d o.location) (valid-is_some d ok.bounded o.location)
    where
      go : (b : Bool) → b ≡ is_some (d.objects o.location) → Outcome b
      go true e =
          let (w, there) = is_some_inv (d.objects o.location) (sym e) in
          let (h, run, lists, rest) =
            ll_remove-Lists contents ok o.location oid o w found refl there in
          (
            h,
            run,
            subst (λ f. Lists contents h d.num_objects f (λ a. same a oid)) relist-taken lists,
            rest,
          )
      go false e =
          let missing = not_is_some (d.objects o.location) (sym e) in
          (
            d.objects,
            refl,
            subst (λ f. Lists contents d.objects d.num_objects f (λ a. same a oid))
                (sym (fun_ext (λ l. without_absent oid (cs l) (nowhere missing l))))
                (unlisted missing),
            λ a. refl,
          )
