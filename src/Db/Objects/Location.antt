-- ===== src/Db/Objects/Location.antt =====
-- `db_change_location` of server/db_objects.c on lists that are in order.
use mathlib.Core.Option
use mathlib.Core.Path.{subst}
use nu_moo.Base.{
  ℕ, ◌<◌, ◌≡◌, refl, sym, ap, ◌∙◌, Bool, true, false, Option, none, some, List, [], ◌∷◌, ◌++◌,
  if◌then◌else◌,
}
use nu_moo.Base.Int.{pos}
use nu_moo.Db.Object.{Objid, nothing, same, Object, Objects, write}
use nu_moo.Db.Links.{contents, ll_append}
use nu_moo.Db.Links.Chain.{field, field-write_self, field-there, field-keeps}
use nu_moo.Db.Links.Lists.{Lists, relist}
use nu_moo.Db.Links.Attach.{ll_append-Lists}
use nu_moo.Db.Links.Detach.{nobody}
use nu_moo.Db.State.{Db, valid, is_some}
use nu_moo.Db.Objects.{fuel, db_change_location}
use nu_moo.Db.Objects.Taking.{
  InOrder, with_objects, taken, moved, valid-is_some, is_some_inv, not_is_some, take_off, taken_off,
}
use nu_moo.Db.Objects.Lost.{lost-Lists}

-- The second half of `db_change_location`: LL_APPEND and the assignment of the location.
abbrev pub put_on : Db → (oid location : Objid) → Objects → Option Objects
put_on d oid location h =
    if valid (with_objects d h) location then ll_append contents (fuel d) location oid h else some h

is_some-core : (m : Option Object) → is_some (Option.map contents.core m) ≡ is_some m
is_some-core none = refl
is_some-core (some o) = refl

module _ (d : Db) {cs : Objid → List Objid} {h : Objects} (oid location : Objid) (x : Object)
    (found : h oid ≡ some x) (ok : Lists contents h d.num_objects cs (λ a. same a oid)) where
  abbrev Placed : Bool → Type 0
  Placed b =
      (h' : Objects) × (x' : Object) × ((if b
          then ll_append contents (fuel d) location oid h
          else some h)
        ≡ some h')
      × (h' oid ≡ some x')
      × Lists contents (write h' oid (record x' { location = location })) d.num_objects
          (if b then relist cs location (cs location ++ oid ∷ []) else cs) nobody
      × ((a : Objid) → field contents.core h' a ≡ field contents.core h a)

  placed : Placed (valid (with_objects d h) location)
  placed =
      go (valid (with_objects d h) location) (valid-is_some (with_objects d h) ok.bounded location)
    where
      go : (b : Bool) → b ≡ is_some (h location) → Placed b
      go true e =
          let (w, there) = is_some_inv (h location) (sym e) in
          let (h', x', run, found', same_core, lists, rest) =
            ll_append-Lists contents location oid ok x w found there in
          (h', x', run, found', lists, rest)
      go false e =
          let missing = not_is_some (h location) (sym e) in
          (h, x, refl, found, lost-Lists oid location ok x found missing, λ a. refl)

valid-core :
    (d : Db) {cs : Objid → List Objid} (ok : InOrder d cs) {h : Objects}
    → ((a : Objid) (o : Object) → h a ≡ some o → (i : ℕ) × (a ≡ pos i) × (i < d.num_objects))
    → ((a : Objid) → field contents.core h a ≡ field contents.core d.objects a)
    → (l : Objid) → valid (with_objects d h) l ≡ valid d l
valid-core d ok {h} bounded rest l =
    valid-is_some (with_objects d h) bounded l
    ∙ sym (is_some-core (h l))
    ∙ ap is_some (rest l)
    ∙ is_some-core (d.objects l)
    ∙ sym (valid-is_some d ok.bounded l)

run_all :
    (d : Db) (oid location : Objid) {o x : Object} {h h' : Objects}
    → d.objects oid ≡ some o
    → take_off d oid o ≡ some h
    → put_on d oid location h ≡ some h'
    → h' oid ≡ some x
    → db_change_location oid location d
      ≡ some (with_objects d (write h' oid (record x { location = location })))
unfolding db_change_location
run_all d oid location found off on found' = rw found (rw off (rw on (rw found' refl)))

-- An object with the fields that a move may change blotted out.
abbrev pub unmoved : Object → Object
unmoved y = record y { location = nothing; contents = nothing; next = nothing }

unmoved-core :
    (m : Option Object) → Option.map unmoved m ≡ Option.map unmoved (Option.map contents.core m)
unmoved-core none = refl
unmoved-core (some y) = refl

unmoved_same :
    (m n : Option Object)
    → Option.map contents.core m ≡ Option.map contents.core n
    → Option.map unmoved m ≡ Option.map unmoved n
unmoved_same m n e = unmoved-core m ∙ ap (Option.map unmoved) e ∙ sym (unmoved-core n)

-- On lists of contents that are in order, moving an object that exists to any location succeeds and
-- leaves the lists in order: the object is then off the list it stood on, and, if its new location
-- is a valid object, at the end of the list of that one; every other list is as it was. The
-- location is recorded, and no field but `location`, `contents` and `next` of any object changes.
pub db_change_location_lem :
    (d : Db) {cs : Objid → List Objid} (oid location : Objid) (o : Object)
    → InOrder d cs
    → d.objects oid ≡ some o
    → (h : Objects) × (db_change_location oid location d ≡ some (with_objects d h))
      × InOrder (with_objects d h) (moved d cs oid location)
      × (field (λ x. x.location) h oid ≡ some location)
      × ((a : Objid) → field unmoved h a ≡ field unmoved d.objects a)
db_change_location_lem d {cs} oid location o ok found =
    let (h, off, lists, rest) = taken_off d ok oid o found in
    let (x, found_h, same_x) = field-there contents.core d.objects h oid (rest oid) found in
    let (h', x', on, found', lists', rest') = placed d oid location x found_h lists in
    let agree = valid-core d ok lists.bounded rest location in
    (
      write h' oid (record x' { location = location }),
      run_all d oid location found off on found',
      subst
          (λ b.
            Lists contents (write h' oid (record x' { location = location })) d.num_objects
              (if b
                then relist (taken cs oid) location (taken cs oid location ++ oid ∷ [])
                else taken cs oid)
              nobody)
          agree lists',
      field-write_self (λ y. y.location) h' oid (record x' { location = location }),
      λ a.
          field-keeps unmoved h' oid (record x' { location = location }) found' refl a
          ∙ unmoved_same (h' a) (h a) (rest' a)
          ∙ unmoved_same (h a) (d.objects a) (rest a),
    )
