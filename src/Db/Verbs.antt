-- ===== src/Db/Verbs.antt =====
-- The verbs of objects (server/db_verbs.c). A pointer to a verb is a handle: the object that
-- defines it, and the place in the list of its verbs. Flags and argument specifications share the
-- number `perms`.
pub mod Callable
pub mod Handles
pub mod Lookup
pub mod Cached
pub mod Line
pub mod Perms
pub mod Born
pub mod Kept
pub mod Steps
use mathlib.Core.Option
use nu_moo.Base.{
  ℕ, zero, suc, ◌+◌, ◌-◌, ◌*◌, ◌/◌, ◌%◌, ◌^◌, ◌≤◌, ◌<◌, ◌≡◌, refl, sym, ap, ◌∙◌, ◌≢◌, ◌↔◌, ◌⊎◌, inl,
  inr, Bool, true, false, ◌&&◌, ◌||◌, not, Option, none, some, List, [], ◌∷◌, ◌++◌, map, arith, ltb,
  leb, ◌==◌, if◌then◌else◌, ==_iff, Bool-cases, Option-cases, length, get_elem?, set, length-append,
  take, drop, take-append-drop, length-take, length-drop, length-map, length-set,
  get_elem?-set_self, get_elem?-set_ne, All, ◌>>=◌, >>=-eq-some,
}
use Prim.Native.Nat.{bit_or}
use nu_moo.Base.Int.{ℤ, negsuc, ◌==ℤ◌}
use nu_moo.Db.Object.{Objid, Verbdef, Object, write}
use nu_moo.Db.State.{Db, db_priv_affected_callable_verb_lookup, dbpriv_find_object}
use nu_moo.Strings.{verbcasecmp}

pub record Handle : Type 0 where
  pub definer : Objid
  pub verbdef : ℕ

-- The bits of `db_verb_flag`.
pub data VerbFlag : Type 0 where
  vf_read vf_write vf_exec vf_debug : VerbFlag

abbrev pub mask : VerbFlag → ℕ
mask vf_read = 1
mask vf_write = 2
mask vf_exec = 4
mask vf_debug = 8

abbrev pub has_flag? : ℕ → VerbFlag → Bool
has_flag? perms f = perms / mask f % 2 == 1

-- The numbers of `db_arg_spec` and `db_prep_spec`.
abbrev pub aspec_any : ℕ
aspec_any = 1

abbrev pub prep_any : ℤ
prep_any = negsuc 1

abbrev pub prep_none : ℤ
prep_none = negsuc 0

-- `perms` of the flags and the two specifications, and the latter again.
unfoldable pub make_perms : (flags dobj iobj : ℕ) → ℕ
make_perms flags dobj iobj = bit_or (bit_or flags (dobj * 16)) (iobj * 64)

abbrev pub dobj_of : ℕ → ℕ
dobj_of perms = perms / 16 % 4

abbrev pub iobj_of : ℕ → ℕ
iobj_of perms = perms / 64 % 4

-- The loop over the verbs of an object: the place of the first that passes the test.
unfoldable pub first_index {ℓ} : {A : Type ℓ} → (A → Bool) → List A → Option ℕ
first_index test [] = none
first_index test (v ∷ vs) =
    let rest = first_index test vs in if test v then some 0 else Option.map suc rest

unfoldable pub new_verb :
    (vnames : List ℕ) → (owner : Objid) → (flags dobj : ℕ) → (prep : ℤ) → (iobj : ℕ) → Verbdef
new_verb vnames owner flags dobj prep iobj = record {
  name = vnames;
  program = none;
  owner = owner;
  perms = make_perms flags dobj iobj;
  prep = prep;
}

unfoldable pub db_add_verb :
    Objid
    → (vnames : List ℕ) → (owner : Objid) → (flags dobj : ℕ) → (prep : ℤ) → (iobj : ℕ) → Db
    → Option (ℕ × Db)
db_add_verb oid vnames owner flags dobj prep iobj d = do
  o ← dbpriv_find_object d oid
  let cache = db_priv_affected_callable_verb_lookup d.verb_cache
  some (
    length o.verbdefs + 1,
    record d {
      objects =
          write d.objects oid
            (record o { verbdefs = o.verbdefs ++ new_verb vnames owner flags dobj prep iobj ∷ [] });
      verb_cache = cache;
    },
  )

unfoldable pub find_verbdef_by_name : Object → (vname : List ℕ) → (check_x_bit : Bool) → Option ℕ
unfolding first_index
find_verbdef_by_name o vname check_x_bit =
    first_index (λ v. verbcasecmp v.name vname && (not check_x_bit || has_flag? v.perms vf_exec))
      o.verbdefs

unfoldable pub db_count_verbs : Db → Objid → Option ℕ
db_count_verbs d oid = do o ← dbpriv_find_object d oid; some (length o.verbdefs)

-- The verb that a handle points to.
abbrev pub verb_of : Db → Handle → Option Verbdef
verb_of d h = do o ← d.objects h.definer; get_elem? o.verbdefs h.verbdef

-- The object's verbs, where there is one at that place, after a change.
abbrev pub change_verbs : Db → Handle → (List Verbdef → Verbdef → List Verbdef) → Option Db
change_verbs d h f = do
  o ← d.objects h.definer
  v ← get_elem? o.verbdefs h.verbdef
  some (record d { objects = write d.objects h.definer (record o { verbdefs = f o.verbdefs v }) })

abbrev pub change_verb : Db → Handle → (Verbdef → Verbdef) → Option Db
change_verb d h f = change_verbs d h (λ vs v. set vs h.verbdef (f v))

-- The cache is cleared.
abbrev pub flushed : Db → Db
flushed d = record d { verb_cache = db_priv_affected_callable_verb_lookup d.verb_cache }

unfoldable pub db_delete_verb : Handle → Db → Option Db
db_delete_verb h d =
    change_verbs (flushed d) h (λ vs v. take h.verbdef vs ++ drop (suc h.verbdef) vs)

-- The loop from an object up its parents, on fuel: what the body returns for the first object for
-- which it returns anything.
module _ {ℓ} {A : Type ℓ} (body : Object → Option A) where
  unfoldable pub ancestor_loop : ℕ → Db → Objid → Option (Option A)
  ancestor_loop zero d oid = none
  ancestor_loop (suc k) d oid = elim (dbpriv_find_object d oid) [
    | none ↦ some none
    | some o ↦ elim (body o) [ some a ↦ some (some a) | none ↦ ancestor_loop k d o.parent ]
  ]

  -- The same loop, begun at an object.
  unfoldable pub ancestors_from : ℕ → Db → Object → Option (Option A)
  unfolding ancestor_loop
  ancestors_from k d o = elim (body o) [
    | some a ↦ some (some a)
    | none ↦ ancestor_loop k d o.parent
  ]

abbrev pub at_place : Object → ℕ → Handle
at_place o i = record { definer = o.id; verbdef = i }

unfoldable pub db_find_command_verb :
    Db → Objid → (verb : List ℕ) → (dobj : ℕ) → (prep : ℤ) → (iobj : ℕ) → Option (Option Handle)
unfolding ancestor_loop first_index
db_find_command_verb d oid verb dobj prep iobj =
    ancestor_loop
      (λ o. Option.map (at_place o) (
        first_index
          (λ v.
            verbcasecmp v.name verb
            && (dobj_of v.perms == aspec_any || dobj_of v.perms == dobj)
            && (v.prep ==ℤ prep_any || v.prep ==ℤ prep)
            && (iobj_of v.perms == aspec_any || iobj_of v.perms == iobj))
          o.verbdefs))
      (d.num_objects + 1) d oid
