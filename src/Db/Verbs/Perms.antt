-- ===== src/Db/Verbs/Perms.antt =====
-- The number that holds the flags and the argument specifications of a verb (server/db_verbs.c).
use nu_moo.Base.{
  ℕ, ◌*◌, ◌%◌, ◌<◌, ◌≡◌, refl, Bool, true, ◌&&◌, some, arith, ◌==◌, ==_iff, get_elem?, set,
  get_elem?-bound, holds_below, holds_below_at, get_elem?-set_self,
}
use Prim.Native.Nat.{bit_or}
use nu_moo.Base.Int.{ℤ}
use nu_moo.Db.Object.{same_refl, Verbdef, Object, write}
use nu_moo.Db.State.{Db, db_priv_affected_callable_verb_lookup}
use nu_moo.Db.Verbs.{Handle, make_perms, dobj_of, iobj_of, verb_of, flushed}
use nu_moo.Db.Verbs.Handles.{db_verb_flags, db_verb_arg_specs, db_set_verb_arg_specs}
use nu_moo.Value.Equality.{and-true}

-- The flags and the specifications share no bit: decided by evaluation.
abbrev apart? : (flags dobj iobj : ℕ) → Bool
apart? flags dobj iobj =
    let perms = bit_or (bit_or flags (dobj * 16)) (iobj * 64) in
    perms % 16 == flags && dobj_of perms == dobj && iobj_of perms == iobj

apart_table :
    holds_below (λ flags. holds_below (λ dobj. holds_below (apart? flags dobj) 4) 4) 16 ≡ true
unfolding holds_below
apart_table = refl

apart_at : (flags dobj iobj : ℕ) → flags < 16 → dobj < 4 → iobj < 4 → apart? flags dobj iobj ≡ true
apart_at flags dobj iobj lf ld li = holds_below_at (apart? flags dobj) 4 iobj li (
    holds_below_at (λ a. holds_below (apart? flags a) 4) 4 dobj ld
      (holds_below_at (λ f. holds_below (λ a. holds_below (apart? f a) 4) 4) 16 flags lf
        apart_table))

make_perms-read :
    (flags dobj iobj : ℕ)
    → flags < 16
    → dobj < 4
    → iobj < 4
    → (make_perms flags dobj iobj % 16 ≡ flags)
      × (dobj_of (make_perms flags dobj iobj) ≡ dobj)
      × (iobj_of (make_perms flags dobj iobj) ≡ iobj)
unfolding make_perms
make_perms-read flags dobj iobj lf ld li =
    let perms = bit_or (bit_or flags (dobj * 16)) (iobj * 64) in
    let (front, c) =
      and-true (perms % 16 == flags && dobj_of perms == dobj) (iobj_of perms == iobj)
        (apart_at flags dobj iobj lf ld li) in
    let (a, b) = and-true (perms % 16 == flags) (dobj_of perms == dobj) front in
    (
      (==_iff (perms % 16) flags).0 a,
      (==_iff (dobj_of perms) dobj).0 b,
      (==_iff (iobj_of perms) iobj).0 c,
    )

module _ (d : Db) (h : Handle) (o : Object) (v : Verbdef)
    (at_definer : d.objects h.definer ≡ some o)
    (place : get_elem? o.verbdefs h.verbdef ≡ some v) where
  abbrev pub with_verb : Verbdef → Db
  with_verb w = record (flushed d) {
    objects = write d.objects h.definer (record o { verbdefs = set o.verbdefs h.verbdef w });
  }

  verb_of-with_verb : (w : Verbdef) → verb_of (with_verb w) h ≡ some w
  unfolding write
  verb_of-with_verb w =
      rw (same_refl h.definer)
        (get_elem?-set_self o.verbdefs h.verbdef w (get_elem?-bound o.verbdefs h.verbdef place))

  -- Specifications that are set are read back, and the flags are as before, for a verb to which the
  -- handle points and specifications of two bits; the cache is cleared.
  pub db_set_verb_arg_specs_lem :
      (dobj : ℕ) (prep : ℤ) (iobj : ℕ)
      → dobj < 4
      → iobj < 4
      → (d' : Db) × (db_set_verb_arg_specs (some h) dobj prep iobj d ≡ some d')
        × (db_verb_arg_specs d' (some h) ≡ some (dobj, prep, iobj))
        × (db_verb_flags d' (some h) ≡ db_verb_flags d (some h))
        × (d'.verb_cache ≡ db_priv_affected_callable_verb_lookup d.verb_cache)
  unfolding db_set_verb_arg_specs db_verb_arg_specs db_verb_flags
  db_set_verb_arg_specs_lem dobj prep iobj ld li =
      let w = record v { perms = make_perms (v.perms % 16) dobj iobj; prep = prep } in
      let (flags, dobjs, iobjs) = make_perms-read (v.perms % 16) dobj iobj (omega arith) ld li in
      (
        with_verb w,
        rw at_definer (rw place refl),
        rw (verb_of-with_verb w) (rw (dobjs, iobjs) refl),
        rw (verb_of-with_verb w, at_definer, place, flags) refl,
        refl,
      )
