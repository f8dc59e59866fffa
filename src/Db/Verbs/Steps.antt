-- ===== src/Db/Verbs/Steps.antt =====
-- The operations on verbs and objects, as steps, keep the cache of verbs right.
use mathlib.Core.Option
use nu_moo.Base.{
  ℕ, zero, suc, ◌≡◌, refl, sym, ap, ◌∙◌, inl, inr, Bool, true, ◌&&◌, ◌||◌, not, Option, none, some,
  List, [], ◌∷◌, ◌++◌, if◌then◌else◌, Bool-cases, get_elem?, set, >>=-eq-some,
}
use mathlib.Core.Path.{subst, ap₂}
use nu_moo.Base.Int.{ℤ, pos, ltb_ℤ, leb_ℤ}
use nu_moo.Db.Object.{Objid, Verbdef, Object, write}
use nu_moo.Db.Objects.{update, db_set_object_owner, db_set_object_name}
use nu_moo.Db.State.{VerbCache, Db, dbpriv_find_object, db_create_object}
use nu_moo.Db.Verbs.{
  Handle, vf_exec, has_flag?, first_index, new_verb, db_add_verb, find_verbdef_by_name,
  change_verbs, change_verb, flushed, db_delete_verb, at_place,
}
use nu_moo.Db.Verbs.Born.{born-Ok}
use nu_moo.Db.Verbs.Cached.{with_cache, db_find_callable_verb_lem}
use nu_moo.Db.Verbs.Callable.{callable, find_uncached, db_find_callable_verb}
use nu_moo.Db.Verbs.Handles.{
  db_set_verb_names, db_set_verb_owner, db_set_verb_flags, db_set_verb_program,
  db_set_verb_arg_specs,
}
use nu_moo.Db.Verbs.Kept.{
  Ok, Seen, Seen-refl, Seen-Numbered, Seen-Ok, flushed-CacheOk, write-Seen, write-Numbered,
}
use nu_moo.Strings.{verbcasecmp}
use nu_moo.Strings.Case.{NonNul}

some_injective : {d e : Db} → ◌≡◌ {A = Option Db} (some d) (some e) → d ≡ e
some_injective e = cc e

-- What the loop over the verbs looks at in a verb.
abbrev pub Same : Verbdef → Verbdef → Type 0
Same v v' = (v'.name ≡ v.name) × (v'.perms ≡ v.perms)

first_index-set :
    (test : Verbdef → Bool) (vs : List Verbdef) (i : ℕ) (v v' : Verbdef)
    → get_elem? vs i ≡ some v
    → test v' ≡ test v
    → first_index test (set vs i v') ≡ first_index test vs
unfolding first_index
first_index-set test [] i v v' e f = refl
first_index-set test (x ∷ vs) zero v v' e f =
    let x-v : x ≡ v = cc e in
    ap (λ b. if b then some 0 else Option.map suc (first_index test vs)) (f ∙ ap test (sym x-v))
first_index-set test (x ∷ vs) (suc i) v v' e f =
    ap (λ m. if test x then some 0 else Option.map suc m) (first_index-set test vs i v v' e f)

-- A verb replaced by one of the same name and the same `perms`.
callable-set :
    (o : Object) (i : ℕ) (v v' : Verbdef) (verb : List ℕ)
    → get_elem? o.verbdefs i ≡ some v
    → Same v v'
    → callable verb (record o { verbdefs = set o.verbdefs i v' }) ≡ callable verb o
unfolding callable find_verbdef_by_name
callable-set o i v v' verb e (names, perms) = ap (Option.map (at_place o)) (
    first_index-set (λ w. verbcasecmp w.name verb && (not true || has_flag? w.perms vf_exec))
      o.verbdefs i v v' e
      (ap₂ (λ n m. verbcasecmp n verb && (not true || has_flag? m vf_exec)) names perms))

abbrev Changed : Db → Handle → (List Verbdef → Verbdef → List Verbdef) → Db → Type 0
Changed d h f d' =
    (o : Object) × (v : Verbdef) × (d.objects h.definer ≡ some o)
    × (get_elem? o.verbdefs h.verbdef ≡ some v)
    × (record d { objects = write d.objects h.definer (record o { verbdefs = f o.verbdefs v }) }
        ≡ d')

change_verbs-inv :
    (d : Db) (h : Handle) (f : List Verbdef → Verbdef → List Verbdef) {d' : Db}
    → change_verbs d h f ≡ some d'
    → Changed d h f d'
change_verbs-inv d h f run =
    let (o, here, run1) = >>=-eq-some (d.objects h.definer) _ run in
    let (v, at_place, run2) = >>=-eq-some (get_elem? o.verbdefs h.verbdef) _ run1 in
    (o, v, here, at_place, some_injective run2)

module _ (d : Db) (h : Handle) (ok : Ok d) where
  -- A change of the verbs of an object, with the cache cleared.
  changed_flushed-Ok :
      (f : List Verbdef → Verbdef → List Verbdef) {d' : Db}
      → change_verbs (flushed d) h f ≡ some d'
      → Ok d'
  changed_flushed-Ok f {d'} run =
      let (o, v, here, place, e) = change_verbs-inv (flushed d) h f run in
      subst Ok e (record {
        numbered =
            write-Numbered d h.definer o (record o { verbdefs = f o.verbdefs v }) here _ refl refl
              refl ok.numbered;
        cached = flushed-CacheOk d _ refl ok.cached;
      })

  -- A change of a verb that no search sees.
  changed_kept-Ok :
      (f : Verbdef → Verbdef) {d' : Db}
      → ((v : Verbdef) → Same v (f v))
      → change_verb d h f ≡ some d'
      → Ok d'
  changed_kept-Ok f {d'} same_v run =
      let (o, v, here, place, e) = change_verbs-inv d h (λ vs w. set vs h.verbdef (f w)) run in
      let o' = record o { verbdefs = set o.verbdefs h.verbdef (f v) } in
      subst Ok e (
        Seen-Ok d (record d { objects = write d.objects h.definer o' })
          (write-Seen d h.definer o o' here (record d { objects = write d.objects h.definer o' })
            refl refl (refl, refl, λ verb. callable-set o h.verbdef v (f v) verb place (same_v v)))
          refl ok)

-- One operation on verbs or on objects as such. A lookup that ends is a step as well.
pub data Step (d d' : Db) : Type 0 where
  add_verb :
      (oid : Objid) (vnames : List ℕ) (owner : Objid) (flags dobj : ℕ) (prep : ℤ) (iobj count : ℕ)
      → db_add_verb oid vnames owner flags dobj prep iobj d ≡ some (count, d')
      → Step d d'
  delete_verb : (h : Handle) → db_delete_verb h d ≡ some d' → Step d d'
  set_verb_names :
      (vh : Option Handle) (names : List ℕ) → db_set_verb_names vh names d ≡ some d' → Step d d'
  set_verb_owner :
      (vh : Option Handle) (owner : Objid) → db_set_verb_owner vh owner d ≡ some d' → Step d d'
  set_verb_flags :
      (vh : Option Handle) (flags : ℕ) → db_set_verb_flags vh flags d ≡ some d' → Step d d'
  set_verb_program :
      (vh : Option Handle) (program : ℕ) → db_set_verb_program vh program d ≡ some d' → Step d d'
  set_verb_arg_specs :
      (vh : Option Handle) (dobj : ℕ) (prep : ℤ) (iobj : ℕ)
      → db_set_verb_arg_specs vh dobj prep iobj d ≡ some d'
      → Step d d'
  set_object_owner : (oid owner : Objid) → db_set_object_owner oid owner d ≡ some d' → Step d d'
  set_object_name :
      (oid : Objid) (name : List ℕ) → db_set_object_name oid name d ≡ some d' → Step d d'
  create_object : (raw : Object) → (db_create_object raw d).1 ≡ d' → Step d d'
  find_callable_verb :
      (oid : Objid) (verb : List ℕ) (r r' : Option Handle)
      → NonNul verb
      → find_uncached d oid verb ≡ some r
      → db_find_callable_verb oid verb d ≡ some (r', d')
      → Step d d'

find-objects :
    (d : Db) (a : Objid) {o : Object} → dbpriv_find_object d a ≡ some o → d.objects a ≡ some o
unfolding dbpriv_find_object
find-objects d a e = elim (Bool-cases (ltb_ℤ a (pos 0) || leb_ℤ (pos d.num_objects) a)) [
  | inl out ↦ cc (e, out)
  | inr inside ↦ sym (ap (λ b. if b then none else d.objects a) inside) ∙ e
]

cached-Seen :
    (d : Db) (c : VerbCache) (a : Objid)
    → Seen (dbpriv_find_object d a) (dbpriv_find_object (with_cache d c) a)
unfolding dbpriv_find_object
cached-Seen d c a = Seen-refl (dbpriv_find_object d a)

same_verbs :
    (o o' : Object)
    → o'.id ≡ o.id
    → o'.verbdefs ≡ o.verbdefs
    → (verb : List ℕ) → callable verb o' ≡ callable verb o
unfolding callable find_verbdef_by_name
same_verbs o o' ids verbs verb = rw (ids, verbs) refl

-- The owner or the name of an object.
update-Ok :
    (d : Db) (oid : Objid) (f : Object → Object) {d' : Db}
    → ((o : Object) → Seen (some o) (some (f o)))
    → Ok d
    → update d oid f ≡ some d'
    → Ok d'
update-Ok d oid f seen ok run =
    let (o, here, e) = >>=-eq-some (d.objects oid) _ run in
    let e' = record d { objects = write d.objects oid (f o) } in
    subst Ok (some_injective e)
      (Seen-Ok d e' (write-Seen d oid o (f o) here e' refl refl (seen o)) refl ok)

add_verb-Ok :
    (d : Db) (oid : Objid) (vnames : List ℕ) (owner : Objid) (flags dobj : ℕ) (prep : ℤ)
    (iobj count : ℕ) {d' : Db}
    → Ok d
    → db_add_verb oid vnames owner flags dobj prep iobj d ≡ some (count, d')
    → Ok d'
unfolding db_add_verb
add_verb-Ok d oid vnames owner flags dobj prep iobj count ok run =
    let (o, here, e) = >>=-eq-some (dbpriv_find_object d oid) _ run in
    let o' = record o {
      verbdefs = o.verbdefs ++ new_verb vnames owner flags dobj prep iobj ∷ [];
    } in
    subst Ok (second e) (record {
      numbered = write-Numbered d oid o o' (find-objects d oid here) _ refl refl refl ok.numbered;
      cached = flushed-CacheOk d _ refl ok.cached;
    })
  where
    second :
        {A : Type 0} {a a' : A} {x y : Db}
        → ◌≡◌ {A = Option (A × Db)} (some (a, x)) (some (a', y))
        → x ≡ y
    second e = cc e

find_callable_verb-Ok :
    (d : Db) (oid : Objid) (verb : List ℕ) (r r' : Option Handle) {d' : Db}
    → Ok d
    → NonNul verb
    → find_uncached d oid verb ≡ some r
    → db_find_callable_verb oid verb d ≡ some (r', d')
    → Ok d'
find_callable_verb-Ok d oid verb r r' ok text found run =
    let (c, result, right) =
      db_find_callable_verb_lem oid verb d r ok.numbered ok.cached text found in
    subst Ok (second (sym result ∙ run)) (record {
      numbered = Seen-Numbered d (with_cache d c) (λ a. cached-Seen d c a) ok.numbered;
      cached = right;
    })
  where
    second :
        {A : Type 0} {a a' : A} {x y : Db}
        → ◌≡◌ {A = Option (A × Db)} (some (a, x)) (some (a', y))
        → x ≡ y
    second e = cc e

-- Each step keeps the cache right.
pub Step-Ok : {d d' : Db} → Step d d' → Ok d → Ok d'
unfolding db_delete_verb db_set_verb_names db_set_verb_owner db_set_verb_flags db_set_verb_program
    db_set_verb_arg_specs db_set_object_owner db_set_object_name
Step-Ok {d} (add_verb oid vnames owner flags dobj prep iobj count run) ok =
    add_verb-Ok d oid vnames owner flags dobj prep iobj count ok run
Step-Ok {d} (delete_verb h run) ok = changed_flushed-Ok d h ok _ run
Step-Ok {d} (set_verb_names vh names run) ok =
    let (h, e, run') = >>=-eq-some vh _ run in changed_flushed-Ok d h ok _ run'
Step-Ok {d} (set_verb_owner vh owner run) ok =
    let (h, e, run') = >>=-eq-some vh _ run in
    changed_kept-Ok d h ok (λ v. record v { owner = owner }) (λ v. (refl, refl)) run'
Step-Ok {d} (set_verb_flags vh flags run) ok =
    let (h, e, run') = >>=-eq-some vh _ run in changed_flushed-Ok d h ok _ run'
Step-Ok {d} (set_verb_program vh program run) ok =
    let (h, e, run') = >>=-eq-some vh _ run in
    changed_kept-Ok d h ok (λ v. record v { program = some program }) (λ v. (refl, refl)) run'
Step-Ok {d} (set_verb_arg_specs vh dobj prep iobj run) ok =
    let (h, e, run') = >>=-eq-some vh _ run in changed_flushed-Ok d h ok _ run'
Step-Ok {d} (set_object_owner oid owner run) ok =
    update-Ok d oid (λ o. record o { owner = owner })
      (λ o. (refl, refl, λ verb. same_verbs o (record o { owner = owner }) refl refl verb)) ok run
Step-Ok {d} (set_object_name oid name run) ok =
    update-Ok d oid (λ o. record o { name = name })
      (λ o. (refl, refl, λ verb. same_verbs o (record o { name = name }) refl refl verb)) ok run
Step-Ok {d} (create_object raw e) ok = subst Ok e (born-Ok raw d ok)
Step-Ok {d} (find_callable_verb oid verb r r' text found run) ok =
    find_callable_verb-Ok d oid verb r r' ok text found run

-- Any number of steps.
pub data Reach (d : Db) : Db → Type 0 where
  stay : Reach d d
  go_on : {d1 d2 : Db} → Reach d d1 → Step d1 d2 → Reach d d2

pub Reach-Ok : {d d' : Db} → Reach d d' → Ok d → Ok d'
Reach-Ok stay ok = ok
Reach-Ok (go_on r s) ok = Step-Ok s (Reach-Ok r ok)

-- After any sequence of creations of objects, changes of their names and owners, additions,
-- deletions and changes of verbs, and lookups that end, from a state in which the cache is right,
-- `db_find_callable_verb` returns what the search without a cache returns, if that ends.
pub Reach-find_callable_verb :
    {d d' : Db} (oid : Objid) (verb : List ℕ) (r : Option Handle)
    → Ok d
    → Reach d d'
    → NonNul verb
    → find_uncached d' oid verb ≡ some r
    → (c : VerbCache) × (db_find_callable_verb oid verb d' ≡ some (r, with_cache d' c))
Reach-find_callable_verb {d} {d'} oid verb r ok reach text found =
    let ok' = Reach-Ok reach ok in
    let (c, run, right) =
      db_find_callable_verb_lem oid verb d' r ok'.numbered ok'.cached text found in
    (c, run)
