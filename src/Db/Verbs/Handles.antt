-- ===== src/Db/Verbs/Handles.antt =====
-- The functions of server/db_verbs.c that find a verb of one object, and those on a handle.
use mathlib.Core.Option
use nu_moo.Base.{
  ℕ, ◌+◌, ◌-◌, ◌*◌, ◌/◌, ◌%◌, Bool, true, false, ◌&&◌, ◌||◌, not, Option, none, some, List, [], ◌∷◌,
  ltb, leb, if◌then◌else◌, length, ◌>>=◌,
}
use Prim.Native.Nat.{bit_or}
use nu_moo.Base.Int.{ℤ, pos, negsuc, ◌==ℤ◌, to_int}
use nu_moo.Db.Object.{Objid, same, Verbdef}
use nu_moo.Db.Objects.{is_wizard}
use nu_moo.Db.State.{Db, dbpriv_find_object}
use nu_moo.Db.Verbs.{
  Handle, VerbFlag, has_flag?, make_perms, dobj_of, iobj_of, verb_of, change_verb, flushed,
  at_place,
}
use nu_moo.Strings.{verbcasecmp}

unfoldable pub db_find_indexed_verb : Db → Objid → (index : ℕ) → Option (Option Handle)
db_find_indexed_verb d oid index = do
  o ← dbpriv_find_object d oid
  some
      (if ltb 0 index && leb index (length o.verbdefs) then some (at_place o (index - 1)) else none)

abbrev pub first_byte : List ℕ → ℕ
first_byte [] = 0
first_byte (b ∷ s) = b

abbrev pub is_empty : List ℕ → Bool
is_empty [] = true
is_empty (b ∷ s) = false

-- `strtol` and `isspace` are the C library's: the number that a string begins with, and what
-- follows it; a NUL is where the string ends.
module _ (strtol : List ℕ → ℤ × List ℕ) (isspace : ℕ → Bool) where
  -- The number that is looked for, or -1.
  unfoldable pub verb_number : List ℕ → (allow_numbers : Bool) → ℤ
  verb_number vname allow_numbers =
      if not allow_numbers || isspace (first_byte vname) || not (is_empty ((strtol vname).1))
      then negsuc 0
      else to_int ((strtol vname).0)

  -- The loop over the verbs from the place `i` on.
  unfoldable pub defined_loop : ℤ → List ℕ → ℕ → List Verbdef → Option ℕ
  defined_loop num vname i [] = none
  defined_loop num vname i (v ∷ vs) =
      let rest = defined_loop num vname (i + 1) vs in
      if pos i ==ℤ num || verbcasecmp v.name vname then some i else rest

  unfoldable pub db_find_defined_verb :
      Db → Objid → (vname : List ℕ) → (allow_numbers : Bool) → Option (Option Handle)
  db_find_defined_verb d oid vname allow_numbers = do
    o ← dbpriv_find_object d oid
    some (
        Option.map (at_place o) (defined_loop (verb_number vname allow_numbers) vname 0 o.verbdefs))

-- The functions on a handle; those on a null handle are panics.
unfoldable pub db_verb_definer : Option Handle → Option Objid
db_verb_definer vh = do h ← vh; some h.definer

unfoldable pub db_verb_names : Db → Option Handle → Option (List ℕ)
db_verb_names d vh = do h ← vh; v ← verb_of d h; some v.name

unfoldable pub db_set_verb_names : Option Handle → (names : List ℕ) → Db → Option Db
db_set_verb_names vh names d = do h ← vh; change_verb (flushed d) h (λ v. record v { name = names })

unfoldable pub db_verb_owner : Db → Option Handle → Option Objid
db_verb_owner d vh = do h ← vh; v ← verb_of d h; some v.owner

unfoldable pub db_set_verb_owner : Option Handle → (owner : Objid) → Db → Option Db
db_set_verb_owner vh owner d = do h ← vh; change_verb d h (λ v. record v { owner = owner })

unfoldable pub db_verb_flags : Db → Option Handle → Option ℕ
db_verb_flags d vh = do h ← vh; v ← verb_of d h; some (v.perms % 16)

unfoldable pub db_set_verb_flags : Option Handle → (flags : ℕ) → Db → Option Db
db_set_verb_flags vh flags d = do
  h ← vh
  change_verb (flushed d) h (λ v. record v { perms = bit_or (v.perms / 16 * 16) flags })

-- `null_program` is the program that stands for none.
unfoldable pub db_verb_program : (null_program : ℕ) → Db → Option Handle → Option ℕ
db_verb_program null_program d vh = do
  h ← vh
  v ← verb_of d h
  some (elim v.program [ none ↦ null_program | some p ↦ p ])

unfoldable pub db_set_verb_program : Option Handle → (program : ℕ) → Db → Option Db
db_set_verb_program vh program d = do
  h ← vh
  change_verb d h (λ v. record v { program = some program })

unfoldable pub db_verb_arg_specs : Db → Option Handle → Option (ℕ × ℤ × ℕ)
db_verb_arg_specs d vh = do h ← vh; v ← verb_of d h; some (dobj_of v.perms, v.prep, iobj_of v.perms)

unfoldable pub db_set_verb_arg_specs :
    Option Handle → (dobj : ℕ) → (prep : ℤ) → (iobj : ℕ) → Db → Option Db
unfolding make_perms
db_set_verb_arg_specs vh dobj prep iobj d = do
  h ← vh
  change_verb (flushed d) h
      (λ v. record v { perms = make_perms (v.perms % 16) dobj iobj; prep = prep })

unfoldable pub db_verb_allows : Db → Option Handle → (progr : Objid) → VerbFlag → Option Bool
db_verb_allows d vh progr flag = do
  flags ← db_verb_flags d vh
  owner ← db_verb_owner d vh
  some (has_flag? flags flag || same progr owner || is_wizard d progr)

-- The callback's data goes from verb to verb; it stops where the callback says so.
module _ {D : Type 0} (func : D → List ℕ → Bool × D) where
  unfoldable pub verbs_loop : List Verbdef → D → Bool × D
  verbs_loop [] dat = (false, dat)
  verbs_loop (v ∷ vs) dat =
      let (stop, dat') = func dat v.name in
      let rest = verbs_loop vs dat' in if stop then (true, dat') else rest

  unfoldable pub db_for_all_verbs : Db → Objid → D → Option (Bool × D)
  db_for_all_verbs d oid dat = do o ← dbpriv_find_object d oid; some (verbs_loop o.verbdefs dat)
