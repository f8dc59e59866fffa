-- ===== src/Db/Objects.antt =====
-- The operations of server/db_objects.c on the attributes, the contents and the children of
-- objects. The loops over a list run on fuel: one more than the number of objects, which no list of
-- distinct objects reaches.
pub mod Creation
pub mod Counts
pub mod Flags
pub mod Users
pub mod Taking
pub mod Lost
pub mod Location
use nu_moo.Base.{
  ◌>>=◌, ℕ, zero, suc, ◌+◌, ◌-◌, ◌/◌, ◌%◌, Bool, true, false, ◌&&◌, ◌||◌, Option, none, some, List,
  ◌==◌, if◌then◌else◌,
}
use nu_moo.Lists.{setadd, setremove}
use nu_moo.Db.Object.{Objid, nothing, same, Object, Objects, write}
use nu_moo.Db.Links.{Links, children, contents, ll_remove, ll_append}
use nu_moo.Db.State.{Db, dbpriv_find_object, valid, put, db_priv_affected_callable_verb_lookup}

abbrev pub fuel : Db → ℕ
fuel d = d.num_objects + 1

-- `objects[oid]->…` in an assignment.
abbrev pub update : Db → Objid → (Object → Object) → Option Db
update d oid f = do o ← d.objects oid; some (record d { objects = write d.objects oid (f o) })

unfoldable pub db_object_owner : Db → Objid → Option Objid
db_object_owner d oid = do o ← d.objects oid; some o.owner

unfoldable pub db_set_object_owner : Objid → Objid → Db → Option Db
db_set_object_owner oid owner d = update d oid (λ o. record o { owner = owner })

unfoldable pub db_object_name : Db → Objid → Option (List ℕ)
db_object_name d oid = do o ← d.objects oid; some o.name

unfoldable pub db_set_object_name : Objid → List ℕ → Db → Option Db
db_set_object_name oid name d = update d oid (λ o. record o { name = name })

unfoldable pub db_object_parent : Db → Objid → Option Objid
db_object_parent d oid = do o ← d.objects oid; some o.parent

unfoldable pub db_object_location : Db → Objid → Option Objid
db_object_location d oid = do o ← d.objects oid; some o.location

-- The enumeration `db_object_flag`, and `1 << f`.
pub data Flag : Type 0 where
  flag_user flag_programmer flag_wizard flag_obsolete_1 : Flag
  flag_read flag_write flag_obsolete_2 flag_fertile : Flag

abbrev pub bit : Flag → ℕ
bit flag_user = 1
bit flag_programmer = 2
bit flag_wizard = 4
bit flag_obsolete_1 = 8
bit flag_read = 16
bit flag_write = 32
bit flag_obsolete_2 = 64
bit flag_fertile = 128

-- `(flags & (1 << f)) != 0`, `flags | (1 << f)` and `flags & ~(1 << f)`.
unfoldable pub test_bit : ℕ → Flag → Bool
test_bit flags f = flags / bit f % 2 == 1

unfoldable pub set_bit : ℕ → Flag → ℕ
unfolding test_bit
set_bit flags f = if test_bit flags f then flags else flags + bit f

unfoldable pub clear_bit : ℕ → Flag → ℕ
unfolding test_bit
clear_bit flags f = if test_bit flags f then flags - bit f else flags

abbrev pub is_user_flag : Flag → Bool
is_user_flag flag_user = true
is_user_flag _ = false

unfoldable pub db_object_has_flag : Db → Objid → Flag → Option Bool
db_object_has_flag d oid f = do o ← d.objects oid; some (test_bit o.flags f)

unfoldable pub db_set_object_flag : Objid → Flag → Db → Option Db
db_set_object_flag oid f d = do
  d' ← update d oid (λ o. record o { flags = set_bit o.flags f })
  if is_user_flag f
      then (do users ← setadd same 2 d'.all_users oid; some (record d' { all_users = users }))
      else some d'

unfoldable pub db_clear_object_flag : Objid → Flag → Db → Option Db
db_clear_object_flag oid f d = do
  d' ← update d oid (λ o. record o { flags = clear_bit o.flags f })
  if is_user_flag f
      then (do users ← setremove same d'.all_users oid; some (record d' { all_users = users }))
      else some d'

-- `valid(oid) && db_object_has_flag(oid, f)`
abbrev pub valid_with : Db → Objid → Flag → Bool
valid_with d oid f = elim (dbpriv_find_object d oid) [ none ↦ false | some o ↦ test_bit o.flags f ]

unfoldable pub is_wizard : Db → Objid → Bool
is_wizard d oid = valid_with d oid flag_wizard

unfoldable pub is_programmer : Db → Objid → Bool
is_programmer d oid = valid_with d oid flag_programmer

unfoldable pub is_user : Db → Objid → Bool
is_user d oid = valid_with d oid flag_user

unfoldable pub db_object_allows : Db → (oid progr : Objid) → Flag → Option Bool
db_object_allows d oid progr f = do
  owner ← db_object_owner d oid
  flag ← db_object_has_flag d oid f
  some (same progr owner || is_wizard d progr || flag)

-- The panics are on an object that is not there or has kin.
unfoldable pub db_destroy_object : Objid → Db → Option Db
db_destroy_object oid d = do
  let cache = db_priv_affected_callable_verb_lookup d.verb_cache
  o ← dbpriv_find_object d oid
  if same o.location nothing
        && same o.contents nothing
        && same o.parent nothing
        && same o.child nothing
      then (do
        users ← (if is_user d oid then setremove same d.all_users oid else some d.all_users)
        some (record d { objects = put d.objects oid none; all_users = users; verb_cache = cache }))
      else none

-- The loop over a list from `c` on, with the callback's data; it stops where the callback says so.
module _ (links : Links) where
  open links use {next}

  unfoldable pub count_loop : ℕ → Objects → Objid → ℕ → Option ℕ
  count_loop zero h c i = none
  count_loop (suc k) h c i = elim (same c nothing) [
    | true ↦ some i
    | false ↦ elim (h c) [ none ↦ none | some o ↦ count_loop k h (next o) (i + 1) ]
  ]

  module _ {D : Type 0} (func : D → Objid → Bool × D) where
    unfoldable pub for_all_loop : ℕ → Objects → Objid → D → Option (Bool × D)
    for_all_loop zero h c dat = none
    for_all_loop (suc k) h c dat = elim (same c nothing) [
      | true ↦ some (false, dat)
      | false ↦
          let (stop, dat') = func dat c in
          elim stop [
            | true ↦ some (true, dat')
            | false ↦ elim (h c) [ none ↦ none | some o ↦ for_all_loop k h (next o) dat' ]
          ]
    ]

unfoldable pub db_count_children : Db → Objid → Option ℕ
db_count_children d oid = do o ← d.objects oid; count_loop children (fuel d) d.objects o.child 0

unfoldable pub db_count_contents : Db → Objid → Option ℕ
db_count_contents d oid = do o ← d.objects oid; count_loop contents (fuel d) d.objects o.contents 0

module _ {D : Type 0} (func : D → Objid → Bool × D) where
  unfoldable pub db_for_all_children : Db → Objid → D → Option (Bool × D)
  db_for_all_children d oid dat = do
    o ← d.objects oid
    for_all_loop children func (fuel d) d.objects o.child dat

  unfoldable pub db_for_all_contents : Db → Objid → D → Option (Bool × D)
  db_for_all_contents d oid dat = do
    o ← d.objects oid
    for_all_loop contents func (fuel d) d.objects o.contents dat

unfoldable pub db_change_location : Objid → Objid → Db → Option Db
db_change_location oid location d = do
  o ← d.objects oid
  h ←
      (if valid d o.location
        then ll_remove contents (fuel d) o.location oid d.objects
        else some d.objects)
  h' ←
      (if valid (record d { objects = h }) location
        then ll_append contents (fuel d) location oid h
        else some h)
  update (record d { objects = h' }) oid (λ x. record x { location = location })
