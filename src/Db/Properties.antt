-- ===== src/Db/Properties.antt =====
-- The properties of objects (server/db_properties.c): where a property is found, its value, owner
-- and flags. The values of the properties that an object and its ancestors define stand in one array
-- of the object, those that the object itself defines first.
pub mod Indices
pub mod Places
pub mod Bounds
use nu_moo.Base.{
  ℕ, zero, suc, ◌+◌, ◌-◌, ◌*◌, ◌/◌, ◌%◌, ◌≤◌, ◌<◌, ◌≡◌, refl, ◌≢◌, Bool, true, false, ◌&&◌, ◌||◌,
  not, Option, none, some, List, [], ◌∷◌, ◌++◌, arith, ltb, ◌==◌, if◌then◌else◌, length, get_elem?,
  set, codes, ◌>>=◌,
}
use nu_moo.Base.Int.{pos, ◌==ℤ◌}
use nu_moo.Db.Object.{Objid, same, Propdef, Pval, Object, write}
use nu_moo.Db.Objects.{
  db_object_owner, db_object_name, db_object_location, Flag, flag_programmer, flag_wizard,
  flag_read, flag_write, flag_fertile, db_object_has_flag, is_wizard, db_for_all_contents,
}
use nu_moo.Db.State.{Db, dbpriv_find_object}
use nu_moo.Db.Verbs.{first_index}
use nu_moo.Strings.{mystrcasecmp, str_hash}
use nu_moo.Value.{Value, int, obj, str, list, of_list}

unfoldable pub dbpriv_new_propdef : (name : List ℕ) → Propdef
dbpriv_new_propdef name = record { name = name; hash = str_hash name }

abbrev pub cur_length : Object → ℕ
cur_length o = length o.propdefs.l

abbrev pub add_count : ℕ → Option ℕ → Option ℕ
add_count n none = none
add_count n (some m) = some (n + m)

-- The loop up the parents, on fuel.
unfoldable pub count_properties : ℕ → Db → Objid → Option ℕ
count_properties zero d p = none
count_properties (suc k) d p = elim (dbpriv_find_object d p) [
  | none ↦ some 0
  | some o ↦ add_count (cur_length o) (count_properties k d o.parent)
]

unfoldable pub dbpriv_count_properties : Db → Objid → Option ℕ
unfolding count_properties
dbpriv_count_properties d oid = count_properties (suc d.num_objects) d oid

unfoldable pub db_count_propdefs : Db → Objid → Option ℕ
db_count_propdefs d oid = do o ← dbpriv_find_object d oid; some (cur_length o)

-- The callback's data goes from property to property; it stops where the callback says so.
module _ {D : Type 0} (func : D → List ℕ → Bool × D) where
  unfoldable pub propdefs_loop : List Propdef → D → Bool × D
  propdefs_loop [] dat = (false, dat)
  propdefs_loop (p ∷ ps) dat =
      let (stop, dat') = func dat p.name in
      let rest = propdefs_loop ps dat' in if stop then (true, dat') else rest

  unfoldable pub db_for_all_propdefs : Db → Objid → D → Option (Bool × D)
  db_for_all_propdefs d oid dat = do
    o ← dbpriv_find_object d oid
    some (propdefs_loop o.propdefs.l dat)

pub data BuiltIn : Type 0 where
  bp_name bp_owner bp_programmer bp_wizard bp_r bp_w bp_f bp_location bp_contents : BuiltIn

abbrev pub ptable : List (List ℕ × BuiltIn)
ptable =
    (codes "name", bp_name)
    ∷ (codes "owner", bp_owner)
    ∷ (codes "programmer", bp_programmer)
    ∷ (codes "wizard", bp_wizard)
    ∷ (codes "r", bp_r)
    ∷ (codes "w", bp_w)
    ∷ (codes "f", bp_f)
    ∷ (codes "location", bp_location)
    ∷ (codes "contents", bp_contents)
    ∷ []

unfoldable pub find_built_in : (name : List ℕ) → List (List ℕ × BuiltIn) → Option BuiltIn
find_built_in name [] = none
find_built_in name ((known, p) ∷ table) =
    let rest = find_built_in name table in
    if str_hash known == str_hash name && mystrcasecmp name known ==ℤ pos 0 then some p else rest

-- `built_in` with the object in `ptr`; or the definer, with the object and the place in the array of
-- its values to which `ptr` points.
pub data PropHandle : Type 0 where
  built_in : BuiltIn → (oid : Objid) → PropHandle
  defined : (definer oid : Objid) → (n : ℕ) → PropHandle

unfoldable pub defines : (name : List ℕ) → Propdef → Bool
defines name p = p.hash == str_hash name && mystrcasecmp p.name name ==ℤ pos 0

-- The loop over the properties that an object defines, and on to its parent.
abbrev pub found_or :
    (definer : Objid)
    → (n : ℕ) → Option ℕ
    → Option (Option (Objid × ℕ))
    → Option (Option (Objid × ℕ))
found_or definer n none rest = rest
found_or definer n (some i) rest = some (some (definer, n + i))

unfoldable pub prop_loop : ℕ → Db → (name : List ℕ) → Objid → ℕ → Option (Option (Objid × ℕ))
unfolding first_index
prop_loop zero d name p n = none
prop_loop (suc k) d name p n = elim (dbpriv_find_object d p) [
  | none ↦ some none
  | some o ↦
      found_or o.id n (first_index (defines name) o.propdefs.l)
        (prop_loop k d name o.parent (n + cur_length o))
]

abbrev pub handle_of : Objid → Option (Objid × ℕ) → Option PropHandle
handle_of oid none = none
handle_of oid (some (definer, n)) = some (defined definer oid n)

abbrev pub with_built_in :
    Db → Objid → (name : List ℕ) → Option BuiltIn → Option (Option PropHandle)
with_built_in d oid name (some p) = some (some (built_in p oid))
with_built_in d oid name none = do
  found ← prop_loop (suc d.num_objects) d name oid 0
  some (handle_of oid found)

-- The handle that `db_find_property` returns; `none` in it is the null handle.
unfoldable pub find_handle : Db → Objid → (name : List ℕ) → Option (Option PropHandle)
unfolding find_built_in
find_handle d oid name = with_built_in d oid name (find_built_in name ptable)

-- The loop `while (prop->var.type == TYPE_CLEAR)`: a value that is clear is the parent's. A place in
-- front of the array is a fault.
unfoldable pub value_loop : ℕ → Db → Object → (n : ℕ) → Option Value
value_loop zero d o n = none
value_loop (suc k) d o n = do
  pv ← get_elem? o.propval n
  elim pv.var [
    | some v ↦ some v
    | none ↦ elim (ltb n (cur_length o)) [
      | true ↦ none
      | false ↦ do parent ← dbpriv_find_object d o.parent; value_loop k d parent (n - cur_length o)
    ]
  ]

abbrev pub flag_value : Db → Objid → Flag → Option Value
flag_value d oid f = do b ← db_object_has_flag d oid f; some (int (if b then pos 1 else pos 0))

abbrev pub collect : List Value → Objid → Bool × List Value
collect vs c = (false, vs ++ obj c ∷ [])

unfoldable pub get_bi_value : Db → BuiltIn → Objid → Option Value
get_bi_value d bp_name oid = do name ← db_object_name d oid; some (str name)
get_bi_value d bp_owner oid = do owner ← db_object_owner d oid; some (obj owner)
get_bi_value d bp_programmer oid = flag_value d oid flag_programmer
get_bi_value d bp_wizard oid = flag_value d oid flag_wizard
get_bi_value d bp_r oid = flag_value d oid flag_read
get_bi_value d bp_w oid = flag_value d oid flag_write
get_bi_value d bp_f oid = flag_value d oid flag_fertile
get_bi_value d bp_location oid = do l ← db_object_location d oid; some (obj l)
get_bi_value d bp_contents oid = do
  collected ← db_for_all_contents collect d oid []
  some (list (of_list (collected.1)))

-- The value that `db_find_property` stores.
unfoldable pub found_value : Db → PropHandle → Option Value
unfolding get_bi_value value_loop
found_value d (built_in p oid) = get_bi_value d p oid
found_value d (defined definer oid n) = do
  o ← dbpriv_find_object d oid
  value_loop (suc d.num_objects) d o n

unfoldable pub db_find_property :
    Db → Objid → (name : List ℕ) → Option (Option (PropHandle × Value))
unfolding find_handle found_value
db_find_property d oid name = do
  h ← find_handle d oid name
  elim h [ none ↦ some none | some h ↦ do v ← found_value d h; some (some (h, v)) ]

-- `(Pval *) h.ptr`, of a property that is not built in.
abbrev pub pval_of : Db → PropHandle → Option Pval
pval_of d (built_in p oid) = none
pval_of d (defined definer oid n) = do o ← dbpriv_find_object d oid; get_elem? o.propval n

abbrev pub change_pval : (Pval → Pval) → PropHandle → Db → Option Db
change_pval f (built_in p oid) d = none
change_pval f (defined definer oid n) d = do
  o ← dbpriv_find_object d oid
  pv ← get_elem? o.propval n
  some (record d { objects = write d.objects oid (record o { propval = set o.propval n (f pv) }) })

-- The value, which is `none` where it is TYPE_CLEAR.
unfoldable pub db_property_value : Db → PropHandle → Option (Option Value)
unfolding get_bi_value
db_property_value d (built_in p oid) = do v ← get_bi_value d p oid; some (some v)
db_property_value d (defined definer oid n) = do pv ← pval_of d (defined definer oid n); some pv.var

unfoldable pub db_property_owner : Db → PropHandle → Option Objid
db_property_owner d h = do pv ← pval_of d h; some pv.owner

unfoldable pub db_set_property_owner : PropHandle → Objid → Db → Option Db
db_set_property_owner h oid d = change_pval (λ pv. record pv { owner = oid }) h d

unfoldable pub db_property_flags : Db → PropHandle → Option ℕ
db_property_flags d h = do pv ← pval_of d h; some pv.perms

unfoldable pub db_set_property_flags : PropHandle → (flags : ℕ) → Db → Option Db
db_set_property_flags h flags d = change_pval (λ pv. record pv { perms = flags }) h d

-- The bits of `db_prop_flag`.
pub data PropFlag : Type 0 where
  pf_read pf_write pf_chown : PropFlag

abbrev pub pf_mask : PropFlag → ℕ
pf_mask pf_read = 1
pf_mask pf_write = 2
pf_mask pf_chown = 4

unfoldable pub db_property_allows : Db → PropHandle → (progr : Objid) → PropFlag → Option Bool
db_property_allows d h progr flag = do
  flags ← db_property_flags d h
  owner ← db_property_owner d h
  some (flags / pf_mask flag % 2 == 1 || same progr owner || is_wizard d progr)
