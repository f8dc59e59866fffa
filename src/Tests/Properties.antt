-- ===== src/Tests/Properties.antt =====
-- The theorem on properties, on an object #1 whose parent #0 defines a property "size".
use nu_moo.Base.{ℕ, zero, suc, ◌≡◌, refl, Option, none, some, List, [], ◌∷◌, get_elem?, codes}
use nu_moo.Base.Int.{pos, negsuc}
use nu_moo.Db.Object.{Objid, nothing, Propdef, Pval, Object, Objects}
use nu_moo.Db.Properties.{
  dbpriv_new_propdef, dbpriv_count_properties, defined, defines, prop_loop, find_handle, value_loop,
  found_value, db_find_property,
}
use nu_moo.Db.Properties.Bounds.{find_handle_lem}
use nu_moo.Db.Properties.Places.{Placed}
use nu_moo.Db.State.{Db, dbpriv_find_object}
use nu_moo.Strings.{cmap, mystrcasecmp, hash_step, hash_loop, str_hash}
use nu_moo.Value.{Value, int}

abbrev size : List ℕ
size = codes "size"

abbrev holder : (oid parent : Objid) → List Propdef → Option Value → Object
holder oid parent defs v = record {
  id = oid;
  owner = pos 0;
  location = nothing;
  contents = nothing;
  next = nothing;
  parent = parent;
  child = nothing;
  sibling = nothing;
  name = [];
  flags = 0;
  verbdefs = [];
  propdefs = record { max_length = 8; l = defs };
  propval = record { var = v; owner = pos 0; perms = 3 } ∷ [];
  waif_propdefs = none;
}

abbrev holders : Objects
holders (pos zero) =
    some (holder (pos 0) nothing (dbpriv_new_propdef size ∷ []) (some (int (pos 5))))
holders (pos (suc zero)) = some (holder (pos 1) (pos 0) [] none)
holders (pos (suc (suc n))) = none
holders (negsuc n) = none

abbrev sized : Db
sized = record {
  objects = holders;
  num_objects = 2;
  max_objects = 100;
  all_users = [];
  verb_cache = record { vc_table = none; generation = 0 };
}

size-found : find_handle sized (pos 1) size ≡ some (some (defined (pos 0) (pos 1) 0))
unfolding find_handle str_hash hash_loop hash_step cmap prop_loop dbpriv_find_object defines
    dbpriv_new_propdef mystrcasecmp
size-found = refl

sized-count : dbpriv_count_properties sized (pos 1) ≡ some 1
unfolding dbpriv_count_properties dbpriv_find_object
sized-count = refl

-- The value of #1 is clear, so it is that of #0.
size_inherited :
    db_find_property sized (pos 1) size ≡ some (some (defined (pos 0) (pos 1) 0, int (pos 5)))
unfolding db_find_property found_value value_loop find_handle str_hash hash_loop hash_step cmap
    prop_loop dbpriv_find_object defines dbpriv_new_propdef mystrcasecmp
size_inherited = refl

abbrev clear_holder : Object
clear_holder = holder (pos 1) (pos 0) [] none

clear_holder-found : dbpriv_find_object sized (pos 1) ≡ some clear_holder
unfolding dbpriv_find_object
clear_holder-found = refl

find_handle_lem_example :
    Placed sized size (pos 1) (pos 0) 0 1
    × (pv : Pval) × (get_elem? clear_holder.propval 0 ≡ some pv)
find_handle_lem_example =
    find_handle_lem sized (pos 1) (pos 0) size 0 clear_holder clear_holder-found sized-count
      size-found
