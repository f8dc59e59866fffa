-- ===== src/Db/Properties/Bounds.antt =====
-- A property that is found has a place among the values of the object (server/db_properties.c).
use nu_moo.Base.{
  ℕ, suc, ◌+◌, ◌≡◌, sym, ap, ◌∙◌, inl, inr, Option, none, some, List, arith, Option-cases, length,
  get_elem?, get_elem?-lt, get_elem?-bound, >>=-eq-some, some_injective,
}
use mathlib.Core.Path.{subst}
use nu_moo.Db.Object.{Objid, Pval, Object}
use nu_moo.Db.Properties.{
  dbpriv_count_properties, BuiltIn, ptable, find_built_in, PropHandle, built_in, defined, prop_loop,
  handle_of, with_built_in, find_handle,
}
use nu_moo.Db.Properties.Places.{Placed, prop_loop-Placed}
use nu_moo.Db.State.{Db, dbpriv_find_object}

handle_shape :
    (oid : Objid) (found : Option (Objid × ℕ)) (definer : Objid) (n : ℕ)
    → handle_of oid found ≡ some (defined definer oid n)
    → found ≡ some (definer, n)
handle_shape oid none definer n e = cc e
handle_shape oid (some (a, m)) definer n e = cc e

-- A handle that is not built in comes from the loop up the parents.
found_in_loop :
    (d : Db) (oid definer : Objid) (name : List ℕ) (n : ℕ)
    → find_handle d oid name ≡ some (some (defined definer oid n))
    → prop_loop (suc d.num_objects) d name oid 0 ≡ some (some (definer, n))
unfolding find_handle
found_in_loop d oid definer name n e = elim (Option-cases (find_built_in name ptable)) [
  | inr (p, hit) ↦ apart (ap (with_built_in d oid name) (sym hit) ∙ e)
  | inl pass ↦
      let (found, looked, made) =
        >>=-eq-some (prop_loop (suc d.num_objects) d name oid 0)
          (λ found. some (handle_of oid found)) (ap (with_built_in d oid name) (sym pass) ∙ e) in
      looked ∙ ap some (handle_shape oid found definer n (some_injective made))
]
  where
    apart :
        {p : BuiltIn}
        → ◌≡◌ {A = Option (Option PropHandle)}
            (some (some (built_in p oid)))
            (some (some (defined definer oid n)))
        → prop_loop (suc d.num_objects) d name oid 0 ≡ some (some (definer, n))
    apart e = cc e

-- Where an object has as many values as it and its ancestors define properties, the place of a
-- property that is found and is not built in is one of its array of values: at that place, among the
-- properties of the object and behind them those of its parent and so on, stands a property of the
-- definer that goes by the name.
pub find_handle_lem :
    (d : Db) (oid definer : Objid) (name : List ℕ) (n : ℕ) (o : Object)
    → dbpriv_find_object d oid ≡ some o
    → dbpriv_count_properties d oid ≡ some (length o.propval)
    → find_handle d oid name ≡ some (some (defined definer oid n))
    → Placed d name oid definer n (length o.propval)
      × (pv : Pval) × (get_elem? o.propval n ≡ some pv)
unfolding dbpriv_count_properties
find_handle_lem d oid definer name n o here sized e =
    let (i, place, at) =
      prop_loop-Placed d name (suc d.num_objects) (suc d.num_objects) oid 0 (length o.propval) n
        definer (found_in_loop d oid definer name n e) sized in
    let start : 0 + i ≡ i = omega arith in
    let at_n =
      subst (λ i. Placed d name oid definer i (length o.propval)) (sym (place ∙ start)) at in
    let (pv, there) =
      get_elem?-lt o.propval n
        (omega (arith, at_n.many, get_elem?-bound at_n.properties n at_n.there)) in
    (at_n, pv, there)
