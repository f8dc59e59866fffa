-- ===== src/Db/Properties/Places.antt =====
-- The place of a property among those of an object and its ancestors (server/db_properties.c).
use nu_moo.Base.{
  ℕ, zero, suc, ◌+◌, ◌≡◌, refl, sym, ap, ◌∙◌, inl, inr, true, none, some, List, [], ◌++◌, map,
  arith, Option-cases, length, get_elem?, some_injective,
}
use mathlib.Core.Path.{subst}
use nu_moo.Db.Object.{Objid, Propdef, Object}
use nu_moo.Db.Properties.{cur_length, add_count, count_properties, defines, found_or, prop_loop}
use nu_moo.Db.Properties.Indices.{first_index-get, get_elem?-front, get_elem?-behind, length-behind}
use nu_moo.Db.State.{Db, dbpriv_find_object}
use nu_moo.Db.Verbs.{first_index}

module _ (d : Db) where
  count_missing :
      (k : ℕ) (p : Objid) → dbpriv_find_object d p ≡ none → count_properties (suc k) d p ≡ some 0
  unfolding count_properties
  count_missing k p e = rw (count_properties, e) refl

  count_found :
      (k : ℕ) (p : Objid) (o : Object)
      → dbpriv_find_object d p ≡ some o
      → count_properties (suc k) d p ≡ add_count (cur_length o) (count_properties k d o.parent)
  unfolding count_properties
  count_found k p o e = rw (count_properties, e) refl

  -- The properties of an object, each with the object that defines it: its own, and behind them those
  -- of its parent.
  pub data AllProperties : Objid → List (Objid × Propdef) → Type 0 where
    no_more : {p : Objid} → dbpriv_find_object d p ≡ none → AllProperties p []
    own_first :
        {p : Objid} {o : Object} {ps : List (Objid × Propdef)}
        → dbpriv_find_object d p ≡ some o
        → AllProperties o.parent ps
        → AllProperties p (map (λ def. (o.id, def)) o.propdefs.l ++ ps)

  count_properties-AllProperties :
      (k : ℕ) (p : Objid) (c : ℕ)
      → count_properties k d p ≡ some c
      → (ps : List (Objid × Propdef)) × AllProperties p ps × (length ps ≡ c)
  unfolding count_properties
  count_properties-AllProperties zero p c e = cc e
  count_properties-AllProperties (suc k) p c e = elim (Option-cases (dbpriv_find_object d p)) [
    | inl gone ↦ ([], no_more gone, some_injective (sym (count_missing k p gone) ∙ e))
    | inr (o, there) ↦
        let size = sym (count_found k p o there) ∙ e in
        elim (Option-cases (count_properties k d o.parent)) [
          | inl out ↦ cc (size, out)
          | inr (rest, counted) ↦
              let (ps, all, many) = count_properties-AllProperties k o.parent rest counted in
              let total : cur_length o + rest ≡ c =
                some_injective (ap (add_count (cur_length o)) (sym counted) ∙ size) in
              (
                map (λ def. (o.id, def)) o.propdefs.l ++ ps,
                own_first there all,
                omega (arith, many, total, length-behind (λ def. (o.id, def)) ps o.propdefs.l),
              )
        ]
  ]

  module _ (name : List ℕ) where
    prop_missing :
        (k : ℕ) (p : Objid) (n : ℕ)
        → dbpriv_find_object d p ≡ none
        → prop_loop (suc k) d name p n ≡ some none
    unfolding prop_loop
    prop_missing k p n e = rw (prop_loop, e) refl

    prop_found :
        (k : ℕ) (p : Objid) (n : ℕ) (o : Object)
        → dbpriv_find_object d p ≡ some o
        → prop_loop (suc k) d name p n
          ≡ found_or o.id n
              (first_index (defines name) o.propdefs.l)
              (prop_loop k d name o.parent (n + cur_length o))
    unfolding prop_loop
    prop_found k p n o e = rw (prop_loop, e) refl

    -- A property by the name, `i` places behind the first property of `p`.
    pub record Placed (p definer : Objid) (i c : ℕ) : Type 0 where
      pub properties : List (Objid × Propdef)
      pub all : AllProperties p properties
      pub many : length properties ≡ c
      pub def : Propdef
      pub there : get_elem? properties i ≡ some (definer, def)
      pub named : defines name def ≡ true

    own_place :
        (j : ℕ) (p : Objid) (o : Object) (i c : ℕ)
        → dbpriv_find_object d p ≡ some o
        → first_index (defines name) o.propdefs.l ≡ some i
        → count_properties j d o.parent ≡ some c
        → Placed p o.id i (cur_length o + c)
    own_place j p o i c here hit counted =
        let (ps, all, many) = count_properties-AllProperties j o.parent c counted in
        let (def, there, named) = first_index-get (defines name) o.propdefs.l i hit in
        record {
          properties = map (λ def. (o.id, def)) o.propdefs.l ++ ps;
          all = own_first here all;
          many = omega (arith, many, length-behind (λ def. (o.id, def)) ps o.propdefs.l);
          def = def;
          there = get_elem?-front (λ def. (o.id, def)) ps o.propdefs.l i def there;
          named = named;
        }

    parent_place :
        (p definer : Objid) (o : Object) (i c : ℕ)
        → dbpriv_find_object d p ≡ some o
        → Placed o.parent definer i c
        → Placed p definer (cur_length o + i) (cur_length o + c)
    parent_place p definer o i c here at = record {
      properties = map (λ def. (o.id, def)) o.propdefs.l ++ at.properties;
      all = own_first here at.all;
      many = omega (arith, at.many, length-behind (λ def. (o.id, def)) at.properties o.propdefs.l);
      def = at.def;
      there = get_elem?-behind (λ def. (o.id, def)) at.properties o.propdefs.l i ∙ at.there;
      named = at.named;
    }

    pub prop_loop-Placed :
        (k j : ℕ) (p : Objid) (start c n : ℕ) (definer : Objid)
        → prop_loop k d name p start ≡ some (some (definer, n))
        → count_properties j d p ≡ some c
        → (i : ℕ) × (n ≡ start + i) × Placed p definer i c
    unfolding prop_loop count_properties
    prop_loop-Placed zero j p start c n definer e f = cc e
    prop_loop-Placed (suc k) zero p start c n definer e f = cc f
    prop_loop-Placed (suc k) (suc j) p start c n definer e f =
        elim (Option-cases (dbpriv_find_object d p)) [
          | inl gone ↦ cc (e, prop_missing k p start gone)
          | inr (o, there) ↦
              let size = sym (count_found j p o there) ∙ f in
              elim (Option-cases (count_properties j d o.parent)) [
                | inl out ↦ cc (size, out)
                | inr (rest, counted) ↦
                    let total : cur_length o + rest ≡ c =
                      some_injective (ap (add_count (cur_length o)) (sym counted) ∙ size) in
                    let (i, place, at) =
                      placed o rest there counted (sym (prop_found k p start o there) ∙ e) (λ run.
                        prop_loop-Placed k j o.parent (start + cur_length o) rest n definer run
                          counted) in
                    (i, place, subst (Placed p definer i) total at)
              ]
        ]
      where
        placed :
            (o : Object) (rest : ℕ)
            → dbpriv_find_object d p ≡ some o
            → count_properties j d o.parent ≡ some rest
            → found_or o.id start
                (first_index (defines name) o.propdefs.l)
                (prop_loop k d name o.parent (start + cur_length o))
              ≡ some (some (definer, n))
            → (prop_loop k d name o.parent (start + cur_length o) ≡ some (some (definer, n))
                → (i : ℕ) × (n ≡ start + cur_length o + i) × Placed o.parent definer i rest)
            → (i : ℕ) × (n ≡ start + i) × Placed p definer i (cur_length o + rest)
        placed o rest there counted run above =
            let next = prop_loop k d name o.parent (start + cur_length o) in
            elim (Option-cases (first_index (defines name) o.propdefs.l)) [
              | inl pass ↦
                  let (i, place, at) =
                    above (ap (λ m. found_or o.id start m next) (sym pass) ∙ run) in
                  (cur_length o + i, omega (arith, place), parent_place p definer o i rest there at)
              | inr (i, hit) ↦
                  let stop : some (some (o.id, start + i)) ≡ some (some (definer, n)) =
                    ap (λ m. found_or o.id start m next) (sym hit) ∙ run in
                  let pair = some_injective (some_injective stop) in
                  (
                    i,
                    sym (ap (λ m. m.1) pair),
                    subst (λ a. Placed p a i (cur_length o + rest)) (ap (λ m. m.0) pair)
                        (own_place j p o i rest there hit counted),
                  )
            ]
