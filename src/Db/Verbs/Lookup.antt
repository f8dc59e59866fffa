-- ===== src/Db/Verbs/Lookup.antt =====
-- The loop up the parents of an object: more fuel, and where the search for a callable verb may
-- begin.
use mathlib.Core.Option
use nu_moo.Base.{
  ℕ, zero, suc, ◌+◌, ◌≡◌, refl, sym, ap, ◌∙◌, inl, inr, Bool, true, ◌&&◌, ◌||◌, not, Option, none,
  some, List, [], ◌∷◌, arith, Option-cases,
}
use mathlib.Core.Path.{subst}
use nu_moo.Db.Object.{Objid, nothing, Verbdef, Object}
use nu_moo.Db.State.{Db, dbpriv_find_object}
use nu_moo.Db.Verbs.{
  Handle, vf_exec, has_flag?, first_index, find_verbdef_by_name, ancestor_loop, ancestors_from,
  at_place,
}
use nu_moo.Db.Verbs.Callable.{callable, with_verbs, key_of, search_from}
use nu_moo.Strings.{verbcasecmp}

module _ {ℓ} {A : Type ℓ} (body : Object → Option A) (d : Db) where
  -- The first steps of the loop.
  pub loop_missing :
      (k : ℕ) (oid : Objid)
      → dbpriv_find_object d oid ≡ none
      → ancestor_loop body (suc k) d oid ≡ some none
  unfolding ancestor_loop
  loop_missing k oid e = rw (ancestor_loop, e) refl

  pub loop_found :
      (k : ℕ) (oid : Objid) (o : Object)
      → dbpriv_find_object d oid ≡ some o
      → ancestor_loop body (suc k) d oid ≡ ancestors_from body k d o
  unfolding ancestor_loop ancestors_from
  loop_found k oid o e = rw (ancestor_loop, e) refl

  pub from_hit :
      (k : ℕ) (o : Object) (a : A) → body o ≡ some a → ancestors_from body k d o ≡ some (some a)
  unfolding ancestors_from
  from_hit k o a e = rw (ancestors_from, e) refl

  pub from_miss :
      (k : ℕ) (o : Object)
      → body o ≡ none
      → ancestors_from body k d o ≡ ancestor_loop body k d o.parent
  unfolding ancestors_from
  from_miss k o e = rw (ancestors_from, e) refl

  pub no_fuel : (oid : Objid) {r : Option A} → ancestor_loop body zero d oid ≡ some r → ⊥
  unfolding ancestor_loop
  no_fuel oid e = cc e

  pub ancestor_loop-suc :
      (k : ℕ) (oid : Objid) {r : Option A}
      → ancestor_loop body k d oid ≡ some r
      → ancestor_loop body (suc k) d oid ≡ some r
  ancestor_loop-suc zero oid e = absurd (no_fuel oid e)
  ancestor_loop-suc (suc k) oid e = elim (Option-cases (dbpriv_find_object d oid)) [
    | inl gone ↦ loop_missing (suc k) oid gone ∙ sym (loop_missing k oid gone) ∙ e
    | inr (o, there) ↦ elim (Option-cases (body o)) [
      | inl pass ↦
          loop_found (suc k) oid o there
          ∙ from_miss (suc k) o pass
          ∙ ancestor_loop-suc k o.parent
              (sym (from_miss k o pass) ∙ sym (loop_found k oid o there) ∙ e)
      | inr (a, stop) ↦
          loop_found (suc k) oid o there
          ∙ from_hit (suc k) o a stop
          ∙ sym (from_hit k o a stop)
          ∙ sym (loop_found k oid o there)
          ∙ e
    ]
  ]

  pub ancestor_loop_more :
      (j k : ℕ) (oid : Objid) {r : Option A}
      → ancestor_loop body k d oid ≡ some r
      → ancestor_loop body (j + k) d oid ≡ some r
  ancestor_loop_more zero k oid e = ap (λ n. ancestor_loop body n d oid) (omega arith) ∙ e
  ancestor_loop_more (suc j) k oid e =
      ap (λ n. ancestor_loop body n d oid) (omega arith)
      ∙ ancestor_loop-suc (j + k) oid (ancestor_loop_more j k oid e)

  -- Two runs that end give the same result, whatever their fuel.
  pub ancestor_loop_unique :
      (j k : ℕ) (oid : Objid) {r s : Option A}
      → ancestor_loop body j d oid ≡ some r
      → ancestor_loop body k d oid ≡ some s
      → r ≡ s
  ancestor_loop_unique j k oid e f = some_injective (
      sym (ancestor_loop_more k j oid e)
      ∙ ap (λ n. ancestor_loop body n d oid) (omega arith)
      ∙ ancestor_loop_more j k oid f)
    where
      some_injective : {a b : Option A} → ◌≡◌ {A = Option (Option A)} (some a) (some b) → a ≡ b
      some_injective e = cc e

-- Two states in which the loop finds the same.
module _ {A : Type 0} (body : Object → Option A) where
  abbrev pub Alike : Option Object → Option Object → Type 0
  Alike none none = Unit
  Alike none (some o') = ⊥
  Alike (some o) none = ⊥
  Alike (some o) (some o') = (o'.parent ≡ o.parent) × (body o' ≡ body o)

  Alike-none : (m : Option Object) → Alike none m → m ≡ none
  Alike-none none h = refl
  Alike-none (some o) h = absurd h

  Alike-some :
      (o : Object) (m : Option Object)
      → Alike (some o) m
      → (o' : Object) × (m ≡ some o') × (o'.parent ≡ o.parent) × (body o' ≡ body o)
  Alike-some o none h = absurd h
  Alike-some o (some o') h = (o', refl, h.0, h.1)

  module _ (d d' : Db)
      (alike : (a : Objid) → Alike (dbpriv_find_object d a) (dbpriv_find_object d' a)) where
    pub loop-Alike :
        (k : ℕ) (oid : Objid) → ancestor_loop body k d' oid ≡ ancestor_loop body k d oid
    unfolding ancestor_loop
    loop-Alike zero oid = refl
    loop-Alike (suc k) oid = elim (Option-cases (dbpriv_find_object d oid)) [
      | inl gone ↦
          loop_missing body d' k oid (
            Alike-none (dbpriv_find_object d' oid)
              (subst (λ m. Alike m (dbpriv_find_object d' oid)) gone (alike oid)))
          ∙ sym (loop_missing body d k oid gone)
      | inr (o, there) ↦
          let (o', there', parents, bodies) =
            Alike-some o (dbpriv_find_object d' oid)
              (subst (λ m. Alike m (dbpriv_find_object d' oid)) there (alike oid)) in
          loop_found body d' k oid o' there'
          ∙ elim (Option-cases (body o)) [
            | inl pass ↦
                from_miss body d' k o' (bodies ∙ pass)
                ∙ ap (ancestor_loop body k d') parents
                ∙ loop-Alike k o.parent
                ∙ sym (from_miss body d k o pass)
            | inr (a, stop) ↦
                from_hit body d' k o' a (bodies ∙ stop) ∙ sym (from_hit body d k o a stop)
          ]
          ∙ sym (loop_found body d k oid o there)
    ]

-- The number under which an object stands is its `id`.
abbrev pub Numbered : Db → Type 0
Numbered d = (a : Objid) (o : Object) → dbpriv_find_object d a ≡ some o → o.id ≡ a

-- Only an object with verbs has a callable one.
callable-with_verbs : (verb : List ℕ) (o : Object) → with_verbs o ≡ none → callable verb o ≡ none
unfolding callable with_verbs find_verbdef_by_name first_index
callable-with_verbs verb o e = go o.verbdefs e
  where
    test : Verbdef → Bool
    test v = verbcasecmp v.name verb && (not true || has_flag? v.perms vf_exec)

    go :
        (vs : List Verbdef)
        → (elim vs [ [] ↦ none | _ ∷ _ ↦ some o ]) ≡ none
        → Option.map (at_place o) (first_index test vs) ≡ none
    go [] f = refl
    go (v ∷ vs) f = cc f

with_verbs_self : (o x : Object) → with_verbs o ≡ some x → o ≡ x
unfolding with_verbs
with_verbs_self o x e = go o.verbdefs e
  where
    go : (vs : List Verbdef) → (elim vs [ [] ↦ none | _ ∷ _ ↦ some o ]) ≡ some x → o ≡ x
    go [] f = cc f
    go (v ∷ vs) f = cc f

pub no_nothing : (d : Db) → dbpriv_find_object d nothing ≡ none
unfolding dbpriv_find_object
no_nothing d = refl

-- What the search for a callable verb from the first object with verbs gives.
module _ (d : Db) (numbered : Numbered d) (verb : List ℕ) where
  abbrev pub Begins : ℕ → Option Object → Option Handle → Type 0
  Begins k none r = r ≡ none
  Begins k (some o) r =
      (dbpriv_find_object d o.id ≡ some o) × (ancestor_loop (callable verb) k d o.id ≡ some r)

  Begins-suc :
      (k : ℕ) (first : Option Object) (r : Option Handle)
      → Begins k first r
      → Begins (suc k) first r
  Begins-suc k none r e = e
  Begins-suc k (some o) r (there, run) = (there, ancestor_loop-suc (callable verb) d k o.id run)

  -- A search from an object passes by those without verbs.
  pub search-Begins :
      (k : ℕ) (oid : Objid) (r : Option Handle)
      → ancestor_loop (callable verb) k d oid ≡ some r
      → (first : Option Object) × (ancestor_loop with_verbs k d oid ≡ some first) × Begins k first r
  search-Begins zero oid r e = absurd (no_fuel (callable verb) d oid e)
  search-Begins (suc k) oid r e = elim (Option-cases (dbpriv_find_object d oid)) [
    | inl gone ↦ (
      none,
      loop_missing with_verbs d k oid gone,
      some_injective (sym e ∙ loop_missing (callable verb) d k oid gone),
    )
    | inr (o, there) ↦ elim (Option-cases (with_verbs o)) [
      | inl pass ↦
          let up =
            sym (from_miss (callable verb) d k o (callable-with_verbs verb o pass))
            ∙ sym (loop_found (callable verb) d k oid o there)
            ∙ e in
          let (first, run, begins) = search-Begins k o.parent r up in
          (
            first,
            loop_found with_verbs d k oid o there ∙ from_miss with_verbs d k o pass ∙ run,
            Begins-suc k first r begins,
          )
      | inr (x, stop) ↦ (
        some o,
        loop_found with_verbs d k oid o there
            ∙ from_hit with_verbs d k o o (stop ∙ ap some (sym (with_verbs_self o x stop))),
        (
          ap (dbpriv_find_object d) (numbered oid o there) ∙ there,
          ap (ancestor_loop (callable verb) (suc k) d) (numbered oid o there) ∙ e,
        ),
      )
    ]
  ]
    where
      some_injective :
          {a b : Option Handle} → ◌≡◌ {A = Option (Option Handle)} (some a) (some b) → a ≡ b
      some_injective e = cc e

  -- The same with the key of the cache in place of the object.
  pub Begins-key :
      (first : Option Object) (r : Option Handle)
      → Begins (suc d.num_objects) first r
      → (ancestor_loop (callable verb) (suc d.num_objects) d (key_of first) ≡ some r)
        × (search_from d verb first ≡ some r)
  Begins-key none r e = (
    loop_missing (callable verb) d d.num_objects nothing (no_nothing d) ∙ ap some (sym e),
    ap some (sym e),
  )
  Begins-key (some o) r (there, run) = (
    run,
    sym (loop_found (callable verb) d (suc d.num_objects) o.id o there)
        ∙ ancestor_loop-suc (callable verb) d (suc d.num_objects) o.id run,
  )
