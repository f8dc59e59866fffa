-- ===== src/Db/Verbs/Born.antt =====
-- Creation and destruction of objects keep the cache of verbs right, though a creation does not
-- clear it (server/db_objects.c, server/db_verbs.c).
use nu_moo.Base.{
  ℕ, zero, suc, ◌+◌, ◌≡◌, refl, sym, ap, ◌∙◌, ◌≢◌, ◌⊎◌, inl, inr, false, ◌||◌, Option, none, some,
  List, arith, if◌then◌else◌, Bool-cases, Option-cases, All-imp, All,
}
use mathlib.Core.Path.{subst}
use nu_moo.Base.Int.{pos, ltb_ℤ, leb_ℤ}
use nu_moo.Db.Object.{Objid, nothing, same, same_iff, ne-same, Object}
use nu_moo.Db.Objects.Creation.{after, new_count, fresh, new_fresh, new_cache, old_object}
use nu_moo.Db.State.{VcEntry, Db, dbpriv_find_object}
use nu_moo.Db.Verbs.{Handle, first_index, find_verbdef_by_name, ancestor_loop}
use nu_moo.Db.Verbs.Cached.{Right, RightTables, CacheOk}
use nu_moo.Db.Verbs.Callable.{callable}
use nu_moo.Db.Verbs.Kept.{Ok}
use nu_moo.Db.Verbs.Lookup.{
  loop_missing, loop_found, from_hit, from_miss, no_fuel, Numbered, no_nothing,
}

module _ (raw : Object) (d : Db) where
  abbrev pub born : Db
  born = after raw d

  -- In the table, and within its bounds.
  find-old :
      (a : Objid) (o : Object)
      → dbpriv_find_object d a ≡ some o
      → dbpriv_find_object born a ≡ some o
  unfolding dbpriv_find_object
  find-old a o e =
      rw (new_count raw d) (elim (Bool-cases (ltb_ℤ a (pos 0) || leb_ℤ (pos d.num_objects) a)) [
        | inl out ↦ cc (e, out)
        | inr inside ↦ rw (wider a inside) (
            old_object raw d a (apart a inside)
            ∙ sym (ap (λ b. if b then none else d.objects a) inside)
            ∙ e)
      ])
    where
      wider :
          (a : Objid)
          → (ltb_ℤ a (pos 0) || leb_ℤ (pos d.num_objects) a) ≡ false
          → (ltb_ℤ a (pos 0) || leb_ℤ (pos (d.num_objects + 1)) a) ≡ false
      wider a inside = ground arith

      apart :
          (a : Objid)
          → (ltb_ℤ a (pos 0) || leb_ℤ (pos d.num_objects) a) ≡ false
          → a ≢ pos d.num_objects
      apart a inside e = ground arith

  -- What was not there is not there, or is the new object.
  find-gone :
      (a : Objid)
      → dbpriv_find_object d a ≡ none
      → (dbpriv_find_object born a ≡ none)
        ⊎ ((dbpriv_find_object born a ≡ some (fresh raw d)) × (a ≡ pos d.num_objects))
  unfolding dbpriv_find_object
  find-gone a e = elim (Bool-cases (ltb_ℤ a (pos 0) || leb_ℤ (pos born.num_objects) a)) [
    | inl out ↦ inl (rw out refl)
    | inr inside ↦ elim (Bool-cases (same a (pos d.num_objects))) [
      | inl new ↦ inr (
        rw inside (ap born.objects ((same_iff a (pos d.num_objects)).0 new) ∙ new_fresh raw d),
        (same_iff a (pos d.num_objects)).0 new,
      )
      | inr old ↦ inl (
          rw inside (
            old_object raw d a (ne-same a (pos d.num_objects) old)
            ∙ sym (
                ap (λ b. if b then none else d.objects a)
                  (was_inside a inside (ne-same a (pos d.num_objects) old)))
            ∙ e))
    ]
  ]
    where
      was_inside :
          (a : Objid)
          → (ltb_ℤ a (pos 0) || leb_ℤ (pos born.num_objects) a) ≡ false
          → a ≢ pos d.num_objects
          → (ltb_ℤ a (pos 0) || leb_ℤ (pos d.num_objects) a) ≡ false
      was_inside a inside ne = ground (arith, new_count raw d)

  fresh-callable : (verb : List ℕ) → callable verb (fresh raw d) ≡ none
  unfolding callable find_verbdef_by_name first_index
  fresh-callable verb = refl

  -- A search that ended before ends with the same result, given one more step.
  born_loop :
      (verb : List ℕ) (k : ℕ) (oid : Objid) {r : Option Handle}
      → ancestor_loop (callable verb) k d oid ≡ some r
      → ancestor_loop (callable verb) (suc k) born oid ≡ some r
  born_loop verb zero oid e = absurd (no_fuel (callable verb) d oid e)
  born_loop verb (suc k) oid e = elim (Option-cases (dbpriv_find_object d oid)) [
    | inl gone ↦ elim (find-gone oid gone) [
      | inl still ↦
          loop_missing (callable verb) born (suc k) oid still
          ∙ sym (loop_missing (callable verb) d k oid gone)
          ∙ e
      | inr (new, place) ↦
          loop_found (callable verb) born (suc k) oid (fresh raw d) new
          ∙ from_miss (callable verb) born (suc k) (fresh raw d) (fresh-callable verb)
          ∙ loop_missing (callable verb) born k nothing (no_nothing born)
          ∙ sym (loop_missing (callable verb) d k oid gone)
          ∙ e
    ]
    | inr (o, there) ↦
        loop_found (callable verb) born (suc k) oid o (find-old oid o there)
        ∙ elim (Option-cases (callable verb o)) [
          | inl pass ↦
              from_miss (callable verb) born (suc k) o pass
              ∙ born_loop verb k o.parent (
                  sym (from_miss (callable verb) d k o pass)
                  ∙ sym (loop_found (callable verb) d k oid o there)
                  ∙ e)
          | inr (h, stop) ↦
              from_hit (callable verb) born (suc k) o h stop
              ∙ sym (from_hit (callable verb) d k o h stop)
              ∙ sym (loop_found (callable verb) d k oid o there)
              ∙ e
        ]
  ]

  born-Right : (e : VcEntry) → Right d e → Right born e
  born-Right e (text, k, run) = (text, suc k, born_loop e.verbname k e.oid_key run)

  born-CacheOk : CacheOk d → CacheOk born
  born-CacheOk ok =
      subst (RightTables born) (sym (ap (λ c. c.vc_table) (new_cache raw d)))
        (go d.verb_cache.vc_table ok)
    where
      go : (m : Option (List (List VcEntry))) → RightTables d m → RightTables born m
      go none right = tt
      go (some table) (size, right) = (
        size,
        All-imp (All (Right d)) (All (Right born)) table
            (λ bucket. All-imp (Right d) (Right born) bucket born-Right) right,
      )

  born-Numbered : Numbered d → Numbered born
  born-Numbered numbered a o there = elim (Option-cases (dbpriv_find_object d a)) [
    | inl gone ↦ elim (find-gone a gone) [
      | inl still ↦ cc (still, there)
      | inr (new, place) ↦ ap (λ x. x.id) (some_injective (sym there ∙ new)) ∙ sym place
    ]
    | inr (x, was) ↦
        ap (λ y. y.id) (some_injective (sym there ∙ find-old a x was)) ∙ numbered a x was
  ]
    where
      some_injective : {u v : Object} → ◌≡◌ {A = Option Object} (some u) (some v) → u ≡ v
      some_injective e = cc e

  -- The creation of an object.
  pub born-Ok : Ok d → Ok born
  born-Ok ok = record { numbered = born-Numbered ok.numbered; cached = born-CacheOk ok.cached }
