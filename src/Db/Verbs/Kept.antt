-- ===== src/Db/Verbs/Kept.antt =====
-- Changes of the state under which the cache of verbs stays right (server/db_verbs.c).
use nu_moo.Base.{
  ℕ, ◌<◌, ◌≡◌, refl, sym, ap, ◌∙◌, inl, inr, Bool, true, false, ◌||◌, Option, none, some, List, [],
  ◌∷◌, map, if◌then◌else◌, Bool-cases, Option-cases, length, length-map, All,
}
use mathlib.Core.Path.{subst, ap₂}
use nu_moo.Base.Int.{pos, ltb_ℤ, leb_ℤ}
use nu_moo.Db.Object.{Objid, same, same_iff, Object, Objects, write}
use nu_moo.Db.State.{
  VcEntry, VerbCache, Db, db_priv_affected_callable_verb_lookup, dbpriv_find_object,
}
use nu_moo.Db.Verbs.Cached.{Right, RightTable, RightTables, CacheOk, RightTable-Alike}
use nu_moo.Db.Verbs.Callable.{callable}
use nu_moo.Db.Verbs.Lookup.{Alike, Numbered}

-- The numbers of objects are right, and so is the cache.
pub record Ok (d : Db) : Type 0 where
  pub numbered : Numbered d
  pub cached : CacheOk d

-- What the search for callable verbs sees of an object.
abbrev pub Seen : Option Object → Option Object → Type 0
Seen none none = Unit
Seen none (some o') = ⊥
Seen (some o) none = ⊥
Seen (some o) (some o') =
    (o'.id ≡ o.id) × (o'.parent ≡ o.parent) × ((verb : List ℕ) → callable verb o' ≡ callable verb o)

pub Seen-refl : (m : Option Object) → Seen m m
Seen-refl none = tt
Seen-refl (some o) = (refl, refl, λ verb. refl)

Seen-Alike : (verb : List ℕ) (m m' : Option Object) → Seen m m' → Alike (callable verb) m m'
Seen-Alike verb none none s = tt
Seen-Alike verb none (some o') s = s
Seen-Alike verb (some o) none s = s
Seen-Alike verb (some o) (some o') (ids, parents, verbs) = (parents, verbs verb)

module _ (d d' : Db)
    (seen : (a : Objid) → Seen (dbpriv_find_object d a) (dbpriv_find_object d' a)) where
  pub Seen-Numbered : Numbered d → Numbered d'
  Seen-Numbered numbered a o' there =
      go (dbpriv_find_object d a) refl (subst (Seen (dbpriv_find_object d a)) there (seen a))
    where
      go : (m : Option Object) → dbpriv_find_object d a ≡ m → Seen m (some o') → o'.id ≡ a
      go none e s = absurd s
      go (some o) e (ids, parents, verbs) = ids ∙ numbered a o e

  -- A change that the search does not see.
  pub Seen-Ok : d'.verb_cache.vc_table ≡ d.verb_cache.vc_table → Ok d → Ok d'
  Seen-Ok tables ok = record {
    numbered = Seen-Numbered ok.numbered;
    cached = subst (RightTables d') (sym tables) (go d.verb_cache.vc_table ok.cached);
  }
    where
      go : (m : Option (List (List VcEntry))) → RightTables d m → RightTables d' m
      go none right = tt
      go (some table) right =
          RightTable-Alike d d'
            (λ verb a. Seen-Alike verb (dbpriv_find_object d a) (dbpriv_find_object d' a) (seen a))
            table right

cleared : (table : List (List VcEntry)) (d : Db) → All (All (Right d)) (map (λ bucket. []) table)
cleared [] d = tt
cleared (b ∷ table) d = (tt, cleared table d)

flush-none :
    (c : VerbCache) → c.vc_table ≡ none → (db_priv_affected_callable_verb_lookup c).vc_table ≡ none
unfolding db_priv_affected_callable_verb_lookup
flush-none c e = rw (db_priv_affected_callable_verb_lookup, e) e

flush-some :
    (c : VerbCache) (table : List (List VcEntry))
    → c.vc_table ≡ some table
    → (db_priv_affected_callable_verb_lookup c).vc_table ≡ some (map (λ bucket. []) table)
unfolding db_priv_affected_callable_verb_lookup
flush-some c table e = rw (db_priv_affected_callable_verb_lookup, e) refl

-- Once the cache is cleared it is right, whatever else is changed.
pub flushed-CacheOk :
    (d d' : Db)
    → d'.verb_cache ≡ db_priv_affected_callable_verb_lookup d.verb_cache
    → CacheOk d
    → CacheOk d'
flushed-CacheOk d d' e ok = elim (Option-cases d.verb_cache.vc_table) [
  | inl gone ↦
      subst (RightTables d') (sym (ap (λ c. c.vc_table) e ∙ flush-none d.verb_cache gone)) tt
  | inr (table, there) ↦
      let right : RightTable d table = subst (RightTables d) there ok in
      let size : length (map {B = List VcEntry} (λ bucket. []) table) ≡ length table =
        length-map table (λ bucket. []) in
      subst (RightTables d') (sym (ap (λ c. c.vc_table) e ∙ flush-some d.verb_cache table there))
        (subst (λ n. 0 < n) (sym size) right.0, cleared table d')
]

module _ (h : Objects) (p : Objid) (o' : Object) (a : Objid) where
  write_self : same a p ≡ true → write h p o' a ≡ some o'
  unfolding write
  write_self hit = rw hit refl

  write_other : same a p ≡ false → write h p o' a ≡ h a
  unfolding write
  write_other miss = rw miss refl

-- One object written over another.
module _ (d : Db) (p : Objid) (o o' : Object) (here : d.objects p ≡ some o) where
  -- the state with the object, whatever else is changed
  module _ (d' : Db) (objects : d'.objects ≡ write d.objects p o')
      (count : d'.num_objects ≡ d.num_objects) where
    find-write :
        (a : Objid)
        → dbpriv_find_object d' a ≡ (
            if ltb_ℤ a (pos 0) || leb_ℤ (pos d.num_objects) a then none else write d.objects p o' a)
    unfolding dbpriv_find_object
    find-write a =
        ap₂ (λ (n : ℕ) (h : Objects). if ltb_ℤ a (pos 0) || leb_ℤ (pos n) a then none else h a)
          count objects

    pub write-Seen :
        Seen (some o) (some o')
        → (a : Objid) → Seen (dbpriv_find_object d a) (dbpriv_find_object d' a)
    unfolding dbpriv_find_object
    write-Seen s a =
        subst (Seen (dbpriv_find_object d a)) (sym (find-write a))
          (go (ltb_ℤ a (pos 0) || leb_ℤ (pos d.num_objects) a))
      where
        at_a : Seen (d.objects a) (write d.objects p o' a)
        at_a = elim (Bool-cases (same a p)) [
          | inl hit ↦
              let a-p = (same_iff a p).0 hit in
              subst (λ m. Seen m (write d.objects p o' a)) (sym (ap d.objects a-p ∙ here))
                (subst (Seen (some o)) (sym (write_self d.objects p o' a hit)) s)
          | inr miss ↦
              subst (Seen (d.objects a)) (sym (write_other d.objects p o' a miss))
                (Seen-refl (d.objects a))
        ]

        go :
            (b : Bool)
            → Seen (if b then none else d.objects a) (if b then none else write d.objects p o' a)
        go true = tt
        go false = at_a

    pub write-Numbered : o'.id ≡ o.id → Numbered d → Numbered d'
    unfolding dbpriv_find_object
    write-Numbered ids numbered a x there =
        elim (Bool-cases (ltb_ℤ a (pos 0) || leb_ℤ (pos d.num_objects) a)) [
          | inl out ↦ cc (there, find-write a, in_bounds a true out)
          | inr inside ↦
              let at_a : write d.objects p o' a ≡ some x =
                sym (find-write a ∙ in_bounds a false inside) ∙ there in
              elim (Bool-cases (same a p)) [
                | inl hit ↦
                    let a-p = (same_iff a p).0 hit in
                    let x-o' : o' ≡ x =
                      some_injective (sym (write_self d.objects p o' a hit) ∙ at_a) in
                    sym (ap (λ y. y.id) x-o')
                    ∙ ids
                    ∙ numbered a o (rw inside (ap d.objects a-p ∙ here))
                | inr miss ↦
                    numbered a x (rw inside (sym (write_other d.objects p o' a miss) ∙ at_a))
              ]
        ]
      where
        in_bounds :
            (a : Objid) (b : Bool)
            → (ltb_ℤ a (pos 0) || leb_ℤ (pos d.num_objects) a) ≡ b
            → (if ltb_ℤ a (pos 0) || leb_ℤ (pos d.num_objects) a
                then none
                else write d.objects p o' a)
              ≡ (if b then none else write d.objects p o' a)
        in_bounds a b e = ap (λ c. if c then none else write d.objects p o' a) e

        some_injective : {u v : Object} → ◌≡◌ {A = Option Object} (some u) (some v) → u ≡ v
        some_injective e = cc e
