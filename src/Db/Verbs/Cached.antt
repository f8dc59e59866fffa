-- ===== src/Db/Verbs/Cached.antt =====
-- The cache of verbs never changes what `db_find_callable_verb` finds (server/db_verbs.c).
use mathlib.Core.Option
use nu_moo.Base.{
  ℕ, zero, suc, ◌%◌, ◌<◌, ◌≡◌, refl, sym, ap, ◌∙◌, inl, inr, Bool, true, ◌&&◌, ◌||◌, not, Option,
  none, some, List, [], ◌∷◌, arith, Bool-cases, length, get_elem?, set, get_elem?-lt, All-get,
  All-set, All-imp, length-set, All,
}
use mathlib.Core.Path.{subst, fun_ext}
use nu_moo.Base.Int.{pos, ==ℤ_iff}
use nu_moo.Db.Object.{Objid, same_iff, Object}
use nu_moo.Db.State.{VcEntry, VerbCache, Db, dbpriv_find_object}
use nu_moo.Db.Verbs.{
  Handle, vf_exec, has_flag?, first_index, find_verbdef_by_name, ancestor_loop, at_place,
}
use nu_moo.Db.Verbs.Callable.{
  callable, find_uncached, default_vc_size, make_vc_table, vc_hash, vc_hit, find_entry,
  entry_handle, new_entry, key_of, table_of, with_table, search_from, use_entry, look_in_cache,
  db_find_callable_verb,
}
use nu_moo.Db.Verbs.Lookup.{
  ancestor_loop_unique, Alike, loop-Alike, Numbered, search-Begins, Begins-key,
}
use nu_moo.Strings.{mystrcasecmp}
use nu_moo.Strings.Case.{NonNul, ◌≈◌, casecmp-eq}
use nu_moo.Strings.Verb.{verbcasecmp-≈}

-- What an entry says is what the search from the object of its key finds.
abbrev pub Right : Db → VcEntry → Type 0
Right d e =
    NonNul e.verbname
    × (k : ℕ) × (ancestor_loop (callable e.verbname) k d e.oid_key ≡ some (entry_handle e))

abbrev pub RightTable : Db → List (List VcEntry) → Type 0
RightTable d table = (0 < length table) × All (All (Right d)) table

abbrev pub RightTables : Db → Option (List (List VcEntry)) → Type 0
RightTables d none = Unit
RightTables d (some table) = RightTable d table

-- Every entry of the cache is right, and the table is not empty.
abbrev pub CacheOk : Db → Type 0
CacheOk d = RightTables d d.verb_cache.vc_table

-- `d` with another cache.
abbrev pub with_cache : Db → VerbCache → Db
with_cache d c = record d { verb_cache = c }

-- A state in which the search finds the same: what is right stays right.
module _ (d d' : Db)
    (alike : (verb : List ℕ) (a : Objid)
      → Alike (callable verb) (dbpriv_find_object d a) (dbpriv_find_object d' a)) where
  Right-Alike : (e : VcEntry) → Right d e → Right d' e
  Right-Alike e (text, k, run) =
      (text, k, loop-Alike (callable e.verbname) d d' (alike e.verbname) k e.oid_key ∙ run)

  pub RightTable-Alike : (table : List (List VcEntry)) → RightTable d table → RightTable d' table
  RightTable-Alike table (size, right) = (
    size,
    All-imp (All (Right d)) (All (Right d')) table
        (λ bucket. All-imp (Right d) (Right d') bucket Right-Alike) right,
  )

-- A change of the cache changes no search.
with_cache-Alike :
    (d : Db) (c : VerbCache) (verb : List ℕ) (a : Objid)
    → Alike (callable verb) (dbpriv_find_object d a) (dbpriv_find_object (with_cache d c) a)
unfolding dbpriv_find_object
with_cache-Alike d c verb a = go (dbpriv_find_object d a)
  where
    go : (m : Option Object) → Alike (callable verb) m m
    go none = tt
    go (some o) = (refl, refl)

RightTable-with_cache :
    (d : Db) (c : VerbCache) (table : List (List VcEntry))
    → RightTable d table
    → RightTable (with_cache d c) table
RightTable-with_cache d c = RightTable-Alike d (with_cache d c) (with_cache-Alike d c)

make_vc_table-RightTable : (d : Db) (size : ℕ) → All (All (Right d)) (make_vc_table size)
unfolding make_vc_table
make_vc_table-RightTable d zero = tt
make_vc_table-RightTable d (suc size) = (tt, make_vc_table-RightTable d size)

length-make_vc_table : (size : ℕ) → length (make_vc_table size) ≡ size
unfolding make_vc_table
length-make_vc_table zero = refl
length-make_vc_table (suc size) = ap suc (length-make_vc_table size)

table_of-RightTable : (d : Db) → CacheOk d → RightTable d (table_of d.verb_cache)
table_of-RightTable d ok = go d.verb_cache.vc_table ok
  where
    go :
        (m : Option (List (List VcEntry)))
        → RightTables d m
        → RightTable d (elim m [ none ↦ make_vc_table default_vc_size | some table ↦ table ])
    go none h = (
      omega (arith, length-make_vc_table default_vc_size),
      make_vc_table-RightTable d default_vc_size,
    )
    go (some table) h = h

find_entry-All :
    (P : VcEntry → Type 0) (test : VcEntry → Bool) (es : List VcEntry) {e : VcEntry}
    → All P es
    → find_entry test es ≡ some e
    → P e × (test e ≡ true)
unfolding find_entry
find_entry-All P test [] h f = cc f
find_entry-All P test (x ∷ es) {e} h f = elim (Bool-cases (test x)) [
  | inl hit ↦ let same : x ≡ e = cc (f, hit) in (subst P same h.0, ap test (sym same) ∙ hit)
  | inr miss ↦ find_entry-All P test es h.1 (cc (f, miss))
]

callable-≈ : (w w' : List ℕ) → w ≈ w' → callable w ≡ callable w'
unfolding callable find_verbdef_by_name
callable-≈ w w' e = fun_ext (λ o.
    ap
      (λ f.
        Option.map (at_place o)
          (first_index (λ v. f v && (not true || has_flag? v.perms vf_exec)) o.verbdefs))
      (fun_ext (λ v. verbcasecmp-≈ v.name w w' e)))

hit-inv :
    (hash : ℕ) (key : Objid) (verb : List ℕ) (e : VcEntry)
    → vc_hit hash key verb e ≡ true
    → (key ≡ e.oid_key) × (mystrcasecmp verb e.verbname ≡ pos 0)
unfolding vc_hit
hit-inv hash key verb e h =
    ground (arith, same_iff key e.oid_key, ==ℤ_iff (mystrcasecmp verb e.verbname) (pos 0))

module _ (d : Db) (verb : List ℕ) (text : NonNul verb) where
  -- An entry that is hit says what the search finds.
  hit-Right :
      (hash : ℕ) (k : ℕ) (key : Objid) (e : VcEntry) (r : Option Handle)
      → Right d e
      → vc_hit hash key verb e ≡ true
      → ancestor_loop (callable verb) k d key ≡ some r
      → entry_handle e ≡ r
  hit-Right hash k key e r (name_text, j, run) hit found =
      let (same_key, same_name) = hit-inv hash key verb e hit in
      let names = casecmp-eq verb e.verbname text name_text same_name in
      ancestor_loop_unique (callable e.verbname) d j k e.oid_key run (
        ap (λ body. ancestor_loop body k d e.oid_key) (sym (callable-≈ verb e.verbname names))
        ∙ ap (ancestor_loop (callable verb) k d) (sym same_key)
        ∙ found)

  -- The entry that is made after a miss is right.
  new_entry-Right :
      (hash k : ℕ) (key : Objid) (r : Option Handle)
      → ancestor_loop (callable verb) k d key ≡ some r
      → Right d (new_entry hash key verb r)
  new_entry-Right hash k key none run = (text, k, run)
  new_entry-Right hash k key (some h) run = (text, k, run)

-- The bucket of a hash.
bucket-of :
    (table : List (List VcEntry)) (hash : ℕ)
    → 0 < length table
    → (bucket : List VcEntry) × (get_elem? table (hash % length table) ≡ some bucket)
bucket-of table hash size = get_elem?-lt table (hash % length table) (omega arith)

-- The state after a search, in which only the cache may differ.
abbrev pub Cached : Db → Option Handle → Option (Option Handle × Db) → Type 0
Cached d r result = (c : VerbCache) × (result ≡ some (r, with_cache d c)) × CacheOk (with_cache d c)

module _ (d : Db) (verb : List ℕ) (text : NonNul verb) (first : Option Object) (r : Option Handle)
    (table : List (List VcEntry)) (right : RightTable d table)
    (at_key : ancestor_loop (callable verb) (suc d.num_objects) d (key_of first) ≡ some r)
    (search : search_from d verb first ≡ some r) where
  use_entry-Cached :
      (hash : ℕ) (bucket : List VcEntry) (m : Option VcEntry)
      → All (Right d) bucket
      → find_entry (vc_hit hash (key_of first) verb) bucket ≡ m
      → Cached d r (use_entry d table hash verb first bucket m)
  unfolding use_entry
  use_entry-Cached hash bucket (some e) entries found =
      let (right_e, hit) =
        find_entry-All (Right d) (vc_hit hash (key_of first) verb) bucket entries found in
      (
        record d.verb_cache { vc_table = some table },
        ap (λ h. some (h, with_table d table))
            (hit-Right d verb text hash (suc d.num_objects) (key_of first) e r right_e hit at_key),
        RightTable-with_cache d _ table right,
      )
  use_entry-Cached hash bucket none entries found =
      let table' =
        set table (hash % length table) (new_entry hash (key_of first) verb r ∷ bucket) in
      (
        record d.verb_cache { vc_table = some table' },
        rw search refl,
        RightTable-with_cache d _ table' (
          rw
              (length-set table (hash % length table)
                (new_entry hash (key_of first) verb r ∷ bucket))
              right.0,
          All-set (All (Right d)) table (hash % length table) right.1 (
            new_entry-Right d verb text hash (suc d.num_objects) (key_of first) r at_key,
            entries,
          ),
        ),
      )

-- Where the cache is right and the numbers of objects are, `db_find_callable_verb` returns what the
-- search without a cache returns, if that ends: the state then differs in the cache only, and the
-- cache is right again.
pub db_find_callable_verb_lem :
    (oid : Objid) (verb : List ℕ) (d : Db) (r : Option Handle)
    → Numbered d
    → CacheOk d
    → NonNul verb
    → find_uncached d oid verb ≡ some r
    → (c : VerbCache) × (db_find_callable_verb oid verb d ≡ some (r, with_cache d c))
      × CacheOk (with_cache d c)
unfolding db_find_callable_verb find_uncached look_in_cache
db_find_callable_verb_lem oid verb d r numbered ok text found =
    let (first, run, begins) = search-Begins d numbered verb (suc d.num_objects) oid r found in
    let (at_key, search) = Begins-key d numbered verb first r begins in
    let table = table_of d.verb_cache in
    let hash = vc_hash verb (key_of first) in
    let right = table_of-RightTable d ok in
    let (bucket, at_bucket) = bucket-of table hash right.0 in
    let (c, result, right') =
      use_entry-Cached d verb text first r table right at_key search hash bucket
        (find_entry (vc_hit hash (key_of first) verb) bucket)
        (All-get (All (Right d)) table (hash % length table) right.1 at_bucket) refl in
    (c, rw run (rw at_bucket result), right')
