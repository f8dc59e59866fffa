-- ===== src/Db/Verbs/Callable.antt =====
-- `db_find_callable_verb` of server/db_verbs.c, with the cache of verbs and without. Counters that
-- only serve statistics are left out.
use mathlib.Core.Option
use nu_moo.Base.{
  ℕ, zero, suc, ◌-◌, ◌%◌, ◌^◌, Bool, true, ◌&&◌, Option, none, some, List, [], ◌∷◌, ◌==◌,
  if◌then◌else◌, length, get_elem?, set, ◌>>=◌,
}
use Prim.Native.Nat.{bit_xor}
use nu_moo.Base.Int.{ℤ, pos, negsuc, ◌==ℤ◌}
use nu_moo.Db.Object.{Objid, nothing, same, Object}
use nu_moo.Db.State.{VcEntry, VerbCache, Db}
use nu_moo.Db.Verbs.{Handle, find_verbdef_by_name, ancestor_loop, ancestors_from, at_place}
use nu_moo.Strings.{mystrcasecmp, str_hash}

-- A verb of the object that may be called, and the object itself if it has verbs.
unfoldable pub callable : List ℕ → Object → Option Handle
callable verb o = Option.map (at_place o) (find_verbdef_by_name o verb true)

unfoldable pub with_verbs : Object → Option Object
with_verbs o = elim o.verbdefs [ [] ↦ none | _ ∷ _ ↦ some o ]

-- `db_find_callable_verb` without VERB_CACHE.
unfoldable pub find_uncached : Db → Objid → (verb : List ℕ) → Option (Option Handle)
unfolding ancestor_loop
find_uncached d oid verb = ancestor_loop (callable verb) (suc d.num_objects) d oid

abbrev pub default_vc_size : ℕ
default_vc_size = 7507

unfoldable pub make_vc_table : ℕ → List (List VcEntry)
make_vc_table zero = []
make_vc_table (suc size) = [] ∷ make_vc_table size

-- `~n` as an unsigned int.
abbrev pub not_word : ℤ → ℕ
not_word (pos n) = 2 ^ 32 - 1 - n % 2 ^ 32
not_word (negsuc n) = n % 2 ^ 32

unfoldable pub vc_hash : List ℕ → Objid → ℕ
vc_hash verb key = bit_xor (str_hash verb) (not_word key)

unfoldable pub vc_hit : (hash : ℕ) → (key : Objid) → (verb : List ℕ) → VcEntry → Bool
vc_hit hash key verb e =
    hash == e.hash && same key e.oid_key && mystrcasecmp verb e.verbname ==ℤ pos 0

unfoldable pub find_entry : (VcEntry → Bool) → List VcEntry → Option VcEntry
find_entry test [] = none
find_entry test (e ∷ es) = let rest = find_entry test es in if test e then some e else rest

-- `vc->h`, which is null where no verb was found.
abbrev pub entry_handle : VcEntry → Option Handle
entry_handle e = Option.map (λ i. record { definer = e.definer; verbdef = i }) e.verbdef

abbrev pub new_entry : ℕ → Objid → List ℕ → Option Handle → VcEntry
new_entry hash key verb none = record {
  hash = hash;
  oid_key = key;
  verbname = verb;
  definer = nothing;
  verbdef = none;
}
new_entry hash key verb (some h) = record {
  hash = hash;
  oid_key = key;
  verbname = verb;
  definer = h.definer;
  verbdef = some h.verbdef;
}

abbrev pub key_of : Option Object → Objid
key_of none = nothing
key_of (some o) = o.id

-- The table, which is made at the first call.
abbrev pub table_of : VerbCache → List (List VcEntry)
table_of c = elim c.vc_table [ none ↦ make_vc_table default_vc_size | some table ↦ table ]

abbrev pub with_table : Db → List (List VcEntry) → Db
with_table d table = record d { verb_cache = record d.verb_cache { vc_table = some table } }

-- The search after a miss, from the first object with verbs.
abbrev pub search_from : Db → List ℕ → Option Object → Option (Option Handle)
search_from d verb none = some none
search_from d verb (some o) = ancestors_from (callable verb) (suc d.num_objects) d o

-- What follows the look into the bucket: a hit, or the search and a new entry.
unfoldable pub use_entry :
    Db
    → (table : List (List VcEntry)) → (hash : ℕ) → (verb : List ℕ) → (first : Option Object)
    → (bucket : List VcEntry) → Option VcEntry
    → Option (Option Handle × Db)
use_entry d table hash verb first bucket (some e) = some (entry_handle e, with_table d table)
use_entry d table hash verb first bucket none = do
  h ← search_from d verb first
  some (
    h,
    with_table d (set table (hash % length table) (new_entry hash (key_of first) verb h ∷ bucket)),
  )

unfoldable pub look_in_cache : Db → (verb : List ℕ) → Option Object → Option (Option Handle × Db)
look_in_cache d verb first =
    let table = table_of d.verb_cache in
    let hash = vc_hash verb (key_of first) in
    do
      bucket ← get_elem? table (hash % length table)
      use_entry d table hash verb first bucket (find_entry (vc_hit hash (key_of first) verb) bucket)

unfoldable pub db_find_callable_verb : Objid → (verb : List ℕ) → Db → Option (Option Handle × Db)
unfolding ancestor_loop
db_find_callable_verb oid verb d = do
  first ← ancestor_loop with_verbs (suc d.num_objects) d oid
  look_in_cache d verb first
