-- ===== src/Db/State.antt =====
-- The state of server/db_objects.c, and its functions on objects as such. An operation takes the
-- state and returns the new one; where the source panics, or follows a null or wild pointer, it
-- returns `none`. `raw` stands for what a freshly allocated object holds.
use nu_moo.Base.{
  ◌>>=◌, ℕ, zero, suc, ◌+◌, ◌*◌, Bool, true, false, ◌||◌, Option, none, some, List, [], map, leb,
  ◌==◌, if◌then◌else◌,
}
use nu_moo.Base.Int.{pos, ◌-ℤ◌, ltb_ℤ, leb_ℤ}
use nu_moo.Db.Object.{Objid, nothing, same, Object, Objects}

-- The cache of server/db_verbs.c: a table of buckets once it is made, and a generation number. An
-- entry holds its hash, its key, the verb's name, the definer and the place of the verb, if any.
pub record VcEntry : Type 0 where
  pub hash : ℕ
  pub oid_key : Objid
  pub verbname : List ℕ
  pub definer : Objid
  pub verbdef : Option ℕ

pub record VerbCache : Type 0 where
  pub vc_table : Option (List (List VcEntry))
  pub generation : ℕ

pub record Db : Type 0 where
  pub objects : Objects
  pub num_objects : ℕ
  pub max_objects : ℕ
  pub all_users : List Objid
  pub verb_cache : VerbCache

unfoldable pub db_priv_affected_callable_verb_lookup : VerbCache → VerbCache
db_priv_affected_callable_verb_lookup c = elim c.vc_table [
  | none ↦ c
  | some table ↦ record {
    vc_table = some (map (λ bucket. []) table);
    generation = c.generation + 1;
  }
]

unfoldable pub dbpriv_find_object : Db → Objid → Option Object
dbpriv_find_object d oid =
    if ltb_ℤ oid (pos 0) || leb_ℤ (pos d.num_objects) oid then none else d.objects oid

abbrev pub is_some {ℓ} : {A : Type ℓ} → Option A → Bool
is_some none = false
is_some (some a) = true

unfoldable pub valid : Db → Objid → Bool
unfolding dbpriv_find_object
valid d oid = is_some (dbpriv_find_object d oid)

unfoldable pub db_last_used_objid : Db → Objid
db_last_used_objid d = pos d.num_objects -ℤ pos 1

-- The loop that lowers `num_objects`.
unfoldable pub reset_loop : Objects → ℕ → Option ℕ
reset_loop h zero = none
reset_loop h (suc n) = elim (h (pos n)) [ none ↦ reset_loop h n | some o ↦ some (suc n) ]

unfoldable pub db_reset_last_used_objid : Db → Option Db
unfolding reset_loop
db_reset_last_used_objid d = do
  n ← reset_loop d.objects d.num_objects
  some (record d { num_objects = n })

unfoldable pub ensure_new_object : Db → Db
ensure_new_object d =
    let m = (if d.max_objects == 0 then 100 else d.max_objects) in
    record d { max_objects = if leb m d.num_objects then m * 2 else m }

-- objects[oid] = p
unfoldable pub put : Objects → Objid → Option Object → Objects
put h oid p a = if same a oid then p else h a

unfoldable pub dbpriv_new_object : Object → Db → Object × Db
unfolding ensure_new_object put
dbpriv_new_object raw d =
    let d' = ensure_new_object d in
    let o = record raw { id = pos d'.num_objects; waif_propdefs = none } in
    (
      o,
      record d' {
        objects = put d'.objects (pos d'.num_objects) (some o);
        num_objects = d'.num_objects + 1;
      },
    )

unfoldable pub dbpriv_new_recycled_object : Db → Db
unfolding ensure_new_object put
dbpriv_new_recycled_object d =
    let d' = ensure_new_object d in
    record d' {
      objects = put d'.objects (pos d'.num_objects) none;
      num_objects = d'.num_objects + 1;
    }

-- The field `owner` stays as it was allocated.
unfoldable pub db_create_object : Object → Db → Objid × Db
unfolding dbpriv_new_object
db_create_object raw d =
    let (o, d') = dbpriv_new_object raw d in
    (
      o.id,
      record d' {
        objects = put d'.objects o.id (
            some (record o {
              name = [];
              flags = 0;
              parent = nothing;
              child = nothing;
              sibling = nothing;
              location = nothing;
              contents = nothing;
              next = nothing;
              propval = [];
              propdefs = record { max_length = 0; l = [] };
              verbdefs = [];
            }));
      },
    )
