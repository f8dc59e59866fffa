-- ===== src/Tests/Verbs.antt =====
-- The theorems on verbs, on an object #0 that defines a verb and its child #1.
use nu_moo.Base.{
  ℕ, zero, suc, ◌≡◌, refl, sym, ap, none, some, List, [], ◌∷◌, arith, codes, some_injective,
}
use nu_moo.Base.Int.{pos, negsuc}
use nu_moo.Db.Links.Chain.{Distinct}
use nu_moo.Db.Object.{Objid, nothing, same, Verbdef, Object, Objects, write}
use nu_moo.Db.State.{VerbCache, Db, db_priv_affected_callable_verb_lookup, dbpriv_find_object}
use nu_moo.Db.Verbs.{Handle, prep_none, make_perms, new_verb, db_add_verb, find_verbdef_by_name}
use nu_moo.Db.Verbs.Cached.{CacheOk, with_cache, db_find_callable_verb_lem}
use nu_moo.Db.Verbs.Callable.{callable, find_uncached, db_find_callable_verb}
use nu_moo.Db.Verbs.Line.{Line, first_along, find_uncached_lem}
use nu_moo.Db.Verbs.Lookup.{Numbered}
use nu_moo.Db.Verbs.Steps.{add_verb, stay, go_on, Reach-find_callable_verb}
use nu_moo.Strings.{cmap, match_name, accepts, verb_loop, verbcasecmp}
use nu_moo.Strings.Case.{NonNul}

abbrev look : List ℕ
look = codes "look"

abbrev verb : Verbdef
verb = record {
  name = codes "l*ook examine";
  program = none;
  owner = pos 0;
  perms = 4;
  prep = prep_none;
}

abbrev kin_object : (oid parent : Objid) → List Verbdef → Object
kin_object oid parent verbs = record {
  id = oid;
  owner = pos 0;
  location = nothing;
  contents = nothing;
  next = nothing;
  parent = parent;
  child = nothing;
  sibling = nothing;
  name = [];
  flags = 0;
  verbdefs = verbs;
  propdefs = record { max_length = 0; l = [] };
  propval = [];
  waif_propdefs = none;
}

abbrev parent_object : Object
parent_object = kin_object (pos 0) nothing (verb ∷ [])

abbrev child_object : Object
child_object = kin_object (pos 1) (pos 0) []

abbrev family : Objects
family (pos zero) = some parent_object
family (pos (suc zero)) = some child_object
family (pos (suc (suc n))) = none
family (negsuc n) = none

abbrev kin : Db
kin = record {
  objects = family;
  num_objects = 2;
  max_objects = 100;
  all_users = [];
  verb_cache = record { vc_table = none; generation = 0 };
}

abbrev found_verb : Handle
found_verb = record { definer = pos 0; verbdef = 0 }

kin-Numbered : Numbered kin
unfolding dbpriv_find_object
kin-Numbered (pos zero) o e = ap (λ x. x.id) (some_injective (sym e))
kin-Numbered (pos (suc zero)) o e = ap (λ x. x.id) (some_injective (sym e))
kin-Numbered (pos (suc (suc n))) o e = absurd (ground (arith, e))
kin-Numbered (negsuc n) o e = absurd (ground (arith, e))

look-NonNul : NonNul look
look-NonNul = (
  (omega arith, omega arith),
  ((omega arith, omega arith), ((omega arith, omega arith), ((omega arith, omega arith), tt))),
)

look-found : find_uncached kin (pos 1) look ≡ some (some found_verb)
unfolding find_uncached dbpriv_find_object callable find_verbdef_by_name verbcasecmp verb_loop
    accepts match_name cmap
look-found = refl

db_find_callable_verb_lem_example :
    (c : VerbCache) × (db_find_callable_verb (pos 1) look kin
      ≡ some (some found_verb, with_cache kin c))
    × CacheOk (with_cache kin c)
db_find_callable_verb_lem_example =
    db_find_callable_verb_lem (pos 1) look kin (some found_verb) kin-Numbered tt look-NonNul
      look-found

-- The child gets a verb of its own.
abbrev own_verb : Verbdef
own_verb = record {
  name = codes "look";
  program = none;
  owner = pos 1;
  perms = 4;
  prep = prep_none;
}

abbrev grown : Db
grown = record kin { objects = write family (pos 1) (kin_object (pos 1) (pos 0) (own_verb ∷ [])) }

grown-added : db_add_verb (pos 1) (codes "look") (pos 1) 4 0 prep_none 0 kin ≡ some (1, grown)
unfolding db_add_verb dbpriv_find_object new_verb db_priv_affected_callable_verb_lookup make_perms
grown-added = refl

abbrev own_found : Handle
own_found = record { definer = pos 1; verbdef = 0 }

grown-found : find_uncached grown (pos 1) look ≡ some (some own_found)
unfolding find_uncached dbpriv_find_object write same callable find_verbdef_by_name verbcasecmp
    verb_loop accepts match_name cmap
grown-found = refl

Reach-find_callable_verb_example :
    (c : VerbCache) × (db_find_callable_verb (pos 1) look grown
      ≡ some (some own_found, with_cache grown c))
Reach-find_callable_verb_example =
    Reach-find_callable_verb (pos 1) look (some own_found)
      (record { numbered = kin-Numbered; cached = tt })
      (go_on stay (add_verb (pos 1) (codes "look") (pos 1) 4 0 prep_none 0 1 grown-added))
      look-NonNul grown-found

kin-Line : Line kin (pos 1) (pos 1 ∷ pos 0 ∷ [])
unfolding dbpriv_find_object
kin-Line = (refl, child_object, refl, (refl, parent_object, refl, refl))

kin-Distinct : Distinct (pos 1 ∷ pos 0 ∷ [])
unfolding same
kin-Distinct = (refl, (refl, tt))

find_uncached_lem_example :
    find_uncached kin (pos 1) look ≡ some (first_along (callable look) kin (pos 1 ∷ pos 0 ∷ []))
find_uncached_lem_example =
    find_uncached_lem kin (pos 1) look (pos 1 ∷ pos 0 ∷ []) kin-Line kin-Distinct
