-- ===== src/Commands/Match.antt =====
-- The objects that a name may mean for a player (server/match.c). The property "aliases" is read
-- through the function `find_property`: the value that `db_find_property` finds, if any.
pub mod Names
pub mod Which
pub mod Contents
pub mod Verdict
use nu_moo.Base.{
  ℕ, zero, suc, ◌+◌, ◌-◌, ◌*◌, ◌≤◌, ◌<◌, ◌≡◌, refl, ◌≢◌, Bool, true, false, ◌&&◌, ◌||◌, not, Option,
  none, some, List, [], ◌∷◌, ◌++◌, arith, ◌==◌, if◌then◌else◌, length, codes, drop, ◌>>=◌, get_or,
}
use nu_moo.Base.Int.{
  ℤ, pos, negsuc, pos_part, neg_part, ◌+ℤ◌, ◌-ℤ◌, ◌≤ℤ◌, ltb_ℤ, leb_ℤ, ◌==ℤ◌, ==ℤ_iff,
}
use nu_moo.Db.Object.{Objid, nothing, same}
use nu_moo.Db.Objects.{db_object_name, db_object_location, db_for_all_contents}
use nu_moo.Db.State.{Db, valid}
use nu_moo.Db.Verbs.Handles.{first_byte, is_empty}
use nu_moo.Strings.{mystrcasecmp, mystrncasecmp}
use nu_moo.Value.{Value, str, list, to_list}

abbrev pub ambiguous : Objid
ambiguous = negsuc 1

abbrev pub failed_match : Objid
failed_match = negsuc 2

pub record MatchData : Type 0 where
  pub exact : Objid
  pub partial : Objid

-- One of the names of the object `oid`: whether the search stops. Where the first bytes compare
-- equal, the byte behind them is read.
unfoldable pub match_one : (name : List ℕ) → (oid : Objid) → List ℕ → MatchData → Bool × MatchData
match_one name oid candidate d =
    if mystrncasecmp candidate name (length name) ==ℤ pos 0
    then (if get_or candidate (length name) 0 == 0
        then (if same d.exact nothing || same d.exact oid
            then (false, record d { exact = oid })
            else (true, d))
        else if same d.partial failed_match || same d.partial oid
        then (false, record d { partial = oid })
        else (false, record d { partial = ambiguous }))
    else (false, d)

-- The strings among the aliases.
abbrev pub strings : List Value → List (List ℕ)
strings [] = []
strings (str s ∷ vs) = s ∷ strings vs
strings (v ∷ vs) = strings vs

unfoldable pub names_loop :
    (name : List ℕ) → (oid : Objid) → List (List ℕ) → MatchData → Bool × MatchData
names_loop name oid [] d = (false, d)
names_loop name oid (candidate ∷ candidates) d =
    let (stop, d') = match_one name oid candidate d in
    let rest = names_loop name oid candidates d' in if stop then (true, d') else rest

abbrev pub start : MatchData
start = record { exact = nothing; partial = failed_match }

-- The own name of an object comes before its aliases. The data of the callback are lost where it
-- reads an object that is not there.
abbrev pub with_names :
    (name : List ℕ)
    → (oid : Objid) → List (List ℕ)
    → MatchData
    → Option (List ℕ)
    → Bool × Option MatchData
with_names name oid names m none = (true, none)
with_names name oid names m (some own) =
    let (stop, m') = names_loop name oid (own ∷ names) m in (stop, some m')

module _ (find_property : Db → Objid → List ℕ → Option Value) where
  abbrev pub list_of : Option Value → List Value
  list_of (some (list vs)) = to_list vs
  list_of v = []

  unfoldable pub aliases : Db → Objid → List Value
  aliases d oid = list_of (find_property d oid (codes "aliases"))

  unfoldable pub match_proc :
      Db → (name : List ℕ) → Option MatchData → Objid → Bool × Option MatchData
  match_proc d name none oid = (true, none)
  match_proc d name (some m) oid =
      with_names name oid (strings (aliases d oid)) m (db_object_name d oid)

  -- A step of the loop: the contents of a valid object.
  unfoldable pub match_step :
      Db → (name : List ℕ) → Objid → Option MatchData → Option (Bool × Option MatchData)
  match_step d name oid m =
      if valid d oid then db_for_all_contents (match_proc d name) d oid m else some (false, m)

  abbrev pub best : MatchData → Objid
  best m = if same m.exact nothing then m.partial else m.exact

  -- What follows the first and the second step. The search stops at a second object that matches
  -- exactly only.
  abbrev pub after_second : Bool × Option MatchData → Option Objid
  after_second second = do both ← second.1; some (if second.0 then ambiguous else best both)

  abbrev pub after_first : Db → (name : List ℕ) → Objid → Bool × Option MatchData → Option Objid
  after_first d name loc first = do
    found ← first.1
    if first.0 then some ambiguous else (match_step d name loc (some found) >>= after_second)

  unfoldable pub match_contents : Db → (player : Objid) → (name : List ℕ) → Option Objid
  match_contents d player name = if not (valid d player) then some failed_match else (do
    loc ← db_object_location d player
    first ← match_step d name player (some start)
    after_first d name loc first)

  -- `strtol` is the C library's; its long and object numbers both have 64 bits.
  unfoldable pub match_object :
      (strtol : List ℕ → ℤ × List ℕ) → Db → (player : Objid) → (name : List ℕ) → Option Objid
  match_object strtol d player name =
      if is_empty name
      then some nothing
      else if first_byte name == 35
      then (let (number, rest) = strtol (drop 1 name) in
          some (if not (is_empty rest) || not (valid d number) then failed_match else number))
      else if not (valid d player)
      then some failed_match
      else if mystrcasecmp name (codes "me") ==ℤ pos 0
      then some player
      else if mystrcasecmp name (codes "here") ==ℤ pos 0
      then db_object_location d player
      else match_contents d player name
