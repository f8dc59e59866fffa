-- ===== src/Commands/Parse.antt =====
-- `parse_command` of server/parse_cmd.c: the words of a command and the objects they mean.
pub mod Split
pub mod Total
use nu_moo.Base.{
  ℕ, zero, suc, ◌+◌, ◌-◌, ◌*◌, ◌≤◌, ◌<◌, ◌≡◌, refl, ◌≢◌, Bool, true, false, ◌&&◌, ◌||◌, not, Option,
  none, some, List, [], ◌∷◌, ◌++◌, map, arith, ◌==◌, if◌then◌else◌, length, codes, take, drop,
  ◌>>=◌,
}
use nu_moo.Base.Int.{ℤ, pos, negsuc, ◌+ℤ◌}
use nu_moo.Commands.Match.{match_object}
use nu_moo.Commands.Preps.{Prep, db_find_prep}
use nu_moo.Commands.Words.{quote?, backslash?, words_of, build_string}
use nu_moo.Db.Object.{Objid, nothing}
use nu_moo.Db.State.{Db}
use nu_moo.Db.Verbs.{prep_none}
use nu_moo.Strings.{space?, skip_spaces}
use nu_moo.Value.{Value, str}

-- `args` are the strings of the words behind the verb. `prep` is PREP_NONE where there is none.
pub record ParsedCommand : Type 0 where
  pub verb : List ℕ
  pub argstr : List ℕ
  pub args : List Value
  pub dobjstr : List ℕ
  pub dobj : Objid
  pub prepstr : List ℕ
  pub prep : ℤ
  pub iobjstr : List ℕ
  pub iobj : Objid

-- What is left of a command behind its verb, however it is quoted.
unfoldable pub skip_verb : (in_quotes : Bool) → List ℕ → List ℕ
skip_verb q [] = []
skip_verb q (c ∷ []) = if not q && space? c then c ∷ [] else []
skip_verb q (c ∷ b ∷ s) =
    let quoted = skip_verb (not q) (b ∷ s) in
    let escaped = skip_verb q s in
    let plain = skip_verb q (b ∷ s) in
    if not q && space? c
    then c ∷ b ∷ s
    else if quote? c
    then quoted
    else if backslash? c
    then escaped
    else plain

-- The buffer whose words are read, and `argstr`.
abbrev pub special : (verb argstr : List ℕ) → List ℕ × List ℕ
special verb argstr = (verb ++ 32 ∷ argstr, argstr)

unfoldable pub buffer : List ℕ → List ℕ × List ℕ
buffer [] = ([], [])
buffer (c ∷ s) =
    if c == 34
    then special (codes "say") s
    else if c == 58
    then special (codes "emote") s
    else if c == 59
    then special (codes "eval") s
    else (c ∷ s, skip_spaces (skip_verb false (c ∷ s)))

-- The number of words from `first` to `last`, and the first word behind them.
abbrev pub nat_of : ℤ → ℕ
nat_of (pos n) = n
nat_of (negsuc n) = 0

abbrev pub behind : Prep → ℕ
behind p = nat_of (p.last +ℤ pos 1)

abbrev pub no_preposition :
    (verb argstr : List ℕ) → (argv : List (List ℕ)) → (dobj : Objid) → ParsedCommand
no_preposition verb argstr argv dobj = record {
  verb = verb;
  argstr = argstr;
  args = map str argv;
  dobjstr = build_string argv;
  dobj = dobj;
  prepstr = [];
  prep = prep_none;
  iobjstr = [];
  iobj = nothing;
}

abbrev pub preposition :
    (verb argstr : List ℕ) → (argv : List (List ℕ)) → Prep → (dobj iobj : Objid) → ParsedCommand
preposition verb argstr argv p dobj iobj = record {
  verb = verb;
  argstr = argstr;
  args = map str argv;
  dobjstr = build_string (take p.first argv);
  dobj = dobj;
  prepstr = build_string (take (behind p - p.first) (drop p.first argv));
  prep = pos p.prep;
  iobjstr = build_string (drop (behind p) argv);
  iobj = iobj;
}

module _ (find_property : Db → Objid → List ℕ → Option Value) (strtol : List ℕ → ℤ × List ℕ)
    (d : Db) (user : Objid) where
  -- The object that a string means; no string at all means none.
  abbrev pub object_of : (words : List (List ℕ)) → Option Objid
  object_of words = match_object find_property strtol d user (build_string words)

  abbrev pub direct_object : (words : List (List ℕ)) → Option Objid
  direct_object [] = some nothing
  direct_object (w ∷ ws) = object_of (w ∷ ws)

  -- The command of its words, where the words behind the verb hold a preposition and where not.
  unfoldable pub with_prep :
      (verb argstr : List ℕ) → (argv : List (List ℕ)) → Option Prep → Option ParsedCommand
  with_prep verb argstr argv none = do
    dobj ← direct_object argv
    some (no_preposition verb argstr argv dobj)
  with_prep verb argstr argv (some p) = do
    iobj ← object_of (drop (behind p) argv)
    dobj ← direct_object (take p.first argv)
    some (preposition verb argstr argv p dobj iobj)

  unfoldable pub parse_words : (argstr : List ℕ) → List (List ℕ) → Option (Option ParsedCommand)
  unfolding db_find_prep
  parse_words argstr [] = some none
  parse_words argstr (verb ∷ argv) = do
    pc ← with_prep verb argstr argv (db_find_prep argv false)
    some (some pc)

  -- `some none` where the command is empty.
  unfoldable pub parse_command : (command : List ℕ) → Option (Option ParsedCommand)
  unfolding buffer skip_spaces words_of
  parse_command command =
      let (buf, argstr) = buffer (skip_spaces command) in words_of buf >>= parse_words argstr
