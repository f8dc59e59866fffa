-- ===== src/Tests/Commands.antt =====
-- The theorems on commands, texts and names.
use nu_moo.Base.{
  ℕ, ◌+◌, ◌-◌, ◌≤◌, ◌≡◌, refl, ap, ◌∙◌, ◌≢◌, Bool, false, ◌&&◌, Option, none, some, List, [], ◌∷◌,
  map, arith, leb, if◌then◌else◌, codes, drop, All, some_injective,
}
use nu_moo.Base.Int.{ℤ, pos, ◌-ℤ◌, ◌==ℤ◌}
use nu_moo.Commands.Match.{failed_match, aliases, match_contents, match_object}
use nu_moo.Commands.Match.Verdict.{match_contents_lem}
use nu_moo.Commands.Parse.{ParsedCommand, skip_verb, buffer, with_prep, parse_words, parse_command}
use nu_moo.Commands.Parse.Split.{Parts, parse_command-Parts}
use nu_moo.Commands.Parse.Total.{parse_command_total}
use nu_moo.Commands.Preps.{
  prep_aliases, dbpriv_build_prep_table, begins_with, phrase_fits, alias_loop, prep_loop, Prep,
  word_loop, db_find_prep, db_match_prep, db_unparse_prep,
}
use nu_moo.Commands.Preps.Find.{Stands, db_find_prep-Stands, db_find_prep_finds}
use nu_moo.Commands.Preps.Names.{NoNumber, db_match_prep-db_unparse_prep}
use nu_moo.Commands.Words.{one_word, words_loop, parse_into_words, build_rest, build_string}
use nu_moo.Commands.Words.Plain.{PlainWord, quote_word, parse_into_words-quote_word}
use nu_moo.Db.Object.{Objid, nothing, Object}
use nu_moo.Db.State.{Db, valid}
use nu_moo.Strings.{cmap, mystrcasecmp, mystrncasecmp, skip_spaces}
use nu_moo.Strings.Binary.{
  raw_bytes_to_binary, binary_to_raw_bytes, binary_to_raw_bytes-raw_bytes_to_binary,
}
use nu_moo.Tests.Rooms.{thing, table, rooms, rooms-InOrder}
use nu_moo.Value.{Value, str, list, of_list}

abbrev words : List (List ℕ)
words = codes "put" ∷ codes "big box" ∷ [] ∷ []

abbrev plain_words : List (List ℕ)
plain_words = codes "put" ∷ codes "it" ∷ []

parse_into_words-quote_word_example : parse_into_words (build_string (map quote_word words)) ≡ words
parse_into_words-quote_word_example = parse_into_words-quote_word words

plain_words-PlainWord : All PlainWord plain_words
plain_words-PlainWord = (
  ((refl, refl, refl), ((refl, refl, refl), ((refl, refl, refl), tt))),
  (((refl, refl, refl), ((refl, refl, refl), tt)), tt),
)

-- put ball onto table
abbrev argv : List (List ℕ)
argv = codes "ball" ∷ codes "Onto" ∷ codes "table" ∷ []

abbrev onto : Prep
onto = record { prep = 4; first = 1; last = pos 1 }

argv-onto : db_find_prep argv false ≡ some onto
unfolding db_find_prep word_loop prep_loop alias_loop phrase_fits words_loop skip_spaces one_word
    begins_with mystrcasecmp cmap
argv-onto = refl

db_find_prep-Stands_example :
    (n : ℕ) × Stands dbpriv_build_prep_table (drop 1 argv) 4 n × (pos 1 ≡ pos (1 + n) -ℤ pos 1)
db_find_prep-Stands_example = db_find_prep-Stands argv onto argv-onto

argv-Stands : Stands dbpriv_build_prep_table (drop 1 argv) 4 1
unfolding dbpriv_build_prep_table words_loop skip_spaces one_word mystrcasecmp cmap
argv-Stands = record {
  aliases = prep_aliases (codes "on top of/on/onto/upon");
  phrase = codes "onto" ∷ [];
  place = 2;
  listed = refl;
  alias = refl;
  size = refl;
  there = (refl, tt);
}

db_find_prep_finds_example : (p : Prep) × (db_find_prep argv false ≡ some p) × (p.first ≤ 1)
db_find_prep_finds_example = db_find_prep_finds argv 1 4 1 argv-Stands (omega arith)

-- Numbers are read from strings of one digit only.
abbrev read_digit : List ℕ → ℤ × List ℕ
read_digit [] = (pos 0, [])
read_digit (c ∷ s) = if leb 48 c && leb c 57 then (pos (c - 48), s) else (pos 0, c ∷ s)

abbrev digit? : ℕ → Bool
digit? c = leb 48 c && leb c 57

read_digit-NoNumber : NoNumber read_digit
read_digit-NoNumber c s h =
    let no_digit : (leb 48 c && leb c 57) ≡ false = ground (arith, h) in rw no_digit refl

db_match_prep-db_unparse_prep_example :
    db_match_prep read_digit digit? (codes "in front of") ≡ pos 2
unfolding db_unparse_prep
db_match_prep-db_unparse_prep_example =
    db_match_prep-db_unparse_prep read_digit digit? 2 (codes "in front of") read_digit-NoNumber refl

-- The object #1 of `rooms` is also called "box".
abbrev find_aliases : Db → Objid → List ℕ → Option Value
find_aliases d oid name =
    if oid ==ℤ pos 1 then some (list (of_list (str (codes "box") ∷ []))) else none

rooms_elsewhere : (o : Object) → table (pos 1) ≡ some o → o.location ≢ pos 1
rooms_elsewhere o e f = cc (ap (λ x. x.location) (some_injective e) ∙ f)

match_contents_lem_example : match_contents find_aliases rooms (pos 1) (codes "BO") ≡ some (pos 1)
unfolding mystrncasecmp cmap aliases
match_contents_lem_example =
    match_contents_lem find_aliases rooms rooms-InOrder (codes "BO") (pos 1)
      (thing (pos 1) (pos 0) nothing) refl (rooms_elsewhere (thing (pos 1) (pos 0) nothing) refl)

parse_command_total_example :
    (r : Option ParsedCommand) × (parse_command find_aliases read_digit rooms
        (pos 1)
        (codes "put box in room")
      ≡ some r)
parse_command_total_example =
    parse_command_total find_aliases read_digit rooms rooms-InOrder (pos 1) rooms_elsewhere
      (codes "put box in room")

abbrev put_it : ParsedCommand
put_it = record {
  verb = codes "put";
  argstr = codes "it in box";
  args = str (codes "it") ∷ str (codes "in") ∷ str (codes "box") ∷ [];
  dobjstr = codes "it";
  dobj = failed_match;
  prepstr = codes "in";
  prep = pos 3;
  iobjstr = codes "box";
  iobj = failed_match;
}

put_it-parsed :
    parse_command find_aliases read_digit rooms (pos 7) (codes "put it in box") ≡ some (some put_it)
unfolding parse_command parse_words words_loop with_prep word_loop one_word prep_loop alias_loop
    phrase_fits begins_with mystrcasecmp cmap match_object build_string valid skip_verb build_rest
put_it-parsed = refl

parse_command-Parts_example :
    Parts put_it (parse_into_words (buffer (skip_spaces (codes "put it in box"))).0)
parse_command-Parts_example =
    parse_command-Parts find_aliases read_digit rooms (pos 7) (codes "put it in box") put_it
      put_it-parsed

abbrev bytes : List ℕ
bytes = 0 ∷ 65 ∷ 126 ∷ 255 ∷ []

binary_to_raw_bytes-raw_bytes_to_binary_example :
    binary_to_raw_bytes (raw_bytes_to_binary bytes) ≡ some bytes
binary_to_raw_bytes-raw_bytes_to_binary_example =
    binary_to_raw_bytes-raw_bytes_to_binary bytes
      (omega arith, (omega arith, (omega arith, (omega arith, tt))))
