-- ===== src/Commands/Parse/Total.antt =====
-- `parse_command` returns for every command, where the lists of contents are in order
-- (server/parse_cmd.c, server/match.c).
use nu_moo.Base.{
  ℕ, ◌≡◌, refl, ap, ◌∙◌, ◌≢◌, false, Option, none, some, List, [], ◌∷◌, take, drop, ◌>>=◌,
}
use nu_moo.Base.Int.{ℤ}
use nu_moo.Commands.Match.Verdict.{match_object_total}
use nu_moo.Commands.Parse.{
  ParsedCommand, buffer, behind, no_preposition, preposition, object_of, direct_object, with_prep,
  parse_words, parse_command,
}
use nu_moo.Commands.Preps.{Prep, db_find_prep}
use nu_moo.Commands.Words.{words_of, parse_into_words, build_string}
use nu_moo.Commands.Words.Loop.{words_of-total}
use nu_moo.Db.Object.{Objid, nothing, Object}
use nu_moo.Db.Objects.Taking.{InOrder}
use nu_moo.Db.State.{Db}
use nu_moo.Strings.{skip_spaces}
use nu_moo.Value.{Value}

bind_total :
    {A B : Type 0} (m : Option A) (f : A → Option B)
    → (a : A) × (m ≡ some a)
    → ((a : A) → (b : B) × (f a ≡ some b))
    → (b : B) × ((m >>= f) ≡ some b)
bind_total m f (a, e) h = let (b, g) = h a in (b, ap (λ m. m >>= f) e ∙ g)

module _ (find_property : Db → Objid → List ℕ → Option Value) (strtol : List ℕ → ℤ × List ℕ)
    (d : Db) {cs : Objid → List Objid} (ok : InOrder d cs) (user : Objid)
    (elsewhere : (o : Object) → d.objects user ≡ some o → o.location ≢ user) where
  object_total :
      (words : List (List ℕ)) → (r : Objid) × (object_of find_property strtol d user words ≡ some r)
  object_total words =
      match_object_total find_property d ok (build_string words) strtol user elsewhere

  direct_total :
      (words : List (List ℕ))
      → (r : Objid) × (direct_object find_property strtol d user words ≡ some r)
  direct_total [] = (nothing, refl)
  direct_total (w ∷ ws) = object_total (w ∷ ws)

  with_prep_total :
      (verb argstr : List ℕ) (argv : List (List ℕ)) (p : Option Prep)
      → (pc : ParsedCommand) × (with_prep find_property strtol d user verb argstr argv p ≡ some pc)
  unfolding with_prep
  with_prep_total verb argstr argv none =
      bind_total (direct_object find_property strtol d user argv)
        (λ dobj. some (no_preposition verb argstr argv dobj)) (direct_total argv)
        (λ dobj. (_, refl))
  with_prep_total verb argstr argv (some p) =
      let dobj? = direct_object find_property strtol d user (take p.first argv) in
      bind_total (object_of find_property strtol d user (drop (behind p) argv))
        (λ iobj. dobj? >>= (λ dobj. some (preposition verb argstr argv p dobj iobj)))
        (object_total (drop (behind p) argv))
        (λ iobj.
          bind_total dobj? (λ dobj. some (preposition verb argstr argv p dobj iobj))
            (direct_total (take p.first argv)) (λ dobj. (_, refl)))

  words_total :
      (argstr : List ℕ) (words : List (List ℕ))
      → (r : Option ParsedCommand) × (parse_words find_property strtol d user argstr words ≡ some r)
  unfolding parse_words
  words_total argstr [] = (none, refl)
  words_total argstr (verb ∷ argv) =
      bind_total (with_prep find_property strtol d user verb argstr argv (db_find_prep argv false))
        (λ pc. some (some pc)) (with_prep_total verb argstr argv (db_find_prep argv false))
        (λ pc. (some pc, refl))

  -- Where the lists of contents are in order, every command of a user that is not its own location
  -- is parsed, or is empty: the loop over its words ends, and so does the search for its objects.
  pub parse_command_total :
      (command : List ℕ)
      → (r : Option ParsedCommand) × (parse_command find_property strtol d user command ≡ some r)
  unfolding parse_command
  parse_command_total command =
      let (buf, argstr) = buffer (skip_spaces command) in
      bind_total (words_of buf) (parse_words find_property strtol d user argstr)
        (parse_into_words buf, words_of-total buf) (words_total argstr)
