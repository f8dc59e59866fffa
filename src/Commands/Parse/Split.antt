-- ===== src/Commands/Parse/Split.antt =====
-- How `parse_command` cuts the words of a command in three (server/parse_cmd.c).
use nu_moo.Base.{
  ℕ, zero, suc, ◌+◌, ◌-◌, ◌≡◌, refl, sym, ap, ◌∙◌, ◌⊎◌, inl, inr, false, Option, none, some, List,
  [], ◌∷◌, ◌++◌, map, arith, Option-cases, take, drop, take-append-drop, ◌>>=◌, >>=-eq-some,
  drop-drop, some_injective,
}
use mathlib.Core.List.{append-nil}
use mathlib.Core.Path.{subst}
use nu_moo.Base.Int.{ℤ, pos, ◌+ℤ◌, ◌-ℤ◌}
use nu_moo.Commands.Parse.{
  ParsedCommand, buffer, nat_of, behind, no_preposition, preposition, object_of, direct_object,
  with_prep, parse_words, parse_command,
}
use nu_moo.Commands.Preps.{dbpriv_build_prep_table, Prep, db_find_prep}
use nu_moo.Commands.Preps.Find.{Stands, db_find_prep-Stands}
use nu_moo.Commands.Words.{parse_into_words, build_string}
use nu_moo.Commands.Words.Loop.{words_of-total}
use nu_moo.Db.Object.{Objid}
use nu_moo.Db.State.{Db}
use nu_moo.Db.Verbs.{prep_none}
use nu_moo.Strings.{skip_spaces}
use nu_moo.Value.{Value, str}

-- Behind the verb stand the words of the direct object, those of the preposition and those of the
-- indirect object, and each string is built of its words. Without a preposition all the words are
-- the direct object's.
pub record Parts (pc : ParsedCommand) (words : List (List ℕ)) : Type 0 where
  pub dobj_words : List (List ℕ)
  pub prep_words : List (List ℕ)
  pub iobj_words : List (List ℕ)
  pub all_words : words ≡ pc.verb ∷ (dobj_words ++ (prep_words ++ iobj_words))
  pub all_args : pc.args ≡ map str (dobj_words ++ (prep_words ++ iobj_words))
  pub dobj_is : pc.dobjstr ≡ build_string dobj_words
  pub prep_is : pc.prepstr ≡ build_string prep_words
  pub iobj_is : pc.iobjstr ≡ build_string iobj_words
  pub prep_stands :
      ((pc.prep ≡ prep_none) × (prep_words ++ iobj_words ≡ []))
      ⊎ ((j : ℕ) × (n : ℕ) × (pc.prep ≡ pos j)
          × Stands dbpriv_build_prep_table (prep_words ++ iobj_words) j n
          × (prep_words ≡ take n (prep_words ++ iobj_words)))

behind_lem : (p : Prep) (n : ℕ) → p.last ≡ pos (p.first + n) -ℤ pos 1 → behind p ≡ p.first + n
behind_lem p n e = ap (λ z. nat_of (z +ℤ pos 1)) e ∙ back (p.first + n)
  where
    back : (m : ℕ) → nat_of ((pos m -ℤ pos 1) +ℤ pos 1) ≡ m
    back zero = refl
    back (suc m) = ground arith

build_nothing : build_string [] ≡ []
unfolding build_string
build_nothing = refl

module _ (find_property : Db → Objid → List ℕ → Option Value) (strtol : List ℕ → ℤ × List ℕ)
    (d : Db) (user : Objid) where
  Parts-none :
      (verb argstr : List ℕ) (argv : List (List ℕ)) (pc : ParsedCommand)
      → with_prep find_property strtol d user verb argstr argv none ≡ some pc
      → Parts pc (verb ∷ argv)
  unfolding with_prep
  Parts-none verb argstr argv pc e =
      let (dobj, found, made) =
        >>=-eq-some (direct_object find_property strtol d user argv)
          (λ dobj. some (no_preposition verb argstr argv dobj)) e in
      let shape : argv ≡ argv ++ [] = sym (append-nil argv) in
      subst (λ pc. Parts pc (verb ∷ argv)) (some_injective made)
        (record {
          dobj_words = argv;
          prep_words = [];
          iobj_words = [];
          all_words = ap (λ ws. verb ∷ ws) shape;
          all_args = ap (map str) shape;
          dobj_is = refl;
          prep_is = sym build_nothing;
          iobj_is = sym build_nothing;
          prep_stands = inl (refl, refl);
        })

  Parts-some :
      (verb argstr : List ℕ) (argv : List (List ℕ)) (p : Prep) (n : ℕ) (pc : ParsedCommand)
      → Stands dbpriv_build_prep_table (drop p.first argv) p.prep n
      → p.last ≡ pos (p.first + n) -ℤ pos 1
      → with_prep find_property strtol d user verb argstr argv (some p) ≡ some pc
      → Parts pc (verb ∷ argv)
  unfolding with_prep
  Parts-some verb argstr argv p n pc stands last e =
      let next : behind p ≡ p.first + n = behind_lem p n last in
      let size : behind p - p.first ≡ n = omega (arith, next) in
      let rest : drop (behind p) argv ≡ drop n (drop p.first argv) =
        ap (λ k. drop k argv) next ∙ drop-drop p.first n argv in
      let tail : take n (drop p.first argv) ++ drop n (drop p.first argv) ≡ drop p.first argv =
        take-append-drop n (drop p.first argv) in
      let shape : argv
          ≡ take p.first argv ++ (take n (drop p.first argv) ++ drop n (drop p.first argv)) =
        sym (take-append-drop p.first argv) ∙ ap (λ ws. take p.first argv ++ ws) (sym tail) in
      let dobj? = direct_object find_property strtol d user (take p.first argv) in
      let (iobj, found_iobj, run) =
        >>=-eq-some (object_of find_property strtol d user (drop (behind p) argv))
          (λ iobj. dobj? >>= (λ dobj. some (preposition verb argstr argv p dobj iobj))) e in
      let (dobj, found_dobj, made) =
        >>=-eq-some dobj? (λ dobj. some (preposition verb argstr argv p dobj iobj)) run in
      subst (λ pc. Parts pc (verb ∷ argv)) (some_injective made)
        (record {
          dobj_words = take p.first argv;
          prep_words = take n (drop p.first argv);
          iobj_words = drop n (drop p.first argv);
          all_words = ap (λ ws. verb ∷ ws) shape;
          all_args = ap (map str) shape;
          dobj_is = refl;
          prep_is = ap (λ k. build_string (take k (drop p.first argv))) size;
          iobj_is = ap build_string rest;
          prep_stands = inr (
            p.prep,
            n,
            refl,
            subst (λ ws. Stands dbpriv_build_prep_table ws p.prep n) (sym tail) stands,
            ap (take n) (sym tail),
          );
        })

  parse_words-Parts :
      (argstr : List ℕ) (words : List (List ℕ)) (pc : ParsedCommand)
      → parse_words find_property strtol d user argstr words ≡ some (some pc)
      → Parts pc words
  unfolding parse_words
  parse_words-Parts argstr [] pc e = cc e
  parse_words-Parts argstr (verb ∷ argv) pc e =
      let (pc', parsed, made) =
        >>=-eq-some
          (with_prep find_property strtol d user verb argstr argv (db_find_prep argv false))
          (λ pc. some (some pc)) e in
      let run : with_prep find_property strtol d user verb argstr argv (db_find_prep argv false)
          ≡ some pc =
        parsed ∙ cc made in
      elim (Option-cases (db_find_prep argv false)) [
        | inl f ↦
            Parts-none verb argstr argv pc
              (ap (with_prep find_property strtol d user verb argstr argv) (sym f) ∙ run)
        | inr (p, f) ↦
            let (n, stands, last) = db_find_prep-Stands argv p f in
            Parts-some verb argstr argv p n pc stands last
              (ap (with_prep find_property strtol d user verb argstr argv) (sym f) ∙ run)
      ]

  -- The words of a command that `parse_command` parses are the verb, the words of the direct object,
  -- those of the preposition and those of the indirect object, in this order, and the strings are
  -- built of these words; where a preposition is given, the words that begin with the second part
  -- begin with one of its phrases, which is the second part; where none is given, both the second and
  -- the third part are empty. The arguments are the words behind the verb.
  pub parse_command-Parts :
      (command : List ℕ) (pc : ParsedCommand)
      → parse_command find_property strtol d user command ≡ some (some pc)
      → Parts pc (parse_into_words (buffer (skip_spaces command)).0)
  unfolding parse_command
  parse_command-Parts command pc e =
      let (buf, argstr) = buffer (skip_spaces command) in
      parse_words-Parts argstr (parse_into_words buf) pc (
        ap (λ m. m >>= parse_words find_property strtol d user argstr) (sym (words_of-total buf))
        ∙ e)
