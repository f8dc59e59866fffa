-- ===== src/Db/Verbs/Line.antt =====
-- The searches up the parents of an object end, and find what stands first on its line of ancestors
-- (server/db_verbs.c).
use nu_moo.Base.{
  ℕ, zero, suc, ◌≤◌, ◌<◌, ◌≡◌, refl, sym, ap, ◌∙◌, inl, inr, true, Option, none, some, List, [],
  ◌∷◌, arith, ltb, Bool-cases, Option-cases, length, ◌>>=◌,
}
use nu_moo.Base.Int.{pos, negsuc}
use nu_moo.Db.Links.Chain.{has, Distinct}
use nu_moo.Db.Links.Lists.{pigeonhole}
use nu_moo.Db.Object.{Objid, same, same_iff, Object}
use nu_moo.Db.State.{Db, dbpriv_find_object}
use nu_moo.Db.Verbs.{ancestor_loop}
use nu_moo.Db.Verbs.Callable.{callable, find_uncached}
use nu_moo.Db.Verbs.Lookup.{loop_missing, loop_found, from_hit, from_miss}

-- From `p` up, through parents, stand `xs`, and there the line ends.
abbrev pub Line : Db → Objid → List Objid → Type 0
Line d p [] = dbpriv_find_object d p ≡ none
Line d p (x ∷ xs) = (p ≡ x) × (o : Object) × (dbpriv_find_object d x ≡ some o) × Line d o.parent xs

abbrev pub or_else : {A : Type 0} → Option A → Option A → Option A
or_else none n = n
or_else (some a) n = some a

-- The first of the objects for which the function returns anything.
module _ {A : Type 0} (body : Object → Option A) (d : Db) where
  abbrev pub first_along : List Objid → Option A
  first_along [] = none
  first_along (x ∷ xs) = let rest = first_along xs in or_else (dbpriv_find_object d x >>= body) rest

  along_miss :
      (x : Objid) (xs : List Objid) (o : Object)
      → dbpriv_find_object d x ≡ some o
      → body o ≡ none
      → first_along (x ∷ xs) ≡ first_along xs
  along_miss x xs o there pass =
      ap (λ m. or_else m (first_along xs)) (ap (λ m. m >>= body) there ∙ pass)

  along_hit :
      (x : Objid) (xs : List Objid) (o : Object) (a : A)
      → dbpriv_find_object d x ≡ some o
      → body o ≡ some a
      → first_along (x ∷ xs) ≡ some a
  along_hit x xs o a there stop =
      ap (λ m. or_else m (first_along xs)) (ap (λ m. m >>= body) there ∙ stop)

  loop-Line :
      (k : ℕ) (p : Objid) (xs : List Objid)
      → Line d p xs
      → length xs < k
      → ancestor_loop body k d p ≡ some (first_along xs)
  loop-Line zero p xs line lt = absurd (omega arith)
  loop-Line (suc k) p [] line lt = loop_missing body d k p line
  loop-Line (suc k) p (x ∷ xs) (e, o, there, line) lt =
      loop_found body d k p o (ap (dbpriv_find_object d) e ∙ there) ∙ elim (Option-cases (body o)) [
        | inl pass ↦
            from_miss body d k o pass
            ∙ loop-Line k o.parent xs line (omega arith)
            ∙ ap some (sym (along_miss x xs o there pass))
        | inr (a, stop) ↦ from_hit body d k o a stop ∙ ap some (sym (along_hit x xs o a there stop))
      ]

bounded_find :
    (d : Db) (a : Objid) {o : Object}
    → dbpriv_find_object d a ≡ some o
    → (i : ℕ) × (a ≡ pos i) × (i < d.num_objects)
unfolding dbpriv_find_object
bounded_find d (pos i) e = elim (Bool-cases (ltb i d.num_objects)) [
  | inl lt ↦ (i, refl, ground arith)
  | inr ge ↦ absurd (ground arith)
]
bounded_find d (negsuc i) e = absurd (ground arith)

Line-there :
    (d : Db) (p : Objid) (xs : List Objid)
    → Line d p xs
    → (a : Objid) → has a xs ≡ true
    → (o : Object) × (dbpriv_find_object d a ≡ some o)
Line-there d p [] line a i = cc i
Line-there d p (x ∷ xs) (e, o, there, line) a i = elim (Bool-cases (same a x)) [
  | inl hit ↦ (o, ap (dbpriv_find_object d) ((same_iff a x).0 hit) ∙ there)
  | inr miss ↦ Line-there d o.parent xs line a (ground arith)
]

length-Line :
    (d : Db) (p : Objid) (xs : List Objid) → Line d p xs → Distinct xs → length xs ≤ d.num_objects
length-Line d p xs line distinct =
    pigeonhole d.num_objects xs distinct
      (λ a i. let (o, there) = Line-there d p xs line a i in bounded_find d a there)

-- Where the line of ancestors of an object has no object twice, the search for a callable verb ends,
-- and finds the first verb that may be called on the first of these objects that has one.
pub find_uncached_lem :
    (d : Db) (oid : Objid) (verb : List ℕ) (xs : List Objid)
    → Line d oid xs
    → Distinct xs
    → find_uncached d oid verb ≡ some (first_along (callable verb) d xs)
unfolding find_uncached
find_uncached_lem d oid verb xs line distinct =
    loop-Line (callable verb) d (suc d.num_objects) oid xs line
      (omega (arith, length-Line d oid xs line distinct))
