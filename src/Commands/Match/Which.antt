-- ===== src/Commands/Match/Which.antt =====
-- The objects of a list that pass a test, and which of them a search means.
use nu_moo.Base.{
  ◌≡◌, refl, ap, ◌∙◌, ◌≢◌, inl, inr, Bool, false, List, [], ◌∷◌, ◌++◌, arith, if◌then◌else◌,
  Bool-cases,
}
use nu_moo.Commands.Match.{ambiguous, failed_match}
use nu_moo.Db.Links.Chain.{has, Distinct}
use nu_moo.Db.Object.{Objid, nothing, same, same_iff, same_refl}

abbrev pub which : (Objid → Bool) → List Objid → List Objid
which test [] = []
which test (x ∷ xs) = let rest = which test xs in if test x then x ∷ rest else rest

abbrev pub one_partial : List Objid → Objid
one_partial [] = failed_match
one_partial (x ∷ []) = x
one_partial (x ∷ y ∷ xs) = ambiguous

-- The one object that matches exactly, or else the one that matches in part.
abbrev pub verdict : (exact partial : List Objid) → Objid
verdict [] ps = one_partial ps
verdict (x ∷ []) ps = x
verdict (x ∷ y ∷ xs) ps = ambiguous

abbrev pub first_exact : List Objid → Objid
first_exact [] = nothing
first_exact (x ∷ xs) = x

abbrev pub only : Bool → Objid → List Objid
only t x = if t then x ∷ [] else []

pub which-snoc :
    (test : Objid → Bool) (seen : List Objid) (x : Objid)
    → which test (seen ++ x ∷ []) ≡ which test seen ++ only (test x) x
which-snoc test [] x = refl
which-snoc test (y ∷ seen) x = elim (Bool-cases (test y)) [
  | inl e ↦ rw e (ap (λ ys. y ∷ ys) (which-snoc test seen x))
  | inr e ↦ rw e (which-snoc test seen x)
]

pub which-append :
    (test : Objid → Bool) (xs ys : List Objid)
    → which test (xs ++ ys) ≡ which test xs ++ which test ys
which-append test [] ys = refl
which-append test (x ∷ xs) ys = elim (Bool-cases (test x)) [
  | inl e ↦ rw e (ap (λ zs. x ∷ zs) (which-append test xs ys))
  | inr e ↦ rw e (which-append test xs ys)
]

pub which-absent :
    (test : Objid → Bool) (x : Objid) (xs : List Objid)
    → has x xs ≡ false
    → has x (which test xs) ≡ false
which-absent test x [] h = refl
which-absent test x (y ∷ xs) h = elim (Bool-cases (test y)) [
  | inl e ↦ let rest = which-absent test x xs (ground (arith, h)) in rw e (ground (arith, h, rest))
  | inr e ↦ rw e (which-absent test x xs (ground (arith, h)))
]

pub Distinct-absent :
    (seen : List Objid) (x : Objid) (xs : List Objid)
    → Distinct (seen ++ x ∷ xs)
    → has x seen ≡ false
Distinct-absent [] x xs h = refl
Distinct-absent (y ∷ seen) x xs h = elim (Bool-cases (same x y)) [
  | inl e ↦
      absurd (has-later seen x xs (ap (λ z. has z (seen ++ x ∷ xs)) ((same_iff x y).0 e) ∙ h.0))
  | inr e ↦ rw e (Distinct-absent seen x xs h.1)
]
  where
    has-later : (seen : List Objid) (x : Objid) (xs : List Objid) → has x (seen ++ x ∷ xs) ≢ false
    has-later [] x xs e = ground (arith, e, same_refl x)
    has-later (y ∷ seen) x xs e = has-later seen x xs (ground (arith, e))
