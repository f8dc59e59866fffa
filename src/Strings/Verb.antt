-- ===== src/Strings/Verb.antt =====
-- The loops of `verbcasecmp` (server/utils.c).
use nu_moo.Base.{
  ℕ, zero, suc, ◌≤◌, ◌≡◌, refl, sym, ap, ◌∙◌, inl, inr, true, List, [], ◌∷◌, map, arith, ◌==◌,
  if◌then◌else◌, Bool-cases, length,
}
use mathlib.Core.Path.{ap₂}
use nu_moo.Db.Object.{same}
use nu_moo.Strings.{
  cmap, Star, no_star, inner, end, star?, space?, at_end, match_name, accepts, skip_name,
  skip_spaces, verb_loop, verbcasecmp,
}
use nu_moo.Strings.Case.{◌≈◌, cons-eq_iff}

-- None of the steps moves back in the pattern.
match_name-le : (star : Star) (v w : List ℕ) → length ((match_name star v w).0) ≤ length v
unfolding match_name
match_name-le star [] w = omega arith
match_name-le star (b ∷ v) [] = elim (Bool-cases (star? b)) [
  | inl e ↦ rw e (omega (arith, match_name-le (if at_end v then end else inner) v []))
  | inr e ↦ rw e (omega arith)
]
match_name-le star (b ∷ v) (c ∷ w) = elim (Bool-cases (star? b)) [
  | inl e ↦ rw e (omega (arith, match_name-le (if at_end v then end else inner) v (c ∷ w)))
  | inr e ↦ elim (Bool-cases (space? b)) [
    | inl f ↦ rw (e, f) (omega arith)
    | inr f ↦ elim (Bool-cases (cmap c == cmap b)) [
      | inl g ↦ rw (e, f, g) (omega (arith, match_name-le star v w))
      | inr g ↦ rw (e, f, g) (omega arith)
    ]
  ]
]

skip_name-le : (v : List ℕ) → length (skip_name v) ≤ length v
unfolding skip_name
skip_name-le [] = omega arith
skip_name-le (b ∷ v) = ground (arith, skip_name-le v)

skip_spaces-le : (v : List ℕ) → length (skip_spaces v) ≤ length v
unfolding skip_spaces
skip_spaces-le [] = omega arith
skip_spaces-le (b ∷ v) = ground (arith, skip_spaces-le v)

-- Where the next name begins, from a rest of the pattern.
skip-lt : (n : ℕ) (u : List ℕ) → length u ≤ suc n → length (skip_spaces (skip_name u)) ≤ n
unfolding skip_spaces skip_name
skip-lt n [] le = omega arith
skip-lt n (b ∷ u) le = elim (Bool-cases (space? b)) [
  | inl e ↦ rw (e, e) (omega (arith, skip_spaces-le u))
  | inr e ↦ rw e (omega (arith, skip_spaces-le (skip_name u), skip_name-le u))
]

fuel-fuel :
    (j k : ℕ) (v w : List ℕ) → length v ≤ j → length v ≤ k → verb_loop j v w ≡ verb_loop k v w
unfolding verb_loop
fuel-fuel zero zero v w h l = refl
fuel-fuel zero (suc k) [] w h l = refl
fuel-fuel zero (suc k) (b ∷ v) w h l = absurd (omega arith)
fuel-fuel (suc j) zero [] w h l = refl
fuel-fuel (suc j) zero (b ∷ v) w h l = absurd (omega arith)
fuel-fuel (suc j) (suc k) [] w h l = refl
fuel-fuel (suc j) (suc k) (b ∷ v) w h l =
    let u = (match_name no_star (b ∷ v) w).0 in
    let le : length u ≤ suc (length v) = match_name-le no_star (b ∷ v) w in
    rw
      (fuel-fuel j k (skip_spaces (skip_name u)) w (skip-lt j u (omega arith))
        (skip-lt k u (omega arith)))
      refl

-- The length of the pattern is fuel enough for the loop over its names: with any more the result is
-- that of `verbcasecmp`.
pub verb_loop_lem :
    (k : ℕ) (verb word : List ℕ) → length verb ≤ k → verb_loop k verb word ≡ verbcasecmp verb word
unfolding verbcasecmp
verb_loop_lem k verb word le = fuel-fuel k (length verb) verb word le (omega arith)

-- What is left of the pattern, whether a star was met, and what is left of the word, up to case,
-- depend on the word up to case only.
match_name-≈ :
    (star : Star) (v w w' : List ℕ)
    → w ≈ w'
    → ((match_name star v w).0 ≡ (match_name star v w').0)
      × ((match_name star v w).1 ≈ (match_name star v w').1)
      × ((match_name star v w).2 ≡ (match_name star v w').2)
unfolding match_name
match_name-≈ star [] w w' e = (refl, e, refl)
match_name-≈ star (b ∷ v) [] [] e = (refl, refl, refl)
match_name-≈ star (b ∷ v) [] (c' ∷ w') e = cc e
match_name-≈ star (b ∷ v) (c ∷ w) [] e = cc e
match_name-≈ star (b ∷ v) (c ∷ w) (c' ∷ w') e = elim (Bool-cases (star? b)) [
  | inl s ↦ rw s (match_name-≈ (if at_end v then end else inner) v (c ∷ w) (c' ∷ w') e)
  | inr s ↦ elim (Bool-cases (space? b)) [
    | inl f ↦ rw (s, f) (refl, e, refl)
    | inr f ↦
        let (same, rest) = (cons-eq_iff (cmap c) (cmap c') (map cmap w) (map cmap w')).0 e in
        elim (Bool-cases (cmap c == cmap b)) [
          | inl g ↦
              rw (s, f, g, ap (λ x. x == cmap b) (sym same) ∙ g) (match_name-≈ star v w w' rest)
          | inr g ↦ rw (s, f, g, ap (λ x. x == cmap b) (sym same) ∙ g) (refl, e, refl)
        ]
  ]
]

accepts-≈ : (v w w' : List ℕ) (star : Star) → w ≈ w' → accepts (v, w, star) ≡ accepts (v, w', star)
unfolding accepts
accepts-≈ v [] [] star e = refl
accepts-≈ v [] (c ∷ w') star e = cc e
accepts-≈ v (c ∷ w) [] star e = cc e
accepts-≈ v (c ∷ w) (c' ∷ w') no_star e = refl
accepts-≈ v (c ∷ w) (c' ∷ w') inner e = refl
accepts-≈ v (c ∷ w) (c' ∷ w') end e = refl

verb_loop-≈ : (k : ℕ) (v w w' : List ℕ) → w ≈ w' → verb_loop k v w ≡ verb_loop k v w'
unfolding verb_loop
verb_loop-≈ zero v w w' e = refl
verb_loop-≈ (suc k) [] w w' e = refl
verb_loop-≈ (suc k) (b ∷ v) w w' e =
    let (left, words, stars) = match_name-≈ no_star (b ∷ v) w w' e in
    let r = match_name no_star (b ∷ v) w in
    let r' = match_name no_star (b ∷ v) w' in
    let same : accepts r ≡ accepts r' =
      accepts-≈ r.0 r.1 r'.1 r.2 words
      ∙ ap (λ u. accepts (u, r'.1, r.2)) left
      ∙ ap (λ t. accepts (r'.0, r'.1, t)) stars in
    let rest : verb_loop k (skip_spaces (skip_name r.0)) w
        ≡ verb_loop k (skip_spaces (skip_name r'.0)) w' =
      verb_loop-≈ k (skip_spaces (skip_name r.0)) w w' e
      ∙ ap (λ u. verb_loop k (skip_spaces (skip_name u)) w') left in
    ap₂ (λ t u. if t then true else u) same rest

-- `verbcasecmp` does not look at the case of the word.
pub verbcasecmp-≈ : (v w w' : List ℕ) → w ≈ w' → verbcasecmp v w ≡ verbcasecmp v w'
unfolding verbcasecmp
verbcasecmp-≈ v w w' e = verb_loop-≈ (length v) v w w' e
