-- ===== src/Value/Equality.antt =====
-- `equality` of server/utils.c.
use mathlib.Core.Path.{ap₂, subst}
use nu_moo.Base.{ℕ, ◌≡◌, refl, ap, ◌↔◌, Bool, true, ◌&&◌, List, [], ◌∷◌, arith, ==_iff}
use nu_moo.Base.Int.{==ℤ_iff}
use nu_moo.Value.{
  Value, Values, int, obj, str, err, list, float, waif, nil, cons, Error, error_number, str_same,
  equality, equality_lists,
}

abbrev mutual
  -- No float occurs in the value.
  pub NoFloat : Value → Type 0
  NoFloat (int a) = Unit
  NoFloat (obj a) = Unit
  NoFloat (err a) = Unit
  NoFloat (str s) = Unit
  NoFloat (list vs) = NoFloats vs
  NoFloat (float x) = ⊥
  NoFloat (waif x) = Unit

  pub NoFloats : Values → Type 0
  NoFloats nil = Unit
  NoFloats (cons v vs) = NoFloat v × NoFloats vs

str_same_sound : (s t : List ℕ) → str_same s t ≡ true → s ≡ t
unfolding str_same
str_same_sound [] [] h = refl
str_same_sound [] (b ∷ t) h = cc h
str_same_sound (a ∷ s) [] h = cc h
str_same_sound (a ∷ s) (b ∷ t) h = ground (arith, str_same_sound s t)

str_same_refl : (s : List ℕ) → str_same s s ≡ true
unfolding str_same
str_same_refl [] = refl
str_same_refl (a ∷ s) = ground (arith, str_same_refl s)

error_number-injective : (a b : Error) → error_number a ≡ error_number b → a ≡ b
error_number-injective a b h = ground arith

pub and-true : (a b : Bool) → (a && b) ≡ true → (a ≡ true) × (b ≡ true)
and-true a b h = ground arith

module _ (same_float : ℕ → ℕ → Bool) where
  mutual
    unfolding equality

    equality_sound : (v w : Value) → NoFloat v → equality same_float v w true ≡ true → v ≡ w
    equality_sound (int a) (int b) p h = ap int ((==ℤ_iff a b).0 h)
    equality_sound (obj a) (obj b) p h = ap obj ((==ℤ_iff a b).0 h)
    equality_sound (err a) (err b) p h = ap err (error_number-injective a b ((==_iff _ _).0 h))
    equality_sound (str s) (str t) p h = ap str (str_same_sound s t h)
    equality_sound (list vs) (list ws) p h = ap list (equality_lists_sound vs ws p h)
    equality_sound (float x) w p h = absurd p
    equality_sound (waif x) (waif y) p h = ap waif ((==_iff x y).0 h)
    equality_sound _ _ p h = cc h

    equality_lists_sound :
        (vs ws : Values) → NoFloats vs → equality_lists same_float vs ws true ≡ true → vs ≡ ws
    equality_lists_sound nil nil p h = refl
    equality_lists_sound (cons v vs) (cons w ws) p h =
        let (e, f) = and-true (equality same_float v w true) _ h in
        ap₂ cons (equality_sound v w p.0 e) (equality_lists_sound vs ws p.1 f)
    equality_lists_sound _ _ p h = cc h

  mutual
    unfolding equality

    equality_refl : (v : Value) → NoFloat v → equality same_float v v true ≡ true
    equality_refl (int a) p = (==ℤ_iff a a).1 refl
    equality_refl (obj a) p = (==ℤ_iff a a).1 refl
    equality_refl (err a) p = (==_iff (error_number a) (error_number a)).1 refl
    equality_refl (str s) p = str_same_refl s
    equality_refl (list vs) p = equality_lists_refl vs p
    equality_refl (float x) p = absurd p
    equality_refl (waif x) p = (==_iff x x).1 refl

    equality_lists_refl : (vs : Values) → NoFloats vs → equality_lists same_float vs vs true ≡ true
    equality_lists_refl nil p = refl
    equality_lists_refl (cons v vs) p = rw (equality_refl v p.0) (equality_lists_refl vs p.1)

  -- With case taken into account, `equality` decides whether two values are the same one, at any
  -- depth of nesting, where the first holds no float; whatever the comparison of floats is.
  pub equality_iff : (v w : Value) → NoFloat v → (equality same_float v w true ≡ true) ↔ (v ≡ w)
  equality_iff v w p = (
    equality_sound v w p,
    λ e. subst (λ u. equality same_float v u true ≡ true) e (equality_refl v p),
  )
