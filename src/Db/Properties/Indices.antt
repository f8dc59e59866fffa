-- ===== src/Db/Properties/Indices.antt =====
-- Places in lists: the first element that passes a test, and lists behind one another.
use mathlib.Core.Option
use nu_moo.Base.{
  ℕ, zero, suc, ◌+◌, ◌≡◌, refl, sym, ap, ◌∙◌, inl, inr, Bool, true, false, some, List, [], ◌∷◌,
  ◌++◌, map, arith, Bool-cases, Option-cases, length, get_elem?, some_injective,
}
use mathlib.Core.Path.{subst}
use nu_moo.Db.Verbs.{first_index}

module _ {A : Type 0} (test : A → Bool) where
  first_hit : (x : A) (xs : List A) → test x ≡ true → first_index test (x ∷ xs) ≡ some 0
  unfolding first_index
  first_hit x xs t = rw t refl

  first_miss :
      (x : A) (xs : List A)
      → test x ≡ false
      → first_index test (x ∷ xs) ≡ Option.map suc (first_index test xs)
  unfolding first_index
  first_miss x xs f = rw f refl

  pub first_index-get :
      (xs : List A) (i : ℕ)
      → first_index test xs ≡ some i
      → (x : A) × (get_elem? xs i ≡ some x) × (test x ≡ true)
  unfolding first_index
  first_index-get [] i e = cc e
  first_index-get (x ∷ xs) i e = elim (Bool-cases (test x)) [
    | inl t ↦
        let first : 0 ≡ i = some_injective (sym (first_hit x xs t) ∙ e) in
        (x, subst (λ i. get_elem? (x ∷ xs) i ≡ some x) first refl, t)
    | inr f ↦ elim (Option-cases (first_index test xs)) [
      | inl gone ↦ cc (e, first_miss x xs f, gone)
      | inr (j, found) ↦
          let next : suc j ≡ i =
            some_injective (sym (ap (Option.map suc) found) ∙ sym (first_miss x xs f) ∙ e) in
          let (y, there, t) = first_index-get xs j found in
          (y, subst (λ i. get_elem? (x ∷ xs) i ≡ some y) next there, t)
    ]
  ]

module _ {A B : Type 0} (f : A → B) (ys : List B) where
  pub get_elem?-front :
      (xs : List A) (i : ℕ) (x : A)
      → get_elem? xs i ≡ some x
      → get_elem? (map f xs ++ ys) i ≡ some (f x)
  get_elem?-front [] i x e = cc e
  get_elem?-front (y ∷ xs) zero x e = ap (λ m. some (f m)) (some_injective e)
  get_elem?-front (y ∷ xs) (suc i) x e = get_elem?-front xs i x e

  pub get_elem?-behind :
      (xs : List A) (i : ℕ) → get_elem? (map f xs ++ ys) (length xs + i) ≡ get_elem? ys i
  get_elem?-behind [] i = let start : 0 + i ≡ i = omega arith in ap (get_elem? ys) start
  get_elem?-behind (x ∷ xs) i =
      let next : suc (length xs) + i ≡ suc (length xs + i) = omega arith in
      ap (get_elem? (f x ∷ (map f xs ++ ys))) next ∙ get_elem?-behind xs i

  pub length-behind : (xs : List A) → length (map f xs ++ ys) ≡ length xs + length ys
  length-behind [] = omega arith
  length-behind (x ∷ xs) = omega (arith, length-behind xs)
