-- ===== src/Lists/Member.antt =====
-- `ismember`, `setadd` and `setremove` of server/list.c.
use nu_moo.Base.{
  ℕ, suc, ◌+◌, ◌≡◌, refl, ap, ◌∙◌, inl, inr, Bool, true, false, some, List, [], ◌∷◌, ◌++◌, arith,
  ◌==◌, if◌then◌else◌, Bool-cases, length, All,
}
use nu_moo.Lists.{ismember_at, ismember, setadd, setremove}
use nu_moo.Lists.Insert.{listappend_lem, delete_at_length}

suc-ne-zero : (n : ℕ) → (suc n == 0) ≡ false
suc-ne-zero n = ground arith

one-add : (n : ℕ) → 1 + n ≡ suc n
one-add n = omega arith

module _ {ℓ} {A : Type ℓ} (equality : A → A → Bool) where
  -- No element of `xs` equals `v`.
  abbrev pub Absent : A → List A → Type 0
  Absent v xs = All (λ x. equality v x ≡ false) xs

  -- `xs` is `front`, the first element that equals `v`, and `back`.
  pub record First (v : A) (xs front : List A) (x : A) (back : List A) : Type ℓ where
    pub shape : xs ≡ front ++ x ∷ back
    pub before : Absent v front
    pub equal : equality v x ≡ true

  Absent-at : (v : A) (xs : List A) (i : ℕ) → Absent v xs → ismember_at equality v xs i ≡ 0
  unfolding ismember_at
  Absent-at v [] i h = refl
  Absent-at v (x ∷ xs) i h = rw h.0 (Absent-at v xs (i + 1) h.1)

  first_at :
      (v : A) (front : List A) (x : A) (back : List A) (i : ℕ)
      → Absent v front
      → equality v x ≡ true
      → ismember_at equality v (front ++ x ∷ back) i ≡ i + length front
  unfolding ismember_at
  first_at v [] x back i h e = rw e (omega arith)
  first_at v (y ∷ front) x back i h e = rw h.0 (first_at v front x back (i + 1) h.1 e ∙ omega arith)

  -- What `ismember` finds: no equal element, or the first one.
  pub data Found (v : A) (xs : List A) : ℕ → Type ℓ where
    nowhere : Absent v xs → Found v xs 0
    at :
        {front : List A} {x : A} {back : List A}
        → First v xs front x back
        → Found v xs (suc (length front))

  Found-cons :
      (v x : A) (xs : List A) (n : ℕ)
      → equality v x ≡ false
      → Found v xs n
      → Found v (x ∷ xs) (if n == 0 then 0 else suc n)
  Found-cons v x xs n ne (nowhere h) = nowhere (ne, h)
  Found-cons v x xs n ne (at {front} {x = y} {back} f) = rw (suc-ne-zero (length front)) (
      at {front = x ∷ front}
        (record { shape = ap (λ zs. x ∷ zs) f.shape; before = (ne, f.before); equal = f.equal }))

  ismember_at-shift :
      (v : A) (xs : List A) (i : ℕ)
      → ismember_at equality v xs (suc (suc i)) ≡ (
          if ismember_at equality v xs (suc i) == 0
          then 0
          else suc (ismember_at equality v xs (suc i)))
  unfolding ismember_at
  ismember_at-shift v [] i = refl
  ismember_at-shift v (x ∷ xs) i = ground (arith, ismember_at-shift v xs (i + 1))

  -- `ismember` returns 0 exactly when no element equals the value, and else the position of the
  -- first element that does.
  pub ismember-Found : (v : A) (xs : List A) → Found v xs (ismember equality v xs)
  unfolding ismember ismember_at
  ismember-Found v [] = nowhere tt
  ismember-Found v (x ∷ xs) = elim (Bool-cases (equality v x)) [
    | inl e ↦ rw e (at {front = []} (record { shape = refl; before = tt; equal = e }))
    | inr ne ↦
        rw (ne, ismember_at-shift v xs 0)
          (Found-cons v x xs (ismember equality v xs) ne (ismember-Found v xs))
  ]

  -- Where no element equals the value, `setadd` puts it at the end and `setremove` changes nothing.
  pub setadd-Absent :
      (refs : ℕ) (xs : List A) (v : A)
      → Absent v xs
      → (setadd equality refs xs v ≡ some (xs ++ v ∷ [])) × (setremove equality xs v ≡ some xs)
  unfolding setadd setremove ismember
  setadd-Absent refs xs v h =
      (rw (Absent-at v xs 1 h) (listappend_lem refs xs v), rw (Absent-at v xs 1 h) refl)

  -- Where some element equals the value, `setadd` changes nothing and `setremove` takes out the
  -- first one that does and no other.
  pub setremove-First :
      (refs : ℕ) {xs : List A} (v : A) (front : List A) (x : A) (back : List A)
      → First v xs front x back
      → (setadd equality refs xs v ≡ some xs) × (setremove equality xs v ≡ some (front ++ back))
  unfolding setadd setremove ismember
  setremove-First refs v front x back f =
      rw
        (
          f.shape,
          first_at v front x back 1 f.before f.equal,
          one-add (length front),
          suc-ne-zero (length front),
        )
        (refl, delete_at_length front back x (length front) refl)
