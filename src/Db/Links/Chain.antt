-- ===== src/Db/Links/Chain.antt =====
-- Lists that run through the objects, seen through the field that leads on.
use mathlib.Core.Option
use nu_moo.Base.{
  ◌≡◌, refl, sym, ap, ◌∙◌, ◌≢◌, inl, inr, Bool, true, false, ◌||◌, Option, none, some, List, [],
  ◌∷◌, arith, if◌then◌else◌, Bool-cases,
}
use nu_moo.Db.Object.{
  Objid, nothing, same, same_refl, Object, Objects, write, same-ne, same_iff, ne-same,
}

abbrev pub has : Objid → List Objid → Bool
has a [] = false
has a (x ∷ xs) = same a x || has a xs

abbrev pub Distinct : List Objid → Type 0
Distinct [] = Unit
Distinct (x ∷ xs) = (has x xs ≡ false) × Distinct xs

-- The list less its element `w`.
abbrev pub without : Objid → List Objid → List Objid
without w [] = []
without w (x ∷ xs) = let rest = x ∷ without w xs in if same x w then xs else rest

-- From `p` the field `f` leads through `xs`, and on to NOTHING.
abbrev pub Chain : (Objid → Option Objid) → Objid → List Objid → Type 0
Chain f p [] = p ≡ nothing
Chain f p (x ∷ xs) = (p ≡ x) × (x ≢ nothing) × (q : Objid) × (f x ≡ some q) × Chain f q xs

pub has_cons : (a x : Objid) (xs : List Objid) → has a xs ≡ true → has a (x ∷ xs) ≡ true
has_cons a x xs h = ground arith

pub has_tail : (a x : Objid) (xs : List Objid) → a ≢ x → has a (x ∷ xs) ≡ true → has a xs ≡ true
has_tail a x xs ne h = ground (arith, same-ne a x)

pub has-ne : (a b : Objid) (xs : List Objid) → has a xs ≡ true → has b xs ≡ false → a ≢ b
has-ne a b xs h k e = cc (h, k, ap (λ c. has c xs) e)

pub some_eq : {a b : Objid} → ◌≡◌ {A = Option Objid} (some a) (some b) → a ≡ b
some_eq e = cc e

module _ {f g : Objid → Option Objid} where
  -- A chain survives any change elsewhere.
  pub frame :
      (p : Objid) (xs : List Objid)
      → Chain f p xs
      → ((a : Objid) → has a xs ≡ true → g a ≡ f a)
      → Chain g p xs
  frame p [] c same_at = c
  frame p (x ∷ xs) (e, ne, q, fx, c) same_at = (
    e,
    ne,
    q,
    same_at x (rw (same_refl x) refl) ∙ fx,
    frame q xs c
        (λ a h. same_at a (elim (Bool-cases (same a x)) [ inl t ↦ rw t refl | inr t ↦ rw t h ])),
  )

-- The value of a field, if there is an object.
abbrev pub field : {B : Type 0} → (Object → B) → Objects → Objid → Option B
field get h a = Option.map get (h a)

module _ {B : Type 0} (get : Object → B) where
  pub field-write :
      (h : Objects) (p : Objid) (o : Object) (a : Objid)
      → field get (write h p o) a ≡ (if same a p then some (get o) else field get h a)
  unfolding write
  field-write h p o a = elim (Bool-cases (same a p)) [ inl e ↦ rw e refl | inr e ↦ rw e refl ]

  pub field-write_self :
      (h : Objects) (p : Objid) (o : Object) → field get (write h p o) p ≡ some (get o)
  field-write_self h p o = field-write h p o p ∙ rw (same_refl p) refl

  pub field-write_ne :
      (h : Objects) (p : Objid) (o : Object) (a : Objid)
      → a ≢ p
      → field get (write h p o) a ≡ field get h a
  field-write_ne h p o a ne = field-write h p o a ∙ rw (same-ne a p ne) refl

  -- A write that leaves the field alone.
  pub field-keeps :
      (h : Objects) (p : Objid) {o : Object} (o' : Object)
      → h p ≡ some o
      → get o' ≡ get o
      → (a : Objid) → field get (write h p o') a ≡ field get h a
  field-keeps h p {o} o' found e a = elim (Bool-cases (same a p)) [
    | inl at_p ↦
        let a-p = (same_iff a p).0 at_p in
        ap (field get (write h p o')) a-p
        ∙ field-write_self h p o'
        ∙ ap some e
        ∙ sym (ap (Option.map get) found)
        ∙ sym (ap (field get h) a-p)
    | inr apart ↦ field-write_ne h p o' a (ne-same a p apart)
  ]

pub field-some :
    {B : Type 0} (get : Object → B) (h : Objects) (a : Objid) {v : B}
    → field get h a ≡ some v
    → (o : Object) × (h a ≡ some o) × (get o ≡ v)
field-some {B} get h a {v} e = go (h a) refl e
  where
    go :
        (m : Option Object)
        → h a ≡ m
        → Option.map get m ≡ some v
        → (o : Object) × (h a ≡ some o) × (get o ≡ v)
    go none eq e = cc e
    go (some o) eq e = (o, eq, cc e)

-- Where `m` holds an object as `h` does.
pub field-there :
    {B : Type 0} (get : Object → B) (h h' : Objects) (a : Objid) {o : Object}
    → field get h' a ≡ field get h a
    → h a ≡ some o
    → (o' : Object) × (h' a ≡ some o') × (get o' ≡ get o)
field-there get h h' a e found = field-some get h' a (e ∙ ap (Option.map get) found)
