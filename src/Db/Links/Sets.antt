-- ===== src/Db/Links/Sets.antt =====
-- `setadd` and `setremove` of server/list.c on lists of object numbers.
use nu_moo.Base.{
  ℕ, ◌≡◌, refl, sym, ap, ◌∙◌, inl, inr, Bool, true, false, ◌||◌, some, List, [], ◌∷◌, ◌++◌, arith,
  if◌then◌else◌, Bool-cases,
}
use nu_moo.Lists.{setadd, setremove}
use nu_moo.Lists.Member.{Absent, First, setadd-Absent, setremove-First}
use nu_moo.Db.Object.{Objid, same, same_iff, same_refl, same-ne, ne-same}
use nu_moo.Db.Links.Chain.{has, Distinct, without}
use nu_moo.Db.Links.Attach.{has-snoc, Distinct-snoc}

pub same_sym : (a b : Objid) → same a b ≡ same b a
same_sym a b = elim (Bool-cases (same b a)) [
  | inl e ↦ ap (same a) ((same_iff b a).0 e) ∙ same_refl a ∙ sym e
  | inr e ↦ same-ne a b (λ f. ne-same b a e (sym f)) ∙ sym e
]

has-Absent : (v : Objid) (xs : List Objid) → has v xs ≡ false → Absent same v xs
has-Absent v [] out = tt
has-Absent v (x ∷ xs) out = (ground arith, has-Absent v xs (ground arith))

-- An element of a list is the first to equal itself somewhere, and `without` takes that one out.
has-First :
    (v : Objid) (xs : List Objid)
    → has v xs ≡ true
    → (front : List Objid) × (x : Objid) × (back : List Objid) × First same v xs front x back
      × (front ++ back ≡ without v xs)
has-First v [] i = cc i
has-First v (y ∷ xs) i = elim (Bool-cases (same v y)) [
  | inl hit ↦
      ([], y, xs, record { shape = refl; before = tt; equal = hit }, rw (same_sym y v ∙ hit) refl)
  | inr miss ↦
      let (front, x, back, first, rest) = has-First v xs (ground arith) in
      (
        y ∷ front,
        x,
        back,
        record {
          shape = ap (λ zs. y ∷ zs) first.shape;
          before = (miss, first.before);
          equal = first.equal;
        },
        rw (same_sym y v ∙ miss) (ap (λ zs. y ∷ zs) rest),
      )
]

pub without_absent : (w : Objid) (xs : List Objid) → has w xs ≡ false → without w xs ≡ xs
without_absent w [] out = refl
without_absent w (x ∷ xs) out = ground (arith, without_absent w xs, same_sym w x)

-- `setadd` and `setremove` on object numbers.
abbrev pub added : Objid → List Objid → List Objid
added v xs = if has v xs then xs else xs ++ v ∷ []

pub has-added : (a v : Objid) (xs : List Objid) → has a (added v xs) ≡ (has a xs || same a v)
has-added a v xs = elim (Bool-cases (has v xs)) [
  | inl i ↦ rw i (already (same a v) refl i)
  | inr out ↦ rw out (has-snoc a v xs)
]
  where
    already : (b : Bool) → same a v ≡ b → has v xs ≡ true → has a xs ≡ (has a xs || b)
    already true e i = ground (arith, ap (λ c. has c xs) ((same_iff a v).0 e) ∙ i)
    already false e i = ground arith

pub added-Distinct : (v : Objid) (xs : List Objid) → Distinct xs → Distinct (added v xs)
added-Distinct v xs once = elim (Bool-cases (has v xs)) [
  | inl i ↦ rw i once
  | inr out ↦ rw out (Distinct-snoc v xs once out)
]

pub or-true : (b : Bool) → (b || true) ≡ true
or-true b = ground arith

pub or-false : (b : Bool) → (b || false) ≡ b
or-false b = ground arith

pub setadd-same :
    (refs : ℕ) (v : Objid) (xs : List Objid) → setadd same refs xs v ≡ some (added v xs)
setadd-same refs v xs = elim (Bool-cases (has v xs)) [
  | inl i ↦
      let (front, x, back, first, rest) = has-First v xs i in
      rw i ((setremove-First same refs v front x back first).0)
  | inr out ↦ rw out ((setadd-Absent same refs xs v (has-Absent v xs out)).0)
]

pub setremove-same : (v : Objid) (xs : List Objid) → setremove same xs v ≡ some (without v xs)
setremove-same v xs = elim (Bool-cases (has v xs)) [
  | inl i ↦
      let (front, x, back, first, rest) = has-First v xs i in
      (setremove-First same 1 v front x back first).1 ∙ ap some rest
  | inr out ↦
      (setadd-Absent same 1 xs v (has-Absent v xs out)).1 ∙ ap some (sym (without_absent v xs out))
]
