-- ===== src/Db/Links/Lists.antt =====
-- When the lists of all objects are in order, and why a list is never longer than the table.
use mathlib.Core.Option
use mathlib.Core.Path.{subst}
use nu_moo.Base.{
  ℕ, zero, suc, ◌≤◌, ◌<◌, ◌≡◌, refl, sym, ap, ◌∙◌, ◌≢◌, inl, inr, Bool, true, false, Option, none,
  some, List, [], ◌∷◌, arith, if◌then◌else◌, Bool-cases, Option-cases, length,
}
use nu_moo.Base.Int.{pos}
use nu_moo.Db.Object.{Objid, nothing, same, same_iff, same_refl, ne-same, Object, Objects}
use nu_moo.Db.Links.{Links}
use nu_moo.Db.Links.Chain.{
  frame, field-there, has-ne, has, Distinct, without, Chain, field, field-some, some_eq,
}
use nu_moo.Db.Links.Remove.{has-without, not-has-without}
use nu_moo.Db.Links.Frame.{Relisted}

-- `cs l` is the list of the object `l`: the chain from its `head` runs through it, no object is on
-- it twice, and on it are exactly the objects whose `up` is `l`, but for those that are `off`. All
-- objects stand below `n` in the table.
module _ (links : Links) where
  open links use {head, next, up}

  pub record Lists (h : Objects) (n : ℕ) (cs : Objid → List Objid) (off : Objid → Bool)
      : Type 0 where
    pub bounded : (a : Objid) (o : Object) → h a ≡ some o → (i : ℕ) × (a ≡ pos i) × (i < n)
    pub chains : (l : Objid) (o : Object) → h l ≡ some o → Chain (field next h) (head o) (cs l)
    pub distinct : (l : Objid) → Distinct (cs l)
    pub on_list : (l a : Objid) → has a (cs l) ≡ true → field up h a ≡ some l
    pub not_off : (l a : Objid) → has a (cs l) ≡ true → off a ≡ false
    pub listed :
        (l a : Objid) (o : Object)
        → h l ≡ some o
        → off a ≡ false
        → field up h a ≡ some l
        → has a (cs l) ≡ true
    pub no_list : (l : Objid) → h l ≡ none → cs l ≡ []

-- Distinct numbers below `n` are at most `n` many.
abbrev pub Below : ℕ → List Objid → Type 0
Below n xs = (a : Objid) → has a xs ≡ true → (i : ℕ) × (a ≡ pos i) × (i < n)

length-without : (w : Objid) (xs : List Objid) → length xs ≤ suc (length (without w xs))
length-without w [] = omega arith
length-without w (x ∷ xs) = elim (Bool-cases (same x w)) [
  | inl hit ↦ rw hit (omega arith)
  | inr miss ↦ rw miss (omega (arith, length-without w xs))
]

pub Distinct-without : (w : Objid) (xs : List Objid) → Distinct xs → Distinct (without w xs)
Distinct-without w [] d = tt
Distinct-without w (x ∷ xs) d = elim (Bool-cases (same x w)) [
  | inl hit ↦ rw hit d.1
  | inr miss ↦ rw miss (has-without x w xs (ne-same x w miss) ∙ d.0, Distinct-without w xs d.1)
]

Below-zero : (xs : List Objid) → Below zero xs → length xs ≤ 0
Below-zero [] b = omega arith
Below-zero (x ∷ xs) b = let (i, e, lt) = b x (rw (same_refl x) refl) in absurd (omega arith)

-- Nothing below `n + 1` but `n` is not below `n`.
Below-without :
    (n : ℕ) (xs : List Objid) → Distinct xs → Below (suc n) xs → Below n (without (pos n) xs)
Below-without n xs d b a i =
    let ne : a ≢ pos n =
      λ e. cc (i, not-has-without (pos n) xs d, ap (λ c. has c (without (pos n) xs)) e) in
    let (j, e, lt) = b a (sym (has-without a (pos n) xs ne) ∙ i) in
    let apart : j ≢ n = λ t. ne (e ∙ ap pos t) in (j, e, omega arith)

pub pigeonhole : (n : ℕ) (xs : List Objid) → Distinct xs → Below n xs → length xs ≤ n
pigeonhole zero xs d b = Below-zero xs b
pigeonhole (suc n) xs d b = omega (
  arith,
  length-without (pos n) xs,
  pigeonhole n (without (pos n) xs) (Distinct-without (pos n) xs d) (Below-without n xs d b),
)

module _ (links : Links) {h : Objects} {n : ℕ} {cs : Objid → List Objid} {off : Objid → Bool}
    (ok : Lists links h n cs off) where
  open links use {up}

  -- No list is longer than the table.
  pub length-Lists : (l : Objid) → length (cs l) ≤ n
  length-Lists l =
      pigeonhole n (cs l) (ok.distinct l)
        (λ a i. let (o, found, e) = field-some up h a (ok.on_list l a i) in ok.bounded a o found)

  pub not-nothing : (a : Objid) (o : Object) → h a ≡ some o → a ≢ nothing
  not-nothing a o found e = let (i, f, lt) = ok.bounded a o found in cc (e, f)

  -- An object stands on one list only.
  pub one_list : (l m a : Objid) → l ≢ m → has a (cs l) ≡ true → has a (cs m) ≡ false
  one_list l m a ne i = elim (Bool-cases (has a (cs m))) [
    | inl j ↦ absurd (ne (some_eq (sym (ok.on_list l a i) ∙ ok.on_list m a j)))
    | inr out ↦ out
  ]

-- One object's list replaced.
abbrev pub relist : (Objid → List Objid) → Objid → List Objid → Objid → List Objid
relist cs whr ys l = if same l whr then ys else cs l

-- What holds after a list has been changed.
module _ (links : Links) {h : Objects} {n : ℕ} {cs : Objid → List Objid} {off : Objid → Bool}
    (ok : Lists links h n cs off) where
  open links use {head, next, up, core}

  field-up : (g : Objects) (a : Objid) → field up g a ≡ Option.map up (field core g a)
  field-up g a = go (g a)
    where
      go : (m : Option Object) → Option.map up m ≡ Option.map up (Option.map core m)
      go none = refl
      go (some o) = ap some (sym (links.up-core o))

  module _ {h' : Objects} {whr what : Objid} {ys : List Objid}
      (r : Relisted links h h' whr what (cs whr) ys) where
    pub up_kept : (a : Objid) → field up h' a ≡ field up h a
    up_kept a = field-up h' a ∙ ap (Option.map up) (r.others.rest a) ∙ sym (field-up h a)

    pub was_there :
        (a : Objid) (o' : Object)
        → h' a ≡ some o'
        → (o : Object) × (h a ≡ some o) × (core o ≡ core o')
    was_there a o' found = field-there core h' h a (sym (r.others.rest a)) found

    pub none_kept : (a : Objid) → h' a ≡ none → h a ≡ none
    none_kept a missing = elim (Option-cases (h a)) [
      | inl e ↦ e
      | inr (o, e) ↦ let (o', f, g) = field-there core h h' a (r.others.rest a) e in cc (f, missing)
    ]

    pub bounded_kept : (a : Objid) (o' : Object) → h' a ≡ some o' → (i : ℕ) × (a ≡ pos i) × (i < n)
    bounded_kept a o' found = let (o, e, f) = was_there a o' found in ok.bounded a o e

    pub chains_kept :
        ((l : Objid) → l ≢ whr → has what (cs l) ≡ false)
        → (l : Objid) (o' : Object) → h' l ≡ some o'
        → Chain (field next h') (head o') (relist cs whr ys l)
    chains_kept elsewhere l o' found = elim (Bool-cases (same l whr)) [
      | inl hit ↦
          let at_top : some (head o') ≡ some r.top =
            sym (ap (Option.map head) found)
            ∙ ap (field head h') ((same_iff l whr).0 hit)
            ∙ r.at_head in
          rw hit (subst (λ p. Chain (field next h') p ys) (sym (some_eq at_top)) r.chain)
      | inr miss ↦
          let ne = ne-same l whr miss in
          let (o, e, f) = was_there l o' found in
          let same_head : some (head o) ≡ some (head o') =
            sym (ap (Option.map head) e)
            ∙ sym (r.others.head_elsewhere l ne)
            ∙ ap (Option.map head) found in
          rw miss (
            subst (λ p. Chain (field next h') p (cs l)) (some_eq same_head)
              (frame (head o) (cs l) (ok.chains l o e) (λ a i.
                r.others.next_elsewhere a (one_list links ok l whr a ne i)
                  (has-ne a what (cs l) i (elsewhere l ne)))))
    ]
