-- ===== src/Tasks/Input/Split.antt =====
-- The first sequence of the input queue of server/tasks.c.
use nu_moo.Base.{
  ℕ, ◌≡◌, refl, sym, ap, ◌∙◌, ◌≢◌, ◌⊎◌, inl, inr, Bool, true, false, not, some, List, [], ◌∷◌, ◌++◌,
  ◌==◌, if◌then◌else◌, ==_iff, Bool-cases, All,
}
use nu_moo.Tasks.{InputTask, is_oob}
use nu_moo.Tasks.Input.{with_task, split_behind, joined, unthread, same_sort}
use nu_moo.Tasks.Input.Ends.{ends, Apart}

abbrev pub OfSort : Bool → List InputTask → Type 0
OfSort k = All (λ t. is_oob t.kind ≡ k)

abbrev pub Breaks : Bool → List InputTask → Type 0
Breaks k [] = Unit
Breaks k (t ∷ ts) = is_oob t.kind ≡ not k

-- The first sequence, its last task, and what is behind it.
pub record Sequence (k : Bool) (input : List InputTask) : Type 0 where
  pub front : List InputTask
  pub l : InputTask
  pub back : List InputTask
  pub parts : input ≡ front ++ (l ∷ back)
  pub of_sort : OfSort k front
  pub last_sort : is_oob l.kind ≡ k
  pub breaks : Breaks k back

pub same_sort_eq :
    (t u : InputTask) (k : Bool) → is_oob t.kind ≡ k → is_oob u.kind ≡ k → same_sort t u ≡ true
unfolding same_sort
same_sort_eq t u k e f = rw (e, f) (by_sort k)
  where
    by_sort : (k : Bool) → (if k then k else not k) ≡ true
    by_sort true = refl
    by_sort false = refl

pub same_sort_ne :
    (t u : InputTask) (k : Bool) → is_oob t.kind ≡ k → is_oob u.kind ≡ not k → same_sort t u ≡ false
unfolding same_sort
same_sort_ne t u k e f = rw (e, f) (by_sort k)
  where
    by_sort : (k : Bool) → (if k then not k else not (not k)) ≡ false
    by_sort true = refl
    by_sort false = refl

pub sort-cases : (k : Bool) (u : InputTask) → (is_oob u.kind ≡ k) ⊎ (is_oob u.kind ≡ not k)
sort-cases k u = two_sorts k (is_oob u.kind)
  where
    two_sorts : (a b : Bool) → (b ≡ a) ⊎ (b ≡ not a)
    two_sorts true true = inl refl
    two_sorts true false = inr refl
    two_sorts false true = inr refl
    two_sorts false false = inl refl

pub first-Sequence :
    (k : Bool) (t : InputTask) (ts : List InputTask) → is_oob t.kind ≡ k → Sequence k (t ∷ ts)
first-Sequence k t [] e = record {
  front = [];
  l = t;
  back = [];
  parts = refl;
  of_sort = tt;
  last_sort = e;
  breaks = tt;
}
first-Sequence k t (u ∷ us) e = elim (sort-cases k u) [
  | inl f ↦
      let s = first-Sequence k u us f in
      record {
        front = t ∷ s.front;
        l = s.l;
        back = s.back;
        parts = ap (λ xs. t ∷ xs) s.parts;
        of_sort = (e, s.of_sort);
        last_sort = s.last_sort;
        breaks = s.breaks;
      }
  | inr f ↦ record {
    front = [];
    l = t;
    back = u ∷ us;
    parts = refl;
    of_sort = tt;
    last_sort = e;
    breaks = f;
  }
]

-- Only the last task of a sequence ends it.
pub ends_front :
    (k : Bool) (front : List InputTask) (l : InputTask) (back : List InputTask)
    → OfSort k front
    → is_oob l.kind ≡ k
    → ends (front ++ (l ∷ back)) ≡ ends (l ∷ back)
ends_front k [] l back h e = refl
ends_front k (f ∷ []) l back h e = rw (same_sort_eq f l k h.0 e) refl
ends_front k (f ∷ g ∷ gs) l back h e =
    rw (same_sort_eq f g k h.0 h.1.0) (ends_front k (g ∷ gs) l back h.1 e)

pub ends_last :
    (k : Bool) (l : InputTask) (back : List InputTask)
    → is_oob l.kind ≡ k
    → Breaks k back
    → ends (l ∷ back) ≡ l.address ∷ ends back
ends_last k l [] e b = refl
ends_last k l (u ∷ us) e b = rw (same_sort_ne l u k e b) refl

pub ends-first-Sequence :
    (k : Bool) (input : List InputTask) (s : Sequence k input)
    → ends input ≡ s.l.address ∷ ends s.back
ends-first-Sequence k input s =
    ap ends s.parts
    ∙ ends_front k s.front s.l s.back s.of_sort s.last_sort
    ∙ ends_last k s.l s.back s.last_sort s.breaks

==-self : (a : ℕ) → (a == a) ≡ true
==-self a = (==_iff a a).1 refl

pub ==-apart : (a b : ℕ) → a ≢ b → (a == b) ≡ false
==-apart a b ne = elim (Bool-cases (a == b)) [ inl e ↦ absurd (ne ((==_iff a b).0 e)) | inr e ↦ e ]

pub split_behind_lem :
    (front : List InputTask) (l : InputTask) (back : List InputTask)
    → Apart l.address front
    → split_behind l.address (front ++ (l ∷ back)) ≡ some (front ++ (l ∷ []), back)
unfolding split_behind with_task
split_behind_lem [] l back h = rw (==-self l.address) refl
split_behind_lem (f ∷ fs) l back h =
    rw (==-apart f.address l.address (λ e. h.0 (sym e)), split_behind_lem fs l back h.1) refl

-- An address apart from the tasks is not the first of their ends.
pub ends_cons :
    (a : ℕ) (t : InputTask) (ts : List InputTask)
    → Apart a (t ∷ ts)
    → (b : ℕ) × (bs : List ℕ) × (ends (t ∷ ts) ≡ b ∷ bs) × (a ≢ b)
ends_cons a t [] h = (t.address, [], refl, h.0)
ends_cons a t (u ∷ us) h = elim (Bool-cases (same_sort t u)) [
  | inl e ↦ let (b, bs, f, ne) = ends_cons a u us h.1 in (b, bs, rw e f, ne)
  | inr e ↦ (t.address, ends (u ∷ us), rw e refl, h.0)
]

ends_some :
    (t : InputTask) (ts : List InputTask) → (b : ℕ) × (bs : List ℕ) × (ends (t ∷ ts) ≡ b ∷ bs)
ends_some t ts =
    let s = first-Sequence (is_oob t.kind) t ts refl in
    (s.l.address, ends s.back, ends-first-Sequence (is_oob t.kind) (t ∷ ts) s)

unthread_miss :
    (a b : ℕ) (before bs : List ℕ) → a ≢ b → unthread a before (b ∷ bs) ≡ before ++ (b ∷ bs)
unfolding unthread
unthread_miss a b before bs ne = rw (==-apart a b ne) refl

unthread_hit : (a : ℕ) (before bs : List ℕ) → unthread a before (a ∷ bs) ≡ joined before bs
unfolding unthread
unthread_hit a before bs = rw (==-self a) refl

-- The first of a sequence is taken out, behind a chain of ends.
pub unthread_within :
    (t u : InputTask) (us : List InputTask) (before : List ℕ)
    → Apart t.address (u ∷ us)
    → same_sort t u ≡ true
    → unthread t.address before (ends (t ∷ u ∷ us)) ≡ before ++ ends (u ∷ us)
unthread_within t u us before h e =
    let (b, bs, f, ne) = ends_cons t.address u us h in
    ap (unthread t.address before) (rw e f)
    ∙ unthread_miss t.address b before bs ne
    ∙ ap (λ xs. before ++ xs) (sym f)

pub unthread_single :
    (t u : InputTask) (us : List InputTask) (before : List ℕ)
    → same_sort t u ≡ false
    → unthread t.address before (ends (t ∷ u ∷ us)) ≡ ends (u ∷ us)
unfolding joined
unthread_single t u us before e =
    let (b, bs, f) = ends_some u us in
    ap (unthread t.address before) (rw e refl)
    ∙ unthread_hit t.address before (ends (u ∷ us))
    ∙ ap (joined before) f
    ∙ sym f
