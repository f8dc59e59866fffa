-- ===== src/Tasks/Tqueues/Order.antt =====
-- The order of the active queues of server/tasks.c.
use nu_moo.Base.{
  ◌≡◌, refl, ap, ◌∙◌, ◌≢◌, inl, inr, Bool, true, false, List, [], ◌∷◌, ◌++◌, arith, if◌then◌else◌,
  Bool-cases, All,
}
use nu_moo.Base.Int.{ℤ, ◌≤ℤ◌, leb_ℤ, ◌==ℤ◌}
use nu_moo.Tasks.{Tqueue, Queues}
use nu_moo.Tasks.Tqueues.{no_usage, insert_tqueue, activate_tqueue, first_usage, ensure_usage}

abbrev pub AtLeast : ℤ → List Tqueue → Type 0
AtLeast u = All (λ h. u ≤ℤ h.usage)

abbrev pub SortedUsage : List Tqueue → Type 0
SortedUsage [] = Unit
SortedUsage (h ∷ hs) = AtLeast h.usage hs × SortedUsage hs

pub ≤ℤ-trans : (a b c : ℤ) → a ≤ℤ b → b ≤ℤ c → a ≤ℤ c
≤ℤ-trans a b c h k = omega arith

pub leb_ℤ-true : (a b : ℤ) → leb_ℤ a b ≡ true → a ≤ℤ b
leb_ℤ-true a b e = ground arith

pub leb_ℤ-false : (a b : ℤ) → leb_ℤ a b ≡ false → (b ≤ℤ a) × (b ≢ a)
leb_ℤ-false a b e = (ground arith, λ f. ground arith)

AtLeast-insert :
    (u : ℤ) (tq : Tqueue) (hs : List Tqueue)
    → u ≤ℤ tq.usage
    → AtLeast u hs
    → AtLeast u (insert_tqueue tq hs)
unfolding insert_tqueue
AtLeast-insert u tq [] h k = (h, tt)
AtLeast-insert u tq (x ∷ xs) h k = go (leb_ℤ x.usage tq.usage) (AtLeast-insert u tq xs h k.1)
  where
    go :
        (b : Bool)
        → AtLeast u (insert_tqueue tq xs)
        → AtLeast u (if b then x ∷ insert_tqueue tq xs else tq ∷ x ∷ xs)
    go true rest = (k.0, rest)
    go false rest = (h, k)

AtLeast-below : (u v : ℤ) (hs : List Tqueue) → u ≤ℤ v → AtLeast v hs → AtLeast u hs
AtLeast-below u v [] h k = tt
AtLeast-below u v (x ∷ xs) h k = (≤ℤ-trans u v x.usage h k.0, AtLeast-below u v xs h k.1)

-- `activate_tqueue` keeps the active queues in the order of their usage.
pub insert_tqueue-SortedUsage :
    (tq : Tqueue) (hs : List Tqueue) → SortedUsage hs → SortedUsage (insert_tqueue tq hs)
unfolding insert_tqueue
insert_tqueue-SortedUsage tq [] h = (tt, tt)
insert_tqueue-SortedUsage tq (x ∷ xs) h =
    go (leb_ℤ x.usage tq.usage) refl (insert_tqueue-SortedUsage tq xs h.1)
  where
    go :
        (b : Bool)
        → leb_ℤ x.usage tq.usage ≡ b
        → SortedUsage (insert_tqueue tq xs)
        → SortedUsage (if b then x ∷ insert_tqueue tq xs else tq ∷ x ∷ xs)
    go true e rest = (AtLeast-insert x.usage tq xs (leb_ℤ-true x.usage tq.usage e) h.0, rest)
    go false e rest =
        let below = (leb_ℤ-false x.usage tq.usage e).0 in
        ((below, AtLeast-below tq.usage x.usage xs below h.0), h)

-- A queue is put behind one whose usage is not greater, and before one whose usage is greater.
pub insert-behind :
    (tq : Tqueue) (xs : List Tqueue) (x : Tqueue) (ys : List Tqueue)
    → SortedUsage (xs ++ (x ∷ ys))
    → leb_ℤ x.usage tq.usage ≡ true
    → insert_tqueue tq (xs ++ (x ∷ ys)) ≡ xs ++ (x ∷ insert_tqueue tq ys)
unfolding insert_tqueue
insert-behind tq [] x ys h e = rw e refl
insert-behind tq (y ∷ zs) x ys h e =
    let below = All-middle zs h.0 in
    let passes : leb_ℤ y.usage tq.usage ≡ true =
      ground (arith, below, leb_ℤ-true x.usage tq.usage e) in
    rw (passes, insert-behind tq zs x ys h.1 e) refl
  where
    All-middle : (zs : List Tqueue) → AtLeast y.usage (zs ++ (x ∷ ys)) → y.usage ≤ℤ x.usage
    All-middle [] k = k.0
    All-middle (z ∷ zs) k = All-middle zs k.1

pub insert-before :
    (tq : Tqueue) (xs : List Tqueue) (x : Tqueue) (ys : List Tqueue)
    → leb_ℤ x.usage tq.usage ≡ false
    → insert_tqueue tq (xs ++ (x ∷ ys)) ≡ insert_tqueue tq xs ++ (x ∷ ys)
unfolding insert_tqueue
insert-before tq [] x ys e = rw e refl
insert-before tq (y ∷ zs) x ys e = go (leb_ℤ y.usage tq.usage) (insert-before tq zs x ys e)
  where
    go :
        (b : Bool)
        → insert_tqueue tq (zs ++ (x ∷ ys)) ≡ insert_tqueue tq zs ++ (x ∷ ys)
        → (if b then y ∷ insert_tqueue tq (zs ++ (x ∷ ys)) else tq ∷ y ∷ (zs ++ (x ∷ ys)))
          ≡ (if b then y ∷ insert_tqueue tq zs else tq ∷ y ∷ zs) ++ (x ∷ ys)
    go true rest = ap (λ l. y ∷ l) rest
    go false rest = refl

-- A queue that is woken does not come before the first active queue.
pub ensure_usage-first :
    (tq h : Tqueue) (hs : List Tqueue) (q : Queues)
    → q.active_tqueues ≡ h ∷ hs
    → (rest : List Tqueue) × (((ensure_usage tq q).1).active_tqueues ≡ h ∷ rest)
unfolding ensure_usage activate_tqueue insert_tqueue first_usage
ensure_usage-first tq h hs q e = elim (Bool-cases (tq.usage ==ℤ no_usage)) [
  | inl f ↦ (insert_tqueue (record tq { usage = h.usage }) hs, rw f (woken q.active_tqueues e))
  | inr f ↦ (hs, rw f e)
]
  where
    not_above : (u : ℤ) → leb_ℤ u u ≡ true
    not_above u = ground arith

    woken :
        (ts : List Tqueue)
        → ts ≡ h ∷ hs
        → insert_tqueue (record tq { usage = first_usage ts }) ts
          ≡ h ∷ insert_tqueue (record tq { usage = h.usage }) hs
    woken ts e =
        ap (λ bs. insert_tqueue (record tq { usage = first_usage bs }) bs) e
        ∙ rw (not_above h.usage) refl
