-- ===== src/Tasks/Waiting/Counts.antt =====
-- The count of background tasks of a queue in server/tasks.c.
use nu_moo.Base.{
  ℕ, suc, ◌+◌, ◌≡◌, refl, sym, ap, ◌∙◌, inl, inr, Bool, true, false, Option, none, some, List, [],
  ◌∷◌, ◌++◌, arith, ◌==◌, if◌then◌else◌, ==_iff, Bool-cases, length, length-append,
}
use mathlib.Core.Path.{subst}
use nu_moo.Base.Int.{ℤ, pos, negsuc, ◌+ℤ◌, ◌==ℤ◌}
use nu_moo.Db.Object.{Objid, same, same_iff}
use nu_moo.Tasks.{Vm, BgTask, task_suspended, Tqueue, Queues}
use nu_moo.Tasks.Input.Split.{==-apart}
use nu_moo.Tasks.Run.{at_address, tqueue_at}
use nu_moo.Tasks.Tqueues.{
  no_usage, store_in, store, ensure_usage, enqueue_bg_task, find_or_make_tqueue,
}
use nu_moo.Tasks.Tqueues.Keys.{
  key, keys, FreeKey, HasKey, All-HasKey, PlacedQueues, KnownTo, store-SamePlaces,
}
use nu_moo.Tasks.Tqueues.Wake.{FreshAddress, find_or_make-Kept, ensure_usage-Kept, store-Kept}
use nu_moo.Tasks.Waiting.{
  before, start_time, task_progr, insert_waiting, counted, make_ready, enqueue_waiting, resume_task,
}
use nu_moo.Value.{Value}

-- The waiting tasks of a programmer.
abbrev pub count_of : Objid → List BgTask → ℕ
count_of p [] = 0
count_of p (w ∷ ws) = let rest = count_of p ws in if same (task_progr w) p then suc rest else rest

-- The tasks that `num_bg_tasks` is to count: those on the queue, and the waiting ones.
abbrev pub tasks_there : List BgTask → Tqueue → ℕ
tasks_there ws tq = length tq.bg + count_of tq.player ws

abbrev pub Tally : List BgTask → Tqueue → Type 0
Tally ws tq = tq.num_bg_tasks ≡ pos (tasks_there ws tq)

count_of-insert :
    (p : Objid) (t : BgTask) (ws : List BgTask)
    → count_of p (insert_waiting t ws) ≡ count_of p (t ∷ ws)
unfolding insert_waiting
count_of-insert p t [] = refl
count_of-insert p t (w ∷ ws) = go (before (start_time t) (start_time w)) (count_of-insert p t ws)
  where
    swap :
        (b c : Bool) (n : ℕ)
        → (if b then suc (if c then suc n else n) else (if c then suc n else n))
          ≡ (if c then suc (if b then suc n else n) else (if b then suc n else n))
    swap true true n = refl
    swap true false n = refl
    swap false true n = refl
    swap false false n = refl

    go :
        (b : Bool)
        → count_of p (insert_waiting t ws) ≡ count_of p (t ∷ ws)
        → count_of p (if b then t ∷ w ∷ ws else w ∷ insert_waiting t ws) ≡ count_of p (t ∷ w ∷ ws)
    go true e = refl
    go false e =
        ap (λ n. if same (task_progr w) p then suc n else n) e
        ∙ swap (same (task_progr w) p) (same (task_progr t) p) (count_of p ws)

-- A queue that is written back is found at its address.
at_address-store_in :
    (tq : Tqueue) (hs : List Tqueue)
    → HasKey (key tq) (keys hs)
    → at_address tq.address (store_in tq hs) ≡ some tq
unfolding at_address store_in
at_address-store_in tq [] i = elim i [ ]
at_address-store_in tq (x ∷ xs) i = elim (Bool-cases (x.address == tq.address)) [
  | inl e ↦ rw e (rw ((==_iff tq.address tq.address).1 refl) refl)
  | inr e ↦ rw (e, e) (at_address-store_in tq xs (later i e))
]
  where
    later :
        HasKey (key tq) (keys (x ∷ xs))
        → (x.address == tq.address) ≡ false
        → HasKey (key tq) (keys xs)
    later (inl f) e = cc (e, (==_iff x.address tq.address).1 (ap (λ k. k.address) f))
    later (inr j) e = j

at_address-none : (a : ℕ) (hs : List Tqueue) → FreeKey a (keys hs) → at_address a hs ≡ none
unfolding at_address
at_address-none a [] h = refl
at_address-none a (x ∷ xs) h =
    rw (==-apart x.address a (λ e. h.0 (sym e))) (at_address-none a xs h.1)

pub tqueue_at-store :
    (tq : Tqueue) (q : Queues)
    → PlacedQueues q
    → KnownTo tq q
    → tqueue_at tq.address (store tq q) ≡ some tq
unfolding tqueue_at store
tqueue_at-store tq q ok (inr i) = rw (at_address-store_in tq q.active_tqueues i) refl
tqueue_at-store tq q ok (inl i) =
    let free =
      All-HasKey (λ x. FreeKey x.address (keys q.active_tqueues)) (key tq) (keys q.idle_tqueues)
        ok.apart i in
    let s = store-SamePlaces tq q ok (inl i) in
    let gone =
      at_address-none tq.address (store_in tq q.active_tqueues)
        (subst (FreeKey tq.address) (sym s.active) free) in
    rw gone (at_address-store_in tq q.idle_tqueues i)

one_more : (c : ℤ) (m n : ℕ) → c ≡ pos (m + n) → c +ℤ pos 1 ≡ pos (m + suc n)
one_more (pos c) m n e = ground arith
one_more (negsuc c) m n e = cc e

one_longer : (c : ℤ) (m n : ℕ) → c ≡ pos (m + n) → c +ℤ pos 1 ≡ pos (suc m + n)
one_longer (pos c) m n e = ground arith
one_longer (negsuc c) m n e = cc e

length_snoc : (ts : List BgTask) (t : BgTask) → length (ts ++ (t ∷ [])) ≡ suc (length ts)
length_snoc ts t = omega (arith, length-append ts (t ∷ []))

-- A new task of a programmer counts.
count_of-new :
    (p : Objid) (t : BgTask) (ws vs : List BgTask)
    → p ≡ task_progr t
    → vs ≡ ws
    → count_of p (insert_waiting t vs) ≡ suc (count_of p ws)
count_of-new p t ws vs e f =
    ap (λ l. count_of p (insert_waiting t l)) f
    ∙ count_of-insert p t ws
    ∙ ap (λ b. if b then suc (count_of p ws) else count_of p ws)
        ((same_iff (task_progr t) p).1 (sym e))

-- A queue that is woken is as it was, but for its usage.
abbrev LikeQueue : Tqueue → Tqueue → Type 0
LikeQueue tq u =
    (u.address ≡ tq.address)
    × (u.player ≡ tq.player)
    × (u.bg ≡ tq.bg)
    × (u.num_bg_tasks ≡ tq.num_bg_tasks)

woken-LikeQueue : (tq : Tqueue) (q : Queues) → LikeQueue tq ((ensure_usage tq q).0)
unfolding ensure_usage
woken-LikeQueue tq q = elim (Bool-cases (tq.usage ==ℤ no_usage)) [
  | inl e ↦ rw e (refl, refl, refl, refl)
  | inr e ↦ rw e (refl, refl, refl, refl)
]

module _ (malloc : Queues → ℕ) (flush : Option (List ℕ)) (fresh : FreshAddress malloc) (q : Queues)
    (ok : PlacedQueues q) where
  -- `enqueue_waiting` on queues that are in order: where the count of the programmer's queue was
  -- right, it is right for the state behind.
  pub enqueue_waiting-Tally :
      (t : BgTask) (tq : Tqueue)
      → (find_or_make_tqueue malloc flush (task_progr t) q).0 ≡ tq
      → tq.player ≡ task_progr t
      → Tally q.waiting_tasks tq
      → (tq' : Tqueue) × (tqueue_at tq.address (enqueue_waiting malloc flush t q) ≡ some tq')
        × Tally (enqueue_waiting malloc flush t q).waiting_tasks tq'
  unfolding enqueue_waiting counted tqueue_at
  enqueue_waiting-Tally t tq found p right =
      let k = find_or_make-Kept malloc flush (task_progr t) q fresh ok in
      let made = find_or_make_tqueue malloc flush (task_progr t) q in
      let tq' = counted (pos 1) made.0 in
      let s = store-Kept tq' made.1 k.placed k.known in
      (
        tq',
        ap (λ a. tqueue_at a (store tq' made.1)) (ap (λ u. u.address) (sym found))
            ∙ tqueue_at-store tq' made.1 k.placed k.known,
        one_more made.0.num_bg_tasks (length made.0.bg) (count_of made.0.player q.waiting_tasks)
              (subst (Tally q.waiting_tasks) (sym found) right)
            ∙ ap (λ n. pos (length made.0.bg + n))
                (sym (
                  count_of-new made.0.player t q.waiting_tasks (store tq' made.1).waiting_tasks
                    (ap (λ u. u.player) found ∙ p) (s.waiting ∙ k.waiting))),
      )

  -- `resume_task` on queues that are in order: where the count of the programmer's queue was right,
  -- it is then one less than the number of its tasks.
  pub resume_task_uncounted :
      (the_vm : Vm) (v : Value) (tq : Tqueue)
      → (find_or_make_tqueue malloc flush the_vm.progr q).0 ≡ tq
      → Tally q.waiting_tasks tq
      → (tq' : Tqueue) × (tqueue_at tq.address (resume_task malloc flush the_vm v q) ≡ some tq')
        × (tq'.num_bg_tasks +ℤ pos 1
            ≡ pos (tasks_there (resume_task malloc flush the_vm v q).waiting_tasks tq'))
  unfolding resume_task make_ready enqueue_bg_task
  resume_task_uncounted the_vm v tq found right =
      let k = find_or_make-Kept malloc flush the_vm.progr q fresh ok in
      let made = find_or_make_tqueue malloc flush the_vm.progr q in
      let t = task_suspended (record {
        the_vm = the_vm;
        start_tv = record { tv_sec = pos 0; tv_usec = pos 0 };
        value = v;
      }) in
      let w = ensure_usage-Kept made.0 made.1 k.placed k.known in
      let u = (ensure_usage made.0 made.1).0 in
      let q2 = (ensure_usage made.0 made.1).1 in
      let u' = enqueue_bg_task u t in
      let like = woken-LikeQueue made.0 made.1 in
      let s = store-Kept u' q2 w.placed w.known in
      (
        u',
        ap (λ a. tqueue_at a (store u' q2)) (ap (λ u. u.address) (sym found) ∙ sym like.0)
            ∙ tqueue_at-store u' q2 w.placed w.known,
        ap (λ c. c +ℤ pos 1) like.3
            ∙ one_longer made.0.num_bg_tasks (length made.0.bg)
                (count_of made.0.player q.waiting_tasks)
                (subst (Tally q.waiting_tasks) (sym found) right)
            ∙ ap (λ m. pos (m + count_of made.0.player q.waiting_tasks))
                (sym (ap (λ l. length (l ++ (t ∷ []))) like.2 ∙ length_snoc made.0.bg t))
            ∙ ap (λ l. pos (length u'.bg + count_of made.0.player l))
                (sym (s.waiting ∙ w.waiting ∙ k.waiting))
            ∙ ap (λ p. pos (length u'.bg + count_of p (store u' q2).waiting_tasks)) (sym like.1),
      )
