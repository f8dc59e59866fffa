-- ===== src/Tasks/Run/Keeps.antt =====
-- The operations of server/tasks.c on waiting and background tasks keep the order of the queues and
-- of the waiting tasks.
use nu_moo.Base.{
  ℕ, sym, ap, ◌∙◌, inl, inr, Bool, true, false, Option, List, [], ◌∷◌, if◌then◌else◌, Bool-cases,
}
use mathlib.Core.Path.{subst}
use nu_moo.Base.Int.{pos}
use nu_moo.Db.Object.{Objid}
use nu_moo.Tasks.{Timeval, Vm, BgTask, task_suspended, Tqueue, Queues}
use nu_moo.Tasks.Run.{release}
use nu_moo.Tasks.Tqueues.{store, ensure_usage, enqueue_bg_task, find_or_make_tqueue}
use nu_moo.Tasks.Tqueues.Keys.{PlacedQueues, KnownTo}
use nu_moo.Tasks.Tqueues.Wake.{Kept, FreshAddress, find_or_make-Kept, ensure_usage-Kept, store-Kept}
use nu_moo.Tasks.Waiting.{
  not_after, start_time, task_progr, counted, make_ready, enqueue_waiting, resume_task,
}
use nu_moo.Tasks.Waiting.Order.{
  NotBefore, SortedTimes, insert_waiting-SortedTimes, not_due, release_lem,
}
use nu_moo.Value.{Value}

pub record Ordered (q : Queues) : Type 0 where
  pub placed : PlacedQueues q
  pub times : SortedTimes q.waiting_tasks

pub Kept-Ordered : (q : Queues) (tq : Tqueue) (q' : Queues) → Ordered q → Kept q tq q' → Ordered q'
Kept-Ordered q tq q' ok k = record {
  placed = k.placed;
  times = subst SortedTimes (sym k.waiting) ok.times;
}

Kept-trans :
    (q : Queues) (tq : Tqueue) (q' : Queues) (tq2 : Tqueue) (q2 : Queues)
    → Kept q tq q'
    → Kept q' tq2 q2
    → Kept q tq2 q2
Kept-trans q tq q' tq2 q2 a b = record {
  placed = b.placed;
  known = b.known;
  waiting = b.waiting ∙ a.waiting;
}

pub make_ready-Kept :
    (t : BgTask) (tq : Tqueue) (q : Queues)
    → PlacedQueues q
    → KnownTo tq q
    → Kept q (enqueue_bg_task ((ensure_usage tq q).0) t) (make_ready t tq q)
unfolding make_ready enqueue_bg_task
make_ready-Kept t tq q ok i =
    let w = ensure_usage-Kept tq q ok i in
    let tq' = (ensure_usage tq q).0 in
    let q' = (ensure_usage tq q).1 in
    let tq2 = enqueue_bg_task tq' t in
    Kept-trans q tq' q' tq2 (store tq2 q') w (store-Kept tq2 q' w.placed w.known)

module _ (malloc : Queues → ℕ) (flush : Option (List ℕ)) (fresh : FreshAddress malloc) where
  -- A task for the queue of its programmer, which is made where there is none.
  pub find_then-make_ready :
      (p : Objid) (t : BgTask) (q : Queues)
      → PlacedQueues q
      → Kept q
          (enqueue_bg_task
            ((ensure_usage
              ((find_or_make_tqueue malloc flush p q).0)
              ((find_or_make_tqueue malloc flush p q).1)).0)
            t)
          (make_ready t
            ((find_or_make_tqueue malloc flush p q).0)
            ((find_or_make_tqueue malloc flush p q).1))
  find_then-make_ready p t q ok =
      let k = find_or_make-Kept malloc flush p q fresh ok in
      let tq = (find_or_make_tqueue malloc flush p q).0 in
      let q' = (find_or_make_tqueue malloc flush p q).1 in
      Kept-trans q tq q' (enqueue_bg_task ((ensure_usage tq q').0) t) (make_ready t tq q') k
        (make_ready-Kept t tq q' k.placed k.known)

  pub enqueue_waiting-Ordered :
      (t : BgTask) (q : Queues) → Ordered q → Ordered (enqueue_waiting malloc flush t q)
  unfolding enqueue_waiting counted
  enqueue_waiting-Ordered t q ok =
      let k = find_or_make-Kept malloc flush (task_progr t) q fresh ok.placed in
      let tq = (find_or_make_tqueue malloc flush (task_progr t) q).0 in
      let q' = (find_or_make_tqueue malloc flush (task_progr t) q).1 in
      let tq' = counted (pos 1) tq in
      let s = Kept-trans q tq q' tq' (store tq' q') k (store-Kept tq' q' k.placed k.known) in
      record {
        placed = s.placed;
        times =
            insert_waiting-SortedTimes t (store tq' q').waiting_tasks
              (subst SortedTimes (sym s.waiting) ok.times);
      }

  pub resume_task-Ordered :
      (the_vm : Vm) (v : Value) (q : Queues)
      → Ordered q
      → Ordered (resume_task malloc flush the_vm v q)
  unfolding resume_task
  resume_task-Ordered the_vm v q ok =
      let t = task_suspended (record {
        the_vm = the_vm;
        start_tv = record { tv_sec = pos 0; tv_usec = pos 0 };
        value = v;
      }) in
      Kept-Ordered q _ _ ok (find_then-make_ready the_vm.progr t q ok.placed)

  SortedTimes-not_due :
      (now : Timeval) (ws : List BgTask) → SortedTimes ws → SortedTimes (not_due now ws)
  SortedTimes-not_due now [] h = tt
  SortedTimes-not_due now (w ∷ ws) h =
      go (not_after (start_time w) now) (SortedTimes-not_due now ws h.1)
    where
      less : (a : Timeval) (us : List BgTask) → NotBefore a us → NotBefore a (not_due now us)
      less a [] k = tt
      less a (u ∷ us) k = go_less (not_after (start_time u) now) (less a us k.1)
        where
          go_less :
              (b : Bool)
              → NotBefore a (not_due now us)
              → NotBefore a (if b then not_due now us else u ∷ not_due now us)
          go_less true rest = rest
          go_less false rest = (k.0, rest)

      go :
          (b : Bool)
          → SortedTimes (not_due now ws)
          → SortedTimes (if b then not_due now ws else w ∷ not_due now ws)
      go true rest = rest
      go false rest = (less (start_time w) ws h.0, rest)

  release-placed :
      (now : Timeval) (ws : List BgTask) (q : Queues)
      → PlacedQueues q
      → PlacedQueues (release malloc flush now ws q)
  unfolding release
  release-placed now [] q ok = ok
  release-placed now (w ∷ ws) q ok =
      let made = find_or_make_tqueue malloc flush (task_progr w) q in
      let k = find_then-make_ready (task_progr w) w q ok in
      let sub = release-placed now ws (make_ready w made.0 made.1) k.placed in
      elim (Bool-cases (not_after (start_time w) now)) [ inl e ↦ rw e sub | inr e ↦ rw e ok ]

  pub release-Ordered :
      (now : Timeval) (q : Queues)
      → Ordered q
      → Ordered (release malloc flush now q.waiting_tasks q)
  release-Ordered now q ok = record {
    placed = release-placed now q.waiting_tasks q ok.placed;
    times =
        subst SortedTimes
          (sym
            (ap (λ r. r.waiting_tasks) (release_lem malloc flush now q.waiting_tasks q ok.times)))
          (SortedTimes-not_due now q.waiting_tasks ok.times);
  }
