-- ===== src/Tasks/Waiting/Order.antt =====
-- The order of the waiting tasks of server/tasks.c, and which of them `run_ready_tasks` takes.
use nu_moo.Base.{
  ℕ, ◌≡◌, refl, sym, ap, ◌∙◌, inl, inr, Bool, true, false, not, Option, none, some, List, [], ◌∷◌,
  ◌++◌, arith, if◌then◌else◌, Bool-cases, All-imp, All, some_injective,
}
use mathlib.Core.Path.{subst}
use nu_moo.Tasks.{Timeval, BgTask, Queues}
use nu_moo.Tasks.Run.{release}
use nu_moo.Tasks.Tqueues.{store, ensure_usage, enqueue_bg_task, find_or_make_tqueue}
use nu_moo.Tasks.Waiting.{
  before, not_after, start_time, task_progr, insert_waiting, picked_behind, pick, make_ready,
}

-- No start time is before the given one.
abbrev pub NotBefore : Timeval → List BgTask → Type 0
NotBefore a = All (λ w. before (start_time w) a ≡ false)

abbrev pub SortedTimes : List BgTask → Type 0
SortedTimes [] = Unit
SortedTimes (w ∷ ws) = NotBefore (start_time w) ws × SortedTimes ws

before_trans : (a b c : Timeval) → before a b ≡ true → before c b ≡ false → before c a ≡ false
unfolding before
before_trans a b c e f = ground arith

before-not_before : (a b : Timeval) → before a b ≡ true → before b a ≡ false
unfolding before
before-not_before a b e = ground arith

not_after-before : (a b : Timeval) → not_after a b ≡ not (before b a)
unfolding before not_after
not_after-before a b = ground arith

before-behind : (a b c : Timeval) → before a b ≡ true → before c b ≡ false → before a c ≡ true
unfolding before
before-behind a b c e f = ground arith

NotBefore-insert :
    (a : Timeval) (t : BgTask) (ws : List BgTask)
    → before (start_time t) a ≡ false
    → NotBefore a ws
    → NotBefore a (insert_waiting t ws)
unfolding insert_waiting
NotBefore-insert a t [] e h = (e, tt)
NotBefore-insert a t (w ∷ ws) e h =
    go (before (start_time t) (start_time w)) (NotBefore-insert a t ws e h.1)
  where
    go :
        (b : Bool)
        → NotBefore a (insert_waiting t ws)
        → NotBefore a (if b then t ∷ w ∷ ws else w ∷ insert_waiting t ws)
    go true rest = (e, h)
    go false rest = (h.0, rest)

NotBefore-below :
    (a b : Timeval) (ws : List BgTask) → before a b ≡ true → NotBefore b ws → NotBefore a ws
NotBefore-below a b ws e h =
    All-imp (λ w. before (start_time w) b ≡ false) (λ w. before (start_time w) a ≡ false) ws
      (λ w f. before_trans a b (start_time w) e f) h

-- `enqueue_waiting` keeps the waiting tasks in the order of their start times.
pub insert_waiting-SortedTimes :
    (t : BgTask) (ws : List BgTask) → SortedTimes ws → SortedTimes (insert_waiting t ws)
unfolding insert_waiting
insert_waiting-SortedTimes t [] h = (tt, tt)
insert_waiting-SortedTimes t (w ∷ ws) h =
    go (before (start_time t) (start_time w)) refl (insert_waiting-SortedTimes t ws h.1)
  where
    go :
        (b : Bool)
        → before (start_time t) (start_time w) ≡ b
        → SortedTimes (insert_waiting t ws)
        → SortedTimes (if b then t ∷ w ∷ ws else w ∷ insert_waiting t ws)
    go true e rest = (
      (
        before-not_before (start_time t) (start_time w) e,
        NotBefore-below (start_time t) (start_time w) ws e h.0,
      ),
      h,
    )
    go false e rest = (NotBefore-insert (start_time w) t ws e h.0, rest)

pub pick-NotBefore :
    (p : BgTask → Bool) (a : Timeval) (ws : List BgTask) (t : BgTask) (rest : List BgTask)
    → pick p ws ≡ some (t, rest)
    → NotBefore a ws
    → NotBefore a rest
unfolding pick picked_behind
pick-NotBefore p a [] t rest e h = cc e
pick-NotBefore p a (w ∷ ws) t rest e h =
    go (p w) (pick p ws) refl (λ u us f. pick-NotBefore p a ws u us f h.1) e
  where
    go :
        (b : Bool) (m : Option (BgTask × List BgTask))
        → pick p ws ≡ m
        → ((u : BgTask) (us : List BgTask) → pick p ws ≡ some (u, us) → NotBefore a us)
        → (if b then some (w, ws) else picked_behind w m) ≡ some (t, rest)
        → NotBefore a rest
    go true m f sub g = subst (NotBefore a) (ap (λ r. r.1) (some_injective g)) h.1
    go false none f sub g = cc g
    go false (some (u, us)) f sub g =
        subst (NotBefore a) (ap (λ r. r.1) (some_injective g)) (h.0, sub u us f)

-- The tasks that are not due.
abbrev pub not_due : Timeval → List BgTask → List BgTask
not_due now [] = []
not_due now (w ∷ ws) =
    let rest = not_due now ws in if not_after (start_time w) now then rest else w ∷ rest

not_due-all :
    (now a : Timeval) (ws : List BgTask)
    → before now a ≡ true
    → NotBefore a ws
    → not_due now ws ≡ ws
not_due-all now a [] e h = refl
not_due-all now a (w ∷ ws) e h =
    let later : not_after (start_time w) now ≡ false =
      not_after-before (start_time w) now ∙ ap not (before-behind now a (start_time w) e h.0) in
    rw (later, not_due-all now a ws e h.1) refl

-- The tasks that are due.
abbrev pub due : Timeval → List BgTask → List BgTask
due now [] = []
due now (w ∷ ws) = let rest = due now ws in if not_after (start_time w) now then w ∷ rest else rest

due-none :
    (now a : Timeval) (ws : List BgTask) → before now a ≡ true → NotBefore a ws → due now ws ≡ []
due-none now a [] e h = refl
due-none now a (w ∷ ws) e h =
    let later : not_after (start_time w) now ≡ false =
      not_after-before (start_time w) now ∙ ap not (before-behind now a (start_time w) e h.0) in
    rw (later, due-none now a ws e h.1) refl

module _ (malloc : Queues → ℕ) (flush : Option (List ℕ)) where
  -- Each task goes behind the background tasks of its programmer's queue, which is woken for it.
  abbrev pub all_queued : List BgTask → Queues → Queues
  all_queued [] q = q
  all_queued (t ∷ ts) q =
      let (tq, q') = find_or_make_tqueue malloc flush (task_progr t) q in
      let (u, q2) = ensure_usage tq q' in
      all_queued ts (store (record u { bg = u.bg ++ (t ∷ []) }) q2)

  -- Of waiting tasks in the order of their start times, the first loop of `run_ready_tasks` takes
  -- exactly those that are due: in their order, each goes behind the background tasks of its
  -- programmer's queue, which is woken and, where there is none, made; the others go on waiting, in
  -- their order.
  pub release_lem :
      (now : Timeval) (ws : List BgTask) (q : Queues)
      → SortedTimes ws
      → release malloc flush now ws q
        ≡ record (all_queued (due now ws) q) { waiting_tasks = not_due now ws }
  unfolding release make_ready enqueue_bg_task
  release_lem now [] q h = refl
  release_lem now (w ∷ ws) q h =
      let made = find_or_make_tqueue malloc flush (task_progr w) q in
      let sub = release_lem now ws (make_ready w made.0 made.1) h.1 in
      elim (Bool-cases (not_after (start_time w) now)) [
        | inl e ↦ rw e sub
        | inr e ↦
            let ahead : before now (start_time w) ≡ true =
              flipped (before now (start_time w)) (sym (not_after-before (start_time w) now) ∙ e) in
            let none_due = due-none now (start_time w) ws ahead h.0 in
            rw (e, none_due, not_due-all now (start_time w) ws ahead h.0) refl
      ]
    where
      flipped : (b : Bool) → not b ≡ false → b ≡ true
      flipped true e = refl
      flipped false e = cc e
