-- ===== src/Tasks/Waiting.antt =====
-- The waiting tasks of server/tasks.c: forked and suspended tasks in the order of their start times,
-- the limit on them, and the functions that resume a task and read a line. The clock and the values
-- of options are parameters; freeing is not modelled.
pub mod Order
pub mod Counts
pub mod Denied
use nu_moo.Base.{
  ℕ, zero, suc, ◌+◌, ◌-◌, ◌*◌, ◌≤◌, ◌<◌, ◌≡◌, refl, ◌≢◌, Bool, true, false, ◌&&◌, ◌||◌, not, Option,
  none, some, List, [], ◌∷◌, ◌++◌, arith, ◌==◌, if◌then◌else◌, length, ◌>>=◌,
}
use nu_moo.Base.Int.{ℤ, pos, negsuc, pos_part, ◌+ℤ◌, ◌-ℤ◌, ltb_ℤ, leb_ℤ, ◌==ℤ◌, to_int}
use nu_moo.Db.Object.{Objid}
use nu_moo.Db.State.{is_some}
use nu_moo.Tasks.{
  InputTask, Timeval, Vm, ForkedTask, SuspendedTask, BgTask, task_forked, task_suspended, Tqueue,
  NetCall, Queues,
}
use nu_moo.Tasks.Input.{dq_inband, dequeue_input_task}
use nu_moo.Tasks.Tqueues.{
  store, ensure_usage, find_tqueue, enqueue_bg_task, no_more, is_out_of_input, wake,
  find_or_make_tqueue,
}
use nu_moo.Value.{Error, e_none, e_invarg, e_quota, Value, int, str, err}

-- timercmp(a, b, <) and timercmp(a, b, <=)
unfoldable pub before : Timeval → Timeval → Bool
before a b = if a.tv_sec ==ℤ b.tv_sec then ltb_ℤ a.tv_usec b.tv_usec else ltb_ℤ a.tv_sec b.tv_sec

unfoldable pub not_after : Timeval → Timeval → Bool
not_after a b = if a.tv_sec ==ℤ b.tv_sec then leb_ℤ a.tv_usec b.tv_usec else ltb_ℤ a.tv_sec b.tv_sec

unfoldable pub start_time : BgTask → Timeval
start_time (task_forked f) = f.start_tv
start_time (task_suspended s) = s.start_tv

unfoldable pub task_progr : BgTask → Objid
task_progr (task_forked f) = f.progr
task_progr (task_suspended s) = s.the_vm.progr

unfoldable pub has_id : ℤ → BgTask → Bool
has_id i (task_forked f) = f.id ==ℤ i
has_id i (task_suspended s) = s.the_vm.task_id ==ℤ i

unfoldable pub is_suspended_with : ℤ → BgTask → Bool
is_suspended_with i (task_forked f) = false
is_suspended_with i (task_suspended s) = s.the_vm.task_id ==ℤ i

unfoldable pub insert_waiting : BgTask → List BgTask → List BgTask
insert_waiting t [] = t ∷ []
insert_waiting t (w ∷ ws) =
    let rest = insert_waiting t ws in
    if before (start_time t) (start_time w) then t ∷ w ∷ ws else w ∷ rest

-- The first task that passes a test, and the chain without it.
unfoldable pub picked_behind :
    BgTask → Option (BgTask × List BgTask) → Option (BgTask × List BgTask)
picked_behind w none = none
picked_behind w (some (t, rest)) = some (t, w ∷ rest)

unfoldable pub pick : (BgTask → Bool) → List BgTask → Option (BgTask × List BgTask)
pick p [] = none
pick p (w ∷ ws) = let rest = pick p ws in if p w then some (w, ws) else picked_behind w rest

unfoldable pub counted : ℤ → Tqueue → Tqueue
counted n tq = record tq { num_bg_tasks = tq.num_bg_tasks +ℤ n }

-- check_user_task_limit: the value of the user's property `queued_task_limit`, where it is an
-- integer, and the server's option.
unfoldable pub task_limit : Option ℤ → ℤ → ℤ
task_limit none option = option
task_limit (some v) option = if ltb_ℤ (to_int v) (pos 0) then option else to_int v

unfoldable pub tasks_of : Option Tqueue → ℤ
tasks_of none = pos 0
tasks_of (some tq) = tq.num_bg_tasks

unfoldable pub check_user_task_limit : Option ℤ → ℤ → Objid → Queues → Bool
check_user_task_limit property option user q =
    let limit = task_limit property option in
    if ltb_ℤ limit (pos 0) then true else ltb_ℤ (tasks_of (find_tqueue user q)) limit

-- ensure_usage(tq) and enqueue_bg_task(tq, t), in either order
unfoldable pub make_ready : BgTask → Tqueue → Queues → Queues
make_ready t tq q = let (tq', q') = ensure_usage tq q in store (enqueue_bg_task tq' t) q'

module _ (malloc : Queues → ℕ) (flush : Option (List ℕ)) where
  unfoldable pub enqueue_waiting : BgTask → Queues → Queues
  enqueue_waiting t q =
      let (tq, q') = find_or_make_tqueue malloc flush (task_progr t) q in
      let q2 = store (counted (pos 1) tq) q' in
      record q2 { waiting_tasks = insert_waiting t q2.waiting_tasks }

  -- enqueue_ft: the task with its number and its start time
  unfoldable pub enqueue_ft : ForkedTask → ℤ → Timeval → Queues → Queues
  enqueue_ft f i when q = enqueue_waiting (task_forked (record f { id = i; start_tv = when })) q

  -- enqueue_forked_task2, without the variable that is set to the task's number
  unfoldable pub enqueue_forked_task : Bool → ForkedTask → ℤ → Timeval → Queues → Error × Queues
  enqueue_forked_task allowed f i when q =
      if allowed then (e_none, enqueue_ft f i when q) else (e_quota, q)

  -- INT32_MAX
  abbrev pub never_starts : Timeval
  never_starts = record { tv_sec = pos 2147483647; tv_usec = pos 0 }

  abbrev pub start_or_never : Option Timeval → Timeval
  start_or_never none = never_starts
  start_or_never (some t) = t

  unfoldable pub enqueue_suspended_task : Bool → Vm → Option Timeval → Queues → Error × Queues
  enqueue_suspended_task allowed the_vm when q =
      let t : SuspendedTask = record {
        the_vm = the_vm;
        start_tv = start_or_never when;
        value = int (pos 0);
      } in
      if allowed then (e_none, enqueue_waiting (task_suspended t) q) else (e_quota, q)

  unfoldable pub resume_task : Vm → Value → Queues → Queues
  resume_task the_vm value q =
      let (tq, q') = find_or_make_tqueue malloc flush the_vm.progr q in
      let ready_now : Timeval = record { tv_sec = pos 0; tv_usec = pos 0 } in
      make_ready (task_suspended (record { the_vm = the_vm; start_tv = ready_now; value = value }))
        tq q'

unfoldable pub last_input_task_id : Objid → Queues → ℤ
last_input_task_id p q = elim (find_tqueue p q) [ none ↦ pos 0 | some tq ↦ tq.last_input_task_id ]

-- read_input_now: E_INVARG, 0, or the line
unfoldable pub read_value : Option InputTask → Value
read_value none = int (pos 0)
read_value (some t) = str t.string

unfoldable pub read_from : Option Tqueue → Queues → Option (Value × Queues × List NetCall)
read_from none q = some (err e_invarg, q, [])
read_from (some tq) q =
    if is_out_of_input tq
    then some (err e_invarg, q, [])
    else (dequeue_input_task tq dq_inband >>= λ (m, tq', calls).
        some (read_value m, store tq' q, calls))

unfoldable pub read_input_now : Objid → Queues → Option (Value × Queues × List NetCall)
read_input_now p q = read_from (find_tqueue p q) q

unfoldable pub read_on : Vm → Option Tqueue → Queues → Error × Queues
read_on the_vm none q = (e_invarg, q)
read_on the_vm (some tq) q =
    let tq' = record tq { reading = some the_vm } in
    if is_some tq.reading || is_out_of_input tq
    then (e_invarg, q)
    else (e_none, (wake (not (no_more tq.input)) tq' (store tq' q)).1)

unfoldable pub make_reading_task : Vm → Objid → Queues → Error × Queues
make_reading_task the_vm p q = read_on the_vm (find_tqueue p q) q

-- next_task_start: the time until the first waiting task starts, in microseconds
unfoldable pub has_work : List Tqueue → Bool
has_work [] = false
has_work (h ∷ hs) = not (no_more h.input) || (not (no_more h.bg) || has_work hs)

-- timersub, for microseconds below a million
unfoldable pub timersub : Timeval → Timeval → Timeval
timersub a b =
    let sec = a.tv_sec -ℤ b.tv_sec in
    let usec = a.tv_usec -ℤ b.tv_usec in
    if ltb_ℤ usec (pos 0)
    then record { tv_sec = sec -ℤ pos 1; tv_usec = usec +ℤ pos 1000000 }
    else record { tv_sec = sec; tv_usec = usec }

-- The bound of 9 seconds is put on a delay that is not in the past.
unfoldable pub delay : Timeval → ℤ
delay d =
    if ltb_ℤ d.tv_sec (pos 0) || ltb_ℤ d.tv_usec (pos 0)
    then pos 0
    else d.tv_usec +ℤ pos (pos_part (if ltb_ℤ (pos 9) d.tv_sec then pos 9 else d.tv_sec) * 1000000)

unfoldable pub first_start : Timeval → List BgTask → ℤ
first_start now [] = negsuc 0
first_start now (t ∷ ts) = delay (timersub (start_time t) now)

unfoldable pub next_task_start : Timeval → Queues → ℤ
next_task_start now q = if has_work q.active_tqueues then pos 0 else first_start now q.waiting_tasks
