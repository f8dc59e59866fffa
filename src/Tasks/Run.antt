-- ===== src/Tasks/Run.antt =====
-- `run_ready_tasks` of server/tasks.c: waiting tasks whose time has come join the queues of their
-- programmers, one queue is served, and empty queues are freed. What a task does when it runs is a
-- parameter, which takes the address of the queue and says whether the task counts; the command
-- history is not modelled.
pub mod Turns
pub mod Keeps
pub mod Loop
pub mod Steps
pub mod Arrivals
pub mod Calls
pub mod Ends
pub mod Searches
use nu_moo.Base.{
  ℕ, zero, suc, Bool, true, false, ◌&&◌, not, Option, none, some, List, [], ◌∷◌, ◌++◌, ◌==◌,
  if◌then◌else◌, ◌>>=◌,
}
use nu_moo.Base.Int.{ℤ, pos, ◌+ℤ◌, leb_ℤ, ◌==ℤ◌}
use nu_moo.Db.State.{is_some}
use nu_moo.Tasks.{
  TaskKind, task_inband, task_oob, task_quoted, task_binary, InputTask, Timeval, Vm, ForkedTask,
  BgTask, task_forked, task_suspended, Tqueue, NetCall, Queues,
}
use nu_moo.Tasks.Input.{DequeueHow, dq_first, dq_oob, dequeue_input_task}
use nu_moo.Tasks.Tqueues.{
  store, deactivate_tqueue, activate_tqueue, first_of, free_tqueue, dequeue_bg_task, no_more,
  is_out_of_input, find_or_make_tqueue,
}
use nu_moo.Tasks.Waiting.{not_after, start_time, task_progr, make_ready}
use nu_moo.Value.{Value}

-- What is run for a task.
pub data Ready : Type 0 where
  read_fails : Vm → Ready
  read_line : Vm → List ℕ → Ready
  out_of_band : List ℕ → Ready
  command login : List ℕ → Ready
  forked : ForkedTask → Ready
  resumed_vm : Vm → Value → Ready

unfoldable pub at_address : ℕ → List Tqueue → Option Tqueue
at_address a [] = none
at_address a (h ∷ hs) = let rest = at_address a hs in if h.address == a then some h else rest

unfoldable pub tqueue_at : ℕ → Queues → Option Tqueue
tqueue_at a q = first_of (at_address a q.active_tqueues) (at_address a q.idle_tqueues)

-- tq->next, on the active queues
unfoldable pub queues_behind : ℕ → List Tqueue → List Tqueue
queues_behind a [] = []
queues_behind a (h ∷ hs) = let rest = queues_behind a hs in if h.address == a then hs else rest

-- (tq->hold_input && !tq->reading) ? DQ_OOB : DQ_FIRST
unfoldable pub how_to_dequeue : Tqueue → DequeueHow
how_to_dequeue tq = if tq.hold_input && not (is_some tq.reading) then dq_oob else dq_first

-- The queue behind a turn: its usage is bumped, or it is deactivated.
unfoldable pub end_turn : Bool → ℤ → Tqueue → Queues → Queues
end_turn did_one elapsed tq q =
    let q' = record q { active_tqueues = queues_behind tq.address q.active_tqueues } in
    if did_one
    then activate_tqueue (record tq { usage = tq.usage +ℤ elapsed }) q'
    else deactivate_tqueue tq q'

-- The loop that frees queues.
unfoldable pub is_dead : Tqueue → Bool
is_dead tq = not tq.connected && (no_more tq.input && (tq.num_bg_tasks ==ℤ pos 0))

unfoldable pub free_dead : List Tqueue → Queues → Queues
free_dead [] q = q
free_dead (h ∷ hs) q =
    let freed = free_dead hs (free_tqueue h q) in
    let kept = free_dead hs q in if is_dead h then freed else kept

module _ (malloc : Queues → ℕ) (flush : Option (List ℕ)) where
  -- The loop over the waiting tasks.
  unfoldable pub release : Timeval → List BgTask → Queues → Queues
  release now [] q = record q { waiting_tasks = [] }
  release now (t ∷ ts) q =
      let (tq, q') = find_or_make_tqueue malloc flush (task_progr t) q in
      let rest = release now ts (make_ready t tq q') in
      if not_after (start_time t) now then rest else record q { waiting_tasks = t ∷ ts }

module _ (execute : Ready → ℕ → Queues → Bool × Queues) where
  abbrev pub Served : Type 0
  Served = Option (Bool × Queues × List NetCall)

  -- A task that counts whatever it does.
  unfoldable pub counts : Ready → ℕ → Queues → List NetCall → Served
  counts r a q calls = some (true, (execute r a q).1, calls)

  unfoldable pub run_bg : Tqueue → Queues → List NetCall → BgTask → Served
  run_bg tq q calls (task_forked f) = counts (forked f) tq.address q calls
  run_bg tq q calls (task_suspended s) = counts (resumed_vm s.the_vm s.value) tq.address q calls

  unfoldable pub run_line : Tqueue → Queues → List NetCall → List ℕ → Option Vm → Served
  run_line tq q calls line (some the_vm) =
      counts (read_line the_vm line) tq.address (store (record tq { reading = none }) q) calls
  run_line tq q calls line none =
      let (did_one, q') =
        execute (if leb_ℤ (pos 0) tq.player then command line else login line) tq.address q in
      some (did_one, q', calls)

  unfoldable pub run_input : Tqueue → Queues → List NetCall → TaskKind → List ℕ → Served
  run_input tq q calls task_oob line = counts (out_of_band line) tq.address q calls
  run_input tq q calls task_binary line = run_line tq q calls line tq.reading
  run_input tq q calls task_inband line = run_line tq q calls line tq.reading
  run_input tq q calls task_quoted line = none

  -- One round of the loop over tasks; `again` is the loop.
  unfoldable pub run_or_break :
      Queues → List NetCall → Option BgTask × Tqueue → (Queues → List NetCall → Served) → Served
  run_or_break q calls (none, tq) again = some (false, q, calls)
  run_or_break q calls (some t, tq) again = run_bg tq (store tq q) calls t

  unfoldable pub go_around : Served → (Queues → List NetCall → Served) → Served
  go_around none again = none
  go_around (some (true, q, calls)) again = some (true, q, calls)
  go_around (some (false, q, calls)) again = again q calls

  unfoldable pub run_one :
      Queues
      → List NetCall
      → Option InputTask × Tqueue × List NetCall
      → (Queues → List NetCall → Served)
      → Served
  run_one q calls (some t, tq, more) again =
      go_around (run_input tq (store tq q) (calls ++ more) t.kind t.string) again
  run_one q calls (none, tq, more) again = run_or_break q calls (dequeue_bg_task tq) again

  unfoldable pub task_loop : ℕ → ℕ → Queues → List NetCall → Served
  task_loop zero a q calls = none
  task_loop (suc k) a q calls = tqueue_at a q >>= λ tq.
      dequeue_input_task tq (how_to_dequeue tq) >>= λ r. run_one q calls r (task_loop k a)

  -- One turn of the loop over queues, on its first queue.
  unfoldable pub turn_of : ℕ → Tqueue → Queues → Option Vm → Served
  turn_of k tq q none = task_loop k tq.address q []
  turn_of k tq q (some the_vm) =
      if is_out_of_input tq
      then counts (read_fails the_vm) tq.address (store (record tq { reading = none }) q) []
      else task_loop k tq.address q []

  unfoldable pub turn : ℕ → ℤ → Tqueue → Queues → Served
  turn k elapsed tq q = turn_of k tq q tq.reading >>= λ (did_one, q', calls).
      tqueue_at tq.address q' >>= λ tq'. some (did_one, end_turn did_one elapsed tq' q', calls)

  unfoldable pub turns_from : (Queues → Served) → ℕ → ℤ → Queues → List Tqueue → Served
  turns_from again k elapsed q [] = some (false, q, [])
  turns_from again k elapsed q (tq ∷ tqs) = turn k elapsed tq q >>= λ (did_one, q', calls).
      (if did_one
        then some (true, q', calls)
        else (again q' >>= λ (did, q2, more). some (did, q2, calls ++ more)))

  unfoldable pub turns : ℕ → ℕ → ℤ → Queues → Served
  turns zero k elapsed q = none
  turns (suc j) k elapsed q = turns_from (turns j k elapsed) k elapsed q q.active_tqueues

  module _ (malloc : Queues → ℕ) (flush : Option (List ℕ)) where
    -- `j` bounds the turns, `k` the tasks of a turn; `elapsed` is end - start.
    unfoldable pub run_ready_tasks : ℕ → ℕ → Timeval → ℤ → Queues → Option (Queues × List NetCall)
    run_ready_tasks j k now elapsed q =
        turns j k elapsed (release malloc flush now q.waiting_tasks q) >>= λ (did_one, q', calls).
        some (free_dead q'.idle_tqueues q', calls)
