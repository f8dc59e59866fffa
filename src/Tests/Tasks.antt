-- ===== src/Tests/Tasks.antt =====
-- A queue with lines of both sorts, two active queues, and two waiting tasks.
use nu_moo.Base.{
  ℕ, suc, ◌+◌, ◌≤◌, ◌<◌, ◌≡◌, refl, Bool, true, false, none, some, List, [], ◌∷◌, arith, length,
  codes, take,
}
use nu_moo.Base.Int.{ℤ, pos, ◌+ℤ◌}
use nu_moo.Db.Object.{Objid, same}
use nu_moo.Tasks.{
  Timeval, TaskKind, task_inband, task_oob, InputTask, Vm, BgTask, task_suspended, Tqueue, NetCall,
  Queues,
}
use nu_moo.Tasks.Input.{dq_oob, dequeue_input_task, same_sort}
use nu_moo.Tasks.Input.Dequeue.{dequeue_first, dequeue_input_task-first}
use nu_moo.Tasks.Input.Ends.{Threaded, take_first, wanted}
use nu_moo.Tasks.Run.{
  Ready, read_fails, read_line, out_of_band, command, login, forked, resumed_vm, at_address,
  tqueue_at, release, task_loop,
}
use nu_moo.Tasks.Run.Keeps.{Ordered}
use nu_moo.Tasks.Run.Loop.{task_loop_total}
use nu_moo.Tasks.Run.Steps.{no_queues, by_connection, by_waiting, at_rest, further, Steps-order}
use nu_moo.Tasks.Run.Turns.{after_turns, advances, wait, after_turns-first}
use nu_moo.Tasks.Tqueues.{
  find_player, find_tqueue, icmd_all_cmds, new_tqueue, found_or_new, input_task, enqueue_input_task,
  flush_loop, find_or_make_tqueue, new_task_queue,
}
use nu_moo.Tasks.Tqueues.Arrival.{put_in, arrived, enqueue_input_task_lem}
use nu_moo.Tasks.Tqueues.Flush.{notices, flush_messages, flush_loop_lem}
use nu_moo.Tasks.Tqueues.Keys.{Key, keys, FreeKey, PlacedQueues}
use nu_moo.Tasks.Tqueues.Order.{SortedUsage}
use nu_moo.Tasks.Tqueues.Wake.{FreshAddress}
use nu_moo.Tasks.Search.{kill_waiting, kill_found, kill_task}
use nu_moo.Tasks.Waiting.{
  before, start_time, task_progr, has_id, pick, enqueue_waiting, resume_task,
}
use nu_moo.Tasks.Waiting.Counts.{tasks_there, Tally, enqueue_waiting-Tally, resume_task_uncounted}
use nu_moo.Tasks.Waiting.Denied.{kill_task_denied}
use nu_moo.Tasks.Waiting.Order.{SortedTimes, not_due, due, all_queued, release_lem}
use nu_moo.Value.{Error, e_perm, int}

abbrev line_at : ℕ → TaskKind → List ℕ → InputTask
line_at a kind line = record { address = a; kind = kind; string = line; length = length line }

abbrev lines : List InputTask
lines =
    line_at 10 task_inband (codes "look")
    ∷ line_at 11 task_oob (codes "#$#ping")
    ∷ line_at 12 task_inband (codes "north")
    ∷ []

abbrev queue : ℕ → ℕ → ℤ → Tqueue
queue a p u = record {
  address = a;
  player = pos p;
  handler = pos 0;
  connected = true;
  input = [];
  itail = [];
  total_input_length = pos 0;
  last_input_task_id = pos 0;
  input_suspended = false;
  bg = [];
  usage = u;
  num_bg_tasks = pos 0;
  output_prefix = none;
  output_suffix = none;
  flush_cmd = none;
  program_stream = none;
  hold_input = false;
  disable_oob = false;
  reading = none;
  icmds = icmd_all_cmds;
}

abbrev busy : Tqueue
busy = record (queue 1 5 (pos 2)) {
  input = lines;
  itail = 10 ∷ 11 ∷ 12 ∷ [];
  total_input_length = pos 16;
}

busy-Threaded : Threaded busy
unfolding same_sort
busy-Threaded = record {
  itail = refl;
  total = refl;
  distinct = ((λ e. omega arith, (λ e. omega arith, tt)), ((λ e. omega arith, tt), (tt, tt)));
}

dequeue_input_task-first_example :
    dequeue_input_task busy dq_oob
    ≡ some (dequeue_first busy (take_first (wanted false dq_oob) lines))
dequeue_input_task-first_example = dequeue_input_task-first busy dq_oob busy-Threaded

abbrev active : Queues
active = record {
  idle_tqueues = [];
  active_tqueues = busy ∷ queue 2 6 (pos 3) ∷ [];
  waiting_tasks = [];
}

enqueue_input_task_lem_example :
    (enqueue_input_task 13 busy (codes "say hi") true false active
      ≡ some (
          arrived
            (put_in (input_task 13 (codes "say hi") false) true busy)
            (input_task 13 (codes "say hi") false)
            active))
    × Threaded (put_in (input_task 13 (codes "say hi") false) true busy)
enqueue_input_task_lem_example =
    enqueue_input_task_lem 13 busy (codes "say hi") true false active busy-Threaded
      (λ e. omega arith, (λ e. omega arith, (λ e. omega arith, tt)))

flush_loop_lem_example :
    (tq' : Tqueue) × (calls : List NetCall) × (flush_loop (suc (length lines)) true busy
      ≡ some (tq', calls))
    × (tq'.input ≡ [])
    × (tq'.itail ≡ [])
    × (tq'.total_input_length ≡ pos 0)
    × (notices calls ≡ flush_messages true busy lines)
flush_loop_lem_example = flush_loop_lem true busy busy-Threaded

-- The first turn takes less than a second.
abbrev turns_taken : List (Bool × ℕ)
turns_taken = (true, 0) ∷ (true, 1) ∷ (true, 4) ∷ []

after_turns-first_example :
    (k : ℕ) × (k ≤ 3)
    × (advances (take k turns_taken) ≤ wait (busy ∷ []) (queue 2 6 (pos 3)))
    × (rest : List Tqueue) × ((after_turns (take k turns_taken) active).active_tqueues
        ≡ queue 2 6 (pos 3) ∷ rest)
after_turns-first_example =
    after_turns-first turns_taken active (busy ∷ []) (queue 2 6 (pos 3)) [] refl
      ((omega arith, tt), (tt, tt)) (omega arith)

-- The sum of the addresses, and one.
abbrev sum_of : List Key → ℕ
sum_of [] = 0
sum_of (k ∷ ks) = k.address + sum_of ks

abbrev malloc : Queues → ℕ
malloc q = suc (sum_of (keys q.idle_tqueues) + sum_of (keys q.active_tqueues))

malloc-FreshAddress : FreshAddress malloc
malloc-FreshAddress q = (
  free (malloc q) (keys q.idle_tqueues) (omega arith),
  free (malloc q) (keys q.active_tqueues) (omega arith),
)
  where
    free : (a : ℕ) (ks : List Key) → sum_of ks < a → FreeKey a ks
    free a [] h = tt
    free a (k ∷ ks) h = (λ e. omega arith, free a ks (omega arith))

abbrev some_vm : Vm
some_vm = record { address = 0; task_id = pos 7; progr = pos 5 }

abbrev suspended_until : ℕ → BgTask
suspended_until sec = task_suspended (record {
  the_vm = some_vm;
  start_tv = record { tv_sec = pos sec; tv_usec = pos 0 };
  value = int (pos 0);
})

abbrev nobody_is_wizard : Objid → Bool
nobody_is_wizard p = false

abbrev connected_queues : Queues
connected_queues = (new_task_queue malloc none (pos 5) (pos 0) no_queues).1

abbrev waiting_queues : Queues
waiting_queues = enqueue_waiting malloc none (suspended_until 9) connected_queues

Steps-order_example : SortedUsage waiting_queues.active_tqueues × Ordered waiting_queues
Steps-order_example = Steps-order nobody_is_wizard malloc none waiting_queues malloc-FreshAddress (
    further connected_queues waiting_queues
      (further no_queues connected_queues at_rest (by_connection (pos 5) (pos 0)))
      (by_waiting (suspended_until 9)))

abbrev two_tasks : List BgTask
two_tasks = suspended_until 3 ∷ suspended_until 9 ∷ []

two_tasks-SortedTimes : SortedTimes two_tasks
unfolding before start_time
two_tasks-SortedTimes = ((refl, tt), (tt, tt))

abbrev at_five : Timeval
at_five = record { tv_sec = pos 5; tv_usec = pos 0 }

release_lem_example :
    release malloc none at_five two_tasks no_queues
    ≡ record (all_queued malloc none (due at_five two_tasks) no_queues) {
      waiting_tasks = not_due at_five two_tasks;
    }
release_lem_example = release_lem malloc none at_five two_tasks no_queues two_tasks-SortedTimes

none_placed : PlacedQueues no_queues
none_placed = record {
  sorted = tt;
  used = tt;
  unused = tt;
  idle_distinct = tt;
  active_distinct = tt;
  apart = tt;
}

abbrev made : Tqueue
made = (find_or_make_tqueue malloc none (pos 5) no_queues).0

made_player : made.player ≡ pos 5
unfolding find_or_make_tqueue found_or_new find_tqueue find_player new_tqueue
made_player = refl

made-Tally : Tally [] made
unfolding find_or_make_tqueue found_or_new find_tqueue find_player new_tqueue
made-Tally = refl

enqueue_waiting-Tally_example :
    (tq' : Tqueue) × (tqueue_at made.address
        (enqueue_waiting malloc none (suspended_until 9) no_queues)
      ≡ some tq')
    × Tally (enqueue_waiting malloc none (suspended_until 9) no_queues).waiting_tasks tq'
unfolding task_progr
enqueue_waiting-Tally_example =
    enqueue_waiting-Tally malloc none malloc-FreshAddress no_queues none_placed (suspended_until 9)
      made refl made_player made-Tally

resume_task_uncounted_example :
    (tq' : Tqueue) × (tqueue_at made.address
        (resume_task malloc none some_vm (int (pos 1)) no_queues)
      ≡ some tq')
    × (tq'.num_bg_tasks +ℤ pos 1
        ≡ pos (
            tasks_there
              (resume_task malloc none some_vm (int (pos 1)) no_queues).waiting_tasks
              tq'))
resume_task_uncounted_example =
    resume_task_uncounted malloc none malloc-FreshAddress no_queues none_placed some_vm
      (int (pos 1)) made refl made-Tally

abbrev two_waiting : Queues
two_waiting = record no_queues { waiting_tasks = two_tasks }

abbrev killed : Error × Queues
killed = kill_task nobody_is_wizard (pos 1) (pos 7) (pos 6) none two_waiting

killed_perm : killed.0 ≡ e_perm
unfolding kill_task kill_found kill_waiting pick has_id task_progr same
killed_perm = refl

kill_task_denied_example : killed.1 ≡ two_waiting
kill_task_denied_example =
    kill_task_denied nobody_is_wizard (pos 1) (pos 7) (pos 6) none two_waiting killed.0 killed.1
      refl (λ e. cc (e, killed_perm))

-- Commands do not count here, and nothing changes anything.
abbrev run_nothing : Ready → ℕ → Queues → Bool × Queues
run_nothing (command line) a q = (false, q)
run_nothing _ a q = (true, q)

run_nothing-same :
    (r : Ready) (a : ℕ) (q : Queues) → (run_nothing r a q).0 ≡ false → (run_nothing r a q).1 ≡ q
run_nothing-same (command line) a q e = refl
run_nothing-same (read_fails v) a q e = refl
run_nothing-same (read_line v line) a q e = refl
run_nothing-same (out_of_band line) a q e = refl
run_nothing-same (login line) a q e = refl
run_nothing-same (forked f) a q e = refl
run_nothing-same (resumed_vm v x) a q e = refl

active-Placed : PlacedQueues active
active-Placed = record {
  sorted = ((omega arith, tt), (tt, tt));
  used = (omega arith, (omega arith, tt));
  unused = tt;
  idle_distinct = tt;
  active_distinct = ((λ e. omega arith, tt), (tt, tt));
  apart = tt;
}

busy_found : tqueue_at 1 active ≡ some busy
unfolding tqueue_at at_address
busy_found = refl

task_loop_total_example :
    (r : Bool × Queues × List NetCall) × (task_loop run_nothing 4 1 active [] ≡ some r)
task_loop_total_example =
    task_loop_total run_nothing run_nothing-same 4 1 busy active [] active-Placed busy_found refl
      busy-Threaded (omega arith)
