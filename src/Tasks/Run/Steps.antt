-- ===== src/Tasks/Run/Steps.antt =====
-- Sequences of operations on the queues of server/tasks.c.
use nu_moo.Base.{ℕ, ◌≡◌, Bool, false, ◌&&◌, not, Option, some, List, [], ◌∷◌}
use nu_moo.Base.Int.{ℤ, pos}
use nu_moo.Db.Object.{Objid}
use nu_moo.Db.Objects.Creation.{fresh}
use nu_moo.Db.State.{is_some}
use nu_moo.Tasks.{Timeval, Vm, BgTask, Tqueue, NetCall, Queues}
use nu_moo.Tasks.Run.{tqueue_at, end_turn, free_dead, release}
use nu_moo.Tasks.Run.Arrivals.{
  woken, new_input_task-Ordered, read_input_now-Ordered, make_reading_task-Ordered,
  new_task_queue-Ordered, task_suspend_input-Ordered,
}
use nu_moo.Tasks.Calls.{CallResult, force_line, flush_lines}
use nu_moo.Tasks.Run.Calls.{force_line-Ordered, flush_lines-Ordered}
use nu_moo.Tasks.Run.Ends.{end_turn-Ordered, free_dead-Ordered}
use nu_moo.Tasks.Run.Keeps.{Ordered, enqueue_waiting-Ordered, resume_task-Ordered, release-Ordered}
use nu_moo.Tasks.Run.Searches.{kill_task-Ordered, do_resume-Ordered}
use nu_moo.Tasks.Tqueues.{
  no_more, task_suspend_input, new_input_task, free_task_queue, set_hold_input, new_task_queue,
}
use nu_moo.Tasks.Tqueues.Keys.{SortedKeys-Usage}
use nu_moo.Tasks.Tqueues.Order.{SortedUsage}
use nu_moo.Tasks.Tqueues.Wake.{tqueue_at-Known, FreshAddress}
use nu_moo.Tasks.Search.{kill_task, do_resume}
use nu_moo.Tasks.Waiting.{enqueue_waiting, resume_task, read_input_now, make_reading_task}
use nu_moo.Value.{Error, Value}

abbrev pub no_queues : Queues
no_queues = record { idle_tqueues = []; active_tqueues = []; waiting_tasks = [] }

module _ (is_wizard : Objid → Bool) (malloc : Queues → ℕ) (flush : Option (List ℕ)) where
  -- What the server does with the queues, one operation at a time. The queue that is given is one of
  -- them, and its place is that of a queue that stands there.
  pub data Step (q : Queues) : Queues → Type 0 where
    by_connection : (p handler : Objid) → Step q ((new_task_queue malloc flush p handler q).1)
    by_closing : (a : ℕ) (tq : Tqueue) → tqueue_at a q ≡ some tq → Step q (free_task_queue tq q)
    by_holding :
        (a : ℕ) (tq : Tqueue) (v : Bool) → tqueue_at a q ≡ some tq → Step q (set_hold_input tq v q)
    by_suspending :
        (a : ℕ) (tq : Tqueue) → tqueue_at a q ≡ some tq → Step q ((task_suspend_input tq q).0)
    by_line_of_input :
        (a : ℕ) (tq : Tqueue) (b : ℕ) (line : List ℕ) (binary : Bool) (q' : Queues)
        (calls : List NetCall)
        → tqueue_at a q ≡ some tq
        → new_input_task b tq line binary q ≡ some (q', calls)
        → Step q q'
    by_reading_now :
        (p : Objid) (v : Value) (q' : Queues) (calls : List NetCall)
        → read_input_now p q ≡ some (v, q', calls)
        → Step q q'
    by_reading : (the_vm : Vm) (p : Objid) → Step q ((make_reading_task the_vm p q).1)
    by_waiting : (t : BgTask) → Step q (enqueue_waiting malloc flush t q)
    by_resuming_task : (the_vm : Vm) (v : Value) → Step q (resume_task malloc flush the_vm v q)
    by_resuming :
        (i : ℤ) (now : Timeval) (v : Value) (progr : Objid)
        → Step q ((do_resume is_wizard malloc flush i now v progr q).1)
    by_killing :
        (current i : ℤ) (owner : Objid) (external : Option Error)
        → Step q ((kill_task is_wizard current i owner external q).1)
    by_forced_input :
        (a : ℕ) (progr conn : Objid) (line : List ℕ) (at_front : Bool) (r : CallResult)
        (q' : Queues) (calls : List NetCall)
        → force_line is_wizard malloc flush a progr conn line at_front q ≡ some (r, q', calls)
        → Step q q'
    by_flushed_input :
        (progr conn : Objid) (show_messages : Bool) (r : CallResult) (q' : Queues)
        (calls : List NetCall)
        → flush_lines is_wizard malloc flush progr conn show_messages q ≡ some (r, q', calls)
        → Step q q'
    by_releasing : (now : Timeval) → Step q (release malloc flush now q.waiting_tasks q)
    by_end_of_turn :
        (did_one : Bool) (n : ℕ) (h : Tqueue) (hs : List Tqueue)
        → q.active_tqueues ≡ h ∷ hs
        → Step q (end_turn did_one (pos n) h q)
    by_freeing : Step q (free_dead q.idle_tqueues q)

  pub data Steps (q : Queues) : Queues → Type 0 where
    at_rest : Steps q q
    further : (q' q2 : Queues) → Steps q q' → Step q' q2 → Steps q q2

  module _ (fresh : FreshAddress malloc) where
    Step-Ordered : (q q' : Queues) → Ordered q → Step q q' → Ordered q'
    unfolding free_task_queue set_hold_input
    Step-Ordered q _ ok (by_connection p handler) =
        new_task_queue-Ordered malloc flush p handler q fresh ok
    Step-Ordered q _ ok (by_closing a tq e) =
        woken (is_some tq.reading) (record tq { connected = false }) q ok (tqueue_at-Known a q tq e)
    Step-Ordered q _ ok (by_holding a tq v e) =
        woken (not v && not (no_more tq.input)) (record tq { hold_input = v }) q ok
          (tqueue_at-Known a q tq e)
    Step-Ordered q _ ok (by_suspending a tq e) =
        task_suspend_input-Ordered tq q ok (tqueue_at-Known a q tq e)
    Step-Ordered q q' ok (by_line_of_input a tq b line binary _ calls e f) =
        new_input_task-Ordered b tq line binary q q' calls ok (tqueue_at-Known a q tq e) f
    Step-Ordered q q' ok (by_reading_now p v _ calls e) = read_input_now-Ordered p q q' v calls ok e
    Step-Ordered q _ ok (by_reading the_vm p) = make_reading_task-Ordered the_vm p q ok
    Step-Ordered q _ ok (by_waiting t) = enqueue_waiting-Ordered malloc flush fresh t q ok
    Step-Ordered q _ ok (by_resuming_task the_vm v) =
        resume_task-Ordered malloc flush fresh the_vm v q ok
    Step-Ordered q _ ok (by_resuming i now v progr) =
        do_resume-Ordered is_wizard malloc flush fresh i now v progr q ok
    Step-Ordered q _ ok (by_killing current i owner external) =
        kill_task-Ordered is_wizard current i owner external q ok
    Step-Ordered q q' ok (by_forced_input a progr conn line at_front r _ calls e) =
        force_line-Ordered is_wizard malloc flush fresh a progr conn line at_front q r q' calls ok e
    Step-Ordered q q' ok (by_flushed_input progr conn show r _ calls e) =
        flush_lines-Ordered is_wizard malloc flush fresh progr conn show q r q' calls ok e
    Step-Ordered q _ ok (by_releasing now) = release-Ordered malloc flush fresh now q ok
    Step-Ordered q _ ok (by_end_of_turn did_one n h hs e) = end_turn-Ordered did_one n h hs q e ok
    Step-Ordered q _ ok by_freeing = free_dead-Ordered q.idle_tqueues q ok

    Steps-Ordered : (q q' : Queues) → Ordered q → Steps q q' → Ordered q'
    Steps-Ordered q _ ok at_rest = ok
    Steps-Ordered q _ ok (further q' q2 s t) = Step-Ordered q' q2 (Steps-Ordered q q' ok s) t

  -- After any sequence of operations from no queues at all, where allocation gives an address that
  -- no queue has and the clock does not go back during a turn: the active queues stand in the order of their usage, none of which is negative;
  -- the idle ones have none; no two queues have one address; and the waiting tasks stand in the order
  -- of their start times.
  pub Steps-order :
      (q : Queues)
      → FreshAddress malloc
      → Steps no_queues q
      → SortedUsage q.active_tqueues × Ordered q
  Steps-order q fresh s =
      let ok = Steps-Ordered fresh no_queues q none_ordered s in
      (SortedKeys-Usage q.active_tqueues ok.placed.sorted, ok)
    where
      none_ordered : Ordered no_queues
      none_ordered = record {
        placed = record {
          sorted = tt;
          used = tt;
          unused = tt;
          idle_distinct = tt;
          active_distinct = tt;
          apart = tt;
        };
        times = tt;
      }
