-- ===== src/Tasks/Tqueues/Arrival.antt =====
-- `enqueue_input_task` of server/tasks.c keeps the input queue in order.
use nu_moo.Base.{
  ℕ, ◌+◌, ◌≡◌, refl, sym, ap, ◌∙◌, Bool, true, false, Option, some, List, [], ◌∷◌, arith, ◌>>=◌,
}
use nu_moo.Base.Int.{pos, ◌+ℤ◌}
use nu_moo.Tasks.{InputTask, Tqueue, NetCall, Queues}
use nu_moo.Tasks.Input.{put_task}
use nu_moo.Tasks.Input.Ends.{
  ends, Apart, DistinctTasks, total_length, Threaded, DistinctTasks-snoc, total_length-append,
}
use nu_moo.Tasks.Input.Enqueue.{with_input, put_task_lem}
use nu_moo.Tasks.Tqueues.{
  store, input_task, suspend_input, wakes, wake, with_task_in, enqueue_input_task,
}

-- The queue with a task more, at the front or at the rear.
abbrev pub put_in : InputTask → Bool → Tqueue → Tqueue
put_in t at_front tq = record tq {
  input = with_input t at_front tq.input;
  itail = ends (with_input t at_front tq.input);
  total_input_length = tq.total_input_length +ℤ pos t.length;
}

abbrev pub arrived : Tqueue → InputTask → Queues → Queues × List NetCall
arrived tq t q = let (woken, q') = wake (wakes tq t) tq (store tq q) in suspend_input woken q'

total_length-with_input :
    (t : InputTask) (at_front : Bool) (input : List InputTask)
    → total_length (with_input t at_front input) ≡ total_length input + t.length
total_length-with_input t true input = omega arith
total_length-with_input t false input = omega (arith, total_length-append input (t ∷ []))

DistinctTasks-with_input :
    (t : InputTask) (at_front : Bool) (input : List InputTask)
    → Apart t.address input
    → DistinctTasks input
    → DistinctTasks (with_input t at_front input)
DistinctTasks-with_input t true input h d = (h, d)
DistinctTasks-with_input t false input h d = DistinctTasks-snoc input t h d

put_in-Threaded :
    (t : InputTask) (at_front : Bool) (tq : Tqueue)
    → Threaded tq
    → Apart t.address tq.input
    → Threaded (put_in t at_front tq)
put_in-Threaded t at_front tq ok h = record {
  itail = refl;
  total =
      ap (λ n. n +ℤ pos t.length) ok.total
      ∙ plus (total_length tq.input) t.length
      ∙ ap pos (sym (total_length-with_input t at_front tq.input));
  distinct = DistinctTasks-with_input t at_front tq.input h ok.distinct;
}
  where
    plus : (m n : ℕ) → pos m +ℤ pos n ≡ pos (m + n)
    plus m n = ground arith

-- On a queue whose chain of sequence ends and total length are right, and with an address that none
-- of its tasks has, `enqueue_input_task` follows no null pointer: it puts the line, as a task of its
-- kind, before or behind all others, wakes the queue where the line can be worked on, and then asks
-- for the suspension of input that has become too long. The chain and the length are right again.
pub enqueue_input_task_lem :
    (a : ℕ) (tq : Tqueue) (line : List ℕ) (at_front binary : Bool) (q : Queues)
    → Threaded tq
    → Apart a tq.input
    → (enqueue_input_task a tq line at_front binary q
        ≡ some
            (arrived (put_in (input_task a line binary) at_front tq) (input_task a line binary) q))
      × Threaded (put_in (input_task a line binary) at_front tq)
unfolding enqueue_input_task with_task_in input_task
enqueue_input_task_lem a tq line at_front binary q ok h =
    let t = input_task a line binary in
    let go : Option (List InputTask × List ℕ) → Option (Queues × List NetCall) =
      λ m. m >>= λ chains. some (arrived (with_task_in tq t chains) t q) in
    (
      ap (λ ds. go (put_task t at_front tq.input ds)) ok.itail
          ∙ ap go (put_task_lem t at_front tq.input ok.distinct),
      put_in-Threaded t at_front tq ok h,
    )
