-- ===== src/Tasks/Run/Loop.antt =====
-- The loop over the tasks of a queue in `run_ready_tasks` of server/tasks.c ends.
use nu_moo.Base.{
  ℕ, zero, suc, ◌<◌, ◌≡◌, refl, sym, ap, ◌∙◌, inl, inr, Bool, true, false, Option, none, some, List,
  [], ◌∷◌, ◌++◌, arith, if◌then◌else◌, Bool-cases, length, length-append, ◌>>=◌,
}
use mathlib.Core.Path.{subst}
use nu_moo.Base.Int.{pos, ◌-ℤ◌, leb_ℤ}
use nu_moo.Tasks.{
  TaskKind, task_inband, task_oob, task_quoted, task_binary, InputTask, Vm, BgTask, task_forked,
  task_suspended, Tqueue, NetCall, server_resume_input, Queues,
}
use nu_moo.Tasks.Input.{taken, deliver, delivered, resumes, dequeue_input_task}
use nu_moo.Tasks.Input.Dequeue.{dequeue_first, dequeue_input_task-first}
use nu_moo.Tasks.Input.Ends.{ends, Threaded, take_first, wanted}
use nu_moo.Tasks.Input.Keeps.{take_first-Picked, dequeue_input_task-Threaded}
use nu_moo.Tasks.Run.{
  Ready, read_line, out_of_band, command, login, tqueue_at, how_to_dequeue, Served, counts, run_bg,
  run_line, run_input, run_or_break, go_around, run_one, task_loop,
}
use nu_moo.Tasks.Tqueues.{store, take_bg, dequeue_bg_task}
use nu_moo.Tasks.Tqueues.Keys.{Known, key, keys, PlacedQueues, KnownTo}
use nu_moo.Tasks.Tqueues.Wake.{tqueue_at-Known, store-Kept}
use nu_moo.Tasks.Waiting.Counts.{tqueue_at-store}

-- A task that is taken out is not quoted any more.
delivered-unquoted : (b : Bool) (t : InputTask) → (delivered b t).kind ≡ task_quoted → ⊥
unfolding delivered deliver
delivered-unquoted b t e = go b t.kind refl e
  where
    go : (b : Bool) (k : TaskKind) → t.kind ≡ k → (deliver b k t).kind ≡ task_quoted → ⊥
    go true task_inband f e = cc (f, e)
    go true task_oob f e = cc e
    go true task_quoted f e = cc e
    go true task_binary f e = cc (f, e)
    go false task_inband f e = cc (f, e)
    go false task_oob f e = cc (f, e)
    go false task_quoted f e = cc e
    go false task_binary f e = cc (f, e)

-- The queue behind a task that is taken out.
record Shorter (tq : Tqueue) (t : InputTask) (rest : List InputTask) : Type 0 where
  tq' : Tqueue
  calls : List NetCall
  run : taken tq t rest (ends rest) ≡ (some (delivered tq.disable_oob t), tq', calls)
  left : tq'.input ≡ rest
  bg : tq'.bg ≡ tq.bg
  same_key : key tq' ≡ key tq

taken-Shorter : (tq : Tqueue) (t : InputTask) (rest : List InputTask) → Shorter tq t rest
unfolding taken
taken-Shorter tq t rest = elim (Bool-cases (resumes tq (tq.total_input_length -ℤ pos t.length))) [
  | inl e ↦ record {
    tq' = record tq {
      input = rest;
      itail = ends rest;
      total_input_length = tq.total_input_length -ℤ pos t.length;
      input_suspended = false;
    };
    calls = server_resume_input tq.player ∷ [];
    run = rw e refl;
    left = refl;
    bg = refl;
    same_key = refl;
  }
  | inr e ↦ record {
    tq' = record tq {
      input = rest;
      itail = ends rest;
      total_input_length = tq.total_input_length -ℤ pos t.length;
    };
    calls = [];
    run = rw e refl;
    left = refl;
    bg = refl;
    same_key = refl;
  }
]

take_first-length :
    (p : InputTask → Bool) (input : List InputTask) (t : InputTask) (rest : List InputTask)
    → take_first p input ≡ some (t, rest)
    → suc (length rest) ≡ length input
take_first-length p input t rest e =
    let s = take_first-Picked p input t rest e in
    omega (
      arith,
      ap length s.whole,
      ap length s.others,
      length-append s.front s.back,
      length-append s.front (t ∷ s.back),
    )

module _ (execute : Ready → ℕ → Queues → Bool × Queues)
    (idle : (r : Ready) (a : ℕ) (q : Queues)
      → (execute r a q).0 ≡ false
      → (execute r a q).1 ≡ q) where
  -- What a task that is run gives: it counts, or it has changed nothing.
  record Ran (q : Queues) (s : Served execute) : Type 0 where
    did_one : Bool
    q' : Queues
    calls : List NetCall
    run : s ≡ some (did_one, q', calls)
    unchanged : did_one ≡ false → q' ≡ q

  run_line-Ran :
      (tq : Tqueue) (q : Queues) (calls : List NetCall) (line : List ℕ) (m : Option Vm)
      → Ran q (run_line execute tq q calls line m)
  unfolding run_line counts
  run_line-Ran tq q calls line (some the_vm) = record {
    did_one = true;
    q' = (execute (read_line the_vm line) tq.address (store (record tq { reading = none }) q)).1;
    calls = calls;
    run = refl;
    unchanged = λ e. cc e;
  }
  run_line-Ran tq q calls line none =
      let r = if leb_ℤ (pos 0) tq.player then command line else login line in
      record {
        did_one = (execute r tq.address q).0;
        q' = (execute r tq.address q).1;
        calls = calls;
        run = refl;
        unchanged = idle r tq.address q;
      }

  run_input-Ran :
      (tq : Tqueue) (q : Queues) (calls : List NetCall) (k : TaskKind) (line : List ℕ)
      → (k ≡ task_quoted → ⊥)
      → Ran q (run_input execute tq q calls k line)
  unfolding run_input counts
  run_input-Ran tq q calls task_oob line ne = record {
    did_one = true;
    q' = (execute (out_of_band line) tq.address q).1;
    calls = calls;
    run = refl;
    unchanged = λ e. cc e;
  }
  run_input-Ran tq q calls task_binary line ne = run_line-Ran tq q calls line tq.reading
  run_input-Ran tq q calls task_inband line ne = run_line-Ran tq q calls line tq.reading
  run_input-Ran tq q calls task_quoted line ne = absurd (ne refl)

  run_or_break-total :
      (q : Queues) (calls : List NetCall) (tq : Tqueue)
      (again : Queues → List NetCall → Served execute)
      → (r : Bool × Queues × List NetCall) × (run_or_break execute q calls
            (dequeue_bg_task tq)
            again
          ≡ some r)
  unfolding dequeue_bg_task take_bg run_or_break run_bg counts
  run_or_break-total q calls tq again = go tq.bg
    where
      go :
          (ts : List BgTask)
          → (r : Bool × Queues × List NetCall) × (run_or_break execute q calls (take_bg tq ts) again
              ≡ some r)
      go [] = ((false, q, calls), refl)
      go (task_forked f ∷ ts) = (_, refl)
      go (task_suspended s ∷ ts) = (_, refl)

  -- Where a task that does not count changes nothing, the loop over the tasks of a queue ends, within
  -- one round more than the queue has lines of input, and follows no null pointer: for a queue whose
  -- chain of sequence ends and total length are right, on queues that are in order.
  pub task_loop_total :
      (k a : ℕ) (tq : Tqueue) (q : Queues) (calls : List NetCall)
      → PlacedQueues q
      → tqueue_at a q ≡ some tq
      → tq.address ≡ a
      → Threaded tq
      → length tq.input < k
      → (r : Bool × Queues × List NetCall) × (task_loop execute k a q calls ≡ some r)
  unfolding task_loop run_one go_around
  task_loop_total zero a tq q calls placed found here ok lt = absurd (omega arith)
  task_loop_total (suc k) a tq q calls placed found at_a ok lt =
      let how = how_to_dequeue tq in
      let p = wanted tq.disable_oob how in
      let again = task_loop execute k a in
      let (r, run) =
        after_first (take_first p tq.input) refl
          (λ tq' cs. task_loop_total k a tq' (store tq' q) cs) in
      (
        r,
        ap
              (λ m. m >>= λ tq.
                dequeue_input_task tq (how_to_dequeue tq) >>= λ r. run_one execute q calls r again)
              found
            ∙ ap (λ m. m >>= λ r. run_one execute q calls r again)
                (dequeue_input_task-first tq how ok)
            ∙ run,
      )
    where
      Goal : List NetCall → Tqueue → Type 0
      Goal cs tq' =
          PlacedQueues (store tq' q)
          → tqueue_at a (store tq' q) ≡ some tq'
          → tq'.address ≡ a
          → Threaded tq'
          → length tq'.input < k
          → (r : Bool × Queues × List NetCall) × (task_loop execute k a (store tq' q) cs ≡ some r)

      after_ran :
          (s : Served execute) (q1 : Queues)
          → Ran q1 s
          → ((cs : List NetCall)
              → (r : Bool × Queues × List NetCall) × (task_loop execute k a q1 cs ≡ some r))
          → (r : Bool × Queues × List NetCall) × (go_around execute s (task_loop execute k a)
              ≡ some r)
      after_ran s q1 ran sub = by_count ran.did_one refl
        where
          by_count :
              (b : Bool)
              → ran.did_one ≡ b
              → (r : Bool × Queues × List NetCall) × (go_around execute s (task_loop execute k a)
                  ≡ some r)
          by_count true e = (
            (true, ran.q', ran.calls),
            ap (λ x. go_around execute x (task_loop execute k a))
                (ran.run ∙ ap (λ b. some (b, ran.q', ran.calls)) e),
          )
          by_count false e =
              let (r, run) = sub ran.calls in
              (
                r,
                ap (λ x. go_around execute x (task_loop execute k a))
                      (ran.run ∙ ap (λ b. some (b, ran.q', ran.calls)) e)
                    ∙ ap (λ x. task_loop execute k a x ran.calls) (ran.unchanged e)
                    ∙ run,
              )

      after_first :
          (m : Option (InputTask × List InputTask))
          → take_first (wanted tq.disable_oob (how_to_dequeue tq)) tq.input ≡ m
          → ((tq' : Tqueue) (cs : List NetCall) → Goal cs tq')
          → (r : Bool × Queues × List NetCall) × (run_one execute q calls
                (dequeue_first tq m)
                (task_loop execute k a)
              ≡ some r)
      after_first none e sub = run_or_break-total q calls tq (task_loop execute k a)
      after_first (some (t, rest)) e sub =
          let s = taken-Shorter tq t rest in
          let p = wanted tq.disable_oob (how_to_dequeue tq) in
          let t' = delivered tq.disable_oob t in
          let q1 = store s.tq' q in
          let known : KnownTo s.tq' q =
            subst (λ x. Known x (keys q.idle_tqueues) (keys q.active_tqueues)) (sym s.same_key)
              (tqueue_at-Known a q tq found) in
          let kept = store-Kept s.tq' q placed known in
          let same_address : s.tq'.address ≡ a = ap (λ x. x.address) s.same_key ∙ at_a in
          let ok' = dequeue_input_task-Threaded tq (how_to_dequeue tq) (some t') s.tq' s.calls ok (
            dequeue_input_task-first tq (how_to_dequeue tq) ok
            ∙ ap (λ x. some (dequeue_first tq x)) e
            ∙ ap some s.run) in
          let ran =
            run_input-Ran s.tq' q1 (calls ++ s.calls) t'.kind t'.string
              (delivered-unquoted tq.disable_oob t) in
          let there =
            ap (λ x. tqueue_at x q1) (sym same_address) ∙ tqueue_at-store s.tq' q placed known in
          let shorter : length s.tq'.input < k =
            omega (arith, ap length s.left, take_first-length p tq.input t rest e) in
          let (r, run) =
            after_ran (run_input execute s.tq' q1 (calls ++ s.calls) t'.kind t'.string) q1 ran
              (λ cs. sub s.tq' cs kept.placed there same_address ok' shorter) in
          (r, ap (λ x. run_one execute q calls x (task_loop execute k a)) s.run ∙ run)
