-- ===== src/Tasks/Tqueues/Flush.antt =====
-- The loop of `flush_input` in server/tasks.c ends, with all input gone.
use nu_moo.Base.{
  ℕ, zero, suc, ◌<◌, ◌≡◌, refl, ap, ◌∙◌, inl, inr, Bool, true, false, none, some, List, [], ◌∷◌,
  ◌++◌, arith, Bool-cases, length, codes, ◌>>=◌,
}
use nu_moo.Base.Int.{pos, ◌-ℤ◌}
use nu_moo.Tasks.{InputTask, Tqueue, NetCall, notify, server_suspend_input, server_resume_input}
use nu_moo.Tasks.Input.{taken, dq_first, delivered, resumes, dequeue_input_task}
use nu_moo.Tasks.Input.Dequeue.{dequeue_first, dequeue_input_task-first}
use nu_moo.Tasks.Input.Ends.{ends, total_length, Threaded, take_first, wanted}
use nu_moo.Tasks.Input.Keeps.{dequeue_input_task-Threaded}
use nu_moo.Tasks.Tqueues.{flush_message, flush_next, flush_loop}

-- What the player is told, of what a queue asks.
abbrev pub notices : List NetCall → List NetCall
notices [] = []
notices (notify p line ∷ cs) = notify p line ∷ notices cs
notices (server_suspend_input p ∷ cs) = notices cs
notices (server_resume_input p ∷ cs) = notices cs

abbrev pub flush_messages : Bool → Tqueue → List InputTask → List NetCall
flush_messages show tq [] = []
flush_messages show tq (t ∷ ts) =
    flush_message show tq (delivered tq.disable_oob t) ++ flush_messages show tq ts

notices-append : (cs ds : List NetCall) → notices (cs ++ ds) ≡ notices cs ++ notices ds
notices-append [] ds = refl
notices-append (notify p line ∷ cs) ds = ap (λ es. notify p line ∷ es) (notices-append cs ds)
notices-append (server_suspend_input p ∷ cs) ds = notices-append cs ds
notices-append (server_resume_input p ∷ cs) ds = notices-append cs ds

notices-flush_message :
    (show : Bool) (tq : Tqueue) (t : InputTask)
    → notices (flush_message show tq t) ≡ flush_message show tq t
unfolding flush_message
notices-flush_message true tq t = refl
notices-flush_message false tq t = refl

flush_message-player :
    (show : Bool) (tq tq' : Tqueue) (t : InputTask)
    → tq'.player ≡ tq.player
    → flush_message show tq' t ≡ flush_message show tq t
unfolding flush_message
flush_message-player true tq tq' t e = ap (λ p. notify p (codes ">>     " ++ t.string) ∷ []) e
flush_message-player false tq tq' t e = refl

flush_messages-same :
    (show : Bool) (tq tq' : Tqueue) (ts : List InputTask)
    → tq'.player ≡ tq.player
    → tq'.disable_oob ≡ tq.disable_oob
    → flush_messages show tq' ts ≡ flush_messages show tq ts
flush_messages-same show tq tq' [] e f = refl
flush_messages-same show tq tq' (t ∷ ts) e f =
    ap (λ b. flush_message show tq' (delivered b t) ++ flush_messages show tq' ts) f
    ∙ ap (λ m. m ++ flush_messages show tq' ts)
        (flush_message-player show tq tq' (delivered tq.disable_oob t) e)
    ∙ ap (λ ms. flush_message show tq (delivered tq.disable_oob t) ++ ms)
        (flush_messages-same show tq tq' ts e f)

-- The step that takes the first task of all.
record First (tq : Tqueue) (t : InputTask) (ts : List InputTask) : Type 0 where
  tq' : Tqueue
  calls : List NetCall
  run : dequeue_input_task tq dq_first ≡ some (some (delivered tq.disable_oob t), tq', calls)
  left : tq'.input ≡ ts
  player : tq'.player ≡ tq.player
  flag : tq'.disable_oob ≡ tq.disable_oob
  silent : notices calls ≡ []

abbrev shorter : Tqueue → InputTask → List InputTask → Tqueue
shorter tq t ts = record tq {
  input = ts;
  itail = ends ts;
  total_input_length = tq.total_input_length -ℤ pos t.length;
}

taken-First :
    (tq : Tqueue) (t : InputTask) (ts : List InputTask)
    → dequeue_input_task tq dq_first ≡ some (taken tq t ts (ends ts))
    → First tq t ts
unfolding taken
taken-First tq t ts run = elim (Bool-cases (resumes tq (tq.total_input_length -ℤ pos t.length))) [
  | inl e ↦ record {
    tq' = record (shorter tq t ts) { input_suspended = false };
    calls = server_resume_input tq.player ∷ [];
    run = run ∙ rw e refl;
    left = refl;
    player = refl;
    flag = refl;
    silent = refl;
  }
  | inr e ↦ record {
    tq' = shorter tq t ts;
    calls = [];
    run = run ∙ rw e refl;
    left = refl;
    player = refl;
    flag = refl;
    silent = refl;
  }
]

take_first-any :
    (b : Bool) (t : InputTask) (ts : List InputTask)
    → take_first (wanted b dq_first) (t ∷ ts) ≡ some (t, ts)
take_first-any true t ts = refl
take_first-any false t ts = refl

First-step :
    (tq : Tqueue) (t : InputTask) (ts : List InputTask)
    → Threaded tq
    → tq.input ≡ t ∷ ts
    → First tq t ts
First-step tq t ts ok e = taken-First tq t ts (
    dequeue_input_task-first tq dq_first ok
    ∙ ap (λ xs. some (dequeue_first tq (take_first (wanted tq.disable_oob dq_first) xs))) e
    ∙ ap (λ m. some (dequeue_first tq m)) (take_first-any tq.disable_oob t ts))

last_step :
    (tq : Tqueue)
    → Threaded tq
    → tq.input ≡ []
    → dequeue_input_task tq dq_first ≡ some (none, tq, [])
last_step tq ok e =
    dequeue_input_task-first tq dq_first ok
    ∙ ap (λ xs. some (dequeue_first tq (take_first (wanted tq.disable_oob dq_first) xs))) e

-- The outcome of the loop.
pub record Flushed (k : ℕ) (show : Bool) (tq : Tqueue) (input : List InputTask) : Type 0 where
  pub tq' : Tqueue
  pub calls : List NetCall
  pub run : flush_loop k show tq ≡ some (tq', calls)
  pub gone : tq'.input ≡ []
  pub ok : Threaded tq'
  pub told : notices calls ≡ flush_messages show tq input

flush_loop-Flushed :
    (k : ℕ) (show : Bool) (tq : Tqueue) (input : List InputTask)
    → Threaded tq
    → tq.input ≡ input
    → length input < k
    → Flushed k show tq input
unfolding flush_loop flush_next
flush_loop-Flushed zero show tq input ok e lt = absurd (omega arith)
flush_loop-Flushed (suc k) show tq [] ok e lt = record {
  tq' = tq;
  calls = [];
  run = ap (λ m. m >>= λ r. flush_next (flush_loop k show) show r) (last_step tq ok e);
  gone = e;
  ok = ok;
  told = refl;
}
flush_loop-Flushed (suc k) show tq (t ∷ ts) ok e lt =
    let s = First-step tq t ts ok e in
    let t' = delivered tq.disable_oob t in
    let ok' = dequeue_input_task-Threaded tq dq_first (some t') s.tq' s.calls ok s.run in
    let f = flush_loop-Flushed k show s.tq' ts ok' s.left (omega arith) in
    let message = flush_message show s.tq' t' in
    record {
      tq' = f.tq';
      calls = s.calls ++ (message ++ f.calls);
      run =
          ap (λ m. m >>= λ r. flush_next (flush_loop k show) show r) s.run
          ∙ ap (λ m. m >>= λ (u, more). some (u, s.calls ++ (message ++ more))) f.run;
      gone = f.gone;
      ok = f.ok;
      told =
          notices-append s.calls (message ++ f.calls)
          ∙ ap (λ cs. cs ++ notices (message ++ f.calls)) s.silent
          ∙ notices-append message f.calls
          ∙ ap (λ cs. cs ++ notices f.calls)
              (notices-flush_message show s.tq' t' ∙ flush_message-player show tq s.tq' t' s.player)
          ∙ ap (λ cs. flush_message show tq t' ++ cs)
              (f.told ∙ flush_messages-same show tq s.tq' ts s.player s.flag);
    }

-- On a queue whose chain of sequence ends and total length are right, the loop of `flush_input` ends
-- within one call more than there are tasks: no input is left, the chain is empty and the total
-- length is 0. Where messages are asked for, the player has been told each task's string, as it
-- would have been delivered, in the order of the queue, and nothing else.
pub flush_loop_lem :
    (show : Bool) (tq : Tqueue)
    → Threaded tq
    → (tq' : Tqueue) × (calls : List NetCall) × (flush_loop (suc (length tq.input)) show tq
        ≡ some (tq', calls))
      × (tq'.input ≡ [])
      × (tq'.itail ≡ [])
      × (tq'.total_input_length ≡ pos 0)
      × (notices calls ≡ flush_messages show tq tq.input)
flush_loop_lem show tq ok =
    let f = flush_loop-Flushed (suc (length tq.input)) show tq tq.input ok refl (omega arith) in
    (
      f.tq',
      f.calls,
      f.run,
      f.gone,
      f.ok.itail ∙ ap ends f.gone,
      f.ok.total ∙ ap (λ xs. pos (total_length xs)) f.gone,
      f.told,
    )
