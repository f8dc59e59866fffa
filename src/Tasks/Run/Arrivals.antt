-- ===== src/Tasks/Run/Arrivals.antt =====
-- The operations of server/tasks.c on connections and their input keep the order of the queues.
use nu_moo.Base.{
  ℕ, zero, suc, ◌≡◌, refl, sym, ap, ◌∙◌, inl, inr, Bool, true, false, ◌&&◌, ◌||◌, not, Option, none,
  some, List, [], ◌∷◌, ◌++◌, Bool-cases, length, codes, ◌>>=◌, >>=-eq-some, some_injective,
}
use mathlib.Core.Path.{subst}
use nu_moo.Base.Int.{pos, ◌-ℤ◌}
use nu_moo.Db.Object.{Objid}
use nu_moo.Db.Objects.Creation.{fresh}
use nu_moo.Db.State.{is_some}
use nu_moo.Tasks.{InputTask, Vm, Tqueue, NetCall, Queues, is_oob}
use nu_moo.Tasks.Input.{
  taken, DequeueHow, dq_first, dq_oob, dq_inband, skips, Slots, slots, unthread, resumes, take_slot,
  dequeue_from, dequeue_how, dequeue_input_task, put_task,
}
use nu_moo.Tasks.Run.Keeps.{Ordered, Kept-Ordered}
use nu_moo.Tasks.Tqueues.{
  store, find_tqueue, no_more, is_out_of_input, input_task, suspends, suspend_input, wakes, wake,
  with_task_in, enqueue_input_task, task_suspend_input, flush_message, flush_next, flush_loop, said,
  flush_input, stored_back, is_flush_cmd, new_input_task, find_or_make_tqueue, new_task_queue,
}
use nu_moo.Tasks.Tqueues.Keys.{Known, key, keys, KnownTo}
use nu_moo.Tasks.Tqueues.Wake.{
  find_tqueue-Known, FreshAddress, find_or_make-Kept, store-Kept, wake-Kept,
}
use nu_moo.Tasks.Waiting.{read_value, read_from, read_input_now, read_on, make_reading_task}
use nu_moo.Value.{e_invarg, Value, err}

key-taken :
    (tq : Tqueue) (t : InputTask) (input : List InputTask) (itail : List ℕ)
    → key ((taken tq t input itail).1) ≡ key tq
unfolding taken
key-taken tq t input itail =
    elim (Bool-cases (resumes tq (tq.total_input_length -ℤ pos t.length))) [
      | inl e ↦ rw e refl
      | inr e ↦ rw e refl
    ]

key-take_slot :
    (tq : Tqueue) (s : Slots) (back : List InputTask) → key ((take_slot tq s back).1) ≡ key tq
unfolding take_slot
key-take_slot tq s [] = refl
key-take_slot tq s (t ∷ rest) =
    key-taken tq t (s.front ++ rest) (unthread t.address s.before s.after)

dequeue_from-key :
    (tq : Tqueue) (how : DequeueHow) (input : List InputTask) (m : Option InputTask) (tq' : Tqueue)
    (calls : List NetCall)
    → dequeue_from tq how input ≡ some (m, tq', calls)
    → key tq' ≡ key tq
unfolding dequeue_from
dequeue_from-key tq how [] m tq' calls e = ap (λ w. key w.1) (sym (some_injective e))
dequeue_from-key tq how (t ∷ ts) m tq' calls e =
    let (s, f, g) =
      >>=-eq-some (slots (skips how (is_oob t.kind)) (t ∷ ts) tq.itail)
        (λ s. some (take_slot tq s s.back)) e in
    ap (λ w. key w.1) (sym (some_injective g)) ∙ key-take_slot tq s s.back

pub dequeue_input_task-key :
    (tq : Tqueue) (how : DequeueHow) (m : Option InputTask) (tq' : Tqueue) (calls : List NetCall)
    → dequeue_input_task tq how ≡ some (m, tq', calls)
    → key tq' ≡ key tq
unfolding dequeue_input_task dequeue_how
dequeue_input_task-key tq how m tq' calls e = go tq.disable_oob how e
  where
    go :
        (b : Bool) (how : DequeueHow)
        → dequeue_how b tq how ≡ some (m, tq', calls)
        → key tq' ≡ key tq
    go false how e = dequeue_from-key tq how tq.input m tq' calls e
    go true dq_oob e = ap (λ w. key w.1) (sym (some_injective e))
    go true dq_first e = dequeue_from-key tq dq_first tq.input m tq' calls e
    go true dq_inband e = dequeue_from-key tq dq_first tq.input m tq' calls e

flush_loop-key :
    (k : ℕ) (show : Bool) (tq tq' : Tqueue) (calls : List NetCall)
    → flush_loop k show tq ≡ some (tq', calls)
    → key tq' ≡ key tq
unfolding flush_loop flush_next
flush_loop-key zero show tq tq' calls e = cc e
flush_loop-key (suc k) show tq tq' calls e =
    let (r, f, g) =
      >>=-eq-some (dequeue_input_task tq dq_first) (λ r. flush_next (flush_loop k show) show r) e in
    go r (λ u cs h. flush_loop-key k show u tq' cs h) g
    ∙ dequeue_input_task-key tq dq_first (r.0) (r.1) (r.2) f
  where
    go :
        (r : Option InputTask × Tqueue × List NetCall)
        → ((u : Tqueue) (cs : List NetCall)
            → flush_loop k show u ≡ some (tq', cs)
            → key tq' ≡ key u)
        → flush_next (flush_loop k show) show r ≡ some (tq', calls)
        → key tq' ≡ key (r.1)
    go (none, u, cs) sub g = ap (λ w. key w.0) (sym (some_injective g))
    go (some t, u, cs) sub g =
        let ((u2, more), f, h) =
          >>=-eq-some (flush_loop k show u)
            (λ (u2, more). some (u2, cs ++ (flush_message show u t ++ more))) g in
        sub u more (f ∙ ap (λ x. some (x, more)) (ap (λ w. w.0) (some_injective h)))

flush_input-key :
    (show : Bool) (tq tq' : Tqueue) (calls : List NetCall)
    → flush_input tq show ≡ some (tq', calls)
    → key tq' ≡ key tq
unfolding flush_input
flush_input-key show tq tq' calls e = elim (Bool-cases (no_more tq.input)) [
  | inl f ↦ ap (λ w. key w.0) (sym (some_injective (sym (taken_branch f) ∙ e)))
  | inr f ↦
      let ((u, cs), g, h) =
        >>=-eq-some (flush_loop (suc (length tq.input)) show tq) (ends_with)
          (sym (loop_branch f) ∙ e) in
      ap (λ w. key w.0) (sym (some_injective h))
      ∙ flush_loop-key (suc (length tq.input)) show tq u cs g
]
  where
    ends_with : Tqueue × List NetCall → Option (Tqueue × List NetCall)
    ends_with (u, cs) = some (
      u,
      said show tq (codes ">> Flushing the following pending input:")
          ++ (cs ++ said show tq (codes ">> (Done flushing)")),
    )

    taken_branch :
        no_more tq.input ≡ true
        → flush_input tq show ≡ some (tq, said show tq (codes ">> No pending input to flush..."))
    taken_branch f = rw f refl

    loop_branch :
        no_more tq.input ≡ false
        → flush_input tq show ≡ (flush_loop (suc (length tq.input)) show tq >>= ends_with)
    loop_branch f = rw f refl

-- A queue known by its key.
known_key : (q : Queues) (tq tq' : Tqueue) → key tq' ≡ key tq → KnownTo tq q → KnownTo tq' q
known_key q tq tq' e i =
    subst (λ k. Known k (keys q.idle_tqueues) (keys q.active_tqueues)) (sym e) i

stored : (tq : Tqueue) (q : Queues) → Ordered q → KnownTo tq q → Ordered (store tq q)
stored tq q ok i = Kept-Ordered q tq (store tq q) ok (store-Kept tq q ok.placed i)

pub woken :
    (b : Bool) (tq : Tqueue) (q : Queues)
    → Ordered q
    → KnownTo tq q
    → Ordered ((wake b tq (store tq q)).1)
woken b tq q ok i =
    Kept-Ordered q ((wake b tq (store tq q)).0) ((wake b tq (store tq q)).1) ok
      (wake-Kept b tq q ok.placed i)

suspend_input-Ordered :
    (tq : Tqueue) (q : Queues) → Ordered q → KnownTo tq q → Ordered ((suspend_input tq q).0)
unfolding suspend_input
suspend_input-Ordered tq q ok i =
    let s = stored (record tq { input_suspended = true }) q ok i in
    elim (Bool-cases (suspends tq)) [ inl e ↦ rw e s | inr e ↦ rw e ok ]

pub enqueue_input_task-Ordered :
    (a : ℕ) (tq : Tqueue) (line : List ℕ) (at_front binary : Bool) (q q' : Queues)
    (calls : List NetCall)
    → Ordered q
    → KnownTo tq q
    → enqueue_input_task a tq line at_front binary q ≡ some (q', calls)
    → Ordered q'
unfolding enqueue_input_task with_task_in
enqueue_input_task-Ordered a tq line at_front binary q q' calls ok i e =
    let t = input_task a line binary in
    let (chains, f, g) =
      >>=-eq-some (put_task t at_front tq.input tq.itail)
        (λ chains. some (
          suspend_input
            ((wake (wakes (with_task_in tq t chains) t) (with_task_in tq t chains)
              (store (with_task_in tq t chains) q)).0)
            ((wake (wakes (with_task_in tq t chains) t) (with_task_in tq t chains)
              (store (with_task_in tq t chains) q)).1)))
        e in
    let tq' = with_task_in tq t chains in
    let k = wake-Kept (wakes tq' t) tq' q ok.placed i in
    let w = wake (wakes tq' t) tq' (store tq' q) in
    subst Ordered (ap (λ r. r.0) (some_injective g))
      (suspend_input-Ordered w.0 w.1 (Kept-Ordered q w.0 w.1 ok k) k.known)

-- The queue with its input flushed stands where the queue stood.
pub flush_input-Ordered :
    (show : Bool) (tq : Tqueue) (q q' : Queues) (calls : List NetCall)
    → Ordered q
    → KnownTo tq q
    → (flush_input tq show >>= stored_back q) ≡ some (q', calls)
    → Ordered q'
unfolding stored_back
flush_input-Ordered show tq q q' calls ok i e =
    let ((tq', cs), f, h) = >>=-eq-some (flush_input tq show) (stored_back q) e in
    subst Ordered (ap (λ r. r.0) (some_injective h))
      (stored tq' q ok (known_key q tq tq' (flush_input-key show tq tq' cs f) i))

pub new_input_task-Ordered :
    (a : ℕ) (tq : Tqueue) (line : List ℕ) (binary : Bool) (q q' : Queues) (calls : List NetCall)
    → Ordered q
    → KnownTo tq q
    → new_input_task a tq line binary q ≡ some (q', calls)
    → Ordered q'
unfolding new_input_task
new_input_task-Ordered a tq line binary q q' calls ok i e =
    elim (Bool-cases (is_flush_cmd tq.flush_cmd line)) [
      | inl f ↦ flush_input-Ordered true tq q q' calls ok i (sym (flush_branch f) ∙ e)
      | inr f ↦
          enqueue_input_task-Ordered a tq line false binary q q' calls ok i (sym (put_branch f) ∙ e)
    ]
  where
    flush_branch :
        is_flush_cmd tq.flush_cmd line ≡ true
        → new_input_task a tq line binary q ≡ (flush_input tq true >>= stored_back q)
    flush_branch f = rw f refl

    put_branch :
        is_flush_cmd tq.flush_cmd line ≡ false
        → new_input_task a tq line binary q ≡ enqueue_input_task a tq line false binary q
    put_branch f = rw f refl

pub read_input_now-Ordered :
    (p : Objid) (q q' : Queues) (v : Value) (calls : List NetCall)
    → Ordered q
    → read_input_now p q ≡ some (v, q', calls)
    → Ordered q'
unfolding read_input_now read_from
read_input_now-Ordered p q q' v calls ok e = go (find_tqueue p q) refl e
  where
    dequeued : (tq : Tqueue) → Option (Value × Queues × List NetCall)
    dequeued tq = dequeue_input_task tq dq_inband >>= λ (m, tq', calls).
        some (read_value m, store tq' q, calls)

    go :
        (m : Option Tqueue) → find_tqueue p q ≡ m → read_from m q ≡ some (v, q', calls) → Ordered q'
    go none f g = subst Ordered (ap (λ r. r.1) (some_injective g)) ok
    go (some tq) f g = elim (Bool-cases (is_out_of_input tq)) [
      | inl h ↦
          let run : read_from (some tq) q ≡ some (err e_invarg, q, []) = rw h refl in
          subst Ordered (ap (λ r. r.1) (some_injective (sym run ∙ g))) ok
      | inr h ↦
          let run : read_from (some tq) q ≡ dequeued tq = rw h refl in
          let ((m, tq', cs), d, r) =
            >>=-eq-some (dequeue_input_task tq dq_inband)
              (λ (m, tq', calls). some (read_value m, store tq' q, calls)) (sym run ∙ g) in
          subst Ordered (ap (λ r. r.1) (some_injective r)) (
            stored tq' q ok (
              known_key q tq tq' (dequeue_input_task-key tq dq_inband m tq' cs d)
                (find_tqueue-Known p q tq f)))
    ]

pub make_reading_task-Ordered :
    (the_vm : Vm) (p : Objid) (q : Queues) → Ordered q → Ordered ((make_reading_task the_vm p q).1)
unfolding make_reading_task read_on
make_reading_task-Ordered the_vm p q ok = go (find_tqueue p q) refl
  where
    go : (m : Option Tqueue) → find_tqueue p q ≡ m → Ordered ((read_on the_vm m q).1)
    go none f = ok
    go (some tq) f =
        let tq' : Tqueue = record tq { reading = some the_vm } in
        let w = woken (not (no_more tq.input)) tq' q ok (find_tqueue-Known p q tq f) in
        elim (Bool-cases (is_some tq.reading || is_out_of_input tq)) [
          | inl e ↦ rw e ok
          | inr e ↦ rw e w
        ]

pub new_task_queue-Ordered :
    (malloc : Queues → ℕ) (flush : Option (List ℕ)) (p handler : Objid) (q : Queues)
    → FreshAddress malloc
    → Ordered q
    → Ordered ((new_task_queue malloc flush p handler q).1)
unfolding new_task_queue
new_task_queue-Ordered malloc flush p handler q fresh ok =
    let k = find_or_make-Kept malloc flush p q fresh ok.placed in
    let made = find_or_make_tqueue malloc flush p q in
    stored (record (made.0) { connected = true; handler = handler }) made.1
      (Kept-Ordered q made.0 made.1 ok k) k.known

pub task_suspend_input-Ordered :
    (tq : Tqueue) (q : Queues) → Ordered q → KnownTo tq q → Ordered ((task_suspend_input tq q).0)
unfolding task_suspend_input
task_suspend_input-Ordered tq q ok i =
    let s = stored (record tq { input_suspended = true }) q ok i in
    elim (Bool-cases (not tq.input_suspended && tq.connected)) [ inl e ↦ rw e s | inr e ↦ rw e ok ]
