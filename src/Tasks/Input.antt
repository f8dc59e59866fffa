-- ===== src/Tasks/Input.antt =====
-- The input queue of server/tasks.c: `enqueue_input_task`, `dequeue_input_task`, `flush_input` and
-- `new_input_task`. `none` is a null pointer followed.
pub mod Ends
pub mod Split
pub mod Dequeue
pub mod Keeps
pub mod Enqueue
use nu_moo.Base.{
  ℕ, zero, suc, ◌+◌, ◌-◌, ◌*◌, ◌≤◌, ◌<◌, ◌≡◌, refl, ◌≢◌, Bool, true, false, ◌&&◌, ◌||◌, not, Option,
  none, some, List, [], ◌∷◌, ◌++◌, arith, ◌==◌, if◌then◌else◌, length, codes, drop, ◌>>=◌,
}
use nu_moo.Base.Int.{ℤ, pos, ◌-ℤ◌, ltb_ℤ}
use nu_moo.Tasks.{
  TaskKind, task_inband, task_oob, task_quoted, task_binary, InputTask, Tqueue, NetCall,
  server_resume_input, is_oob,
}

abbrev pub input_hiwat : ℤ
input_hiwat = pos 1048576

abbrev pub input_lowat : ℤ
input_lowat = pos 524288

abbrev pub oob_prefix : List ℕ
oob_prefix = codes "#$#"

abbrev pub oob_quote_prefix : List ℕ
oob_quote_prefix = codes "#$\""

pub data DequeueHow : Type 0 where
  dq_first dq_oob dq_inband : DequeueHow

-- how == (first_input->kind == TASK_OOB), where DQ_FIRST is -1, DQ_OOB is 0, DQ_INBAND is 1
abbrev pub skips : DequeueHow → Bool → Bool
skips dq_first oob = false
skips dq_oob oob = not oob
skips dq_inband oob = oob

unfoldable pub with_task :
    InputTask → Option (List InputTask × List InputTask) → Option (List InputTask × List InputTask)
with_task t none = none
with_task t (some (front, back)) = some (t ∷ front, back)

-- The chain up to the task at an address, and the chain that its `next` leads to.
unfoldable pub split_behind : ℕ → List InputTask → Option (List InputTask × List InputTask)
split_behind a [] = none
split_behind a (t ∷ ts) =
    let rest = split_behind a ts in if t.address == a then some (t ∷ [], ts) else with_task t rest

-- The slots `pt` and `pitail`: what stands before each, and what it points to.
pub record Slots : Type 0 where
  pub front : List InputTask
  pub back : List InputTask
  pub before : List ℕ
  pub after : List ℕ

unfoldable pub slots_at : List ℕ → ℕ → Option (List InputTask × List InputTask) → Option Slots
slots_at bs a none = none
slots_at bs a (some (front, back)) =
    some (record { front = front; back = back; before = a ∷ []; after = bs })

unfoldable pub behind_first_itail : List InputTask → List ℕ → Option Slots
behind_first_itail input [] = none
behind_first_itail input (a ∷ bs) = slots_at bs a (split_behind a input)

unfoldable pub slots : Bool → List InputTask → List ℕ → Option Slots
slots true input itail = behind_first_itail input itail
slots false input itail = some (record { front = []; back = input; before = []; after = itail })

unfoldable pub joined : List ℕ → List ℕ → List ℕ
joined before [] = before
joined before (c ∷ cs) = c ∷ cs

-- The chain of sequence ends without the task at an address: a sequence of it alone is gone, and
-- the one before is joined with the one behind.
unfoldable pub unthread : ℕ → List ℕ → List ℕ → List ℕ
unthread a before [] = before
unthread a before (b ∷ bs) = if a == b then joined before bs else before ++ (b ∷ bs)

unfoldable pub deliver : Bool → TaskKind → InputTask → InputTask
deliver true task_oob t = record t { kind = task_inband }
deliver true task_quoted t = record t { kind = task_inband }
deliver false task_quoted t = record t {
  string = drop (length oob_quote_prefix) t.string;
  kind = task_inband;
}
deliver disable_oob kind t = t

-- The kind and the string a task leaves the queue with.
unfoldable pub delivered : Bool → InputTask → InputTask
delivered disable_oob t = deliver disable_oob t.kind t

-- if (tq->input_suspended && tq->connected && ...)
unfoldable pub resumes : Tqueue → ℤ → Bool
resumes tq total = tq.input_suspended && (tq.connected && ltb_ℤ total input_lowat)

-- The queue when a task is taken out of its input.
unfoldable pub taken :
    Tqueue → InputTask → List InputTask → List ℕ → Option InputTask × Tqueue × List NetCall
taken tq t input itail =
    let total = tq.total_input_length -ℤ pos t.length in
    let t' = delivered tq.disable_oob t in
    let tq' = record tq { input = input; itail = itail; total_input_length = total } in
    if resumes tq total
    then (some t', record tq' { input_suspended = false }, server_resume_input tq.player ∷ [])
    else (some t', tq', [])

unfoldable pub take_slot :
    Tqueue → Slots → List InputTask → Option InputTask × Tqueue × List NetCall
take_slot tq s [] = (none, tq, [])
take_slot tq s (t ∷ rest) = taken tq t (s.front ++ rest) (unthread t.address s.before s.after)

abbrev pub Dequeued : Type 0
Dequeued = Option (Option InputTask × Tqueue × List NetCall)

unfoldable pub dequeue_from : Tqueue → DequeueHow → List InputTask → Dequeued
dequeue_from tq how [] = some (none, tq, [])
dequeue_from tq how (first ∷ rest) =
    slots (skips how (is_oob first.kind)) (first ∷ rest) tq.itail >>= λ s.
    some (take_slot tq s s.back)

unfoldable pub dequeue_how : Bool → Tqueue → DequeueHow → Dequeued
dequeue_how false tq how = dequeue_from tq how tq.input
dequeue_how true tq dq_oob = some (none, tq, [])
dequeue_how true tq how = dequeue_from tq dq_first tq.input

unfoldable pub dequeue_input_task : Tqueue → DequeueHow → Dequeued
dequeue_input_task tq how = dequeue_how tq.disable_oob tq how

-- strncmp(prefix, input, strlen(prefix)) == 0
unfoldable pub starts_with : List ℕ → List ℕ → Bool
starts_with [] s = true
starts_with (p ∷ ps) [] = false
starts_with (p ∷ ps) (b ∷ s) = (p == b) && starts_with ps s

unfoldable pub kind_of_input : List ℕ → Bool → TaskKind
kind_of_input input binary =
    if binary
    then task_binary
    else if starts_with oob_quote_prefix input
    then task_quoted
    else if starts_with oob_prefix input
    then task_oob
    else task_inband

unfoldable pub task_at : ℕ → List InputTask → Option InputTask
task_at a [] = none
task_at a (t ∷ ts) = let rest = task_at a ts in if t.address == a then some t else rest

unfoldable pub same_sort : InputTask → InputTask → Bool
same_sort t u = if is_oob t.kind then is_oob u.kind else not (is_oob u.kind)

unfoldable pub behind_last : InputTask → Option InputTask → Option (List ℕ)
behind_last t none = none
behind_last t (some u) =
    if same_sort u t then some (t.address ∷ []) else some (u.address ∷ t.address ∷ [])

-- The chain of sequence ends with a task behind all: `*(tq->last_itail)` is the last of the chain.
unfoldable pub thread_rear : List InputTask → InputTask → List ℕ → Option (List ℕ)
thread_rear input t [] = none
thread_rear input t (a ∷ []) = behind_last t (task_at a input)
thread_rear input t (a ∷ b ∷ bs) = thread_rear input t (b ∷ bs) >>= λ rest. some (a ∷ rest)

unfoldable pub thread_front : InputTask → InputTask → List ℕ → List ℕ
thread_front t first itail = if same_sort first t then itail else t.address ∷ itail

-- The two chains with a task at the front, which is the rear of an empty queue, or at the rear.
unfoldable pub put_task :
    InputTask → Bool → List InputTask → List ℕ → Option (List InputTask × List ℕ)
put_task t at_front [] itail = some (t ∷ [], t.address ∷ [])
put_task t true (first ∷ rest) itail = some (t ∷ first ∷ rest, thread_front t first itail)
put_task t false (first ∷ rest) itail =
    thread_rear (first ∷ rest) t itail >>= λ itail'. some ((first ∷ rest) ++ (t ∷ []), itail')
