-- ===== src/Tasks/Tqueues.antt =====
-- The idle and the active queues of server/tasks.c, and what puts input into them. Allocation gives
-- an address; the option `default_flush_command` is a parameter.
pub mod Order
pub mod Keys
pub mod Moves
pub mod Wake
pub mod Arrival
pub mod Flush
use nu_moo.Base.{
  ℕ, zero, suc, Bool, true, false, ◌&&◌, ◌||◌, not, Option, none, some, List, [], ◌∷◌, ◌++◌, ◌==◌,
  if◌then◌else◌, length, codes, ◌>>=◌,
}
use nu_moo.Base.Int.{ℤ, pos, negsuc, ◌+ℤ◌, ◌-ℤ◌, ltb_ℤ, leb_ℤ, ◌==ℤ◌}
use nu_moo.Db.Object.{Objid, same}
use nu_moo.Db.State.{is_some}
use nu_moo.Strings.{mystrcasecmp}
use nu_moo.Tasks.{InputTask, BgTask, Tqueue, NetCall, notify, server_suspend_input, Queues, is_oob}
use nu_moo.Tasks.Input.{input_hiwat, dq_first, dequeue_input_task, kind_of_input, put_task}

abbrev pub no_usage : ℤ
no_usage = negsuc 0

-- A queue written back to where it stands.
unfoldable pub store_in : Tqueue → List Tqueue → List Tqueue
store_in tq [] = []
store_in tq (h ∷ hs) =
    let rest = store_in tq hs in if h.address == tq.address then tq ∷ rest else h ∷ rest

unfoldable pub store : Tqueue → Queues → Queues
store tq q = record q {
  idle_tqueues = store_in tq q.idle_tqueues;
  active_tqueues = store_in tq q.active_tqueues;
}

unfoldable pub remove_tqueue : ℕ → List Tqueue → List Tqueue
remove_tqueue a [] = []
remove_tqueue a (h ∷ hs) = let rest = remove_tqueue a hs in if h.address == a then hs else h ∷ rest

unfoldable pub deactivate_tqueue : Tqueue → Queues → Queues
deactivate_tqueue tq q = record q { idle_tqueues = record tq { usage = no_usage } ∷ q.idle_tqueues }

unfoldable pub insert_tqueue : Tqueue → List Tqueue → List Tqueue
insert_tqueue tq [] = tq ∷ []
insert_tqueue tq (h ∷ hs) =
    let rest = insert_tqueue tq hs in if leb_ℤ h.usage tq.usage then h ∷ rest else tq ∷ h ∷ hs

unfoldable pub activate_tqueue : Tqueue → Queues → Queues
activate_tqueue tq q = record q { active_tqueues = insert_tqueue tq q.active_tqueues }

unfoldable pub first_usage : List Tqueue → ℤ
first_usage [] = pos 0
first_usage (h ∷ hs) = h.usage

-- On a queue as it is stored; the queue is returned too.
unfoldable pub ensure_usage : Tqueue → Queues → Tqueue × Queues
ensure_usage tq q =
    let tq' = record tq { usage = first_usage q.active_tqueues } in
    let unlinked = record q { idle_tqueues = remove_tqueue tq.address q.idle_tqueues } in
    if tq.usage ==ℤ no_usage then (tq', activate_tqueue tq' unlinked) else (tq, q)

unfoldable pub find_player : Objid → List Tqueue → Option Tqueue
find_player p [] = none
find_player p (h ∷ hs) = let rest = find_player p hs in if same h.player p then some h else rest

abbrev pub first_of {ℓ} : {A : Type ℓ} → Option A → Option A → Option A
first_of none m = m
first_of (some a) m = some a

-- find_tqueue(player, 0)
unfoldable pub find_tqueue : Objid → Queues → Option Tqueue
find_tqueue p q = first_of (find_player p q.active_tqueues) (find_player p q.idle_tqueues)

-- ICMD_ALL_CMDS
abbrev pub icmd_all_cmds : ℕ
icmd_all_cmds = 62

unfoldable pub new_tqueue : ℕ → Objid → Option (List ℕ) → Tqueue
new_tqueue a p flush = record {
  address = a;
  player = p;
  handler = pos 0;
  connected = false;
  input = [];
  itail = [];
  total_input_length = pos 0;
  last_input_task_id = pos 0;
  input_suspended = false;
  bg = [];
  usage = no_usage;
  num_bg_tasks = pos 0;
  output_prefix = none;
  output_suffix = none;
  flush_cmd = flush;
  program_stream = none;
  hold_input = false;
  disable_oob = false;
  reading = none;
  icmds = icmd_all_cmds;
}

unfoldable pub found_or_new : Tqueue → Option Tqueue → Queues → Tqueue × Queues
found_or_new made none q = (made, deactivate_tqueue made q)
found_or_new made (some tq) q = (tq, q)

unfoldable pub free_tqueue : Tqueue → Queues → Queues
free_tqueue tq q = record q { idle_tqueues = remove_tqueue tq.address q.idle_tqueues }

unfoldable pub enqueue_bg_task : Tqueue → BgTask → Tqueue
enqueue_bg_task tq t = record tq { bg = tq.bg ++ (t ∷ []) }

unfoldable pub take_bg : Tqueue → List BgTask → Option BgTask × Tqueue
take_bg tq [] = (none, tq)
take_bg tq (t ∷ ts) = (some t, record tq { bg = ts; num_bg_tasks = tq.num_bg_tasks -ℤ pos 1 })

unfoldable pub dequeue_bg_task : Tqueue → Option BgTask × Tqueue
dequeue_bg_task tq = take_bg tq tq.bg

abbrev pub no_more {ℓ} : {A : Type ℓ} → List A → Bool
no_more [] = true
no_more (x ∷ xs) = false

unfoldable pub is_out_of_input : Tqueue → Bool
is_out_of_input tq = not tq.connected && no_more tq.input

-- The task that a line becomes, at an address.
unfoldable pub input_task : ℕ → List ℕ → Bool → InputTask
input_task a line binary = record {
  address = a;
  kind = kind_of_input line binary;
  string = line;
  length = length line;
}

-- `suspends`: if (!tq->input_suspended && tq->connected && ...)
unfoldable pub suspends : Tqueue → Bool
suspends tq = not tq.input_suspended && (tq.connected && ltb_ℤ input_hiwat tq.total_input_length)

unfoldable pub suspend_input : Tqueue → Queues → Queues × List NetCall
suspend_input tq q =
    if suspends tq
    then (store (record tq { input_suspended = true }) q, server_suspend_input tq.player ∷ [])
    else (q, [])

unfoldable pub wakes : Tqueue → InputTask → Bool
wakes tq t = not tq.hold_input || (is_some tq.reading || (not tq.disable_oob && is_oob t.kind))

unfoldable pub wake : Bool → Tqueue → Queues → Tqueue × Queues
wake b tq q = if b then ensure_usage tq q else (tq, q)

-- The queue with the task in its chains.
unfoldable pub with_task_in : Tqueue → InputTask → List InputTask × List ℕ → Tqueue
with_task_in tq t (input, itail) = record tq {
  input = input;
  itail = itail;
  total_input_length = tq.total_input_length +ℤ pos t.length;
}

unfoldable pub enqueue_input_task :
    ℕ → Tqueue → List ℕ → Bool → Bool → Queues → Option (Queues × List NetCall)
enqueue_input_task a tq line at_front binary q =
    let t = input_task a line binary in
    put_task t at_front tq.input tq.itail >>= λ chains.
    let tq' = with_task_in tq t chains in
    let (woken, q') = wake (wakes tq' t) tq' (store tq' q) in some (suspend_input woken q')

unfoldable pub task_suspend_input : Tqueue → Queues → Queues × List NetCall
task_suspend_input tq q =
    if not tq.input_suspended && tq.connected
    then (store (record tq { input_suspended = true }) q, server_suspend_input tq.player ∷ [])
    else (q, [])

-- The loop that empties the input of a queue.
unfoldable pub flush_message : Bool → Tqueue → InputTask → List NetCall
flush_message show tq t = if show then notify tq.player (codes ">>     " ++ t.string) ∷ [] else []

unfoldable pub flush_next :
    (Tqueue → Option (Tqueue × List NetCall))
    → Bool
    → Option InputTask × Tqueue × List NetCall
    → Option (Tqueue × List NetCall)
flush_next loop show (none, tq, calls) = some (tq, calls)
flush_next loop show (some t, tq, calls) =
    loop tq >>= λ (tq', more). some (tq', calls ++ (flush_message show tq t ++ more))

unfoldable pub flush_loop : ℕ → Bool → Tqueue → Option (Tqueue × List NetCall)
flush_loop zero show tq = none
flush_loop (suc k) show tq =
    dequeue_input_task tq dq_first >>= λ r. flush_next (flush_loop k show) show r

unfoldable pub said : Bool → Tqueue → List ℕ → List NetCall
said show tq line = if show then notify tq.player line ∷ [] else []

-- The loop runs on fuel for the tasks that are there and the call that finds none.
unfoldable pub flush_input : Tqueue → Bool → Option (Tqueue × List NetCall)
flush_input tq show =
    if no_more tq.input
    then some (tq, said show tq (codes ">> No pending input to flush..."))
    else (flush_loop (suc (length tq.input)) show tq >>= λ (tq', calls). some (
      tq',
      said show tq (codes ">> Flushing the following pending input:")
          ++ (calls ++ said show tq (codes ">> (Done flushing)")),
    ))

-- if (tq->flush_cmd && mystrcasecmp(input, tq->flush_cmd) == 0)
unfoldable pub is_flush_cmd : Option (List ℕ) → List ℕ → Bool
is_flush_cmd none line = false
is_flush_cmd (some cmd) line = mystrcasecmp line cmd ==ℤ pos 0

unfoldable pub stored_back : Queues → Tqueue × List NetCall → Option (Queues × List NetCall)
stored_back q (tq, calls) = some (store tq q, calls)

unfoldable pub new_input_task : ℕ → Tqueue → List ℕ → Bool → Queues → Option (Queues × List NetCall)
new_input_task a tq line binary q =
    if is_flush_cmd tq.flush_cmd line
    then (flush_input tq true >>= stored_back q)
    else enqueue_input_task a tq line false binary q

-- free_task_queue: the connection is closed.
unfoldable pub free_task_queue : Tqueue → Queues → Queues
free_task_queue tq q =
    let tq' = record tq { connected = false } in (wake (is_some tq.reading) tq' (store tq' q)).1

-- The options that concern the input: what is set, and the queue woken where there is work.
unfoldable pub set_hold_input : Tqueue → Bool → Queues → Queues
set_hold_input tq v q =
    let tq' = record tq { hold_input = v } in
    (wake (not v && not (no_more tq.input)) tq' (store tq' q)).1

-- What `find_tqueue(player, 1)` does, and the functions that call it so.
module _ (malloc : Queues → ℕ) (flush : Option (List ℕ)) where
  -- find_tqueue(player, 1)
  unfoldable pub find_or_make_tqueue : Objid → Queues → Tqueue × Queues
  find_or_make_tqueue p q = found_or_new (new_tqueue (malloc q) p flush) (find_tqueue p q) q

  unfoldable pub new_task_queue : Objid → Objid → Queues → Tqueue × Queues
  new_task_queue p handler q =
      let (tq, q') = find_or_make_tqueue p q in
      let tq' = record tq { connected = true; handler = handler } in (tq', store tq' q')
