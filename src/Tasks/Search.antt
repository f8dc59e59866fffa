-- ===== src/Tasks/Search.antt =====
-- The functions of server/tasks.c that search a task by its number: `kill_task`, `do_resume` and
-- `find_suspended_task`. The programmers' privileges, the clock and what the external queues answer
-- are parameters; freeing is not modelled.
pub mod Found
use nu_moo.Base.{
  ℕ, Bool, true, false, ◌||◌, Option, none, some, List, [], ◌∷◌, if◌then◌else◌, ◌>>=◌,
}
use nu_moo.Base.Int.{ℤ, pos, negsuc, ◌-ℤ◌, ◌==ℤ◌}
use nu_moo.Db.Object.{Objid, same}
use nu_moo.Tasks.{Timeval, Vm, BgTask, task_forked, task_suspended, Tqueue, Queues}
use nu_moo.Tasks.Tqueues.{store, first_of, find_tqueue, find_or_make_tqueue}
use nu_moo.Tasks.Waiting.{task_progr, has_id, is_suspended_with, pick, counted, make_ready}
use nu_moo.Value.{Error, e_none, e_perm, e_invarg, Value}

-- The search of a task by its number.
unfoldable pub reads_for : ℤ → Option Vm → Bool
reads_for i none = false
reads_for i (some the_vm) = the_vm.task_id ==ℤ i

unfoldable pub count_less : Option Tqueue → Queues → Queues
count_less none q = q
count_less (some tq) q = store (counted (negsuc 0) tq) q

-- The loop over queues.
unfoldable pub put_back :
    Tqueue
    → List Tqueue
    → Option (Error × List Tqueue)
    → Option (Error × Tqueue)
    → Option (Error × List Tqueue)
put_back h hs none none = none
put_back h hs (some (e, hs')) none = some (e, h ∷ hs')
put_back h hs m (some (e, h')) = some (e, h' ∷ hs)

unfoldable pub update_first :
    (Tqueue → Option (Error × Tqueue)) → List Tqueue → Option (Error × List Tqueue)
update_first kill [] = none
update_first kill (h ∷ hs) = let rest = update_first kill hs in put_back h hs rest (kill h)

-- The external queues: none continues, and E_NONE and E_PERM are the answers of the others.
unfoldable pub kill_external : Option Error → Queues → Error × Queues
kill_external none q = (e_invarg, q)
kill_external (some e) q = (e, q)

unfoldable pub kill_in_active :
    Option Error → Queues → Option (Error × List Tqueue) → Error × Queues
kill_in_active external q none = kill_external external q
kill_in_active external q (some (e, hs)) = (e, record q { active_tqueues = hs })

-- do_resume
unfoldable pub resumed : Timeval → Value → BgTask → BgTask
resumed now value (task_forked f) = task_forked f
resumed now value (task_suspended s) = task_suspended (record s { start_tv = now; value = value })

unfoldable pub with_value : Value → BgTask → BgTask
with_value value (task_forked f) = task_forked f
with_value value (task_suspended s) = task_suspended (record s { value = value })

-- The tasks with a new value for the first that passes a test.
unfoldable pub revalue : (BgTask → Bool) → Value → List BgTask → Option (List BgTask)
revalue p value [] = none
revalue p value (t ∷ ts) =
    let rest = revalue p value ts in
    if p t then some (with_value value t ∷ ts) else (rest >>= λ ts'. some (t ∷ ts'))

unfoldable pub resume_in_active : Queues → Option (Error × List Tqueue) → Error × Queues
resume_in_active q none = (e_invarg, q)
resume_in_active q (some (e, hs)) = (e, record q { active_tqueues = hs })

-- The queue with a change, or E_PERM and the queue as it is.
abbrev pub if_allowed : Bool → Tqueue → Tqueue → Error × Tqueue
if_allowed true changed tq = (e_none, changed)
if_allowed false changed tq = (e_perm, tq)

module _ (is_wizard : Objid → Bool) where
  abbrev pub may : Objid → Objid → Bool
  may owner progr = is_wizard owner || same owner progr

  -- The task that reads.
  unfoldable pub kill_reading : ℤ → Objid → Tqueue → Option (Error × Tqueue)
  kill_reading i owner tq =
      if reads_for i tq.reading
      then some (if_allowed (may owner tq.player) (record tq { reading = none }) tq)
      else none

  unfoldable pub kill_picked :
      Objid → Tqueue → Option (BgTask × List BgTask) → Option (Error × Tqueue)
  kill_picked owner tq none = none
  kill_picked owner tq (some (t, rest)) = some (
      if_allowed (may owner tq.player)
        (record tq { bg = rest; num_bg_tasks = tq.num_bg_tasks -ℤ pos 1 }) tq)

  unfoldable pub kill_active : ℤ → Objid → Tqueue → Option (Error × Tqueue)
  kill_active i owner tq =
      first_of (kill_reading i owner tq) (kill_picked owner tq (pick (has_id i) tq.bg))

  unfoldable pub kill_waiting : Objid → BgTask → List BgTask → Queues → Error × Queues
  kill_waiting owner t rest q =
      let less = count_less (find_tqueue (task_progr t) q) q in
      if may owner (task_progr t)
      then (e_none, record less { waiting_tasks = rest })
      else (e_perm, q)

  unfoldable pub kill_in_idle :
      ℤ → Objid → Option Error → Queues → Option (Error × List Tqueue) → Error × Queues
  kill_in_idle i owner external q none =
      kill_in_active external q (update_first (kill_active i owner) q.active_tqueues)
  kill_in_idle i owner external q (some (e, hs)) = (e, record q { idle_tqueues = hs })

  unfoldable pub kill_found :
      ℤ → Objid → Option Error → Queues → Option (BgTask × List BgTask) → Error × Queues
  kill_found i owner external q none =
      kill_in_idle i owner external q (update_first (kill_reading i owner) q.idle_tqueues)
  kill_found i owner external q (some (t, rest)) = kill_waiting owner t rest q

  unfoldable pub kill_task : ℤ → ℤ → Objid → Option Error → Queues → Error × Queues
  kill_task current_task_id i owner external q =
      if i ==ℤ current_task_id
      then (e_none, q)
      else kill_found i owner external q (pick (has_id i) q.waiting_tasks)

  unfoldable pub resume_bg : ℤ → Value → Objid → Tqueue → Option (Error × Tqueue)
  resume_bg i value progr tq = revalue (is_suspended_with i) value tq.bg >>= λ bg.
      some (if_allowed (may progr tq.player) (record tq { bg = bg }) tq)

  module _ (malloc : Queues → ℕ) (flush : Option (List ℕ)) where
    unfoldable pub resume_waiting :
        Timeval → Value → Objid → BgTask → List BgTask → Queues → Error × Queues
    resume_waiting now value progr t rest q =
        let (tq, q') = find_or_make_tqueue malloc flush (task_progr t) q in
        let q2 = record q' { waiting_tasks = rest } in
        if may progr (task_progr t)
        then (e_none, make_ready (resumed now value t) tq q2)
        else (e_perm, q)

    unfoldable pub resume_found :
        ℤ → Timeval → Value → Objid → Queues → Option (BgTask × List BgTask) → Error × Queues
    resume_found i now value progr q none =
        resume_in_active q (update_first (resume_bg i value progr) q.active_tqueues)
    resume_found i now value progr q (some (t, rest)) = resume_waiting now value progr t rest q

    unfoldable pub do_resume : ℤ → Timeval → Value → Objid → Queues → Error × Queues
    do_resume i now value progr q =
        resume_found i now value progr q (pick (is_suspended_with i) q.waiting_tasks)

-- find_suspended_task: the virtual machine of a task that is suspended or reads.
unfoldable pub suspended_vm : ℤ → List BgTask → Option Vm
suspended_vm i [] = none
suspended_vm i (task_forked f ∷ ts) = suspended_vm i ts
suspended_vm i (task_suspended s ∷ ts) =
    let rest = suspended_vm i ts in if s.the_vm.task_id ==ℤ i then some s.the_vm else rest

unfoldable pub reading_vm : ℤ → Option Vm → Option Vm
reading_vm i none = none
reading_vm i (some the_vm) = if the_vm.task_id ==ℤ i then some the_vm else none

unfoldable pub idle_vm : ℤ → List Tqueue → Option Vm
idle_vm i [] = none
idle_vm i (h ∷ hs) = first_of (reading_vm i h.reading) (idle_vm i hs)

unfoldable pub active_vm : ℤ → List Tqueue → Option Vm
active_vm i [] = none
active_vm i (h ∷ hs) =
    first_of (reading_vm i h.reading) (first_of (suspended_vm i h.bg) (active_vm i hs))

-- `external` is what the external queues find.
unfoldable pub find_suspended_task : ℤ → Option Vm → Queues → Option Vm
find_suspended_task i external q =
    first_of (suspended_vm i q.waiting_tasks)
      (first_of (idle_vm i q.idle_tqueues) (first_of (active_vm i q.active_tqueues) external))
