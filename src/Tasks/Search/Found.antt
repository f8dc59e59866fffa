-- ===== src/Tasks/Search/Found.antt =====
-- What `find_suspended_task` of server/tasks.c finds.
use nu_moo.Base.{◌≡◌, inl, inr, Option, none, some, List, [], ◌∷◌, if◌then◌else◌, Bool-cases}
use nu_moo.Base.Int.{ℤ, ◌==ℤ◌, ==ℤ_iff}
use nu_moo.Tasks.{Vm, BgTask, task_forked, task_suspended, Tqueue, Queues}
use nu_moo.Tasks.Search.{suspended_vm, reading_vm, idle_vm, active_vm, find_suspended_task}
use nu_moo.Tasks.Tqueues.{first_of}

-- Nothing, or the virtual machine of the task with the number.
abbrev pub Numbered : ℤ → Option Vm → Type 0
Numbered i none = Unit
Numbered i (some the_vm) = the_vm.task_id ≡ i

first_of-Numbered :
    (i : ℤ) (m n : Option Vm) → Numbered i m → Numbered i n → Numbered i (first_of m n)
first_of-Numbered i none n f g = g
first_of-Numbered i (some the_vm) n f g = f

tested-Numbered :
    (i : ℤ) (the_vm : Vm) (rest : Option Vm)
    → Numbered i rest
    → Numbered i (if the_vm.task_id ==ℤ i then some the_vm else rest)
tested-Numbered i the_vm rest f = elim (Bool-cases (the_vm.task_id ==ℤ i)) [
  | inl e ↦ rw e ((==ℤ_iff the_vm.task_id i).0 e)
  | inr e ↦ rw e f
]

suspended_vm-Numbered : (i : ℤ) (ts : List BgTask) → Numbered i (suspended_vm i ts)
unfolding suspended_vm
suspended_vm-Numbered i [] = tt
suspended_vm-Numbered i (task_forked f ∷ ts) = suspended_vm-Numbered i ts
suspended_vm-Numbered i (task_suspended s ∷ ts) =
    tested-Numbered i s.the_vm (suspended_vm i ts) (suspended_vm-Numbered i ts)

reading_vm-Numbered : (i : ℤ) (m : Option Vm) → Numbered i (reading_vm i m)
unfolding reading_vm
reading_vm-Numbered i none = tt
reading_vm-Numbered i (some the_vm) = tested-Numbered i the_vm none tt

idle_vm-Numbered : (i : ℤ) (hs : List Tqueue) → Numbered i (idle_vm i hs)
unfolding idle_vm
idle_vm-Numbered i [] = tt
idle_vm-Numbered i (h ∷ hs) =
    first_of-Numbered i (reading_vm i h.reading) (idle_vm i hs) (reading_vm-Numbered i h.reading)
      (idle_vm-Numbered i hs)

active_vm-Numbered : (i : ℤ) (hs : List Tqueue) → Numbered i (active_vm i hs)
unfolding active_vm
active_vm-Numbered i [] = tt
active_vm-Numbered i (h ∷ hs) =
    first_of-Numbered i (reading_vm i h.reading) (first_of (suspended_vm i h.bg) (active_vm i hs))
      (reading_vm-Numbered i h.reading)
      (first_of-Numbered i (suspended_vm i h.bg) (active_vm i hs) (suspended_vm-Numbered i h.bg)
        (active_vm-Numbered i hs))

-- What is found, among waiting tasks and the queues' readers and background tasks, has the number,
-- where what the external queues find has it.
find_suspended_task-Numbered :
    (i : ℤ) (external : Option Vm) (q : Queues)
    → Numbered i external
    → Numbered i (find_suspended_task i external q)
unfolding find_suspended_task
find_suspended_task-Numbered i external q f =
    first_of-Numbered i (suspended_vm i q.waiting_tasks)
      (first_of (idle_vm i q.idle_tqueues) (first_of (active_vm i q.active_tqueues) external))
      (suspended_vm-Numbered i q.waiting_tasks)
      (first_of-Numbered i (idle_vm i q.idle_tqueues)
        (first_of (active_vm i q.active_tqueues) external) (idle_vm-Numbered i q.idle_tqueues)
        (first_of-Numbered i (active_vm i q.active_tqueues) external
          (active_vm-Numbered i q.active_tqueues) f))
