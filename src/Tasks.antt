-- ===== src/Tasks.antt =====
-- Tasks, queues of tasks and their data (server/tasks.c).
--
-- A queue is a record, a chain along `next` is a list. A queue and an input task are known by their
-- addresses, the latter where the chain of sequence ends (`first_itail`, `next_itail`) points to it; the pointers to the ends of
-- chains (`last_input`, `last_itail`, `last_bg`) are the ends of the lists. Ids and lengths are
-- integers without bound. `reading` is `reading_vm` where the source's `reading` is set. Calls into the network layer are returned in order. A virtual machine
-- and an activation are known by an address, the task's id and the programmer.
pub mod Input
pub mod Tqueues
pub mod Waiting
pub mod Search
pub mod Calls
pub mod Run
use nu_moo.Base.{
  ℕ, zero, suc, ◌+◌, ◌-◌, ◌*◌, ◌≤◌, ◌<◌, ◌≡◌, refl, ◌≢◌, Bool, true, false, ◌&&◌, ◌||◌, not, Option,
  none, some, List, [], ◌∷◌, ◌++◌, arith, ◌==◌, if◌then◌else◌, length, ◌>>=◌,
}
use nu_moo.Base.Int.{ℤ}
use nu_moo.Db.Object.{Objid}
use nu_moo.Value.{Value}

pub data TaskKind : Type 0 where
  task_inband task_oob task_quoted task_binary : TaskKind

pub record InputTask : Type 0 where
  pub address : ℕ
  pub kind : TaskKind
  pub string : List ℕ
  pub length : ℕ

pub record Timeval : Type 0 where
  pub tv_sec : ℤ
  pub tv_usec : ℤ

-- vm: the id, and progr_of_cur_verb
pub record Vm : Type 0 where
  pub address : ℕ
  pub task_id : ℤ
  pub progr : Objid

pub record ForkedTask : Type 0 where
  pub id : ℤ
  pub program : ℕ
  pub a : ℕ
  pub progr : Objid
  pub rt_env : ℕ
  pub f_index : ℤ
  pub start_tv : Timeval

pub record SuspendedTask : Type 0 where
  pub the_vm : Vm
  pub start_tv : Timeval
  pub value : Value

pub data BgTask : Type 0 where
  task_forked : ForkedTask → BgTask
  task_suspended : SuspendedTask → BgTask

pub record Tqueue : Type 0 where
  pub address : ℕ
  pub player : Objid
  pub handler : Objid
  pub connected : Bool
  pub input : List InputTask
  pub itail : List ℕ
  pub total_input_length : ℤ
  pub last_input_task_id : ℤ
  pub input_suspended : Bool
  pub bg : List BgTask
  pub usage : ℤ
  pub num_bg_tasks : ℤ
  pub output_prefix : Option (List ℕ)
  pub output_suffix : Option (List ℕ)
  pub flush_cmd : Option (List ℕ)
  pub program_stream : Option (List ℕ)
  pub hold_input : Bool
  pub disable_oob : Bool
  pub reading : Option Vm
  pub icmds : ℕ

-- What a queue asks of the network layer, in order.
pub data NetCall : Type 0 where
  notify : Objid → List ℕ → NetCall
  server_suspend_input : Objid → NetCall
  server_resume_input : Objid → NetCall

pub record Queues : Type 0 where
  pub idle_tqueues : List Tqueue
  pub active_tqueues : List Tqueue
  pub waiting_tasks : List BgTask

abbrev pub is_oob : TaskKind → Bool
is_oob task_oob = true
is_oob _ = false
