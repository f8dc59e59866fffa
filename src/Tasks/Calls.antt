-- ===== src/Tasks/Calls.antt =====
-- The built-in functions of server/tasks.c on tasks and input: kill_task(), resume(), force_input(),
-- flush_input() and output_delimiters(). The types of the arguments are checked before a call, so an
-- argument list of another shape is a fault, `none`.
use nu_moo.Base.{ℕ, Bool, false, not, Option, none, some, List, [], ◌∷◌, if◌then◌else◌, ◌>>=◌}
use nu_moo.Base.Int.{ℤ, pos, ◌==ℤ◌, to_int}
use nu_moo.Builtins.{Package, ret, raise}
use nu_moo.Db.Object.{Objid}
use nu_moo.Tasks.{Timeval, Tqueue, NetCall, Queues}
use nu_moo.Tasks.Search.{may, kill_task, do_resume}
use nu_moo.Tasks.Tqueues.{
  stored_back, find_tqueue, no_more, enqueue_input_task, flush_input, find_or_make_tqueue,
}
use nu_moo.Value.{
  Error, e_none, e_perm, e_invarg, Value, int, obj, str, list, float, nil, cons, to_list,
}

-- What a call returns; a task that kills itself is stopped.
pub data CallResult : Type 0 where
  returned : Package → CallResult
  kill_pack : CallResult

abbrev pub no_var_pack : CallResult
no_var_pack = returned (ret (int (pos 0)))

-- The comparison of a float with 0.0 is a parameter.
unfoldable pub is_true : (ℕ → Bool) → Value → Bool
is_true is_zero (int n) = not (n ==ℤ pos 0)
is_true is_zero (float x) = not (is_zero x)
is_true is_zero (str s) = not (no_more s)
is_true is_zero (list vs) = not (no_more (to_list vs))
is_true is_zero _ = false

unfoldable pub error_or : Error → CallResult → CallResult
error_or e_none r = r
error_or e r = returned (raise e)

unfoldable pub with_nothing :
    Option (Queues × List NetCall) → Option (CallResult × Queues × List NetCall)
with_nothing none = none
with_nothing (some (q, calls)) = some (no_var_pack, q, calls)

unfoldable pub permission_denied : Queues → Option (CallResult × Queues × List NetCall)
permission_denied q = some (returned (raise e_perm), q, [])

module _ (is_wizard : Objid → Bool) where
  unfoldable pub bf_kill_task :
      ℤ → Objid → Option Error → List Value → Queues → Option (CallResult × Queues)
  bf_kill_task current_task_id progr external (int n ∷ []) q =
      let (e, q') = kill_task is_wizard current_task_id (to_int n) progr external q in
      some (error_or e (if to_int n ==ℤ current_task_id then kill_pack else no_var_pack), q')
  bf_kill_task current_task_id progr external _ q = none

  unfoldable pub bf_output_delimiters : Objid → List Value → Queues → Option Package
  bf_output_delimiters progr (obj player ∷ []) q =
      if may is_wizard progr player
      then some (delimiters (find_tqueue player q))
      else some (raise e_perm)
    where
      text_of : Option (List ℕ) → Value
      text_of none = str []
      text_of (some s) = str s

      of_queue : Tqueue → Package
      of_queue tq =
          if tq.connected
          then ret (list (cons (text_of tq.output_prefix) (cons (text_of tq.output_suffix) nil)))
          else raise e_invarg

      delimiters : Option Tqueue → Package
      delimiters none = raise e_invarg
      delimiters (some tq) = of_queue tq
  bf_output_delimiters progr _ q = none

  module _ (malloc : Queues → ℕ) (flush : Option (List ℕ)) where
    unfoldable pub bf_resume : Timeval → Objid → List Value → Queues → Option (CallResult × Queues)
    bf_resume now progr (int n ∷ []) q =
        let (e, q') = do_resume is_wizard malloc flush (to_int n) now (int (pos 0)) progr q in
        some (error_or e no_var_pack, q')
    bf_resume now progr (int n ∷ v ∷ []) q =
        let (e, q') = do_resume is_wizard malloc flush (to_int n) now v progr q in
        some (error_or e no_var_pack, q')
    bf_resume now progr _ q = none

    unfoldable pub force_line :
        ℕ → Objid → Objid → List ℕ → Bool → Queues → Option (CallResult × Queues × List NetCall)
    force_line a progr conn line at_front q =
        let (tq, q') = find_or_make_tqueue malloc flush conn q in
        if may is_wizard progr conn
        then with_nothing (enqueue_input_task a tq line at_front false q')
        else permission_denied q

    -- `a` is the address of the new task.
    unfoldable pub bf_force_input :
        (ℕ → Bool) → ℕ → Objid → List Value → Queues → Option (CallResult × Queues × List NetCall)
    bf_force_input is_zero a progr (obj conn ∷ str line ∷ []) q =
        force_line a progr conn line false q
    bf_force_input is_zero a progr (obj conn ∷ str line ∷ v ∷ []) q =
        force_line a progr conn line (is_true is_zero v) q
    bf_force_input is_zero a progr _ q = none

    unfoldable pub flush_lines :
        Objid → Objid → Bool → Queues → Option (CallResult × Queues × List NetCall)
    flush_lines progr conn show_messages q =
        let (tq, q') = find_or_make_tqueue malloc flush conn q in
        if may is_wizard progr conn
        then with_nothing (flush_input tq show_messages >>= stored_back q')
        else permission_denied q

    unfoldable pub bf_flush_input :
        (ℕ → Bool) → Objid → List Value → Queues → Option (CallResult × Queues × List NetCall)
    bf_flush_input is_zero progr (obj conn ∷ []) q = flush_lines progr conn false q
    bf_flush_input is_zero progr (obj conn ∷ v ∷ []) q =
        flush_lines progr conn (is_true is_zero v) q
    bf_flush_input is_zero progr _ q = none
