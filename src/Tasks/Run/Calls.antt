-- ===== src/Tasks/Run/Calls.antt =====
-- The built-in functions of server/tasks.c that put input keep the order of the queues.
use nu_moo.Base.{
  ℕ, ◌≡◌, sym, ap, ◌∙◌, inl, inr, Bool, true, false, Option, refl, none, some, List, Bool-cases,
  ◌>>=◌, some_injective,
}
use mathlib.Core.Path.{subst}
use nu_moo.Db.Object.{Objid}
use nu_moo.Tasks.{NetCall, Queues}
use nu_moo.Tasks.Calls.{CallResult, with_nothing, permission_denied, force_line, flush_lines}
use nu_moo.Tasks.Run.Arrivals.{enqueue_input_task-Ordered, flush_input-Ordered}
use nu_moo.Tasks.Run.Keeps.{Ordered, Kept-Ordered}
use nu_moo.Tasks.Search.{may}
use nu_moo.Tasks.Tqueues.{stored_back, enqueue_input_task, flush_input, find_or_make_tqueue}
use nu_moo.Tasks.Tqueues.Wake.{FreshAddress, find_or_make-Kept}

with_nothing-some :
    (m : Option (Queues × List NetCall)) (r : CallResult) (q : Queues) (calls : List NetCall)
    → with_nothing m ≡ some (r, q, calls)
    → m ≡ some (q, calls)
unfolding with_nothing
with_nothing-some none r q calls e = cc e
with_nothing-some (some (q', cs)) r q calls e = ap without (some_injective e)
  where
    without : CallResult × Queues × List NetCall → Option (Queues × List NetCall)
    without (r, q, calls) = some (q, calls)

-- A call that is denied leaves the queues as they are.
denied :
    (r : CallResult) (q q' : Queues) (calls : List NetCall)
    → Ordered q
    → permission_denied q ≡ some (r, q', calls)
    → Ordered q'
unfolding permission_denied
denied r q q' calls ok e = subst Ordered (ap (λ w. w.1) (some_injective e)) ok

module _ (is_wizard : Objid → Bool) (malloc : Queues → ℕ) (flush : Option (List ℕ)) where
  module _ (fresh : FreshAddress malloc) where
    pub force_line-Ordered :
        (a : ℕ) (progr conn : Objid) (line : List ℕ) (at_front : Bool) (q : Queues) (r : CallResult)
        (q' : Queues) (calls : List NetCall)
        → Ordered q
        → force_line is_wizard malloc flush a progr conn line at_front q ≡ some (r, q', calls)
        → Ordered q'
    unfolding force_line
    force_line-Ordered a progr conn line at_front q r q' calls ok e =
        let k = find_or_make-Kept malloc flush conn q fresh ok.placed in
        let (tq, q2) = find_or_make_tqueue malloc flush conn q in
        let allowed = enqueue_input_task a tq line at_front false q2 in
        elim (Bool-cases (may is_wizard progr conn)) [
          | inl f ↦
              enqueue_input_task-Ordered a tq line at_front false q2 q' calls
                (Kept-Ordered q tq q2 ok k) k.known
                (with_nothing-some allowed r q' calls (sym (on_true f) ∙ e))
          | inr f ↦ denied r q q' calls ok (sym (on_false f) ∙ e)
        ]
      where
        on_true :
            may is_wizard progr conn ≡ true
            → force_line is_wizard malloc flush a progr conn line at_front q
              ≡ with_nothing (
                  enqueue_input_task a
                    ((find_or_make_tqueue malloc flush conn q).0)
                    line
                    at_front
                    false
                    ((find_or_make_tqueue malloc flush conn q).1))
        on_true f = rw f refl

        on_false :
            may is_wizard progr conn ≡ false
            → force_line is_wizard malloc flush a progr conn line at_front q ≡ permission_denied q
        on_false f = rw f refl

    pub flush_lines-Ordered :
        (progr conn : Objid) (show : Bool) (q : Queues) (r : CallResult) (q' : Queues)
        (calls : List NetCall)
        → Ordered q
        → flush_lines is_wizard malloc flush progr conn show q ≡ some (r, q', calls)
        → Ordered q'
    unfolding flush_lines
    flush_lines-Ordered progr conn show q r q' calls ok e =
        let k = find_or_make-Kept malloc flush conn q fresh ok.placed in
        let (tq, q2) = find_or_make_tqueue malloc flush conn q in
        let allowed = flush_input tq show >>= stored_back q2 in
        elim (Bool-cases (may is_wizard progr conn)) [
          | inl f ↦
              flush_input-Ordered show tq q2 q' calls (Kept-Ordered q tq q2 ok k) k.known
                (with_nothing-some allowed r q' calls (sym (on_true f) ∙ e))
          | inr f ↦ denied r q q' calls ok (sym (on_false f) ∙ e)
        ]
      where
        on_true :
            may is_wizard progr conn ≡ true
            → flush_lines is_wizard malloc flush progr conn show q
              ≡ with_nothing (
                  flush_input ((find_or_make_tqueue malloc flush conn q).0) show
                  >>= stored_back ((find_or_make_tqueue malloc flush conn q).1))
        on_true f = rw f refl

        on_false :
            may is_wizard progr conn ≡ false
            → flush_lines is_wizard malloc flush progr conn show q ≡ permission_denied q
        on_false f = rw f refl
