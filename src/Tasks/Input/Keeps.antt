-- ===== src/Tasks/Input/Keeps.antt =====
-- `dequeue_input_task` and `flush_input` of server/tasks.c keep the input queue in order.
use nu_moo.Base.{
  ◌≡◌, refl, sym, ap, ◌∙◌, inl, inr, Bool, Option, none, some, List, [], ◌∷◌, ◌++◌, Bool-cases,
  some_injective,
}
use mathlib.Core.Path.{subst}
use nu_moo.Base.Int.{pos, ◌-ℤ◌}
use nu_moo.Tasks.{InputTask, Tqueue, NetCall}
use nu_moo.Tasks.Input.{taken, DequeueHow, resumes, dequeue_input_task}
use nu_moo.Tasks.Input.Dequeue.{dequeue_first, dequeue_input_task-first}
use nu_moo.Tasks.Input.Ends.{
  ends, DistinctTasks, total_length, Threaded, with_behind, take_first, wanted,
  DistinctTasks-remove, total_length-remove,
}

-- A task of the chain, and the chain without it.
pub record Picked (input : List InputTask) (t : InputTask) (rest : List InputTask) : Type 0 where
  pub front : List InputTask
  pub back : List InputTask
  pub whole : input ≡ front ++ (t ∷ back)
  pub others : rest ≡ front ++ back

pub take_first-Picked :
    (p : InputTask → Bool) (input : List InputTask) (t : InputTask) (rest : List InputTask)
    → take_first p input ≡ some (t, rest)
    → Picked input t rest
take_first-Picked p [] t rest e = cc e
take_first-Picked p (x ∷ xs) t rest e = elim (Bool-cases (p x)) [
  | inl hit ↦
      let runs : take_first p (x ∷ xs) ≡ some (x, xs) = rw hit refl in
      let same = sym runs ∙ e in
      record {
        front = [];
        back = xs;
        whole = ap (λ u. u ∷ xs) (ap (λ w. w.0) (some_injective same));
        others = sym (ap (λ w. w.1) (some_injective same));
      }
  | inr miss ↦
      let runs : take_first p (x ∷ xs) ≡ with_behind x (take_first p xs) = rw miss refl in
      later (take_first p xs) (λ u us f. take_first-Picked p xs u us f) refl (sym runs ∙ e)
]
  where
    later :
        (m : Option (InputTask × List InputTask))
        → ((u : InputTask) (us : List InputTask) → take_first p xs ≡ some (u, us) → Picked xs u us)
        → take_first p xs ≡ m
        → with_behind x m ≡ some (t, rest)
        → Picked (x ∷ xs) t rest
    later none sub f g = cc g
    later (some (u, us)) sub f g =
        let s = sub u us f in
        let pair = some_injective g in
        record {
          front = x ∷ s.front;
          back = s.back;
          whole =
              ap (λ ys. x ∷ ys) s.whole
              ∙ ap (λ v. x ∷ (s.front ++ (v ∷ s.back))) (ap (λ w. w.0) pair);
          others = sym (ap (λ w. w.1) pair) ∙ ap (λ ys. x ∷ ys) s.others;
        }

-- The queue behind `taken`, but for the mark that its input is suspended.
taken-Threaded :
    (tq : Tqueue) (t : InputTask) (rest : List InputTask)
    → Threaded tq
    → Picked tq.input t rest
    → Threaded ((taken tq t rest (ends rest)).1)
unfolding taken
taken-Threaded tq t rest ok s =
    elim (Bool-cases (resumes tq (tq.total_input_length -ℤ pos t.length))) [
      | inl e ↦ rw e (record { itail = refl; total = total'; distinct = distinct' })
      | inr e ↦ rw e (record { itail = refl; total = total'; distinct = distinct' })
    ]
  where
    total' : tq.total_input_length -ℤ pos t.length ≡ pos (total_length rest)
    total' =
        ap (λ n. n -ℤ pos t.length) (ok.total ∙ ap (λ xs. pos (total_length xs)) s.whole)
        ∙ total_length-remove s.front t s.back
        ∙ ap (λ xs. pos (total_length xs)) (sym s.others)

    distinct' : DistinctTasks rest
    distinct' =
        subst DistinctTasks (sym s.others)
          (DistinctTasks-remove s.front t s.back (subst DistinctTasks s.whole ok.distinct))

-- `dequeue_input_task` keeps the chain of sequence ends, the total length and the distinctness of
-- the tasks right.
pub dequeue_input_task-Threaded :
    (tq : Tqueue) (how : DequeueHow) (m : Option InputTask) (tq' : Tqueue) (calls : List NetCall)
    → Threaded tq
    → dequeue_input_task tq how ≡ some (m, tq', calls)
    → Threaded tq'
dequeue_input_task-Threaded tq how m tq' calls ok e =
    let p = wanted tq.disable_oob how in
    let run = some_injective (sym (dequeue_input_task-first tq how ok) ∙ e) in
    subst Threaded (ap (λ w. w.1) run) (by_first (take_first p tq.input) refl)
  where
    by_first :
        (n : Option (InputTask × List InputTask))
        → take_first (wanted tq.disable_oob how) tq.input ≡ n
        → Threaded ((dequeue_first tq n).1)
    by_first none f = ok
    by_first (some (t, rest)) f =
        taken-Threaded tq t rest ok
          (take_first-Picked (wanted tq.disable_oob how) tq.input t rest f)
