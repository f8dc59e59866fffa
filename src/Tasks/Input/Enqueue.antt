-- ===== src/Tasks/Input/Enqueue.antt =====
-- A task put into the input queue of server/tasks.c.
use nu_moo.Base.{
  ℕ, ◌≡◌, refl, sym, ap, ◌∙◌, inl, inr, Bool, true, false, not, some, List, [], ◌∷◌, ◌++◌,
  if◌then◌else◌, ==_iff, Bool-cases, ◌>>=◌,
}
use mathlib.Core.List.{append_assoc}
use mathlib.Core.Path.{subst}
use nu_moo.Tasks.{InputTask, is_oob}
use nu_moo.Tasks.Input.{task_at, same_sort, behind_last, thread_rear, thread_front, put_task}
use nu_moo.Tasks.Input.Ends.{ends, Apart, DistinctTasks, DistinctTasks-before}
use nu_moo.Tasks.Input.Split.{==-apart}

same_sort_comm : (t u : InputTask) → same_sort t u ≡ same_sort u t
unfolding same_sort
same_sort_comm t u = both (is_oob t.kind) (is_oob u.kind)
  where
    both : (a b : Bool) → (if a then b else not b) ≡ (if b then a else not a)
    both true true = refl
    both true false = refl
    both false true = refl
    both false false = refl

-- The ends of a chain with one task more behind its last task.
ends_snoc :
    (init : List InputTask) (l t : InputTask)
    → (p : List ℕ) × (ends (init ++ (l ∷ [])) ≡ p ++ (l.address ∷ []))
      × (ends (init ++ (l ∷ t ∷ []))
          ≡ p ++ (if same_sort l t then t.address ∷ [] else l.address ∷ t.address ∷ []))
ends_snoc [] l t = ([], refl, refl)
ends_snoc (i ∷ []) l t = elim (Bool-cases (same_sort i l)) [
  | inl g ↦ ([], rw g refl, rw g refl)
  | inr g ↦ (i.address ∷ [], rw g refl, rw g refl)
]
ends_snoc (i ∷ j ∷ js) l t =
    let (p, e, f) = ends_snoc (j ∷ js) l t in
    elim (Bool-cases (same_sort i j)) [
      | inl g ↦ (p, rw g e, rw g f)
      | inr g ↦
          (i.address ∷ p, rw g (ap (λ xs. i.address ∷ xs) e), rw g (ap (λ xs. i.address ∷ xs) f))
    ]

task_at_last :
    (init : List InputTask) (l : InputTask)
    → Apart l.address init
    → task_at l.address (init ++ (l ∷ [])) ≡ some l
unfolding task_at
task_at_last [] l h = rw ((==_iff l.address l.address).1 refl) refl
task_at_last (i ∷ js) l h =
    rw (==-apart i.address l.address (λ e. h.0 (sym e)), task_at_last js l h.1) refl

-- The chain of ends is changed at its last place only.
thread_rear_last :
    (input : List InputTask) (t l : InputTask) (p : List ℕ)
    → task_at l.address input ≡ some l
    → thread_rear input t (p ++ (l.address ∷ []))
      ≡ some (p ++ (if same_sort l t then t.address ∷ [] else l.address ∷ t.address ∷ []))
unfolding thread_rear behind_last
thread_rear_last input t l [] e = ap (behind_last t) e ∙ pull (same_sort l t)
  where
    pull :
        (b : Bool)
        → (if b then some (t.address ∷ []) else some (l.address ∷ t.address ∷ []))
          ≡ some (if b then t.address ∷ [] else l.address ∷ t.address ∷ [])
    pull true = refl
    pull false = refl
thread_rear_last input t l (a ∷ []) e =
    ap (λ m. m >>= λ rest. some (a ∷ rest)) (thread_rear_last input t l [] e)
thread_rear_last input t l (a ∷ b ∷ bs) e =
    ap (λ m. m >>= λ rest. some (a ∷ rest)) (thread_rear_last input t l (b ∷ bs) e)

-- A chain that is not empty has a last task.
last_task :
    (first : InputTask) (rest : List InputTask)
    → (init : List InputTask) × (l : InputTask) × (first ∷ rest ≡ init ++ (l ∷ []))
last_task first [] = ([], first, refl)
last_task first (u ∷ us) =
    let (init, l, e) = last_task u us in (first ∷ init, l, ap (λ xs. first ∷ xs) e)

-- The queue with the task put in.
abbrev pub with_input : InputTask → Bool → List InputTask → List InputTask
with_input t true input = t ∷ input
with_input t false input = input ++ (t ∷ [])

put_rear :
    (t first : InputTask) (rest : List InputTask)
    → DistinctTasks (first ∷ rest)
    → thread_rear (first ∷ rest) t (ends (first ∷ rest)) ≡ some (ends ((first ∷ rest) ++ (t ∷ [])))
put_rear t first rest d =
    let (init, l, whole) = last_task first rest in
    let (p, e, f) = ends_snoc init l t in
    let d' = subst DistinctTasks whole d in
    ap (λ xs. thread_rear xs t (ends xs)) whole
    ∙ ap (thread_rear (init ++ (l ∷ [])) t) e
    ∙ thread_rear_last (init ++ (l ∷ [])) t l p
        (task_at_last init l (DistinctTasks-before init l [] d'))
    ∙ ap some (sym f ∙ ap ends (sym (append_assoc init (l ∷ []) (t ∷ []))))
    ∙ ap (λ xs. some (ends (xs ++ (t ∷ [])))) (sym whole)

-- On a queue whose chain of sequence ends is right, a task is put in without following a null
-- pointer, at the front or at the rear, and the chain is right again.
pub put_task_lem :
    (t : InputTask) (at_front : Bool) (input : List InputTask)
    → DistinctTasks input
    → put_task t at_front input (ends input)
      ≡ some (with_input t at_front input, ends (with_input t at_front input))
unfolding put_task thread_front
put_task_lem t true [] d = refl
put_task_lem t false [] d = refl
put_task_lem t true (first ∷ rest) d = elim (Bool-cases (same_sort first t)) [
  | inl e ↦ rw (e, sym (same_sort_comm first t) ∙ e) refl
  | inr e ↦ rw (e, sym (same_sort_comm first t) ∙ e) refl
]
put_task_lem t false (first ∷ rest) d =
    ap (λ m. m >>= λ itail. some ((first ∷ rest) ++ (t ∷ []), itail)) (put_rear t first rest d)
