-- ===== src/Tasks/Input/Dequeue.antt =====
-- `dequeue_input_task` of server/tasks.c against the queue of its tasks in their order.
use nu_moo.Base.{
  ◌≡◌, refl, sym, ap, ◌∙◌, inl, inr, Bool, true, false, not, Option, none, some, List, [], ◌∷◌,
  ◌++◌, ==_iff, Bool-cases, All, ◌>>=◌,
}
use mathlib.Core.List.{append_assoc, append-nil}
use mathlib.Core.Path.{subst}
use nu_moo.Db.Object.{same}
use nu_moo.Tasks.{InputTask, Tqueue, NetCall, is_oob}
use nu_moo.Tasks.Input.{
  taken, DequeueHow, dq_first, dq_oob, dq_inband, skips, split_behind, slots_at, behind_first_itail,
  slots, joined, unthread, take_slot, dequeue_from, dequeue_how, dequeue_input_task, same_sort,
}
use nu_moo.Tasks.Input.Ends.{
  ends, DistinctTasks, Threaded, take_first, asked, wanted, DistinctTasks-before,
  DistinctTasks-from,
}
use nu_moo.Tasks.Input.Split.{
  OfSort, Breaks, Sequence, same_sort_eq, same_sort_ne, sort-cases, first-Sequence, ends_front,
  ends-first-Sequence, split_behind_lem, unthread_within, unthread_single,
}

-- The first task that is asked for is taken out; the ends of sequences are those of the rest.
abbrev pub dequeue_first :
    Tqueue → Option (InputTask × List InputTask) → Option InputTask × Tqueue × List NetCall
dequeue_first tq none = (none, tq, [])
dequeue_first tq (some (t, rest)) = taken tq t rest (ends rest)

take_first-behind :
    (p : InputTask → Bool) (xs : List InputTask) (t : InputTask) (rest : List InputTask)
    → All (λ x. p x ≡ false) xs
    → p t ≡ true
    → take_first p (xs ++ (t ∷ rest)) ≡ some (t, xs ++ rest)
take_first-behind p [] t rest h e = rw e refl
take_first-behind p (x ∷ xs) t rest h e = rw (h.0, take_first-behind p xs t rest h.1 e) refl

take_first-none :
    (p : InputTask → Bool) (xs : List InputTask)
    → All (λ x. p x ≡ false) xs
    → take_first p xs ≡ none
take_first-none p [] h = refl
take_first-none p (x ∷ xs) h = rw (h.0, take_first-none p xs h.1) refl

-- The end of the first sequence, when the sequence behind it loses its first task.
unthread_behind :
    (k : Bool) (l t : InputTask) (rest : List InputTask)
    → is_oob l.kind ≡ k
    → is_oob t.kind ≡ not k
    → DistinctTasks (t ∷ rest)
    → unthread t.address (l.address ∷ []) (ends (t ∷ rest)) ≡ ends (l ∷ rest)
unfolding unthread joined
unthread_behind k l t [] e f d = rw ((==_iff t.address t.address).1 refl) refl
unthread_behind k l t (u ∷ us) e f d = elim (sort-cases (not k) u) [
  | inl g ↦
      unthread_within t u us (l.address ∷ []) d.0 (same_sort_eq t u (not k) f g)
      ∙ rw (same_sort_ne l u k e g) refl
  | inr g ↦
      unthread_single t u us (l.address ∷ []) (same_sort_ne t u (not k) f g)
      ∙ rw (same_sort_eq l u k e (g ∙ not_not k)) refl
]
  where
    not_not : (k : Bool) → not (not k) ≡ k
    not_not true = refl
    not_not false = refl

unthread_front :
    (t : InputTask) (rest : List InputTask)
    → DistinctTasks (t ∷ rest)
    → unthread t.address [] (ends (t ∷ rest)) ≡ ends rest
unfolding unthread joined
unthread_front t [] d = rw ((==_iff t.address t.address).1 refl) refl
unthread_front t (u ∷ us) d = elim (Bool-cases (same_sort t u)) [
  | inl e ↦ unthread_within t u us [] d.0 e
  | inr e ↦ unthread_single t u us [] e
]

module _ (tq : Tqueue) (ok : Threaded tq) where
  -- The call that takes the first task of all.
  take_front :
      (p : InputTask → Bool) (t : InputTask) (rest : List InputTask)
      → tq.input ≡ t ∷ rest
      → p t ≡ true
      → take_slot tq
          (record { front = []; back = t ∷ rest; before = []; after = tq.itail })
          (t ∷ rest)
        ≡ dequeue_first tq (take_first p (t ∷ rest))
  unfolding take_slot
  take_front p t rest e f = rw f (
      ap (λ ds. taken tq t rest (unthread t.address [] ds)) (ok.itail ∙ ap ends e)
      ∙ ap (taken tq t rest) (unthread_front t rest (subst DistinctTasks e ok.distinct)))

  -- The call that passes over the first sequence.
  module _ (p : InputTask → Bool) (k : Bool) (s : Sequence k tq.input)
      (refused : (t : InputTask) → is_oob t.kind ≡ k → p t ≡ false)
      (accepted : (t : InputTask) → is_oob t.kind ≡ not k → p t ≡ true) where
    abbrev passed : List InputTask
    passed = s.front ++ (s.l ∷ [])

    refused_front : (xs : List InputTask) → OfSort k xs → All (λ x. p x ≡ false) (xs ++ (s.l ∷ []))
    refused_front [] h = (refused s.l s.last_sort, tt)
    refused_front (x ∷ xs) h = (refused x h.0, refused_front xs h.1)

    parts : tq.input ≡ passed ++ s.back
    parts = s.parts ∙ sym (append_assoc s.front (s.l ∷ []) s.back)

    distinct : DistinctTasks (s.front ++ (s.l ∷ s.back))
    distinct = subst DistinctTasks s.parts ok.distinct

    found_slots :
        behind_first_itail tq.input tq.itail
        ≡ some (record {
          front = passed;
          back = s.back;
          before = s.l.address ∷ [];
          after = ends s.back;
        })
    unfolding behind_first_itail slots_at
    found_slots =
        ap (behind_first_itail tq.input) (ok.itail ∙ ends-first-Sequence k tq.input s)
        ∙ ap (slots_at (ends s.back) s.l.address) (
            ap (split_behind s.l.address) s.parts
            ∙ split_behind_lem s.front s.l s.back
                (DistinctTasks-before s.front s.l s.back distinct))

    take_behind :
        (back : List InputTask)
        → s.back ≡ back
        → take_slot tq
            (record {
              front = passed;
              back = s.back;
              before = s.l.address ∷ [];
              after = ends s.back;
            })
            back
          ≡ dequeue_first tq (take_first p (passed ++ back))
    unfolding take_slot
    take_behind [] e = ap (dequeue_first tq) (
        sym (
          ap (take_first p) (append-nil passed)
          ∙ take_first-none p passed (refused_front s.front s.of_sort)))
    take_behind (t ∷ rest) e =
        let new_sort : is_oob t.kind ≡ not k = subst (Breaks k) e s.breaks in
        ap (λ ds. taken tq t (passed ++ rest) (unthread t.address (s.l.address ∷ []) (ends ds))) e
        ∙ ap (taken tq t (passed ++ rest)) (
            unthread_behind k s.l t rest s.last_sort new_sort (
              subst DistinctTasks e
                (DistinctTasks-from passed s.back (subst DistinctTasks parts ok.distinct)))
            ∙ sym (ends_front k s.front s.l rest s.of_sort s.last_sort)
            ∙ ap ends (sym (append_assoc s.front (s.l ∷ []) rest)))
        ∙ ap (dequeue_first tq) (
            sym (
              take_first-behind p passed t rest (refused_front s.front s.of_sort)
                (accepted t new_sort)))

  -- A call whose answer depends on the first task's sort.
  by_sort :
      (how : DequeueHow) (b : Bool) (t : InputTask) (rest : List InputTask)
      → tq.input ≡ t ∷ rest
      → is_oob t.kind ≡ b
      → (slots (skips how b) (t ∷ rest) tq.itail >>= λ s. some (take_slot tq s s.back))
        ≡ some (dequeue_first tq (take_first (asked how) (t ∷ rest)))
  unfolding slots
  by_sort dq_first b t rest e f = ap some (take_front (asked dq_first) t rest e refl)
  by_sort dq_oob true t rest e f = ap some (take_front (asked dq_oob) t rest e f)
  by_sort dq_inband false t rest e f = ap some (take_front (asked dq_inband) t rest e (ap not f))
  by_sort dq_oob false t rest e f =
      let s : Sequence false tq.input =
        subst (Sequence false) (sym e) (first-Sequence false t rest f) in
      let p = asked dq_oob in
      let runs = found_slots p false s (λ u g. g) (λ u g. g) in
      ap (λ m. m >>= λ s. some (take_slot tq s s.back))
        (ap (λ xs. behind_first_itail xs tq.itail) (sym e) ∙ runs)
      ∙ ap some (
          take_behind p false s (λ u g. g) (λ u g. g) s.back refl
          ∙ ap (λ xs. dequeue_first tq (take_first p xs))
              (sym (parts p false s (λ u g. g) (λ u g. g)) ∙ e))
  by_sort dq_inband true t rest e f =
      let s : Sequence true tq.input =
        subst (Sequence true) (sym e) (first-Sequence true t rest f) in
      let p = asked dq_inband in
      let runs = found_slots p true s (λ u g. ap not g) (λ u g. ap not g) in
      ap (λ m. m >>= λ s. some (take_slot tq s s.back))
        (ap (λ xs. behind_first_itail xs tq.itail) (sym e) ∙ runs)
      ∙ ap some (
          take_behind p true s (λ u g. ap not g) (λ u g. ap not g) s.back refl
          ∙ ap (λ xs. dequeue_first tq (take_first p xs))
              (sym (parts p true s (λ u g. ap not g) (λ u g. ap not g)) ∙ e))

  dequeue_from-first :
      (how : DequeueHow) (input : List InputTask)
      → tq.input ≡ input
      → dequeue_from tq how input ≡ some (dequeue_first tq (take_first (asked how) input))
  unfolding dequeue_from
  dequeue_from-first how [] e = refl
  dequeue_from-first how (t ∷ rest) e = by_sort how (is_oob t.kind) t rest e refl

take_first-ext :
    (p q : InputTask → Bool) (xs : List InputTask)
    → ((t : InputTask) → p t ≡ q t)
    → take_first p xs ≡ take_first q xs
take_first-ext p q [] h = refl
take_first-ext p q (x ∷ xs) h = rw (h x, take_first-ext p q xs h) refl

-- On a queue whose chain of sequence ends is right, `dequeue_input_task` follows no null pointer. It
-- takes out the first of the tasks that the call asks for: any task, one that is out of band, or one
-- that is not; where out-of-band commands are disabled, any task, and none for the call that asks
-- for them. The other tasks stay in their order, and the chain is the one of the sequence ends again.
pub dequeue_input_task-first :
    (tq : Tqueue) (how : DequeueHow)
    → Threaded tq
    → dequeue_input_task tq how
      ≡ some (dequeue_first tq (take_first (wanted tq.disable_oob how) tq.input))
unfolding dequeue_input_task dequeue_how
dequeue_input_task-first tq how ok = by_flag tq.disable_oob how
  where
    all_refused : (xs : List InputTask) → All (λ x. wanted true dq_oob x ≡ false) xs
    all_refused [] = tt
    all_refused (x ∷ xs) = (refl, all_refused xs)

    any :
        (how : DequeueHow)
        → ((t : InputTask) → asked dq_first t ≡ wanted true how t)
        → dequeue_from tq dq_first tq.input
          ≡ some (dequeue_first tq (take_first (wanted true how) tq.input))
    any how same =
        dequeue_from-first tq ok dq_first tq.input refl
        ∙ ap (λ m. some (dequeue_first tq m))
            (take_first-ext (asked dq_first) (wanted true how) tq.input same)

    by_flag :
        (b : Bool) (how : DequeueHow)
        → dequeue_how b tq how ≡ some (dequeue_first tq (take_first (wanted b how) tq.input))
    by_flag false how = dequeue_from-first tq ok how tq.input refl
    by_flag true dq_oob =
        ap (λ m. some (dequeue_first tq m))
          (sym (take_first-none (wanted true dq_oob) tq.input (all_refused tq.input)))
    by_flag true dq_first = any dq_first (λ t. refl)
    by_flag true dq_inband = any dq_inband (λ t. refl)
