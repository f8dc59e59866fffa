-- ===== src/Tasks/Waiting/Denied.antt =====
-- `kill_task` of server/tasks.c, where it fails.
use nu_moo.Base.{
  ◌≡◌, refl, sym, ap, ◌∙◌, ◌≢◌, inl, inr, Bool, true, false, Option, none, some, List, [], ◌∷◌,
  if◌then◌else◌, Bool-cases, some_injective,
}
use nu_moo.Base.Int.{ℤ, pos, ◌-ℤ◌, ◌==ℤ◌}
use nu_moo.Db.Object.{Objid}
use nu_moo.Tasks.{BgTask, Tqueue, Queues}
use nu_moo.Tasks.Tqueues.{first_of, find_tqueue}
use nu_moo.Tasks.Search.{
  reads_for, count_less, put_back, update_first, kill_external, kill_in_active, if_allowed, may,
  kill_reading, kill_picked, kill_active, kill_waiting, kill_in_idle, kill_found, kill_task,
}
use nu_moo.Tasks.Waiting.{task_progr, has_id, pick}
use nu_moo.Value.{Error, e_none, e_perm}

-- An operation on a queue that leaves it as it is where it fails.
abbrev Harmless : (Tqueue → Option (Error × Tqueue)) → Type 0
Harmless f = (h : Tqueue) (e : Error) (h' : Tqueue) → f h ≡ some (e, h') → e ≢ e_none → h' ≡ h

update_first-Harmless :
    (f : Tqueue → Option (Error × Tqueue)) (hs : List Tqueue) (e : Error) (hs' : List Tqueue)
    → Harmless f
    → update_first f hs ≡ some (e, hs')
    → e ≢ e_none
    → hs' ≡ hs
unfolding update_first put_back
update_first-Harmless f [] e hs' keep r ne = cc r
update_first-Harmless f (h ∷ hs) e hs' keep r ne =
    go (update_first f hs) (f h) (λ e2 l s. update_first-Harmless f hs e2 l keep s)
      (λ e2 h' s. keep h e2 h' s) r
  where
    go :
        (m : Option (Error × List Tqueue)) (n : Option (Error × Tqueue))
        → ((e2 : Error) (l : List Tqueue) → m ≡ some (e2, l) → e2 ≢ e_none → l ≡ hs)
        → ((e2 : Error) (h' : Tqueue) → n ≡ some (e2, h') → e2 ≢ e_none → h' ≡ h)
        → put_back h hs m n ≡ some (e, hs')
        → hs' ≡ h ∷ hs
    go none none sub head r = cc r
    go (some (e2, l)) none sub head r =
        let pair = some_injective r in
        sym (ap (λ w. w.1) pair)
        ∙ ap (λ l. h ∷ l) (sub e2 l refl (λ k. ne (sym (ap (λ w. w.0) pair) ∙ k)))
    go m (some (e2, h')) sub head r =
        let pair = some_injective r in
        sym (ap (λ w. w.1) pair)
        ∙ ap (λ x. x ∷ hs) (head e2 h' refl (λ k. ne (sym (ap (λ w. w.0) pair) ∙ k)))

if_allowed-Harmless :
    (b : Bool) (h1 h : Tqueue) (e : Error) (h' : Tqueue)
    → ◌≡◌ {A = Option (Error × Tqueue)} (some (if_allowed b h1 h)) (some (e, h'))
    → e ≢ e_none
    → h' ≡ h
if_allowed-Harmless true h1 h e h' r ne = absurd (ne (sym (ap (λ w. w.0) (some_injective r))))
if_allowed-Harmless false h1 h e h' r ne = sym (ap (λ w. w.1) (some_injective r))

module _ (is_wizard : Objid → Bool) where
  kill_reading-Harmless : (i : ℤ) (owner : Objid) → Harmless (kill_reading is_wizard i owner)
  unfolding kill_reading
  kill_reading-Harmless i owner h e h' r ne = go (reads_for i h.reading) r
    where
      go :
          (b : Bool)
          → (if b
              then some (if_allowed (may is_wizard owner h.player) (record h { reading = none }) h)
              else none)
            ≡ some (e, h')
          → h' ≡ h
      go true r =
          if_allowed-Harmless (may is_wizard owner h.player) (record h { reading = none }) h e h' r
            ne
      go false r = cc r

  kill_active-Harmless : (i : ℤ) (owner : Objid) → Harmless (kill_active is_wizard i owner)
  unfolding kill_active kill_picked
  kill_active-Harmless i owner h e h' r ne =
      go (kill_reading is_wizard i owner h) (pick (has_id i) h.bg)
        (λ s. kill_reading-Harmless i owner h e h' s ne) r
    where
      go :
          (m : Option (Error × Tqueue)) (n : Option (BgTask × List BgTask))
          → (m ≡ some (e, h') → h' ≡ h)
          → first_of m (kill_picked is_wizard owner h n) ≡ some (e, h')
          → h' ≡ h
      go (some w) n sub r = sub r
      go none none sub r = cc r
      go none (some (t, rest)) sub r =
          if_allowed-Harmless (may is_wizard owner h.player)
            (record h { bg = rest; num_bg_tasks = h.num_bg_tasks -ℤ pos 1 }) h e h' r ne

  -- Where `kill_task` fails, because no task has the number or the owner may not, nothing has
  -- changed.
  pub kill_task_denied :
      (current i : ℤ) (owner : Objid) (external : Option Error) (q : Queues) (e : Error)
      (q' : Queues)
      → kill_task is_wizard current i owner external q ≡ (e, q')
      → e ≢ e_none
      → q' ≡ q
  unfolding kill_task kill_found kill_in_idle kill_in_active kill_external kill_waiting
  kill_task_denied current i owner external q e q' r ne = elim (Bool-cases (i ==ℤ current)) [
    | inl f ↦
        let run : kill_task is_wizard current i owner external q ≡ (e_none, q) = rw f refl in
        absurd (ne (sym (ap (λ w. w.0) (sym run ∙ r))))
    | inr f ↦
        let run : kill_task is_wizard current i owner external q
            ≡ kill_found is_wizard i owner external q (pick (has_id i) q.waiting_tasks) =
          rw f refl in
        in_waiting (pick (has_id i) q.waiting_tasks) (sym run ∙ r)
  ]
    where
      outside : (x : Option Error) → kill_external x q ≡ (e, q') → q' ≡ q
      outside none r = sym (ap (λ w. w.1) r)
      outside (some x) r = sym (ap (λ w. w.1) r)

      on_active :
          (m : Option (Error × List Tqueue))
          → update_first (kill_active is_wizard i owner) q.active_tqueues ≡ m
          → kill_in_active external q m ≡ (e, q')
          → q' ≡ q
      on_active none f r = outside external r
      on_active (some (x, hs)) f r =
          sym (ap (λ w. w.1) r)
          ∙ ap (λ l. record q { active_tqueues = l })
              (update_first-Harmless (kill_active is_wizard i owner) q.active_tqueues x hs
                (kill_active-Harmless i owner) f (λ k. ne (sym (ap (λ w. w.0) r) ∙ k)))

      on_idle :
          (m : Option (Error × List Tqueue))
          → update_first (kill_reading is_wizard i owner) q.idle_tqueues ≡ m
          → kill_in_idle is_wizard i owner external q m ≡ (e, q')
          → q' ≡ q
      on_idle none f r =
          on_active (update_first (kill_active is_wizard i owner) q.active_tqueues) refl r
      on_idle (some (x, hs)) f r =
          sym (ap (λ w. w.1) r)
          ∙ ap (λ l. record q { idle_tqueues = l })
              (update_first-Harmless (kill_reading is_wizard i owner) q.idle_tqueues x hs
                (kill_reading-Harmless i owner) f (λ k. ne (sym (ap (λ w. w.0) r) ∙ k)))

      waiting_denied :
          (b : Bool) (less : Queues) (rest : List BgTask)
          → ◌≡◌ {A = Error × Queues}
              (if b then (e_none, record less { waiting_tasks = rest }) else (e_perm, q))
              (e, q')
          → q' ≡ q
      waiting_denied true less rest r = absurd (ne (sym (ap (λ w. w.0) r)))
      waiting_denied false less rest r = sym (ap (λ w. w.1) r)

      in_waiting :
          (m : Option (BgTask × List BgTask))
          → kill_found is_wizard i owner external q m ≡ (e, q')
          → q' ≡ q
      in_waiting none r =
          on_idle (update_first (kill_reading is_wizard i owner) q.idle_tqueues) refl r
      in_waiting (some (t, rest)) r =
          waiting_denied (may is_wizard owner (task_progr t))
            (count_less (find_tqueue (task_progr t) q) q) rest r
