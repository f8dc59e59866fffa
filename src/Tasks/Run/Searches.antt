-- ===== src/Tasks/Run/Searches.antt =====
-- `kill_task` and `do_resume` of server/tasks.c keep the order of the queues and of the waiting tasks.
use nu_moo.Base.{
  ℕ, ◌≡◌, refl, sym, ap, ◌∙◌, inl, inr, Bool, true, false, Option, none, some, List, [], ◌∷◌,
  if◌then◌else◌, Bool-cases, ◌>>=◌, some_injective,
}
use mathlib.Core.Path.{subst}
use nu_moo.Base.Int.{ℤ, pos, negsuc, ◌-ℤ◌, ◌==ℤ◌}
use nu_moo.Db.Object.{Objid}
use nu_moo.Tasks.{Timeval, BgTask, Tqueue, Queues}
use nu_moo.Tasks.Run.Keeps.{Ordered, Kept-Ordered, make_ready-Kept}
use nu_moo.Tasks.Tqueues.{store, first_of, find_tqueue, find_or_make_tqueue}
use nu_moo.Tasks.Tqueues.Keys.{key, keys, Placed, KnownTo}
use nu_moo.Tasks.Tqueues.Wake.{find_tqueue-Known, FreshAddress, find_or_make-Kept, store-Kept}
use nu_moo.Tasks.Search.{
  reads_for, count_less, put_back, update_first, kill_external, kill_in_active, resumed, revalue,
  resume_in_active, if_allowed, may, kill_reading, kill_picked, kill_active, kill_waiting,
  kill_in_idle, kill_found, kill_task, resume_bg, resume_waiting, resume_found, do_resume,
}
use nu_moo.Tasks.Waiting.{
  start_time, task_progr, has_id, is_suspended_with, picked_behind, pick, counted,
}
use nu_moo.Tasks.Waiting.Order.{SortedTimes, pick-NotBefore}
use nu_moo.Value.{Error, Value}

keys-update_first :
    (f : Tqueue → Option (Error × Tqueue)) (hs : List Tqueue) (e : Error) (hs' : List Tqueue)
    → ((h : Tqueue) (e : Error) (h' : Tqueue) → f h ≡ some (e, h') → key h' ≡ key h)
    → update_first f hs ≡ some (e, hs')
    → keys hs' ≡ keys hs
unfolding update_first put_back
keys-update_first f [] e hs' keep r = cc r
keys-update_first f (h ∷ hs) e hs' keep r =
    go (update_first f hs) (f h) (λ e2 l s. keys-update_first f hs e2 l keep s)
      (λ e2 h' s. keep h e2 h' s) r
  where
    go :
        (m : Option (Error × List Tqueue)) (n : Option (Error × Tqueue))
        → ((e2 : Error) (l : List Tqueue) → m ≡ some (e2, l) → keys l ≡ keys hs)
        → ((e2 : Error) (h' : Tqueue) → n ≡ some (e2, h') → key h' ≡ key h)
        → put_back h hs m n ≡ some (e, hs')
        → keys hs' ≡ keys (h ∷ hs)
    go none none sub head r = cc r
    go (some (e2, l)) none sub head r =
        ap keys (sym (ap (λ w. w.1) (some_injective r))) ∙ ap (λ ks. key h ∷ ks) (sub e2 l refl)
    go m (some (e2, h')) sub head r =
        ap keys (sym (ap (λ w. w.1) (some_injective r))) ∙ ap (λ k. k ∷ keys hs) (head e2 h' refl)

-- An operation on a queue that keeps its place.
abbrev pub KeepsKey : (Tqueue → Option (Error × Tqueue)) → Type 0
KeepsKey f = (h : Tqueue) (e : Error) (h' : Tqueue) → f h ≡ some (e, h') → key h' ≡ key h

module _ (is_wizard : Objid → Bool) where
  chosen_key :
      (b : Bool) (h h1 : Tqueue) (e : Error) (h' : Tqueue)
      → key h1 ≡ key h
      → ◌≡◌ {A = Option (Error × Tqueue)} (some (if_allowed b h1 h)) (some (e, h'))
      → key h' ≡ key h
  chosen_key true h h1 e h' k r = ap key (sym (ap (λ w. w.1) (some_injective r))) ∙ k
  chosen_key false h h1 e h' k r = ap key (sym (ap (λ w. w.1) (some_injective r)))

  kill_reading-KeepsKey : (i : ℤ) (owner : Objid) → KeepsKey (kill_reading is_wizard i owner)
  unfolding kill_reading
  kill_reading-KeepsKey i owner h e h' r = go (reads_for i h.reading) r
    where
      go :
          (b : Bool)
          → (if b
              then some (if_allowed (may is_wizard owner h.player) (record h { reading = none }) h)
              else none)
            ≡ some (e, h')
          → key h' ≡ key h
      go true r =
          chosen_key (may is_wizard owner h.player) h (record h { reading = none }) e h' refl r
      go false r = cc r

  kill_active-KeepsKey : (i : ℤ) (owner : Objid) → KeepsKey (kill_active is_wizard i owner)
  unfolding kill_active kill_picked
  kill_active-KeepsKey i owner h e h' r =
      go (kill_reading is_wizard i owner h) (pick (has_id i) h.bg)
        (λ s. kill_reading-KeepsKey i owner h e h' s) r
    where
      go :
          (m : Option (Error × Tqueue)) (n : Option (BgTask × List BgTask))
          → (m ≡ some (e, h') → key h' ≡ key h)
          → first_of m (kill_picked is_wizard owner h n) ≡ some (e, h')
          → key h' ≡ key h
      go (some w) n sub r = sub r
      go none none sub r = cc r
      go none (some (t, rest)) sub r =
          chosen_key (may is_wizard owner h.player) h
            (record h { bg = rest; num_bg_tasks = h.num_bg_tasks -ℤ pos 1 }) e h' refl r

  resume_bg-KeepsKey :
      (i : ℤ) (v : Value) (progr : Objid) → KeepsKey (resume_bg is_wizard i v progr)
  unfolding resume_bg
  resume_bg-KeepsKey i v progr h e h' r = go (revalue (is_suspended_with i) v h.bg) r
    where
      go :
          (m : Option (List BgTask))
          → (m >>= λ bg. some (if_allowed (may is_wizard progr h.player) (record h { bg = bg }) h))
            ≡ some (e, h')
          → key h' ≡ key h
      go none r = cc r
      go (some bg) r =
          chosen_key (may is_wizard progr h.player) h (record h { bg = bg }) e h' refl r

  -- The queues, when one list of them is exchanged for one of the same places.
  active-Ordered :
      (q : Queues) (hs : List Tqueue)
      → keys hs ≡ keys q.active_tqueues
      → Ordered q
      → Ordered (record q { active_tqueues = hs })
  active-Ordered q hs e ok = record {
    placed = subst (Placed (keys q.idle_tqueues)) (sym e) ok.placed;
    times = ok.times;
  }

  idle-Ordered :
      (q : Queues) (hs : List Tqueue)
      → keys hs ≡ keys q.idle_tqueues
      → Ordered q
      → Ordered (record q { idle_tqueues = hs })
  idle-Ordered q hs e ok = record {
    placed = subst (λ ks. Placed ks (keys q.active_tqueues)) (sym e) ok.placed;
    times = ok.times;
  }

  pick-SortedTimes :
      (p : BgTask → Bool) (ws : List BgTask) (t : BgTask) (rest : List BgTask)
      → pick p ws ≡ some (t, rest)
      → SortedTimes ws
      → SortedTimes rest
  unfolding pick picked_behind
  pick-SortedTimes p [] t rest e h = cc e
  pick-SortedTimes p (w ∷ ws) t rest e h =
      go (p w) (pick p ws) refl (λ u us f. pick-SortedTimes p ws u us f h.1) e
    where
      go :
          (b : Bool) (m : Option (BgTask × List BgTask))
          → pick p ws ≡ m
          → ((u : BgTask) (us : List BgTask) → pick p ws ≡ some (u, us) → SortedTimes us)
          → (if b then some (w, ws) else picked_behind w m) ≡ some (t, rest)
          → SortedTimes rest
      go true m f sub g = subst SortedTimes (ap (λ r. r.1) (some_injective g)) h.1
      go false none f sub g = cc g
      go false (some (u, us)) f sub g =
          subst SortedTimes (ap (λ r. r.1) (some_injective g))
            (pick-NotBefore p (start_time w) ws u us f h.0, sub u us f)

  -- The count of the programmer's tasks.
  count_less-Ordered :
      (p : Objid) (q : Queues) → Ordered q → Ordered (count_less (find_tqueue p q) q)
  unfolding count_less counted
  count_less-Ordered p q ok = go (find_tqueue p q) (λ tq e. find_tqueue-Known p q tq e)
    where
      go :
          (m : Option Tqueue)
          → ((tq : Tqueue) → m ≡ some tq → KnownTo tq q)
          → Ordered (count_less m q)
      go none known = ok
      go (some tq) known =
          let tq' = counted (negsuc 0) tq in
          Kept-Ordered q tq' (store tq' q) ok (store-Kept tq' q ok.placed (known tq refl))

  kill_waiting-Ordered :
      (owner : Objid) (t : BgTask) (rest : List BgTask) (q : Queues)
      → SortedTimes rest
      → Ordered q
      → Ordered ((kill_waiting is_wizard owner t rest q).1)
  unfolding kill_waiting
  kill_waiting-Ordered owner t rest q sorted ok =
      let less = count_less-Ordered (task_progr t) q ok in
      elim (Bool-cases (may is_wizard owner (task_progr t))) [
        | inl e ↦ rw e (record { placed = less.placed; times = sorted })
        | inr e ↦ rw e ok
      ]

  pub kill_task-Ordered :
      (current i : ℤ) (owner : Objid) (external : Option Error) (q : Queues)
      → Ordered q
      → Ordered ((kill_task is_wizard current i owner external q).1)
  unfolding kill_task kill_found kill_in_idle kill_in_active kill_external
  kill_task-Ordered current i owner external q ok = elim (Bool-cases (i ==ℤ current)) [
    | inl e ↦ rw e ok
    | inr e ↦ rw e (in_waiting (pick (has_id i) q.waiting_tasks) refl)
  ]
    where
      on_active :
          (m : Option (Error × List Tqueue))
          → update_first (kill_active is_wizard i owner) q.active_tqueues ≡ m
          → Ordered ((kill_in_active external q m).1)
      on_active none e = outside external
        where
          outside : (x : Option Error) → Ordered ((kill_external x q).1)
          outside none = ok
          outside (some x) = ok
      on_active (some (x, hs)) e =
          active-Ordered q hs
            (keys-update_first (kill_active is_wizard i owner) q.active_tqueues x hs
              (kill_active-KeepsKey i owner) e)
            ok

      on_idle :
          (m : Option (Error × List Tqueue))
          → update_first (kill_reading is_wizard i owner) q.idle_tqueues ≡ m
          → Ordered ((kill_in_idle is_wizard i owner external q m).1)
      on_idle none e =
          on_active (update_first (kill_active is_wizard i owner) q.active_tqueues) refl
      on_idle (some (x, hs)) e =
          idle-Ordered q hs
            (keys-update_first (kill_reading is_wizard i owner) q.idle_tqueues x hs
              (kill_reading-KeepsKey i owner) e)
            ok

      in_waiting :
          (m : Option (BgTask × List BgTask))
          → pick (has_id i) q.waiting_tasks ≡ m
          → Ordered ((kill_found is_wizard i owner external q m).1)
      in_waiting none e =
          on_idle (update_first (kill_reading is_wizard i owner) q.idle_tqueues) refl
      in_waiting (some (t, rest)) e =
          kill_waiting-Ordered owner t rest q
            (pick-SortedTimes (has_id i) q.waiting_tasks t rest e ok.times) ok

  module _ (malloc : Queues → ℕ) (flush : Option (List ℕ)) (fresh : FreshAddress malloc) where
    resume_waiting-Ordered :
        (now : Timeval) (v : Value) (progr : Objid) (t : BgTask) (rest : List BgTask) (q : Queues)
        → SortedTimes rest
        → Ordered q
        → Ordered ((resume_waiting is_wizard malloc flush now v progr t rest q).1)
    unfolding resume_waiting
    resume_waiting-Ordered now v progr t rest q sorted ok =
        let made = find_or_make_tqueue malloc flush (task_progr t) q in
        let k = find_or_make-Kept malloc flush (task_progr t) q fresh ok.placed in
        let q2 : Queues = record (made.1) { waiting_tasks = rest } in
        let ready = make_ready-Kept (resumed now v t) made.0 q2 k.placed k.known in
        elim (Bool-cases (may is_wizard progr (task_progr t))) [
          | inl e ↦ rw e (record {
            placed = ready.placed;
            times = subst SortedTimes (sym ready.waiting) sorted;
          })
          | inr e ↦ rw e ok
        ]

    pub do_resume-Ordered :
        (i : ℤ) (now : Timeval) (v : Value) (progr : Objid) (q : Queues)
        → Ordered q
        → Ordered ((do_resume is_wizard malloc flush i now v progr q).1)
    unfolding do_resume resume_found resume_in_active
    do_resume-Ordered i now v progr q ok =
        in_waiting (pick (is_suspended_with i) q.waiting_tasks) refl
      where
        on_active :
            (m : Option (Error × List Tqueue))
            → update_first (resume_bg is_wizard i v progr) q.active_tqueues ≡ m
            → Ordered ((resume_in_active q m).1)
        on_active none e = ok
        on_active (some (x, hs)) e =
            active-Ordered q hs
              (keys-update_first (resume_bg is_wizard i v progr) q.active_tqueues x hs
                (resume_bg-KeepsKey i v progr) e)
              ok

        in_waiting :
            (m : Option (BgTask × List BgTask))
            → pick (is_suspended_with i) q.waiting_tasks ≡ m
            → Ordered ((resume_found is_wizard malloc flush i now v progr q m).1)
        in_waiting none e =
            on_active (update_first (resume_bg is_wizard i v progr) q.active_tqueues) refl
        in_waiting (some (t, rest)) e =
            resume_waiting-Ordered now v progr t rest q
              (pick-SortedTimes (is_suspended_with i) q.waiting_tasks t rest e ok.times) ok
