-- ===== src/Tasks/Run/Ends.antt =====
-- The end of a turn, and the freeing of queues, in server/tasks.c.
use nu_moo.Base.{
  ℕ, ◌≡◌, refl, sym, ap, ◌∙◌, ◌≢◌, inl, inr, Bool, true, false, List, [], ◌∷◌, arith, ==_iff,
  Bool-cases, All-imp, All,
}
use mathlib.Core.Path.{subst}
use nu_moo.Base.Int.{ℤ, pos, negsuc, ◌+ℤ◌, ◌≤ℤ◌}
use nu_moo.Tasks.{Tqueue, Queues}
use nu_moo.Tasks.Run.{queues_behind, end_turn, is_dead, free_dead}
use nu_moo.Tasks.Run.Keeps.{Ordered}
use nu_moo.Tasks.Tqueues.{no_usage, deactivate_tqueue, insert_tqueue, activate_tqueue, free_tqueue}
use nu_moo.Tasks.Tqueues.Keys.{Key, key, keys, FreeKey, Placed}
use nu_moo.Tasks.Tqueues.Moves.{
  insert_key, remove_key, keys-insert, keys-remove, All-insert_key, All-remove_key,
  Distinct-insert_key, Distinct-remove_key, Sorted-insert_key, Placed-deactivate,
}

-- The first active queue is taken off.
record Popped (k : Key) (idle ks : List Key) : Type 0 where
  rest : Placed idle ks
  free_active : FreeKey k.address ks
  free_idle : FreeKey k.address idle

pop-Popped : (k : Key) (idle ks : List Key) → Placed idle (k ∷ ks) → Popped k idle ks
pop-Popped k idle ks ok = record {
  rest = record {
    sorted = ok.sorted.1;
    used = ok.used.1;
    unused = ok.unused;
    idle_distinct = ok.idle_distinct;
    active_distinct = ok.active_distinct.1;
    apart =
        All-imp (λ x. FreeKey x.address (k ∷ ks)) (λ x. FreeKey x.address ks) idle (λ x f. f.1)
          ok.apart;
  };
  free_active = ok.active_distinct.0;
  free_idle =
      All-imp (λ x. FreeKey x.address (k ∷ ks)) (λ x. k.address ≢ x.address) idle
        (λ x f e. f.0 (sym e)) ok.apart;
}

Placed-put :
    (k : Key) (idle ks : List Key)
    → Placed idle ks
    → FreeKey k.address ks
    → FreeKey k.address idle
    → pos 0 ≤ℤ k.usage
    → Placed idle (insert_key k ks)
Placed-put k idle ks ok f g h = record {
  sorted = Sorted-insert_key k ks ok.sorted;
  used = All-insert_key (λ x. pos 0 ≤ℤ x.usage) k ks h ok.used;
  unused = ok.unused;
  idle_distinct = ok.idle_distinct;
  active_distinct = Distinct-insert_key k ks f ok.active_distinct;
  apart = both idle ok.apart g;
}
  where
    both :
        (xs : List Key)
        → All (λ x. FreeKey x.address ks) xs
        → FreeKey k.address xs
        → All (λ x. FreeKey x.address (insert_key k ks)) xs
    both [] f g = tt
    both (x ∷ xs) f g =
        (All-insert_key (λ y. x.address ≢ y.address) k ks (λ e. g.0 (sym e)) f.0, both xs f.1 g.1)

behind_first : (h : Tqueue) (hs : List Tqueue) → queues_behind h.address (h ∷ hs) ≡ hs
unfolding queues_behind
behind_first h hs = rw ((==_iff h.address h.address).1 refl) refl

more_used : (u : ℤ) (n : ℕ) → pos 0 ≤ℤ u → pos 0 ≤ℤ (u +ℤ pos n)
more_used (pos m) n h = ground arith
more_used (negsuc m) n h = absurd (omega arith)

pub end_turn-Ordered :
    (did_one : Bool) (n : ℕ) (h : Tqueue) (hs : List Tqueue) (q : Queues)
    → q.active_tqueues ≡ h ∷ hs
    → Ordered q
    → Ordered (end_turn did_one (pos n) h q)
unfolding end_turn activate_tqueue deactivate_tqueue
end_turn-Ordered did_one n h hs q e ok = go did_one
  where
    idle : List Key
    idle = keys q.idle_tqueues

    popped : Popped (key h) idle (keys hs)
    popped = pop-Popped (key h) idle (keys hs) (subst (λ l. Placed idle (keys l)) e ok.placed)

    behind : queues_behind h.address q.active_tqueues ≡ hs
    behind = ap (queues_behind h.address) e ∙ behind_first h hs

    used : pos 0 ≤ℤ h.usage
    used = (subst (λ l. Placed idle (keys l)) e ok.placed).used.0

    bumped : Tqueue
    bumped = record h { usage = h.usage +ℤ pos n }

    go : (b : Bool) → Ordered (end_turn b (pos n) h q)
    go true = record {
      placed =
          subst (λ l. Placed idle (keys (insert_tqueue bumped l))) (sym behind)
            (subst (Placed idle) (sym (keys-insert bumped hs)) (
              Placed-put (key bumped) idle (keys hs) popped.rest popped.free_active popped.free_idle
                (more_used h.usage n used)));
      times = ok.times;
    }
    go false = record {
      placed =
          subst (λ l. Placed (record { address = h.address; usage = no_usage } ∷ idle) (keys l))
            (sym behind)
            (Placed-deactivate h.address idle (keys hs) popped.rest popped.free_idle
              popped.free_active);
      times = ok.times;
    }

-- A queue is freed.
Placed-remove :
    (a : ℕ) (idle active : List Key) → Placed idle active → Placed (remove_key a idle) active
Placed-remove a idle active ok = record {
  sorted = ok.sorted;
  used = ok.used;
  unused = All-remove_key (λ x. x.usage ≡ no_usage) a idle ok.unused;
  idle_distinct = Distinct-remove_key a idle ok.idle_distinct;
  active_distinct = ok.active_distinct;
  apart = All-remove_key (λ x. FreeKey x.address active) a idle ok.apart;
}

free_tqueue-Ordered : (tq : Tqueue) (q : Queues) → Ordered q → Ordered (free_tqueue tq q)
unfolding free_tqueue
free_tqueue-Ordered tq q ok = record {
  placed =
      subst (λ ks. Placed ks (keys q.active_tqueues)) (sym (keys-remove tq.address q.idle_tqueues))
        (Placed-remove tq.address (keys q.idle_tqueues) (keys q.active_tqueues) ok.placed);
  times = ok.times;
}

pub free_dead-Ordered : (hs : List Tqueue) (q : Queues) → Ordered q → Ordered (free_dead hs q)
unfolding free_dead
free_dead-Ordered [] q ok = ok
free_dead-Ordered (h ∷ hs) q ok =
    let freed = free_dead-Ordered hs (free_tqueue h q) (free_tqueue-Ordered h q ok) in
    let kept = free_dead-Ordered hs q ok in
    elim (Bool-cases (is_dead h)) [ inl e ↦ rw e freed | inr e ↦ rw e kept ]
