-- ===== src/Tasks/Run/Turns.antt =====
-- Every active queue of server/tasks.c has its turn.
use nu_moo.Base.{
  ℕ, zero, suc, ◌+◌, ◌≤◌, ◌≡◌, refl, ap, ◌∙◌, inl, inr, Bool, true, false, List, [], ◌∷◌, ◌++◌,
  arith, if◌then◌else◌, ==_iff, Bool-cases, length, take,
}
use mathlib.Core.Path.{subst}
use nu_moo.Base.Int.{ℤ, pos, negsuc, pos_part, ◌+ℤ◌, ◌-ℤ◌, leb_ℤ}
use nu_moo.Tasks.{Tqueue, Queues}
use nu_moo.Tasks.Run.{queues_behind, end_turn}
use nu_moo.Tasks.Tqueues.{deactivate_tqueue, insert_tqueue, activate_tqueue}
use nu_moo.Tasks.Tqueues.Order.{
  SortedUsage, insert_tqueue-SortedUsage, insert-behind, insert-before,
}

-- The turn of the first active queue, when it ends.
abbrev pub next_turn : Bool → ℤ → List Tqueue → Queues → Queues
next_turn did_one elapsed [] q = q
next_turn did_one elapsed (h ∷ hs) q = end_turn did_one elapsed h q

-- Turns in which a task runs, with the seconds that the clock goes on meanwhile, or none.
abbrev pub after_turns : List (Bool × ℕ) → Queues → Queues
after_turns [] q = q
after_turns ((did_one, n) ∷ ts) q = after_turns ts (next_turn did_one (pos n) q.active_tqueues q)

-- The turns that count: those that take a second of the clock, and those without a task. Of a task
-- that ends in the second in which it began the usage of its queue shows nothing.
abbrev pub advance : Bool → ℕ → ℕ
advance false n = 1
advance true zero = 0
advance true (suc n) = 1

abbrev pub advances : List (Bool × ℕ) → ℕ
advances [] = 0
advances ((did_one, n) ∷ ts) = advance did_one n + advances ts

advance-le : (did_one : Bool) (n : ℕ) → advance did_one n ≤ 1
advance-le false n = omega arith
advance-le true zero = omega arith
advance-le true (suc n) = omega arith

advance_seconds : (n : ℕ) → advance true n ≤ n
advance_seconds zero = omega arith
advance_seconds (suc n) = omega arith

-- How long a queue waits at most for those before it: for each, the distance in usage, and one.
abbrev pub distance : Tqueue → Tqueue → ℕ
distance x h = suc (pos_part (x.usage -ℤ h.usage))

abbrev pub wait : List Tqueue → Tqueue → ℕ
wait [] x = 0
wait (h ∷ hs) x = distance x h + wait hs x

wait-insert :
    (x tq : Tqueue) (hs : List Tqueue) → wait (insert_tqueue tq hs) x ≡ distance x tq + wait hs x
unfolding insert_tqueue
wait-insert x tq [] = refl
wait-insert x tq (h ∷ hs) = go (leb_ℤ h.usage tq.usage) (wait-insert x tq hs)
  where
    go :
        (b : Bool)
        → wait (insert_tqueue tq hs) x ≡ distance x tq + wait hs x
        → wait (if b then h ∷ insert_tqueue tq hs else tq ∷ h ∷ hs) x
          ≡ distance x tq + (distance x h + wait hs x)
    go true e = omega (arith, e)
    go false e = refl

-- The queue that is served comes nearer to the one that waits, or behind it.
abbrev bumped : Tqueue → ℕ → Tqueue
bumped h n = record h { usage = h.usage +ℤ pos n }

distance-bumped :
    (x h : Tqueue) (n : ℕ)
    → leb_ℤ x.usage (h.usage +ℤ pos n) ≡ false
    → distance x (bumped h n) + n ≤ distance x h
distance-bumped x h n e = nearer x.usage h.usage n e
  where
    nearer :
        (u v : ℤ) (n : ℕ)
        → leb_ℤ u (v +ℤ pos n) ≡ false
        → suc (pos_part (u -ℤ (v +ℤ pos n))) + n ≤ suc (pos_part (u -ℤ v))
    nearer (pos a) (pos b) n e = ground arith
    nearer (pos a) (negsuc b) n e = ground arith
    nearer (negsuc a) (pos b) n e = ground arith
    nearer (negsuc a) (negsuc b) n e = ground arith

-- The active queues, from one that waits on.
record Waits (hs : List Tqueue) (x : Tqueue) (gain bound : ℕ) : Type 0 where
  front : List Tqueue
  back : List Tqueue
  parts : hs ≡ front ++ (x ∷ back)
  within : wait front x + gain ≤ bound

turn-Waits :
    (h : Tqueue) (zs : List Tqueue) (x : Tqueue) (ys : List Tqueue) (did_one : Bool) (n : ℕ)
    → SortedUsage (zs ++ (x ∷ ys))
    → Waits
        (if did_one then insert_tqueue (bumped h n) (zs ++ (x ∷ ys)) else zs ++ (x ∷ ys))
        x
        (advance did_one n)
        (distance x h + wait zs x)
turn-Waits h zs x ys false n s = record {
  front = zs;
  back = ys;
  parts = refl;
  within = omega arith;
}
turn-Waits h zs x ys true n s = elim (Bool-cases (leb_ℤ x.usage (h.usage +ℤ pos n))) [
  | inl e ↦ record {
    front = zs;
    back = insert_tqueue (bumped h n) ys;
    parts = insert-behind (bumped h n) zs x ys s e;
    within = omega (arith, advance-le true n);
  }
  | inr e ↦ record {
    front = insert_tqueue (bumped h n) zs;
    back = ys;
    parts = insert-before (bumped h n) zs x ys e;
    within =
        omega (arith, wait-insert x (bumped h n) zs, distance-bumped x h n e, advance_seconds n);
  }
]

end_turn_active :
    (did_one : Bool) (elapsed : ℤ) (h : Tqueue) (hs : List Tqueue) (q : Queues)
    → q.active_tqueues ≡ h ∷ hs
    → (end_turn did_one elapsed h q).active_tqueues
      ≡ (if did_one then insert_tqueue (record h { usage = h.usage +ℤ elapsed }) hs else hs)
unfolding end_turn activate_tqueue deactivate_tqueue queues_behind
end_turn_active true elapsed h hs q e =
    ap (λ l. insert_tqueue (record h { usage = h.usage +ℤ elapsed }) (queues_behind h.address l)) e
    ∙ rw ((==_iff h.address h.address).1 refl) refl
end_turn_active false elapsed h hs q e =
    ap (queues_behind h.address) e ∙ rw ((==_iff h.address h.address).1 refl) refl

sorted_turn :
    (did_one : Bool) (h : Tqueue) (hs : List Tqueue)
    → SortedUsage hs
    → SortedUsage (if did_one then insert_tqueue h hs else hs)
sorted_turn true h hs s = insert_tqueue-SortedUsage h hs s
sorted_turn false h hs s = s

-- While no queue is woken, and from active queues in the order of their usage, an active queue
-- becomes the first one, the next that is served, once the turns that count are as many as it waits for: for each queue before it, the distance between
-- the two in usage, and one. A turn counts that takes a second of the clock or finds no task; any
-- number of turns that do not count may stand between. No more turns that count than it waits for go
-- by before.
pub after_turns-first :
    (ts : List (Bool × ℕ)) (q : Queues) (xs : List Tqueue) (x : Tqueue) (ys : List Tqueue)
    → q.active_tqueues ≡ xs ++ (x ∷ ys)
    → SortedUsage (xs ++ (x ∷ ys))
    → wait xs x ≤ advances ts
    → (k : ℕ) × (k ≤ length ts)
      × (advances (take k ts) ≤ wait xs x)
      × (rest : List Tqueue) × ((after_turns (take k ts) q).active_tqueues ≡ x ∷ rest)
after_turns-first ts q [] x ys e s enough = (0, omega arith, omega arith, ys, e)
after_turns-first [] q (h ∷ zs) x ys e s enough = absurd (omega arith)
after_turns-first ((did_one, n) ∷ ts) q (h ∷ zs) x ys e s enough =
    let w = turn-Waits h zs x ys did_one n s.1 in
    let q' = end_turn did_one (pos n) h q in
    let turned = end_turn_active did_one (pos n) h (zs ++ (x ∷ ys)) q e in
    let (k, short, bound, rest, first) =
      after_turns-first ts q' w.front x w.back (turned ∙ w.parts)
        (subst SortedUsage w.parts (sorted_turn did_one (bumped h n) (zs ++ (x ∷ ys)) s.1))
        (omega (arith, w.within)) in
    (
      suc k,
      omega arith,
      omega (arith, w.within),
      rest,
      ap (λ l. (after_turns (take k ts) (next_turn did_one (pos n) l q)).active_tqueues) e ∙ first,
    )
