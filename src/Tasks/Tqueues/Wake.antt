-- ===== src/Tasks/Tqueues/Wake.antt =====
-- Finding, making and waking a queue of server/tasks.c keeps the order of the queues.
use nu_moo.Base.{
  ℕ, ◌≡◌, refl, sym, ap, ◌∙◌, inl, inr, Bool, true, false, Option, none, some, List, [], ◌∷◌, arith,
  ◌==◌, if◌then◌else◌, All, some_injective,
}
use mathlib.Core.Path.{subst}
use nu_moo.Base.Int.{ℤ, pos, negsuc, ◌≤ℤ◌, leb_ℤ, ◌==ℤ◌, ==ℤ_iff}
use nu_moo.Db.Object.{Objid, same}
use nu_moo.Db.Objects.Creation.{fresh}
use nu_moo.Tasks.{Tqueue, Queues}
use nu_moo.Tasks.Run.{at_address, tqueue_at}
use nu_moo.Tasks.Tqueues.{
  no_usage, store, remove_tqueue, deactivate_tqueue, insert_tqueue, activate_tqueue, first_usage,
  ensure_usage, find_player, first_of, find_tqueue, new_tqueue, found_or_new, wake,
  find_or_make_tqueue,
}
use nu_moo.Tasks.Tqueues.Keys.{
  Known, Key, key, keys, FreeKey, HasKey, Placed, All-HasKey, PlacedQueues, KnownTo,
  SamePlaces-Placed, SamePlaces-Known, store-SamePlaces,
}
use nu_moo.Tasks.Tqueues.Moves.{
  insert_key, remove_key, keys-insert, keys-remove, Placed-deactivate, Placed-activate,
}

-- The queues are in order, the queue is one of them, and the waiting tasks are as they were.
pub record Kept (q : Queues) (tq : Tqueue) (q' : Queues) : Type 0 where
  pub placed : PlacedQueues q'
  pub known : KnownTo tq q'
  pub waiting : q'.waiting_tasks ≡ q.waiting_tasks

pub find_player-HasKey :
    (p : Objid) (hs : List Tqueue) (tq : Tqueue)
    → find_player p hs ≡ some tq
    → HasKey (key tq) (keys hs)
unfolding find_player
find_player-HasKey p [] tq e = cc e
find_player-HasKey p (x ∷ xs) tq e = go (same x.player p) (find_player-HasKey p xs tq) e
  where
    go :
        (b : Bool)
        → (find_player p xs ≡ some tq → HasKey (key tq) (keys xs))
        → (if b then some x else find_player p xs) ≡ some tq
        → HasKey (key tq) (keys (x ∷ xs))
    go true sub f = inl (ap key (some_injective f))
    go false sub f = inr (sub f)

pub at_address-HasKey :
    (a : ℕ) (hs : List Tqueue) (tq : Tqueue) → at_address a hs ≡ some tq → HasKey (key tq) (keys hs)
unfolding at_address
at_address-HasKey a [] tq e = cc e
at_address-HasKey a (x ∷ xs) tq e = go (x.address == a) (at_address-HasKey a xs tq) e
  where
    go :
        (b : Bool)
        → (at_address a xs ≡ some tq → HasKey (key tq) (keys xs))
        → (if b then some x else at_address a xs) ≡ some tq
        → HasKey (key tq) (keys (x ∷ xs))
    go true sub f = inl (ap key (some_injective f))
    go false sub f = inr (sub f)

first_of-Known :
    (idle active : List Tqueue) (m n : Option Tqueue) (tq : Tqueue)
    → (m ≡ some tq → HasKey (key tq) (keys active))
    → (n ≡ some tq → HasKey (key tq) (keys idle))
    → first_of m n ≡ some tq
    → Known (key tq) (keys idle) (keys active)
first_of-Known idle active none n tq f g e = inl (g e)
first_of-Known idle active (some h) n tq f g e = inr (f e)

pub find_tqueue-Known :
    (p : Objid) (q : Queues) (tq : Tqueue) → find_tqueue p q ≡ some tq → KnownTo tq q
unfolding find_tqueue
find_tqueue-Known p q tq e =
    first_of-Known q.idle_tqueues q.active_tqueues (find_player p q.active_tqueues)
      (find_player p q.idle_tqueues) tq (find_player-HasKey p q.active_tqueues tq)
      (find_player-HasKey p q.idle_tqueues tq) e

pub tqueue_at-Known : (a : ℕ) (q : Queues) (tq : Tqueue) → tqueue_at a q ≡ some tq → KnownTo tq q
unfolding tqueue_at
tqueue_at-Known a q tq e =
    first_of-Known q.idle_tqueues q.active_tqueues (at_address a q.active_tqueues)
      (at_address a q.idle_tqueues) tq (at_address-HasKey a q.active_tqueues tq)
      (at_address-HasKey a q.idle_tqueues tq) e

-- Allocation gives an address that no queue has.
abbrev pub FreshAddress : (Queues → ℕ) → Type 0
FreshAddress malloc =
    (q : Queues)
    → FreeKey (malloc q) (keys q.idle_tqueues) × FreeKey (malloc q) (keys q.active_tqueues)

pub find_or_make-Kept :
    (malloc : Queues → ℕ) (flush : Option (List ℕ)) (p : Objid) (q : Queues)
    → FreshAddress malloc
    → PlacedQueues q
    → Kept q ((find_or_make_tqueue malloc flush p q).0) ((find_or_make_tqueue malloc flush p q).1)
unfolding find_or_make_tqueue found_or_new deactivate_tqueue new_tqueue
find_or_make-Kept malloc flush p q fresh ok = go (find_tqueue p q) refl
  where
    made : Tqueue
    made = new_tqueue (malloc q) p flush

    go :
        (m : Option Tqueue)
        → find_tqueue p q ≡ m
        → Kept q ((found_or_new made m q).0) ((found_or_new made m q).1)
    go none e = record {
      placed =
          Placed-deactivate (malloc q) (keys q.idle_tqueues) (keys q.active_tqueues) ok (fresh q).0
            (fresh q).1;
      known = inl (inl refl);
      waiting = refl;
    }
    go (some tq) e = record { placed = ok; known = find_tqueue-Known p q tq e; waiting = refl }

HasKey-insert_key : (k : Key) (ks : List Key) → HasKey k (insert_key k ks)
HasKey-insert_key k [] = inl refl
HasKey-insert_key k (x ∷ xs) = go (leb_ℤ x.usage k.usage) (HasKey-insert_key k xs)
  where
    go :
        (b : Bool)
        → HasKey k (insert_key k xs)
        → HasKey k (if b then x ∷ insert_key k xs else k ∷ x ∷ xs)
    go true sub = inr sub
    go false sub = inl refl

first_usage-used :
    (hs : List Tqueue) → All (λ k. pos 0 ≤ℤ k.usage) (keys hs) → pos 0 ≤ℤ first_usage hs
unfolding first_usage
first_usage-used [] h = omega arith
first_usage-used (x ∷ xs) h = h.0

-- A queue without usage is idle.
Known-idle :
    (k : Key) (idle active : List Key)
    → Placed idle active
    → Known k idle active
    → k.usage ≡ no_usage
    → HasKey k idle
Known-idle k idle active ok (inl i) e = i
Known-idle k idle active ok (inr i) e =
    absurd (negative k.usage (All-HasKey (λ x. pos 0 ≤ℤ x.usage) k active ok.used i) e)
  where
    negative : (u : ℤ) → pos 0 ≤ℤ u → u ≡ no_usage → ⊥
    negative (pos n) h e = cc e
    negative (negsuc n) h e = omega arith

-- `ensure_usage` keeps the queues in order.
pub ensure_usage-Kept :
    (tq : Tqueue) (q : Queues)
    → PlacedQueues q
    → KnownTo tq q
    → Kept q ((ensure_usage tq q).0) ((ensure_usage tq q).1)
unfolding ensure_usage activate_tqueue
ensure_usage-Kept tq q ok i = go (tq.usage ==ℤ no_usage) refl
  where
    u : ℤ
    u = first_usage q.active_tqueues

    woken : Tqueue
    woken = record tq { usage = u }

    q1 : Queues
    q1 = record q {
      idle_tqueues = remove_tqueue tq.address q.idle_tqueues;
      active_tqueues = insert_tqueue woken q.active_tqueues;
    }

    pair : Bool → Tqueue × Queues
    pair b = if b then (woken, q1) else (tq, q)

    go : (b : Bool) → (tq.usage ==ℤ no_usage) ≡ b → Kept q ((pair b).0) ((pair b).1)
    go false e = record { placed = ok; known = i; waiting = refl }
    go true e =
        let idle =
          Known-idle (key tq) (keys q.idle_tqueues) (keys q.active_tqueues) ok i
            ((==ℤ_iff tq.usage no_usage).0 e) in
        record {
          placed =
              subst (λ ks. Placed ks (keys q1.active_tqueues))
                (sym (keys-remove tq.address q.idle_tqueues))
                (subst (λ ks. Placed (remove_key tq.address (keys q.idle_tqueues)) ks)
                  (sym (keys-insert woken q.active_tqueues))
                  (Placed-activate (key tq) u (keys q.idle_tqueues) (keys q.active_tqueues) ok idle
                    (first_usage-used q.active_tqueues ok.used)));
          known = inr (
              subst (HasKey (key woken)) (sym (keys-insert woken q.active_tqueues))
                (HasKey-insert_key (key woken) (keys q.active_tqueues)));
          waiting = refl;
        }

-- A queue of the same place is written back.
pub store-Kept : (tq : Tqueue) (q : Queues) → PlacedQueues q → KnownTo tq q → Kept q tq (store tq q)
unfolding store
store-Kept tq q ok i =
    let s = store-SamePlaces tq q ok i in
    record {
      placed = SamePlaces-Placed q (store tq q) s ok;
      known = SamePlaces-Known q (store tq q) tq s i;
      waiting = refl;
    }

pub wake-Kept :
    (b : Bool) (tq : Tqueue) (q : Queues)
    → PlacedQueues q
    → KnownTo tq q
    → Kept q ((wake b tq (store tq q)).0) ((wake b tq (store tq q)).1)
unfolding wake
wake-Kept false tq q ok i = store-Kept tq q ok i
wake-Kept true tq q ok i =
    let s = store-Kept tq q ok i in
    let w = ensure_usage-Kept tq (store tq q) s.placed s.known in
    record { placed = w.placed; known = w.known; waiting = w.waiting ∙ s.waiting }
