-- ===== src/Tasks/Tqueues/Moves.antt =====
-- Queues of server/tasks.c that are made, woken, put back and freed keep the order of the queues.
use nu_moo.Base.{
  ℕ, ◌≡◌, refl, sym, ap, ◌≢◌, inl, inr, Bool, true, false, List, [], ◌∷◌, ◌==◌, if◌then◌else◌,
  ==_iff, All-imp, All,
}
use mathlib.Core.Path.{subst}
use nu_moo.Base.Int.{ℤ, pos, ◌≤ℤ◌, leb_ℤ}
use nu_moo.Tasks.{Tqueue}
use nu_moo.Tasks.Input.Split.{==-apart}
use nu_moo.Tasks.Tqueues.{no_usage, remove_tqueue, insert_tqueue}
use nu_moo.Tasks.Tqueues.Keys.{
  Key, key, keys, FreeKey, DistinctKeys, SortedKeys, HasKey, Placed, All-HasKey,
}
use nu_moo.Tasks.Tqueues.Order.{≤ℤ-trans, leb_ℤ-true, leb_ℤ-false}

abbrev pub insert_key : Key → List Key → List Key
insert_key k [] = k ∷ []
insert_key k (x ∷ xs) =
    let rest = insert_key k xs in if leb_ℤ x.usage k.usage then x ∷ rest else k ∷ x ∷ xs

abbrev pub remove_key : ℕ → List Key → List Key
remove_key a [] = []
remove_key a (x ∷ xs) = let rest = remove_key a xs in if x.address == a then xs else x ∷ rest

pub keys-insert :
    (tq : Tqueue) (hs : List Tqueue) → keys (insert_tqueue tq hs) ≡ insert_key (key tq) (keys hs)
unfolding insert_tqueue
keys-insert tq [] = refl
keys-insert tq (x ∷ xs) = go (leb_ℤ x.usage tq.usage) (keys-insert tq xs)
  where
    go :
        (b : Bool)
        → keys (insert_tqueue tq xs) ≡ insert_key (key tq) (keys xs)
        → keys (if b then x ∷ insert_tqueue tq xs else tq ∷ x ∷ xs)
          ≡ (if b then key x ∷ insert_key (key tq) (keys xs) else key tq ∷ key x ∷ keys xs)
    go true e = ap (λ ks. key x ∷ ks) e
    go false e = refl

pub keys-remove : (a : ℕ) (hs : List Tqueue) → keys (remove_tqueue a hs) ≡ remove_key a (keys hs)
unfolding remove_tqueue
keys-remove a [] = refl
keys-remove a (x ∷ xs) = go (x.address == a) (keys-remove a xs)
  where
    go :
        (b : Bool)
        → keys (remove_tqueue a xs) ≡ remove_key a (keys xs)
        → keys (if b then xs else x ∷ remove_tqueue a xs)
          ≡ (if b then keys xs else key x ∷ remove_key a (keys xs))
    go true e = refl
    go false e = ap (λ ks. key x ∷ ks) e

pub All-insert_key :
    (P : Key → Type 0) (k : Key) (ks : List Key) → P k → All P ks → All P (insert_key k ks)
All-insert_key P k [] p h = (p, tt)
All-insert_key P k (x ∷ xs) p h = go (leb_ℤ x.usage k.usage) (All-insert_key P k xs p h.1)
  where
    go :
        (b : Bool) → All P (insert_key k xs) → All P (if b then x ∷ insert_key k xs else k ∷ x ∷ xs)
    go true rest = (h.0, rest)
    go false rest = (p, h)

pub All-remove_key : (P : Key → Type 0) (a : ℕ) (ks : List Key) → All P ks → All P (remove_key a ks)
All-remove_key P a [] h = tt
All-remove_key P a (x ∷ xs) h = go (x.address == a) (All-remove_key P a xs h.1)
  where
    go : (b : Bool) → All P (remove_key a xs) → All P (if b then xs else x ∷ remove_key a xs)
    go true rest = h.1
    go false rest = (h.0, rest)

pub Distinct-insert_key :
    (k : Key) (ks : List Key)
    → FreeKey k.address ks
    → DistinctKeys ks
    → DistinctKeys (insert_key k ks)
Distinct-insert_key k [] f d = (tt, tt)
Distinct-insert_key k (x ∷ xs) f d = go (leb_ℤ x.usage k.usage) (Distinct-insert_key k xs f.1 d.1)
  where
    go :
        (b : Bool)
        → DistinctKeys (insert_key k xs)
        → DistinctKeys (if b then x ∷ insert_key k xs else k ∷ x ∷ xs)
    go true rest = (All-insert_key (λ y. x.address ≢ y.address) k xs (λ e. f.0 (sym e)) d.0, rest)
    go false rest = (f, d)

pub Distinct-remove_key : (a : ℕ) (ks : List Key) → DistinctKeys ks → DistinctKeys (remove_key a ks)
Distinct-remove_key a [] d = tt
Distinct-remove_key a (x ∷ xs) d = go (x.address == a) (Distinct-remove_key a xs d.1)
  where
    go :
        (b : Bool)
        → DistinctKeys (remove_key a xs)
        → DistinctKeys (if b then xs else x ∷ remove_key a xs)
    go true rest = d.1
    go false rest = (All-remove_key (λ y. x.address ≢ y.address) a xs d.0, rest)

pub Sorted-insert_key : (k : Key) (ks : List Key) → SortedKeys ks → SortedKeys (insert_key k ks)
Sorted-insert_key k [] h = (tt, tt)
Sorted-insert_key k (x ∷ xs) h = go (leb_ℤ x.usage k.usage) refl (Sorted-insert_key k xs h.1)
  where
    go :
        (b : Bool)
        → leb_ℤ x.usage k.usage ≡ b
        → SortedKeys (insert_key k xs)
        → SortedKeys (if b then x ∷ insert_key k xs else k ∷ x ∷ xs)
    go true e rest =
        (All-insert_key (λ y. x.usage ≤ℤ y.usage) k xs (leb_ℤ-true x.usage k.usage e) h.0, rest)
    go false e rest =
        let below = (leb_ℤ-false x.usage k.usage e).0 in
        (
          (
            below,
            All-imp (λ y. x.usage ≤ℤ y.usage) (λ y. k.usage ≤ℤ y.usage) xs
                (λ y f. ≤ℤ-trans k.usage x.usage y.usage below f) h.0,
          ),
          h,
        )

-- A key that is taken out is not there any more.
Free-remove_key :
    (k : Key) (ks : List Key)
    → DistinctKeys ks
    → HasKey k ks
    → FreeKey k.address (remove_key k.address ks)
Free-remove_key k [] d i = tt
Free-remove_key k (x ∷ xs) d (inl e) =
    rw ((==_iff x.address k.address).1 (ap (λ y. y.address) e))
      (subst (λ a. FreeKey a xs) (ap (λ y. y.address) e) d.0)
Free-remove_key k (x ∷ xs) d (inr i) =
    let ne = All-HasKey (λ y. x.address ≢ y.address) k xs d.0 i in
    rw (==-apart x.address k.address ne) (λ e. ne (sym e), Free-remove_key k xs d.1 i)

-- A queue that is made and put with the idle ones.
pub Placed-deactivate :
    (a : ℕ) (idle active : List Key)
    → Placed idle active
    → FreeKey a idle
    → FreeKey a active
    → Placed (record { address = a; usage = no_usage } ∷ idle) active
Placed-deactivate a idle active ok f g = record {
  sorted = ok.sorted;
  used = ok.used;
  unused = (refl, ok.unused);
  idle_distinct = (f, ok.idle_distinct);
  active_distinct = ok.active_distinct;
  apart = (g, ok.apart);
}

-- An idle queue that is put with the active ones.
pub Placed-activate :
    (k : Key) (u : ℤ) (idle active : List Key)
    → Placed idle active
    → HasKey k idle
    → pos 0 ≤ℤ u
    → Placed
        (remove_key k.address idle)
        (insert_key (record { address = k.address; usage = u }) active)
Placed-activate k u idle active ok i h =
    let new : Key = record { address = k.address; usage = u } in
    let free = All-HasKey (λ x. FreeKey x.address active) k idle ok.apart i in
    record {
      sorted = Sorted-insert_key new active ok.sorted;
      used = All-insert_key (λ x. pos 0 ≤ℤ x.usage) new active h ok.used;
      unused = All-remove_key (λ x. x.usage ≡ no_usage) k.address idle ok.unused;
      idle_distinct = Distinct-remove_key k.address idle ok.idle_distinct;
      active_distinct = Distinct-insert_key new active free ok.active_distinct;
      apart =
          both (remove_key k.address idle)
            (All-remove_key (λ x. FreeKey x.address active) k.address idle ok.apart)
            (Free-remove_key k idle ok.idle_distinct i);
    }
  where
    both :
        (ks : List Key)
        → All (λ x. FreeKey x.address active) ks
        → FreeKey k.address ks
        → All
            (λ x. FreeKey x.address (insert_key (record { address = k.address; usage = u }) active))
            ks
    both [] f g = tt
    both (x ∷ xs) f g = (
      All-insert_key (λ y. x.address ≢ y.address) (record { address = k.address; usage = u }) active
          (λ e. g.0 (sym e)) f.0,
      both xs f.1 g.1,
    )
