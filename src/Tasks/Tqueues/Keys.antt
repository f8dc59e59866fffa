-- ===== src/Tasks/Tqueues/Keys.antt =====
-- Where the queues of server/tasks.c stand: their addresses and usages, in order.
use nu_moo.Base.{
  ℕ, ◌≡◌, refl, sym, ap, ◌∙◌, ◌≢◌, ◌⊎◌, inl, inr, List, [], ◌∷◌, ◌==◌, ==_iff, Bool-cases, All-imp,
  All,
}
use mathlib.Core.Path.{subst}
use nu_moo.Base.Int.{ℤ, pos, ◌≤ℤ◌}
use nu_moo.Tasks.{Tqueue, Queues}
use nu_moo.Tasks.Tqueues.{no_usage, store_in, store}
use nu_moo.Tasks.Tqueues.Order.{AtLeast, SortedUsage}

pub record Key : Type 0 where
  pub address : ℕ
  pub usage : ℤ

abbrev pub key : Tqueue → Key
key tq = record { address = tq.address; usage = tq.usage }

abbrev pub keys : List Tqueue → List Key
keys [] = []
keys (h ∷ hs) = key h ∷ keys hs

abbrev pub FreeKey : ℕ → List Key → Type 0
FreeKey a = All (λ k. a ≢ k.address)

abbrev pub DistinctKeys : List Key → Type 0
DistinctKeys [] = Unit
DistinctKeys (k ∷ ks) = FreeKey k.address ks × DistinctKeys ks

abbrev pub SortedKeys : List Key → Type 0
SortedKeys [] = Unit
SortedKeys (k ∷ ks) = All (λ x. k.usage ≤ℤ x.usage) ks × SortedKeys ks

abbrev pub HasKey : Key → List Key → Type 0
HasKey k [] = ⊥
HasKey k (x ∷ xs) = (x ≡ k) ⊎ HasKey k xs

-- The active queues in the order of their usage, which is not negative; the idle ones without usage;
-- no two queues at one address.
pub record Placed (idle active : List Key) : Type 0 where
  pub sorted : SortedKeys active
  pub used : All (λ k. pos 0 ≤ℤ k.usage) active
  pub unused : All (λ k. k.usage ≡ no_usage) idle
  pub idle_distinct : DistinctKeys idle
  pub active_distinct : DistinctKeys active
  pub apart : All (λ k. FreeKey k.address active) idle

abbrev pub Known : Key → List Key → List Key → Type 0
Known k idle active = HasKey k idle ⊎ HasKey k active

pub All-HasKey : (P : Key → Type 0) (k : Key) (ks : List Key) → All P ks → HasKey k ks → P k
All-HasKey P k [] h i = elim i [ ]
All-HasKey P k (x ∷ xs) h (inl e) = subst P e h.0
All-HasKey P k (x ∷ xs) h (inr i) = All-HasKey P k xs h.1 i

-- The queues at an address have one usage.
abbrev pub Agrees : Key → List Key → Type 0
Agrees k = All (λ x. x.address ≡ k.address → x.usage ≡ k.usage)

FreeKey-Agrees : (k : Key) (ks : List Key) → FreeKey k.address ks → Agrees k ks
FreeKey-Agrees k ks h =
    All-imp (λ x. k.address ≢ x.address) (λ x. x.address ≡ k.address → x.usage ≡ k.usage) ks
      (λ x ne e. absurd (ne (sym e))) h

HasKey-Agrees : (k : Key) (ks : List Key) → DistinctKeys ks → HasKey k ks → Agrees k ks
HasKey-Agrees k [] d i = tt
HasKey-Agrees k (x ∷ xs) d (inl e) =
    (λ f. ap (λ y. y.usage) e, subst (λ y. Agrees y xs) e (FreeKey-Agrees x xs d.0))
HasKey-Agrees k (x ∷ xs) d (inr i) =
    (λ e. absurd (All-HasKey (λ y. x.address ≢ y.address) k xs d.0 i e), HasKey-Agrees k xs d.1 i)

active-Agrees-idle :
    (k : Key) (idle active : List Key)
    → All (λ x. FreeKey x.address active) idle
    → HasKey k active
    → Agrees k idle
active-Agrees-idle k idle active h i =
    All-imp (λ x. FreeKey x.address active) (λ x. x.address ≡ k.address → x.usage ≡ k.usage) idle
      (λ x free e. absurd (All-HasKey (λ y. x.address ≢ y.address) k active free i e)) h

pub Known-Agrees :
    (k : Key) (idle active : List Key)
    → Placed idle active
    → Known k idle active
    → Agrees k idle × Agrees k active
Known-Agrees k idle active ok (inl i) = (
  HasKey-Agrees k idle ok.idle_distinct i,
  FreeKey-Agrees k active (All-HasKey (λ x. FreeKey x.address active) k idle ok.apart i),
)
Known-Agrees k idle active ok (inr i) =
    (active-Agrees-idle k idle active ok.apart i, HasKey-Agrees k active ok.active_distinct i)

-- A queue that is written back stays where it is.
keys-store_in :
    (tq : Tqueue) (hs : List Tqueue) → Agrees (key tq) (keys hs) → keys (store_in tq hs) ≡ keys hs
unfolding store_in
keys-store_in tq [] h = refl
keys-store_in tq (x ∷ xs) h = elim (Bool-cases (x.address == tq.address)) [
  | inl e ↦
      let same_address = (==_iff x.address tq.address).0 e in
      rw e (
        ap (λ a. record { address = a; usage = tq.usage } ∷ keys (store_in tq xs))
          (sym same_address)
        ∙ ap (λ u. record { address = x.address; usage = u } ∷ keys (store_in tq xs))
            (sym (h.0 same_address))
        ∙ ap (λ ks. key x ∷ ks) (keys-store_in tq xs h.1))
  | inr e ↦ rw e (ap (λ ks. key x ∷ ks) (keys-store_in tq xs h.1))
]

-- The places of the queues of a state.
abbrev pub PlacedQueues : Queues → Type 0
PlacedQueues q = Placed (keys q.idle_tqueues) (keys q.active_tqueues)

abbrev pub KnownTo : Tqueue → Queues → Type 0
KnownTo tq q = Known (key tq) (keys q.idle_tqueues) (keys q.active_tqueues)

pub record SamePlaces (q q' : Queues) : Type 0 where
  pub idle : keys q'.idle_tqueues ≡ keys q.idle_tqueues
  pub active : keys q'.active_tqueues ≡ keys q.active_tqueues

pub SamePlaces-Placed : (q q' : Queues) → SamePlaces q q' → PlacedQueues q → PlacedQueues q'
SamePlaces-Placed q q' s ok =
    subst (λ ks. Placed ks (keys q'.active_tqueues)) (sym s.idle)
      (subst (λ ks. Placed (keys q.idle_tqueues) ks) (sym s.active) ok)

pub SamePlaces-Known :
    (q q' : Queues) (tq : Tqueue) → SamePlaces q q' → KnownTo tq q → KnownTo tq q'
SamePlaces-Known q q' tq s i =
    subst (λ ks. Known (key tq) ks (keys q'.active_tqueues)) (sym s.idle)
      (subst (λ ks. Known (key tq) (keys q.idle_tqueues) ks) (sym s.active) i)

pub store-SamePlaces :
    (tq : Tqueue) (q : Queues) → PlacedQueues q → KnownTo tq q → SamePlaces q (store tq q)
unfolding store
store-SamePlaces tq q ok i =
    let agree = Known-Agrees (key tq) (keys q.idle_tqueues) (keys q.active_tqueues) ok i in
    record {
      idle = keys-store_in tq q.idle_tqueues agree.0;
      active = keys-store_in tq q.active_tqueues agree.1;
    }

-- The order of the usages is the order of the active queues.
pub SortedKeys-Usage : (hs : List Tqueue) → SortedKeys (keys hs) → SortedUsage hs
SortedKeys-Usage [] h = tt
SortedKeys-Usage (x ∷ xs) h = (at_least xs h.0, SortedKeys-Usage xs h.1)
  where
    at_least : (ys : List Tqueue) → All (λ k. x.usage ≤ℤ k.usage) (keys ys) → AtLeast x.usage ys
    at_least [] k = tt
    at_least (y ∷ ys) k = (k.0, at_least ys k.1)
