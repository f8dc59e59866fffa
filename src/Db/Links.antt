-- ===== src/Db/Links.antt =====
-- The macros LL_REMOVE and LL_APPEND of server/db_objects.c, for any pair of a `listname` and a
-- `nextname` field. `up` is the field that names the object on whose list an object stands.
pub mod Chain
pub mod Frame
pub mod Cut
pub mod Remove
pub mod Append
pub mod Lists
pub mod Detach
pub mod Attach
pub mod Sets
use nu_moo.Base.{
  ◌>>=◌, ℕ, zero, suc, ◌-◌, ◌≡◌, refl, true, false, Option, none, some, if◌then◌else◌,
}
use nu_moo.Db.Object.{Objid, nothing, same, Object, Objects, write}

pub record Links : Type 0 where
  pub head : Object → Objid
  pub next : Object → Objid
  pub up : Object → Objid
  pub set_head : Objid → Object → Object
  pub set_next : Objid → Object → Object
  pub set_up : Objid → Object → Object
  -- the object with the fields `head` and `next` blotted out
  pub core : Object → Object
  pub head-set_head : (v : Objid) (o : Object) → head (set_head v o) ≡ v
  pub head-set_next : (v : Objid) (o : Object) → head (set_next v o) ≡ head o
  pub head-set_up : (v : Objid) (o : Object) → head (set_up v o) ≡ head o
  pub next-set_head : (v : Objid) (o : Object) → next (set_head v o) ≡ next o
  pub next-set_next : (v : Objid) (o : Object) → next (set_next v o) ≡ v
  pub next-set_up : (v : Objid) (o : Object) → next (set_up v o) ≡ next o
  pub up-set_head : (v : Objid) (o : Object) → up (set_head v o) ≡ up o
  pub up-set_next : (v : Objid) (o : Object) → up (set_next v o) ≡ up o
  pub up-set_up : (v : Objid) (o : Object) → up (set_up v o) ≡ v
  pub core-set_head : (v : Objid) (o : Object) → core (set_head v o) ≡ core o
  pub core-set_next : (v : Objid) (o : Object) → core (set_next v o) ≡ core o
  pub up-core : (o : Object) → up (core o) ≡ up o

-- The lists of children and of contents.
abbrev pub children : Links
children = record {
  head = λ o. o.child;
  next = λ o. o.sibling;
  up = λ o. o.parent;
  set_head = λ v o. record o { child = v };
  set_next = λ v o. record o { sibling = v };
  set_up = λ v o. record o { parent = v };
  core = λ o. record o { child = nothing; sibling = nothing };
  head-set_head = λ v o. refl;
  head-set_next = λ v o. refl;
  head-set_up = λ v o. refl;
  next-set_head = λ v o. refl;
  next-set_next = λ v o. refl;
  next-set_up = λ v o. refl;
  up-set_head = λ v o. refl;
  up-set_next = λ v o. refl;
  up-set_up = λ v o. refl;
  core-set_head = λ v o. refl;
  core-set_next = λ v o. refl;
  up-core = λ o. refl;
}

abbrev pub contents : Links
contents = record {
  head = λ o. o.contents;
  next = λ o. o.next;
  up = λ o. o.location;
  set_head = λ v o. record o { contents = v };
  set_next = λ v o. record o { next = v };
  set_up = λ v o. record o { location = v };
  core = λ o. record o { contents = nothing; next = nothing };
  head-set_head = λ v o. refl;
  head-set_next = λ v o. refl;
  head-set_up = λ v o. refl;
  next-set_head = λ v o. refl;
  next-set_next = λ v o. refl;
  next-set_up = λ v o. refl;
  up-set_head = λ v o. refl;
  up-set_next = λ v o. refl;
  up-set_up = λ v o. refl;
  core-set_head = λ v o. refl;
  core-set_next = λ v o. refl;
  up-core = λ o. refl;
}

module _ (links : Links) where
  open links use {head, next, set_head, set_next}

  -- The loop of LL_REMOVE, on fuel.
  unfoldable pub remove_loop : ℕ → (what lid : Objid) → Objects → Option Objects
  remove_loop zero what lid h = none
  remove_loop (suc k) what lid h = elim (same lid nothing) [
    | true ↦ some h
    | false ↦ elim (h lid) [
      | none ↦ none
      | some o ↦ elim (same (next o) what) [
        | true ↦ do x ← h what; some (write h lid (set_next (next x) o))
        | false ↦ remove_loop k what (next o) h
      ]
    ]
  ]

  unfoldable pub ll_remove : ℕ → (whr what : Objid) → Objects → Option Objects
  ll_remove fuel whr what h = do
    w ← h whr
    h' ←
        (if same (head w) what
          then (do x ← h what; some (write h whr (set_head (next x) w)))
          else remove_loop fuel what (head w) h)
    x ← h' what
    some (write h' what (set_next nothing x))

  -- The loop of LL_APPEND, on fuel: the last object of the list.
  unfoldable pub last_loop : ℕ → (lid : Objid) → Objects → Option Objid
  last_loop zero lid h = none
  last_loop (suc k) lid h = elim (h lid) [
    | none ↦ none
    | some o ↦ elim (same (next o) nothing) [ true ↦ some lid | false ↦ last_loop k (next o) h ]
  ]

  unfoldable pub ll_append : ℕ → (whr what : Objid) → Objects → Option Objects
  ll_append fuel whr what h = do
    w ← h whr
    h' ←
        (if same (head w) nothing then some (write h whr (set_head what w)) else (do
          lid ← last_loop fuel (head w) h
          o ← h lid
          some (write h lid (set_next what o))))
    x ← h' what
    some (write h' what (set_next nothing x))
