-- ===== src/Db/Links/Frame.antt =====
-- What LL_REMOVE and LL_APPEND leave alone.
use nu_moo.Base.{◌≡◌, ap, ◌∙◌, ◌≢◌, ◌⊎◌, inl, inr, true, false, some, List}
use nu_moo.Db.Object.{Objid, nothing, Object, Objects, write}
use nu_moo.Db.Links.{Links}
use nu_moo.Db.Links.Chain.{has, Chain, field, field-write_ne, field-keeps}

module _ (links : Links) where
  open links use {head, next, set_head, set_next, core}

  -- `h'` differs from `h` at most in the `head` of `whr` and in the `next` of `what` and of the
  -- objects of `xs`.
  pub record Frame (h h' : Objects) (whr what : Objid) (xs : List Objid) : Type 0 where
    pub next_elsewhere :
        (a : Objid) → has a xs ≡ false → a ≢ what → field next h' a ≡ field next h a
    pub head_elsewhere : (a : Objid) → a ≢ whr → field head h' a ≡ field head h a
    pub rest : (a : Objid) → field core h' a ≡ field core h a

  module _ (h : Objects) (whr what : Objid) (xs : List Objid) where
    pub Frame-set_head :
        (v : Objid) (w : Object) → h whr ≡ some w → Frame h (write h whr (set_head v w)) whr what xs
    Frame-set_head v w found = record {
      next_elsewhere = λ a out ne. field-keeps next h whr _ found (links.next-set_head v w) a;
      head_elsewhere = λ a ne. field-write_ne head h whr _ a ne;
      rest = λ a. field-keeps core h whr _ found (links.core-set_head v w) a;
    }

    pub Frame-set_next :
        (q v : Objid) (o : Object)
        → h q ≡ some o
        → (has q xs ≡ true) ⊎ (q ≡ what)
        → Frame h (write h q (set_next v o)) whr what xs
    Frame-set_next q v o found on = record {
      next_elsewhere = λ a out ne. field-write_ne next h q _ a (apart a out ne);
      head_elsewhere = λ a ne. field-keeps head h q _ found (links.head-set_next v o) a;
      rest = λ a. field-keeps core h q _ found (links.core-set_next v o) a;
    }
      where
        apart : (a : Objid) → has a xs ≡ false → a ≢ what → a ≢ q
        apart a out ne e = elim on [
          | inl i ↦ cc (out, i, ap (λ c. has c xs) e)
          | inr t ↦ ne (e ∙ t)
        ]

  pub Frame-trans :
      {h g k : Objects} {whr what : Objid} {xs : List Objid}
      → Frame h g whr what xs
      → Frame g k whr what xs
      → Frame h k whr what xs
  Frame-trans f g = record {
    next_elsewhere = λ a out ne. g.next_elsewhere a out ne ∙ f.next_elsewhere a out ne;
    head_elsewhere = λ a ne. g.head_elsewhere a ne ∙ f.head_elsewhere a ne;
    rest = λ a. g.rest a ∙ f.rest a;
  }

  -- The list of `whr` is `ys`, the `next` of `what` is NOTHING if `what` is its last or on no list,
  -- and all else is as it was.
  pub record Relisted (h h' : Objects) (whr what : Objid) (xs ys : List Objid) : Type 0 where
    pub top : Objid
    pub at_head : field head h' whr ≡ some top
    pub chain : Chain (field next h') top ys
    pub ends : field next h' what ≡ some nothing
    pub others : Frame h h' whr what xs
