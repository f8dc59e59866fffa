-- ===== src/Db/Links/Append.antt =====
-- LL_APPEND puts an object at the end of a list, and changes nothing else.

use nu_moo.Base.{
  ℕ, zero, suc, ◌<◌, ◌≡◌, refl, sym, ap, ◌∙◌, ◌≢◌, inl, inr, true, false, Option, some, List, [],
  ◌∷◌, ◌++◌, arith, length,
}
use nu_moo.Db.Object.{Objid, nothing, same, same_iff, same_refl, same-ne, Object, Objects, write}
use nu_moo.Db.Links.{Links, last_loop, ll_append}
use nu_moo.Db.Links.Frame.{Frame-set_head, Frame-set_next, Frame-trans, Relisted}
use nu_moo.Db.Links.Chain.{
  has, Distinct, Chain, field, field-write_self, field-write_ne, field-keeps, field-some,
  field-there, has_cons, has-ne,
}

module _ (links : Links) where
  open links use {head, next, set_head, set_next}

  module _ (h : Objects) (k : ℕ) (lid : Objid) {o : Object} where
    last_here : h lid ≡ some o → next o ≡ nothing → last_loop links (suc k) lid h ≡ some lid
    unfolding last_loop
    last_here found ends = ground (arith, same_iff (next o) nothing)

    last_on :
        h lid ≡ some o
        → next o ≢ nothing
        → last_loop links (suc k) lid h ≡ last_loop links k (next o) h
    unfolding last_loop
    last_on found more = ground (arith, same-ne (next o) nothing)

  -- The last object of the list, and what the list is when `what` comes behind it.
  record Ending (h : Objects) (k : ℕ) (p : Objid) (xs : List Objid) : Type 0 where
    q : Objid
    o : Object
    run : last_loop links k p h ≡ some q
    at_q : h q ≡ some o
    on_list : has q xs ≡ true
    extend :
        (g : Objid → Option Objid) (what : Objid)
        → what ≢ nothing
        → g q ≡ some what
        → g what ≡ some nothing
        → ((a : Objid) → has a xs ≡ true → a ≢ q → g a ≡ field next h a)
        → Chain g p (xs ++ what ∷ [])

  last_loop-Ending :
      (h : Objects) (k : ℕ) (p y : Objid) (ys : List Objid)
      → Chain (field next h) p (y ∷ ys)
      → Distinct (y ∷ ys)
      → length (y ∷ ys) < k
      → Ending h k p (y ∷ ys)
  last_loop-Ending h zero p y ys c d fuel = absurd (omega arith)
  last_loop-Ending h (suc k) p y [] (e, ne, r, fy, ends) d fuel =
      let (o, found, leads) = field-some next h y fy in
      record {
        q = p;
        o = o;
        run = last_here h k p (ap h e ∙ found) (leads ∙ ends);
        at_q = ap h e ∙ found;
        on_list = rw (e, same_refl y) refl;
        extend = λ g what some_what gq gw others.
            (e, ne, what, sym (ap g e) ∙ gq, (refl, some_what, nothing, gw, refl));
      }
  last_loop-Ending h (suc k) p y (z ∷ zs) (e, ne, r, fy, c) d fuel =
      let (o, found, leads) = field-some next h y fy in
      let more : next o ≢ nothing = λ t. c.1 (sym (leads ∙ c.0) ∙ t) in
      let sub = last_loop-Ending h k (next o) z zs (rw leads c) d.1 (omega arith) in
      record {
        q = sub.q;
        o = sub.o;
        run = last_on h k p (ap h e ∙ found) more ∙ sub.run;
        at_q = sub.at_q;
        on_list = has_cons sub.q y (z ∷ zs) sub.on_list;
        extend = λ g what some_what gq gw others. (
          e,
          ne,
          next o,
          others y (rw (same_refl y) refl) (λ t. has-ne sub.q y (z ∷ zs) sub.on_list d.0 (sym t))
              ∙ fy
              ∙ ap some (sym leads),
          sub.extend g what some_what gq gw (λ a i apart. others a (has_cons a y (z ∷ zs) i) apart),
        );
      }

  module _ (h : Objects) (fuel : ℕ) (whr what : Objid) {w x' : Object} where
    run_empty :
        h whr ≡ some w
        → same (head w) nothing ≡ true
        → write h whr (set_head what w) what ≡ some x'
        → ll_append links fuel whr what h
          ≡ some (write (write h whr (set_head what w)) what (set_next nothing x'))
    unfolding ll_append
    run_empty at_w empty found' = rw (at_w, empty, found') refl

    run_behind :
        (q : Objid) (o : Object)
        → h whr ≡ some w
        → same (head w) nothing ≡ false
        → last_loop links fuel (head w) h ≡ some q
        → h q ≡ some o
        → write h q (set_next what o) what ≡ some x'
        → ll_append links fuel whr what h
          ≡ some (write (write h q (set_next what o)) what (set_next nothing x'))
    unfolding ll_append
    run_behind q o at_w full run at_q found' = rw (at_w, full, run, at_q, found') refl

  module _ (h : Objects) (fuel : ℕ) (whr what top : Objid) (x : Object) where
    -- LL_APPEND, where the list of `whr` runs through `xs` and `what` is not on it: it succeeds,
    -- the list then runs through `xs` and `what`, and all else is as it was.
    pub ll_append-Relisted :
        (xs : List Objid)
        → field head h whr ≡ some top
        → Chain (field next h) top xs
        → Distinct xs
        → has what xs ≡ false
        → what ≢ nothing
        → h what ≡ some x
        → length xs < fuel
        → (h' : Objects) × (ll_append links fuel whr what h ≡ some h')
          × Relisted links h h' whr what xs (xs ++ what ∷ [])
    ll_append-Relisted [] e c d out some_what found enough =
        let (w, at_w, top_w) = field-some head h whr e in
        let h1 = write h whr (set_head what w) in
        let f = Frame-set_head links h whr what [] what w at_w in
        let (x', found', same_core) = field-there links.core h h1 what (f.rest what) found in
        (
          write h1 what (set_next nothing x'),
          run_empty h fuel whr what at_w ((same_iff (head w) nothing).1 (top_w ∙ c)) found',
          record {
            top = what;
            at_head =
                field-keeps head h1 what (set_next nothing x') found'
                  (links.head-set_next nothing x') whr
                ∙ field-write_self head h whr (set_head what w)
                ∙ ap some (links.head-set_head what w);
            chain = (
              refl,
              some_what,
              nothing,
              field-write_self next h1 what (set_next nothing x')
                  ∙ ap some (links.next-set_next nothing x'),
              refl,
            );
            ends =
                field-write_self next h1 what (set_next nothing x')
                ∙ ap some (links.next-set_next nothing x');
            others =
                Frame-trans links f
                  (Frame-set_next links h1 whr what [] what nothing x' found' (inr refl));
          },
        )
    ll_append-Relisted (y ∷ ys) e c d out some_what found enough =
        let (w, at_w, top_w) = field-some head h whr e in
        let l = last_loop-Ending h fuel top y ys c d enough in
        let h1 = write h l.q (set_next what l.o) in
        let f = Frame-set_next links h whr what (y ∷ ys) l.q what l.o l.at_q (inl l.on_list) in
        let (x', found', same_core) = field-there links.core h h1 what (f.rest what) found in
        let h2 = write h1 what (set_next nothing x') in
        let ends : field next h2 what ≡ some nothing =
          field-write_self next h1 what (set_next nothing x')
          ∙ ap some (links.next-set_next nothing x') in
        (
          h2,
          run_behind h fuel whr what l.q l.o at_w
              (same-ne (head w) nothing (λ t. c.1 (sym c.0 ∙ sym top_w ∙ t)))
              (ap (λ v. last_loop links fuel v h) top_w ∙ l.run) l.at_q found',
          record {
            top = top;
            at_head =
                field-keeps head h1 what (set_next nothing x') found'
                  (links.head-set_next nothing x') whr
                ∙ field-keeps head h l.q (set_next what l.o) l.at_q (links.head-set_next what l.o)
                    whr
                ∙ e;
            chain =
                l.extend (field next h2) what some_what
                  (field-write_ne next h1 what (set_next nothing x') l.q
                      (has-ne l.q what (y ∷ ys) l.on_list out)
                    ∙ field-write_self next h l.q (set_next what l.o)
                    ∙ ap some (links.next-set_next what l.o))
                  ends
                  (λ a i apart.
                    field-write_ne next h1 what (set_next nothing x') a
                      (has-ne a what (y ∷ ys) i out)
                    ∙ field-write_ne next h l.q (set_next what l.o) a apart);
            ends = ends;
            others =
                Frame-trans links f
                  (Frame-set_next links h1 whr what (y ∷ ys) what nothing x' found' (inr refl));
          },
        )
