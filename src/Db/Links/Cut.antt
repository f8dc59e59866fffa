-- ===== src/Db/Links/Cut.antt =====
-- The loop of LL_REMOVE: it stops at the object before the one to take off.
use mathlib.Core.Option
use mathlib.Core.Path.{subst}
use nu_moo.Base.{
  ℕ, zero, suc, ◌<◌, ◌≡◌, refl, sym, ap, ◌∙◌, ◌≢◌, inl, inr, true, false, some, List, [], ◌∷◌,
  arith, if◌then◌else◌, Bool-cases, length,
}
use nu_moo.Db.Object.{
  Objid, nothing, same, same_iff, same_refl, same-ne, ne-same, Object, Objects, write,
}
use nu_moo.Db.Links.{Links, remove_loop}
use nu_moo.Db.Links.Chain.{
  has, Distinct, without, Chain, frame, field, field-write, field-some, has_cons, has_tail, has-ne,
  some_eq,
}

module _ (links : Links) where
  open links use {head, next, set_head, set_next}

  module _ (h : Objects) (k : ℕ) (what lid : Objid) {o : Object} where
    remove_hit :
        (x : Object)
        → lid ≢ nothing
        → h lid ≡ some o
        → next o ≡ what
        → h what ≡ some x
        → remove_loop links (suc k) what lid h ≡ some (write h lid (set_next (next x) o))
    unfolding remove_loop
    remove_hit x ne found hit at_what = ground (arith, same-ne lid nothing, same_iff (next o) what)

    remove_miss :
        lid ≢ nothing
        → h lid ≡ some o
        → next o ≢ what
        → remove_loop links (suc k) what lid h ≡ remove_loop links k what (next o) h
    unfolding remove_loop
    remove_miss ne found miss = ground (arith, same-ne lid nothing, same-ne (next o) what)

  -- The loop has written to an object `q` of the list, whose next one was `what`.
  pub record Cut (h : Objects) (k : ℕ) (what p : Objid) (x : Object) (xs : List Objid)
      : Type 0 where
    pub q : Objid
    pub o : Object
    pub run : remove_loop links k what p h ≡ some (write h q (set_next (next x) o))
    pub at_q : h q ≡ some o
    pub on_list : has q xs ≡ true
    pub apart : q ≢ what
    pub chain : Chain (field next (write h q (set_next (next x) o))) p (without what xs)

  field-cut :
      (h : Objects) (q : Objid) (v : Objid) (o : Object) (a : Objid)
      → field next (write h q (set_next v o)) a ≡ (if same a q then some v else field next h a)
  field-cut h q v o a =
      field-write next h q (set_next v o) a
      ∙ ap (λ u. if same a q then some u else field next h a) (links.next-set_next v o)

  pub remove_loop-Cut :
      (h : Objects) (k : ℕ) (what p : Objid) (x : Object) (xs : List Objid)
      → Chain (field next h) p xs
      → Distinct xs
      → has what xs ≡ true
      → p ≢ what
      → h what ≡ some x
      → length xs < k
      → Cut h k what p x xs
  remove_loop-Cut h zero what p x xs c d m ne at_what fuel = absurd (omega arith)
  remove_loop-Cut h (suc k) what p x [] c d m ne at_what fuel = cc m
  remove_loop-Cut h (suc k) what p x (y ∷ []) c d m ne at_what fuel =
      absurd (ne (c.0 ∙ sym ((same_iff what y).0 (ground arith))))
  remove_loop-Cut h (suc k) what p x (y ∷ z ∷ zs) (e, not_nothing, r, fy, c) d m ne at_what fuel =
      let (o, found, leads) = field-some next h y fy in
      let at_p : h p ≡ some o = ap h e ∙ found in
      let p_some : p ≢ nothing = λ t. not_nothing (sym e ∙ t) in
      let keeps : same y what ≡ false = same-ne y what (λ t. ne (e ∙ t)) in
      elim (Bool-cases (same z what)) [
        | inl hit ↦
            let z-what = (same_iff z what).0 hit in
            let after : some c.2 ≡ some (next x) =
              sym c.3 ∙ ap (field next h) z-what ∙ ap (Option.map next) at_what in
            record {
              q = p;
              o = o;
              run = remove_hit h k what p x p_some at_p (leads ∙ c.0 ∙ z-what) at_what;
              at_q = at_p;
              on_list = rw (e, same_refl y) refl;
              apart = ne;
              chain =
                  rw (keeps, hit)
                    (
                      e,
                      not_nothing,
                      next x,
                      field-cut h p (next x) o y ∙ rw ((same_iff y p).1 (sym e)) refl,
                      frame (next x) zs (subst (λ v. Chain (field next h) v zs) (some_eq after) c.4)
                          (λ a i.
                            field-cut h p (next x) o a
                            ∙ rw
                                (same-ne a p
                                  (λ t. has-ne a y (z ∷ zs) (has_cons a z zs i) d.0 (t ∙ e)))
                                refl),
                    );
            }
        | inr miss ↦
            let ne' : next o ≢ what = λ t. ne-same z what miss (sym (leads ∙ c.0) ∙ t) in
            let m' : has what (z ∷ zs) ≡ true = has_tail what y (z ∷ zs) (λ t. ne (e ∙ sym t)) m in
            let sub =
              remove_loop-Cut h k what (next o) x (z ∷ zs) (rw leads c) d.1 m' ne' at_what
                (omega arith) in
            record {
              q = sub.q;
              o = sub.o;
              run = remove_miss h k what p p_some at_p ne' ∙ sub.run;
              at_q = sub.at_q;
              on_list = has_cons sub.q y (z ∷ zs) sub.on_list;
              apart = sub.apart;
              chain = rw keeps (
                e,
                not_nothing,
                next o,
                field-cut h sub.q (next x) sub.o y
                    ∙ rw (same-ne y sub.q (λ t. has-ne sub.q y (z ∷ zs) sub.on_list d.0 (sym t)))
                        (fy ∙ ap some (sym leads)),
                sub.chain,
              );
            }
      ]
