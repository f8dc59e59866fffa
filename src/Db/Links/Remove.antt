-- ===== src/Db/Links/Remove.antt =====
-- LL_REMOVE takes an object out of a list, and changes nothing else.
use mathlib.Core.Option
use mathlib.Core.Path.{subst}
use nu_moo.Base.{
  ℕ, ◌<◌, ◌≡◌, refl, sym, ap, ◌∙◌, ◌≢◌, inl, inr, true, false, ◌||◌, some, List, [], ◌∷◌,
  Bool-cases, length,
}
use nu_moo.Db.Object.{Objid, nothing, same, same_iff, same-ne, ne-same, Object, Objects, write}
use nu_moo.Db.Links.{Links, remove_loop, ll_remove}
use nu_moo.Db.Links.Frame.{Frame, Frame-set_head, Frame-set_next, Frame-trans, Relisted}
use nu_moo.Db.Links.Chain.{
  has, Distinct, without, Chain, frame, field, field-some, has-ne, some_eq, field-keeps,
  field-write_ne, field-write_self, field-there,
}
use nu_moo.Db.Links.Cut.{remove_loop-Cut}

pub not-has-without : (w : Objid) (xs : List Objid) → Distinct xs → has w (without w xs) ≡ false
not-has-without w [] d = refl
not-has-without w (x ∷ xs) d = elim (Bool-cases (same x w)) [
  | inl hit ↦ rw hit (subst (λ v. has v xs ≡ false) ((same_iff x w).0 hit) d.0)
  | inr miss ↦ rw (miss, same-ne w x (λ e. ne-same x w miss (sym e))) (not-has-without w xs d.1)
]

pub has-without : (a w : Objid) (xs : List Objid) → a ≢ w → has a (without w xs) ≡ has a xs
has-without a w [] ne = refl
has-without a w (x ∷ xs) ne = elim (Bool-cases (same x w)) [
  | inl hit ↦ rw (hit, same-ne a x (λ e. ne (e ∙ (same_iff x w).0 hit))) refl
  | inr miss ↦ rw miss (ap (λ b. same a x || b) (has-without a w xs ne))
]

module _ (links : Links) where
  open links use {head, next, set_head, set_next}

  -- The write behind both branches of LL_REMOVE: the `next` of the object that was taken out.
  finish :
      (h h' : Objects) (whr what top : Objid) (x' : Object) (xs ys : List Objid)
      → Frame links h h' whr what xs
      → field head h' whr ≡ some top
      → Chain (field next h') top ys
      → has what ys ≡ false
      → h' what ≡ some x'
      → Relisted links h (write h' what (set_next nothing x')) whr what xs ys
  finish h h' whr what top x' xs ys f e c out found = record {
    top = top;
    at_head = field-keeps head h' what _ found (links.head-set_next nothing x') whr ∙ e;
    chain = frame top ys c (λ a i. field-write_ne next h' what _ a (has-ne a what ys i out));
    ends = field-write_self next h' what _ ∙ ap some (links.next-set_next nothing x');
    others =
        Frame-trans links f (Frame-set_next links h' whr what xs what nothing x' found (inr refl));
  }

  module _ (h : Objects) (fuel : ℕ) (whr what : Objid) {w x' : Object} where
    run_first :
        (x : Object)
        → h whr ≡ some w
        → same (head w) what ≡ true
        → h what ≡ some x
        → write h whr (set_head (next x) w) what ≡ some x'
        → ll_remove links fuel whr what h
          ≡ some (write (write h whr (set_head (next x) w)) what (set_next nothing x'))
    unfolding ll_remove
    run_first x at_w first found found' = rw (at_w, first, found, found') refl

    run_later :
        (h' : Objects)
        → h whr ≡ some w
        → same (head w) what ≡ false
        → remove_loop links fuel what (head w) h ≡ some h'
        → h' what ≡ some x'
        → ll_remove links fuel whr what h ≡ some (write h' what (set_next nothing x'))
    unfolding ll_remove
    run_later h' at_w later run found' = rw (at_w, later, run, found') refl

  -- `xs` is the list of `whr`, with `what` on it.
  module _ (h : Objects) (fuel : ℕ) (whr what top : Objid) (x : Object) where
    remove_first :
        (xs : List Objid) (w : Object)
        → Chain (field next h) top xs
        → Distinct xs
        → has what xs ≡ true
        → h what ≡ some x
        → h whr ≡ some w
        → head w ≡ top
        → top ≡ what
        → (h' : Objects) × (ll_remove links fuel whr what h ≡ some h')
          × Relisted links h h' whr what xs (without what xs)
    remove_first [] w c d m found at_w top_w e = cc m
    remove_first (y ∷ ys) w c d m found at_w top_w e =
        let h1 = write h whr (set_head (next x) w) in
        let f = Frame-set_head links h whr what (y ∷ ys) (next x) w at_w in
        let (x', found', same_core) = field-there links.core h h1 what (f.rest what) found in
        let y-what : y ≡ what = sym c.0 ∙ e in
        let leads : some c.2 ≡ some (next x) =
          sym c.3 ∙ ap (field next h) y-what ∙ ap (Option.map next) found in
        let keeps =
          field-keeps next h whr (set_head (next x) w) at_w (links.next-set_head (next x) w) in
        (
          write h1 what (set_next nothing x'),
          run_first h fuel whr what x at_w ((same_iff (head w) what).1 (top_w ∙ e)) found found',
          rw ((same_iff y what).1 y-what) (
              finish h h1 whr what (next x) x' (y ∷ ys) ys f
                (field-write_self head h whr (set_head (next x) w)
                  ∙ ap some (links.head-set_head (next x) w))
                (frame (next x) ys (subst (λ v. Chain (field next h) v ys) (some_eq leads) c.4)
                  (λ a i. keeps a))
                (subst (λ v. has v ys ≡ false) y-what d.0) found'),
        )

    remove_later :
        (xs : List Objid) (w : Object)
        → Chain (field next h) top xs
        → Distinct xs
        → has what xs ≡ true
        → h what ≡ some x
        → h whr ≡ some w
        → head w ≡ top
        → top ≢ what
        → length xs < fuel
        → (h' : Objects) × (ll_remove links fuel whr what h ≡ some h')
          × Relisted links h h' whr what xs (without what xs)
    remove_later xs w c d m found at_w top_w ne enough =
        let cut = remove_loop-Cut links h fuel what top x xs c d m ne found enough in
        let h1 = write h cut.q (set_next (next x) cut.o) in
        let f =
          Frame-set_next links h whr what xs cut.q (next x) cut.o cut.at_q (inl cut.on_list) in
        let (x', found', same_core) = field-there links.core h h1 what (f.rest what) found in
        (
          write h1 what (set_next nothing x'),
          run_later h fuel whr what h1 at_w (same-ne (head w) what (λ t. ne (sym top_w ∙ t)))
              (ap (λ v. remove_loop links fuel what v h) top_w ∙ cut.run) found',
          finish h h1 whr what top x' xs (without what xs) f
              (field-keeps head h cut.q (set_next (next x) cut.o) cut.at_q
                  (links.head-set_next (next x) cut.o) whr
                ∙ ap (Option.map head) at_w
                ∙ ap some top_w)
              cut.chain (not-has-without what xs d) found',
        )

    -- LL_REMOVE, where the list of `whr` runs through `xs` and `what` is on it: it succeeds, the
    -- list then runs through the others in their order, and all else is as it was.
    pub ll_remove-Relisted :
        (xs : List Objid)
        → field head h whr ≡ some top
        → Chain (field next h) top xs
        → Distinct xs
        → has what xs ≡ true
        → h what ≡ some x
        → length xs < fuel
        → (h' : Objects) × (ll_remove links fuel whr what h ≡ some h')
          × Relisted links h h' whr what xs (without what xs)
    ll_remove-Relisted xs e c d m found enough =
        let (w, at_w, top_w) = field-some head h whr e in
        elim (Bool-cases (same top what)) [
          | inl first ↦ remove_first xs w c d m found at_w top_w ((same_iff top what).0 first)
          | inr later ↦ remove_later xs w c d m found at_w top_w (ne-same top what later) enough
        ]
