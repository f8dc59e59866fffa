-- ===== src/Db/Links/Attach.antt =====
-- Putting an object on a list.
use mathlib.Core.Option
use mathlib.Core.Path.{subst}
use nu_moo.Base.{
  ℕ, ◌+◌, ◌≡◌, refl, sym, ap, ◌∙◌, ◌≢◌, inl, inr, Bool, true, false, ◌||◌, Option, none, some, List,
  [], ◌∷◌, ◌++◌, arith, if◌then◌else◌, Bool-cases,
}
use nu_moo.Db.Object.{Objid, same, same_iff, same_refl, ne-same, Object, Objects, write}
use nu_moo.Db.Links.{Links, ll_append}
use nu_moo.Db.Links.Chain.{
  has, Distinct, Chain, frame, field, some_eq, field-write_self, field-write_ne, field-keeps,
  field-there,
}
use nu_moo.Db.Links.Frame.{Relisted}
use nu_moo.Db.Links.Append.{ll_append-Relisted}
use nu_moo.Db.Links.Detach.{nobody}
use nu_moo.Db.Links.Lists.{
  Lists, length-Lists, not-nothing, relist, up_kept, was_there, none_kept, bounded_kept,
  chains_kept,
}

pub has-snoc : (a w : Objid) (xs : List Objid) → has a (xs ++ w ∷ []) ≡ (has a xs || same a w)
has-snoc a w [] = ground arith
has-snoc a w (x ∷ xs) = ground (arith, has-snoc a w xs)

pub Distinct-snoc :
    (w : Objid) (xs : List Objid) → Distinct xs → has w xs ≡ false → Distinct (xs ++ w ∷ [])
Distinct-snoc w [] d out = (refl, tt)
Distinct-snoc w (x ∷ xs) d out = (
  has-snoc x w xs ∙ ground (arith, same_iff x w, same_iff w x),
  Distinct-snoc w xs d.1 (ground arith),
)

-- `what` is on no list; it is put on that of `whr`, and then named as standing there.
module _ (links : Links) {h : Objects} {n : ℕ} {cs : Objid → List Objid} (whr what : Objid)
    (ok : Lists links h n cs (λ a. same a what)) where
  open links use {head, next, up, core, set_up}

  out_of : (l : Objid) → has what (cs l) ≡ false
  out_of l = elim (Bool-cases (has what (cs l))) [
    | inl i ↦ cc (ok.not_off l what i, same_refl what)
    | inr out ↦ out
  ]

  abbrev cs' : Objid → List Objid
  cs' = relist cs whr (cs whr ++ what ∷ [])

  -- From the state behind LL_APPEND to the one behind the assignment of `up`.
  module _ {h' : Objects} (x w : Object) (found : h' what ≡ some x) (there : h whr ≡ some w)
      (r : Relisted links h h' whr what (cs whr) (cs whr ++ what ∷ [])) where
    abbrev h2 : Objects
    h2 = write h' what (set_up whr x)

    next2 : (a : Objid) → field next h2 a ≡ field next h' a
    next2 a = field-keeps next h' what (set_up whr x) found (links.next-set_up whr x) a

    head2 : (a : Objid) → field head h2 a ≡ field head h' a
    head2 a = field-keeps head h' what (set_up whr x) found (links.head-set_up whr x) a

    back :
        (l : Objid) (o : Object)
        → h2 l ≡ some o
        → (o1 : Object) × (h' l ≡ some o1) × (head o1 ≡ head o)
    back l o e = field-there head h2 h' l (sym (head2 l)) e

    none_back : (l : Objid) → h2 l ≡ none → h l ≡ none
    none_back l missing = none_kept links ok r l (go (h' l) refl)
      where
        go : (m : Option Object) → h' l ≡ m → m ≡ none
        go none e = refl
        go (some o1) e = let (o, f, g) = field-there head h' h2 l (head2 l) e in cc (f, missing)

    up_self : field up h2 what ≡ some whr
    up_self = field-write_self up h' what (set_up whr x) ∙ ap some (links.up-set_up whr x)

    up_other : (a : Objid) → a ≢ what → field up h2 a ≡ field up h a
    up_other a ne = field-write_ne up h' what (set_up whr x) a ne ∙ up_kept links ok r a

    on_new :
        (l a : Objid) (b : Bool)
        → same l whr ≡ b
        → has a (if b then cs whr ++ what ∷ [] else cs l) ≡ true
        → field up h2 a ≡ some l
    on_new l a false e i = up_other a (ne-same a what (ok.not_off l a i)) ∙ ok.on_list l a i
    on_new l a true e i = elim (Bool-cases (same a what)) [
      | inl at ↦
          ap (field up h2) ((same_iff a what).0 at) ∙ up_self ∙ ap some (sym ((same_iff l whr).0 e))
      | inr ne ↦
          let j : has a (cs whr) ≡ true = ground (arith, has-snoc a what (cs whr)) in
          up_other a (ne-same a what ne) ∙ ok.on_list whr a j ∙ ap some (sym ((same_iff l whr).0 e))
    ]

    listed_new :
        (l a : Objid) (o : Object) → h2 l ≡ some o → field up h2 a ≡ some l → has a (cs' l) ≡ true
    listed_new l a o e g = elim (Bool-cases (same a what)) [
      | inl at ↦
          let l-whr : l ≡ whr =
            some_eq (sym g ∙ ap (field up h2) ((same_iff a what).0 at) ∙ up_self) in
          rw ((same_iff l whr).1 l-whr) (ground (arith, has-snoc a what (cs whr)))
      | inr ne ↦
          let (o1, e1, f1) = back l o e in
          let (o0, e0, f0) = was_there links ok r l o1 e1 in
          let i : has a (cs l) ≡ true =
            ok.listed l a o0 e0 ne (sym (up_other a (ne-same a what ne)) ∙ g) in
          elim (Bool-cases (same l whr)) [
            | inl hit ↦
                let j : has a (cs whr) ≡ true =
                  subst (λ m. has a (cs m) ≡ true) ((same_iff l whr).0 hit) i in
                rw hit (ground (arith, has-snoc a what (cs whr)))
            | inr miss ↦ rw miss i
          ]
    ]

    attached : Lists links h2 n cs' nobody
    attached = record {
      bounded = λ a o e. let (o1, e1, f1) = back a o e in bounded_kept links ok r a o1 e1;
      chains = λ l o e.
          let (o1, e1, f1) = back l o e in
          subst (λ p. Chain (field next h2) p (cs' l)) f1
            (frame (head o1) (cs' l) (chains_kept links ok r (λ m ne. out_of m) l o1 e1)
              (λ a i. next2 a));
      distinct = λ l. elim (Bool-cases (same l whr)) [
        | inl hit ↦ rw hit (Distinct-snoc what (cs whr) (ok.distinct whr) (out_of whr))
        | inr miss ↦ rw miss (ok.distinct l)
      ];
      on_list = λ l a i. on_new l a (same l whr) refl i;
      not_off = λ l a i. refl;
      listed = λ l a o e f g. listed_new l a o e g;
      no_list = λ l missing. elim (Bool-cases (same l whr)) [
        | inl hit ↦ cc (sym (none_back l missing) ∙ ap h ((same_iff l whr).0 hit) ∙ there)
        | inr miss ↦ rw miss (ok.no_list l (none_back l missing))
      ];
    }

  -- LL_APPEND to the list of an object, and the assignment that names it: both succeed, and the
  -- lists are in order again, with `what` at the end of that one.
  pub ll_append-Lists :
      (x w : Object)
      → h what ≡ some x
      → h whr ≡ some w
      → (h' : Objects) × (x' : Object) × (ll_append links (n + 1) whr what h ≡ some h')
        × (h' what ≡ some x')
        × (core x' ≡ core x)
        × Lists links (write h' what (set_up whr x')) n cs' nobody
        × ((a : Objid) → field core h' a ≡ field core h a)
  ll_append-Lists x w found there =
      let (h', run, r) =
        ll_append-Relisted links h (n + 1) whr what (head w) x (cs whr) (ap (Option.map head) there)
          (ok.chains whr w there) (ok.distinct whr) (out_of whr) (not-nothing links ok what x found)
          found (omega (arith, length-Lists links ok whr)) in
      let (x', found', same_core) = field-there core h h' what (r.others.rest what) found in
      (h', x', run, found', same_core, attached x' w found' there r, r.others.rest)
