-- ===== src/Db/Objects/Counts.antt =====
-- The walks over the contents and the children of an object in server/db_objects.c.
use nu_moo.Base.{
  ℕ, zero, suc, ◌+◌, ◌<◌, ◌≡◌, ap, ◌∙◌, ◌≢◌, Bool, true, false, some, List, [], ◌∷◌, arith,
  if◌then◌else◌, length,
}
use nu_moo.Db.Object.{Objid, nothing, same_refl, same-ne, Objects, Object}
use nu_moo.Db.Links.{Links, contents}
use nu_moo.Db.Links.Chain.{Chain, field, field-some}
use nu_moo.Db.Links.Detach.{nobody}
use nu_moo.Db.Links.Lists.{Lists, length-Lists}
use nu_moo.Db.State.{Db}
use nu_moo.Db.Objects.{fuel, count_loop, for_all_loop, db_for_all_contents, db_count_contents}

module _ (links : Links) (h : Objects) where
  open links use {next}

  count_end : (k i : ℕ) → count_loop links (suc k) h nothing i ≡ some i
  unfolding count_loop
  count_end k i = ground (arith, same_refl nothing)

  count_step :
      (k : ℕ) (x : Objid) (i : ℕ) (o : Object)
      → x ≢ nothing
      → h x ≡ some o
      → count_loop links (suc k) h x i ≡ count_loop links k h (next o) (i + 1)
  unfolding count_loop
  count_step k x i o ne there = ground (arith, same-ne x nothing)

  count_loop-Chain :
      (k : ℕ) (c : Objid) (xs : List Objid) (i : ℕ)
      → Chain (field next h) c xs
      → length xs < k
      → count_loop links k h c i ≡ some (i + length xs)
  unfolding count_loop
  count_loop-Chain zero c xs i chain lt = absurd (omega arith)
  count_loop-Chain (suc k) c [] i chain lt =
      ap (λ a. count_loop links (suc k) h a i) chain ∙ count_end k i ∙ ap some (omega arith)
  count_loop-Chain (suc k) c (x ∷ xs) i (e, ne, q, fx, chain) lt =
      let (o, there, to_q) = field-some next h x fx in
      ap (λ a. count_loop links (suc k) h a i) e
      ∙ count_step k x i o ne there
      ∙ ap (λ a. count_loop links k h a (i + 1)) to_q
      ∙ count_loop-Chain k q xs (i + 1) chain (omega arith)
      ∙ ap some (omega arith)

  -- The callback on the elements of a list, until it says stop.
  module _ {D : Type 0} (func : D → Objid → Bool × D) where
    abbrev pub visit : List Objid → D → Bool × D
    visit [] dat = (false, dat)
    visit (x ∷ xs) dat =
        let rest = visit xs ((func dat x).1) in
        if (func dat x).0 then (true, (func dat x).1) else rest

    for_all_end :
        (k : ℕ) (dat : D) → for_all_loop links func (suc k) h nothing dat ≡ some (false, dat)
    unfolding for_all_loop
    for_all_end k dat = ground (arith, same_refl nothing)

    for_all_step :
        (k : ℕ) (x : Objid) (dat : D) (o : Object)
        → x ≢ nothing
        → h x ≡ some o
        → for_all_loop links func (suc k) h x dat ≡ (
            if (func dat x).0
            then some (true, (func dat x).1)
            else for_all_loop links func k h (next o) ((func dat x).1))
    unfolding for_all_loop
    for_all_step k x dat o ne there = ground (arith, same-ne x nothing)

    for_all_loop-Chain :
        (k : ℕ) (c : Objid) (xs : List Objid) (dat : D)
        → Chain (field next h) c xs
        → length xs < k
        → for_all_loop links func k h c dat ≡ some (visit xs dat)
    unfolding for_all_loop
    for_all_loop-Chain zero c xs dat chain lt = absurd (omega arith)
    for_all_loop-Chain (suc k) c [] dat chain lt =
        ap (λ a. for_all_loop links func (suc k) h a dat) chain ∙ for_all_end k dat
    for_all_loop-Chain (suc k) c (x ∷ xs) dat (e, ne, q, fx, chain) lt =
        let (o, there, to_q) = field-some next h x fx in
        ap (λ a. for_all_loop links func (suc k) h a dat) e
        ∙ for_all_step k x dat o ne there
        ∙ ap
            (λ a.
              if (func dat x).0
              then some (true, (func dat x).1)
              else for_all_loop links func k h a ((func dat x).1))
            to_q
        ∙ ground (arith, for_all_loop-Chain k q xs ((func dat x).1) chain (omega arith))

-- On lists of contents that are in order, `db_count_contents` of an object that exists counts the
-- list of its contents.
pub db_count_contents_lem :
    (d : Db) {cs : Objid → List Objid} (oid : Objid) (o : Object)
    → Lists contents d.objects d.num_objects cs nobody
    → d.objects oid ≡ some o
    → db_count_contents d oid ≡ some (length (cs oid))
unfolding db_count_contents
db_count_contents_lem d {cs} oid o ok found = rw found (
    count_loop-Chain contents d.objects (fuel d) o.contents (cs oid) 0 (ok.chains oid o found)
      (omega (arith, length-Lists contents ok oid))
    ∙ ap some (omega arith))

-- On lists of contents that are in order, `db_for_all_contents` of an object that exists calls the
-- function on the objects of its list, in that order, up to the first for which it says stop.
pub db_for_all_contents_lem :
    {D : Type 0} (func : D → Objid → Bool × D) (d : Db) {cs : Objid → List Objid} (oid : Objid)
    (o : Object) (dat : D)
    → Lists contents d.objects d.num_objects cs nobody
    → d.objects oid ≡ some o
    → db_for_all_contents func d oid dat ≡ some (visit contents d.objects func (cs oid) dat)
unfolding db_for_all_contents
db_for_all_contents_lem func d {cs} oid o dat ok found = rw found (
    for_all_loop-Chain contents d.objects func (fuel d) o.contents (cs oid) dat
      (ok.chains oid o found) (omega (arith, length-Lists contents ok oid)))
