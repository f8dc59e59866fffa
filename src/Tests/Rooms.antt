-- ===== src/Tests/Rooms.antt =====
-- A database of two rooms, #0 and #2, with the object #1 in the first one.
use mathlib.Core.Option
use nu_moo.Base.{
  ℕ, zero, suc, ◌<◌, ◌≡◌, refl, sym, ap, ◌∙◌, ◌≢◌, true, false, none, some, List, [], ◌∷◌, arith,
}
use nu_moo.Base.Int.{pos, negsuc}
use nu_moo.Db.Object.{Objid, nothing, same, same_refl, Object, Objects}
use nu_moo.Db.Links.{contents, children}
use nu_moo.Db.Links.Chain.{has, Distinct, Chain, field, some_eq}
use nu_moo.Db.Links.Lists.{Lists}
use nu_moo.Db.Links.Detach.{nobody}
use nu_moo.Db.State.{Db}
use nu_moo.Db.Objects.{test_bit}
use nu_moo.Db.Objects.Users.{user_bit, UsersListed}
use nu_moo.Db.Objects.Taking.{InOrder}

abbrev pub thing : Objid → (location contents : Objid) → Object
thing oid location contents = record {
  id = oid;
  owner = pos 0;
  location = location;
  contents = contents;
  next = nothing;
  parent = nothing;
  child = nothing;
  sibling = nothing;
  name = [];
  flags = 0;
  verbdefs = [];
  propdefs = record { max_length = 0; l = [] };
  propval = [];
  waif_propdefs = none;
}

abbrev pub table : Objects
table (pos zero) = some (thing (pos 0) nothing (pos 1))
table (pos (suc zero)) = some (thing (pos 1) (pos 0) nothing)
table (pos (suc (suc zero))) = some (thing (pos 2) nothing nothing)
table (pos (suc (suc (suc n)))) = none
table (negsuc n) = none

abbrev pub inside : Objid → List Objid
inside (pos zero) = pos 1 ∷ []
inside (pos (suc n)) = []
inside (negsuc n) = []

abbrev pub rooms : Db
rooms = record {
  objects = table;
  num_objects = 3;
  max_objects = 100;
  all_users = [];
  verb_cache = record { vc_table = none; generation = 0 };
}

table-bounded : (a : Objid) (o : Object) → table a ≡ some o → (i : ℕ) × (a ≡ pos i) × (i < 3)
table-bounded (pos zero) o e = (0, refl, omega arith)
table-bounded (pos (suc zero)) o e = (1, refl, omega arith)
table-bounded (pos (suc (suc zero))) o e = (2, refl, omega arith)
table-bounded (pos (suc (suc (suc n)))) o e = cc e
table-bounded (negsuc n) o e = cc e

inside-one : (l a : Objid) → has a (inside l) ≡ true → (l ≡ pos 0) × (a ≡ pos 1)
unfolding same
inside-one (pos zero) a e = (refl, ground arith)
inside-one (pos (suc n)) a e = cc e
inside-one (negsuc n) a e = cc e

nothing_there : (m : Objid) (x : Object) → table m ≡ some x → nothing ≡ m → ⊥
nothing_there (pos n) x g h = cc h
nothing_there (negsuc n) x g h = cc g

table-up :
    (a l : Objid) (o : Object)
    → table l ≡ some o
    → field contents.up table a ≡ some l
    → (l ≡ pos 0) × (a ≡ pos 1)
table-up (pos zero) l o e f = absurd (nothing_there l o e (some_eq f))
table-up (pos (suc zero)) l o e f = (sym (some_eq f), refl)
table-up (pos (suc (suc zero))) l o e f = absurd (nothing_there l o e (some_eq f))
table-up (pos (suc (suc (suc n)))) l o e f = cc f
table-up (negsuc n) l o e f = cc f

table-chains :
    (l : Objid) (o : Object)
    → table l ≡ some o
    → Chain (field contents.next table) (contents.head o) (inside l)
table-chains (pos zero) o e =
    (sym (some_eq (ap (Option.map contents.head) e)), λ g. cc g, nothing, refl, refl)
table-chains (pos (suc zero)) o e = sym (some_eq (ap (Option.map contents.head) e))
table-chains (pos (suc (suc zero))) o e = sym (some_eq (ap (Option.map contents.head) e))
table-chains (pos (suc (suc (suc n)))) o e = cc e
table-chains (negsuc n) o e = cc e

pub rooms-InOrder : InOrder rooms inside
unfolding same
rooms-InOrder = record {
  bounded = table-bounded;
  chains = table-chains;
  distinct = inside-Distinct;
  on_list =
      λ l a i. let (e, f) = inside-one l a i in ap (field contents.up table) f ∙ ap some (sym e);
  not_off = λ l a i. refl;
  listed = λ l a o e apart f. let (g, k) = table-up a l o e f in rw (g, k) refl;
  no_list = inside-none;
}
  where
    inside-Distinct : (l : Objid) → Distinct (inside l)
    inside-Distinct (pos zero) = (refl, tt)
    inside-Distinct (pos (suc n)) = tt
    inside-Distinct (negsuc n) = tt

    inside-none : (l : Objid) → table l ≡ none → inside l ≡ []
    inside-none (pos zero) e = cc e
    inside-none (pos (suc n)) e = refl
    inside-none (negsuc n) e = refl

-- The same rooms with #1 on no list.
abbrev pub loose : Objects
loose (pos zero) = some (thing (pos 0) nothing nothing)
loose (pos (suc n)) = table (pos (suc n))
loose (negsuc n) = none

abbrev pub empty : Objid → List Objid
empty l = []

loose-head : (l : Objid) (o : Object) → loose l ≡ some o → contents.head o ≡ nothing
loose-head (pos zero) o e = sym (some_eq (ap (Option.map contents.head) e))
loose-head (pos (suc zero)) o e = sym (some_eq (ap (Option.map contents.head) e))
loose-head (pos (suc (suc zero))) o e = sym (some_eq (ap (Option.map contents.head) e))
loose-head (pos (suc (suc (suc n)))) o e = cc e
loose-head (negsuc n) o e = cc e

loose-bounded : (a : Objid) (o : Object) → loose a ≡ some o → (i : ℕ) × (a ≡ pos i) × (i < 3)
loose-bounded (pos zero) o e = (0, refl, omega arith)
loose-bounded (pos (suc n)) o e = table-bounded (pos (suc n)) o e
loose-bounded (negsuc n) o e = cc e

loose-up :
    (a l : Objid) (o : Object)
    → loose l ≡ some o
    → same a (pos 1) ≡ false
    → field contents.up loose a ≡ some l
    → ⊥
loose-up (pos zero) (negsuc n) o e apart f = cc e
loose-up (pos zero) (pos n) o e apart f = cc (some_eq f)
loose-up (pos (suc zero)) l o e apart f = cc (apart, same_refl (pos 1))
loose-up (pos (suc (suc zero))) (negsuc n) o e apart f = cc e
loose-up (pos (suc (suc zero))) (pos n) o e apart f = cc (some_eq f)
loose-up (pos (suc (suc (suc n)))) l o e apart f = cc f
loose-up (negsuc n) l o e apart f = cc f

pub loose-Lists : Lists contents loose 3 empty (λ a. same a (pos 1))
loose-Lists = record {
  bounded = loose-bounded;
  chains = loose-head;
  distinct = λ l. tt;
  on_list = λ l a i. cc i;
  not_off = λ l a i. cc i;
  listed = λ l a o e apart f. absurd (loose-up a l o e apart f);
  no_list = λ l e. refl;
}

table-users : (a : Objid) → false ≡ user_bit (table a)
unfolding test_bit
table-users (pos zero) = refl
table-users (pos (suc zero)) = refl
table-users (pos (suc (suc zero))) = refl
table-users (pos (suc (suc (suc n)))) = refl
table-users (negsuc n) = refl

pub rooms-UsersListed : UsersListed rooms
rooms-UsersListed = record { once = tt; flagged = table-users }

table-child : (l : Objid) (o : Object) → table l ≡ some o → children.head o ≡ nothing
table-child (pos zero) o e = sym (some_eq (ap (Option.map children.head) e))
table-child (pos (suc zero)) o e = sym (some_eq (ap (Option.map children.head) e))
table-child (pos (suc (suc zero))) o e = sym (some_eq (ap (Option.map children.head) e))
table-child (pos (suc (suc (suc n)))) o e = cc e
table-child (negsuc n) o e = cc e

pub table-parent : (a l : Objid) → field children.up table a ≡ some l → l ≡ nothing
table-parent (pos zero) l f = sym (some_eq f)
table-parent (pos (suc zero)) l f = sym (some_eq f)
table-parent (pos (suc (suc zero))) l f = sym (some_eq f)
table-parent (pos (suc (suc (suc n)))) l f = cc f
table-parent (negsuc n) l f = cc f

pub table-kin : Lists children table 3 empty nobody
table-kin = record {
  bounded = table-bounded;
  chains = table-child;
  distinct = λ l. tt;
  on_list = λ l a i. cc i;
  not_off = λ l a i. refl;
  listed = λ l a o e apart f. absurd (nothing_there l o e (sym (table-parent a l f)));
  no_list = λ l e. refl;
}

pub table-located : (b : Objid) → field contents.up table b ≢ some (pos 3)
table-located (pos zero) f = cc (some_eq f)
table-located (pos (suc zero)) f = absurd (three-zero (some_eq f))
  where
    three-zero : pos 0 ≡ pos 3 → ⊥
    three-zero e = ground arith
table-located (pos (suc (suc zero))) f = cc (some_eq f)
table-located (pos (suc (suc (suc n)))) f = cc f
table-located (negsuc n) f = cc f
