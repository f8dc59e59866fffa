-- ===== src/Db/Object.antt =====
-- The structures of server/db_private.h and server/db.h. A `Var` that may be TYPE_CLEAR is an
-- optional value. A linked list of verbs is a list; a program and a table of waif properties are
-- known by their addresses.
use nu_moo.Base.{
  ℕ, ◌≡◌, refl, ◌≢◌, ◌↔◌, inl, inr, Bool, true, false, Option, some, List, if◌then◌else◌,
  Bool-cases,
}
use nu_moo.Base.Int.{ℤ, negsuc, ◌==ℤ◌, ==ℤ_iff}
use nu_moo.Value.{Value}

abbrev pub Objid : Type 0
Objid = ℤ

abbrev pub nothing : Objid
nothing = negsuc 0

-- Equality of object numbers, with its lemma.
unfoldable pub same : Objid → Objid → Bool
same a b = a ==ℤ b

pub same_iff : (a b : Objid) → (same a b ≡ true) ↔ (a ≡ b)
unfolding same
same_iff a b = ==ℤ_iff a b

pub same_refl : (a : Objid) → same a a ≡ true
same_refl a = (same_iff a a).1 refl

pub same-ne : (a b : Objid) → a ≢ b → same a b ≡ false
same-ne a b h = elim (Bool-cases (same a b)) [ inl e ↦ absurd (h ((same_iff a b).0 e)) | inr e ↦ e ]

pub ne-same : (a b : Objid) → same a b ≡ false → a ≢ b
ne-same a b h e = cc (h, (same_iff a b).1 e)

pub record Verbdef : Type 0 where
  pub name : List ℕ
  pub program : Option ℕ
  pub owner : Objid
  pub perms : ℕ
  pub prep : ℤ

pub record Propdef : Type 0 where
  pub name : List ℕ
  pub hash : ℕ

-- `max_length` elements are allocated; the list holds the `cur_length` in use.
pub record Proplist : Type 0 where
  pub max_length : ℕ
  pub l : List Propdef

pub record Pval : Type 0 where
  pub var : Option Value
  pub owner : Objid
  pub perms : ℕ

pub record Object : Type 0 where
  pub id : Objid
  pub owner : Objid
  pub location : Objid
  pub contents : Objid
  pub next : Objid
  pub parent : Objid
  pub child : Objid
  pub sibling : Objid
  pub name : List ℕ
  pub flags : ℕ
  pub verbdefs : List Verbdef
  pub propdefs : Proplist
  pub propval : List Pval
  pub waif_propdefs : Option ℕ

-- `objects[oid]`: a null pointer, and what lies outside the array, are `none`.
abbrev pub Objects : Type 0
Objects = Objid → Option Object

-- objects[p] = o
unfoldable pub write : Objects → Objid → Object → Objects
write h p o a = if same a p then some o else h a
