-- ===== src/Db/Objects/Users.antt =====
-- The list of users that server/db_objects.c keeps beside the flags.
use nu_moo.Base.{
  ◌≡◌, refl, sym, ap, ◌∙◌, ◌≢◌, inl, inr, Bool, true, false, Option, none, some, List, arith,
  if◌then◌else◌, Bool-cases,
}
use nu_moo.Db.Object.{Objid, same, same_iff, same_refl, ne-same, Object, write}
use nu_moo.Db.State.{Db}
use nu_moo.Db.Links.Chain.{has, Distinct, without}
use nu_moo.Db.Links.Remove.{has-without, not-has-without}
use nu_moo.Db.Links.Lists.{Distinct-without}
use nu_moo.Db.Links.Sets.{
  added, has-added, added-Distinct, or-true, or-false, setadd-same, setremove-same,
}
use nu_moo.Db.Objects.Flags.{test-set_bit, test-clear_bit, set_bit_other, clear_bit_other}
use nu_moo.Db.Objects.{
  flag_user, test_bit, Flag, db_set_object_flag, is_user_flag, db_clear_object_flag, clear_bit,
  set_bit, db_object_has_flag,
}

-- `all_users` lists the objects with the flag of users, and no object twice.
abbrev pub user_bit : Option Object → Bool
user_bit none = false
user_bit (some o) = test_bit o.flags flag_user

pub record UsersListed (d : Db) : Type 0 where
  pub once : Distinct d.all_users
  pub flagged : (a : Objid) → has a d.all_users ≡ user_bit (d.objects a)

-- What `db_set_object_flag` and `db_clear_object_flag` make of the state.
abbrev set_state : Db → Objid → Flag → Object → Db
set_state d oid f o = record d {
  objects = write d.objects oid (record o { flags = set_bit o.flags f });
  all_users = if is_user_flag f then added oid d.all_users else d.all_users;
}

abbrev clear_state : Db → Objid → Flag → Object → Db
clear_state d oid f o = record d {
  objects = write d.objects oid (record o { flags = clear_bit o.flags f });
  all_users = if is_user_flag f then without oid d.all_users else d.all_users;
}

module _ (d : Db) (oid : Objid) (f : Flag) (o : Object) (found : d.objects oid ≡ some o) where
  set_run : db_set_object_flag oid f d ≡ some (set_state d oid f o)
  unfolding db_set_object_flag
  set_run = elim (Bool-cases (is_user_flag f)) [
    | inl user ↦ rw (found, user, setadd-same 2 oid d.all_users) refl
    | inr other ↦ rw (found, other) refl
  ]

  clear_run : db_clear_object_flag oid f d ≡ some (clear_state d oid f o)
  unfolding db_clear_object_flag
  clear_run = elim (Bool-cases (is_user_flag f)) [
    | inl user ↦ rw (found, user, setremove-same oid d.all_users) refl
    | inr other ↦ rw (found, other) refl
  ]

  user_bit-write :
      (o' : Object) (a : Objid)
      → user_bit (write d.objects oid o' a)
        ≡ (if same a oid then test_bit o'.flags flag_user else user_bit (d.objects a))
  unfolding write
  user_bit-write o' a = elim (Bool-cases (same a oid)) [
    | inl hit ↦ rw hit refl
    | inr miss ↦ rw miss refl
  ]

  was_user : (a : Objid) → same a oid ≡ true → user_bit (d.objects a) ≡ test_bit o.flags flag_user
  was_user a hit = ap user_bit (ap d.objects ((same_iff a oid).0 hit) ∙ found)

  -- A write that leaves the flag of users alone.
  kept :
      (o' : Object) (a : Objid)
      → test_bit o'.flags flag_user ≡ test_bit o.flags flag_user
      → user_bit (write d.objects oid o' a) ≡ user_bit (d.objects a)
  kept o' a e = user_bit-write o' a ∙ elim (Bool-cases (same a oid)) [
    | inl hit ↦ rw hit (e ∙ sym (was_user a hit))
    | inr miss ↦ rw miss refl
  ]

  other_flag : is_user_flag f ≡ false → f ≢ flag_user
  other_flag e = ground arith

  user_flag : is_user_flag f ≡ true → f ≡ flag_user
  user_flag e = ground arith

  set_user : is_user_flag f ≡ true → test_bit (set_bit o.flags f) flag_user ≡ true
  set_user e = rw (user_flag e) (test-set_bit o.flags flag_user)

  clear_user : is_user_flag f ≡ true → test_bit (clear_bit o.flags f) flag_user ≡ false
  clear_user e = rw (user_flag e) (test-clear_bit o.flags flag_user)

  module _ (ok : UsersListed d) where
    set_has :
        (a : Objid)
        → is_user_flag f ≡ true
        → has a (added oid d.all_users)
          ≡ user_bit (write d.objects oid (record o { flags = set_bit o.flags f }) a)
    set_has a user =
        has-added a oid d.all_users
        ∙ elim (Bool-cases (same a oid)) [
          | inl hit ↦ rw (hit, set_user user) (or-true (has a d.all_users))
          | inr miss ↦ rw miss (or-false (has a d.all_users) ∙ ok.flagged a)
        ]
        ∙ sym (user_bit-write (record o { flags = set_bit o.flags f }) a)

    clear_has :
        (a : Objid)
        → is_user_flag f ≡ true
        → has a (without oid d.all_users)
          ≡ user_bit (write d.objects oid (record o { flags = clear_bit o.flags f }) a)
    clear_has a user =
        elim (Bool-cases (same a oid)) [
          | inl hit ↦
              rw (hit, clear_user user)
                (ap (λ b. has b (without oid d.all_users)) ((same_iff a oid).0 hit)
                  ∙ not-has-without oid d.all_users ok.once)
          | inr miss ↦ rw miss (has-without a oid d.all_users (ne-same a oid miss) ∙ ok.flagged a)
        ]
        ∙ sym (user_bit-write (record o { flags = clear_bit o.flags f }) a)

    set_listed : UsersListed (set_state d oid f o)
    set_listed = elim (Bool-cases (is_user_flag f)) [
      | inl user ↦ record {
        once = rw user (added-Distinct oid d.all_users ok.once);
        flagged = λ a. rw user (set_has a user);
      }
      | inr other ↦ record {
        once = rw other ok.once;
        flagged = λ a. rw other (
            ok.flagged a
            ∙ sym (
                kept (record o { flags = set_bit o.flags f }) a
                  (set_bit_other o.flags f flag_user (other_flag other))));
      }
    ]

    clear_listed : UsersListed (clear_state d oid f o)
    clear_listed = elim (Bool-cases (is_user_flag f)) [
      | inl user ↦ record {
        once = rw user (Distinct-without oid d.all_users ok.once);
        flagged = λ a. rw user (clear_has a user);
      }
      | inr other ↦ record {
        once = rw other ok.once;
        flagged = λ a. rw other (
            ok.flagged a
            ∙ sym (
                kept (record o { flags = clear_bit o.flags f }) a
                  (clear_bit_other o.flags f flag_user (other_flag other))));
      }
    ]

  has_flag :
      (o' : Object) (g : Flag) (users : List Objid)
      → db_object_has_flag (record d { objects = write d.objects oid o'; all_users = users }) oid g
        ≡ some (test_bit o'.flags g)
  unfolding db_object_has_flag write
  has_flag o' g users = rw (same_refl oid) refl

  had_flag : (g : Flag) → db_object_has_flag d oid g ≡ some (test_bit o.flags g)
  unfolding db_object_has_flag
  had_flag g = rw found refl

-- Where the list of users is right, setting a flag of an object that exists succeeds, the object
-- then has the flag, every other flag of it is as before, and the list of users is right again.
pub db_set_object_flag_lem :
    (d : Db) (oid : Objid) (f g : Flag) (o : Object)
    → UsersListed d
    → d.objects oid ≡ some o
    → f ≢ g
    → (d' : Db) × (db_set_object_flag oid f d ≡ some d')
      × (db_object_has_flag d' oid f ≡ some true)
      × (db_object_has_flag d' oid g ≡ db_object_has_flag d oid g)
      × UsersListed d'
db_set_object_flag_lem d oid f g o ok found ne = (
  set_state d oid f o,
  set_run d oid f o found,
  has_flag d oid f o found (record o { flags = set_bit o.flags f }) f _
      ∙ ap some (test-set_bit o.flags f),
  has_flag d oid f o found (record o { flags = set_bit o.flags f }) g _
      ∙ ap some (set_bit_other o.flags f g ne)
      ∙ sym (had_flag d oid f o found g),
  set_listed d oid f o found ok,
)

-- Where the list of users is right, clearing a flag of an object that exists succeeds, the object
-- then lacks the flag, every other flag of it is as before, and the list of users is right again.
pub db_clear_object_flag_lem :
    (d : Db) (oid : Objid) (f g : Flag) (o : Object)
    → UsersListed d
    → d.objects oid ≡ some o
    → f ≢ g
    → (d' : Db) × (db_clear_object_flag oid f d ≡ some d')
      × (db_object_has_flag d' oid f ≡ some false)
      × (db_object_has_flag d' oid g ≡ db_object_has_flag d oid g)
      × UsersListed d'
db_clear_object_flag_lem d oid f g o ok found ne = (
  clear_state d oid f o,
  clear_run d oid f o found,
  has_flag d oid f o found (record o { flags = clear_bit o.flags f }) f _
      ∙ ap some (test-clear_bit o.flags f),
  has_flag d oid f o found (record o { flags = clear_bit o.flags f }) g _
      ∙ ap some (clear_bit_other o.flags f g ne)
      ∙ sym (had_flag d oid f o found g),
  clear_listed d oid f o found ok,
)
