-- ===== src/Db/Objects/Flags.antt =====
-- The flags of objects and the list of users in server/db_objects.c.

use nu_moo.Base.{ℕ, ◌≡◌, ◌≢◌, true, false, arith}
use nu_moo.Db.Objects.{Flag, test_bit, set_bit, clear_bit}

pub test-set_bit : (flags : ℕ) (f : Flag) → test_bit (set_bit flags f) f ≡ true
unfolding set_bit test_bit
test-set_bit flags f = ground arith

pub test-clear_bit : (flags : ℕ) (f : Flag) → test_bit (clear_bit flags f) f ≡ false
unfolding clear_bit test_bit
test-clear_bit flags f = ground arith

-- Setting or clearing a flag leaves every other flag as it was.
pub set_bit_other :
    (flags : ℕ) (f g : Flag) → f ≢ g → test_bit (set_bit flags f) g ≡ test_bit flags g
unfolding set_bit test_bit
set_bit_other flags f g ne = ground arith

pub clear_bit_other :
    (flags : ℕ) (f g : Flag) → f ≢ g → test_bit (clear_bit flags f) g ≡ test_bit flags g
unfolding clear_bit test_bit
clear_bit_other flags f g ne = ground arith
