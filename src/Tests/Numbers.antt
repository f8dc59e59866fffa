-- ===== src/Tests/Numbers.antt =====
-- Arithmetic at concrete numbers; the operations on floats here are those of natural numbers.
use nu_moo.Base.{◌+◌, ◌-◌, ◌*◌, ◌/◌, ◌%◌, ◌^◌, ◌<◌, ◌≡◌, refl, true, some, arith, ltb, ◌==◌}
use nu_moo.Base.Int.{ℤ, pos, negsuc, ◌+ℤ◌, ◌-ℤ◌}
use nu_moo.Numbers.{
  two_64, word, num_of_word, magnitude, ◌*ℤ◌, Floats, do_add, do_subtract, do_divide, do_modulus,
  do_power,
}
use nu_moo.Numbers.Division.{SignOf, do_divide-do_modulus}
use nu_moo.Numbers.Power.{do_power-pow, alternating, do_power_opposite}
use nu_moo.Numbers.Words.{do_add-do_subtract}
use nu_moo.Value.{int}

abbrev whole_floats : Floats
whole_floats = record {
  add = λ x y. x + y;
  subtract = λ x y. x - y;
  multiply = λ x y. x * y;
  divide = λ x y. x / y;
  fmod = λ x y. x % y;
  pow = λ x y. some (x * y);
  fabs = λ x. x;
  less = λ x y. ltb x y;
  equal = λ x y. x == y;
  is_real = λ x. true;
  of_num = λ n. magnitude n;
  to_num = λ x. pos x;
  fnum = λ v. 0;
}

do_power-pow_example :
    do_power whole_floats (int (negsuc 2)) (int (pos 5))
    ≡ some (int (num_of_word (word (negsuc 2) ^ 5 % two_64)))
do_power-pow_example = do_power-pow whole_floats (negsuc 2) 5 (omega arith)

do_power_opposite_example :
    do_power whole_floats (int (negsuc 0)) (int (negsuc 2)) ≡ some (int (pos 0 -ℤ alternating 3))
do_power_opposite_example = do_power_opposite whole_floats 2

do_divide-do_modulus_example :
    (q r : ℤ) × (do_divide whole_floats (int (negsuc 6)) (int (pos 2)) ≡ some (int q))
    × (do_modulus whole_floats (int (negsuc 6)) (int (pos 2)) ≡ some (int r))
    × (q *ℤ pos 2 +ℤ r ≡ negsuc 6)
    × (magnitude r < 2)
    × SignOf (negsuc 6) r
do_divide-do_modulus_example =
    do_divide-do_modulus whole_floats (negsuc 6) (pos 2) (λ e. two_zero e) refl
  where
    two_zero : ◌≡◌ {A = ℤ} (pos 2) (pos 0) → ⊥
    two_zero e = ground arith

do_add-do_subtract_example :
    (do_add whole_floats (int (negsuc 6)) (int (pos 2)) ≡ int (negsuc 4))
    × (do_subtract whole_floats (int (negsuc 4)) (int (pos 2)) ≡ int (negsuc 6))
do_add-do_subtract_example =
    do_add-do_subtract whole_floats (negsuc 6) (pos 2) (omega arith, omega arith)
      (omega arith, omega arith) (omega arith, omega arith)
