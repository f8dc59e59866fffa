-- ===== src/Numbers.antt =====
-- Arithmetic on numbers (server/numbers.c). A number has 64 bits in two's complement, and what an
-- addition, a subtraction, a product or a negation overflows to is taken mod 2 ^ 64; the quotient
-- that overflows, of the least number and -1, is a fault, `none`. Floats are known by their bits, and
-- the C library's operations on them are parameters, as are its strtoimax and strtod.
pub mod Power
pub mod Division
pub mod Words
pub mod Extremes
use nu_moo.Base.{
  ℕ, zero, suc, ◌+◌, ◌-◌, ◌*◌, ◌/◌, ◌%◌, ◌≤◌, ◌<◌, ◌≡◌, refl, ◌≢◌, Bool, true, false, ◌&&◌, ◌||◌,
  not, Option, none, some, List, [], ◌∷◌, ◌++◌, arith, ltb, ◌==◌, if◌then◌else◌, length, ◌>>=◌,
}
use nu_moo.Base.Int.{ℤ, pos, negsuc, ltb_ℤ, leb_ℤ, ◌==ℤ◌}
use nu_moo.Builtins.{Package, ret, raise}
use nu_moo.Value.{
  Error, e_type, e_div, e_invarg, e_float, Value, int, obj, str, err, list, float, waif,
  error_number,
}

abbrev pub two_64 : ℕ
two_64 = 18446744073709551616

abbrev pub two_63 : ℕ
two_63 = 9223372036854775808

-- a.type == b.type
abbrev pub same_type : Value → Value → Bool
same_type (int a) (int b) = true
same_type (obj a) (obj b) = true
same_type (str s) (str t) = true
same_type (err a) (err b) = true
same_type (list vs) (list ws) = true
same_type (float x) (float y) = true
same_type (waif x) (waif y) = true
same_type _ _ = false

-- The 64 bits of a number, and the number of 64 bits.
unfoldable pub word : ℤ → ℕ
word (pos n) = n % two_64
word (negsuc n) = two_64 - 1 - n % two_64

unfoldable pub num_of_word : ℕ → ℤ
num_of_word w = if ltb w two_63 then pos w else negsuc (two_64 - 1 - w)

unfoldable pub is_negative : ℤ → Bool
is_negative (pos n) = false
is_negative (negsuc n) = true

abbrev pub magnitude : ℤ → ℕ
magnitude (pos n) = n
magnitude (negsuc n) = suc n

unfoldable pub with_sign : Bool → ℕ → ℤ
with_sign false n = pos n
with_sign true zero = pos zero
with_sign true (suc n) = negsuc n

abbrev pub xor : Bool → Bool → Bool
xor true b = not b
xor false b = b

-- The operators `*`, `/` and `%` of C, the latter two for a divisor that is not 0.
infixl 70 ◌*ℤ◌ ◌/ℤ◌ ◌%ℤ◌
unfoldable pub ◌*ℤ◌ : ℤ → ℤ → ℤ
a *ℤ b = with_sign (xor (is_negative a) (is_negative b)) (magnitude a * magnitude b)

unfoldable pub ◌/ℤ◌ : ℤ → ℤ → ℤ
a /ℤ b = with_sign (xor (is_negative a) (is_negative b)) (magnitude a / magnitude b)

unfoldable pub ◌%ℤ◌ : ℤ → ℤ → ℤ
a %ℤ b = with_sign (is_negative a) (magnitude a % magnitude b)

abbrev pub least : ℤ
least = negsuc 9223372036854775807

-- The operations on floats. `pow` fails by errno.
pub record Floats : Type 0 where
  pub add : ℕ → ℕ → ℕ
  pub subtract : ℕ → ℕ → ℕ
  pub multiply : ℕ → ℕ → ℕ
  pub divide : ℕ → ℕ → ℕ
  pub fmod : ℕ → ℕ → ℕ
  pub pow : ℕ → ℕ → Option ℕ
  pub fabs : ℕ → ℕ
  pub less : ℕ → ℕ → Bool
  pub equal : ℕ → ℕ → Bool
  pub is_real : ℕ → Bool
  pub of_num : ℤ → ℕ
  pub to_num : ℕ → ℤ
  -- What the union of a value holds as a float, of whatever type the value is.
  pub fnum : Value → ℕ

-- strtoimax and strtod, each with what is behind the number that is read.
pub record Conversions : Type 0 where
  pub strtoimax : List ℕ → ℤ × List ℕ
  pub strtod : List ℕ → ℕ × List ℕ

unfoldable pub compare_integers : ℤ → ℤ → ℤ
compare_integers a b = if ltb_ℤ a b then negsuc 0 else if ltb_ℤ b a then pos 1 else pos 0

-- while (*p) { if (*p != ' ') return 0; p++; }
unfoldable pub only_spaces : List ℕ → Bool
only_spaces [] = true
only_spaces (b ∷ s) = (b == 32) && only_spaces s

unfoldable pub without_spaces : List ℕ → List ℕ
without_spaces [] = []
without_spaces (b ∷ s) = let rest = without_spaces s in if b == 32 then rest else b ∷ s

unfoldable pub without_hash_mark : List ℕ → List ℕ
without_hash_mark [] = []
without_hash_mark (b ∷ s) = if b == 35 then s else b ∷ s

-- *p == '.' || *p == 'e' || *p == 'E'
unfoldable pub goes_on : List ℕ → Bool
goes_on [] = false
goes_on (b ∷ s) = (b == 46) || ((b == 101) || (b == 69))

unfoldable pub parsed : List ℕ → ℤ × List ℕ → Option ℤ
parsed text (n, p) =
    if length p == length text then none else if only_spaces p then some n else none

module _ (c : Conversions) (f : Floats) where
  unfoldable pub parse_number : List ℕ → Bool → Option ℤ
  parse_number text try_floating_point =
      let (n, p) = c.strtoimax text in
      let (d, q) = c.strtod text in
      if try_floating_point && ((length p == length text) || goes_on p)
      then parsed text (f.to_num d, q)
      else parsed text (n, p)

  unfoldable pub parse_object : List ℕ → Option ℤ
  parse_object text = parse_number (without_hash_mark (without_spaces text)) false

  unfoldable pub or_zero : Option ℤ → ℤ
  or_zero none = pos 0
  or_zero (some n) = n

  -- The number, or an error.
  pub data Became : Type 0 where
    became : ℤ → Became
    became_error : Error → Became

  unfoldable pub become_integer : Value → Bool → Became
  become_integer (int n) called_from_tonum = became n
  become_integer (str s) called_from_tonum =
      became (or_zero (if called_from_tonum then parse_number s true else parse_object s))
  become_integer (obj n) called_from_tonum = became n
  become_integer (err e) called_from_tonum = became (pos (error_number e))
  become_integer (float x) called_from_tonum =
      if f.is_real x then became (f.to_num x) else became_error e_float
  become_integer _ called_from_tonum = became_error e_type

  unfoldable pub pack_integer : Became → Package
  pack_integer (became n) = ret (int n)
  pack_integer (became_error e) = raise e

  unfoldable pub bf_toint : List Value → Option Package
  bf_toint (v ∷ vs) = some (pack_integer (become_integer v true))
  bf_toint [] = none

module _ (f : Floats) where
  unfoldable pub do_equals : Value → Value → Bool
  do_equals (float x) (float y) = f.equal x y
  do_equals _ _ = false

  unfoldable pub real : ℕ → Value
  real d = if f.is_real d then float d else err e_float

  unfoldable pub compare_numbers : Value → Value → Value
  compare_numbers (int a) (int b) =
      int (if ltb_ℤ a b then negsuc 0 else if ltb_ℤ b a then pos 1 else pos 0)
  compare_numbers (float x) (float y) =
      int (if f.less x y then negsuc 0 else if f.less y x then pos 1 else pos 0)
  compare_numbers _ _ = err e_type

  -- SIMPLE_BINARY
  unfoldable pub simple_binary : (ℕ → ℕ → ℕ) → (ℕ → ℕ → ℕ) → Value → Value → Value
  simple_binary op fop (int a) (int b) = int (num_of_word (op (word a) (word b) % two_64))
  simple_binary op fop (float x) (float y) = real (fop x y)
  simple_binary op fop a b = if same_type a b then real (fop (f.fnum a) (f.fnum b)) else err e_type

  unfoldable pub do_add : Value → Value → Value
  do_add = simple_binary (λ a b. a + b) f.add

  unfoldable pub do_subtract : Value → Value → Value
  do_subtract = simple_binary (λ a b. a + (two_64 - b)) f.subtract

  unfoldable pub do_multiply : Value → Value → Value
  do_multiply = simple_binary (λ a b. a * b) f.multiply

  -- DIVISION_OP
  unfoldable pub division_op : (ℤ → ℤ → ℤ) → (ℕ → ℕ → ℕ) → Value → Value → Option Value
  division_op iop fop (int a) (int b) =
      if b ==ℤ pos 0
      then some (err e_div)
      else if (a ==ℤ least) && (b ==ℤ negsuc 0)
      then none
      else some (int (iop a b))
  division_op iop fop (float x) (float y) =
      some (if f.equal y (f.of_num (pos 0)) then err e_div else real (fop x y))
  division_op iop fop a b = some (err (if same_type a b then e_div else e_type))

  unfoldable pub do_divide : Value → Value → Option Value
  do_divide = division_op (λ a b. a /ℤ b) f.divide

  unfoldable pub do_modulus : Value → Value → Option Value
  do_modulus = division_op (λ a b. a %ℤ b) f.fmod

  -- The loop over the bits of the exponent; it runs on fuel.
  unfoldable pub power_loop : ℕ → (a r b : ℕ) → Option ℕ
  power_loop zero a r b = none
  power_loop (suc k) a r b =
      let rest = power_loop k (a * a % two_64) (if b % 2 == 1 then r * a % two_64 else r) (b / 2) in
      if b == 0 then some r else rest

  -- b & 1 of a negative number, -(n + 1)
  unfoldable pub negative_power : ℤ → ℕ → Value
  negative_power a n =
      if a ==ℤ negsuc 0
      then int (if n % 2 == 0 then pos 1 else negsuc 0)
      else if a ==ℤ pos 0
      then err e_div
      else if a ==ℤ pos 1
      then int (pos 1)
      else int (pos 0)

  unfoldable pub integer_power : ℤ → ℤ → Option Value
  integer_power a (negsuc n) = some (negative_power a n)
  integer_power a (pos b) = power_loop 65 (word a) 1 b >>= λ r. some (int (num_of_word r))

  unfoldable pub float_power : Option ℕ → Value
  float_power none = err e_float
  float_power (some d) = real d

  unfoldable pub do_power : Value → Value → Option Value
  do_power (int a) (int b) = integer_power a b
  do_power (float x) (int b) = some (float_power (f.pow x (f.of_num b)))
  do_power (float x) (float y) = some (float_power (f.pow x y))
  do_power _ _ = some (err e_type)

  -- The loops of min() and max(): the value so far, and whether a type is wrong.
  unfoldable pub min_loop : Value → Bool → List Value → Value × Bool
  min_loop r bad [] = (r, bad)
  min_loop (int a) bad (int b ∷ vs) = min_loop (if ltb_ℤ b a then int b else int a) bad vs
  min_loop (int a) bad (v ∷ vs) = min_loop (int a) true vs
  min_loop (float x) bad (float y ∷ vs) = min_loop (if f.less y x then float y else float x) bad vs
  min_loop (float x) bad (v ∷ vs) = min_loop (float x) true vs
  min_loop r bad (v ∷ vs) = min_loop r true vs

  unfoldable pub max_loop : Value → Bool → List Value → Value × Bool
  max_loop r bad [] = (r, bad)
  max_loop (int a) bad (int b ∷ vs) = max_loop (if ltb_ℤ a b then int b else int a) bad vs
  max_loop (int a) bad (v ∷ vs) = max_loop (int a) true vs
  max_loop (float x) bad (float y ∷ vs) = max_loop (if f.less x y then float y else float x) bad vs
  max_loop (float x) bad (v ∷ vs) = max_loop (float x) true vs
  max_loop r bad (v ∷ vs) = max_loop r true vs

  unfoldable pub extreme : Value × Bool → Package
  extreme (r, bad_types) = if bad_types then raise e_type else ret r

  unfoldable pub bf_min : List Value → Option Package
  bf_min [] = none
  bf_min (v ∷ vs) = some (extreme (min_loop v false vs))

  unfoldable pub bf_max : List Value → Option Package
  bf_max [] = none
  bf_max (v ∷ vs) = some (extreme (max_loop v false vs))

  -- The negation of the least number is itself.
  unfoldable pub bf_abs : List Value → Option Package
  bf_abs (int n ∷ []) =
      some (ret (int (if ltb_ℤ n (pos 0) then num_of_word (magnitude n % two_64) else n)))
  bf_abs (float x ∷ []) = some (ret (float (f.fabs x)))
  bf_abs _ = none

-- random(), from the draws of 31 bits that it takes.
unfoldable pub random_number : ℕ → ℕ → ℕ → ℕ
random_number x y z = x * 4294967296 + y * 2 + z / 1073741824

unfoldable pub bf_random : (x y z : ℕ) → List Value → Option Package
bf_random x y z [] = some (ret (int (pos (1 + random_number x y z % 9223372036854775807))))
bf_random x y z (int n ∷ []) =
    if leb_ℤ n (pos 0)
    then some (raise e_invarg)
    else some (ret (int (pos (1 + random_number x y z % magnitude n))))
bf_random x y z _ = none
