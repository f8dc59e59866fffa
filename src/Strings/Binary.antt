-- ===== src/Strings/Binary.antt =====
-- Binary strings of server/utils.c: bytes written as printable characters, and read back.
use nu_moo.Base.{
  ℕ, ◌+◌, ◌-◌, ◌*◌, ◌/◌, ◌%◌, ◌≤◌, ◌<◌, ◌≡◌, refl, ap, ◌∙◌, inl, inr, true, false, ◌&&◌, Option,
  none, some, List, [], ◌∷◌, arith, ltb, leb, ◌==◌, if◌then◌else◌, Bool-cases, All,
}
use mathlib.Core.Path.{ap₂}

-- A digit of `%02x`.
abbrev pub hex_digit : ℕ → ℕ
hex_digit n = if ltb n 10 then 48 + n else 87 + n

unfoldable pub raw_bytes_to_binary : (buffer : List ℕ) → List ℕ
raw_bytes_to_binary [] = []
raw_bytes_to_binary (c ∷ s) =
    let rest = raw_bytes_to_binary s in
    if leb 32 c && ltb c 126 then c ∷ rest else 126 ∷ hex_digit (c / 16) ∷ hex_digit (c % 16) ∷ rest

-- `c | 0x20`
abbrev pub or_0x20 : ℕ → ℕ
or_0x20 c = if c / 32 % 2 == 1 then c else c + 32

unfoldable pub hex_value : ℕ → Option ℕ
hex_value b =
    let c = or_0x20 b in
    if leb 48 c && leb c 57
    then some (c - 48)
    else if leb 97 c && leb c 102
    then some (c - 97 + 10)
    else none

-- One byte in front of the bytes of the rest.
abbrev pub prefix : ℕ → Option (List ℕ) → Option (List ℕ)
prefix c none = none
prefix c (some s) = some (c ∷ s)

-- `cc` is a char, of which 8 bits are kept; the NUL that ends the string is no digit.
abbrev pub from_digits : Option ℕ → Option ℕ → Option (List ℕ) → Option (List ℕ)
from_digits none low rest = none
from_digits (some high) none rest = none
from_digits (some high) (some low) rest = prefix ((high * 16 + low) % 256) rest

unfoldable pub binary_to_raw_bytes : (binary : List ℕ) → Option (List ℕ)
unfolding hex_value
binary_to_raw_bytes [] = some []
binary_to_raw_bytes (c ∷ []) = if c == 126 then none else some (c ∷ [])
binary_to_raw_bytes (c ∷ a ∷ []) =
    let rest = binary_to_raw_bytes (a ∷ []) in if c == 126 then none else prefix c rest
binary_to_raw_bytes (c ∷ a ∷ b ∷ s) =
    let rest = binary_to_raw_bytes (a ∷ b ∷ s) in
    let behind = binary_to_raw_bytes s in
    if c == 126 then from_digits (hex_value a) (hex_value b) behind else prefix c rest

hex_value-hex_digit : (n : ℕ) → n < 16 → hex_value (hex_digit n) ≡ some n
unfolding hex_value
hex_value-hex_digit n h = elim (Bool-cases (ltb n 10)) [
  | inl e ↦
      let mid : ((48 + n) / 32 % 2 == 1) ≡ true = ground (arith, e) in
      rw (e, mid) (ground (arith, e))
  | inr e ↦
      let mid : ((87 + n) / 32 % 2 == 1) ≡ true = ground (arith, e) in
      rw (e, mid) (ground (arith, e))
]

read-nil : binary_to_raw_bytes [] ≡ some []
unfolding binary_to_raw_bytes
read-nil = refl

read-plain :
    (c : ℕ) (s : List ℕ)
    → (c == 126) ≡ false
    → binary_to_raw_bytes (c ∷ s) ≡ prefix c (binary_to_raw_bytes s)
unfolding binary_to_raw_bytes
read-plain c [] e = rw e refl
read-plain c (a ∷ []) e = rw e refl
read-plain c (a ∷ b ∷ s) e = rw e refl

read-escaped :
    (a b : ℕ) (s : List ℕ)
    → binary_to_raw_bytes (126 ∷ a ∷ b ∷ s)
      ≡ from_digits (hex_value a) (hex_value b) (binary_to_raw_bytes s)
unfolding binary_to_raw_bytes
read-escaped a b s = refl

-- Bytes that are written as a binary string are read back from it.
pub binary_to_raw_bytes-raw_bytes_to_binary :
    (buffer : List ℕ)
    → All (λ b. b < 256) buffer
    → binary_to_raw_bytes (raw_bytes_to_binary buffer) ≡ some buffer
unfolding raw_bytes_to_binary
binary_to_raw_bytes-raw_bytes_to_binary [] h = read-nil
binary_to_raw_bytes-raw_bytes_to_binary (c ∷ s) (lt, h) =
    let rest = binary_to_raw_bytes-raw_bytes_to_binary s h in
    elim (Bool-cases (leb 32 c && ltb c 126)) [
      | inl e ↦ rw e (read-plain c (raw_bytes_to_binary s) (ground (arith, e)) ∙ ap (prefix c) rest)
      | inr e ↦
          let high : hex_value (hex_digit (c / 16)) ≡ some (c / 16) =
            hex_value-hex_digit (c / 16) (omega (arith, lt)) in
          let low : hex_value (hex_digit (c % 16)) ≡ some (c % 16) =
            hex_value-hex_digit (c % 16) (omega arith) in
          let whole : (c / 16 * 16 + c % 16) % 256 ≡ c = omega (arith, lt) in
          rw e (
            read-escaped (hex_digit (c / 16)) (hex_digit (c % 16)) (raw_bytes_to_binary s)
            ∙ ap₂ (λ a b. from_digits a b (binary_to_raw_bytes (raw_bytes_to_binary s))) high low
            ∙ ap₂ (λ b m. prefix b m) whole rest)
    ]

-- A binary string has printable ASCII characters only.
pub raw_bytes_to_binary-Printable :
    (buffer : List ℕ)
    → All (λ b. b < 256) buffer
    → All (λ c. (32 ≤ c) × (c ≤ 126)) (raw_bytes_to_binary buffer)
unfolding raw_bytes_to_binary
raw_bytes_to_binary-Printable [] h = tt
raw_bytes_to_binary-Printable (c ∷ s) (lt, h) =
    let rest = raw_bytes_to_binary-Printable s h in
    elim (Bool-cases (leb 32 c && ltb c 126)) [
      | inl e ↦ rw e ((ground (arith, e), ground (arith, e)), rest)
      | inr e ↦ rw e (
        (omega arith, omega arith),
        (digit (c / 16) (omega (arith, lt)), (digit (c % 16) (omega arith), rest)),
      )
    ]
  where
    digit : (n : ℕ) → n < 16 → (32 ≤ hex_digit n) × (hex_digit n ≤ 126)
    digit n h = elim (Bool-cases (ltb n 10)) [
      | inl e ↦ rw e (omega arith, omega arith)
      | inr e ↦ rw e (omega (arith, h), omega (arith, h))
    ]
