-- ===== src/Utf/Form.antt =====
-- The UTF-8 form of a code point, as the Unicode standard tabulates it, and what `put_utf` and
-- `get_utf` of server/utf.c have to do with it.
use nu_moo.Base.{
  ℕ, ◌+◌, ◌-◌, ◌*◌, ◌/◌, ◌%◌, ◌^◌, ◌≤◌, ◌<◌, ◌≡◌, ◌⊎◌, none, some, List, [], ◌∷◌, ◌++◌, arith, inl,
  inr, ◌≢◌,
}
use nu_moo.Utf.Decode.{get_utf, invalid_rune}
use nu_moo.Utf.Encode.{put_utf, or_80, or_c0, or_e0, or_f0}

-- A code point that is no surrogate.
abbrev pub IsScalar : ℕ → Type 0
IsScalar v = (v < 0xd800) ⊎ ((0xdfff < v) × (v ≤ 0x10ffff))

-- The forms of one to four bytes, each for the values that no shorter form has.
pub data Form (v : ℕ) (bs : List ℕ) : Type 0 where
  one : v ≤ 0x7f → bs ≡ v ∷ [] → Form v bs
  two :
      (a b : ℕ)
      → a < 32
      → b < 64
      → 0x7f < v
      → v ≡ a * 64 + b
      → bs ≡ (0xc0 + a) ∷ (0x80 + b) ∷ []
      → Form v bs
  three :
      (a b c : ℕ)
      → a < 16
      → b < 64
      → c < 64
      → 0x7ff < v
      → IsScalar v
      → v ≡ (a * 64 + b) * 64 + c
      → bs ≡ (0xe0 + a) ∷ (0x80 + b) ∷ (0x80 + c) ∷ []
      → Form v bs
  four :
      (a b c d : ℕ)
      → a < 8
      → b < 64
      → c < 64
      → d < 64
      → 0xffff < v
      → v ≤ 0x10ffff
      → v ≡ ((a * 64 + b) * 64 + c) * 64 + d
      → bs ≡ (0xf0 + a) ∷ (0x80 + b) ∷ (0x80 + c) ∷ (0x80 + d) ∷ []
      → Form v bs

pub Form-IsScalar : {v : ℕ} {bs : List ℕ} → Form v bs → IsScalar v
Form-IsScalar (one le e) = inl (omega arith)
Form-IsScalar (two a b la lb gt e f) = inl (omega arith)
Form-IsScalar (three a b c la lb lc gt s e f) = s
Form-IsScalar (four a b c d la lb lc ld gt le e f) = inr (omega arith, omega arith)

pub put_one : (v : ℕ) → v ≤ 0x7f → put_utf v ≡ some (v ∷ [])
unfolding put_utf
put_one v h = ground arith

pub put_two :
    (v : ℕ) → 0x7f < v → v ≤ 0x7ff → put_utf v ≡ some ((0xc0 + v / 64) ∷ (0x80 + v % 64) ∷ [])
unfolding put_utf
put_two v h k = ground (arith, or_c0 (v / 64), or_80 (v % 64))

pub put_three :
    (v : ℕ)
    → 0x7ff < v
    → v ≤ 0xffff
    → IsScalar v
    → put_utf v ≡ some ((0xe0 + v / 4096) ∷ (0x80 + v / 64 % 64) ∷ (0x80 + v % 64) ∷ [])
unfolding put_utf
put_three v h k s = ground (arith, or_e0 (v / 4096), or_80 (v / 64 % 64), or_80 (v % 64))

pub put_four :
    (v : ℕ)
    → 0xffff < v
    → v ≤ 0x10ffff
    → put_utf v
      ≡ some (
          (0xf0 + v / 262144)
          ∷ (0x80 + v / 4096 % 64)
          ∷ (0x80 + v / 64 % 64)
          ∷ (0x80 + v % 64)
          ∷ [])
unfolding put_utf
put_four v h k =
    ground (arith, or_f0 (v / 262144), or_80 (v / 4096 % 64), or_80 (v / 64 % 64), or_80 (v % 64))

-- Digits of a number in the positional form.
pub Form-put : {v : ℕ} {bs : List ℕ} → Form v bs → put_utf v ≡ some bs
Form-put {v} (one le e) = rw e (put_one v le)
Form-put {v} (two a b la lb gt e f) = ground (arith, put_two v)
Form-put {v} (three a b c la lb lc gt s e f) = ground (arith, put_three v gt)
Form-put {v} (four a b c d la lb lc ld gt le e f) = ground (arith, put_four v gt le)

pub put-none : (v : ℕ) → ¬ IsScalar v → v < 2 ^ 32 → put_utf v ≡ none
unfolding put_utf
put-none v h k = ground arith

get_two :
    (a b : ℕ) (rest : List ℕ)
    → a < 32
    → b < 64
    → 0x7f < a * 64 + b
    → get_utf ((0xc0 + a) ∷ (0x80 + b) ∷ rest) ≡ some (a * 64 + b, rest)
unfolding get_utf
get_two a b rest la lb gt = ground arith

get_three :
    (a b c : ℕ) (rest : List ℕ)
    → a < 16
    → b < 64
    → c < 64
    → 0x7ff < (a * 64 + b) * 64 + c
    → IsScalar ((a * 64 + b) * 64 + c)
    → get_utf ((0xe0 + a) ∷ (0x80 + b) ∷ (0x80 + c) ∷ rest) ≡ some ((a * 64 + b) * 64 + c, rest)
unfolding get_utf
get_three a b c rest la lb lc gt s = ground arith

get_four :
    (a b c d : ℕ) (rest : List ℕ)
    → a < 8
    → b < 64
    → c < 64
    → d < 64
    → 0xffff < ((a * 64 + b) * 64 + c) * 64 + d
    → ((a * 64 + b) * 64 + c) * 64 + d ≤ 0x10ffff
    → get_utf ((0xf0 + a) ∷ (0x80 + b) ∷ (0x80 + c) ∷ (0x80 + d) ∷ rest)
      ≡ some (((a * 64 + b) * 64 + c) * 64 + d, rest)
unfolding get_utf
get_four a b c d rest la lb lc ld gt le = ground arith

get_one : (v : ℕ) (rest : List ℕ) → v ≤ 0x7f → get_utf (v ∷ rest) ≡ some (v, rest)
unfolding get_utf
get_one v rest h = ground arith

pub Form-get :
    {v : ℕ} {bs : List ℕ} (rest : List ℕ) → Form v bs → get_utf (bs ++ rest) ≡ some (v, rest)
Form-get rest (one le e) = rw e (get_one _ rest le)
Form-get rest (two a b la lb gt e f) = ground (arith, get_two a b rest)
Form-get rest (three a b c la lb lc gt s e f) =
    rw (f, e) (get_three a b c rest la lb lc (omega arith) (rw e at s))
Form-get rest (four a b c d la lb lc ld gt le e f) =
    rw (f, e) (get_four a b c d rest la lb lc ld (omega arith) (omega arith))

module _ {v : ℕ} {rest : List ℕ} (not_invalid : v ≢ invalid_rune) where
  pub get_one-inv :
      (c : ℕ) (p : List ℕ)
      → c ≤ 0xbf
      → get_utf (c ∷ p) ≡ some (v, rest)
      → Form v (c ∷ []) × (p ≡ rest)
  unfolding get_utf
  get_one-inv c p h g = (one (ground arith) (ground arith), ground arith)

  pub get_two-inv :
      (c b : ℕ) (p : List ℕ)
      → 0xbf < c
      → c ≤ 0xdf
      → b < 256
      → get_utf (c ∷ b ∷ p) ≡ some (v, rest)
      → Form v (c ∷ b ∷ []) × (p ≡ rest)
  unfolding get_utf
  get_two-inv c b p h k l g = (
    two (c - 0xc0) (b - 0x80) (ground arith) (ground arith) (ground arith) (ground arith)
        (ground arith),
    ground arith,
  )

  pub get_three-inv :
      (c b d : ℕ) (p : List ℕ)
      → 0xdf < c
      → c ≤ 0xef
      → b < 256
      → d < 256
      → get_utf (c ∷ b ∷ d ∷ p) ≡ some (v, rest)
      → Form v (c ∷ b ∷ d ∷ []) × (p ≡ rest)
  unfolding get_utf
  get_three-inv c b d p h k l m g = (
    three (c - 0xe0) (b - 0x80) (d - 0x80) (omega arith) (ground arith) (ground arith)
        (ground arith) (ground arith) (ground arith) (ground arith),
    ground arith,
  )

  pub get_four-inv :
      (c b d e : ℕ) (p : List ℕ)
      → 0xef < c
      → c ≤ 0xf7
      → b < 256
      → d < 256
      → e < 256
      → get_utf (c ∷ b ∷ d ∷ e ∷ p) ≡ some (v, rest)
      → Form v (c ∷ b ∷ d ∷ e ∷ []) × (p ≡ rest)
  unfolding get_utf
  get_four-inv c b d e p h k l m n g = (
    four (c - 0xf0) (b - 0x80) (d - 0x80) (e - 0x80) (omega arith) (ground arith) (ground arith)
        (ground arith) (ground arith) (ground arith) (ground arith) (ground arith),
    ground arith,
  )
