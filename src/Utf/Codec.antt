-- ===== src/Utf/Codec.antt =====
-- `put_utf` and `get_utf` of server/utf.c against the table of UTF-8 forms.
use nu_moo.Base.{
  ℕ, ◌≡◌, Bool-cases, ◌≤◌, List, ◌<◌, All, leb, some, ◌^◌, inl, ◌↔◌, arith, ◌++◌, ◌≢◌, ◌/◌, inr,
  ◌%◌, ltb, ◌∷◌, [], ap,
}
use nu_moo.Utf.Decode.{get_utf, invalid_rune}
use nu_moo.Utf.Encode.{put_utf}
use nu_moo.Utf.Form.{
  Form, one, two, three, four, IsScalar, Form-put, Form-get, put_one, put_two, put_three, put_four,
  put-none, get_one-inv, get_two-inv, get_three-inv, get_four-inv,
}

-- Where a code point stands among the four forms.
data Range (v : ℕ) : Type 0 where
  in_one : v ≤ 0x7f → Range v
  in_two : 0x7f < v → v ≤ 0x7ff → Range v
  in_three : 0x7ff < v → v ≤ 0xffff → IsScalar v → Range v
  in_four : 0xffff < v → v ≤ 0x10ffff → Range v
  outside : ¬ IsScalar v → Range v

range : (v : ℕ) → Range v
range v = elim (Bool-cases (leb v 0x7f)) [
  | inl a ↦ in_one (ground arith)
  | inr a ↦ elim (Bool-cases (leb v 0x7ff)) [
    | inl b ↦ in_two (ground arith) (ground arith)
    | inr b ↦ elim (Bool-cases (ltb v 0xd800)) [
      | inl c ↦ in_three (ground arith) (ground arith) (ground arith)
      | inr c ↦ elim (Bool-cases (leb v 0xdfff)) [
        | inl d ↦ outside (ground arith)
        | inr d ↦ elim (Bool-cases (leb v 0xffff)) [
          | inl e ↦ in_three (ground arith) (ground arith) (ground arith)
          | inr e ↦ elim (Bool-cases (leb v 0x10ffff)) [
            | inl f ↦ in_four (ground arith) (ground arith)
            | inr f ↦ outside (ground arith)
          ]
        ]
      ]
    ]
  ]
]

put-Form : (v : ℕ) (bs : List ℕ) → v < 2 ^ 32 → put_utf v ≡ some bs → Form v bs
put-Form v bs word h = elim (range v) [
  | in_one a ↦ one a (cc (put_one v a))
  | in_two a b ↦
      two (v / 64) (v % 64) (omega arith) (omega arith) a (omega arith) (cc (put_two v a b))
  | in_three a b s ↦
      three (v / 4096) (v / 64 % 64) (v % 64) (omega arith) (omega arith) (omega arith) a s
        (omega arith) (cc (put_three v a b s))
  | in_four a b ↦
      four (v / 262144) (v / 4096 % 64) (v / 64 % 64) (v % 64) (omega arith) (omega arith)
        (omega arith) (omega arith) a b (omega arith) (cc (put_four v a b))
  | outside no_scalar ↦ cc (put-none v no_scalar word)
]

-- For an unsigned 32-bit argument, `put_utf` succeeds with the bytes `bs` exactly when `bs` is the
-- shortest UTF-8 form of the argument and the argument is a Unicode scalar value.
pub put_utf-iff-Form : (v : ℕ) (bs : List ℕ) → v < 2 ^ 32 → (put_utf v ≡ some bs) ↔ Form v bs
put_utf-iff-Form v bs word = (put-Form v bs word, Form-put)

-- What `put_utf` writes for a 32-bit argument, `get_utf` reads back, with the pointer behind it,
-- whatever follows.
pub get-put :
    (v : ℕ) (bs rest : List ℕ)
    → v < 2 ^ 32
    → put_utf v ≡ some bs
    → get_utf (bs ++ rest) ≡ some (v, rest)
get-put v bs rest word h = Form-get rest (put-Form v bs word h)

abbrev pub Bytes : List ℕ → Type 0
Bytes = All (λ b. b < 256)

-- The buffer begins with a form of `v`, and `rest` is what follows it.
abbrev Split : ℕ → List ℕ → List ℕ → Type 0
Split v rest buf = (bs : List ℕ) × Form v bs × (buf ≡ bs ++ rest)

module _ {v : ℕ} {rest : List ℕ} (valid : v ≢ invalid_rune) where
  from_one :
      (c : ℕ) (p : List ℕ) → c ≤ 0xbf → get_utf (c ∷ p) ≡ some (v, rest) → Split v rest (c ∷ p)
  from_one c p h g = let (form, e) = get_one-inv valid c p h g in (c ∷ [], form, ap (λ q. c ∷ q) e)

  from_two :
      (c : ℕ) (p : List ℕ)
      → 0xbf < c
      → c ≤ 0xdf
      → Bytes p
      → get_utf (c ∷ p) ≡ some (v, rest)
      → Split v rest (c ∷ p)
  unfolding get_utf
  from_two c [] h k l g = absurd (ground arith)
  from_two c (b ∷ p) h k l g =
      let (form, e) = get_two-inv valid c b p h k l.0 g in (c ∷ b ∷ [], form, ap (λ q. c ∷ b ∷ q) e)

  from_three :
      (c : ℕ) (p : List ℕ)
      → 0xdf < c
      → c ≤ 0xef
      → Bytes p
      → get_utf (c ∷ p) ≡ some (v, rest)
      → Split v rest (c ∷ p)
  unfolding get_utf
  from_three c [] h k l g = absurd (ground arith)
  from_three c (b ∷ []) h k l g = absurd (ground arith)
  from_three c (b ∷ d ∷ p) h k l g =
      let (form, e) = get_three-inv valid c b d p h k l.0 l.1.0 g in
      (c ∷ b ∷ d ∷ [], form, ap (λ q. c ∷ b ∷ d ∷ q) e)

  from_four :
      (c : ℕ) (p : List ℕ)
      → 0xef < c
      → c ≤ 0xf7
      → Bytes p
      → get_utf (c ∷ p) ≡ some (v, rest)
      → Split v rest (c ∷ p)
  unfolding get_utf
  from_four c [] h k l g = absurd (ground arith)
  from_four c (b ∷ []) h k l g = absurd (ground arith)
  from_four c (b ∷ d ∷ []) h k l g = absurd (ground arith)
  from_four c (b ∷ d ∷ e ∷ p) h k l g =
      let (form, eq) = get_four-inv valid c b d e p h k l.0 l.1.0 l.1.1.0 g in
      (c ∷ b ∷ d ∷ e ∷ [], form, ap (λ q. c ∷ b ∷ d ∷ e ∷ q) eq)

  not_from_five : (c : ℕ) (p : List ℕ) → 0xf7 < c → get_utf (c ∷ p) ≡ some (v, rest) → ⊥
  unfolding get_utf
  not_from_five c p h g = ground arith

-- From bytes that `get_utf` decodes to a value other than the replacement character, the shortest
-- form of that value is what was read, and the pointer stands behind it. So overlong forms,
-- surrogates and values above 0x10ffff are never accepted.
pub get_utf-Form :
    (buf : List ℕ) {v : ℕ} {rest : List ℕ}
    → Bytes buf
    → get_utf buf ≡ some (v, rest)
    → v ≢ invalid_rune
    → (bs : List ℕ) × Form v bs × (buf ≡ bs ++ rest)
unfolding get_utf
get_utf-Form [] bytes h valid = cc
get_utf-Form (c ∷ p) bytes h valid = elim (Bool-cases (leb c 0xbf)) [
  | inl a ↦ from_one valid c p (ground arith) h
  | inr a ↦ elim (Bool-cases (leb c 0xdf)) [
    | inl b ↦ from_two valid c p (ground arith) (ground arith) bytes.1 h
    | inr b ↦ elim (Bool-cases (leb c 0xef)) [
      | inl d ↦ from_three valid c p (ground arith) (ground arith) bytes.1 h
      | inr d ↦ elim (Bool-cases (leb c 0xf7)) [
        | inl e ↦ from_four valid c p (ground arith) (ground arith) bytes.1 h
        | inr e ↦ absurd (not_from_five valid c p (ground arith) h)
      ]
    ]
  ]
]
