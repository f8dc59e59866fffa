-- ===== src/Utf/Encode.antt =====
-- `put_utf` of server/utf.c: the bytes it stores, or `none` where it returns -1.
use Prim.Native.Nat.{bit_or}
use nu_moo.Base.{
  ℕ, ◌+◌, ◌-◌, ◌/◌, ◌%◌, ◌^◌, ◌<◌, ◌≡◌, refl, Option, none, some, List, [], ◌∷◌, leb, if◌then◌else◌,
  ◌==◌, ==_iff, holds_below, holds_below_at, true,
}

-- `v` is the argument as an unsigned int; `v & 0x3f` is `v % 64`.
unfoldable pub put_utf : ℕ → Option (List ℕ)
put_utf v =
    if leb v 0x7f
    then some (v ∷ [])
    else if leb v 0x7ff
    then some (bit_or 0xc0 (v / 2 ^ 6) ∷ bit_or 0x80 (v % 64) ∷ [])
    else if leb v 0xffff
    then (if leb ((v + 2 ^ 32 - 0xd800) % 2 ^ 32) (0xdfff - 0xd800)
        then none
        else some
            (bit_or 0xe0 (v / 2 ^ 12) ∷ bit_or 0x80 (v / 2 ^ 6 % 64) ∷ bit_or 0x80 (v % 64) ∷ []))
    else if leb v 0x10ffff
    then some (
        bit_or 0xf0 (v / 2 ^ 18)
        ∷ bit_or 0x80 (v / 2 ^ 12 % 64)
        ∷ bit_or 0x80 (v / 2 ^ 6 % 64)
        ∷ bit_or 0x80 (v % 64)
        ∷ [])
    else none

or_80_table : holds_below (λ x. bit_or 0x80 x == 0x80 + x) 64 ≡ true
unfolding holds_below
or_80_table = refl

or_c0_table : holds_below (λ x. bit_or 0xc0 x == 0xc0 + x) 32 ≡ true
unfolding holds_below
or_c0_table = refl

or_e0_table : holds_below (λ x. bit_or 0xe0 x == 0xe0 + x) 16 ≡ true
unfolding holds_below
or_e0_table = refl

or_f0_table : holds_below (λ x. bit_or 0xf0 x == 0xf0 + x) 8 ≡ true
unfolding holds_below
or_f0_table = refl

pub or_80 : (x : ℕ) → x < 64 → bit_or 0x80 x ≡ 0x80 + x
or_80 x h = (==_iff _ _).0 (holds_below_at _ _ x h or_80_table)

pub or_c0 : (x : ℕ) → x < 32 → bit_or 0xc0 x ≡ 0xc0 + x
or_c0 x h = (==_iff _ _).0 (holds_below_at _ _ x h or_c0_table)

pub or_e0 : (x : ℕ) → x < 16 → bit_or 0xe0 x ≡ 0xe0 + x
or_e0 x h = (==_iff _ _).0 (holds_below_at _ _ x h or_e0_table)

pub or_f0 : (x : ℕ) → x < 8 → bit_or 0xf0 x ≡ 0xf0 + x
or_f0 x h = (==_iff _ _).0 (holds_below_at _ _ x h or_f0_table)
