-- ===== src/Utf/Call.antt =====
-- `get_utf_call` of server/utf.c, which reads from a client that supplies one byte at a time.
use nu_moo.Base.{
  ℕ, ◌+◌, ◌*◌, ◌%◌, ◌≤◌, ◌<◌, ◌≡◌, Bool, ◌&&◌, ◌||◌, List, [], ◌∷◌, ◌++◌, arith, if◌then◌else◌,
}
use nu_moo.Base.Int.{ℤ, pos, negsuc, pos_part, ◌+ℤ◌, ◌-ℤ◌, ltb_ℤ, leb_ℤ, ◌==ℤ◌}
use nu_moo.Utf.Decode.{invalid_rune}
use nu_moo.Utf.Form.{Form, one, two, three, four, IsScalar}

abbrev pub eof : ℤ
eof = negsuc 0

-- `v << 6`, on a negative value as a product.
abbrev pub shift_six : ℤ → ℤ
shift_six (pos n) = pos (n * 64)
shift_six (negsuc n) = negsuc (n * 64 + 63)

module _ {D : Type 0} (c_getch : D → ℤ × D) where
  -- The jump to `bad_cont` with the byte `cc`, or the values of `v` and of the client.
  pub data Call : Type 0 where
    bad_cont : ℤ → D → Call
    next : ℤ → D → Call

  abbrev pub call_then : Call → (ℤ → D → Call) → Call
  call_then (bad_cont cc d) k = bad_cont cc d
  call_then (next v d) k = k v d

  -- The macro GET_CONT. Here `c` is an int, so a byte below 0x80 becomes a negative number.
  unfoldable pub call_cont : ℤ → D → Call
  call_cont v d =
      let (cc, d') = c_getch d in
      let c = cc -ℤ pos 0x80 in
      if ltb_ℤ (pos 0x3f) c then bad_cont cc d' else next (shift_six v +ℤ c) d'

  abbrev pub call_reject : Bool → ℤ → D → Call
  call_reject bad v d = next (if bad then pos invalid_rune else v) d

  unfoldable pub call_lead : ℤ → D → Call
  call_lead c d =
      if leb_ℤ c (pos 0x7f)
      then next c d
      else if leb_ℤ c (pos 0xbf)
      then next (pos invalid_rune) d
      else if leb_ℤ c (pos 0xdf)
      then call_then (call_cont (pos (pos_part c % 32)) d)
          (λ v d'. call_reject (leb_ℤ v (pos 0x7f)) v d')
      else if leb_ℤ c (pos 0xef)
      then call_then (call_then (call_cont (pos (pos_part c % 16)) d) call_cont) (λ v d'.
        call_reject (leb_ℤ v (pos 0x7ff) || (leb_ℤ (pos 0xd800) v && leb_ℤ v (pos 0xdfff))) v d')
      else if leb_ℤ c (pos 0xf7)
      then call_then
          (call_then (call_then (call_cont (pos (pos_part c % 8)) d) call_cont) call_cont)
          (λ v d'. call_reject (leb_ℤ v (pos 0xffff) || ltb_ℤ (pos 0x10ffff) v) v d')
      else next (pos invalid_rune) d

  -- The result, the new value of `*state`, and the client.
  abbrev pub call_finish : Call → ℤ × ℤ × D
  call_finish (bad_cont cc d) = (pos invalid_rune, cc, d)
  call_finish (next v d) = (v, negsuc 0, d)

  unfoldable pub get_utf_call : D → ℤ → ℤ × ℤ × D
  get_utf_call d state =
      if state ==ℤ negsuc 0
      then (let (c, d') = c_getch d in
          if c ==ℤ eof then (eof, state, d') else call_finish (call_lead c d'))
      else call_finish (call_lead state d)

-- A client that hands out the bytes of a list, then EOF.
abbrev pub list_getch : List ℕ → ℤ × List ℕ
list_getch [] = (eof, [])
list_getch (b ∷ p) = (pos b, p)

abbrev pub from_list : List ℕ → ℤ → ℤ × ℤ × List ℕ
from_list = get_utf_call list_getch

-- A continuation byte, and a byte below 0x80 in its place.
cont_byte :
    (v b : ℕ) (rest : List ℕ)
    → b < 64
    → call_cont list_getch (pos v) ((0x80 + b) ∷ rest) ≡ next (pos (v * 64 + b)) rest
unfolding call_cont
cont_byte v b rest lb = ground arith

call_two :
    (a b : ℕ) (rest : List ℕ)
    → a < 32
    → b < 64
    → 0x7f < a * 64 + b
    → from_list ((0xc0 + a) ∷ (0x80 + b) ∷ rest) eof ≡ (pos (a * 64 + b), eof, rest)
unfolding get_utf_call call_lead
call_two a b rest la lb gt = ground (arith, cont_byte ((0xc0 + a) % 32) b rest)

call_one : (v : ℕ) (rest : List ℕ) → v ≤ 0x7f → from_list (v ∷ rest) eof ≡ (pos v, eof, rest)
unfolding get_utf_call call_lead
call_one v rest h = ground arith

call_three :
    (a b c : ℕ) (rest : List ℕ)
    → a < 16
    → b < 64
    → c < 64
    → 0x7ff < (a * 64 + b) * 64 + c
    → IsScalar ((a * 64 + b) * 64 + c)
    → from_list ((0xe0 + a) ∷ (0x80 + b) ∷ (0x80 + c) ∷ rest) eof
      ≡ (pos ((a * 64 + b) * 64 + c), eof, rest)
unfolding get_utf_call call_lead
call_three a b c rest la lb lc gt s = ground (
  arith,
  cont_byte ((0xe0 + a) % 16) b ((0x80 + c) ∷ rest),
  cont_byte ((0xe0 + a) % 16 * 64 + b) c rest,
)

call_four :
    (a b c d : ℕ) (rest : List ℕ)
    → a < 8
    → b < 64
    → c < 64
    → d < 64
    → 0xffff < ((a * 64 + b) * 64 + c) * 64 + d
    → ((a * 64 + b) * 64 + c) * 64 + d ≤ 0x10ffff
    → from_list ((0xf0 + a) ∷ (0x80 + b) ∷ (0x80 + c) ∷ (0x80 + d) ∷ rest) eof
      ≡ (pos (((a * 64 + b) * 64 + c) * 64 + d), eof, rest)
unfolding get_utf_call call_lead
call_four a b c d rest la lb lc ld gt le = ground (
  arith,
  cont_byte ((0xf0 + a) % 8) b ((0x80 + c) ∷ (0x80 + d) ∷ rest),
  cont_byte ((0xf0 + a) % 8 * 64 + b) c ((0x80 + d) ∷ rest),
  cont_byte (((0xf0 + a) % 8 * 64 + b) * 64 + c) d rest,
)

-- With no byte pushed back, `get_utf_call` reads a well-formed character whole: it returns the
-- code point, pushes nothing back and leaves the client at the byte behind the form.
pub get_utf_call-Form :
    {v : ℕ} {bs : List ℕ} (rest : List ℕ)
    → Form v bs
    → from_list (bs ++ rest) eof ≡ (pos v, eof, rest)
get_utf_call-Form rest (one le e) = rw e (call_one _ rest le)
get_utf_call-Form rest (two a b la lb gt e f) = rw (f, e) (call_two a b rest la lb (omega arith))
get_utf_call-Form rest (three a b c la lb lc gt s e f) =
    rw (f, e) (call_three a b c rest la lb lc (omega arith) (rw e at s))
get_utf_call-Form rest (four a b c d la lb lc ld gt le e f) =
    rw (f, e) (call_four a b c d rest la lb lc ld (omega arith) (omega arith))
