-- ===== src/Utf/Decode.antt =====
-- `get_utf` of server/utf.c. A pointer into a buffer is the list of the bytes from it to the end
-- of the buffer, the terminating NUL included; a read past the end is a fault, `none`.
use nu_moo.Base.{
  ℕ, ◌+◌, ◌-◌, ◌*◌, ◌%◌, Bool, Option, none, some, List, [], ◌∷◌, ltb, leb, if◌then◌else◌, ◌&&◌,
  ◌||◌,
}

abbrev pub invalid_rune : ℕ
invalid_rune = 0xfffd

-- How far a decoding has come: a read outside the buffer, the jump to `bad_cont` with `p`, or the
-- values of `v` and `p`.
pub data Scan : Type 0 where
  fault : Scan
  bad_cont : List ℕ → Scan
  next : ℕ → List ℕ → Scan

abbrev pub and_then : Scan → (ℕ → List ℕ → Scan) → Scan
and_then fault k = fault
and_then (bad_cont p) k = bad_cont p
and_then (next v p) k = k v p

-- The macro GET_CONT: `c` is an unsigned char.
unfoldable pub get_cont : ℕ → List ℕ → Scan
get_cont v [] = fault
get_cont v (b ∷ p) =
    let c = (b + 256 - 0x80) % 256 in if ltb 0x3f c then bad_cont (b ∷ p) else next (v * 64 + c) p

abbrev pub reject_if : Bool → ℕ → List ℕ → Scan
reject_if bad v p = next (if bad then invalid_rune else v) p

unfoldable pub get_lead : ℕ → List ℕ → Scan
unfolding get_cont
get_lead c p =
    if leb c 0x7f
    then next c p
    else if leb c 0xbf
    then next invalid_rune p
    else if leb c 0xdf
    then and_then (get_cont (c % 32) p) (λ v q. reject_if (leb v 0x7f) v q)
    else if leb c 0xef
    then and_then (and_then (get_cont (c % 16) p) get_cont)
        (λ v q. reject_if (leb v 0x7ff || (leb 0xd800 v && leb v 0xdfff)) v q)
    else if leb c 0xf7
    then and_then (and_then (and_then (get_cont (c % 8) p) get_cont) get_cont)
        (λ v q. reject_if (leb v 0xffff || ltb 0x10ffff v) v q)
    else next invalid_rune p

abbrev pub finish : Scan → Option (ℕ × List ℕ)
finish fault = none
finish (bad_cont p) = some (invalid_rune, p)
finish (next v p) = some (v, p)

-- The rune and the new value of `*pp`.
unfoldable pub get_utf : List ℕ → Option (ℕ × List ℕ)
unfolding get_lead
get_utf [] = none
get_utf (c ∷ p) = finish (get_lead c p)
