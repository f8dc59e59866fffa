-- ===== src/Utf/Length.antt =====
-- `strlen_utf`, `skip_utf` and `clearance_utf` of server/utf.c, over buffers as in `Decode`.
use nu_moo.Base.{
  ◌>>=◌, ℕ, zero, suc, ◌+◌, ◌-◌, true, false, ◌||◌, Option, none, some, List, [], ◌∷◌, leb, ◌==◌,
  if◌then◌else◌, length,
}
use nu_moo.Base.Int.{ℤ, pos, ◌-ℤ◌, ◌==ℤ◌}
use nu_moo.Utf.Decode.{get_utf}

-- The loop of `strlen_utf` on fuel; a read outside the buffer and the end of the fuel are `none`.
unfoldable pub strlen_loop : ℕ → List ℕ → ℕ → Option ℕ
strlen_loop zero s i = none
strlen_loop (suc k) s i = elim (get_utf s) [
  | none ↦ none
  | some (v, rest) ↦ elim (v == 0) [ true ↦ some i | false ↦ strlen_loop k rest (i + 1) ]
]

-- Each round reads a byte at least, so the buffer's length is fuel enough.
unfoldable pub strlen_utf : List ℕ → Option ℕ
unfolding strlen_loop
strlen_utf s = strlen_loop (length s) s 0

-- The loop of `skip_utf`: where the pointer ends.
unfoldable pub skip_loop : ℕ → List ℕ → ℤ → Option (List ℕ)
skip_loop zero s i = none
skip_loop (suc k) [] i = none
skip_loop (suc k) (b ∷ p) i = elim (b == 0 || i ==ℤ pos 0) [
  | true ↦ some (b ∷ p)
  | false ↦ elim (get_utf (b ∷ p)) [ none ↦ none | some (v, rest) ↦ skip_loop k rest (i -ℤ pos 1) ]
]

-- `s - s0` in bytes.
unfoldable pub skip_utf : List ℕ → ℤ → Option ℕ
unfolding skip_loop
skip_utf s0 i = do s ← skip_loop (length s0) s0 i; some (length s0 - length s)

-- The length of the form that a byte leads.
unfoldable pub clearance_utf : ℕ → ℕ
clearance_utf c =
    if leb c 0x7f
    then 1
    else if leb c 0xbf
    then 1
    else if leb c 0xdf
    then 2
    else if leb c 0xef
    then 3
    else if leb c 0xf7
    then 4
    else 1
