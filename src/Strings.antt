-- ===== src/Strings.antt =====
-- String comparison and hashing of server/utils.c. A C string is the list of its bytes, none of
-- which is 0; behind the last one the source reads the NUL. The shortcut of the comparisons for one
-- and the same pointer is left out.
pub mod Case
pub mod Verb
pub mod Binary
use nu_moo.Base.{
  ℕ, zero, suc, ◌+◌, ◌-◌, ◌*◌, ◌/◌, ◌%◌, ◌^◌, Bool, true, false, ◌&&◌, List, [], ◌∷◌, ltb, leb,
  ◌==◌, if◌then◌else◌, length,
}
use nu_moo.Base.Int.{ℤ, pos, negsuc, ◌-ℤ◌}

-- The table `cmap`: upper-case ASCII letters go to lower case, any other byte to itself.
unfoldable pub cmap : ℕ → ℕ
cmap c = if leb 65 c && leb c 90 then c + 32 else c

-- The entries of the table are plain chars, which are signed on the usual machines: what an entry
-- is as an int.
abbrev pub as_char : ℕ → ℤ
as_char b = if ltb b 128 then pos b else negsuc (255 - b)

-- The difference of two entries of the table.
abbrev pub cmap_diff : ℕ → ℕ → ℤ
cmap_diff a b = as_char (cmap a) -ℤ as_char (cmap b)

-- The loop ends at the first difference, or behind both strings.
unfoldable pub mystrcasecmp : List ℕ → List ℕ → ℤ
mystrcasecmp [] [] = pos 0
mystrcasecmp [] (b ∷ t) = cmap_diff 0 b
mystrcasecmp (a ∷ s) [] = cmap_diff a 0
mystrcasecmp (a ∷ s) (b ∷ t) =
    let rest = mystrcasecmp s t in if cmap a == cmap b then rest else cmap_diff a b

unfoldable pub mystrncasecmp : List ℕ → List ℕ → ℕ → ℤ
mystrncasecmp s t zero = pos 0
mystrncasecmp [] [] (suc n) = pos 0
mystrncasecmp [] (b ∷ t) (suc n) = cmap_diff 0 b
mystrncasecmp (a ∷ s) [] (suc n) = cmap_diff a 0
mystrncasecmp (a ∷ s) (b ∷ t) (suc n) =
    let rest = mystrncasecmp s t n in if cmap a == cmap b then rest else cmap_diff a b

-- An entry of the table as an unsigned int.
abbrev pub as_unsigned : ℕ → ℕ
as_unsigned b = if ltb b 128 then b else 2 ^ 32 - 256 + b

-- `ans` is an unsigned int of 32 bits.
unfoldable pub hash_step : ℕ → ℕ → ℕ
hash_step ans c = (ans * 2 ^ 3 % 2 ^ 32 + ans / 2 ^ 28 + as_unsigned (cmap c)) % 2 ^ 32

unfoldable pub hash_loop : ℕ → List ℕ → ℕ
hash_loop ans [] = ans
hash_loop ans (c ∷ s) = hash_loop (hash_step ans c) s

unfoldable pub str_hash : List ℕ → ℕ
str_hash s = hash_loop 0 s

pub data Star : Type 0 where
  no_star inner end : Star

abbrev pub star? : ℕ → Bool
star? b = b == 42

abbrev pub space? : ℕ → Bool
space? b = b == 32

-- `!*v || *v == ' '`
abbrev pub at_end : List ℕ → Bool
at_end [] = true
at_end (b ∷ v) = space? b

-- The loop `while (1)` of `verbcasecmp`, with the skipping of stars in it: where the pattern, the
-- word and `star` stand after it.
unfoldable pub match_name : Star → List ℕ → List ℕ → List ℕ × List ℕ × Star
match_name star [] w = ([], w, star)
match_name star (b ∷ v) [] =
    let skip = match_name (if at_end v then end else inner) v [] in
    if star? b then skip else (b ∷ v, [], star)
match_name star (b ∷ v) (c ∷ w) =
    let skip = match_name (if at_end v then end else inner) v (c ∷ w) in
    let go_on = match_name star v w in
    if star? b
    then skip
    else if space? b
    then (b ∷ v, c ∷ w, star)
    else if cmap c == cmap b
    then go_on
    else (b ∷ v, c ∷ w, star)

-- The test behind the loop.
unfoldable pub accepts : List ℕ × List ℕ × Star → Bool
accepts (v, [], no_star) = at_end v
accepts (v, [], inner) = true
accepts (v, [], end) = true
accepts (v, c ∷ w, end) = true
accepts (v, c ∷ w, no_star) = false
accepts (v, c ∷ w, inner) = false

unfoldable pub skip_name : List ℕ → List ℕ
skip_name [] = []
skip_name (b ∷ v) = let rest = skip_name v in if space? b then b ∷ v else rest

unfoldable pub skip_spaces : List ℕ → List ℕ
skip_spaces [] = []
skip_spaces (b ∷ v) = let rest = skip_spaces v in if space? b then rest else b ∷ v

-- The loop over the names, on fuel.
unfoldable pub verb_loop : ℕ → List ℕ → List ℕ → Bool
verb_loop zero v word = false
verb_loop (suc k) [] word = false
verb_loop (suc k) (b ∷ v) word =
    let result = match_name no_star (b ∷ v) word in
    let rest = verb_loop k (skip_spaces (skip_name result.0)) word in
    if accepts result then true else rest

-- Each round leaves a shorter rest, so the length is fuel enough.
unfoldable pub verbcasecmp : List ℕ → List ℕ → Bool
verbcasecmp verb word = verb_loop (length verb) verb word
