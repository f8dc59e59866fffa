-- ===== src/Utf/Text.antt =====
-- Texts in UTF-8 and what `strlen_utf`, `skip_utf` and `clearance_utf` of server/utf.c make of
-- them.
use nu_moo.Base.{
  ℕ, zero, suc, ◌+◌, ◌≤◌, ◌<◌, ◌≡◌, ap, ◌∙◌, ◌≢◌, some, List, [], ◌∷◌, ◌++◌, arith, length,
  length-append,
}
use mathlib.Core.List.{append_assoc}
use nu_moo.Base.Int.{ℤ, pos, negsuc, ◌-ℤ◌}
use nu_moo.Db.Objects.{fuel}
use nu_moo.Utf.Decode.{get_utf}
use nu_moo.Utf.Form.{Form, one, two, three, four, Form-get}
use nu_moo.Utf.Length.{strlen_loop, strlen_utf, skip_loop, skip_utf, clearance_utf}

-- `bs` is the text of the code points `vs`, none of which is NUL.
pub data Text : List ℕ → List ℕ → Type 0 where
  nil : Text [] []
  cons :
      {v : ℕ} {vs bs form : List ℕ} → Form v form → 0 < v → Text vs bs → Text (v ∷ vs) (form ++ bs)

-- The bytes of a C string in memory.
abbrev pub terminated : List ℕ → List ℕ
terminated s = s ++ 0 ∷ []

-- The leading byte tells the length, and is not NUL if the code point is not.
pub Form-shape :
    {v : ℕ} {bs : List ℕ}
    → Form v bs
    → 0 < v
    → (c : ℕ) × (p : List ℕ) × (bs ≡ c ∷ p) × (0 < c) × (clearance_utf c ≡ length bs)
unfolding clearance_utf
Form-shape {v} (one le e) h = (v, [], e, h, rw e (ground arith))
Form-shape (two a b la lb gt e f) h = (0xc0 + a, _, f, omega arith, rw f (ground arith))
Form-shape (three a b c la lb lc gt s e f) h = (0xe0 + a, _, f, omega arith, rw f (ground arith))
Form-shape (four a b c d la lb lc ld gt le e f) h =
    (0xf0 + a, _, f, omega arith, rw f (ground arith))

Form-length : {v : ℕ} {bs : List ℕ} → Form v bs → 0 < v → 0 < length bs
Form-length f h = let (c, p, e, pos_c, len) = Form-shape f h in rw e (omega arith)

Text-length : {vs bs : List ℕ} → Text vs bs → length vs ≤ length bs
Text-length nil = omega arith
Text-length (cons {bs} {form} f h t) =
    rw length-append (omega (arith, Form-length f h, Text-length t))

-- What follows the first code point is the rest of the text.
get-cons :
    {v : ℕ} {form : List ℕ} (bs : List ℕ)
    → Form v form
    → get_utf (terminated (form ++ bs)) ≡ some (v, terminated bs)
get-cons {form} bs f = rw append_assoc (Form-get (terminated bs) f)

pub strlen_step :
    (k i v : ℕ) (s rest : List ℕ)
    → get_utf s ≡ some (v, rest)
    → 0 < v
    → strlen_loop (suc k) s i ≡ strlen_loop k rest (i + 1)
unfolding strlen_loop
strlen_step k i v s rest e h = ground arith

pub strlen_end : (k i : ℕ) → strlen_loop (suc k) (terminated []) i ≡ some i
unfolding strlen_loop get_utf
strlen_end k i = ground arith

strlen_loop-Text :
    (k i : ℕ) {vs bs : List ℕ}
    → Text vs bs
    → length vs < k
    → strlen_loop k (terminated bs) i ≡ some (i + length vs)
strlen_loop-Text zero i t fuel = absurd (omega arith)
strlen_loop-Text (suc k) i nil fuel = ground (arith, strlen_end k i)
strlen_loop-Text (suc k) i (cons {v} {vs} {bs} f h t) fuel =
    strlen_step k i v _ (terminated bs) (get-cons bs f) h
    ∙ strlen_loop-Text k (i + 1) t (omega arith)
    ∙ ap some (omega arith)

-- The length of a UTF-8 text, as `strlen_utf` counts it, is the number of its code points.
pub strlen_utf-Text : {vs bs : List ℕ} → Text vs bs → strlen_utf (terminated bs) ≡ some (length vs)
unfolding strlen_utf
strlen_utf-Text {vs} {bs} t =
    strlen_loop-Text (length (terminated bs)) 0 t
      (omega (arith, Text-length t, length-append bs (0 ∷ [])))
    ∙ ap some (omega arith)

pub skip_step :
    (k v : ℕ) (i : ℤ) (b : ℕ) (p rest : List ℕ)
    → get_utf (b ∷ p) ≡ some (v, rest)
    → 0 < b
    → i ≢ pos 0
    → skip_loop (suc k) (b ∷ p) i ≡ skip_loop k rest (i -ℤ pos 1)
unfolding skip_loop
skip_step k v i b p rest e h ne = ground arith

pub skip_stop : (k b : ℕ) (p : List ℕ) → skip_loop (suc k) (b ∷ p) (pos 0) ≡ some (b ∷ p)
unfolding skip_loop
skip_stop k b p = ground arith

pub skip_end : (k : ℕ) (i : ℤ) → skip_loop (suc k) (terminated []) i ≡ some (terminated [])
unfolding skip_loop
skip_end k i = ground arith

-- A buffer that holds a terminated string has a first byte.
skip_none : (k : ℕ) (s : List ℕ) → skip_loop (suc k) (terminated s) (pos 0) ≡ some (terminated s)
skip_none k [] = skip_stop k 0 []
skip_none k (b ∷ s) = skip_stop k b (terminated s)

skip-Form :
    (k : ℕ) (i : ℤ) {v : ℕ} {form : List ℕ} (rest : List ℕ)
    → Form v form
    → 0 < v
    → i ≢ pos 0
    → skip_loop (suc k) (terminated (form ++ rest)) i ≡ skip_loop k (terminated rest) (i -ℤ pos 1)
skip-Form k i {v} {form} rest f h ne =
    let (c, p, e, pos_c, len) = Form-shape f h in
    rw e (
      skip_step k v i c (terminated (p ++ rest)) (terminated rest) (rw e at (get-cons rest f)) pos_c
        ne)

-- one character less to skip
less_one : (n : ℕ) → pos (suc n) -ℤ pos 1 ≡ pos n
less_one n = ground arith

skip_loop-Text :
    (k : ℕ) {us bs : List ℕ} (rest : List ℕ)
    → Text us bs
    → length us < k
    → skip_loop k (terminated (bs ++ rest)) (pos (length us)) ≡ some (terminated rest)
skip_loop-Text zero rest t fuel = absurd (omega arith)
skip_loop-Text (suc k) rest nil fuel = skip_none k rest
skip_loop-Text (suc k) rest (cons {v} {vs} {bs} {form} f h t) fuel =
    rw (append_assoc form bs rest) (
      skip-Form k (pos (suc (length vs))) (bs ++ rest) f h (λ e. cc e)
      ∙ ap (skip_loop k (terminated (bs ++ rest))) (less_one (length vs))
      ∙ skip_loop-Text k rest t (omega arith))

-- Skipping as many characters as a text has ends behind it: the result is its length in bytes,
-- whatever text follows.
pub skip_utf-Text :
    {us bs : List ℕ} (rest : List ℕ)
    → Text us bs
    → skip_utf (terminated (bs ++ rest)) (pos (length us)) ≡ some (length bs)
unfolding skip_utf
skip_utf-Text {us} {bs} rest t =
    rw
      (skip_loop-Text (length (terminated (bs ++ rest))) rest t
        (omega (arith, Text-length t, length-append (bs ++ rest) (0 ∷ []), length-append bs rest)))
      (ap some (
        omega (
          arith,
          length-append (bs ++ rest) (0 ∷ []),
          length-append bs rest,
          length-append rest (0 ∷ []),
        )))

skip_loop_all :
    (k n : ℕ) {vs bs : List ℕ}
    → Text vs bs
    → length vs < k
    → skip_loop k (terminated bs) (negsuc n) ≡ some (terminated [])
skip_loop_all zero n t fuel = absurd (omega arith)
skip_loop_all (suc k) n nil fuel = skip_end k (negsuc n)
skip_loop_all (suc k) n (cons {v} {vs} {bs} {form} f h t) fuel =
    skip-Form k (negsuc n) bs f h (λ e. cc e)
    ∙ ap (skip_loop k (terminated bs)) (one_less n)
    ∙ skip_loop_all k (suc n) t (omega arith)
  where
    one_less : (n : ℕ) → negsuc n -ℤ pos 1 ≡ negsuc (suc n)
    one_less n = ground arith

-- A negative count skips all of a text.
pub skip_utf_all :
    (n : ℕ) {vs bs : List ℕ} → Text vs bs → skip_utf (terminated bs) (negsuc n) ≡ some (length bs)
unfolding skip_utf
skip_utf_all n {vs} {bs} t =
    rw
      (skip_loop_all (length (terminated bs)) n t
        (omega (arith, Text-length t, length-append bs (0 ∷ []))))
      (ap some (omega (arith, length-append bs (0 ∷ []))))
