-- ===== src/Utf/Bounds.antt =====
-- `get_utf`, `strlen_utf` and `skip_utf` of server/utf.c on any C string, well formed or not.
use nu_moo.Base.{
  ℕ, zero, suc, ◌+◌, ◌-◌, ◌%◌, ◌≤◌, ◌<◌, ◌≡◌, refl, ◌∙◌, inl, inr, some, List, [], ◌∷◌, ◌++◌, arith,
  ltb, leb, Bool-cases, length, length-append, All,
}
use nu_moo.Base.Int.{ℤ, pos, ◌-ℤ◌, ◌==ℤ◌, ==ℤ_iff}
use nu_moo.Utf.Decode.{Scan, fault, bad_cont, next, and_then, get_cont, get_lead, finish, get_utf}
use nu_moo.Utf.Text.{terminated, strlen_step, strlen_end, skip_step, skip_stop, skip_end}
use nu_moo.Utf.Codec.{Bytes, get_utf-Form}
use nu_moo.Utf.Form.{Form, one, two, three, four}
use nu_moo.Utf.Length.{strlen_loop, strlen_utf, skip_loop, skip_utf}

-- A C string's characters: bytes other than NUL.
abbrev pub IsText : List ℕ → Type 0
IsText = All (λ b. (0 < b) × (b < 256))

-- `q` points into a string, at most `n` bytes before its NUL.
abbrev pub Within : ℕ → List ℕ → Type 0
Within n q = (s : List ℕ) × (q ≡ terminated s) × IsText s × (length s ≤ n)

abbrev Stays : ℕ → Scan → Type 0
Stays n fault = ⊥
Stays n (bad_cont q) = Within n q
Stays n (next v q) = Within n q

and_then-Stays :
    (n : ℕ) (m : Scan) (k : ℕ → List ℕ → Scan)
    → Stays n m
    → ((v : ℕ) (q : List ℕ) → Within n q → Stays n (k v q))
    → Stays n (and_then m k)
and_then-Stays n fault k h step = h
and_then-Stays n (bad_cont q) k h step = h
and_then-Stays n (next v q) k h step = step v q h

-- The macro never steps over the NUL.
cont-Stays : (n v : ℕ) (s : List ℕ) → IsText s → length s ≤ n → Stays n (get_cont v (terminated s))
unfolding get_cont
cont-Stays n v [] t le = ([], refl, tt, le)
cont-Stays n v (b ∷ s) t le = elim (Bool-cases (ltb 0x3f ((b + 256 - 0x80) % 256))) [
  | inl bad ↦ rw bad (b ∷ s, refl, t, le)
  | inr good ↦ rw good (s, refl, t.1, omega arith)
]

get_cont-Stays : (n v : ℕ) (q : List ℕ) → Within n q → Stays n (get_cont v q)
get_cont-Stays n v q (s, e, t, le) = rw e (cont-Stays n v s t le)

lead-Stays : (c : ℕ) (s : List ℕ) → IsText s → Stays (length s) (get_lead c (terminated s))
unfolding get_lead
lead-Stays c s t = elim (Bool-cases (leb c 0x7f)) [
  | inl a ↦ rw a here
  | inr a ↦ rw a (elim (Bool-cases (leb c 0xbf)) [
    | inl b ↦ rw b here
    | inr b ↦ rw b (elim (Bool-cases (leb c 0xdf)) [
      | inl d ↦ rw d (and_then-Stays n _ _ (get_cont-Stays n _ _ here) (λ v q w. w))
      | inr d ↦ rw d (elim (Bool-cases (leb c 0xef)) [
        | inl e ↦ rw e (and_then-Stays n _ _ (two_more (c % 16)) (λ v q w. w))
        | inr e ↦ rw e (elim (Bool-cases (leb c 0xf7)) [
          | inl f ↦ rw f (
              and_then-Stays n _ _ (and_then-Stays n _ _ (two_more (c % 8)) (get_cont-Stays n))
                (λ v q w. w))
          | inr f ↦ rw f here
        ])
      ])
    ])
  ])
]
  where
    n : ℕ
    n = length s

    here : Within n (terminated s)
    here = (s, refl, t, omega arith)

    two_more : (v : ℕ) → Stays n (and_then (get_cont v (terminated s)) get_cont)
    two_more v = and_then-Stays n _ _ (get_cont-Stays n v _ here) (get_cont-Stays n)

finish-Stays :
    (n : ℕ) (m : Scan) → Stays n m → (v : ℕ) × (q : List ℕ) × (finish m ≡ some (v, q)) × Within n q
finish-Stays n fault h = absurd h
finish-Stays n (bad_cont q) h = (_, q, refl, h)
finish-Stays n (next v q) h = (v, q, refl, h)

-- On a C string that is not empty, `get_utf` reads nothing beyond the NUL, moves the pointer on by a
-- byte at least, and leaves it in the string or at its NUL.
pub get_utf-Within :
    (c : ℕ) (s : List ℕ)
    → IsText (c ∷ s)
    → (v : ℕ) × (q : List ℕ) × (get_utf (terminated (c ∷ s)) ≡ some (v, q)) × Within (length s) q
unfolding get_utf
get_utf-Within c s t = finish-Stays (length s) _ (lead-Stays c s t.1)

terminated-Bytes : (s : List ℕ) → IsText s → Bytes (terminated s)
terminated-Bytes [] t = omega arith
terminated-Bytes (b ∷ s) t = (t.0.1, terminated-Bytes s t.1)

-- Only NUL decodes to 0.
Form-nul : {c v : ℕ} {p bs : List ℕ} (q : List ℕ) → Form v bs → (c ∷ p) ≡ bs ++ q → v ≡ 0 → c ≡ 0
Form-nul q (one le f) e z = ground arith
Form-nul q (two a b la lb gt e' f) e z = absurd (omega arith)
Form-nul q (three a b c la lb lc gt s e' f) e z = absurd (omega arith)
Form-nul q (four a b c d la lb lc ld gt le e' f) e z = absurd (omega arith)

get_utf-pos :
    (c : ℕ) (s : List ℕ) {v : ℕ} {q : List ℕ}
    → IsText (c ∷ s)
    → get_utf (terminated (c ∷ s)) ≡ some (v, q)
    → 0 < v
get_utf-pos c s {v = zero} {q} t h =
    let (bs, form, split) =
      get_utf-Form (terminated (c ∷ s)) (terminated-Bytes (c ∷ s) t) h (omega arith) in
    let c0 : c ≡ 0 = Form-nul q form split refl in absurd (omega (arith, t.0.0))
get_utf-pos c s {v = suc v} t h = omega arith

strlen_loop-total :
    (k i : ℕ) (s : List ℕ)
    → IsText s
    → length s < k
    → (n : ℕ) × (strlen_loop k (terminated s) i ≡ some n) × (n ≤ i + length s)
strlen_loop-total zero i s t fuel = absurd (omega arith)
strlen_loop-total (suc k) i [] t fuel = (i, strlen_end k i, omega arith)
strlen_loop-total (suc k) i (c ∷ s) t fuel =
    let (v, q, e, (s', eq, t', le)) = get_utf-Within c s t in
    let (n, run, bound) = strlen_loop-total k (i + 1) s' t' (omega arith) in
    (n, strlen_step k i v (terminated (c ∷ s)) q e (get_utf-pos c s t e) ∙ rw eq run, omega arith)

-- On any C string `strlen_utf` ends, without a read behind the NUL, and counts at most as many
-- characters as there are bytes.
pub strlen_utf-total :
    (s : List ℕ) → IsText s → (n : ℕ) × (strlen_utf (terminated s) ≡ some n) × (n ≤ length s)
unfolding strlen_utf
strlen_utf-total s t =
    let (n, run, le) =
      strlen_loop-total (length (terminated s)) 0 s t (omega (arith, length-append s (0 ∷ []))) in
    (n, run, omega arith)

skip_loop-total :
    (k : ℕ) (i : ℤ) (s : List ℕ)
    → IsText s
    → length s < k
    → (s' : List ℕ) × (skip_loop k (terminated s) i ≡ some (terminated s')) × (length s' ≤ length s)
skip_loop-total zero i s t fuel = absurd (omega arith)
skip_loop-total (suc k) i [] t fuel = ([], skip_end k i, omega arith)
skip_loop-total (suc k) i (c ∷ s) t fuel = elim (Bool-cases (i ==ℤ pos 0)) [
  | inl z ↦ (c ∷ s, rw ((==ℤ_iff i (pos 0)).0 z) (skip_stop k c (terminated s)), omega arith)
  | inr more ↦
      let (v, q, e, (s', eq, t', le)) = get_utf-Within c s t in
      let (r, run, bound) = skip_loop-total k (i -ℤ pos 1) s' t' (omega arith) in
      (r, skip_step k v i c (terminated s) q e t.0.0 (ground arith) ∙ rw eq run, omega arith)
]

-- On any C string, and for any count, negative ones included, `skip_utf` ends without a read behind
-- the NUL, and its result is an offset within the string.
pub skip_utf-total :
    (s : List ℕ) (i : ℤ)
    → IsText s
    → (n : ℕ) × (skip_utf (terminated s) i ≡ some n) × (n ≤ length s)
unfolding skip_utf
skip_utf-total s i t =
    let (s', run, le) =
      skip_loop-total (length (terminated s)) i s t (omega (arith, length-append s (0 ∷ []))) in
    (
      length (terminated s) - length (terminated s'),
      rw run refl,
      omega (arith, length-append s (0 ∷ []), length-append s' (0 ∷ [])),
    )
