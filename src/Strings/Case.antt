-- ===== src/Strings/Case.antt =====
-- Comparison without regard to case, and the hash that goes with it (server/utils.c).
use nu_moo.Base.{
  ℕ, zero, suc, ◌+◌, ◌^◌, ◌≤◌, ◌<◌, ◌≡◌, refl, ap, ◌∙◌, ◌≢◌, ◌↔◌, ◌⊎◌, inl, inr, List, [], ◌∷◌, map,
  arith, ◌==◌, if◌then◌else◌, ==_iff, Bool-cases, take, All,
}
use nu_moo.Base.Int.{ℤ, pos, ◌-ℤ◌}
use nu_moo.Strings.{
  as_char, cmap_diff, cmap, mystrcasecmp, mystrncasecmp, hash_step, hash_loop, str_hash,
}

-- The bytes of a C string.
abbrev pub NonNul : List ℕ → Type 0
NonNul = All (λ b. (0 < b) × (b < 256))

-- The same letters, up to case.
infix 4 ◌≈◌
abbrev pub ◌≈◌ : List ℕ → List ℕ → Type 0
s ≈ t = map cmap s ≡ map cmap t

cmap-pos : (b : ℕ) → 0 < b → 0 < cmap b
unfolding cmap
cmap-pos b h = ground arith

cmap-zero : cmap 0 ≡ 0
unfolding cmap
cmap-zero = refl

cmap-lt : (b : ℕ) → b < 256 → cmap b < 256
unfolding cmap
cmap-lt b h = ground arith

diff-ne-zero : (a b : ℕ) → a < 256 → b < 256 → a ≢ b → as_char a -ℤ as_char b ≢ pos 0
diff-ne-zero a b h k ne = ground arith

pub cons-eq_iff : (a b : ℕ) (s t : List ℕ) → ◌≡◌ {A = List ℕ} (a ∷ s) (b ∷ t) ↔ ((a ≡ b) × (s ≡ t))
cons-eq_iff a b s t = (λ e. (cc e, cc e), λ (e, f). cc (e, f))

nul_left : (b : ℕ) → 0 < b → b < 256 → cmap_diff 0 b ≢ pos 0
nul_left b h k =
    diff-ne-zero (cmap 0) (cmap b) (cmap-lt 0 (omega arith)) (cmap-lt b k)
      (omega (arith, cmap-zero, cmap-pos b h))

nul_right : (a : ℕ) → 0 < a → a < 256 → cmap_diff a 0 ≢ pos 0
nul_right a h k =
    diff-ne-zero (cmap a) (cmap 0) (cmap-lt a k) (cmap-lt 0 (omega arith))
      (omega (arith, cmap-zero, cmap-pos a h))

step_eq :
    (a b : ℕ) (d : ℤ)
    → a < 256
    → b < 256
    → (if cmap a == cmap b then d else cmap_diff a b) ≡ pos 0
    → (cmap a ≡ cmap b) × (d ≡ pos 0)
step_eq a b d h k e = elim (Bool-cases (cmap a == cmap b)) [
  | inl same ↦ ((==_iff (cmap a) (cmap b)).0 same, cc (e, same))
  | inr apart ↦
      absurd
        (diff-ne-zero (cmap a) (cmap b) (cmap-lt a h) (cmap-lt b k) (ground arith) (cc (e, apart)))
]

step_of_eq :
    (a b : ℕ) (d : ℤ) → cmap a ≡ cmap b → (if cmap a == cmap b then d else cmap_diff a b) ≡ d
step_of_eq a b d e = rw ((==_iff (cmap a) (cmap b)).1 e) refl

pub casecmp-eq : (s t : List ℕ) → NonNul s → NonNul t → mystrcasecmp s t ≡ pos 0 → s ≈ t
unfolding mystrcasecmp
casecmp-eq [] [] hs ht e = refl
casecmp-eq [] (b ∷ t) hs ht e = absurd (nul_left b ht.0.0 ht.0.1 e)
casecmp-eq (a ∷ s) [] hs ht e = absurd (nul_right a hs.0.0 hs.0.1 e)
casecmp-eq (a ∷ s) (b ∷ t) hs ht e =
    let (same, rest) = step_eq a b (mystrcasecmp s t) hs.0.1 ht.0.1 e in
    (cons-eq_iff (cmap a) (cmap b) (map cmap s) (map cmap t)).1
      (same, casecmp-eq s t hs.1 ht.1 rest)

pub casecmp_of_eq : (s t : List ℕ) → s ≈ t → mystrcasecmp s t ≡ pos 0
unfolding mystrcasecmp
casecmp_of_eq [] [] e = refl
casecmp_of_eq [] (b ∷ t) e = cc e
casecmp_of_eq (a ∷ s) [] e = cc e
casecmp_of_eq (a ∷ s) (b ∷ t) e =
    let (same, rest) = (cons-eq_iff (cmap a) (cmap b) (map cmap s) (map cmap t)).0 e in
    step_of_eq a b (mystrcasecmp s t) same ∙ casecmp_of_eq s t rest

-- The same byte, or a capital ASCII letter and the same letter in lower case.
abbrev pub Capital : ℕ → Type 0
Capital c = (65 ≤ c) × (c ≤ 90)

abbrev pub SameLetter : ℕ → ℕ → Type 0
SameLetter a b = (a ≡ b) ⊎ ((Capital a × (b ≡ a + 32)) ⊎ (Capital b × (a ≡ b + 32)))

-- Strings of one length that have the same letters.
abbrev pub EqualUpToCase : List ℕ → List ℕ → Type 0
EqualUpToCase [] [] = Unit
EqualUpToCase [] (b ∷ t) = ⊥
EqualUpToCase (a ∷ s) [] = ⊥
EqualUpToCase (a ∷ s) (b ∷ t) = SameLetter a b × EqualUpToCase s t

letter_of_cmap : (a b : ℕ) → cmap a ≡ cmap b → SameLetter a b
unfolding cmap
letter_of_cmap a b e = ground arith

cmap_of_letter : (a b : ℕ) → SameLetter a b → cmap a ≡ cmap b
unfolding cmap
cmap_of_letter a b (inl e) = ap cmap e
cmap_of_letter a b (inr (inl ((low, high), e))) = ground arith
cmap_of_letter a b (inr (inr ((low, high), e))) = ground arith

letters_of_eq : (s t : List ℕ) → s ≈ t → EqualUpToCase s t
letters_of_eq [] [] e = tt
letters_of_eq [] (b ∷ t) e = cc e
letters_of_eq (a ∷ s) [] e = cc e
letters_of_eq (a ∷ s) (b ∷ t) e =
    let (same, rest) = (cons-eq_iff (cmap a) (cmap b) (map cmap s) (map cmap t)).0 e in
    (letter_of_cmap a b same, letters_of_eq s t rest)

eq_of_letters : (s t : List ℕ) → EqualUpToCase s t → s ≈ t
eq_of_letters [] [] h = refl
eq_of_letters [] (b ∷ t) h = absurd h
eq_of_letters (a ∷ s) [] h = absurd h
eq_of_letters (a ∷ s) (b ∷ t) h =
    (cons-eq_iff (cmap a) (cmap b) (map cmap s) (map cmap t)).1
      (cmap_of_letter a b h.0, eq_of_letters s t h.1)

-- For C strings `mystrcasecmp` returns 0 exactly when the strings have one length and at each place
-- the same byte, or an ASCII letter in capitals and the same letter in lower case.
pub mystrcasecmp_iff :
    (s t : List ℕ) → NonNul s → NonNul t → (mystrcasecmp s t ≡ pos 0) ↔ EqualUpToCase s t
mystrcasecmp_iff s t hs ht =
    (λ e. letters_of_eq s t (casecmp-eq s t hs ht e), λ h. casecmp_of_eq s t (eq_of_letters s t h))

ncasecmp-eq :
    (n : ℕ) (s t : List ℕ) → NonNul s → NonNul t → mystrncasecmp s t n ≡ pos 0 → take n s ≈ take n t
unfolding mystrncasecmp
ncasecmp-eq zero s t hs ht e = refl
ncasecmp-eq (suc n) [] [] hs ht e = refl
ncasecmp-eq (suc n) [] (b ∷ t) hs ht e = absurd (nul_left b ht.0.0 ht.0.1 e)
ncasecmp-eq (suc n) (a ∷ s) [] hs ht e = absurd (nul_right a hs.0.0 hs.0.1 e)
ncasecmp-eq (suc n) (a ∷ s) (b ∷ t) hs ht e =
    let (same, rest) = step_eq a b (mystrncasecmp s t n) hs.0.1 ht.0.1 e in
    (cons-eq_iff (cmap a) (cmap b) (map cmap (take n s)) (map cmap (take n t))).1
      (same, ncasecmp-eq n s t hs.1 ht.1 rest)

ncasecmp_of_eq : (n : ℕ) (s t : List ℕ) → take n s ≈ take n t → mystrncasecmp s t n ≡ pos 0
unfolding mystrncasecmp
ncasecmp_of_eq zero s t e = refl
ncasecmp_of_eq (suc n) [] [] e = refl
ncasecmp_of_eq (suc n) [] (b ∷ t) e = cc e
ncasecmp_of_eq (suc n) (a ∷ s) [] e = cc e
ncasecmp_of_eq (suc n) (a ∷ s) (b ∷ t) e =
    let (same, rest) =
      (cons-eq_iff (cmap a) (cmap b) (map cmap (take n s)) (map cmap (take n t))).0 e in
    step_of_eq a b (mystrncasecmp s t n) same ∙ ncasecmp_of_eq n s t rest

-- For C strings `mystrncasecmp` with a count returns 0 exactly when the strings, cut to the count,
-- are equal up to case.
pub mystrncasecmp_iff :
    (n : ℕ) (s t : List ℕ)
    → NonNul s
    → NonNul t
    → (mystrncasecmp s t n ≡ pos 0) ↔ (take n s ≈ take n t)
mystrncasecmp_iff n s t hs ht = (ncasecmp-eq n s t hs ht, ncasecmp_of_eq n s t)

hash_step-eq : (ans a b : ℕ) → cmap a ≡ cmap b → hash_step ans a ≡ hash_step ans b
unfolding hash_step
hash_step-eq ans a b e = rw e

hash_step-lt : (ans c : ℕ) → hash_step ans c < 2 ^ 32
unfolding hash_step
hash_step-lt ans c = omega arith

hash_loop-eq : (ans : ℕ) (s t : List ℕ) → s ≈ t → hash_loop ans s ≡ hash_loop ans t
unfolding hash_loop
hash_loop-eq ans [] [] e = refl
hash_loop-eq ans [] (b ∷ t) e = cc e
hash_loop-eq ans (a ∷ s) [] e = cc e
hash_loop-eq ans (a ∷ s) (b ∷ t) e =
    let (same, rest) = (cons-eq_iff (cmap a) (cmap b) (map cmap s) (map cmap t)).0 e in
    ap (λ d. hash_loop d s) (hash_step-eq ans a b same) ∙ hash_loop-eq (hash_step ans b) s t rest

hash_loop-lt : (ans : ℕ) (s : List ℕ) → ans < 2 ^ 32 → hash_loop ans s < 2 ^ 32
unfolding hash_loop
hash_loop-lt ans [] h = h
hash_loop-lt ans (c ∷ s) h = hash_loop-lt (hash_step ans c) s (hash_step-lt ans c)

-- Two C strings that `mystrcasecmp` takes for equal have the same hash, and it fits 32 bits: a test
-- of the hashes before the comparison never turns away a match.
pub str_hash-mystrcasecmp :
    (s t : List ℕ)
    → NonNul s
    → NonNul t
    → mystrcasecmp s t ≡ pos 0
    → (str_hash s ≡ str_hash t) × (str_hash s < 2 ^ 32)
unfolding str_hash
str_hash-mystrcasecmp s t hs ht e =
    (hash_loop-eq 0 s t (casecmp-eq s t hs ht e), hash_loop-lt 0 s (omega arith))
