-- ===== src/Lists/Texts.antt =====
-- `strrangeset`, `substr` and `strget` of server/list.c: parts of strings, by the positions of
-- their characters. The sums of positions stay within an int.
use nu_moo.Base.{
  ℕ, ◌+◌, ◌-◌, ◌<◌, ◌≡◌, refl, sym, ap, ◌∙◌, inl, inr, true, false, not, Option, some, List, [],
  ◌∷◌, ◌++◌, arith, ◌==◌, if◌then◌else◌, Bool-cases, length, get_elem?, take, drop, ◌>>=◌,
  drop-drop,
}
use mathlib.Core.List.{append_assoc, append-nil}
use mathlib.Core.Path.{ap₂}
use nu_moo.Base.Int.{ℤ, pos, negsuc, ◌+ℤ◌, ◌-ℤ◌, leb_ℤ}
use nu_moo.Commands.Match.{start}
use nu_moo.Utf.Form.{Form}
use nu_moo.Utf.Length.{skip_utf, clearance_utf}
use nu_moo.Utf.Text.{Text, terminated, Form-shape, skip_utf-Text, skip_utf_all}

unfoldable pub strrangeset : (base : List ℕ) → (start stop : ℤ) → (value : List ℕ) → Option (List ℕ)
unfolding skip_utf
strrangeset base start stop value = do
  lenleft ← skip_utf (terminated base) (if leb_ℤ start (pos 1) then pos 0 else start -ℤ pos 1)
  lenmiddle ← skip_utf (drop lenleft (terminated base)) (stop -ℤ start +ℤ pos 1)
  some (take lenleft base ++ (value ++ drop (lenleft + lenmiddle) base))

unfoldable pub substr : (s : List ℕ) → (lower upper : ℤ) → Option (List ℕ)
unfolding skip_utf
substr s lower upper = if not (leb_ℤ lower upper) then some [] else (do
  lower_ind ← skip_utf (terminated s) (lower -ℤ pos 1)
  size ← skip_utf (drop lower_ind (terminated s)) (upper +ℤ pos 1 -ℤ lower)
  some (take size (drop lower_ind (terminated s))))

-- `strncpy` copies up to the NUL.
unfoldable pub strget : (s : List ℕ) → (i : ℤ) → Option (List ℕ)
unfolding skip_utf clearance_utf
strget s i = do
  ind ← skip_utf (terminated s) (i -ℤ pos 1)
  b ← get_elem? (terminated s) ind
  some (take (clearance_utf b) (drop ind s))

drop-behind : (xs ys : List ℕ) → drop (length xs) (xs ++ ys) ≡ ys
drop-behind [] ys = refl
drop-behind (x ∷ xs) ys = drop-behind xs ys

take-before : (xs ys : List ℕ) → take (length xs) (xs ++ ys) ≡ xs
take-before [] ys = refl
take-before (x ∷ xs) ys = ap (λ zs. x ∷ zs) (take-before xs ys)

drop-string : (xs ys : List ℕ) → drop (length xs) (terminated (xs ++ ys)) ≡ terminated ys
drop-string xs ys =
    ap (drop (length xs)) (append_assoc xs ys (0 ∷ [])) ∙ drop-behind xs (terminated ys)

take-string : (xs ys : List ℕ) → take (length xs) (terminated (xs ++ ys)) ≡ xs
take-string xs ys =
    ap (take (length xs)) (append_assoc xs ys (0 ∷ [])) ∙ take-before xs (terminated ys)

-- The characters before the first position.
chars_left : (n : ℕ) → (if leb_ℤ (pos (n + 1)) (pos 1) then pos 0 else pos (n + 1) -ℤ pos 1) ≡ pos n
chars_left n = ground arith

get_elem?-behind : (xs ys : List ℕ) → get_elem? (xs ++ ys) (length xs) ≡ get_elem? ys 0
get_elem?-behind [] ys = refl
get_elem?-behind (x ∷ xs) ys = get_elem?-behind xs ys

Text-empty : {vs bs : List ℕ} → Text vs bs → vs ≡ [] → bs ≡ []
Text-empty Text.nil e = refl
Text-empty (Text.cons f h t) e = cc e

module _ {us vs front bs : List ℕ} (cs : List ℕ) (left : Text us front) (middle : Text vs bs) where
  -- The characters from one position to another, with what stands before and behind them: they are
  -- the result, and where the second position is the one before the first, nothing is.
  pub substr-Text :
      substr (front ++ (bs ++ cs)) (pos (length us + 1)) (pos (length us + length vs)) ≡ some bs
  unfolding substr
  substr-Text = elim (Bool-cases (length vs == 0)) [
    | inl e ↦
        let empty : leb_ℤ (pos (length us + 1)) (pos (length us + length vs)) ≡ false =
          ground (arith, e) in
        rw empty (ap some (sym (Text-empty middle (no_length vs e))))
    | inr e ↦
        let some_left : leb_ℤ (pos (length us + 1)) (pos (length us + length vs)) ≡ true =
          ground (arith, e) in
        let before : pos (length us + 1) -ℤ pos 1 ≡ pos (length us) = ground arith in
        let size : pos (length us + length vs) +ℤ pos 1 -ℤ pos (length us + 1) ≡ pos (length vs) =
          ground arith in
        rw
          (
            some_left,
            before,
            size,
            skip_utf-Text (bs ++ cs) left,
            drop-string front (bs ++ cs),
            skip_utf-Text cs middle,
          )
          (ap some (take-string bs cs))
  ]
    where
      no_length : (xs : List ℕ) → (length xs == 0) ≡ true → xs ≡ []
      no_length [] e = refl
      no_length (x ∷ xs) e = ground (arith, e)

  -- The characters from one position to another are replaced by the value; where the second
  -- position is the one before the first, the value is put in between.
  pub strrangeset-Text :
      (value : List ℕ)
      → strrangeset (front ++ (bs ++ cs)) (pos (length us + 1)) (pos (length us + length vs)) value
        ≡ some (front ++ (value ++ cs))
  unfolding strrangeset
  strrangeset-Text value =
      let count : pos (length us + length vs) -ℤ pos (length us + 1) +ℤ pos 1 ≡ pos (length vs) =
        ground arith in
      let back : drop (length front + length bs) (front ++ (bs ++ cs)) ≡ cs =
        drop-drop (length front) (length bs) (front ++ (bs ++ cs))
        ∙ ap (drop (length bs)) (drop-behind front (bs ++ cs))
        ∙ drop-behind bs cs in
      rw
        (
          chars_left (length us),
          count,
          skip_utf-Text (bs ++ cs) left,
          drop-string front (bs ++ cs),
          skip_utf-Text cs middle,
        )
        (ap₂ (λ a b. some (a ++ (value ++ b))) (take-before front (bs ++ cs)) back)

-- A character of a text, with what stands before and behind it.
pub strget-Form :
    {us front form : List ℕ} {v : ℕ} (cs : List ℕ)
    → Text us front
    → Form v form
    → 0 < v
    → strget (front ++ (form ++ cs)) (pos (length us + 1)) ≡ some form
unfolding strget
strget-Form {us} {front} {form} {v} cs left f h =
    let (c, p, e, pos_c, size) = Form-shape f h in
    let before : pos (length us + 1) -ℤ pos 1 ≡ pos (length us) = ground arith in
    let lead : get_elem? (terminated (front ++ (form ++ cs))) (length front) ≡ some c =
      ap (λ s. get_elem? s (length front)) (append_assoc front (form ++ cs) (0 ∷ []))
      ∙ get_elem?-behind front (terminated (form ++ cs))
      ∙ ap (λ s. get_elem? (terminated (s ++ cs)) 0) e in
    rw (before, skip_utf-Text (form ++ cs) left, lead, size)
      (ap (λ s. some (take (length form) s)) (drop-behind front (form ++ cs))
        ∙ ap some (take-before form cs))

-- Where the second position is more than one before the first, all that stands from the first
-- position on is lost.
pub strrangeset_loses :
    {us ws front rest : List ℕ} (stop : ℕ) (value : List ℕ)
    → Text us front
    → Text ws rest
    → stop < length us
    → strrangeset (front ++ rest) (pos (length us + 1)) (pos stop) value ≡ some (front ++ value)
unfolding strrangeset
strrangeset_loses {us} {ws} {front} {rest} stop value left right lt =
    let count : pos stop -ℤ pos (length us + 1) +ℤ pos 1 ≡ negsuc (length us - stop - 1) =
      ground arith in
    let gone : drop (length front + length rest) (front ++ rest) ≡ [] =
      drop-drop (length front) (length rest) (front ++ rest)
      ∙ ap (drop (length rest)) (drop-behind front rest)
      ∙ ap (drop (length rest)) (sym (append-nil rest))
      ∙ drop-behind rest [] in
    rw
      (
        chars_left (length us),
        count,
        skip_utf-Text rest left,
        drop-string front rest,
        skip_utf_all (length us - stop - 1) right,
      )
      (ap₂ (λ a b. some (a ++ (value ++ b))) (take-before front rest) gone
        ∙ ap (λ v. some (front ++ v)) (append-nil value))
