-- ===== src/Lists.antt =====
-- The list values of server/list.c. A list value is an array of `Var`s whose element 0 holds the
-- length; it is the list of the elements 1, 2, …. The operations treat elements as opaque but for
-- `equality`, so they are generic over the type of elements, with the comparison as an argument.
-- A read outside the elements is a fault,
-- `none`. Reference counts decide only whether `doinsert` may
-- work in place: they are an argument there.
mod Copy
pub mod Insert
pub mod Range
pub mod Texts
pub mod Member
use nu_moo.Base.{
  ◌>>=◌, ℕ, zero, suc, ◌+◌, ◌-◌, Bool, ◌&&◌, Option, none, some, List, [], ◌∷◌, ◌++◌, ◌==◌,
  if◌then◌else◌, length, get_elem?, set,
}
use nu_moo.Base.Int.{ℤ, pos, negsuc, pos_part, ◌-ℤ◌, ltb_ℤ, leb_ℤ}

-- list[i]: positions count from 1.
abbrev pub get_var {ℓ} : {A : Type ℓ} → List A → ℕ → Option A
get_var xs zero = none
get_var xs (suc i) = get_elem? xs i

-- `count` elements, from position `i` on, one by one.
unfoldable pub copy {ℓ} : {A : Type ℓ} → List A → (i count : ℕ) → Option (List A)
copy xs i zero = some []
copy xs i (suc n) = do x ← get_var xs i; rest ← copy xs (i + 1) n; some (x ∷ rest)

-- `count` elements behind position `i`, which is a fault below position 0.
unfoldable pub copy_from {ℓ} : {A : Type ℓ} → List A → (i : ℤ) (count : ℕ) → Option (List A)
copy_from xs (pos i) n = copy xs (i + 1) n
copy_from xs (negsuc i) n = none

module _ {ℓ} {A : Type ℓ} where
  pub listset : List A → A → ℕ → Option (List A)
  listset xs v i = do old ← get_var xs i; some (set xs (i - 1) v)

  -- `refs` is `var_refcount(list)`. The first branch works in place, on a block that is one longer.
  pub doinsert : (refs : ℕ) → List A → A → ℕ → Option (List A)
  doinsert refs xs v i = if refs == 1 && i == length xs + 1 then some (xs ++ v ∷ []) else do
    front ← copy xs 1 (i - 1)
    back ← copy xs i (length xs + 1 - i)
    some (front ++ v ∷ back)

  pub listinsert : (refs : ℕ) → List A → A → ℤ → Option (List A)
  listinsert refs xs v i = doinsert refs xs v (
      if leb_ℤ i (pos 0)
      then 1
      else if ltb_ℤ (pos (length xs)) i
      then length xs + 1
      else pos_part i)

  pub listappend : (refs : ℕ) → List A → A → Option (List A)
  listappend refs xs v = doinsert refs xs v (length xs + 1)

  pub listdelete : List A → ℕ → Option (List A)
  listdelete xs i = do
    front ← copy xs 1 (i - 1)
    back ← copy xs (i + 1) (length xs - i)
    some (front ++ back)

  pub listconcat : List A → List A → Option (List A)
  listconcat first second = do
    front ← copy first 1 (length first)
    back ← copy second 1 (length second)
    some (front ++ back)

  -- The three counts are 0 where the source's differences would be negative.
  pub listrangeset : List A → (from to : ℤ) → List A → Option (List A)
  listrangeset base from to value = do
    left ← copy base 1 (if ltb_ℤ (pos 1) from then pos_part from - 1 else 0)
    middle ← copy value 1 (length value)
    right ←
        (if ltb_ℤ to (pos (length base))
          then copy_from base to (pos_part (pos (length base) -ℤ to))
          else some [])
    some (left ++ middle ++ right)

  pub sublist : List A → (lower upper : ℤ) → Option (List A)
  sublist xs lower upper =
      if ltb_ℤ upper lower
      then some []
      else copy_from xs (lower -ℤ pos 1) (pos_part (upper -ℤ lower) + 1)

module _ {ℓ} {A : Type ℓ} (equality : A → A → Bool) where
  -- The loop of `ismember` at position `i`.
  ismember_at : A → List A → ℕ → ℕ
  ismember_at v [] i = 0
  ismember_at v (x ∷ xs) i = let rest = ismember_at v xs (i + 1) in if equality v x then i else rest

  pub ismember : A → List A → ℕ
  ismember v xs = ismember_at v xs 1

  pub setadd : (refs : ℕ) → List A → A → Option (List A)
  setadd refs xs v = if ismember v xs == 0 then listappend refs xs v else some xs

  pub setremove : List A → A → Option (List A)
  setremove xs v = let i = ismember v xs in if i == 0 then some xs else listdelete xs i
