-- ===== src/Tasks/Input/Ends.antt =====
-- The sequences of the input queue of server/tasks.c: which tasks end one, and when the chain of
-- sequence ends and the total length are right.
use nu_moo.Base.{
  ℕ, ◌+◌, ◌≡◌, sym, ap, ◌∙◌, ◌≢◌, Bool, true, false, not, Option, none, some, List, [], ◌∷◌, ◌++◌,
  arith, if◌then◌else◌, All,
}
use nu_moo.Base.Int.{pos, ◌-ℤ◌}
use nu_moo.Tasks.{InputTask, Tqueue, is_oob}
use nu_moo.Tasks.Input.{DequeueHow, dq_first, dq_oob, dq_inband, same_sort}

-- The addresses of the tasks behind which the queue ends or goes on with the other sort.
abbrev pub ends : List InputTask → List ℕ
ends [] = []
ends (t ∷ []) = t.address ∷ []
ends (t ∷ u ∷ ts) = let rest = ends (u ∷ ts) in if same_sort t u then rest else t.address ∷ rest

abbrev pub Apart : ℕ → List InputTask → Type 0
Apart a = All (λ t. a ≢ t.address)

abbrev pub DistinctTasks : List InputTask → Type 0
DistinctTasks [] = Unit
DistinctTasks (t ∷ ts) = Apart t.address ts × DistinctTasks ts

abbrev pub total_length : List InputTask → ℕ
total_length [] = 0
total_length (t ∷ ts) = t.length + total_length ts

-- The chain of sequence ends and the total length belong to the input, where no two tasks have the
-- same address.
pub record Threaded (tq : Tqueue) : Type 0 where
  pub itail : tq.itail ≡ ends tq.input
  pub total : tq.total_input_length ≡ pos (total_length tq.input)
  pub distinct : DistinctTasks tq.input

-- The chain less its first task that passes a test, and that task.
abbrev pub with_behind :
    InputTask → Option (InputTask × List InputTask) → Option (InputTask × List InputTask)
with_behind u none = none
with_behind u (some (t, rest)) = some (t, u ∷ rest)

abbrev pub take_first : (InputTask → Bool) → List InputTask → Option (InputTask × List InputTask)
take_first p [] = none
take_first p (t ∷ ts) =
    let rest = take_first p ts in if p t then some (t, ts) else with_behind t rest

-- The tasks that a call asks for.
abbrev pub asked : DequeueHow → InputTask → Bool
asked dq_first t = true
asked dq_oob t = is_oob t.kind
asked dq_inband t = not (is_oob t.kind)

abbrev pub wanted : Bool → DequeueHow → InputTask → Bool
wanted false how t = asked how t
wanted true dq_oob t = false
wanted true dq_first t = true
wanted true dq_inband t = true

pub Apart-append : (a : ℕ) (xs ys : List InputTask) → Apart a (xs ++ ys) → Apart a xs × Apart a ys
Apart-append a [] ys h = (tt, h)
Apart-append a (x ∷ xs) ys h = let rest = Apart-append a xs ys h.1 in ((h.0, rest.0), rest.1)

-- A task in the middle is apart from those before it.
pub DistinctTasks-before :
    (xs : List InputTask) (t : InputTask) (ys : List InputTask)
    → DistinctTasks (xs ++ (t ∷ ys))
    → Apart t.address xs
DistinctTasks-before [] t ys h = tt
DistinctTasks-before (x ∷ xs) t ys h =
    (λ e. (Apart-append x.address xs (t ∷ ys) h.0).1.0 (sym e), DistinctTasks-before xs t ys h.1)

pub DistinctTasks-from : (xs ys : List InputTask) → DistinctTasks (xs ++ ys) → DistinctTasks ys
DistinctTasks-from [] ys h = h
DistinctTasks-from (x ∷ xs) ys h = DistinctTasks-from xs ys h.1

-- One task less.
pub Apart-remove :
    (a : ℕ) (xs : List InputTask) (t : InputTask) (ys : List InputTask)
    → Apart a (xs ++ (t ∷ ys))
    → Apart a (xs ++ ys)
Apart-remove a [] t ys h = h.1
Apart-remove a (x ∷ xs) t ys h = (h.0, Apart-remove a xs t ys h.1)

pub DistinctTasks-remove :
    (xs : List InputTask) (t : InputTask) (ys : List InputTask)
    → DistinctTasks (xs ++ (t ∷ ys))
    → DistinctTasks (xs ++ ys)
DistinctTasks-remove [] t ys h = h.1
DistinctTasks-remove (x ∷ xs) t ys h =
    (Apart-remove x.address xs t ys h.0, DistinctTasks-remove xs t ys h.1)

pub Apart-snoc :
    (a : ℕ) (xs : List InputTask) (t : InputTask)
    → Apart a xs
    → a ≢ t.address
    → Apart a (xs ++ (t ∷ []))
Apart-snoc a [] t h ne = (ne, tt)
Apart-snoc a (x ∷ xs) t h ne = (h.0, Apart-snoc a xs t h.1 ne)

pub DistinctTasks-snoc :
    (xs : List InputTask) (t : InputTask)
    → Apart t.address xs
    → DistinctTasks xs
    → DistinctTasks (xs ++ (t ∷ []))
DistinctTasks-snoc [] t h d = (tt, tt)
DistinctTasks-snoc (x ∷ xs) t h d =
    (Apart-snoc x.address xs t d.0 (λ e. h.0 (sym e)), DistinctTasks-snoc xs t h.1 d.1)

pub total_length-append :
    (xs ys : List InputTask) → total_length (xs ++ ys) ≡ total_length xs + total_length ys
total_length-append [] ys = omega arith
total_length-append (x ∷ xs) ys = omega (arith, total_length-append xs ys)

pub total_length-remove :
    (xs : List InputTask) (t : InputTask) (ys : List InputTask)
    → pos (total_length (xs ++ (t ∷ ys))) -ℤ pos t.length ≡ pos (total_length (xs ++ ys))
total_length-remove xs t ys =
    ap (λ n. pos n -ℤ pos t.length) (total_length-append xs (t ∷ ys))
    ∙ less (total_length xs) t.length (total_length ys)
    ∙ ap pos (sym (total_length-append xs ys))
  where
    less : (a b c : ℕ) → pos (a + (b + c)) -ℤ pos b ≡ pos (a + c)
    less a b c = ground arith
