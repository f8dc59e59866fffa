-- ===== src/Tests/Utf.antt =====
-- The coder and decoder of server/utf.c at the euro sign, é, and bytes that are no UTF-8.
use nu_moo.Base.{ℕ, ◌≡◌, refl, ◌↔◌, inl, some, List, [], ◌∷◌, ◌++◌, arith}
use nu_moo.Utf.Bounds.{IsText, Within, get_utf-Within}
use nu_moo.Utf.Codec.{put_utf-iff-Form, get-put, get_utf-Form}
use nu_moo.Utf.Decode.{get_utf}
use nu_moo.Utf.Encode.{put_utf}
use nu_moo.Utf.Form.{Form, one, two, three}
use nu_moo.Utf.Text.{Text, terminated}

abbrev euro : List ℕ
euro = 0xe2 ∷ 0x82 ∷ 0xac ∷ []

-- é, then the euro sign, then a.
abbrev word : List ℕ
word = (0xc3 ∷ 0xa9 ∷ []) ++ (0xe2 ∷ 0x82 ∷ 0xac ∷ []) ++ (0x61 ∷ []) ++ []

euro-Form : Form 0x20ac euro
euro-Form =
    three 2 2 44 (omega arith) (omega arith) (omega arith) (omega arith) (inl (omega arith)) refl
      refl

word-Text : Text (0xe9 ∷ 0x20ac ∷ 0x61 ∷ []) word
word-Text =
    Text.cons (two 3 41 (omega arith) (omega arith) (omega arith) refl refl) (omega arith) (
      Text.cons euro-Form (omega arith) (Text.cons (one (omega arith) refl) (omega arith) Text.nil))

put_euro : put_utf 0x20ac ≡ some euro
unfolding put_utf
put_euro = refl

get_euro : get_utf (0xe2 ∷ 0x82 ∷ 0xac ∷ 0x41 ∷ []) ≡ some (0x20ac, 0x41 ∷ [])
unfolding get_utf
get_euro = refl

-- A leading byte without what should follow.
abbrev cut : List ℕ
cut = 0xe2 ∷ 0x41 ∷ []

cut-IsText : IsText cut
cut-IsText = ((omega arith, omega arith), ((omega arith, omega arith), tt))

put_utf-iff-Form_example : (put_utf 0x20ac ≡ some euro) ↔ Form 0x20ac euro
put_utf-iff-Form_example = put_utf-iff-Form 0x20ac euro (omega arith)

get-put_example : get_utf (euro ++ 0x41 ∷ []) ≡ some (0x20ac, 0x41 ∷ [])
get-put_example = get-put 0x20ac euro (0x41 ∷ []) (omega arith) put_euro

get_utf-Form_example :
    (bs : List ℕ) × Form 0x20ac bs × ((0xe2 ∷ 0x82 ∷ 0xac ∷ 0x41 ∷ []) ≡ bs ++ 0x41 ∷ [])
get_utf-Form_example =
    get_utf-Form (0xe2 ∷ 0x82 ∷ 0xac ∷ 0x41 ∷ [])
      (omega arith, (omega arith, (omega arith, (omega arith, tt)))) get_euro (omega arith)

get_utf-Within_example :
    (v : ℕ) × (q : List ℕ) × (get_utf (terminated cut) ≡ some (v, q)) × Within 1 q
get_utf-Within_example = get_utf-Within 0xe2 (0x41 ∷ []) cut-IsText
