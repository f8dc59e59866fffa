-- ===== src/Tests/Texts.antt =====
-- The theorems on parts of strings.
use nu_moo.Base.{◌≡◌, refl, some, [], ◌∷◌, arith}
use nu_moo.Base.Int.{pos}
use nu_moo.Lists.Texts.{strrangeset, substr, substr-Text, strrangeset-Text, strrangeset_loses}
use nu_moo.Utf.Form.{Form}
use nu_moo.Utf.Text.{Text}

one_a : Text (97 ∷ []) (97 ∷ [])
one_a = Text.cons (Form.one (omega arith) refl) (omega arith) Text.nil

two_bytes : Text (233 ∷ []) (195 ∷ 169 ∷ [])
two_bytes =
    Text.cons (Form.two 3 41 (omega arith) (omega arith) (omega arith) refl refl) (omega arith)
      Text.nil

-- The second character of "aéb".
substr-Text_example : substr (97 ∷ 195 ∷ 169 ∷ 98 ∷ []) (pos 2) (pos 2) ≡ some (195 ∷ 169 ∷ [])
substr-Text_example = substr-Text (98 ∷ []) one_a two_bytes

strrangeset-Text_example :
    strrangeset (97 ∷ 195 ∷ 169 ∷ 98 ∷ []) (pos 2) (pos 2) (120 ∷ []) ≡ some (97 ∷ 120 ∷ 98 ∷ [])
strrangeset-Text_example = strrangeset-Text (98 ∷ []) one_a two_bytes (120 ∷ [])

-- The second character of "aé" is lost.
strrangeset_loses_example :
    strrangeset (97 ∷ 195 ∷ 169 ∷ []) (pos 2) (pos 0) (120 ∷ []) ≡ some (97 ∷ 120 ∷ [])
strrangeset_loses_example = strrangeset_loses 0 (120 ∷ []) one_a two_bytes (omega arith)
