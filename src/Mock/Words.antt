-- ===== src/Mock/Words.antt =====
-- The pieces into which the mock's answer is split (splitMockContent of internal/provider/mock.go).
use Prim.Native.Char.{Char}
use Prim.Native.String.append
use model_gate.Prelude.{
  false, List, [], ◌∷◌, String, ◌≡◌, refl, ap, ◌∙◌, text_append, All, is_space,
}
use model_gate.Mock.{spaced, split_mock_content}
use model_gate.Mock.Fields.{IsWord, begins_word, fields, fields-IsWord, fields-append, fields-space}

unfoldable pub text_concat : List String → String
text_concat [] = ""
text_concat (s ∷ ss) = text_append s (text_concat ss)

abbrev blank : Char
blank = " "

append-blank :
    (w r : String) → text_append (text_append " " w) r ≡ String.◌∷◌ blank (text_append w r)
append-blank w r =
    ap (λ s. text_append s r) (append.cons blank "" w ∙ ap (String.◌∷◌ blank) (append.nil w))
    ∙ append.cons blank w r

spaced-begins_word : (ws : List String) → begins_word (text_concat (spaced ws)) ≡ false
unfolding text_concat spaced is_space
spaced-begins_word [] = refl
spaced-begins_word (w ∷ ws) = rw (append-blank w (text_concat (spaced ws))) refl

-- The words that the pieces after the first hold.
fields-spaced : (ws : List String) → All IsWord ws → fields (text_concat (spaced ws)) ≡ ws
unfolding text_concat spaced
fields-spaced [] h = unfold fields in refl
fields-spaced (w ∷ ws) (word, h) =
    let rest = text_concat (spaced ws) in
    rw (append-blank w rest, fields-space blank (text_append w rest) (unfold is_space in refl))
      (fields-append w rest word (spaced-begins_word ws) ∙ ap (◌∷◌ w) (fields-spaced ws h))

-- The pieces, put together, hold the words of the text that was split.
pub fields-split_mock_content :
    (s : String) → fields (text_concat (split_mock_content s)) ≡ fields s
unfolding split_mock_content text_concat
fields-split_mock_content s = of_words (fields s) (fields-IsWord s)
  where
    of_words :
        (ws : List String)
        → All IsWord ws
        → fields (text_concat (elim ws [ [] ↦ [] | word ∷ words ↦ word ∷ spaced words ])) ≡ ws
    of_words [] h = unfold fields in refl
    of_words (w ∷ ws) (word, h) =
        fields-append w (text_concat (spaced ws)) word (spaced-begins_word ws)
        ∙ ap (◌∷◌ w) (fields-spaced ws h)
