-- ===== src/Mock/Fields.antt =====
-- `strings.Fields`, by which internal/provider/mock.go splits its answer.
use Prim.Native.Char.{Char, code}
use Prim.Native.String.append
use model_gate.Prelude.{
  Bool, true, false, not, ◌&&◌, List, [], ◌∷◌, String, ◌≡◌, refl, text_append, is_space,
  if◌then◌else◌, arith, All, Bool-cases, inl, inr,
}

abbrev pub begins_word : String → Bool
begins_word String.[] = false
begins_word (String.◌∷◌ c s) = not (is_space (code c))

abbrev add_char : Char → List String → List String
add_char c [] = String.◌∷◌ c "" ∷ []
add_char c (w ∷ ws) = String.◌∷◌ c w ∷ ws

-- The maximal runs of characters that are no space.
unfoldable pub fields : String → List String
unfolding is_space
fields String.[] = []
fields (String.◌∷◌ c s) =
    let rest = fields s in
    if is_space (code c)
    then rest
    else if begins_word s
    then add_char c rest
    else String.◌∷◌ c "" ∷ rest

fields_example : fields " ab  c " ≡ "ab" ∷ "c" ∷ []
unfolding fields
fields_example = refl

-- A text with no space in it, which is not empty.
abbrev pub has_no_space : String → Bool
has_no_space String.[] = true
has_no_space (String.◌∷◌ c s) = not (is_space (code c)) && has_no_space s

abbrev pub IsWord : String → Type 0
IsWord w = (begins_word w ≡ true) × (has_no_space w ≡ true)

add_char-IsWord :
    (c : Char) (ws : List String)
    → is_space (code c) ≡ false
    → All IsWord ws
    → All IsWord (add_char c ws)
add_char-IsWord c [] h a = ((rw (h) refl, rw (h) refl), tt)
add_char-IsWord c (w ∷ ws) h a = ((rw (h) refl, rw (h) a.0.1), a.1)

pub fields-IsWord : (s : String) → All IsWord (fields s)
unfolding fields
fields-IsWord String.[] = tt
fields-IsWord (String.◌∷◌ c s) = elim (Bool-cases (is_space (code c))) [
  | inl e ↦ rw (e) (fields-IsWord s)
  | inr e ↦ elim (Bool-cases (begins_word s)) [
    | inl b ↦ rw (e, b) (add_char-IsWord c (fields s) e (fields-IsWord s))
    | inr b ↦ rw (e, b) (((rw (e) refl, rw (e) refl), fields-IsWord s))
  ]
]

fields-cons :
    (c : Char) (s : String)
    → is_space (code c) ≡ false
    → fields (String.◌∷◌ c s)
      ≡ (if begins_word s then add_char c (fields s) else String.◌∷◌ c "" ∷ fields s)
unfolding fields
fields-cons c s n = rw (n) refl

pub fields-space :
    (c : Char) (s : String) → is_space (code c) ≡ true → fields (String.◌∷◌ c s) ≡ fields s
unfolding fields
fields-space c s n = rw (n) refl

begins_word-append : (w t : String) → begins_word w ≡ true → begins_word (text_append w t) ≡ true
begins_word-append String.[] t h = cc
begins_word-append (String.◌∷◌ c w) t h = rw (append.cons c w t) h

-- A word in front of a text that does not go on with it.
pub fields-append :
    (w t : String) → IsWord w → begins_word t ≡ false → fields (text_append w t) ≡ w ∷ fields t
fields-append String.[] t h e = cc
fields-append (String.◌∷◌ c String.[]) t h e =
    let n : is_space (code c) ≡ false = ground (arith, h.0) in
    rw (append.cons c "" t, append.nil t, fields-cons c t n, e) refl
fields-append (String.◌∷◌ c (String.◌∷◌ d w)) t h e =
    let n : is_space (code c) ≡ false = ground (arith, h.0) in
    let m : begins_word (String.◌∷◌ d w) ≡ true = ground (arith, h.1) in
    let ih = fields-append (String.◌∷◌ d w) t (m, ground (arith, h.1)) e in
    let b = begins_word-append (String.◌∷◌ d w) t m in
    let tail = text_append (String.◌∷◌ d w) t in
    rw (append.cons c (String.◌∷◌ d w) t, fields-cons c tail n, b, ih) refl
