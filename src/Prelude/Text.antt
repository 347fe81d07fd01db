-- ===== src/Prelude/Text.antt =====
-- The texts of the program: native strings, compared whole, and trimmed as `strings.TrimSpace` does.
use Prim.Native.Nat.{ℕ, zero, suc, ◌+◌, ◌/◌, ◌%◌}
use Prim.Native.Char.{code}
use Prim.Native.String.{String}
use Prim.Native.String.{◌++◌ as append_text}
use mathlib.Core.Path.{◌≡◌, refl}
use mathlib.Core.Logic.{◌⊎◌}
use mathlib.Core.Bool.{Bool, true, false, ◌||◌, ◌&&◌}
use mathlib.Core.List.{List, [], ◌∷◌}
use text.Mathlib.Text.{◌==◌ as text_eq}
use mathlib.Core.Option.{none, some}
use model_gate.Prelude.Lists.{get_elem?}
use model_gate.Prelude.Tests.{◌==◌, leb, if◌then◌else◌}

abbrev pub str_eq : String → String → Bool
str_eq = text_eq

abbrev pub contains : List String → String → Bool
contains [] s = false
contains (t ∷ ts) s = str_eq t s || contains ts s

-- The text is one of these.
abbrev pub IsOneOf : List String → String → Type 0
IsOneOf [] s = ⊥
IsOneOf (t ∷ ts) s = (s ≡ t) ⊎ IsOneOf ts s

-- `unicode.IsSpace`.
unfoldable pub is_space : ℕ → Bool
is_space c =
    (leb 9 c && leb c 13)
    || c == 32
    || c == 0x85
    || c == 0xa0
    || c == 0x1680
    || (leb 0x2000 c && leb c 0x200a)
    || c == 0x2028
    || c == 0x2029
    || c == 0x202f
    || c == 0x205f
    || c == 0x3000

-- A leading run of space is dropped.
unfoldable pub trim_left : String → String
unfolding is_space
trim_left String.[] = ""
trim_left (String.◌∷◌ c s) = if is_space (code c) then trim_left s else String.◌∷◌ c s

-- A character stays where something other than space follows it, or where it is none itself.
unfoldable pub trim_right : String → String
unfolding is_space
trim_right String.[] = ""
trim_right (String.◌∷◌ c s) =
    let rest = trim_right s in if is_space (code c) && str_eq rest "" then "" else String.◌∷◌ c rest

unfoldable pub trim_space : String → String
unfolding trim_left trim_right
trim_space s = trim_right (trim_left s)

trim_space_padded : trim_space "  open ai " ≡ "open ai"
unfolding trim_space
trim_space_padded = refl

-- The length in bytes, `len` of a string in UTF-8.
unfoldable pub byte_length : String → ℕ
byte_length String.[] = 0
byte_length (String.◌∷◌ c s) =
    (if leb (code c) 0x7f
      then 1
      else if leb (code c) 0x7ff
      then 2
      else if leb (code c) 0xffff
      then 3
      else 4)
    + byte_length s

abbrev pub text_append : String → String → String
text_append = append_text

unfoldable pub all_chars : (ℕ → Bool) → String → Bool
all_chars p String.[] = true
all_chars p (String.◌∷◌ c s) = p (code c) && all_chars p s

abbrev digit : ℕ → String
digit n =
    let names = "0" ∷ "1" ∷ "2" ∷ "3" ∷ "4" ∷ "5" ∷ "6" ∷ "7" ∷ "8" ∷ "9" ∷ [] in
    elim (get_elem? names n) [ none ↦ "" | some d ↦ d ]

-- `n` is less than ten to the number of rounds.
digits : ℕ → ℕ → String
digits zero n = ""
digits (suc rounds) n =
    let rest = digits rounds (n / 10) in
    if leb n 9 then digit n else append_text rest (digit (n % 10))

-- `strconv.Itoa` and `%d`, of a number that is not negative.
unfoldable pub decimal : ℕ → String
unfolding digits
decimal n = digits (suc n) n

decimal_example : decimal 1207 ≡ "1207"
unfolding decimal
decimal_example = refl

abbrev add_char : String → List String → List String
add_char c [] = c ∷ []
add_char c (p ∷ ps) = append_text c p ∷ ps

-- `strings.Split`, by a separator of one character.
unfoldable pub split_on : ℕ → String → List String
split_on separator String.[] = "" ∷ []
split_on separator (String.◌∷◌ c s) =
    let rest = split_on separator s in
    if code c == separator then "" ∷ rest else add_char (String.◌∷◌ c "") rest

split_on_example : split_on b':' "a:mock::2" ≡ "a" ∷ "mock" ∷ "" ∷ "2" ∷ []
unfolding split_on
split_on_example = refl

-- `strings.TrimRight`, of slashes.
unfoldable pub trim_slashes : String → String
trim_slashes String.[] = ""
trim_slashes (String.◌∷◌ c s) =
    let rest = trim_slashes s in if code c == b'/' && str_eq rest "" then "" else String.◌∷◌ c rest
