-- ===== src/Prelude/Trim.antt =====
-- Trimming twice is trimming once.
use Prim.Native.Char.{Char, code}
use text.Mathlib.TextEquality.{eq_iff}
use Prim.Native.String.{String}
use mathlib.Core.Path.{◌≡◌, refl, ap, ◌∙◌}
use mathlib.Core.Bool.{Bool, true, false, not, ◌&&◌}
use mathlib.Core.Logic.{inl, inr}
use native.Mathlib.Omega.{arith}
use model_gate.Prelude.Tests.{Bool-cases}
use model_gate.Prelude.Text.{is_space, str_eq, trim_left, trim_right, trim_space, all_chars}

-- A text that does not begin with space.
abbrev begins_clean : String → Bool
begins_clean String.[] = true
begins_clean (String.◌∷◌ c s) = not (is_space (code c))

trim_left-clean : (s : String) → begins_clean (trim_left s) ≡ true
unfolding trim_left
trim_left-clean String.[] = refl
trim_left-clean (String.◌∷◌ c s) = elim (Bool-cases (is_space (code c))) [
  | inl e ↦ rw (e) (trim_left-clean s)
  | inr e ↦ rw (e) (ground (arith, e))
]

clean-trim_left : (s : String) → begins_clean s ≡ true → trim_left s ≡ s
unfolding trim_left
clean-trim_left String.[] h = refl
clean-trim_left (String.◌∷◌ c s) h =
    let e : is_space (code c) ≡ false = ground (arith, h) in rw (e) refl

cons-full : (c : Char) (s : String) → str_eq (String.◌∷◌ c s) "" ≡ false
cons-full c s = elim (Bool-cases (str_eq (String.◌∷◌ c s) "")) [
  | inr e ↦ e
  | inl e ↦ let same : String.◌∷◌ c s ≡ "" = (eq_iff (String.◌∷◌ c s) "").0 e in cc
]

trim_right-clean : (s : String) → begins_clean s ≡ true → begins_clean (trim_right s) ≡ true
unfolding trim_right
trim_right-clean String.[] h = refl
trim_right-clean (String.◌∷◌ c s) h =
    let e : is_space (code c) ≡ false = ground (arith, h) in rw (e) (ground (arith, e))

trim_right-twice : (s : String) → trim_right (trim_right s) ≡ trim_right s
unfolding trim_right
trim_right-twice String.[] = refl
trim_right-twice (String.◌∷◌ c s) =
    let dropped = is_space (code c) && str_eq (trim_right s) "" in
    elim (Bool-cases dropped) [ inl e ↦ rw (e) refl | inr e ↦ rw (e, trim_right-twice s, e) refl ]

pub trim_space-twice : (s : String) → trim_space (trim_space s) ≡ trim_space s
unfolding trim_space
trim_space-twice s =
    let clean = trim_right-clean (trim_left s) (trim_left-clean s) in
    ap trim_right (clean-trim_left (trim_right (trim_left s)) clean)
    ∙ trim_right-twice (trim_left s)

-- A text is trimmed to nothing exactly where it is all space.
pub trim_space-blank : (s : String) → str_eq (trim_space s) "" ≡ all_chars (λ c. is_space c) s
unfolding trim_space trim_left trim_right all_chars
trim_space-blank String.[] = refl
trim_space-blank (String.◌∷◌ c s) = elim (Bool-cases (is_space (code c))) [
  | inl e ↦ rw (e) (trim_space-blank s)
  | inr e ↦ rw (e, trim_right, e) (cons-full c (trim_right s))
]
