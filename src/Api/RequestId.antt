-- ===== src/Api/RequestId.antt =====
-- The identifier of a request (NewRequestID of internal/service/gateway.go). The random bytes are an
-- argument, 16 of them, or the error of `rand.Read`.
use Prim.Native.Char.{Char, code}
use model_gate.Prelude.{
  ℕ, zero, suc, ◌+◌, ◌/◌, ◌%◌, ◌≡◌, refl, Bool, true, false, not, List, [], ◌∷◌, ◌++◌, none, some,
  String, All, get_elem?, take, drop, is_space, trim_left, trim_right, trim_space, str_eq, arith,
  ap, ◌∙◌, Bool-cases, inl, inr, eq_iff,
}
use model_gate.Errors.{wrapped, Result, ok, err}
use model_gate.Mock.Fields.{has_no_space}

abbrev hex_table : List Char
hex_table =
    "0" ∷ "1" ∷ "2" ∷ "3" ∷ "4" ∷ "5" ∷ "6" ∷ "7" ∷ "8" ∷ "9" ∷ "a" ∷ "b" ∷ "c" ∷ "d" ∷ "e" ∷ "f"
    ∷ []

abbrev dash : Char
dash = "-"

abbrev char_at : List Char → ℕ → Char
char_at [] n = "0"
char_at (c ∷ cs) zero = c
char_at (c ∷ cs) (suc n) = char_at cs n

-- hex.EncodeToString, in front of a text.
unfoldable pub hex_before : List ℕ → String → String
hex_before [] rest = rest
hex_before (b ∷ bs) rest =
    String.◌∷◌ (char_at hex_table (b / 16))
      (String.◌∷◌ (char_at hex_table (b % 16)) (hex_before bs rest))

-- The bits of the version and of the variant.
unfoldable pub mark_bytes : List ℕ → List ℕ
mark_bytes bytes = elim (get_elem? bytes 6) [
  | none ↦ bytes
  | some version ↦ elim (get_elem? bytes 8) [
    | none ↦ bytes
    | some variant ↦
        take 6 bytes
        ++ ((version % 16 + 64) ∷ take 1 (drop 7 bytes))
        ++ ((variant % 64 + 128) ∷ drop 9 bytes)
  ]
]

-- The `Sprintf`.
unfoldable pub format_id : List ℕ → String
unfolding hex_before
format_id value = hex_before (take 4 value) (
    String.◌∷◌ dash (
      hex_before (take 2 (drop 4 value)) (
        String.◌∷◌ dash (
          hex_before (take 2 (drop 6 value)) (
            String.◌∷◌ dash (
              hex_before (take 2 (drop 8 value))
                (String.◌∷◌ dash (hex_before (take 6 (drop 10 value)) ""))))))))

unfoldable pub new_request_id : Result (List ℕ) → Result String
unfolding mark_bytes format_id
new_request_id (err e) = err (wrapped "generate request id" e)
new_request_id (ok bytes) = ok (format_id (mark_bytes bytes))

new_request_id_example :
    new_request_id (
      ok (
        1 ∷ 35 ∷ 69 ∷ 103 ∷ 137 ∷ 171 ∷ 205 ∷ 239 ∷ 1 ∷ 35 ∷ 69 ∷ 103 ∷ 137 ∷ 171 ∷ 205 ∷ 239 ∷ []))
    ≡ ok "01234567-89ab-4def-8123-456789abcdef"
unfolding new_request_id
new_request_id_example = refl

is_plain : Char → Bool
is_plain c = not (is_space (code c))

char_at-is_plain :
    (cs : List Char) (n : ℕ) → All (λ c. is_plain c ≡ true) cs → is_plain (char_at cs n) ≡ true
unfolding is_plain is_space
char_at-is_plain [] n h = refl
char_at-is_plain (c ∷ cs) zero h = h.0
char_at-is_plain (c ∷ cs) (suc n) h = char_at-is_plain cs n h.1

hex-is_plain : (n : ℕ) → is_plain (char_at hex_table n) ≡ true
unfolding is_plain is_space
hex-is_plain n = char_at-is_plain hex_table n (
  refl,
  (
    refl,
    (
      refl,
      (
        refl,
        (
          refl,
          (
            refl,
            (refl, (refl, (refl, (refl, (refl, (refl, (refl, (refl, (refl, (refl, tt)))))))))),
          ),
        ),
      ),
    ),
  ),
)

cons-has_no_space :
    (c : Char) (s : String)
    → is_plain c ≡ true
    → has_no_space s ≡ true
    → has_no_space (String.◌∷◌ c s) ≡ true
unfolding is_plain
cons-has_no_space c s h k = rw (h, k) refl

hex_before-has_no_space :
    (bs : List ℕ) (rest : String)
    → has_no_space rest ≡ true
    → has_no_space (hex_before bs rest) ≡ true
unfolding hex_before
hex_before-has_no_space [] rest h = h
hex_before-has_no_space (b ∷ bs) rest h =
    let later = hex_before bs rest in
    let low = char_at hex_table (b % 16) in
    cons-has_no_space (char_at hex_table (b / 16)) (String.◌∷◌ low later) (hex-is_plain (b / 16))
      (cons-has_no_space low later (hex-is_plain (b % 16)) (hex_before-has_no_space bs rest h))

dashed : (s : String) → has_no_space s ≡ true → has_no_space (String.◌∷◌ dash s) ≡ true
dashed s h = cons-has_no_space dash s (unfold is_plain in unfold is_space in refl) h

-- A group of digits in front of a dash and of what follows it.
group-has_no_space :
    (bs : List ℕ) (rest : String)
    → has_no_space rest ≡ true
    → has_no_space (hex_before bs (String.◌∷◌ dash rest)) ≡ true
group-has_no_space bs rest h = hex_before-has_no_space bs (String.◌∷◌ dash rest) (dashed rest h)

format_id-has_no_space : (value : List ℕ) → has_no_space (format_id value) ≡ true
unfolding format_id
format_id-has_no_space value =
    let last = hex_before (take 6 (drop 10 value)) "" in
    let fourth = hex_before (take 2 (drop 8 value)) (String.◌∷◌ dash last) in
    let third = hex_before (take 2 (drop 6 value)) (String.◌∷◌ dash fourth) in
    let second = hex_before (take 2 (drop 4 value)) (String.◌∷◌ dash third) in
    group-has_no_space (take 4 value) second (
      group-has_no_space (take 2 (drop 4 value)) third (
        group-has_no_space (take 2 (drop 6 value)) fourth (
          group-has_no_space (take 2 (drop 8 value)) last
            (hex_before-has_no_space (take 6 (drop 10 value)) "" refl))))

-- Nothing is trimmed from a text without space.
trim_right_plain : (s : String) → has_no_space s ≡ true → trim_right s ≡ s
unfolding trim_right
trim_right_plain String.[] h = refl
trim_right_plain (String.◌∷◌ c s) h =
    let e : is_space (code c) ≡ false = ground (arith, h) in
    rw (e) (ap (String.◌∷◌ c) (trim_right_plain s (ground (arith, h))))

trim_left_plain : (s : String) → has_no_space s ≡ true → trim_left s ≡ s
unfolding trim_left
trim_left_plain String.[] h = refl
trim_left_plain (String.◌∷◌ c s) h =
    let e : is_space (code c) ≡ false = ground (arith, h) in rw (e) refl

plain-trim_space : (s : String) → has_no_space s ≡ true → trim_space s ≡ s
unfolding trim_space
plain-trim_space s h = ap trim_right (trim_left_plain s h) ∙ trim_right_plain s h

cons-ne_blank : (c : Char) (s : String) → str_eq (String.◌∷◌ c s) "" ≡ false
cons-ne_blank c s = elim (Bool-cases (str_eq (String.◌∷◌ c s) "")) [
  | inl h ↦ let e = (eq_iff (String.◌∷◌ c s) "").0 h in cc
  | inr h ↦ h
]

format_id-ne_blank : (value : List ℕ) → str_eq (format_id value) "" ≡ false
unfolding format_id hex_before
format_id-ne_blank [] = refl
format_id-ne_blank (b ∷ bs) = cons-ne_blank _ _

-- An identifier is not blank, and trimming does not change it.
pub new_request_id-trim_space :
    (bytes : List ℕ)
    → (id : String) × (new_request_id (ok bytes) ≡ ok id)
      × (trim_space id ≡ id)
      × (str_eq id "" ≡ false)
unfolding new_request_id
new_request_id-trim_space bytes =
    let value = mark_bytes bytes in
    (
      format_id value,
      refl,
      plain-trim_space (format_id value) (format_id-has_no_space value),
      format_id-ne_blank value,
    )
