-- ===== src/Gateway/Keys.antt =====
-- The idempotency key that a client sends (normalizeIdempotencyKey of internal/service/gateway.go),
-- and the temperature that makes a request cacheable (Policy.Key of internal/cache/cache.go).
use model_gate.Prelude.{
  ℕ, Bool, true, false, not, ◌&&◌, ◌||◌, Option, none, some, String, str_eq, trim_space,
  byte_length, all_chars, ltb, leb, ◌==◌, if◌then◌else◌, Fraction, ltb_ℕ, gtb_ℕ, ◌≡◌, refl, arith,
  sym, subst, ◌≤◌, inl, inr, Bool-cases, eq_iff,
}
use model_gate.Errors.{validation, Result, ok, err}

-- Letters, digits and `._:-`.
abbrev pub is_key_char : ℕ → Bool
is_key_char x =
    (leb 97 x && leb x 122)
    || (leb 65 x && leb x 90)
    || (leb 48 x && leb x 57)
    || (x == 46 || x == 95 || x == 58 || x == 45)

-- The key, without the space around it.
check_key : String → Result String
check_key value =
    if str_eq value ""
    then ok ""
    else if ltb 128 (byte_length value)
    then err (validation "invalid_idempotency_key" "Idempotency-Key must not exceed 128 bytes")
    else if not (all_chars is_key_char value)
    then err
        (validation "invalid_idempotency_key" "Idempotency-Key contains unsupported characters")
    else ok value

-- normalizeIdempotencyKey
unfoldable pub normalize_key : String → Result String
unfolding check_key
normalize_key given = check_key (trim_space given)

abbrev pub is_exact_zero : Option Fraction → Bool
is_exact_zero none = false
is_exact_zero (some q) = not (ltb_ℕ q 0) && not (gtb_ℕ q 0)

-- A key as the store sees it.
abbrev pub IsKey : String → Type 0
IsKey key = (byte_length key ≤ 128) × (all_chars is_key_char key ≡ true)

empty-IsKey : IsKey ""
unfolding byte_length all_chars
empty-IsKey = (omega arith, refl)

check_key_lem :
    (value : String) {key : String} → check_key value ≡ ok key → (key ≡ value) × IsKey key
unfolding check_key
check_key_lem value {key} e = elim (Bool-cases (str_eq value "")) [
  | inl blank ↦
      let none_given : value ≡ "" = (eq_iff value "").0 blank in
      let same : key ≡ "" = ground (arith, e, blank) in (cc, subst IsKey (sym same) empty-IsKey)
  | inr given ↦ ground (arith, e, given)
]

-- An accepted key is what was sent without the space around it, and it is at most 128 bytes of
-- letters, digits and `._:-`. It may be empty.
pub normalize_key_lem :
    (given : String) {key : String}
    → normalize_key given ≡ ok key
    → (key ≡ trim_space given) × IsKey key
unfolding normalize_key
normalize_key_lem given e = check_key_lem (trim_space given) e
