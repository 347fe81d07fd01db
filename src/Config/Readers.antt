-- ===== src/Config/Readers.antt =====
-- The readers of single variables (internal/config/config.go). The environment is a function; the
-- parsers of the standard library are a record of parameters.
use model_gate.Prelude.{
  ℕ, Bool, true, false, not, ◌||◌, Option, none, some, String, str_eq, trim_space, text_append,
  decimal, if◌then◌else◌, ℤ, pos, leb_ℤ, ltb_ℤ, Fraction, gtb_ℕ,
}
use model_gate.Errors.{message, Result, ok, err}

-- A `float64`, as far as it is compared.
pub data Float : Type 0 where
  finite : Fraction → Float
  infinity minus_infinity not_a_number : Float

-- `os.Getenv`, `strings.ToLower`, `time.ParseDuration` in nanoseconds, `strconv.Atoi`, ParseBool,
-- ParseFloat, ParseUint of 16 bits, and the address that net/url makes of the parts of a DSN.
pub record Host : Type 0 where
  pub env : String → String
  pub lower : String → String
  pub parse_duration : String → Option ℤ
  pub atoi : String → Option ℤ
  pub parse_bool : String → Option Bool
  pub parse_float : String → Option Float
  pub parse_port : String → Option ℕ
  pub address : String → String → String → String → String → String → String

-- `value <= 0 || value > 1`; both are false of a NaN.
abbrev pub is_outside_ratio : Float → Bool
is_outside_ratio (finite f) = not (gtb_ℕ f 0) || gtb_ℕ f 1
is_outside_ratio infinity = true
is_outside_ratio minus_infinity = true
is_outside_ratio not_a_number = false

module _ (h : Host) where
  unfoldable pub env_or_default : String → String → String
  env_or_default name fallback =
      let value = trim_space (h.env name) in if str_eq value "" then fallback else value

  abbrev refusal : {A : Type 0} → String → String → Result A
  refusal name what = err (message (text_append name what))

  unfoldable pub positive_duration : String → String → Result ℤ
  positive_duration name fallback = elim (h.parse_duration (env_or_default name fallback)) [
    | none ↦ refusal name " must be a positive Go duration"
    | some value ↦
        if leb_ℤ value (pos 0) then refusal name " must be a positive Go duration" else ok value
  ]

  unfoldable pub boolean : String → Bool → Result Bool
  boolean name fallback =
      let raw = trim_space (h.env name) in
      if str_eq raw "" then ok fallback else elim (h.parse_bool raw) [
        | none ↦ refusal name " must be true or false"
        | some value ↦ ok value
      ]

  unfoldable pub positive_int : String → ℕ → Result ℤ
  positive_int name fallback = elim (h.atoi (env_or_default name (decimal fallback))) [
    | none ↦ refusal name " must be a positive integer"
    | some value ↦
        if leb_ℤ value (pos 0) then refusal name " must be a positive integer" else ok value
  ]

  -- The fallback as FormatFloat writes it.
  unfoldable pub positive_ratio : String → String → Result Float
  positive_ratio name fallback = elim (h.parse_float (env_or_default name fallback)) [
    | none ↦ refusal name " must be a number in (0, 1]"
    | some value ↦
        if is_outside_ratio value then refusal name " must be a number in (0, 1]" else ok value
  ]

  unfoldable pub non_negative_int : String → ℕ → Result ℤ
  non_negative_int name fallback = elim (h.atoi (env_or_default name (decimal fallback))) [
    | none ↦ refusal name " must be a non-negative integer"
    | some value ↦
        if ltb_ℤ value (pos 0) then refusal name " must be a non-negative integer" else ok value
  ]
