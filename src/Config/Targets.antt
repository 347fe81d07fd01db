-- ===== src/Config/Targets.antt =====
-- The providers that MODEL_PROVIDERS names (providerTargets, providerKind and validProviderName of
-- internal/config/config.go).
pub mod Names
use model_gate.Prelude.{
  ℕ, suc, ◌+◌, Bool, true, false, not, ◌&&◌, ◌||◌, List, [], ◌∷◌, Option, none, some, String,
  str_eq, contains, trim_space, text_append, decimal, byte_length, all_chars, split_on,
  if◌then◌else◌, ltb, leb, ◌==◌, ℤ, pos, leb_ℤ, ltb_ℤ,
}
use model_gate.Errors.{Error, message, wrapped, Result, ok, err}
use model_gate.Errors.Chain.{◌>>=◌, ◌>>◌, fail_if}
use model_gate.Config.Readers.{Host}

pub record ProviderTarget : Type 0 where
  pub name : String
  pub kind : String
  pub weight : ℤ

abbrev pub kinds : List String
kinds = "mock" ∷ "deepseek" ∷ "openai-compatible" ∷ []

abbrev pub is_name_char : ℕ → Bool
is_name_char c =
    (leb b'a' c && leb c b'z')
    || (leb b'A' c && leb c b'Z')
    || (leb b'0' c && leb c b'9')
    || c == b'.'
    || c == b'_'
    || c == b'-'

unfoldable pub valid_provider_name : String → Bool
valid_provider_name value =
    not (str_eq value "" || ltb 64 (byte_length value)) && all_chars is_name_char value

-- The weight of an entry, where it is one.
abbrev accept_weight : Option ℤ → Error → Result ℤ
accept_weight none e = err e
accept_weight (some weight) e =
    if leb_ℤ weight (pos 0) || ltb_ℤ (pos 100) weight then err e else ok weight

abbrev entry : ℕ → String → String
entry index what = text_append "MODEL_PROVIDERS entry " (text_append (decimal index) what)

abbrev in_entry : {A : Type 0} → String → Result A → Result A
in_entry what (ok a) = ok a
in_entry what (err e) = err (wrapped what e)

module _ (h : Host) where
  unfoldable pub provider_kind : String → Result String
  provider_kind value =
      let kind = h.lower (trim_space value) in
      if contains kinds kind
      then ok kind
      else err (message "type must be one of \"mock\", \"deepseek\", or \"openai-compatible\"")

  -- One round of the loop, with the fields of the entry; `index` counts from 1.
  check_fields : ℕ → List String → List String → Result ProviderTarget
  unfolding provider_kind valid_provider_name
  check_fields index names (n ∷ k ∷ w ∷ []) = do
    let name = trim_space n
    fail_if (not (valid_provider_name name)) (message (entry index " has an invalid name"))
    fail_if (contains names name) (
        message
          (text_append "MODEL_PROVIDERS provider name \"" (text_append name "\" is duplicated")))
    kind ← in_entry (entry index "") (provider_kind (trim_space k))
    weight ←
        accept_weight (h.atoi (trim_space w))
          (message (entry index " weight must be between 1 and 100"))
    ok (record { name = name; kind = kind; weight = weight })
  check_fields index names _ = err (message (entry index " must use name:type:weight"))

  -- The loop.
  read_entries : ℕ → List String → List String → Result (List ProviderTarget)
  unfolding check_fields
  read_entries index names [] = ok []
  read_entries index names (part ∷ parts) =
      check_fields index names (split_on b':' (trim_space part)) >>= λ t.
      read_entries (index + 1) (t.name ∷ names) parts >>= λ ts. ok (t ∷ ts)

  -- providerTargets
  unfoldable pub provider_targets : String → Result (List ProviderTarget)
  unfolding read_entries provider_kind
  provider_targets legacy =
      let raw = trim_space (h.env "MODEL_PROVIDERS") in
      if str_eq raw ""
      then (in_entry "MODEL_PROVIDER" (provider_kind legacy) >>= λ kind.
          ok (record { name = kind; kind = kind; weight = pos 1 } ∷ []))
      else read_entries 1 [] (split_on b',' raw)

-- The loop of Load over the targets, for their API keys.
unfoldable pub check_key : String → String → ProviderTarget → Result (Unit {0})
check_key deepseek openai t = do
  fail_if (str_eq t.kind "deepseek" && str_eq deepseek "") (
      message (
        text_append "DEEPSEEK_API_KEY is required for deepseek provider \""
          (text_append t.name "\"")))
  fail_if (str_eq t.kind "openai-compatible" && str_eq openai "") (
      message (
        text_append "OPENAI_API_KEY is required for openai-compatible provider \""
          (text_append t.name "\"")))

unfoldable pub check_keys : String → String → List ProviderTarget → Result (Unit {0})
unfolding check_key
check_keys deepseek openai [] = ok tt
check_keys deepseek openai (t ∷ ts) = check_key deepseek openai t >> check_keys deepseek openai ts

-- `cfg.Providers[0].Kind`; Load reads it where there is a first.
abbrev pub kind_of_first : List ProviderTarget → String
kind_of_first [] = ""
kind_of_first (t ∷ ts) = t.kind
