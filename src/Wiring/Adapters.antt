-- ===== src/Wiring/Adapters.antt =====
-- An adapter for a vendor, from the configuration (NewOpenAICompatibleProvider of
-- internal/provider/openai_compatible.go, NewTargetFromConfig of internal/provider/factory.go). The HTTP
-- client that it is given is not nil.
use model_gate.Prelude.{
  not, ◌&&◌, ◌||◌, Option, none, some, String, str_eq, trim_space, text_append, if◌then◌else◌,
  trim_slashes,
}
use model_gate.Errors.{message, Result, ok, err}
use model_gate.Config.{Config}
use model_gate.Config.Targets.{ProviderTarget}

-- OpenAICompatibleProvider, but for its client.
pub record Adapter : Type 0 where
  pub name : String
  pub endpoint : String
  pub api_key : String

abbrev pub base_of : String → String
base_of base_url = trim_slashes (trim_space base_url)

module _ (parse_url : String → Option (String × String)) where
  -- The tests on the parsed base URL; what is wrong with it.
  unfoldable pub url_fault : String → Option String
  url_fault base_url = elim (parse_url base_url) [
    | none ↦ some "provider base URL must be an absolute URL"
    | some (scheme, host) ↦
        if str_eq scheme "" || str_eq host ""
        then some "provider base URL must be an absolute URL"
        else if not (str_eq scheme "http") && not (str_eq scheme "https")
        then some "provider base URL must use http or https"
        else none
  ]

  unfoldable pub new_compatible : String → String → String → Result Adapter
  unfolding url_fault
  new_compatible name base_url api_key =
      if str_eq (trim_space name) ""
      then err (message "provider name is required")
      else elim (url_fault (base_of base_url)) [
        | some fault ↦ err (message fault)
        | none ↦
            if str_eq (trim_space api_key) ""
            then err (message "provider API key is required")
            else ok (record {
              name = trim_space name;
              endpoint = text_append (base_of base_url) "/chat/completions";
              api_key = trim_space api_key;
            })
      ]

  abbrev adapted : Result Adapter → Result (Option Adapter)
  adapted (ok a) = ok (some a)
  adapted (err e) = err e

  -- NewTargetFromConfig; `none` is the mock.
  unfoldable pub new_target : Config → ProviderTarget → Result (Option Adapter)
  unfolding new_compatible
  new_target c t =
      if str_eq t.kind "mock"
      then ok none
      else if str_eq t.kind "deepseek"
      then adapted (new_compatible t.name c.deepseek_base_url c.deepseek_api_key)
      else if str_eq t.kind "openai-compatible"
      then adapted (new_compatible t.name c.openai_base_url c.openai_api_key)
      else err (
          message (
            text_append "unsupported provider type \""
              (text_append t.kind (text_append "\" for target \"" (text_append t.name "\"")))))
