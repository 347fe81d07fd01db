-- ===== src/Wiring/Accepts.antt =====
-- What a process makes for each target is accepted (cmd/server/main.go).
use Prim.Native.Char.{code}
use model_gate.Prelude.{
  eq_iff, ℕ, ◌≡◌, refl, sym, ap, subst, ◌∙◌, arith, true, false, String, str_eq, contains,
  trim_space, trim_left, trim_right, inl, inr, Fraction, all_chars, is_space,
}
use model_gate.Errors.{ok, Result-cases}
use model_gate.Config.{Config}
use model_gate.Config.Readers.{finite, is_outside_ratio}
use model_gate.Config.Loaded.{IsUpstream, IsCircuit}
use model_gate.Config.Targets.{kinds, is_name_char, valid_provider_name}
use model_gate.Retry
use model_gate.Retry.{Policy}
use model_gate.Breaker
use model_gate.Breaker.{Breaker}
use model_gate.Semaphore
use model_gate.Semaphore.{Semaphore}
use model_gate.Wiring.{retry_options, breaker_options}

-- A provider's name has no space.
is_name_char-is_space : (c : ℕ) → is_name_char c ≡ true → is_space c ≡ false
unfolding is_space
is_name_char-is_space c h = ground arith

trim_left-name : (s : String) → all_chars is_name_char s ≡ true → trim_left s ≡ s
unfolding trim_left all_chars
trim_left-name String.[] h = refl
trim_left-name (String.◌∷◌ c s) h =
    let plain : is_space (code c) ≡ false = is_name_char-is_space (code c) (ground (arith, h)) in
    rw (plain) refl

trim_right-name : (s : String) → all_chars is_name_char s ≡ true → trim_right s ≡ s
unfolding trim_right all_chars
trim_right-name String.[] h = refl
trim_right-name (String.◌∷◌ c s) h =
    let plain : is_space (code c) ≡ false = is_name_char-is_space (code c) (ground (arith, h)) in
    let rest = trim_right-name s (ground (arith, h)) in rw (plain, rest) refl

trim_space-name : (s : String) → all_chars is_name_char s ≡ true → trim_space s ≡ s
unfolding trim_space
trim_space-name s h = ap trim_right (trim_left-name s h) ∙ trim_right-name s h

pub valid-trimmed :
    (s : String) → valid_provider_name s ≡ true → (trim_space s ≡ s) × (str_eq s "" ≡ false)
unfolding valid_provider_name
valid-trimmed s h = (trim_space-name s (ground (arith, h)), ground (arith, h))

str_eq-sym : (a b : String) → str_eq a b ≡ true → str_eq b a ≡ true
str_eq-sym a b h = let same : a ≡ b = (eq_iff a b).0 h in (eq_iff b a).1 (sym same)

pub last_kind :
    (kind : String)
    → contains kinds kind ≡ true
    → str_eq kind "mock" ≡ false
    → str_eq kind "deepseek" ≡ false
    → str_eq kind "openai-compatible" ≡ true
last_kind kind known h h' = ground (
  arith,
  known,
  h,
  h',
  str_eq-sym "mock" kind,
  str_eq-sym "deepseek" kind,
  str_eq-sym "openai-compatible" kind,
)

pub retry-accepts :
    (c : Config) → IsUpstream c.upstream → (p : Policy) × (Retry.new (retry_options c) ≡ ok p)
unfolding Retry.new
retry-accepts c i = elim (Result-cases (Retry.new (retry_options c))) [
  | inl (p, e) ↦ (p, e)
  | inr (x, e) ↦ ground (arith, e, i)
]

pub breaker-accepts :
    (ratio : Fraction) (c : Config)
    → IsCircuit c.circuit
    → c.circuit.failure_ratio ≡ finite ratio
    → (b : Breaker) × (Breaker.new (breaker_options ratio c) ≡ ok b)
unfolding Breaker.new
breaker-accepts ratio c i f =
    let inside : is_outside_ratio (finite ratio) ≡ false =
      subst (λ x. is_outside_ratio x ≡ false) f i.ratio in
    elim (Result-cases (Breaker.new (breaker_options ratio c))) [
      | inl (b, e) ↦ (b, e)
      | inr (x, e) ↦ ground (arith, e, i, inside)
    ]

pub semaphore-accepts :
    (c : Config)
    → IsCircuit c.circuit
    → (s : Semaphore) × (Semaphore.new c.circuit.max_concurrency ≡ ok s)
unfolding Semaphore.new
semaphore-accepts c i = elim (Result-cases (Semaphore.new c.circuit.max_concurrency)) [
  | inl (s, e) ↦ (s, e)
  | inr (x, e) ↦ ground (arith, e, i)
]
