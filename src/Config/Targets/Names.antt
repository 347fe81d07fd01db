-- ===== src/Config/Targets/Names.antt =====
-- The providers that MODEL_PROVIDERS gives (providerTargets of internal/config/config.go).
use model_gate.Prelude.{
  ℕ, suc, ◌+◌, ◌≤◌, ◌≡◌, refl, ap, arith, Bool, true, false, ◌&&◌, List, [], ◌∷◌, Option, none,
  some, String, str_eq, contains, trim_space, ℤ, pos, ◌≤ℤ◌, All, Bool-cases, inl, inr, byte_length,
  all_chars, split_on, length, eq_iff,
}
use model_gate.Errors.{Error, Result, ok, err}
use model_gate.Errors.Chain.{
  ◌>>◌, Ensures, Ensures-bind, Ensures-then, Ensures-weaken, Ensures-fail_if,
}
use model_gate.Config.Readers.{Host}
use model_gate.Config.Targets.{
  ProviderTarget, kinds, valid_provider_name, accept_weight, in_entry, provider_kind, check_fields,
  read_entries, provider_targets, check_key, check_keys,
}

pub record IsTarget (t : ProviderTarget) : Type 0 where
  pub name : valid_provider_name t.name ≡ true
  pub kind : contains kinds t.kind ≡ true
  pub some_weight : pos 1 ≤ℤ t.weight
  pub little_weight : t.weight ≤ℤ pos 100

-- The names are new, and differ from each other.
abbrev pub AreDistinct : List String → List ProviderTarget → Type 0
AreDistinct names [] = Unit {0}
AreDistinct names (t ∷ ts) = (contains names t.name ≡ false) × AreDistinct (t.name ∷ names) ts

pub record AreTargets (names : List String) (ts : List ProviderTarget) : Type 0 where
  pub each : All IsTarget ts
  pub distinct : AreDistinct names ts

abbrev IsKind : String → Type 0
IsKind kind = contains kinds kind ≡ true

abbrev IsWeight : ℤ → Type 0
IsWeight w = (pos 1 ≤ℤ w) × (w ≤ℤ pos 100)

accept_weight-IsWeight : (w : Option ℤ) (e : Error) → Ensures IsWeight (accept_weight w e)
accept_weight-IsWeight none e = tt
accept_weight-IsWeight (some w) e = ground arith

in_entry-Ensures :
    {A : Type 0} (P : A → Type 0) (what : String) (m : Result A)
    → Ensures P m
    → Ensures P (in_entry what m)
in_entry-Ensures P what (ok a) h = h
in_entry-Ensures P what (err e) h = tt

-- The three kinds are names too.
kinds-valid : (kind : String) → IsKind kind → valid_provider_name kind ≡ true
unfolding valid_provider_name byte_length all_chars
kinds-valid kind h = elim (Bool-cases (str_eq "mock" kind)) [
  | inl e ↦ rw⁻¹ ((eq_iff "mock" kind).0 e) refl
  | inr e ↦ elim (Bool-cases (str_eq "deepseek" kind)) [
    | inl e' ↦ rw⁻¹ ((eq_iff "deepseek" kind).0 e') refl
    | inr e' ↦
        let last : str_eq "openai-compatible" kind ≡ true = ground (arith, h, e, e') in
        rw⁻¹ ((eq_iff "openai-compatible" kind).0 last) refl
  ]
]

split_on-nonempty : (separator : ℕ) (s : String) → 1 ≤ length (split_on separator s)
unfolding split_on
split_on-nonempty separator String.[] = ground arith
split_on-nonempty separator (String.◌∷◌ c s) = ground arith

abbrev pub AreSome : List ProviderTarget → Type 0
AreSome ts = AreTargets [] ts × (1 ≤ length ts)

module _ (h : Host) where
  provider_kind-IsKind : (value : String) → Ensures IsKind (provider_kind h value)
  unfolding provider_kind
  provider_kind-IsKind value = ground arith

  abbrev IsNew : List String → ProviderTarget → Type 0
  IsNew names t = IsTarget t × (contains names t.name ≡ false)

  check_fields-IsNew :
      (index : ℕ) (names fields : List String)
      → Ensures (IsNew names) (check_fields h index names fields)
  unfolding check_fields
  check_fields-IsNew index names (n ∷ k ∷ w ∷ []) = Ensures-then (IsNew names) _ _ _ λ valid.
      Ensures-then (IsNew names) _ _ _ λ new.
        Ensures-bind IsKind (IsNew names) _ _
          (in_entry-Ensures IsKind _ _ (provider_kind-IsKind (trim_space k)))
          λ kind is_kind.
            Ensures-bind IsWeight (IsNew names) _ _
              (accept_weight-IsWeight (h.atoi (trim_space w)) _) λ weight is_weight. ground arith
  check_fields-IsNew index names [] = tt
  check_fields-IsNew index names (n ∷ []) = tt
  check_fields-IsNew index names (n ∷ k ∷ []) = tt
  check_fields-IsNew index names (n ∷ k ∷ w ∷ x ∷ xs) = tt

  abbrev Read : List String → List String → List ProviderTarget → Type 0
  Read parts names ts = AreTargets names ts × (length ts ≡ length parts)

  read_entries-Read :
      (parts : List String) (index : ℕ) (names : List String)
      → Ensures (Read parts names) (read_entries h index names parts)
  unfolding read_entries
  read_entries-Read [] index names = (record { each = tt; distinct = tt }, refl)
  read_entries-Read (part ∷ parts) index names =
      Ensures-bind (IsNew names) (Read (part ∷ parts) names) _ _
        (check_fields-IsNew index names (split_on b':' (trim_space part)))
        λ t (is_target, new).
          Ensures-bind (Read parts (t.name ∷ names)) (Read (part ∷ parts) names) _ _
            (read_entries-Read parts (index + 1) (t.name ∷ names))
            λ ts (rest, long). (
              record { each = (is_target, rest.each); distinct = (new, rest.distinct) },
              ap suc long,
            )

  pub provider_targets-AreSome : (legacy : String) → Ensures AreSome (provider_targets h legacy)
  unfolding provider_targets
  provider_targets-AreSome legacy =
      elim (Bool-cases (str_eq (trim_space (h.env "MODEL_PROVIDERS")) "")) [
        | inl e ↦
            rw (provider_targets, e)
              (Ensures-bind IsKind AreSome (in_entry "MODEL_PROVIDER" (provider_kind h legacy)) _
                (in_entry-Ensures IsKind _ _ (provider_kind-IsKind legacy))
                (λ kind is_kind. (
                  record {
                    each = (
                      record {
                        name = kinds-valid kind is_kind;
                        kind = is_kind;
                        some_weight = ground arith;
                        little_weight = ground arith;
                      },
                      tt,
                    );
                    distinct = (refl, tt);
                  },
                  ground arith,
                )))
        | inr e ↦
            rw (provider_targets, e)
              (Ensures-weaken (Read (split_on b',' (trim_space (h.env "MODEL_PROVIDERS"))) [])
                AreSome _
                (read_entries-Read (split_on b',' (trim_space (h.env "MODEL_PROVIDERS"))) 1 [])
                (λ ts (targets, long). (
                  targets,
                  omega
                      (arith, long, split_on-nonempty b',' (trim_space (h.env "MODEL_PROVIDERS"))),
                )))
      ]

-- A provider that calls a vendor has the key for it.
pub record HasKey (deepseek openai : String) (t : ProviderTarget) : Type 0 where
  pub for_deepseek : str_eq t.kind "deepseek" && str_eq deepseek "" ≡ false
  pub for_openai : str_eq t.kind "openai-compatible" && str_eq openai "" ≡ false

module _ (deepseek openai : String) where
  check_key-HasKey :
      (t : ProviderTarget) → Ensures (λ _. HasKey deepseek openai t) (check_key deepseek openai t)
  unfolding check_key
  check_key-HasKey t =
      let needs : Bool = str_eq t.kind "openai-compatible" && str_eq openai "" in
      Ensures-then (λ _. HasKey deepseek openai t) _ _ _
        λ first.
          Ensures-weaken (λ _. needs ≡ false) (λ _. HasKey deepseek openai t) _
            (Ensures-fail_if needs _)
            (λ _ second. record { for_deepseek = first; for_openai = second })

  -- Load goes on only if each target has its key.
  pub check_keys-HasKey :
      (ts : List ProviderTarget)
      → Ensures (λ _. All (HasKey deepseek openai) ts) (check_keys deepseek openai ts)
  unfolding check_keys ◌>>◌
  check_keys-HasKey [] = tt
  check_keys-HasKey (t ∷ ts) =
      Ensures-bind (λ _. HasKey deepseek openai t) (λ _. All (HasKey deepseek openai) (t ∷ ts)) _ _
        (check_key-HasKey t)
        λ _ one.
          Ensures-weaken (λ _. All (HasKey deepseek openai) ts)
            (λ _. All (HasKey deepseek openai) (t ∷ ts)) _ (check_keys-HasKey ts)
            (λ _ rest. (one, rest))
