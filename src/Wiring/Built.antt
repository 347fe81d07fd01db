-- ===== src/Wiring/Built.antt =====
-- A loaded configuration can be wired (buildProviderRouter of cmd/server/main.go).
use model_gate.Prelude.{
  text_append, length-map, suc, ◌≡◌, refl, sym, ap, subst, ◌∙◌, arith, true, false, List, [], ◌∷◌,
  Option, none, some, String, str_eq, trim_space, length, map, Bool-cases, inl, inr, Fraction, All,
}
use model_gate.Errors.{ok}
use model_gate.Errors.Chain.{◌>>=◌}
use model_gate.Config.{Config, load}
use model_gate.Config.Readers.{Host, finite}
use model_gate.Config.Loaded.{IsLoaded, load-IsLoaded}
use model_gate.Config.Targets.{ProviderTarget}
use model_gate.Config.Targets.Names.{IsTarget, AreTargets, HasKey}
use model_gate.Governance
use model_gate.Governance.{Guard}
use model_gate.Routing.{Router}
use model_gate.Routing.Accepted.{AreCandidates, new-accepts}
use model_gate.Wiring.Adapters.{Adapter, url_fault, base_of, new_compatible, new_target}
use model_gate.Wiring.{Governed, govern, govern_all, candidate, build_provider_router}
use model_gate.Wiring.Accepts.{
  valid-trimmed, last_kind, retry-accepts, breaker-accepts, semaphore-accepts,
}

module _ (parse_url : String → Option (String × String)) where
  -- The base URLs of a configuration are absolute, over http or https.
  pub record HasUrls (c : Config) : Type 0 where
    pub deepseek : url_fault parse_url (base_of c.deepseek_base_url) ≡ none
    pub openai : url_fault parse_url (base_of c.openai_base_url) ≡ none

  new_compatible-accepts :
      (name url key : String)
      → str_eq (trim_space name) "" ≡ false
      → url_fault parse_url (base_of url) ≡ none
      → str_eq (trim_space key) "" ≡ false
      → (a : Adapter) × (new_compatible parse_url name url key ≡ ok a)
  unfolding new_compatible
  new_compatible-accepts name url key named fine given = (
    record {
      name = trim_space name;
      endpoint = text_append (base_of url) "/chat/completions";
      api_key = trim_space key;
    },
    rw (named, fine, given) refl,
  )

  new_target-accepts :
      (c : Config) (t : ProviderTarget)
      → IsLoaded c
      → HasUrls c
      → IsTarget t
      → HasKey c.deepseek_api_key c.openai_api_key t
      → (a : Option Adapter) × (new_target parse_url c t ≡ ok a)
  unfolding new_target
  new_target-accepts c t i urls is_target key =
      let (trimmed, named) = valid-trimmed t.name is_target.name in
      let name : str_eq (trim_space t.name) "" ≡ false = rw (trimmed) named in
      elim (Bool-cases (str_eq t.kind "mock")) [
        | inl e ↦ (none, (rw (e) refl))
        | inr e ↦ elim (Bool-cases (str_eq t.kind "deepseek")) [
          | inl e' ↦
              let given : str_eq (trim_space c.deepseek_api_key) "" ≡ false =
                rw (i.deepseek_key) (ground (arith, key.for_deepseek, e')) in
              let (a, made) =
                new_compatible-accepts t.name c.deepseek_base_url c.deepseek_api_key name
                  urls.deepseek given in
              (some a, (rw (e, e', made) refl))
          | inr e' ↦
              let known : str_eq t.kind "openai-compatible" ≡ true =
                last_kind t.kind is_target.kind e e' in
              let given : str_eq (trim_space c.openai_api_key) "" ≡ false =
                rw (i.openai_key) (ground (arith, key.for_openai, known)) in
              let (a, made) =
                new_compatible-accepts t.name c.openai_base_url c.openai_api_key name urls.openai
                  given in
              (some a, (rw (e, e', known, made) refl))
        ]
      ]

  govern-accepts :
      (ratio : Fraction) (c : Config) (t : ProviderTarget)
      → IsLoaded c
      → c.circuit.failure_ratio ≡ finite ratio
      → HasUrls c
      → IsTarget t
      → HasKey c.deepseek_api_key c.openai_api_key t
      → (g : Governed) × (govern parse_url ratio c t ≡ ok g)
        × (g.guard.name ≡ t.name)
        × (g.weight ≡ t.weight)
  unfolding govern ◌>>=◌ Governance.new
  govern-accepts ratio c t i f urls is_target key =
      let (a, e1) = new_target-accepts c t i urls is_target key in
      let (p, e2) = retry-accepts c i.upstream in
      let (b, e3) = breaker-accepts ratio c i.circuit f in
      let (s, e4) = semaphore-accepts c i.circuit in
      let (trimmed, named) = valid-trimmed t.name is_target.name in
      (
        record {
          guard = record { name = t.name; policy = p };
          adapter = a;
          breaker = b;
          semaphore = s;
          weight = t.weight;
        },
        (rw (e1, e2, e3, e4, trimmed, named) refl),
        refl,
        refl,
      )

  -- What the loop has made of the targets: as many, with names that the router takes.
  govern_all-accepts :
      (ratio : Fraction) (c : Config) (ts : List ProviderTarget) (names : List String)
      → IsLoaded c
      → c.circuit.failure_ratio ≡ finite ratio
      → HasUrls c
      → AreTargets names ts
      → All (HasKey c.deepseek_api_key c.openai_api_key) ts
      → (gs : List Governed) × (govern_all parse_url ratio c ts ≡ ok gs)
        × (length (map candidate gs) ≡ length ts)
        × AreCandidates names (map candidate gs)
  unfolding govern_all ◌>>=◌
  govern_all-accepts ratio c [] names i f urls targets keys = ([], refl, refl, tt)
  govern_all-accepts ratio c (t ∷ ts) names i f urls targets (key, keys) =
      let (is_target, others) = targets.each in
      let (new, apart) = targets.distinct in
      let (g, e, named, weight) = govern-accepts ratio c t i f urls is_target key in
      let rest : AreTargets (t.name ∷ names) ts = record { each = others; distinct = apart } in
      let (gs, e', long, fit) = govern_all-accepts ratio c ts (t.name ∷ names) i f urls rest keys in
      let (trimmed, filled) = valid-trimmed t.name is_target.name in
      let same : trim_space g.guard.name ≡ t.name = ap trim_space named ∙ trimmed in
      (
        g ∷ gs,
        (rw (e, e') refl),
        ap suc long,
        (
          record { name = g.guard.name },
          refl,
          (rw (same) filled),
          (rw (same) new),
          (ground (arith, weight, is_target.some_weight)),
          subst (λ n. AreCandidates (n ∷ names) (map candidate gs)) (sym same) fit,
        ),
      )

  -- A configuration that Load returns, whose failure ratio is a number and whose base URLs are
  -- absolute over http or https, is accepted by all that main makes of it: every target gets its
  -- adapter, retry policy, breaker, semaphore and guard, and the router takes them all.
  pub load-build_provider_router :
      (h : Host) (ratio : Fraction) (c : Config)
      → load h ≡ ok c
      → c.circuit.failure_ratio ≡ finite ratio
      → HasUrls c
      → (gs : List Governed) × (r : Router) × (build_provider_router parse_url ratio c ≡ ok (gs, r))
        × (length gs ≡ length c.providers)
        × (length r.targets ≡ length c.providers)
  unfolding build_provider_router ◌>>=◌
  load-build_provider_router h ratio c e f urls =
      let i = load-IsLoaded h c e in
      let (gs, e1, long, fit) =
        govern_all-accepts ratio c c.providers [] i f urls i.targets.0 i.keys in
      let (r, e2, all) =
        new-accepts c.routing_strategy (map candidate gs) i.strategy
          (omega (arith, long, i.targets.1)) fit in
      (gs, r, (rw (e1, e2) refl), (sym (length-map candidate gs) ∙ long), all ∙ long)
