-- ===== src/Routing/Failover.antt =====
-- The failover of the router (Chat, ChatStream and unavailable in internal/routing/router.go).
-- Chat and ChatStream have one loop: `A` is what a target answers, `label` what the router makes of it
-- (the provider's name in a response, a namedStream around a stream). `excluded` grows by one name a
-- round, so one round more than there are targets is fuel enough; `none` is fuel run out.
pub mod Tries
use model_gate.Prelude.{
  ℕ, zero, suc, Bool, true, false, Option, none, some, List, [], ◌∷◌, length, ltb, if◌then◌else◌,
  String, contains,
}
use model_gate.Errors.{
  Error, sentinel, message, upstream_because, circuit_open, no_healthy_providers, unavailable,
  invalid_response, errors_is, Result, ok, err,
}
use model_gate.Requests.{ChatResponse}
use model_gate.Routing.{Target, Router, select_target}

-- The targets as the router meets them: which are Available while one is selected, and a call.
pub record Network (W A : Type 0) : Type 0 where
  pub look : W → (Target → Bool) × W
  pub call : Target → W → Result (Option A) × W

-- What one request does: its result, the calls that it made, and what is left.
pub record Routed (W A B : Type 0) : Type 0 where
  pub result : Result B
  pub calls : List (Target × Result (Option A))
  pub router : Router
  pub world : W

-- unavailable
unfoldable pub unavailable_error : String → Error
unavailable_error operation =
    upstream_because
      (record {
        provider = "router";
        operation = operation;
        kind = unavailable;
        status_code = 0;
        retryable = false;
      })
      (sentinel no_healthy_providers)

-- An insertion into the set of excluded names.
abbrev pub exclude : String → List String → List String
exclude name excluded = if contains excluded name then excluded else name ∷ excluded

abbrev pub is_open_error : {A : Type 0} → Result A → Bool
is_open_error (ok a) = false
is_open_error (err e) = errors_is e circuit_open

module _ {A B : Type 0} (operation what : String) (label : String → A → B) where
  -- The result of a request whose last call was this.
  unfoldable pub deliver : Target → Result (Option A) → Result B
  deliver t (err e) = err e
  deliver t (ok (some a)) = ok (label t.name a)
  deliver t (ok none) = err (
      upstream_because
        (record {
          provider = t.name;
          operation = operation;
          kind = invalid_response;
          status_code = 0;
          retryable = false;
        })
        (message what))

module _ {W A B : Type 0} (operation what : String) (label : String → A → B)
    (net : Network W A) where
  abbrev add_call : Target × Result (Option A) → Option (Routed W A B) → Option (Routed W A B)
  add_call c none = none
  add_call c (some x) = some (record x { calls = c ∷ x.calls })

  -- What follows a call; `rest` is the rest of the loop.
  after_call :
      (List String → W → Option (Routed W A B))
      → List String
      → Router
      → Target
      → Result (Option A)
      → W
      → Option (Routed W A B)
  unfolding deliver
  after_call rest excluded r t answer w =
      let later = rest (exclude t.name excluded) w in
      if is_open_error answer
      then add_call (t, answer) later
      else some (record {
        result = deliver operation what label t answer;
        calls = (t, answer) ∷ [];
        router = r;
        world = w;
      })

  abbrev give_up : Router → W → Option (Routed W A B)
  give_up r w =
      some
        (record { result = err (unavailable_error operation); calls = []; router = r; world = w })

  call_selected :
      (Router → List String → W → Option (Routed W A B))
      → List String
      → Router × Option Target
      → W
      → Option (Routed W A B)
  unfolding after_call
  call_selected rest excluded (r, none) w = give_up r w
  call_selected rest excluded (r, some t) w =
      let (answer, w') = net.call t w in after_call (rest r) excluded r t answer w'

  -- The loop.
  failover : ℕ → Router → List String → W → Option (Routed W A B)
  unfolding call_selected
  failover zero r excluded w = none
  failover (suc fuel) r excluded w =
      let (up, w') = net.look w in
      let again =
        call_selected (λ r' excluded' v. failover fuel r' excluded' v) excluded
          (select_target excluded up r) w' in
      if ltb (length excluded) (length r.targets) then again else give_up r w

  -- Chat and ChatStream
  unfoldable pub route : Router → W → Option (Routed W A B)
  unfolding failover
  route r w = failover (suc (length r.targets)) r [] w

-- namedStream
pub record NamedStream (S : Type 0) : Type 0 where
  pub name : String
  pub inner : S

abbrev rename : String → ChatResponse → ChatResponse
rename name a = record a { provider = name }

abbrev name_stream : {S : Type 0} → String → S → NamedStream S
name_stream name s = record { name = name; inner = s }

-- Chat
unfoldable pub chat :
    {W : Type 0} → Network W ChatResponse → Router → W → Option (Routed W ChatResponse ChatResponse)
unfolding route
chat net r w = route "chat" "provider returned a nil response" rename net r w

-- ChatStream
unfoldable pub chat_stream :
    {W S : Type 0} → Network W S → Router → W → Option (Routed W S (NamedStream S))
unfolding route
chat_stream net r w = route "chat stream" "provider returned a nil stream" name_stream net r w
