-- ===== src/Witnesses/Service.antt =====
-- The service layer at concrete inputs (internal/service, internal/idempotency, internal/api).
use model_gate.Prelude.{
  ◌*◌, ◌^◌, ◌≡◌, inl, refl, arith, Bool, false, ◌&&◌, [], ◌∷◌, Option, none, some, String, str_eq,
  eq_iff, eq_refl, if◌then◌else◌, pos, ◌↔◌, trim_space, byte_length, all_chars,
}
use model_gate.Errors.{Error, message, dependency_because, Decision, ok, err}
use model_gate.Idempotency
use model_gate.Idempotency.{Redis, IsRedis, RedisStore, Status, acquired, milliseconds, LeaseStore}
use model_gate.Idempotency.Slots.{free, held, Shows, is_none, store_refines}
use model_gate.Requests.{ChatRequest, ChatResponse, validate, check_mode}
use model_gate.Requests.Validation.{IsAcceptable, validate_lem}
use model_gate.Responses.{as_rate_limited}
use model_gate.Gateway.{
  Collaborators, RequestMetadata, no_usage, chat, completed_with, enforce_rate_limit,
  request_fingerprint, cache_key, scoped_key,
}
use model_gate.Gateway.Keys.{normalize_key}
use model_gate.Gateway.Leases.{Settled, grants, settlements}
use model_gate.Gateway.Settled.{chat-Settled}
use model_gate.Gateway.Accounts.{Accounted}
use model_gate.Gateway.Recorded.{CodesBy, chat-Accounted, chat-Codes}

-- A Redis that keeps its fields in a function and forgets nothing in time.
abbrev pub Fields : Type 0
Fields = String → String → Option String

abbrev pub same_field : String → String → String → String → Bool
same_field k f k' f' = str_eq k k' && str_eq f f'

abbrev pub fields : Redis Fields
fields = record {
  get_field = λ k f w. w k f;
  set_field = λ k f v w k' f'. if same_field k f k' f' then some v else w k' f';
  expire = λ k n w. w;
  delete = λ k w. (1, λ k' f'. if str_eq k k' then none else w k' f');
  eval = λ script w. (ok (script w).0, (script w).1);
}

pub fields-IsRedis : IsRedis fields
fields-IsRedis = record {
  get_set = λ k f v w. rw (eq_refl k, eq_refl f) refl;
  get_set_other = λ k f v k' f' w h. grind (arith, h, eq_iff k k', eq_iff f f');
  get_expire = λ k k' f' n w h. refl;
  get_delete = λ k f w. rw (eq_refl k) refl;
  get_delete_other = λ k k' f w h. grind (arith, h, eq_iff k k');
}

abbrev pub day : RedisStore
day = record { lock_ttl = 60 * 10 ^ 9; result_ttl = 86400 * 10 ^ 9 }

abbrev pub empty : Fields
empty k f = none

empty-Shows : Shows fields (Idempotency.redis_key fields "k") empty free
empty-Shows = refl

store_refines_example :
    (((Idempotency.begin fields day "k" "f" empty).0 ≡ ok (acquired, ""))
      × Shows fields
          (Idempotency.redis_key fields "k")
          (Idempotency.begin fields day "k" "f" empty).1
          (held "f"))
    × ((is_none (Idempotency.complete fields day "k" "f" "p" empty).0 ≡ false)
        × Shows fields
            (Idempotency.redis_key fields "k")
            (Idempotency.complete fields day "k" "f" "p" empty).1
            free)
    × (((Idempotency.release fields day "k" "f" empty).0 ≡ none)
        × Shows fields
            (Idempotency.redis_key fields "k")
            (Idempotency.release fields day "k" "f" empty).1
            free)
store_refines_example =
    store_refines fields fields-IsRedis day "k" "f" "p" empty free (omega arith) (omega arith)
      (λ script. refl) empty-Shows

abbrev pub hello : ChatRequest
hello = record {
  model = "deepseek-chat";
  messages = record { role = "user"; content = "hello" } ∷ [];
  temperature = some (record { num = pos 0; den = 0 });
  top_p = none;
  max_tokens = some (pos 64);
  stream = false;
}

validate_lem_example : (validate (some hello) ≡ none) ↔ IsAcceptable hello
validate_lem_example = validate_lem hello

key_accepted : normalize_key " order-7 " ≡ ok "order-7"
unfolding normalize_key trim_space byte_length all_chars
key_accepted = refl

-- A limiter that does not answer.
abbrev limiter_down : Error
limiter_down = dependency_because "rate_limiter_unavailable" (message "connection refused")

limiter_down-as_rate_limited : as_rate_limited limiter_down ≡ none
unfolding as_rate_limited
limiter_down-as_rate_limited = refl

-- One and a half seconds.
abbrev turned_away : Decision
turned_away = record {
  allowed = false;
  limit = pos 20;
  remaining = pos 0;
  retry_after = pos (15 * 10 ^ 8);
}

abbrev pub hello_back : ChatResponse
hello_back = record {
  provider = "deepseek";
  id = "1";
  object = "chat.completion";
  created = pos 0;
  model = "deepseek-chat";
  choices = [];
  usage = no_usage;
}

-- A gateway with a lease store, and no limiter, cache or recorder.
abbrev pub gateway : Collaborators Fields
gateway = record {
  limiter = none;
  rate_limit_fail_open = false;
  leases = some (Idempotency.lease_store fields day);
  cache = none;
  recorder = none;
  provider_name = "router";
  provider = λ r w. (ok hello_back, w);
  new_request_id = λ w. (ok "id", w);
  clock = λ w. (0, w);
  encode_request = λ r. ok "request";
  encode_response = λ r. ok "response";
  decode_response = λ p. ok (record hello_back { provider = "" });
  digest = λ s. s;
}

abbrev pub order : RequestMetadata
order = record { client_identity = "client"; idempotency_key = "order-7"; request_id = "" }

chat-Settled_example :
    (let (r, s) = chat gateway (some hello) order (record { world = empty; log = [] }) in
      Settled gateway r s.log)
chat-Settled_example = chat-Settled gateway (some hello) order empty

-- The lease of that request is granted and completed.
order_completed :
    (let (r, s) = chat gateway (some hello) order (record { world = empty; log = [] }) in
      (grants s.log ≡ ("client\0order-7", "request") ∷ [])
      × (settlements s.log ≡ completed_with "client\0order-7" "request" "response" ∷ []))
unfolding chat normalize_key trim_space byte_length all_chars check_mode validate Idempotency.begin
    Idempotency.complete enforce_rate_limit request_fingerprint cache_key Idempotency.redis_key
    scoped_key
order_completed = (refl, refl)

-- The same gateway, with a recorder that never fails.
abbrev pub recording_gateway : Collaborators Fields
recording_gateway = record gateway { recorder = some (λ r w. (none, w)) }

chat-Accounted_example :
    (let (r, s) = chat recording_gateway (some hello) order (record { world = empty; log = [] }) in
      Accounted r s.log)
chat-Accounted_example = chat-Accounted recording_gateway (some hello) order empty refl

-- That gateway, with a limiter that does not answer.
abbrev limited_gateway : Collaborators Fields
limited_gateway = record recording_gateway {
  limiter = some (λ who w. (err (message "connection refused"), w));
}

limited :
    (chat limited_gateway (some hello) order (record { world = empty; log = [] })).0
    ≡ err limiter_down
unfolding chat normalize_key trim_space byte_length all_chars check_mode validate enforce_rate_limit
limited = refl

chat-Codes_example :
    CodesBy limiter_down
      (chat limited_gateway (some hello) order (record { world = empty; log = [] })).1.log
chat-Codes_example =
    chat-Codes limited_gateway (some hello) order empty limiter_down refl limited
      (inl limiter_down-as_rate_limited)
