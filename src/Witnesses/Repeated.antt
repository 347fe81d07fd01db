-- ===== src/Witnesses/Repeated.antt =====
-- Requests with one idempotency key at a concrete gateway (internal/service/gateway.go over
-- internal/idempotency/redis.go).
use model_gate.Prelude.{
  ◌≡◌, refl, ap, sym, String, arith, true, false, pos, str_eq, List, [], ◌∷◌, some, trim_space,
  byte_length, all_chars,
}
use model_gate.Errors.{Decision, Result, ok, err}
use model_gate.Idempotency
use model_gate.Idempotency.{redis_key}
use model_gate.Idempotency.Slots.{Shows}
use model_gate.Requests.{ChatResponse, check_mode, validate}
use model_gate.Gateway.{
  State, RequestMetadata, ChatResult, chat, scoped_key, enforce_rate_limit, request_fingerprint,
  cache_key,
}
use model_gate.Gateway.Keys.{normalize_key}
use model_gate.Gateway.Once.{LeavesSlot}
use model_gate.Gateway.Once.Runs.{Sent, AreOnce, chats-AreOnce}
use model_gate.Gateway.Once.Replayed.{IsReplay}
use model_gate.Gateway.Once.Repeated.{unnamed, IsNameless, served, chat-IsReplayed}
use model_gate.Witnesses.Service.{
  Fields, fields, fields-IsRedis, day, empty, hello, hello_back, order, gateway,
}

abbrev twice : List Sent
twice =
    (some hello, order)
    ∷ (some (record hello { model = "other" }), order)
    ∷ (some hello, order)
    ∷ []

order-accepted : normalize_key "order-7" ≡ ok "order-7"
unfolding normalize_key trim_space byte_length all_chars
order-accepted = refl

gateway-LeavesSlot :
    LeavesSlot (Shows fields (redis_key fields (scoped_key gateway "client" "order-7"))) gateway
gateway-LeavesSlot = record {
  clock = λ w s h. h;
  request_ids = λ w s h. h;
  provider = λ r w s h. h;
  limiter = λ allow e. absurd (cc);
  recorder = λ store e. absurd (cc);
  cache_get = λ store e. absurd (cc);
  cache_set = λ store e. absurd (cc);
}

chats-AreOnce_example : AreOnce gateway twice (record { world = empty; log = [] })
chats-AreOnce_example =
    chats-AreOnce fields fields-IsRedis day gateway "client" "order-7" refl (omega arith)
      (omega arith) (λ w script. refl) gateway-LeavesSlot refl twice empty refl
      ((refl, order-accepted), ((refl, order-accepted), ((refl, order-accepted), tt)))

abbrev start : State Fields
start = record { world = empty; log = [] }

abbrev passed : Decision
passed = record { allowed = true; limit = pos 0; remaining = pos 0; retry_after = pos 0 }

abbrev first : ChatResult
first = record {
  response = hello_back;
  request_id = "id";
  provider = "deepseek";
  cache_status = "BYPASS";
  idempotency_replayed = false;
  rate_limit = passed;
}

-- The same order, sent again.
abbrev order_again : RequestMetadata
order_again = record order { request_id = "again" }

order_answered : (chat gateway (some hello) order start).0 ≡ ok first
unfolding chat normalize_key trim_space byte_length all_chars check_mode validate Idempotency.begin
    Idempotency.complete enforce_rate_limit request_fingerprint cache_key Idempotency.redis_key
    scoped_key
order_answered = refl

admitted : (s : State Fields) → (d : Decision) × ((enforce_rate_limit gateway "client" s).0 ≡ ok d)
unfolding enforce_rate_limit
admitted s = (passed, refl)

again_named : str_eq (trim_space "again") "" ≡ false
unfolding trim_space
again_named = refl

-- No response that it decodes has a provider.
nameless : IsNameless gateway
nameless p a h = ap provider_of (sym h)
  where
    provider_of : Result ChatResponse → String
    provider_of (ok b) = b.provider
    provider_of (err e) = ""

chat-IsReplayed_example : IsReplay (unnamed hello_back) (
    chat gateway
      (some hello)
      order_again
      (served gateway twice (chat gateway (some hello) order start).1))
chat-IsReplayed_example =
    chat-IsReplayed fields fields-IsRedis day gateway "client" "order-7" refl (omega arith)
      (omega arith) (λ w script. refl) gateway-LeavesSlot refl admitted twice (some hello) order
      order_again start first "response" refl (refl, order-accepted)
      ((refl, order-accepted), ((refl, order-accepted), ((refl, order-accepted), tt)))
      (refl, order-accepted) again_named order_answered refl refl nameless
