-- ===== src/Witnesses/Limits.antt =====
-- The token bucket at concrete inputs (internal/ratelimit/redis.go).
use model_gate.Errors.{ok}
use model_gate.Prelude.{[], ◌∷◌, ◌-◌, Option, ◌+◌, ◌*◌, ◌≤◌, ◌≡◌, refl, arith, none, some}
use model_gate.RateLimit.{RedisLimiter, Bucket, Buckets, allow, unit, token_bucket, time_to_live}
use model_gate.RateLimit.Grants.{serve, serve_bounded}
use model_gate.RateLimit.Allowed.{decision_of, allow_lem}

-- Thirty requests a minute, in bursts of two.
abbrev thirty : RedisLimiter
thirty = record { rpm = 30; burst = 2 }

abbrev spent : Bucket
spent = record { tokens = 0; timestamp = 1000 }

-- Three requests at once and one two seconds later: three are let in.
serve_bounded_example :
    (serve thirty (1000 ∷ 1000 ∷ 1000 ∷ 3000 ∷ []) none).0 * unit ≤ 2 * unit + (3000 - 1000) * 30
serve_bounded_example =
    serve_bounded thirty 1000 (1000 ∷ 1000 ∷ 3000 ∷ []) (omega arith)
      (omega arith, (omega arith, (omega arith, tt)))

served : (serve thirty (1000 ∷ 1000 ∷ 1000 ∷ 3000 ∷ []) none).0 ≡ 3
unfolding serve token_bucket time_to_live
served = refl

-- A Redis with one bucket, at a fixed time.
abbrev one_bucket : Buckets (Option Bucket)
one_bucket = record {
  clock = λ w. 1500;
  get_bucket = λ key w. w;
  put_bucket = λ key b ttl w. some b;
  eval = λ script w. (ok (script w).0, (script w).1);
  digest = λ s. s;
  parse_int = λ s. none;
}

allow_lem_example :
    (let (grant, kept) = token_bucket thirty 1500 (some spent) in
      allow one_bucket thirty "client" (some spent) ≡ (ok (decision_of thirty grant), some kept))
allow_lem_example = allow_lem one_bucket thirty "client" (some spent) (omega arith) (λ script. refl)
