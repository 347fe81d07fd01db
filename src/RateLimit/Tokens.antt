-- ===== src/RateLimit/Tokens.antt =====
-- The expiry of a token bucket (internal/ratelimit/redis.go).
use native.Mathlib.Nat.{mod-lt, div-add-mod, mul-le-mul_left}
use model_gate.Prelude.{ℕ, ◌+◌, ◌-◌, ◌*◌, ◌≤◌, ◌<◌, ◌≡◌, ap, arith, none, some}
use model_gate.RateLimit.{
  RedisLimiter, Bucket, unit, ceil_div, refill, take_from, token_bucket, time_to_live,
}

ceil_div-covers : (a b n : ℕ) → 0 < b → ceil_div a b ≤ n → a ≤ n * b
ceil_div-covers a b n p h =
    omega (arith, div-add-mod (a + b - 1) b, mod-lt (a + b - 1) p, mul-le-mul_left b h)

fills_up :
    (l : RedisLimiter) (b : Bucket) (now : ℕ)
    → 0 < l.rpm
    → time_to_live l ≤ now - b.timestamp
    → l.burst * unit ≤ (now - b.timestamp) * l.rpm
unfolding time_to_live
fills_up l b now p h = ceil_div-covers (l.burst * unit) l.rpm (now - b.timestamp) p (ground arith)

-- The expiry forgets nothing: once it has passed, a request meets the bucket as if it had been kept.
pub expiry_harmless :
    (l : RedisLimiter) (b : Bucket) (now : ℕ)
    → 0 < l.rpm
    → b.timestamp + time_to_live l ≤ now
    → token_bucket l now (some b) ≡ token_bucket l now none
unfolding token_bucket refill
expiry_harmless l b now p h =
    let full = fills_up l b now p (omega arith) in
    let same : refill l now (some b) ≡ refill l now none = ground (arith, full) in
    ap (take_from l now) same
