-- ===== src/RateLimit.antt =====
-- The rate limiter (internal/ratelimit/redis.go): the Lua script, on the bucket of one identity, and
-- Allow around it, which reads the script's reply.
-- Tokens are counted in sixty-thousandths, so that a millisecond adds `rpm` of them: the numbers of the
-- script, which are rounded to doubles, are exact fractions here. The rounding can make the script's
-- delay a millisecond shorter than this one, so nothing is said of a wait by that delay. `now` is Redis's clock in milliseconds; a bucket
-- that is missing, or has expired, is `none`.
pub mod Tokens
pub mod Grants
pub mod Allowed
use model_gate.Prelude.{
  ℕ, ◌+◌, ◌-◌, ◌*◌, ◌/◌, Bool, true, false, Option, none, some, ltb, leb, if◌then◌else◌, ℤ, pos,
  pos_part, ◌||◌, leb_ℤ, ◌==◌, ltb_ℤ, negsuc, wrap_64, scale, one_if, String, text_append, List, [],
  ◌∷◌,
}
use model_gate.Errors.{Decision, message, wrapped, Result, ok, err}
use model_gate.Errors.Chain.{◌>>=◌}
use model_gate.Idempotency.{Value, text, number, Reply, single, several}

-- RedisLimiter
pub record RedisLimiter : Type 0 where
  pub rpm : ℕ
  pub burst : ℕ

-- NewRedisLimiter, of an evaluator that is not nil.
unfoldable pub new : ℤ → ℤ → Result RedisLimiter
new rpm burst =
    if leb_ℤ rpm (pos 0) || leb_ℤ burst (pos 0)
    then err (message "rate limiter rpm and burst must be positive")
    else ok (record { rpm = pos_part rpm; burst = pos_part burst })

-- A whole token.
abbrev pub unit : ℕ
unit = 60000

pub record Bucket : Type 0 where
  pub tokens : ℕ
  pub timestamp : ℕ

pub record Grant : Type 0 where
  pub allowed : Bool
  pub remaining : ℕ
  pub retry_after : ℕ

abbrev pub ceil_div : ℕ → ℕ → ℕ
ceil_div a b = (a + b - 1) / b

abbrev pub minimum : ℕ → ℕ → ℕ
minimum a b = if leb a b then a else b

-- `tokens`, before the request takes its own.
unfoldable pub refill : RedisLimiter → ℕ → Option Bucket → ℕ
refill l now none = l.burst * unit
refill l now (some b) = minimum (l.burst * unit) (b.tokens + (now - b.timestamp) * l.rpm)

take_from : RedisLimiter → ℕ → ℕ → Grant × Bucket
take_from l now tokens =
    if leb unit tokens
    then (
      record { allowed = true; remaining = (tokens - unit) / unit; retry_after = 0 },
      record { tokens = tokens - unit; timestamp = now },
    )
    else (
      record {
        allowed = false;
        remaining = tokens / unit;
        retry_after = ceil_div (unit - tokens) l.rpm;
      },
      record { tokens = tokens; timestamp = now },
    )

-- The script, with one token requested.
unfoldable pub token_bucket : RedisLimiter → ℕ → Option Bucket → Grant × Bucket
unfolding refill take_from
token_bucket l now b = take_from l now (refill l now b)

-- The expiry that the script sets, in milliseconds.
unfoldable pub time_to_live : RedisLimiter → ℕ
time_to_live l =
    let twice = ceil_div (l.burst * unit) l.rpm * 2 in if leb 1000 twice then twice else 1000

-- What the script returns.
abbrev pub reply_of : Grant → Reply
reply_of g =
    several
      (number (pos (one_if g.allowed)) ∷ number (pos g.remaining) ∷ number (pos g.retry_after) ∷ [])

-- Redis as the limiter uses it: TIME in milliseconds; HMGET of a bucket; HSET of one, with its
-- PEXPIRE; and Eval, which runs a script at once. Also the hexadecimal SHA-256 and ParseInt.
pub record Buckets (W : Type 0) : Type 0 where
  pub clock : W → ℕ
  pub get_bucket : String → W → Option Bucket
  pub put_bucket : String → Bucket → ℕ → W → W
  pub eval : (W → Reply × W) → W → Result Reply × W
  pub digest : String → String
  pub parse_int : String → Option ℤ

module _ {W : Type 0} (r : Buckets W) where
  -- tokenBucketScript, at a key.
  unfoldable pub bucket_script : RedisLimiter → String → W → Reply × W
  unfolding token_bucket time_to_live
  bucket_script l key w =
      let (grant, kept) = token_bucket l (r.clock w) (r.get_bucket key w) in
      (reply_of grant, r.put_bucket key kept (time_to_live l) w)

  -- integer
  unfoldable pub integer : Value → Result ℤ
  integer (number n) = ok n
  integer (text s) = elim (r.parse_int s) [
    | some n ↦ ok n
    | none ↦ err (message "token bucket returned a non-integer value")
  ]

  abbrev is_one : ℤ → Bool
  is_one (pos n) = n == 1
  is_one (negsuc n) = false

  unfoldable pub read_reply : RedisLimiter → Reply → Result Decision
  unfolding integer
  read_reply l (several (a ∷ b ∷ c ∷ [])) = do
    allowed ← integer a
    remaining ← integer b
    retry ← integer c
    ok (record {
      allowed = is_one allowed;
      limit = pos l.burst;
      remaining = remaining;
      retry_after = wrap_64 (scale 1000000 retry);
    })
  read_reply l _ = err (message "token bucket returned an invalid result")

  abbrev pub bucket_key : String → String
  bucket_key identity = text_append "modelgate:ratelimit:" (r.digest identity)

  -- What Allow makes of the answer of Eval.
  read_answer : RedisLimiter → Result Reply × W → Result Decision × W
  unfolding read_reply
  read_answer l (err e, w) = (err (wrapped "evaluate token bucket" e), w)
  read_answer l (ok reply, w) = (read_reply l reply, w)

  -- Allow
  unfoldable pub allow : RedisLimiter → String → W → Result Decision × W
  unfolding bucket_script read_answer
  allow l identity w = read_answer l (r.eval (bucket_script l (bucket_key identity)) w)
