-- ===== src/RateLimit/Grants.antt =====
-- How many requests of one identity are let in over time (internal/ratelimit/redis.go).
use native.Mathlib.Nat.{add-mul}
use model_gate.Prelude.{
  ℕ, ◌+◌, ◌-◌, ◌*◌, ◌≤◌, ◌<◌, ◌≡◌, refl, sym, ap, subst, ◌∙◌, arith, List, [], ◌∷◌, Option, none,
  some, Bool-cases, leb, one_if, inl, inr, if◌then◌else◌,
}
use model_gate.RateLimit.{RedisLimiter, Bucket, unit, refill, take_from, token_bucket, time_to_live}
use model_gate.RateLimit.Tokens.{expiry_harmless}

-- The bucket that a request meets: one whose time to live has passed is gone.
abbrev pub met : RedisLimiter → ℕ → Option Bucket → Option Bucket
met l now none = none
met l now (some b) = if leb (b.timestamp + time_to_live l) now then none else some b

-- Requests at the given times: the number that are let in, and the bucket that they leave.
unfoldable pub serve : RedisLimiter → List ℕ → Option Bucket → ℕ × Option Bucket
serve l [] b = (0, b)
serve l (now ∷ times) b =
    let (grant, kept) = token_bucket l now (met l now b) in
    let (later, last) = serve l times (some kept) in (one_if grant.allowed + later, last)

-- Times in order, none before `start`, and the last of them.
abbrev pub IsRising : ℕ → List ℕ → Type 0
IsRising start [] = Unit {0}
IsRising start (now ∷ times) = (start ≤ now) × IsRising now times

abbrev pub last_time : ℕ → List ℕ → ℕ
last_time start [] = start
last_time start (now ∷ times) = last_time now times

last_time-ge : (times : List ℕ) (start : ℕ) → IsRising start times → start ≤ last_time start times
last_time-ge [] start rising = omega arith
last_time-ge (now ∷ times) start (le, rising) = omega (arith, le, last_time-ge times now rising)

elapsed-add : (a b c r : ℕ) → a ≤ b → b ≤ c → (c - a) * r ≡ (b - a) * r + (c - b) * r
elapsed-add a b c r h k =
    let sum : c - a ≡ (b - a) + (c - b) = omega arith in
    ap (λ x. x * r) sum ∙ add-mul (b - a) (c - b) r

-- An expired bucket answers as it would have, had it been kept.
token_bucket-met :
    (l : RedisLimiter) (now : ℕ) (b : Bucket)
    → 0 < l.rpm
    → token_bucket l now (met l now (some b)) ≡ token_bucket l now (some b)
token_bucket-met l now b p = elim (Bool-cases (leb (b.timestamp + time_to_live l) now)) [
  | inl e ↦ rw (e) (sym (expiry_harmless l b now p (ground (arith, e))))
  | inr e ↦ rw (e) refl
]

-- What one request takes and leaves is no more than there was.
token_bucket-spends :
    (l : RedisLimiter) (now : ℕ) (b : Bucket)
    → let (grant, kept) = token_bucket l now (some b) in
      (one_if grant.allowed * unit + kept.tokens ≤ b.tokens + (now - b.timestamp) * l.rpm)
      × (kept.timestamp ≡ now)
unfolding token_bucket take_from refill
token_bucket-spends l now b = ground arith

token_bucket-starts :
    (l : RedisLimiter) (now : ℕ)
    → let (grant, kept) = token_bucket l now none in
      (one_if grant.allowed * unit + kept.tokens ≤ l.burst * unit) × (kept.timestamp ≡ now)
unfolding token_bucket take_from refill
token_bucket-starts l now = ground arith

spend_bounded :
    (times : List ℕ) (l : RedisLimiter) (b : Bucket)
    → 0 < l.rpm
    → IsRising b.timestamp times
    → (serve l times (some b)).0 * unit
      ≤ b.tokens + (last_time b.timestamp times - b.timestamp) * l.rpm
unfolding serve
spend_bounded [] l b p rising = omega arith
spend_bounded (now ∷ times) l b p (le, rising) =
    let (grant, kept) = token_bucket l now (some b) in
    let (spent, stamped) = token_bucket-spends l now b in
    let rest = spend_bounded times l kept p (subst (λ t. IsRising t times) (sym stamped) rising) in
    let after : (serve l times (some kept)).0 * unit
        ≤ kept.tokens + (last_time now times - now) * l.rpm =
      subst
        (λ t. (serve l times (some kept)).0 * unit ≤ kept.tokens + (last_time t times - t) * l.rpm)
        stamped rest in
    let split =
      elapsed-add b.timestamp now (last_time now times) l.rpm le (last_time-ge times now rising) in
    rw (token_bucket-met l now b p) (omega (arith, spent, after, split))

-- The rate limit holds: of requests of one identity that come at times in order, buckets that have
-- expired being gone, those that are let in are at most the burst and what the rate adds between the
-- first and the last.
pub serve_bounded :
    (l : RedisLimiter) (start : ℕ) (times : List ℕ)
    → 0 < l.rpm
    → IsRising start times
    → (serve l (start ∷ times) none).0 * unit
      ≤ l.burst * unit + (last_time start times - start) * l.rpm
unfolding serve
serve_bounded l start times p rising =
    let (grant, kept) = token_bucket l start none in
    let (spent, stamped) = token_bucket-starts l start in
    let rest = spend_bounded times l kept p (subst (λ t. IsRising t times) (sym stamped) rising) in
    let after : (serve l times (some kept)).0 * unit
        ≤ kept.tokens + (last_time start times - start) * l.rpm =
      subst
        (λ t. (serve l times (some kept)).0 * unit ≤ kept.tokens + (last_time t times - t) * l.rpm)
        stamped rest in
    omega (arith, spent, after)
