-- ===== src/RateLimit/Allowed.antt =====
-- What Allow answers (internal/ratelimit/redis.go).
use native.Mathlib.Nat.{div-add-mod, mul-le-mul_left, mul-le-mul_right}
use model_gate.Prelude.{
  ℕ, suc, ◌+◌, ◌-◌, ◌*◌, ◌≤◌, ◌<◌, ◌≡◌, refl, ap, ◌∙◌, arith, Bool, true, false, Option, Bool-cases,
  leb, one_if, inl, inr, pos, wrap_64, String, ◌==◌,
}
use model_gate.Errors.{Decision, ok}
use model_gate.Errors.Chain.{◌>>=◌}
use model_gate.Idempotency.{Reply}
use model_gate.RateLimit.{
  RedisLimiter, Bucket, Grant, Buckets, unit, ceil_div, refill, take_from, token_bucket,
  time_to_live, reply_of, bucket_script, integer, read_reply, bucket_key, read_answer, allow,
}

ceil_div-le : (a b : ℕ) → 0 < b → ceil_div a b ≤ a
ceil_div-le a b p = elim (Bool-cases (leb (ceil_div a b) a)) [
  | inl e ↦ ground (arith, e)
  | inr e ↦
      let over : suc a ≤ ceil_div a b = ground (arith, e) in
      let least : a ≤ b * a = omega (arith, mul-le-mul_right a p) in
      omega (arith, div-add-mod (a + b - 1) b, mul-le-mul_left b over, p, least)
]

-- A delay is at most a minute.
take_from-retry_after :
    (l : RedisLimiter) (now tokens : ℕ) → 0 < l.rpm → (take_from l now tokens).0.retry_after ≤ unit
unfolding take_from
take_from-retry_after l now tokens p = ground (arith, ceil_div-le (unit - tokens) l.rpm p)

token_bucket-retry_after :
    (l : RedisLimiter) (now : ℕ) (b : Option Bucket)
    → 0 < l.rpm
    → (token_bucket l now b).0.retry_after ≤ unit
unfolding token_bucket
token_bucket-retry_after l now b p = take_from-retry_after l now (refill l now b) p

wrap_64-small : (n : ℕ) → n ≤ 60000 → wrap_64 (pos (n * 1000000)) ≡ pos (n * 1000000)
unfolding wrap_64
wrap_64-small n h = ground arith

is_one-one_if : (b : Bool) → (one_if b == 1) ≡ b
is_one-one_if true = refl
is_one-one_if false = refl

-- The decision that a grant is.
abbrev pub decision_of : RedisLimiter → Grant → Decision
decision_of l g = record {
  allowed = g.allowed;
  limit = pos l.burst;
  remaining = pos g.remaining;
  retry_after = pos (g.retry_after * 1000000);
}

module _ {W : Type 0} (r : Buckets W) where
  read_reply-reply_of :
      (l : RedisLimiter) (g : Grant)
      → g.retry_after ≤ unit
      → read_reply r l (reply_of g) ≡ ok (decision_of l g)
  unfolding read_reply integer ◌>>=◌
  read_reply-reply_of l g h =
      rw (wrap_64-small g.retry_after h)
        (ap (λ x. ok (record (decision_of l g) { allowed = x })) (is_one-one_if g.allowed))

  -- Where Eval delivers and the rate is positive, Allow answers as the bucket of the identity's key
  -- does at the instant of the call: whether it grants, the burst as the limit, the whole tokens that
  -- remain, and the delay in nanoseconds, which does not overflow. The bucket is kept under that key,
  -- with the script's time to live.
  pub allow_lem :
      (l : RedisLimiter) (identity : String) (w : W)
      → 0 < l.rpm
      → ((script : W → Reply × W) → r.eval script w ≡ (ok (script w).0, (script w).1))
      → let (grant, kept) = token_bucket l (r.clock w) (r.get_bucket (bucket_key r identity) w) in
        allow r l identity w
        ≡ (ok (decision_of l grant), r.put_bucket (bucket_key r identity) kept (time_to_live l) w)
  unfolding allow read_answer bucket_script
  allow_lem l identity w p delivers =
      let key = bucket_key r identity in
      let b = r.get_bucket key w in
      let short : (token_bucket l (r.clock w) b).0.retry_after ≤ unit =
        token_bucket-retry_after l (r.clock w) b p in
      let read = read_reply-reply_of l (token_bucket l (r.clock w) b).0 short in
      ap (read_answer r l) (delivers (bucket_script r l key))
      ∙ ap (λ d. (d, r.put_bucket key (token_bucket l (r.clock w) b).1 (time_to_live l) w)) read
