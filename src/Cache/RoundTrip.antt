-- ===== src/Cache/RoundTrip.antt =====
-- A cached response is found again (RedisCache of internal/cache/cache.go).
use model_gate.Prelude.{◌≡◌, refl, ap, ◌<◌, arith, Option, none, some, String, ℤ, ℕ}
use model_gate.Errors.{Error, ok}
use model_gate.Cache.{KeyValueStore, RedisCache, redis_key, new, get, set, read_value, after_set}

-- What a key-value store promises: a value that it took with a positive time to live is there, until
-- that has passed.
pub record KeepsValues {W : Type 0} (kv : KeyValueStore W) : Type 0 where
  pub get_set :
      (key value : String) (ttl : ℕ) (w : W)
      → 0 < ttl
      → (kv.set key value ttl w).0 ≡ none
      → (kv.get key (kv.set key value ttl w).1).0 ≡ ok value

new-positive : (ttl : ℤ) (c : RedisCache) → new ttl ≡ ok c → 0 < c.ttl
unfolding new
new-positive ttl c h = ground (arith, h)

after_set-none : (o : Option Error) → after_set o ≡ none → o ≡ none
unfolding after_set
after_set-none none h = refl
after_set-none (some e) h = cc

-- Over a store that keeps values, a response that a cache which `NewRedisCache` returns has set, with
-- no error, is what it finds at the key.
pub get-set :
    {W : Type 0} (kv : KeyValueStore W)
    → KeepsValues kv
    → (ttl : ℤ) (c : RedisCache) (key response : String) (w : W) → new ttl ≡ ok c
    → (set kv c key response w).0 ≡ none
    → (get kv c key (set kv c key response w).1).0 ≡ ok (some response)
unfolding get set read_value
get-set kv keeps ttl c key response w made h =
    let stored = after_set-none (kv.set (redis_key key) response c.ttl w).0 h in
    ap read_value (keeps.get_set (redis_key key) response c.ttl w (new-positive ttl c made) stored)
