-- ===== src/Cache.antt =====
-- The response cache over a key-value store (RedisCache of internal/cache/cache.go). The store is a
-- parameter, each of its calls a step of the world `W`; bytes are texts.
pub mod RoundTrip
use model_gate.Prelude.{
  ℕ, true, false, Option, none, some, String, text_append, if◌then◌else◌, ℤ, pos, pos_part, leb_ℤ,
}
use model_gate.Errors.{Error, message, wrapped, not_found, errors_is, Result, ok, err}
use model_gate.Gateway.{CacheStore}

-- KeyValueStore; the times to live are in nanoseconds.
pub record KeyValueStore (W : Type 0) : Type 0 where
  pub get : String → W → Result String × W
  pub set : String → String → ℕ → W → Option Error × W

pub record RedisCache : Type 0 where
  pub ttl : ℕ

-- NewRedisCache, of a store that is not nil.
unfoldable pub new : ℤ → Result RedisCache
new ttl =
    if leb_ℤ ttl (pos 0)
    then err (message "cache TTL must be positive")
    else ok (record { ttl = pos_part ttl })

unfoldable pub redis_key : String → String
redis_key key = text_append "modelgate:cache:" key

-- What Get makes of the store's answer.
unfoldable pub read_value : Result String → Result (Option String)
read_value (ok value) = ok (some value)
read_value (err e) =
    if errors_is e not_found then ok none else err (wrapped "get cached response" e)

-- What Set makes of the store's answer.
unfoldable pub after_set : Option Error → Option Error
after_set none = none
after_set (some e) = some (wrapped "set cached response" e)

module _ {W : Type 0} (kv : KeyValueStore W) where
  unfoldable pub get : RedisCache → String → W → Result (Option String) × W
  unfolding read_value
  get c key w = let (value, w') = kv.get (redis_key key) w in (read_value value, w')

  unfoldable pub set : RedisCache → String → String → W → Option Error × W
  unfolding after_set
  set c key response w =
      let (failure, w') = kv.set (redis_key key) response c.ttl w in (after_set failure, w')

  -- RedisCache, as the gateway uses it.
  abbrev pub cache_store : RedisCache → CacheStore W
  cache_store c = record { get = get c; set = set c }
