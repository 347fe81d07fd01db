-- ===== src/Idempotency.antt =====
-- The idempotency store (internal/idempotency/redis.go): its three Lua scripts, the calls of Eval and
-- the reading of the replies. Redis is a parameter, with the four commands that the scripts use; a
-- script runs atomically, so it is one step of the world `W`. Bytes are texts.
pub mod Slots
use model_gate.Prelude.{
  ℕ, ◌/◌, ◌≡◌, ◌≢◌, ◌<◌, ◌⊎◌, Bool, true, false, not, ◌&&◌, ◌||◌, List, [], ◌∷◌, Option, none, some,
  String, str_eq, text_append, if◌then◌else◌, ℤ, pos, pos_part, leb_ℤ, ◌==◌,
}
use model_gate.Errors.{Error, message, wrapped, Result, ok, err}

-- idempotency.Status; a reply with another text is an error.
pub data Status : Type 0 where
  acquired pending completed conflict : Status

-- Store: Begin, Complete and Release, each by key and fingerprint.
pub record LeaseStore (W : Type 0) : Type 0 where
  pub begin : String → String → W → Result (Status × String) × W
  pub complete : String → String → String → W → Option Error × W
  pub release : String → String → W → Option Error × W

-- What a script answers.
pub data Value : Type 0 where
  text : String → Value
  number : ℤ → Value

pub data Reply : Type 0 where
  single : Value → Reply
  several : List Value → Reply

-- Redis: HMGET of one field, HSET of one field, PEXPIRE in milliseconds, DEL; and Eval, which
-- runs a script.
pub record Redis (W : Type 0) : Type 0 where
  pub get_field : String → String → W → Option String
  pub set_field : String → String → String → W → W
  pub expire : String → ℕ → W → W
  pub delete : String → W → ℕ × W
  pub eval : (W → Reply × W) → W → Result Reply × W

-- What Redis documents of the commands.
pub record IsRedis {W : Type 0} (r : Redis W) : Type 0 where
  pub get_set : (k f v : String) (w : W) → r.get_field k f (r.set_field k f v w) ≡ some v
  pub get_set_other :
      (k f v k' f' : String) (w : W)
      → (k ≢ k') ⊎ (f ≢ f')
      → r.get_field k' f' (r.set_field k f v w) ≡ r.get_field k' f' w
  -- With a positive time to live, the key is there until that has passed.
  pub get_expire :
      (k k' f' : String) (n : ℕ) (w : W)
      → 0 < n
      → r.get_field k' f' (r.expire k n w) ≡ r.get_field k' f' w
  pub get_delete : (k f : String) (w : W) → r.get_field k f (r.delete k w).1 ≡ none
  pub get_delete_other :
      (k k' f : String) (w : W) → k ≢ k' → r.get_field k' f (r.delete k w).1 ≡ r.get_field k' f w

-- RedisStore: the times to live, in nanoseconds.
pub record RedisStore : Type 0 where
  pub lock_ttl : ℕ
  pub result_ttl : ℕ

-- NewRedisStore, of an evaluator that is not nil.
unfoldable pub new : ℤ → ℤ → Result RedisStore
new lock_ttl result_ttl =
    if leb_ℤ lock_ttl (pos 0) || leb_ℤ result_ttl (pos 0)
    then err (message "idempotency TTLs must be positive")
    else ok (record { lock_ttl = pos_part lock_ttl; result_ttl = pos_part result_ttl })

-- Duration.Milliseconds
abbrev pub milliseconds : ℕ → ℕ
milliseconds n = n / 1000000

-- `a == b` in Lua, of a field that may be missing.
abbrev pub field_is : Option String → String → Bool
field_is none s = false
field_is (some t) s = str_eq t s

abbrev or_empty : Option String → String
or_empty none = ""
or_empty (some s) = s

-- `text` and `bytes`, on a reply's value: a string or its bytes are a text here.
abbrev text_of : Value → Option String
text_of (text s) = some s
text_of (number n) = none

abbrev bytes_of : Value → Option String
bytes_of (text s) = some s
bytes_of (number n) = none

-- integer
abbrev integer_of : Reply → Result ℤ
integer_of (single (number n)) = ok n
integer_of (single (text s)) = err (message "idempotency script returned a non-integer value")
integer_of (several values) = err (message "idempotency script returned a non-integer value")

module _ {W : Type 0} (r : Redis W) where
  answer_held : String → String → Option String → Option String → Reply
  answer_held given fingerprint state response =
      if not (str_eq fingerprint given)
      then several (text "conflict" ∷ [])
      else if field_is state "completed"
      then several (text "completed" ∷ text (or_empty response) ∷ [])
      else several (text "pending" ∷ [])

  unfoldable pub begin_script : String → String → ℕ → W → Reply × W
  unfolding answer_held
  begin_script key given ttl w = elim (r.get_field key "fingerprint" w) [
    | none ↦ (
      several (text "acquired" ∷ []),
      r.expire key ttl (r.set_field key "state" "pending" (r.set_field key "fingerprint" given w)),
    )
    | some fingerprint ↦ (
      answer_held given fingerprint (r.get_field key "state" w) (r.get_field key "response" w),
      w,
    )
  ]

  unfoldable pub is_pending_for : String → String → W → Bool
  is_pending_for key given w =
      field_is (r.get_field key "fingerprint" w) given
      && field_is (r.get_field key "state" w) "pending"

  unfoldable pub complete_script : String → String → String → ℕ → W → Reply × W
  unfolding is_pending_for
  complete_script key given response ttl w =
      if not (is_pending_for key given w) then (single (number (pos 0)), w) else (
        single (number (pos 1)),
        r.expire key ttl
            (r.set_field key "response" response (r.set_field key "state" "completed" w)),
      )

  unfoldable pub release_script : String → String → W → Reply × W
  unfolding is_pending_for
  release_script key given w =
      let (n, gone) = r.delete key w in
      if is_pending_for key given w
      then (single (number (pos n)), gone)
      else (single (number (pos 0)), w)

  unfoldable pub redis_key : String → String
  redis_key key = text_append "modelgate:idempotency:" key

  -- The `switch` on the status.
  parse_status : String → List Value → Result (Status × String)
  parse_status status values =
      if str_eq status "acquired"
      then ok (acquired, "")
      else if str_eq status "pending"
      then ok (pending, "")
      else if str_eq status "conflict"
      then ok (conflict, "")
      else if str_eq status "completed"
      then elim values [
        | value ∷ [] ↦ elim (bytes_of value) [
          | some response ↦ ok (completed, response)
          | none ↦ err (message "completed idempotency response is invalid")
        ]
        | _ ↦ err (message "completed idempotency result is missing its response")
      ]
      else err (message "idempotency begin returned unknown status")

  unfoldable pub parse_begin : Reply → Result (Status × String)
  unfolding parse_status
  parse_begin (several (value ∷ values)) = elim (text_of value) [
    | some status ↦ parse_status status values
    | none ↦ err (message "idempotency begin returned an invalid status")
  ]
  parse_begin _ = err (message "idempotency begin returned an invalid result")

  -- The test on what `integer` gives.
  unfoldable pub parse_complete : Reply → Option Error
  parse_complete reply = elim (integer_of reply) [
    | ok (pos updated) ↦
        if updated == 1 then none else some (message "idempotency request is no longer pending")
    | _ ↦ some (message "idempotency request is no longer pending")
  ]

  -- Begin
  unfoldable pub begin : RedisStore → String → String → W → Result (Status × String) × W
  unfolding parse_begin begin_script
  begin s key fingerprint w =
      let (reply, w') =
        r.eval (begin_script (redis_key key) fingerprint (milliseconds s.lock_ttl)) w in
      elim reply [
        | err e ↦ (err (wrapped "begin idempotency request" e), w')
        | ok answer ↦ (parse_begin answer, w')
      ]

  -- Complete
  unfoldable pub complete : RedisStore → String → String → String → W → Option Error × W
  unfolding parse_complete complete_script
  complete s key fingerprint response w =
      let (reply, w') =
        r.eval (complete_script (redis_key key) fingerprint response (milliseconds s.result_ttl))
          w in
      elim reply [
        | err e ↦ (some (wrapped "complete idempotency request" e), w')
        | ok answer ↦ (parse_complete answer, w')
      ]

  -- Release
  unfoldable pub release : RedisStore → String → String → W → Option Error × W
  unfolding release_script
  release s key fingerprint w =
      let (reply, w') = r.eval (release_script (redis_key key) fingerprint) w in
      elim reply [
        | err e ↦ (some (wrapped "release idempotency request" e), w')
        | ok answer ↦ (none, w')
      ]

  -- RedisStore, as the gateway uses it.
  abbrev pub lease_store : RedisStore → LeaseStore W
  lease_store s = record { begin = begin s; complete = complete s; release = release s }
