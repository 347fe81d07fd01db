-- ===== src/Idempotency/Slots.antt =====
-- What the store promises of a key, on an abstract slot (internal/idempotency/redis.go).
use model_gate.Prelude.{
  ℕ, ◌≡◌, ◌≢◌, ◌<◌, refl, ◌∙◌, inl, inr, Bool, true, false, Option, none, some, String, str_eq,
  if◌then◌else◌, Bool-cases,
}
use model_gate.Errors.{ok}
use model_gate.Idempotency.{
  Status, acquired, pending, completed, conflict, Redis, IsRedis, RedisStore, Reply, milliseconds,
  begin_script, complete_script, release_script, is_pending_for, answer_held, redis_key,
  parse_begin, parse_status, parse_complete, begin, complete, release,
}

-- A key: unknown, held by a request with a fingerprint, or finished with a response.
pub data Slot : Type 0 where
  free : Slot
  held : String → Slot
  finished : String → String → Slot

abbrev pub slot_begin : String → Slot → (Status × String) × Slot
slot_begin f free = ((acquired, ""), held f)
slot_begin f (held g) = if str_eq g f then ((pending, ""), held g) else ((conflict, ""), held g)
slot_begin f (finished g p) =
    if str_eq g f then ((completed, p), finished g p) else ((conflict, ""), finished g p)

-- Whether it took effect, and the slot.
abbrev pub slot_complete : String → String → Slot → Bool × Slot
slot_complete f p (held g) = if str_eq g f then (true, finished g p) else (false, held g)
slot_complete f p s = (false, s)

abbrev pub slot_release : String → Slot → Slot
slot_release f (held g) = if str_eq g f then free else held g
slot_release f s = s

abbrev pub is_none {ℓ} : {A : Type ℓ} → Option A → Bool
is_none none = true
is_none (some a) = false

abbrev Differ : String → String → Type 0
Differ a b = a ≢ b

fields-Differ :
    Differ "state" "fingerprint" × Differ "response" "fingerprint" × Differ "response" "state"
fields-Differ = (λ h. cc, λ h. cc, λ h. cc)

module _ {W : Type 0} (r : Redis W) where
  -- The fields of a key represent a slot.
  abbrev pub Shows : String → W → Slot → Type 0
  Shows key w free = r.get_field key "fingerprint" w ≡ none
  Shows key w (held f) =
      (r.get_field key "fingerprint" w ≡ some f) × (r.get_field key "state" w ≡ some "pending")
  Shows key w (finished f p) =
      (r.get_field key "fingerprint" w ≡ some f)
      × (r.get_field key "state" w ≡ some "completed")
      × (r.get_field key "response" w ≡ some p)

  -- Eval runs the script and hands over its reply.
  abbrev pub Delivers : W → Type 0
  Delivers w = (script : W → Reply × W) → r.eval script w ≡ (ok (script w).0, (script w).1)

  begin_script-Shows :
      (laws : IsRedis r) (key f : String) (ttl : ℕ) (w : W) (s : Slot)
      → 0 < ttl
      → Shows key w s
      → (parse_begin r (begin_script r key f ttl w).0 ≡ ok (slot_begin f s).0)
        × Shows key (begin_script r key f ttl w).1 (slot_begin f s).1
  unfolding begin_script answer_held parse_begin parse_status
  begin_script-Shows laws key f ttl w free t h =
      let w1 = r.set_field key "fingerprint" f w in
      let w2 = r.set_field key "state" "pending" w1 in
      let kept : r.get_field key "fingerprint" w2 ≡ some f =
        laws.get_set_other key "state" "pending" key "fingerprint" w1 (inr fields-Differ.0)
        ∙ laws.get_set key "fingerprint" f w in
      rw (h, begin_script)
        (
          refl,
          (
            laws.get_expire key key "fingerprint" ttl w2 t ∙ kept,
            laws.get_expire key key "state" ttl w2 t ∙ laws.get_set key "state" "pending" w1,
          ),
        )
  begin_script-Shows laws key f ttl w (held g) t (h, h') = elim (Bool-cases (str_eq g f)) [
    | inl z ↦ rw (h, h', z, begin_script, answer_held) (refl, (h, h'))
    | inr z ↦ rw (h, h', z, begin_script, answer_held) (refl, (h, h'))
  ]
  begin_script-Shows laws key f ttl w (finished g p) t (h, h', h″) =
      elim (Bool-cases (str_eq g f)) [
        | inl z ↦ rw (h, h', h″, z, begin_script, answer_held) (refl, (h, h', h″))
        | inr z ↦ rw (h, h', h″, z, begin_script, answer_held) (refl, (h, h', h″))
      ]

  complete_script-Shows :
      (laws : IsRedis r) (key f p : String) (ttl : ℕ) (w : W) (s : Slot)
      → 0 < ttl
      → Shows key w s
      → (is_none (parse_complete r (complete_script r key f p ttl w).0) ≡ (slot_complete f p s).0)
        × Shows key (complete_script r key f p ttl w).1 (slot_complete f p s).1
  unfolding complete_script is_pending_for parse_complete
  complete_script-Shows laws key f p ttl w free t h = rw (h, complete_script) (refl, h)
  complete_script-Shows laws key f p ttl w (finished g q) t (h, h', h″) =
      elim (Bool-cases (str_eq g f)) [
        | inl z ↦ rw (h, h', z, complete_script) (refl, (h, h', h″))
        | inr z ↦ rw (h, h', z, complete_script) (refl, (h, h', h″))
      ]
  complete_script-Shows laws key f p ttl w (held g) t (h, h') = elim (Bool-cases (str_eq g f)) [
    | inr z ↦ rw (h, h', z, complete_script) (refl, (h, h'))
    | inl z ↦
        let w1 = r.set_field key "state" "completed" w in
        let w2 = r.set_field key "response" p w1 in
        let f2 : r.get_field key "fingerprint" w2 ≡ some g =
          laws.get_set_other key "response" p key "fingerprint" w1 (inr fields-Differ.1)
          ∙ laws.get_set_other key "state" "completed" key "fingerprint" w (inr fields-Differ.0)
          ∙ h in
        let s2 : r.get_field key "state" w2 ≡ some "completed" =
          laws.get_set_other key "response" p key "state" w1 (inr fields-Differ.2)
          ∙ laws.get_set key "state" "completed" w in
        let p2 : r.get_field key "response" w2 ≡ some p = laws.get_set key "response" p w1 in
        rw (h, h', z, complete_script)
          (
            refl,
            (
              laws.get_expire key key "fingerprint" ttl w2 t ∙ f2,
              laws.get_expire key key "state" ttl w2 t ∙ s2,
              laws.get_expire key key "response" ttl w2 t ∙ p2,
            ),
          )
  ]

  release_script-Shows :
      (laws : IsRedis r) (key f : String) (w : W) (s : Slot)
      → Shows key w s
      → Shows key (release_script r key f w).1 (slot_release f s)
  unfolding release_script is_pending_for
  release_script-Shows laws key f w free h = rw (h, release_script) h
  release_script-Shows laws key f w (finished g p) (h, h', h″) = elim (Bool-cases (str_eq g f)) [
    | inl z ↦ rw (h, h', z, release_script) (h, h', h″)
    | inr z ↦ rw (h, h', z, release_script) (h, h', h″)
  ]
  release_script-Shows laws key f w (held g) (h, h') = elim (Bool-cases (str_eq g f)) [
    | inl z ↦ rw (h, h', z, release_script) (laws.get_delete key "fingerprint" w)
    | inr z ↦ rw (h, h', z, release_script) (h, h')
  ]

-- Begin, Complete and Release, of a store whose times to live are at least a millisecond each, where
-- Eval delivers: at a key whose fields show a slot they answer as the slot does, and leave the key
-- showing the next slot. A free key is acquired; a held one is pending for its own fingerprint, and
-- only that completes or releases it; a finished one gives its response back to its own fingerprint,
-- and is neither completed nor released again; any other fingerprint is a conflict.
pub store_refines :
    {W : Type 0} (r : Redis W) (laws : IsRedis r) (st : RedisStore) (key f p : String) (w : W)
    (s : Slot)
    → 0 < milliseconds st.lock_ttl
    → 0 < milliseconds st.result_ttl
    → Delivers r w
    → Shows r (redis_key r key) w s
    → (((begin r st key f w).0 ≡ ok (slot_begin f s).0)
        × Shows r (redis_key r key) (begin r st key f w).1 (slot_begin f s).1)
      × ((is_none (complete r st key f p w).0 ≡ (slot_complete f p s).0)
          × Shows r (redis_key r key) (complete r st key f p w).1 (slot_complete f p s).1)
      × (((release r st key f w).0 ≡ none)
          × Shows r (redis_key r key) (release r st key f w).1 (slot_release f s))
unfolding begin complete release
store_refines r laws st key f p w s t t' delivers h =
    let k = redis_key r key in
    let e = delivers (begin_script r k f (milliseconds st.lock_ttl)) in
    let e' = delivers (complete_script r k f p (milliseconds st.result_ttl)) in
    let e″ = delivers (release_script r k f) in
    (
      rw (e, begin, e) (begin_script-Shows r laws k f (milliseconds st.lock_ttl) w s t h),
      rw (e', complete, e')
          (complete_script-Shows r laws k f p (milliseconds st.result_ttl) w s t' h),
      rw (e″, release, e″) (refl, release_script-Shows r laws k f w s h),
    )
