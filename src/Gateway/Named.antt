-- ===== src/Gateway/Named.antt =====
-- The identifier of a request in its result (GatewayService.Chat of internal/service/gateway.go).
use model_gate.Prelude.{
  ◌≡◌, refl, Option, none, some, String, trim_space, str_eq, true, false, Option-cases, Bool-cases,
  inl, inr,
}
use model_gate.Errors.{Result, ok, err, Result-cases}
use model_gate.Requests.{ChatRequest, check_mode}
use model_gate.Idempotency.{Status, acquired, pending, completed, conflict, LeaseStore}
use model_gate.Gateway.{
  Collaborators, State, Call, Lease, CacheStore, ChatResult, RequestMetadata, call_provider,
  look_up, try_cache, name_request, cache_key, replay, after_begin, read_answer, begin_lease,
  lease_from, take_lease, limit_rate, chat, request_fingerprint, scoped_key, enforce_rate_limit,
  reject, succeed, fail, hit,
}
use model_gate.Gateway.Keys.{normalize_key}

module _ {W : Type 0} (c : Collaborators W) where
  -- The result, if there is one, has the identifier.
  abbrev pub IsNamed : String → Result ChatResult → Type 0
  IsNamed id (ok a) = a.request_id ≡ id
  IsNamed id (err e) = Unit {0}

  module _ (call : Call) (l : Lease) where
    call_provider-IsNamed :
        (key : Option String) (status : String) (s : State W)
        → IsNamed call.request_id (call_provider c call l key status s).0
    unfolding call_provider succeed fail
    call_provider-IsNamed key status s =
        elim (Result-cases (check_mode false (some call.request))) [
          | inr (e, z) ↦ rw (z, call_provider) tt
          | inl (r, z) ↦ elim (Result-cases (c.provider r s.world).0) [
            | inl (a, z') ↦ rw (z, z', call_provider) refl
            | inr (e, z') ↦ rw (z, z', call_provider) tt
          ]
        ]

    look_up-IsNamed :
        (key : String) (store : CacheStore W) (s : State W)
        → IsNamed call.request_id (look_up c call l key store s).0
    unfolding look_up hit
    look_up-IsNamed key store s = elim (Result-cases (store.get key s.world).0) [
      | inr (e, z) ↦ rw (z, look_up) (call_provider-IsNamed (some key) "MISS" _)
      | inl (none, z) ↦ rw (z, look_up) (call_provider-IsNamed (some key) "MISS" _)
      | inl (some p, z) ↦ elim (Result-cases (c.decode_response p)) [
        | inl (a, z') ↦ rw (z, z', look_up) refl
        | inr (e, z') ↦ rw (z, z', look_up) (call_provider-IsNamed (some key) "MISS" _)
      ]
    ]

    try_cache-IsNamed : (s : State W) → IsNamed call.request_id (try_cache c call l s).0
    unfolding try_cache
    try_cache-IsNamed s = elim (Result-cases (cache_key c call.identity call.request)) [
      | inr (e, z) ↦ rw (z, try_cache) tt
      | inl (none, z) ↦ rw (z, try_cache) (call_provider-IsNamed none "BYPASS" s)
      | inl (some key, z) ↦ elim (Option-cases c.cache) [
        | inl z' ↦ rw (z, z', try_cache) (call_provider-IsNamed (some key) "BYPASS" s)
        | inr (store, z') ↦ rw (z, z', try_cache) (look_up-IsNamed key store s)
      ]
    ]

  module _ (call : Call) where
    replay-IsNamed : (p : String) (s : State W) → IsNamed call.request_id (replay c call p s).0
    unfolding replay
    replay-IsNamed p s = elim (Result-cases (c.decode_response p)) [
      | inr (e, z) ↦ rw (z, replay) tt
      | inl (a, z) ↦ rw (z, replay) refl
    ]

    after_begin-IsNamed :
        (l : Lease) (status : Status) (p : String) (s : State W)
        → IsNamed call.request_id (after_begin c call l status p s).0
    unfolding after_begin reject
    after_begin-IsNamed l acquired p s = try_cache-IsNamed call (record l { acquired = true }) s
    after_begin-IsNamed l pending p s = tt
    after_begin-IsNamed l conflict p s = tt
    after_begin-IsNamed l completed p s = replay-IsNamed p s

    read_answer-IsNamed :
        (l : Lease) (answer : Result (Status × String)) (s : State W)
        → IsNamed call.request_id (read_answer c call l answer s).0
    unfolding read_answer
    read_answer-IsNamed l (err e) s = tt
    read_answer-IsNamed l (ok (status, p)) s = after_begin-IsNamed l status p s

    lease_from-IsNamed :
        (o : Option (LeaseStore W)) (s : State W)
        → IsNamed call.request_id (lease_from c o call s).0
    unfolding lease_from begin_lease
    lease_from-IsNamed none s = tt
    lease_from-IsNamed (some store) s = elim (Result-cases (request_fingerprint c call.request)) [
      | inr (e, z) ↦ rw (z, begin_lease) tt
      | inl (f, z) ↦
          let l : Lease = record {
            key = scoped_key c call.identity call.key;
            fingerprint = f;
            acquired = false;
          } in
          rw (z, begin_lease) (read_answer-IsNamed l _ _)
    ]

    take_lease-IsNamed : (s : State W) → IsNamed call.request_id (take_lease c call s).0
    unfolding take_lease
    take_lease-IsNamed s = elim (Bool-cases (str_eq call.key "")) [
      | inl z ↦
          rw (z, take_lease)
            (try_cache-IsNamed call (record { key = ""; fingerprint = ""; acquired = false }) s)
      | inr z ↦ rw (z, take_lease) (lease_from-IsNamed c.leases s)
    ]

  limit_rate-IsNamed :
      (r : ChatRequest) (identity key id : String) (s : State W)
      → IsNamed id (limit_rate c r identity key id s).0
  unfolding limit_rate
  limit_rate-IsNamed r identity key id s =
      let s' : State W = record s { world = (c.clock s.world).1 } in
      elim (Result-cases (enforce_rate_limit c identity s').0) [
        | inr (e, z) ↦ rw (z, limit_rate) tt
        | inl (d, z) ↦
            let call : Call = record {
              request = r;
              identity = identity;
              key = key;
              request_id = id;
              started_at = (c.clock s.world).0;
              rate_limit = d;
            } in
            rw (z, limit_rate) (take_lease-IsNamed call _)
      ]

  -- A request that brings an identifier keeps it.
  pub chat-IsNamed :
      (req : Option ChatRequest) (m : RequestMetadata) (s : State W)
      → str_eq (trim_space m.request_id) "" ≡ false
      → IsNamed (trim_space m.request_id) (chat c req m s).0
  unfolding chat name_request
  chat-IsNamed req m s h = elim (Result-cases (check_mode false req)) [
    | inr (e, z) ↦ rw (z, chat) tt
    | inl (r, z) ↦ elim (Result-cases (normalize_key m.idempotency_key)) [
      | inr (e, z') ↦ rw (z, z', chat) tt
      | inl (key, z') ↦
          rw (z, z', chat, name_request, h)
            (limit_rate-IsNamed r m.client_identity key (trim_space m.request_id) _)
    ]
  ]
