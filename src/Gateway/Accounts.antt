-- ===== src/Gateway/Accounts.antt =====
-- The usage record of a request (GatewayService.Chat and record of internal/service/gateway.go).
use model_gate.Prelude.{
  ◌≡◌, refl, ap, ◌-◌, ◌∙◌, arith, ◌⊎◌, inl, inr, true, false, List, [], ◌∷◌, Option, none, some,
  String, is_some, if◌then◌else◌, Option-cases, str_eq,
}
use model_gate.Errors.{Error, Result, ok, err, Result-cases}
use model_gate.Requests.{ChatResponse, ChatUsage, check_mode}
use model_gate.Responses.{gateway_error_code}
use model_gate.Gateway.{
  Collaborators, State, Event, recorded, Call, Lease, CacheStore, RequestRecord, ChatResult,
  Answered, record_request, log_request, enforce_rate_limit, complete_lease, release_lease,
  write_cache, keep_response, succeed, fail, call_provider, hit, look_up, try_cache, name_request,
  cache_key, no_usage, saw_cache_hit,
}

-- The usage records that were stored or tried to, last first.
abbrev pub records : List Event → List RequestRecord
records [] = []
records (recorded r ∷ es) = r ∷ records es
records (_ ∷ es) = records es

-- The status that a result should be recorded with.
abbrev pub status_of : ChatResult → String
status_of a =
    if a.idempotency_replayed
    then "idempotency_replay"
    else if str_eq a.cache_status "HIT"
    then "cache_hit"
    else "succeeded"

-- A result has one record, which tells its request, provider, cache status and status; an error has
-- at most one, which tells its code.
abbrev pub Accounted : Result ChatResult → List Event → Type 0
Accounted (ok a) log =
    (r : RequestRecord) × (records log ≡ r ∷ [])
    × (r.request_id ≡ a.request_id)
    × (r.provider ≡ a.provider)
    × (r.cache_status ≡ a.cache_status)
    × (r.status ≡ status_of a)
Accounted (err e) log =
    (records log ≡ [])
    ⊎ ((r : RequestRecord) × (records log ≡ r ∷ []) × (r.error_code ≡ gateway_error_code e))

module _ {W : Type 0} (c : Collaborators W) where
  abbrev pub Quiet : State W → State W → Type 0
  Quiet s t = records t.log ≡ records s.log

  pub enforce_rate_limit-Quiet :
      (identity : String) (s : State W) → Quiet s (enforce_rate_limit c identity s).1
  unfolding enforce_rate_limit
  enforce_rate_limit-Quiet identity s = ground arith

  pub name_request-Quiet : (given : String) (s : State W) → Quiet s (name_request c given s).1
  unfolding name_request
  name_request-Quiet given s = ground arith

  release_lease-Quiet : (l : Lease) (s : State W) → Quiet s (release_lease c l s)
  unfolding release_lease
  release_lease-Quiet l s = ground arith

  complete_lease-Quiet : (l : Lease) (p : String) (s : State W) → Quiet s (complete_lease c l p s)
  unfolding complete_lease
  complete_lease-Quiet l p s = ground arith

  write_cache-Quiet :
      (key : Option String) (p : String) (s : State W) → Quiet s (write_cache c key p s)
  unfolding write_cache
  write_cache-Quiet none p s = refl
  write_cache-Quiet (some key) p s = ground arith

  keep_response-Quiet :
      (l : Lease) (key : Option String) (a : ChatResponse) (s : State W)
      → Quiet s (keep_response c l key a s)
  unfolding keep_response
  keep_response-Quiet l key a s = elim (Result-cases (c.encode_response a)) [
    | inl (p, e) ↦
        rw (e, keep_response)
          (complete_lease-Quiet l p (write_cache c key p s) ∙ write_cache-Quiet key p s)
    | inr (e', e) ↦ rw (e, keep_response) refl
  ]

  module _ (has_recorder : is_some c.recorder ≡ true) where
    pub record_request-records :
        (r : RequestRecord) (s : State W) → records (record_request c r s).log ≡ r ∷ records s.log
    unfolding record_request
    record_request-records r s = ground (arith, has_recorder)

    pub log_request-records :
        (call : Call) (p status : String) (u : ChatUsage) (k code : String) (s : State W)
        → records s.log ≡ []
        → (r : RequestRecord) × (records (log_request c call p status u k code s).log ≡ r ∷ [])
          × (r.request_id ≡ call.request_id)
          × (r.provider ≡ p)
          × (r.cache_status ≡ k)
          × (r.status ≡ status)
          × (r.error_code ≡ code)
    unfolding log_request
    log_request-records call p status u k code s h =
        let (now, w) = c.clock s.world in
        let r : RequestRecord = record {
          request_id = call.request_id;
          provider = p;
          model = call.request.model;
          status = status;
          usage = u;
          latency = now - call.started_at;
          cache_status = k;
          error_code = code;
        } in
        let s' : State W = record { world = w; log = s.log } in
        (r, record_request-records r s' ∙ ap (◌∷◌ r) h, refl, refl, refl, refl, refl)

    abbrev pub Done : Answered W → Type 0
    Done (r, s) = Accounted r s.log

    fail-Done :
        (call : Call) (l : Lease) (k : String) (e : Error) (s : State W)
        → records s.log ≡ []
        → Done (fail c call l k e s)
    unfolding fail
    fail-Done call l k e s h =
        let (r, one, _, _, _, _, code) =
          log_request-records call _ _ _ _ (gateway_error_code e) (release_lease c l s)
            (release_lease-Quiet l s ∙ h) in
        inr (r, one, code)

    succeed-Done :
        (call : Call) (l : Lease) (key : Option String) (k : String) (a : ChatResponse)
        (s : State W)
        → str_eq k "HIT" ≡ false
        → records s.log ≡ []
        → Done (succeed c call l key k a s)
    unfolding succeed
    succeed-Done call l key k a s miss h =
        let (r, one, id, name, cached, status, _) =
          log_request-records call _ "succeeded" a.usage k "" (keep_response c l key a s)
            (keep_response-Quiet l key a s ∙ h) in
        (r, one, id, name, cached, rw miss status)

    call_provider-Done :
        (call : Call) (l : Lease) (key : Option String) (k : String) (s : State W)
        → str_eq k "HIT" ≡ false
        → records s.log ≡ []
        → Done (call_provider c call l key k s)
    unfolding call_provider
    call_provider-Done call l key k s miss h =
        elim (Result-cases (check_mode false (some call.request))) [
          | inr (e, z) ↦ rw (z, call_provider) (fail-Done call l k e s h)
          | inl (r, z) ↦ elim (Result-cases (c.provider r s.world).0) [
            | inl (a, z') ↦ rw (z, z', call_provider) (succeed-Done call l key k a _ miss h)
            | inr (e, z') ↦ rw (z, z', call_provider) (fail-Done call l k e _ h)
          ]
        ]

    hit-Done :
        (call : Call) (l : Lease) (p : String) (a : ChatResponse) (s : State W)
        → records s.log ≡ []
        → Done (hit c call l p a s)
    unfolding hit
    hit-Done call l p a s h =
        let s' : State W = record s { log = saw_cache_hit ∷ s.log } in
        let (r, one, id, name, cached, status, _) =
          log_request-records call "cache" "cache_hit" no_usage "HIT" "" (complete_lease c l p s')
            (complete_lease-Quiet l p s' ∙ h) in
        (r, one, id, name, cached, status)

    look_up-Done :
        (call : Call) (l : Lease) (key : String) (store : CacheStore W) (s : State W)
        → records s.log ≡ []
        → Done (look_up c call l key store s)
    unfolding look_up
    look_up-Done call l key store s h = elim (Result-cases (store.get key s.world).0) [
      | inr (e, z) ↦ rw (z, look_up) (call_provider-Done call l (some key) "MISS" _ refl h)
      | inl (none, z) ↦ rw (z, look_up) (call_provider-Done call l (some key) "MISS" _ refl h)
      | inl (some p, z) ↦ elim (Result-cases (c.decode_response p)) [
        | inl (a, z') ↦ rw (z, z', look_up) (hit-Done call l p a _ h)
        | inr (e, z') ↦ rw (z, z', look_up) (call_provider-Done call l (some key) "MISS" _ refl h)
      ]
    ]

    pub try_cache-Done :
        (call : Call) (l : Lease) (s : State W) → records s.log ≡ [] → Done (try_cache c call l s)
    unfolding try_cache
    try_cache-Done call l s h = elim (Result-cases (cache_key c call.identity call.request)) [
      | inr (e, z) ↦ rw (z, try_cache) (inl (release_lease-Quiet l s ∙ h))
      | inl (none, z) ↦ rw (z, try_cache) (call_provider-Done call l none "BYPASS" s refl h)
      | inl (some key, z) ↦ elim (Option-cases c.cache) [
        | inl z' ↦ rw (z, z', try_cache) (call_provider-Done call l (some key) "BYPASS" s refl h)
        | inr (store, z') ↦ rw (z, z', try_cache) (look_up-Done call l key store s h)
      ]
    ]
