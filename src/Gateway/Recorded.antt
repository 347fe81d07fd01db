-- ===== src/Gateway/Recorded.antt =====
-- Every request is accounted for (GatewayService.Chat of internal/service/gateway.go).
use model_gate.Prelude.{
  ◌≡◌, refl, ◌∙◌, sym, subst, ◌⊎◌, List, inl, inr, true, false, [], ◌∷◌, Option, none, some, String,
  is_some, Bool-cases, str_eq,
}
use model_gate.Errors.{Error, Result, ok, err, Result-cases, idempotency}
use model_gate.Requests.{ChatRequest, check_mode}
use model_gate.Responses.{
  gateway_error_code, status_for_gateway_error, write_mapped_error, as_rate_limited, as_dependency,
}
use model_gate.Responses.Mapping.{code_agrees}
use model_gate.Idempotency.{Status, acquired, pending, completed, conflict, LeaseStore}
use model_gate.Gateway.{
  Collaborators, Event, RequestRecord, State, Call, Lease, RequestMetadata, enforce_rate_limit,
  reject, replay, after_begin, begin_lease, read_answer, take_lease, lease_from, limit_rate,
  name_request, chat, request_fingerprint, scoped_key, no_usage, began, unlimited,
}
use model_gate.Gateway.Keys.{normalize_key}
use model_gate.Gateway.Accounts.{
  records, Accounted, Done, log_request-records, try_cache-Done, enforce_rate_limit-Quiet,
  name_request-Quiet,
}

module _ {W : Type 0} (c : Collaborators W) (has_recorder : is_some c.recorder ≡ true) where
  reject-Done :
      (call : Call) (code : String) (s : State W)
      → records s.log ≡ []
      → Done c has_recorder (reject c call code s)
  unfolding reject
  reject-Done call code s h =
      let (r, one, _, _, _, _, same) =
        log_request-records c has_recorder call c.provider_name "rejected" no_usage "BYPASS"
          (gateway_error_code (idempotency code)) s h in
      inr (r, one, same)

  replay-Done :
      (call : Call) (p : String) (s : State W)
      → records s.log ≡ []
      → Done c has_recorder (replay c call p s)
  unfolding replay
  replay-Done call p s h = elim (Result-cases (c.decode_response p)) [
    | inr (e, z) ↦ rw (z, replay) (inl h)
    | inl (a, z) ↦
        let (r, one, id, name, cached, status, _) =
          log_request-records c has_recorder call "idempotency" "idempotency_replay" no_usage
            "BYPASS" "" s h in
        rw (z, replay) (r, one, id, name, cached, status)
  ]

  after_begin-Done :
      (call : Call) (l : Lease) (status : Status) (p : String) (s : State W)
      → records s.log ≡ []
      → Done c has_recorder (after_begin c call l status p s)
  unfolding after_begin
  after_begin-Done call l acquired p s h =
      try_cache-Done c has_recorder call (record l { acquired = true }) s h
  after_begin-Done call l pending p s h = reject-Done call _ s h
  after_begin-Done call l conflict p s h = reject-Done call _ s h
  after_begin-Done call l completed p s h = replay-Done call p s h

  read_answer-Done :
      (call : Call) (l : Lease) (answer : Result (Status × String)) (s : State W)
      → records s.log ≡ []
      → Done c has_recorder (read_answer c call l answer s)
  unfolding read_answer
  read_answer-Done call l (err e) s h = inl h
  read_answer-Done call l (ok (status, p)) s h = after_begin-Done call l status p s h

  begin_lease-Done :
      (call : Call) (store : LeaseStore W) (s : State W)
      → records s.log ≡ []
      → Done c has_recorder (begin_lease c call store s)
  unfolding begin_lease
  begin_lease-Done call store s h = elim (Result-cases (request_fingerprint c call.request)) [
    | inr (e, z) ↦ rw (z, begin_lease) (inl h)
    | inl (fp, z) ↦
        let key = scoped_key c call.identity call.key in
        let l : Lease = record { key = key; fingerprint = fp; acquired = false } in
        let (answer, w) = store.begin key fp s.world in
        let s' : State W = record { world = w; log = began key fp answer ∷ s.log } in
        rw (z, begin_lease) (read_answer-Done call l answer s' h)
  ]

  lease_from-Done :
      (o : Option (LeaseStore W)) (call : Call) (s : State W)
      → records s.log ≡ []
      → Done c has_recorder (lease_from c o call s)
  unfolding lease_from
  lease_from-Done none call s h = inl h
  lease_from-Done (some store) call s h = begin_lease-Done call store s h

  take_lease-Done :
      (call : Call) (s : State W) → records s.log ≡ [] → Done c has_recorder (take_lease c call s)
  unfolding take_lease
  take_lease-Done call s h = elim (Bool-cases (str_eq call.key "")) [
    | inl z ↦
        let l : Lease = record { key = ""; fingerprint = ""; acquired = false } in
        rw (z, take_lease) (try_cache-Done c has_recorder call l s h)
    | inr z ↦ rw (z, take_lease) (lease_from-Done c.leases call s h)
  ]

  limit_rate-Done :
      (r : ChatRequest) (identity key id : String) (s : State W)
      → records s.log ≡ []
      → Done c has_recorder (limit_rate c r identity key id s)
  unfolding limit_rate
  limit_rate-Done r identity key id s h =
      let (now, w) = c.clock s.world in
      let s' : State W = record s { world = w } in
      let call : Call = record {
        request = r;
        identity = identity;
        key = key;
        request_id = id;
        started_at = now;
        rate_limit = unlimited c;
      } in
      let h' = enforce_rate_limit-Quiet c identity s' ∙ h in
      elim (Result-cases (enforce_rate_limit c identity s').0) [
        | inr (e, z) ↦
            let (rec, one, _, _, _, _, same) =
              log_request-records c has_recorder call c.provider_name (status_for_gateway_error e)
                no_usage "BYPASS" (gateway_error_code e) (enforce_rate_limit c identity s').1 h' in
            rw (z, limit_rate) (inr (rec, one, same))
        | inl (d, z) ↦ rw (z, limit_rate) (take_lease-Done _ _ h')
      ]

  chat-Done :
      (req : Option ChatRequest) (m : RequestMetadata) (s : State W)
      → records s.log ≡ []
      → Done c has_recorder (chat c req m s)
  unfolding chat
  chat-Done req m s h = elim (Result-cases (check_mode false req)) [
    | inr (e, z) ↦ rw (z, chat) (inl h)
    | inl (r, z) ↦ elim (Result-cases (normalize_key m.idempotency_key)) [
      | inr (e, z') ↦ rw (z, z', chat) (inl h)
      | inl (key, z') ↦
          let h' = name_request-Quiet c m.request_id s ∙ h in
          elim (Result-cases (name_request c m.request_id s).0) [
            | inr (e, z″) ↦ rw (z, z', z″, chat) (inl h')
            | inl (id, z″) ↦ rw (z, z', z″, chat) (limit_rate-Done r _ key id _ h')
          ]
    ]
  ]

-- With a recorder, a request that is answered has one usage record, with the request id, the provider
-- and the cache status of the answer, and the status that belongs to it: a replay, a cache hit or a
-- success. A request that fails has at most one, and that one has the code of its error.
pub chat-Accounted :
    {W : Type 0} (c : Collaborators W) (req : Option ChatRequest) (m : RequestMetadata) (w : W)
    → is_some c.recorder ≡ true
    → (let (r, s) = chat c req m (record { world = w; log = [] }) in Accounted r s.log)
chat-Accounted c req m w has_recorder =
    chat-Done c has_recorder req m (record { world = w; log = [] }) refl

-- At most one record, which has the code that the client gets in the body for this error.
abbrev pub CodesBy : Error → List Event → Type 0
CodesBy e log =
    (records log ≡ [])
    ⊎ ((r : RequestRecord) × (records log ≡ r ∷ []) × (r.error_code ≡ (write_mapped_error e).code))

-- With a recorder, a request that does not stream and fails, with an error whose chain does not have
-- both a rate-limit error and a dependency error, has at most one usage record, and that one has the
-- code that the handler writes in the body of the answer to that error.
pub chat-Codes :
    {W : Type 0} (c : Collaborators W) (req : Option ChatRequest) (m : RequestMetadata) (w : W)
    (e : Error)
    → is_some c.recorder ≡ true
    → (chat c req m (record { world = w; log = [] })).0 ≡ err e
    → (as_rate_limited e ≡ none) ⊎ (as_dependency e ≡ none)
    → CodesBy e (chat c req m (record { world = w; log = [] })).1.log
chat-Codes c req m w e has_recorder failed plain =
    let (r, s) = chat c req m (record { world = w; log = [] }) in
    let accounted : Accounted (err e) s.log =
      subst (λ x. Accounted x s.log) failed (chat-Accounted c req m w has_recorder) in
    elim accounted [
      | inl h ↦ inl h
      | inr (rec, one, code) ↦ inr (rec, one, code ∙ sym (code_agrees e plain))
    ]
