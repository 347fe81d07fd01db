-- ===== src/Gateway/Stream/Opened.antt =====
-- A streaming request from its arrival to its end (GatewayService.ChatStream and meteredStream of
-- internal/service/gateway.go).
use model_gate.Prelude.{
  ℕ, ◌≡◌, refl, ◌∙◌, arith, not, ◌||◌, ◌⊎◌, inl, inr, true, List, [], ◌∷◌, Option, some, String,
  is_some, Bool-cases, str_eq, trim_space,
}
use model_gate.Errors.{Error, Result, ok, err, Result-cases}
use model_gate.Requests.{ChatRequest, check_mode}
use model_gate.Responses.{gateway_error_code, status_for_gateway_error}
use model_gate.Gateway.{
  Collaborators, State, RequestRecord, RequestMetadata, Call, enforce_rate_limit, name_request,
  no_usage, unlimited, called,
}
use model_gate.Gateway.Accounts.{
  records, log_request-records, enforce_rate_limit-Quiet, name_request-Quiet,
}
use model_gate.Gateway.Stream.{
  Streams, StreamResult, Opening, refuse, meter, start_stream, limit_stream, chat_stream,
}
use model_gate.Gateway.Stream.Metered.{
  Use, IsOpen, Metered, use_metered, use_metered-Metered, has_close, use_metered-verdict_of,
}

module _ {W S C : Type 0} (c : Collaborators W) (has_recorder : is_some c.recorder ≡ true)
    (streams : Streams W S C) where
  -- What a refused request leaves behind.
  abbrev pub Refused : Error → ℕ → List RequestRecord → Type 0
  Refused e canceled log =
      (canceled ≡ 1)
      × ((log ≡ [])
          ⊎ ((r : RequestRecord) × (log ≡ r ∷ []) × (r.error_code ≡ gateway_error_code e)))

  -- What ChatStream owes its caller.
  abbrev OwesBy : Result (StreamResult S) → ℕ → State W → Type 0
  OwesBy (err e) canceled s = Refused e canceled (records s.log)
  OwesBy (ok a) canceled s =
      (canceled ≡ 0)
      × (IsOpen a.stream.call a.provider no_usage a.stream s
          × (a.request_id ≡ a.stream.call.request_id))

  abbrev Owes : Opening W S → Type 0
  Owes o = OwesBy o.result o.canceled o.state

  refuse-Owes :
      (call : Call) (provider status : String) (e : Error) (s : State W)
      → records s.log ≡ []
      → Owes (refuse c streams call provider status e s)
  unfolding refuse
  refuse-Owes call provider status e s h =
      let (r, one, _, _, _, _, code) =
        log_request-records c has_recorder call provider status no_usage "BYPASS"
          (gateway_error_code e) s h in
      (refl, inr (r, one, code))

  meter-Owes :
      (call : Call) (stream : S) (s : State W)
      → records s.log ≡ []
      → Owes (meter c streams call stream s)
  unfolding meter
  meter-Owes call stream s h = (
    refl,
    (
      record {
        unfinished = refl;
        uncanceled = refl;
        of_call = refl;
        of_provider = refl;
        counted = refl;
        unrecorded = h;
      },
      refl,
    ),
  )

  start_stream-Owes :
      (call : Call) (s : State W) → records s.log ≡ [] → Owes (start_stream c streams call s)
  unfolding start_stream
  start_stream-Owes call s h = elim (Result-cases (check_mode true (some call.request))) [
    | inr (e, z) ↦ rw (z, start_stream) (refuse-Owes call _ _ e s h)
    | inl (r, z) ↦
        let (opened, w) = streams.start r s.world in
        let s' : State W = record { world = w; log = called r ∷ s.log } in
        elim (Result-cases (streams.start r s.world).0) [
          | inr (e, z') ↦ rw (z, start_stream, z') (refuse-Owes call _ _ e s' h)
          | inl (stream, z') ↦ rw (z, start_stream, z') (meter-Owes call stream s' h)
        ]
  ]

  limit_stream-Owes :
      (r : ChatRequest) (identity id : String) (s : State W)
      → records s.log ≡ []
      → Owes (limit_stream c streams r identity id s)
  unfolding limit_stream
  limit_stream-Owes r identity id s h =
      let (now, w) = c.clock s.world in
      let s' : State W = record s { world = w } in
      let h' = enforce_rate_limit-Quiet c identity s' ∙ h in
      let t = (enforce_rate_limit c identity s').1 in
      let call : Call = record {
        request = r;
        identity = identity;
        key = "";
        request_id = id;
        started_at = now;
        rate_limit = unlimited c;
      } in
      elim (Result-cases (enforce_rate_limit c identity s').0) [
        | inr (e, z) ↦
            rw (z, limit_stream)
              (refuse-Owes call c.provider_name (status_for_gateway_error e) e t h')
        | inl (d, z) ↦
            rw (z, limit_stream) (start_stream-Owes (record call { rate_limit = d }) t h')
      ]

  chat_stream-Owes :
      (req : Option ChatRequest) (m : RequestMetadata) (s : State W)
      → records s.log ≡ []
      → Owes (chat_stream c streams req m s)
  unfolding chat_stream
  chat_stream-Owes req m s h = elim (Result-cases (check_mode true req)) [
    | inr (e, z) ↦ rw (z, chat_stream) (refl, inl h)
    | inl (r, z) ↦ elim (Bool-cases (str_eq (trim_space m.idempotency_key) "")) [
      | inr blank ↦ rw (z, chat_stream, blank) (refl, inl h)
      | inl blank ↦
          let h' = name_request-Quiet c m.request_id s ∙ h in
          elim (Result-cases (name_request c m.request_id s).0) [
            | inr (e, z') ↦ rw (z, chat_stream, blank, z') (refl, inl h')
            | inl (id, z') ↦ rw (z, chat_stream, blank, z') (limit_stream-Owes r _ id _ h')
          ]
    ]
  ]

  -- What a request leaves behind after calls of Recv and Close on its stream, where it has one.
  abbrev pub Served : List Use → Result (StreamResult S) → ℕ → State W → Type 0
  Served us (err e) canceled s = Refused e canceled (records s.log)
  Served us (ok a) canceled s =
      let (replies, (n, t)) = use_metered c streams us (a.stream, s) in
      (canceled ≡ 0)
      × (Metered c has_recorder streams no_usage a.stream.call a.provider (replies, (n, t))
          × ((a.request_id ≡ a.stream.call.request_id) × (n.finished || not (has_close us) ≡ true)))

  served :
      (us : List Use) (a : Result (StreamResult S)) (canceled : ℕ) (s : State W)
      → OwesBy a canceled s
      → Served us a canceled s
  served us (err e) canceled s owes = owes
  served us (ok a) canceled s (none_canceled, (i, id)) =
      let metered =
        use_metered-Metered c has_recorder streams us a.stream.call a.provider no_usage a.stream s
          i in
      let closed = use_metered-verdict_of c streams us (a.stream, s) no_usage in
      (none_canceled, (metered, (id, ground (arith, metered.1, closed))))

  -- With a recorder, a streaming request that the gateway refuses has its context canceled once, and at
  -- most one usage record, with the code of the error. One that it answers with a stream has its context
  -- not canceled yet; after any calls of Recv and Close, it has one record and its context canceled once
  -- where an answer of theirs has ended it, and else neither. The first answer that ends it decides the
  -- record's status and error code, the last usage up to that answer is the record's, and a Close ends
  -- it.
  pub chat_stream-Served :
      (us : List Use) (req : Option ChatRequest) (m : RequestMetadata) (s : State W)
      → records s.log ≡ []
      → let o = chat_stream c streams req m s in Served us o.result o.canceled o.state
  chat_stream-Served us req m s h =
      let o = chat_stream c streams req m s in
      served us o.result o.canceled o.state (chat_stream-Owes req m s h)
