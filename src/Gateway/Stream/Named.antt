-- ===== src/Gateway/Stream/Named.antt =====
-- The identifier of a streaming request in its result (GatewayService.ChatStream of
-- internal/service/gateway.go).
use model_gate.Prelude.{
  ◌≡◌, refl, Option, String, trim_space, str_eq, true, false, some, Bool-cases, inl, inr,
}
use model_gate.Errors.{Result, ok, err, Result-cases}
use model_gate.Requests.{ChatRequest, check_mode}
use model_gate.Gateway.{
  Collaborators, State, Call, RequestMetadata, enforce_rate_limit, name_request,
}
use model_gate.Gateway.Stream.{
  Streams, StreamResult, start_stream, limit_stream, chat_stream, refuse, meter,
}

-- The result, if there is one, has the identifier.
abbrev pub HasId : {S : Type 0} → String → Result (StreamResult S) → Type 0
HasId id (ok a) = a.request_id ≡ id
HasId id (err e) = Unit {0}

module _ {W S C : Type 0} (c : Collaborators W) (streams : Streams W S C) where
  start_stream-HasId :
      (call : Call) (s : State W) → HasId call.request_id (start_stream c streams call s).result
  unfolding start_stream refuse meter
  start_stream-HasId call s = elim (Result-cases (check_mode true (some call.request))) [
    | inr (e, z) ↦ rw (z, start_stream) tt
    | inl (r, z) ↦ elim (Result-cases (streams.start r s.world).0) [
      | inr (e, z') ↦ rw (z, z', start_stream) tt
      | inl (stream, z') ↦ rw (z, z', start_stream) refl
    ]
  ]

  limit_stream-HasId :
      (r : ChatRequest) (identity id : String) (s : State W)
      → HasId id (limit_stream c streams r identity id s).result
  unfolding limit_stream refuse
  limit_stream-HasId r identity id s =
      let s' : State W = record s { world = (c.clock s.world).1 } in
      elim (Result-cases (enforce_rate_limit c identity s').0) [
        | inr (e, z) ↦ rw (z, limit_stream) tt
        | inl (d, z) ↦
            let call : Call = record {
              request = r;
              identity = identity;
              key = "";
              request_id = id;
              started_at = (c.clock s.world).0;
              rate_limit = d;
            } in
            rw (z, limit_stream) (start_stream-HasId call _)
      ]

  -- A request that brings an identifier keeps it.
  pub chat_stream-HasId :
      (req : Option ChatRequest) (m : RequestMetadata) (s : State W)
      → str_eq (trim_space m.request_id) "" ≡ false
      → HasId (trim_space m.request_id) (chat_stream c streams req m s).result
  unfolding chat_stream name_request
  chat_stream-HasId req m s h = elim (Result-cases (check_mode true req)) [
    | inr (e, z) ↦ rw (z, chat_stream) tt
    | inl (r, z) ↦ elim (Bool-cases (str_eq (trim_space m.idempotency_key) "")) [
      | inr k ↦ rw (z, k, chat_stream) tt
      | inl k ↦
          rw (z, k, chat_stream, name_request, h)
            (limit_stream-HasId r m.client_identity (trim_space m.request_id) _)
    ]
  ]
