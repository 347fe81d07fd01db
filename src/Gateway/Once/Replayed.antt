-- ===== src/Gateway/Once/Replayed.antt =====
-- A request whose key has a response for it (GatewayService.Chat of internal/service/gateway.go).
use model_gate.Prelude.{
  ◌≡◌, refl, ap, subst, sym, true, false, Option, some, String, str_eq, trim_space, eq_refl,
}
use model_gate.Errors.{Decision, ok}
use model_gate.Requests.{ChatRequest, ChatResponse, check_mode}
use model_gate.Idempotency.{LeaseStore}
use model_gate.Idempotency.Slots.{Slot, finished}
use model_gate.Gateway.{
  Collaborators, State, Call, RequestMetadata, ChatResult, Answered, enforce_rate_limit,
  name_request, replay, after_begin, read_answer, begin_lease, lease_from, take_lease, limit_rate,
  chat, request_fingerprint, scoped_key,
}
use model_gate.Gateway.Keys.{normalize_key}
use model_gate.Gateway.Once.{IsSlotOf, LeavesSlot, enforce_rate_limit-Same}

-- A replay of `b`.
abbrev pub IsReplay : {W : Type 0} → ChatResponse → Answered W → Type 0
IsReplay b res =
    (a : ChatResult) × (res.0 ≡ ok a) × (a.idempotency_replayed ≡ true) × (a.response ≡ b)

module _ {W : Type 0} (c : Collaborators W) (shows : W → Slot → Type 0) (quiet : LeavesSlot shows c)
    (store : LeaseStore W) (has : c.leases ≡ some store) (f p : String) (b : ChatResponse)
    (decodes : c.decode_response p ≡ ok b) where
  replay-IsReplay : (call : Call) (s : State W) → IsReplay b (replay c call p s)
  unfolding replay
  replay-IsReplay call s = rw (decodes, replay) (_, refl, refl, refl)

  begin_lease-IsReplay :
      (call : Call) (s : State W)
      → IsSlotOf shows store (scoped_key c call.identity call.key)
      → request_fingerprint c call.request ≡ ok f
      → shows s.world (finished f p)
      → IsReplay b (begin_lease c call store s)
  unfolding begin_lease read_answer after_begin
  begin_lease-IsReplay call s contract own h =
      let (answer, _) = contract.begins f s.world (finished f p) h in
      rw (own, begin_lease, answer, eq_refl f) (replay-IsReplay call _)

  take_lease-IsReplay :
      (call : Call) (s : State W)
      → IsSlotOf shows store (scoped_key c call.identity call.key)
      → str_eq call.key "" ≡ false
      → request_fingerprint c call.request ≡ ok f
      → shows s.world (finished f p)
      → IsReplay b (take_lease c call s)
  unfolding take_lease lease_from
  take_lease-IsReplay call s contract given own h =
      rw (given, take_lease)
        (subst (λ o. IsReplay b (lease_from c o call s)) (sym has)
          (begin_lease-IsReplay call s contract own h))

  module _ (identity key : String) (given : str_eq key "" ≡ false)
      (contract : IsSlotOf shows store (scoped_key c identity key))
      (admits : (s : State W) → (d : Decision) × ((enforce_rate_limit c identity s).0 ≡ ok d)) where
    limit_rate-IsReplay :
        (r : ChatRequest) (id : String) (s : State W)
        → request_fingerprint c r ≡ ok f
        → shows s.world (finished f p)
        → IsReplay b (limit_rate c r identity key id s)
    unfolding limit_rate
    limit_rate-IsReplay r id s own h =
        let s' : State W = record s { world = (c.clock s.world).1 } in
        let (keeps, _) = enforce_rate_limit-Same shows c quiet identity s' in
        let (d, z) = admits s' in
        rw (z, limit_rate)
          (take_lease-IsReplay _ _ contract given own
            (keeps (finished f p) (quiet.clock s.world (finished f p) h)))

    -- A valid request with that fingerprint and an identifier.
    pub chat-IsReplay :
        (req : Option ChatRequest) (r : ChatRequest) (m : RequestMetadata) (s : State W)
        → check_mode false req ≡ ok r
        → m.client_identity ≡ identity
        → normalize_key m.idempotency_key ≡ ok key
        → str_eq (trim_space m.request_id) "" ≡ false
        → request_fingerprint c r ≡ ok f
        → shows s.world (finished f p)
        → IsReplay b (chat c req m s)
    unfolding chat name_request
    chat-IsReplay req r m s valid who which named own h =
        let id : name_request c m.request_id s ≡ (ok (trim_space m.request_id), s) =
          rw (named, name_request) refl in
        rw (valid, which, id, chat, who)
          (subst (λ t. IsReplay b (limit_rate c r identity key (trim_space m.request_id) t))
            (sym (ap (λ x. x.1) id)) (limit_rate-IsReplay r (trim_space m.request_id) s own h))
