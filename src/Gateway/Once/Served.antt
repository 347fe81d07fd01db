-- ===== src/Gateway/Once/Served.antt =====
-- One request with an idempotency key, by what the key shows before it (GatewayService.Chat of
-- internal/service/gateway.go).
use model_gate.Prelude.{
  ◌≡◌, refl, ◌∙◌, sym, subst, inl, inr, true, false, List, Option, some, String, Bool-cases, str_eq,
}
use model_gate.Errors.{Error, Result, ok, err, Result-cases}
use model_gate.Requests.{ChatRequest, ChatUsage, check_mode}
use model_gate.Idempotency.{LeaseStore}
use model_gate.Idempotency.Slots.{Slot, free, held, finished, slot_begin}
use model_gate.Gateway.{
  Collaborators, State, Call, RequestMetadata, log_request, enforce_rate_limit, name_request,
  reject, replay, after_begin, read_answer, begin_lease, lease_from, take_lease, limit_rate,
  unlimited, chat, request_fingerprint, scoped_key,
}
use model_gate.Gateway.Keys.{normalize_key}
use model_gate.Gateway.Once.{
  calls, IsSlotOf, LeavesSlot, log_request-Same, enforce_rate_limit-Same, name_request-Same,
}
use model_gate.Gateway.Once.Granted.{EndsBy, early-EndsBy, try_cache-EndsBy}

module _ {W : Type 0} (c : Collaborators W) (shows : W → Slot → Type 0) (print : Result String)
    (quiet : LeavesSlot shows c) (store : LeaseStore W) (has : c.leases ≡ some store) where
  logged_error-EndsBy :
      (slot : Slot) (before : List ChatRequest) (call : Call) (p status : String) (u : ChatUsage)
      (kind code : String) (e : Error) (s : State W)
      → shows s.world slot
      → calls s.log ≡ before
      → EndsBy c shows print slot before (err e, log_request c call p status u kind code s)
  logged_error-EndsBy slot before call p status u kind code e s h k =
      let (keeps, same) = log_request-Same shows c quiet call p status u kind code s in
      early-EndsBy c shows print slot before e _ (keeps slot h) (same ∙ k)

  reject-EndsBy :
      (slot : Slot) (before : List ChatRequest) (call : Call) (code : String) (s : State W)
      → shows s.world slot
      → calls s.log ≡ before
      → EndsBy c shows print slot before (reject c call code s)
  unfolding reject
  reject-EndsBy slot before call code s h k = logged_error-EndsBy slot before call _ _ _ _ _ _ s h k

  replay-EndsBy :
      (f p : String) (before : List ChatRequest) (call : Call) (s : State W)
      → shows s.world (finished f p)
      → calls s.log ≡ before
      → EndsBy c shows print (finished f p) before (replay c call p s)
  unfolding replay
  replay-EndsBy f p before call s h k = elim (Result-cases (c.decode_response p)) [
    | inr (e, z) ↦ rw (z, replay) (h, k)
    | inl (a, z) ↦
        let (keeps, same) = log_request-Same shows c quiet call _ _ _ _ _ s in
        rw (z, replay) (keeps (finished f p) h, same ∙ k, refl, z)
  ]

  -- What follows the answer of Begin, which is that of the slot.
  read_answer-EndsBy :
      (name : String) (contract : IsSlotOf shows store name) (slot : Slot)
      (before : List ChatRequest) (call : Call) (f : String) (s : State W)
      → print ≡ ok f
      → shows s.world (slot_begin f slot).1
      → calls s.log ≡ before
      → EndsBy c shows print slot before (
          read_answer c call
            (record { key = name; fingerprint = f; acquired = false })
            (ok (slot_begin f slot).0)
            s)
  unfolding read_answer after_begin
  read_answer-EndsBy name contract free before call f s own h k =
      try_cache-EndsBy c shows print quiet store has
        (record { key = name; fingerprint = f; acquired = true }) refl contract own before call s h
  read_answer-EndsBy name contract (held g) before call f s own h k =
      elim (Bool-cases (str_eq g f)) [
        | inl z ↦ rw (z) (reject-EndsBy (held g) before call _ s (rw z at h) k)
        | inr z ↦ rw (z) (reject-EndsBy (held g) before call _ s (rw z at h) k)
      ]
  read_answer-EndsBy name contract (finished g p) before call f s own h k =
      elim (Bool-cases (str_eq g f)) [
        | inl z ↦ rw (z) (replay-EndsBy g p before call s (rw z at h) k)
        | inr z ↦ rw (z) (reject-EndsBy (finished g p) before call _ s (rw z at h) k)
      ]

  -- A request with a key, which shows a slot before it.
  module _ (call : Call) (slot : Slot) (before : List ChatRequest)
      (given : str_eq call.key "" ≡ false)
      (contract : IsSlotOf shows store (scoped_key c call.identity call.key))
      (own : request_fingerprint c call.request ≡ print) where
    begin_lease-EndsBy :
        (s : State W)
        → shows s.world slot
        → calls s.log ≡ before
        → EndsBy c shows print slot before (begin_lease c call store s)
    unfolding begin_lease
    begin_lease-EndsBy s h k = elim (Result-cases (request_fingerprint c call.request)) [
      | inr (e, z) ↦ rw (z, begin_lease) (early-EndsBy c shows print slot before _ s h k)
      | inl (f, z) ↦
          let (answer, shown) = contract.begins f s.world slot h in
          rw (z, begin_lease, answer)
            (read_answer-EndsBy (scoped_key c call.identity call.key) contract slot before call f _
              (sym own ∙ z) shown k)
    ]

    take_lease-EndsBy :
        (s : State W)
        → shows s.world slot
        → calls s.log ≡ before
        → EndsBy c shows print slot before (take_lease c call s)
    unfolding take_lease lease_from
    take_lease-EndsBy s h k =
        rw (given, take_lease)
          (subst (λ o. EndsBy c shows print slot before (lease_from c o call s)) (sym has)
            (begin_lease-EndsBy s h k))

  module _ (identity key : String) (given : str_eq key "" ≡ false)
      (contract : IsSlotOf shows store (scoped_key c identity key)) (slot : Slot)
      (before : List ChatRequest) where
    limit_rate-EndsBy :
        (r : ChatRequest) (id : String) (s : State W)
        → request_fingerprint c r ≡ print
        → shows s.world slot
        → calls s.log ≡ before
        → EndsBy c shows print slot before (limit_rate c r identity key id s)
    unfolding limit_rate
    limit_rate-EndsBy r id s own h k =
        let s' : State W = record s { world = (c.clock s.world).1 } in
        let (keeps, same) = enforce_rate_limit-Same shows c quiet identity s' in
        let h' = keeps slot (quiet.clock s.world slot h) in
        elim (Result-cases (enforce_rate_limit c identity s').0) [
          | inr (e, z) ↦
              let call : Call = record {
                request = r;
                identity = identity;
                key = key;
                request_id = id;
                started_at = (c.clock s.world).0;
                rate_limit = unlimited c;
              } in
              rw (z, limit_rate) (logged_error-EndsBy slot before call _ _ _ _ _ _ _ h' (same ∙ k))
          | inl (d, z) ↦
              rw (z, limit_rate)
                (take_lease-EndsBy _ slot before given contract own _ h' (same ∙ k))
        ]

    -- What a request with the key leaves, by what the key showed before it.
    pub chat-EndsBy :
        (req : Option ChatRequest) (m : RequestMetadata) (s : State W)
        → m.client_identity ≡ identity
        → normalize_key m.idempotency_key ≡ ok key
        → ((r : ChatRequest) → check_mode false req ≡ ok r → request_fingerprint c r ≡ print)
        → shows s.world slot
        → calls s.log ≡ before
        → EndsBy c shows print slot before (chat c req m s)
    unfolding chat
    chat-EndsBy req m s who which own h k = elim (Result-cases (check_mode false req)) [
      | inr (e, z) ↦ rw (z, chat) (early-EndsBy c shows print slot before _ s h k)
      | inl (r, z) ↦
          let (keeps, same) = name_request-Same shows c quiet m.request_id s in
          elim (Result-cases (name_request c m.request_id s).0) [
            | inr (e, z') ↦
                rw (z, which, z', chat)
                  (early-EndsBy c shows print slot before _ _ (keeps slot h) (same ∙ k))
            | inl (id, z') ↦
                rw (z, which, z', chat, who)
                  (limit_rate-EndsBy r id _ (own r z) (keeps slot h) (same ∙ k))
          ]
    ]
