-- ===== src/Gateway/Settled.antt =====
-- Every granted lease ends with its request (GatewayService.Chat of internal/service/gateway.go).
use model_gate.Prelude.{
  ◌≡◌, refl, ap, ◌∙◌, inl, inr, true, false, [], ◌∷◌, Option, none, some, String, is_some,
  Bool-cases, str_eq,
}
use model_gate.Errors.{Result, ok, err, Result-cases}
use model_gate.Requests.{ChatRequest, ChatUsage, check_mode}
use model_gate.Idempotency.{Status, acquired, pending, completed, conflict, LeaseStore}
use model_gate.Gateway.{
  Collaborators, State, began, Call, Lease, RequestMetadata, Answered, log_request,
  enforce_rate_limit, try_cache, reject, replay, after_begin, begin_lease, read_answer, take_lease,
  lease_from, limit_rate, name_request, chat, request_fingerprint, scoped_key,
}
use model_gate.Gateway.Keys.{normalize_key}
use model_gate.Gateway.Leases.{
  grants, settlements, Settled, Kept, log_request-Kept, enforce_rate_limit-Kept, name_request-Kept,
  try_cache-Served,
}

module _ {W : Type 0} (c : Collaborators W) where
  abbrev Fresh : State W → Type 0
  Fresh s = (grants s.log ≡ []) × (settlements s.log ≡ [])

  abbrev Done : Answered W → Type 0
  Done (r, s) = Settled c r s.log

  Kept-Fresh : (s t : State W) → Kept c s t → Fresh s → Fresh t
  Kept-Fresh s t (g, x) (g', x') = (g ∙ g', x ∙ x')

  logged-Fresh :
      (call : Call) (p status : String) (u : ChatUsage) (k code : String) (s : State W)
      → Fresh s
      → Fresh (log_request c call p status u k code s)
  logged-Fresh call p status u k code s f =
      Kept-Fresh s (log_request c call p status u k code s)
        (log_request-Kept c call p status u k code s) f

  without_lease :
      (call : Call) (l : Lease) (s : State W)
      → l.acquired ≡ false
      → Fresh s
      → Done (try_cache c call l s)
  without_lease call l s free (g, x) =
      let (g', unsettled, _) = try_cache-Served c l (λ held. cc) call s x in
      inl (g' ∙ g, unsettled free)

  with_lease :
      (call : Call) (l : Lease) (s : State W)
      → is_some c.leases ≡ true
      → l.acquired ≡ true
      → grants s.log ≡ (l.key, l.fingerprint) ∷ []
      → settlements s.log ≡ []
      → Done (try_cache c call l s)
  with_lease call l s has_store held g x =
      let (g', _, settled) = try_cache-Served c l (λ _. has_store) call s x in
      inr (l.key, l.fingerprint, g' ∙ g, settled held)

  reject-Done : (call : Call) (code : String) (s : State W) → Fresh s → Done (reject c call code s)
  unfolding reject
  reject-Done call code s f = inl (search (logged-Fresh, f))

  replay-Done : (call : Call) (p : String) (s : State W) → Fresh s → Done (replay c call p s)
  unfolding replay
  replay-Done call p s f = elim (Result-cases (c.decode_response p)) [
    | inr (e, z) ↦ rw (z, replay) (inl f)
    | inl (a, z) ↦ rw (z, replay) (inl (search (logged-Fresh, f)))
  ]

  after_begin-Done :
      (call : Call) (l : Lease) (status : Status) (p : String) (s : State W) (w : W)
      → is_some c.leases ≡ true
      → Fresh s
      → Done (
          after_begin c call l status p
            (record { world = w; log = began l.key l.fingerprint (ok (status, p)) ∷ s.log }))
  unfolding after_begin
  after_begin-Done call l acquired p s w has_store (g, x) =
      with_lease call (record l { acquired = true }) _ has_store refl
        (ap (◌∷◌ (l.key, l.fingerprint)) g) x
  after_begin-Done call l pending p s w has_store f = reject-Done call _ _ f
  after_begin-Done call l conflict p s w has_store f = reject-Done call _ _ f
  after_begin-Done call l completed p s w has_store f = replay-Done call p _ f

  read_answer-Done :
      (call : Call) (l : Lease) (answer : Result (Status × String)) (s : State W) (w : W)
      → is_some c.leases ≡ true
      → Fresh s
      → Done (
          read_answer c call l answer
            (record { world = w; log = began l.key l.fingerprint answer ∷ s.log }))
  unfolding read_answer
  read_answer-Done call l (err e) s w has_store f = inl f
  read_answer-Done call l (ok (status, p)) s w has_store f =
      after_begin-Done call l status p s w has_store f

  begin_lease-Done :
      (call : Call) (store : LeaseStore W) (s : State W)
      → is_some c.leases ≡ true
      → Fresh s
      → Done (begin_lease c call store s)
  unfolding begin_lease
  begin_lease-Done call store s has_store f =
      elim (Result-cases (request_fingerprint c call.request)) [
        | inr (e, z) ↦ rw (z, begin_lease) (inl f)
        | inl (fp, z) ↦
            let key = scoped_key c call.identity call.key in
            let l : Lease = record { key = key; fingerprint = fp; acquired = false } in
            let (answer, w) = store.begin key fp s.world in
            rw (z, begin_lease) (read_answer-Done call l answer s w has_store f)
      ]

  lease_from-Done :
      (o : Option (LeaseStore W)) (call : Call) (s : State W)
      → c.leases ≡ o
      → Fresh s
      → Done (lease_from c o call s)
  unfolding lease_from
  lease_from-Done none call s e f = inl f
  lease_from-Done (some store) call s e f = begin_lease-Done call store s (ap is_some e) f

  take_lease-Done : (call : Call) (s : State W) → Fresh s → Done (take_lease c call s)
  unfolding take_lease
  take_lease-Done call s f = elim (Bool-cases (str_eq call.key "")) [
    | inl z ↦
        let l : Lease = record { key = ""; fingerprint = ""; acquired = false } in
        rw (z, take_lease) (without_lease call l s refl f)
    | inr z ↦ rw (z, take_lease) (lease_from-Done c.leases call s refl f)
  ]

  limit_rate-Done :
      (r : ChatRequest) (identity key id : String) (s : State W)
      → Fresh s
      → Done (limit_rate c r identity key id s)
  unfolding limit_rate
  limit_rate-Done r identity key id s f =
      let s' : State W = record s { world = (c.clock s.world).1 } in
      let f' =
        Kept-Fresh s' (enforce_rate_limit c identity s').1 (enforce_rate_limit-Kept c identity s')
          f in
      elim (Result-cases (enforce_rate_limit c identity s').0) [
        | inr (e, z) ↦ rw (z, limit_rate) (inl (search (logged-Fresh, f')))
        | inl (d, z) ↦ rw (z, limit_rate) (take_lease-Done _ _ f')
      ]

  chat-Done :
      (req : Option ChatRequest) (m : RequestMetadata) (s : State W)
      → Fresh s
      → Done (chat c req m s)
  unfolding chat
  chat-Done req m s f = elim (Result-cases (check_mode false req)) [
    | inr (e, z) ↦ rw (z, chat) (inl f)
    | inl (r, z) ↦ elim (Result-cases (normalize_key m.idempotency_key)) [
      | inr (e, z') ↦ rw (z, z', chat) (inl f)
      | inl (key, z') ↦
          let f' =
            Kept-Fresh s (name_request c m.request_id s).1 (name_request-Kept c m.request_id s) f in
          elim (Result-cases (name_request c m.request_id s).0) [
            | inr (e, z″) ↦ rw (z, z', z″, chat) (inl f')
            | inl (id, z″) ↦ rw (z, z', z″, chat) (limit_rate-Done r _ key id _ f')
          ]
    ]
  ]

-- A request is granted at most one lease. If none is granted, none is completed or released. One that
-- is granted is released once when the request fails. When it succeeds, it is completed once, with
-- the encoding of the response that the client gets or the cached text that decodes to it; or it is
-- left pending, when that response cannot be encoded.
pub chat-Settled :
    {W : Type 0} (c : Collaborators W) (req : Option ChatRequest) (m : RequestMetadata) (w : W)
    → (let (r, s) = chat c req m (record { world = w; log = [] }) in Settled c r s.log)
chat-Settled c req m w = chat-Done c req m (record { world = w; log = [] }) (refl, refl)
