-- ===== src/Gateway/Leases.antt =====
-- The idempotency lease of a request is settled once (GatewayService.Chat of
-- internal/service/gateway.go).
use model_gate.Prelude.{
  ◌≡◌, refl, ◌∙◌, arith, ◌⊎◌, inl, inr, true, false, List, [], ◌∷◌, Option, none, some, String,
  is_some, if◌then◌else◌, Option-cases,
}
use model_gate.Errors.{Error, Result, ok, err, Result-cases}
use model_gate.Requests.{ChatResponse, ChatUsage, check_mode}
use model_gate.Idempotency.{acquired}
use model_gate.Gateway.{
  Collaborators, State, Event, began, released, completed_with, saw_cache_hit, Call, Lease,
  CacheStore, RequestRecord, ChatResult, Answered, record_request, log_request, enforce_rate_limit,
  complete_lease, release_lease, write_cache, keep_response, succeed, fail, call_provider, hit,
  look_up, try_cache, name_request, cache_key,
}

-- The leases that the store granted, and what was asked of it at their end, last first.
abbrev pub grants : List Event → List (String × String)
grants [] = []
grants (began key fingerprint (ok (acquired, _)) ∷ es) = (key, fingerprint) ∷ grants es
grants (_ ∷ es) = grants es

abbrev pub settlements : List Event → List Event
settlements [] = []
settlements (released key fingerprint ∷ es) = released key fingerprint ∷ settlements es
settlements (completed_with key fingerprint p ∷ es) =
    completed_with key fingerprint p ∷ settlements es
settlements (_ ∷ es) = settlements es

module _ {W : Type 0} (c : Collaborators W) where
  -- How the lease of a request ends, by the request's result.
  abbrev pub Ends : String → String → Result ChatResult → List Event → Type 0
  Ends key fingerprint (err e) es = es ≡ released key fingerprint ∷ []
  Ends key fingerprint (ok a) es =
      ((payload : String) × (es ≡ completed_with key fingerprint payload ∷ [])
        × ((c.encode_response a.response ≡ ok payload)
            ⊎ (c.decode_response payload ≡ ok a.response)))
      ⊎ ((es ≡ []) × (e : Error) × (c.encode_response a.response ≡ err e))

  abbrev pub Kept : State W → State W → Type 0
  Kept s t = (grants t.log ≡ grants s.log) × (settlements t.log ≡ settlements s.log)

  record_request-Kept : (r : RequestRecord) (s : State W) → Kept s (record_request c r s)
  unfolding record_request
  record_request-Kept r s = (ground arith, ground arith)

  pub log_request-Kept :
      (call : Call) (p status : String) (u : ChatUsage) (k code : String) (s : State W)
      → Kept s (log_request c call p status u k code s)
  unfolding log_request
  log_request-Kept call p status u k code s = record_request-Kept _ _

  pub enforce_rate_limit-Kept :
      (identity : String) (s : State W) → Kept s (enforce_rate_limit c identity s).1
  unfolding enforce_rate_limit
  enforce_rate_limit-Kept identity s = (ground arith, ground arith)

  write_cache-Kept :
      (key : Option String) (p : String) (s : State W) → Kept s (write_cache c key p s)
  unfolding write_cache
  write_cache-Kept none p s = (refl, refl)
  write_cache-Kept (some key) p s = (ground arith, ground arith)

  pub name_request-Kept : (given : String) (s : State W) → Kept s (name_request c given s).1
  unfolding name_request
  name_request-Kept given s = (ground arith, ground arith)

  -- A lease in hand: if it was acquired, there is a store.
  module _ (l : Lease) (has_store : l.acquired ≡ true → is_some c.leases ≡ true) where
    release_lease-settles :
        (s : State W)
        → (grants (release_lease c l s).log ≡ grants s.log)
          × (settlements (release_lease c l s).log ≡ (
              if l.acquired
              then released l.key l.fingerprint ∷ settlements s.log
              else settlements s.log))
    unfolding release_lease
    release_lease-settles s = (ground arith, ground (arith, has_store))

    complete_lease-settles :
        (p : String) (s : State W)
        → (grants (complete_lease c l p s).log ≡ grants s.log)
          × (settlements (complete_lease c l p s).log ≡ (
              if l.acquired
              then completed_with l.key l.fingerprint p ∷ settlements s.log
              else settlements s.log))
    unfolding complete_lease
    complete_lease-settles p s = (ground arith, ground (arith, has_store))

    -- Nothing is settled before, and what the lease asks for is, after.
    abbrev pub Served : State W → Answered W → Type 0
    Served s (r, t) =
        (grants t.log ≡ grants s.log)
        × ((l.acquired ≡ false) → settlements t.log ≡ [])
        × ((l.acquired ≡ true) → Ends l.key l.fingerprint r (settlements t.log))

    fail-Served :
        (call : Call) (cache_status : String) (e : Error) (s : State W)
        → settlements s.log ≡ []
        → Served s (fail c call l cache_status e s)
    unfolding fail
    fail-Served call cache_status e s h =
        let logged = log_request-Kept call _ _ _ _ _ (release_lease c l s) in
        let (same, settled) = release_lease-settles s in
        (
          logged.0 ∙ same,
          λ free. logged.1 ∙ ground (arith, settled),
          λ held. logged.1 ∙ ground (arith, settled),
        )

    keep_response-settles :
        (key : Option String) (a : ChatResponse) (s : State W)
        → settlements s.log ≡ []
        → (grants (keep_response c l key a s).log ≡ grants s.log)
          × ((l.acquired ≡ false) → settlements (keep_response c l key a s).log ≡ [])
          × ((l.acquired ≡ true)
              → ((payload : String) × (settlements (keep_response c l key a s).log
                    ≡ completed_with l.key l.fingerprint payload ∷ [])
                  × (c.encode_response a ≡ ok payload))
                ⊎ ((settlements (keep_response c l key a s).log ≡ [])
                    × (e : Error) × (c.encode_response a ≡ err e)))
    unfolding keep_response
    keep_response-settles key a s h = elim (Result-cases (c.encode_response a)) [
      | inl (payload, e) ↦
          let (g, x) = write_cache-Kept key payload s in
          let (g', x') = complete_lease-settles payload (write_cache c key payload s) in
          rw (e, keep_response)
            (
              g' ∙ g,
              λ free. ground (arith, x', x, h),
              λ held. inl (payload, ground (arith, x', x, h), refl),
            )
      | inr (e', e) ↦ rw (e, keep_response) (refl, λ free. h, λ held. inr (h, e', refl))
    ]

    succeed-Served :
        (call : Call) (key : Option String) (cache_status : String) (a : ChatResponse) (s : State W)
        → settlements s.log ≡ []
        → Served s (succeed c call l key cache_status a s)
    unfolding succeed
    succeed-Served call key cache_status a s h =
        let (g, no_lease, lease) = keep_response-settles key a s h in
        let (g', x') = log_request-Kept call _ _ _ _ _ (keep_response c l key a s) in
        (
          g' ∙ g,
          λ free. x' ∙ no_lease free,
          λ held. elim (lease held) [
            | inl (payload, x, e) ↦ inl (payload, x' ∙ x, inl e)
            | inr (x, e', e) ↦ inr (x' ∙ x, e', e)
          ],
        )

    call_provider-Served :
        (call : Call) (key : Option String) (cache_status : String) (s : State W)
        → settlements s.log ≡ []
        → Served s (call_provider c call l key cache_status s)
    unfolding call_provider
    call_provider-Served call key cache_status s h =
        elim (Result-cases (check_mode false (some call.request))) [
          | inr (e, z) ↦ rw (z, call_provider) (fail-Served call cache_status e s h)
          | inl (r, z) ↦ elim (Result-cases (c.provider r s.world).0) [
            | inl (a, z') ↦ rw (z, z', call_provider) (succeed-Served call key cache_status a _ h)
            | inr (e, z') ↦ rw (z, z', call_provider) (fail-Served call cache_status e _ h)
          ]
        ]

    hit-Served :
        (call : Call) (p : String) (a : ChatResponse) (s : State W)
        → c.decode_response p ≡ ok a
        → settlements s.log ≡ []
        → Served s (hit c call l p a s)
    unfolding hit
    hit-Served call p a s e h =
        let (g, x) = complete_lease-settles p (record s { log = saw_cache_hit ∷ s.log }) in
        let (g', x') =
          log_request-Kept call _ _ _ _ _
            (complete_lease c l p (record s { log = saw_cache_hit ∷ s.log })) in
        (
          g' ∙ g,
          λ free. x' ∙ ground (arith, x, h),
          λ held. inl (p, x' ∙ ground (arith, x, h), inr e),
        )

    look_up-Served :
        (call : Call) (key : String) (store : CacheStore W) (s : State W)
        → settlements s.log ≡ []
        → Served s (look_up c call l key store s)
    unfolding look_up
    look_up-Served call key store s h = elim (Result-cases (store.get key s.world).0) [
      | inr (e, z) ↦ rw (z, look_up) (call_provider-Served call (some key) "MISS" _ h)
      | inl (none, z) ↦ rw (z, look_up) (call_provider-Served call (some key) "MISS" _ h)
      | inl (some p, z) ↦ elim (Result-cases (c.decode_response p)) [
        | inl (a, z') ↦ rw (z, z', look_up) (hit-Served call p a _ z' h)
        | inr (e, z') ↦ rw (z, z', look_up) (call_provider-Served call (some key) "MISS" _ h)
      ]
    ]

    pub try_cache-Served :
        (call : Call) (s : State W) → settlements s.log ≡ [] → Served s (try_cache c call l s)
    unfolding try_cache
    try_cache-Served call s h = elim (Result-cases (cache_key c call.identity call.request)) [
      | inr (e, z) ↦
          let (g, x) = release_lease-settles s in
          rw (z, try_cache) (g, λ free. ground (arith, x, h), λ held. ground (arith, x, h))
      | inl (none, z) ↦ rw (z, try_cache) (call_provider-Served call none "BYPASS" s h)
      | inl (some key, z) ↦ elim (Option-cases c.cache) [
        | inl z' ↦ rw (z, z', try_cache) (call_provider-Served call (some key) "BYPASS" s h)
        | inr (store, z') ↦ rw (z, z', try_cache) (look_up-Served call key store s h)
      ]
    ]

  -- No lease was granted and none is settled; or one was, and it has ended.
  abbrev pub Settled : Result ChatResult → List Event → Type 0
  Settled r log =
      ((grants log ≡ []) × (settlements log ≡ []))
      ⊎ ((key fingerprint : String) × (grants log ≡ (key, fingerprint) ∷ [])
          × Ends key fingerprint r (settlements log))
