-- ===== src/Gateway/Once/Granted.antt =====
-- What a request that was granted the lease leaves of it (GatewayService.Chat of
-- internal/service/gateway.go).
use model_gate.Prelude.{
  ◌≡◌, refl, subst, ◌⊎◌, inl, inr, Bool, true, false, List, ◌∷◌, Option, none, some, String,
  Option-cases, eq_refl,
}
use model_gate.Errors.{Error, Result, ok, err, Result-cases}
use model_gate.Requests.{ChatRequest, ChatResponse, check_mode}
use model_gate.Idempotency.{LeaseStore}
use model_gate.Idempotency.Slots.{Slot, free, held, finished, slot_complete, slot_release}
use model_gate.Gateway.{
  Collaborators, State, saw_cache_hit, Call, Lease, CacheStore, Answered, complete_lease,
  release_lease, write_cache, keep_response, succeed, fail, call_provider, hit, look_up, try_cache,
  cache_key,
}
use model_gate.Gateway.Once.{
  calls, IsSlotOf, LeavesSlot, log_request-Same, write_cache-Same, release_lease-Slot,
  complete_lease-Slot,
}

abbrev pub is_taken : Slot → Bool
is_taken free = false
is_taken (held f) = true
is_taken (finished f p) = true

abbrev pub fingerprint_of : Slot → String
fingerprint_of free = ""
fingerprint_of (held f) = f
fingerprint_of (finished f p) = f

own_release : (f : String) → slot_release f (held f) ≡ free
own_release f = rw (eq_refl f) refl

own_complete : (f p : String) → (slot_complete f p (held f)).1 ≡ finished f p
own_complete f p = rw (eq_refl f) refl

module _ {W : Type 0} (c : Collaborators W) where
  -- The response that a slot has for a later request.
  abbrev pub Gives : Slot → ChatResponse → Type 0
  Gives free b = ⊥
  Gives (held f) b = ⊥
  Gives (finished f p) b = c.decode_response p ≡ ok b

  -- `b` is `a`, encoded and decoded; or both are decoded from the same text.
  abbrev pub Repeats : ChatResponse → ChatResponse → Type 0
  Repeats a b =
      (p : String) × ((c.encode_response a ≡ ok p) ⊎ (c.decode_response p ≡ ok a))
      × (c.decode_response p ≡ ok b)

  -- What a slot has of the response `a` that its request was answered.
  abbrev pub Stores : ChatResponse → Slot → Type 0
  Stores a free = ⊥
  Stores a (held f) = (e : Error) × (c.encode_response a ≡ err e)
  Stores a (finished f p) = (c.encode_response a ≡ ok p) ⊎ (c.decode_response p ≡ ok a)

  pub stored-taken : (a : ChatResponse) (slot : Slot) → Stores a slot → is_taken slot ≡ true
  stored-taken a free h = absurd h
  stored-taken a (held f) h = refl
  stored-taken a (finished f p) h = refl

  pub stored-Gives :
      (a : ChatResponse) (slot : Slot)
      → Stores a slot
      → (b : ChatResponse) → Gives slot b
      → Repeats a b
  stored-Gives a free h b g = absurd g
  stored-Gives a (held f) h b g = absurd g
  stored-Gives a (finished f p) h b g = (p, h, g)

  -- With the fingerprint of the request that is served, if it has one.
  module _ (shows : W → Slot → Type 0) (print : Result String) where
    -- How a request ends, by the slot before it, and by the calls of the provider before it.
    abbrev pub EndsBy : Slot → List ChatRequest → Answered W → Type 0
    EndsBy free before (err e, t) = shows t.world free
    EndsBy free before (ok a, t) =
        (a.idempotency_replayed ≡ false)
        × (slot : Slot) × shows t.world slot
        × Stores a.response slot
        × (print ≡ ok (fingerprint_of slot))
    EndsBy (held f) before (err e, t) = shows t.world (held f) × (calls t.log ≡ before)
    EndsBy (held f) before (ok a, t) = ⊥
    EndsBy (finished f p) before (err e, t) = shows t.world (finished f p) × (calls t.log ≡ before)
    EndsBy (finished f p) before (ok a, t) =
        shows t.world (finished f p)
        × (calls t.log ≡ before)
        × (a.idempotency_replayed ≡ true)
        × (c.decode_response p ≡ ok a.response)

    -- A failure that has left the slot alone.
    pub early-EndsBy :
        (slot : Slot) (before : List ChatRequest) (e : Error) (t : State W)
        → shows t.world slot
        → calls t.log ≡ before
        → EndsBy slot before (err e, t)
    early-EndsBy free before e t h k = h
    early-EndsBy (held f) before e t h k = (h, k)
    early-EndsBy (finished f p) before e t h k = (h, k)

    module _ (quiet : LeavesSlot shows c) (store : LeaseStore W) (has : c.leases ≡ some store) where
      -- The request that holds the slot.
      module _ (l : Lease) (mine : l.acquired ≡ true) (contract : IsSlotOf shows store l.key)
          (own : print ≡ ok l.fingerprint) (before : List ChatRequest) where
        released-free :
            (s : State W)
            → shows s.world (held l.fingerprint)
            → shows (release_lease c l s).world free
        released-free s h =
            subst (λ slot. shows (release_lease c l s).world slot) (own_release l.fingerprint)
              (release_lease-Slot shows c quiet store has l mine contract s _ h)

        completed-finished :
            (p : String) (s : State W)
            → shows s.world (held l.fingerprint)
            → shows (complete_lease c l p s).world (finished l.fingerprint p)
        completed-finished p s h =
            subst (λ slot. shows (complete_lease c l p s).world slot) (own_complete l.fingerprint p)
              (complete_lease-Slot shows c quiet store has l mine contract p s _ h)

        fail-EndsBy :
            (call : Call) (cache_status : String) (e : Error) (s : State W)
            → shows s.world (held l.fingerprint)
            → EndsBy free before (fail c call l cache_status e s)
        unfolding fail
        fail-EndsBy call cache_status e s h =
            let (keeps, _) = log_request-Same shows c quiet call _ _ _ _ _ (release_lease c l s) in
            keeps free (released-free s h)

        keep_response-Slot :
            (key : Option String) (a : ChatResponse) (s : State W)
            → shows s.world (held l.fingerprint)
            → (slot : Slot) × shows (keep_response c l key a s).world slot
              × Stores a slot
              × (print ≡ ok (fingerprint_of slot))
        unfolding keep_response
        keep_response-Slot key a s h = elim (Result-cases (c.encode_response a)) [
          | inr (e, z) ↦ (held l.fingerprint, rw (z, keep_response) h, (e, z), own)
          | inl (p, z) ↦
              let (keeps, _) = write_cache-Same shows c quiet key p s in
              (
                finished l.fingerprint p,
                rw (z, keep_response)
                    (completed-finished p (write_cache c key p s) (keeps (held l.fingerprint) h)),
                inl z,
                own,
              )
        ]

        succeed-EndsBy :
            (call : Call) (key : Option String) (cache_status : String) (a : ChatResponse)
            (s : State W)
            → shows s.world (held l.fingerprint)
            → EndsBy free before (succeed c call l key cache_status a s)
        unfolding succeed
        succeed-EndsBy call key cache_status a s h =
            let (slot, shown, stored, same) = keep_response-Slot key a s h in
            let (keeps, _) =
              log_request-Same shows c quiet call _ _ _ _ _ (keep_response c l key a s) in
            (refl, slot, keeps slot shown, stored, same)

        call_provider-EndsBy :
            (call : Call) (key : Option String) (cache_status : String) (s : State W)
            → shows s.world (held l.fingerprint)
            → EndsBy free before (call_provider c call l key cache_status s)
        unfolding call_provider
        call_provider-EndsBy call key cache_status s h =
            elim (Result-cases (check_mode false (some call.request))) [
              | inr (e, z) ↦ rw (z, call_provider) (fail-EndsBy call cache_status e s h)
              | inl (r, z) ↦
                  let h' = quiet.provider r s.world (held l.fingerprint) h in
                  elim (Result-cases (c.provider r s.world).0) [
                    | inl (a, z') ↦
                        rw (z, z', call_provider) (succeed-EndsBy call key cache_status a _ h')
                    | inr (e, z') ↦ rw (z, z', call_provider) (fail-EndsBy call cache_status e _ h')
                  ]
            ]

        hit-EndsBy :
            (call : Call) (p : String) (a : ChatResponse) (s : State W)
            → c.decode_response p ≡ ok a
            → shows s.world (held l.fingerprint)
            → EndsBy free before (hit c call l p a s)
        unfolding hit
        hit-EndsBy call p a s e h =
            let s' : State W = record s { log = saw_cache_hit ∷ s.log } in
            let (keeps, _) =
              log_request-Same shows c quiet call _ _ _ _ _ (complete_lease c l p s') in
            (
              refl,
              finished l.fingerprint p,
              keeps (finished l.fingerprint p) (completed-finished p s' h),
              inr e,
              own,
            )

        look_up-EndsBy :
            (call : Call) (key : String) (cache : CacheStore W) (s : State W)
            → c.cache ≡ some cache
            → shows s.world (held l.fingerprint)
            → EndsBy free before (look_up c call l key cache s)
        unfolding look_up
        look_up-EndsBy call key cache s has_cache h =
            let h' = quiet.cache_get cache has_cache key s.world (held l.fingerprint) h in
            elim (Result-cases (cache.get key s.world).0) [
              | inr (e, z) ↦ rw (z, look_up) (call_provider-EndsBy call (some key) "MISS" _ h')
              | inl (none, z) ↦ rw (z, look_up) (call_provider-EndsBy call (some key) "MISS" _ h')
              | inl (some p, z) ↦ elim (Result-cases (c.decode_response p)) [
                | inl (a, z') ↦ rw (z, z', look_up) (hit-EndsBy call p a _ z' h')
                | inr (e, z') ↦
                    rw (z, z', look_up) (call_provider-EndsBy call (some key) "MISS" _ h')
              ]
            ]

        pub try_cache-EndsBy :
            (call : Call) (s : State W)
            → shows s.world (held l.fingerprint)
            → EndsBy free before (try_cache c call l s)
        unfolding try_cache
        try_cache-EndsBy call s h = elim (Result-cases (cache_key c call.identity call.request)) [
          | inr (e, z) ↦ rw (z, try_cache) (released-free s h)
          | inl (none, z) ↦ rw (z, try_cache) (call_provider-EndsBy call none "BYPASS" s h)
          | inl (some key, z) ↦ elim (Option-cases c.cache) [
            | inl z' ↦ rw (z, z', try_cache) (call_provider-EndsBy call (some key) "BYPASS" s h)
            | inr (cache, z') ↦ rw (z, z', try_cache) (look_up-EndsBy call key cache s z' h)
          ]
        ]
