-- ===== src/Gateway/Once.antt =====
-- What the requests with one idempotency key do to it (GatewayService.Chat of
-- internal/service/gateway.go). The store and the rest of the world are seen through an abstract slot.
pub mod Granted
pub mod Replayed
pub mod Served
pub mod Runs
pub mod Repeated
use model_gate.Prelude.{
  ◌≡◌, refl, ap, ◌∙◌, arith, ◌⊎◌, inl, inr, Bool, true, false, List, [], ◌∷◌, Option, none, some,
  String, Option-cases, Bool-cases, str_eq, trim_space, eq_refl,
}
use model_gate.Errors.{Error, Decision, Result, ok, err, Result-cases}
use model_gate.Requests.{ChatRequest, ChatResponse, ChatUsage, check_mode}
use model_gate.Idempotency.{LeaseStore}
use model_gate.Idempotency.Slots.{
  Slot, free, held, finished, slot_begin, slot_complete, slot_release,
}
use model_gate.Gateway.{
  Collaborators, State, Event, called, cached, report, Call, Lease, CacheStore, RequestRecord,
  Answered, record_request, log_request, enforce_rate_limit, complete_lease, release_lease,
  write_cache, keep_response, succeed, fail, call_provider, hit, look_up, try_cache, name_request,
  cache_key,
}

-- The calls of the provider, last first.
abbrev pub calls : List Event → List ChatRequest
calls [] = []
calls (called r ∷ es) = r ∷ calls es
calls (_ ∷ es) = calls es

module _ {W : Type 0} (shows : W → Slot → Type 0) where
  -- What a lease store promises of one key.
  pub record IsSlotOf (store : LeaseStore W) (key : String) : Type 0 where
    pub begins :
        (f : String) (w : W) (s : Slot)
        → shows w s
        → ((store.begin key f w).0 ≡ ok (slot_begin f s).0)
          × shows (store.begin key f w).1 (slot_begin f s).1
    pub completes :
        (f p : String) (w : W) (s : Slot)
        → shows w s
        → shows (store.complete key f p w).1 (slot_complete f p s).1
    pub releases :
        (f : String) (w : W) (s : Slot)
        → shows w s
        → shows (store.release key f w).1 (slot_release f s)

  abbrev Leaves : {A : Type 0} → (W → A × W) → Type 0
  Leaves step = (w : W) (s : Slot) → shows w s → shows (step w).1 s

  -- Nothing else that the gateway calls changes what the key shows.
  pub record LeavesSlot (c : Collaborators W) : Type 0 where
    pub clock : Leaves c.clock
    pub request_ids : Leaves c.new_request_id
    pub provider : (r : ChatRequest) → Leaves (c.provider r)
    pub limiter :
        (allow : String → W → Result Decision × W)
        → c.limiter ≡ some allow
        → (identity : String) → Leaves (allow identity)
    pub recorder :
        (store : RequestRecord → W → Option Error × W)
        → c.recorder ≡ some store
        → (r : RequestRecord) → Leaves (store r)
    pub cache_get :
        (store : CacheStore W) → c.cache ≡ some store → (key : String) → Leaves (store.get key)
    pub cache_set :
        (store : CacheStore W)
        → c.cache ≡ some store
        → (key payload : String) → Leaves (store.set key payload)

module _ {W : Type 0} (shows : W → Slot → Type 0) (c : Collaborators W)
    (quiet : LeavesSlot shows c) where
  -- The slot and the calls of the provider are as they were.
  abbrev pub Same : State W → State W → Type 0
  Same s t = ((slot : Slot) → shows s.world slot → shows t.world slot) × (calls t.log ≡ calls s.log)

  record_request-Same : (r : RequestRecord) (s : State W) → Same s (record_request c r s)
  unfolding record_request
  record_request-Same r s = elim (Option-cases c.recorder) [
    | inl e ↦ rw (e, record_request) (λ slot h. h, refl)
    | inr (store, e) ↦ elim (Option-cases (store r s.world).0) [
      | inl z ↦ rw (e, record_request, z) (λ slot h. quiet.recorder store e r s.world slot h, refl)
      | inr (f, z) ↦
          rw (e, record_request, z) (λ slot h. quiet.recorder store e r s.world slot h, refl)
    ]
  ]

  pub log_request-Same :
      (call : Call) (p status : String) (u : ChatUsage) (k code : String) (s : State W)
      → Same s (log_request c call p status u k code s)
  unfolding log_request
  log_request-Same call p status u k code s =
      let s' : State W = record s { world = (c.clock s.world).1 } in
      let (keeps, same) = record_request-Same _ s' in
      (λ slot h. keeps slot (quiet.clock s.world slot h), same)

  pub enforce_rate_limit-Same :
      (identity : String) (s : State W) → Same s (enforce_rate_limit c identity s).1
  unfolding enforce_rate_limit
  enforce_rate_limit-Same identity s = elim (Option-cases c.limiter) [
    | inl e ↦ rw (e, enforce_rate_limit) (λ slot h. h, refl)
    | inr (allow, e) ↦
        let keeps : (slot : Slot) → shows s.world slot → shows (allow identity s.world).1 slot =
          λ slot h. quiet.limiter allow e identity s.world slot h in
        elim (Result-cases (allow identity s.world).0) [
          | inl (d, z) ↦ elim (Bool-cases d.allowed) [
            | inl y ↦ rw (e, enforce_rate_limit, z, y) (keeps, refl)
            | inr y ↦ rw (e, enforce_rate_limit, z, y) (keeps, refl)
          ]
          | inr (f, z) ↦ elim (Bool-cases c.rate_limit_fail_open) [
            | inl y ↦ rw (e, enforce_rate_limit, z, y) (keeps, refl)
            | inr y ↦ rw (e, enforce_rate_limit, z, y) (keeps, refl)
          ]
        ]
  ]

  pub name_request-Same : (given : String) (s : State W) → Same s (name_request c given s).1
  unfolding name_request
  name_request-Same given s = elim (Bool-cases (str_eq (trim_space given) "")) [
    | inr y ↦ rw (y, name_request) (λ slot h. h, refl)
    | inl y ↦ elim (Result-cases (c.new_request_id s.world).0) [
      | inl (id, z) ↦ rw (y, name_request, z) (λ slot h. quiet.request_ids s.world slot h, refl)
      | inr (e, z) ↦ rw (y, name_request, z) (λ slot h. quiet.request_ids s.world slot h, refl)
    ]
  ]

  report-Same : (o : Option Error) (s : State W) → Same s (report c o s)
  report-Same none s = (λ slot h. h, refl)
  report-Same (some e) s = (λ slot h. h, refl)

  write_cache-Same :
      (key : Option String) (p : String) (s : State W) → Same s (write_cache c key p s)
  unfolding write_cache
  write_cache-Same none p s = (λ slot h. h, refl)
  write_cache-Same (some key) p s = elim (Option-cases c.cache) [
    | inl e ↦ rw (e, write_cache) (λ slot h. h, refl)
    | inr (store, e) ↦
        let (keeps, same) =
          report-Same (store.set key p s.world).0
            (record { world = (store.set key p s.world).1; log = cached key p ∷ s.log }) in
        rw (e, write_cache)
          (λ slot h. keeps slot (quiet.cache_set store e key p s.world slot h), same)
  ]

  -- An acquired lease at the key, and the store that granted it.
  module _ (store : LeaseStore W) (has : c.leases ≡ some store) (l : Lease)
      (acquired : l.acquired ≡ true) (contract : IsSlotOf shows store l.key) where
    release_lease-Slot :
        (s : State W) (slot : Slot)
        → shows s.world slot
        → shows (release_lease c l s).world (slot_release l.fingerprint slot)
    unfolding release_lease
    release_lease-Slot s slot h =
        let (keeps, same) = report-Same (store.release l.key l.fingerprint s.world).0 _ in
        rw (acquired, has, release_lease) (keeps _ (contract.releases l.fingerprint s.world slot h))

    complete_lease-Slot :
        (p : String) (s : State W) (slot : Slot)
        → shows s.world slot
        → shows (complete_lease c l p s).world (slot_complete l.fingerprint p slot).1
    unfolding complete_lease
    complete_lease-Slot p s slot h =
        let (keeps, same) = report-Same (store.complete l.key l.fingerprint p s.world).0 _ in
        rw (acquired, has, complete_lease)
          (keeps _ (contract.completes l.fingerprint p s.world slot h))
