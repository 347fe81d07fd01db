-- ===== src/Gateway/Once/Repeated.antt =====
-- A request that comes again with its idempotency key (GatewayService.Chat of
-- internal/service/gateway.go over the store of internal/idempotency/redis.go).
use model_gate.Prelude.{
  ◌≡◌, refl, ap, ◌∙◌, subst, inl, inr, ◌<◌, true, false, List, [], ◌∷◌, Option, some, none, String,
  str_eq, trim_space, All,
}
use model_gate.Errors.{Decision, Result, ok, err, Result-cases}
use model_gate.Requests.{ChatRequest, ChatResponse, check_mode}
use model_gate.Idempotency.{
  LeaseStore, Redis, IsRedis, RedisStore, milliseconds, redis_key, lease_store,
}
use model_gate.Idempotency.Slots.{Slot, free, held, finished, Shows, Delivers}
use model_gate.Gateway.{
  Collaborators, State, RequestMetadata, ChatResult, Answered, chat, scoped_key, enforce_rate_limit,
}
use model_gate.Gateway.Once.{calls, IsSlotOf, LeavesSlot}
use model_gate.Gateway.Once.Granted.{is_taken, Stores, stored-taken, EndsBy, fingerprint_of}
use model_gate.Gateway.Once.Replayed.{IsReplay, chat-IsReplay}
use model_gate.Gateway.Once.Served.{chat-EndsBy}
use model_gate.Gateway.Once.Runs.{Sent, Carries, print_of, print_of_lem, redis-IsSlotOf}

-- A response without the name of its provider, which JSON leaves out.
abbrev pub unnamed : ChatResponse → ChatResponse
unnamed a = record a { provider = "" }

unnamed_lem : (a : ChatResponse) → a.provider ≡ "" → a ≡ unnamed a
unnamed_lem a e = λ i. record a { provider = e i }

-- What `json:"-"` says of the provider of a response: none is ever decoded.
abbrev pub IsNameless : {W : Type 0} → Collaborators W → Type 0
IsNameless c = (p : String) (a : ChatResponse) → c.decode_response p ≡ ok a → a.provider ≡ ""

module _ {W : Type 0} (c : Collaborators W) where
  -- The state after requests, one after the other.
  abbrev pub served : List Sent → State W → State W
  served [] s = s
  served ((req, m) ∷ sent) s = served sent (chat c req m s).1

  readable-finished :
      (a : ChatResponse) (slot : Slot) (p : String)
      → c.encode_response a ≡ ok p
      → c.decode_response p ≡ ok (unnamed a)
      → IsNameless c
      → Stores c a slot
      → (f : String) × (q : String) × (slot ≡ finished f q) × (c.decode_response q ≡ ok (unnamed a))
  readable-finished a free p z z' nameless h = absurd h
  readable-finished a (held f) p z z' nameless (e, h) = cc
  readable-finished a (finished f q) p z z' nameless (inl h) =
      let same : p ≡ q = cc in
      (f, q, refl, subst (λ t. c.decode_response t ≡ ok (unnamed a)) same z')
  readable-finished a (finished f q) p z z' nameless (inr h) =
      (f, q, refl, h ∙ ap ok (unnamed_lem a (nameless q a h)))

  answered-IsValid :
      (req : Option ChatRequest) (m : RequestMetadata) (s : State W) (a : ChatResult)
      → (chat c req m s).0 ≡ ok a
      → (r : ChatRequest) × (check_mode false req ≡ ok r)
  unfolding chat
  answered-IsValid req m s a z = elim (Result-cases (check_mode false req)) [
    | inl (r, y) ↦ (r, y)
    | inr (e, y) ↦ let failed : (chat c req m s).0 ≡ err e = rw (y, chat) refl in cc
  ]

  module _ (shows : W → Slot → Type 0) where
    taken-Shows :
        (print : Result String) (slot : Slot) (before : List ChatRequest) (res : Answered W)
        → is_taken slot ≡ true
        → EndsBy c shows print slot before res
        → shows res.1.world slot
    taken-Shows print free before res t o = cc
    taken-Shows print (held f) before (err e, s) t (h, _) = h
    taken-Shows print (held f) before (ok b, s) t o = absurd o
    taken-Shows print (finished f p) before (err e, s) t (h, _) = h
    taken-Shows print (finished f p) before (ok b, s) t (h, _, _, _) = h

    answered-Stores :
        (print : Result String) (before : List ChatRequest) (res : Answered W) (a : ChatResult)
        → res.0 ≡ ok a
        → EndsBy c shows print free before res
        → (slot : Slot) × shows res.1.world slot
          × Stores c a.response slot
          × (print ≡ ok (fingerprint_of slot))
    answered-Stores print before (err e, t) a z o = cc
    answered-Stores print before (ok b, t) a z (anew, slot, shown, stored, own) =
        let same : b ≡ a = cc in
        (slot, shown, subst (λ x. Stores c x.response slot) same stored, own)

    module _ (quiet : LeavesSlot shows c) (store : LeaseStore W) (has : c.leases ≡ some store)
        (identity key : String) (given : str_eq key "" ≡ false)
        (contract : IsSlotOf shows store (scoped_key c identity key)) where
      served-Shows :
          (sent : List Sent) (slot : Slot) (s : State W)
          → is_taken slot ≡ true
          → shows s.world slot
          → All (Carries identity key) sent
          → shows (served sent s).world slot
      served-Shows [] slot s t h all = h
      served-Shows ((req, m) ∷ sent) slot s t h ((who, which), all) =
          served-Shows sent slot (chat c req m s).1 t
            (taken-Shows (print_of c req) slot (calls s.log) (chat c req m s) t (
              chat-EndsBy c shows (print_of c req) quiet store has identity key given contract slot
                (calls s.log) req m s who which (print_of_lem c req) h refl))
            all

      repeated-Answers :
          (admits : (s : State W) → (d : Decision) × ((enforce_rate_limit c identity s).0 ≡ ok d))
          (sent : List Sent) (req : Option ChatRequest) (m m' : RequestMetadata) (s : State W)
          (a : ChatResult) (p : String)
          → shows s.world free
          → Carries identity key (req, m)
          → All (Carries identity key) sent
          → Carries identity key (req, m')
          → str_eq (trim_space m'.request_id) "" ≡ false
          → (chat c req m s).0 ≡ ok a
          → c.encode_response a.response ≡ ok p
          → c.decode_response p ≡ ok (unnamed a.response)
          → IsNameless c
          → IsReplay (unnamed a.response) (chat c req m' (served sent (chat c req m s).1))
      repeated-Answers admits sent req m m' s a p h (who, which) all (who', which') named z e e'
            nameless =
          let (slot, shown, stored, own) =
            answered-Stores (print_of c req) (calls s.log) (chat c req m s) a z (
              chat-EndsBy c shows (print_of c req) quiet store has identity key given contract free
                (calls s.log) req m s who which (print_of_lem c req) h refl) in
          let (f, q, is, decodes) = readable-finished a.response slot p e e' nameless stored in
          let (r, valid) = answered-IsValid req m s a z in
          let kept =
            served-Shows sent slot (chat c req m s).1 (stored-taken c a.response slot stored) shown
              all in
          chat-IsReplay c shows quiet store has f q (unnamed a.response) decodes identity key given
            contract admits req r m' (served sent (chat c req m s).1) valid who' which' named
            (print_of_lem c req r valid
              ∙ subst (λ x. print_of c req ≡ ok (fingerprint_of x)) is own)
            (subst (λ x. shows (served sent (chat c req m s).1).world x) is kept)

module _ {W : Type 0} (r : Redis W) (laws : IsRedis r) (st : RedisStore) where
  -- Over the store in a Redis that delivers, whose times to live are at least a millisecond and have
  -- not passed, where nothing else that the gateway calls changes what the store has at the key, and
  -- the limiter lets every request of the client in: let a request with a key that is unknown be
  -- answered, with a response whose encoding reads back as that response without its provider, which
  -- no decoded response has. When the same request comes again, after any other requests with the key,
  -- whatever their bodies, and with an identifier of its own, it is answered, by a replay of exactly
  -- that response, without its provider.
  pub chat-IsReplayed :
      (c : Collaborators W) (identity key : String)
      → c.leases ≡ some (lease_store r st)
      → 0 < milliseconds st.lock_ttl
      → 0 < milliseconds st.result_ttl
      → ((w : W) → Delivers r w)
      → LeavesSlot (Shows r (redis_key r (scoped_key c identity key))) c
      → str_eq key "" ≡ false
      → ((s : State W) → (d : Decision) × ((enforce_rate_limit c identity s).0 ≡ ok d))
      → (sent : List Sent) (req : Option ChatRequest) (m m' : RequestMetadata) (s : State W)
        (a : ChatResult) (p : String)
      → r.get_field (redis_key r (scoped_key c identity key)) "fingerprint" s.world ≡ none
      → Carries identity key (req, m)
      → All (Carries identity key) sent
      → Carries identity key (req, m')
      → str_eq (trim_space m'.request_id) "" ≡ false
      → (chat c req m s).0 ≡ ok a
      → c.encode_response a.response ≡ ok p
      → c.decode_response p ≡ ok (unnamed a.response)
      → IsNameless c
      → IsReplay (unnamed a.response) (chat c req m' (served c sent (chat c req m s).1))
  chat-IsReplayed c identity key has t t' delivers quiet given =
      let name = scoped_key c identity key in
      repeated-Answers c (Shows r (redis_key r name)) quiet (lease_store r st) has identity key
        given (redis-IsSlotOf r laws st name t t' delivers)
