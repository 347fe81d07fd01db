-- ===== src/Gateway/Once/Runs.antt =====
-- Requests that carry the same idempotency key, one after the other (GatewayService.Chat of
-- internal/service/gateway.go over the store of internal/idempotency/redis.go).
use model_gate.Prelude.{
  ◌≡◌, refl, ◌<◌, true, false, List, [], ◌∷◌, Option, none, some, String, str_eq, All,
}
use model_gate.Errors.{Result, ok, err}
use model_gate.Requests.{ChatRequest, ChatResponse, check_mode}
use model_gate.Idempotency.{
  LeaseStore, Redis, IsRedis, RedisStore, milliseconds, redis_key, lease_store,
}
use model_gate.Idempotency.Slots.{Slot, free, held, finished, Shows, Delivers, store_refines}
use model_gate.Gateway.{
  Collaborators, State, RequestMetadata, ChatResult, Answered, chat, scoped_key,
  request_fingerprint,
}
use model_gate.Gateway.Keys.{normalize_key}
use model_gate.Gateway.Once.{calls, IsSlotOf, LeavesSlot}
use model_gate.Gateway.Once.Granted.{is_taken, Gives, Repeats, EndsBy, stored-taken, stored-Gives}
use model_gate.Gateway.Once.Served.{chat-EndsBy}

abbrev pub Sent : Type 0
Sent = Option ChatRequest × RequestMetadata

-- A request of the client `identity` with the idempotency key `key`, whatever its body.
abbrev pub Carries : String → String → Sent → Type 0
Carries identity key (req, m) =
    (m.client_identity ≡ identity) × (normalize_key m.idempotency_key ≡ ok key)

module _ {W : Type 0} (c : Collaborators W) where
  -- The fingerprint of a request that is valid.
  abbrev pub print_of : Option ChatRequest → Result String
  print_of req = elim (check_mode false req) [ ok r ↦ request_fingerprint c r | err e ↦ err e ]

  pub print_of_lem :
      (req : Option ChatRequest) (r : ChatRequest)
      → check_mode false req ≡ ok r
      → request_fingerprint c r ≡ print_of req
  print_of_lem req r z = rw (z, print_of) refl

  -- What may be answered once `a` has been: an error, or a replay of `a`.
  abbrev pub Again : ChatResponse → Result ChatResult → Type 0
  Again a (err e) = Unit {0}
  Again a (ok b) = (b.idempotency_replayed ≡ true) × Repeats c a b.response

  -- Later requests: they do not call the provider, and what is answered is a replay.
  abbrev pub AreReplays : ChatResponse → List Sent → State W → Type 0
  AreReplays a [] s = Unit {0}
  AreReplays a ((req, m) ∷ sent) s =
      (calls (chat c req m s).1.log ≡ calls s.log)
      × Again a (chat c req m s).0
      × AreReplays a sent (chat c req m s).1

  -- Requests, of which the first that succeeds is answered anew, and the others are replays.
  abbrev pub AreOnce : List Sent → State W → Type 0
  AreOnce [] s = Unit {0}
  AreOnce ((req, m) ∷ sent) s = elim (chat c req m s).0 [
    | err e ↦ AreOnce sent (chat c req m s).1
    | ok a ↦ (a.idempotency_replayed ≡ false) × AreReplays a.response sent (chat c req m s).1
  ]

  module _ (shows : W → Slot → Type 0) (quiet : LeavesSlot shows c) (store : LeaseStore W)
      (has : c.leases ≡ some store) (identity key : String) (given : str_eq key "" ≡ false)
      (contract : IsSlotOf shows store (scoped_key c identity key)) where
    taken-Again :
        (a : ChatResponse) (print : Result String) (slot : Slot) (before : List ChatRequest)
        (res : Answered W)
        → is_taken slot ≡ true
        → ((b : ChatResponse) → Gives c slot b → Repeats c a b)
        → EndsBy c shows print slot before res
        → (calls res.1.log ≡ before) × Again a res.0 × shows res.1.world slot
    taken-Again a print free before res t gives o = cc
    taken-Again a print (held f) before (err e, s) t gives (h, k) = (k, tt, h)
    taken-Again a print (held f) before (ok b, s) t gives o = absurd o
    taken-Again a print (finished f p) before (err e, s) t gives (h, k) = (k, tt, h)
    taken-Again a print (finished f p) before (ok b, s) t gives (h, k, replayed, d) =
        (k, (replayed, gives b.response d), h)

    chat-AreReplays :
        (sent : List Sent) (a : ChatResponse) (slot : Slot) (s : State W)
        → is_taken slot ≡ true
        → ((b : ChatResponse) → Gives c slot b → Repeats c a b)
        → shows s.world slot
        → All (Carries identity key) sent
        → AreReplays a sent s
    chat-AreReplays [] a slot s t gives h all = tt
    chat-AreReplays ((req, m) ∷ sent) a slot s t gives h ((who, which), all) =
        let o =
          chat-EndsBy c shows (print_of req) quiet store has identity key given contract slot
            (calls s.log) req m s who which (print_of_lem req) h refl in
        let (same, again, h') =
          taken-Again a (print_of req) slot (calls s.log) (chat c req m s) t gives o in
        (same, again, chat-AreReplays sent a slot (chat c req m s).1 t gives h' all)

    chat-AreOnce :
        (sent : List Sent) (s : State W)
        → shows s.world free
        → All (Carries identity key) sent
        → AreOnce sent s
    chat-AreOnce [] s h all = tt
    chat-AreOnce ((req, m) ∷ sent) s h ((who, which), all) =
        by_answer (λ t h'. chat-AreOnce sent t h' all) (chat c req m s).0 (chat c req m s).1
          (chat-EndsBy c shows (print_of req) quiet store has identity key given contract free
            (calls s.log) req m s who which (print_of_lem req) h refl)
      where
        by_answer :
            ((t : State W) → shows t.world free → AreOnce sent t)
            → (r : Result ChatResult) (t : State W)
            → EndsBy c shows (print_of req) free (calls s.log) (r, t)
            → (elim r as (λ x. Type 0) [
              | err e ↦ AreOnce sent t
              | ok a ↦ (a.idempotency_replayed ≡ false) × AreReplays a.response sent t
            ])
        by_answer later (err e) t o = later t o
        by_answer later (ok a) t (anew, slot, shown, stored, same) = (
          anew,
          chat-AreReplays sent a.response slot t (stored-taken c a.response slot stored)
              (stored-Gives c a.response slot stored) shown all,
        )

module _ {W : Type 0} (r : Redis W) (laws : IsRedis r) (st : RedisStore) where
  -- The store of internal/idempotency/redis.go keeps what is asked of a lease store.
  pub redis-IsSlotOf :
      (key : String)
      → 0 < milliseconds st.lock_ttl
      → 0 < milliseconds st.result_ttl
      → ((w : W) → Delivers r w)
      → IsSlotOf (Shows r (redis_key r key)) (lease_store r st) key
  redis-IsSlotOf key t t' delivers = record {
    begins = λ f w s h. (store_refines r laws st key f "" w s t t' (delivers w) h).0;
    completes = λ f p w s h. (store_refines r laws st key f p w s t t' (delivers w) h).1.1;
    releases = λ f w s h. (store_refines r laws st key f "" w s t t' (delivers w) h).2.1;
  }

  -- Requests that carry one idempotency key, one after the other, over the store in a Redis that
  -- delivers, whose times to live are at least a millisecond and have not passed, with a key that is
  -- unknown at first, and where nothing else that the gateway calls changes what the store has at
  -- the key. The first that succeeds is answered anew. After it the provider is called no more,
  -- whatever the bodies of the later requests, and each of them is an error or a replay: its
  -- response is decoded from a text that encodes the first one's, or that decodes to it.
  pub chats-AreOnce :
      (c : Collaborators W) (identity key : String)
      → c.leases ≡ some (lease_store r st)
      → 0 < milliseconds st.lock_ttl
      → 0 < milliseconds st.result_ttl
      → ((w : W) → Delivers r w)
      → LeavesSlot (Shows r (redis_key r (scoped_key c identity key))) c
      → str_eq key "" ≡ false
      → (sent : List Sent) (w : W)
      → r.get_field (redis_key r (scoped_key c identity key)) "fingerprint" w ≡ none
      → All (Carries identity key) sent
      → AreOnce c sent (record { world = w; log = [] })
  chats-AreOnce c identity key has t t' delivers quiet given sent w unknown all =
      let name = scoped_key c identity key in
      chat-AreOnce c (Shows r (redis_key r name)) quiet (lease_store r st) has identity key given
        (redis-IsSlotOf name t t' delivers) sent (record { world = w; log = [] }) unknown all
