-- ===== src/Gateway/Stream/Metered.antt =====
-- A metered stream is accounted for once (meteredStream of internal/service/gateway.go).
use model_gate.Prelude.{
  ℕ, ◌-◌, ◌≡◌, refl, ap, ◌∙◌, arith, Bool, true, false, List, [], ◌∷◌, Option, none, some, String,
  is_some, if◌then◌else◌, Bool-cases, Option-cases, inl, inr,
}
use model_gate.Errors.{Error, eof, errors_is}
use model_gate.Requests.{ChatUsage, ChatStreamChunk}
use model_gate.Responses.{gateway_error_code}
use model_gate.Gateway.{Collaborators, State, RequestRecord, Call, log_request}
use model_gate.Gateway.Accounts.{records, record_request-records}
use model_gate.Gateway.Stream.{
  Streams, MeteredStream, Metering, finish, finish_once, take_usage, settle_received, recv,
  close_code, close,
}

-- What a caller does with a stream, and what it is answered.
pub data Use : Type 0 where
  receives closes : Use

pub data Reply (C : Type 0) : Type 0 where
  received : Option (ChatStreamChunk C) → Option Error → Reply C
  closed : Option Error → Reply C

-- The status and the error code with which an answer ends the stream, where it does.
abbrev pub verdict : {C : Type 0} → Reply C → Option (String × String)
verdict (received chunk none) = none
verdict (received chunk (some e)) =
    if errors_is e eof then some ("succeeded", "") else some ("failed", gateway_error_code e)
verdict (closed none) = some ("failed", "stream_closed")
verdict (closed (some e)) = some ("failed", "stream_close_failed")

abbrev pub usage_after : {C : Type 0} → ChatUsage → Reply C → ChatUsage
usage_after u (received (some chunk) e) = elim chunk.usage [ none ↦ u | some v ↦ v ]
usage_after u _ = u

-- What should be recorded, by the answers: the first that ends the stream decides, with the last
-- usage up to it.
pub verdict_of : {C : Type 0} → ChatUsage → List (Reply C) → Option (String × String × ChatUsage)
verdict_of u [] = none
verdict_of u (a ∷ later) =
    let rest = verdict_of (usage_after u a) later in
    elim (verdict a) [ none ↦ rest | some (status, code) ↦ some (status, code, usage_after u a) ]

-- The record of a verdict, made once and with the context canceled once; or neither.
abbrev pub Billed :
    Option (String × String × ChatUsage) → Call → String → ℕ → List RequestRecord → Type 0
Billed none call provider canceled log = (canceled ≡ 0) × (log ≡ [])
Billed (some (status, code, usage)) call provider canceled log =
    (canceled ≡ 1)
    × ((r : RequestRecord) × (log ≡ r ∷ [])
        × (r.status ≡ status)
        × (r.error_code ≡ code)
        × (r.usage ≡ usage)
        × (r.provider ≡ provider)
        × (r.request_id ≡ call.request_id))

module _ {W S C : Type 0} (c : Collaborators W) (streams : Streams W S C) where
  abbrev pub used : Use → Metering c streams → Reply C × Metering c streams
  used receives ms = let ((chunk, e), ms') = recv c streams ms in (received chunk e, ms')
  used closes ms = let (e, ms') = close c streams ms in (closed e, ms')

  -- The answers that a caller gets, in order, and the stream afterwards.
  pub use_metered : List Use → Metering c streams → List (Reply C) × Metering c streams
  use_metered [] ms = ([], ms)
  use_metered (u ∷ us) ms =
      let (a, ms') = used u ms in let (later, ms″) = use_metered us ms' in (a ∷ later, ms″)

-- A stream that has not ended, and was not recorded.
pub record IsOpen {W S : Type 0} (call : Call) (provider : String) (u : ChatUsage)
    (m : MeteredStream S) (s : State W) : Type 0 where
  pub unfinished : m.finished ≡ false
  pub uncanceled : m.canceled ≡ 0
  pub of_call : m.call ≡ call
  pub of_provider : m.provider ≡ provider
  pub counted : m.usage ≡ u
  pub unrecorded : records s.log ≡ []

module _ {W S C : Type 0} (c : Collaborators W) (has_recorder : is_some c.recorder ≡ true)
    (streams : Streams W S C) where
  abbrev Ended : String → String → Call → String → ChatUsage → Metering c streams → Type 0
  Ended status code call provider u (m, s) =
      (m.finished ≡ true) × Billed (some (status, code, u)) call provider m.canceled (records s.log)

  finish-records :
      (status code : String) (m : MeteredStream S) (s : State W)
      → records s.log ≡ []
      → (r : RequestRecord) × (records (finish c streams status code m s).log ≡ r ∷ [])
        × (r.status ≡ status)
        × (r.error_code ≡ code)
        × (r.usage ≡ m.usage)
        × (r.provider ≡ m.provider)
        × (r.request_id ≡ m.call.request_id)
  unfolding finish log_request
  finish-records status code m s h =
      let (now, w) = c.clock s.world in
      let r : RequestRecord = record {
        request_id = m.call.request_id;
        provider = m.provider;
        model = m.call.request.model;
        status = status;
        usage = m.usage;
        latency = now - m.call.started_at;
        cache_status = "BYPASS";
        error_code = code;
      } in
      (
        r,
        record_request-records c has_recorder r (record { world = w; log = s.log }) ∙ ap (◌∷◌ r) h,
        refl,
        refl,
        refl,
        refl,
        refl,
      )

  finish_once-Ended :
      (status code : String) (call : Call) (provider : String) (u : ChatUsage) (m : MeteredStream S)
      (s : State W)
      → IsOpen call provider u m s
      → Ended status code call provider u (finish_once c streams status code (m, s))
  unfolding finish_once
  finish_once-Ended status code call provider u m s i =
      let (r, one, st, co, us, pr, id) = finish-records status code m s i.unrecorded in
      rw (i.unfinished, finish_once)
        (
          refl,
          (
            ground (arith, i.uncanceled),
            (
              r,
              one,
              st,
              co,
              us ∙ i.counted,
              pr ∙ i.of_provider,
              id ∙ ap (λ x. x.request_id) i.of_call,
            ),
          ),
        )

  take_usage-usage_after :
      (chunk : Option (ChatStreamChunk C)) (e : Option Error) (v u : ChatUsage)
      → v ≡ u
      → take_usage chunk v ≡ usage_after u (received chunk e)
  take_usage-usage_after none e v u h = h
  take_usage-usage_after (some chunk) e v u h = elim (Option-cases chunk.usage) [
    | inl t ↦ rw (t) h
    | inr (z, t) ↦ rw (t) refl
  ]

  -- One answer of an open stream: it stays open, or ends with the verdict of the answer.
  abbrev StepBy : Option (String × String) → Call → String → ChatUsage → Metering c streams → Type 0
  StepBy none call provider u (m, s) = IsOpen call provider u m s
  StepBy (some (status, code)) call provider u ms = Ended status code call provider u ms

  Step : Call → String → ChatUsage → Reply C × Metering c streams → Type 0
  Step call provider u (a, ms) = StepBy (verdict a) call provider (usage_after u a) ms

  settle_received-Step :
      (chunk : Option (ChatStreamChunk C)) (e : Option Error) (call : Call) (provider : String)
      (u : ChatUsage) (m : MeteredStream S) (s : State W)
      → IsOpen call provider (usage_after u (received chunk e)) m s
      → Step call provider u (received chunk e, settle_received c streams e (m, s))
  unfolding settle_received Step
  settle_received-Step chunk none call provider u m s i = i
  settle_received-Step chunk (some e) call provider u m s i = elim (Bool-cases (errors_is e eof)) [
    | inl z ↦ rw (z, settle_received, Step) (finish_once-Ended "succeeded" "" call provider _ m s i)
    | inr z ↦
        rw (z, settle_received, Step)
          (finish_once-Ended "failed" (gateway_error_code e) call provider _ m s i)
  ]

  closed-Step :
      (e : Option Error) (call : Call) (provider : String) (u : ChatUsage) (m : MeteredStream S)
      (s : State W)
      → IsOpen call provider u m s
      → Step call provider u (closed e, finish_once c streams "failed" (close_code e) (m, s))
  unfolding Step
  closed-Step none call provider u m s i = finish_once-Ended "failed" _ call provider u m s i
  closed-Step (some e) call provider u m s i = finish_once-Ended "failed" _ call provider u m s i

  used-Step :
      (x : Use) (call : Call) (provider : String) (u : ChatUsage) (m : MeteredStream S)
      (s : State W)
      → IsOpen call provider u m s
      → Step call provider u (used c streams x (m, s))
  unfolding recv close
  used-Step receives call provider u m s i =
      let (chunk, e, w) = streams.recv m.inner s.world in
      settle_received-Step chunk e call provider u (record m { usage = take_usage chunk m.usage })
        (record s { world = w })
        (record {
          unfinished = i.unfinished;
          uncanceled = i.uncanceled;
          of_call = i.of_call;
          of_provider = i.of_provider;
          counted = take_usage-usage_after chunk e m.usage u i.counted;
          unrecorded = i.unrecorded;
        })
  used-Step closes call provider u m s i =
      let (e, w) = streams.close m.inner s.world in
      closed-Step e call provider u m (record s { world = w })
        (record {
          unfinished = i.unfinished;
          uncanceled = i.uncanceled;
          of_call = i.of_call;
          of_provider = i.of_provider;
          counted = i.counted;
          unrecorded = i.unrecorded;
        })

  -- An ended stream stays as it is.
  used-finished :
      (x : Use) (m : MeteredStream S) (s : State W)
      → m.finished ≡ true
      → let (n, t) = (used c streams x (m, s)).1 in
        (n.finished ≡ true) × (n.canceled ≡ m.canceled) × (records t.log ≡ records s.log)
  unfolding recv close settle_received finish_once
  used-finished receives m s h = ground (arith, h)
  used-finished closes m s h = ground (arith, h)

  use_metered-finished :
      (us : List Use) (m : MeteredStream S) (s : State W)
      → m.finished ≡ true
      → let (n, t) = (use_metered c streams us (m, s)).1 in
        (n.finished ≡ true) × (n.canceled ≡ m.canceled) × (records t.log ≡ records s.log)
  unfolding use_metered
  use_metered-finished [] m s h = (h, refl, refl)
  use_metered-finished (x ∷ us) m s h =
      let (n, t) = (used c streams x (m, s)).1 in
      let (h', same, kept) = used-finished x m s h in
      let (done, same', kept') = use_metered-finished us n t h' in
      (done, same' ∙ same, kept' ∙ kept)

  abbrev pub Metered : ChatUsage → Call → String → List (Reply C) × Metering c streams → Type 0
  Metered u call provider (replies, (m, s)) =
      Billed (verdict_of u replies) call provider m.canceled (records s.log)
      × (m.finished ≡ is_some (verdict_of u replies))

  after_step-Metered :
      (us : List Use) (call : Call) (provider : String) (u : ChatUsage) (a : Reply C)
      (v : Option (String × String)) (m : MeteredStream S) (s : State W)
      → verdict a ≡ v
      → StepBy v call provider (usage_after u a) (m, s)
      → (IsOpen call provider (usage_after u a) m s
          → Metered (usage_after u a) call provider (use_metered c streams us (m, s)))
      → let (replies, ms) = use_metered c streams us (m, s) in
        Metered u call provider (a ∷ replies, ms)
  unfolding verdict_of
  after_step-Metered us call provider u a none m s z i later = rw (z, verdict_of) (later i)
  after_step-Metered us call provider u a (some (status, code)) m s z
        (h, (one, (r, e, st, co, us', pr, id))) later =
      let (done, same, kept) = use_metered-finished us m s h in
      rw (z, verdict_of) ((same ∙ one, (r, kept ∙ e, st, co, us', pr, id)), done)

  pub use_metered-Metered :
      (us : List Use) (call : Call) (provider : String) (u : ChatUsage) (m : MeteredStream S)
      (s : State W)
      → IsOpen call provider u m s
      → Metered u call provider (use_metered c streams us (m, s))
  unfolding use_metered Step verdict_of
  use_metered-Metered [] call provider u m s i = ((i.uncanceled, i.unrecorded), i.unfinished)
  use_metered-Metered (x ∷ us) call provider u m s i =
      let (a, (n, t)) = used c streams x (m, s) in
      after_step-Metered us call provider u a (verdict a) n t refl
        (used-Step x call provider u m s i)
        (use_metered-Metered us call provider (usage_after u a) n t)

abbrev pub has_close : List Use → Bool
has_close [] = false
has_close (receives ∷ us) = has_close us
has_close (closes ∷ us) = true

module _ {W S C : Type 0} (c : Collaborators W) (streams : Streams W S C) where
  closed-verdict_of :
      (e : Option Error) (u : ChatUsage) (later : List (Reply C))
      → is_some (verdict_of u (closed e ∷ later)) ≡ true
  unfolding verdict_of
  closed-verdict_of none u later = refl
  closed-verdict_of (some e) u later = refl

  received-verdict_of :
      (chunk : Option (ChatStreamChunk C)) (e : Option Error) (u : ChatUsage)
      (later : List (Reply C))
      → ((v : ChatUsage) → is_some (verdict_of v later) ≡ true)
      → is_some (verdict_of u (received chunk e ∷ later)) ≡ true
  unfolding verdict_of
  received-verdict_of chunk none u later h = h (usage_after u (received chunk none))
  received-verdict_of chunk (some e) u later h = elim (Bool-cases (errors_is e eof)) [
    | inl z ↦ rw (verdict_of, z) refl
    | inr z ↦ rw (verdict_of, z) refl
  ]

  -- A stream that is closed has a verdict.
  pub use_metered-verdict_of :
      (us : List Use) (ms : Metering c streams) (u : ChatUsage)
      → has_close us ≡ true
      → is_some (verdict_of u (use_metered c streams us ms).0) ≡ true
  unfolding use_metered
  use_metered-verdict_of [] ms u h = ground (arith, h)
  use_metered-verdict_of (receives ∷ us) ms u h =
      let ((chunk, e), ms') = recv c streams ms in
      received-verdict_of chunk e u (use_metered c streams us ms').0
        (λ v. use_metered-verdict_of us ms' v h)
  use_metered-verdict_of (closes ∷ us) ms u h =
      let (e, ms') = close c streams ms in closed-verdict_of e u (use_metered c streams us ms').0
