-- ===== src/Governance/Streams.antt =====
-- What a guarded stream takes, it gives back at its end (ChatStream and managedStream in
-- internal/governance/provider.go).
use model_gate.Prelude.{
  ℕ, zero, suc, ◌+◌, ◌-◌, ◌≤◌, ◌<◌, ◌==◌, ◌≡◌, sym, length, ◌++◌, ◌⊎◌, inl, inr, ◌||◌, refl, ap,
  ◌∙◌, arith, Bool, true, false, not, Option, none, some, List, [], ◌∷◌, Option-cases, Bool-cases,
  is_some, one_if,
}
use model_gate.Errors.{Error, sentinel, circuit_open, eof, errors_is, Result, ok, err}
use model_gate.Semaphore
use model_gate.Semaphore.{Choice, takes_slot, sees_done, acquire, release}
use model_gate.Breaker
use model_gate.Breaker.{Outcome, outcome_success, outcome_ignored, outcome_failure, allow, done}
use model_gate.Breaker.Behaviour.{available_foretells}
use model_gate.Retry
use model_gate.Retry.{
  Environment, Options, Returned, opened, observed, cancelled, slept, run_retained,
}
use model_gate.Retry.Attempts.{run_retained_lem, is_ok, opens, cancels, count_up, to_list}
use model_gate.Retry.Frame.{run_retained-keeps}
use model_gate.Governance.{
  Shared, Surroundings, StreamSurroundings, Streaming, Guard, ManagedStream, cancellations,
  cancelled_already, Finish, waits, panics, returns, circuit_outcome, attempts, wrap_stream,
  open_guarded, ask_breaker_for_stream, chat_stream, finish, end_after, recv, close,
}
use model_gate.Governance.Calls.{
  Holds, Spares, IsFair, attempts-Keeps, LeadsTo-answer, give_back-Holds, entered,
}

-- The calls of the wrapped stream leave the slots of the others to them.
pub record IsFairStream {W S C : Type 0} (others : W → ℕ) (around : StreamSurroundings W S C)
    : Type 0 where
  pub recv : (i : S) → Spares others (λ s. (around.recv i s).2)
  pub close : (i : S) → Spares others (λ s. (around.close i s).2)

-- A managed stream has its slot, its permit and its context until it has ended, and then none.
pub record IsManaged {W S : Type 0} (others : W → ℕ) (m : ManagedStream S) (s : Shared W)
    : Type 0 where
  pub slot : m.concurrency.used ≡ m.ended
  pub circuit : m.circuit.used ≡ m.ended
  pub cancelled : m.cancelled ≡ one_if m.ended
  pub held : Holds others (one_if (not m.ended)) s

done-used :
    (p : Breaker.Permit) (now : ℕ) (o : Outcome) (b : Breaker.Breaker)
    → (done p now o b).0.used ≡ true
unfolding done
done-used p now o b = ground arith

module _ {W S C : Type 0} (others : W → ℕ) (around : StreamSurroundings W S C) where
  -- `finish` ends the stream, whatever came before.
  finish-IsManaged :
      (outcome : Outcome) (m : ManagedStream S) (s : Shared W)
      → IsManaged others m s
      → (n : ManagedStream S) × (t : Shared W) × (finish around outcome (m, s) ≡ returns (n, t))
        × (n.ended ≡ true)
        × IsManaged others n t
  unfolding finish release
  finish-IsManaged outcome m s i = elim (Bool-cases m.ended) [
    | inl over ↦ (m, s, ground (arith, over), over, i)
    | inr going ↦
        let (circuit, breaker, _) = done m.circuit (around.clock s) outcome s.breaker in
        let n : ManagedStream S = record m {
          ended = true;
          cancelled = m.cancelled + 1;
          circuit = circuit;
          concurrency = record { used = true };
        } in
        let t : Shared W = record s {
          semaphore = record s.semaphore { in_flight = s.semaphore.in_flight - 1 };
          breaker = breaker;
        } in
        let unused : m.concurrency.used ≡ false = i.slot ∙ going in
        let one : s.semaphore.in_flight ≡ others s.world + 1 = ground (arith, i.held, going) in
        (
          n,
          t,
          ground (arith, unused, going, one),
          refl,
          record {
            slot = refl;
            circuit = done-used m.circuit (around.clock s) outcome s.breaker;
            cancelled = ground (arith, i.cancelled, going);
            held = omega (arith, one);
          },
        )
  ]

  -- The stream's inner part moves, and with it the world.
  moved-IsManaged :
      (inner : S) (m : ManagedStream S) (s t : Shared W)
      → IsManaged others m s
      → Holds others (one_if (not m.ended)) t
      → IsManaged others (record m { inner = inner }) t
  moved-IsManaged inner m s t i h = record {
    slot = i.slot;
    circuit = i.circuit;
    cancelled = i.cancelled;
    held = h;
  }

  end_after-IsManaged :
      (failure : Option Error) (m : ManagedStream S) (s : Shared W)
      → IsManaged others m s
      → (n : ManagedStream S) × (t : Shared W) × (end_after around failure (m, s) ≡ returns (n, t))
        × (n.ended ≡ (is_some failure || m.ended))
        × IsManaged others n t
  unfolding end_after
  end_after-IsManaged none m s i = (m, s, refl, refl, i)
  end_after-IsManaged (some e) m s i = elim (Bool-cases (errors_is e eof)) [
    | inl z ↦ rw (z, end_after) (finish-IsManaged outcome_success m s i)
    | inr z ↦ rw (z, end_after) (finish-IsManaged (circuit_outcome {A = C} (err e)) m s i)
  ]

  module _ (fair : IsFairStream others around) where
    recv-IsManaged :
        (m : ManagedStream S) (s : Shared W)
        → IsManaged others m s
        → (let (got, _, _) = around.recv m.inner s in
            (n : ManagedStream S) × (t : Shared W) × (recv around (m, s) ≡ returns (got, (n, t)))
            × (n.ended ≡ (is_some got.1 || m.ended))
            × IsManaged others n t)
    unfolding recv
    recv-IsManaged m s i =
        let (got, inner, s') = around.recv m.inner s in
        let i' = moved-IsManaged inner m s s' i (fair.recv m.inner _ s i.held) in
        let (n, t, e, ended, i″) = end_after-IsManaged got.1 (record m { inner = inner }) s' i' in
        (n, t, rw (e, recv) refl, ended, i″)

    close-IsManaged :
        (m : ManagedStream S) (s : Shared W)
        → IsManaged others m s
        → (let (got, _, _) = around.close m.inner s in
            (n : ManagedStream S) × (t : Shared W) × (close around (m, s) ≡ returns (got, (n, t)))
            × (n.ended ≡ true)
            × IsManaged others n t)
    unfolding close
    close-IsManaged m s i =
        let (got, inner, s') = around.close m.inner s in
        let outcome : Outcome = elim got [ none ↦ outcome_ignored | some e ↦ outcome_failure ] in
        let i' = moved-IsManaged inner m s s' i (fair.close m.inner _ s i.held) in
        let (n, t, e, ended, i″) = finish-IsManaged outcome (record m { inner = inner }) s' i' in
        (n, t, rw (e, close) refl, ended, i″)

-- What the consumer of a stream does with it.
pub data Use : Type 0 where
  receives closes : Use

module _ {W S C : Type 0} (around : StreamSurroundings W S C) where
  abbrev and_then : {B D : Type 0} → Finish B → (B → Finish D) → Finish D
  and_then waits k = waits
  and_then panics k = panics
  and_then (returns b) k = k b

  abbrev used : Use → Streaming around → Finish (Streaming around)
  used receives st = and_then (recv around st) (λ r. returns r.1)
  used closes st = and_then (close around st) (λ r. returns r.1)

  -- The uses of a stream, one after another.
  pub use_stream : List Use → Streaming around → Finish (Streaming around)
  use_stream [] st = returns st
  use_stream (u ∷ us) st = and_then (used u st) (λ st'. use_stream us st')

abbrev pub has_close : List Use → Bool
has_close [] = false
has_close (receives ∷ us) = has_close us
has_close (closes ∷ us) = true

module _ {W S C : Type 0} (others : W → ℕ) (around : StreamSurroundings W S C) where
  -- Whatever the consumer of a managed stream does with it, and whatever the other requests do in
  -- between, every call returns. The slot, the circuit permit and the context are the stream's until
  -- it ends, and go back together, each once. A Close ends it, at the latest; nothing revives it.
  pub use_stream_lem :
      (fair : IsFairStream others around) (us : List Use) (m : ManagedStream S) (s : Shared W)
      → IsManaged others m s
      → (n : ManagedStream S) × (t : Shared W) × (use_stream around us (m, s) ≡ returns (n, t))
        × IsManaged others n t
        × (n.ended || not (has_close us || m.ended) ≡ true)
  unfolding use_stream
  use_stream_lem fair [] m s i = (m, s, refl, i, ground arith)
  use_stream_lem fair (receives ∷ us) m s i =
      let (n, t, e, ended, i') = recv-IsManaged others around fair m s i in
      let (n', t', e', i″, last) = use_stream_lem fair us n t i' in
      (n', t', rw (e, use_stream) e', i″, ground (arith, last, ended))
  use_stream_lem fair (closes ∷ us) m s i =
      let (n, t, e, ended, i') = close-IsManaged others around fair m s i in
      let (n', t', e', i″, last) = use_stream_lem fair us n t i' in
      (n', t', rw (e, use_stream) e', i″, ground (arith, last, ended))

-- How often a number is in a list.
occurrences : ℕ → List ℕ → ℕ
occurrences n [] = 0
occurrences n (k ∷ ks) = let later = occurrences n ks in one_if (k == n) + later

occurrences-append :
    (n : ℕ) (xs ys : List ℕ) → occurrences n (xs ++ ys) ≡ occurrences n xs + occurrences n ys
unfolding occurrences
occurrences-append n [] ys = omega arith
occurrences-append n (x ∷ xs) ys = let h = occurrences-append n xs ys in omega (arith, h)

occurrences-count_up :
    (n first k : ℕ)
    → (occurrences n (count_up first k) ≤ 1) × (n < first → occurrences n (count_up first k) ≡ 0)
unfolding occurrences count_up
occurrences-count_up n first zero = (omega arith, λ h. refl)
occurrences-count_up n first (suc k) =
    let (low, out) = occurrences-count_up n (first + 1) k in
    elim (Bool-cases (first == n)) [
      | inl e ↦
          let none_later = out (ground (arith, e)) in
          (rw e (omega (arith, none_later)), λ h. absurd (ground (arith, e, h)))
      | inr e ↦ (rw e (omega (arith, low)), λ h. rw e (omega (arith, out (omega (arith, h)))))
    ]

cancellations_lem :
    {A : Type 0} (n : ℕ) (es : List (Retry.Event A))
    → cancellations n es ≡ occurrences n (cancels es)
unfolding cancellations occurrences cancels
cancellations_lem n [] = refl
cancellations_lem n (opened k ∷ es) = cancellations_lem n es
cancellations_lem n (observed k r ∷ es) = cancellations_lem n es
cancellations_lem n (slept d ∷ es) = cancellations_lem n es
cancellations_lem n (cancelled k ∷ es) = ap (λ x. one_if (k == n) + x) (cancellations_lem n es)

occurrences_self : (n : ℕ) → occurrences n (n ∷ []) ≡ 1
unfolding occurrences
occurrences_self n = ground arith

-- The context that a run hands over has not been cancelled by it.
handed_over_uncancelled :
    {A : Type 0} (r : Returned A)
    → opens r.events ≡ count_up 1 (length (opens r.events))
    → opens r.events ≡ cancels r.events ++ to_list r.cancel
    → cancelled_already r ≡ 0
handed_over_uncancelled r counted balanced = elim (Option-cases r.cancel) [
  | inl e ↦ rw e refl
  | inr (n, e) ↦
      let k = length (opens r.events) in
      let same : count_up 1 k ≡ cancels r.events ++ (n ∷ []) =
        sym counted ∙ balanced ∙ ap (λ c. cancels r.events ++ to_list c) e in
      let total : occurrences n (count_up 1 k) ≡ occurrences n (cancels r.events) + 1 =
        ap (occurrences n) same
        ∙ occurrences-append n (cancels r.events) (n ∷ [])
        ∙ ap (λ x. occurrences n (cancels r.events) + x) (occurrences_self n) in
      let at_most = (occurrences-count_up n 1 k).0 in
      rw e (cancellations_lem n r.events ∙ omega (arith, total, at_most))
]

-- The opening of a stream.
module _ {W S : Type 0} (others : W → ℕ) (g : Guard) (around : Surroundings W S) where
  abbrev pub Opened : Result (ManagedStream S) → Shared W → Type 0
  Opened (err e) t = Holds others 0 t
  Opened (ok m) t =
      IsManaged others m t
      × (m.ended ≡ false)
      × (m.provider_name ≡ g.name)
      × (is_some m.cancel ≡ true)

  module _ (fair : IsFair others around) (o : Options) (accepted : Retry.new o ≡ ok g.policy) where
    wrap_stream-Opened :
        (slot : Semaphore.Permit) (permit : Breaker.Permit) (cancel : Option ℕ) (before : ℕ)
        (r : Result (Option S)) (s : Shared W)
        → slot.used ≡ false
        → permit.used ≡ false
        → is_some cancel ≡ is_ok r
        → before ≡ 0
        → Holds others 1 s
        → ((e : Error) × (r ≡ err e)) ⊎ ((a : S) × (r ≡ ok (some a)))
        → (r' : Result (ManagedStream S)) × (t : Shared W) × (wrap_stream g around slot permit
              cancel before r s
            ≡ returns (r', t))
          × Opened r' t
    unfolding wrap_stream
    wrap_stream-Opened slot permit cancel before r s unused fresh kept none_yet h (inl (e, same)) =
        let outcome = circuit_outcome {A = S} (err e) in
        let failed : Result (ManagedStream S) = err e in
        let told : Shared W = record s {
          breaker = (done permit (around.clock s) outcome s.breaker).1;
        } in
        let (t, e', _, h') = give_back-Holds others g slot failed told unused h in
        (failed, t, rw same e', h')
    wrap_stream-Opened slot permit cancel before r s unused fresh kept none_yet h (inr (a, same)) =
        let m : ManagedStream S = record {
          provider_name = g.name;
          inner = a;
          circuit = permit;
          concurrency = slot;
          cancel = cancel;
          ended = false;
          cancelled = before;
        } in
        (
          ok m,
          s,
          rw same refl,
          (
            record { slot = unused; circuit = fresh; cancelled = none_yet; held = h },
            refl,
            refl,
            kept ∙ ap is_ok same,
          ),
        )

    open_guarded-Opened :
        (slot : Semaphore.Permit) (permit : Breaker.Permit) (s : Shared W)
        → slot.used ≡ false
        → permit.used ≡ false
        → Holds others 1 s
        → (r : Result (ManagedStream S)) × (t : Shared W) × (open_guarded g around slot permit s
            ≡ returns (r, t))
          × Opened r t
    unfolding open_guarded
    open_guarded-Opened slot permit s unused fresh h =
        let env = attempts g "chat stream" "provider returned a nil stream" around in
        let (r, t) = run_retained env g.policy s in
        let kept : Holds others 1 t =
          run_retained-keeps env g.policy (Holds others 1)
            (attempts-Keeps others g "chat stream" "provider returned a nil stream" around 1 fair) s
            h in
        let (_, counted, balanced, retained, leads) = run_retained_lem env o s accepted in
        wrap_stream-Opened slot permit r.cancel (cancelled_already r) r.result t unused fresh
          retained (handed_over_uncancelled r counted balanced) kept
          (LeadsTo-answer env g.policy _ r.result leads)

    ask_breaker-Opened :
        (slot : Semaphore.Permit) (s : Shared W)
        → slot.used ≡ false
        → Holds others 1 s
        → (r : Result (ManagedStream S)) × (t : Shared W) × (ask_breaker_for_stream g around slot s
            ≡ returns (r, t))
          × Opened r t
    unfolding ask_breaker_for_stream
    ask_breaker-Opened slot s unused h =
        let (b, permit, _) = allow (around.clock s) s.breaker in
        let s' : Shared W = record s { breaker = b } in
        elim (Option-cases permit) [
          | inl z ↦
              let refused : Result (ManagedStream S) = err (sentinel circuit_open) in
              let (t, e, _, h') = give_back-Holds others g slot refused s' unused h in
              (refused, t, rw (z, ask_breaker_for_stream) e, h')
          | inr (p, z) ↦
              let fresh = ((available_foretells s.breaker (around.clock s)).3 p z).2 in
              let (r, t, e, made) = open_guarded-Opened slot p s' unused fresh h in
              (r, t, rw (z, ask_breaker_for_stream) e, made)
        ]

  -- A call of ChatStream that finds room in the semaphore, under a policy that `New` accepts and with
  -- other requests at work in between, returns. Where it fails, it leaves no slot taken but those of the
  -- others; where it succeeds, its stream has the slot, an unused circuit permit, the guard's name, and
  -- the cancel function of a context that has not been cancelled.
  pub chat_stream_lem :
      (fair : IsFair others around) (o : Options) (accepted : Retry.new o ≡ ok g.policy)
      (s : Shared W)
      → Holds others 0 s
      → s.semaphore.in_flight < s.semaphore.capacity
      → (r : Result (ManagedStream S)) × (t : Shared W) × (chat_stream g around takes_slot s
          ≡ returns (r, t))
        × Opened r t
  unfolding chat_stream acquire
  chat_stream_lem fair o accepted s h room =
      let (r, t, e, made) =
        ask_breaker-Opened fair o accepted (record { used = false }) (entered s) refl
          (omega (arith, h)) in
      (r, t, ground (arith, e, room), made)
