-- ===== src/Governance/Calls.antt =====
-- What a guarded call takes, it gives back (Chat in internal/governance/provider.go).
use model_gate.Prelude.{
  ℕ, ◌+◌, ◌-◌, ◌<◌, ◌≤◌, ◌≡◌, ◌⊎◌, inl, inr, refl, sym, ap, ◌∙◌, arith, false, Option, none, some,
  List, [], ◌∷◌, Option-cases, Bool-cases, ltb, String,
}
use model_gate.Errors.{Error, sentinel, circuit_open, Result, ok, err}
use model_gate.Requests.{ChatResponse}
use model_gate.Semaphore
use model_gate.Semaphore.{Semaphore, Choice, takes_slot, sees_done, acquire, release}
use model_gate.Breaker
use model_gate.Breaker.{Breaker, allow, done}
use model_gate.Retry
use model_gate.Retry.{Environment, Policy, Options, run, run_retained}
use model_gate.Retry.Attempts.{LeadsTo, run_lem}
use model_gate.Retry.Frame.{Keeps, run-keeps}
use model_gate.Governance.{
  Shared, Surroundings, Guard, waits, returns, circuit_outcome, attempts, give_back, answer_with,
  call_guarded, ask_breaker, chat,
}

module _ {W : Type 0} (others : W → ℕ) where
  -- `n` slots are taken beside those of the other requests.
  abbrev pub Holds : ℕ → Shared W → Type 0
  Holds n s = s.semaphore.in_flight ≡ others s.world + n

  -- The other requests return only slots of their own: whatever they do in a step of the
  -- surroundings, the slots that are not theirs stay taken.
  abbrev pub Spares : (Shared W → Shared W) → Type 0
  Spares step = (n : ℕ) (s : Shared W) → Holds n s → Holds n (step s)

  pub record IsFair {A : Type 0} (around : Surroundings W A) : Type 0 where
    pub call : (t : ℕ) → Spares (λ s. (around.call t s).1)
    pub context_error : Spares (λ s. (around.context_error s).1)
    pub jitter : (t : ℕ) → Spares (λ s. (around.jitter t s).1)
    pub wait : (t : ℕ) → Spares (λ s. (around.wait t s).1)

  pub attempts-Keeps :
      {A : Type 0} (g : Guard) (operation what : String) (around : Surroundings W A) (n : ℕ)
      → IsFair around
      → Keeps (attempts g operation what around) (Holds n)
  attempts-Keeps g operation what around n fair = record {
    context_error = λ s h. fair.context_error n s h;
    operation = λ t s h. fair.call t n s h;
    jitter = λ t s h. fair.jitter t n s h;
    wait = λ t s h. fair.wait t n s h;
  }

-- The state in which the breaker is asked.
abbrev pub entered : {W : Type 0} → Shared W → Shared W
entered s = record s { semaphore = record s.semaphore { in_flight = s.semaphore.in_flight + 1 } }

-- A policy that `New` accepts makes an attempt, so there is an error or an answer.
pub LeadsTo-answer :
    {W A : Type 0} (env : Environment W A) (policy : Policy) (rs : List (Result A))
    (r : Result (Option A))
    → LeadsTo env policy rs r
    → ((e : Error) × (r ≡ err e)) ⊎ ((a : A) × (r ≡ ok (some a)))
LeadsTo-answer env policy [] r (e, same, _) = inl (e, same)
LeadsTo-answer env policy (ok a ∷ rs) r (_, same) = inr (a, same)
LeadsTo-answer env policy (err e ∷ rs) r (inl (_, same)) = inl (e, same)
LeadsTo-answer env policy (err e ∷ rs) r (inr (inl (_, (p, same, _)))) = inl (p, same)
LeadsTo-answer env policy (err e ∷ rs) r (inr (inr (_, rest))) = LeadsTo-answer env policy rs r rest

module _ {W : Type 0} (others : W → ℕ) (g : Guard) where
  -- A slot that is held is given back without waiting.
  pub give_back-Holds :
      {A : Type 0} (slot : Semaphore.Permit) (a : A) (s : Shared W)
      → slot.used ≡ false
      → Holds others 1 s
      → (t : Shared W) × (give_back slot a s ≡ returns (a, t))
        × (t.breaker ≡ s.breaker)
        × Holds others 0 t
  unfolding give_back release
  give_back-Holds slot a s unused h = (
    record s { semaphore = record s.semaphore { in_flight = s.semaphore.in_flight - 1 } },
    ground (arith, unused, h),
    refl,
    omega (arith, h),
  )

  module _ (around : Surroundings W ChatResponse) where
    abbrev chat_env : Environment (Shared W) ChatResponse
    chat_env = attempts g "chat" "provider returned a nil response" around

    abbrev pub IsNamed : Result ChatResponse → Type 0
    IsNamed (ok a) = a.provider ≡ g.name
    IsNamed (err e) = Unit {0}

    -- What a call that has a slot and a permit does: the policy runs, the breaker is told how that
    -- ended, and the slot is given back.
    abbrev pub Called : Breaker.Permit → Shared W → Result ChatResponse → Shared W → Type 0
    Called permit s r t =
        let u = (run chat_env g.policy s).1 in
        (t.breaker ≡ (done permit (around.clock u) (circuit_outcome r) u.breaker).1) × IsNamed r

    answer_with-Holds :
        (slot : Semaphore.Permit) (r : Result (Option ChatResponse)) (s : Shared W)
        → slot.used ≡ false
        → Holds others 1 s
        → ((e : Error) × (r ≡ err e)) ⊎ ((a : ChatResponse) × (r ≡ ok (some a)))
        → (r' : Result ChatResponse) × (t : Shared W) × (answer_with g around slot r s
            ≡ returns (r', t))
          × (circuit_outcome r' ≡ circuit_outcome r)
          × IsNamed r'
          × (t.breaker ≡ s.breaker)
          × Holds others 0 t
    unfolding answer_with circuit_outcome
    answer_with-Holds slot r s unused h (inl (e, same)) =
        let failed : Result ChatResponse = err e in
        let (t, e', b, h') = give_back-Holds slot failed s unused h in
        (failed, t, rw same e', rw same refl, tt, b, h')
    answer_with-Holds slot r s unused h (inr (a, same)) =
        let a' : ChatResponse = record a { provider = g.name } in
        let served : Result ChatResponse = ok a' in
        let (t, e', b, h') = give_back-Holds slot served s unused h in
        (served, t, rw same e', rw same refl, refl, b, h')

    module _ (fair : IsFair others around) (o : Options)
        (accepted : Retry.new o ≡ ok g.policy) where
      call_guarded-Holds :
          (slot : Semaphore.Permit) (permit : Breaker.Permit) (s : Shared W)
          → slot.used ≡ false
          → Holds others 1 s
          → (r : Result ChatResponse) × (t : Shared W) × (call_guarded g around slot permit s
              ≡ returns (r, t))
            × Called permit s r t
            × Holds others 0 t
      unfolding call_guarded
      call_guarded-Holds slot permit s unused h =
          let u = (run chat_env g.policy s).1 in
          let result = (run chat_env g.policy s).0.result in
          let kept : Holds others 1 u =
            run-keeps chat_env g.policy (Holds others 1)
              (attempts-Keeps others g "chat" "provider returned a nil response" around 1 fair) s
              h in
          let leads = (run_lem chat_env o s accepted).4 in
          let told : Shared W = record u {
            breaker = (done permit (around.clock u) (circuit_outcome result) u.breaker).1;
          } in
          let (r, t, e, same, name, b, h') =
            answer_with-Holds slot result told unused kept
              (LeadsTo-answer chat_env g.policy _ result leads) in
          (
            r,
            t,
            e,
            (b ∙ ap (λ x. (done permit (around.clock u) x u.breaker).1) (sym same), name),
            h',
          )

      ask_breaker-Holds :
          (slot : Semaphore.Permit) (s : Shared W)
          → slot.used ≡ false
          → Holds others 1 s
          → (let (b, permit, _) = allow (around.clock s) s.breaker in
              (r : Result ChatResponse) × (t : Shared W) × (ask_breaker g around slot s
                ≡ returns (r, t))
              × (((permit ≡ none) × (r ≡ err (sentinel circuit_open)) × (t.breaker ≡ b))
                  ⊎ ((p : Breaker.Permit) × (permit ≡ some p)
                      × Called p (record s { breaker = b }) r t))
              × Holds others 0 t)
      unfolding ask_breaker
      ask_breaker-Holds slot s unused h =
          let (b, permit, _) = allow (around.clock s) s.breaker in
          let s' : Shared W = record s { breaker = b } in
          elim (Option-cases permit) [
            | inl z ↦
                let refused : Result ChatResponse = err (sentinel circuit_open) in
                let (t, e, same, h') = give_back-Holds slot refused s' unused h in
                (refused, t, rw (z, ask_breaker) e, inl (z, refl, same), h')
            | inr (p, z) ↦
                let (r, t, e, called, h') = call_guarded-Holds slot p s' unused h in
                (r, t, rw (z, ask_breaker) e, inr (p, z, called), h')
          ]

      chat_entering :
          (s : Shared W)
          → s.semaphore.in_flight < s.semaphore.capacity
          → chat g around takes_slot s ≡ ask_breaker g around (record { used = false }) (entered s)
      unfolding chat acquire
      chat_entering s room = ground arith

      chat_full :
          (s : Shared W)
          → s.semaphore.capacity ≤ s.semaphore.in_flight
          → chat g around takes_slot s ≡ waits
      unfolding chat acquire
      chat_full s full = ground arith

      chat_done : (e : Error) (s : Shared W) → chat g around (sees_done e) s ≡ returns (err e, s)
      unfolding chat acquire
      chat_done e s = refl

-- What became of a call of Chat that started in `s`.
module _ {W : Type 0} (others : W → ℕ) (g : Guard) (around : Surroundings W ChatResponse) where
  -- The permit that the breaker grants a call that has its slot, and the breaker after that.
  abbrev pub Asked : Shared W → Result ChatResponse → Shared W → Type 0
  Asked s r t =
      let (b, permit, _) = allow (around.clock s) s.breaker in
      ((permit ≡ none) × (r ≡ err (sentinel circuit_open)) × (t.breaker ≡ b))
      ⊎ ((p : Breaker.Permit) × (permit ≡ some p)
          × Called others g around p (record s { breaker = b }) r t)

  -- A call of Chat, under a policy that `New` accepts, with other requests at work in between that
  -- return only their own slots. It waits only where the semaphore is full; it ends with the context's
  -- error and changes nothing where the context is done first. Otherwise it takes a slot, returns, and
  -- leaves no slot taken but those of the others. The breaker is left as `Allow` left it where that
  -- refused, and the error is `ErrOpen`; where it granted a permit, that permit's `Done` is the last
  -- change of the breaker, with the outcome of the call's result, and a response has the guard's name.
  pub chat_lem :
      (fair : IsFair others around) (o : Options) (accepted : Retry.new o ≡ ok g.policy)
      (choice : Choice) (s : Shared W)
      → Holds others 0 s
      → ((choice ≡ takes_slot)
          × (s.semaphore.capacity ≤ s.semaphore.in_flight)
          × (chat g around choice s ≡ waits))
        ⊎ ((e : Error) × (choice ≡ sees_done e) × (chat g around choice s ≡ returns (err e, s)))
        ⊎ ((choice ≡ takes_slot)
            × (s.semaphore.in_flight < s.semaphore.capacity)
            × ((r : Result ChatResponse) × (t : Shared W) × (chat g around choice s
                  ≡ returns (r, t))
                × Asked (entered s) r t
                × Holds others 0 t))
  chat_lem fair o accepted (sees_done e) s h =
      inr (inl (e, refl, chat_done others g around fair o accepted e s))
  chat_lem fair o accepted takes_slot s h =
      elim (Bool-cases (ltb s.semaphore.in_flight s.semaphore.capacity)) [
        | inr full ↦
            let f : s.semaphore.capacity ≤ s.semaphore.in_flight = ground arith in
            inl (refl, f, chat_full others g around fair o accepted s f)
        | inl room ↦
            let f : s.semaphore.in_flight < s.semaphore.capacity = ground arith in
            let (r, t, e, asked, h') =
              ask_breaker-Holds others g around fair o accepted (record { used = false })
                (entered s) refl (omega (arith, h)) in
            inr (
              inr
                (refl, f, (r, t, chat_entering others g around fair o accepted s f ∙ e, asked, h')))
      ]
