-- ===== src/Routing/Failover/Tries.antt =====
-- The failover ends, tries no target twice, and keeps an open circuit from the client
-- (internal/routing/router.go).
use model_gate.Prelude.{
  ℕ, zero, suc, ◌+◌, ◌≤◌, ◌≡◌, ◌⊎◌, inl, inr, refl, ap, ◌∙◌, arith, Bool, true, false, Option, none,
  some, List, [], ◌∷◌, length, get_elem?, length-set, ltb, ◌%◌, subst, Bool-cases, Option-cases,
  String, contains,
}
use model_gate.Errors.{
  Error, UpstreamError, unavailable, invalid_response, no_healthy_providers, as_upstream, errors_is,
  Result, ok, err,
}
use model_gate.Requests.{ChatResponse}
use model_gate.Routing.{
  Target, TargetState, Router, Best, select_target, select_by, is_eligible, round_robin,
  weighted_round_robin, round_robin_loop, try_target, weighted_select, sweep, take_best, lower,
  Strategy,
}
use model_gate.Routing.Weighted.{chose, chose_none, weighted_select_lem}
use model_gate.Routing.Failover.{
  Network, Routed, unavailable_error, is_open_error, deliver, after_call, give_up, call_selected,
  failover, route, NamedStream, chat, chat_stream,
}

round_robin_loop-frame :
    (may : Target → Bool) (n : ℕ) (r : Router)
    → ((round_robin_loop may n r).0.targets ≡ r.targets)
      × ((t : Target) → (round_robin_loop may n r).1 ≡ some t → may t ≡ true)
unfolding round_robin_loop try_target
round_robin_loop-frame may zero r = (refl, λ t e. cc)
round_robin_loop-frame may (suc n) r =
    let r' : Router = record r { next = (r.next + 1) % length r.targets } in
    let (same, chosen) = round_robin_loop-frame may n r' in
    elim (Option-cases (get_elem? r.targets (r.next % length r.targets))) [
      | inl z ↦ rw (z, try_target) (refl, λ t e. cc)
      | inr (s, z) ↦ elim (Bool-cases (may s.target)) [
        | inl up ↦ rw (z, try_target, up) (refl, λ t e. ground (arith, up, e))
        | inr down ↦ rw (z, try_target, down) (same, chosen)
      ]
    ]

length-sweep :
    (ss : List TargetState) (may : Target → Bool) (i total : ℕ) (best : Option Best)
    → length (sweep may i total best ss).0 ≡ length ss
unfolding sweep
length-sweep [] may i total best = refl
length-sweep (s ∷ ss) may i total best = ap suc (length-sweep ss may _ _ _)

length-take_best :
    (ss : List TargetState) (total : ℕ) (best : Option Best)
    → length (take_best ss total best).0 ≡ length ss
unfolding take_best
length-take_best ss total none = refl
length-take_best ss total (some b) = elim (Option-cases (get_elem? ss b.index)) [
  | inl z ↦ rw (z, take_best) refl
  | inr (s, z) ↦ rw (z, take_best) (length-set ss b.index (lower total s))
]

-- A selection keeps the targets' number, and returns an eligible target.
select_by-frame :
    (s : Strategy) (may : Target → Bool) (r : Router)
    → (length (select_by s may r).0.targets ≡ length r.targets)
      × ((t : Target) → (select_by s may r).1 ≡ some t → may t ≡ true)
unfolding select_by
select_by-frame round_robin may r =
    let (same, chosen) = round_robin_loop-frame may (length r.targets) r in (ap length same, chosen)
select_by-frame weighted_round_robin may r = (
  unfold weighted_select in (length-take_best _ _ _ ∙ length-sweep r.targets may 0 0 none),
  λ t e. elim (weighted_select_lem may r.targets).1 [
    | chose j s at able best is ↦
        let same : s.target ≡ t = ground (arith, is, e) in subst (λ x. may x ≡ true) same able
    | chose_none out is ↦ ground (arith, is, e)
  ],
)

select-frame :
    (excluded : List String) (up : Target → Bool) (r : Router)
    → (length (select_target excluded up r).0.targets ≡ length r.targets)
      × ((t : Target) → (select_target excluded up r).1 ≡ some t → contains excluded t.name ≡ false)
unfolding select_target is_eligible
select-frame excluded up r =
    let (same, chosen) = select_by-frame r.strategy (is_eligible excluded up) r in
    (same, λ t e. ground (arith, chosen t e))

-- No target is called that has been called before.
abbrev pub AreNew : {A : Type 0} → List String → List (Target × Result (Option A)) → Type 0
AreNew excluded [] = Unit
AreNew excluded ((t, answer) ∷ calls) =
    (contains excluded t.name ≡ false) × AreNew (t.name ∷ excluded) calls

module _ {A B : Type 0} (operation what : String) (label : String → A → B) where
  -- The result, by the calls: each but the last was refused by an open circuit; the last one decides,
  -- or was refused too and no target is left.
  abbrev pub EndsWith : List (Target × Result (Option A)) → Result B → Type 0
  EndsWith [] r = r ≡ err (unavailable_error operation)
  EndsWith ((t, answer) ∷ calls) r =
      ((is_open_error answer ≡ true) × EndsWith calls r)
      ⊎ ((is_open_error answer ≡ false)
          × (calls ≡ [])
          × (r ≡ deliver operation what label t answer))

  EndsWith-open :
      (calls : List (Target × Result (Option A))) (r : Result B)
      → EndsWith calls r
      → is_open_error r ≡ false
  unfolding unavailable_error errors_is deliver
  EndsWith-open [] r e = rw e refl
  EndsWith-open ((t, answer) ∷ calls) r (inl (_, ends)) = EndsWith-open calls r ends
  EndsWith-open ((t, err e) ∷ calls) r (inr (closed, _, same)) = rw same closed
  EndsWith-open ((t, ok none) ∷ calls) r (inr (closed, _, same)) = rw same refl
  EndsWith-open ((t, ok (some a)) ∷ calls) r (inr (closed, _, same)) = rw same refl

module _ {W A B : Type 0} (operation what : String) (label : String → A → B)
    (net : Network W A) where
  abbrev pub IsRoute : ℕ → List String → Option (Routed W A B) → Type 0
  IsRoute left excluded o =
      (x : Routed W A B) × (o ≡ some x)
      × (length x.calls ≤ left)
      × AreNew excluded x.calls
      × EndsWith operation what label x.calls x.result

  give_up-IsRoute :
      (left : ℕ) (excluded : List String) (r : Router) (w : W)
      → IsRoute left excluded (give_up operation what label net r w)
  give_up-IsRoute left excluded r w = (_, refl, omega arith, tt, refl)

  after_call-IsRoute :
      (rest : List String → W → Option (Routed W A B)) (left : ℕ) (excluded : List String)
      (r : Router) (t : Target) (answer : Result (Option A)) (w : W)
      → contains excluded t.name ≡ false
      → IsRoute left (t.name ∷ excluded) (rest (t.name ∷ excluded) w)
      → IsRoute (suc left) excluded (after_call operation what label net rest excluded r t answer w)
  unfolding after_call
  after_call-IsRoute rest left excluded r t answer w new (x, e, short, news, ends) =
      elim (Bool-cases (is_open_error answer)) [
        | inl z ↦
            rw (z, new, after_call, e)
              (
                record x { calls = (t, answer) ∷ x.calls },
                refl,
                omega (arith, short),
                (new, news),
                inl (z, ends),
              )
        | inr z ↦ rw (z, after_call) (_, refl, omega arith, (new, tt), inr (z, refl, refl))
      ]

  call_selected-IsRoute :
      (rest : Router → List String → W → Option (Routed W A B)) (left : ℕ) (excluded : List String)
      (r : Router) (chosen : Option Target) (w : W)
      → ((t : Target) → chosen ≡ some t → contains excluded t.name ≡ false)
      → ((t : Target) (v : W) → IsRoute left (t.name ∷ excluded) (rest r (t.name ∷ excluded) v))
      → IsRoute
          (suc left)
          excluded
          (call_selected operation what label net rest excluded (r, chosen) w)
  unfolding call_selected
  call_selected-IsRoute rest left excluded r none w new later =
      give_up-IsRoute (suc left) excluded r w
  call_selected-IsRoute rest left excluded r (some t) w new later =
      let (answer, w') = net.call t w in
      after_call-IsRoute (rest r) left excluded r t answer w' (new t refl) (later t w')

  -- `left` targets are not excluded yet, and there is a round for each and one for the end.
  failover-IsRoute :
      (left : ℕ) (r : Router) (excluded : List String) (w : W)
      → length excluded + left ≡ length r.targets
      → IsRoute left excluded (failover operation what label net (suc left) r excluded w)
  unfolding failover
  failover-IsRoute zero r excluded w n =
      let full : ltb (length excluded) (length r.targets) ≡ false = ground (arith, n) in
      rw full (give_up-IsRoute zero excluded r w)
  failover-IsRoute (suc left) r excluded w n =
      let (up, w') = net.look w in
      let (same, new) = select-frame excluded up r in
      let (r', chosen) = select_target excluded up r in
      let room : ltb (length excluded) (length r.targets) ≡ true = ground (arith, n) in
      rw room (
        call_selected-IsRoute (λ v ex u. failover operation what label net (suc left) v ex u) left
          excluded r' chosen w' new
          (λ t v. failover-IsRoute left r' (t.name ∷ excluded) v (omega (arith, n, same))))

-- An error of the router that says that no healthy provider is left.
abbrev pub IsUnavailable : Error → Type 0
IsUnavailable e =
    (u : UpstreamError) × (as_upstream e ≡ some u)
    × (u.provider ≡ "router")
    × (u.kind ≡ unavailable)
    × (u.retryable ≡ false)
    × (errors_is e no_healthy_providers ≡ true)

-- An error that says that this target has answered nothing.
abbrev pub IsEmptyAnswer : Target → Error → Type 0
IsEmptyAnswer t e =
    (u : UpstreamError) × (as_upstream e ≡ some u)
    × (u.provider ≡ t.name)
    × (u.kind ≡ invalid_response)
    × (u.retryable ≡ false)

module _ {A B : Type 0} (named : String → A → B) where
  -- What the answer of a target is for the client.
  abbrev pub Answers : Target → Result (Option A) → Result B → Type 0
  Answers t (err e) r = r ≡ err e
  Answers t (ok (some a)) r = r ≡ ok (named t.name a)
  Answers t (ok none) r = (e : Error) × (r ≡ err e) × IsEmptyAnswer t e

  -- The result, by the calls: each but the last was refused by an open circuit; the last one decides,
  -- or was refused too and no target is left.
  abbrev pub Results : List (Target × Result (Option A)) → Result B → Type 0
  Results [] r = (e : Error) × (r ≡ err e) × IsUnavailable e
  Results ((t, answer) ∷ calls) r =
      ((is_open_error answer ≡ true) × Results calls r)
      ⊎ ((is_open_error answer ≡ false) × (calls ≡ []) × Answers t answer r)

  deliver-Answers :
      (operation what : String) (t : Target) (answer : Result (Option A)) (r : Result B)
      → r ≡ deliver operation what named t answer
      → Answers t answer r
  unfolding deliver as_upstream
  deliver-Answers operation what t (err e) r h = h
  deliver-Answers operation what t (ok (some a)) r h = h
  deliver-Answers operation what t (ok none) r h = (_, h, (_, refl, refl, refl, refl))

  EndsWith-Results :
      (operation what : String) (calls : List (Target × Result (Option A))) (r : Result B)
      → EndsWith operation what named calls r
      → Results calls r
  unfolding unavailable_error as_upstream errors_is
  EndsWith-Results operation what [] r h = (_, h, (_, refl, refl, refl, refl, refl))
  EndsWith-Results operation what ((t, answer) ∷ calls) r (inl (refused, ends)) =
      inl (refused, EndsWith-Results operation what calls r ends)
  EndsWith-Results operation what ((t, answer) ∷ calls) r (inr (let_in, last, same)) =
      inr (let_in, last, deliver-Answers operation what t answer r same)

  -- A routed request, over this many targets.
  abbrev pub IsRouted : {W : Type 0} → ℕ → Option (Routed W A B) → Type 0
  IsRouted {W} targets o =
      (x : Routed W A B) × (o ≡ some x)
      × (length x.calls ≤ targets)
      × AreNew [] x.calls
      × Results x.calls x.result
      × (is_open_error x.result ≡ false)

  route-IsRouted :
      {W : Type 0} (operation what : String) (net : Network W A) (r : Router) (w : W)
      → IsRouted (length r.targets) (route operation what named net r w)
  unfolding route
  route-IsRouted operation what net r w =
      let (x, e, short, news, ends) =
        failover-IsRoute operation what named net (length r.targets) r [] w (omega arith) in
      (
        x,
        e,
        short,
        news,
        EndsWith-Results operation what x.calls x.result ends,
        EndsWith-open operation what named x.calls x.result ends,
      )

-- A response, and a stream, under a target's name.
abbrev pub response_of : String → ChatResponse → ChatResponse
response_of name a = record {
  provider = name;
  id = a.id;
  object = a.object;
  created = a.created;
  model = a.model;
  choices = a.choices;
  usage = a.usage;
}

abbrev pub stream_of : {S : Type 0} → String → S → NamedStream S
stream_of name s = record { name = name; inner = s }

-- A routed request, of Chat and of ChatStream, ends: it has its result after at most one call of each
-- target, and calls none twice. Every call but the last was refused by an open circuit. If the last
-- was not refused, its answer is the result: its error, or its response or stream with that target's
-- name, or, where it answered nothing, an error that says so of that target. If it was refused, or
-- nothing was called, the result is the router's error that no healthy provider is left. The client
-- never sees the error of an open circuit.
pub route_lem :
    {W S : Type 0} (net : Network W ChatResponse) (streams : Network W S) (r : Router) (w : W)
    → IsRouted response_of (length r.targets) (chat net r w)
      × IsRouted stream_of (length r.targets) (chat_stream streams r w)
unfolding chat chat_stream
route_lem net streams r w = (
  route-IsRouted _ "chat" "provider returned a nil response" net r w,
  route-IsRouted _ "chat stream" "provider returned a nil stream" streams r w,
)
