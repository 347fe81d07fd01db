-- ===== src/Breaker/Permits.antt =====
-- A breaker and the permits that it has handed out, under any interleaving of the calls of any
-- number of goroutines (internal/circuitbreaker/breaker.go).
use model_gate.Prelude.{
  ℕ, zero, suc, ◌+◌, ◌-◌, ◌%◌, ◌^◌, ◌≤◌, ◌<◌, Bool, true, false, not, ◌&&◌, List, [], ◌∷◌, ◌≡◌,
  refl, arith, ◌==◌, length, ◌⊎◌, inl, inr, Option, some, none, All, count, set, get_elem?, one_if,
  Option-cases, ap, ◌∙◌,
}
use model_gate.Errors.{ok}
use model_gate.Breaker.{
  Breaker, Permit, Options, Settings, State, Outcome, is_half_open, new, transition_locked, allow,
  current, available, complete, complete_in, judge, done,
}
use model_gate.Breaker.Invariant.{
  Inv, record_locked-frame, new-Inv, allow-Inv, current-Inv, available-Inv, done-Inv,
}

-- The newest permit first.
pub record System : Type 0 where
  pub breaker : Breaker
  pub permits : List Permit

-- The calls with the clock reading of each; a permit is named by its place in the list.
pub data Call : Type 0 where
  allows : ℕ → Call
  asks_state : ℕ → Call
  asks_available : ℕ → Call
  finishes : ℕ → ℕ → Outcome → Call

grant : Breaker → Option Permit → List Permit → System
grant b none ps = record { breaker = b; permits = ps }
grant b (some p) ps = record { breaker = b; permits = p ∷ ps }

finish : Option Permit → ℕ → ℕ → Outcome → System → System
finish none i now o s = s
finish (some p) i now o s =
    let (q, b, note) = done p now o s.breaker in record { breaker = b; permits = set s.permits i q }

unfoldable pub step : System → Call → System
unfolding grant finish
step s (allows now) = let (b, p, note) = allow now s.breaker in grant b p s.permits
step s (asks_state now) = record s { breaker = (current now s.breaker).0 }
step s (asks_available now) = record s { breaker = (available now s.breaker).0 }
step s (finishes i now o) = finish (get_elem? s.permits i) i now o s

unfoldable pub run : System → List Call → System
run s [] = s
run s (c ∷ cs) = run (step s c) cs

abbrev pub start : Breaker → System
start b = record { breaker = b; permits = [] }

-- A probe in flight: granted in the half-open period that the breaker is in, and not yet done.
abbrev pub is_live : ℕ → Permit → Bool
is_live g p = not p.used && (is_half_open p.state && p.generation == g)

unfoldable pub probes : System → ℕ
probes s = count (is_live s.breaker.generation) s.permits

abbrev AreUpTo : ℕ → List Permit → Type 0
AreUpTo g = All (λ p. p.generation ≤ g)

AreUpTo-mono : (g h : ℕ) (ps : List Permit) → g ≤ h → AreUpTo g ps → AreUpTo h ps
AreUpTo-mono g h [] l a = tt
AreUpTo-mono g h (p ∷ ps) l a = (omega arith, AreUpTo-mono g h ps l a.1)

AreUpTo-set :
    (g i : ℕ) (q : Permit) (ps : List Permit)
    → q.generation ≤ g
    → AreUpTo g ps
    → AreUpTo g (set ps i q)
AreUpTo-set g i q [] l a = tt
AreUpTo-set g zero q (p ∷ ps) l a = (l, a.1)
AreUpTo-set g (suc i) q (p ∷ ps) l a = (a.0, AreUpTo-set g i q ps l a.1)

AreUpTo-get :
    (g i : ℕ) (p : Permit) (ps : List Permit)
    → get_elem? ps i ≡ some p
    → AreUpTo g ps
    → p.generation ≤ g
AreUpTo-get g i p [] e a = cc
AreUpTo-get g zero p (q ∷ ps) e a = ground arith
AreUpTo-get g (suc i) p (q ∷ ps) e a = AreUpTo-get g i p ps e a.1

-- No permit belongs to a period that has not begun.
count-live_later : (g h : ℕ) (ps : List Permit) → g < h → AreUpTo g ps → count (is_live h) ps ≡ 0
count-live_later g h [] l a = refl
count-live_later g h (p ∷ ps) l a = ground (arith, count-live_later g h ps)

count-live_set :
    (g i : ℕ) (p : Permit) (ps : List Permit)
    → get_elem? ps i ≡ some p
    → count (is_live g) (set ps i (record p { used = true })) + one_if (is_live g p)
      ≡ count (is_live g) ps
count-live_set g i p [] e = cc
count-live_set g zero p (q ∷ ps) e = ground arith
count-live_set g (suc i) p (q ∷ ps) e = omega (arith, count-live_set g i p ps e)

-- The invariant after at most `n` calls.
record IsTracked (n : ℕ) (s : System) : Type 0 where
  inv : Inv s.breaker
  young : s.breaker.generation ≤ n
  older : AreUpTo s.breaker.generation s.permits
  tracked : s.breaker.half_open_active ≡ probes s

allows-IsTracked :
    (n now : ℕ) (s : System)
    → n + 1 < 2 ^ 64
    → IsTracked n s
    → IsTracked (n + 1) (step s (allows now))
unfolding step allow transition_locked probes
allows-IsTracked n now s l t = ground (
  arith,
  allow-Inv now s.breaker t.inv,
  AreUpTo-mono s.breaker.generation (s.breaker.generation + 1) s.permits,
  count-live_later s.breaker.generation (s.breaker.generation + 1) s.permits,
)

asks-IsTracked :
    (n now : ℕ) (s : System)
    → n + 1 < 2 ^ 64
    → IsTracked n s
    → IsTracked (n + 1) (step s (asks_state now)) × IsTracked (n + 1) (step s (asks_available now))
unfolding step current available transition_locked probes
asks-IsTracked n now s l t = ground (
  arith,
  current-Inv now s.breaker t.inv,
  available-Inv now s.breaker t.inv,
  AreUpTo-mono s.breaker.generation (s.breaker.generation + 1) s.permits,
  count-live_later s.breaker.generation (s.breaker.generation + 1) s.permits,
)

-- What a completed permit does to the period and to the probes in flight.
complete-effect :
    (s : State) (g now : ℕ) (o : Outcome) (b : Breaker)
    → Inv b
    → (let c = (complete s g now o b).0 in
        ((c.generation ≡ (b.generation + 1) % 2 ^ 64) × (c.half_open_active ≡ 0))
        ⊎ ((c.generation ≡ b.generation)
            × (c.half_open_active
                ≡ b.half_open_active - one_if (is_half_open s && g == b.generation))))
unfolding complete complete_in judge transition_locked
complete-effect s g now o b v =
    ground (arith, record_locked-frame true b, record_locked-frame false b)

done-used :
    (p : Permit) (now : ℕ) (o : Outcome) (b : Breaker)
    → (done p now o b).0 ≡ record p { used = true }
unfolding done
done-used p now o b = ground arith

done-effect :
    (p : Permit) (now : ℕ) (o : Outcome) (b : Breaker)
    → Inv b
    → (let c = (done p now o b).1 in
        ((c.generation ≡ (b.generation + 1) % 2 ^ 64) × (c.half_open_active ≡ 0))
        ⊎ ((c.generation ≡ b.generation)
            × (c.half_open_active ≡ b.half_open_active - one_if (is_live b.generation p))))
unfolding done
done-effect p now o b v = ground (arith, complete-effect p.state p.generation now o b v)

finish-IsTracked :
    (n i now : ℕ) (o : Outcome) (p : Permit) (s : System)
    → get_elem? s.permits i ≡ some p
    → n + 1 < 2 ^ 64
    → IsTracked n s
    → IsTracked (n + 1) (finish (some p) i now o s)
unfolding finish probes
finish-IsTracked n i now o p s e l t =
    rw (done-used p now o s.breaker) (elim (done-effect p now o s.breaker t.inv) [
      | inl (moved, none_left) ↦
          let up : s.breaker.generation < (done p now o s.breaker).1.generation =
            omega (arith, t) in
          let older = AreUpTo-set s.breaker.generation i q s.permits p_older t.older in
          record {
            inv = done-Inv p now o s.breaker t.inv;
            young = omega (arith, t);
            older =
                AreUpTo-mono s.breaker.generation (done p now o s.breaker).1.generation
                  (set s.permits i q) (omega arith) older;
            tracked = omega (
              arith,
              count-live_later s.breaker.generation (done p now o s.breaker).1.generation
                  (set s.permits i q) up older,
            );
          }
      | inr (same, fewer) ↦ record {
        inv = done-Inv p now o s.breaker t.inv;
        young = omega (arith, t);
        older = rw same (AreUpTo-set s.breaker.generation i q s.permits p_older t.older);
        tracked =
            rw (same, fewer)
              (omega (arith, count-live_set s.breaker.generation i p s.permits e, t));
      }
    ])
  where
    q : Permit
    q = record p { used = true }

    p_older : p.generation ≤ s.breaker.generation
    p_older = AreUpTo-get s.breaker.generation i p s.permits e t.older

step-IsTracked :
    (n : ℕ) (s : System) (c : Call) → n + 1 < 2 ^ 64 → IsTracked n s → IsTracked (n + 1) (step s c)
step-IsTracked n s (allows now) l t = allows-IsTracked n now s l t
step-IsTracked n s (asks_state now) l t = (asks-IsTracked n now s l t).0
step-IsTracked n s (asks_available now) l t = (asks-IsTracked n now s l t).1
step-IsTracked n s (finishes i now o) l t =
    unfold step in
    elim (Option-cases (get_elem? s.permits i)) [
      | inl e ↦
          rw (e, finish)
            (record { inv = t.inv; young = omega (arith, t); older = t.older; tracked = t.tracked })
      | inr (p, e) ↦ rw (e, finish) (finish-IsTracked n i now o p s e l t)
    ]

run-IsTracked :
    (n : ℕ) (s : System) (cs : List Call)
    → n + length cs < 2 ^ 64
    → IsTracked n s
    → IsTracked (n + length cs) (run s cs)
unfolding run
run-IsTracked n s [] l t = let e : n + 0 ≡ n = omega arith in rw e t
run-IsTracked n s (c ∷ cs) l t =
    let e : n + suc (length cs) ≡ n + 1 + length cs = omega arith in
    rw e (run-IsTracked (n + 1) (step s c) cs (omega arith) (step-IsTracked n s c (omega arith) t))

done-options :
    (p : Permit) (now : ℕ) (o : Outcome) (b : Breaker) → (done p now o b).1.options ≡ b.options
unfolding done complete_in judge transition_locked
done-options p now o b = ground (arith, record_locked-frame true b, record_locked-frame false b)

step-options : (s : System) (c : Call) → (step s c).breaker.options ≡ s.breaker.options
unfolding step allow current available transition_locked
step-options s (allows now) = ground arith
step-options s (asks_state now) = ground arith
step-options s (asks_available now) = ground arith
step-options s (finishes i now o) = elim (Option-cases (get_elem? s.permits i)) [
  | inl e ↦ rw (e, finish)
  | inr (p, e) ↦ rw (e, finish) (done-options p now o s.breaker)
]

run-options : (s : System) (cs : List Call) → (run s cs).breaker.options ≡ s.breaker.options
unfolding run
run-options s [] = refl
run-options s (c ∷ cs) = run-options (step s c) cs ∙ step-options s c

start-IsTracked : (o : Options) {b : Breaker} → new o ≡ ok b → IsTracked 0 (start b)
unfolding new probes
start-IsTracked o e = ground (arith, new-Inv o e)

-- From a breaker that `New` returns, through any interleaving of fewer than 2^64 calls, by permits
-- finished in any order, late, twice or never: the invariant of the breaker holds, its probe counter
-- is exactly the number of probes in flight, and there are at most `HalfOpenMaxRequests` of them.
pub probes_exact :
    (o : Options) {b : Breaker} (cs : List Call)
    → new o ≡ ok b
    → length cs < 2 ^ 64
    → (let s = run (start b) cs in
        Inv s.breaker
        × (s.breaker.half_open_active ≡ probes s)
        × (probes s ≤ b.half_open_max_requests))
probes_exact o {b} cs e l = (
  t.inv,
  t.tracked,
  omega (arith, t, ap (λ (x : Settings). x.half_open_max_requests) (run-options (start b) cs)),
)
  where
    t : IsTracked (length cs) (run (start b) cs)
    t =
        let z : 0 + length cs ≡ length cs = omega arith in
        rw z at (run-IsTracked 0 (start b) cs (omega arith) (start-IsTracked o e))
