-- ===== src/Breaker/Invariant.antt =====
-- What holds of a breaker between two calls (internal/circuitbreaker/breaker.go).
use model_gate.Prelude.{
  ℕ, suc, ◌^◌, ◌≤◌, ◌<◌, Bool, true, false, [], ◌≡◌, arith, pos_part, neg_part, inl, inr,
  Bool-cases,
}
use model_gate.Errors.{ok}
use model_gate.Breaker.{
  Breaker, Permit, Options, Settings, State, Outcome, state_closed, state_open, state_half_open,
  is_half_open, is_closed, is_success, is_ignored, new, transition_locked, advance_locked,
  record_locked, should_trip, allow, current, available, complete, complete_in, judge,
  complete_closed, complete_half_open, done,
}
use model_gate.Breaker.Window.{IsRing, record_locked-IsRing}

-- What `New` has checked.
pub record AreSound (o : Settings) : Type 0 where
  pub minimum_pos : 0 < o.minimum_requests
  pub minimum_fits : o.minimum_requests ≤ o.window_size
  pub ratio_pos : neg_part o.failure_ratio.num < pos_part o.failure_ratio.num
  pub ratio_le_one : pos_part o.failure_ratio.num ≤ suc o.failure_ratio.den
  pub timeout_pos : 0 < o.open_timeout
  pub probes_pos : 0 < o.half_open_max_requests

pub record Inv (b : Breaker) : Type 0 where
  pub sound : AreSound b.options
  pub ring : IsRing b
  pub active_capped : b.half_open_active ≤ b.half_open_max_requests
  pub passed_capped : b.half_open_passed < b.half_open_max_requests
  pub probing_only :
      is_half_open b.state ≡ false → (b.half_open_active ≡ 0) × (b.half_open_passed ≡ 0)
  pub armed : is_closed b.state ≡ true → should_trip b.options b.outcomes b.failures ≡ false
  pub no_overflow : b.generation < 2 ^ 64

should_trip-nil : (o : Settings) → AreSound o → should_trip o [] 0 ≡ false
unfolding should_trip
should_trip-nil o s = ground arith

-- A breaker that `New` returns satisfies the invariant.
pub new-Inv : (o : Options) {b : Breaker} → new o ≡ ok b → Inv b
unfolding new should_trip
new-Inv o h = ground arith

pub transition-Inv :
    (s : State) (now : ℕ) (b : Breaker)
    → AreSound b.options
    → IsRing b
    → Inv (transition_locked s now b)
unfolding transition_locked
transition-Inv state_closed now b s r = ground (arith, should_trip-nil b.options)
transition-Inv _ now b s r = ground arith

pub advance-Inv : (now : ℕ) (b : Breaker) → Inv b → Inv (advance_locked now b).0
unfolding advance_locked
advance-Inv now b v = ground (arith, transition-Inv state_half_open now b)

pub record_locked-frame :
    (x : Bool) (b : Breaker)
    → ((record_locked x b).options ≡ b.options)
      × ((record_locked x b).state ≡ b.state)
      × ((record_locked x b).half_open_active ≡ b.half_open_active)
      × ((record_locked x b).half_open_passed ≡ b.half_open_passed)
      × ((record_locked x b).generation ≡ b.generation)
unfolding record_locked
record_locked-frame x b = ground arith

pub allow-Inv : (now : ℕ) (b : Breaker) → Inv b → Inv (allow now b).0
unfolding allow transition_locked
allow-Inv now b v = ground arith

pub current-Inv : (now : ℕ) (b : Breaker) → Inv b → Inv (current now b).0
unfolding current transition_locked
current-Inv now b v = ground arith

pub available-Inv : (now : ℕ) (b : Breaker) → Inv b → Inv (available now b).0
unfolding available transition_locked
available-Inv now b v = ground arith

judge-Inv :
    (now : ℕ) (b : Breaker)
    → AreSound b.options
    → IsRing b
    → (should_trip b.options b.outcomes b.failures ≡ false → Inv b)
    → Inv (judge now b).0
unfolding judge
judge-Inv now b s r keep = ground (arith, transition-Inv state_open now b s r, keep)

recorded-Inv :
    (x : Bool) (b : Breaker)
    → Inv b
    → (let c = record_locked x b in should_trip c.options c.outcomes c.failures ≡ false)
    → Inv (record_locked x b)
recorded-Inv x b v h = ground (arith, record_locked-frame x b, record_locked-IsRing x b v.ring)

complete_closed-Inv :
    (now : ℕ) (o : Outcome) (b : Breaker) → Inv b → Inv (complete_closed now o b).0
unfolding complete_closed
complete_closed-Inv now o b v = elim (Bool-cases (is_ignored o)) [
  | inl e ↦ rw (e, complete_closed) v
  | inr e ↦
      rw (e, complete_closed)
        (judge-Inv now (record_locked (is_success o) b)
          (rw (record_locked-frame (is_success o) b).0 v.sound)
          (record_locked-IsRing (is_success o) b v.ring) (recorded-Inv (is_success o) b v))
]

complete_half_open-Inv :
    (now : ℕ) (o : Outcome) (b : Breaker)
    → b.state ≡ state_half_open
    → Inv b
    → Inv (complete_half_open now o b).0
unfolding complete_half_open transition_locked
complete_half_open-Inv now o b e v = ground (arith, should_trip-nil b.options)

pub complete-Inv :
    (s : State) (g now : ℕ) (o : Outcome) (b : Breaker) → Inv b → Inv (complete s g now o b).0
unfolding complete complete_in
complete-Inv s g now o b v =
    ground (arith, complete_half_open-Inv now o b, complete_closed-Inv now o b v)

pub done-Inv : (p : Permit) (now : ℕ) (o : Outcome) (b : Breaker) → Inv b → Inv (done p now o b).1
unfolding done
done-Inv p now o b v = ground (arith, complete-Inv p.state p.generation now o b v)
