-- ===== src/Semaphore/Permits.antt =====
-- The semaphore and the permits that it has handed out, under any interleaving of calls
-- (internal/concurrency/semaphore.go).
use model_gate.Prelude.{
  ℕ, zero, suc, ◌+◌, ◌≤◌, Bool, true, not, List, [], ◌∷◌, ◌≡◌, arith, Option, none, some, is_some,
  count, set, get_elem?, one_if, Option-cases, inl, inr, ℤ, pos_part,
}
use model_gate.Errors.{Result, ok, err}
use model_gate.Semaphore.{Semaphore, Permit, Choice, takes_slot, sees_done, new, acquire, release}

-- The newest permit first.
pub record System : Type 0 where
  pub semaphore : Semaphore
  pub permits : List Permit

pub data Call : Type 0 where
  acquires : Choice → Call
  releases : ℕ → Call

grant : Option (Result Permit × Semaphore) → System → System
grant none s = s
grant (some (ok p, t)) s = record { semaphore = t; permits = p ∷ s.permits }
grant (some (err e, t)) s = record s { semaphore = t }

give_back : ℕ → Option (Permit × Semaphore) → System → System
give_back i none s = s
give_back i (some (q, t)) s = record { semaphore = t; permits = set s.permits i q }

release_at : ℕ → Option Permit → System → System
unfolding give_back
release_at i none s = s
release_at i (some p) s = give_back i (release p s.semaphore) s

-- A call that has to wait leaves the system as it is.
unfoldable pub step : System → Call → System
unfolding grant release_at
step s (acquires c) = grant (acquire c s.semaphore) s
step s (releases i) = release_at i (get_elem? s.permits i) s

unfoldable pub run : System → List Call → System
run s [] = s
run s (c ∷ cs) = run (step s c) cs

abbrev pub start : Semaphore → System
start t = record { semaphore = t; permits = [] }

abbrev pub is_held : Permit → Bool
is_held p = not p.used

pub record IsTracked (capacity : ℕ) (s : System) : Type 0 where
  pub tracked : s.semaphore.in_flight ≡ count is_held s.permits
  pub bounded : s.semaphore.in_flight ≤ capacity
  pub sized : s.semaphore.capacity ≡ capacity

count-held_set :
    (i : ℕ) (p : Permit) (ps : List Permit)
    → get_elem? ps i ≡ some p
    → count is_held (set ps i (record { used = true })) + one_if (is_held p) ≡ count is_held ps
count-held_set i p [] e = cc
count-held_set zero p (q ∷ ps) e = ground arith
count-held_set (suc i) p (q ∷ ps) e = omega (arith, count-held_set i p ps e)

held-le-count :
    (i : ℕ) (p : Permit) (ps : List Permit)
    → get_elem? ps i ≡ some p
    → one_if (is_held p) ≤ count is_held ps
held-le-count i p ps e = omega (arith, count-held_set i p ps e)

acquires-IsTracked :
    (n : ℕ) (c : Choice) (s : System) → IsTracked n s → IsTracked n (step s (acquires c))
unfolding step acquire
acquires-IsTracked n takes_slot s t = ground arith
acquires-IsTracked n (sees_done e) s t = t

releases-IsTracked : (n i : ℕ) (s : System) → IsTracked n s → IsTracked n (step s (releases i))
unfolding step
releases-IsTracked n i s t = elim (Option-cases (get_elem? s.permits i)) [
  | inl e ↦ rw (e, release_at) t
  | inr (p, e) ↦
      rw (e, release_at) (unfold release in ground (arith, count-held_set i p s.permits e))
]

step-IsTracked : (n : ℕ) (s : System) (c : Call) → IsTracked n s → IsTracked n (step s c)
step-IsTracked n s (acquires c) t = acquires-IsTracked n c s t
step-IsTracked n s (releases i) t = releases-IsTracked n i s t

run-IsTracked : (n : ℕ) (s : System) (cs : List Call) → IsTracked n s → IsTracked n (run s cs)
unfolding run
run-IsTracked n s [] t = t
run-IsTracked n s (c ∷ cs) t = run-IsTracked n (step s c) cs (step-IsTracked n s c t)

start-IsTracked : (n : ℤ) {t : Semaphore} → new n ≡ ok t → IsTracked (pos_part n) (start t)
unfolding new
start-IsTracked n e = ground arith

release_ready :
    (n i : ℕ) (p : Permit) (s : System)
    → IsTracked n s
    → get_elem? s.permits i ≡ some p
    → is_some (release p s.semaphore) ≡ true
unfolding release
release_ready n i p s t e = ground (arith, held-le-count i p s.permits e)

-- Through any interleaving of acquisitions and releases, the number in flight is exactly the number
-- of permits not yet released, it never passes the limit that was asked for, and no `Release` of a
-- permit, first or repeated, ever has to wait.
pub in_flight_exact :
    (n : ℤ) {t : Semaphore} (cs : List Call)
    → new n ≡ ok t
    → (let s = run (start t) cs in
        (s.semaphore.in_flight ≡ count is_held s.permits)
        × (s.semaphore.in_flight ≤ pos_part n)
        × ((i : ℕ) (p : Permit)
            → get_elem? s.permits i ≡ some p
            → is_some (release p s.semaphore) ≡ true))
in_flight_exact n {t} cs e =
    let k = run-IsTracked (pos_part n) (start t) cs (start-IsTracked n e) in
    (k.tracked, k.bounded, λ i p g. release_ready (pos_part n) i p (run (start t) cs) k g)
