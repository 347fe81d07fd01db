-- ===== src/Semaphore.antt =====
-- The channel semaphore of a provider (internal/concurrency/semaphore.go).
-- The buffered channel is its length and capacity. `Acquire` is a `select`: which of its ready cases
-- runs is a choice of the scheduler, an argument here, and a case that is not ready makes the call
-- wait (`none`).
pub mod Permits
use model_gate.Prelude.{
  ℕ, ◌+◌, ◌-◌, Bool, true, false, Option, none, some, ltb, leb, if◌then◌else◌, ℤ, pos, pos_part,
  leb_ℤ,
}
use model_gate.Errors.{Error, message, Result, ok, err}

pub record Semaphore : Type 0 where
  pub in_flight : ℕ
  pub capacity : ℕ

-- `used` is the state of the permit's `sync.Once`.
pub record Permit : Type 0 where
  pub used : Bool

pub data Choice : Type 0 where
  -- `s.slots <- struct{}{}`
  takes_slot : Choice
  -- `<-ctx.Done()`, with the ctx.Err() that follows it
  sees_done : Error → Choice

unfoldable pub new : ℤ → Result Semaphore
new max_concurrent =
    if leb_ℤ max_concurrent (pos 0)
    then err (message "max concurrent requests must be positive")
    else ok (record { in_flight = 0; capacity = pos_part max_concurrent })

unfoldable pub acquire : Choice → Semaphore → Option (Result Permit × Semaphore)
acquire takes_slot s =
    if ltb s.in_flight s.capacity
    then some (ok (record { used = false }), record s { in_flight = s.in_flight + 1 })
    else none
acquire (sees_done e) s = some (err e, s)

-- Release, at a permit that is not nil. `none`: the receive waits at an empty channel.
unfoldable pub release : Permit → Semaphore → Option (Permit × Semaphore)
release p s =
    if p.used
    then some (p, s)
    else if ltb 0 s.in_flight
    then some (record p { used = true }, record s { in_flight = s.in_flight - 1 })
    else none
