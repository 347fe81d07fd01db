-- ===== src/Retry/Backoff.antt =====
-- The delay before a retry: exponential, and capped (`backoff` in internal/retry/retry.go).
use native.Mathlib.Nat.{pow-suc}
use model_gate.Prelude.{
  ℕ, zero, suc, ◌+◌, ◌-◌, ◌*◌, ◌/◌, ◌^◌, ◌≤◌, ◌<◌, ◌≡◌, ◌⊎◌, inl, inr, refl, arith, leb, Bool-cases,
  leb→le, leb→gt,
}
use model_gate.Errors.{ok}
use model_gate.Retry.{Options, Policy, new, backoff_loop, backoff}

-- Either the cap, which the exact power then misses by one at most, or the exact power.
abbrev pub IsDelay : ℕ → ℕ → ℕ → Type 0
IsDelay top exact d = ((d ≡ top) × (top ≤ exact + 1)) ⊎ ((d ≡ exact) × (exact ≤ top))

double : (r d : ℕ) → d * 2 * 2 ^ r ≡ d * 2 ^ suc r
double r d = rw (pow-suc 2 r) (grind arith)

power_pos : (r : ℕ) → 1 ≤ 2 ^ r
power_pos zero = omega arith
power_pos (suc r) = rw (pow-suc 2 r) (omega (arith, power_pos r))

power_grows : (r d : ℕ) → d ≤ d * 2 ^ r
power_grows r d = grind (arith, power_pos r)

backoff_loop-IsDelay : (r d top : ℕ) → d ≤ top → IsDelay top (d * 2 ^ r) (backoff_loop r d top)
unfolding backoff_loop
backoff_loop-IsDelay zero d top h = ground arith
backoff_loop-IsDelay (suc r) d top h = elim (Bool-cases (leb (top / 2) d)) [
  | inl big ↦
      rw (big, backoff_loop)
        (inl (refl, omega (arith, leb→le _ _ big, double r d, power_grows r (d * 2))))
  | inr low ↦
      rw (low, ← double r d) (backoff_loop-IsDelay r (d * 2) top (omega (arith, leb→gt _ _ low)))
]

module _ (p : Policy) (base_pos : 0 < p.base_backoff)
    (ordered : p.base_backoff ≤ p.max_backoff) where
  backoff-IsDelay : (n : ℕ) → IsDelay p.max_backoff (p.base_backoff * 2 ^ n) (backoff p (suc n))
  unfolding backoff
  backoff-IsDelay n =
      let e : suc n - 1 ≡ n = omega arith in
      rw e (backoff_loop-IsDelay n p.base_backoff p.max_backoff ordered)

  backoff_grows : (n : ℕ) → backoff p (suc n) ≤ backoff p (suc (suc n))
  backoff_grows n = omega (
    arith,
    backoff-IsDelay n,
    backoff-IsDelay (suc n),
    pow-suc 2 n,
    double n p.base_backoff,
    double_out n p.base_backoff,
    power_grows n p.base_backoff,
  )
    where
      double_out : (r d : ℕ) → d * 2 * 2 ^ r ≡ 2 * (d * 2 ^ r)
      double_out r d = grind arith

new-ordered :
    (o : Options) {p : Policy}
    → new o ≡ ok p
    → (0 < p.base_backoff) × (p.base_backoff ≤ p.max_backoff)
unfolding new
new-ordered o e = ground arith

-- Under a policy that `New` accepts, the delay after the n-th failed attempt, for n from 1 on, is
-- `BaseBackoff * 2^(n-1)`, or `MaxBackoff` where that power is at least `MaxBackoff - 1`. It is
-- positive, it never passes `MaxBackoff`, and it never falls from one attempt to the next.
pub backoff_exponential :
    (o : Options) {p : Policy} (n : ℕ)
    → new o ≡ ok p
    → IsDelay p.max_backoff (p.base_backoff * 2 ^ n) (backoff p (suc n))
      × (0 < backoff p (suc n))
      × (backoff p (suc n) ≤ p.max_backoff)
      × (backoff p (suc n) ≤ backoff p (suc (suc n)))
backoff_exponential o {p} n e =
    let (base_pos, ordered) = new-ordered o e in
    let d = backoff-IsDelay p base_pos ordered n in
    (
      d,
      omega (arith, power_grows n p.base_backoff),
      omega arith,
      backoff_grows p base_pos ordered n,
    )
