-- ===== src/Errors/Chain.antt =====
-- Chains of calls that may fail, for `do` blocks.
use model_gate.Prelude.{◌≡◌, refl, subst, ap, Bool, true, false}
use model_gate.Errors.{Error, Result, ok, err}

infixl 5 ◌>>=◌ ◌>>◌
unfoldable pub ◌>>=◌ {ℓ κ} : {A : Type ℓ} {B : Type κ} → Result A → (A → Result B) → Result B
ok a >>= f = f a
err e >>= f = err e

unfoldable pub ◌>>◌ {ℓ} : {B : Type ℓ} → Result (Unit {0}) → Result B → Result B
unfolding ◌>>=◌
m >> k = m >>= λ _. k

-- `if failed { return …, e }`
unfoldable pub fail_if : Bool → Error → Result (Unit {0})
fail_if false e = ok tt
fail_if true e = err e

-- Of a result that is none of the errors.
abbrev pub Ensures {ℓ} : {A : Type ℓ} → (A → Type 0) → Result A → Type 0
Ensures P (ok a) = P a
Ensures P (err e) = Unit {0}

pub Ensures-bind {ℓ κ} :
    {A : Type ℓ} {B : Type κ} (P : A → Type 0) (Q : B → Type 0) (m : Result A) (f : A → Result B)
    → Ensures P m
    → ((a : A) → P a → Ensures Q (f a))
    → Ensures Q (m >>= f)
unfolding ◌>>=◌
Ensures-bind P Q (ok a) f h k = k a h
Ensures-bind P Q (err e) f h k = tt

pub Ensures-then {ℓ} :
    {B : Type ℓ} (Q : B → Type 0) (b : Bool) (e : Error) (k : Result B)
    → (b ≡ false → Ensures Q k)
    → Ensures Q (fail_if b e >> k)
unfolding ◌>>◌ fail_if
Ensures-then Q false e k h = h refl
Ensures-then Q true e k h = tt

-- The value of a result that is none of the errors.
abbrev pub value_or : {A : Type 0} → A → Result A → A
value_or a (ok b) = b
value_or a (err e) = a

pub Ensures-ok : {A : Type 0} (P : A → Type 0) (m : Result A) {a : A} → Ensures P m → m ≡ ok a → P a
Ensures-ok P (ok b) {a} h e = subst P (ap (value_or b) e) h
Ensures-ok P (err f) h e = cc

pub Ensures-weaken {ℓ} :
    {A : Type ℓ} (P Q : A → Type 0) (m : Result A)
    → Ensures P m
    → ((a : A) → P a → Q a)
    → Ensures Q m
Ensures-weaken P Q (ok a) h k = k a h
Ensures-weaken P Q (err e) h k = tt

pub Ensures-fail_if : (b : Bool) (e : Error) → Ensures (λ _. b ≡ false) (fail_if b e)
unfolding fail_if
Ensures-fail_if false e = refl
Ensures-fail_if true e = tt

pub Ensures-seq {ℓ} :
    {B : Type ℓ} (P : Type 0) (Q : B → Type 0) (m : Result (Unit {0})) (k : Result B)
    → Ensures (λ _. P) m
    → (P → Ensures Q k)
    → Ensures Q (m >> k)
unfolding ◌>>◌ ◌>>=◌
Ensures-seq P Q (ok a) k h r = r h
Ensures-seq P Q (err e) k h r = tt
