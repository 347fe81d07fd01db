-- ===== src/Breaker/Window.antt =====
-- The ring buffer of outcomes against the sliding window that it stands for
-- (`recordLocked` in internal/circuitbreaker/breaker.go).
use model_gate.Prelude.{
  ℕ, zero, suc, ◌+◌, ◌-◌, ◌%◌, ◌≤◌, ◌<◌, Bool, not, List, [], ◌∷◌, ◌++◌, ◌≡◌, refl, sym, ap, ◌∙◌,
  ◌⊎◌, inl, inr, arith, ltb, if◌then◌else◌, length, set, take, drop, count, one_if, length-append,
  length-set, count-append, take-length, drop-length, append-nil, append_assoc,
}
use model_gate.Breaker.{Breaker, entry, record_locked}

-- The outcomes, oldest first: the ring read from `next` round to `next`.
abbrev rotate {ℓ} : {A : Type ℓ} → ℕ → List A → List A
rotate n xs = drop n xs ++ take n xs

pub recent : Breaker → List Bool
recent b = rotate b.next b.outcomes

-- What the window promises: a new outcome goes to the end, and past `size` the oldest one is lost.
pub push_window : ℕ → Bool → List Bool → List Bool
push_window size x xs = (if ltb (length xs) size then xs else drop 1 xs) ++ x ∷ []

-- What the ring owes to its size.
pub record IsRing (b : Breaker) : Type 0 where
  pub sized : 0 < b.window_size
  pub fits : length b.outcomes ≤ b.window_size
  pub next_low : b.next < b.window_size
  pub next_unused : length b.outcomes < b.window_size → b.next ≡ 0
  pub counted : b.failures ≡ count not b.outcomes

module _ {ℓ} {A : Type ℓ} where
  drop-set : (n : ℕ) (xs : List A) (v : A) → drop (suc n) (set xs n v) ≡ drop (suc n) xs
  drop-set n [] v = refl
  drop-set zero (x ∷ xs) v = refl
  drop-set (suc n) (x ∷ xs) v = drop-set n xs v

  take-set :
      (n : ℕ) (xs : List A) (v : A)
      → n < length xs
      → take (suc n) (set xs n v) ≡ take n xs ++ v ∷ []
  take-set n [] v h = absurd (omega arith)
  take-set zero (x ∷ xs) v h = refl
  take-set (suc n) (x ∷ xs) v h = ap (◌∷◌ x) (take-set n xs v (omega arith))

  drop-drop :
      (n : ℕ) (xs ys : List A) → n < length xs → drop 1 (drop n xs ++ ys) ≡ drop (suc n) xs ++ ys
  drop-drop n [] ys h = absurd (omega arith)
  drop-drop zero (x ∷ xs) ys h = refl
  drop-drop (suc n) (x ∷ xs) ys h = drop-drop n xs ys (omega arith)

  rotate-set :
      (n : ℕ) (xs : List A) (v : A)
      → n < length xs
      → rotate (suc n) (set xs n v) ≡ drop 1 (rotate n xs) ++ v ∷ []
  rotate-set n xs v h =
      rw (drop-set n xs v, take-set n xs v h, drop-drop n xs (take n xs) h)
        (sym (append_assoc (drop (suc n) xs) (take n xs) (v ∷ [])))

  rotate-length : (xs : List A) → rotate (length xs) xs ≡ rotate 0 xs
  rotate-length xs = simp (drop-length, take-length, append-nil)

  rotate-perm_length : (n : ℕ) (xs : List A) → length (rotate n xs) ≡ length xs
  rotate-perm_length zero xs = simp append-nil
  rotate-perm_length (suc n) [] = refl
  rotate-perm_length (suc n) (x ∷ xs) = omega (
    arith,
    length-append (drop n xs) (x ∷ take n xs),
    length-append (drop n xs) (take n xs),
    rotate-perm_length n xs,
  )

  count-rotate : (p : A → Bool) (n : ℕ) (xs : List A) → count p (rotate n xs) ≡ count p xs
  count-rotate p zero xs = simp append-nil
  count-rotate p (suc n) [] = refl
  count-rotate p (suc n) (x ∷ xs) = omega (
    arith,
    count-append p (drop n xs) (x ∷ take n xs),
    count-append p (drop n xs) (take n xs),
    count-rotate p n xs,
  )

count-set :
    (xs : List Bool) (n : ℕ) (v : Bool)
    → n < length xs
    → count not (set xs n v) + one_if (not (entry xs n)) ≡ count not xs + one_if (not v)
count-set [] n v h = absurd (omega arith)
count-set (x ∷ xs) zero v h = omega arith
count-set (x ∷ xs) (suc n) v h = omega (arith, count-set xs n v)

count-entry : (xs : List Bool) (n : ℕ) → one_if (not (entry xs n)) ≤ count not xs
count-entry [] n = omega arith
count-entry (x ∷ xs) zero = omega arith
count-entry (x ∷ xs) (suc n) = omega (arith, count-entry xs n)

le_or_lt : (a b : ℕ) → (a < b) ⊎ (b ≤ a)
le_or_lt a b = grind arith

-- The two branches of `recordLocked`.
grow : Bool → Breaker → Breaker
grow x b = record b {
  outcomes = b.outcomes ++ x ∷ [];
  failures = if x then b.failures else b.failures + 1;
}

overwrite : Bool → Breaker → Breaker
overwrite x b =
    let evicted = if entry b.outcomes b.next then b.failures else b.failures - 1 in
    record b {
      outcomes = set b.outcomes b.next x;
      failures = if x then evicted else evicted + 1;
      next = (b.next + 1) % b.window_size;
    }

record_grow :
    (x : Bool) (b : Breaker) → length b.outcomes < b.window_size → record_locked x b ≡ grow x b
unfolding record_locked grow
record_grow x b h = ground arith

record_overwrite :
    (x : Bool) (b : Breaker) → b.window_size ≤ length b.outcomes → record_locked x b ≡ overwrite x b
unfolding record_locked overwrite
record_overwrite x b h = ground arith

grow-IsRing :
    (x : Bool) (b : Breaker) → IsRing b → length b.outcomes < b.window_size → IsRing (grow x b)
unfolding grow
grow-IsRing x b r h =
    ground (arith, count-append not b.outcomes (x ∷ []), length-append b.outcomes (x ∷ []))

-- The counter after an outcome `e` made room for `x`, for the counts `c` before and `d` after.
recount :
    (x e : Bool) (c d : ℕ)
    → one_if (not e) ≤ c
    → d + one_if (not e) ≡ c + one_if (not x)
    → (let evicted = if e then c else c - 1 in if x then evicted else evicted + 1) ≡ d
recount x e c d h k = ground arith

overwrite-IsRing :
    (x : Bool) (b : Breaker) → IsRing b → b.window_size ≤ length b.outcomes → IsRing (overwrite x b)
unfolding overwrite
overwrite-IsRing x b r h = record {
  sized = r.sized;
  fits = omega (arith, length-set b.outcomes b.next x, r);
  next_low = omega (arith, r);
  next_unused = λ l. omega (arith, length-set b.outcomes b.next x, r);
  counted = rw r.counted (
      recount x (entry b.outcomes b.next) _ _ (count-entry b.outcomes b.next)
        (count-set b.outcomes b.next x (omega (arith, r))));
}

-- The ring keeps its shape, and its failure counter the number of failed outcomes in it.
pub record_locked-IsRing : (x : Bool) (b : Breaker) → IsRing b → IsRing (record_locked x b)
record_locked-IsRing x b r = elim (le_or_lt (length b.outcomes) b.window_size) [
  | inl h ↦ rw (record_grow x b h) (grow-IsRing x b r h)
  | inr h ↦ rw (record_overwrite x b h) (overwrite-IsRing x b r h)
]

push_room :
    (size : ℕ) (x : Bool) (xs : List Bool) → length xs < size → push_window size x xs ≡ xs ++ x ∷ []
unfolding push_window
push_room size x xs h = ground arith

push_full :
    (size : ℕ) (x : Bool) (xs : List Bool)
    → size ≤ length xs
    → push_window size x xs ≡ drop 1 xs ++ x ∷ []
unfolding push_window
push_full size x xs h = ground arith

next_start : (size n : ℕ) → suc n ≡ size → (n + 1) % size ≡ 0
next_start size n e = grind arith

rotate_wrap :
    (size n : ℕ) (xs : List Bool)
    → length xs ≡ size
    → n < size
    → rotate ((n + 1) % size) xs ≡ rotate (suc n) xs
rotate_wrap size n xs e h = elim (le_or_lt (suc n) size) [
  | inl low ↦ let same : (n + 1) % size ≡ suc n = grind arith in rw same
  | inr top ↦
      let start : (n + 1) % size ≡ 0 = next_start size n (omega arith) in
      let end : suc n ≡ length xs = omega arith in rw (start, end) (sym (rotate-length xs))
]

recent-grow :
    (x : Bool) (b : Breaker)
    → IsRing b
    → length b.outcomes < b.window_size
    → recent (grow x b) ≡ push_window b.window_size x (recent b)
unfolding recent grow
recent-grow x b r h =
    rw (r.next_unused h, append-nil (b.outcomes ++ x ∷ []), append-nil b.outcomes)
      (sym (push_room b.window_size x b.outcomes h))

recent-overwrite :
    (x : Bool) (b : Breaker)
    → IsRing b
    → b.window_size ≤ length b.outcomes
    → recent (overwrite x b) ≡ push_window b.window_size x (recent b)
unfolding recent overwrite
recent-overwrite x b r h =
    rw
      (push_full b.window_size x (rotate b.next b.outcomes)
        (omega (arith, rotate-perm_length b.next b.outcomes)))
      (wrapped ∙ rotate-set b.next b.outcomes x (omega (arith, r)))
  where
    ring : List Bool
    ring = set b.outcomes b.next x

    wrapped : rotate ((b.next + 1) % b.window_size) ring ≡ rotate (suc b.next) ring
    wrapped =
        rotate_wrap b.window_size b.next ring (omega (arith, length-set b.outcomes b.next x, r))
          r.next_low

-- `recordLocked` implements the sliding window: read from the oldest outcome on, the ring buffer
-- afterwards is the window with the new outcome pushed, and its failure counter counts the failed
-- outcomes of that window.
pub record_locked_refines :
    (x : Bool) (b : Breaker)
    → IsRing b
    → (recent (record_locked x b) ≡ push_window b.window_size x (recent b))
      × ((record_locked x b).failures ≡ count not (recent (record_locked x b)))
record_locked_refines x b r = (
  elim (le_or_lt (length b.outcomes) b.window_size) [
    | inl h ↦ rw (record_grow x b h) (recent-grow x b r h)
    | inr h ↦ rw (record_overwrite x b h) (recent-overwrite x b r h)
  ],
  unfold recent in
      (record_locked-IsRing x b r).counted
      ∙ sym (count-rotate not (record_locked x b).next (record_locked x b).outcomes),
)

pub length-recent : (b : Breaker) → length (recent b) ≡ length b.outcomes
unfolding recent
length-recent b = rotate-perm_length b.next b.outcomes
