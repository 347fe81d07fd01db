-- ===== src/Routing/Fairness.antt =====
-- A whole cycle of the smooth weighted round robin (internal/routing/router.go).
use model_gate.Prelude.{
  ℕ, zero, suc, ◌+◌, ◌*◌, ◌<◌, ◌≡◌, refl, ap, ap₂, subst, ◌∙◌, arith, Bool, true, false, some, List,
  [], ◌∷◌, get_elem?, set, map, All, count, ℤ, pos, pos_part, neg_part, ◌+ℤ◌, +ℤ_parts, -ℤ_parts,
  String, str_eq, eq_refl, eq_iff,
}
use model_gate.Routing.{Target, TargetState, raise, lower}
use model_gate.Routing.Weighted.{AreBelow, eligible_weight, sum_above}

abbrev pub Differs : String → TargetState → Type 0
Differs name s = str_eq s.target.name name ≡ false

-- No two targets share a name.
abbrev pub AreDistinct : List TargetState → Type 0
AreDistinct [] = Unit
AreDistinct (s ∷ ss) = All (Differs s.target.name) ss × AreDistinct ss

abbrev pub is_named : String → Target → Bool
is_named name t = str_eq t.name name

-- After `k` selections out of a total weight `total`, each target has been chosen its share of them,
-- up to its current weight.
abbrev pub HasShare : ℕ → ℕ → List Target → TargetState → Type 0
HasShare total k chosen s =
    pos_part s.current_weight + total * count (is_named s.target.name) chosen
    ≡ k * s.weight + neg_part s.current_weight

abbrev pub IsAbove : ℕ → TargetState → Type 0
IsAbove total s = neg_part s.current_weight < total

module _ (may : Target → Bool) (all : (t : Target) → may t ≡ true) where
  raise-share :
      (total k : ℕ) (chosen : List Target) (t : Target) (s : TargetState)
      → str_eq t.name s.target.name ≡ false
      → HasShare total k chosen s
      → HasShare total (k + 1) (t ∷ chosen) (raise may s)
  unfolding raise
  raise-share total k chosen t s d h =
      ground (arith, all s.target, +ℤ_parts s.current_weight (pos s.weight))

  lower-share :
      (total k : ℕ) (chosen : List Target) (s : TargetState)
      → HasShare total k chosen s
      → HasShare total (k + 1) (s.target ∷ chosen) (lower total (raise may s))
  unfolding raise lower
  lower-share total k chosen s h = ground (
    arith,
    all s.target,
    eq_refl s.target.name,
    +ℤ_parts s.current_weight (pos s.weight),
    -ℤ_parts (s.current_weight +ℤ pos s.weight) (pos total),
  )

  raise-IsAbove : (total : ℕ) (s : TargetState) → IsAbove total s → IsAbove total (raise may s)
  unfolding raise
  raise-IsAbove total s h = ground (arith, all s.target, +ℤ_parts s.current_weight (pos s.weight))

str_ne_sym : (a b : String) → str_eq a b ≡ false → str_eq b a ≡ false
str_ne_sym a b h = ground (arith, eq_iff a b, eq_iff b a)

Differs-get :
    (name : String) (ss : List TargetState) (j : ℕ) (s : TargetState)
    → All (Differs name) ss
    → get_elem? ss j ≡ some s
    → str_eq s.target.name name ≡ false
Differs-get name [] j s a e = cc
Differs-get name (t ∷ ss) zero s a e = ground arith
Differs-get name (t ∷ ss) (suc j) s a e = Differs-get name ss j s a.1 e

module _ (may : Target → Bool) (all : (t : Target) → may t ≡ true) where
  raises-share :
      (total k : ℕ) (chosen : List Target) (t : Target) (ss : List TargetState)
      → All (Differs t.name) ss
      → All (HasShare total k chosen) ss
      → All (HasShare total (k + 1) (t ∷ chosen)) (map (raise may) ss)
  raises-share total k chosen t [] d h = tt
  raises-share total k chosen t (s ∷ ss) d h = (
    raise-share may all total k chosen t s (str_ne_sym s.target.name t.name d.0) h.0,
    raises-share total k chosen t ss d.1 h.1,
  )

  -- One selection, that of the target at `j`, keeps the shares.
  pub step-share :
      (total k : ℕ) (chosen : List Target) (ss : List TargetState) (j : ℕ) (s : TargetState)
      → get_elem? ss j ≡ some s
      → AreDistinct ss
      → All (HasShare total k chosen) ss
      → All
          (HasShare total (k + 1) (s.target ∷ chosen))
          (set (map (raise may) ss) j (lower total (raise may s)))
  step-share total k chosen [] j s e d h = cc
  step-share total k chosen (t ∷ ss) zero s e d h =
      let same : t ≡ s = ground arith in
      subst
        (λ (x : TargetState).
          All (HasShare total (k + 1) (x.target ∷ chosen))
            (lower total (raise may x) ∷ map (raise may) ss))
        same
        (lower-share may all total k chosen t h.0, raises-share total k chosen t.target ss d.0 h.1)
  step-share total k chosen (t ∷ ss) (suc j) s e d h = (
    raise-share may all total k chosen s.target t (Differs-get t.target.name ss j s d.0 e) h.0,
    step-share total k chosen ss j s e d.1 h.1,
  )

  pub raises-IsAbove :
      (total : ℕ) (ss : List TargetState)
      → All (IsAbove total) ss
      → All (IsAbove total) (map (raise may) ss)
  raises-IsAbove total [] h = tt
  raises-IsAbove total (s ∷ ss) h = (raise-IsAbove may all total s h.0, raises-IsAbove total ss h.1)

-- A topmost weight that is not positive leaves no positive weight.
pub top_nonpos :
    (may : Target → Bool) (all : (t : Target) → may t ≡ true) (c : ℤ) (ss : List TargetState)
    → AreBelow may c ss
    → pos_part c ≡ 0
    → sum_above ss ≡ 0
unfolding sum_above
top_nonpos may all c [] b z = refl
top_nonpos may all c (s ∷ ss) b z =
    ground (arith, b.0 (all s.target), top_nonpos may all c ss b.1 z)

pub set-IsAbove :
    (total : ℕ) (ss : List TargetState) (j : ℕ) (s : TargetState)
    → 0 < pos_part s.current_weight
    → All (IsAbove total) ss
    → 0 < total
    → All (IsAbove total) (set ss j (lower total s))
unfolding lower
set-IsAbove total [] j s p a w = tt
set-IsAbove total (t ∷ ss) zero s p a w =
    (ground (arith, -ℤ_parts s.current_weight (pos total)), a.1)
set-IsAbove total (t ∷ ss) (suc j) s p a w = (a.0, set-IsAbove total ss j s p a.1 w)

-- What no selection changes.
abbrev pub shape : TargetState → Target × ℕ
shape s = (s.target, s.weight)

shape-raise : (may : Target → Bool) (s : TargetState) → shape (raise may s) ≡ shape s
unfolding raise
shape-raise may s = ground arith

shape-lower : (total : ℕ) (s : TargetState) → shape (lower total s) ≡ shape s
unfolding lower
shape-lower total s = refl

shapes-raise :
    (may : Target → Bool) (ss : List TargetState) → map shape (map (raise may) ss) ≡ map shape ss
shapes-raise may [] = refl
shapes-raise may (s ∷ ss) = ap₂ (◌∷◌) (shape-raise may s) (shapes-raise may ss)

pub shape-step :
    (may : Target → Bool) (total : ℕ) (ss : List TargetState) (j : ℕ) (s : TargetState)
    → get_elem? ss j ≡ some s
    → map shape (set (map (raise may) ss) j (lower total (raise may s))) ≡ map shape ss
shape-step may total [] j s e = cc
shape-step may total (t ∷ ss) zero s e =
    let same : s ≡ t = ground arith in
    ap₂ (◌∷◌) (shape-lower total (raise may s) ∙ shape-raise may s ∙ ap shape same)
      (shapes-raise may ss)
shape-step may total (t ∷ ss) (suc j) s e =
    ap₂ (◌∷◌) (shape-raise may t) (shape-step may total ss j s e)

-- Names and weights depend on the shape only.
Differs-shape :
    (name : String) (ss ts : List TargetState)
    → map shape ss ≡ map shape ts
    → All (Differs name) ss
    → All (Differs name) ts
Differs-shape name [] [] e d = tt
Differs-shape name [] (t ∷ ts) e d = cc
Differs-shape name (s ∷ ss) [] e d = cc
Differs-shape name (s ∷ ss) (t ∷ ts) e d =
    (ground arith, Differs-shape name ss ts (ground arith) d.1)

pub AreDistinct-shape :
    (ss ts : List TargetState) → map shape ss ≡ map shape ts → AreDistinct ss → AreDistinct ts
AreDistinct-shape [] [] e d = tt
AreDistinct-shape [] (t ∷ ts) e d = cc
AreDistinct-shape (s ∷ ss) [] e d = cc
AreDistinct-shape (s ∷ ss) (t ∷ ts) e d = (
  rw name at (Differs-shape s.target.name ss ts (ground arith) d.0),
  AreDistinct-shape ss ts (ground arith) d.1,
)
  where
    name : s.target.name ≡ t.target.name
    name = ground arith

pub eligible_weight-shape :
    (may : Target → Bool) (ss ts : List TargetState)
    → map shape ss ≡ map shape ts
    → eligible_weight may ss ≡ eligible_weight may ts
unfolding eligible_weight
eligible_weight-shape may [] [] e = refl
eligible_weight-shape may [] (t ∷ ts) e = cc
eligible_weight-shape may (s ∷ ss) [] e = cc
eligible_weight-shape may (s ∷ ss) (t ∷ ts) e = ground (arith, eligible_weight-shape may ss ts)
