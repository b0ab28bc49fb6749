-- ===== src/Base/Sums.antt =====
-- Occurrences in a list of numbers, and sums over the numbers below a bound.
use Prim.Native.Nat.{ℕ, zero, suc, ◌+◌, ◌≤◌, ◌<◌}
use mathlib.Core.Path.{◌≡◌, refl}
use mathlib.Core.Logic.{◌≢◌}
use mathlib.Core.List.{List, [], ◌∷◌, ◌++◌}
use native.Mathlib.Decide.{ℕ_discrete}
use native.Mathlib.Omega.{arith}
use agent_orchestrator_go.Base.Tests.{◌==◌, if◌then◌else◌}
use agent_orchestrator_go.Base.Lists.{length, All}

abbrev pub is_zero : ℕ → ℕ
is_zero zero = 1
is_zero (suc _) = 0

pub is_zero-le : (k : ℕ) → is_zero k ≤ 1
is_zero-le zero = omega arith
is_zero-le (suc k) = omega arith

-- How often a number stands in a list.
abbrev pub occurrences : ℕ → List ℕ → ℕ
occurrences x [] = 0
occurrences x (y ∷ ys) = (if x == y then 1 else 0) + occurrences x ys

pub occurrences-append :
    (x : ℕ) (xs ys : List ℕ) → occurrences x (xs ++ ys) ≡ occurrences x xs + occurrences x ys
occurrences-append x [] ys = omega arith
occurrences-append x (y ∷ xs) ys = omega (arith, occurrences-append x xs ys)

pub sum_below : ℕ → (ℕ → ℕ) → ℕ
sum_below zero f = 0
sum_below (suc n) f = f n + sum_below n f

-- Two summands that agree below the bound.
pub sum_below-ext :
    (n : ℕ) (f g : ℕ → ℕ) → ((x : ℕ) → x < n → f x ≡ g x) → sum_below n f ≡ sum_below n g
unfolding sum_below
sum_below-ext zero f g h = refl
sum_below-ext (suc n) f g h =
    omega (arith, h n (omega arith), sum_below-ext n f g (λ x lt. h x (omega arith)))

pub sum_below-add :
    (n : ℕ) (f g : ℕ → ℕ) → sum_below n (λ x. f x + g x) ≡ sum_below n f + sum_below n g
unfolding sum_below
sum_below-add zero f g = omega arith
sum_below-add (suc n) f g = omega (arith, sum_below-add n f g)

pub sum_below_zero : (n : ℕ) → sum_below n (λ _. 0) ≡ 0
unfolding sum_below
sum_below_zero zero = refl
sum_below_zero (suc n) = omega (arith, sum_below_zero n)

pub sum_below_indicator : (n y : ℕ) → y < n → sum_below n (λ x. if x == y then 1 else 0) ≡ 1
unfolding sum_below
sum_below_indicator zero y h = elim h [ ]
sum_below_indicator (suc n) y h = elim (ℕ_discrete n y) [
  | yes e ↦ ground (
    arith,
    sum_below-ext n (λ x. if x == y then 1 else 0) (λ _. 0) (λ x lt. ground arith),
    sum_below_zero n,
  )
  | no ne ↦ ground (arith, sum_below_indicator n y (omega arith))
]

-- A list of numbers below `n` has as many elements as its occurrences add up to.
pub sum_below-occurrences :
    (n : ℕ) (xs : List ℕ) → All (λ y. y < n) xs → sum_below n (λ x. occurrences x xs) ≡ length xs
sum_below-occurrences n [] h = sum_below_zero n
sum_below-occurrences n (y ∷ ys) h = omega (
  arith,
  sum_below-add n (λ x. if x == y then 1 else 0) (λ x. occurrences x ys),
  sum_below_indicator n y h.0,
  sum_below-occurrences n ys h.1,
)

pub sum_below-le : (n : ℕ) (f : ℕ → ℕ) → ((x : ℕ) → x < n → f x ≤ 1) → sum_below n f ≤ n
unfolding sum_below
sum_below-le zero f h = omega arith
sum_below-le (suc n) f h =
    omega (arith, h n (omega arith), sum_below-le n f (λ x lt. h x (omega arith)))

-- Summands of at most one that add up to the bound are all one.
pub sum_below_full :
    (n : ℕ) (f : ℕ → ℕ)
    → ((x : ℕ) → x < n → f x ≤ 1)
    → n ≤ sum_below n f
    → (x : ℕ) → x < n
    → f x ≡ 1
unfolding sum_below
sum_below_full zero f h full x lt = elim lt [ ]
sum_below_full (suc n) f h full x lt =
    let le = sum_below-le n f (λ y l. h y (omega arith)) in
    let top = h n (omega arith) in
    elim (ℕ_discrete x n) [
      | yes e ↦ ground arith
      | no ne ↦ sum_below_full n f (λ y l. h y (omega arith)) (omega arith) x (omega arith)
    ]

-- A sum is zero exactly when each summand is.
pub sum_below-eq-zero : (n : ℕ) (f : ℕ → ℕ) → ((x : ℕ) → x < n → f x ≡ 0) → sum_below n f ≡ 0
unfolding sum_below
sum_below-eq-zero zero f h = refl
sum_below-eq-zero (suc n) f h =
    omega (arith, h n (omega arith), sum_below-eq-zero n f (λ x lt. h x (omega arith)))

pub summand-le-sum_below : (n : ℕ) (f : ℕ → ℕ) (x : ℕ) → x < n → f x ≤ sum_below n f
unfolding sum_below
summand-le-sum_below zero f x h = elim h [ ]
summand-le-sum_below (suc n) f x h = elim (ℕ_discrete x n) [
  | yes e ↦ ground arith
  | no ne ↦ omega (arith, summand-le-sum_below n f x (omega arith))
]

-- Two sums whose summands differ at one place only.
pub sum_below_change :
    (n : ℕ) (f g : ℕ → ℕ) (y : ℕ)
    → y < n
    → ((x : ℕ) → x ≢ y → f x ≡ g x)
    → sum_below n f + g y ≡ sum_below n g + f y
unfolding sum_below
sum_below_change zero f g y h same = elim h [ ]
sum_below_change (suc n) f g y h same = elim (ℕ_discrete n y) [
  | yes e ↦ let rest = sum_below-ext n f g (λ x lt. same x (omega arith)) in ground arith
  | no ne ↦ omega (arith, same n ne, sum_below_change n f g y (omega arith) same)
]

pub sum_below_one : (n : ℕ) → sum_below n (λ _. 1) ≡ n
unfolding sum_below
sum_below_one zero = refl
sum_below_one (suc n) = omega (arith, sum_below_one n)

-- A number beyond the bound of a list does not stand in it.
pub occurrences-bounded :
    (n : ℕ) (xs : List ℕ) (x : ℕ) → All (λ y. y < n) xs → n ≤ x → occurrences x xs ≡ 0
occurrences-bounded n [] x h le = refl
occurrences-bounded n (y ∷ ys) x h le = ground (arith, occurrences-bounded n ys x)

pub All-occurrences {κ} :
    (P : ℕ → Type κ) (xs : List ℕ) (x : ℕ) → All P xs → 0 < occurrences x xs → P x
All-occurrences P [] x h mem = absurd (omega arith)
All-occurrences P (y ∷ ys) x h mem = elim (ℕ_discrete x y) [
  | yes e ↦ rw e h.0
  | no ne ↦ All-occurrences P ys x h.1 (ground arith)
]

pub sum_below_le :
    (n : ℕ) (f g : ℕ → ℕ) → ((x : ℕ) → x < n → f x ≤ g x) → sum_below n f ≤ sum_below n g
unfolding sum_below
sum_below_le zero f g h = omega arith
sum_below_le (suc n) f g h =
    omega (arith, h n (omega arith), sum_below_le n f g (λ x lt. h x (omega arith)))
