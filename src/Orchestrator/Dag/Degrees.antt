-- ===== src/Orchestrator/Dag/Degrees.antt =====
-- The in-degrees that the scheduler of orchestrator/dag.go counts down: for a graph of `n` nodes
-- given by its children, and a list of the nodes that are done, the edges into a node from nodes
-- that are not done.
use agent_orchestrator_go.Base.{
  ℕ, zero, suc, ◌+◌, ◌-◌, ◌≤◌, ◌<◌, ◌≡◌, pos, decrement, List, [], ◌∷◌, ◌++◌, some, arith, ◌==◌,
  if◌then◌else◌, get_elem?, update_at, All, get_elem?-update_at, is_zero, occurrences,
  occurrences-append, sum_below, sum_below-eq-zero, sum_below_change, summand-le-sum_below, ℤ,
}
use agent_orchestrator_go.Orchestrator.Dag.{Children, degree_is_zero}

-- What the edges from `p` into `c` count while `p` is not done.
abbrev pub open_edges : Children → List ℕ → ℕ → ℕ → ℕ
open_edges children closed c p = if occurrences p closed == 0 then occurrences c (children p) else 0

-- The edges into `c` from nodes that are not done.
unfoldable pub pending : ℕ → Children → List ℕ → ℕ → ℕ
pending n children closed c = sum_below n (open_edges children closed c)

module _ (n : ℕ) (children : Children) where
  -- Every edge ends at a node.
  abbrev pub IsBounded : Type 0
  IsBounded = (p : ℕ) → All (λ c. c < n) (children p)

  pub pending-cons :
      (closed : List ℕ) (p c : ℕ)
      → p < n
      → occurrences p closed ≡ 0
      → pending n children closed c ≡ pending n children (p ∷ closed) c + occurrences c (children p)
  unfolding pending
  pending-cons closed p c lt new =
      let change =
        sum_below_change n (open_edges children closed c) (open_edges children (p ∷ closed) c) p lt
          (λ x ne. ground arith) in
      ground (arith, change)

  -- A node with nothing pending has only closed parents.
  pub parent-closed :
      (closed : List ℕ) (p c : ℕ)
      → p < n
      → pending n children closed c ≡ 0
      → 0 < occurrences c (children p)
      → 0 < occurrences p closed
  unfolding pending
  parent-closed closed p c lt none_open edge =
      ground (arith, summand-le-sum_below n (open_edges children closed c) p lt)

  pub pending-eq-zero :
      (closed : List ℕ) (c : ℕ)
      → ((p : ℕ) → p < n → 0 < occurrences c (children p) → 0 < occurrences p closed)
      → pending n children closed c ≡ 0
  unfolding pending
  pending-eq-zero closed c all_closed =
      sum_below-eq-zero n (open_edges children closed c) (λ p lt. ground (arith, all_closed p lt))

-- The slice holds these degrees.
abbrev pub Holds : ℕ → (ℕ → ℕ) → List ℤ → Type 0
Holds n degree degrees = (c : ℕ) → c < n → get_elem? degrees c ≡ some (pos (degree c))

-- One degree lowered.
abbrev pub lowered_at : ℕ → (ℕ → ℕ) → ℕ → ℕ
lowered_at c degree x = if x == c then degree x - 1 else degree x

decrement_lem : (k : ℕ) → 0 < k → decrement (pos k) ≡ pos (k - 1)
decrement_lem zero h = elim h [ ]
decrement_lem (suc k) h = ground arith

pub Holds-lowered :
    (n c : ℕ) (degree : ℕ → ℕ) (degrees : List ℤ)
    → Holds n degree degrees
    → 0 < degree c
    → Holds n (lowered_at c degree) (update_at c decrement degrees)
Holds-lowered n c degree degrees holds positive x lt =
    ground (arith, get_elem?-update_at x c decrement degrees, holds x lt, decrement_lem (degree x))

pub degree_is_zero_lem :
    (n c : ℕ) (degree : ℕ → ℕ) (degrees : List ℤ)
    → Holds n degree degrees
    → c < n
    → degree_is_zero c degrees ≡ (degree c == 0)
degree_is_zero_lem n c degree degrees holds lt = ground (arith, holds c lt)

-- After the loop over the children `cs`: the degrees, and what the queue has gained.
pub record Relaxed (n : ℕ) (degree : ℕ → ℕ) (cs queue : List ℕ) (after : List ℤ × List ℕ)
    : Type 0 where
  pub degrees_after : Holds n (λ x. degree x - occurrences x cs) after.0
  pub queue_after :
      (x : ℕ)
      → x < n
      → occurrences x after.1 + is_zero (degree x)
        ≡ occurrences x queue + is_zero (degree x - occurrences x cs)
  pub queue_bounded : All (λ x. x < n) queue → All (λ x. x < n) after.1

module _ (n c : ℕ) (cs : List ℕ) (degree : ℕ → ℕ)
    (enough : (x : ℕ) → occurrences x (c ∷ cs) ≤ degree x) where
  pub enough-lowered : (x : ℕ) → occurrences x cs ≤ lowered_at c degree x
  enough-lowered x = ground (arith, enough x)

  pub lowered-sub :
      (x : ℕ) → lowered_at c degree x - occurrences x cs ≡ degree x - occurrences x (c ∷ cs)
  lowered-sub x = ground (arith, enough x)

  pub positive_at : 0 < degree c
  positive_at = ground (arith, enough c)

  pub queue-lowered :
      (queue : List ℕ) (x : ℕ)
      → occurrences x (if lowered_at c degree c == 0 then queue ++ c ∷ [] else queue)
          + is_zero (degree x)
        ≡ occurrences x queue + is_zero (lowered_at c degree x)
  queue-lowered queue x = ground (arith, occurrences-append x queue (c ∷ []), positive_at)
