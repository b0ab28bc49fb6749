-- ===== src/Orchestrator/Dag/Batch.antt =====
-- One round of the loop of `Execute` (orchestrator/engine.go) on the scheduler: the steps that
-- were ready are marked done, one after the other.
use native.Mathlib.Decide.{dec_lt}
use agent_orchestrator_go.Base.{
  ℕ, ◌+◌, ◌≤◌, ◌<◌, ◌≡◌, refl, ◌∙◌, ap, List, [], ◌∷◌, ◌++◌, arith, length, occurrences, is_zero-le,
  occurrences-bounded, All-occurrences,
}
use agent_orchestrator_go.Orchestrator.Dag.{DagScheduler, mark_done, ready_steps}
use agent_orchestrator_go.Orchestrator.Dag.Degrees.{pending, pending-cons}
use agent_orchestrator_go.Orchestrator.Dag.Invariant.{
  IsScheduler, ready_iff, ready-free, ready_steps-bounded, mark_free-IsScheduler, length-mark_done,
  children-mark_done,
}

-- `for _, r := range results { dag.MarkDone(r.idx) }`
unfoldable pub mark_all : List ℕ → DagScheduler → DagScheduler
mark_all [] d = d
mark_all (x ∷ xs) d = mark_all xs (mark_done x d)

-- The steps marked done, the latest first.
abbrev pub closed_after : List ℕ → List ℕ → List ℕ
closed_after [] closed = closed
closed_after (x ∷ xs) closed = closed_after xs (x ∷ closed)

pub length-closed_after :
    (xs closed : List ℕ) → length (closed_after xs closed) ≡ length xs + length closed
length-closed_after [] closed = omega arith
length-closed_after (x ∷ xs) closed = omega (arith, length-closed_after xs (x ∷ closed))

-- Each of the steps is free to be marked.
abbrev AllFree : DagScheduler → List ℕ → List ℕ → Type 0
AllFree d closed xs =
    (x : ℕ)
    → 0 < occurrences x xs
    → (x < length d.nodes)
      × (occurrences x closed ≡ 0)
      × (pending (length d.nodes) d.children closed x ≡ 0)

AllFree-mark_done :
    (d : DagScheduler) (closed : List ℕ) (x : ℕ) (xs : List ℕ)
    → ((y : ℕ) → occurrences y (x ∷ xs) ≤ 1)
    → AllFree d closed (x ∷ xs)
    → AllFree (mark_done x d) (x ∷ closed) xs
AllFree-mark_done d closed x xs once free y mem =
    let (ylt, ynew, yfree) = free y (omega arith) in
    let (xlt, xnew, xfree) = free x (ground arith) in
    (
      omega (arith, length-mark_done x d),
      ground (arith, once y),
      ap (λ n. pending n (mark_done x d).children (x ∷ closed) y) (length-mark_done x d)
          ∙ ap (λ ch. pending (length d.nodes) ch (x ∷ closed) y) (children-mark_done x d)
          ∙ omega (arith, pending-cons (length d.nodes) d.children closed x y xlt xnew),
    )

mark_all_free :
    (xs : List ℕ) (d : DagScheduler) (closed : List ℕ)
    → IsScheduler d closed
    → ((y : ℕ) → occurrences y xs ≤ 1)
    → AllFree d closed xs
    → IsScheduler (mark_all xs d) (closed_after xs closed)
unfolding mark_all
mark_all_free [] d closed s once free = s
mark_all_free (x ∷ xs) d closed s once free =
    let (xlt, xnew, xfree) = free x (ground arith) in
    mark_all_free xs (mark_done x d) (x ∷ closed)
      (mark_free-IsScheduler d closed s x xlt xnew xfree) (λ y. ground (arith, once y))
      (AllFree-mark_done d closed x xs once free)

module _ (d : DagScheduler) (closed : List ℕ) (s : IsScheduler d closed) where
  -- A step is at most once among the ready steps.
  ready_once : (x : ℕ) → occurrences x (ready_steps d) ≤ 1
  ready_once x = elim (dec_lt x (length d.nodes)) [
    | yes lt ↦ ground (
      arith,
      ready_iff d closed s x lt,
      is_zero-le (pending (length d.nodes) d.children closed x),
    )
    | no ge ↦ omega (
      arith,
      occurrences-bounded (length d.nodes) (ready_steps d) x (ready_steps-bounded d closed s),
    )
  ]

  ready-AllFree : AllFree d closed (ready_steps d)
  ready-AllFree x mem =
      let lt =
        All-occurrences (λ y. y < length d.nodes) (ready_steps d) x (ready_steps-bounded d closed s)
          mem in
      let (new, free) = ready-free d closed s x lt mem in (lt, new, free)

  -- Marking all the ready steps of a scheduler done keeps its invariant, these steps being among
  -- those that are done.
  pub mark_ready-IsScheduler :
      IsScheduler (mark_all (ready_steps d) d) (closed_after (ready_steps d) closed)
  mark_ready-IsScheduler = mark_all_free (ready_steps d) d closed s ready_once ready-AllFree

pub length-mark_all :
    (xs : List ℕ) (d : DagScheduler) → length (mark_all xs d).nodes ≡ length d.nodes
unfolding mark_all
length-mark_all [] d = refl
length-mark_all (x ∷ xs) d = length-mark_all xs (mark_done x d) ∙ length-mark_done x d

pub mark_all-append :
    (xs ys : List ℕ) (d : DagScheduler) → mark_all ys (mark_all xs d) ≡ mark_all (xs ++ ys) d
unfolding mark_all
mark_all-append [] ys d = refl
mark_all-append (x ∷ xs) ys d = mark_all-append xs ys (mark_done x d)
