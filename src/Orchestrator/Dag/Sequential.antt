-- ===== src/Orchestrator/Dag/Sequential.antt =====
-- The sequential fallback of `newDAGScheduler` (orchestrator/dag.go).
use agent_orchestrator_go.Base.{
  ℕ, zero, suc, ◌+◌, ◌≤◌, ◌<◌, ◌≡◌, refl, sym, ◌∙◌, ap, pos, ◌&&◌, List, [], ◌∷◌, some, arith, ltb,
  leb, ◌==◌, if◌then◌else◌, length, get_elem?, occurrences, sum_below-ext, sum_below_indicator,
  sum_below-eq-zero, subst,
}
use agent_orchestrator_go.Planner.Plan.{PlanStep}
use agent_orchestrator_go.Orchestrator.Dag.{
  Children, DagNode, degrees_of, no_children, append_child, sequential_nodes, sequential_children,
}
use agent_orchestrator_go.Orchestrator.Dag.Degrees.{pending, open_edges, IsBounded}
use agent_orchestrator_go.Orchestrator.Dag.Links.{occurrences-append_child, IsBounded-append_child}
use agent_orchestrator_go.Orchestrator.Dag.Invariant.{IsScheduler}

occurrences-sequential :
    (i : ℕ) (steps : List PlanStep) (children : Children) (c p : ℕ)
    → occurrences c (sequential_children (suc i) steps children p)
      ≡ occurrences c (children p)
        + (if (c == suc p) && (leb (suc i) c && ltb c (suc i + length steps)) then 1 else 0)
unfolding sequential_children
occurrences-sequential i [] children c p = ground arith
occurrences-sequential i (s ∷ steps) children c p = ground (
  arith,
  occurrences-sequential (suc i) steps (append_child i (suc i) children) c p,
  occurrences-append_child c i (suc i) p children,
)

IsBounded-sequential :
    (n i : ℕ) (steps : List PlanStep) (children : Children)
    → suc i + length steps ≤ n
    → IsBounded n children
    → IsBounded n (sequential_children (suc i) steps children)
unfolding sequential_children
IsBounded-sequential n i [] children le bounded = bounded
IsBounded-sequential n i (s ∷ steps) children le bounded =
    IsBounded-sequential n (suc i) steps (append_child i (suc i) children) (omega arith)
      (IsBounded-append_child n i (suc i) children (omega arith) bounded)

pub length-sequential_nodes :
    (i : ℕ) (steps : List PlanStep) → length (sequential_nodes i steps) ≡ length steps
unfolding sequential_nodes
length-sequential_nodes i [] = refl
length-sequential_nodes i (s ∷ steps) = ap suc (length-sequential_nodes (suc i) steps)

degrees-sequential_nodes :
    (i : ℕ) (steps : List PlanStep) (x : ℕ)
    → x < length steps
    → get_elem? (degrees_of (sequential_nodes i steps)) x
      ≡ some (if ltb 0 (i + x) then pos 1 else pos 0)
unfolding sequential_nodes
degrees-sequential_nodes i [] x lt = absurd (omega arith)
degrees-sequential_nodes i (s ∷ steps) zero lt = ground arith
degrees-sequential_nodes i (s ∷ steps) (suc x) lt =
    ground (arith, degrees-sequential_nodes (suc i) steps x)

chain_test :
    (c p k : ℕ)
    → 0 + (if (c == suc p) && (leb 1 c && ltb c (1 + k)) then 1 else 0)
      ≡ (if (c == suc p) && ltb c (suc k) then 1 else 0)
chain_test c p k = ground arith

module _ (s : PlanStep) (steps : List PlanStep) where
  abbrev chain : Children
  chain = sequential_children 0 (s ∷ steps) no_children

  abbrev chain_nodes : List DagNode
  chain_nodes = sequential_nodes 0 (s ∷ steps)

  occurrences-chain :
      (c p : ℕ)
      → occurrences c (chain p) ≡ (if (c == suc p) && ltb c (suc (length steps)) then 1 else 0)
  unfolding sequential_children
  occurrences-chain c p =
      occurrences-sequential 0 steps no_children c p ∙ chain_test c p (length steps)

  pending-chain :
      (c : ℕ)
      → c < suc (length steps)
      → pending (suc (length steps)) chain [] c ≡ (if ltb 0 c then 1 else 0)
  unfolding pending
  pending-chain zero lt =
      sum_below-eq-zero (suc (length steps)) (open_edges chain [] 0)
        (λ p plt. ground (arith, occurrences-chain 0 p))
  pending-chain (suc c) lt =
      sum_below-ext (suc (length steps)) (open_edges chain [] (suc c))
        (λ p. if p == c then 1 else 0) (λ p plt. ground (arith, occurrences-chain (suc c) p))
      ∙ sum_below_indicator (suc (length steps)) c (omega arith)
      ∙ ground arith

  pub sequential-IsScheduler : IsScheduler (record { nodes = chain_nodes; children = chain }) []
  sequential-IsScheduler =
      let size = length-sequential_nodes 0 (s ∷ steps) in
      record {
        bounded =
            subst (λ n. IsBounded n chain) (sym size)
              (unfold sequential_children in
                IsBounded-sequential (suc (length steps)) 0 steps no_children (omega arith)
                  (λ p. tt));
        degrees = λ x lt.
            degrees-sequential_nodes 0 (s ∷ steps) x (omega (arith, size))
            ∙ ground
                (arith, pending-chain x (omega (arith, size)), ap (λ n. pending n chain [] x) size);
        closed_free = λ x h. absurd (omega arith);
        closed_once = λ x. omega arith;
        closed_bounded = tt;
        rank = λ x. x;
        ranking = λ p c plt clt edge. ground (arith, occurrences-chain c p);
      }
