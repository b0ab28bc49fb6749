-- ===== src/Orchestrator/Dag/Build.antt =====
-- What `newDAGScheduler` (orchestrator/dag.go) returns, on both of its paths.
use native.Mathlib.Decide.{dec_lt}
use agent_orchestrator_go.Base.{
  ℕ, ◌≤◌, ◌<◌, ◌≡◌, refl, sym, ◌∙◌, ap, pos, true, List, [], ◌∷◌, some, arith, ◌==◌, if◌then◌else◌,
  length, occurrences, length-map, ok, ok-injective, ok_ne_err, Result-cases, Bool-cases, inl, inr,
  txt, subst, occurrences-bounded,
}
use agent_orchestrator_go.Planner.Plan.{PlanStep}
use agent_orchestrator_go.Orchestrator.Dag.{
  Children, DagNode, DagScheduler, degrees_of, zero_indices, build_dag, no_children, index_steps,
  link_steps, count_reachable, reaches_all, Index, find_id,
}
use agent_orchestrator_go.Orchestrator.Dag.Degrees.{pending, IsBounded, Holds}
use agent_orchestrator_go.Orchestrator.Dag.Kahn.{
  IsTopological, IsRanking, Visiting, kahn_lem, visited_all, visited_ranked,
}
use agent_orchestrator_go.Orchestrator.Dag.Links.{Built, link_steps-Built, index_steps-IndexBelow}
use agent_orchestrator_go.Orchestrator.Dag.Invariant.{
  IsScheduler, occurrences-zero_indices, zero_indices_bounded,
}

-- The place of a node in a list of nodes, the latest first.
rank_in : List ℕ → ℕ → ℕ
rank_in [] y = 0
rank_in (x ∷ earlier) y = if y == x then length earlier else rank_in earlier y

rank_in-lt : (v : List ℕ) (p : ℕ) → 0 < occurrences p v → rank_in v p < length v
unfolding rank_in
rank_in-lt [] p h = elim h [ ]
rank_in-lt (x ∷ earlier) p h = ground (arith, rank_in-lt earlier p)

rank_in-ranking :
    (n : ℕ) (children : Children) (v : List ℕ)
    → IsTopological n children v
    → ((x : ℕ) → occurrences x v ≤ 1)
    → (p c : ℕ) → p < n
    → 0 < occurrences c v
    → 0 < occurrences c (children p)
    → (rank_in v p < rank_in v c) × (0 < occurrences p v)
unfolding rank_in
rank_in-ranking n children [] t once p c plt cin edge = elim cin [ ]
rank_in-ranking n children (x ∷ earlier) t once p c plt cin edge = ground (
  arith,
  t.0 p plt,
  rank_in-lt earlier p,
  once p,
  once c,
  rank_in-ranking n children earlier t.1 (λ y. ground (arith, once y)) p c plt,
)

module _ (nodes : List DagNode) (children : Children)
    (holds : Holds (length nodes) (pending (length nodes) children []) (degrees_of nodes)) where
  Visiting-start : Visiting (length nodes) children [] (zero_indices 0 (degrees_of nodes))
  Visiting-start = record {
    counted = λ x lt. ground (arith, occurrences-zero_indices 0 x (degrees_of nodes), holds x lt);
    visited_bounded = tt;
    queue_bounded =
        zero_indices_bounded 0 (length nodes) (degrees_of nodes)
          (omega (arith, length-map nodes (λ n. n.in_degree)));
    ordered = tt;
  }

  -- The cycle detection ends within its fuel, and has visited each node at most once.
  pub count_reachable_lem :
      IsBounded (length nodes) children
      → (visited : List ℕ) × (count_reachable nodes children ≡ some (length visited))
        × Visiting (length nodes) children visited []
  unfolding count_reachable
  count_reachable_lem bounded =
      kahn_lem (length nodes) children (length nodes) [] (zero_indices 0 (degrees_of nodes))
        (degrees_of nodes) bounded Visiting-start holds (omega arith)

  pub IsScheduler-of_reachable :
      IsBounded (length nodes) children
      → reaches_all (count_reachable nodes children) (length nodes) ≡ true
      → IsScheduler (record { nodes = nodes; children = children }) []
  IsScheduler-of_reachable bounded reached =
      let (visited, counted, v) = count_reachable_lem bounded in
      let full : length visited ≡ length nodes = ground (arith, reached, counted) in
      let once = visited_all (length nodes) children visited v full in
      record {
        bounded = bounded;
        degrees = λ x lt. ground (arith, holds x lt);
        closed_free = λ x h. absurd (omega arith);
        closed_once = λ x. omega arith;
        closed_bounded = tt;
        rank = rank_in visited;
        ranking = λ p c plt clt edge.
            (rank_in-ranking (length nodes) children visited v.ordered
              (λ x. elim (dec_lt x (length nodes)) [
                | yes lt ↦ omega (arith, once x lt)
                | no ge ↦
                    omega (arith, occurrences-bounded (length nodes) visited x v.visited_bounded)
              ])
              p c plt (omega (arith, once c clt)) edge).0;
      }

  -- With a ranking the cycle detection reaches every node.
  pub reaches_all_of_ranking :
      (rank : ℕ → ℕ)
      → IsBounded (length nodes) children
      → IsRanking (length nodes) children rank
      → reaches_all (count_reachable nodes children) (length nodes) ≡ true
  reaches_all_of_ranking rank bounded ranking =
      let (visited, counted, v) = count_reachable_lem bounded in
      ground (arith, counted, visited_ranked (length nodes) children rank ranking visited v)

-- What `build_dag` has computed where it succeeds.
pub record Parts (steps : List PlanStep) (d : DagScheduler) : Type 0 where
  pub ids : Index
  pub indexed : index_steps 0 steps [] ≡ ok ids
  pub linked : link_steps ids 0 steps no_children ≡ ok (d.nodes, d.children)
  pub reached : reaches_all (count_reachable d.nodes d.children) (length d.nodes) ≡ true

pub build_dag-Parts :
    (steps : List PlanStep) (d : DagScheduler) → build_dag steps ≡ ok d → Parts steps d
unfolding build_dag
build_dag-Parts steps d e = elim (Result-cases (index_steps 0 steps [])) [
  | inl (ids, e₁) ↦ elim (Result-cases (link_steps ids 0 steps no_children)) [
    | inl ((nodes, children), e₂) ↦
        elim (Bool-cases (reaches_all (count_reachable nodes children) (length nodes))) [
          | inl yes_all ↦
              subst (Parts steps)
                (ok-injective {a = record { nodes = nodes; children = children }} {b = d}
                  (ground (arith, e, e₁, e₂, yes_all)))
                (record { ids = ids; indexed = e₁; linked = e₂; reached = yes_all })
          | inr cyclic ↦
              ok_ne_err {a = d} {e = txt "plan contains a dependency cycle"}
                (ground (arith, e, e₁, e₂, cyclic))
        ]
    | inr (x, e₂) ↦ ok_ne_err {a = d} {e = x} (ground (arith, e, e₁, e₂))
  ]
  | inr (x, e₁) ↦ ok_ne_err {a = d} {e = x} (ground (arith, e, e₁))
]

-- What the loops over the steps build, also where the cycle detection refuses it.
pub links-Built :
    (steps : List PlanStep) (ids : Index) (after : List DagNode × Children)
    → index_steps 0 steps [] ≡ ok ids
    → link_steps ids 0 steps no_children ≡ ok after
    → Built (length steps) ids 0 steps no_children after
unfolding find_id
links-Built steps ids after indexed linked =
    link_steps-Built (length steps) ids 0 steps no_children after
      (index_steps-IndexBelow (length steps) 0 steps [] ids (omega arith) (λ k i found. cc) indexed)
      (omega arith) (λ p. tt) (λ c p le. refl) linked

pub Parts-Built :
    (steps : List PlanStep) (d : DagScheduler) (parts : Parts steps d)
    → Built (length steps) parts.ids 0 steps no_children (d.nodes, d.children)
Parts-Built steps d parts =
    links-Built steps parts.ids (d.nodes, d.children) parts.indexed parts.linked

-- The built scheduler before any step is done, and the edges of its steps.
pub build_dag-IsScheduler :
    (steps : List PlanStep) (d : DagScheduler)
    → build_dag steps ≡ ok d
    → IsScheduler d [] × (length d.nodes ≡ length steps)
build_dag-IsScheduler steps d e =
    let parts = build_dag-Parts steps d e in
    let b = Parts-Built steps d parts in
    (
      IsScheduler-of_reachable d.nodes d.children
          (subst (λ n. Holds n (pending n d.children []) (degrees_of d.nodes)) (sym b.nodes_length)
            (λ j lt.
              b.degrees j lt
              ∙ ap (λ x. some (pos (pending (length steps) d.children [] x))) (omega arith)))
          (subst (λ n. IsBounded n d.children) (sym b.nodes_length) b.bounded) parts.reached,
      b.nodes_length,
    )
