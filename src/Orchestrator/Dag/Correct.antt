-- ===== src/Orchestrator/Dag/Correct.antt =====
-- What `newDAGScheduler` (orchestrator/dag.go) promises for a whole plan.
use agent_orchestrator_go.Base.{
  ℕ, zero, suc, ◌+◌, ◌<◌, ◌≡◌, refl, sym, ◌∙◌, ap, List, [], ◌∷◌, some, none, arith, length,
  get_elem?, All, occurrences, ok, ok-injective, Bool-cases, inl, inr, subst, some-eq, pos, Text,
}
use agent_orchestrator_go.Planner.Plan.{PlanStep, Plan}
use agent_orchestrator_go.Orchestrator.Dag.{
  Children, DagScheduler, has_dag, build_dag, no_children, new_dag_scheduler, Index, find_id, len,
  index_steps, link_steps, degrees_of, sequential_nodes, sequential_children, DagNode,
}
use agent_orchestrator_go.Orchestrator.Dag.Degrees.{pending, IsBounded, Holds}
use agent_orchestrator_go.Orchestrator.Dag.Kahn.{IsRanking}
use agent_orchestrator_go.Orchestrator.Dag.Links.{
  HasEdges, StepsHaveEdges, IndexNames, index_steps-IndexNames, Names,
}
use agent_orchestrator_go.Orchestrator.Dag.Invariant.{IsScheduler}
use agent_orchestrator_go.Orchestrator.Dag.Build.{
  Parts, build_dag-Parts, Parts-Built, build_dag-IsScheduler, reaches_all_of_ranking, links-Built,
}
use agent_orchestrator_go.Orchestrator.Dag.Sequential.{
  sequential-IsScheduler, length-sequential_nodes,
}

empty-IsScheduler : IsScheduler (record { nodes = []; children = no_children }) []
empty-IsScheduler = record {
  bounded = λ p. tt;
  degrees = λ x lt. absurd (omega arith);
  closed_free = λ x h. absurd (omega arith);
  closed_once = λ x. omega arith;
  closed_bounded = tt;
  rank = λ x. x;
  ranking = λ p c plt clt edge. absurd (omega arith);
}

-- Either all of an accepted plan goes through the dependency graph, or the plan is a chain.
steps-IsScheduler :
    (steps : List PlanStep) (task : Text) (d : DagScheduler)
    → new_dag_scheduler (record { task_id = task; steps = steps }) ≡ ok d
    → IsScheduler d [] × (len d ≡ length steps)
unfolding new_dag_scheduler len
steps-IsScheduler [] task d e =
    subst (λ d. IsScheduler d [] × (length d.nodes ≡ 0)) (ok-injective e) (empty-IsScheduler, refl)
steps-IsScheduler (s ∷ steps) task d e = elim (Bool-cases (has_dag (s ∷ steps))) [
  | inl dag ↦ build_dag-IsScheduler (s ∷ steps) d (ground (arith, e, dag))
  | inr chain ↦
      let sequential : DagScheduler = record {
        nodes = sequential_nodes 0 (s ∷ steps);
        children = sequential_children 0 (s ∷ steps) no_children;
      } in
      subst (λ d. IsScheduler d [] × (length d.nodes ≡ suc (length steps)))
        (ok-injective {a = sequential} {b = d} (ground (arith, e, chain)))
        (sequential-IsScheduler s steps, length-sequential_nodes 0 (s ∷ steps))
]

-- A scheduler that is returned for a plan has one node for each step, in-degrees that agree with
-- its edges, and no cycle: a rank grows along every edge.
pub new_dag_scheduler-IsScheduler :
    (plan : Plan) (d : DagScheduler)
    → new_dag_scheduler plan ≡ ok d
    → IsScheduler d [] × (len d ≡ length plan.steps)
new_dag_scheduler-IsScheduler plan d e = steps-IsScheduler plan.steps plan.task_id d e

-- The steps that the texts name, with an edge into step `i` from each.
abbrev pub NamedParents : List PlanStep → Children → ℕ → List Text → Type 0
NamedParents steps children i deps =
    All
      (λ dep.
        (p : ℕ) × (t : PlanStep) × (get_elem? steps p ≡ some t)
        × (t.step_id ≡ dep)
        × (0 < occurrences i (children p)))
      deps

HasEdges-NamedParents :
    (steps : List PlanStep) (ids : Index) (children : Children) (i : ℕ) (deps : List Text)
    → IndexNames steps ids
    → HasEdges ids children i deps
    → NamedParents steps children i deps
HasEdges-NamedParents steps ids children i [] names h = tt
HasEdges-NamedParents steps ids children i (dep ∷ deps) names ((p, found, edge), h) =
    let (t, at, named) = names dep p found in
    ((p, t, at, named, edge), HasEdges-NamedParents steps ids children i deps names h)

StepsHaveEdges-get :
    (ids : Index) (children : Children) (i : ℕ) (steps : List PlanStep) (j : ℕ) (s : PlanStep)
    → StepsHaveEdges ids children i steps
    → get_elem? steps j ≡ some s
    → HasEdges ids children (i + j) s.depends_on
StepsHaveEdges-get ids children i [] j s h e = cc
StepsHaveEdges-get ids children i (t ∷ steps) zero s h e =
    subst (λ u. HasEdges ids children (i + 0) u.depends_on) (some-eq e)
      (subst (λ x. HasEdges ids children x t.depends_on) (omega arith) h.0)
StepsHaveEdges-get ids children i (t ∷ steps) (suc j) s h e =
    subst (λ x. HasEdges ids children x s.depends_on) (omega arith)
      (StepsHaveEdges-get ids children (suc i) steps j s h.1 e)

Parts-IndexNames :
    (steps : List PlanStep) (d : DagScheduler) (parts : Parts steps d) → IndexNames steps parts.ids
unfolding find_id
Parts-IndexNames steps d parts =
    index_steps-IndexNames steps 0 steps [] parts.ids (λ j. ap (get_elem? steps) (omega arith))
      (λ k j found. cc) parts.indexed

-- In a plan with dependencies, every text in a step's `DependsOn` is the id of a step of the plan,
-- and there is an edge from that step.
pub DependsOn-edges :
    (steps : List PlanStep) (d : DagScheduler) (i : ℕ) (s : PlanStep)
    → build_dag steps ≡ ok d
    → get_elem? steps i ≡ some s
    → NamedParents steps d.children i s.depends_on
DependsOn-edges steps d i s e at =
    let parts = build_dag-Parts steps d e in
    HasEdges-NamedParents steps parts.ids d.children i s.depends_on (Parts-IndexNames steps d parts)
      (subst (λ x. HasEdges parts.ids d.children x s.depends_on) (omega arith)
        (StepsHaveEdges-get parts.ids d.children 0 steps i s (Parts-Built steps d parts).edges at))

-- A rank of the ids that grows from each dependency to its step.
abbrev pub RanksDependencies : (Text → ℕ) → List PlanStep → Type 0
RanksDependencies rank steps = All (λ s. All (λ dep. rank dep < rank s.step_id) s.depends_on) steps

abbrev id_at : List PlanStep → ℕ → Text
id_at steps i = elim (get_elem? steps i) [ some s ↦ s.step_id | none ↦ [] ]

pub All-get :
    (P : PlanStep → Type 0) (steps : List PlanStep) (i : ℕ) (s : PlanStep)
    → All P steps
    → get_elem? steps i ≡ some s
    → P s
All-get P [] i s h e = cc
All-get P (t ∷ steps) zero s h e = subst P (some-eq e) h.0
All-get P (t ∷ steps) (suc i) s h e = All-get P steps i s h.1 e

Names-rank :
    (steps : List PlanStep) (ids : Index) (rank : Text → ℕ) (deps : List Text) (k p : ℕ)
    → IndexNames steps ids
    → All (λ dep. rank dep < k) deps
    → Names ids deps p
    → rank (id_at steps p) < k
Names-rank steps ids rank [] k p names below named = absurd named
Names-rank steps ids rank (dep ∷ deps) k p names below (inl found) =
    let (t, at, named) = names dep p found in rw (id_at, at, named) below.0
Names-rank steps ids rank (dep ∷ deps) k p names below (inr later) =
    Names-rank steps ids rank deps k p names below.1 later

module _ (steps : List PlanStep) (ids : Index) (after : List DagNode × Children) (rank : Text → ℕ)
    (indexed : index_steps 0 steps [] ≡ ok ids)
    (linked : link_steps ids 0 steps no_children ≡ ok after)
    (ranks : RanksDependencies rank steps) where
  id-IsRanking : IsRanking (length steps) after.1 (λ i. rank (id_at steps i))
  unfolding find_id
  id-IsRanking p c plt clt edge =
      let b = links-Built steps ids after indexed linked in
      let (s, at, named) =
        b.sources c p clt (subst (λ x. 0 < occurrences x (after.1 p)) (omega arith) edge) in
      let names =
        index_steps-IndexNames steps 0 steps [] ids (λ j. ap (get_elem? steps) (omega arith))
          (λ k j found. cc) indexed in
      rw (id_at, at)
        (Names-rank steps ids rank s.depends_on (rank s.step_id) p names
          (All-get (λ s. All (λ dep. rank dep < rank s.step_id) s.depends_on) steps c s ranks at)
          named)

  -- Where the steps are indexed and linked, and a rank of the ids grows from each dependency to its step,
  -- no cycle is reported.
  pub build_dag_of_ranking : build_dag steps ≡ ok (record { nodes = after.0; children = after.1 })
  unfolding build_dag
  build_dag_of_ranking =
      let b = links-Built steps ids after indexed linked in
      let same = b.nodes_length in
      let reached =
        reaches_all_of_ranking after.0 after.1
          (subst (λ n. Holds n (pending n after.1 []) (degrees_of after.0)) (sym same)
            (λ j lt.
              b.degrees j lt
              ∙ ap (λ x. some (pos (pending (length steps) after.1 [] x))) (omega arith)))
          (λ i. rank (id_at steps i)) (subst (λ n. IsBounded n after.1) (sym same) b.bounded)
          (subst (λ n. IsRanking n after.1 (λ i. rank (id_at steps i))) (sym same) id-IsRanking) in
      ground (arith, indexed, linked, reached)
