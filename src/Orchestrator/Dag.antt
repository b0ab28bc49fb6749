-- ===== src/Orchestrator/Dag.antt =====
-- orchestrator/dag.go: the scheduler of plan steps with dependencies.
pub mod Degrees
pub mod Kahn
pub mod Links
pub mod Invariant
pub mod Build
pub mod Sequential
pub mod Correct
pub mod Accepted
pub mod Batch
use agent_orchestrator_go.Base.{
  quote, ℕ, zero, suc, ◌+◌, ℤ, pos, negsuc, decrement, increment, is_zeroℤ, Bool, true, false, ◌||◌,
  not, List, [], ◌∷◌, ◌++◌, map, Option, none, some, Text, txt, text_eq, decimal, ltb, ◌==◌,
  if◌then◌else◌, length, any, update_at, get_elem?, Result, ok, err, ◌>>=◌, ◌≡◌, refl,
}
use agent_orchestrator_go.Planner.Plan.{PlanStep, Plan}

pub record DagNode : Type 0 where
  pub index : ℕ
  pub step : PlanStep
  pub in_degree : ℤ

-- `map[int][]int`; a missing key reads as the empty list.
abbrev pub Children : Type 0
Children = ℕ → List ℕ

pub record DagScheduler : Type 0 where
  pub nodes : List DagNode
  pub children : Children

abbrev pub no_children : Children
no_children _ = []

-- `children[p] = append(children[p], c)`
abbrev pub append_child : ℕ → ℕ → Children → Children
append_child p c children q = if q == p then children q ++ c ∷ [] else children q

unfoldable pub uses_dag : PlanStep → Bool
uses_dag s = not (text_eq s.step_id []) || ltb 0 (length s.depends_on)

unfoldable pub has_dag : List PlanStep → Bool
unfolding uses_dag
has_dag steps = any uses_dag steps

-- The sequential fallback: step i depends on step i-1.
unfoldable pub sequential_nodes : ℕ → List PlanStep → List DagNode
sequential_nodes i [] = []
sequential_nodes i (s ∷ steps) =
    record { index = i; step = s; in_degree = if ltb 0 i then pos 1 else pos 0 }
    ∷ sequential_nodes (suc i) steps

unfoldable pub sequential_children : ℕ → List PlanStep → Children → Children
sequential_children zero [] children = children
sequential_children (suc i) [] children = children
sequential_children zero (s ∷ steps) children = sequential_children 1 steps children
sequential_children (suc i) (s ∷ steps) children =
    sequential_children (suc (suc i)) steps (append_child i (suc i) children)

-- `map[string]int`
abbrev pub Index : Type 0
Index = List (Text × ℕ)

unfoldable pub find_id : Text → Index → Option ℕ
find_id k [] = none
find_id k ((j, i) ∷ ids) = if text_eq j k then some i else find_id k ids

-- `fmt.Errorf("step %d: StepID required when DAG mode is used", i)`
unfoldable pub missing_id : ℕ → Text
missing_id i = txt "step " ++ (decimal i ++ txt ": StepID required when DAG mode is used")

-- `fmt.Errorf("step %d: duplicate StepID %q", i, s.StepID)`
unfoldable pub duplicate_id : ℕ → Text → Text
duplicate_id i id = txt "step " ++ (decimal i ++ (txt ": duplicate StepID " ++ quote id))

-- `fmt.Errorf("step %d (%s): depends on unknown StepID %q", i, s.StepID, dep)`
unfoldable pub unknown_id : ℕ → Text → Text → Text
unknown_id i id dep =
    txt "step "
    ++ (decimal i ++ (txt " (" ++ (id ++ (txt "): depends on unknown StepID " ++ quote dep))))

-- `idToIndex`, from step i on.
unfoldable pub index_steps : ℕ → List PlanStep → Index → Result Index
unfolding find_id
index_steps i [] ids = ok ids
index_steps i (s ∷ steps) ids =
    let rest = index_steps (suc i) steps (ids ++ (s.step_id, i) ∷ []) in
    if text_eq s.step_id []
    then err (missing_id i)
    else elim (find_id s.step_id ids) [ some _ ↦ err (duplicate_id i s.step_id) | none ↦ rest ]

-- The loop over `s.DependsOn`: the children so far and `inDeg`.
unfoldable pub link_deps : Index → ℕ → Text → List Text → Children → ℕ → Result (Children × ℕ)
unfolding find_id
link_deps ids i id [] children in_deg = ok (children, in_deg)
link_deps ids i id (dep ∷ deps) children in_deg = elim (find_id dep ids) [
  | none ↦ err (unknown_id i id dep)
  | some parent ↦ link_deps ids i id deps (append_child parent i children) (suc in_deg)
]

-- The loop over the steps, from step i on.
unfoldable pub link_steps : Index → ℕ → List PlanStep → Children → Result (List DagNode × Children)
unfolding link_deps
link_steps ids i [] children = ok ([], children)
link_steps ids i (s ∷ steps) children = do
  (linked, in_deg) ← link_deps ids i s.step_id s.depends_on children 0
  (nodes, final) ← link_steps ids (suc i) steps linked
  ok (record { index = i; step = s; in_degree = pos in_deg } ∷ nodes, final)

-- `tempDeg`, and the first queue: the indices from i on of degree zero.
abbrev pub zero_indices : ℕ → List ℤ → List ℕ
zero_indices i [] = []
zero_indices i (d ∷ ds) =
    let rest = zero_indices (suc i) ds in if is_zeroℤ d then i ∷ rest else rest

abbrev pub degree_is_zero : ℕ → List ℤ → Bool
degree_is_zero i ds = elim (get_elem? ds i) [ some d ↦ is_zeroℤ d | none ↦ false ]

-- The loop over the children of the node taken from the queue.
unfoldable pub relax : List ℕ → List ℤ → List ℕ → List ℤ × List ℕ
relax [] degrees queue = (degrees, queue)
relax (c ∷ cs) degrees queue =
    let lowered = update_at c decrement degrees in
    relax cs lowered (if degree_is_zero c lowered then queue ++ c ∷ [] else queue)

-- The `for len(queue) > 0` loop: the number of reachable nodes, or `none` where the fuel runs out.
unfoldable pub kahn : ℕ → Children → List ℕ → List ℤ → ℕ → Option ℕ
unfolding relax
kahn zero children [] degrees reachable = some reachable
kahn zero children (cur ∷ queue) degrees reachable = none
kahn (suc fuel) children [] degrees reachable = some reachable
kahn (suc fuel) children (cur ∷ queue) degrees reachable =
    let next = relax (children cur) degrees queue in
    kahn fuel children next.1 next.0 (suc reachable)

abbrev pub degrees_of : List DagNode → List ℤ
degrees_of nodes = map (λ n. n.in_degree) nodes

-- A node enters the queue once, so that one round for each node is enough.
unfoldable pub count_reachable : List DagNode → Children → Option ℕ
unfolding kahn
count_reachable nodes children =
    kahn (length nodes) children (zero_indices 0 (degrees_of nodes)) (degrees_of nodes) 0

-- `if reachable != len(nodes)`
abbrev pub reaches_all : Option ℕ → ℕ → Bool
reaches_all none n = false
reaches_all (some reachable) n = reachable == n

unfoldable pub build_dag : List PlanStep → Result DagScheduler
unfolding index_steps link_steps count_reachable
build_dag steps = do
  ids ← index_steps 0 steps []
  (nodes, children) ← link_steps ids 0 steps no_children
  if reaches_all (count_reachable nodes children) (length nodes)
      then ok (record { nodes = nodes; children = children })
      else err (txt "plan contains a dependency cycle")

unfoldable pub new_dag_scheduler : Plan → Result DagScheduler
unfolding has_dag sequential_nodes sequential_children build_dag
new_dag_scheduler plan =
    if length plan.steps == 0
    then ok (record { nodes = []; children = no_children })
    else if has_dag plan.steps
    then build_dag plan.steps
    else ok (record {
      nodes = sequential_nodes 0 plan.steps;
      children = sequential_children 0 plan.steps no_children;
    })

unfoldable pub ready_steps : DagScheduler → List ℕ
ready_steps d = zero_indices 0 (degrees_of d.nodes)

abbrev pub set_degree : (ℤ → ℤ) → DagNode → DagNode
set_degree f n = record n { in_degree = f n.in_degree }

-- `for _, child := range d.children[idx] { d.nodes[child].inDegree-- }`
unfoldable pub lower_children : List ℕ → List DagNode → List DagNode
lower_children [] nodes = nodes
lower_children (c ∷ cs) nodes = lower_children cs (update_at c (set_degree decrement) nodes)

unfoldable pub mark_done : ℕ → DagScheduler → DagScheduler
unfolding lower_children
mark_done idx d = record d {
  nodes = lower_children (d.children idx) (update_at idx (set_degree (λ _. negsuc 0)) d.nodes);
}

unfoldable pub len : DagScheduler → ℕ
len d = length d.nodes
