-- ===== src/Orchestrator/Tests.antt =====
-- Package orchestrator at concrete inputs: a diamond of four steps, and one step with an agent that
-- answers what it is given.
use agent_orchestrator_go.Base.{
  ℕ, ◌≡◌, ◌≢◌, refl, false, text_eq_iff, List, [], ◌∷◌, none, Text, txt, text_eq, Result, ok, arith,
  if◌then◌else◌, length,
}
use agent_orchestrator_go.Value.{nil_map, end}
use agent_orchestrator_go.Planner.Plan.{PlanStep, Plan}
use agent_orchestrator_go.Orchestrator.Dag.{
  DagScheduler, Children, new_dag_scheduler, build_dag, ready_steps, len, mark_done, index_steps,
  link_steps, no_children, link_deps, find_id, count_reachable, kahn, relax, has_dag, uses_dag,
  DagNode, Index,
}
use agent_orchestrator_go.Orchestrator.Dag.Batch.{mark_all, closed_after, mark_ready-IsScheduler}
use agent_orchestrator_go.Orchestrator.Dag.Invariant.{IsScheduler, all_closed}
use agent_orchestrator_go.Orchestrator.Dag.Correct.{
  NamedParents, new_dag_scheduler-IsScheduler, DependsOn-edges,
}
use agent_orchestrator_go.Orchestrator.Dag.Accepted.{IsWellFormed, build_dag-accepts}

abbrev step_of : Text → List Text → PlanStep
step_of id deps = record {
  agent_id = txt "echo";
  input = end;
  metadata = nil_map;
  retry_policy = none;
  step_id = id;
  depends_on = deps;
}

abbrev step_d : PlanStep
step_d = step_of (txt "d") (txt "b" ∷ txt "c" ∷ [])

abbrev diamond_steps : List PlanStep
diamond_steps =
    step_of (txt "a") []
    ∷ step_of (txt "b") (txt "a" ∷ [])
    ∷ step_of (txt "c") (txt "a" ∷ [])
    ∷ step_d
    ∷ []

abbrev diamond : Plan
diamond = record { task_id = txt "task"; steps = diamond_steps }

abbrev diamond_ids : Index
diamond_ids = (txt "a", 0) ∷ (txt "b", 1) ∷ (txt "c", 2) ∷ (txt "d", 3) ∷ []

abbrev after_of : Result (List DagNode × Children) → List DagNode × Children
after_of (ok after) = after
after_of (Result.err e) = ([], no_children)

abbrev diamond_after : List DagNode × Children
diamond_after = after_of (link_steps diamond_ids 0 diamond_steps no_children)

abbrev diamond_dag : DagScheduler
diamond_dag = record { nodes = diamond_after.0; children = diamond_after.1 }

-- The place of each id in the diamond.
abbrev diamond_rank : Text → ℕ
diamond_rank id = if text_eq id (txt "a") then 0 else if text_eq id (txt "d") then 2 else 1

differ : (x y : Text) → text_eq x y ≡ false → x ≢ y
differ x y h same = ground (arith, h, text_eq_iff x y, same)

diamond-IsWellFormed : IsWellFormed diamond_steps
unfolding text_eq
diamond-IsWellFormed = record {
  present = (
    differ (txt "a") [] refl,
    (differ (txt "b") [] refl, (differ (txt "c") [] refl, (differ (txt "d") [] refl, tt))),
  );
  distinct = (
    (
      differ (txt "a") (txt "b") refl,
      (differ (txt "a") (txt "c") refl, (differ (txt "a") (txt "d") refl, tt)),
    ),
    (
      (differ (txt "b") (txt "c") refl, (differ (txt "b") (txt "d") refl, tt)),
      ((differ (txt "c") (txt "d") refl, tt), (tt, tt)),
    ),
  );
  known = (
    tt,
    (
      ((0, step_of (txt "a") [], refl, refl), tt),
      (
        ((0, step_of (txt "a") [], refl, refl), tt),
        (
          (
            (1, step_of (txt "b") (txt "a" ∷ []), refl, refl),
            ((2, step_of (txt "c") (txt "a" ∷ []), refl, refl), tt),
          ),
          tt,
        ),
      ),
    ),
  );
}

build_dag-accepts_example : (d : DagScheduler) × (build_dag diamond_steps ≡ ok d)
unfolding text_eq
build_dag-accepts_example =
    build_dag-accepts diamond_steps diamond_rank diamond-IsWellFormed
      (tt, ((omega arith, tt), ((omega arith, tt), ((omega arith, (omega arith, tt)), tt))))

diamond_built : build_dag diamond_steps ≡ ok diamond_dag
unfolding build_dag index_steps link_steps link_deps find_id text_eq count_reachable kahn relax
diamond_built = refl

diamond_scheduled : new_dag_scheduler diamond ≡ ok diamond_dag
unfolding new_dag_scheduler has_dag uses_dag build_dag index_steps link_steps link_deps find_id
    text_eq count_reachable kahn relax
diamond_scheduled = refl

new_dag_scheduler-IsScheduler_example :
    IsScheduler diamond_dag [] × (len diamond_dag ≡ length diamond.steps)
new_dag_scheduler-IsScheduler_example =
    new_dag_scheduler-IsScheduler diamond diamond_dag diamond_scheduled

DependsOn-edges_example : NamedParents diamond_steps diamond_dag.children 3 (txt "b" ∷ txt "c" ∷ [])
DependsOn-edges_example = DependsOn-edges diamond_steps diamond_dag 3 step_d diamond_built refl

diamond-IsScheduler : IsScheduler diamond_dag []
diamond-IsScheduler = (new_dag_scheduler-IsScheduler diamond diamond_dag diamond_scheduled).0

mark_ready-IsScheduler_example :
    IsScheduler
      (mark_all (ready_steps diamond_dag) diamond_dag)
      (closed_after (ready_steps diamond_dag) [])
mark_ready-IsScheduler_example = mark_ready-IsScheduler diamond_dag [] diamond-IsScheduler

-- The diamond after its batches: a, then b and c, then d.
abbrev after_batch : DagScheduler → DagScheduler
after_batch d = mark_all (ready_steps d) d

abbrev closed_1 : List ℕ
closed_1 = closed_after (ready_steps diamond_dag) []

abbrev closed_2 : List ℕ
closed_2 = closed_after (ready_steps (after_batch diamond_dag)) closed_1

abbrev diamond_done : DagScheduler
diamond_done = after_batch (after_batch (after_batch diamond_dag))

abbrev diamond_closed : List ℕ
diamond_closed = closed_after (ready_steps (after_batch (after_batch diamond_dag))) closed_2

diamond_done-IsScheduler : IsScheduler diamond_done diamond_closed
diamond_done-IsScheduler = mark_ready-IsScheduler (after_batch (after_batch diamond_dag)) closed_2 (
    mark_ready-IsScheduler (after_batch diamond_dag) closed_1
      (mark_ready-IsScheduler diamond_dag [] diamond-IsScheduler))

diamond_idle : ready_steps diamond_done ≡ []
unfolding ready_steps mark_all mark_done link_steps link_deps find_id text_eq
diamond_idle = refl

all_closed_example : length diamond_closed ≡ length diamond_done.nodes
all_closed_example = all_closed diamond_done diamond_closed diamond_done-IsScheduler diamond_idle
