-- ===== src/Planner/ContextAware/Dangling.antt =====
-- planner/context_aware.go with orchestrator/dag.go: a replan that drops the steps that the remaining
-- ones depend on.
use agent_orchestrator_go.Base.{
  ℕ, zero, suc, ◌<◌, ◌≡◌, ◌≢◌, refl, sym, ap, ◌∙◌, subst, true, List, [], ◌∷◌, map, Option, some,
  Text, ok, length, drop, get_elem?, arith, some-eq,
}
use agent_orchestrator_go.Value.{Fields}
use agent_orchestrator_go.Retry.Policy.{Policy}
use agent_orchestrator_go.Planner.Plan.{PlanStep, Plan}
use agent_orchestrator_go.Planner.Replanner.{ReplanContext}
use agent_orchestrator_go.Planner.ContextAware.{ContextAwarePlanner, replan_remaining}
use agent_orchestrator_go.Planner.ContextAware.Remaining.{outline, replan-outline}
use agent_orchestrator_go.Orchestrator.Dag.{
  DagScheduler, Children, has_dag, uses_dag, build_dag, new_dag_scheduler,
}
use agent_orchestrator_go.Orchestrator.Dag.Correct.{NamedParents, DependsOn-edges}

get_elem?-outline :
    (xs ys : List PlanStep) (j : ℕ) (s : PlanStep)
    → map outline xs ≡ map outline ys
    → get_elem? ys j ≡ some s
    → (t : PlanStep) × (get_elem? xs j ≡ some t) × (outline t ≡ outline s)
get_elem?-outline [] [] j s same at = cc
get_elem?-outline [] (y ∷ ys) j s same at = cc
get_elem?-outline (x ∷ xs) [] j s same at = cc
get_elem?-outline (x ∷ xs) (y ∷ ys) zero s same at =
    let here : outline x ≡ outline y = cc in
    (x, refl, subst (λ z. outline x ≡ outline z) (some-eq at) here)
get_elem?-outline (x ∷ xs) (y ∷ ys) (suc j) s same at =
    let later : map outline xs ≡ map outline ys = cc in get_elem?-outline xs ys j s later at

has_dag-get :
    (steps : List PlanStep) (j : ℕ) (s : PlanStep)
    → get_elem? steps j ≡ some s
    → 0 < length s.depends_on
    → (has_dag steps ≡ true) × (0 < length steps)
unfolding has_dag uses_dag
has_dag-get [] j s at some_deps = cc
has_dag-get (x ∷ steps) zero s at some_deps =
    let deps : 0 < length x.depends_on =
      subst (λ z. 0 < length z.depends_on) (sym (some-eq at)) some_deps in
    (ground arith, omega arith)
has_dag-get (x ∷ steps) (suc j) s at some_deps =
    let ih = has_dag-get steps j s at some_deps in (ground (arith, ih.0), omega arith)

-- A dependency that no step is named after has no parent.
NamedParents-absent :
    (steps : List PlanStep) (children : Children) (i k : ℕ) (deps : List Text) (dep : Text)
    → NamedParents steps children i deps
    → get_elem? deps k ≡ some dep
    → ((q : ℕ) (t : PlanStep) → get_elem? steps q ≡ some t → t.step_id ≢ dep)
    → ⊥
NamedParents-absent steps children i k [] dep named at absent = cc
NamedParents-absent steps children i zero (d ∷ deps) dep named at absent =
    let (q, t, there, is, edge) = named.0 in absurd (absent q t there (is ∙ some-eq at))
NamedParents-absent steps children i (suc k) (d ∷ deps) dep named at absent =
    NamedParents-absent steps children i k deps dep named.1 at absent

nonempty-get :
    (deps : List Text) (k : ℕ) (dep : Text) → get_elem? deps k ≡ some dep → 0 < length deps
nonempty-get [] k dep at = cc
nonempty-get (d ∷ deps) k dep at = omega arith

scheduled-build :
    (plan : Plan) (d : DagScheduler)
    → new_dag_scheduler plan ≡ ok d
    → has_dag plan.steps ≡ true
    → 0 < length plan.steps
    → build_dag plan.steps ≡ ok d
unfolding new_dag_scheduler
scheduled-build plan d h uses positive = ground (arith, h, uses)

-- Where a step from the failed one on depends on an id that none of these steps has, as when the
-- step of that id is already done, the plan that `Replan` returns has no scheduler.
pub replan_dangling :
    (p : ContextAwarePlanner) (c : ReplanContext) (original plan : Plan) (j k : ℕ) (s : PlanStep)
    (dep : Text) (d : DagScheduler)
    → c.original_plan ≡ some original
    → c.failed_step_index < length original.steps
    → replan_remaining p c ≡ ok plan
    → get_elem? (drop c.failed_step_index original.steps) j ≡ some s
    → get_elem? s.depends_on k ≡ some dep
    → ((q : ℕ) (t : PlanStep)
        → get_elem? (drop c.failed_step_index original.steps) q ≡ some t
        → t.step_id ≢ dep)
    → new_dag_scheduler plan ≢ ok d
replan_dangling p c original plan j k s dep d there lt replanned at needs absent scheduled =
    let kept = replan-outline p c original plan there lt replanned in
    let (t, t_at, same) =
      get_elem?-outline plan.steps (drop c.failed_step_index original.steps) j s kept at in
    let t_needs =
      ap (λ (x : Text × List Text × Fields × Option Policy). get_elem? x.1 k) same ∙ needs in
    let (uses, positive) =
      has_dag-get plan.steps j t t_at (nonempty-get t.depends_on k dep t_needs) in
    NamedParents-absent plan.steps d.children j k t.depends_on dep
      (DependsOn-edges plan.steps d j t (scheduled-build plan d scheduled uses positive) t_at)
      t_needs
      (λ q u u_at named.
        let (v, v_at, alike) =
          get_elem?-outline (drop c.failed_step_index original.steps) plan.steps q u (sym kept)
            u_at in
        absent q v v_at (ap (λ (x : Text × List Text × Fields × Option Policy). x.0) alike ∙ named))
