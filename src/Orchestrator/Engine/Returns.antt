-- ===== src/Orchestrator/Engine/Returns.antt =====
-- orchestrator/engine.go: `Execute` returns within its batches and its replans.
use agent_orchestrator_go.Base.{
  ℕ, zero, suc, ◌+◌, ◌≤◌, ◌≡◌, refl, ap, ◌∙◌, inl, inr, [], Option, some, none, text_eq, txt,
  Result, ok, err, arith, Option-cases, Result-cases, Bool-cases, length,
}
use agent_orchestrator_go.Planner.Plan.{Plan}
use agent_orchestrator_go.Orchestrator.Dag.{new_dag_scheduler}
use agent_orchestrator_go.Orchestrator.Dag.Batch.{mark_all}
use agent_orchestrator_go.Orchestrator.Dag.Correct.{new_dag_scheduler-IsScheduler}
use agent_orchestrator_go.Orchestrator.Engine.{
  Engine, Execution, ExecutionRequest, ExecutionResult, BatchOutcome, stop, go_on, start_over,
  follow, fail_run, batch_round, batches, execute_plan, execute, start_run, create_run, initial,
  new_run,
}
use agent_orchestrator_go.Orchestrator.Engine.Progress.{
  InProgress, Finished, Advances, done-le, fail_run-Advances, batch_round-Advances,
}

module _ {W D : Type 0} (e : Engine W D) (req : ExecutionRequest) where
  -- The loop has returned, and finished.
  abbrev pub Returns : Option (Result ExecutionResult × Execution W D) → Type 0
  Returns answer =
      (q : Result ExecutionResult × Execution W D) × (answer ≡ some q) × Finished e req q

  follow-Returns :
      (next : Execution W D → Option (Result ExecutionResult × Execution W D))
      (anew : ℕ → Execution W D → Option (Result ExecutionResult × Execution W D))
      (x : Execution W D) (o : BatchOutcome W D)
      → Advances e req x o
      → ((y : Execution W D) → Advances e req x (go_on y) → Returns (next y))
      → ((y : Execution W D)
          → Advances e req x (start_over y)
          → Returns (anew (length y.dag.nodes) y))
      → Returns (follow next anew o)
  follow-Returns next anew x (stop q) h on over = (q, refl, h)
  follow-Returns next anew x (go_on y) h on over = on y h
  follow-Returns next anew x (start_over y) h on over = over y h

  spent : (x y : Execution W D) → length x.dag.nodes ≤ x.done → Advances e req x (go_on y) → ⊥
  spent x y full (p, same, more, count) = absurd (omega (arith, done-le e req y p))

  used_up :
      (x y : Execution W D) → e.max_replans ≤ x.replan_count → Advances e req x (start_over y) → ⊥
  used_up x y enough (p, fresh, count) = absurd (omega (arith, p.allowed))

  -- The loop returns where the fuel covers the steps that are not done, and `replans` the replans
  -- that are left.
  pub batches-Returns :
      (replans fuel : ℕ) (x : Execution W D)
      → InProgress e.max_replans x
      → e.max_replans ≤ replans + x.replan_count
      → length x.dag.nodes ≤ fuel + x.done
      → Returns (batches e req replans fuel x)
  unfolding batches
  batches-Returns zero zero x p left enough =
      follow-Returns (λ _. none) (λ _ _. none) x (batch_round e req x)
        (batch_round-Advances e req x p) (λ y h. absurd (spent x y (omega arith) h))
        (λ y h. absurd (used_up x y (omega arith) h))
  batches-Returns zero (suc fuel) x p left enough =
      follow-Returns (batches e req zero fuel) (λ _ _. none) x (batch_round e req x)
        (batch_round-Advances e req x p)
        (λ y h. batches-Returns zero fuel y h.0 (omega (arith, h.3)) (omega (arith, h.1, h.2)))
        (λ y h. absurd (used_up x y (omega arith) h))
  batches-Returns (suc replans) zero x p left enough =
      follow-Returns (λ _. none) (batches e req replans) x (batch_round e req x)
        (batch_round-Advances e req x p) (λ y h. absurd (spent x y (omega arith) h))
        (λ y h.
          batches-Returns replans (length y.dag.nodes) y h.0 (omega (arith, h.2)) (omega arith))
  batches-Returns (suc replans) (suc fuel) x p left enough =
      follow-Returns (batches e req (suc replans) fuel) (batches e req replans) x
        (batch_round e req x) (batch_round-Advances e req x p)
        (λ y h.
          batches-Returns (suc replans) fuel y h.0 (omega (arith, h.3)) (omega (arith, h.1, h.2)))
        (λ y h.
          batches-Returns replans (length y.dag.nodes) y h.0 (omega (arith, h.2)) (omega arith))

  start_run-counts :
      (plan : Plan) (x : Execution W D)
      → ((start_run e req plan x).1.replan_count ≡ x.replan_count)
        × ((start_run e req plan x).1.done ≡ x.done)
        × ((start_run e req plan x).1.plan ≡ plan)
  unfolding start_run
  start_run-counts plan x = ground arith

  execute_plan-Returns :
      (answer : Result Plan) (x : Execution W D)
      → x.replan_count ≡ 0
      → x.done ≡ 0
      → Returns (execute_plan e req answer x)
  unfolding execute_plan mark_all
  execute_plan-Returns (err error) x first fresh =
      (fail_run e req error x, refl, fail_run-Advances e req error x x)
  execute_plan-Returns (ok plan) x first fresh =
      let started = (start_run e req plan x).1 in
      let counts = start_run-counts plan x in
      elim (Option-cases (start_run e req plan x).0) [
        | inr (u, bad) ↦ ((err u, started), rw (bad, execute_plan) refl, tt)
        | inl fine ↦ elim (Result-cases (new_dag_scheduler plan)) [
          | inr (u, bad) ↦ (
            fail_run e req u started,
            rw (fine, bad, execute_plan) refl,
            fail_run-Advances e req u started x,
          )
          | inl (dag, built) ↦
              rw (fine, built, execute_plan)
                (batches-Returns e.max_replans (length dag.nodes) (record started { dag = dag })
                  (record {
                    closed = [];
                    first = dag;
                    built = ap new_dag_scheduler (start_run-counts plan x).2 ∙ built;
                    marked = [];
                    follows = refl;
                    scheduler = (new_dag_scheduler-IsScheduler plan dag built).0;
                    counted = counts.1 ∙ fresh;
                    allowed = omega (arith, counts.0, first);
                  })
                  (omega arith) (omega arith))
        ]
      ]

  -- `Execute` returns, whatever the planner, the agents, the replanner and the repository do. The
  -- result is an error, or it says that the run failed, or it says that the run succeeded; in the
  -- last case as many steps are done as the plan that is current at the end has, the scheduler is
  -- the one that `newDAGScheduler` builds for that plan with some steps marked done, it is in
  -- order and all its steps are done, and the plan was replaced at most as often as the engine
  -- allows.
  pub execute_total :
      (w : W) (db : D)
      → (q : Result ExecutionResult × Execution W D) × (execute e req w db ≡ some q)
        × Finished e req q
  unfolding execute
  execute_total w db = elim (Bool-cases (text_eq req.task_id [])) [
    | inl empty ↦ (
      (err (txt "taskID is required"), initial e req (new_run e req) w db),
      rw (empty, execute) refl,
      tt,
    )
    | inr given ↦
        let db' = (create_run e req db).1 in
        elim (Result-cases (create_run e req db).0) [
          | inr (u, bad) ↦
              ((err u, initial e req (new_run e req) w db'), rw (given, bad, execute) refl, tt)
          | inl (run, created) ↦
              let asked = e.create_plan w req.task_id in
              rw (given, created, execute)
                (execute_plan-Returns asked.0 (initial e req run asked.1 db') refl refl)
        ]
  ]
