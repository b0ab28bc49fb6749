-- ===== src/Orchestrator/Engine.antt =====
-- orchestrator/engine.go: `Execute`, from the plan to the result.
pub mod Schedule
pub mod Progress
pub mod Returns
pub mod Replay
mod Tests
use agent_orchestrator_go.Base.{
  ℕ, zero, suc, ◌+◌, ◌-◌, Bool, true, false, ◌&&◌, List, [], ◌∷◌, ◌++◌, map, Option, some, none,
  Text, txt, text_eq, ltb, ◌==◌, if◌then◌else◌, Result, ok, err, length, get_elem?,
}
use agent_orchestrator_go.Value.{Fields, nil_map, end, overlay, is_nil_map}
use agent_orchestrator_go.Failure.{FailureType, type_name}
use agent_orchestrator_go.Failure.Classifier.{classify}
use agent_orchestrator_go.Planner.Plan.{Plan, PlanStep}
use agent_orchestrator_go.Planner.Replanner.{CompletedStep, ReplanContext}
use agent_orchestrator_go.Orchestrator.Dag.{
  DagScheduler, new_dag_scheduler, ready_steps, mark_done, len, no_children,
}
use agent_orchestrator_go.Orchestrator.Dag.Batch.{mark_all}

-- agent/agent_run.go. `completed` says whether `CompletedAt` is set.
pub data AgentRunStatus : Type 0 where
  run_created run_running run_failed run_completed : AgentRunStatus

pub record AgentRun : Type 0 where
  pub run_id : Text
  pub goal : Text
  pub status : AgentRunStatus
  pub current_step_index : ℕ
  pub max_steps : ℕ
  pub completed : Bool

-- orchestrator/execution.go and orchestrator/result.go
pub data ExecutionStatus : Type 0 where
  pending running succeeded failed : ExecutionStatus

pub record ExecutionResult : Type 0 where
  pub run_id : Text
  pub status : ExecutionStatus
  pub output : Fields
  pub error : Option Text

pub record ExecutionRequest : Type 0 where
  pub run_id : Text
  pub task_id : Text
  pub input : Fields

-- `RunRepository` over its data `D`.
pub record RunRepository (D : Type 0) : Type 0 where
  pub create : D → AgentRun → Option Text × D
  pub get_by_id : D → Text → Result AgentRun
  pub update : D → AgentRun → Option Text × D

-- What the engine is put together from, over the world `W` of the agents, the tools, the planner
-- and the step repository. `run_batch` runs the steps of a batch, in whatever order their
-- goroutines are scheduled, and returns what each of them returned.
pub record Engine (W D : Type 0) : Type 0 where
  pub create_plan : W → Text → Result Plan × W
  pub replanner : Option (W → ReplanContext → Result (Option Plan) × W)
  pub run_batch : W → ExecutionRequest → Plan → List ℕ → Fields → (ℕ → Result Fields) × W
  pub runs : Option (RunRepository D)
  pub max_replans : ℕ

-- The variables of `Execute`.
pub record Execution (W D : Type 0) : Type 0 where
  pub plan : Plan
  pub dag : DagScheduler
  pub done : ℕ
  pub completed_steps : List CompletedStep
  pub vars : Fields
  pub final_output : Fields
  pub replan_count : ℕ
  pub run : AgentRun
  pub world : W
  pub db : D

-- `plan.Steps[i].AgentID`. (Go panics on an index out of range, which no step index is.)
unfoldable pub agent_at : Plan → ℕ → Text
agent_at plan i = elim (get_elem? plan.steps i) [ some s ↦ s.agent_id | none ↦ [] ]

-- The first failure of a batch, in the order of its steps.
unfoldable pub first_failure : (ℕ → Result Fields) → List ℕ → Option (ℕ × Text)
first_failure results [] = none
first_failure results (i ∷ ready) =
    let rest = first_failure results ready in elim (results i) [ ok _ ↦ rest | err e ↦ some (i, e) ]

abbrev pub completed_step : Plan → ℕ → Fields → CompletedStep
completed_step plan i output = record {
  step_index = i;
  agent_id = agent_at plan i;
  output = output;
}

module _ {W D : Type 0} where
  -- One successful result is kept for the replanner.
  unfoldable pub keep_output : ℕ → Fields → Execution W D → Execution W D
  keep_output i output x = record x {
    completed_steps = x.completed_steps ++ completed_step x.plan i output ∷ [];
    vars = overlay x.vars output;
  }

  -- After a failure: the steps of the batch that returned an output that is not nil are kept.
  unfoldable pub keep_outputs : (ℕ → Result Fields) → List ℕ → Execution W D → Execution W D
  unfolding keep_output
  keep_outputs results [] x = x
  keep_outputs results (i ∷ ready) x = keep_outputs results ready (elim (results i) [
    | err _ ↦ x
    | ok output ↦ if is_nil_map output then x else keep_output i output x
  ])

  -- All steps of the batch succeeded: the outputs are merged and the scheduler goes on.
  unfoldable pub merge_outputs : (ℕ → Result Fields) → List ℕ → Execution W D → Execution W D
  unfolding keep_output
  merge_outputs results [] x = x
  merge_outputs results (i ∷ ready) x = merge_outputs results ready (elim (results i) [
    | err _ ↦ x
    | ok output ↦ record (keep_output i output x) {
      final_output = output;
      dag = mark_done i x.dag;
      done = suc x.done;
    }
  ])

-- How a round of the loop ends: with the result, with the loop going on, or with a new plan.
pub data BatchOutcome (W D : Type 0) : Type 0 where
  stop : Result ExecutionResult × Execution W D → BatchOutcome W D
  go_on : Execution W D → BatchOutcome W D
  start_over : Execution W D → BatchOutcome W D

abbrev pub follow :
    {W D : Type 0}
    → (Execution W D → Option (Result ExecutionResult × Execution W D))
    → (ℕ → Execution W D → Option (Result ExecutionResult × Execution W D))
    → BatchOutcome W D
    → Option (Result ExecutionResult × Execution W D)
follow next anew (stop r) = some r
follow next anew (go_on x) = next x
follow next anew (start_over x) = anew (length x.dag.nodes) x

module _ {W D : Type 0} (e : Engine W D) (req : ExecutionRequest) where
  -- `if e.runs != nil { _ = e.runs.Update(run) }`
  unfoldable pub store_run : Execution W D → Execution W D
  store_run x = elim e.runs [ none ↦ x | some r ↦ record x { db = (r.update x.db x.run).1 } ]

  abbrev pub failed_result : Text → ExecutionResult
  failed_result error = record {
    run_id = req.run_id;
    status = failed;
    output = nil_map;
    error = some error;
  }

  abbrev pub finish_run : AgentRunStatus → Execution W D → Execution W D
  finish_run status x = record x { run = record x.run { status = status; completed = true } }

  -- The run fails with this error.
  unfoldable pub fail_run : Text → Execution W D → Result ExecutionResult × Execution W D
  unfolding store_run
  fail_run error x = (ok (failed_result error), store_run (finish_run run_failed x))

  -- The run is completed. Here an error of the repository is returned.
  unfoldable pub complete_run : Execution W D → Result ExecutionResult × Execution W D
  complete_run x =
      let x' = finish_run run_completed x in
      let result : ExecutionResult = record {
        run_id = req.run_id;
        status = succeeded;
        output = x.final_output;
        error = none;
      } in
      elim e.runs [
        | none ↦ (ok result, x')
        | some r ↦
            let (update_error, db) = r.update x'.db x'.run in
            elim update_error [
              | none ↦ (ok result, record x' { db = db })
              | some u ↦ (err u, record x' { db = db })
            ]
      ]

  -- Each step of the batch notes its index in the run, under the lock.
  unfoldable pub note_indices : List ℕ → Execution W D → Execution W D
  unfolding store_run
  note_indices [] x = x
  note_indices (i ∷ ready) x = note_indices ready (
      store_run
        (record x { run = record x.run { current_step_index = i + length x.completed_steps } }))

  -- A batch is run.
  unfoldable pub launch : List ℕ → Execution W D → (ℕ → Result Fields) × Execution W D
  unfolding note_indices
  launch ready x =
      let noted = note_indices ready x in
      let (results, w) = e.run_batch noted.world req noted.plan ready noted.vars in
      (results, record noted { world = w })

  abbrev pub replan_context : ℕ → Text → Execution W D → ReplanContext
  replan_context i error x = record {
    task_id = req.task_id;
    original_plan = some x.plan;
    failed_step_index = i;
    failed_agent_id = agent_at x.plan i;
    failure_error = error;
    failure_type = classify (some error);
    completed_steps = x.completed_steps;
    vars = x.vars;
    attempt = suc x.replan_count;
    max_replans = e.max_replans;
  }

  -- The new plan where the replanner returns one that has steps.
  abbrev pub usable_plan : Result (Option Plan) → Option Plan
  usable_plan (err _) = none
  usable_plan (ok none) = none
  usable_plan (ok (some plan)) = if ltb 0 (length plan.steps) then some plan else none

  -- What the replanner offers after a failure, where it may still be asked.
  unfoldable pub ask_replanner :
      (ℕ → Result Fields) → List ℕ → ℕ → Text → Execution W D → Option Plan × Execution W D
  unfolding keep_outputs
  ask_replanner results ready i error x = elim e.replanner [
    | none ↦ (none, x)
    | some replan ↦
        if ltb x.replan_count e.max_replans
        then (let kept = keep_outputs results ready x in
            let (answer, w) = replan kept.world (replan_context i error kept) in
            (usable_plan answer, record kept { world = w }))
        else (none, x)
  ]

  abbrev pub replan_dag_error : Text → Text
  replan_dag_error error = txt "replan DAG error: " ++ error

  -- The execution starts over with a new plan.
  unfoldable pub adopt_plan : Plan → DagScheduler → Execution W D → Execution W D
  unfolding store_run
  adopt_plan plan dag x = store_run (record x {
    plan = plan;
    dag = dag;
    done = 0;
    replan_count = suc x.replan_count;
    run = record x.run { max_steps = length x.completed_steps + length plan.steps };
  })

  -- After a failure: the execution starts over with a new plan, or the run fails. Where the new
  -- plan has no scheduler, the run is not updated.
  unfoldable pub handle_failed_batch :
      (ℕ → Result Fields) → List ℕ → ℕ → Text → Execution W D → BatchOutcome W D
  unfolding ask_replanner adopt_plan fail_run
  handle_failed_batch results ready i error x =
      let (offered, x') = ask_replanner results ready i error x in
      elim offered [
        | none ↦ stop (fail_run error x')
        | some plan ↦ elim (new_dag_scheduler plan) [
          | err dag_error ↦ stop (ok (failed_result (replan_dag_error dag_error)), x')
          | ok dag ↦ start_over (adopt_plan plan dag x')
        ]
      ]

  -- One round of the `for completed < dag.Len()` loop, with a batch that is not empty.
  unfoldable pub run_round : List ℕ → Execution W D → BatchOutcome W D
  unfolding launch handle_failed_batch merge_outputs
  run_round ready x =
      let (results, x') = launch ready x in
      elim (first_failure results ready) [
        | none ↦ go_on (merge_outputs results ready x')
        | some (i, error) ↦ handle_failed_batch results ready i error x'
      ]

  -- The head of the loop, with its `break`.
  unfoldable pub batch_round : Execution W D → BatchOutcome W D
  unfolding run_round complete_run
  batch_round x =
      if ltb x.done (len x.dag)
      then elim (ready_steps x.dag) [
        | [] ↦ stop (complete_run x)
        | i ∷ rest ↦ run_round (i ∷ rest) x
      ]
      else stop (complete_run x)

  -- The loop. `replans` is what is left of the replans, and `fuel` counts the batches until the next
  -- one; `none` means that one of them ran out.
  unfoldable pub batches : ℕ → ℕ → Execution W D → Option (Result ExecutionResult × Execution W D)
  unfolding batch_round
  batches zero zero x = follow (λ _. none) (λ _ _. none) (batch_round x)
  batches zero (suc fuel) x = follow (batches zero fuel) (λ _ _. none) (batch_round x)
  batches (suc replans) zero x = follow (λ _. none) (batches replans) (batch_round x)
  batches (suc replans) (suc fuel) x =
      follow (batches (suc replans) fuel) (batches replans) (batch_round x)

  abbrev pub no_plan : Plan
  no_plan = record { task_id = req.task_id; steps = [] }

  abbrev pub no_dag : DagScheduler
  no_dag = record { nodes = []; children = no_children }

  -- The variables of `Execute` before there is a plan.
  abbrev pub initial : AgentRun → W → D → Execution W D
  initial run w db = record {
    plan = no_plan;
    dag = no_dag;
    done = 0;
    completed_steps = [];
    vars = end;
    final_output = nil_map;
    replan_count = 0;
    run = run;
    world = w;
    db = db;
  }

  abbrev pub new_run : AgentRun
  new_run = record {
    run_id = req.run_id;
    goal = req.task_id;
    status = run_created;
    current_step_index = 0;
    max_steps = 0;
    completed = false;
  }

  -- The persistent run: a new record, or the one that the repository has already.
  unfoldable pub create_run : D → Result AgentRun × D
  create_run db = elim e.runs [
    | none ↦ (ok new_run, db)
    | some r ↦
        let (create_error, db') = r.create db new_run in
        elim create_error [
          | none ↦ (ok new_run, db')
          | some u ↦ elim (r.get_by_id db' req.run_id) [
            | ok existing ↦ (ok existing, db')
            | err _ ↦ (err u, db')
          ]
        ]
  ]

  -- `run.MaxSteps = ...; run.Status = ...; e.runs.Update(run)`, with the error of the repository.
  unfoldable pub start_run : Plan → Execution W D → Option Text × Execution W D
  start_run plan x =
      let x' = record x {
        plan = plan;
        run = record x.run { status = run_running; max_steps = length plan.steps };
      } in
      elim e.runs [
        | none ↦ (none, x')
        | some r ↦
            let (update_error, db) = r.update x'.db x'.run in (update_error, record x' { db = db })
      ]

  -- The planner has answered.
  unfoldable pub execute_plan :
      Result Plan → Execution W D → Option (Result ExecutionResult × Execution W D)
  unfolding fail_run start_run batches
  execute_plan (err error) x = some (fail_run error x)
  execute_plan (ok plan) x =
      let (update_error, x') = start_run plan x in
      elim update_error [
        | some u ↦ some (err u, x')
        | none ↦ elim (new_dag_scheduler plan) [
          | err dag_error ↦ some (fail_run dag_error x')
          | ok dag ↦ batches e.max_replans (length dag.nodes) (record x' { dag = dag })
        ]
      ]

  -- `Execute`. There is fuel for the batches of a plan, and for the replans that are allowed.
  unfoldable pub execute : W → D → Option (Result ExecutionResult × Execution W D)
  unfolding create_run execute_plan
  execute w db =
      if text_eq req.task_id []
      then some (err (txt "taskID is required"), initial new_run w db)
      else let (created, db') = create_run db in
        elim created [
          | err u ↦ some (err u, initial new_run w db')
          | ok run ↦
              let (answer, w') = e.create_plan w req.task_id in
              execute_plan answer (initial run w' db')
        ]
