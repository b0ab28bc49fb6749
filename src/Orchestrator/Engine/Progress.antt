-- ===== src/Orchestrator/Engine/Progress.antt =====
-- orchestrator/engine.go: a round of the loop of `Execute` finishes or makes progress.
use agent_orchestrator_go.Base.{
  ℕ, suc, ◌+◌, ◌≤◌, ◌<◌, ◌≡◌, refl, sym, ap, ◌∙◌, subst, ◌⊎◌, inl, inr, List, [], ◌∷◌, ◌++◌, Option,
  none, Text, ltb, Result, ok, err, arith, Option-cases, Result-cases, Bool-cases, List-cases,
  length,
}
use agent_orchestrator_go.Value.{Fields}
use agent_orchestrator_go.Planner.Plan.{Plan}
use agent_orchestrator_go.Orchestrator.Dag.{DagScheduler, new_dag_scheduler, ready_steps, len}
use agent_orchestrator_go.Orchestrator.Dag.Batch.{
  mark_all-append, mark_all, closed_after, length-closed_after, mark_ready-IsScheduler,
  length-mark_all,
}
use agent_orchestrator_go.Orchestrator.Dag.Invariant.{IsScheduler, all_closed, length-closed-le}
use agent_orchestrator_go.Orchestrator.Dag.Correct.{new_dag_scheduler-IsScheduler}
use agent_orchestrator_go.Orchestrator.Engine.{
  Engine, Execution, ExecutionRequest, ExecutionResult, succeeded, failed, BatchOutcome, stop,
  go_on, start_over, first_failure, merge_outputs, fail_run, complete_run, launch, ask_replanner,
  adopt_plan, handle_failed_batch, run_round, batch_round, finish_run, run_completed,
}
use agent_orchestrator_go.Orchestrator.Engine.Schedule.{
  some_ne_none, SameSchedule, keep_outputs-schedule, merge_outputs-schedule, store_run-schedule,
  launch-schedule,
}

-- The scheduler is the one of the current plan with the steps in `marked` marked done; it is in order,
-- `done` counts the steps that are done, and the plan was replaced at most `bound` times.
pub record InProgress {W D : Type 0} (bound : ℕ) (x : Execution W D) : Type 0 where
  pub closed : List ℕ
  pub first : DagScheduler
  pub built : new_dag_scheduler x.plan ≡ ok first
  pub marked : List ℕ
  pub follows : x.dag ≡ mark_all marked first
  pub scheduler : IsScheduler x.dag closed
  pub counted : x.done ≡ length closed
  pub allowed : x.replan_count ≤ bound

module _ {W D : Type 0} (e : Engine W D) (req : ExecutionRequest) where
  -- How an execution ends: with a failure, with all steps of the current plan done, or with an error of the
  -- repository or the request.
  abbrev pub Finished : Result ExecutionResult × Execution W D → Type 0
  Finished (ok r, y) =
      (r.status ≡ failed)
      ⊎ (r.status ≡ succeeded) × InProgress e.max_replans y × (y.done ≡ length y.plan.steps)
  Finished (err u, y) = Unit

  -- What a round does, by its outcome.
  abbrev pub Advances : Execution W D → BatchOutcome W D → Type 0
  Advances x (go_on y) =
      InProgress e.max_replans y
      × (length y.dag.nodes ≡ length x.dag.nodes)
      × (x.done < y.done)
      × (y.replan_count ≡ x.replan_count)
  Advances x (start_over y) =
      InProgress e.max_replans y × (y.done ≡ 0) × (y.replan_count ≡ suc x.replan_count)
  Advances x (stop q) = Finished q

  complete_run-Finished :
      (x : Execution W D)
      → InProgress e.max_replans x
      → x.done ≡ length x.plan.steps
      → Finished (complete_run e req x)
  unfolding complete_run
  complete_run-Finished x p full =
      let x' = finish_run e req run_completed x in
      let p' : (d : D) → InProgress e.max_replans (record x' { db = d }) = (λ d. record {
        closed = p.closed;
        first = p.first;
        built = p.built;
        marked = p.marked;
        follows = p.follows;
        scheduler = p.scheduler;
        counted = p.counted;
        allowed = p.allowed;
      }) in
      elim (Option-cases e.runs) [
        | inl absent ↦ rw (absent, complete_run) (inr (refl, p' x.db, full))
        | inr (r, there) ↦ elim (Option-cases (r.update x'.db x'.run).0) [
          | inl fine ↦
              rw (there, fine, complete_run) (inr (refl, p' (r.update x'.db x'.run).1, full))
          | inr (u, bad) ↦ rw (there, bad, complete_run) tt
        ]
      ]

  go_on-Advances :
      (x : Execution W D) (p : InProgress e.max_replans x) (results : ℕ → Result Fields) (i : ℕ)
      (rest : List ℕ) (x' : Execution W D)
      → SameSchedule x' x
      → ready_steps x.dag ≡ i ∷ rest
      → first_failure results (i ∷ rest) ≡ none
      → Advances x (go_on (merge_outputs results (i ∷ rest) x'))
  go_on-Advances x p results i rest x' same ready fine =
      let ready_list = i ∷ rest in
      let (dag, done, count, plan) = merge_outputs-schedule results ready_list x' fine in
      let next = mark_ready-IsScheduler x.dag p.closed p.scheduler in
      let marked = dag ∙ ap (mark_all ready_list) same.0 in
      (
        record {
          closed = closed_after ready_list p.closed;
          first = p.first;
          built = ap new_dag_scheduler (plan ∙ same.3) ∙ p.built;
          marked = p.marked ++ ready_list;
          follows =
              marked
              ∙ ap (mark_all ready_list) p.follows
              ∙ mark_all-append p.marked ready_list p.first;
          scheduler =
              subst (λ d. IsScheduler d (closed_after ready_list p.closed)) (sym marked)
                (subst (λ ys. IsScheduler (mark_all ys x.dag) (closed_after ys p.closed)) ready
                  next);
          counted = omega (arith, done, same.1, p.counted, length-closed_after ready_list p.closed);
          allowed = omega (arith, count, same.2, p.allowed);
        },
        ap (λ (d : DagScheduler). length d.nodes) marked ∙ length-mark_all ready_list x.dag,
        omega (arith, done, same.1),
        count ∙ same.2,
      )

  -- The replanner is asked only below the bound, and the scheduling waits for its answer.
  record Asked (x : Execution W D) (answer : Option Plan × Execution W D) : Type 0 where
    waits : SameSchedule answer.1 x
    below : (answer.0 ≡ none) ⊎ (x.replan_count < e.max_replans)

  ask_replanner-Asked :
      (results : ℕ → Result Fields) (ready : List ℕ) (i : ℕ) (error : Text) (x : Execution W D)
      → Asked x (ask_replanner e req results ready i error x)
  unfolding ask_replanner
  ask_replanner-Asked results ready i error x = elim (Option-cases e.replanner) [
    | inl absent ↦
        rw (absent, ask_replanner) (record { waits = (refl, refl, refl, refl); below = inl refl })
    | inr (replan, there) ↦ elim (Bool-cases (ltb x.replan_count e.max_replans)) [
      | inl more ↦
          rw (there, more, ask_replanner)
            (record {
              waits = keep_outputs-schedule results ready x;
              below = inr (ground (arith, more));
            })
      | inr over ↦
          rw (there, over, ask_replanner)
            (record { waits = (refl, refl, refl, refl); below = inl refl })
    ]
  ]

  pub fail_run-Advances :
      (error : Text) (x y : Execution W D) → Advances y (stop (fail_run e req error x))
  unfolding fail_run
  fail_run-Advances error x y = inl refl

  adopt_plan-Advances :
      (plan : Plan) (dag : DagScheduler) (x y : Execution W D)
      → new_dag_scheduler plan ≡ ok dag
      → y.replan_count ≡ x.replan_count
      → x.replan_count < e.max_replans
      → Advances x (start_over (adopt_plan e req plan dag y))
  unfolding adopt_plan mark_all
  adopt_plan-Advances plan dag x y built same below =
      let adopted = record y {
        plan = plan;
        dag = dag;
        done = 0;
        replan_count = suc y.replan_count;
        run = record y.run { max_steps = length y.completed_steps + length plan.steps };
      } in
      let stored = store_run-schedule e req adopted in
      (
        record {
          closed = [];
          first = dag;
          built = ap new_dag_scheduler stored.3 ∙ built;
          marked = [];
          follows = stored.0;
          scheduler =
              subst (λ d. IsScheduler d []) (sym stored.0)
                (new_dag_scheduler-IsScheduler plan dag built).0;
          counted = stored.1;
          allowed = omega (arith, stored.2);
        },
        stored.1,
        omega (arith, stored.2),
      )

  handle_failed-Advances :
      (x : Execution W D) (p : InProgress e.max_replans x) (results : ℕ → Result Fields)
      (ready : List ℕ) (i : ℕ) (error : Text) (x' : Execution W D)
      → SameSchedule x' x
      → Advances x (handle_failed_batch e req results ready i error x')
  unfolding handle_failed_batch
  handle_failed-Advances x p results ready i error x' same =
      let asked = ask_replanner-Asked results ready i error x' in
      let after = (ask_replanner e req results ready i error x').1 in
      elim (Option-cases (ask_replanner e req results ready i error x').0) [
        | inl nothing ↦ rw (nothing, handle_failed_batch) (fail_run-Advances error after x)
        | inr (plan, offered) ↦ elim (Result-cases (new_dag_scheduler plan)) [
          | inl (dag, built) ↦
              rw (offered, built, handle_failed_batch)
                (adopt_plan-Advances plan dag x after built (asked.waits.2 ∙ same.2)
                  (elim asked.below [
                    | inl none_offered ↦ absurd (some_ne_none (sym offered ∙ none_offered))
                    | inr below ↦ omega (arith, same.2)
                  ]))
          | inr (u, bad) ↦ rw (offered, bad, handle_failed_batch) (inl refl)
        ]
      ]

  run_round-Advances :
      (x : Execution W D) (p : InProgress e.max_replans x) (i : ℕ) (rest : List ℕ)
      → ready_steps x.dag ≡ i ∷ rest
      → Advances x (run_round e req (i ∷ rest) x)
  unfolding run_round
  run_round-Advances x p i rest ready =
      let results = (launch e req (i ∷ rest) x).0 in
      let x' = (launch e req (i ∷ rest) x).1 in
      let same = launch-schedule e req (i ∷ rest) x in
      elim (Option-cases (first_failure results (i ∷ rest))) [
        | inl fine ↦ rw (fine, run_round) (go_on-Advances x p results i rest x' same ready fine)
        | inr ((j, error), bad) ↦
            rw (bad, run_round) (handle_failed-Advances x p results (i ∷ rest) j error x' same)
      ]

  -- No more steps are done than there are.
  pub done-le : (x : Execution W D) → InProgress e.max_replans x → x.done ≤ length x.dag.nodes
  done-le x p = omega (arith, p.counted, length-closed-le x.dag p.closed p.scheduler)

  -- The scheduler has as many nodes as the plan has steps.
  nodes-steps :
      (x : Execution W D) (p : InProgress e.max_replans x)
      → length x.dag.nodes ≡ length x.plan.steps
  unfolding len
  nodes-steps x p =
      ap (λ (d : DagScheduler). length d.nodes) p.follows
      ∙ length-mark_all p.marked p.first
      ∙ (new_dag_scheduler-IsScheduler x.plan p.first p.built).1

  -- A round either finishes or makes progress.
  pub batch_round-Advances :
      (x : Execution W D) → InProgress e.max_replans x → Advances x (batch_round e req x)
  unfolding batch_round len
  batch_round-Advances x p = elim (Bool-cases (ltb x.done (len x.dag))) [
    | inl more ↦ elim (List-cases (ready_steps x.dag)) [
      | inl idle ↦
          rw (more, idle, batch_round)
            (complete_run-Finished x p
              (p.counted ∙ all_closed x.dag p.closed p.scheduler idle ∙ nodes-steps x p))
      | inr (i, rest, ready) ↦ rw (more, ready, batch_round) (run_round-Advances x p i rest ready)
    ]
    | inr over ↦
        rw (over, batch_round)
          (complete_run-Finished x p (ground (arith, over, done-le x p, nodes-steps x p)))
  ]
