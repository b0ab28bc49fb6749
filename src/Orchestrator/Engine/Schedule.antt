-- ===== src/Orchestrator/Engine/Schedule.antt =====
-- orchestrator/engine.go: what each part of a round of `Execute` does to its scheduler.
use agent_orchestrator_go.Base.{
  ℕ, suc, ◌+◌, ◌≡◌, refl, ◌∙◌, inl, inr, List, [], ◌∷◌, some, none, Result, arith, Result-cases,
  Bool-cases, length,
}
use agent_orchestrator_go.Value.{Fields, is_nil_map}
use agent_orchestrator_go.Orchestrator.Dag.{mark_done}
use agent_orchestrator_go.Orchestrator.Dag.Batch.{mark_all}
use agent_orchestrator_go.Orchestrator.Engine.{
  Engine, Execution, ExecutionRequest, first_failure, keep_output, keep_outputs, merge_outputs,
  store_run, note_indices, launch,
}

pub some_ne_none : {A : Type 0} {a : A} → some a ≡ none → ⊥
some_ne_none h = cc

module _ {W D : Type 0} where
  -- The parts of the variables that the scheduling is about.
  abbrev pub SameSchedule : Execution W D → Execution W D → Type 0
  SameSchedule x y =
      (x.dag ≡ y.dag) × (x.done ≡ y.done) × (x.replan_count ≡ y.replan_count) × (x.plan ≡ y.plan)

  same_trans : (x y z : Execution W D) → SameSchedule x y → SameSchedule y z → SameSchedule x z
  same_trans x y z xy yz = (xy.0 ∙ yz.0, xy.1 ∙ yz.1, xy.2 ∙ yz.2, xy.3 ∙ yz.3)

  pub keep_outputs-schedule :
      (results : ℕ → Result Fields) (ready : List ℕ) (x : Execution W D)
      → SameSchedule (keep_outputs results ready x) x
  unfolding keep_outputs
  keep_outputs-schedule results [] x = (refl, refl, refl, refl)
  keep_outputs-schedule results (i ∷ ready) x = elim (Result-cases (results i)) [
    | inl (output, ran) ↦ elim (Bool-cases (is_nil_map output)) [
      | inl empty ↦ rw (ran, empty, keep_outputs) (keep_outputs-schedule results ready x)
      | inr full ↦
          rw (ran, full, keep_outputs)
            (keep_outputs-schedule results ready (keep_output i output x))
    ]
    | inr (u, bad) ↦ rw (bad, keep_outputs) (keep_outputs-schedule results ready x)
  ]

  -- A batch without a failure marks its steps done.
  pub merge_outputs-schedule :
      (results : ℕ → Result Fields) (ready : List ℕ) (x : Execution W D)
      → first_failure results ready ≡ none
      → ((merge_outputs results ready x).dag ≡ mark_all ready x.dag)
        × ((merge_outputs results ready x).done ≡ length ready + x.done)
        × ((merge_outputs results ready x).replan_count ≡ x.replan_count)
        × ((merge_outputs results ready x).plan ≡ x.plan)
  unfolding merge_outputs first_failure mark_all
  merge_outputs-schedule results [] x h = (refl, omega arith, refl, refl)
  merge_outputs-schedule results (i ∷ ready) x h = elim (Result-cases (results i)) [
    | inl (output, ran) ↦
        let x' = record (keep_output i output x) {
          final_output = output;
          dag = mark_done i x.dag;
          done = suc x.done;
        } in
        let rest = merge_outputs-schedule results ready x' (rw (ran, first_failure) at h) in
        rw (ran, merge_outputs, mark_all) (rest.0, omega (arith, rest.1), rest.2, rest.3)
    | inr (u, bad) ↦ absurd (some_ne_none (rw (bad, first_failure) at h))
  ]

module _ {W D : Type 0} (e : Engine W D) (req : ExecutionRequest) where
  pub store_run-schedule : (x : Execution W D) → SameSchedule (store_run e req x) x
  unfolding store_run
  store_run-schedule x = ground arith

  note_indices-schedule :
      (ready : List ℕ) (x : Execution W D) → SameSchedule (note_indices e req ready x) x
  unfolding note_indices
  note_indices-schedule [] x = (refl, refl, refl, refl)
  note_indices-schedule (i ∷ ready) x =
      let next = record x {
        run = record x.run { current_step_index = i + length x.completed_steps };
      } in
      same_trans (note_indices e req (i ∷ ready) x) (store_run e req next) x
        (note_indices-schedule ready (store_run e req next)) (store_run-schedule next)

  pub launch-schedule :
      (ready : List ℕ) (x : Execution W D) → SameSchedule (launch e req ready x).1 x
  unfolding launch
  launch-schedule ready x = note_indices-schedule ready x
