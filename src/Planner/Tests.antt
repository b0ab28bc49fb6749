-- ===== src/Planner/Tests.antt =====
-- The plan of log analysis, replanned after its second step has failed.
use agent_orchestrator_go.Base.{
  ℕ, zero, suc, ◌≤◌, ◌<◌, ◌≡◌, ◌≢◌, refl, ◌⊎◌, [], ◌∷◌, map, some, Text, txt, text_eq, text_eq_refl,
  ok, err, arith, length, get_elem?, some-eq, ap, ◌∙◌, true,
}
use agent_orchestrator_go.Value.{end}
use agent_orchestrator_go.Failure.{tool_failure}
use agent_orchestrator_go.Planner.Plan.{PlanStep, Plan}
use agent_orchestrator_go.Planner.Replanner.{ReplanContext}
use agent_orchestrator_go.Planner.Fixed.{bare_step, log_analysis_plan}
use agent_orchestrator_go.Planner.ContextAware.{
  ContextAwarePlanner, replan_remaining, handle_tool_replan,
}
use agent_orchestrator_go.Planner.ContextAware.Remaining.{outline, replan-outline, replan_usable}
use agent_orchestrator_go.Planner.ContextAware.Dangling.{replan_dangling}
use agent_orchestrator_go.Orchestrator.Dag.{no_children, new_dag_scheduler}

abbrev scan_step : PlanStep
scan_step = record (bare_step (txt "agent.log_reader")) { step_id = txt "scan" }

abbrev analyze_step : PlanStep
analyze_step = record (bare_step (txt "agent.log_analyzer")) {
  step_id = txt "analyze";
  depends_on = txt "scan" ∷ [];
}

abbrev analysis : Plan
analysis = record { task_id = txt "logs"; steps = scan_step ∷ analyze_step ∷ [] }

analysis_planned : log_analysis_plan (txt "logs") ≡ ok analysis
unfolding log_analysis_plan
analysis_planned = refl

abbrev analyzer_failed : ReplanContext
analyzer_failed = record {
  task_id = txt "logs";
  original_plan = some analysis;
  failed_step_index = 1;
  failed_agent_id = txt "agent.log_analyzer";
  failure_error = txt "tool timeout";
  failure_type = tool_failure;
  completed_steps = [];
  vars = end;
  attempt = 1;
  max_replans = 3;
}

abbrev analysis_planner : ContextAwarePlanner
analysis_planner = record { registry = []; fallback_agent_id = [] }

abbrev replanned : Plan
replanned = record {
  task_id = txt "logs";
  steps = handle_tool_replan analysis_planner analyzer_failed;
}

analysis_replanned : replan_remaining analysis_planner analyzer_failed ≡ ok replanned
unfolding replan_remaining
analysis_replanned = refl

replan-outline_example : map outline replanned.steps ≡ map outline (analyze_step ∷ [])
replan-outline_example =
    replan-outline analysis_planner analyzer_failed analysis replanned refl (omega arith)
      analysis_replanned

replan_usable_example :
    ((1 ≤ 3)
      × ((plan : Plan) × (replan_remaining analysis_planner analyzer_failed ≡ ok plan)
          × (plan.task_id ≡ txt "logs")
          × (0 < length plan.steps)))
    ⊎ ((3 < 1)
        × ((message : Text) × (replan_remaining analysis_planner analyzer_failed ≡ err message)))
replan_usable_example = replan_usable analysis_planner analyzer_failed

analyze_ne_scan : txt "analyze" ≢ txt "scan"
unfolding text_eq
analyze_ne_scan e =
    let same : text_eq (txt "analyze") (txt "scan") ≡ true =
      ap (λ t. text_eq t (txt "scan")) e ∙ text_eq_refl (txt "scan") in
    cc

scan_dropped :
    (q : ℕ) (t : PlanStep) → get_elem? (analyze_step ∷ []) q ≡ some t → t.step_id ≢ txt "scan"
scan_dropped zero t at e = analyze_ne_scan (ap (λ (u : PlanStep). u.step_id) (some-eq at) ∙ e)
scan_dropped (suc q) t at e = cc

replan_dangling_example :
    new_dag_scheduler replanned ≢ ok (record { nodes = []; children = no_children })
replan_dangling_example =
    replan_dangling analysis_planner analyzer_failed analysis replanned 0 0 analyze_step
      (txt "scan") (record { nodes = []; children = no_children }) refl (omega arith)
      analysis_replanned refl refl scan_dropped
