-- ===== src/Orchestrator/Metrics/Evaluate.antt =====
-- orchestrator/metrics.go: the counts of `evaluateRuns` and the rates made of them.
use agent_orchestrator_go.Base.{
  ℕ, suc, ◌+◌, Bool, false, ◌&&◌, ◌||◌, List, [], ◌∷◌, ◌++◌, map, some, none, Text, txt, text_eq,
  contains, ltb, if◌then◌else◌, Result, ok, err, ◌>>=◌, length, take, last_index, member,
  normalize_space,
}
use agent_orchestrator_go.Tools.{Json}
use agent_orchestrator_go.Tools.Stored.{StoredCall}
use agent_orchestrator_go.Orchestrator.StepExecutor.{AgentStep}
use agent_orchestrator_go.Orchestrator.Engine.{
  AgentRun, AgentRunStatus, run_created, run_running, run_failed, run_completed,
}
use agent_orchestrator_go.Orchestrator.Metrics.{
  is_succeeded, is_failed, output_of, has_valid_structured_output, calls_text, calls_files,
  MetricsEvidence, extract_evidence, Grounding,
}

-- `isSubstringNormalized`, with Unicode's table of lower-case letters.
unfoldable pub is_substring_normalized : (ℕ → ℕ) → Text → Text → Bool
is_substring_normalized lower corpus line =
    contains (map lower (normalize_space line)) (map lower (normalize_space corpus))

-- `fileOK && textOK`
unfoldable pub is_evidence_grounded : (ℕ → ℕ) → Text → List Text → MetricsEvidence → Bool
unfolding is_substring_normalized
is_evidence_grounded lower corpus files ev =
    (text_eq ev.file [] || member ev.file files)
    && (text_eq ev.line [] || is_substring_normalized lower corpus ev.line)

unfoldable pub count_items : (MetricsEvidence → Bool) → List MetricsEvidence → Grounding → Grounding
count_items test [] n = n
count_items test (ev ∷ evidence) n =
    count_items test evidence
      (record { total = suc n.total; grounded = if test ev then suc n.grounded else n.grounded })

unfoldable pub count_steps :
    Json → (MetricsEvidence → Bool) → List AgentStep → Grounding → Grounding
unfolding count_items
count_steps json test [] n = n
count_steps json test (s ∷ steps) n = count_steps json test steps (elim (output_of json s) [
  | none ↦ n
  | some output ↦ count_items test (extract_evidence output) n
])

-- `computeGrounding`
unfoldable pub compute_grounding : Json → (ℕ → ℕ) → List AgentStep → List StoredCall → Grounding
unfolding count_steps is_evidence_grounded
compute_grounding json lower steps calls =
    count_steps json (is_evidence_grounded lower (calls_text json calls) (calls_files json calls))
      steps (record { total = 0; grounded = 0 })

-- `logicalStepPrefix`
unfoldable pub logical_step_prefix : Text → Text
logical_step_prefix id = elim (last_index (txt "-attempt-") id) [ none ↦ [] | some i ↦ take i id ]

-- `stepGroup`
pub record StepGroup : Type 0 where
  pub has_failed : Bool
  pub has_succeeded : Bool

abbrev pub add_status : AgentStep → StepGroup → StepGroup
add_status s g = record {
  has_failed = g.has_failed || is_failed s.status;
  has_succeeded = g.has_succeeded || is_succeeded s.status;
}

abbrev pub new_group : StepGroup
new_group = record { has_failed = false; has_succeeded = false }

-- The group of that prefix, made where it is missing, takes the step in.
unfoldable pub add_to_group : Text → AgentStep → List (Text × StepGroup) → List (Text × StepGroup)
add_to_group p s [] = (p, add_status s new_group) ∷ []
add_to_group p s ((q, g) ∷ groups) =
    let rest = add_to_group p s groups in
    if text_eq q p then (q, add_status s g) ∷ groups else (q, g) ∷ rest

unfoldable pub group_steps : List AgentStep → List (Text × StepGroup) → List (Text × StepGroup)
group_steps [] groups = groups
group_steps (s ∷ steps) groups = group_steps steps (
    if text_eq (logical_step_prefix s.step_id) []
    then groups
    else add_to_group (logical_step_prefix s.step_id) s groups)

pub record Repairs : Type 0 where
  pub repairable : ℕ
  pub repaired : ℕ

-- The loop over the groups, which may go over them in any order.
unfoldable pub count_repairs : List (Text × StepGroup) → Repairs → Repairs
count_repairs [] n = n
count_repairs ((p, g) ∷ groups) n = count_repairs groups (
    if g.has_failed
    then record {
      repairable = suc n.repairable;
      repaired = if g.has_succeeded then suc n.repaired else n.repaired;
    }
    else n)

-- `computeRepairRate`
unfoldable pub compute_repair_rate : List AgentStep → Repairs
unfolding group_steps count_repairs
compute_repair_rate steps =
    count_repairs (group_steps steps []) (record { repairable = 0; repaired = 0 })

-- The counts of `Metrics`, and `validStructureCount`.
pub record Tally : Type 0 where
  pub total_runs : ℕ
  pub succeeded_runs : ℕ
  pub failed_runs : ℕ
  pub total_steps : ℕ
  pub total_tool_calls : ℕ
  pub total_evidence_items : ℕ
  pub grounded_evidence_items : ℕ
  pub total_repairable_steps : ℕ
  pub successfully_repaired : ℕ
  pub valid_structure_count : ℕ

abbrev pub new_tally : ℕ → Tally
new_tally runs = record {
  total_runs = runs;
  succeeded_runs = 0;
  failed_runs = 0;
  total_steps = 0;
  total_tool_calls = 0;
  total_evidence_items = 0;
  grounded_evidence_items = 0;
  total_repairable_steps = 0;
  successfully_repaired = 0;
  valid_structure_count = 0;
}

unfoldable pub count_status : AgentRunStatus → Tally → Tally
count_status run_completed t = record t { succeeded_runs = suc t.succeeded_runs }
count_status run_failed t = record t { failed_runs = suc t.failed_runs }
count_status run_created t = t
count_status run_running t = t

-- What a `MetricsEvaluator` reads from: the three repositories at one state of the storage, JSON and
-- Unicode's table of lower-case letters.
pub record MetricsEvaluator : Type 0 where
  pub get_run : Text → Result AgentRun
  pub get_steps : Text → Result (List AgentStep)
  pub get_tool_calls : Text → Result (List StoredCall)
  pub json : Json
  pub lower : ℕ → ℕ

abbrev pub or_message : {A : Type 0} → Text → Result A → Result A
or_message prefix (ok a) = ok a
or_message prefix (err e) = err (prefix ++ (txt ": " ++ e))

-- What one run adds.
unfoldable pub add_run : MetricsEvaluator → List AgentStep → List StoredCall → Tally → Tally
unfolding compute_grounding compute_repair_rate
add_run m steps calls t =
    let grounding = compute_grounding m.json m.lower steps calls in
    let repairs = compute_repair_rate steps in
    record t {
      total_steps = t.total_steps + length steps;
      total_tool_calls = t.total_tool_calls + length calls;
      valid_structure_count =
          if has_valid_structured_output m.json steps
          then suc t.valid_structure_count
          else t.valid_structure_count;
      total_evidence_items = t.total_evidence_items + grounding.total;
      grounded_evidence_items = t.grounded_evidence_items + grounding.grounded;
      total_repairable_steps = t.total_repairable_steps + repairs.repairable;
      successfully_repaired = t.successfully_repaired + repairs.repaired;
    }

-- The loop of `evaluateRuns`.
unfoldable pub tally_runs : MetricsEvaluator → List AgentRun → Tally → Result Tally
unfolding count_status add_run
tally_runs m [] t = ok t
tally_runs m (run ∷ runs) t =
    or_message (txt "metrics: failed to load steps for " ++ run.run_id) (m.get_steps run.run_id)
    >>= λ steps.
        or_message (txt "metrics: failed to load tool calls for " ++ run.run_id)
          (m.get_tool_calls run.run_id)
        >>= λ calls. tally_runs m runs (add_run m steps calls (count_status run.status t))

-- `float64` with what the rates need of it.
pub record Floats (F : Type 0) : Type 0 where
  pub of_int : ℕ → F
  pub divide : F → F → F
  pub one_minus : F → F

pub record Metrics (F : Type 0) : Type 0 where
  pub counts : Tally
  pub structured_output_rate : F
  pub evidence_coverage : F
  pub hallucination_rate : F
  pub repair_success_rate : F

module _ {F : Type 0} (fl : Floats F) where
  abbrev pub ratio : ℕ → ℕ → F
  ratio part whole = fl.divide (fl.of_int part) (fl.of_int whole)

  -- `if whole > 0 { rate = part / whole }`
  abbrev pub rate_of : ℕ → ℕ → F
  rate_of part whole = if ltb 0 whole then ratio part whole else fl.of_int 0

  unfoldable pub rates : Tally → Metrics F
  rates t = record {
    counts = t;
    structured_output_rate = rate_of t.valid_structure_count t.total_runs;
    evidence_coverage = rate_of t.grounded_evidence_items t.total_evidence_items;
    hallucination_rate =
        if ltb 0 t.total_evidence_items
        then fl.one_minus (ratio t.grounded_evidence_items t.total_evidence_items)
        else fl.of_int 0;
    repair_success_rate = rate_of t.successfully_repaired t.total_repairable_steps;
  }

  -- `evaluateRuns`, which is `EvaluateAll`
  unfoldable pub evaluate_all : MetricsEvaluator → List AgentRun → Result (Metrics F)
  unfolding tally_runs rates
  evaluate_all m runs = tally_runs m runs (new_tally (length runs)) >>= λ t. ok (rates t)

  -- `Evaluate`
  unfoldable pub evaluate : MetricsEvaluator → Text → Result (Metrics F)
  unfolding evaluate_all
  evaluate m run_id = elim (m.get_run run_id) [
    | ok run ↦ evaluate_all m (run ∷ [])
    | err e ↦ err (txt "metrics: run " ++ (run_id ++ (txt " not found: " ++ e)))
  ]
