-- ===== src/Tools/Collector.antt =====
-- tools/collector.go: an executor that logs the successful outputs of a run.
use agent_orchestrator_go.Base.{map, ◌≡◌, refl, List, [], ◌∷◌, ◌++◌, Text, Result, ok, err}
use agent_orchestrator_go.Value.{Fields}
use agent_orchestrator_go.Tools.{
  Json, Call, ToolResult, Executor, Program, answer, use_tool, run_program,
}

pub record CollectedOutput : Type 0 where
  pub output_tool : Text
  pub input : Fields
  pub output : Fields

-- The state of the inner executor, and `outputs`.
pub record Collecting (S : Type 0) : Type 0 where
  pub inner : S
  pub outputs : List CollectedOutput

abbrev pub collected : Call → Result ToolResult → List CollectedOutput → List CollectedOutput
collected call (err e) outputs = outputs
collected call (ok r) outputs =
    outputs ++ record { output_tool = call.tool_name; input = call.args; output = r.content } ∷ []

module _ {S : Type 0} where
  abbrev pub new_collector : S → Collecting S
  new_collector s = record { inner = s; outputs = [] }

  unfoldable pub collector_execute : Executor S → Executor (Collecting S)
  collector_execute execute c call =
      let (result, s) = execute c.inner call in
      (result, record { inner = s; outputs = collected call result c.outputs })

  -- `AddOutput`
  unfoldable pub add_output : CollectedOutput → Collecting S → Collecting S
  add_output o c = record { inner = c.inner; outputs = c.outputs ++ o ∷ [] }

  -- `OutputsJSON`
  unfoldable pub outputs_json : Json → Collecting S → List Text
  outputs_json json c = map (λ (o : CollectedOutput). json.marshal o.output) c.outputs

  -- Collecting changes neither what a program answers nor what it does to the executor below.
  pub collector-transparent :
      (execute : Executor S) (p : Program) (c : Collecting S)
      → ((run_program (collector_execute execute) p c).0 ≡ (run_program execute p c.inner).0)
        × ((run_program (collector_execute execute) p c).1.inner
            ≡ (run_program execute p c.inner).1)
  unfolding run_program collector_execute
  collector-transparent execute (answer r) c = (refl, refl)
  collector-transparent execute (use_tool call k) c =
      collector-transparent execute (k (execute c.inner call).0)
        (collector_execute execute c call).1
