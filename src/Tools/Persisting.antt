-- ===== src/Tools/Persisting.antt =====
-- tools/persisting_executor.go: an executor that records every call.
use agent_orchestrator_go.Base.{
  ℕ, suc, ◌≡◌, refl, ◌∙◌, sym, Bool, true, false, List, [], ◌∷◌, ◌++◌, Option, some, none, Text,
  txt, decimal, Result, ok, err,
}
use mathlib.Core.List.{append-nil, append_assoc}
use agent_orchestrator_go.Tools.{
  Call, ToolResult, Executor, Program, answer, use_tool, run_program, Json,
}

-- `ToolCallRecord`, less its two times.
pub record ToolCallRecord : Type 0 where
  pub tool_call_id : Text
  pub run_id : Text
  pub step_id : Text
  pub tool_name : Text
  pub input : Text
  pub output : Text
  pub succeeded : Bool

-- A recorder over its state `R`: `Record`, with its error. `none` is the nil recorder.
abbrev pub Recorder : Type 0 → Type 0
Recorder R = Option (R → ToolCallRecord → Option Text × R)

-- The state of the inner executor, of the recorder, and `seq`.
pub record Persisting (S R : Type 0) : Type 0 where
  pub inner : S
  pub recorded : R
  pub seq : ℕ

-- `fmt.Sprintf("%s-%s-tc-%d", e.runID, e.stepID, e.seq)`
unfoldable pub call_id : Text → Text → ℕ → Text
call_id run_id step_id seq = run_id ++ (txt "-" ++ (step_id ++ (txt "-tc-" ++ decimal seq)))

abbrev pub outcome : Json → Result ToolResult → Text
outcome json (err e) = e
outcome json (ok r) = json.marshal r.content

abbrev pub is_ok {ℓ} : {A : Type ℓ} → Result A → Bool
is_ok (ok _) = true
is_ok (err _) = false

module _ (json : Json) (run_id step_id : Text) where
  -- The record of one call, the `seq`-th of its executor.
  unfoldable pub record_of : ℕ → Call → Result ToolResult → ToolCallRecord
  unfolding call_id
  record_of seq call result = record {
    tool_call_id = call_id run_id step_id seq;
    run_id = run_id;
    step_id = step_id;
    tool_name = call.tool_name;
    input = json.marshal call.args;
    output = outcome json result;
    succeeded = is_ok result;
  }

-- `if e.recorder != nil { _ = e.recorder.Record(rec) }`
abbrev pub best_effort : {R : Type 0} → Recorder R → ToolCallRecord → R → R
best_effort none rec r = r
best_effort (some write) rec r = (write r rec).1

-- A recorder that keeps everything, the latest last.
abbrev pub log_recorder : Recorder (List ToolCallRecord)
log_recorder = some (λ log rec. (none, log ++ rec ∷ []))

module _ {S R : Type 0} (json : Json) (run_id step_id : Text) (recorder : Recorder R)
    (execute : Executor S) where
  unfoldable pub persisting_execute : Executor (Persisting S R)
  unfolding record_of
  persisting_execute e call =
      let seq = suc e.seq in
      let (result, s) = execute e.inner call in
      let rec = record_of json run_id step_id seq call result in
      (result, record { inner = s; recorded = best_effort recorder rec e.recorded; seq = seq })

  -- Whatever the recorder does, its errors included, a program answers as without it, and does the
  -- same to the executor below.
  pub persisting-transparent :
      (p : Program) (e : Persisting S R)
      → ((run_program persisting_execute p e).0 ≡ (run_program execute p e.inner).0)
        × ((run_program persisting_execute p e).1.inner ≡ (run_program execute p e.inner).1)
  unfolding run_program persisting_execute
  persisting-transparent (answer r) e = (refl, refl)
  persisting-transparent (use_tool call k) e =
      persisting-transparent (k (execute e.inner call).0) (persisting_execute e call).1

module _ {S : Type 0} (json : Json) (run_id step_id : Text) (execute : Executor S) where
  -- The records of the calls that a program makes.
  unfoldable pub trace : Program → S → ℕ → List ToolCallRecord
  trace (answer r) s seq = []
  trace (use_tool call k) s seq =
      record_of json run_id step_id (suc seq) call (execute s call).0
      ∷ trace (k (execute s call).0) (execute s call).1 (suc seq)

  -- A recorder that keeps what it is given has each call of a program once, after what it had, in the
  -- order of the calls, each with its own number.
  pub recorded-trace :
      (p : Program) (e : Persisting S (List ToolCallRecord))
      → (run_program (persisting_execute json run_id step_id log_recorder execute) p e).1.recorded
        ≡ e.recorded ++ trace p e.inner e.seq
  unfolding run_program persisting_execute trace
  recorded-trace (answer r) e = sym (append-nil e.recorded)
  recorded-trace (use_tool call k) e =
      recorded-trace (k (execute e.inner call).0)
        (persisting_execute json run_id step_id log_recorder execute e call).1
      ∙ append_assoc e.recorded _ _
