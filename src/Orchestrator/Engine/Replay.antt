-- ===== src/Orchestrator/Engine/Replay.antt =====
-- orchestrator/engine.go: `Replay`, which runs a stored run again over its tool calls.
mod Tests
use agent_orchestrator_go.Base.{
  if◌then◌else◌, ◌⊎◌, ℕ, Bool, true, false, pos, ◌≡◌, sym, List, map, Option, some, none, Text, txt,
  ◌++◌, Result, ok, err, ◌>>=◌, arith, text_eq, Option-cases,
}
use agent_orchestrator_go.Value.{Fields, nil_map, int, str, insert, lookup}
use agent_orchestrator_go.Tools.{Executor, Json}
use agent_orchestrator_go.Tools.Stored.{ToolCallStatus, call_succeeded, call_failed, StoredCall}
use agent_orchestrator_go.Tools.Persisting.{Recorder, ToolCallRecord}
use agent_orchestrator_go.Tools.Replay.{Entries, new_replay_executor, replay_execute, unconsumed}
use agent_orchestrator_go.Orchestrator.Engine.{
  AgentRun, Engine, RunRepository, Execution, ExecutionRequest, ExecutionResult, execute,
}
use agent_orchestrator_go.Orchestrator.Engine.Progress.{Finished}

abbrev pub has_succeeded : ToolCallStatus → Bool
has_succeeded call_succeeded = true
has_succeeded call_failed = false

-- A stored call as a record of package tools.
abbrev pub record_of : StoredCall → ToolCallRecord
record_of tc = record {
  tool_call_id = tc.tool_call_id;
  run_id = tc.run_id;
  step_id = tc.step_id;
  tool_name = tc.tool_name;
  input = tc.input;
  output = tc.output;
  succeeded = has_succeeded tc.status;
}

abbrev pub or_replay_error : {A : Type 0} → Text → Result A → Result A
or_replay_error prefix (ok a) = ok a
or_replay_error prefix (err e) = err (prefix ++ e)

-- The result with the metadata of the replay.
unfoldable pub attach : Text → ℕ → ExecutionResult → ExecutionResult
attach original_run_id left result = record result {
  output =
      insert (txt "_replay_unconsumed_calls") (int (pos left))
        (insert (txt "_replay_source") (str original_run_id) result.output);
}

-- The engine over any tools, in a world that holds their state, and over any recorder of their calls.
-- `get_tool_calls` reads the tool call repository, where there is one.
module _ {W D R : Type 0} (json : Json)
    (engine : (S : Type 0) → Executor S → Recorder R → Engine (W × S) D)
    (get_tool_calls : Option (D → Text → Result (List StoredCall))) where
  -- `e.tools = replayExec; e.toolRecorder = nil`
  abbrev pub replaying : Engine (W × Entries) D
  replaying = engine Entries (replay_execute json) none

  abbrev pub attached :
      Text → Result ExecutionResult × Execution (W × Entries) D → Result ExecutionResult × D
  attached original_run_id (err u, x) = (err u, x.db)
  attached original_run_id (ok result, x) =
      (ok (attach original_run_id (unconsumed x.world.1) result), x.db)

  -- The goal of the run and the entries for its calls, or what is missing.
  unfoldable pub load_replay : D → Text → Result (Text × Entries)
  load_replay db original_run_id = elim replaying.runs [
    | none ↦ err (txt "replay: run repository is required")
    | some runs ↦ elim get_tool_calls [
      | none ↦ err (txt "replay: tool call repository is required")
      | some get_calls ↦
          or_replay_error (txt "replay: run " ++ (original_run_id ++ txt " not found: "))
            (runs.get_by_id db original_run_id)
          >>= λ run.
              or_replay_error (txt "replay: failed to load tool calls: ")
                (get_calls db original_run_id)
              >>= λ calls.
                  or_replay_error (txt "replay: ") (new_replay_executor json (map record_of calls))
                  >>= λ entries. ok (run.goal, entries)
    ]
  ]

  abbrev pub replay_request : Text → Text → ExecutionRequest
  replay_request original_run_id goal = record {
    run_id = txt "replay-" ++ original_run_id;
    task_id = goal;
    input = nil_map;
  }

  abbrev pub attach_to :
      Text
      → Option (Result ExecutionResult × Execution (W × Entries) D)
      → Option (Result ExecutionResult × D)
  attach_to original_run_id none = none
  attach_to original_run_id (some q) = some (attached original_run_id q)

  -- `Replay`
  unfoldable pub replay : W → D → Text → Option (Result ExecutionResult × D)
  unfolding load_replay attach execute
  replay w db original_run_id = elim (load_replay db original_run_id) [
    | err u ↦ some (err u, db)
    | ok (goal, entries) ↦
        attach_to original_run_id
          (execute replaying (replay_request original_run_id goal) (w, entries) db)
  ]

  -- What the replay makes of how the execution ended: an error is kept; a result keeps its status and
  -- its error, and its output but for the two entries, which name the run that was replayed and say how
  -- many of the stored calls the replay executor has left.
  abbrev pub IsReplayed :
      Text
      → Result ExecutionResult × Execution (W × Entries) D
      → Result ExecutionResult × D
      → Type 0
  IsReplayed id (err u, x) q = q ≡ (err u, x.db)
  IsReplayed id (ok r, x) q =
      (r' : ExecutionResult) × (q ≡ (ok r', x.db))
      × (r'.run_id ≡ r.run_id)
      × (r'.status ≡ r.status)
      × (r'.error ≡ r.error)
      × ((k : Text)
          → lookup k r'.output ≡ (
              if text_eq (txt "_replay_unconsumed_calls") k
              then some (int (pos (unconsumed x.world.1)))
              else if text_eq (txt "_replay_source") k
              then some (str id)
              else lookup k r.output))

  -- Nothing is run; or the engine, replaying, finishes, and its result is passed on.
  abbrev pub Replays : W → D → Text → Type 0
  Replays w db original_run_id =
      ((u : Text) × (load_replay db original_run_id ≡ err u)
        × (replay w db original_run_id ≡ some (err u, db)))
      ⊎ ((goal : Text) × (entries : Entries) × (load_replay db original_run_id ≡ ok (goal, entries))
          × (a : Result ExecutionResult × Execution (W × Entries) D) × (execute replaying
                (replay_request original_run_id goal) (w, entries) db
              ≡ some a)
          × Finished replaying (replay_request original_run_id goal) a
          × (q : Result ExecutionResult × D) × (replay w db original_run_id ≡ some q)
          × IsReplayed original_run_id a q)
