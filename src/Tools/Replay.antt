-- ===== src/Tools/Replay.antt =====
-- tools/replay_executor.go: an executor that answers from stored records.
pub mod Faithful
use agent_orchestrator_go.Base.{
  quote, ℕ, zero, suc, ◌+◌, ◌≡◌, Bool, true, false, not, ◌&&◌, List, [], ◌∷◌, ◌++◌, Option, some,
  none, Text, txt, text_eq, if◌then◌else◌, Result, ok, err, ◌>>=◌,
}
use agent_orchestrator_go.Value.{Fields}
use agent_orchestrator_go.Tools.{Call, ToolResult, Executor, Json}
use agent_orchestrator_go.Tools.Persisting.{ToolCallRecord}

pub record ReplayEntry : Type 0 where
  pub input_json : Text
  pub output : Fields
  pub consumed : Bool

-- `map[string][]replayEntry`
abbrev pub Entries : Type 0
Entries = List (Text × List ReplayEntry)

-- `r.entries[k]`; a missing key reads as no entries.
unfoldable pub candidates : Text → Entries → List ReplayEntry
candidates k [] = []
candidates k ((j, es) ∷ m) = if text_eq j k then es else candidates k m

-- `entries[k] = es`
unfoldable pub set_entries : Text → List ReplayEntry → Entries → Entries
set_entries k es [] = (k, es) ∷ []
set_entries k es ((j, old) ∷ m) =
    let rest = set_entries k es m in if text_eq j k then (k, es) ∷ m else (j, old) ∷ rest

abbrev pub add_entry : Text → ReplayEntry → Entries → Entries
add_entry k e m = set_entries k (candidates k m ++ e ∷ []) m

-- `fmt.Errorf("replay: corrupt output for call %s: %w", rec.ToolCallID, err)`
unfoldable pub corrupt : Text → Text → Text
corrupt id e = txt "replay: corrupt output for call " ++ (id ++ (txt ": " ++ e))

-- The loop of `NewReplayExecutor`.
unfoldable pub load_records : Json → List ToolCallRecord → Entries → Result Entries
unfolding candidates set_entries
load_records json [] m = ok m
load_records json (rec ∷ records) m = elim rec.succeeded [
  | false ↦ load_records json records m
  | true ↦ elim (json.unmarshal rec.output) [
    | err e ↦ err (corrupt rec.tool_call_id e)
    | ok output ↦ load_records json records (
        add_entry rec.tool_name
          (record { input_json = rec.input; output = output; consumed = false }) m)
  ]
]

unfoldable pub new_replay_executor : Json → List ToolCallRecord → Result Entries
unfolding load_records
new_replay_executor json records = load_records json records []

-- The loop over the candidates: the output of the first entry that is not consumed and has the
-- input, and the candidates with that entry consumed.
unfoldable pub consume : Text → List ReplayEntry → Option (Fields × List ReplayEntry)
consume input [] = none
consume input (e ∷ es) =
    let rest = consume input es in
    if not e.consumed && text_eq e.input_json input
    then some (e.output, record e { consumed = true } ∷ es)
    else elim rest [ none ↦ none | some (output, es') ↦ some (output, e ∷ es') ]

-- `fmt.Errorf("replay: no stored output for tool %q with input %s", ...)`
unfoldable pub no_stored : Text → Text → Text
no_stored tool input =
    txt "replay: no stored output for tool " ++ (quote tool ++ (txt " with input " ++ input))

unfoldable pub replay_execute : Json → Executor Entries
unfolding candidates set_entries consume
replay_execute json m call = elim (consume (json.marshal call.args) (candidates call.tool_name m)) [
  | none ↦ (err (no_stored call.tool_name (json.marshal call.args)), m)
  | some (output, es) ↦ (
    ok (record { result_tool = call.tool_name; content = output }),
    set_entries call.tool_name es m,
  )
]

-- `Unconsumed`
abbrev pub unconsumed_in : List ReplayEntry → ℕ
unconsumed_in [] = 0
unconsumed_in (e ∷ es) = (if e.consumed then 0 else 1) + unconsumed_in es

unfoldable pub unconsumed : Entries → ℕ
unconsumed [] = 0
unconsumed ((k, es) ∷ m) = unconsumed_in es + unconsumed m
