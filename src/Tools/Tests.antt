-- ===== src/Tools/Tests.antt =====
-- Package tools at concrete inputs: an echo tool called with and without recording.
use agent_orchestrator_go.Base.{
  ℕ, suc, ◌≡◌, ◌≢◌, refl, List, [], ◌∷◌, ◌++◌, some, Text, txt, text_eq, Result, ok, err,
  if◌then◌else◌,
}
use agent_orchestrator_go.Value.{str, Fields, nil_map, end, field}
use agent_orchestrator_go.Tools.{ToolResult, Executor, Program, answer, use_tool, run_program, Json}
use agent_orchestrator_go.Tools.Registry.{
  Tool, find_tool, check_tool, register, get, get-register, register_duplicate,
}
use agent_orchestrator_go.Tools.Collector.{new_collector, collector_execute, collector-transparent}
use agent_orchestrator_go.Tools.Persisting.{
  ToolCallRecord, Recorder, Persisting, persisting_execute, log_recorder, trace,
  persisting-transparent, recorded-trace,
}

abbrev echo_code : Fields → Text
echo_code nil_map = []
echo_code end = []
echo_code (field _ (str t) _) = t
echo_code (field _ _ _) = []

-- An encoding that keeps the maps with one text under the key "out".
abbrev echo_json : Json
echo_json = record { marshal = echo_code; unmarshal = λ t. ok (field (txt "out") (str t) end) }

-- A tool that answers its name and counts its calls.
abbrev echo_execute : Executor ℕ
echo_execute n call = (
  ok (record {
    result_tool = call.tool_name;
    content = field (txt "out") (str call.tool_name) end;
  }),
  suc n,
)

abbrev finish_with : Result ToolResult → Result Fields
finish_with (ok r) = ok r.content
finish_with (err e) = err e

-- Two calls, then the answer of the second.
abbrev two_calls : Program
two_calls =
    use_tool (record { tool_name = txt "echo.a"; args = end })
      (λ _.
        use_tool (record { tool_name = txt "echo.b"; args = nil_map })
          (λ r. answer (finish_with r)))

abbrev echo_tool : Tool ℕ
echo_tool = record { name = txt "echo"; spec_name = []; execute = echo_execute }

abbrev registered : List (Text × Tool ℕ)
registered = (txt "echo", echo_tool) ∷ []

echo_registered : register (some echo_tool) [] ≡ ok registered
unfolding register find_tool check_tool text_eq
echo_registered = refl

get_echo : get (txt "echo") registered ≡ ok echo_tool
unfolding get find_tool text_eq
get_echo = refl

get-register_example : get (txt "fs.read_file") registered ≡ (
    if text_eq (txt "echo") (txt "fs.read_file") then ok echo_tool else get (txt "fs.read_file") [])
get-register_example = get-register echo_tool [] registered (txt "fs.read_file") echo_registered

register_duplicate_example : register (some echo_tool) registered ≢ ok registered
register_duplicate_example = register_duplicate echo_tool echo_tool registered registered get_echo

collector-transparent_example :
    ((run_program (collector_execute echo_execute) two_calls (new_collector 0)).0
      ≡ (run_program echo_execute two_calls 0).0)
    × ((run_program (collector_execute echo_execute) two_calls (new_collector 0)).1.inner
        ≡ (run_program echo_execute two_calls 0).1)
collector-transparent_example = collector-transparent echo_execute two_calls (new_collector 0)

abbrev fresh_log : Persisting ℕ (List ToolCallRecord)
fresh_log = record { inner = 0; recorded = []; seq = 0 }

-- A recorder that counts the records and refuses them all.
abbrev refusing : Recorder ℕ
refusing = some (λ n rec. (some (txt "disk full"), suc n))

abbrev refused_log : Persisting ℕ ℕ
refused_log = record { inner = 0; recorded = 0; seq = 0 }

persisting-transparent_example :
    ((run_program
        (persisting_execute echo_json (txt "run") (txt "step") refusing echo_execute)
        two_calls
        refused_log).0
      ≡ (run_program echo_execute two_calls 0).0)
    × ((run_program
          (persisting_execute echo_json (txt "run") (txt "step") refusing echo_execute)
          two_calls
          refused_log).1.inner
        ≡ (run_program echo_execute two_calls 0).1)
persisting-transparent_example =
    persisting-transparent echo_json (txt "run") (txt "step") refusing echo_execute two_calls
      refused_log

recorded-trace_example :
    (run_program
      (persisting_execute echo_json (txt "run") (txt "step") log_recorder echo_execute)
      two_calls
      fresh_log).1.recorded
    ≡ [] ++ trace echo_json (txt "run") (txt "step") echo_execute two_calls 0 0
recorded-trace_example =
    recorded-trace echo_json (txt "run") (txt "step") echo_execute two_calls fresh_log
