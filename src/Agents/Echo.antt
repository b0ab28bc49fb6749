-- ===== src/Agents/Echo.antt =====
-- agent/echo.go: an agent that gives its input back, and asks a tool for it in capital letters.
use agent_orchestrator_go.Base.{
  Bool, false, ◌&&◌, ◌≡◌, arith, Option, some, none, Text, txt, Result, ok, err, if◌then◌else◌,
}
use agent_orchestrator_go.Value.{Value, null, str, object, Fields, end, field, lookup, insert}
use agent_orchestrator_go.Value.Read.{string_at, bool_at}
use agent_orchestrator_go.Tools.{Call, ToolResult, Program, answer, use_tool, run_program}

-- `EchoAgent.Run`
unfoldable pub echo : Fields → Result Fields
echo input = ok (field (txt "echo") (object input) end)

abbrev pub upper_call : Text → Call
upper_call msg = record { tool_name = txt "uppercase"; args = field (txt "text") (str msg) end }

-- `m[k]`, nil where it is missing.
abbrev pub value_or_nil : Option Value → Value
value_or_nil (some v) = v
value_or_nil none = null

abbrev pub add_upper : Fields → Result ToolResult → Program
add_upper output (err e) = answer (err e)
add_upper output (ok r) =
    answer (ok (insert (txt "upper") (value_or_nil (lookup (txt "text") r.content)) output))

-- `EchoAgent.RunWithContext`, with or without tools.
unfoldable pub echo_with_tools : Bool → Fields → Program
echo_with_tools has_tools input =
    if bool_at (txt "use_tool") input && has_tools
    then use_tool (upper_call (string_at (txt "msg") input))
        (add_upper (field (txt "echo") (object input) end))
    else answer (ok (field (txt "echo") (object input) end))

-- Without tools the two entry points agree.
echo_without_tools :
    {S : Type 0} (execute : S → Call → Result ToolResult × S) (input : Fields) (s : S)
    → (run_program execute (echo_with_tools false input) s).0 ≡ echo input
unfolding echo echo_with_tools run_program
echo_without_tools execute input s = ground arith
