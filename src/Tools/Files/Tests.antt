-- ===== src/Tools/Files/Tests.antt =====
-- A directory with one log file behind the tools on files.
use mathlib.Core.List.{append-nil}
use agent_orchestrator_go.Base.{
  ℕ, pos, true, false, ◌≡◌, refl, sym, subst, List, [], ◌∷◌, ◌++◌, some, none, Text, txt, text_eq,
  has_prefix, contains, Result, ok, err, if◌then◌else◌, to_lower, trim_space, split_on, has_suffix,
  All,
}
use agent_orchestrator_go.Value.{Fields, str, float, field, end, lookup}
use agent_orchestrator_go.Value.Read.{string_at, maps_at, int_at, bool_at}
use agent_orchestrator_go.Tools.{
  ToolResult, run_program, invalid_args, Json, Program, Executor, use_tool, answer,
}
use agent_orchestrator_go.Tools.Persisting.{trace}
use agent_orchestrator_go.Tools.Replay.{Entries, new_replay_executor, replay_execute, unconsumed}
use agent_orchestrator_go.Tools.Replay.Faithful.{replay_faithful}
use agent_orchestrator_go.Tools.Registry.{registry_execute, get, find_tool}
use agent_orchestrator_go.Tools.Collector.{Collecting, new_collector, collector_execute}
use agent_orchestrator_go.Tools.Files.{
  found, missing, DirEntry, Scanner, System, read_file, list_dir, grep_file, file_tools,
  read_result, list_result, grep_result,
}
use agent_orchestrator_go.Tools.Files.Confined.{
  Reaches, first_matches, read_file-IsUnder, list_dir-IsUnder, grep_file-IsUnder,
}
use agent_orchestrator_go.Orchestrator.Grounding.Wiring.{check, set_collector}
use agent_orchestrator_go.Agents.LogReader.{
  read_logs, directory_of, keywords_of, log_files, search_keywords, search_files, add_matches,
  add_count, add_finding, relative_path, read_report,
}
use agent_orchestrator_go.Agents.LogReader.Run.{IsPlain}
use agent_orchestrator_go.Agents.LogAnalyzer.{Evidence, analyze}
use agent_orchestrator_go.Agents.LogAnalyzer.Listed.{Rearranges}
use agent_orchestrator_go.Agents.Golden.{server_validator}
use agent_orchestrator_go.Agents.OnFiles.{ReadsNames, golden_path_on_files}

abbrev app_log : DirEntry
app_log = record { name = txt "app.log"; is_dir = false; size = some (pos 17) }

abbrev log_text : Text
log_text = txt "error: disk full\n"

abbrev log_scanner : Scanner
log_scanner = record {
  lines = (txt "started", none) ∷ (txt "error: disk full", none) ∷ [];
  last_error = none;
}

-- Paths that are clean already, in a root without dots.
abbrev small_system : System ℕ
small_system = record {
  clean = λ p. p;
  is_abs = has_prefix (txt "/");
  join_path = λ root p. root ++ (txt "/" ++ p);
  abs = λ p. p;
  base = λ p. p;
  stat = λ s p. ok (text_eq p (txt "/r/logs"));
  read_file = λ s p. if text_eq p (txt "/r/logs/app.log") then found log_text else missing;
  read_dir = λ s p. found (app_log ∷ []);
  open_file = λ s p. if text_eq p (txt "/r/logs/app.log") then found log_scanner else missing;
  lower = λ c. c;
}

found-injective : {A : Type 0} {a b : A} → found a ≡ found b → a ≡ b
found-injective e = cc

small_system-ReadsNames : ReadsNames small_system
unfolding contains
small_system-ReadsNames s p entries h =
    subst (All (λ (e : DirEntry). IsPlain e.name)) (found-injective h) (refl, tt)

abbrev path_args : Text → Fields
path_args p = field (txt "path") (str p) end

abbrev read_app : ToolResult
read_app = read_result small_system (txt "/r/logs/app.log") log_text

app_read : read_file small_system (txt "/r") 0 (path_args (txt "logs/app.log")) ≡ ok read_app
unfolding read_file has_prefix text_eq string_at lookup
app_read = refl

read_file-IsUnder_example :
    (p : Text) × (data_text : Text) × Reaches small_system (txt "/r") (txt "logs/app.log") p
    × (small_system.read_file 0 p ≡ found data_text)
    × (read_app ≡ read_result small_system p data_text)
unfolding has_prefix string_at lookup text_eq
read_file-IsUnder_example =
    read_file-IsUnder small_system (txt "/r") 0 (path_args (txt "logs/app.log")) read_app refl
      app_read

logs_listed :
    list_dir small_system (txt "/r") 0 (path_args (txt "logs"))
    ≡ ok (list_result (txt "logs") (app_log ∷ []))
unfolding list_dir has_prefix text_eq string_at lookup
logs_listed = refl

list_dir-IsUnder_example :
    (p : Text) × (entries : List DirEntry) × Reaches small_system (txt "/r") (txt "logs") p
    × (small_system.stat 0 p ≡ ok true)
    × (small_system.read_dir 0 p ≡ found entries)
    × (list_result (txt "logs") (app_log ∷ []) ≡ list_result (txt "logs") entries)
unfolding has_prefix string_at lookup text_eq
list_dir-IsUnder_example =
    list_dir-IsUnder small_system (txt "/r") 0 (path_args (txt "logs"))
      (list_result (txt "logs") (app_log ∷ [])) refl logs_listed

abbrev grep_args : Fields
grep_args =
    field (txt "path") (str (txt "logs/app.log")) (field (txt "keyword") (str (txt "error")) end)

abbrev grep_found : ToolResult
grep_found = grep_result (txt "logs/app.log") (txt "error") ((2, txt "error: disk full") ∷ [])

app_searched : grep_file small_system (txt "/r") 0 grep_args ≡ ok grep_found
unfolding grep_file has_prefix text_eq string_at lookup contains
app_searched = refl

grep_file-IsUnder_example :
    (p : Text) × (scanner : Scanner) × Reaches small_system (txt "/r") (txt "logs/app.log") p
    × (small_system.open_file 0 p ≡ found scanner)
    × (grep_found
        ≡ grep_result
            (txt "logs/app.log")
            (txt "error")
            (first_matches small_system.lower (txt "error") scanner))
unfolding has_prefix string_at lookup text_eq
grep_file-IsUnder_example =
    grep_file-IsUnder small_system (txt "/r") 0 grep_args grep_found refl app_searched

climbing_refused :
    read_file small_system (txt "/r") 0 (path_args (txt "../etc/passwd"))
    ≡ err (txt "invalid tool args: path must be relative and within root directory")
unfolding read_file has_prefix text_eq string_at lookup invalid_args
climbing_refused = refl

abbrev read_input : Fields
read_input =
    field (txt "directory") (str (txt "logs")) (field (txt "keywords") (str (txt "error")) end)

abbrev read_end : Result Fields × Collecting ℕ
read_end =
    run_program (collector_execute (registry_execute (file_tools small_system (txt "/r"))))
      (read_logs true read_input) (new_collector 0)

abbrev value_or_end : Result Fields → Fields
value_or_end (ok m) = m
value_or_end (err _) = end

small_read : read_end.0 ≡ ok (value_or_end read_end.0)
unfolding run_program collector_execute registry_execute file_tools read_logs text_eq string_at
    maps_at int_at bool_at lookup directory_of keywords_of log_files search_keywords search_files
    add_matches add_count add_finding relative_path read_report trim_space split_on has_suffix
    to_lower has_prefix contains
small_read = refl

abbrev no_sort : List Evidence → List Evidence
no_sort xs = xs

no_sort-Rearranges : Rearranges no_sort
no_sort-Rearranges = record { keeps = λ P xs h. h; same_length = λ xs. refl }

golden_path_on_files_example :
    check
      (λ bits. [])
      (set_collector server_validator)
      (txt "agent.log_analyzer")
      (analyze (λ counts. counts) no_sort (value_or_end read_end.0))
      read_end.1
    ≡ none
golden_path_on_files_example =
    golden_path_on_files small_system (txt "/r") small_system-ReadsNames (λ bits. [])
      (λ counts. counts) no_sort no_sort-Rearranges read_input (new_collector 0)
      (value_or_end read_end.0) small_read (value_or_end read_end.0) refl read_end.1
      ([], sym (append-nil read_end.1.outputs))

-- A JSON that knows what fs.read_file answers, and gives the size back as a float64.
abbrev sized_json : Json
sized_json = record {
  marshal = string_at (txt "content");
  unmarshal =
      λ t. ok (field (txt "content") (str t) (field (txt "size") (float 4625478292286210048) end));
}

abbrev content_of : Result ToolResult → Result Fields
content_of (err e) = err e
content_of (ok r) = ok (field (txt "log") (str (string_at (txt "content") r.content)) end)

-- A program that answers the text of the log.
abbrev reads_log : Program
reads_log =
    use_tool (record { tool_name = txt "fs.read_file"; args = path_args (txt "logs/app.log") })
      (λ r. answer (content_of r))

abbrev served : Executor ℕ
served = registry_execute (file_tools small_system (txt "/r"))

replay_faithful_example :
    (m : Entries) × (new_replay_executor sized_json
        (trace sized_json (txt "run") (txt "step") served reads_log 0 0)
      ≡ ok m)
    × ((run_program (replay_execute sized_json) reads_log m).0 ≡ (run_program served reads_log 0).0)
    × (unconsumed (run_program (replay_execute sized_json) reads_log m).1 ≡ 0)
unfolding registry_execute file_tools read_file has_prefix text_eq string_at lookup get find_tool
replay_faithful_example =
    replay_faithful sized_json served (txt "run") (txt "step") reads_log 0
      (read_app, refl, _, refl, refl, tt)
