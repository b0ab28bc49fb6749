-- ===== src/Agents/Tests.antt =====
-- A directory with one log file, read, analyzed and validated.
use mathlib.Core.List.{append-nil}
use agent_orchestrator_go.Base.{
  ◌+ℤ◌, ℕ, suc, ◌≤◌, pos, true, false, ◌≡◌, refl, sym, subst, List, [], Text, txt, text_eq,
  to_lower, Result, ok, err, if◌then◌else◌, All, ok-injective, length, contains, trim_space,
  split_on, has_suffix, none,
}
use agent_orchestrator_go.Value.{
  Fields, str, int, maps, object, array, bool, value, no_value, one_map, no_map, field, end, lookup,
}
use agent_orchestrator_go.Value.Read.{string_at, maps_at, int_at, bool_at}
use agent_orchestrator_go.Tools.{ToolResult, Executor, run_program}
use agent_orchestrator_go.Tools.Collector.{Collecting, new_collector, collector_execute}
use agent_orchestrator_go.Orchestrator.Validators.{validate_report}
use agent_orchestrator_go.Orchestrator.Grounding.{EvidenceItem, extract_evidence_items}
use agent_orchestrator_go.Orchestrator.Grounding.Wiring.{check, set_collector}
use agent_orchestrator_go.Agents.LogReader.{
  read_logs, directory_of, keywords_of, log_files, search_keywords, search_files, add_matches,
  add_count, add_finding, relative_path, read_report,
}
use agent_orchestrator_go.Agents.LogReader.Run.{ListsNames, IsPlain}
use agent_orchestrator_go.Agents.LogAnalyzer.{Evidence, analyze, all_evidence}
use agent_orchestrator_go.Agents.LogAnalyzer.Accepted.{analyze-accepted}
use agent_orchestrator_go.Agents.LogAnalyzer.Listed.{Rearranges, analyze-listed, item_of}
use agent_orchestrator_go.Agents.Golden.{golden_path, server_validator}

abbrev listing : ToolResult
listing = record {
  result_tool = txt "fs.list_dir";
  content =
      field (txt "entries")
        (maps (
          one_map (field (txt "name") (str (txt "app.log")) (field (txt "is_dir") (bool false) end))
            no_map))
        end;
}

abbrev search_result : ToolResult
search_result = record {
  result_tool = txt "fs.grep_file";
  content =
      field (txt "matches")
        (maps (
          one_map
            (field (txt "line_number") (int (pos 7))
              (field (txt "text") (str (txt "error: disk full")) end))
            no_map))
        (field (txt "match_count") (int (pos 1)) end);
}

-- The tools, which count their calls.
abbrev small_tools : Executor ℕ
small_tools n call =
    if text_eq call.tool_name (txt "fs.list_dir")
    then (ok listing, suc n)
    else (ok search_result, suc n)

small_tools-ListsNames : ListsNames small_tools
unfolding text_eq string_at maps_at lookup contains
small_tools-ListsNames s dir r h =
    subst
      (λ (l : ToolResult).
        All (λ entry. IsPlain (string_at (txt "name") entry)) (maps_at (txt "entries") l.content))
      (ok-injective h) (refl, tt)

abbrev read_input : Fields
read_input =
    field (txt "directory") (str (txt "logs")) (field (txt "keywords") (str (txt "error")) end)

abbrev read_end : Result Fields × Collecting ℕ
read_end = run_program (collector_execute small_tools) (read_logs true read_input) (new_collector 0)

abbrev value_or_end : Result Fields → Fields
value_or_end (ok m) = m
value_or_end (err _) = end

abbrev read_found : Fields
read_found = value_or_end read_end.0

small_read : read_end.0 ≡ ok read_found
unfolding run_program collector_execute read_logs text_eq string_at maps_at int_at bool_at lookup
    directory_of keywords_of log_files search_keywords search_files add_matches add_count
    add_finding relative_path read_report trim_space split_on has_suffix to_lower
small_read = refl

abbrev no_sort : List Evidence → List Evidence
no_sort xs = xs

no_sort-Rearranges : Rearranges no_sort
no_sort-Rearranges = record { keeps = λ P xs h. h; same_length = λ xs. refl }

abbrev as_listed : List (Text × ℕ) → List (Text × ℕ)
as_listed counts = counts

golden_path_example :
    check
      (λ bits. [])
      (set_collector server_validator)
      (txt "agent.log_analyzer")
      (analyze as_listed no_sort read_found)
      read_end.1
    ≡ none
golden_path_example =
    golden_path small_tools (λ bits. []) as_listed no_sort no_sort-Rearranges small_tools-ListsNames
      read_input (new_collector 0) read_found small_read read_found refl read_end.1
      ([], sym (append-nil read_end.1.outputs))

analyze-accepted_example :
    validate_report (txt "agent.log_analyzer") (analyze as_listed no_sort read_found) ≡ none
analyze-accepted_example = analyze-accepted as_listed no_sort read_found

abbrev two_findings : Fields
two_findings =
    field (txt "findings")
      (array (
        value
          (object (
            field (txt "file") (str (txt "a.log")) (
              field (txt "matches")
                (maps (
                  one_map
                    (field (txt "text") (str (txt "panic: x"))
                      (field (txt "keyword") (str (txt "PANIC")) end))
                    no_map))
                end)))
          no_value))
      (field (txt "total_matches") (int (pos 1)) end)

abbrev OfFile : EvidenceItem → Type 0
OfFile item = item.file ≡ txt "a.log"

two_findings_file :
    All (λ ev. OfFile (item_of ev)) (all_evidence (maps_at (txt "findings") two_findings))
unfolding all_evidence maps_at string_at lookup text_eq
two_findings_file = (refl, tt)

analyze-listed_example :
    All OfFile (extract_evidence_items (analyze as_listed no_sort two_findings))
    × (length (extract_evidence_items (analyze as_listed no_sort two_findings)) ≤ 20)
analyze-listed_example =
    analyze-listed as_listed no_sort no_sort-Rearranges OfFile two_findings two_findings_file

small_read_total : int_at (txt "total_matches") read_found ≡ pos 1
unfolding run_program collector_execute read_logs text_eq string_at maps_at int_at bool_at lookup
    directory_of keywords_of log_files search_keywords search_files add_matches add_count
    add_finding relative_path read_report trim_space split_on has_suffix to_lower ◌+ℤ◌
small_read_total = refl
