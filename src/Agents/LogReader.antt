-- ===== src/Agents/LogReader.antt =====
-- agent/log_reader.go: an agent that lists a directory and searches its log files.
pub mod Grounded
pub mod Run
use agent_orchestrator_go.Base.{
  ℕ, ℤ, pos, ◌+ℤ◌, is_zeroℤ, Bool, true, false, not, ◌&&◌, ◌||◌, List, [], ◌∷◌, ◌++◌, map, Text,
  txt, text_eq, to_lower, contains, decimal, decimalℤ, if◌then◌else◌, Result, ok, err, length,
  has_suffix, trim_space, split_on,
}
use agent_orchestrator_go.Value.{int, str, maps, Maps, no_map, one_map, Fields, end, field, insert}
use agent_orchestrator_go.Value.Read.{string_at, int_at, bool_at, maps_at}
use agent_orchestrator_go.Tools.{Call, ToolResult, Program, answer, use_tool}

abbrev pub or_default : Text → Text → Text
or_default t standard = if text_eq t [] then standard else t

-- The directory, "." unless the input names one.
unfoldable pub directory_of : Fields → Text
directory_of input = or_default (string_at (txt "directory") input) (txt ".")

abbrev pub standard_keywords : List Text
standard_keywords =
    txt "error"
    ∷ txt "ERROR"
    ∷ txt "panic"
    ∷ txt "FATAL"
    ∷ txt "fatal"
    ∷ txt "warn"
    ∷ txt "WARN"
    ∷ []

-- The keywords of the input, between commas, or the standard ones.
unfoldable pub keywords_of : Fields → List Text
keywords_of input =
    if text_eq (string_at (txt "keywords") input) []
    then standard_keywords
    else map trim_space (split_on b',' (string_at (txt "keywords") input))

-- The test of the names that are kept.
unfoldable pub is_log_name : Text → Bool
is_log_name name =
    has_suffix (txt ".log") (to_lower name)
    || (has_suffix (txt ".txt") (to_lower name)
        || (has_suffix (txt ".out") (to_lower name) || not (contains (txt ".") name)))

unfoldable pub keeps_entry : Fields → Bool
unfolding is_log_name
keeps_entry entry =
    not (bool_at (txt "is_dir") entry)
    && (not (text_eq (string_at (txt "name") entry) [])
        && is_log_name (string_at (txt "name") entry))

-- The names of the log files among the entries of the directory.
unfoldable pub log_files : List Fields → List Text
unfolding keeps_entry
log_files [] = []
log_files (entry ∷ entries) =
    let rest = log_files entries in
    if keeps_entry entry then string_at (txt "name") entry ∷ rest else rest

unfoldable pub relative_path : Text → Text → Text
relative_path dir file = if text_eq dir (txt ".") then file else dir ++ (txt "/" ++ file)

abbrev pub list_call : Text → Call
list_call dir = record { tool_name = txt "fs.list_dir"; args = field (txt "path") (str dir) end }

abbrev pub grep_call : Text → Text → Call
grep_call path keyword = record {
  tool_name = txt "fs.grep_file";
  args = field (txt "path") (str path) (field (txt "keyword") (str keyword) end);
}

-- `m["keyword"] = kw`
abbrev pub with_keyword : Text → Fields → Fields
with_keyword keyword m = insert (txt "keyword") (str keyword) m

-- What one search adds to the matches of the file. A search that fails is skipped.
unfoldable pub add_matches : Text → Result ToolResult → List Fields → List Fields
add_matches keyword (err _) matches = matches
add_matches keyword (ok r) matches =
    if is_zeroℤ (int_at (txt "match_count") r.content)
    then matches
    else matches ++ map (with_keyword keyword) (maps_at (txt "matches") r.content)

unfoldable pub add_count : Result ToolResult → ℤ → ℤ
add_count (err _) total = total
add_count (ok r) total =
    if is_zeroℤ (int_at (txt "match_count") r.content)
    then total
    else total +ℤ int_at (txt "match_count") r.content

-- The loop over the keywords, for one file; `rest` goes on with its matches and the total.
unfoldable pub search_keywords :
    Text → List Text → List Fields → ℤ → (List Fields → ℤ → Program) → Program
search_keywords path [] matches total rest = rest matches total
search_keywords path (keyword ∷ keywords) matches total rest =
    use_tool (grep_call path keyword)
      (λ r. search_keywords path keywords (add_matches keyword r matches) (add_count r total) rest)

abbrev pub to_maps : List Fields → Maps
to_maps [] = no_map
to_maps (m ∷ ms) = one_map m (to_maps ms)

abbrev pub finding : Text → List Fields → Fields
finding file matches = field (txt "file") (str file) (
    field (txt "matches") (maps (to_maps matches))
      (field (txt "match_count") (int (pos (length matches))) end))

unfoldable pub add_finding : Text → List Fields → List Fields → List Fields
add_finding file [] findings = findings
add_finding file (m ∷ matches) findings = findings ++ finding file (m ∷ matches) ∷ []

-- The loop over the files.
unfoldable pub search_files :
    Text → List Text → List Text → List Fields → ℤ → (List Fields → ℤ → Program) → Program
search_files dir keywords [] findings total rest = rest findings total
search_files dir keywords (file ∷ files) findings total rest =
    search_keywords (relative_path dir file) keywords [] total
      (λ matches sum. search_files dir keywords files (add_finding file matches findings) sum rest)

unfoldable pub finding_lines : List Fields → Text
finding_lines [] = []
finding_lines (f ∷ findings) =
    (txt "  - "
      ++ (string_at (txt "file") f
          ++ (txt ": "
              ++ (decimalℤ (int_at (txt "match_count") f) ++ (txt " matches" ++ 10 ∷ [])))))
    ++ finding_lines findings

unfoldable pub read_summary : Text → ℕ → List Fields → ℤ → Text
unfolding finding_lines
read_summary dir scanned findings total =
    txt "Scanned "
    ++ (decimal scanned
        ++ (txt " log files in '"
            ++ (dir
                ++ (txt "'. Found "
                    ++ (decimalℤ total
                        ++ (txt " matching lines across "
                            ++ (decimal (length findings)
                                ++ (txt " files."
                                    ++ (10 ∷ finding_lines findings
                                        ++ (if is_zeroℤ total
                                            then txt "No errors or warnings found."
                                            else []))))))))))

unfoldable pub read_report : Text → ℕ → List Fields → ℤ → Fields
unfolding read_summary
read_report dir scanned findings total = field (txt "files_scanned") (int (pos scanned)) (
    field (txt "total_matches") (int total) (
      field (txt "findings") (maps (to_maps findings))
        (field (txt "summary") (str (read_summary dir scanned findings total)) end)))

-- What follows the listing of the directory.
unfoldable pub search_listed : Text → List Text → Result ToolResult → Program
search_listed dir keywords (err e) = answer (err (txt "list_dir failed: " ++ e))
search_listed dir keywords (ok r) =
    let files = log_files (maps_at (txt "entries") r.content) in
    search_files dir keywords files [] (pos 0)
      (λ findings total. answer (ok (read_report dir (length files) findings total)))

-- `RunWithContext`, with or without tools.
unfoldable pub read_logs : Bool → Fields → Program
unfolding search_listed
read_logs false input =
    answer (err (txt "LogReaderAgent requires tools (fs.list_dir, fs.grep_file)"))
read_logs true input =
    use_tool (list_call (directory_of input))
      (search_listed (directory_of input) (keywords_of input))
