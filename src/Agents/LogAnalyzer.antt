-- ===== src/Agents/LogAnalyzer.antt =====
-- agent/log_analyzer.go: the report on the findings of the log reader.
pub mod Accepted
pub mod Listed
use agent_orchestrator_go.Base.{
  ℕ, zero, suc, ℤ, pos, negsuc, is_zeroℤ, Bool, true, false, ◌&&◌, ◌||◌, List, [], ◌∷◌, ◌++◌, map,
  Text, txt, text_eq, to_lower, decimal, ltb, leb, if◌then◌else◌, length, take, join, fields_of,
  byte_length,
}
use agent_orchestrator_go.Value.{int, str, strings, maps, Texts, no_text, text, Fields, end, field}
use agent_orchestrator_go.Value.Read.{string_at, int_at, maps_at}
use agent_orchestrator_go.Agents.LogReader.{to_maps}

-- A matched line, with its file.
pub record Evidence : Type 0 where
  pub file : Text
  pub line_number : ℤ
  pub line : Text
  pub keyword : Text

abbrev pub evidence_of : Text → Fields → Evidence
evidence_of file m = record {
  file = file;
  line_number = int_at (txt "line_number") m;
  line = string_at (txt "text") m;
  keyword = string_at (txt "keyword") m;
}

-- The matched lines of all findings. (`extractMatches` and `extractFindings` are `maps_at`.)
unfoldable pub all_evidence : List Fields → List Evidence
all_evidence [] = []
all_evidence (f ∷ findings) =
    map (evidence_of (string_at (txt "file") f)) (maps_at (txt "matches") f)
    ++ all_evidence findings

unfoldable pub is_panic : Text → Bool
is_panic keyword =
    text_eq (to_lower keyword) (txt "panic") || text_eq (to_lower keyword) (txt "fatal")

unfoldable pub is_warning : Text → Bool
is_warning keyword =
    text_eq (to_lower keyword) (txt "warn") || text_eq (to_lower keyword) (txt "warning")

-- `errorCount`, `panicCount` and `warnCount`
pub record Counts : Type 0 where
  pub errors : ℕ
  pub panics : ℕ
  pub warnings : ℕ

-- Unknown keywords count as errors.
unfoldable pub count_keyword : Text → Counts → Counts
unfolding is_panic is_warning
count_keyword keyword n =
    if is_panic keyword
    then record n { panics = suc n.panics }
    else if text_eq (to_lower keyword) (txt "error")
    then record n { errors = suc n.errors }
    else if is_warning keyword
    then record n { warnings = suc n.warnings }
    else record n { errors = suc n.errors }

unfoldable pub count_evidence : List Evidence → Counts → Counts
count_evidence [] n = n
count_evidence (ev ∷ evidence) n = count_evidence evidence (count_keyword ev.keyword n)

abbrev pub no_counts : Counts
no_counts = record { errors = 0; panics = 0; warnings = 0 }

abbrev pub part_if : ℕ → Text → List Text
part_if zero label = []
part_if (suc n) label = (decimal (suc n) ++ label) ∷ []

unfoldable pub error_summary : Counts → ℕ → Text
error_summary n files =
    txt "Detected "
    ++ (join (txt ", ") (
          part_if n.panics (txt " panic/fatal events")
          ++ (part_if n.errors (txt " errors") ++ part_if n.warnings (txt " warnings")))
        ++ (txt " across " ++ (decimal files ++ txt " log files.")))

abbrev pub is_digit : ℕ → Bool
is_digit c = leb b'0' c && leb c b'9'

unfoldable pub count_digits : Text → ℕ
count_digits [] = 0
count_digits (c ∷ s) = let rest = count_digits s in if is_digit c then suc rest else rest

unfoldable pub looks_like_timestamp : Text → Bool
unfolding count_digits
looks_like_timestamp s = if ltb (byte_length s) 4 then false else leb 3 (count_digits s)

-- At most that many leading words are dropped.
unfoldable pub drop_timestamps : ℕ → List Text → List Text
unfolding looks_like_timestamp
drop_timestamps zero parts = parts
drop_timestamps (suc n) [] = []
drop_timestamps (suc n) (p ∷ parts) =
    let rest = drop_timestamps n parts in if looks_like_timestamp p then rest else p ∷ parts

abbrev pub join_or : Text → List Text → Text
join_or line [] = line
join_or line (p ∷ parts) = join (txt " ") (p ∷ parts)

unfoldable pub simplify_pattern : Text → Text
unfolding drop_timestamps
simplify_pattern line = join_or line (drop_timestamps 3 (fields_of line))

-- `patternCounts[pattern]++`
unfoldable pub count_pattern : Text → List (Text × ℕ) → List (Text × ℕ)
count_pattern p [] = (p, 1) ∷ []
count_pattern p ((q, n) ∷ counts) =
    let rest = count_pattern p counts in if text_eq q p then (q, suc n) ∷ counts else (q, n) ∷ rest

-- Warnings are left out.
unfoldable pub pattern_counts : List Evidence → List (Text × ℕ) → List (Text × ℕ)
unfolding is_warning simplify_pattern count_pattern
pattern_counts [] counts = counts
pattern_counts (ev ∷ evidence) counts =
    pattern_counts evidence
      (if is_warning ev.keyword then counts else count_pattern (simplify_pattern ev.line) counts)

-- The loop that looks for the largest count, over the map in the order of the list.
unfoldable pub top_pattern : List (Text × ℕ) → Text × ℕ → Text × ℕ
top_pattern [] best = best
top_pattern ((p, n) ∷ counts) best = top_pattern counts (if ltb best.1 n then (p, n) else best)

unfoldable pub root_cause : Text × ℕ → Text
root_cause best =
    if text_eq best.0 []
    then txt "Unable to determine a specific root cause from available evidence."
    else txt "Most frequent error pattern ("
      ++ (decimal best.1 ++ (txt " occurrences): " ++ best.0))

unfoldable pub severity_rank : Text → ℕ
unfolding is_panic is_warning
severity_rank keyword =
    if is_panic keyword
    then 3
    else if text_eq (to_lower keyword) (txt "error")
    then 2
    else if is_warning keyword
    then 1
    else 0

abbrev pub evidence_map : Evidence → Fields
evidence_map ev =
    field (txt "file") (str ev.file)
      (field (txt "line_number") (int ev.line_number) (field (txt "text") (str ev.line) end))

abbrev pub at_most_two : ℤ → Bool
at_most_two (pos n) = leb n 2
at_most_two (negsuc _) = true

unfoldable pub confidence : Counts → ℕ → ℤ → Text
confidence n top total =
    if ltb 0 n.panics || leb 3 top
    then txt "High"
    else if at_most_two total
    then txt "Low"
    else txt "Medium"

abbrev pub step_if : ℕ → Text → Texts → Texts
step_if zero step rest = rest
step_if (suc _) step rest = text step rest

unfoldable pub next_steps : Counts → Texts
next_steps n =
    step_if n.panics (txt "Investigate panic/fatal events immediately — these indicate crashes.") (
      step_if n.errors
        (txt "Review the most frequent error pattern and trace its origin in the codebase.")
        (step_if n.warnings (txt "Evaluate warnings for potential issues that could escalate.") (
          text (txt "Check if errors correlate with a recent deployment or configuration change.")
            no_text)))

abbrev pub report : Text → Text → List Fields → Text → Texts → Fields
report summary cause evidence level steps = field (txt "error_summary") (str summary) (
    field (txt "suspected_root_cause") (str cause) (
      field (txt "supporting_evidence") (maps (to_maps evidence)) (
        field (txt "confidence_level") (str level)
          (field (txt "suggested_next_steps") (strings steps) end))))

abbrev pub all_clear : Fields
all_clear =
    report (txt "No errors or warnings detected in the scanned log files.")
      (txt "N/A — no issues found.") [] (txt "High")
      (text (txt "Continue monitoring logs for future issues.") no_text)

-- `range` is the order in which Go goes over the map of counts, and `sort` what `sort.Slice` does
-- with the less function `severityRank(a) > severityRank(b)`; both leave some orders open.
module _ (range : List (Text × ℕ) → List (Text × ℕ)) (sort : List Evidence → List Evidence) where
  unfoldable pub top_of : List Evidence → Text × ℕ
  unfolding pattern_counts top_pattern
  top_of evidence = top_pattern (range (pattern_counts evidence [])) ([], 0)

  -- The report on findings that are there.
  unfoldable pub report_on : List Evidence → ℕ → ℤ → Fields
  unfolding count_evidence error_summary root_cause confidence next_steps top_of
  report_on evidence files total =
      report (error_summary (count_evidence evidence no_counts) files)
        (root_cause (top_of evidence)) (map evidence_map (take 20 (sort evidence)))
        (confidence (count_evidence evidence no_counts) (top_of evidence).1 total)
        (next_steps (count_evidence evidence no_counts))

  -- `analyze`
  unfoldable pub analyze : Fields → Fields
  unfolding report_on all_evidence
  analyze input = elim (maps_at (txt "findings") input) [
    | [] ↦ all_clear
    | f ∷ findings ↦
        if is_zeroℤ (int_at (txt "total_matches") input)
        then all_clear
        else report_on (all_evidence (f ∷ findings)) (length (f ∷ findings))
            (int_at (txt "total_matches") input)
  ]
