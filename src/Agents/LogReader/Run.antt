-- ===== src/Agents/LogReader/Run.antt =====
-- The log reader (agent/log_reader.go) at work on the collector of the run.
use agent_orchestrator_go.Base.{
  ℕ, ℤ, pos, true, false, ◌≡◌, refl, sym, inl, inr, List, [], ◌∷◌, Text, txt, text_eq, contains,
  Result, ok, err, All, Bool-cases,
}
use mathlib.Core.List.{append-nil}
use agent_orchestrator_go.Value.{Fields, lookup}
use agent_orchestrator_go.Value.Read.{string_at, maps_at}
use agent_orchestrator_go.Tools.{ToolResult, Executor, Program, run_program}
use agent_orchestrator_go.Tools.Collector.{Collecting, collector_execute}
use agent_orchestrator_go.Orchestrator.Grounding.{slash}
use agent_orchestrator_go.Orchestrator.Grounding.Sound.{Names}
use agent_orchestrator_go.Agents.LogReader.{
  grep_call, list_call, add_matches, add_count, search_keywords, search_files, add_finding,
  log_files, keeps_entry, relative_path, read_report, search_listed, read_logs, directory_of,
  keywords_of,
}
use agent_orchestrator_go.Agents.LogReader.Grounded.{
  Outputs, Extends, Extends-trans, collected-Extends, GroundedMatch, GroundedFinding, Searched,
  findings-Extends, add_matches-Grounded, add_matches-Searched, add_finding-Grounded,
  map_list-to_maps,
}

-- A name that is not a path.
abbrev pub IsPlain : Text → Type 0
IsPlain name = contains slash name ≡ false

-- `fs.list_dir` lists entries under their names, as `os.ReadDir` gives them: with no slash.
abbrev pub ListsNames : {S : Type 0} → Executor S → Type 0
ListsNames {S} execute =
    (s : S) (dir : Text) (r : ToolResult)
    → (execute s (list_call dir)).0 ≡ ok r
    → All (λ entry. IsPlain (string_at (txt "name") entry)) (maps_at (txt "entries") r.content)

Names-relative_path : (dir file : Text) → IsPlain file → Names file (relative_path dir file)
unfolding relative_path
Names-relative_path dir file plain = elim (Bool-cases (text_eq dir (txt "."))) [
  | inl here ↦ rw here (inl refl)
  | inr below ↦ rw below (inr (dir, refl, plain))
]

log_files-IsPlain :
    (entries : List Fields)
    → All (λ entry. IsPlain (string_at (txt "name") entry)) entries
    → All IsPlain (log_files entries)
unfolding log_files
log_files-IsPlain [] h = tt
log_files-IsPlain (entry ∷ entries) h = elim (Bool-cases (keeps_entry entry)) [
  | inl kept ↦ rw (kept, log_files) (h.0, log_files-IsPlain entries h.1)
  | inr dropped ↦ rw (dropped, log_files) (log_files-IsPlain entries h.1)
]

module _ {S : Type 0} (execute : Executor S) (show_float : ℕ → Text) where
  -- What a program may rely on after the search of one file, or of all.
  abbrev AfterFile :
      (Result Fields × Collecting S → Type 0)
      → Outputs
      → Text
      → (List Fields → ℤ → Program)
      → Type 0
  AfterFile Q outs file rest =
      (ms : List Fields) (total : ℤ) (c : Collecting S)
      → Extends outs c.outputs
      → All (GroundedMatch show_float c.outputs) ms
      → Searched show_float file c.outputs ms
      → Q (run_program (collector_execute execute) (rest ms total) c)

  search_keywords-Grounded :
      (Q : Result Fields × Collecting S → Type 0) (file path : Text)
      → Names file path
      → (keywords : List Text) (ms : List Fields) (total : ℤ) (rest : List Fields → ℤ → Program)
        (c : Collecting S)
      → All (GroundedMatch show_float c.outputs) ms
      → Searched show_float file c.outputs ms
      → AfterFile Q c.outputs file rest
      → Q (run_program (collector_execute execute) (search_keywords path keywords ms total rest) c)
  unfolding search_keywords run_program collector_execute
  search_keywords-Grounded Q file path named [] ms total rest c h s k =
      k ms total c ([], sym (append-nil c.outputs)) h s
  search_keywords-Grounded Q file path named (keyword ∷ keywords) ms total rest c h s k =
      let call = grep_call path keyword in
      let r = (execute c.inner call).0 in
      search_keywords-Grounded Q file path named keywords (add_matches keyword r ms)
        (add_count r total) rest (collector_execute execute c call).1
        (add_matches-Grounded show_float keyword call r ms c.outputs h)
        (add_matches-Searched show_float keyword file path r ms c.outputs named s)
        (λ ms' total' c' ext.
          k ms' total' c' (Extends-trans _ _ _ (collected-Extends call r c.outputs) ext))

  abbrev AfterAll :
      (Result Fields × Collecting S → Type 0) → Outputs → (List Fields → ℤ → Program) → Type 0
  AfterAll Q outs rest =
      (findings : List Fields) (total : ℤ) (c : Collecting S)
      → Extends outs c.outputs
      → All (GroundedFinding show_float c.outputs) findings
      → Q (run_program (collector_execute execute) (rest findings total) c)

  search_files-Grounded :
      (Q : Result Fields × Collecting S → Type 0) (dir : Text) (keywords files : List Text)
      → All IsPlain files
      → (findings : List Fields) (total : ℤ) (rest : List Fields → ℤ → Program) (c : Collecting S)
      → All (GroundedFinding show_float c.outputs) findings
      → AfterAll Q c.outputs rest
      → Q (
          run_program
            (collector_execute execute)
            (search_files dir keywords files findings total rest)
            c)
  unfolding search_files
  search_files-Grounded Q dir keywords [] plain findings total rest c g k =
      k findings total c ([], sym (append-nil c.outputs)) g
  search_files-Grounded Q dir keywords (file ∷ files) plain findings total rest c g k =
      search_keywords-Grounded Q file (relative_path dir file)
        (Names-relative_path dir file plain.0) keywords [] total _ c tt (inl refl)
        (λ ms total' c' ext h s.
          search_files-Grounded Q dir keywords files plain.1 (add_finding file ms findings) total'
            rest c'
            (add_finding-Grounded show_float file ms findings c'.outputs s h
              (findings-Extends show_float c.outputs c'.outputs findings ext g))
            (λ findings' total'' c'' ext'. k findings' total'' c'' (Extends-trans _ _ _ ext ext')))

  -- The findings of an answer are grounded in what the collector holds at its end.
  abbrev pub GroundedAnswer : Result Fields × Collecting S → Type 0
  GroundedAnswer (err e, c) = Unit
  GroundedAnswer (ok report, c) =
      All (GroundedFinding show_float c.outputs) (maps_at (txt "findings") report)

  maps_at-read_report :
      (dir : Text) (scanned : ℕ) (findings : List Fields) (total : ℤ)
      → maps_at (txt "findings") (read_report dir scanned findings total) ≡ findings
  unfolding read_report maps_at lookup text_eq
  maps_at-read_report dir scanned findings total = map_list-to_maps findings

  search_listed-Grounded :
      (dir : Text) (keywords : List Text) (r : Result ToolResult) (c : Collecting S)
      → ((listed : ToolResult)
          → r ≡ ok listed
          → All
              (λ entry. IsPlain (string_at (txt "name") entry))
              (maps_at (txt "entries") listed.content))
      → GroundedAnswer (run_program (collector_execute execute) (search_listed dir keywords r) c)
  unfolding search_listed run_program
  search_listed-Grounded dir keywords (err e) c plain = tt
  search_listed-Grounded dir keywords (ok r) c plain =
      search_files-Grounded GroundedAnswer dir keywords _ (log_files-IsPlain _ (plain r refl)) []
        (pos 0) _ c tt (λ findings total c' ext g. rw (maps_at-read_report dir _ findings total) g)

  -- Where the directory lists names, the findings of the log reader are grounded in the outputs that
  -- the collector holds when it answers.
  pub read_logs-Grounded :
      ListsNames execute
      → (input : Fields) (c : Collecting S)
      → GroundedAnswer (run_program (collector_execute execute) (read_logs true input) c)
  unfolding read_logs run_program collector_execute
  read_logs-Grounded plain input c =
      search_listed-Grounded (directory_of input) (keywords_of input)
        (execute c.inner (list_call (directory_of input))).0 _
        (λ listed e. plain c.inner (directory_of input) listed e)
