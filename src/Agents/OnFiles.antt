-- ===== src/Agents/OnFiles.antt =====
-- What the tools on files tell the log reader, and the path from there to the validators.
use agent_orchestrator_go.Base.{
  ℕ, true, ◌≡◌, subst, List, [], ◌∷◌, ◌++◌, none, Text, txt, text_eq, ok, All, bind-ok,
  ok-injective,
}
use agent_orchestrator_go.Value.{Fields, lookup}
use agent_orchestrator_go.Value.Read.{string_at, maps_at}
use agent_orchestrator_go.Tools.{ToolResult, run_program}
use agent_orchestrator_go.Tools.Registry.{registry_execute, get, find_tool}
use agent_orchestrator_go.Tools.Collector.{Collecting, collector_execute}
use agent_orchestrator_go.Tools.Files.{
  found, DirEntry, System, required_arg, found_or, safe_directory, list_result, list_dir,
  file_tools,
}
use agent_orchestrator_go.Tools.Files.Confined.{found_or-ok}
use agent_orchestrator_go.Orchestrator.Grounding.Wiring.{check, set_collector}
use agent_orchestrator_go.Agents.LogReader.{read_logs, list_call}
use agent_orchestrator_go.Agents.LogReader.Run.{IsPlain, ListsNames}
use agent_orchestrator_go.Agents.LogReader.Grounded.{Extends}
use agent_orchestrator_go.Agents.LogAnalyzer.{Evidence, analyze}
use agent_orchestrator_go.Agents.LogAnalyzer.Listed.{Rearranges}
use agent_orchestrator_go.Agents.Golden.{server_validator, golden_path}

-- `os.ReadDir` gives names of files, which hold no separator.
abbrev pub ReadsNames : {S : Type 0} → System S → Type 0
ReadsNames {S} sys =
    (s : S) (p : Text) (entries : List DirEntry)
    → sys.read_dir s p ≡ found entries
    → All (λ (e : DirEntry). IsPlain e.name) entries

entries-IsPlain :
    (rel : Text) (entries : List DirEntry)
    → All (λ (e : DirEntry). IsPlain e.name) entries
    → All
        (λ entry. IsPlain (string_at (txt "name") entry))
        (maps_at (txt "entries") (list_result rel entries).content)
unfolding maps_at string_at lookup text_eq
entries-IsPlain rel [] h = tt
entries-IsPlain rel (e ∷ entries) h = (h.0, entries-IsPlain rel entries h.1)

module _ {S : Type 0} (sys : System S) (root : Text) (reads : ReadsNames sys) where
  list_dir-IsPlain :
      (s : S) (args : Fields) (r : ToolResult)
      → list_dir sys root s args ≡ ok r
      → All (λ entry. IsPlain (string_at (txt "name") entry)) (maps_at (txt "entries") r.content)
  unfolding list_dir
  list_dir-IsPlain s args r h =
      let (rel, given, h1) = bind-ok (required_arg (txt "path") args) _ r h in
      let (p, safe, h2) = bind-ok (safe_directory sys root s rel) _ r h1 in
      let absent = txt "directory not found: " ++ rel in
      let (entries, read, made) =
        bind-ok (found_or absent (txt "read dir error: ") (sys.read_dir s p)) _ r h2 in
      let listed = found_or-ok absent (txt "read dir error: ") (sys.read_dir s p) entries read in
      subst
        (λ (x : ToolResult).
          All (λ entry. IsPlain (string_at (txt "name") entry)) (maps_at (txt "entries") x.content))
        (ok-injective made) (entries-IsPlain rel entries (reads s p entries listed))

  file_tools-ListsNames : ListsNames (registry_execute (file_tools sys root))
  unfolding registry_execute file_tools get find_tool text_eq
  file_tools-ListsNames s dir r h = list_dir-IsPlain s (list_call dir).args r h

  -- Over the tools on files, whatever the files and the root are: where the log reader answers, the
  -- report of the log analyzer on its findings passes the validators of the server, then and after
  -- further calls of the run. The names that `os.ReadDir` gives hold no separator.
  pub golden_path_on_files :
      (show_float : ℕ → Text) (range : List (Text × ℕ) → List (Text × ℕ))
      (sort : List Evidence → List Evidence)
      → Rearranges sort
      → (input : Fields) (c : Collecting S) (found_logs : Fields)
      → (run_program
          (collector_execute (registry_execute (file_tools sys root)))
          (read_logs true input)
          c).0
        ≡ ok found_logs
      → (given : Fields) → maps_at (txt "findings") given ≡ maps_at (txt "findings") found_logs
      → (later : Collecting S)
      → Extends
          (run_program
            (collector_execute (registry_execute (file_tools sys root)))
            (read_logs true input)
            c).1.outputs
          later.outputs
      → check show_float
          (set_collector server_validator)
          (txt "agent.log_analyzer")
          (analyze range sort given)
          later
        ≡ none
  golden_path_on_files show_float range sort rearranges =
      golden_path (registry_execute (file_tools sys root)) show_float range sort rearranges
        file_tools-ListsNames
