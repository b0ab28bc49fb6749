-- ===== src/Agents/Golden.antt =====
-- The path from the log reader (agent/log_reader.go) through the log analyzer
-- (agent/log_analyzer.go) to the validators that cmd/server/main.go sets.
use agent_orchestrator_go.Base.{
  ℕ, true, false, ◌≡◌, inl, inr, subst, List, [], ◌∷◌, map, none, Text, txt, Result, ok, err, All,
  All-append, All-map, All-weaken, line-Occurs, ok-injective,
}
use agent_orchestrator_go.Value.{Fields}
use agent_orchestrator_go.Value.Read.{string_at, maps_at}
use agent_orchestrator_go.Tools.{Executor, run_program}
use agent_orchestrator_go.Tools.Collector.{Collecting, collector_execute}
use agent_orchestrator_go.Orchestrator.Validators.{validate_report}
use agent_orchestrator_go.Orchestrator.Grounding.Sound.{IsGrounded, validate_grounding_iff}
use agent_orchestrator_go.Orchestrator.Grounding.Wiring.{
  Checker, grounding, composite, plain, checker, no_checker, check, set_collector,
}
use agent_orchestrator_go.Agents.LogReader.{read_logs}
use agent_orchestrator_go.Agents.LogReader.Grounded.{
  Outputs, Extends, GroundedMatch, GroundedFinding, findings-Extends,
}
use agent_orchestrator_go.Agents.LogReader.Run.{ListsNames, GroundedAnswer, read_logs-Grounded}
use agent_orchestrator_go.Agents.LogAnalyzer.{Evidence, evidence_of, all_evidence, analyze}
use agent_orchestrator_go.Agents.LogAnalyzer.Accepted.{analyze-accepted}
use agent_orchestrator_go.Agents.LogAnalyzer.Listed.{Rearranges, item_of, analyze-listed}

-- `NewCompositeValidator(NewReportValidator(), NewGroundingValidator())`
unfoldable pub server_validator : {W : Type 0} → Checker W
server_validator = composite (
    checker (plain (λ id output c. validate_report id output))
      (checker (grounding false) no_checker))

module _ (show_float : ℕ → Text) (outs : Outputs) where
  match-IsGrounded :
      (f m : Fields)
      → GroundedFinding show_float outs f
      → GroundedMatch show_float outs m
      → IsGrounded show_float outs (item_of (evidence_of (string_at (txt "file") f) m))
  match-IsGrounded f m found (inl e) = (inr found.0, inl e)
  match-IsGrounded f m found (inr line) = (inr found.0, inr (line-Occurs _ _ line))

  evidence-IsGrounded :
      (findings : List Fields)
      → All (GroundedFinding show_float outs) findings
      → All (λ ev. IsGrounded show_float outs (item_of ev)) (all_evidence findings)
  unfolding all_evidence
  evidence-IsGrounded [] g = tt
  evidence-IsGrounded (f ∷ findings) g =
      let file = string_at (txt "file") f in
      let matches = maps_at (txt "matches") f in
      All-append (λ ev. IsGrounded show_float outs (item_of ev)) (map (evidence_of file) matches) _
        (All-map (λ ev. IsGrounded show_float outs (item_of ev)) (evidence_of file) matches
          (All-weaken (GroundedMatch show_float outs) _ matches (λ m h. match-IsGrounded f m g.0 h)
            g.0.1))
        (evidence-IsGrounded findings g.1)

module _ {S : Type 0} (execute : Executor S) (show_float : ℕ → Text)
    (range : List (Text × ℕ) → List (Text × ℕ)) (sort : List Evidence → List Evidence) where
  answer-findings :
      (p : Result Fields × Collecting S) (found : Fields)
      → GroundedAnswer execute show_float p
      → p.0 ≡ ok found
      → All (GroundedFinding show_float p.1.outputs) (maps_at (txt "findings") found)
  answer-findings (err e, c) found g h = cc
  answer-findings (ok answered, c) found g h =
      subst (λ r. All (GroundedFinding show_float c.outputs) (maps_at (txt "findings") r))
        (ok-injective h) g

  -- Where the log reader answers, over the tools behind the collector of a run and with a directory
  -- that lists names, the report of the log analyzer on its findings passes the validators of the
  -- server, then and after further calls of the run. The analyzer may be given anything beside the
  -- findings; its map and its sorting may take any order.
  pub golden_path :
      Rearranges sort
      → ListsNames execute
      → (input : Fields) (c : Collecting S) (found : Fields)
      → (run_program (collector_execute execute) (read_logs true input) c).0 ≡ ok found
      → (given : Fields) → maps_at (txt "findings") given ≡ maps_at (txt "findings") found
      → (later : Collecting S)
      → Extends
          (run_program (collector_execute execute) (read_logs true input) c).1.outputs
          later.outputs
      → check show_float
          (set_collector server_validator)
          (txt "agent.log_analyzer")
          (analyze range sort given)
          later
        ≡ none
  unfolding server_validator set_collector check
  golden_path rearranges names input c found h given same later ext =
      let p = run_program (collector_execute execute) (read_logs true input) c in
      let findings =
        answer-findings p found (read_logs-Grounded execute show_float names input c) h in
      let held =
        findings-Extends show_float p.1.outputs later.outputs (maps_at (txt "findings") found) ext
          findings in
      let listed =
        analyze-listed range sort rearranges (IsGrounded show_float later.outputs) given (
          rw same
            (evidence-IsGrounded show_float later.outputs (maps_at (txt "findings") found) held)) in
      let grounded =
        (validate_grounding_iff show_float later.outputs (txt "agent.log_analyzer")
            (analyze range sort given)).1
          listed.0 in
      rw (analyze-accepted range sort given, grounded)
