-- ===== src/Lib.antt =====
-- Verification of the agent orchestrator: plans of agent steps that are scheduled by their
-- dependencies, retried and repaired, and whose tool calls are recorded and replayed.
--
-- The parts, and the files that model them:
--
-- - Value: the values of `map[string]any`, with lookup, insertion and the loops that copy one map
--   over another. Maps are association lists; a nil map is told apart from an empty one.
-- - Retry/Policy: retry/policy.go, with `Merge` and `ShouldRetry`.
-- - Planner/Plan: planner/planner.go; Planner/Replanner is planner/replanner.go, Planner/Fixed is
--   planner/dummy.go and log_analysis.go, and Planner/ContextAware is planner/context_aware.go with
--   `CreatePlan` (`create_plan_for`) and `Replan` (`replan_remaining`).
-- - Tools: the calls, results and executors of tools/contracts.go and tools/executor.go. An executor
--   is a function on a state of its own, an agent a program that answers or calls a tool and goes on
--   with the result. Tools/Registry is tools/registry.go and registry_executor.go, Tools/Collector
--   is tools/collector.go, Tools/Persisting is tools/persisting_executor.go and Tools/Replay is
--   tools/replay_executor.go. Tools/Files is tools/fs_read_file.go, fs_list_dir.go and
--   fs_grep_file.go, with `safe_path` and `safe_directory` for their `safePath`.
-- - Failure: failure/failure.go, and failure/classifier.go in Failure/Classifier.
-- - Repair: repair/repair.go; Repair/Config is repair/config.go, Repair/Strategies holds the
--   strategies of repair/engine.go and repair/advanced_strategy.go, Repair/Engine the repair engine;
--   Repair/Corrector is repair/input_corrector.go, less `CanCorrect`.
-- - Orchestrator/Dag: orchestrator/dag.go. `build_dag` is the part of `newDAGScheduler` for plans
--   with dependencies, `kahn` its check for cycles, `ready_steps` and `mark_done` are `ReadySteps`
--   and `MarkDone`. Its children prove the check right (Dag/Kahn, Dag/Links, Dag/Build), which plans
--   are accepted (Dag/Accepted) and the invariant of a scheduler in use (Dag/Invariant, Dag/Batch).
-- - Orchestrator/StepExecutor: orchestrator/step_executor.go and agent_runner.go: one step with its
--   attempts, its repairs, its records and its tools. `step_round` is one round of the loop of
--   `executeStepWithRetry`; `record_step` is `Create` of the step repository, whose error is dropped.
--   An agent that is given no tools is a function of its input.
-- - Orchestrator/Engine: `Execute` of orchestrator/engine.go: the persistent run, the plan, the loop
--   over batches of ready steps, and replanning. `batch_round` is one round of that loop.
--   Engine/Replay is its `Replay`.
-- - Orchestrator/Validators: orchestrator/validator.go and report_validator.go.
--   Orchestrator/Grounding is orchestrator/grounding_validator.go, with `validate_grounding` for its
--   `Validate`; Grounding/Wiring has `groundingValidator` of orchestrator/engine.go, and how
--   `Execute` puts the collector behind its tools and into the validator.
-- - Agents: Agents/Echo is agent/echo.go, Agents/LogReader is agent/log_reader.go, a program that
--   calls its tools, and Agents/LogAnalyzer is agent/log_analyzer.go; Agents/Golden puts the two and the validators of
--   cmd/server/main.go (`server_validator`) together, and Agents/OnFiles the tools on files with them.
-- - Llm: the client interface of llm/client.go; Llm/Prompt is llm/prompt.go, Llm/Schema is
--   llm/schema.go with `validate_json` for `ValidateJSON`, Llm/Guardrails is llm/guardrails.go with
--   `check_chain` for the check of a chain. Planner/LlmPlanner is planner/llm_planner.go, with
--   `create_plan` and `replan_with_model` for its `CreatePlan` and `Replan`.
-- - Orchestrator/Metrics: orchestrator/metrics.go: what is read off stored steps and tool calls
--   (agent/tool_call.go, in Tools/Stored); Metrics/Evaluate has the counts, with `evaluate_all` for
--   `EvaluateAll`.
-- - Base: lists, integers and texts, with what the program uses of packages strings and fmt.
--
-- How they interact: the engine asks a planner for a plan, gives it to the scheduler, and runs the
-- ready steps in batches; a step runs its agent with the tools, which the collector and the
-- persisting executor wrap; a failure goes to the repair engine, and, where a step is given up, to
-- the replanner.
--
-- Parameters: the planner, the replanner, the running of one batch, the run repository, the recorder
-- of tool calls, the step repository, the tools, the agents, the validator and the encoding of JSON;
-- for a replay, the engine as a function of its tools and its recorder; a client of a
-- language model, the execution of package text/template, Unicode's table of lower-case letters, the
-- decoding of JSON into values (`JsonDecoder`) and into plan steps; for the metrics, the three
-- repositories at one state of the storage, and the arithmetic of `float64`; for the tools on files,
-- packages path/filepath, os and bufio (`System`). Where a theorem relies on what JSON keeps, it says
-- so in a hypothesis.
--
-- Numbers are natural numbers, in-degrees and durations integers; indices, attempts and counts of
-- the program are not negative, and stay far below 2^63. A `float64` is its bits, with no
-- arithmetic. Strings are lists of characters.
--
-- Fuel: the loop of the check for cycles takes one node at a time, so that as many rounds as nodes
-- are enough; the loop of a step has as many rounds as the policy allows attempts, and one that
-- refuses; the loop of `Execute` has as many batches as the plan has steps, after each of as many
-- replans as are allowed. That this is enough is proved.
--
-- Orders: where Go goes over a map, a list stands for the map in some order, or the order is a
-- parameter; `sort.Slice`, which is not stable, is a parameter that rearranges.
--
-- Not modelled: times and delays, the interleavings of the steps inside one batch, which is one
-- operation here, contexts and their cancellation, floating point, symbolic links and changes of
-- the files during a call, the specs of tools, the HTTP client of llm/ollama.go, the parsing of
-- templates, that the engine gets its own tools back after a replay, storage and the HTTP
-- interface. The copy of `extractJSON` in planner/llm_planner.go is the same code as the one in
-- llm/guardrails.go, and is modelled once; so is the `safePath` of fs_read_file.go and
-- fs_grep_file.go.
-- Maps are values: that the log reader writes the keyword into maps which the collector still holds
-- is not modelled, nor that runs which go on at once share one grounding validator.

pub mod Base
pub mod Value
pub mod Retry
pub mod Tools
pub mod Failure
pub mod Llm
pub mod Repair
pub mod Planner
pub mod Agents
pub mod Orchestrator
