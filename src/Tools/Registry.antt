-- ===== src/Tools/Registry.antt =====
-- tools/registry.go and tools/registry_executor.go: tools by name.
use agent_orchestrator_go.Base.{
  map, ◌≡◌, ◌≢◌, not, ◌&&◌, List, [], ◌∷◌, ◌++◌, Option, some, none, Text, txt, text_eq,
  if◌then◌else◌, Result, ok, err, ◌>>=◌, arith, ok_ne_err, Option-cases, inl, inr, ap, ◌∙◌,
}
use agent_orchestrator_go.Tools.{Executor, invalid_args}

-- A `Tool`: its name, the name in its spec, and `Execute`.
pub record Tool (S : Type 0) : Type 0 where
  pub name : Text
  pub spec_name : Text
  pub execute : Executor S

module _ {S : Type 0} where
  -- `map[string]Tool`
  unfoldable pub find_tool : Text → List (Text × Tool S) → Option (Tool S)
  find_tool k [] = none
  find_tool k ((j, t) ∷ tools) = if text_eq j k then some t else find_tool k tools

  -- The checks of `Register` on the tool itself.
  unfoldable pub check_tool : Tool S → Result (Unit {0})
  check_tool t =
      if text_eq t.name []
      then err (invalid_args (txt "tool name is empty"))
      else if not (text_eq t.spec_name []) && not (text_eq t.spec_name t.name)
      then err (
          invalid_args
            (txt "spec.name (" ++ (t.spec_name ++ (txt ") != tool.name (" ++ (t.name ++ txt ")")))))
      else ok tt

  unfoldable pub register : Option (Tool S) → List (Text × Tool S) → Result (List (Text × Tool S))
  unfolding find_tool check_tool
  register none tools = err (invalid_args (txt "nil tool"))
  register (some t) tools = check_tool t >>= λ _. elim (find_tool t.name tools) [
    | some _ ↦ err (invalid_args (txt "duplicate tool name: " ++ t.name))
    | none ↦ ok ((t.name, t) ∷ tools)
  ]

  unfoldable pub get : Text → List (Text × Tool S) → Result (Tool S)
  unfolding find_tool
  get k tools = elim (find_tool k tools) [
    | none ↦ err (txt "tool not found: " ++ k)
    | some t ↦ ok t
  ]

  -- `List`, with `sort.Strings`.
  unfoldable pub list_names : (List Text → List Text) → List (Text × Tool S) → List Text
  list_names sort_strings tools = sort_strings (map (λ (entry : Text × Tool S). entry.0) tools)

  -- `RegistryExecutor.Execute`
  unfoldable pub registry_execute : List (Text × Tool S) → Executor S
  unfolding get
  registry_execute tools s call = elim (get call.tool_name tools) [
    | err e ↦ (err e, s)
    | ok t ↦ t.execute s call
  ]

  register-ok :
      (t : Tool S) (tools after : List (Text × Tool S))
      → register (some t) tools ≡ ok after
      → (find_tool t.name tools ≡ none) × (after ≡ (t.name, t) ∷ tools)
  unfolding register
  register-ok t tools after e = elim (Option-cases (find_tool t.name tools)) [
    | inl free ↦ (free, ground (arith, e, free))
    | inr (u, taken) ↦ absurd (ground (arith, e, taken))
  ]

  -- After a tool is registered it is found under its name, and every other name is found as before.
  pub get-register :
      (t : Tool S) (tools after : List (Text × Tool S)) (k : Text)
      → register (some t) tools ≡ ok after
      → get k after ≡ (if text_eq t.name k then ok t else get k tools)
  unfolding get
  get-register t tools after k e = ap (get k) (register-ok t tools after e).1 ∙ ground arith

  -- A name that is taken is refused, whatever the tool.
  pub register_duplicate :
      (t u : Tool S) (tools after : List (Text × Tool S))
      → get t.name tools ≡ ok u
      → register (some t) tools ≢ ok after
  unfolding get
  register_duplicate t u tools after e h =
      ok_ne_err (rw ((register-ok t tools after h).0, get) at e)
