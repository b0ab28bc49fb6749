-- ===== src/Planner/LlmPlanner/Known.antt =====
-- planner/llm_planner.go: which answers of a language model become a plan.
use agent_orchestrator_go.Base.{
  bind-ok, ℕ, suc, Bool, true, false, ◌≡◌, ◌≢◌, refl, sym, ap, ◌∙◌, subst, ◌↔◌, inl, inr, List, [],
  ◌∷◌, map, some, none, Text, txt, text_eq, text_eq_iff, ltb, if◌then◌else◌, Result, ok, err, arith,
  All, member, Bool-cases, Option-cases, Result-cases, ◌≤◌, ok-injective, trim_space,
}
use agent_orchestrator_go.Planner.Plan.{Plan, PlanStep}
use agent_orchestrator_go.Planner.Replanner.{ReplanContext}
use agent_orchestrator_go.Llm.{Message, Response}
use agent_orchestrator_go.Llm.Prompt.{AgentDescriptor}
use agent_orchestrator_go.Llm.Schema.{JsonValue, plan_step_schema}
use agent_orchestrator_go.Llm.Schema.Instance.{IsInstance}
use agent_orchestrator_go.Llm.Schema.Conforms.{validate_json_iff}
use agent_orchestrator_go.Llm.Guardrails.{
  Guardrail, empty_response_guardrail, json_guardrail, check_guardrail, check_chain, extract_json,
  schema_error,
}
use agent_orchestrator_go.Planner.LlmPlanner.{
  RawStep, PlannerLibraries, LlmPlanner, known_agents, plan_step, check_steps, with_prefix,
  or_empty_plan, parse_plan_steps, guard_response, plan_of, ask, create_plan, replan_with_model,
  chat_request,
}

-- The step names an agent that the planner was told of.
abbrev pub IsKnown : List AgentDescriptor → RawStep → Type 0
IsKnown agents r = (r.agent_id ≢ []) × (member r.agent_id (known_agents agents) ≡ true)

check_steps_iff :
    (agents : List AgentDescriptor) (i : ℕ) (raw : List RawStep) (steps : List PlanStep)
    → (check_steps agents i raw ≡ ok steps)
      ↔ (All (IsKnown agents) raw × (steps ≡ map plan_step raw))
unfolding check_steps
check_steps_iff agents i [] steps = (λ h. (tt, sym (ok-injective h)), λ h. ap ok (sym h.1))
check_steps_iff agents i (r ∷ raw) steps = elim (Bool-cases (text_eq r.agent_id [])) [
  | inl missing ↦
      rw (missing, check_steps)
        (λ h. cc, λ h. absurd (h.0.0.0 ((text_eq_iff r.agent_id []).0 missing)))
  | inr named ↦ elim (Bool-cases (member r.agent_id (known_agents agents))) [
    | inr unknown ↦ rw (named, check_steps, unknown) (λ h. cc, λ h. cc (h.0.0.1))
    | inl known ↦ elim (Result-cases (check_steps agents (suc i) raw)) [
      | inr (e, failed) ↦
          rw (named, check_steps, known, failed)
            (
              λ h. cc,
              λ h. cc (
                failed,
                (check_steps_iff agents (suc i) raw (map plan_step raw)).1 (h.0.1, refl),
              ),
            )
      | inl (later, fine) ↦
          let tail = (check_steps_iff agents (suc i) raw later).0 fine in
          rw (named, check_steps, known, fine)
            (
              λ h. (
                ((λ e. cc (named, (text_eq_iff r.agent_id []).1 e), refl), tail.0),
                sym (ok-injective h) ∙ ap (λ l. plan_step r ∷ l) tail.1,
              ),
              λ h. ap ok (ap (λ l. plan_step r ∷ l) tail.1 ∙ sym h.1),
            )
    ]
  ]
]

-- Steps are made of an answer exactly where its JSON decodes to a list that is not empty, and whose
-- steps name agents that the planner was told of: the steps are those of the list, in its order.
abbrev pub Steps : PlannerLibraries → List AgentDescriptor → Text → List PlanStep → Type 0
Steps libs agents content steps =
    (raw : List RawStep) × (libs.decode_steps (extract_json content) ≡ ok raw)
    × (raw ≢ [])
    × All (IsKnown agents) raw
    × (steps ≡ map plan_step raw)

or_empty_plan_iff :
    (agents : List AgentDescriptor) (raw : List RawStep) (steps : List PlanStep)
    → (or_empty_plan agents raw ≡ ok steps)
      ↔ ((raw ≢ []) × All (IsKnown agents) raw × (steps ≡ map plan_step raw))
or_empty_plan_iff agents [] steps = (λ h. cc, λ h. absurd (h.0 refl))
or_empty_plan_iff agents (r ∷ raw) steps =
    let each = check_steps_iff agents 0 (r ∷ raw) steps in
    (
      λ h. (let (known, same) = each.0 h in (λ e. cc, known, same)),
      λ (_, known, same). each.1 (known, same),
    )

parse_plan_steps_iff :
    (libs : PlannerLibraries) (content : Text) (agents : List AgentDescriptor)
    (steps : List PlanStep)
    → (parse_plan_steps libs content agents ≡ ok steps) ↔ Steps libs agents content steps
unfolding parse_plan_steps
parse_plan_steps_iff libs content agents steps =
    elim (Result-cases (libs.decode_steps (extract_json content))) [
      | inr (e, failed) ↦ rw (failed, parse_plan_steps) (λ h. cc, λ h. cc (h.1))
      | inl (raw, decoded) ↦
          let each = or_empty_plan_iff agents raw steps in
          rw (decoded, parse_plan_steps)
            (
              λ h. (let (filled, known, same) = each.0 h in (raw, refl, filled, known, same)),
              λ (other, found, filled, known, same). (or_empty_plan_iff agents raw steps).1 (
                  subst (λ l. (l ≢ []) × All (IsKnown agents) l × (steps ≡ map plan_step l))
                    (ok-injective (sym found)) (filled, known, same)),
            )
    ]

schema_error-none : (messages : List Text) → schema_error messages ≡ none → messages ≡ []
schema_error-none [] h = refl
schema_error-none (m ∷ messages) h = cc

map-nil {ℓ ℓ'} : {A : Type ℓ} {B : Type ℓ'} (f : A → B) (xs : List A) → map f xs ≡ [] → xs ≡ []
map-nil f [] h = refl
map-nil f (x ∷ xs) h = cc

check_chain-cons :
    (libs : PlannerLibraries) (g : Guardrail) (guards : List Guardrail) (resp : Response)
    → check_chain libs.decoder libs.lower (g ∷ guards) resp ≡ none
    → (check_guardrail libs.decoder libs.lower g resp ≡ none)
      × (check_chain libs.decoder libs.lower guards resp ≡ none)
unfolding check_chain
check_chain-cons libs g guards resp h =
    elim (Option-cases (check_guardrail libs.decoder libs.lower g resp)) [
      | inl fine ↦ (
        fine,
        ap
              (λ o. elim o [
                | some e ↦ some e
                | none ↦ check_chain libs.decoder libs.lower guards resp
              ])
              (sym fine)
            ∙ h,
      )
      | inr (e, refused) ↦ cc
    ]

guard_response-chain :
    (libs : PlannerLibraries) (guards : List Guardrail) (resp : Response) (u : Unit {0})
    → guard_response libs (some guards) resp ≡ ok u
    → check_chain libs.decoder libs.lower guards resp ≡ none
guard_response-chain libs guards resp u h =
    elim (Option-cases (check_chain libs.decoder libs.lower guards resp)) [
      | inl fine ↦ fine
      | inr (e, refused) ↦ cc
    ]

-- The answer passes the guardrails that the planner has at first: it is not blank, and its JSON is an
-- array of at least one step as `PlanStepSchema` describes it.
abbrev pub IsAccepted : PlannerLibraries → Text → Type 0
IsAccepted libs content =
    (trim_space content ≢ [])
    × (v : JsonValue) × (libs.decoder.decode (trim_space (extract_json content)) ≡ ok v)
    × IsInstance libs.decoder plan_step_schema v

chain-IsAccepted :
    (libs : PlannerLibraries) (resp : Response)
    → check_chain libs.decoder libs.lower
        (empty_response_guardrail ∷ json_guardrail plan_step_schema ∷ [])
        resp
      ≡ none
    → IsAccepted libs resp.content
unfolding check_guardrail
chain-IsAccepted libs resp h =
    let (filled, rest) = check_chain-cons libs _ _ resp h in
    let (valid, _) = check_chain-cons libs _ _ resp rest in
    let clean = map-nil _ _ (schema_error-none _ valid) in
    let (v, decoded, instanced) =
      (validate_json_iff libs.decoder plan_step_schema (extract_json resp.content)).0 clean in
    (λ e. cc (filled, (text_eq_iff (trim_space resp.content) []).1 e), v, decoded, instanced)

-- The plan for the task that is made of an accepted answer to the planner's request.
abbrev pub IsAnswered : {W : Type 0} → PlannerLibraries → LlmPlanner W → W → Text → Plan → Type 0
IsAnswered libs p w task plan =
    (prompts : Message × Message) × (resp : Response) × ((p.client w
        (chat_request libs p prompts)).0
      ≡ ok resp)
    × IsAccepted libs resp.content
    × (plan.task_id ≡ task)
    × Steps libs p.agents resp.content plan.steps

-- The planner with the guardrails that it has at first.
abbrev pub IsGuarded : {W : Type 0} → LlmPlanner W → Type 0
IsGuarded p = p.guardrails ≡ some (empty_response_guardrail ∷ json_guardrail plan_step_schema ∷ [])

with_prefix-ok :
    {A : Type 0} (prefix : Text) (r : Result A) (a : A) → with_prefix prefix r ≡ ok a → r ≡ ok a
with_prefix-ok prefix (ok b) a h = h
with_prefix-ok prefix (err e) a h = cc

else-ok :
    {W : Type 0} (b : Bool) (x y : Result Plan × W) (plan : Plan)
    → b ≡ false
    → (if b then x else y).0 ≡ ok plan
    → y.0 ≡ ok plan
else-ok true x y plan other h = cc
else-ok false x y plan other h = h

module _ {W : Type 0} (libs : PlannerLibraries) (p : LlmPlanner W) (guarded : IsGuarded p) where
  plan_of-IsAccepted :
      (task : Text) (resp : Response) (plan : Plan)
      → plan_of libs p task resp ≡ ok plan
      → IsAccepted libs resp.content
        × (plan.task_id ≡ task)
        × Steps libs p.agents resp.content plan.steps
  unfolding plan_of
  plan_of-IsAccepted task resp plan h =
      let (u, fine, later) = bind-ok (guard_response libs p.guardrails resp) _ plan h in
      let (steps, parsed, made) =
        bind-ok (parse_plan_steps libs resp.content p.agents) _ plan later in
      let same = ok-injective made in
      let guards =
        guard_response-chain libs _ resp u
          (ap (λ o. guard_response libs o resp) (sym guarded) ∙ fine) in
      (
        chain-IsAccepted libs resp guards,
        ap (λ (q : Plan). q.task_id) (sym same),
        subst (Steps libs p.agents resp.content) (ap (λ (q : Plan). q.steps) same)
            ((parse_plan_steps_iff libs resp.content p.agents steps).0 parsed),
      )

  ask-IsAnswered :
      (chat_error task : Text) (prompts : Result (Message × Message)) (w : W) (plan : Plan)
      → (ask libs p chat_error task prompts w).0 ≡ ok plan
      → IsAnswered libs p w task plan
  unfolding ask
  ask-IsAnswered chat_error task (err e) w plan h = cc
  ask-IsAnswered chat_error task (ok prompts) w plan h =
      let (resp, answered, made) =
        bind-ok (with_prefix chat_error _) (plan_of libs p task) plan h in
      let (accepted, task_kept, steps) = plan_of-IsAccepted task resp plan made in
      (prompts, resp, with_prefix-ok chat_error _ resp answered, accepted, task_kept, steps)

  -- With the guardrails that a planner has at first, a plan that `CreatePlan` returns is for the task,
  -- and is made of one answer of the model to the planner's request: the answer is not blank, its JSON
  -- is an array of at least one step as the plan schema describes it, and the plan's steps are the
  -- decoded ones in their order, each of which names an agent that the planner was told of.
  pub create_plan-IsAnswered :
      (w : W) (task : Text) (plan : Plan)
      → (create_plan libs p w task).0 ≡ ok plan
      → IsAnswered libs p w task plan
  unfolding create_plan
  create_plan-IsAnswered w task plan h = ask-IsAnswered (txt "llm chat: ") task _ w plan h

  -- With the guardrails that a planner has at first, a plan that `Replan` returns is made of one answer
  -- of the model in the same way, and the attempt that it is for is within the bound on replans.
  pub replan_with_model-IsAnswered :
      (w : W) (r : ReplanContext) (plan : Plan)
      → (replan_with_model libs p w r).0 ≡ ok plan
      → (r.attempt ≤ r.max_replans) × IsAnswered libs p w r.task_id plan
  unfolding replan_with_model
  replan_with_model-IsAnswered w r plan h = elim (Bool-cases (ltb r.max_replans r.attempt)) [
    | inl past ↦ cc
    | inr within ↦
        let fine = else-ok (ltb r.max_replans r.attempt) _ _ plan within h in
        (ground arith, ask-IsAnswered (txt "llm replan chat: ") r.task_id _ w plan fine)
  ]
