-- ===== src/Tools/Replay/Faithful.antt =====
-- The replay of a recorded program (tools/replay_executor.go, tools/persisting_executor.go).
use mathlib.Core.List.{append-nil, append_assoc}
use agent_orchestrator_go.Base.{
  ℕ, suc, ◌+◌, ◌≡◌, refl, sym, ap, ◌∙◌, Bool, true, false, List, [], ◌∷◌, ◌++◌, some, Text, text_eq,
  text_eq_iff, text_eq_refl, text_eq→eq, if◌then◌else◌, Result, ok, err, arith, All, All-append,
  subst,
}
use agent_orchestrator_go.Value.{Fields}
use agent_orchestrator_go.Tools.{
  Call, ToolResult, Executor, Json, Program, answer, use_tool, run_program,
}
use agent_orchestrator_go.Tools.Persisting.{record_of, trace}
use agent_orchestrator_go.Tools.Replay.{
  ReplayEntry, Entries, candidates, set_entries, add_entry, load_records, new_replay_executor,
  consume, replay_execute, unconsumed_in, unconsumed,
}

candidates-set_entries :
    (k j : Text) (es : List ReplayEntry) (m : Entries)
    → candidates k (set_entries j es m) ≡ (if text_eq j k then es else candidates k m)
unfolding candidates set_entries
candidates-set_entries k j es [] = refl
candidates-set_entries k j es ((i, old) ∷ m) =
    ground
      (arith, text_eq_iff i j, text_eq_iff i k, text_eq_iff j k, candidates-set_entries k j es m)

unconsumed-set_entries :
    (k : Text) (es : List ReplayEntry) (m : Entries)
    → unconsumed (set_entries k es m) + unconsumed_in (candidates k m)
      ≡ unconsumed m + unconsumed_in es
unfolding candidates set_entries unconsumed
unconsumed-set_entries k es [] = omega arith
unconsumed-set_entries k es ((i, old) ∷ m) = ground (arith, unconsumed-set_entries k es m)

unconsumed_in-append :
    (xs ys : List ReplayEntry) → unconsumed_in (xs ++ ys) ≡ unconsumed_in xs + unconsumed_in ys
unconsumed_in-append [] ys = omega arith
unconsumed_in-append (x ∷ xs) ys = omega (arith, unconsumed_in-append xs ys)

abbrev pub IsConsumed : ReplayEntry → Type 0
IsConsumed e = e.consumed ≡ true

-- Entries that are consumed are passed over.
consume-append :
    (spent rest : List ReplayEntry) (e : ReplayEntry)
    → All IsConsumed spent
    → e.consumed ≡ false
    → consume e.input_json (spent ++ e ∷ rest)
      ≡ some (e.output, spent ++ record e { consumed = true } ∷ rest)
unfolding consume
consume-append [] rest e h fresh = ground (arith, fresh, text_eq_refl e.input_json)
consume-append (x ∷ spent) rest e h fresh =
    ground (arith, h.0, consume-append spent rest e h.1 fresh)

add_pending :
    (b : Bool) (here there : List ReplayEntry) (e : ReplayEntry) (new rest : List ReplayEntry)
    → (b ≡ true → here ≡ there)
    → new ≡ e ∷ []
    → (if b then here ++ e ∷ [] else there) ++ rest ≡ there ++ (if b then new ++ rest else rest)
add_pending true here there e new rest same one =
    append_assoc here (e ∷ []) rest
    ∙ ap (λ l. l ++ e ∷ rest) (same refl)
    ∙ ap (λ l. there ++ (l ++ rest)) (sym one)
add_pending false here there e new rest same one = refl

-- The candidates are entries that are consumed, and then those that are still to come.
pub record Ready (found coming : List ReplayEntry) : Type 0 where
  pub spent : List ReplayEntry
  pub all_spent : All IsConsumed spent
  pub split : found ≡ spent ++ coming

Ready-next :
    (b : Bool) (found left new rest : List ReplayEntry)
    → Ready found (if b then new ++ rest else rest)
    → (b ≡ true → Ready left rest)
    → Ready (if b then left else found) rest
Ready-next true found left new rest ready next = next refl
Ready-next false found left new rest ready next = ready

module _ {S : Type 0} (json : Json) (execute : Executor S) where
  -- Every call of the program succeeds, the content of its result can be stored, and the program goes on
  -- alike with the result and with what JSON gives back of its content under the name of the tool.
  abbrev pub IsReplayable : Program → S → Type 0
  IsReplayable (answer r) s = Unit
  IsReplayable (use_tool call k) s =
      (r : ToolResult) × ((execute s call).0 ≡ ok r)
      × (stored : Fields) × (json.unmarshal (json.marshal r.content) ≡ ok stored)
      × (k (ok (record { result_tool = call.tool_name; content = stored })) ≡ k (execute s call).0)
      × IsReplayable (k (execute s call).0) (execute s call).1

  pub entry_of : Call → Result ToolResult → List ReplayEntry
  entry_of call (err e) = []
  entry_of call (ok r) = elim (json.unmarshal (json.marshal r.content)) [
    | err e ↦ []
    | ok stored ↦
        record { input_json = json.marshal call.args; output = stored; consumed = false } ∷ []
  ]

  entry_of-stored :
      (call : Call) (r : ToolResult) (stored : Fields)
      → json.unmarshal (json.marshal r.content) ≡ ok stored
      → entry_of call (ok r)
        ≡ record { input_json = json.marshal call.args; output = stored; consumed = false } ∷ []
  unfolding entry_of
  entry_of-stored call r stored kept = rw (kept, entry_of) refl

  -- The entries of a tool that the program is still to use.
  pub expected : Text → Program → S → List ReplayEntry
  unfolding entry_of
  expected t (answer r) s = []
  expected t (use_tool call k) s =
      let rest = expected t (k (execute s call).0) (execute s call).1 in
      if text_eq call.tool_name t then entry_of call (execute s call).0 ++ rest else rest

  pub calls : Program → S → ℕ
  calls (answer r) s = 0
  calls (use_tool call k) s = suc (calls (k (execute s call).0) (execute s call).1)

  module _ (run_id step_id : Text) where
    load_trace :
        (p : Program) (s : S) (seq : ℕ) (m : Entries)
        → IsReplayable p s
        → (m' : Entries) × (load_records json (trace json run_id step_id execute p s seq) m ≡ ok m')
          × ((t : Text) → candidates t m' ≡ candidates t m ++ expected t p s)
          × (unconsumed m' ≡ unconsumed m + calls p s)
    unfolding load_records trace record_of expected calls
    load_trace (answer r) s seq m h = (m, refl, λ t. sym (append-nil (candidates t m)), omega arith)
    load_trace (use_tool call k) s seq m (r, succeeded, stored, kept, alike, later) =
        let e : ReplayEntry = record {
          input_json = json.marshal call.args;
          output = stored;
          consumed = false;
        } in
        let (m', loaded, found, count) =
          load_trace (k (execute s call).0) (execute s call).1 (suc seq)
            (add_entry call.tool_name e m) later in
        (
          m',
          ground (arith, succeeded, kept, loaded),
          (λ t.
              found t
              ∙ ap (λ es. es ++ expected t (k (execute s call).0) (execute s call).1)
                  (candidates-set_entries t call.tool_name (candidates call.tool_name m ++ e ∷ [])
                    m)
              ∙ add_pending (text_eq call.tool_name t) (candidates call.tool_name m)
                  (candidates t m) e (entry_of call (execute s call).0)
                  (expected t (k (execute s call).0) (execute s call).1)
                  (λ same. ap (λ t. candidates t m) (text_eq→eq call.tool_name t same))
                  (ap (entry_of call) succeeded ∙ entry_of-stored call r stored kept)),
          ground (
            arith,
            count,
            unconsumed-set_entries call.tool_name (candidates call.tool_name m ++ e ∷ []) m,
            unconsumed_in-append (candidates call.tool_name m) (e ∷ []),
          ),
        )

  -- The call that the program makes next takes the first entry that is left for its tool.
  module _ (call : Call) (stored : Fields) (m : Entries) (rest : List ReplayEntry)
      (ready : Ready (candidates call.tool_name m) (
        record { input_json = json.marshal call.args; output = stored; consumed = false }
        ∷ rest)) where
    abbrev next_entry : ReplayEntry
    next_entry = record { input_json = json.marshal call.args; output = stored; consumed = false }

    abbrev left_after : List ReplayEntry
    left_after = ready.spent ++ record next_entry { consumed = true } ∷ rest

    replay_step : replay_execute json m call ≡ (
      ok (record { result_tool = call.tool_name; content = stored }),
      set_entries call.tool_name left_after m,
    )
    unfolding replay_execute
    replay_step =
        let taken = consume-append ready.spent rest next_entry ready.all_spent refl in
        ground (arith, ready.split, taken)

    left_one_fewer : unconsumed m ≡ suc (unconsumed (set_entries call.tool_name left_after m))
    left_one_fewer = omega (
      arith,
      unconsumed-set_entries call.tool_name left_after m,
      ap unconsumed_in ready.split,
      unconsumed_in-append ready.spent (next_entry ∷ rest),
      unconsumed_in-append ready.spent (record next_entry { consumed = true } ∷ rest),
    )

    Ready-after : Ready left_after rest
    Ready-after = record {
      spent = ready.spent ++ record next_entry { consumed = true } ∷ [];
      all_spent = All-append IsConsumed ready.spent _ ready.all_spent (refl, tt);
      split = sym (append_assoc ready.spent _ rest);
    }

  replay_rest :
      (p : Program) (s : S) (m : Entries)
      → IsReplayable p s
      → ((t : Text) → Ready (candidates t m) (expected t p s))
      → ((run_program (replay_execute json) p m).0 ≡ (run_program execute p s).0)
        × (unconsumed (run_program (replay_execute json) p m).1 + calls p s ≡ unconsumed m)
  unfolding run_program expected calls
  replay_rest (answer r) s m h ready = (refl, omega arith)
  replay_rest (use_tool call k) s m (r, succeeded, stored, kept, alike, later) ready =
      let rest = λ (t : Text). expected t (k (execute s call).0) (execute s call).1 in
      let here =
        subst (Ready (candidates call.tool_name m))
          (ap
              (λ b.
                if b
                then entry_of call (execute s call).0 ++ rest call.tool_name
                else rest call.tool_name)
              (text_eq_refl call.tool_name)
            ∙ ap (λ x. entry_of call x ++ rest call.tool_name) succeeded
            ∙ ap (λ es. es ++ rest call.tool_name) (entry_of-stored call r stored kept))
          (ready call.tool_name) in
      let left = left_after call stored m (rest call.tool_name) here in
      let m' = set_entries call.tool_name left m in
      let ih = replay_rest (k (execute s call).0) (execute s call).1 m' later (λ t.
        subst (λ found. Ready found (rest t)) (sym (candidates-set_entries t call.tool_name left m))
          (Ready-next (text_eq call.tool_name t) (candidates t m) left
            (entry_of call (execute s call).0) (rest t) (ready t)
            (λ same.
              subst (λ u. Ready left (rest u)) (text_eq→eq call.tool_name t same)
                (Ready-after call stored m (rest call.tool_name) here)))) in
      let next =
        ap (λ (q : Result ToolResult × Entries). run_program (replay_execute json) (k q.0) q.1)
          (replay_step call stored m (rest call.tool_name) here)
        ∙ ap (λ p. run_program (replay_execute json) p m') alike in
      (
        ap (λ q. q.0) next ∙ ih.0,
        omega (
          arith,
          ap (λ q. unconsumed q.1) next,
          ih.1,
          left_one_fewer call stored m (rest call.tool_name) here,
        ),
      )

-- Replaying the records of a run: where every call of a program succeeded, and the program goes on alike
-- with each result and with what JSON gives back of its content (numbers as float64, lists of maps as lists
-- of any value) under the name of its tool, the stored records load, the replay answers what the program
-- answered, and no stored record is left over.
pub replay_faithful :
    {S : Type 0} (json : Json) (execute : Executor S) (run_id step_id : Text) (p : Program) (s : S)
    → IsReplayable json execute p s
    → (m : Entries) × (new_replay_executor json (trace json run_id step_id execute p s 0) ≡ ok m)
      × ((run_program (replay_execute json) p m).0 ≡ (run_program execute p s).0)
      × (unconsumed (run_program (replay_execute json) p m).1 ≡ 0)
unfolding new_replay_executor candidates unconsumed
replay_faithful json execute run_id step_id p s h =
    let (m, loaded, found, count) = load_trace json execute run_id step_id p s 0 [] h in
    let replayed =
      replay_rest json execute p s m h
        (λ t. record { spent = []; all_spent = tt; split = found t }) in
    (m, loaded, replayed.0, omega (arith, replayed.1, count))
