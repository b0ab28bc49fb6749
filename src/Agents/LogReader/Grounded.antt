-- ===== src/Agents/LogReader/Grounded.antt =====
-- What the log reader (agent/log_reader.go) finds is grounded in the outputs that the collector of
-- the run has logged.
use mathlib.Core.List.{append-nil, append_assoc}
use agent_orchestrator_go.Base.{
  ℕ, is_zeroℤ, ◌≡◌, refl, sym, ap, ◌⊎◌, inl, inr, List, [], ◌∷◌, ◌++◌, some, Text, txt, text_eq,
  Result, ok, err, All, All-weaken, All-append, All-map, Part, Part-trans, Bool-cases,
}
use agent_orchestrator_go.Value.{str, Fields, lookup, lookup-insert}
use agent_orchestrator_go.Value.Read.{string_at, maps_at, int_at, map_list}
use agent_orchestrator_go.Tools.{Call, ToolResult}
use agent_orchestrator_go.Tools.Collector.{CollectedOutput, collected}
use agent_orchestrator_go.Orchestrator.Grounding.{corpus_text, fields_text}
use agent_orchestrator_go.Orchestrator.Grounding.Sound.{Names, Accessed}
use agent_orchestrator_go.Orchestrator.Grounding.Corpus.{
  Part-corpus-append, Part-corpus_last, string_at-Part, Written, maps_at-Written,
}
use agent_orchestrator_go.Agents.LogReader.{
  grep_call, with_keyword, add_matches, to_maps, add_finding,
}

abbrev pub Outputs : Type 0
Outputs = List CollectedOutput

abbrev pub Extends : Outputs → Outputs → Type 0
Extends outs later = (more : Outputs) × (later ≡ outs ++ more)

pub Extends-trans : (a b c : Outputs) → Extends a b → Extends b c → Extends a c
Extends-trans a b c (x, e) (y, f) = (x ++ y, simp (f, e, append_assoc))

pub collected-Extends :
    (call : Call) (r : Result ToolResult) (outs : Outputs) → Extends outs (collected call r outs)
collected-Extends call (err e) outs = ([], sym (append-nil outs))
collected-Extends call (ok r) outs = (_, refl)

Accessed-append : (f : Text) (outs more : Outputs) → Accessed outs f → Accessed (outs ++ more) f
Accessed-append f [] more h = absurd h
Accessed-append f (o ∷ outs) more (inl here) = inl here
Accessed-append f (o ∷ outs) more (inr later) = inr (Accessed-append f outs more later)

Accessed-last :
    (f path : Text) (o : CollectedOutput) (outs : Outputs)
    → lookup (txt "path") o.input ≡ some (str path)
    → Names f path
    → Accessed (outs ++ o ∷ []) f
Accessed-last f path o [] e named = inl (path, e, named)
Accessed-last f path o (p ∷ outs) e named = inr (Accessed-last f path o outs e named)

pub map_list-to_maps : (ms : List Fields) → map_list (to_maps ms) ≡ ms
map_list-to_maps [] = refl
map_list-to_maps (m ∷ ms) = ap (λ l. m ∷ l) (map_list-to_maps ms)

module _ (show_float : ℕ → Text) where
  -- The text of the match is a line of the corpus, or empty.
  abbrev pub GroundedMatch : Outputs → Fields → Type 0
  GroundedMatch outs m =
      (string_at (txt "text") m ≡ [])
      ⊎ Part (string_at (txt "text") m ++ 10 ∷ []) (corpus_text show_float outs)

  -- The file of the finding was searched, and its matches are grounded.
  abbrev pub GroundedFinding : Outputs → Fields → Type 0
  GroundedFinding outs f =
      Accessed outs (string_at (txt "file") f)
      × All (GroundedMatch outs) (maps_at (txt "matches") f)

  GroundedMatch-Extends :
      (outs later : Outputs)
      → Extends outs later
      → (m : Fields) → GroundedMatch outs m
      → GroundedMatch later m
  GroundedMatch-Extends outs later ext m (inl e) = inl e
  GroundedMatch-Extends outs later (more, e) m (inr part) =
      rw e (inr (Part-corpus-append show_float _ outs more part))

  pub matches-Extends :
      (outs later : Outputs) (ms : List Fields)
      → Extends outs later
      → All (GroundedMatch outs) ms
      → All (GroundedMatch later) ms
  matches-Extends outs later ms ext h =
      All-weaken (GroundedMatch outs) (GroundedMatch later) ms
        (GroundedMatch-Extends outs later ext) h

  pub findings-Extends :
      (outs later : Outputs) (fs : List Fields)
      → Extends outs later
      → All (GroundedFinding outs) fs
      → All (GroundedFinding later) fs
  findings-Extends outs later fs (more, e) h =
      All-weaken (GroundedFinding outs) (GroundedFinding later) fs
        (λ f g. (
          rw e (Accessed-append _ outs more g.0),
          matches-Extends outs later (maps_at (txt "matches") f) (more, e) g.1,
        ))
        h

  string_at-with_keyword :
      (keyword : Text) (m : Fields)
      → string_at (txt "text") (with_keyword keyword m) ≡ string_at (txt "text") m
  unfolding string_at text_eq
  string_at-with_keyword keyword m = rw (lookup-insert (txt "keyword") (txt "text") (str keyword) m)

  -- Each map under a key of an output that was collected last is a grounded match.
  Written-GroundedMatch :
      (outs : Outputs) (o : CollectedOutput) (keyword : Text) (m : Fields)
      → Written show_float (fields_text show_float o.output) m
      → GroundedMatch (outs ++ o ∷ []) (with_keyword keyword m)
  Written-GroundedMatch outs o keyword m part =
      rw (string_at-with_keyword keyword m) (elim (string_at-Part show_float (txt "text") m) [
        | inl e ↦ inl e
        | inr line ↦
            inr (Part-trans _ _ _ line (Part-trans _ _ _ part (Part-corpus_last show_float outs o)))
      ])

  pub add_matches-Grounded :
      (keyword : Text) (call : Call) (r : Result ToolResult) (ms : List Fields) (outs : Outputs)
      → All (GroundedMatch outs) ms
      → All (GroundedMatch (collected call r outs)) (add_matches keyword r ms)
  unfolding add_matches
  add_matches-Grounded keyword call (err e) ms outs h = h
  add_matches-Grounded keyword call (ok r) ms outs h =
      let later = collected call (ok r) outs in
      let old = matches-Extends outs later ms (collected-Extends call (ok r) outs) h in
      elim (Bool-cases (is_zeroℤ (int_at (txt "match_count") r.content))) [
        | inl nothing ↦ rw nothing old
        | inr something ↦ rw something (
            All-append (GroundedMatch later) ms _ old (
              All-map (GroundedMatch later) (with_keyword keyword)
                (maps_at (txt "matches") r.content)
                (All-weaken (Written show_float (fields_text show_float r.content))
                  (λ m. GroundedMatch later (with_keyword keyword m))
                  (maps_at (txt "matches") r.content)
                  (λ m part. Written-GroundedMatch outs _ keyword m part)
                  (maps_at-Written show_float (txt "matches") r.content))))
      ]

  -- A file with matches was searched.
  abbrev pub Searched : Text → Outputs → List Fields → Type 0
  Searched file outs ms = (ms ≡ []) ⊎ Accessed outs file

  pub add_matches-Searched :
      (keyword file path : Text) (r : Result ToolResult) (ms : List Fields) (outs : Outputs)
      → Names file path
      → Searched file outs ms
      → Searched file (collected (grep_call path keyword) r outs) (add_matches keyword r ms)
  unfolding add_matches lookup text_eq
  add_matches-Searched keyword file path (err e) ms outs named h = h
  add_matches-Searched keyword file path (ok r) ms outs named h =
      inr (Accessed-last file path _ outs refl named)

  pub add_finding-Grounded :
      (file : Text) (ms fs : List Fields) (outs : Outputs)
      → Searched file outs ms
      → All (GroundedMatch outs) ms
      → All (GroundedFinding outs) fs
      → All (GroundedFinding outs) (add_finding file ms fs)
  unfolding add_finding string_at maps_at lookup text_eq
  add_finding-Grounded file [] fs outs s h g = g
  add_finding-Grounded file (m ∷ ms) fs outs (inl e) h g = cc
  add_finding-Grounded file (m ∷ ms) fs outs (inr searched) h g =
      All-append (GroundedFinding outs) fs _ g ((searched, rw (map_list-to_maps ms) h), tt)
