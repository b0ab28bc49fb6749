-- ===== src/Orchestrator/Grounding/Sound.antt =====
-- orchestrator/grounding_validator.go: what the grounding validator accepts.
use agent_orchestrator_go.Base.{
  ℕ, suc, Bool, true, false, not, ◌&&◌, ◌≡◌, refl, sym, ap, subst, ◌∙◌, ◌⊎◌, inl, inr, ◌↔◌, List,
  [], ◌∷◌, ◌++◌, Option, none, some, Text, txt, text_eq, text_eq_iff, contains, if◌then◌else◌,
  arith, All, drop, take, length, last_index, last_index_char, last_index_char_of, drop_after,
  member_one, member_two, member, member_append, normalize_space, Occurs, contains_iff,
  Option-cases, some-eq, List-cases,
}
use agent_orchestrator_go.Value.{Value, str, Fields, lookup}
use agent_orchestrator_go.Value.Read.{maps_at, maps_of}
use agent_orchestrator_go.Tools.Collector.{CollectedOutput}
use agent_orchestrator_go.Orchestrator.Grounding.{
  EvidenceItem, extract_evidence_items, corpus_text, corpus_files, slash, path_names, input_names,
  is_grounded, item_violations, violations_from, grounding_error, validate_grounding,
}

-- The text names the path: it is the path, or what follows its last slash.
abbrev pub Names : Text → Text → Type 0
Names f p = (f ≡ p) ⊎ ((dir : Text) × (p ≡ dir ++ b'/' ∷ f) × (contains slash f ≡ false))

-- A tool was called with a `path` that the text names.
abbrev pub Accessed : List CollectedOutput → Text → Type 0
Accessed [] f = ⊥
Accessed (o ∷ outputs) f =
    ((p : Text) × (lookup (txt "path") o.input ≡ some (str p)) × Names f p) ⊎ Accessed outputs f

-- The file of the item is one that a tool was called with, and its text is part of what the tools
-- returned, up to white space; either may be missing.
abbrev pub IsGrounded : (ℕ → Text) → List CollectedOutput → EvidenceItem → Type 0
IsGrounded show_float outputs ev =
    ((ev.file ≡ []) ⊎ Accessed outputs ev.file)
    × ((ev.line ≡ [])
        ⊎ Occurs (normalize_space ev.line) (normalize_space (corpus_text show_float outputs)))

path_names_iff : (f p : Text) → (member f (path_names p) ≡ true) ↔ Names f p
unfolding path_names
path_names_iff f p = elim (Option-cases (last_index slash p)) [
  | inl lost ↦
      rw (lost, path_names)
        (
          λ h. inl ((member_one f p).0 h),
          elim [
            | inl e ↦ (member_one f p).1 e
            | inr (dir, e, no_slash) ↦
                cc (ap (last_index slash) e, last_index_char_of b'/' dir f no_slash, lost)
          ],
        )
  | inr (i, found) ↦
      let (split, after) = last_index_char b'/' p i found in
      rw (found, path_names)
        (
          λ h. elim ((member_two f p (drop (suc i) p)).0 h) [
            | inl e ↦ inl e
            | inr e ↦ rw e (inr (take i p, split, after))
          ],
          elim [
            | inl e ↦ (member_two f p (drop (suc i) p)).1 (inl e)
            | inr (dir, e, no_slash) ↦
                let place : i ≡ length dir =
                  some-eq (
                    sym found ∙ ap (last_index slash) e ∙ last_index_char_of b'/' dir f no_slash) in
                (member_two f p (drop (suc i) p)).1
                  (inr (sym (rw (place, e) (drop_after dir f b'/'))))
          ],
        )
]

text_of_path : {p q : Text} → some (str p) ≡ some (str q) → p ≡ q
text_of_path e = cc

input_names_iff :
    (f : Text) (o : Option Value)
    → (member f (input_names o) ≡ true) ↔ ((p : Text) × (o ≡ some (str p)) × Names f p)
unfolding input_names member
input_names_iff f (some (str p)) = (
  λ h. (p, refl, (path_names_iff f p).0 h),
  λ (q, e, named). (path_names_iff f p).1 (subst (λ r. Names f r) (sym (text_of_path e)) named),
)
input_names_iff f _ = (λ h. cc, λ (p, e, named). cc)

corpus_files_iff :
    (f : Text) (outputs : List CollectedOutput)
    → (member f (corpus_files outputs) ≡ true) ↔ Accessed outputs f
unfolding corpus_files member
corpus_files_iff f [] = (λ h. cc, λ h. absurd h)
corpus_files_iff f (o ∷ outputs) =
    let here = input_names_iff f (lookup (txt "path") o.input) in
    let later = corpus_files_iff f outputs in
    let split =
      member_append f (input_names (lookup (txt "path") o.input)) (corpus_files outputs) in
    (
      λ h. elim (split.0 h) [ inl h ↦ inl (here.0 h) | inr h ↦ inr (later.0 h) ],
      elim [ inl n ↦ split.1 (inl (here.1 n)) | inr n ↦ split.1 (inr (later.1 n)) ],
    )

append-eq-nil : (xs ys : List Text) → (xs ++ ys ≡ []) ↔ ((xs ≡ []) × (ys ≡ []))
append-eq-nil [] ys = (λ h. (refl, h), λ h. h.1)
append-eq-nil (x ∷ xs) ys = (λ h. cc, λ h. cc (h.0))

-- A check that speaks up where a text is there and fails its test.
check_iff :
    (s message : Text) (test : Bool)
    → ((if not (text_eq s []) && not test then message ∷ [] else []) ≡ [])
      ↔ ((s ≡ []) ⊎ (test ≡ true))
check_iff s message test = ground (arith, text_eq_iff s [])

item_violations_iff :
    (corpus : Text) (files : List Text) (i : ℕ) (ev : EvidenceItem)
    → (item_violations corpus files i ev ≡ []) ↔ (
        ((ev.file ≡ []) ⊎ (member ev.file files ≡ true))
        × ((ev.line ≡ []) ⊎ (is_grounded ev.line corpus ≡ true)))
unfolding item_violations
item_violations_iff corpus files i ev =
    let parts = append-eq-nil _ _ in
    let file = check_iff ev.file _ (member ev.file files) in
    let line = check_iff ev.line _ (is_grounded ev.line corpus) in
    (λ h. (file.0 (parts.0 h).0, line.0 (parts.0 h).1), λ h. parts.1 (file.1 h.0, line.1 h.1))

module _ (show_float : ℕ → Text) (outputs : List CollectedOutput) where
  item_iff :
      (i : ℕ) (ev : EvidenceItem)
      → (item_violations (corpus_text show_float outputs) (corpus_files outputs) i ev ≡ [])
        ↔ IsGrounded show_float outputs ev
  unfolding is_grounded
  item_iff i ev =
      let checks =
        item_violations_iff (corpus_text show_float outputs) (corpus_files outputs) i ev in
      let files = corpus_files_iff ev.file outputs in
      let lines =
        contains_iff (normalize_space ev.line) (normalize_space (corpus_text show_float outputs)) in
      (
        λ h. (
          elim (checks.0 h).0 [ inl e ↦ inl e | inr m ↦ inr (files.0 m) ],
          elim (checks.0 h).1 [ inl e ↦ inl e | inr m ↦ inr (lines.0 m) ],
        ),
        λ h. checks.1 (
          elim h.0 [ inl e ↦ inl e | inr m ↦ inr (files.1 m) ],
          elim h.1 [ inl e ↦ inl e | inr m ↦ inr (lines.1 m) ],
        ),
      )

  violations_iff :
      (i : ℕ) (evidence : List EvidenceItem)
      → (violations_from (corpus_text show_float outputs) (corpus_files outputs) i evidence ≡ [])
        ↔ All (IsGrounded show_float outputs) evidence
  unfolding violations_from
  violations_iff i [] = (λ _. tt, λ _. refl)
  violations_iff i (ev ∷ evidence) =
      let parts = append-eq-nil _ _ in
      let here = item_iff i ev in
      let later = violations_iff (suc i) evidence in
      (λ h. (here.0 (parts.0 h).0, later.0 (parts.0 h).1), λ h. parts.1 (here.1 h.0, later.1 h.1))

  grounding_error_iff : (vs : List Text) → (grounding_error vs ≡ none) ↔ (vs ≡ [])
  grounding_error_iff [] = (λ _. refl, λ _. refl)
  grounding_error_iff (v ∷ vs) = (λ h. cc, λ h. cc)

  no_evidence :
      (output : Fields)
      → lookup (txt "supporting_evidence") output ≡ none
      → extract_evidence_items output ≡ []
  unfolding extract_evidence_items maps_at
  no_evidence output h = rw (h, maps_at, maps_of)

  -- With a collector, the grounding validator accepts an output exactly where each item of its
  -- evidence names a file that a tool was called with, or none, and quotes a text that occurs in what
  -- the tools have returned, up to white space, or none.
  pub validate_grounding_iff :
      (id : Text) (output : Fields)
      → (validate_grounding show_float (some outputs) id output ≡ none)
        ↔ All (IsGrounded show_float outputs) (extract_evidence_items output)
  unfolding validate_grounding
  validate_grounding_iff id output =
      elim (Option-cases (lookup (txt "supporting_evidence") output)) [
        | inl absent ↦
            rw (absent, validate_grounding, no_evidence output absent) (λ _. tt, λ _. refl)
        | inr (v, found) ↦ elim (List-cases (extract_evidence_items output)) [
          | inl nothing ↦ rw (found, validate_grounding, nothing) (λ _. tt, λ _. refl)
          | inr (ev, evidence, some_items) ↦
              let each = violations_iff 0 (ev ∷ evidence) in
              let error = grounding_error_iff (
                violations_from (corpus_text show_float outputs) (corpus_files outputs) 0
                  (ev ∷ evidence)) in
              rw (found, validate_grounding, some_items)
                (λ h. each.0 (error.0 h), λ h. error.1 (each.1 h))
        ]
      ]
