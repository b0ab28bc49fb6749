-- ===== src/Agents/LogAnalyzer/Listed.antt =====
-- The evidence that the report of agent/log_analyzer.go lists.
use agent_orchestrator_go.Base.{
  ℕ, zero, suc, ◌+◌, ◌≤◌, ℤ, is_zeroℤ, ◌≡◌, refl, ap, ◌∙◌, inl, inr, subst, List, [], ◌∷◌, map,
  Text, txt, text_eq, arith, length, take, All, All-map, All-take, Bool-cases, List-cases,
  length-map,
}
use agent_orchestrator_go.Value.{Texts, Fields, lookup}
use agent_orchestrator_go.Value.Read.{int_at, string_at, maps_at}
use agent_orchestrator_go.Orchestrator.Grounding.{
  EvidenceItem, evidence_item, extract_evidence_items,
}
use agent_orchestrator_go.Agents.LogReader.Grounded.{map_list-to_maps}
use agent_orchestrator_go.Agents.LogAnalyzer.{
  Evidence, Counts, count_keyword, count_evidence, no_counts, all_evidence, evidence_map, report,
  all_clear, report_on, analyze,
}

-- `sort.Slice` rearranges: what holds of all items holds of them in the new order, of which there
-- are as many.
pub record Rearranges (sort : List Evidence → List Evidence) : Type 1 where
  pub keeps : (P : Evidence → Type 0) (xs : List Evidence) → All P xs → All P (sort xs)
  pub same_length : (xs : List Evidence) → length (sort xs) ≡ length xs

abbrev pub item_of : Evidence → EvidenceItem
item_of ev = record { file = ev.file; line_number = ev.line_number; line = ev.line }

evidence_item-evidence_map : (ev : Evidence) → evidence_item (evidence_map ev) ≡ item_of ev
unfolding string_at int_at lookup text_eq
evidence_item-evidence_map ev = refl

items-map :
    (evidence : List Evidence)
    → map evidence_item (map evidence_map evidence) ≡ map item_of evidence
items-map [] = refl
items-map (ev ∷ evidence) = λ i. evidence_item-evidence_map ev i ∷ items-map evidence i

report-items :
    (summary cause level : Text) (evidence : List Evidence) (steps : Texts)
    → extract_evidence_items (report summary cause (map evidence_map evidence) level steps)
      ≡ map item_of evidence
unfolding extract_evidence_items maps_at lookup text_eq
report-items summary cause level evidence steps =
    ap (map evidence_item) (map_list-to_maps (map evidence_map evidence)) ∙ items-map evidence

length-take-le : {A : Type 0} (n : ℕ) (xs : List A) → length (take n xs) ≤ n
length-take-le zero xs = omega arith
length-take-le (suc n) [] = omega arith
length-take-le (suc n) (x ∷ xs) = omega (arith, length-take-le n xs)

count_keyword-sum :
    (keyword : Text) (n : Counts)
    → (count_keyword keyword n).errors
        + (count_keyword keyword n).panics
        + (count_keyword keyword n).warnings
      ≡ suc (n.errors + n.panics + n.warnings)
unfolding count_keyword
count_keyword-sum keyword n = ground arith

count_evidence-sum :
    (evidence : List Evidence) (n : Counts)
    → (count_evidence evidence n).errors
        + (count_evidence evidence n).panics
        + (count_evidence evidence n).warnings
      ≡ length evidence + (n.errors + n.panics + n.warnings)
unfolding count_evidence
count_evidence-sum [] n = omega arith
count_evidence-sum (ev ∷ evidence) n = omega (
  arith,
  count_evidence-sum evidence (count_keyword ev.keyword n),
  count_keyword-sum ev.keyword n,
)

-- Each matched line is counted once, as an error, a panic or a warning.
pub count_evidence-length :
    (evidence : List Evidence)
    → (count_evidence evidence no_counts).errors
        + (count_evidence evidence no_counts).panics
        + (count_evidence evidence no_counts).warnings
      ≡ length evidence
count_evidence-length evidence = omega (arith, count_evidence-sum evidence no_counts)

module _ (range : List (Text × ℕ) → List (Text × ℕ)) (sort : List Evidence → List Evidence)
    (rearranges : Rearranges sort) where
  report_on-listed :
      (P : EvidenceItem → Type 0) (evidence : List Evidence) (files : ℕ) (total : ℤ)
      → All (λ ev. P (item_of ev)) evidence
      → All P (extract_evidence_items (report_on range sort evidence files total))
        × (length (extract_evidence_items (report_on range sort evidence files total)) ≤ 20)
  unfolding report_on
  report_on-listed P evidence files total h = rw (report-items _ _ _ (take 20 (sort evidence)) _) (
    All-map P item_of (take 20 (sort evidence)) (
        All-take (λ ev. P (item_of ev)) 20 (sort evidence)
          (rearranges.keeps (λ ev. P (item_of ev)) evidence h)),
    rw (length-map (take 20 (sort evidence)) item_of) (length-take-le 20 (sort evidence)),
  )

  all_clear-items : extract_evidence_items all_clear ≡ []
  unfolding extract_evidence_items maps_at lookup text_eq
  all_clear-items = refl

  -- The report lists at most twenty items of evidence, each of which is a matched line of the
  -- findings with its file and its number: what holds of all matched lines holds of these.
  pub analyze-listed :
      (P : EvidenceItem → Type 0) (input : Fields)
      → All (λ ev. P (item_of ev)) (all_evidence (maps_at (txt "findings") input))
      → All P (extract_evidence_items (analyze range sort input))
        × (length (extract_evidence_items (analyze range sort input)) ≤ 20)
  unfolding analyze
  analyze-listed P input h = elim (List-cases (maps_at (txt "findings") input)) [
    | inl nothing ↦ rw (nothing, analyze, all_clear-items) (tt, omega arith)
    | inr (f, findings, found) ↦ elim (Bool-cases (is_zeroℤ (int_at (txt "total_matches") input))) [
      | inl none_matched ↦ rw (found, analyze, none_matched, all_clear-items) (tt, omega arith)
      | inr matched ↦
          rw (found, analyze, matched)
            (report_on-listed P (all_evidence (f ∷ findings)) (length (f ∷ findings))
              (int_at (txt "total_matches") input)
              (subst (λ fs. All (λ ev. P (item_of ev)) (all_evidence fs)) found h))
    ]
  ]
