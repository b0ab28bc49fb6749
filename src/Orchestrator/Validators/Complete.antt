-- ===== src/Orchestrator/Validators/Complete.antt =====
-- orchestrator/validator.go and orchestrator/report_validator.go: what the validators accept.
use agent_orchestrator_go.Base.{
  ◌≡◌, ◌≢◌, refl, sym, ap, ◌∙◌, ◌⊎◌, ◌↔◌, inl, inr, true, false, List, [], ◌∷◌, Option, some, none,
  Text, txt, text_eq, text_eq_iff, text_eq_refl, subst, All, arith, Option-cases, Bool-cases,
  some-eq,
}
use agent_orchestrator_go.Value.{
  Value, null, bool, int, float, str, strings, array, maps, object, Texts, no_text, text, Values,
  no_value, value, Fields, lookup,
}
use agent_orchestrator_go.Orchestrator.Validators.{
  Validator, validate_all, text_of, check_texts, is_level, check_confidence, check_evidence,
  check_next_steps, or_next, validate_report,
}

-- A composite validator accepts an output exactly where each of its validators does.
pub validate_all_iff :
    {S : Type 0} (validators : List (Validator S)) (id : Text) (output : Fields) (s : S)
    → (validate_all validators id output s ≡ none) ↔ All (λ v. v id output s ≡ none) validators
unfolding validate_all
validate_all_iff [] id output s = (λ _. tt, λ _. refl)
validate_all_iff (v ∷ validators) id output s =
    let ih = validate_all_iff validators id output s in
    elim (Option-cases (v id output s)) [
      | inl fine ↦ (
        λ h. (fine, ih.0 (rw (fine, validate_all) at h)),
        λ h. rw (fine, validate_all) (ih.1 h.1),
      )
      | inr (e, bad) ↦
          let differs : some e ≡ none → ⊥ = (λ h. cc) in
          (
            λ h. absurd (differs (rw (bad, validate_all) at h)),
            λ h. absurd (differs (sym bad ∙ h.0)),
          )
    ]

-- The key holds a text that is not empty.
abbrev pub HasText : Text → Fields → Type 0
HasText k output = (t : Text) × (lookup k output ≡ some (str t)) × (t ≢ [])

-- An array of texts or of values that is not empty.
abbrev pub HasSteps : Option Value → Type 0
HasSteps o =
    ((t : Text) × (ts : Texts) × (o ≡ some (strings (text t ts))))
    ⊎ ((v : Value) × (vs : Values) × (o ≡ some (array (value v vs))))

-- A report as report_validator.go checks it. Its description lists the evidence as a list of
-- maps; it is any value here, as in the code.
pub record IsReport (output : Fields) : Type 0 where
  pub summary : HasText (txt "error_summary") output
  pub cause : HasText (txt "suspected_root_cause") output
  pub level :
      (t : Text) × (lookup (txt "confidence_level") output ≡ some (str t))
      × ((t ≡ txt "Low") ⊎ ((t ≡ txt "Medium") ⊎ (t ≡ txt "High")))
  pub evidence : (v : Value) × (lookup (txt "supporting_evidence") output ≡ some v)
  pub next_steps : HasSteps (lookup (txt "suggested_next_steps") output)

some_ne_none : {e : Text} → some e ≡ none → ⊥
some_ne_none h = cc

text_eq_nil : (t : Text) → text_eq t [] ≡ false → t ≢ []
text_eq_nil t h e = let blank = (text_eq_iff t []).1 e in cc

text_of-some : (o : Option Value) (t : Text) → text_of o ≡ some t → (o ≡ some (str t)) × (t ≢ [])
unfolding text_of
text_of-some none t h = cc
text_of-some (some (str u)) t h = elim (Bool-cases (text_eq u [])) [
  | inl blank ↦ absurd (some_ne_none (sym (rw (blank, text_of) at h)))
  | inr full ↦
      let same : u ≡ t = some-eq (rw (full, text_of) at h) in
      (ap (λ x. some (str x)) same, subst (λ x. x ≢ []) same (text_eq_nil u full))
]
text_of-some (some null) t h = cc
text_of-some (some (bool _)) t h = cc
text_of-some (some (int _)) t h = cc
text_of-some (some (float _)) t h = cc
text_of-some (some (strings _)) t h = cc
text_of-some (some (array _)) t h = cc
text_of-some (some (maps _)) t h = cc
text_of-some (some (object _)) t h = cc

check_texts_lem :
    (ks : List Text) (output : Fields)
    → check_texts ks output ≡ none
    → All (λ k. HasText k output) ks
unfolding check_texts
check_texts_lem [] output h = tt
check_texts_lem (k ∷ ks) output h = elim (Option-cases (text_of (lookup k output))) [
  | inl lost ↦ absurd (some_ne_none (rw (lost, check_texts) at h))
  | inr (t, found) ↦
      let (at, full) = text_of-some (lookup k output) t found in
      ((t, at, full), check_texts_lem ks output (rw (found, check_texts) at h))
]

is_level_lem :
    (t : Text) → is_level t ≡ true → (t ≡ txt "Low") ⊎ ((t ≡ txt "Medium") ⊎ (t ≡ txt "High"))
unfolding is_level
is_level_lem t h = elim (Bool-cases (text_eq t (txt "Low"))) [
  | inl low ↦ inl ((text_eq_iff t (txt "Low")).0 low)
  | inr other ↦ elim (Bool-cases (text_eq t (txt "Medium"))) [
    | inl medium ↦ inr (inl ((text_eq_iff t (txt "Medium")).0 medium))
    | inr neither ↦ inr (inr ((text_eq_iff t (txt "High")).0 (ground (arith, other, neither, h))))
  ]
]

check_next_steps_lem : (o : Option Value) → check_next_steps o ≡ none → HasSteps o
unfolding check_next_steps
check_next_steps_lem none h = cc
check_next_steps_lem (some (strings no_text)) h = cc
check_next_steps_lem (some (strings (text t ts))) h = inl (t, ts, refl)
check_next_steps_lem (some (array no_value)) h = cc
check_next_steps_lem (some (array (value v vs))) h = inr (v, vs, refl)
check_next_steps_lem (some (str _)) h = cc
check_next_steps_lem (some null) h = cc
check_next_steps_lem (some (bool _)) h = cc
check_next_steps_lem (some (int _)) h = cc
check_next_steps_lem (some (float _)) h = cc
check_next_steps_lem (some (maps _)) h = cc
check_next_steps_lem (some (object _)) h = cc

check_confidence_lem :
    (output : Fields)
    → check_confidence output ≡ none
    → (t : Text) × (lookup (txt "confidence_level") output ≡ some (str t))
      × ((t ≡ txt "Low") ⊎ ((t ≡ txt "Medium") ⊎ (t ≡ txt "High")))
unfolding check_confidence
check_confidence_lem output h =
    elim (Option-cases (text_of (lookup (txt "confidence_level") output))) [
      | inl lost ↦ absurd (some_ne_none (rw (lost, check_confidence) at h))
      | inr (t, found) ↦ elim (Bool-cases (is_level t)) [
        | inl known ↦ (
          t,
          (text_of-some (lookup (txt "confidence_level") output) t found).0,
          is_level_lem t known,
        )
        | inr unknown ↦ absurd (some_ne_none (rw (found, unknown, check_confidence) at h))
      ]
    ]

check_evidence_lem :
    (output : Fields)
    → check_evidence output ≡ none
    → (v : Value) × (lookup (txt "supporting_evidence") output ≡ some v)
unfolding check_evidence
check_evidence_lem output h = elim (Option-cases (lookup (txt "supporting_evidence") output)) [
  | inl lost ↦ absurd (some_ne_none (rw (lost, check_evidence) at h))
  | inr found ↦ found
]

pub or_next_none : (a b : Option Text) → or_next a b ≡ none → (a ≡ none) × (b ≡ none)
or_next_none none b h = (refl, h)
or_next_none (some e) b h = cc

-- What the report validator accepts of the log analyzer has a summary and a cause that are texts
-- and not empty, evidence of any value, a confidence level that is one of the three, and a list
-- of at least one next step.
pub validate_report-IsReport :
    (output : Fields) → validate_report (txt "agent.log_analyzer") output ≡ none → IsReport output
unfolding validate_report
validate_report-IsReport output h =
    let checked = rw (text_eq_refl (txt "agent.log_analyzer")) at h in
    let (texts, h₁) = or_next_none _ _ checked in
    let (confidence, h₂) = or_next_none _ _ h₁ in
    let (present, steps) = or_next_none _ _ h₂ in
    let held =
      check_texts_lem (txt "error_summary" ∷ txt "suspected_root_cause" ∷ []) output texts in
    record {
      summary = held.0;
      cause = held.1.0;
      level = check_confidence_lem output confidence;
      evidence = check_evidence_lem output present;
      next_steps = check_next_steps_lem _ steps;
    }
