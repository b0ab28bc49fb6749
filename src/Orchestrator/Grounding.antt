-- ===== src/Orchestrator/Grounding.antt =====
-- orchestrator/grounding_validator.go: evidence against what the tools have returned.
pub mod Sound
pub mod Corpus
pub mod Wiring
mod Tests
use agent_orchestrator_go.Base.{
  ℕ, suc, ℤ, Bool, not, ◌&&◌, List, [], ◌∷◌, ◌++◌, map, Option, none, some, Text, txt, text_eq,
  contains, decimal, leb, if◌then◌else◌, length, drop, last_index, member, join, normalize_space,
  byte_length, take_bytes, quote,
}
use agent_orchestrator_go.Value.{
  Value, null, bool, int, float, str, strings, array, maps, object, Values, no_value, value, Maps,
  no_map, one_map, Fields, nil_map, end, field, lookup,
}
use agent_orchestrator_go.Value.Read.{string_at, int_at, maps_at, plain_text}
use agent_orchestrator_go.Tools.Collector.{CollectedOutput}

pub record EvidenceItem : Type 0 where
  pub file : Text
  pub line_number : ℤ
  pub line : Text

abbrev pub evidence_item : Fields → EvidenceItem
evidence_item m = record {
  file = string_at (txt "file") m;
  line_number = int_at (txt "line_number") m;
  line = string_at (txt "text") m;
}

-- `extractEvidenceItems`
unfoldable pub extract_evidence_items : Fields → List EvidenceItem
extract_evidence_items output = map evidence_item (maps_at (txt "supporting_evidence") output)

-- `appendValue`: what it writes. The maps are gone over in the order of their entries.
unfoldable mutual
  pub value_text : (ℕ → Text) → Value → Text
  value_text show_float (str t) = t ++ 10 ∷ []
  value_text show_float (array vs) = values_text show_float vs
  value_text show_float (maps ms) = maps_text show_float ms
  value_text show_float (object m) = fields_text show_float m
  value_text show_float null = plain_text show_float null ++ 10 ∷ []
  value_text show_float (bool b) = plain_text show_float (bool b) ++ 10 ∷ []
  value_text show_float (int n) = plain_text show_float (int n) ++ 10 ∷ []
  value_text show_float (float bits) = plain_text show_float (float bits) ++ 10 ∷ []
  value_text show_float (strings ts) = plain_text show_float (strings ts) ++ 10 ∷ []

  pub values_text : (ℕ → Text) → Values → Text
  values_text show_float no_value = []
  values_text show_float (value v vs) = value_text show_float v ++ values_text show_float vs

  pub maps_text : (ℕ → Text) → Maps → Text
  maps_text show_float no_map = []
  maps_text show_float (one_map m ms) = fields_text show_float m ++ maps_text show_float ms

  pub fields_text : (ℕ → Text) → Fields → Text
  fields_text show_float nil_map = []
  fields_text show_float end = []
  fields_text show_float (field k v m) = value_text show_float v ++ fields_text show_float m

abbrev pub slash : Text
slash = b'/' ∷ []

-- The names under which a path is entered in the file set: itself, and what follows its last slash.
unfoldable pub path_names : Text → List Text
path_names p = elim (last_index slash p) [ none ↦ p ∷ [] | some i ↦ p ∷ drop (suc i) p ∷ [] ]

unfoldable pub input_names : Option Value → List Text
unfolding path_names
input_names (some (str p)) = path_names p
input_names _ = []

-- `buildCorpus`: the text, and the file set.
unfoldable pub corpus_text : (ℕ → Text) → List CollectedOutput → Text
corpus_text show_float [] = []
corpus_text show_float (o ∷ outputs) =
    fields_text show_float o.output ++ corpus_text show_float outputs

unfoldable pub corpus_files : List CollectedOutput → List Text
unfolding input_names
corpus_files [] = []
corpus_files (o ∷ outputs) = input_names (lookup (txt "path") o.input) ++ corpus_files outputs

-- `isGrounded`
unfoldable pub is_grounded : Text → Text → Bool
is_grounded line corpus = contains (normalize_space line) (normalize_space corpus)

unfoldable pub truncate : Text → ℕ → Text
truncate s n = if leb (byte_length s) n then s else take_bytes n s ++ txt "..."

abbrev pub is_blank : Text → Bool
is_blank s = text_eq s []

-- The violations of one item, the `i`-th.
unfoldable pub item_violations : Text → List Text → ℕ → EvidenceItem → List Text
unfolding is_grounded truncate
item_violations corpus files i ev =
    (if not (is_blank ev.file) && not (member ev.file files)
      then (txt "evidence["
          ++ (decimal i
              ++ (txt "]: file " ++ (quote ev.file ++ txt " not found in any tool call output"))))
        ∷ []
      else [])
    ++ (if not (is_blank ev.line) && not (is_grounded ev.line corpus)
        then (txt "evidence["
            ++ (decimal i
                ++ (txt "]: text "
                    ++ (quote (truncate ev.line 80) ++ txt " not found in any tool call output"))))
          ∷ []
        else [])

-- The loop over the evidence, from the `i`-th item on.
unfoldable pub violations_from : Text → List Text → ℕ → List EvidenceItem → List Text
unfolding item_violations
violations_from corpus files i [] = []
violations_from corpus files i (ev ∷ evidence) =
    item_violations corpus files i ev ++ violations_from corpus files (suc i) evidence

abbrev pub grounding_error : List Text → Option Text
grounding_error [] = none
grounding_error (v ∷ vs) = some (
    txt "grounding check failed: "
    ++ (decimal (length (v ∷ vs))
        ++ (txt " violation(s):" ++ (10 ∷ txt "  - " ++ join (10 ∷ txt "  - ") (v ∷ vs)))))

-- `Validate`, with the outputs of the collector where one is set.
unfoldable pub validate_grounding :
    (ℕ → Text) → Option (List CollectedOutput) → Text → Fields → Option Text
unfolding extract_evidence_items violations_from corpus_text corpus_files
validate_grounding show_float none id output = none
validate_grounding show_float (some outputs) id output =
    elim (lookup (txt "supporting_evidence") output) [
      | none ↦ none
      | some _ ↦ elim (extract_evidence_items output) [
        | [] ↦ none
        | ev ∷ evidence ↦ grounding_error (
            violations_from (corpus_text show_float outputs) (corpus_files outputs) 0
              (ev ∷ evidence))
      ]
    ]
