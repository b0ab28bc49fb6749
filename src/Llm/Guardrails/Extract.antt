-- ===== src/Llm/Guardrails/Extract.antt =====
-- llm/guardrails.go: the JSON that `extractJSON` finds in a text.
use mathlib.Core.List.{append_assoc}
use agent_orchestrator_go.Base.{
  ℕ, suc, ◌+◌, true, false, ◌≡◌, refl, ap, ◌∙◌, inl, inr, [], ◌∷◌, ◌++◌, some, none, Text, contains,
  has_prefix, ltb, arith, length, take, drop, index, last_index, last_index_char_of, drop-append,
  length-append, ◌≤◌, Option-cases,
}
use agent_orchestrator_go.Llm.Guardrails.{json_start, cut_between, cut_json}

index_char-append :
    (c : ℕ) (pre s : Text) (k : ℕ)
    → contains (c ∷ []) pre ≡ false
    → index (c ∷ []) s ≡ some k
    → index (c ∷ []) (pre ++ s) ≡ some (length pre + k)
unfolding index contains has_prefix
index_char-append c [] s k absent h = h ∙ ap some (omega arith)
index_char-append c (x ∷ pre) s k absent h = ground (arith, index_char-append c pre s k)

index_char_none :
    (c : ℕ) (pre s : Text)
    → contains (c ∷ []) pre ≡ false
    → index (c ∷ []) s ≡ none
    → index (c ∷ []) (pre ++ s) ≡ none
unfolding index contains has_prefix
index_char_none c [] s absent h = h
index_char_none c (x ∷ pre) s absent h = ground (arith, index_char_none c pre s)

json_start-around :
    (pre rest : Text)
    → contains (b'[' ∷ []) pre ≡ false
    → contains (b'{' ∷ []) pre ≡ false
    → json_start (pre ++ b'[' ∷ rest) ≡ some (length pre, b']')
unfolding json_start index has_prefix
json_start-around pre rest no_array no_object =
    let array : index (b'[' ∷ []) (pre ++ b'[' ∷ rest) ≡ some (length pre) =
      index_char-append b'[' pre (b'[' ∷ rest) 0 no_array refl ∙ ap some (omega arith) in
    elim (Option-cases (index (b'{' ∷ []) rest)) [
      | inl lost ↦
          let object = index_char_none b'{' pre (b'[' ∷ rest) no_object (rw lost refl) in
          rw (array, object, json_start)
      | inr (k, found) ↦
          let object = index_char-append b'{' pre (b'[' ∷ rest) (suc k) no_object (rw found refl) in
          let before : ltb (length pre) (length pre + suc k) ≡ true = ground arith in
          rw (array, object, json_start, before)
    ]

cut_json_of :
    (s : Text) (i c l : ℕ)
    → json_start s ≡ some (i, c)
    → last_index (c ∷ []) s ≡ some l
    → i ≤ l
    → cut_json s ≡ drop i (take (suc l) s)
unfolding cut_json cut_between
cut_json_of s i c l start last le =
    let order : ltb l i ≡ false = ground arith in
    let next : l + 1 ≡ suc l = omega arith in rw (start, cut_json, last, order, next)

take_after : (xs ys : Text) (c : ℕ) → take (suc (length xs)) (xs ++ c ∷ ys) ≡ xs ++ c ∷ []
take_after [] ys c = refl
take_after (x ∷ xs) ys c = ap (λ l. x ∷ l) (take_after xs ys c)

-- The array in the text is found, whatever stands in it and around it: no bracket of either kind before
-- it, and no closing bracket after it.
cut_json-around :
    (pre body post : Text)
    → contains (b'[' ∷ []) pre ≡ false
    → contains (b'{' ∷ []) pre ≡ false
    → contains (b']' ∷ []) post ≡ false
    → cut_json ((pre ++ b'[' ∷ body) ++ b']' ∷ post) ≡ b'[' ∷ (body ++ b']' ∷ [])
cut_json-around pre body post no_array no_object no_end =
    let s = (pre ++ b'[' ∷ body) ++ b']' ∷ post in
    let split : s ≡ pre ++ b'[' ∷ (body ++ b']' ∷ post) = append_assoc pre (b'[' ∷ body) _ in
    let start : json_start s ≡ some (length pre, b']') =
      ap json_start split ∙ json_start-around pre (body ++ b']' ∷ post) no_array no_object in
    let last = last_index_char_of b']' (pre ++ b'[' ∷ body) post no_end in
    let inside : length pre ≤ length (pre ++ b'[' ∷ body) =
      omega (arith, length-append {0} pre (b'[' ∷ body)) in
    cut_json_of s (length pre) b']' (length (pre ++ b'[' ∷ body)) start last inside
    ∙ ap (drop (length pre))
        (take_after (pre ++ b'[' ∷ body) post b']' ∙ append_assoc pre (b'[' ∷ body) _)
    ∙ drop-append pre (b'[' ∷ (body ++ b']' ∷ []))
