-- ===== src/Tools/Files/Matches.antt =====
-- tools/fs_grep_file.go: which lines the search of a file returns.
use mathlib.Core.List.{append_assoc}
use agent_orchestrator_go.Base.{
  ℕ, suc, Bool, ◌≡◌, refl, sym, ap, ◌∙◌, ◌≤◌, List, [], ◌∷◌, ◌++◌, Option, Text, leb, if◌then◌else◌,
  arith, zero, take-append, length, take, length-append, Bool-cases, inl, inr,
}
use agent_orchestrator_go.Tools.Files.{Match, max_grep_matches, scan_lines}

-- The lines that pass the test, each with its number, counted from `n + 1` on.
abbrev pub matching_lines : (Text → Bool) → ℕ → List (Text × Option Text) → List Match
matching_lines test n [] = []
matching_lines test n ((line, e) ∷ lines) =
    let rest = matching_lines test (suc n) lines in if test line then (suc n, line) ∷ rest else rest

take_short {ℓ} : {A : Type ℓ} (xs : List A) (k : ℕ) → length xs ≤ k → take k (xs ++ []) ≡ xs
take_short [] zero h = refl
take_short [] (suc k) h = refl
take_short (x ∷ xs) zero h = absurd (omega (arith, h))
take_short (x ∷ xs) (suc k) h = ap (λ l. x ∷ l) (take_short xs k (omega (arith, h)))

take_full :
    (matches rest : List Match) (m : Match) (k : ℕ)
    → length (matches ++ m ∷ []) ≡ k
    → matches ++ m ∷ [] ≡ take k (matches ++ m ∷ rest)
take_full matches rest m k h = sym (
    ap (take k) (sym (append_assoc matches (m ∷ []) rest))
    ∙ ap (λ j. take j ((matches ++ m ∷ []) ++ rest)) (sym h)
    ∙ take-append (matches ++ m ∷ []) rest)

-- The loop returns the first two hundred of the lines that pass the test, in their order.
pub scan_lines-take :
    (test : Text → Bool) (n : ℕ) (matches : List Match) (lines : List (Text × Option Text))
    (last : Option Text)
    → suc (length matches) ≤ max_grep_matches
    → (scan_lines test n matches lines last).0
      ≡ take max_grep_matches (matches ++ matching_lines test n lines)
unfolding scan_lines
scan_lines-take test n matches [] last h =
    sym (take_short matches max_grep_matches (omega (arith, h)))
scan_lines-take test n matches ((line, e) ∷ lines) last h = elim (Bool-cases (test line)) [
  | inr other ↦ rw (other, scan_lines) (scan_lines-take test (suc n) matches lines last h)
  | inl here ↦
      let grown = length-append matches ((suc n, line) ∷ []) in
      elim (Bool-cases (leb max_grep_matches (length (matches ++ (suc n, line) ∷ [])))) [
        | inl full ↦
            rw (here, scan_lines, full)
              (take_full matches (matching_lines test (suc n) lines) (suc n, line) max_grep_matches
                (ground arith))
        | inr more ↦
            rw (here, scan_lines, more)
              (scan_lines-take test (suc n) (matches ++ (suc n, line) ∷ []) lines last
                  (ground arith)
                ∙ ap (take max_grep_matches)
                    (append_assoc matches ((suc n, line) ∷ []) (matching_lines test (suc n) lines)))
      ]
]
