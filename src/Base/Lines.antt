-- ===== src/Base/Lines.antt =====
-- Texts made of lines, and what normalising white space keeps of them.
use mathlib.Core.Path.{◌≡◌, refl, ap, ◌∙◌, sym}
use mathlib.Core.Bool.{true}
use mathlib.Core.Logic.{◌⊎◌, inl, inr}
use mathlib.Core.List.{List, [], ◌∷◌, ◌++◌, append-nil, append_assoc}
use Prim.Native.Nat.{ℕ}
use agent_orchestrator_go.Base.Tests.{Bool-cases}
use agent_orchestrator_go.Base.Strings.{Text}
use agent_orchestrator_go.Base.Search.{
  is_space, push_word, split_words, fields_of, join, normalize_space,
}
use agent_orchestrator_go.Base.Found.{Occurs}

-- Nothing, or something that ends with a line break.
abbrev pub EndsLine : Text → Type 0
EndsLine s = (s ≡ []) ⊎ ((body : Text) × (s ≡ body ++ 10 ∷ []))

-- `u` stands in `s`, from the begin of a line on.
abbrev pub Part : Text → Text → Type 0
Part u s = (before : Text) × (after : Text) × (s ≡ before ++ (u ++ after)) × EndsLine before

pub EndsLine-append : (s t : Text) → EndsLine s → EndsLine t → EndsLine (s ++ t)
EndsLine-append s t hs (inr (body, e)) = inr (s ++ body, rw e (sym (append_assoc s body (10 ∷ []))))
EndsLine-append s t hs (inl e) = rw e (rw (append-nil s) hs)

pub Part-refl : (s : Text) → Part s s
Part-refl s = ([], [], sym (append-nil s), inl refl)

pub Part-left : (u s t : Text) → Part u s → Part u (s ++ t)
Part-left u s t (a, b, e, line) = (a, b ++ t, simp (e, append_assoc), line)

pub Part-right : (u s t : Text) → EndsLine s → Part u t → Part u (s ++ t)
Part-right u s t ends (a, b, e, line) =
    (s ++ a, b, simp (e, append_assoc), EndsLine-append s a ends line)

pub Part-trans : (u s t : Text) → Part u s → Part s t → Part u t
Part-trans u s t (a, b, e, line) (a', b', e', line') =
    (a' ++ a, b ++ b', simp (e', e, append_assoc), EndsLine-append a' a line' line)

push_word-append : (w : Text) (xs ys : List Text) → push_word w (xs ++ ys) ≡ push_word w xs ++ ys
push_word-append [] xs ys = refl
push_word-append (c ∷ w) xs ys = refl

split_words-append :
    (a b : Text) (c : ℕ)
    → is_space c ≡ true
    → split_words (a ++ c ∷ b) ≡ ((split_words a).0, (split_words a).1 ++ fields_of b)
unfolding split_words fields_of
split_words-append [] b c space = rw space
split_words-append (d ∷ a) b c space =
    let ih = split_words-append a b c space in
    elim (Bool-cases (is_space d)) [
      | inl blank ↦
          rw (ih, blank)
            (λ i. ([], push_word-append (split_words a).0 (split_words a).1 (fields_of b) i))
      | inr other ↦ rw (ih, other)
    ]

-- White space between two texts separates their words.
fields_of-append :
    (a b : Text) (c : ℕ) → is_space c ≡ true → fields_of (a ++ c ∷ b) ≡ fields_of a ++ fields_of b
unfolding fields_of
fields_of-append a b c space =
    ap (λ (p : Text × List Text). push_word p.0 p.1) (split_words-append a b c space)
    ∙ push_word-append (split_words a).0 (split_words a).1 (fields_of b)

join_before :
    (sep : Text) (us ws : List Text) → (a : Text) × (join sep (us ++ ws) ≡ a ++ join sep ws)
unfolding join
join_before sep [] ws = ([], refl)
join_before sep (u ∷ []) [] = (u, sym (append-nil u))
join_before sep (u ∷ []) (w ∷ ws) = (u ++ sep, sym (append_assoc u sep (join sep (w ∷ ws))))
join_before sep (u ∷ (x ∷ us)) ws =
    let (a, e) = join_before sep (x ∷ us) ws in (u ++ (sep ++ a), simp (e, append_assoc))

join_after :
    (sep : Text) (ws vs : List Text) → (b : Text) × (join sep (ws ++ vs) ≡ join sep ws ++ b)
unfolding join
join_after sep [] vs = (join sep vs, refl)
join_after sep (w ∷ []) [] = ([], sym (append-nil w))
join_after sep (w ∷ []) (v ∷ vs) = (sep ++ join sep (v ∷ vs), refl)
join_after sep (w ∷ (x ∷ ws)) vs =
    let (b, e) = join_after sep (x ∷ ws) vs in (b, simp (e, append_assoc))

words_occur :
    (us ws vs : List Text) (sep : Text) → Occurs (join sep ws) (join sep (us ++ (ws ++ vs)))
words_occur us ws vs sep =
    let (a, e) = join_before sep us (ws ++ vs) in
    let (b, f) = join_after sep ws vs in (a, b, e ∙ ap (λ t. a ++ t) f)

-- A whole line is found again when white space is normalised.
pub line-Occurs :
    (t s : Text) → Part (t ++ 10 ∷ []) s → Occurs (normalize_space t) (normalize_space s)
unfolding normalize_space is_space
line-Occurs t s (a, b, e, inl first) =
    let line : s ≡ t ++ 10 ∷ b = rw (e, first) (append_assoc t (10 ∷ []) b) in
    let words : fields_of s ≡ fields_of t ++ fields_of b =
      ap fields_of line ∙ fields_of-append t b 10 refl in
    rw words (words_occur [] (fields_of t) (fields_of b) (32 ∷ []))
line-Occurs t s (a, b, e, inr (body, broken)) =
    let text : s ≡ body ++ 10 ∷ (t ++ 10 ∷ b) = simp (e, broken, append_assoc) in
    let words : fields_of s ≡ fields_of body ++ (fields_of t ++ fields_of b) =
      ap fields_of text
      ∙ fields_of-append body (t ++ 10 ∷ b) 10 refl
      ∙ ap (λ l. fields_of body ++ l) (fields_of-append t b 10 refl) in
    rw words (words_occur (fields_of body) (fields_of t) (fields_of b) (32 ∷ []))
