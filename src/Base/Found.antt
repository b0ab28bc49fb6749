-- ===== src/Base/Found.antt =====
-- What the searches of Base/Search find.
use Prim.Native.Nat.{ℕ, suc, ◌+◌}
use mathlib.Core.Path.{◌≡◌, refl, ap, ◌∙◌}
use mathlib.Core.Bool.{true, false}
use mathlib.Core.Logic.{◌⊎◌, ◌↔◌, inl, inr}
use mathlib.Core.Option.{none, some}
use mathlib.Core.List.{List, [], ◌∷◌, ◌++◌}
use native.Mathlib.Omega.{arith}
use agent_orchestrator_go.Base.Tests.{Bool-cases, Option-cases}
use agent_orchestrator_go.Base.Lists.{length, take, drop}
use agent_orchestrator_go.Base.Strings.{Text, text_eq, text_eq_iff, has_prefix, contains}
use agent_orchestrator_go.Base.Search.{last_index, member}

pub last_index-append :
    (p pre s : Text) (i : ℕ)
    → last_index p s ≡ some i
    → last_index p (pre ++ s) ≡ some (length pre + i)
unfolding last_index
last_index-append p [] s i h = h ∙ ap some (omega arith)
last_index-append p (c ∷ pre) s i h =
    rw (last_index-append p pre s i h, last_index) (ap some (omega arith))

pub take-append {ℓ} : {A : Type ℓ} (xs ys : List A) → take (length xs) (xs ++ ys) ≡ xs
take-append [] ys = refl
take-append (x ∷ xs) ys = ap (λ l. x ∷ l) (take-append xs ys)

pub drop-append : (xs ys : Text) → drop (length xs) (xs ++ ys) ≡ ys
drop-append [] ys = refl
drop-append (x ∷ xs) ys = drop-append xs ys

pub has_prefix-append : (p s : Text) → has_prefix p (p ++ s) ≡ true
unfolding has_prefix
has_prefix-append [] s = refl
has_prefix-append (c ∷ p) s = ground (arith, has_prefix-append p s)

pub has_prefix-split : (p s : Text) → has_prefix p s ≡ true → s ≡ p ++ drop (length p) s
unfolding has_prefix
has_prefix-split [] s h = refl
has_prefix-split (c ∷ p) [] h = cc
has_prefix-split (c ∷ p) (d ∷ s) h = ground (arith, has_prefix-split p s)

-- `p` stands somewhere in `s`.
abbrev pub Occurs : Text → Text → Type 0
Occurs p s = (before : Text) × (after : Text) × (s ≡ before ++ (p ++ after))

pub contains-append : (p a b : Text) → contains p (a ++ (p ++ b)) ≡ true
unfolding contains
contains-append [] [] [] = refl
contains-append [] [] (d ∷ b) = refl
contains-append (c ∷ p) [] b = ground (arith, has_prefix-append p b)
contains-append p (d ∷ a) b = ground (arith, contains-append p a b)

contains_sound : (p s : Text) → contains p s ≡ true → Occurs p s
unfolding contains
contains_sound p [] h = ([], drop (length p) [], has_prefix-split p [] h)
contains_sound p (d ∷ s) h = elim (Bool-cases (has_prefix p (d ∷ s))) [
  | inl here ↦ ([], drop (length p) (d ∷ s), has_prefix-split p (d ∷ s) here)
  | inr later ↦ let (a, b, e) = contains_sound p s (ground arith) in (d ∷ a, b, ap (λ l. d ∷ l) e)
]

-- `strings.Contains` finds a text exactly where it occurs.
pub contains_iff : (p s : Text) → (contains p s ≡ true) ↔ Occurs p s
contains_iff p s = (contains_sound p s, λ (a, b, e). rw e (contains-append p a b))

-- No place at all.
pub last_index-none : (p s : Text) → last_index p s ≡ none → contains p s ≡ false
unfolding last_index contains
last_index-none p [] h = ground arith
last_index-none p (c ∷ s) h = elim (Option-cases (last_index p s)) [
  | inl lost ↦ ground (arith, last_index-none p s lost)
  | inr (i, found) ↦ ground arith
]

pub last_index_none : (p s : Text) → contains p s ≡ false → last_index p s ≡ none
unfolding last_index contains
last_index_none p [] h = ground arith
last_index_none p (c ∷ s) h = ground (arith, last_index_none p s)

-- What `strings.LastIndex` finds of one character is an occurrence, with none after it.
pub last_index_char :
    (d : ℕ) (s : Text) (i : ℕ)
    → last_index (d ∷ []) s ≡ some i
    → (s ≡ take i s ++ d ∷ drop (suc i) s) × (contains (d ∷ []) (drop (suc i) s) ≡ false)
unfolding last_index has_prefix
last_index_char d [] i h = cc
last_index_char d (c ∷ s) i h = elim (Option-cases (last_index (d ∷ []) s)) [
  | inl lost ↦
      let here : (c ≡ d) × (i ≡ 0) = (ground arith, ground arith) in
      rw (here.0, here.1) (refl, last_index-none (d ∷ []) s lost)
  | inr (j, found) ↦
      let at : i ≡ suc j = ground arith in
      let (split, after) = last_index_char d s j found in rw at (ap (λ l. c ∷ l) split, after)
]

pub last_index_char_of :
    (d : ℕ) (a b : Text)
    → contains (d ∷ []) b ≡ false
    → last_index (d ∷ []) (a ++ d ∷ b) ≡ some (length a)
unfolding last_index has_prefix
last_index_char_of d a b h =
    last_index-append (d ∷ []) a (d ∷ b) 0 (ground (arith, last_index_none (d ∷ []) b h))
    ∙ ap some (omega arith)

pub member_cons :
    (s t : Text) (ts : List Text) → (member s (t ∷ ts) ≡ true) ↔ ((s ≡ t) ⊎ (member s ts ≡ true))
unfolding member
member_cons s t ts = elim (Bool-cases (text_eq s t)) [
  | inl same ↦ (λ _. inl ((text_eq_iff s t).0 same), λ _. rw same)
  | inr other ↦ rw other (λ h. inr h, elim [ inl e ↦ cc ((text_eq_iff s t).1 e) | inr h ↦ h ])
]

pub member_append :
    (s : Text) (ts us : List Text)
    → (member s (ts ++ us) ≡ true) ↔ ((member s ts ≡ true) ⊎ (member s us ≡ true))
unfolding member
member_append s [] us = (λ h. inr h, elim [ inl e ↦ cc | inr h ↦ h ])
member_append s (t ∷ ts) us = ground (arith, member_append s ts us)

pub drop_after : (xs ys : Text) (c : ℕ) → drop (suc (length xs)) (xs ++ c ∷ ys) ≡ ys
drop_after [] ys c = refl
drop_after (x ∷ xs) ys c = drop_after xs ys c

pub member_one : (s t : Text) → (member s (t ∷ []) ≡ true) ↔ (s ≡ t)
unfolding member
member_one s t = (
  λ h. elim ((member_cons s t []).0 h) [ inl e ↦ e | inr absent ↦ cc ],
  λ e. (member_cons s t []).1 (inl e),
)

pub member_two : (s t u : Text) → (member s (t ∷ u ∷ []) ≡ true) ↔ ((s ≡ t) ⊎ (s ≡ u))
member_two s t u = (
  λ h. elim ((member_cons s t (u ∷ [])).0 h) [ inl e ↦ inl e | inr h ↦ inr ((member_one s u).0 h) ],
  elim [
    | inl e ↦ (member_cons s t (u ∷ [])).1 (inl e)
    | inr e ↦ (member_cons s t (u ∷ [])).1 (inr ((member_one s u).1 e))
  ],
)
