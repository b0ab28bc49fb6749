-- ===== src/Base/Search.antt =====
-- What the program uses of package `strings` to search and cut a text. An index counts characters
-- where Go counts bytes; it is only used to cut the text that was searched, and to compare places.
use Prim.Native.Nat.{ℕ, suc}
use mathlib.Core.Bool.{Bool, false, ◌&&◌, ◌||◌}
use mathlib.Core.Option.{Option, none, some}
use mathlib.Core.Option
use mathlib.Core.List.{List, [], ◌∷◌, ◌++◌, reverse}
use agent_orchestrator_go.Base.Tests.{leb, ◌==◌, if◌then◌else◌}
use agent_orchestrator_go.Base.Strings.{Text, text_eq, has_prefix}

-- `strings.Index(s, p)`, with the arguments swapped; `none` is -1.
unfoldable pub index : Text → Text → Option ℕ
unfolding has_prefix
index p [] = if has_prefix p [] then some 0 else none
index p (c ∷ s) = if has_prefix p (c ∷ s) then some 0 else Option.map suc (index p s)

-- `strings.LastIndex(s, p)`, with the arguments swapped.
unfoldable pub last_index : Text → Text → Option ℕ
unfolding has_prefix
last_index p [] = if has_prefix p [] then some 0 else none
last_index p (c ∷ s) = elim (last_index p s) [
  | some i ↦ some (suc i)
  | none ↦ if has_prefix p (c ∷ s) then some 0 else none
]

-- `strings.HasSuffix(s, p)`, with the arguments swapped.
unfoldable pub has_suffix : Text → Text → Bool
unfolding has_prefix
has_suffix p s = has_prefix (reverse p) (reverse s)

-- `unicode.IsSpace`
unfoldable pub is_space : ℕ → Bool
is_space c =
    (leb 9 c && leb c 13)
    || (c == 32
        || (c == 0x85
            || (c == 0xa0
                || (c == 0x1680
                    || ((leb 0x2000 c && leb c 0x200a)
                        || (c == 0x2028
                            || (c == 0x2029 || (c == 0x202f || (c == 0x205f || c == 0x3000)))))))))

-- A word before others, unless it is empty.
abbrev pub push_word : Text → List Text → List Text
push_word [] words = words
push_word (c ∷ w) words = (c ∷ w) ∷ words

-- The word that a text begins with, and the words after it.
unfoldable pub split_words : Text → Text × List Text
unfolding is_space
split_words [] = ([], [])
split_words (c ∷ s) =
    let (w, words) = split_words s in if is_space c then ([], push_word w words) else (c ∷ w, words)

-- `strings.Fields`
unfoldable pub fields_of : Text → List Text
unfolding split_words
fields_of s = push_word (split_words s).0 (split_words s).1

-- `strings.Join(parts, sep)`, with the arguments swapped.
unfoldable pub join : Text → List Text → Text
join sep [] = []
join sep (t ∷ []) = t
join sep (t ∷ (u ∷ rest)) = t ++ (sep ++ join sep (u ∷ rest))

-- `strings.Join(strings.Fields(s), " ")`
unfoldable pub normalize_space : Text → Text
unfolding fields_of join
normalize_space s = join (32 ∷ []) (fields_of s)

-- `strings.TrimLeftFunc(s, unicode.IsSpace)`
unfoldable pub trim_left : Text → Text
unfolding is_space
trim_left [] = []
trim_left (c ∷ s) = let rest = trim_left s in if is_space c then rest else c ∷ s

-- `strings.TrimSpace`
unfoldable pub trim_space : Text → Text
unfolding trim_left
trim_space s = reverse (trim_left (reverse (trim_left s)))

abbrev pub onto_head : ℕ → List Text → List Text
onto_head c [] = (c ∷ []) ∷ []
onto_head c (w ∷ words) = (c ∷ w) ∷ words

-- `strings.Split(s, sep)` for a separator of one character.
unfoldable pub split_on : ℕ → Text → List Text
split_on sep [] = [] ∷ []
split_on sep (c ∷ s) =
    let words = split_on sep s in if c == sep then [] ∷ words else onto_head c words

-- `m[s]` for a `map[string]bool`, as the list of the keys that hold `true`.
unfoldable pub member : Text → List Text → Bool
member s [] = false
member s (t ∷ ts) = text_eq s t || member s ts
