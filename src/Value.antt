-- ===== src/Value.antt =====
-- Go's `any` and `map[string]any`: the values that agents, tools and plans pass around.
pub mod Read
use agent_orchestrator_go.Base.{
  ℕ, ℤ, Bool, true, false, Option, none, some, ◌≡◌, refl, Text, text_eq, text_eq_iff, if◌then◌else◌,
  arith,
}

-- `strings` is a `[]string`, `array` a `[]any`, `maps` a `[]map[string]any`. A map is a list of
-- entries with a nil map told apart from an empty one (`nil_map`, `end`).
mutual
  pub data Value : Type 0 where
    null : Value
    bool : Bool → Value
    int : ℤ → Value
    float : ℕ → Value
    str : Text → Value
    strings : Texts → Value
    array : Values → Value
    maps : Maps → Value
    object : Fields → Value

  pub data Texts : Type 0 where
    no_text : Texts
    text : Text → Texts → Texts

  pub data Values : Type 0 where
    no_value : Values
    value : Value → Values → Values

  pub data Maps : Type 0 where
    no_map : Maps
    one_map : Fields → Maps → Maps

  pub data Fields : Type 0 where
    nil_map : Fields
    end : Fields
    field : Text → Value → Fields → Fields

-- `m[k]` with its `ok`.
unfoldable pub lookup : Text → Fields → Option Value
lookup k nil_map = none
lookup k end = none
lookup k (field j v m) = if text_eq j k then some v else lookup k m

-- `m[k] = v`. (On a nil map Go panics; the program only writes to maps that it made.)
unfoldable pub insert : Text → Value → Fields → Fields
insert k v nil_map = field k v end
insert k v end = field k v end
insert k v (field j w m) = if text_eq j k then field k v m else field j w (insert k v m)

-- `for k, v := range src { dst[k] = v }`
unfoldable pub overlay : Fields → Fields → Fields
unfolding insert
overlay dst nil_map = dst
overlay dst end = dst
overlay dst (field k v src) = overlay (insert k v dst) src

-- `m == nil`
abbrev pub is_nil_map : Fields → Bool
is_nil_map nil_map = true
is_nil_map end = false
is_nil_map (field _ _ _) = false

pub lookup-insert :
    (k j : Text) (v : Value) (m : Fields)
    → lookup j (insert k v m) ≡ (if text_eq k j then some v else lookup j m)
unfolding lookup insert
lookup-insert k j v nil_map = refl
lookup-insert k j v end = refl
lookup-insert k j v (field i w m) =
    ground (arith, text_eq_iff k j, text_eq_iff i k, text_eq_iff i j, lookup-insert k j v m)
