-- ===== src/Base/Quote.antt =====
-- What the program uses of package `fmt`: the verbs %q and %v, and bytes of a text.
use Prim.Native.Nat.{ℕ, suc, ◌+◌, ◌-◌, ◌/◌, ◌%◌}
use mathlib.Core.Bool.{◌||◌}
use mathlib.Core.List.{List, [], ◌∷◌, ◌++◌, map}
use agent_orchestrator_go.Base.Tests.{ltb, leb, ◌==◌, if◌then◌else◌}
use agent_orchestrator_go.Base.Lists.{length, take}
use agent_orchestrator_go.Base.Strings.{Text, decimal}
use agent_orchestrator_go.Base.Int.{ℤ, pos, negsuc}

-- The bytes of a character in UTF-8.
unfoldable pub utf8 : ℕ → List ℕ
utf8 c =
    if ltb c 0x80
    then c ∷ []
    else if ltb c 0x800
    then (0xc0 + c / 0x40) ∷ (0x80 + c % 0x40) ∷ []
    else if ltb c 0x10000
    then (0xe0 + c / 0x1000) ∷ (0x80 + c / 0x40 % 0x40) ∷ (0x80 + c % 0x40) ∷ []
    else (0xf0 + c / 0x40000)
      ∷ (0x80 + c / 0x1000 % 0x40)
      ∷ (0x80 + c / 0x40 % 0x40)
      ∷ (0x80 + c % 0x40)
      ∷ []

-- `len(s)`
unfoldable pub byte_length : Text → ℕ
unfolding utf8
byte_length [] = 0
byte_length (c ∷ s) = length (utf8 c) + byte_length s

-- A byte that stands alone in a text, where a character was cut in two: a code beyond Unicode.
abbrev pub lone_byte : ℕ → ℕ
lone_byte b = 0x110000 + b

-- `s[:n]`, for an `n` up to the length.
unfoldable pub take_bytes : ℕ → Text → Text
unfolding utf8
take_bytes n [] = []
take_bytes n (c ∷ s) =
    let rest = take_bytes (n - length (utf8 c)) s in
    if leb (length (utf8 c)) n then c ∷ rest else map lone_byte (take n (utf8 c))

unfoldable pub hex_digit : ℕ → ℕ
hex_digit d = if ltb d 10 then b'0' + d else b'a' + (d - 10)

-- `\x7f`
unfoldable pub hex_escape : ℕ → Text
unfolding hex_digit
hex_escape b = 92 ∷ b'x' ∷ hex_digit (b / 16) ∷ hex_digit (b % 16) ∷ []

-- One character in `strconv.Quote`. Every character from U+0080 on is taken for printable.
unfoldable pub quote_code : ℕ → Text
unfolding hex_escape
quote_code c =
    if c == 34 || c == 92
    then 92 ∷ c ∷ []
    else if c == 7
    then 92 ∷ b'a' ∷ []
    else if c == 8
    then 92 ∷ b'b' ∷ []
    else if c == 9
    then 92 ∷ b't' ∷ []
    else if c == 10
    then 92 ∷ b'n' ∷ []
    else if c == 11
    then 92 ∷ b'v' ∷ []
    else if c == 12
    then 92 ∷ b'f' ∷ []
    else if c == 13
    then 92 ∷ b'r' ∷ []
    else if ltb c 32 || c == 127
    then hex_escape c
    else if leb 0x110000 c
    then hex_escape (c - 0x110000)
    else c ∷ []

abbrev pub quote_codes : Text → Text
quote_codes [] = []
quote_codes (c ∷ s) = quote_code c ++ quote_codes s

-- `fmt.Sprintf("%q", s)`
unfoldable pub quote : Text → Text
unfolding quote_code
quote s = 34 ∷ (quote_codes s ++ 34 ∷ [])

-- `fmt.Sprintf("%d", n)`
unfoldable pub decimalℤ : ℤ → Text
unfolding decimal
decimalℤ (pos n) = decimal n
decimalℤ (negsuc n) = b'-' ∷ decimal (suc n)
