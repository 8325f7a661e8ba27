-- ===== src/Base/Text.antt =====
-- The string methods of JavaScript that the code calls: trim, length, toLowerCase, toUpperCase and
-- the template literals.
use Prim.Native.Nat.{ℕ, ◌+◌, ◌-◌}
use Prim.Native.Char.{Char, code}
use Prim.Native.String.{String, ◌++◌, char_at}
use mathlib.Core.Bool.{Bool, ◌&&◌, ◌||◌}
use mathlib.Core.List.{List, [], ◌∷◌}
use panalbee_clock_backend.Base.Tests.{ltb, leb, beq, if◌then◌else◌}

-- White space and line terminators, as `trim` and `\s` read them.
abbrev pub is_space : ℕ → Bool
is_space c =
    (leb 9 c && leb c 13)
    || beq c 32
    || beq c 160
    || beq c 5760
    || (leb 8192 c && leb c 8202)
    || beq c 8232
    || beq c 8233
    || beq c 8239
    || beq c 8287
    || beq c 12288
    || beq c 65279

trim_start : String → String
trim_start String.[] = String.[]
trim_start (String.◌∷◌ c s) =
    let rest = trim_start s in if is_space (code c) then rest else String.◌∷◌ c s

-- Drops the white space at the end: a blank is kept only before something that is kept.
keep_before : Char → String → String
keep_before c String.[] = if is_space (code c) then String.[] else String.◌∷◌ c String.[]
keep_before c (String.◌∷◌ d s) = String.◌∷◌ c (String.◌∷◌ d s)

trim_end : String → String
unfolding keep_before
trim_end String.[] = String.[]
trim_end (String.◌∷◌ c s) = keep_before c (trim_end s)

unfoldable pub trim : String → String
unfolding trim_start trim_end
trim s = trim_end (trim_start s)

-- `length` counts UTF-16 units: a character beyond the basic plane has two.
unfoldable pub length_utf16 : String → ℕ
length_utf16 String.[] = 0
length_utf16 (String.◌∷◌ c s) = (if ltb (code c) 0x10000 then 1 else 2) + length_utf16 s

-- The text as code points.
unfoldable pub codes : String → List ℕ
codes String.[] = []
codes (String.◌∷◌ c s) = code c ∷ codes s

-- `toLowerCase` on the characters whose lower case is an ASCII character: A to Z and the Kelvin
-- sign. The others keep a lower case outside ASCII.
abbrev pub to_lower : ℕ → ℕ
to_lower c = if leb b'A' c && leb c b'Z' then c + 32 else if beq c 0x212a then b'k' else c

-- A template literal of two parts.
abbrev pub concat : String → String → String
concat s t = s ++ t

-- `slice(0, n)`, where a character that does not fit is left out.
unfoldable pub take_utf16 : ℕ → String → String
take_utf16 n String.[] = String.[]
take_utf16 n (String.◌∷◌ c s) =
    let units = if ltb (code c) 0x10000 then 1 else 2 in
    let rest = take_utf16 (n - units) s in if ltb n units then String.[] else String.◌∷◌ c rest

upper_char : Char → Char
upper_char c =
    if leb b'a' (code c) && leb (code c) b'z'
    then char_at "ABCDEFGHIJKLMNOPQRSTUVWXYZ" (code c - b'a')
    else c

lower_char : Char → Char
lower_char c =
    if leb b'A' (code c) && leb (code c) b'Z'
    then char_at "abcdefghijklmnopqrstuvwxyz" (code c - b'A')
    else c

-- `toUpperCase` and `toLowerCase` of a text of ASCII characters.
unfoldable pub upper_case : String → String
unfolding upper_char
upper_case String.[] = String.[]
upper_case (String.◌∷◌ c s) = String.◌∷◌ (upper_char c) (upper_case s)

unfoldable pub lower_case : String → String
unfolding lower_char
lower_case String.[] = String.[]
lower_case (String.◌∷◌ c s) = String.◌∷◌ (lower_char c) (lower_case s)
