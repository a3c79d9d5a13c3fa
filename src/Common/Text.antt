-- ===== src/Common/Text.antt =====
-- What the program uses of Go's strings and strconv, on texts as sequences of characters.
use Prim.Native.Char.{Char, code}
use Prim.Native.Nat.{ℕ, zero, suc, ◌+◌, ◌-◌, ◌*◌, ◌^◌}
use Prim.Native.String.{String}
use mathlib.Core.Bool.{Bool, true, false, ◌&&◌, ◌||◌}
use mathlib.Core.List.{List, [], ◌∷◌}
use mathlib.Core.Option.{Option, none, some}
use text.Mathlib.Text.{◌==◌, find?}
use inferencia.Common.Tests.{if◌then◌else◌, ltb, leb, eqb}
use inferencia.Common.Lists.{any}
use inferencia.Common.Int.{ℤ, pos, negsuc}

-- `unicode.IsSpace`
abbrev pub is_space : Char → Bool
is_space c =
    (leb 9 (code c) && leb (code c) 13)
    || (leb 8192 (code c) && leb (code c) 8202)
    || any (eqb (code c)) (32 ∷ 133 ∷ 160 ∷ 5760 ∷ 8232 ∷ 8233 ∷ 8239 ∷ 8287 ∷ 12288 ∷ [])

abbrev pub trim_left : String → String
trim_left String.[] = ""
trim_left (String.◌∷◌ c s) = if is_space c then trim_left s else String.◌∷◌ c s

abbrev pub trim_right : String → String
trim_right String.[] = ""
trim_right (String.◌∷◌ c s) =
    let rest = trim_right s in if is_space c && (rest == "") then "" else String.◌∷◌ c rest

-- `strings.TrimSpace`
abbrev pub trim_space : String → String
trim_space s = trim_right (trim_left s)

abbrev pub extend : Char → List String → List String
extend c [] = String.◌∷◌ c "" ∷ []
extend c (s ∷ ss) = String.◌∷◌ c s ∷ ss

-- `strings.Split` at a separator of one character.
abbrev pub split : ℕ → String → List String
split sep String.[] = "" ∷ []
split sep (String.◌∷◌ c s) =
    let rest = split sep s in if eqb (code c) sep then "" ∷ rest else extend c rest

-- `strings.Contains`
abbrev pub contains : String → String → Bool
contains s t = elim (find? s t) [ none ↦ false | some i ↦ true ]

-- `s[:strings.IndexAny(s, seps)]`, or all of `s` if none of the characters occurs.
abbrev pub until : (ℕ → Bool) → String → String
until sep String.[] = ""
until sep (String.◌∷◌ c s) = if sep (code c) then "" else String.◌∷◌ c (until sep s)

abbrev upper_case : List (ℕ × Char)
upper_case =
    (b'A', "a")
    ∷ (b'B', "b")
    ∷ (b'C', "c")
    ∷ (b'D', "d")
    ∷ (b'E', "e")
    ∷ (b'F', "f")
    ∷ (b'G', "g")
    ∷ (b'H', "h")
    ∷ (b'I', "i")
    ∷ (b'J', "j")
    ∷ (b'K', "k")
    ∷ (b'L', "l")
    ∷ (b'M', "m")
    ∷ (b'N', "n")
    ∷ (b'O', "o")
    ∷ (b'P', "p")
    ∷ (b'Q', "q")
    ∷ (b'R', "r")
    ∷ (b'S', "s")
    ∷ (b'T', "t")
    ∷ (b'U', "u")
    ∷ (b'V', "v")
    ∷ (b'W', "w")
    ∷ (b'X', "x")
    ∷ (b'Y', "y")
    ∷ (b'Z', "z")
    ∷ []

abbrev lower_of : Char → List (ℕ × Char) → Char
lower_of c [] = c
lower_of c ((u, l) ∷ t) = if eqb (code c) u then l else lower_of c t

-- `unicode.ToLower`; `beyond` is its table for the characters that are not ASCII.
abbrev pub lower_char : (Char → Char) → Char → Char
lower_char beyond c = if ltb (code c) 128 then lower_of c upper_case else beyond c

-- `strings.ToLower`
abbrev pub to_lower : (Char → Char) → String → String
to_lower beyond String.[] = ""
to_lower beyond (String.◌∷◌ c s) = String.◌∷◌ (lower_char beyond c) (to_lower beyond s)

-- The number that decimal digits spell after `n`.
abbrev pub digits : ℕ → String → Option ℕ
digits n String.[] = some n
digits n (String.◌∷◌ c s) =
    let rest = digits (n * 10 + (code c - b'0')) s in
    if leb b'0' (code c) && leb (code c) b'9' then rest else none

abbrev pub number : String → Option ℕ
number String.[] = none
number (String.◌∷◌ c s) = digits 0 (String.◌∷◌ c s)

abbrev negative : ℕ → ℤ
negative zero = pos 0
negative (suc n) = negsuc n

abbrev pub in_range : ℕ → (ℕ → ℤ) → Option ℕ → Option ℤ
in_range top sign none = none
in_range top sign (some n) = if ltb n top then some (sign n) else none

-- `strconv.Atoi` for a 64-bit `int`; `none` is its error.
abbrev pub atoi : String → Option ℤ
atoi String.[] = none
atoi (String.◌∷◌ c s) =
    if eqb (code c) b'-'
    then in_range (2 ^ 63 + 1) negative (number s)
    else if eqb (code c) b'+'
    then in_range (2 ^ 63) pos (number s)
    else in_range (2 ^ 63) pos (number (String.◌∷◌ c s))
