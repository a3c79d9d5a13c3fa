-- ===== src/Common/Pieces.antt =====
-- Texts put together and taken apart: what the program uses of Go's `+`, strings.TrimPrefix,
-- strings.TrimRight and bufio.ScanLines.
use Prim.Native.Char.{Char, code}
use Prim.Native.Nat.{ℕ}
use Prim.Native.String.{String}
use mathlib.Core.Bool.{◌&&◌}
use mathlib.Core.List.{List, [], ◌∷◌}
use mathlib.Core.Option.{Option, none, some}
use text.Mathlib.Text.{◌==◌}
use inferencia.Common.Tests.{if◌then◌else◌, eqb}

-- `s + t`
abbrev pub join_text : String → String → String
join_text String.[] t = t
join_text (String.◌∷◌ c s) t = String.◌∷◌ c (join_text s t)

-- What follows the prefix, if the text has it.
abbrev pub strip_prefix : String → String → Option String
strip_prefix String.[] s = some s
strip_prefix (String.◌∷◌ p ps) String.[] = none
strip_prefix (String.◌∷◌ p ps) (String.◌∷◌ c s) =
    if eqb (code p) (code c) then strip_prefix ps s else none

-- The text after the first occurrence of a part, if there is one.
abbrev pub after : String → String → Option String
after part String.[] = strip_prefix part ""
after part (String.◌∷◌ c s) = elim (strip_prefix part (String.◌∷◌ c s)) [
  | none ↦ after part s
  | some rest ↦ some rest
]

-- `strings.TrimRight` of one character.
abbrev pub trim_right_of : ℕ → String → String
trim_right_of sep String.[] = ""
trim_right_of sep (String.◌∷◌ c s) =
    let rest = trim_right_of sep s in
    if eqb (code c) sep && (rest == "") then "" else String.◌∷◌ c rest

abbrev pub drop_cr : String → String
drop_cr String.[] = ""
drop_cr (String.◌∷◌ c s) =
    let rest = drop_cr s in if eqb (code c) 13 && (s == "") then "" else String.◌∷◌ c rest

abbrev pub to_first : Char → List String → List String
to_first c [] = String.◌∷◌ c "" ∷ []
to_first c (l ∷ ls) = String.◌∷◌ c l ∷ ls

-- The text split after each newline, without the newlines; no line follows the last newline.
abbrev pub raw_lines : String → List String
raw_lines String.[] = []
raw_lines (String.◌∷◌ c s) =
    let rest = raw_lines s in if eqb (code c) 10 then "" ∷ rest else to_first c rest

abbrev pub without_cr : List String → List String
without_cr [] = []
without_cr (l ∷ ls) = drop_cr l ∷ without_cr ls

-- The lines that a scanner with bufio.ScanLines yields.
abbrev pub scan_lines : String → List String
scan_lines s = without_cr (raw_lines s)
