-- ===== src/Common/Filepath.antt =====
-- What the program uses of Go's path/filepath on a Unix system: Clean, Dir and Join, on texts.
use Prim.Native.Char.{code}
use Prim.Native.Nat.{ℕ, suc}
use Prim.Native.String.{String}
use mathlib.Core.Bool.{Bool, true, false, ◌||◌}
use mathlib.Core.List.{List, [], ◌∷◌}
use text.Mathlib.Text.{◌==◌}
use inferencia.Common.Tests.{if◌then◌else◌, eqb}
use inferencia.Common.Text.{split}
use inferencia.Common.Pieces.{join_text}

-- The number of characters.
abbrev pub size : String → ℕ
size String.[] = 0
size (String.◌∷◌ c s) = suc (size s)

abbrev pub is_rooted : String → Bool
is_rooted String.[] = false
is_rooted (String.◌∷◌ c s) = eqb (code c) b'/'

-- `..` takes back the last element, if there is one that is not `..` itself.
abbrev pub go_up : Bool → List String → List String
go_up true [] = []
go_up false [] = ".." ∷ []
go_up rooted (e ∷ es) = if e == ".." then ".." ∷ e ∷ es else es

-- The elements that Clean leaves, the last one first.
abbrev pub walk : Bool → List String → List String → List String
walk rooted stack [] = stack
walk rooted stack (e ∷ es) =
    if (e == "") || (e == ".")
    then walk rooted stack es
    else if e == ".."
    then walk rooted (go_up rooted stack) es
    else walk rooted (e ∷ stack) es

-- The elements of a stack, each after a slash, and a text behind them.
abbrev pub slashed : List String → String → String
slashed [] t = t
slashed (e ∷ es) t = slashed es (String.◌∷◌ "/" (join_text e t))

abbrev pub behind_first : String → String
behind_first String.[] = ""
behind_first (String.◌∷◌ c s) = s

abbrev pub render : Bool → List String → String
render true [] = "/"
render false [] = "."
render true (e ∷ es) = slashed (e ∷ es) ""
render false (e ∷ es) = behind_first (slashed (e ∷ es) "")

abbrev pub clean : String → String
clean s = if s == "" then "." else render (is_rooted s) (walk (is_rooted s) [] (split b'/' s))

-- A path up to its last slash, the slash included.
abbrev pub to_last_slash : String → String
to_last_slash String.[] = ""
to_last_slash (String.◌∷◌ c s) =
    let rest = to_last_slash s in
    if rest == "" then (if eqb (code c) b'/' then "/" else "") else String.◌∷◌ c rest

abbrev pub dir : String → String
dir path = clean (to_last_slash path)

-- `strings.Join` with slashes.
abbrev pub join_slash : List String → String
join_slash [] = ""
join_slash (e ∷ []) = e
join_slash (e ∷ es) = join_text e (String.◌∷◌ "/" (join_slash es))

abbrev pub join_path : List String → String
join_path [] = ""
join_path (e ∷ es) = if e == "" then join_path es else clean (join_slash (e ∷ es))
