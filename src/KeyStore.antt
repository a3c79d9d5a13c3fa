-- ===== src/KeyStore.antt =====
-- internal/auth/keystore.go. The environment variable INFERENCIA_API_KEYS is its value, empty if
-- it is not set; a file is a parameter: the lines that the scanner yields, with the error it
-- stops at, if any, or the error of opening it.
pub mod Loading
mod Tests
use inferencia.Common.{
  ℕ, String, Bool, true, false, ◌||◌, Option, none, some, List, [], ◌∷◌, ◌==◌, starts_with,
  if◌then◌else◌, length, get, put, Result, ok, err, split, trim_space,
}

-- The set of the keys, as a map to nothing.
pub record KeyStore : Type 0 where
  pub keys : List (String × Unit {0})

pub data InvalidKey : Type 0 where
  invalid_key : InvalidKey

pub data Error : Type 0 where
  no_env_keys : Error
  no_source : Error
  load_failed : String → Error
  no_file_keys : String → Error

-- The loop of both sources: the trimmed entries that are not skipped.
abbrev pub add_keys :
    (String → Bool) → List String → List (String × Unit {0}) → List (String × Unit {0})
add_keys skipped [] keys = keys
add_keys skipped (k ∷ ks) keys =
    add_keys skipped ks (if skipped (trim_space k) then keys else put (trim_space k) tt keys)

abbrev pub is_blank : String → Bool
is_blank key = key == ""

-- An empty line, or a comment.
abbrev pub is_skipped : String → Bool
is_skipped line = (line == "") || starts_with line "#"

-- The store, unless it is empty.
abbrev pub non_empty : Error → List (String × Unit {0}) → Result Error KeyStore
non_empty e [] = err e
non_empty e (k ∷ ks) = ok (record { keys = k ∷ ks })

abbrev pub load_file : String → Result String (List String × Option String) → Result Error KeyStore
load_file path (err e) = err (load_failed e)
load_file path (ok (lines, some e)) = err (load_failed e)
load_file path (ok (lines, none)) = non_empty (no_file_keys path) (add_keys is_skipped lines [])

unfoldable pub new_key_store :
    String → (String → Result String (List String × Option String)) → String → Result Error KeyStore
new_key_store env read path =
    if env == ""
    then (if path == "" then err no_source else load_file path (read path))
    else non_empty no_env_keys (add_keys is_blank (split b',' env) [])

unfoldable pub validate : KeyStore → String → Option InvalidKey
validate ks key = elim (get key ks.keys) [ none ↦ some invalid_key | some u ↦ none ]

unfoldable pub count : KeyStore → ℕ
count ks = length ks.keys
