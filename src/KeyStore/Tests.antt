-- ===== src/KeyStore/Tests.antt =====
-- Keys in the variable, with blanks and an empty entry; and keys in a file with a comment.
use inferencia.Common.{refl, String, none, List, [], ◌∷◌, Option, Result, ok, arith, eq_iff, split}
use inferencia.KeyStore.{no_env_keys, no_file_keys, is_blank, is_skipped, new_key_store}
use inferencia.KeyStore.Loading.{
  IsListed, IsLoaded, new_key_store-IsLoaded_env, new_key_store-IsLoaded_file,
}

abbrev lines : List String
lines = "# keys" ∷ "" ∷ " sk-one " ∷ "sk-two" ∷ []

abbrev file : String → Result String (List String × Option String)
file path = ok (lines, none)

new_key_store-IsLoaded_env_example :
    IsLoaded no_env_keys
      (IsListed is_blank (split b',' "sk-one, ,sk-two"))
      (new_key_store "sk-one, ,sk-two" file "keys.txt")
new_key_store-IsLoaded_env_example =
    new_key_store-IsLoaded_env file "keys.txt" "sk-one, ,sk-two"
      (ground (arith, eq_iff "sk-one, ,sk-two" ""))

new_key_store-IsLoaded_file_example :
    IsLoaded
      (no_file_keys "keys.txt")
      (IsListed is_skipped lines)
      (new_key_store "" file "keys.txt")
new_key_store-IsLoaded_file_example =
    new_key_store-IsLoaded_file file "keys.txt" lines (ground (arith, eq_iff "keys.txt" "")) refl
