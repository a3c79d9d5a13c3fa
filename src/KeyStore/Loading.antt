-- ===== src/KeyStore/Loading.antt =====
-- Which keys a loaded store accepts.
use inferencia.Common.{
  ◌≤◌, ◌≡◌, ◌≢◌, refl, ap, ◌⊎◌, inl, inr, ◌↔◌, String, Bool, true, false, Option, none, List, [],
  ◌∷◌, ◌==◌, arith, eq_iff, map, In, get, put, get-put, Bool-cases, Option-cases, Result, ok, err,
  split, trim_space,
}
use inferencia.KeyStore.{
  KeyStore, Error, no_env_keys, no_file_keys, is_blank, is_skipped, add_keys, non_empty,
  new_key_store, validate, count,
}

abbrev Keys : Type 0
Keys = List (String × Unit {0})

abbrev Has : Keys → String → Type 0
Has keys k = get k keys ≢ none

Has-put : (keys : Keys) (j k : String) → Has (put j tt keys) k ↔ ((j ≡ k) ⊎ Has keys k)
Has-put keys j k = ground (arith, get-put j k tt keys, eq_iff j k)

-- A key is among the trimmed entries, and not skipped.
abbrev pub IsListed : (String → Bool) → List String → String → Type 0
IsListed skipped ks k = In k (map trim_space ks) × (skipped k ≡ false)

skip_iff :
    {k t : String} (st sk : Bool) {Rest Before After : Type 0}
    → (k ≡ t → sk ≡ st)
    → st ≡ true
    → After ↔ ((Rest × (sk ≡ false)) ⊎ Before)
    → After ↔ ((((k ≡ t) ⊎ Rest) × (sk ≡ false)) ⊎ Before)
skip_iff st sk same e h = ground arith

put_iff :
    {k t : String} {st sk : Bool} {Rest Before Put After : Type 0}
    → (k ≡ t → sk ≡ st)
    → st ≡ false
    → After ↔ ((Rest × (sk ≡ false)) ⊎ Put)
    → Put ↔ ((t ≡ k) ⊎ Before)
    → After ↔ ((((k ≡ t) ⊎ Rest) × (sk ≡ false)) ⊎ Before)
put_iff same e h p = ground arith

Has-add_keys :
    (skipped : String → Bool) (ks : List String) (keys : Keys) (k : String)
    → Has (add_keys skipped ks keys) k ↔ (IsListed skipped ks k ⊎ Has keys k)
Has-add_keys skipped [] keys k = ((λ h. inr h), (λ h. elim h [ inl l ↦ absurd l.0 | inr p ↦ p ]))
Has-add_keys skipped (j ∷ ks) keys k = elim (Bool-cases (skipped (trim_space j))) [
  | inl e ↦ rw e (
      skip_iff (skipped (trim_space j)) (skipped k) (ap skipped) e (Has-add_keys skipped ks keys k))
  | inr e ↦ rw e (
      put_iff (ap skipped) e (Has-add_keys skipped ks (put (trim_space j) tt keys) k)
        (Has-put keys (trim_space j) k))
]

-- A store with at least one key, and exactly the listed ones valid; or the error, and none listed.
abbrev pub IsLoaded : Error → (String → Type 0) → Result Error KeyStore → Type 0
IsLoaded e Listed result =
    ((ks : KeyStore) × (result ≡ ok ks)
      × (1 ≤ count ks)
      × ((k : String) → (validate ks k ≡ none) ↔ Listed k))
    ⊎ ((result ≡ err e) × ((k : String) → ¬ Listed k))

validate-Has :
    (keys : Keys) (k : String) → (validate (record { keys = keys }) k ≡ none) ↔ Has keys k
unfolding validate
validate-Has keys k = elim (Option-cases (get k keys)) [
  | inl e ↦ rw (e, validate) ((λ h. cc), (λ h. absurd (h refl)))
  | inr (u, e) ↦ rw (e, validate) ((λ h x. cc), (λ h. refl))
]

non_empty-IsLoaded :
    (e : Error) (keys : Keys) (Listed : String → Type 0)
    → ((k : String) → Has keys k ↔ Listed k)
    → IsLoaded e Listed (non_empty e keys)
unfolding count
non_empty-IsLoaded e [] Listed h = inr (refl, (λ k l. (h k).1 l refl))
non_empty-IsLoaded e ((j, u) ∷ keys) Listed h = inl (
  record { keys = (j, u) ∷ keys },
  refl,
  omega arith,
  (λ k. (
    (λ v. (h k).0 ((validate-Has ((j, u) ∷ keys) k).0 v)),
    (λ l. (validate-Has ((j, u) ∷ keys) k).1 ((h k).1 l)),
  )),
)

listed :
    (skipped : String → Bool) (ks : List String) (k : String)
    → Has (add_keys skipped ks []) k ↔ IsListed skipped ks k
listed skipped ks k = ground (arith, Has-add_keys skipped ks [] k)

module _ (read : String → Result String (List String × Option String)) (path : String) where
  -- With keys in the environment, whatever the path and the file: the store accepts exactly the
  -- trimmed, nonempty entries of the variable and holds at least one key, or none is listed and
  -- the error says so.
  pub new_key_store-IsLoaded_env :
      (env : String)
      → env ≢ ""
      → IsLoaded no_env_keys (IsListed is_blank (split b',' env)) (new_key_store env read path)
  unfolding new_key_store
  new_key_store-IsLoaded_env env set = elim (Bool-cases (env == "")) [
    | inl e ↦ absurd (set ((eq_iff env "").0 e))
    | inr e ↦ rw e (
        non_empty-IsLoaded no_env_keys (add_keys is_blank (split b',' env) []) _
          (listed is_blank (split b',' env)))
  ]

  -- Without the variable, if the file at the path can be read: the store accepts exactly the
  -- trimmed lines that are not empty and do not begin with #, and holds at least one key, or there
  -- is no such line and the error says so.
  pub new_key_store-IsLoaded_file :
      (lines : List String)
      → path ≢ ""
      → read path ≡ ok (lines, none)
      → IsLoaded (no_file_keys path) (IsListed is_skipped lines) (new_key_store "" read path)
  unfolding new_key_store
  new_key_store-IsLoaded_file lines given found = elim (Bool-cases (path == "")) [
    | inl e ↦ absurd (given ((eq_iff path "").0 e))
    | inr e ↦
        rw (e, found)
          (non_empty-IsLoaded (no_file_keys path) (add_keys is_skipped lines []) _
            (listed is_skipped lines))
  ]
