-- ===== src/Integration/Root.antt =====
-- The search for the directory with the `go.mod`.
use inferencia.Common.{
  ℕ, zero, suc, ◌+◌, ◌≤◌, ◌<◌, ◌≡◌, ◌≢◌, refl, sym, ◌∙◌, ◌⊎◌, inl, inr, String, Bool, true, false,
  Option, some, ◌==◌, eq_iff, arith, Result, ok, err, join_text, dir, size, Bool-cases, leb, leb→le,
}
use mathlib.Core.Bool.{false≢true}
use inferencia.Integration.{has_go_mod, find_up, from_working_directory, find_repo_root}
use inferencia.Integration.Descent.{size-dir, dir-dir_short}

-- The directory `n` levels up.
abbrev pub ancestor : ℕ → String → String
ancestor zero path = path
ancestor (suc n) path = ancestor n (dir path)

ancestor_fixed : (n : ℕ) (path : String) → dir path ≡ path → ancestor n path ≡ path
ancestor_fixed zero path e = refl
ancestor_fixed (suc n) path e = rw e (ancestor_fixed n path e)

-- The fuel is more than the levels above a path.
IsEnough : ℕ → String → Type 0
IsEnough fuel path = (size path + 2 ≤ fuel) ⊎ ((dir path ≡ path) × (1 ≤ fuel))

IsEnough-dir :
    (fuel : ℕ) (path : String)
    → (dir path == path) ≡ false
    → IsEnough (suc fuel) path
    → IsEnough fuel (dir path)
unfolding IsEnough
IsEnough-dir fuel path moved (inr (e, _)) =
    absurd (false≢true (sym moved ∙ (eq_iff (dir path) path).1 e))
IsEnough-dir fuel path moved (inl h) = elim (Bool-cases (leb 2 (size path))) [
  | inl long ↦ inl (omega (arith, h, size-dir path, leb→le 2 (size path) long))
  | inr short ↦ inr (dir-dir_short path (ground (arith, short)), omega (arith, h))
]

module _ (stat : String → Bool) (start : String) where
  -- The search from `path` yields its nearest ancestor with a `go.mod`, itself included, or the error
  -- if there is none.
  abbrev pub IsSearched : String → Option (Result String String) → Type 0
  IsSearched path found =
      ((n : ℕ) × (found ≡ some (ok (ancestor n path)))
        × (has_go_mod stat (ancestor n path) ≡ true)
        × ((m : ℕ) → m < n → has_go_mod stat (ancestor m path) ≡ false))
      ⊎ ((found ≡ some (err (join_text "go.mod not found from " start)))
          × ((m : ℕ) → has_go_mod stat (ancestor m path) ≡ false))

  IsSearched-dir :
      (path : String) (found : Option (Result String String))
      → has_go_mod stat path ≡ false
      → IsSearched (dir path) found
      → IsSearched path found
  IsSearched-dir path found missing (inl (n, e, there, before)) = inl (suc n, e, there, below)
    where
      below : (m : ℕ) → m < suc n → has_go_mod stat (ancestor m path) ≡ false
      below zero h = missing
      below (suc m) h = before m (omega arith)
  IsSearched-dir path found missing (inr (e, nowhere)) = inr (e, all)
    where
      all : (m : ℕ) → has_go_mod stat (ancestor m path) ≡ false
      all zero = missing
      all (suc m) = nowhere m

  find_up-IsSearched :
      (fuel : ℕ) (path : String)
      → IsEnough fuel path
      → IsSearched path (find_up stat fuel start path)
  unfolding IsEnough
  find_up-IsSearched zero path (inl h) = absurd (omega arith)
  find_up-IsSearched zero path (inr (_, h)) = absurd (omega arith)
  find_up-IsSearched (suc fuel) path enough = elim (Bool-cases (has_go_mod stat path)) [
    | inl there ↦ rw there (inl (0, refl, there, λ m h. absurd (omega arith)))
    | inr missing ↦ elim (Bool-cases (dir path == path)) [
      | inl top ↦
          rw (missing, top)
            (inr (refl, λ m. rw (ancestor_fixed m path ((eq_iff (dir path) path).0 top)) missing))
      | inr moved ↦
          rw (missing, moved)
            (IsSearched-dir path _ missing
              (find_up-IsSearched fuel (dir path) (IsEnough-dir fuel path moved enough)))
    ]
  ]

module _ (stat : String → Bool) where
  abbrev pub IsRootFound : String → Result String String → Option (Result String String) → Type 0
  IsRootFound root getwd found =
      ((root ≢ "") × (has_go_mod stat root ≡ true) × (found ≡ some (ok root)))
      ⊎ ((root ≢ "" → has_go_mod stat root ≡ false)
          × (((e : String) × (getwd ≡ err e) × (found ≡ some (err e)))
              ⊎ ((start : String) × (getwd ≡ ok start) × IsSearched stat start start found)))

  from_working_directory_cases :
      (getwd : Result String String)
      → ((e : String) × (getwd ≡ err e) × (from_working_directory stat getwd ≡ some (err e)))
        ⊎ ((start : String) × (getwd ≡ ok start)
            × IsSearched stat start start (from_working_directory stat getwd))
  unfolding IsEnough
  from_working_directory_cases (err e) = inl (e, refl, refl)
  from_working_directory_cases (ok start) =
      inr (start, refl, find_up-IsSearched stat start _ start (inl (omega arith)))

  -- `findRepoRoot` ends, whatever the paths and the files are. It returns the directory that
  -- INTEGRATION_REPO_ROOT names, if that is set and has a `go.mod`. Otherwise it returns the error of
  -- os.Getwd, or the nearest directory with a `go.mod` among the working directory and those above
  -- it, or reports that none has one, and then there is none at any level.
  pub find_repo_root-IsRootFound :
      (root : String) (getwd : Result String String)
      → IsRootFound root getwd (find_repo_root stat root getwd)
  unfolding find_repo_root
  find_repo_root-IsRootFound root getwd = elim (Bool-cases (root == "")) [
    | inl unset ↦
        rw unset
          (inr (λ set. absurd (set ((eq_iff root "").0 unset)), from_working_directory_cases getwd))
    | inr set ↦ elim (Bool-cases (has_go_mod stat root)) [
      | inl there ↦
          rw (set, there) (inl (λ e. false≢true (sym set ∙ (eq_iff root "").1 e), refl, refl))
      | inr missing ↦ rw (set, missing) (inr (λ _. refl, from_working_directory_cases getwd))
    ]
  ]
