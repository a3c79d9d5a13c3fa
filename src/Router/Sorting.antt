-- ===== src/Router/Sorting.antt =====
-- `sort.SliceStable` by falling score.
use inferencia.Common.{
  ℕ, ◌≤◌, ◌≡◌, refl, ◌∙◌, inl, inr, List, [], ◌∷◌, arith, ltb, eqb, keep, All, Bool-cases,
}
use inferencia.Router.{BackendInfo, insert_scored, sort_scored}

module _ {B T : Type 0} where
  -- Each entry scores at least as much as those behind it.
  abbrev pub Falls : List (BackendInfo B T × ℕ) → Type 0
  Falls [] = Unit {0}
  Falls (x ∷ xs) = All (λ (y : BackendInfo B T × ℕ). y.1 ≤ x.1) xs × Falls xs

  All-insert_scored :
      (n : ℕ) (x : BackendInfo B T × ℕ) (ys : List (BackendInfo B T × ℕ))
      → x.1 ≤ n
      → All (λ (y : BackendInfo B T × ℕ). y.1 ≤ n) ys
      → All (λ (y : BackendInfo B T × ℕ). y.1 ≤ n) (insert_scored x ys)
  unfolding insert_scored
  All-insert_scored n x [] h hs = (h, tt)
  All-insert_scored n x (y ∷ ys) h hs = ground (arith, All-insert_scored n x ys h hs.1)

  All-mono :
      (m n : ℕ) (ys : List (BackendInfo B T × ℕ))
      → m ≤ n
      → All (λ (y : BackendInfo B T × ℕ). y.1 ≤ m) ys
      → All (λ (y : BackendInfo B T × ℕ). y.1 ≤ n) ys
  All-mono m n [] h hs = tt
  All-mono m n (y ∷ ys) h hs = (omega arith, All-mono m n ys h hs.1)

  insert_scored-Falls :
      (x : BackendInfo B T × ℕ) (ys : List (BackendInfo B T × ℕ))
      → Falls ys
      → Falls (insert_scored x ys)
  unfolding insert_scored
  insert_scored-Falls x [] f = (tt, tt)
  insert_scored-Falls x (y ∷ ys) f = elim (Bool-cases (ltb x.1 y.1)) [
    | inl less ↦
        rw less (All-insert_scored y.1 x ys (ground arith) f.0, insert_scored-Falls x ys f.1)
    | inr more ↦ rw more ((ground arith, All-mono y.1 x.1 ys (ground arith) f.0), f)
  ]

  pub sort_scored-Falls : (xs : List (BackendInfo B T × ℕ)) → Falls (sort_scored xs)
  unfolding sort_scored
  sort_scored-Falls [] = tt
  sort_scored-Falls (x ∷ xs) = insert_scored-Falls x (sort_scored xs) (sort_scored-Falls xs)

  -- The entries of one score keep their order.
  keep-insert_scored :
      (n : ℕ) (x : BackendInfo B T × ℕ) (ys : List (BackendInfo B T × ℕ))
      → keep (λ (s : BackendInfo B T × ℕ). eqb s.1 n) (insert_scored x ys)
        ≡ keep (λ (s : BackendInfo B T × ℕ). eqb s.1 n) (x ∷ ys)
  unfolding insert_scored
  keep-insert_scored n x [] = refl
  keep-insert_scored n x (y ∷ ys) = ground (arith, keep-insert_scored n x ys)

  -- Sorting the candidates is stable: the entries of each score stand in the order they had.
  pub keep-sort_scored :
      (n : ℕ) (xs : List (BackendInfo B T × ℕ))
      → keep (λ (s : BackendInfo B T × ℕ). eqb s.1 n) (sort_scored xs)
        ≡ keep (λ (s : BackendInfo B T × ℕ). eqb s.1 n) xs
  unfolding sort_scored
  keep-sort_scored n [] = refl
  keep-sort_scored n (x ∷ xs) =
      keep-insert_scored n x (sort_scored xs) ∙ ground (arith, keep-sort_scored n xs)
