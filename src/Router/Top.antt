-- ===== src/Router/Top.antt =====
-- The best tier of the scored candidates.
use inferencia.Common.{
  ℕ, ◌≤◌, ◌<◌, ◌≡◌, refl, ap, ◌≢◌, ◌⊎◌, inl, inr, List, [], ◌∷◌, arith, ltb, ltb→lt, eqb, eqb_iff,
  keep, map, In, In-keep, keep-In, All-In, Bool-cases, Result, ok, err,
}
use inferencia.Router.{
  BackendInfo, Registry, Error, no_healthy_backend, sort_scored, pick_balanced, pick_top,
}
use inferencia.Router.Sorting.{Falls, sort_scored-Falls, keep-sort_scored}

module _ {B T : Type 0} where
  -- The entries with the score `n`.
  abbrev pub tier : ℕ → List (BackendInfo B T × ℕ) → List (BackendInfo B T)
  tier n xs =
      map (λ (s : BackendInfo B T × ℕ). s.0) (keep (λ (s : BackendInfo B T × ℕ). eqb s.1 n) xs)

  -- `pick_top` over any list refuses it as a whole, or balances the entries of its highest score.
  abbrev pub IsTop :
      Registry B T
      → List (BackendInfo B T × ℕ)
      → Result Error (BackendInfo B T) × Registry B T
      → Type 0
  IsTop r xs result =
      ((result ≡ (err no_healthy_backend, r)) × ((s : BackendInfo B T × ℕ) → In s xs → s.1 < 50))
      ⊎ ((top : ℕ) × (50 ≤ top)
          × ((s : BackendInfo B T × ℕ) → In s xs → s.1 ≤ top)
          × (tier top xs ≢ [])
          × (result ≡ (ok (pick_balanced r (tier top xs)).0, (pick_balanced r (tier top xs)).1)))

  head_max :
      (info : BackendInfo B T) (top : ℕ) (rest : List (BackendInfo B T × ℕ))
      → Falls {B = B} {T = T} ((info, top) ∷ rest)
      → (s : BackendInfo B T × ℕ) → In s ((info, top) ∷ rest)
      → s.1 ≤ top
  head_max info top rest f s (inl e) = omega (arith, ap (λ (x : BackendInfo B T × ℕ). x.1) e)
  head_max info top rest f s (inr m) = All-In (λ (y : BackendInfo B T × ℕ). y.1 ≤ top) rest f.0 s m

  tier_head :
      (info : BackendInfo B T) (top : ℕ) (rest : List (BackendInfo B T × ℕ))
      → tier top ((info, top) ∷ rest) ≢ []
  tier_head info top rest e = let e' = rw ((eqb_iff top top).1 refl) at e in cc

  pick_top-IsTop :
      (r : Registry B T) (xs : List (BackendInfo B T × ℕ))
      → xs ≢ []
      → Falls xs
      → IsTop r xs (pick_top r xs)
  unfolding pick_top
  pick_top-IsTop r [] h f = absurd (h refl)
  pick_top-IsTop r ((info, top) ∷ rest) h f = elim (Bool-cases (ltb top 50)) [
    | inl low ↦ inl (rw low, λ s m. omega (arith, ltb→lt top 50 low, head_max info top rest f s m))
    | inr high ↦
        inr
          (top, ground arith, λ s m. head_max info top rest f s m, tier_head info top rest, rw high)
  ]

  sort_scored-In :
      (xs : List (BackendInfo B T × ℕ)) (s : BackendInfo B T × ℕ) → In s xs → In s (sort_scored xs)
  sort_scored-In xs s m =
      let kept =
        keep-In (λ (x : BackendInfo B T × ℕ). eqb x.1 s.1) xs s m ((eqb_iff s.1 s.1).1 refl) in
      (In-keep (λ (x : BackendInfo B T × ℕ). eqb x.1 s.1) (sort_scored xs) s
        (rw (keep-sort_scored s.1 xs) kept)).0

  sort_scored-ne-nil : (xs : List (BackendInfo B T × ℕ)) → xs ≢ [] → sort_scored xs ≢ []
  sort_scored-ne-nil [] h e = h refl
  sort_scored-ne-nil (x ∷ xs) h e = rw e at (sort_scored-In (x ∷ xs) x (inl refl))

  pub pick_top_sorted :
      (r : Registry B T) (xs : List (BackendInfo B T × ℕ))
      → xs ≢ []
      → IsTop r xs (pick_top r (sort_scored xs))
  pick_top_sorted r xs h =
      elim (pick_top-IsTop r (sort_scored xs) (sort_scored-ne-nil xs h) (sort_scored-Falls xs)) [
        | inl (e, low) ↦ inl (e, λ s m. low s (sort_scored-In xs s m))
        | inr (top, high, max, some_tied, e) ↦ inr (
          top,
          high,
          λ s m. max s (sort_scored-In xs s m),
          rw (keep-sort_scored top xs) at some_tied,
          rw (keep-sort_scored top xs) at e,
        )
      ]
