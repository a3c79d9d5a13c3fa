-- ===== src/Integration/Wait.antt =====
-- The wait for the started program.
use inferencia.Common.{
  ℕ, zero, suc, ◌+◌, ◌*◌, ◌≤◌, ◌<◌, ◌≡◌, refl, ◌⊎◌, inl, inr, String, Bool, true, false, Option,
  some, eqb, arith, Result, ok, err, Bool-cases, eqb_iff,
}
use inferencia.Integration.{Attempt, timer_wins, wait_for_health}

timer_wins-le :
    (first : Bool) (deadline failed : ℕ)
    → timer_wins first deadline failed ≡ true
    → failed + 200 ≤ deadline
unfolding timer_wins
timer_wins-le first deadline failed e = ground (arith, e)

timer_loses-le :
    (first : Bool) (deadline failed : ℕ)
    → timer_wins first deadline failed ≡ false
    → deadline ≤ failed + 200
unfolding timer_wins
timer_loses-le first deadline failed e = ground (arith, e)

module _ (attempt : ℕ → Attempt) (deadline : ℕ) where
  -- The time at which request `n` is made, if all before it fail.
  abbrev pub made_at : ℕ → ℕ
  made_at zero = 0
  made_at (suc n) = made_at n + (attempt n).took + 200

  -- The requests from `i` up to `n`, without `n`, fail.
  abbrev pub AllFail : ℕ → ℕ → Type 0
  AllFail i n = (m : ℕ) → i ≤ m → m < n → (attempt m).answers ≡ false

  -- From request `i` on: request `n` is made by the deadline and is the first to be answered; or the
  -- requests before `n` fail, of which there are one or more, and `n` could not be made before the
  -- deadline. At most `fuel` requests are made.
  abbrev pub IsWaited : ℕ → ℕ → Option (Result String (Unit {0})) → Type 0
  IsWaited fuel i found =
      ((n : ℕ) × (i ≤ n)
        × (n < i + fuel)
        × (found ≡ some (ok tt))
        × ((attempt n).answers ≡ true)
        × (made_at n ≤ deadline)
        × AllFail i n)
      ⊎ ((n : ℕ) × (i < n)
          × (n ≤ i + fuel)
          × (found ≡ some (err "context deadline exceeded"))
          × (deadline ≤ made_at n)
          × AllFail i n)

  AllFail-cons : (i n : ℕ) → (attempt i).answers ≡ false → AllFail (suc i) n → AllFail i n
  AllFail-cons i n failed rest m h h' = elim (Bool-cases (eqb i m)) [
    | inl same ↦ rw ((eqb_iff i m).0 same) at failed
    | inr other ↦ rest m (ground (arith, other)) h'
  ]

  IsWaited-later :
      (fuel i : ℕ) (found : Option (Result String (Unit {0})))
      → (attempt i).answers ≡ false
      → IsWaited fuel (suc i) found
      → IsWaited (suc fuel) i found
  IsWaited-later fuel i found failed (inl (n, from, few, e, answered, early, before)) =
      inl (n, omega arith, omega arith, e, answered, early, AllFail-cons i n failed before)
  IsWaited-later fuel i found failed (inr (n, from, few, e, late, before)) =
      inr (n, omega arith, omega arith, e, late, AllFail-cons i n failed before)

  loop-IsWaited :
      (fuel i now : ℕ)
      → now ≡ made_at i
      → now ≤ deadline
      → deadline < now + 200 * fuel
      → IsWaited fuel i (wait_for_health fuel attempt deadline i now)
  loop-IsWaited zero i now at h enough = absurd (omega arith)
  loop-IsWaited (suc fuel) i now at h enough =
      let failed = now + (attempt i).took in
      elim (Bool-cases (attempt i).answers) [
        | inl answered ↦ rw answered (
            inl (
              i,
              omega arith,
              omega arith,
              refl,
              answered,
              omega (arith, at),
              λ m from before. absurd (omega arith),
            ))
        | inr silent ↦ elim (Bool-cases (timer_wins (attempt i).timer_first deadline failed)) [
          | inl wins ↦
              rw (silent, wins)
                (let next = timer_wins-le (attempt i).timer_first deadline failed wins in
                  let succ : i + 1 ≡ suc i = omega arith in
                  rw succ (
                    IsWaited-later fuel i _ silent (
                      loop-IsWaited fuel (suc i) (failed + 200) (omega (arith, at)) next
                        (omega (arith, next)))))
          | inr over ↦
              rw (silent, over)
                (inr (
                  suc i,
                  omega arith,
                  omega arith,
                  refl,
                  omega (arith, at, timer_loses-le (attempt i).timer_first deadline failed over),
                  λ m from before. let same : i ≡ m = omega arith in rw same at silent,
                ))
        ]
      ]

  -- If the rounds of `waitForHealth`, at 200 milliseconds each, last beyond the deadline, the wait ends
  -- within them. It ends without an error at the first request that is answered, which is made by the
  -- deadline. It ends with the error of the deadline only after one request or more, none of them
  -- answered, where the next could not be made before the deadline.
  pub wait_for_health-IsWaited :
      (fuel : ℕ)
      → deadline < 200 * fuel
      → IsWaited fuel 0 (wait_for_health fuel attempt deadline 0 0)
  wait_for_health-IsWaited fuel enough =
      loop-IsWaited fuel 0 0 refl (omega arith) (omega (arith, enough))
