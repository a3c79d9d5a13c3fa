-- ===== src/RateLimiter/Burst.antt =====
-- A burst is served.
use inferencia.Common.{
  ℕ, suc, ◌+◌, ◌*◌, ◌≤◌, ◌≡◌, refl, inl, inr, String, true, none, List, [], ◌∷◌, arith, map, length,
  eq_refl, get,
}
use inferencia.RateLimiter.{RateLimiter, scale, allow}
use inferencia.RateLimiter.Level.{
  level, level_absent, level_mono, IsSeen, allow_cases, level-allow_self, allow-IsSeen,
}
use inferencia.RateLimiter.Window.{request, step, passes, passed, HasRule}

-- The times do not fall, from `t` on.
abbrev pub Rising : ℕ → List ℕ → Type 0
Rising t [] = Unit {0}
Rising t (now ∷ times) = (t ≤ now) × Rising now times

suc_times : (n k : ℕ) → suc n * k ≡ k + n * k
suc_times n k = omega arith

allow_of_level :
    (rl : RateLimiter) (key : String) (now : ℕ)
    → scale rl ≤ level rl key now
    → (allow rl key now).0.1 ≡ true
allow_of_level rl key now h = elim (allow_cases rl key now) [
  | inl (low, e) ↦ absurd (omega arith)
  | inr (high, e) ↦ rw e
]

rules :
    (rl : RateLimiter) (key : String) (now : ℕ)
    → HasRule rl.num rl.den rl.burst (allow rl key now).1
rules rl key now = ground (arith, allow_cases rl key now)

enough_now :
    (rl : RateLimiter) (key : String) (t now n : ℕ)
    → IsSeen t key rl
    → t ≤ now
    → suc n * scale rl ≤ level rl key t
    → (allow rl key now).0.1 ≡ true
enough_now rl key t now n s i enough =
    allow_of_level rl key now (omega (arith, level_mono rl key t now s i, suc_times n (scale rl)))

enough_left :
    (rl : RateLimiter) (key : String) (t now n : ℕ)
    → IsSeen t key rl
    → t ≤ now
    → suc n * scale rl ≤ level rl key t
    → n * scale (allow rl key now).1 ≤ level (allow rl key now).1 key now
enough_left rl key t now n s i enough =
    let ok = enough_now rl key t now n s i enough in
    rw ((rules rl key now).1) (
      omega (
        arith,
        level_mono rl key t now s i,
        suc_times n (scale rl),
        rw ok at (level-allow_self rl key now),
      ))

-- Requests of a key that holds a token for each of them all pass.
pub passed_all :
    (rl : RateLimiter) (key : String) (t : ℕ) (times : List ℕ)
    → IsSeen t key rl
    → Rising t times
    → length times * scale rl ≤ level rl key t
    → passed key rl (map (request key) times) ≡ length times
unfolding passed passes step
passed_all rl key t [] s h enough = refl
passed_all rl key t (now ∷ times) s (i, later) enough =
    let ok = enough_now rl key t now (length times) s i enough in
    rw (eq_refl key, ok)
      (omega (
        arith,
        passed_all (allow rl key now).1 key now times (allow-IsSeen rl key key t now i s) later
            (enough_left rl key t now (length times) s i enough),
      ))

-- A key without a bucket has its whole burst: its first requests, up to `burst` of them and however
-- close together, all pass.
pub passed_burst :
    (rl : RateLimiter) (key : String) (t : ℕ) (times : List ℕ)
    → IsSeen t key rl
    → get key rl.buckets ≡ none
    → Rising t times
    → length times ≤ rl.burst
    → passed key rl (map (request key) times) ≡ length times
passed_burst rl key t times s absent h fits =
    passed_all rl key t times s h (rw (level_absent rl key t absent) (grind arith))
