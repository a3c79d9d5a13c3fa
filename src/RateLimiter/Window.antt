-- ===== src/RateLimiter/Window.antt =====
-- How many requests of a key pass in a stretch of time.
use inferencia.Common.{
  ℕ, ◌+◌, ◌-◌, ◌*◌, ◌^◌, ◌≤◌, ◌≡◌, refl, sym, ◌∙◌, inl, inr, String, Bool, true, false, List, [],
  ◌∷◌, arith, if◌then◌else◌, ◌==◌, eq_iff, Bool-cases,
}
use mathlib.Core.Bool.{false≢true}
use inferencia.RateLimiter.{RateLimiter, scale, allow, stale_after, cleanup}
use inferencia.RateLimiter.Level.{
  level, level-le, IsSeen, level-grows, grow, level-allow_self, level-allow_ne, allow-IsSeen,
  allow_cases,
}
use inferencia.RateLimiter.Cleanup.{level-cleanup, cleanup-IsSeen}

-- A call of `Allow`, or a tick of the cleanup, and when.
pub data Event : Type 0 where
  request : String → ℕ → Event
  tick : ℕ → Event

abbrev pub time : Event → ℕ
time (request key now) = now
time (tick now) = now

unfoldable pub step : RateLimiter → Event → RateLimiter
step rl (request key now) = (allow rl key now).1
step rl (tick now) = cleanup rl now

-- 1 if the event is a request of `key` that passes.
unfoldable pub passes : String → RateLimiter → Event → ℕ
passes key rl (request other now) =
    if other == key then (if (allow rl other now).0.1 then 1 else 0) else 0
passes key rl (tick now) = 0

-- The requests of `key` that pass.
unfoldable pub passed : String → RateLimiter → List Event → ℕ
passed key rl [] = 0
passed key rl (e ∷ es) = passes key rl e + passed key (step rl e) es

-- The times of the events do not fall, from `t` up to `u`.
abbrev pub IsTimed : ℕ → ℕ → List Event → Type 0
IsTimed t u [] = t ≤ u
IsTimed t u (e ∷ es) = (t ≤ time e) × IsTimed (time e) u es

-- The rule of the limiter: what no event changes.
abbrev pub HasRule : ℕ → ℕ → ℕ → RateLimiter → Type 0
HasRule num den burst rl = (rl.num ≡ num) × (rl.den ≡ den) × (rl.burst ≡ burst)

step-HasRule :
    (num den burst : ℕ) (rl : RateLimiter) (e : Event)
    → HasRule num den burst rl
    → HasRule num den burst (step rl e)
unfolding step cleanup
step-HasRule num den burst rl (request key now) h = ground (arith, allow_cases rl key now)
step-HasRule num den burst rl (tick now) h = h

units : (b : Bool) (n : ℕ) → (if b then 1 else 0) * n ≡ (if b then n else 0)
units true n = omega arith
units false n = omega arith

-- An event takes what it lets pass from the key's tokens.
level-step :
    (key : String) (rl : RateLimiter) (e : Event) (t : ℕ)
    → rl.burst * scale rl ≤ stale_after * rl.num
    → IsSeen t key rl
    → level (step rl e) key (time e) + passes key rl e * scale rl ≡ level rl key (time e)
unfolding step passes
level-step key rl (request other now) t h s = elim (Bool-cases (other == key)) [
  | inl same ↦
      rw (same, ← (eq_iff other key).0 same, units (allow rl other now).0.1 (scale rl))
        (level-allow_self rl other now)
  | inr different ↦ rw different (
      omega (
        arith,
        level-allow_ne rl other key now now
            (λ e. false≢true (sym different ∙ (eq_iff other key).1 e)),
      ))
]
level-step key rl (tick now) t h s = omega (arith, level-cleanup rl key t now h s)

step-IsSeen :
    (key : String) (rl : RateLimiter) (e : Event) (t : ℕ)
    → t ≤ time e
    → IsSeen t key rl
    → IsSeen (time e) key (step rl e)
unfolding step
step-IsSeen key rl (request other now) t h s = allow-IsSeen rl other key t now h s
step-IsSeen key rl (tick now) t h s = cleanup-IsSeen rl key t now h s

IsTimed-le : (t u : ℕ) (es : List Event) → IsTimed t u es → t ≤ u
IsTimed-le t u [] h = h
IsTimed-le t u (e ∷ es) h = omega (arith, IsTimed-le (time e) u es h.1)

step_budget :
    (key : String) (num den burst : ℕ) (rl : RateLimiter) (e : Event) (t : ℕ)
    → HasRule num den burst rl
    → burst * (den * 10 ^ 9) ≤ stale_after * num
    → IsSeen t key rl
    → t ≤ time e
    → level (step rl e) key (time e) + passes key rl e * (den * 10 ^ 9)
      ≤ level rl key t + (time e - t) * num
step_budget key num den burst rl e t (same_num, same_den, same_burst) h s i =
    rw (← same_num, ← same_den)
      (omega (
        arith,
        level-step key rl e t (rw (same_num, same_den, same_burst) h) s,
        level-grows rl key t (time e) s i,
      ))

passed-level :
    (key : String) (num den burst : ℕ) (rl : RateLimiter) (es : List Event) (t u : ℕ)
    → HasRule num den burst rl
    → burst * (den * 10 ^ 9) ≤ stale_after * num
    → IsSeen t key rl
    → IsTimed t u es
    → passed key rl es * (den * 10 ^ 9) ≤ level rl key t + (u - t) * num
unfolding passed
passed-level key num den burst rl [] t u r h s i = omega arith
passed-level key num den burst rl (e ∷ es) t u r h s (i, later) = omega (
  arith,
  passed-level key num den burst (step rl e) es (time e) u (step-HasRule num den burst rl e r) h
      (step-IsSeen key rl e t i s) later,
  step_budget key num den burst rl e t r h s i,
  grow t (time e) u num i (IsTimed-le (time e) u es later),
)

-- The rate limit, over any stretch of time. From any state of the limiter, whatever is requested by
-- this key and by others, and whatever the cleanup drops: between the times `t` and `u` at most
-- `burst + rate * (u - t)` requests of a key pass. It wants a rate that refills a burst within the
-- ten minutes after which the cleanup drops a bucket.
pub passed-le :
    (key : String) (rl : RateLimiter) (es : List Event) (t u : ℕ)
    → rl.burst * scale rl ≤ stale_after * rl.num
    → IsSeen t key rl
    → IsTimed t u es
    → passed key rl es * scale rl ≤ rl.burst * scale rl + (u - t) * rl.num
passed-le key rl es t u h s i = omega (
  arith,
  passed-level key rl.num rl.den rl.burst rl es t u (refl, refl, refl) h s i,
  level-le rl key t,
)
