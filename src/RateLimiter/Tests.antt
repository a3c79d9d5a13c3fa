-- ===== src/RateLimiter/Tests.antt =====
-- Ten requests a second with bursts of twenty, the default; and a rate of one request an hour.
use inferencia.Common.{
  ℕ, ◌+◌, ◌-◌, ◌*◌, ◌^◌, ◌≤◌, ◌<◌, ◌≡◌, refl, List, [], ◌∷◌, arith, map, String, pos, true, false,
  some, ◌⊎◌,
}
use inferencia.RateLimiter.Tokens.{answers}
use inferencia.RateLimiter.{Bucket, RateLimiter, new_rate_limiter, scale, allow, cleanup}
use inferencia.RateLimiter.Level.{level, IsSeen}
use inferencia.RateLimiter.Cleanup.{cleanup_refills_early}
use inferencia.RateLimiter.Window.{Event, request, tick, passed, passed-le}
use inferencia.RateLimiter.Burst.{passed_burst}
use inferencia.RateLimiter.Stopping
use inferencia.RateLimiter.Stopping.{Service, serve, Step, here, next, cleans, stops, stop-IsSafe}

abbrev ten : RateLimiter
ten = record { buckets = []; num = 10; den = 1; burst = 20 }

abbrev second : ℕ
second = 10 ^ 9

ten-IsSeen : IsSeen 0 "sk" ten
ten-IsSeen = record { seen = λ b e. ground arith; distinct = tt }

abbrev traffic : List Event
traffic = request "sk" 5 ∷ request "other" 5 ∷ tick 6 ∷ request "sk" second ∷ []

passed-le_example : passed "sk" ten traffic * second ≤ 20 * second + (2 * second - 0) * 10
passed-le_example = passed-le "sk" ten traffic 0 (2 * second) (omega arith) ten-IsSeen (omega arith)

passed_burst_example : passed "sk" ten (map (request "sk") (3 ∷ 3 ∷ 4 ∷ [])) ≡ 3
passed_burst_example =
    passed_burst ten "sk" 0 (3 ∷ 3 ∷ 4 ∷ []) ten-IsSeen refl (omega arith) (omega arith)

-- One request an hour: an empty bucket is no fuller than a sixth of a token after ten minutes.
abbrev empty_bucket : Bucket
empty_bucket = record { tokens = 0; last_seen = 0 }

abbrev hourly : RateLimiter
hourly = record { buckets = ("sk", empty_bucket) ∷ []; num = 1; den = 3600; burst = 20 }

hourly-IsSeen : IsSeen 0 "sk" hourly
hourly-IsSeen = record { seen = λ b e. ground arith; distinct = ((λ h. h), tt) }

cleanup_refills_early_example :
    (level hourly "sk" (601 * second) < 20 * scale hourly)
    × (level (cleanup hourly (601 * second)) "sk" (601 * second) ≡ 20 * scale hourly)
cleanup_refills_early_example =
    cleanup_refills_early hourly "sk" empty_bucket 0 (601 * second) hourly-IsSeen refl (omega arith)
      (omega arith)

-- Two requests of one key and one of another, on two tokens a second and bursts of one.
abbrev visits : List (String × ℕ)
visits = ("a", 5) ∷ ("b", 5) ∷ ("a", 300000005) ∷ []

visits_answered :
    answers (new_rate_limiter (pos 2) 0 (pos 1)) visits ≡ (0, true) ∷ (0, true) ∷ (0, false) ∷ []
unfolding answers allow new_rate_limiter
visits_answered = refl

-- The limiter after a tick and a first `Stop`.
abbrev stopped : Service
stopped = record { limiter = cleanup ten 5; once = true; closed = true; loop = true }

stop-IsSafe_example :
    (s' : Service) × (Stopping.stop stopped ≡ some s')
    × (s'.closed ≡ true)
    × (s'.limiter ≡ stopped.limiter)
    × (Stopping.stop s' ≡ some s')
    × ((stopped.loop ≡ false) ⊎ Step s' (record s' { loop = false }))
unfolding serve Stopping.stop
stop-IsSafe_example = stop-IsSafe ten stopped (next (next here (cleans 5 refl)) (stops refl))
