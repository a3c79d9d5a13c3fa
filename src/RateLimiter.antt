-- ===== src/RateLimiter.antt =====
-- internal/middleware/ratelimit.go: the limiter. The rate is a fraction, `num / den` tokens a second,
-- as every finite float is, and a bucket counts in units of 1 / (den * 10^9) tokens: then the refill
-- of a nanosecond is `num` units, and the arithmetic is exact where the code rounds to float64.
-- Times are nanoseconds of the monotonic clock that Go's `time.Now` carries, so they do not fall.
pub mod Level
pub mod Cleanup
pub mod Window
pub mod Burst
pub mod Tokens
pub mod Refinement
pub mod Stopping
mod Tests
use Prim.Native.Nat.{min}
use inferencia.Common.{
  ℕ, suc, ◌+◌, ◌-◌, ◌*◌, ◌/◌, ◌^◌, String, Bool, true, false, not, Option, none, some, List, [],
  ◌∷◌, if◌then◌else◌, ltb, get, put, ℤ, pos, negsuc, leb_ℤ, ltb_ℤ,
}

pub record Bucket : Type 0 where
  pub tokens : ℕ
  pub last_seen : ℕ

pub record RateLimiter : Type 0 where
  pub buckets : List (String × Bucket)
  pub num : ℕ
  pub den : ℕ
  pub burst : ℕ

-- The units of one token.
abbrev pub scale : RateLimiter → ℕ
scale rl = rl.den * 10 ^ 9

abbrev positive_part : ℤ → ℕ
positive_part (pos n) = n
positive_part (negsuc n) = 0

-- `rps` is the fraction `num / suc den_pred`.
unfoldable pub new_rate_limiter : ℤ → ℕ → ℤ → RateLimiter
new_rate_limiter num den_pred burst = record {
  buckets = [];
  num = if leb_ℤ num (pos 0) then 1 else positive_part num;
  den = if leb_ℤ num (pos 0) then 1 else suc den_pred;
  burst = if ltb_ℤ burst (pos 1) then 1 else positive_part burst;
}

-- The bucket of the key, made full if there is none.
bucket_of : RateLimiter → String → ℕ → Bucket
bucket_of rl key now = elim (get key rl.buckets) [
  | none ↦ record { tokens = rl.burst * scale rl; last_seen = now }
  | some b ↦ b
]

-- The tokens after the refill.
refill : RateLimiter → Bucket → ℕ → ℕ
refill rl b now = min (rl.burst * scale rl) (b.tokens + (now - b.last_seen) * rl.num)

-- The remaining count, whether the request may pass, and the limiter afterwards.
unfoldable pub allow : RateLimiter → String → ℕ → (ℕ × Bool) × RateLimiter
unfolding bucket_of refill
allow rl key now =
    let tokens = refill rl (bucket_of rl key now) now in
    if ltb tokens (scale rl)
    then (
      (0, false),
      record rl { buckets = put key (record { tokens = tokens; last_seen = now }) rl.buckets },
    )
    else (
      ((tokens - scale rl) / scale rl, true),
      record rl {
        buckets = put key (record { tokens = tokens - scale rl; last_seen = now }) rl.buckets;
      },
    )

-- Ten minutes.
abbrev pub stale_after : ℕ
stale_after = 600 * 10 ^ 9

drop_stale : ℕ → List (String × Bucket) → List (String × Bucket)
drop_stale now [] = []
drop_stale now ((key, b) ∷ bs) =
    let rest = drop_stale now bs in
    if ltb (b.last_seen + stale_after) now then rest else (key, b) ∷ rest

-- One tick of `cleanup`.
unfoldable pub cleanup : RateLimiter → ℕ → RateLimiter
unfolding drop_stale
cleanup rl now = record rl { buckets = drop_stale now rl.buckets }
