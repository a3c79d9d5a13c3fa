-- ===== src/RateLimiter/Refinement.antt =====
-- The limiter, which refills a bucket when its key is seen again, against one that keeps the tokens
-- of every key at all times.
use inferencia.Common.{ℕ, ◌*◌}
use inferencia.RateLimiter.{RateLimiter, scale}
use inferencia.RateLimiter.Tokens.{Tokens}

-- The limiter as `NewRateLimiter` makes it, and the tokens of all keys at the start: all are full.
abbrev pub full : RateLimiter → ℕ → Tokens
full rl now = record { now = now; of = λ key. rl.burst * scale rl }
