-- ===== src/RateLimiter/Stopping.antt =====
-- The goroutine of the limiter, and `Stop`: `stopOnce` runs its function once, and closing a closed
-- channel panics.
use inferencia.Common.{
  ℕ, ◌≡◌, refl, sym, ◌∙◌, ◌⊎◌, inl, inr, String, Bool, true, false, Option, none, some,
  if◌then◌else◌, Bool-cases,
}
use mathlib.Core.Option.{some-injective}
use inferencia.RateLimiter.{RateLimiter, allow, cleanup}

pub record Service : Type 0 where
  pub limiter : RateLimiter
  pub once : Bool
  pub closed : Bool
  pub loop : Bool

-- `NewRateLimiter` starts the goroutine.
unfoldable pub serve : RateLimiter → Service
serve rl = record { limiter = rl; once = false; closed = false; loop = true }

abbrev close : Service → Option Service
close s = if s.closed then none else some (record s { closed = true })

-- No result if it panics.
unfoldable pub stop : Service → Option Service
stop s = if s.once then some s else close (record s { once = true })

pub data Step (s : Service) : Service → Type 0 where
  allows : (key : String) (now : ℕ) → Step s (record s { limiter = (allow s.limiter key now).1 })
  cleans : (now : ℕ) → s.loop ≡ true → Step s (record s { limiter = cleanup s.limiter now })
  stops : {s' : Service} → stop s ≡ some s' → Step s s'
  returns : s.closed ≡ true → s.loop ≡ true → Step s (record s { loop = false })

pub data Reach (s : Service) : Service → Type 0 where
  here : Reach s s
  next : {h k : Service} → Reach s h → Step h k → Reach s k

-- The channel is closed exactly if `Stop` has run.
abbrev AsClosed : Service → Type 0
AsClosed s = s.once ≡ s.closed

stop_of :
    (rl : RateLimiter) (once closed loop : Bool)
    → once ≡ closed
    → stop (record { limiter = rl; once = once; closed = closed; loop = loop })
      ≡ some (record { limiter = rl; once = true; closed = true; loop = loop })
unfolding stop
stop_of rl true true loop e = refl
stop_of rl false false loop e = refl
stop_of rl true false loop e = absurd cc
stop_of rl false true loop e = absurd cc

stop_lem : (s : Service) → AsClosed s → stop s ≡ some (record s { once = true; closed = true })
stop_lem s e = stop_of s.limiter s.once s.closed s.loop e

Step-AsClosed : (s s' : Service) → Step s s' → AsClosed s → AsClosed s'
Step-AsClosed s s' (allows key now) e = e
Step-AsClosed s s' (cleans now runs) e = e
Step-AsClosed s s' (stops stopped) e =
    let same : record s { once = true; closed = true } ≡ s' =
      some-injective _ _ (sym (stop_lem s e) ∙ stopped) in
    rw (← same) refl
Step-AsClosed s s' (returns closed runs) e = e

Reach-AsClosed : (s s' : Service) → Reach s s' → AsClosed s → AsClosed s'
Reach-AsClosed s s' here e = e
Reach-AsClosed s s' (next r step) e = Step-AsClosed _ _ step (Reach-AsClosed _ _ r e)

-- At any moment of a limiter's life, `Stop` does not panic, however often it has run before: it leaves
-- the channel closed and the buckets as they were, a further `Stop` changes nothing, and the goroutine
-- can return if it still runs.
pub stop-IsSafe :
    (rl : RateLimiter) (s : Service)
    → Reach (serve rl) s
    → (s' : Service) × (stop s ≡ some s')
      × (s'.closed ≡ true)
      × (s'.limiter ≡ s.limiter)
      × (stop s' ≡ some s')
      × ((s.loop ≡ false) ⊎ Step s' (record s' { loop = false }))
unfolding serve
stop-IsSafe rl s r =
    let s' : Service = record s { once = true; closed = true } in
    (
      s',
      stop_lem s (Reach-AsClosed _ s r refl),
      refl,
      refl,
      stop_lem s' refl,
      elim (Bool-cases s.loop) [ inl runs ↦ inr (returns refl runs) | inr over ↦ inl over ],
    )
