-- ===== src/RateLimiter/Level.antt =====
-- What `Allow` does to the tokens of each key.
use inferencia.Common.{
  ℕ, ◌+◌, ◌-◌, ◌*◌, ◌/◌, ◌≤◌, ◌<◌, ◌≡◌, sym, ◌∙◌, ◌≢◌, ◌⊎◌, inl, inr, String, true, false, none,
  some, List, [], ◌∷◌, arith, map, if◌then◌else◌, ◌==◌, eq_iff, ltb, get, put, get-put, get-put_ne,
  get-put_self, In, Distinct, Bool-cases, Option-cases,
}
use mathlib.Core.Bool.{false≢true}
use inferencia.RateLimiter.{Bucket, RateLimiter, scale, bucket_of, refill, allow}

-- The units that `key` has at the time `now`.
unfoldable pub level : RateLimiter → String → ℕ → ℕ
unfolding bucket_of refill
level rl key now = refill rl (bucket_of rl key now) now

abbrev pub keys : List (String × Bucket) → List String
keys = map (λ (e : String × Bucket). e.0)

-- The bucket of `key` was last seen by the time `t`, and no key has two buckets.
pub record IsSeen (t : ℕ) (key : String) (rl : RateLimiter) : Type 0 where
  pub seen : (b : Bucket) → get key rl.buckets ≡ some b → b.last_seen ≤ t
  pub distinct : Distinct (keys rl.buckets)

pub level-le : (rl : RateLimiter) (key : String) (now : ℕ) → level rl key now ≤ rl.burst * scale rl
unfolding level
level-le rl key now = omega arith

pub no_time : (t n : ℕ) → (t - t) * n ≡ 0
no_time t n = grind arith

pub grow : (a t u n : ℕ) → a ≤ t → t ≤ u → (u - a) * n ≡ (t - a) * n + (u - t) * n
grow a t u n h k = grind arith

-- Time adds `num` units a nanosecond at most.
pub level-grows :
    (rl : RateLimiter) (key : String) (t u : ℕ)
    → IsSeen t key rl
    → t ≤ u
    → level rl key u ≤ level rl key t + (u - t) * rl.num
unfolding level
level-grows rl key t u s h = elim (Option-cases (get key rl.buckets)) [
  | inl e ↦ rw (e, bucket_of) omega arith
  | inr (b, e) ↦
      rw (e, bucket_of) omega (arith, s.seen b e, grow b.last_seen t u rl.num (s.seen b e) h)
]

-- The limiter after `key`'s bucket was set to `tokens` units, seen at `now`.
abbrev stored : RateLimiter → String → ℕ → ℕ → RateLimiter
stored rl key tokens now = record rl {
  buckets = put key (record { tokens = tokens; last_seen = now }) rl.buckets;
}

-- `Allow` on either branch.
pub allow_cases :
    (rl : RateLimiter) (key : String) (now : ℕ)
    → ((level rl key now < scale rl)
        × (allow rl key now ≡ ((0, false), stored rl key (level rl key now) now)))
      ⊎ ((scale rl ≤ level rl key now)
          × (allow rl key now ≡ (
            ((level rl key now - scale rl) / scale rl, true),
            stored rl key (level rl key now - scale rl) now,
          )))
unfolding level allow
allow_cases rl key now = elim (Bool-cases (ltb (refill rl (bucket_of rl key now) now) (scale rl))) [
  | inl low ↦ inl (ground arith, rw low)
  | inr high ↦ inr (ground arith, rw high)
]

level-stored_self :
    (rl : RateLimiter) (key : String) (tokens now : ℕ)
    → tokens ≤ rl.burst * scale rl
    → level (stored rl key tokens now) key now ≡ tokens
unfolding level
level-stored_self rl key tokens now h =
    rw (bucket_of, get-put_self key (record { tokens = tokens; last_seen = now }) rl.buckets)
      (omega (arith, no_time now rl.num))

level-stored_ne :
    (rl : RateLimiter) (key other : String) (tokens now u : ℕ)
    → key ≢ other
    → level (stored rl key tokens now) other u ≡ level rl other u
unfolding level
level-stored_ne rl key other tokens now u h =
    rw (bucket_of, get-put_ne key other (record { tokens = tokens; last_seen = now }) rl.buckets h)

-- The key's own request takes a token if it passes, and nothing if it does not.
pub level-allow_self :
    (rl : RateLimiter) (key : String) (now : ℕ)
    → level (allow rl key now).1 key now + (if (allow rl key now).0.1 then scale rl else 0)
      ≡ level rl key now
level-allow_self rl key now = elim (allow_cases rl key now) [
  | inl (low, e) ↦
      rw e (omega (arith, level-stored_self rl key (level rl key now) now (level-le rl key now)))
  | inr (high, e) ↦ rw e (
      omega
        (arith, level-le rl key now, level-stored_self rl key (level rl key now - scale rl) now))
]

-- A call of Allow for one key leaves the tokens of every other key alone, whatever its outcome.
pub level-allow_ne :
    (rl : RateLimiter) (key other : String) (now u : ℕ)
    → key ≢ other
    → level (allow rl key now).1 other u ≡ level rl other u
level-allow_ne rl key other now u h = elim (allow_cases rl key now) [
  | inl (low, e) ↦ rw e (level-stored_ne rl key other (level rl key now) now u h)
  | inr (high, e) ↦ rw e (level-stored_ne rl key other (level rl key now - scale rl) now u h)
]

In-keys-put :
    (key other : String) (b : Bucket) (m : List (String × Bucket))
    → In other (keys (put key b m))
    → (other ≡ key) ⊎ In other (keys m)
In-keys-put key other b [] m = ground arith
In-keys-put key other b ((k, c) ∷ r) m = ground (arith, In-keys-put key other b r, eq_iff k key)

put-Distinct :
    (key : String) (b : Bucket) (m : List (String × Bucket))
    → Distinct (keys m)
    → Distinct (keys (put key b m))
put-Distinct key b [] d = ((λ h. h), tt)
put-Distinct key b ((k, c) ∷ m) d = elim (Bool-cases (k == key)) [
  | inl same ↦ rw (same, ← (eq_iff k key).0 same) d
  | inr other ↦ rw other (
    (λ h. elim (In-keys-put key k b m h) [
      | inl e ↦ false≢true (sym other ∙ (eq_iff k key).1 e)
      | inr later ↦ d.0 later
    ]),
    put-Distinct key b m d.1,
  )
]

stored-IsSeen :
    (rl : RateLimiter) (key other : String) (tokens t now : ℕ)
    → t ≤ now
    → IsSeen t other rl
    → IsSeen now other (stored rl key tokens now)
stored-IsSeen rl key other tokens t now h s = record {
  seen = λ b e.
      ground (
        arith,
        get-put key other (record { tokens = tokens; last_seen = now }) rl.buckets,
        s.seen b,
      );
  distinct = put-Distinct key _ rl.buckets s.distinct;
}

pub allow-IsSeen :
    (rl : RateLimiter) (key other : String) (t now : ℕ)
    → t ≤ now
    → IsSeen t other rl
    → IsSeen now other (allow rl key now).1
allow-IsSeen rl key other t now h s = elim (allow_cases rl key now) [
  | inl (low, e) ↦ rw e (stored-IsSeen rl key other (level rl key now) t now h s)
  | inr (high, e) ↦ rw e (stored-IsSeen rl key other (level rl key now - scale rl) t now h s)
]

-- Time takes no tokens.
pub level_mono :
    (rl : RateLimiter) (key : String) (t u : ℕ)
    → IsSeen t key rl
    → t ≤ u
    → level rl key t ≤ level rl key u
unfolding level
level_mono rl key t u s h = elim (Option-cases (get key rl.buckets)) [
  | inl e ↦ rw (e, bucket_of) (omega (arith, no_time t rl.num, no_time u rl.num))
  | inr (b, e) ↦
      rw (e, bucket_of) (omega (arith, s.seen b e, grow b.last_seen t u rl.num (s.seen b e) h))
]

pub level_absent :
    (rl : RateLimiter) (key : String) (now : ℕ)
    → get key rl.buckets ≡ none
    → level rl key now ≡ rl.burst * scale rl
unfolding level
level_absent rl key now e = rw (e, bucket_of) (omega (arith, no_time now rl.num))
