-- ===== src/RateLimiter/Tokens.antt =====
-- A limiter that keeps the tokens of every key at all times, and one step of the two limiters.
use Prim.Native.Nat.{min}
use inferencia.Common.{
  ℕ, ◌+◌, ◌-◌, ◌*◌, ◌/◌, ◌≤◌, ◌<◌, ◌≡◌, refl, ap, ◌∙◌, ◌≢◌, inl, inr, String, Bool, true, false,
  List, [], ◌∷◌, arith, if◌then◌else◌, ◌==◌, eq_iff, ltb, get, Bool-cases, Option-cases,
}
use inferencia.RateLimiter.{RateLimiter, scale, bucket_of, allow}
use inferencia.RateLimiter.Level.{
  level, IsSeen, allow_cases, level-allow_self, level-allow_ne, allow-IsSeen, no_time, grow,
}

-- The units that every key has at the time `now`.
pub record Tokens : Type 0 where
  pub now : ℕ
  pub of : String → ℕ

module _ (num unit cap : ℕ) where
  -- All keys are refilled, and then the key pays if it can.
  abbrev pub refilled : Tokens → ℕ → String → ℕ
  refilled s u key = min cap (s.of key + (u - s.now) * num)

  unfoldable pub allow_tokens : Tokens → String → ℕ → (ℕ × Bool) × Tokens
  allow_tokens s key u =
      if ltb (refilled s u key) unit then ((0, false), record { now = u; of = refilled s u }) else (
        ((refilled s u key - unit) / unit, true),
        record {
          now = u;
          of = λ other. if key == other then refilled s u other - unit else refilled s u other;
        },
      )

  unfoldable pub answers_tokens : Tokens → List (String × ℕ) → List (ℕ × Bool)
  answers_tokens s [] = []
  answers_tokens s ((key, u) ∷ rs) =
      let (answer, s') = allow_tokens s key u in answer ∷ answers_tokens s' rs

-- The answers to requests of keys at times.
unfoldable pub answers : RateLimiter → List (String × ℕ) → List (ℕ × Bool)
answers rl [] = []
answers rl ((key, u) ∷ rs) = let (answer, rl') = allow rl key u in answer ∷ answers rl' rs

level-later :
    (rl : RateLimiter) (key : String) (t u : ℕ)
    → IsSeen t key rl
    → t ≤ u
    → level rl key u ≡ min (rl.burst * scale rl) (level rl key t + (u - t) * rl.num)
unfolding level
level-later rl key t u s h = elim (Option-cases (get key rl.buckets)) [
  | inl e ↦ rw (e, bucket_of) (omega (arith, no_time t rl.num, no_time u rl.num))
  | inr (b, e) ↦
      rw (e, bucket_of) (omega (arith, s.seen b e, grow b.last_seen t u rl.num (s.seen b e) h))
]

module _ (num unit cap : ℕ) where
  -- The limiter has the rate, the unit and the capacity, and every key the tokens that it should.
  pub record Simulates (s : Tokens) (rl : RateLimiter) : Type 0 where
    pub rate : rl.num ≡ num
    pub token : scale rl ≡ unit
    pub capacity : rl.burst * scale rl ≡ cap
    pub tokens : (key : String) → level rl key s.now ≡ s.of key
    pub seen : (key : String) → IsSeen s.now key rl

  module _ (s : Tokens) (rl : RateLimiter) (sim : Simulates s rl) (u : ℕ) (h : s.now ≤ u) where
    level-refilled : (key : String) → level rl key u ≡ refilled num unit cap s u key
    level-refilled key = omega (
      arith,
      level-later rl key s.now u (sim.seen key) h,
      ap (λ n. (u - s.now) * n) sim.rate,
      sim.capacity,
      sim.tokens key,
    )

    module _ (key : String) where
      rule_kept :
          ((allow rl key u).1.num ≡ num)
          × (scale (allow rl key u).1 ≡ unit)
          × ((allow rl key u).1.burst * scale (allow rl key u).1 ≡ cap)
      rule_kept = elim (allow_cases rl key u) [
        | inl (low, e) ↦ rw e (sim.rate, sim.token, sim.capacity)
        | inr (high, e) ↦ rw e (sim.rate, sim.token, sim.capacity)
      ]

      others_kept :
          (other : String)
          → key ≢ other
          → level (allow rl key u).1 other u ≡ refilled num unit cap s u other
      others_kept other ne = level-allow_ne rl key other u u ne ∙ level-refilled other

      simulated :
          (s' : Tokens)
          → s'.now ≡ u
          → ((other : String) → level (allow rl key u).1 other u ≡ s'.of other)
          → Simulates s' (allow rl key u).1
      simulated s' e tokens =
          let (rate, token, capacity) = rule_kept in
          record {
            rate = rate;
            token = token;
            capacity = capacity;
            tokens = λ other. rw e (tokens other);
            seen = λ other. rw e (allow-IsSeen rl key other s.now u h (sim.seen other));
          }

      own_kept :
          (allow rl key u).0.1 ≡ false
          → level (allow rl key u).1 key u ≡ refilled num unit cap s u key
      own_kept p =
          let own = level-allow_self rl key u in omega (arith, rw p at own, level-refilled key)

      own_paid :
          (allow rl key u).0.1 ≡ true
          → level (allow rl key u).1 key u ≡ refilled num unit cap s u key - unit
      own_paid p =
          let own = level-allow_self rl key u in
          omega (arith, rw p at own, level-refilled key, sim.token)

      allow_tokens_poor :
          refilled num unit cap s u key < unit
          → allow_tokens num unit cap s key u
            ≡ ((0, false), record { now = u; of = refilled num unit cap s u })
      unfolding allow_tokens
      allow_tokens_poor low =
          let b : ltb (refilled num unit cap s u key) unit ≡ true = ground arith in rw b

      paid : String → ℕ
      paid other =
          if key == other
          then refilled num unit cap s u other - unit
          else refilled num unit cap s u other

      allow_tokens_rich :
          unit ≤ refilled num unit cap s u key
          → allow_tokens num unit cap s key u
            ≡ (((refilled num unit cap s u key - unit) / unit, true), record { now = u; of = paid })
      unfolding allow_tokens paid
      allow_tokens_rich high =
          let b : ltb (refilled num unit cap s u key) unit ≡ false = ground arith in rw b

      level-kept :
          (allow rl key u).0.1 ≡ false
          → (other : String) → level (allow rl key u).1 other u ≡ refilled num unit cap s u other
      level-kept p other = elim (Bool-cases (key == other)) [
        | inl same ↦ rw (← (eq_iff key other).0 same) (own_kept p)
        | inr ne ↦ others_kept other (λ e. ground (arith, eq_iff key other))
      ]

      level-paid :
          (allow rl key u).0.1 ≡ true
          → (other : String) → level (allow rl key u).1 other u ≡ paid other
      unfolding paid
      level-paid p other = elim (Bool-cases (key == other)) [
        | inl same ↦ rw (same, ← (eq_iff key other).0 same) (own_paid p)
        | inr ne ↦ rw ne (others_kept other (λ e. ground (arith, eq_iff key other)))
      ]

      pub allow_tokens_step :
          ((allow rl key u).0 ≡ (allow_tokens num unit cap s key u).0)
          × Simulates (allow_tokens num unit cap s key u).1 (allow rl key u).1
      allow_tokens_step = elim (allow_cases rl key u) [
        | inl (low, e) ↦
            rw (allow_tokens_poor (omega (arith, sim.token, level-refilled key)))
              (ap (λ r. r.0) e, simulated _ refl (level-kept (ap (λ r. r.0.1) e)))
        | inr (high, e) ↦ rw (allow_tokens_rich (omega (arith, sim.token, level-refilled key))) (
          ap (λ r. r.0) e ∙ rw (sim.token, level-refilled key) refl,
          simulated _ refl (level-paid (ap (λ r. r.0.1) e)),
        )
      ]
