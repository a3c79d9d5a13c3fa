-- ===== src/RateLimiter/Cleanup.antt =====
-- What a tick of `cleanup` does to the tokens of each key.
use inferencia.Common.{
  ℕ, ◌+◌, ◌-◌, ◌*◌, ◌≤◌, ◌<◌, ◌≡◌, refl, sym, inl, inr, String, Bool, true, Option, none, some,
  List, [], ◌∷◌, arith, if◌then◌else◌, ◌==◌, eq_iff, ltb, ltb→lt, get, In, Distinct, Bool-cases,
  Option-cases,
}
use inferencia.RateLimiter.{Bucket, RateLimiter, scale, bucket_of, stale_after, drop_stale, cleanup}
use inferencia.RateLimiter.Level.{level, keys, IsSeen, no_time}

-- Whether `b` is dropped at `now`.
abbrev is_stale : Bucket → ℕ → Bool
is_stale b now = ltb (b.last_seen + stale_after) now

-- What is left of a lookup.
abbrev surviving : Option Bucket → ℕ → Option Bucket
surviving none now = none
surviving (some b) now = if is_stale b now then none else some b

get_absent : (key : String) (m : List (String × Bucket)) → ¬ In key (keys m) → get key m ≡ none
get_absent key [] h = refl
get_absent key ((k, b) ∷ m) h = elim (Bool-cases (k == key)) [
  | inl same ↦ absurd (h (inl (sym ((eq_iff k key).0 same))))
  | inr other ↦ rw other (get_absent key m (λ later. h (inr later)))
]

get-drop_stale :
    (now : ℕ) (key : String) (m : List (String × Bucket))
    → Distinct (keys m)
    → get key (drop_stale now m) ≡ surviving (get key m) now
unfolding drop_stale
get-drop_stale now key [] d = refl
get-drop_stale now key ((k, b) ∷ m) d = elim (Bool-cases (k == key)) [
  | inl same ↦
      let gone = get_absent key m (rw ((eq_iff k key).0 same) at d.0) in
      ground (arith, get-drop_stale now key m d.1)
  | inr other ↦ ground (arith, get-drop_stale now key m d.1)
]

long_ago : (a now n : ℕ) → a + stale_after < now → stale_after * n ≤ (now - a) * n
long_ago a now n h = grind arith

-- Where ten minutes refill a whole burst, `cleanup` drops only buckets that are full by then.
pub level-cleanup :
    (rl : RateLimiter) (key : String) (t now : ℕ)
    → rl.burst * scale rl ≤ stale_after * rl.num
    → IsSeen t key rl
    → level (cleanup rl now) key now ≡ level rl key now
unfolding level cleanup
level-cleanup rl key t now h s = elim (Option-cases (get key rl.buckets)) [
  | inl e ↦ rw (bucket_of, get-drop_stale now key rl.buckets s.distinct, e)
  | inr (b, e) ↦ elim (Bool-cases (is_stale b now)) [
    | inl stale ↦
        rw (bucket_of, get-drop_stale now key rl.buckets s.distinct, e, stale)
          (omega (arith, h, no_time now rl.num, long_ago b.last_seen now rl.num (ltb→lt _ _ stale)))
    | inr fresh ↦ rw (bucket_of, get-drop_stale now key rl.buckets s.distinct, e, fresh)
  ]
]

keys-drop_stale :
    (now : ℕ) (key : String) (m : List (String × Bucket))
    → In key (keys (drop_stale now m))
    → In key (keys m)
unfolding drop_stale
keys-drop_stale now key [] h = h
keys-drop_stale now key ((k, b) ∷ m) h = ground (arith, keys-drop_stale now key m)

drop_stale-Distinct :
    (now : ℕ) (m : List (String × Bucket)) → Distinct (keys m) → Distinct (keys (drop_stale now m))
unfolding drop_stale
drop_stale-Distinct now [] d = tt
drop_stale-Distinct now ((k, b) ∷ m) d = elim (Bool-cases (is_stale b now)) [
  | inl stale ↦ rw stale (drop_stale-Distinct now m d.1)
  | inr fresh ↦ rw fresh (λ h. d.0 (keys-drop_stale now k m h), drop_stale-Distinct now m d.1)
]

pub cleanup-IsSeen :
    (rl : RateLimiter) (key : String) (t now : ℕ)
    → t ≤ now
    → IsSeen t key rl
    → IsSeen now key (cleanup rl now)
unfolding cleanup
cleanup-IsSeen rl key t now h s = record {
  seen = λ b e. ground (arith, get-drop_stale now key rl.buckets s.distinct, s.seen b);
  distinct = drop_stale-Distinct now rl.buckets s.distinct;
}

-- Where ten minutes do not refill a burst, the cleanup gives tokens away: whatever bucket it drops
-- that was not full again makes its key start with a full burst.
pub cleanup_refills_early :
    (rl : RateLimiter) (key : String) (b : Bucket) (t now : ℕ)
    → IsSeen t key rl
    → get key rl.buckets ≡ some b
    → b.last_seen + stale_after < now
    → b.tokens + (now - b.last_seen) * rl.num < rl.burst * scale rl
    → (level rl key now < rl.burst * scale rl)
      × (level (cleanup rl now) key now ≡ rl.burst * scale rl)
unfolding level cleanup
cleanup_refills_early rl key b t now s e old low = (
  rw (bucket_of, e) (omega (arith, low)),
  rw (bucket_of, get-drop_stale now key rl.buckets s.distinct, e, stale)
      (omega (arith, no_time now rl.num)),
)
  where
    stale : is_stale b now ≡ true
    stale = ground arith
