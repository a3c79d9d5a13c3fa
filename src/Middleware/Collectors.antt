-- ===== src/Middleware/Collectors.antt =====
-- The collectors of internal/middleware/metrics.go. The bounds of the buckets are milliseconds, where
-- the code has seconds.
use inferencia.Common.{
  ℕ, ◌≡◌, refl, String, Bool, true, false, not, any, ltb, ◌&&◌, ◌||◌, List, [], ◌∷◌, ◌==◌,
  if◌then◌else◌, join_text, map,
}

pub data Kind : Type 0 where
  counter gauge histogram : Kind

pub record Collector : Type 0 where
  pub kind : Kind
  pub subsystem : String
  pub name : String
  pub buckets : List ℕ
  pub labels : List String

abbrev http_requests_total : Collector
http_requests_total = record {
  kind = counter;
  subsystem = "http";
  name = "requests_total";
  buckets = [];
  labels = "method" ∷ "path" ∷ "status" ∷ [];
}

abbrev http_request_duration : Collector
http_request_duration = record {
  kind = histogram;
  subsystem = "http";
  name = "request_duration_seconds";
  buckets =
      5 ∷ 10 ∷ 25 ∷ 50 ∷ 100 ∷ 250 ∷ 500 ∷ 1000 ∷ 2500 ∷ 5000 ∷ 10000 ∷ 30000 ∷ 60000 ∷ 120000 ∷ [];
  labels = "method" ∷ "path" ∷ [];
}

abbrev http_requests_in_flight : Collector
http_requests_in_flight = record {
  kind = gauge;
  subsystem = "http";
  name = "requests_in_flight";
  buckets = [];
  labels = [];
}

abbrev tokens_total : Collector
tokens_total = record {
  kind = counter;
  subsystem = "";
  name = "tokens_total";
  buckets = [];
  labels = "model" ∷ "type" ∷ [];
}

abbrev backend_health : Collector
backend_health = record {
  kind = gauge;
  subsystem = "";
  name = "backend_healthy";
  buckets = [];
  labels = "backend" ∷ [];
}

abbrev backend_request_duration : Collector
backend_request_duration = record {
  kind = histogram;
  subsystem = "backend";
  name = "request_duration_seconds";
  buckets = 50 ∷ 100 ∷ 250 ∷ 500 ∷ 1000 ∷ 2500 ∷ 5000 ∷ 10000 ∷ 30000 ∷ 60000 ∷ 120000 ∷ [];
  labels = "backend" ∷ "operation" ∷ [];
}

abbrev rate_limit_rejections : Collector
rate_limit_rejections = record {
  kind = counter;
  subsystem = "";
  name = "ratelimit_rejections_total";
  buckets = [];
  labels = [];
}

abbrev tts_requests_total : Collector
tts_requests_total = record {
  kind = counter;
  subsystem = "tts";
  name = "requests_total";
  buckets = [];
  labels = "backend" ∷ "status" ∷ [];
}

abbrev tts_request_duration : Collector
tts_request_duration = record {
  kind = histogram;
  subsystem = "tts";
  name = "request_duration_seconds";
  buckets = 100 ∷ 250 ∷ 500 ∷ 1000 ∷ 2500 ∷ 5000 ∷ 10000 ∷ 30000 ∷ [];
  labels = "backend" ∷ [];
}

abbrev tts_characters_total : Collector
tts_characters_total = record {
  kind = counter;
  subsystem = "tts";
  name = "characters_total";
  buckets = [];
  labels = "backend" ∷ [];
}

abbrev routing_decisions_total : Collector
routing_decisions_total = record {
  kind = counter;
  subsystem = "router";
  name = "decisions_total";
  buckets = [];
  labels = "capability" ∷ "backend" ∷ [];
}

abbrev pub collectors : List Collector
collectors =
    http_requests_total ∷ http_request_duration ∷ http_requests_in_flight ∷ tokens_total
    ∷ backend_health ∷ backend_request_duration ∷ rate_limit_rejections ∷ tts_requests_total
    ∷ tts_request_duration ∷ tts_characters_total ∷ routing_decisions_total ∷ []

-- The name under which the collector is registered, all of them with the namespace `inferencia`.
unfoldable pub full_name : Collector → String
full_name c =
    join_text "inferencia_"
      (if c.subsystem == "" then c.name else join_text c.subsystem (join_text "_" c.name))

-- Registering a name twice panics, and so do bounds that do not increase.
abbrev repeats : List String → Bool
repeats [] = false
repeats (n ∷ ns) = any (λ m. n == m) ns || repeats ns

abbrev increasing : List ℕ → Bool
increasing [] = true
increasing (b ∷ []) = true
increasing (b ∷ c ∷ bs) = ltb b c && increasing (c ∷ bs)

names_repeat : repeats (map full_name collectors) ≡ false
unfolding full_name
names_repeat = refl

buckets_increase : any (λ (c : Collector). not (increasing c.buckets)) collectors ≡ false
buckets_increase = refl
