-- ===== src/Config/Validation.antt =====
-- What `validate` accepts.
use inferencia.Common.{
  ℕ, suc, ◌≤◌, ◌≡◌, refl, ◌≢◌, ◌↔◌, String, Bool, true, false, not, ◌&&◌, ◌||◌, List, [], ◌∷◌, ◌++◌,
  ◌==◌, arith, eq_iff, any, In, All, ltb_ℤ, ℤ, pos, negsuc,
}
use inferencia.Config.{
  Config, Backend, at_most_zero, Error, name_required, type_required, url_required, check, levels,
  formats, cloud_formats, is_nil, backend_errors, validate_backends, join, rate_not_positive,
  burst_too_small, validate,
}

-- An integer between two bounds.
abbrev pub IsBetween : ℕ → ℕ → ℤ → Type 0
IsBetween low high (pos n) = low ≤ n × n ≤ high
IsBetween low high (negsuc n) = ⊥

abbrev pub IsAtLeastOne : ℤ → Type 0
IsAtLeastOne (pos n) = 1 ≤ n
IsAtLeastOne (negsuc n) = ⊥

abbrev pub IsComplete : Backend → Type 0
IsComplete b = (b.name ≢ "") × (b.type ≢ "") × (b.url ≢ "")

-- The rules of `validate`, as a description.
pub record IsValid (cfg : Config) : Type 0 where
  pub port : IsBetween 1 65535 cfg.server.port
  pub some_backend : cfg.backends ≢ []
  pub complete : All IsComplete cfg.backends
  pub rate : at_most_zero cfg.ratelimit.requests_per_second ≡ false
  pub burst : IsAtLeastOne cfg.ratelimit.burst
  pub level : In cfg.log.level levels
  pub format : In cfg.log.format formats
  pub cloud_format : In cfg.log.cloud_format cloud_formats
  pub endpoint : cfg.observability.otel_enabled ≡ true → cfg.observability.otel_endpoint ≢ ""

check-nil_iff :
    (b : Bool) (e : Error) (es : List Error) → (check b e ++ es ≡ []) ↔ ((b ≡ false) × (es ≡ []))
check-nil_iff true e es = ((λ h. cc), (λ h. cc))
check-nil_iff false e es = ((λ h. (refl, h)), (λ h. h.1))

-- One check and those after it.
joined_iff :
    (b : Bool) (e : Error) (es : List Error) {P Q : Type 0}
    → (b ≡ false) ↔ P
    → (es ≡ []) ↔ Q
    → (check b e ++ es ≡ []) ↔ (P × Q)
joined_iff b e es p q = (
  (λ h. let (hb, hes) = (check-nil_iff b e es).0 h in (p.0 hb, q.0 hes)),
  (λ h. (check-nil_iff b e es).1 (p.1 h.0, q.1 h.1)),
)

-- The errors of a list, and those after it.
append_iff :
    (es fs : List Error) {P Q : Type 0} → (es ≡ []) ↔ P → (fs ≡ []) ↔ Q → (es ++ fs ≡ []) ↔ (P × Q)
append_iff [] fs p q = ((λ h. (p.0 refl, q.0 h)), (λ h. q.1 h.1))
append_iff (e ∷ es) fs p q = ((λ h. cc), (λ h. let nil = p.1 h.0 in cc))

In_iff : (s : String) (ts : List String) → (not (any (◌==◌ s) ts) ≡ false) ↔ In s ts
In_iff s [] = ((λ h. cc), (λ h. absurd h))
In_iff s (t ∷ ts) = ground (arith, eq_iff s t, In_iff s ts)

port_iff : (i : ℤ) → (ltb_ℤ i (pos 1) || ltb_ℤ (pos 65535) i ≡ false) ↔ IsBetween 1 65535 i
port_iff (pos n) = ground arith
port_iff (negsuc n) = ((λ h. cc), (λ h. absurd h))

burst_iff : (i : ℤ) → (ltb_ℤ i (pos 1) ≡ false) ↔ IsAtLeastOne i
burst_iff (pos n) = ground arith
burst_iff (negsuc n) = ((λ h. cc), (λ h. absurd h))

empty_iff : (s : String) → ((s == "") ≡ false) ↔ (s ≢ "")
empty_iff s = ground (arith, eq_iff s "")

nil_iff : (bs : List Backend) → (is_nil bs ≡ false) ↔ (bs ≢ [])
nil_iff [] = ((λ h. cc), (λ h. absurd (h refl)))
nil_iff (b ∷ bs) = ((λ h e. cc), (λ h. refl))

end_iff : (join [] ≡ []) ↔ Unit {0}
end_iff = ((λ h. tt), (λ h. refl))

backends_iff : (i : ℕ) (bs : List Backend) → (validate_backends i bs ≡ []) ↔ All IsComplete bs
unfolding validate_backends
backends_iff i [] = ((λ h. tt), (λ h. refl))
backends_iff i (b ∷ bs) =
    let first = joined_iff (b.name == "") (name_required i) _ (empty_iff b.name) (
      joined_iff (b.type == "") (type_required i) _ (empty_iff b.type)
        (joined_iff (b.url == "") (url_required i) _ (empty_iff b.url) end_iff)) in
    let step = append_iff (backend_errors i b) _ first (backends_iff (suc i) bs) in
    (
      (λ h. let ((name, (type, (url, _))), rest) = step.0 h in ((name, type, url), rest)),
      (λ h. step.1 ((h.0.0, (h.0.1, (h.0.2, tt))), h.1)),
    )

endpoint_iff : (b : Bool) (s : String) → (b && (s == "") ≡ false) ↔ (b ≡ true → s ≢ "")
endpoint_iff true s = ground (arith, eq_iff s "")
endpoint_iff false s = ((λ h e. cc), (λ h. refl))

-- `validate` reports nothing exactly when the configuration is valid: the port is from 1 to 65535,
-- there is a backend, every backend has a name, a type and a URL, the rate is not at most 0, the
-- burst is at least 1, the level and the formats are among those listed, and tracing that is
-- enabled has an endpoint.
pub validate-nil_iff : (cfg : Config) → (validate cfg ≡ []) ↔ IsValid cfg
unfolding validate
validate-nil_iff cfg =
    let rules = joined_iff _ _ _ (port_iff cfg.server.port) (
      joined_iff _ _ _ (nil_iff cfg.backends) (
        append_iff _ _ (backends_iff 0 cfg.backends) (
          joined_iff _ rate_not_positive _ ((λ h. h), (λ h. h))
            (joined_iff _ burst_too_small _ (burst_iff cfg.ratelimit.burst) (
              joined_iff _ _ _ (In_iff cfg.log.level levels) (
                joined_iff _ _ _ (In_iff cfg.log.format formats) (
                  joined_iff _ _ _ (In_iff cfg.log.cloud_format cloud_formats) (
                    joined_iff _ _ _
                      (endpoint_iff cfg.observability.otel_enabled cfg.observability.otel_endpoint)
                      end_iff)))))))) in
    (
      (λ h.
          let (
            port,
            (
              some_backend,
              (complete, (rate, (burst, (level, (format, (cloud_format, (endpoint, _))))))),
            ),
          ) =
            rules.0 h in
          record {
            port = port;
            some_backend = some_backend;
            complete = complete;
            rate = rate;
            burst = burst;
            level = level;
            format = format;
            cloud_format = cloud_format;
            endpoint = endpoint;
          }),
      (λ v. rules.1 (
        v.port,
        (
          v.some_backend,
          (
            v.complete,
            (v.rate, (v.burst, (v.level, (v.format, (v.cloud_format, (v.endpoint, tt)))))),
          ),
        ),
      )),
    )
