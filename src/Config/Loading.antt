-- ===== src/Config/Loading.antt =====
-- What the environment does to a configuration, and what `Load` returns.
use inferencia.Common.{
  zero, suc, ◌≡◌, refl, sym, ap, ◌≢◌, inl, inr, String, Char, Bool, true, false, Option, none, some,
  List, [], ◌∷◌, ◌++◌, ◌==◌, arith, eq_iff, All, Bool-cases, if◌then◌else◌, ℤ, pos, negsuc, Result,
  ok, err, atoi,
}
use inferencia.Config.{
  Config, TtsBackend, Watchdog, Float, nan, Error, defaults, validate, validate_backends,
}
use inferencia.Config.Environment.{
  Override, run, parsed, tts_backend_exists, add_tts, set_port, set_threshold, LoadError, overrides,
  apply_env_overrides, verdict, finish, decoded, read_config, load,
}
use inferencia.Config.Validation.{IsValid, IsAtLeastOne, validate-nil_iff}

-- An override keeps a property of the configuration, whatever the variable's value.
abbrev Keeps : (Config → Type 0) → Override → Type 0
Keeps P o = (v : String) (cfg : Config) → P cfg → P (o.1 v cfg)

run_keeps :
    (P : Config → Type 0) (getenv : String → String) (os : List Override)
    → All (Keeps P) os
    → (cfg : Config) → P cfg
    → P (run getenv os cfg)
run_keeps P getenv [] h cfg p = p
run_keeps P getenv (o ∷ os) h cfg p =
    run_keeps P getenv os h.1 (if getenv o.0 == "" then cfg else o.1 (getenv o.0) cfg)
      (elim (Bool-cases (getenv o.0 == "")) [
        | inl e ↦ rw e p
        | inr e ↦ rw e (h.0 (getenv o.0) cfg p)
      ])

run_unset :
    (getenv : String → String) (os : List Override) (cfg : Config)
    → ((name : String) → getenv name ≡ "")
    → run getenv os cfg ≡ cfg
run_unset getenv [] cfg h = refl
run_unset getenv (o ∷ os) cfg h = rw (h o.0) (run_unset getenv os cfg h)

-- No two TTS backends of the list have one name.
abbrev pub IsOnce : List TtsBackend → Type 0
IsOnce [] = Unit {0}
IsOnce (b ∷ bs) = (tts_backend_exists bs b.name ≡ false) × IsOnce bs

exists-snoc :
    (bs : List TtsBackend) (b : TtsBackend) (name : String)
    → tts_backend_exists bs name ≡ false
    → b.name ≢ name
    → tts_backend_exists (bs ++ (b ∷ [])) name ≡ false
exists-snoc [] b name h ne = ground (arith, eq_iff b.name name)
exists-snoc (c ∷ bs) b name h ne = ground (arith, eq_iff c.name name, exists-snoc bs b name)

IsOnce-snoc :
    (bs : List TtsBackend) (b : TtsBackend)
    → IsOnce bs
    → tts_backend_exists bs b.name ≡ false
    → IsOnce (bs ++ (b ∷ []))
IsOnce-snoc [] b h e = (refl, tt)
IsOnce-snoc (c ∷ bs) b h e = elim (Bool-cases (c.name == b.name)) [
  | inl eq ↦ absurd (ground (arith))
  | inr ne ↦ (
    exists-snoc bs b c.name h.0 (ground (arith, eq_iff c.name b.name)),
    IsOnce-snoc bs b h.1 (ground arith),
  )
]

-- No two TTS backends have one name, and the watchdog's threshold is at least 1.
abbrev pub IsSound : Config → Type 0
IsSound cfg = IsOnce cfg.tts_backends × IsAtLeastOne cfg.watchdog.fail_threshold

add_tts-IsSound : (name : String) → Keeps IsSound ("", add_tts name)
add_tts-IsSound name v cfg h = elim (Bool-cases (tts_backend_exists cfg.tts_backends name)) [
  | inl e ↦ rw e h
  | inr e ↦ rw e (IsOnce-snoc cfg.tts_backends _ h.0 e, h.1)
]

parsed-keeps :
    {A : Type 0} (P : Config → Type 0) (o : Option A) (set : A → Config → Config) (cfg : Config)
    → ((a : A) → P cfg → P (set a cfg))
    → P cfg
    → P (parsed o set cfg)
parsed-keeps P none set cfg h p = p
parsed-keeps P (some a) set cfg h p = h a p

set_threshold-IsSound : (n : ℤ) (cfg : Config) → IsSound cfg → IsSound (set_threshold n cfg)
set_threshold-IsSound (pos zero) cfg h = h
set_threshold-IsSound (pos (suc n)) cfg h = (h.0, omega arith)
set_threshold-IsSound (negsuc n) cfg h = h

parses :
    {A : Type 0} (parse : String → Option A) (set : A → Config → Config)
    → ((a : A) (cfg : Config) → IsSound cfg → IsSound (set a cfg))
    → Keeps IsSound ("", λ v. parsed (parse v) set)
parses parse set h v cfg p = parsed-keeps IsSound (parse v) set cfg (λ a. h a cfg) p

abbrev ok_or : Config → Result LoadError Config → Config
ok_or d (ok cfg) = cfg
ok_or d (err e) = d

either_way :
    {P : Type 0} (b : Bool) (x y a : Result LoadError Config)
    → (x ≡ a → P)
    → (y ≡ a → P)
    → (if b then x else y) ≡ a
    → P
either_way true x y a p q h = p h
either_way false x y a p q h = q h

verdict-IsValid :
    (base cfg : Config) (es : List Error)
    → ((es ≡ []) → IsValid base)
    → verdict base es ≡ ok cfg
    → IsValid cfg
verdict-IsValid base cfg [] valid h = rw (sym (ap (ok_or base) h)) (valid refl)
verdict-IsValid base cfg (e ∷ es) valid h = absurd cc

pub defaults-IsValid : validate defaults ≡ []
unfolding defaults validate validate_backends
defaults-IsValid = refl

module _ (lower : Char → Char) (parse_float : String → Option Float)
    (parse_duration : String → Option ℤ) (getenv : String → String) where
  -- The environment without a variable changes nothing.
  pub apply_env_overrides_unset :
      (cfg : Config)
      → ((name : String) → getenv name ≡ "")
      → apply_env_overrides lower parse_float parse_duration getenv cfg ≡ cfg
  unfolding apply_env_overrides
  apply_env_overrides_unset cfg h =
      run_unset getenv (overrides lower parse_float parse_duration) cfg h

  -- If no two TTS backends of the configuration have one name and the watchdog's threshold is at
  -- least 1, both hold after the overrides, whatever the variables' values.
  pub apply_env_overrides-IsSound :
      (cfg : Config)
      → IsSound cfg
      → IsSound (apply_env_overrides lower parse_float parse_duration getenv cfg)
  unfolding apply_env_overrides
  apply_env_overrides-IsSound cfg =
      run_keeps IsSound getenv (overrides lower parse_float parse_duration)
        (
          (λ v c p. p),
          (
            parses atoi set_port (λ a c p. p),
            (
              (λ v c p. p),
              (
                (λ v c p. p),
                (
                  (λ v c p. p),
                  (
                    (λ v c p. p),
                    (
                      (λ v c p. p),
                      (
                        (λ v c p. p),
                        (
                          (λ v c p. p),
                          (
                            parses parse_float _ (λ a c p. p),
                            (
                              parses atoi _ (λ a c p. p),
                              (
                                (λ v c p. p),
                                (
                                  add_tts-IsSound "kokoro",
                                  (
                                    add_tts-IsSound "chatterbox",
                                    (
                                      add_tts-IsSound "misotts",
                                      (
                                        add_tts-IsSound "elevenlabs",
                                        (
                                          parses parse_duration _ (λ a c p. p),
                                          (
                                            parses atoi set_threshold set_threshold-IsSound,
                                            (parses parse_duration _ (λ a c p. p), tt),
                                          ),
                                        ),
                                      ),
                                    ),
                                  ),
                                ),
                              ),
                            ),
                          ),
                        ),
                      ),
                    ),
                  ),
                ),
              ),
            ),
          ),
        )
        cfg

  module _ (read_file : String → Option String) (unmarshal : String → Config → Option Config) where
    finish-IsValid :
        (base cfg : Config)
        → finish lower parse_float parse_duration getenv read_file unmarshal base ≡ ok cfg
        → IsValid cfg
    unfolding finish
    finish-IsValid base cfg =
        let overridden = apply_env_overrides lower parse_float parse_duration getenv base in
        verdict-IsValid overridden cfg (validate overridden) (validate-nil_iff overridden).0

    decoded-IsValid :
        (o : Option Config) (cfg : Config)
        → decoded lower parse_float parse_duration getenv read_file unmarshal o ≡ ok cfg
        → IsValid cfg
    unfolding decoded
    decoded-IsValid none cfg h = absurd cc
    decoded-IsValid (some base) cfg h = finish-IsValid base cfg h

    read_config-IsValid :
        (o : Option String) (cfg : Config)
        → read_config lower parse_float parse_duration getenv read_file unmarshal o ≡ ok cfg
        → IsValid cfg
    unfolding read_config
    read_config-IsValid none cfg h = absurd cc
    read_config-IsValid (some text) cfg h = decoded-IsValid (unmarshal text defaults) cfg h

    -- Whatever the file and the environment hold, a configuration that `load` returns is valid.
    pub load-IsValid :
        (path : String) (cfg : Config)
        → load lower parse_float parse_duration getenv read_file unmarshal path ≡ ok cfg
        → IsValid cfg
    unfolding load
    load-IsValid path cfg =
        either_way (path == "") _ _ (ok cfg) (finish-IsValid defaults cfg)
          (read_config-IsValid (read_file path) cfg)

    -- Without a path and with no variable set, `load` returns the defaults.
    pub load-defaults :
        ((name : String) → getenv name ≡ "")
        → load lower parse_float parse_duration getenv read_file unmarshal "" ≡ ok defaults
    unfolding load finish
    load-defaults h = rw (apply_env_overrides_unset defaults h) (rw defaults-IsValid refl)

IsValid-unchecked :
    (cfg : Config) (w : Watchdog)
    → IsValid cfg
    → IsValid (record cfg {
      ratelimit = record { requests_per_second = nan; burst = cfg.ratelimit.burst };
      watchdog = w;
    })
IsValid-unchecked cfg w v = record {
  port = v.port;
  some_backend = v.some_backend;
  complete = v.complete;
  rate = refl;
  burst = v.burst;
  level = v.level;
  format = v.format;
  cloud_format = v.cloud_format;
  endpoint = v.endpoint;
}

-- `validate` accepts a configuration that it accepts also if its rate becomes NaN and its watchdog
-- section anything, so with an interval of 0, which Go's ticker panics on.
pub validate-unchecked :
    (cfg : Config) (w : Watchdog)
    → validate cfg ≡ []
    → validate (record cfg {
      ratelimit = record { requests_per_second = nan; burst = cfg.ratelimit.burst };
      watchdog = w;
    })
      ≡ []
validate-unchecked cfg w accepted =
    (validate-nil_iff _).1 (IsValid-unchecked cfg w ((validate-nil_iff cfg).0 accepted))
