-- ===== src/Audio/Request.antt =====
-- The request that a TTS backend gets.
use inferencia.Common.{
  zero, suc, ◌*◌, ◌≤◌, ◌≡◌, ◌≢◌, refl, String, Bool, true, false, ◌==◌, arith, eq_iff,
  if◌then◌else◌, pos, negsuc, trim_space,
}
use inferencia.Config.{Float, finite, inf, neg_inf, nan}
use inferencia.Adapter.{TtsRequest}
use inferencia.Audio.{speed_of, default_voice, prepare}

-- From 1/4 to 4; `n / (d + 1)` is compared by multiplying.
abbrev pub IsSpeed : Float → Type 0
IsSpeed (finite (pos n) d) = (suc d ≤ 4 * n) × (n ≤ 4 * suc d)
IsSpeed (finite (negsuc n) d) = ⊥
IsSpeed inf = ⊥
IsSpeed neg_inf = ⊥
IsSpeed nan = ⊥

abbrev pub IsSound : TtsRequest → Type 0
IsSound req = (trim_space req.model ≢ "") × (trim_space req.voice ≢ "") × IsSpeed req.speed

either_text :
    (P : String → Type 0) (b : Bool) (s t : String)
    → P s
    → (b ≡ false → P t)
    → P (if b then s else t)
either_text P true s t p q = p
either_text P false s t p q = q refl

speed_of-IsSpeed : (f : Float) → f ≢ nan → IsSpeed (speed_of f)
speed_of-IsSpeed (finite (pos zero) d) h = omega arith
speed_of-IsSpeed (finite (pos (suc n)) d) h = ground arith
speed_of-IsSpeed (finite (negsuc n) d) h = omega arith
speed_of-IsSpeed inf h = omega arith
speed_of-IsSpeed neg_inf h = omega arith
speed_of-IsSpeed nan h = absurd (h refl)

blank : (s : String) → (trim_space s == "") ≡ false → trim_space s ≢ ""
blank s e h = ground (arith, eq_iff (trim_space s) "")

abbrev IsNonblank : String → Type 0
IsNonblank s = trim_space s ≢ ""

default_voice-IsNonblank : (backend : String) → IsNonblank (default_voice backend)
default_voice-IsNonblank backend =
    either_text IsNonblank (backend == "kokoro") _ _ (λ e. cc)
      (λ _. either_text IsNonblank (backend == "chatterbox") _ _ (λ e. cc) (λ _ e. cc))

-- If the requested speed is a number, then the request that the backend gets names a model and a
-- voice that are not blank, and its speed is between 1/4 and 4.
pub prepare-IsSound :
    (backend : String) (req : TtsRequest) → req.speed ≢ nan → IsSound (prepare backend req)
unfolding prepare
prepare-IsSound backend req h = (
  either_text IsNonblank (trim_space req.model == "") _ _ (λ e. cc) (blank req.model),
  either_text IsNonblank (trim_space req.voice == "") _ _ (default_voice-IsNonblank backend)
      (blank req.voice),
  speed_of-IsSpeed req.speed h,
)
