-- ===== src/Server/Registered.antt =====
-- What the loops of `main` register.
use inferencia.Common.{
  ◌≡◌, ◌≢◌, refl, sym, ◌∙◌, ◌↔◌, Char, false, List, [], ◌∷◌, ltb, length, put-ne-nil, All, arith,
  ok,
}
use inferencia.Config
use inferencia.Config.{Config, Float}
use inferencia.Config.Validation.{IsComplete}
use inferencia.Backend.{new_registry, primary_backend}
use inferencia.Backend.Consistency.{register_all, primary_backend_first}
use inferencia.Router
use inferencia.Router.{registry_len}
use inferencia.Adapter.{Network}
use inferencia.Adapter.Interfaces.{ChatBackend, Codecs}
use inferencia.Server.Process.{ChatRegistry, TtsRegistry, name_of, tts_info, register_tts}
use inferencia.Server.Boot.{IsKnown, IsConnected}

-- The primary stands under the name of the first configured backend.
abbrev pub IsPrimary : List Config.Backend → ChatRegistry → Type 0
IsPrimary [] reg = ⊥
IsPrimary (first ∷ rest) reg =
    (c : ChatBackend) × (primary_backend reg ≡ ok c) × (c.name ≡ first.name)

length-ne-nil : {A : Type 0} (xs : List A) → xs ≢ [] → ltb 0 (length xs) ≢ false
length-ne-nil [] h e = h refl
length-ne-nil (x ∷ xs) h e = ground arith

module _ (lower : Char → Char) (net : Network) (codecs : Codecs) where
  register_tts-ne-nil :
      (ts : List Config.TtsBackend) (rtr : TtsRegistry)
      → rtr.backends ≢ []
      → (register_tts lower net codecs ts rtr).backends ≢ []
  unfolding Router.register
  register_tts-ne-nil [] rtr h = h
  register_tts-ne-nil (t ∷ ts) rtr h = register_tts-ne-nil ts _ (put-ne-nil t.name _ rtr.backends)

  pub serves_iff :
      (ts : List Config.TtsBackend)
      → (ltb 0 (registry_len (register_tts lower net codecs ts Router.new_registry)) ≡ false)
        ↔ (ts ≡ [])
  unfolding registry_len Router.new_registry Router.register
  serves_iff [] = ((λ e. refl), (λ e. refl))
  serves_iff (t ∷ ts) = (
    (λ e. absurd (
        length-ne-nil _
          (register_tts-ne-nil ts
            (Router.register Router.new_registry (tts_info lower net codecs t))
            (put-ne-nil t.name (tts_info lower net codecs t) []))
          e)),
    (λ e. cc),
  )

  pub register_all-IsPrimary :
      (bs : List Config.Backend) (cs : List ChatBackend)
      → bs ≢ []
      → All IsComplete bs
      → IsConnected lower net codecs bs cs
      → IsPrimary bs (register_all name_of new_registry cs)
  register_all-IsPrimary [] cs set complete connected = absurd (set refl)
  register_all-IsPrimary (b ∷ bs) [] set complete connected = absurd connected
  register_all-IsPrimary (b ∷ bs) (c ∷ cs) set complete (named, known, connected) =
      let (c', e, same) =
        primary_backend_first name_of c cs (λ blank. complete.0.0 (sym named ∙ blank)) in
      (c', e, same ∙ named)

  pub IsConnected-IsKnown :
      (bs : List Config.Backend) (cs : List ChatBackend)
      → IsConnected lower net codecs bs cs
      → All IsKnown bs
  IsConnected-IsKnown [] [] connected = tt
  IsConnected-IsKnown [] (c ∷ cs) connected = tt
  IsConnected-IsKnown (b ∷ bs) [] connected = absurd connected
  IsConnected-IsKnown (b ∷ bs) (c ∷ cs) (named, known, connected) =
      (known, IsConnected-IsKnown bs cs connected)
