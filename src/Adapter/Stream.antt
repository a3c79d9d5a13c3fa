-- ===== src/Adapter/Stream.antt =====
-- The stream of a model server, as the gateway passes it on.
use inferencia.Common.{
  ℕ, ◌+◌, ◌≡◌, refl, sym, ap, ◌∙◌, inl, inr, String, code, true, false, Option, none, some, List,
  [], ◌∷◌, ◌==◌, map, All, arith, eqb, Bool-cases, Option-cases, join_text, strip_prefix,
  scan_lines,
}
use inferencia.Common.{raw_lines, drop_cr, without_cr}
use inferencia.ApiError.{GoError}
use inferencia.Handler.Stream.{Connection, event, send, fresh}
use inferencia.Adapter.{relay}

-- No newline and no carriage return.
abbrev pub IsLine : String → Type 0
IsLine String.[] = Unit {0}
IsLine (String.◌∷◌ c s) = (eqb (code c) 10 ≡ false) × (eqb (code c) 13 ≡ false) × IsLine s

-- Lines that are read without an error.
abbrev pub quiet : List String → List (String × Option GoError)
quiet = map (λ (l : String). (l, none))

-- The payloads of the lines.
payloads : List String → List String
payloads [] = []
payloads (l ∷ ls) = elim (strip_prefix "data: " l) [ none ↦ payloads ls | some p ↦ p ∷ payloads ls ]

-- Those up to the first the end mark.
cut : List String → List String
cut [] = []
cut (p ∷ ps) = elim (p == "[DONE]") [ true ↦ p ∷ [] | false ↦ p ∷ cut ps ]

-- What `handleStream` writes for payloads.
render : List String → String
render [] = ""
render (p ∷ ps) = join_text (event p) (render ps)

abbrev IsLineOrNone : Option String → Type 0
IsLineOrNone none = Unit {0}
IsLineOrNone (some l) = IsLine l

IsLine-strip_prefix : (prefix l : String) → IsLine l → IsLineOrNone (strip_prefix prefix l)
IsLine-strip_prefix String.[] l h = h
IsLine-strip_prefix (String.◌∷◌ p ps) String.[] h = tt
IsLine-strip_prefix (String.◌∷◌ p ps) (String.◌∷◌ c s) h =
    elim (Bool-cases (eqb (code p) (code c))) [
      | inl e ↦ rw e (IsLine-strip_prefix ps s h.2)
      | inr e ↦ rw e tt
    ]

raw_lines-line :
    (l rest : String)
    → IsLine l
    → raw_lines (join_text l (String.◌∷◌ "\n" rest)) ≡ l ∷ raw_lines rest
raw_lines-line String.[] rest h = refl
raw_lines-line (String.◌∷◌ c s) rest h = rw (h.0, raw_lines-line s rest h.2) refl

drop_cr-line : (l : String) → IsLine l → drop_cr l ≡ l
drop_cr-line String.[] h = refl
drop_cr-line (String.◌∷◌ c s) h = rw (h.1, drop_cr-line s h.2) refl

join_text_assoc : (s t u : String) → join_text (join_text s t) u ≡ join_text s (join_text t u)
join_text_assoc String.[] t u = refl
join_text_assoc (String.◌∷◌ c s) t u = rw (join_text_assoc s t u) refl

join_text-nil : (s : String) → join_text s "" ≡ s
join_text-nil String.[] = refl
join_text-nil (String.◌∷◌ c s) = rw (join_text-nil s) refl

IsLine-payload : (p : String) → IsLine p → IsLine (join_text "data: " p)
IsLine-payload p h =
    (refl, refl, (refl, refl, (refl, refl, (refl, refl, (refl, refl, (refl, refl, h))))))

scan_lines-event :
    (p rest : String)
    → IsLine p
    → scan_lines (join_text (event p) rest) ≡ join_text "data: " p ∷ "" ∷ scan_lines rest
scan_lines-event p rest h = rw (join_text_assoc p "\n\n" rest) (
    ap without_cr
      (raw_lines-line (join_text "data: " p) (String.◌∷◌ "\n" rest) (IsLine-payload p h))
    ∙ ap (λ (l : String). l ∷ "" ∷ scan_lines rest)
        (drop_cr-line (join_text "data: " p) (IsLine-payload p h)))

module _ {S : Type 0} (put : S → String → Option GoError × S) where
  -- The payloads sent one after the other, until one is the end mark or fails.
  feed : S → List String → Option GoError × S
  feed s [] = (none, s)
  feed s (p ∷ ps) =
      let (failure, s') = put s p in
      elim failure [
        | some e ↦ (some e, s')
        | none ↦ elim (p == "[DONE]") [ true ↦ (none, s') | false ↦ feed s' ps ]
      ]

  -- What the loop does to lines is what it does to their payloads.
  relay-payloads : (s : S) (ls : List String) → relay put s (quiet ls) none ≡ feed s (payloads ls)
  unfolding feed payloads relay
  relay-payloads s [] = refl
  relay-payloads s (l ∷ ls) = elim (Option-cases (strip_prefix "data: " l)) [
    | inl e ↦ ground (arith, relay-payloads s ls)
    | inr (p, e) ↦ ground (arith, relay-payloads (put s p).1 ls)
  ]

  feed-cut : (s : S) (ps : List String) → feed s (cut ps) ≡ feed s ps
  unfolding feed cut
  feed-cut s [] = refl
  feed-cut s (p ∷ ps) = ground (arith, feed-cut (put s p).1 ps)

  -- The loop reads back what was written for payloads.
  relay-render :
      (s : S) (ps : List String)
      → All IsLine ps
      → relay put s (quiet (scan_lines (render ps))) none ≡ feed s ps
  unfolding feed render relay
  relay-render s [] h = refl
  relay-render s (p ∷ ps) h =
      rw (scan_lines-event p (render ps) h.0) (ground (arith, relay-render (put s p).1 ps h.1))

IsLine-payloads : (ls : List String) → All IsLine ls → All IsLine (payloads ls)
unfolding payloads
IsLine-payloads [] h = tt
IsLine-payloads (l ∷ ls) h = elim (Option-cases (strip_prefix "data: " l)) [
  | inl e ↦ rw (e, payloads) (IsLine-payloads ls h.1)
  | inr (p, e) ↦
      rw (e, payloads) (rw e at (IsLine-strip_prefix "data: " l h.0), IsLine-payloads ls h.1)
]

IsLine-cut : (ps : List String) → All IsLine ps → All IsLine (cut ps)
unfolding cut
IsLine-cut [] h = tt
IsLine-cut (p ∷ ps) h = elim (Bool-cases (p == "[DONE]")) [
  | inl e ↦ rw (e, cut) (h.0, tt)
  | inr e ↦ rw (e, cut) (h.0, IsLine-cut ps h.1)
]

-- No error of the context or of the connection.
abbrev pub never : ℕ → Option GoError
never n = none

feed-send :
    (conn : Connection) (ps : List String)
    → (feed (send never never) conn ps).1.text ≡ join_text conn.text (render (cut ps))
unfolding feed cut render send
feed-send conn [] = sym (join_text-nil conn.text)
feed-send conn (p ∷ ps) = elim (Bool-cases (p == "[DONE]")) [
  | inl e ↦ rw (e, cut, feed) (ap (join_text conn.text) (sym (join_text-nil (event p))))
  | inr e ↦
      rw (e, cut, feed)
        (feed-send (record { calls = conn.calls + 1; text = join_text conn.text (event p) }) ps
          ∙ join_text_assoc conn.text (event p) (render (cut ps)))
]

-- A client that reads the gateway's stream as the adapters read a backend's gets what it would get
-- from the backend: whatever lines the backend streams, none with a newline or a carriage return in
-- it, if they are read without an error and no write to the client fails, and whatever the client
-- does with each payload.
pub relay-gateway :
    {S : Type 0} (put : S → String → Option GoError × S) (s : S) (ls : List String)
    → All IsLine ls
    → relay put s (quiet (scan_lines (relay (send never never) fresh (quiet ls) none).1.text)) none
      ≡ relay put s (quiet ls) none
relay-gateway put s ls h =
    rw (relay-payloads (send never never) fresh ls, feed-send fresh (payloads ls))
      (relay-render put s (cut (payloads ls)) (IsLine-cut (payloads ls) (IsLine-payloads ls h))
        ∙ feed-cut put s (payloads ls)
        ∙ sym (relay-payloads put s ls))
