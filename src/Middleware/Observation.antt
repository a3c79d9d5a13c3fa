-- ===== src/Middleware/Observation.antt =====
-- What the log line and the metrics report of a response.
use inferencia.Common.{
  ℕ, ◌+◌, ◌≡◌, refl, inl, inr, String, true, false, List, [], ◌∷◌, ◌++◌, ◌==◌, arith, eq_iff, any,
  In, append-In_left, append-In_right, Bool-cases,
}
use inferencia.Middleware.{
  StatusWriter, new_status_writer, write_header, write, known_paths, normalize_path,
}

-- What a handler does to its writer.
pub data Event : Type 0 where
  header : ℕ → Event
  body : ℕ → Event

abbrev pub run : StatusWriter → List Event → StatusWriter
run sw [] = sw
run sw (header code ∷ es) = run (write_header sw code) es
run sw (body n ∷ es) = run (write sw n) es

-- The first status, or `d` if there is none; all statuses; and the bytes.
abbrev pub first_status : ℕ → List Event → ℕ
first_status d [] = d
first_status d (header code ∷ es) = code
first_status d (body n ∷ es) = first_status d es

abbrev pub statuses : List Event → List ℕ
statuses [] = []
statuses (header code ∷ es) = code ∷ statuses es
statuses (body n ∷ es) = statuses es

abbrev pub total : List Event → ℕ
total [] = 0
total (header code ∷ es) = total es
total (body n ∷ es) = n + total es

run-bytes : (sw : StatusWriter) (es : List Event) → (run sw es).bytes ≡ sw.bytes + total es
unfolding write_header write
run-bytes sw [] = omega arith
run-bytes sw (header code ∷ es) = ground (arith, run-bytes (write_header sw code) es)
run-bytes sw (body n ∷ es) = ground (arith, run-bytes (write sw n) es)

run_wrote :
    (sw : StatusWriter) (es : List Event) → sw.wrote_header ≡ true → (run sw es).status ≡ sw.status
unfolding write_header write
run_wrote sw [] h = refl
run_wrote sw (header code ∷ es) h = ground (arith, run_wrote (write_header sw code) es)
run_wrote sw (body n ∷ es) h = run_wrote (write sw n) es h

run-status :
    (sw : StatusWriter) (es : List Event)
    → sw.wrote_header ≡ false
    → (run sw es).status ≡ first_status sw.status es
unfolding write_header write
run-status sw [] h = refl
run-status sw (header code ∷ es) h = ground (arith, run_wrote (write_header sw code) es)
run-status sw (body n ∷ es) h = run-status (write sw n) es h

-- Whatever a handler writes, the line reports the first status it set, or 200 if it set none, and
-- the number of all bytes written.
pub run-new_status_writer :
    (es : List Event)
    → ((run new_status_writer es).status ≡ first_status 200 es)
      × ((run new_status_writer es).bytes ≡ total es)
run-new_status_writer es =
    (run-status new_status_writer es refl, ground (arith, run-bytes new_status_writer es))

any-In : (s : String) (ts : List String) → any (◌==◌ s) ts ≡ true → In s ts
any-In s [] h = absurd cc
any-In s (t ∷ ts) h = ground (arith, eq_iff s t, any-In s ts)

-- Whatever the path of a request, its label is one of eleven.
pub normalize_path-In : (path : String) → In (normalize_path path) (known_paths ++ ("/other" ∷ []))
unfolding normalize_path
normalize_path-In path = elim (Bool-cases (any (◌==◌ path) known_paths)) [
  | inl e ↦ rw e (append-In_left known_paths ("/other" ∷ []) path (any-In path known_paths e))
  | inr e ↦ rw e (append-In_right known_paths ("/other" ∷ []) "/other" (inl refl))
]
