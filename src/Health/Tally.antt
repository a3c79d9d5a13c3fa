-- ===== src/Health/Tally.antt =====
-- What the loops of the consolidated health check count.
use inferencia.Common.{
  ℕ, suc, ◌+◌, ◌≡◌, ◌≢◌, refl, ◌∙◌, inl, inr, String, Option, none, some, List, [], ◌∷◌, ◌++◌,
  if◌then◌else◌, arith, eqb, map, length, List-cases, put-ne-nil,
}
use inferencia.ApiError.{GoError}
use inferencia.Router.{BackendInfo}
use inferencia.Adapter.Interfaces.{ChatBackend, TtsBackend}
use inferencia.Health.{
  Report, ModelBrief, new_report, service, model_briefs, voice_briefs, counted, one_tts, check_chat,
  check_tts, tts_or_none,
}

-- The probes that failed, and those that passed.
abbrev pub failures : List (Option GoError) → ℕ
failures [] = 0
failures (none ∷ ps) = failures ps
failures (some e ∷ ps) = suc (failures ps)

abbrev pub passes : List (Option GoError) → ℕ
passes [] = 0
passes (none ∷ ps) = suc (passes ps)
passes (some e ∷ ps) = passes ps

-- The results of the probes of the chat backends, and of those TTS entries that have a backend.
abbrev pub chat_probes : List ChatBackend → List (Option GoError)
chat_probes = map (λ (b : ChatBackend). b.health)

abbrev probe_of : Option TtsBackend → List (Option GoError)
probe_of none = []
probe_of (some t) = t.health ∷ []

abbrev pub tts_probes : {B : Type 0} → List (BackendInfo B TtsBackend) → List (Option GoError)
tts_probes [] = []
tts_probes (info ∷ infos) = probe_of info.tts_backend ++ tts_probes infos

abbrev pub all_probes :
    {B : Type 0}
    → List ChatBackend
    → Option (List (BackendInfo B TtsBackend))
    → List (Option GoError)
all_probes bs none = chat_probes bs
all_probes bs (some infos) = chat_probes bs ++ tts_probes infos

-- From `r` to `r'` the results `ps` were counted.
pub record IsTally (ps : List (Option GoError)) (r r' : Report) : Type 0 where
  pub total : r'.summary.total ≡ r.summary.total + length ps
  pub healthy : r'.summary.healthy ≡ r.summary.healthy + passes ps
  pub unhealthy : r'.summary.unhealthy ≡ r.summary.unhealthy + failures ps
  pub overall : r'.overall ≡ (if eqb (failures ps) 0 then r.overall else "degraded")
  pub kept : ps ≡ [] → r' ≡ r
  pub listed : ps ≢ [] → r'.services ≢ []

failures-append : (ps qs : List (Option GoError)) → failures (ps ++ qs) ≡ failures ps + failures qs
failures-append [] qs = omega arith
failures-append (none ∷ ps) qs = omega (arith, failures-append ps qs)
failures-append (some e ∷ ps) qs = omega (arith, failures-append ps qs)

passes-append : (ps qs : List (Option GoError)) → passes (ps ++ qs) ≡ passes ps + passes qs
passes-append [] qs = omega arith
passes-append (none ∷ ps) qs = omega (arith, passes-append ps qs)
passes-append (some e ∷ ps) qs = omega (arith, passes-append ps qs)

length-append : (ps qs : List (Option GoError)) → length (ps ++ qs) ≡ length ps + length qs
length-append [] qs = omega arith
length-append (p ∷ ps) qs = omega (arith, length-append ps qs)

IsTally-nil : (r : Report) → IsTally [] r r
IsTally-nil r = record {
  total = omega arith;
  healthy = omega arith;
  unhealthy = omega arith;
  overall = refl;
  kept = λ e. refl;
  listed = λ h. absurd (h refl);
}

kept_append :
    (ps qs : List (Option GoError)) (r r' r'' : Report)
    → (ps ≡ [] → r' ≡ r)
    → (qs ≡ [] → r'' ≡ r')
    → ps ++ qs ≡ []
    → r'' ≡ r
kept_append [] qs r r' r'' f g e = g e ∙ f refl
kept_append (p ∷ ps) qs r r' r'' f g e = absurd (cc)

listed_append :
    (ps qs : List (Option GoError)) (r' r'' : Report)
    → (ps ≢ [] → r'.services ≢ [])
    → (qs ≡ [] → r'' ≡ r')
    → (qs ≢ [] → r''.services ≢ [])
    → ps ++ qs ≢ []
    → r''.services ≢ []
listed_append [] qs r' r'' f k g h = g h
listed_append (p ∷ ps) qs r' r'' f k g h = elim (List-cases qs) [
  | inl e ↦ rw (k e) (f (λ x. cc))
  | inr n ↦ g n
]

IsTally-append :
    (ps qs : List (Option GoError)) (r r' r'' : Report)
    → IsTally ps r r'
    → IsTally qs r' r''
    → IsTally (ps ++ qs) r r''
IsTally-append ps qs r r' r'' s t = record {
  total = omega (arith, s.total, t.total, length-append ps qs);
  healthy = omega (arith, s.healthy, t.healthy, passes-append ps qs);
  unhealthy = omega (arith, s.unhealthy, t.unhealthy, failures-append ps qs);
  overall = ground (arith, s.overall, t.overall, failures-append ps qs);
  kept = kept_append ps qs r r' r'' s.kept t.kept;
  listed = listed_append ps qs r' r'' s.listed t.kept t.listed;
}

counted-IsTally :
    (kind name : String) (p : Option GoError) (briefs : List ModelBrief) (r : Report)
    → IsTally (p ∷ []) r (counted kind name p (service p briefs) r)
unfolding counted
counted-IsTally kind name none briefs r = record {
  total = refl;
  healthy = refl;
  unhealthy = omega arith;
  overall = refl;
  kept = λ e. cc;
  listed = λ h. put-ne-nil name (service none briefs) r.services;
}
counted-IsTally kind name (some e) briefs r = record {
  total = refl;
  healthy = omega arith;
  unhealthy = refl;
  overall = refl;
  kept = λ x. cc;
  listed = λ h. put-ne-nil name (service (some e) briefs) r.services;
}

check_chat-IsTally :
    (bs : List ChatBackend) (r : Report) → IsTally (chat_probes bs) r (check_chat bs r)
unfolding check_chat
check_chat-IsTally [] r = IsTally-nil r
check_chat-IsTally (b ∷ bs) r =
    let briefs = model_briefs b.list_models in
    let r' = counted "chat" b.name b.health (service b.health briefs) r in
    IsTally-append (b.health ∷ []) (chat_probes bs) r r' (check_chat bs r')
      (counted-IsTally "chat" b.name b.health briefs r) (check_chat-IsTally bs r')

one_tts-IsTally :
    (name : String) (o : Option TtsBackend) (r : Report) → IsTally (probe_of o) r (one_tts name o r)
one_tts-IsTally name none r = IsTally-nil r
one_tts-IsTally name (some t) r = counted-IsTally "tts" name t.health (voice_briefs t.voices) r

module _ {B : Type 0} where
  check_tts-IsTally :
      (infos : List (BackendInfo B TtsBackend)) (r : Report)
      → IsTally (tts_probes infos) r (check_tts infos r)
  unfolding check_tts
  check_tts-IsTally [] r = IsTally-nil r
  check_tts-IsTally (info ∷ infos) r =
      let r' = one_tts info.name info.tts_backend r in
      IsTally-append (probe_of info.tts_backend) (tts_probes infos) r r' (check_tts infos r')
        (one_tts-IsTally info.name info.tts_backend r) (check_tts-IsTally infos r')

  pub checked-IsTally :
      (bs : List ChatBackend) (infos : Option (List (BackendInfo B TtsBackend)))
      → IsTally (all_probes bs infos) new_report (tts_or_none infos (check_chat bs new_report))
  checked-IsTally bs none = check_chat-IsTally bs new_report
  checked-IsTally bs (some infos) =
      let r = check_chat bs new_report in
      IsTally-append (chat_probes bs) (tts_probes infos) new_report r (check_tts infos r)
        (check_chat-IsTally bs new_report) (check_tts-IsTally infos r)
