-- ===== src/Router/Balance.antt =====
-- What `pickBalanced` returns.
use inferencia.Common.{
  ◌+◌, ◌≤◌, ◌≡◌, refl, sym, ap, ◌∙◌, ◌≢◌, ◌⊎◌, inl, inr, String, some, List, [], ◌∷◌, arith,
  if◌then◌else◌, ◌==◌, eq_iff, get, put, get-put, read, map, In, map-In, Bool-cases,
}
use mathlib.Core.Bool.{false≢true}
use inferencia.LoadBalancer.{in_flight}
use inferencia.LoadBalancer
use inferencia.LoadBalancer.Choice.{select-IsLeast}
use inferencia.LoadBalancer.Ledger.{in_flight-active, in_flight-acquire}
use inferencia.Router.{BackendInfo, Registry, by_name, zero_info, pick_balanced}

module _ {B T : Type 0} where
  abbrev pub name_of : BackendInfo B T → String
  name_of c = c.name

  by_name_cases :
      (cs : List (BackendInfo B T)) (m : List (String × BackendInfo B T)) (name : String)
      → ((get name (by_name cs m) ≡ get name m) × (¬ In name (map name_of cs)))
        ⊎ ((c : BackendInfo B T) × (get name (by_name cs m) ≡ some c) × In c cs × (c.name ≡ name))
  unfolding by_name
  by_name_cases [] m name = inl (refl, λ h. h)
  by_name_cases (c ∷ cs) m name = elim (by_name_cases cs (put c.name c m) name) [
    | inr (c', e, listed, same) ↦ inr (c', e, inr listed, same)
    | inl (e, absent) ↦ elim (Bool-cases (c.name == name)) [
      | inl same ↦
          inr (c, e ∙ ground (arith, get-put c.name name c m), inl refl, (eq_iff _ _).0 same)
      | inr other ↦ inl (
        e ∙ ground (arith, get-put c.name name c m),
        λ h. elim h [
          | inl same ↦ false≢true (sym other ∙ (eq_iff _ _).1 (sym same))
          | inr later ↦ absent later
        ],
      )
    ]
  ]

  read-by_name :
      (cs : List (BackendInfo B T)) (name : String)
      → In name (map name_of cs)
      → In (read zero_info name (by_name cs [])) cs
        × ((read zero_info name (by_name cs [])).name ≡ name)
  read-by_name cs name m = elim (by_name_cases cs [] name) [
    | inl (_, absent) ↦ absurd (absent m)
    | inr (c, e, listed, same) ↦ rw (e, read) (listed, same)
  ]

  -- `info` is a candidate with the fewest requests in flight, and only its count grows, by one.
  pub record IsBalanced (r r' : Registry B T) (candidates : List (BackendInfo B T))
      (info : BackendInfo B T) : Type 0 where
    pub candidate : In info candidates
    pub least :
        (other : BackendInfo B T)
        → In other candidates
        → in_flight r.lb info.name ≤ in_flight r.lb other.name
    pub counted :
        (name : String)
        → in_flight r'.lb name
          ≡ (if info.name == name then in_flight r.lb name + 1 else in_flight r.lb name)
    pub kept : (r'.backends ≡ r.backends) × (r'.routes ≡ r.routes)

  names-ne-nil : (cs : List (BackendInfo B T)) → cs ≢ [] → map name_of cs ≢ []
  names-ne-nil [] h e = h refl
  names-ne-nil (c ∷ cs) h e = cc

  pub pick_balanced-IsBalanced :
      (r : Registry B T) (candidates : List (BackendInfo B T))
      → candidates ≢ []
      → let (info, r') = pick_balanced r candidates in IsBalanced r r' candidates info
  unfolding pick_balanced
  pick_balanced-IsBalanced r candidates h =
      let names = map name_of candidates in
      let picked = LoadBalancer.select r.lb names in
      let ((listed, fewest), counts) = select-IsLeast r.lb names (names-ne-nil candidates h) in
      let (found, same) = read-by_name candidates picked.0 listed in
      record {
        candidate = found;
        least = λ other m. rw same (fewest other.name (map-In name_of candidates other m));
        counted = λ name. rw same (
            in_flight-acquire picked.1 picked.0 name
            ∙ ap (λ n. if picked.0 == name then n + 1 else n)
                (in_flight-active picked.1 r.lb name counts));
        kept = (refl, refl);
      }
