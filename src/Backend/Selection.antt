-- ===== src/Backend/Selection.antt =====
-- What `PrimaryHealthy` returns, and what `ReleaseBackend` undoes.
use inferencia.Common.{
  ◌+◌, ◌≤◌, ◌≡◌, refl, sym, ◌∙◌, ap, ◌≢◌, ◌⊎◌, inl, inr, String, true, false, none, some, List, [],
  ◌∷◌, arith, if◌then◌else◌, ◌==◌, get, IsRange, ok, err, Bool-cases, List-cases,
}
use mathlib.Core.Option.{some-injective}
use inferencia.LoadBalancer.{LoadBalancer, in_flight}
use inferencia.LoadBalancer
use inferencia.LoadBalancer.Choice.{select-IsLeast}
use inferencia.LoadBalancer.Ledger.{in_flight-active, in_flight-acquire, in_flight-release}
use inferencia.Backend.{
  Error, backend_not_found, no_healthy_backend, HealthChecker, healthy, Registry, healthy_order,
  pick_primary, primary_healthy, release_backend,
}
use inferencia.Backend.Consistency.{IsConsistent}
use inferencia.Backend.Order.{IsRegistered, healthy_order-In, In-healthy_order}

module _ {B : Type 0} where
  pick_primary_lem :
      (r : Registry B) (names : List String) (b : B)
      → names ≢ []
      → get (LoadBalancer.select r.lb names).0 r.backends ≡ some b
      → pick_primary r names ≡ (
        ok (some b),
        record r {
          lb =
              LoadBalancer.acquire
                (LoadBalancer.select r.lb names).1
                (LoadBalancer.select r.lb names).0;
        },
      )
  unfolding pick_primary
  pick_primary_lem r [] b h e = absurd (h refl)
  pick_primary_lem r (name ∷ names) b h e = rw e

module _ {B : Type 0} (r : Registry B) (hc : HealthChecker) where
  -- The backend `b`, registered as `name`, passes the check, no healthy backend has fewer requests in
  -- flight, and only its count grows, by one.
  pub record IsPicked (r' : Registry B) (name : String) (b : B) : Type 0 where
    pub registered : get name r.backends ≡ some b
    pub passes : healthy hc name ≡ true
    pub least :
        (other : String)
        → other ≢ ""
        → IsRegistered r other
        → healthy hc other ≡ true
        → in_flight r.lb name ≤ in_flight r.lb other
    pub counted :
        (other : String)
        → in_flight r'.lb other
          ≡ (if name == other then in_flight r.lb other + 1 else in_flight r.lb other)
    pub kept : (r'.backends ≡ r.backends) × (r'.primary ≡ r.primary)

module _ {B : Type 0} (name_of : B → String) (r : Registry B) (c : IsConsistent name_of r)
    (hc : HealthChecker) (entries : List (String × B)) (range : IsRange entries r.backends) where
  pick_primary-IsPicked :
      healthy_order r hc entries ≢ []
      → (r' : Registry B) × (name : String) × (b : B) × (pick_primary r (healthy_order r hc entries)
          ≡ (ok (some b), r'))
        × IsPicked r hc r' name b
  pick_primary-IsPicked h =
      let names = healthy_order r hc entries in
      let picked = LoadBalancer.select r.lb names in
      let ((listed, fewest), counts) = select-IsLeast r.lb names h in
      let ((b, found), passed) = healthy_order-In name_of r c hc entries range picked.0 listed in
      (
        record r { lb = LoadBalancer.acquire picked.1 picked.0 },
        picked.0,
        b,
        pick_primary_lem r names b h found,
        record {
          registered = found;
          passes = passed;
          least = λ other set reg ok.
              fewest other (In-healthy_order name_of r c hc entries range other set reg ok);
          counted = λ other.
              in_flight-acquire picked.1 picked.0 other
              ∙ ap (λ n. if picked.0 == other then n + 1 else n)
                  (in_flight-active picked.1 r.lb other counts);
          kept = (refl, refl);
        },
      )

  primary_healthy_some :
      r.backends ≢ [] → primary_healthy r hc entries ≡ pick_primary r (healthy_order r hc entries)
  unfolding primary_healthy
  primary_healthy_some h = ground arith

  pick_primary_none :
      healthy_order r hc entries ≡ []
      → pick_primary r (healthy_order r hc entries) ≡ (err no_healthy_backend, r)
  unfolding pick_primary
  pick_primary_none e = rw e

  none_healthy :
      healthy_order r hc entries ≡ []
      → (name : String) → name ≢ ""
      → IsRegistered r name
      → healthy hc name ≡ false
  none_healthy e name set reg = elim (Bool-cases (healthy hc name)) [
    | inl h ↦ absurd (rw e at (In-healthy_order name_of r c hc entries range name set reg h))
    | inr h ↦ h
  ]

  order_cases : (healthy_order r hc entries ≡ []) ⊎ (healthy_order r hc entries ≢ [])
  order_cases = List-cases (healthy_order r hc entries)

  order-listed :
      healthy_order r hc entries ≢ []
      → IsRegistered r (LoadBalancer.select r.lb (healthy_order r hc entries)).0
  order-listed h =
      let ((listed, _), _) = select-IsLeast r.lb (healthy_order r hc entries) h in
      (healthy_order-In name_of r c hc entries range _ listed).0

  order-some : healthy_order r hc entries ≢ [] → r.backends ≢ []
  order-some h e =
      let (b, found) = order-listed h in
      let gone : get (LoadBalancer.select r.lb (healthy_order r hc entries)).0 [] ≡ some b =
        ap (get _) (sym e) ∙ found in
      absurd (ground arith)

  -- `PrimaryHealthy` fails and changes nothing, where the order is empty; otherwise it selects from the
  -- order, and acquires what it selected.
  pub primary_healthy_cases :
      ((healthy_order r hc entries ≡ [])
        × (e : Error) × (primary_healthy r hc entries ≡ (err e, r)))
      ⊎ ((healthy_order r hc entries ≢ [])
          × (b : B) × (let picked = LoadBalancer.select r.lb (healthy_order r hc entries) in
              (get picked.0 r.backends ≡ some b)
              × (primary_healthy r hc entries
                  ≡ (ok (some b), record r { lb = LoadBalancer.acquire picked.1 picked.0 }))))
  unfolding primary_healthy
  primary_healthy_cases = elim order_cases [
    | inl nobody ↦ elim (List-cases r.backends) [
      | inl none_registered ↦ inl (nobody, backend_not_found none, ground arith)
      | inr some_registered ↦ inl (
        nobody,
        no_healthy_backend,
        primary_healthy_some some_registered ∙ pick_primary_none nobody,
      )
    ]
    | inr somebody ↦
        let (b, found) = order-listed somebody in
        inr (
          somebody,
          b,
          (
            found,
            primary_healthy_some (order-some somebody) ∙ pick_primary_lem r _ b somebody found,
          ),
        )
  ]

  pub primary_healthy-IsPicked :
      ((r.backends ≡ []) × (primary_healthy r hc entries ≡ (err (backend_not_found none), r)))
      ⊎ ((r.backends ≢ [])
          × ((name : String) → name ≢ "" → IsRegistered r name → healthy hc name ≡ false)
          × (primary_healthy r hc entries ≡ (err no_healthy_backend, r)))
      ⊎ ((r' : Registry B) × (name : String) × (b : B) × (primary_healthy r hc entries
            ≡ (ok (some b), r'))
          × IsPicked r hc r' name b)
  unfolding primary_healthy
  primary_healthy-IsPicked = elim (List-cases r.backends) [
    | inl none_registered ↦ inl (none_registered, ground arith)
    | inr some_registered ↦ elim order_cases [
      | inl nobody ↦ inr (
          inl (
            some_registered,
            none_healthy nobody,
            primary_healthy_some some_registered ∙ pick_primary_none nobody,
          ))
      | inr somebody ↦ inr (
          inr (
            let (r', name, b, e, p) = pick_primary-IsPicked somebody in
            (r', name, b, primary_healthy_some some_registered ∙ e, p)))
    ]
  ]

  -- A handler's deferred `ReleaseBackend(b.Name())` undoes the count of its `PrimaryHealthy`: afterwards
  -- the in-flight count of every name is what it was before the request.
  pub release-primary_healthy :
      (r' : Registry B) (b : B) (other : String)
      → primary_healthy r hc entries ≡ (ok (some b), r')
      → in_flight (release_backend r' (name_of b)).lb other ≡ in_flight r.lb other
  unfolding release_backend
  release-primary_healthy r' b other e = elim primary_healthy-IsPicked [
    | inl (_, e') ↦ absurd (cc)
    | inr (inl (_, _, e')) ↦ absurd (cc)
    | inr (inr (r'', name, b'', e', p)) ↦
        let same : some b'' ≡ some b = ground arith in
        let state : r'' ≡ r' = ground arith in
        let owner : name_of b ≡ name =
          ap name_of (sym (some-injective b'' b same)) ∙ c.named name b'' p.registered in
        rw (owner, ← state) (ground (arith, in_flight-release r''.lb name other, p.counted other))
  ]
