-- ===== src/Backend/Order.antt =====
-- The healthy backends, in the order in which `PrimaryHealthy` lists them.
use inferencia.Common.{
  ◌≡◌, ◌≢◌, inl, inr, String, true, false, not, ◌&&◌, some, List, arith, ◌==◌, eq_iff, get, map, In,
  In-keep, keep-In, In-append, append-In_left, append-In_right, In-map, map-In, IsRange, Bool-cases,
}
use inferencia.Backend.{HealthChecker, healthy, Registry, lead, others, healthy_order}
use inferencia.Backend.Consistency.{IsConsistent}

module _ {B : Type 0} where
  abbrev pub IsRegistered : Registry B → String → Type 0
  IsRegistered r name = (b : B) × (get name r.backends ≡ some b)

module _ {B : Type 0} (name_of : B → String) (r : Registry B) (c : IsConsistent name_of r)
    (hc : HealthChecker) (entries : List (String × B)) (range : IsRange entries r.backends) where
  In-names : (name : String) → In name (map (λ (e : String × B). e.0) entries) → IsRegistered r name
  In-names name m =
      let ((k, b), listed, e) = In-map (λ (e : String × B). e.0) entries name m in
      (b, rw e (range.sound k b listed))

  names-In : (name : String) → IsRegistered r name → In name (map (λ (e : String × B). e.0) entries)
  names-In name (b, found) =
      map-In (λ (e : String × B). e.0) entries (name, b) (range.complete name b found)

  In-lead : (name : String) → In name (lead r hc) → IsRegistered r name × (healthy hc name ≡ true)
  unfolding lead
  In-lead name m = let (e, chosen, h) = lead_cases in rw e (c.primary_registered chosen, h)
    where
      lead_cases : (name ≡ r.primary) × (r.primary ≢ "") × (healthy hc r.primary ≡ true)
      lead_cases = ground (arith, eq_iff r.primary "")

  In-others :
      (name : String)
      → In name (others r hc (map (λ (e : String × B). e.0) entries))
      → IsRegistered r name × (healthy hc name ≡ true)
  unfolding others
  In-others name m =
      let (listed, passed) =
        In-keep (λ n. not (n == r.primary) && healthy hc n) (map (λ (e : String × B). e.0) entries)
          name m in
      (In-names name listed, ground arith)

  primary-In :
      (name : String) → name ≢ "" → healthy hc name ≡ true → name ≡ r.primary → In name (lead r hc)
  unfolding lead
  primary-In name set h e = ground (arith, eq_iff r.primary "")

  other-In :
      (name : String)
      → IsRegistered r name
      → healthy hc name ≡ true
      → (name == r.primary) ≡ false
      → In name (others r hc (map (λ (e : String × B). e.0) entries))
  unfolding others
  other-In name reg h other =
      keep-In (λ n. not (n == r.primary) && healthy hc n) _ name (names-In name reg) (rw other h)

  -- The healthy order lists registered backends that pass the check, and no others.
  pub healthy_order-In :
      (name : String)
      → In name (healthy_order r hc entries)
      → IsRegistered r name × (healthy hc name ≡ true)
  unfolding healthy_order
  healthy_order-In name m = elim (In-append (lead r hc) (others r hc _) name m) [
    | inl first ↦ In-lead name first
    | inr later ↦ In-others name later
  ]

  -- It lists every one of them that has a name.
  pub In-healthy_order :
      (name : String)
      → name ≢ ""
      → IsRegistered r name
      → healthy hc name ≡ true
      → In name (healthy_order r hc entries)
  unfolding healthy_order
  In-healthy_order name set reg h = elim (Bool-cases (name == r.primary)) [
    | inl same ↦ append-In_left (lead r hc) _ name (primary-In name set h ((eq_iff _ _).0 same))
    | inr other ↦ append-In_right (lead r hc) _ name (other-In name reg h other)
  ]
