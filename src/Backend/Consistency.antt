-- ===== src/Backend/Consistency.antt =====
-- What registering backends establishes.
use inferencia.Common.{
  ◌≡◌, refl, sym, ◌∙◌, ◌≢◌, inl, inr, String, some, List, [], ◌∷◌, arith, if◌then◌else◌, ◌==◌,
  eq_iff, get, get-put, get-put_self, ok, Bool-cases,
}
use mathlib.Core.Bool.{false≢true}
use inferencia.Backend.{Registry, new_registry, register, get_backend, primary_backend}

module _ {B : Type 0} (name_of : B → String) where
  -- Backends stand under their names, and the primary is one of them once a name is registered.
  pub record IsConsistent (r : Registry B) : Type 0 where
    pub named : (k : String) (b : B) → get k r.backends ≡ some b → name_of b ≡ k
    pub primary_registered : r.primary ≢ "" → (b : B) × (get r.primary r.backends ≡ some b)
    pub primary_chosen : (k : String) (b : B) → get k r.backends ≡ some b → k ≢ "" → r.primary ≢ ""

  new_registry-IsConsistent : IsConsistent new_registry
  unfolding new_registry
  new_registry-IsConsistent = record {
    named = λ k b e. cc;
    primary_registered = λ h. absurd (h refl);
    primary_chosen = λ k b e. cc;
  }

  primary_found :
      (r : Registry B) (b : B)
      → IsConsistent r
      → (register name_of r b).primary ≢ ""
      → (b' : B) × (get (register name_of r b).primary (register name_of r b).backends ≡ some b')
  unfolding register
  primary_found r b c h = elim (Bool-cases (r.primary == "")) [
    | inl e ↦ (b, rw e (get-put_self (name_of b) b r.backends))
    | inr e ↦
        let (b', found) =
          c.primary_registered (λ p. false≢true (sym e ∙ (eq_iff r.primary "").1 p)) in
        (
          if name_of b == r.primary then b else b',
          rw e (ground (arith, get-put (name_of b) r.primary b r.backends)),
        )
  ]

  primary_set :
      (r : Registry B) (b : B)
      → IsConsistent r
      → (k : String) (b' : B) → get k (register name_of r b).backends ≡ some b'
      → k ≢ ""
      → (register name_of r b).primary ≢ ""
  unfolding register
  primary_set r b c k b' e h = ground (
    arith,
    get-put (name_of b) k b r.backends,
    eq_iff (name_of b) k,
    eq_iff r.primary "",
    c.primary_chosen k b',
  )

  register-IsConsistent :
      (r : Registry B) (b : B) → IsConsistent r → IsConsistent (register name_of r b)
  unfolding register
  register-IsConsistent r b c = record {
    named = λ k b' e.
        ground (arith, get-put (name_of b) k b r.backends, eq_iff (name_of b) k, c.named k b');
    primary_registered = λ h. primary_found r b c h;
    primary_chosen = λ k b' e h. primary_set r b c k b' e h;
  }

  unfoldable pub register_all : Registry B → List B → Registry B
  register_all r [] = r
  register_all r (b ∷ bs) = register_all (register name_of r b) bs

  register_all_keeps :
      (r : Registry B) (bs : List B) → IsConsistent r → IsConsistent (register_all r bs)
  unfolding register_all
  register_all_keeps r [] c = c
  register_all_keeps r (b ∷ bs) c =
      register_all_keeps (register name_of r b) bs (register-IsConsistent r b c)

  -- Whatever backends are registered from an empty registry, every backend stands under its own
  -- name, a primary that is set is registered, and one is set as soon as a backend with a name is.
  pub register_all-IsConsistent : (bs : List B) → IsConsistent (register_all new_registry bs)
  register_all-IsConsistent bs = register_all_keeps new_registry bs new_registry-IsConsistent

  register-primary :
      (r : Registry B) (b : B) → r.primary ≢ "" → (register name_of r b).primary ≡ r.primary
  unfolding register
  register-primary r b h = ground (arith, eq_iff r.primary "")

  primary_kept :
      (r : Registry B) (bs : List B) → r.primary ≢ "" → (register_all r bs).primary ≡ r.primary
  unfolding register_all
  primary_kept r [] h = refl
  primary_kept r (b ∷ bs) h =
      let same = register-primary r b h in
      primary_kept (register name_of r b) bs (λ e. h (sym same ∙ e)) ∙ same

  primary_first :
      (b : B) (bs : List B)
      → name_of b ≢ ""
      → (register_all new_registry (b ∷ bs)).primary ≡ name_of b
  unfolding register_all register new_registry
  primary_first b bs h = primary_kept (register name_of new_registry b) bs h

  -- The first backend registered, if it has a name, decides the default: `Primary` then returns a
  -- backend of that name, however many are registered after it.
  pub primary_backend_first :
      (b : B) (bs : List B)
      → name_of b ≢ ""
      → (b' : B) × (primary_backend (register_all new_registry (b ∷ bs)) ≡ ok b')
        × (name_of b' ≡ name_of b)
  unfolding primary_backend
  primary_backend_first b bs h =
      let c = register_all-IsConsistent (b ∷ bs) in
      let p = primary_first b bs h in
      let (b', found) = c.primary_registered (λ e. h (sym p ∙ e)) in
      (b', rw (found, get_backend), c.named _ b' found ∙ p)
