-- ===== src/Gateway/Accounts.antt =====
-- The in-flight counts against the requests that hold a backend.
use inferencia.Common.{
  ℕ, ◌+◌, ◌≤◌, ◌≡◌, ◌≢◌, refl, String, Bool, some, List, [], ◌∷◌, In, All, All-In, ◌==◌, arith,
  if◌then◌else◌, map,
}
use inferencia.LoadBalancer.{new_load_balancer, in_flight, select}
use inferencia.LoadBalancer.Choice.{select-IsLeast}
use inferencia.LoadBalancer.Ledger.{in_flight-active, in_flight-acquire, in_flight-release}
use inferencia.Backend.{HealthChecker}
use inferencia.Watchdog.{Config, Watchdog}
use inferencia.Gateway.Requests.{
  Phase, entered, listed, picked, holding, left, Hall, new_hall, see, Turns, first, later,
  IsAnswered, selects, acquires, releases, checks, Step, enter, list, refuse, pick, take, give_back,
  check, Reach, here, next,
}

abbrev pub holds : String → Phase → ℕ
holds name (entered ws) = 0
holds name (listed ws names) = 0
holds name (picked n) = 0
holds name (holding n) = if n == name then 1 else 0
holds name left = 0

-- The requests that hold a backend of the name: they have acquired it and not given it back.
abbrev pub holders : String → List Phase → ℕ
holders name [] = 0
holders name (p ∷ ps) = holds name p + holders name ps

holders-Turns :
    (name : String) (p q : Phase) (ps qs : List Phase)
    → Turns p q ps qs
    → holders name qs + holds name p ≡ holders name ps + holds name q
holders-Turns name p q ps qs first = omega arith
holders-Turns name p q ps qs (later o t) = omega (arith, holders-Turns name p q _ _ t)

holds-see : (name : String) (w : Watchdog) (p : Phase) → holds name (see w p) ≡ holds name p
holds-see name w (entered ws) = refl
holds-see name w (listed ws names) = refl
holds-see name w (picked n) = refl
holds-see name w (holding n) = refl
holds-see name w left = refl

holders-see :
    (name : String) (w : Watchdog) (ps : List Phase)
    → holders name (map (see w) ps) ≡ holders name ps
holders-see name w [] = refl
holders-see name w (p ∷ ps) = omega (arith, holds-see name w p, holders-see name w ps)

-- Every name is in flight as often as requests hold a backend of it.
abbrev pub IsCounted : Hall → Type 0
IsCounted s = (name : String) → in_flight s.lb name ≡ holders name s.requests

acquires-IsCounted :
    (s : Hall) (name : String) (ps : List Phase)
    → Turns (picked name) (holding name) s.requests ps
    → IsCounted s
    → IsCounted (acquires s name ps)
unfolding acquires
acquires-IsCounted s name ps t c other =
    ground (arith, in_flight-acquire s.lb name other, holders-Turns other _ _ _ _ t, c other)

releases-IsCounted :
    (s : Hall) (name : String) (ps : List Phase)
    → Turns (holding name) left s.requests ps
    → IsCounted s
    → IsCounted (releases s name ps)
unfolding releases
releases-IsCounted s name ps t c other =
    ground (arith, in_flight-release s.lb name other, holders-Turns other _ _ _ _ t, c other)

selects-IsCounted :
    (s : Hall) (ws : List Watchdog) (names : List String) (ps : List Phase)
    → names ≢ []
    → Turns (listed ws names) (picked (select s.lb names).0) s.requests ps
    → IsCounted s
    → IsCounted (selects s names ps)
unfolding selects
selects-IsCounted s ws names ps some_listed t c other =
    let kept =
      in_flight-active (select s.lb names).1 s.lb other (select-IsLeast s.lb names some_listed).1 in
    omega (arith, kept, holders-Turns other _ _ _ _ t, c other)

All-Turns :
    (P : Phase → Type 0) (p q : Phase) (ps qs : List Phase)
    → Turns p q ps qs
    → All P ps
    → (P p → P q)
    → All P qs
All-Turns P p q ps qs first all f = (f all.0, all.1)
All-Turns P p q ps qs (later o t) all f = (all.0, All-Turns P p q _ _ t all.1 f)

Turns-All :
    (P : Phase → Type 0) (p q : Phase) (ps qs : List Phase) → Turns p q ps qs → All P ps → P p
Turns-All P p q ps qs first all = all.0
Turns-All P p q ps qs (later o t) all = Turns-All P p q _ _ t all.1

module _ (lists : HealthChecker → List String → Type 0) where
  -- Some answers of the watchdog since the request came, with which the registry hands over `names`.
  abbrev pub IsListed : List Watchdog → List String → Type 0
  IsListed ws names =
      (names ≢ [])
      × ((answers : String → Bool) × IsAnswered ws answers × lists (some answers) names)

  -- The name was among those that the registry handed over.
  abbrev pub IsOfList : String → Type 0
  IsOfList name = (ws : List Watchdog) × (names : List String) × IsListed ws names × In name names

  abbrev pub IsInOrder : Phase → Type 0
  IsInOrder (entered ws) = Unit {0}
  IsInOrder (listed ws names) = IsListed ws names
  IsInOrder (picked name) = IsOfList name
  IsInOrder (holding name) = IsOfList name
  IsInOrder left = Unit {0}

  see-IsInOrder : (w : Watchdog) (p : Phase) → IsInOrder p → IsInOrder (see w p)
  see-IsInOrder w (entered ws) h = tt
  see-IsInOrder w (listed ws names) h = h
  see-IsInOrder w (picked name) h = h
  see-IsInOrder w (holding name) h = h
  see-IsInOrder w left h = tt

  see-All : (w : Watchdog) (ps : List Phase) → All IsInOrder ps → All IsInOrder (map (see w) ps)
  see-All w [] h = tt
  see-All w (p ∷ ps) h = (see-IsInOrder w p h.0, see-All w ps h.1)

  -- For every name the balancer counts the requests that hold a backend of it, and every request that
  -- has picked or holds a name was handed it.
  pub record IsAccounted (s : Hall) : Type 0 where
    pub counted : IsCounted s
    pub in_order : All IsInOrder s.requests

  Step-IsAccounted : (s s' : Hall) → Step lists s s' → IsAccounted s → IsAccounted s'
  unfolding checks selects acquires releases
  Step-IsAccounted s s' enter a = record {
    counted = λ name. omega (arith, a.counted name);
    in_order = (tt, a.in_order);
  }
  Step-IsAccounted s s' (list ws answers names ps answered handed some_listed t) a = record {
    counted = λ name. omega (arith, a.counted name, holders-Turns name _ _ _ _ t);
    in_order =
        All-Turns IsInOrder _ _ _ _ t a.in_order (λ h. (some_listed, (answers, answered, handed)));
  }
  Step-IsAccounted s s' (refuse ws answers ps answered handed t) a = record {
    counted = λ name. omega (arith, a.counted name, holders-Turns name _ _ _ _ t);
    in_order = All-Turns IsInOrder _ _ _ _ t a.in_order (λ h. tt);
  }
  Step-IsAccounted s s' (pick ws names ps t) a =
      let l : IsListed ws names = Turns-All IsInOrder _ _ _ _ t a.in_order in
      let least = select-IsLeast s.lb names l.0 in
      record {
        counted = selects-IsCounted s ws names ps l.0 t a.counted;
        in_order = All-Turns IsInOrder _ _ _ _ t a.in_order (λ h. (ws, names, l, least.0.0));
      }
  Step-IsAccounted s s' (take name ps t) a = record {
    counted = acquires-IsCounted s name ps t a.counted;
    in_order = All-Turns IsInOrder _ _ _ _ t a.in_order (λ h. h);
  }
  Step-IsAccounted s s' (give_back name ps t) a = record {
    counted = releases-IsCounted s name ps t a.counted;
    in_order = All-Turns IsInOrder _ _ _ _ t a.in_order (λ h. tt);
  }
  Step-IsAccounted s s' (check name failed) a = record {
    counted = λ other.
        omega
          (arith, a.counted other, holders-see other (checks s name failed).watchdog s.requests);
    in_order = see-All _ s.requests a.in_order;
  }

  Reach-IsAccounted : (s s' : Hall) → Reach lists s s' → IsAccounted s → IsAccounted s'
  Reach-IsAccounted s s' here a = a
  Reach-IsAccounted s s' (next r step) a = Step-IsAccounted _ _ step (Reach-IsAccounted _ _ r a)

  new_hall-IsAccounted : (cfg : Config) → IsAccounted (new_hall cfg)
  unfolding new_hall new_load_balancer in_flight
  new_hall-IsAccounted cfg = record { counted = λ name. refl; in_order = tt }

  pub reachable-IsAccounted :
      (cfg : Config) (s : Hall) → Reach lists (new_hall cfg) s → IsAccounted s
  reachable-IsAccounted cfg s r = Reach-IsAccounted _ s r (new_hall-IsAccounted cfg)

  -- At every such moment, of a request to either registry that has its list and is about to pick: the
  -- name that it picks is on its list, which the registry handed over for answers of the watchdog since
  -- it came, and no name of the list is held by fewer requests.
  pub reachable-picks :
      (cfg : Config) (s : Hall) (ws : List Watchdog) (names : List String)
      → Reach lists (new_hall cfg) s
      → In (listed ws names) s.requests
      → IsListed ws names
        × In (select s.lb names).0 names
        × ((other : String)
            → In other names
            → holders (select s.lb names).0 s.requests ≤ holders other s.requests)
  reachable-picks cfg s ws names r m =
      let a = reachable-IsAccounted cfg s r in
      let l : IsListed ws names = All-In IsInOrder s.requests a.in_order (listed ws names) m in
      let ((on_list, fewest), _) = select-IsLeast s.lb names l.0 in
      (
        l,
        on_list,
        λ other o. omega (arith, a.counted (select s.lb names).0, a.counted other, fewest other o),
      )
