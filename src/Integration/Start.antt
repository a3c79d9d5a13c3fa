-- ===== src/Integration/Start.antt =====
-- What `StartApp` leaves behind.
use inferencia.Common.{
  ℕ, ◌≡◌, refl, ◌∙◌, ◌⊎◌, inl, inr, String, Bool, Option, none, some, List, [], ◌∷◌, arith, Result,
  ok, err, Bool-cases, ap, dir, join_path,
}
use inferencia.Integration.{
  Os, App, write_copy, copied, cleanup, answered, started, built, with_spec, ensure_spec, rooted,
  start_app, find_repo_root,
}
use inferencia.Integration.Root.{find_repo_root-IsRootFound}
use inferencia.Integration.Wait.{wait_for_health-IsWaited}

-- What the system says of the processes: `children` lists the programs that were started and have not
-- been waited for, whether they still run or have exited. Killing and waiting takes one off the list.
pub record IsOs {M : Type 0} (os : Os M) (children : M → List ℕ) : Type 0 where
  pub mkdir_all : (m : M) (path : String) → children (os.mkdir_all m path).1 ≡ children m
  pub write_file :
      (m : M) (path content : String) → children (os.write_file m path content).1 ≡ children m
  pub combined_output :
      (m : M) (d : String) (args env : List String)
      → children (os.combined_output m d args env).2 ≡ children m
  pub start_fails :
      (m m' : M) (path d : String) (env : List String) (e : String)
      → os.start m path d env ≡ (err e, m')
      → children m' ≡ children m
  pub start_adds :
      (m m' : M) (path d : String) (env : List String) (pid : ℕ)
      → os.start m path d env ≡ (ok pid, m')
      → children m' ≡ pid ∷ children m
  pub meanwhile : (m : M) (pid : ℕ) → children (os.meanwhile m pid) ≡ children m
  pub reaps :
      (m : M) (pid : ℕ) (others : List ℕ)
      → children m ≡ pid ∷ others
      → children (os.wait (os.kill m pid) pid) ≡ others
  pub remove : (m : M) (path : String) → children (os.remove m path) ≡ children m

found_some :
    (stat : String → Bool) (root : String) (getwd : Result String String)
    → (r : Result String String) × (find_repo_root stat root getwd ≡ some r)
found_some stat root getwd = elim (find_repo_root-IsRootFound stat root getwd) [
  | inl (_, _, e) ↦ (_, e)
  | inr (_, inl (_, _, e)) ↦ (_, e)
  | inr (_, inr (_, _, inl (_, e, _, _))) ↦ (_, e)
  | inr (_, inr (_, _, inr (e, _))) ↦ (_, e)
]

module _ {M : Type 0} (os : Os M) (children : M → List ℕ) where
  -- Either an error and the same children as before; or one child more, running or exited, that the
  -- cleanup function ends and waits for.
  abbrev pub IsStarted : M → Option (Result String App) × M → Type 0
  IsStarted before result =
      ((e : String) × (m : M) × (result ≡ (some (err e), m)) × (children m ≡ children before))
      ⊎ ((app : App) × (m : M) × (result ≡ (some (ok app), m))
          × (children m ≡ app.pid ∷ children before)
          × (children (cleanup os app m) ≡ children before))

module _ {M : Type 0} (os : Os M) (children : M → List ℕ) (laws : IsOs os children) where
  cleanup-children :
      (app : App) (m : M) (others : List ℕ)
      → children m ≡ app.pid ∷ others
      → children (cleanup os app m) ≡ others
  unfolding cleanup
  cleanup-children app m others e = laws.remove _ app.binary_path ∙ laws.reaps m app.pid others e

  answered-IsStarted :
      (before m : M) (app : App) (found : Option (Result String (Unit {0})))
      → children m ≡ app.pid ∷ children before
      → ((found ≡ some (ok tt)) ⊎ ((e : String) × (found ≡ some (err e))))
      → IsStarted os children before (answered os app m found)
  answered-IsStarted before m app found e (inl ready) =
      rw ready (inr (app, m, refl, e, cleanup-children app m (children before) e))
  answered-IsStarted before m app found e (inr (why, late)) =
      rw late (inl (_, _, refl, cleanup-children app m (children before) e))

  started-IsStarted :
      (before : M) (path : String) (r : Result String ℕ × M)
      → ((e : String) (m : M) → r ≡ (err e, m) → children m ≡ children before)
      → ((pid : ℕ) (m : M) → r ≡ (ok pid, m) → children m ≡ pid ∷ children before)
      → IsStarted os children before (started os path r)
  started-IsStarted before path (err e, m) fails runs = inl (_, m, refl, fails e m refl)
  started-IsStarted before path (ok pid, m) fails runs =
      let waited =
        wait_for_health-IsWaited (os.attempt m "http://127.0.0.1:18080/health") 15000 76
          (omega arith) in
      answered-IsStarted before (os.meanwhile m pid) _ _ (laws.meanwhile m pid ∙ runs pid m refl)
        (elim waited [
          | inl (_, _, _, ready, _, _, _) ↦ inl ready
          | inr (_, _, _, late, _, _) ↦ inr (_, late)
        ])

  built-IsStarted :
      (before : M) (root path : String) (r : Option String × String × M)
      → children r.2 ≡ children before
      → IsStarted os children before (built os root path r)
  built-IsStarted before root path (some e, out, m) h = inl (_, m, refl, h)
  built-IsStarted before root path (none, out, m) h =
      started-IsStarted before path _ (λ e m' s. laws.start_fails m m' _ _ _ e s ∙ h)
        (λ pid m' s. laws.start_adds m m' _ _ _ pid s ∙ ap (λ ps. pid ∷ ps) h)

  write_copy-children :
      (before : M) (content dst : String) (r : Option String × M)
      → children r.1 ≡ children before
      → children (write_copy os content r dst).1 ≡ children before
  write_copy-children before content dst (some e, m) h = h
  write_copy-children before content dst (none, m) h = laws.write_file m dst content ∙ h

  copied-children :
      (m : M) (dst : String) (r : Result String String)
      → children (copied os m dst r).1 ≡ children m
  copied-children m dst (err e) = refl
  copied-children m dst (ok content) =
      write_copy-children m content dst (os.mkdir_all m (dir dst)) (laws.mkdir_all m (dir dst))

  ensure_spec-children : (m : M) (root : String) → children (ensure_spec os m root).1 ≡ children m
  ensure_spec-children m root =
      elim (Bool-cases (os.stat m (join_path (root ∷ "internal" ∷ "openapi" ∷ "spec.yaml" ∷ [])))) [
        | inl there ↦ rw there refl
        | inr missing ↦
            rw missing
              (copied-children m (join_path (root ∷ "internal" ∷ "openapi" ∷ "spec.yaml" ∷ [])) _)
      ]

  with_spec-IsStarted :
      (before : M) (root : String) (r : Option String × M)
      → children r.1 ≡ children before
      → IsStarted os children before (with_spec os root r)
  with_spec-IsStarted before root (some e, m) h = inl (_, m, refl, h)
  with_spec-IsStarted before root (none, m) h =
      built-IsStarted before root _ _ (laws.combined_output m root _ _ ∙ h)

  rooted-IsStarted :
      (m : M) (found : Option (Result String String))
      → ((r : Result String String) × (found ≡ some r))
      → IsStarted os children m (rooted os m found)
  rooted-IsStarted m none (r, e) = absurd cc
  rooted-IsStarted m (some (err e)) _ = inl (_, m, refl, refl)
  rooted-IsStarted m (some (ok root)) _ = with_spec-IsStarted m root _ (ensure_spec-children m root)

  -- `StartApp` returns, whatever the files, the commands and the started program do. If it reports an
  -- error, it leaves no child process: one that it started is killed and waited for. Otherwise there is
  -- one child more, running or exited, and the cleanup function kills it and waits for it.
  pub start_app-IsStarted : (m : M) → IsStarted os children m (start_app os m)
  unfolding start_app
  start_app-IsStarted m = rooted-IsStarted m _ (found_some (os.stat m) os.env_root os.getwd)
