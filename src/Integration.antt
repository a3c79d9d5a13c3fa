-- ===== src/Integration.antt =====
-- integration/app.go: the program started for the integration tests, on a Unix system. The state
-- `M` of the operating system, and what its calls do to it, are parameters.
mod Descent
mod Root
mod Wait
mod Start
mod Tests
use inferencia.Common.{
  ℕ, zero, suc, ◌+◌, ◌*◌, ◌≡◌, String, Bool, true, false, Option, none, some, List, [], ◌∷◌, ◌++◌,
  code, ◌&&◌, ◌||◌, ◌==◌, if◌then◌else◌, leb, ltb, eqb, Result, ok, err, dir, join_path, join_text,
  size,
}

abbrev pub integration_port : String
integration_port = "18080"

abbrev pub health_path : String
health_path = "/health"

-- `GetIntegrationPort` and `GetIntegrationBaseURL`.
abbrev pub get_integration_port : String
get_integration_port = integration_port

abbrev pub get_integration_base_url : String
get_integration_base_url = join_text "127.0.0.1:" integration_port

module _ (stat : String → Bool) where
  unfoldable pub has_go_mod : String → Bool
  has_go_mod path = stat (join_path (path ∷ "go.mod" ∷ []))

  -- The loop of `findRepoRoot`; no result if the fuel is used up.
  abbrev pub find_up : ℕ → String → String → Option (Result String String)
  find_up zero start path = none
  find_up (suc fuel) start path =
      let above = find_up fuel start (dir path) in
      if has_go_mod path
      then some (ok path)
      else if dir path == path
      then some (err (join_text "go.mod not found from " start))
      else above

  abbrev pub from_working_directory : Result String String → Option (Result String String)
  from_working_directory (err e) = some (err e)
  from_working_directory (ok start) = find_up (size start + 2) start start

  -- `root` is the variable INTEGRATION_REPO_ROOT, and `getwd` the result of os.Getwd.
  unfoldable pub find_repo_root : String → Result String String → Option (Result String String)
  find_repo_root root getwd =
      if root == ""
      then from_working_directory getwd
      else if has_go_mod root
      then some (ok root)
      else from_working_directory getwd

-- A request to `/health`: whether it is answered, the milliseconds it takes, and whether the timer
-- wins if it fires together with the deadline.
pub record Attempt : Type 0 where
  pub answers : Bool
  pub took : ℕ
  pub timer_first : Bool

-- After a request that failed at the time `failed`, the timer fires before the deadline.
unfoldable pub timer_wins : Bool → ℕ → ℕ → Bool
timer_wins timer_first deadline failed =
    ltb failed deadline
    && (ltb (failed + 200) deadline || (eqb (failed + 200) deadline && timer_first))

-- The loop of `waitForHealth` from the `i`-th request on, at the time `now`; no result if the fuel is
-- used up.
abbrev pub wait_for_health : ℕ → (ℕ → Attempt) → ℕ → ℕ → ℕ → Option (Result String (Unit {0}))
wait_for_health zero attempt deadline i now = none
wait_for_health (suc fuel) attempt deadline i now =
    let a = attempt i in
    let failed = now + a.took in
    let later = wait_for_health fuel attempt deadline (i + 1) (failed + 200) in
    if a.answers
    then some (ok tt)
    else if timer_wins a.timer_first deadline failed
    then later
    else some (err "context deadline exceeded")

-- What the program asks of the operating system: the environment, the files and the processes.
-- `meanwhile` is what happens on the system while the started program is waited for, which may exit.
pub record Os (M : Type 0) : Type 0 where
  pub env_root : String
  pub getwd : Result String String
  pub goos : String
  pub goarch : String
  pub environ : List String
  pub stat : M → String → Bool
  pub read_file : M → String → Result String String
  pub mkdir_all : M → String → Option String × M
  pub write_file : M → String → String → Option String × M
  pub combined_output : M → String → List String → List String → Option String × String × M
  pub start : M → String → String → List String → Result String ℕ × M
  pub kill : M → ℕ → M
  pub wait : M → ℕ → M
  pub remove : M → String → M
  pub attempt : M → String → ℕ → Attempt
  pub meanwhile : M → ℕ → M

-- What `StartApp` returns: the URL, and what its cleanup function holds.
pub record App : Type 0 where
  pub base_url : String
  pub pid : ℕ
  pub binary_path : String

module _ {M : Type 0} (os : Os M) where
  abbrev pub write_copy : String → Option String × M → String → Option String × M
  write_copy content (some e, m) dst = (some e, m)
  write_copy content (none, m) dst = os.write_file m dst content

  abbrev pub copied : M → String → Result String String → Option String × M
  copied m dst (err e) = (some e, m)
  copied m dst (ok content) = write_copy content (os.mkdir_all m (dir dst)) dst

  abbrev pub copy_file : M → String → String → Option String × M
  copy_file m src dst = copied m dst (os.read_file m src)

  unfoldable pub cleanup : App → M → M
  cleanup app m = os.remove (os.wait (os.kill m app.pid) app.pid) app.binary_path

  abbrev pub answered : App → M → Option (Result String (Unit {0})) → Option (Result String App) × M
  answered app m none = (none, m)
  answered app m (some (ok _)) = (some (ok app), m)
  answered app m (some (err e)) = (some (err (join_text "wait for health: " e)), cleanup app m)

  abbrev pub started : String → Result String ℕ × M → Option (Result String App) × M
  started path (err e, m) = (some (err (join_text "start app: " e)), m)
  started path (ok pid, m) =
      let base_url = join_text "http://127.0.0.1:" integration_port in
      let app : App = record { base_url = base_url; pid = pid; binary_path = path } in
      answered app (os.meanwhile m pid)
        (wait_for_health 76 (os.attempt m (join_text base_url health_path)) 15000 0 0)

  abbrev app_env : List String
  app_env =
      os.environ
      ++ ("INFERENCIA_HOST=127.0.0.1"
          ∷ join_text "INFERENCIA_PORT=" integration_port
          ∷ "INFERENCIA_API_KEYS=sk-integration-test"
          ∷ [])

  abbrev pub built : String → String → Option String × String × M → Option (Result String App) × M
  built root path (some e, out, m) =
      (some (err (join_text "build binary: " (join_text e (join_text "\n" out)))), m)
  built root path (none, out, m) = started path (os.start m path root app_env)

  abbrev binary_path_in : String → String
  binary_path_in root =
      let name : String = "inferencia_integration_test" in
      join_path (root ∷ (if os.goos == "windows" then join_text name ".exe" else name) ∷ [])

  abbrev build_env : List String
  build_env = os.environ ++ (join_text "GOOS=" os.goos ∷ join_text "GOARCH=" os.goarch ∷ [])

  abbrev pub with_spec : String → Option String × M → Option (Result String App) × M
  with_spec root (some e, m) = (some (err (join_text "copy openapi spec: " e)), m)
  with_spec root (none, m) =
      let path = binary_path_in root in
      built root path (
        os.combined_output m root ("go" ∷ "build" ∷ "-o" ∷ path ∷ "./cmd/inferencia" ∷ [])
          build_env)

  abbrev pub ensure_spec : M → String → Option String × M
  ensure_spec m root =
      let dst = join_path (root ∷ "internal" ∷ "openapi" ∷ "spec.yaml" ∷ []) in
      if os.stat m dst
      then (none, m)
      else copy_file m (join_path (root ∷ "docs" ∷ "openapi.yaml" ∷ [])) dst

  abbrev pub rooted : M → Option (Result String String) → Option (Result String App) × M
  rooted m none = (none, m)
  rooted m (some (err e)) = (some (err (join_text "find repo root: " e)), m)
  rooted m (some (ok root)) = with_spec root (ensure_spec m root)

  unfoldable pub start_app : M → Option (Result String App) × M
  start_app m = rooted m (find_repo_root (os.stat m) os.env_root os.getwd)

-- `strings.TrimSuffix` of a slash.
abbrev pub trim_slash : String → String
trim_slash String.[] = ""
trim_slash (String.◌∷◌ c s) =
    let rest = trim_slash s in if eqb (code c) b'/' && (s == "") then "" else String.◌∷◌ c rest

-- `get` is http.Get, up to the status.
unfoldable pub is_running : (String → Result String ℕ) → String → Bool
is_running get base_url = elim (get (join_text (trim_slash base_url) health_path)) [
  | err e ↦ false
  | ok status ↦ eqb status 200
]
