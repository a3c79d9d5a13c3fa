-- ===== src/Integration/Tests.antt =====
-- A repository under /repo, and a system that keeps only the child processes.
use inferencia.Common.{
  ℕ, ◌≡◌, refl, String, Bool, true, false, none, some, List, [], ◌∷◌, ◌==◌, arith, ok, err, clean,
  dir, join_path, ltb, if◌then◌else◌,
}
use inferencia.Integration.{
  Os, App, Attempt, find_repo_root, has_go_mod, wait_for_health, start_app, is_running, timer_wins,
}
use inferencia.Integration.Root.{IsRootFound, find_repo_root-IsRootFound}
use inferencia.Integration.Wait.{IsWaited, wait_for_health-IsWaited}
use inferencia.Integration.Start.{IsOs, IsStarted, start_app-IsStarted}

-- The examples of Go's documentation.
cleaned : clean "/../a/b/../././/c" ∷ clean "a/../.." ∷ clean "" ∷ [] ≡ "/a/c" ∷ ".." ∷ "." ∷ []
cleaned = refl

directories :
    dir "/foo/bar/baz.js" ∷ dir "/foo/bar/" ∷ dir "/" ∷ dir "bar" ∷ dir "../todo.txt" ∷ []
    ≡ "/foo/bar" ∷ "/foo/bar" ∷ "/" ∷ "." ∷ ".." ∷ []
directories = refl

joined : join_path ("" ∷ "a" ∷ "" ∷ "../b" ∷ []) ≡ "b"
joined = refl

abbrev stat : String → Bool
stat path = path == "/repo/go.mod"

found : find_repo_root stat "/elsewhere" (ok "/repo/internal/backend") ≡ some (ok "/repo")
unfolding find_repo_root has_go_mod
found = refl

nowhere : find_repo_root stat "" (ok "/home/user") ≡ some (err "go.mod not found from /home/user")
unfolding find_repo_root has_go_mod
nowhere = refl

find_repo_root-IsRootFound_example :
    IsRootFound stat "/elsewhere"
      (ok "/repo/internal/backend")
      (find_repo_root stat "/elsewhere" (ok "/repo/internal/backend"))
find_repo_root-IsRootFound_example =
    find_repo_root-IsRootFound stat "/elsewhere" (ok "/repo/internal/backend")

-- The program answers the fourth request.
abbrev attempt : ℕ → Attempt
attempt i = record { answers = ltb 2 i; took = 10; timer_first = true }

wait_for_health-IsWaited_example :
    IsWaited attempt 15000 76 0 (wait_for_health 76 attempt 15000 0 0)
wait_for_health-IsWaited_example = wait_for_health-IsWaited attempt 15000 76 (omega arith)

-- A program that never answers, and takes no time to refuse.
never :
    wait_for_health 76 (λ i. record { answers = false; took = 0; timer_first = true }) 15000 0 0
    ≡ some (err "context deadline exceeded")
unfolding timer_wins
never = refl

abbrev tail : List ℕ → List ℕ
tail [] = []
tail (p ∷ ps) = ps

abbrev os : Os (List ℕ)
os = record {
  env_root = "/repo";
  getwd = err "no directory";
  goos = "linux";
  goarch = "arm64";
  environ = [];
  stat = λ m path. stat path;
  read_file = λ m path. ok "openapi: 3.0.3";
  mkdir_all = λ m path. (none, m);
  write_file = λ m path content. (none, m);
  combined_output = λ m d args env. (none, "", m);
  start = λ m path d env. (ok 7, 7 ∷ m);
  kill = λ m pid. m;
  wait = λ m pid. tail m;
  remove = λ m path. m;
  attempt = λ m url i. attempt i;
  meanwhile = λ m pid. m;
}

os-IsOs : IsOs os (λ m. m)
os-IsOs = record {
  mkdir_all = λ m path. refl;
  write_file = λ m path content. refl;
  combined_output = λ m d args env. refl;
  start_fails = λ m m' path d env e h. absurd cc;
  start_adds = λ m m' path d env pid h. cc;
  meanwhile = λ m pid. refl;
  reaps = λ m pid others h. rw h refl;
  remove = λ m path. refl;
}

abbrev app : App
app = record {
  base_url = "http://127.0.0.1:18080";
  pid = 7;
  binary_path = "/repo/inferencia_integration_test";
}

starts : start_app os [] ≡ (some (ok app), 7 ∷ [])
unfolding start_app find_repo_root has_go_mod timer_wins
starts = refl

start_app-IsStarted_example : IsStarted os (λ m. m) [] (start_app os [])
start_app-IsStarted_example = start_app-IsStarted os (λ m. m) os-IsOs []

trimmed :
    is_running
      (λ url. if url == "http://localhost/health" then ok 200 else err "")
      "http://localhost/"
    ≡ true
unfolding is_running
trimmed = refl
