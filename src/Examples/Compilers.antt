-- ===== src/Examples/Compilers.antt =====
-- Two works and one goroutine, when the first binary is compiled; and a plugin for two platforms.
use Prim.Native.String.{◌++◌ as concat}
use go_o11y.Prelude.{
  ℕ, ◌≡◌, ◌≢◌, ◌⊎◌, ◌*◌, ◌+◌, ◌≤◌, ◌<◌, refl, arith, String, Bool, false, Option, none, some, List,
  [], ◌∷◌, Dict, put,
}
use go_o11y.Prelude.Int.{pos}
use go_o11y.Errors.{Err, ok}
use go_o11y.Releaser.{Bucket}
use go_o11y.Compiler.{
  Work, Command, Outside, CompilerConfig, Cells, Parallel, returned, new_parallel, add, compile,
  path_of,
}
use go_o11y.Compiler.Pool.{
  Pool, Worker, ready, busy, quit, Step, take, leave, finish, Steps, here, next, started_pool,
  after_compile,
}
use go_o11y.Compiler.Paths.{HasPaths}
use go_o11y.Compiler.Ends.{active, total, count, run-Ends}
use go_o11y.PluginReleaser as PluginReleaser
use go_o11y.PluginReleaser.{
  PluginReleaser, Opts, run_releaser, run_blocked, run_returned, new_compiler,
}
use go_o11y.PluginReleaser.Ends.{Published, run_releaser-Ends}
use go_o11y.Examples.Releasers.{joined, outside as releases}

abbrev tools : Outside
tools = record { abs = λ p. ok p; join = joined; goos = "linux"; environ = []; goroot = "" }

abbrev work_of : String → Option ℕ → List String → Work
work_of name result environment = record {
  name = name;
  target = ".";
  source = "./cmd";
  with_coverage = false;
  tags = "";
  environment = environment;
  result = result;
}

abbrev first_work : Work
first_work = work_of "app" (some 7) ("GOOS=windows" ∷ [])

abbrev second_work : Work
second_work = work_of "tool" none []

abbrev cells : Cells
cells i = ""

abbrev parallel : Parallel
parallel = record {
  compiler = record { base_dir = "tmp"; ld_flags = "-s" };
  parallelism = 1;
  work = first_work ∷ second_work ∷ [];
  closed = false;
}

abbrev config : CompilerConfig
config = record { base_dir = "tmp"; ld_flags = "-s"; parallelism = pos 1 }

two_added :
    add second_work cells (record (new_parallel config) { work = first_work ∷ [] })
    ≡ returned parallel
unfolding add new_parallel
two_added = refl

windows_path : path_of tools parallel.compiler first_work ≡ "tmp/app.exe"
unfolding path_of go_o11y.Baggage.Prefixes.trim_prefix
windows_path = refl

abbrev succeeds : Command → Option Err
succeeds k = none

-- After the first work was taken.
abbrev taken : Pool
taken = record {
  queue = second_work ∷ [];
  closed = false;
  workers = busy first_work ∷ [];
  cells = cells;
  done = [];
  first = none;
}

abbrev compiled : Pool
compiled =
    after_compile first_work [] [] (compile tools parallel.compiler succeeds first_work cells) taken

two_steps : Steps tools parallel.compiler (started_pool cells parallel) 2 compiled
unfolding started_pool
two_steps =
    next
      (next here (take (started_pool cells parallel) [] [] first_work (second_work ∷ []) refl refl))
      (finish taken [] [] first_work succeeds refl)

run-Ends_example :
    (2 ≤ 2 * 2 + 1)
    × (0 < total active compiled.workers → (v : Pool) × Step tools parallel.compiler compiled v)
    × (total active compiled.workers ≡ 0
        → (compiled.first ≢ none)
          ⊎ ((f : Work → Bool) → count f compiled.done ≡ count f parallel.work))
    × HasPaths tools parallel.compiler compiled compiled.done
unfolding after_compile compile
run-Ends_example = run-Ends tools parallel.compiler parallel cells refl (omega arith) two_steps

abbrev plugin : PluginReleaser
plugin = record {
  plugin = "p";
  version = "1.0";
  build_dir = "build";
  platforms = ("linux", "amd64" ∷ []) ∷ ("windows", "amd64" ∷ []) ∷ [];
  bucket = "b";
  namespace = "task-agent-plugins";
}

abbrev platform : String → Work
platform os = record {
  name = joined ("p" ∷ os ∷ "amd64" ∷ "p" ∷ []);
  target = ".";
  source = "./cmd";
  with_coverage = false;
  tags = "";
  environment = concat "GOOS=" os ∷ "GOARCH=amd64" ∷ [];
  result = none;
}

abbrev goroutines : List Work → List Worker → List Work → Pool
goroutines queue workers done = record {
  queue = queue;
  closed = false;
  workers = workers;
  cells = cells;
  done = done;
  first = none;
}

abbrev linux : Work
linux = platform "linux"

abbrev windows : Work
windows = platform "windows"

-- When both goroutines have compiled a work, and returned.
abbrev both_done : Pool
both_done = goroutines [] (quit ∷ quit ∷ []) (windows ∷ linux ∷ [])

abbrev released : PluginReleaser.Outside
released = record {
  release = releases;
  compiled = λ t files. record {
    pool = both_done;
    files = put "bin/linux/amd64" "x" (put "bin/windows/amd64" "y" (put "bin/README" "z" files));
  };
  remove_all = λ dir files. [];
}

abbrev opts : Opts
opts = record { source = "./cmd"; working_dir = ""; ld_flags = "" }

abbrev empty_bucket : Bucket
empty_bucket = record { files = []; uploads = [] }

abbrev both : List Work
both = linux ∷ windows ∷ []

abbrev plugin_pool : Parallel
plugin_pool = record (new_compiler released plugin "") { work = both }

-- The second goroutine is the first to compile.
both_run : Steps tools plugin_pool.compiler (started_pool cells plugin_pool) 6 both_done
unfolding started_pool new_compiler after_compile compile
both_run =
    next
      (next
        (next
          (next
            (next
              (next here (
                take (goroutines both (ready ∷ ready ∷ []) []) [] (ready ∷ []) linux (windows ∷ [])
                  refl refl))
              (take (goroutines (windows ∷ []) (busy linux ∷ ready ∷ []) []) (busy linux ∷ []) []
                windows [] refl refl))
            (finish (goroutines [] (busy linux ∷ busy windows ∷ []) []) (busy linux ∷ []) [] windows
              succeeds refl))
          (finish (goroutines [] (busy linux ∷ ready ∷ []) (windows ∷ [])) [] (ready ∷ []) linux
            succeeds refl))
        (leave (goroutines [] (ready ∷ ready ∷ []) (windows ∷ linux ∷ [])) [] (ready ∷ []) refl refl
          refl))
      (leave (goroutines [] (quit ∷ ready ∷ []) (windows ∷ linux ∷ [])) (quit ∷ []) [] refl refl
        refl)

run_releaser-Ends_example :
    let built = released.compiled plugin_pool [] in
    (100 < 2 → run_releaser released plugin opts empty_bucket ≡ run_blocked)
    × (2 ≤ 100
        → (out : Option Err × Bucket) × (run_releaser released plugin opts empty_bucket
            ≡ run_returned out)
          × ((f : Dict String) × (out.1.files ≡ []))
          × (out.0 ≡ none
              → (built.pool.first ≡ none)
                × ((f : Work → Bool) → count f built.pool.done ≡ count f both)
                × Published released plugin built.files empty_bucket out.1))
run_releaser-Ends_example =
    run_releaser-Ends released plugin tools cells opts empty_bucket refl
      ((λ e. cc e, tt), ((λ e. cc e, tt), tt)) ((6, both_run), refl)
