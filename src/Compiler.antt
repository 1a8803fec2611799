-- ===== src/Compiler.antt =====
-- The compilation of binaries (releases/compiler/compiler.go and parallel.go).
pub mod Pool
pub mod Paths
pub mod Ends
use Prim.Native.String.{◌++◌ as concat}
use go_o11y.Prelude.{
  ℕ, String, Bool, true, false, not, ◌&&◌, Option, none, some, List, [], ◌∷◌, ◌++◌, ◌==◌, str_eq,
  length, leb, ltb, if◌then◌else◌,
}
use go_o11y.Prelude.Int.{ℤ, pos, pos_part}
use go_o11y.Errors.{Err, Result, ok, err}
use go_o11y.Baggage.Prefixes.{trim_prefix}
use package.text.Mathlib.Text.{starts_with}

-- `result` is the pointer to a string, by the number of its cell.
pub record Work : Type 0 where
  pub name : String
  pub target : String
  pub source : String
  pub with_coverage : Bool
  pub tags : String
  pub environment : List String
  pub result : Option ℕ

-- An exec.Cmd.
pub record Command : Type 0 where
  pub path : String
  pub args : List String
  pub dir : String
  pub env : List String

-- What is used of path/filepath, runtime and os.
pub record Outside : Type 0 where
  pub abs : String → Result String
  pub join : List String → String
  pub goos : String
  pub environ : List String
  pub goroot : String

pub record Compiler : Type 0 where
  pub base_dir : String
  pub ld_flags : String

-- The strings that results point to.
abbrev pub Cells : Type 0
Cells = ℕ → String

-- The loop over the environment: the last GOOS counts.
unfoldable pub goos_of : List String → String → String
goos_of [] goos = goos
goos_of (e ∷ env) goos = goos_of env (if starts_with e "GOOS=" then trim_prefix e "GOOS=" else goos)

module _ (o : Outside) where
  unfoldable pub go_path : String
  go_path = if str_eq o.goroot "" then "go" else o.join (o.goroot ∷ "bin" ∷ "go" ∷ [])

  unfoldable pub binary_path : String → String → String → String
  binary_path name temp_dir goos =
      let path = o.join (temp_dir ∷ name ∷ []) in
      if str_eq goos "windows" then concat path ".exe" else path

  -- The path of the binary.
  unfoldable pub path_of : Compiler → Work → String
  unfolding binary_path goos_of
  path_of c w = binary_path w.name c.base_dir (goos_of w.environment o.goos)

  unfoldable pub build_args : Compiler → Work → List String
  unfolding path_of
  build_args c w =
      "build"
        ∷ concat "-ldflags=" c.ld_flags
        ∷ "-o"
        ∷ path_of c w
        ∷ (if not (str_eq w.tags "") then "-tags" ∷ w.tags ∷ [] else [])
      ++ w.source ∷ []

  unfoldable pub test_args : Compiler → Work → List String
  unfolding path_of
  test_args c w =
      "test"
      ∷ "-coverpkg=./..."
      ∷ "-c"
      ∷ w.source
      ∷ "-o"
      ∷ path_of c w
      ∷ "-tags"
      ∷ (if not (str_eq w.tags "") then concat "testrunmain" (concat " " w.tags) else "testrunmain")
      ∷ w.source
      ∷ []

  unfoldable pub command_of : Compiler → Work → String → Command
  unfolding go_path build_args test_args
  command_of c w cwd = record {
    path = go_path;
    args = if not w.with_coverage then build_args c w else test_args c w;
    dir = cwd;
    env = o.environ ++ "CGO_ENABLED=0" ∷ [] ++ w.environment;
  }

  unfoldable pub write_result : Option ℕ → String → Cells → Cells
  write_result none path cells = cells
  write_result (some i) path cells = λ j. if j == i then path else cells j

  -- Compile, where `run` is the error of cmd.Run.
  unfoldable pub compile : Compiler → (Command → Option Err) → Work → Cells → Result String × Cells
  unfolding command_of path_of write_result
  compile c run w cells = elim (o.abs w.target) [
    | err e ↦ (err e, cells)
    | ok cwd ↦ elim (run (command_of c w cwd)) [
      | some e ↦ (err e, cells)
      | none ↦ (ok (path_of c w), write_result w.result (path_of c w) cells)
    ]
  ]

pub record CompilerConfig : Type 0 where
  pub base_dir : String
  pub ld_flags : String
  pub parallelism : ℤ

-- `work` is what the channel holds.
pub record Parallel : Type 0 where
  pub compiler : Compiler
  pub parallelism : ℕ
  pub work : List Work
  pub closed : Bool

abbrev pub work_buffer : ℕ
work_buffer = 100

-- New
unfoldable pub new_parallel : CompilerConfig → Parallel
new_parallel cfg = record {
  compiler = record { base_dir = cfg.base_dir; ld_flags = cfg.ld_flags };
  parallelism = if leb (pos_part cfg.parallelism) 0 then 2 else pos_part cfg.parallelism;
  work = [];
  closed = false;
}

unfoldable pub dir : Parallel → String
dir t = t.compiler.base_dir

-- Cleanup, which panics the second time.
unfoldable pub clean_up : Parallel → Option Parallel
clean_up t = if t.closed then none else some (record t { closed = true })

-- How a call of Add ends. A full channel blocks it until work is taken.
pub data Added : Type 0 where
  panicked : Added
  blocked : Added
  returned : Parallel → Added

abbrev pub is_unset : Option ℕ → Cells → Bool
is_unset none cells = true
is_unset (some i) cells = str_eq (cells i) ""

-- Add
unfoldable pub add : Work → Cells → Parallel → Added
add w cells t =
    if str_eq w.name ""
    then panicked
    else if str_eq w.target ""
    then panicked
    else if str_eq w.source ""
    then panicked
    else if not (is_unset w.result cells)
    then returned t
    else if t.closed
    then panicked
    else if ltb (length t.work) work_buffer
    then returned (record t { work = t.work ++ w ∷ [] })
    else blocked
