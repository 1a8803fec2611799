-- ===== src/PluginReleaser.antt =====
-- The compilation and publishing of plugins (plugin/releaser/releaser.go), on top of Compiler and
-- Releaser.
pub mod Works
pub mod Ends
use Prim.Native.String.{◌++◌ as concat}
use go_o11y.Prelude.{
  String, Bool, false, not, ◌||◌, Option, none, some, List, [], ◌∷◌, ◌++◌, str_eq, if◌then◌else◌,
  Dict,
}
use go_o11y.Prelude.Int.{pos}
use go_o11y.Errors.{Err, Result, ok, err, text, wrap}
use go_o11y.Releaser.{Bucket, PublishParameters, ReleaseParameters, unless_error, publish, release}
use go_o11y.Releaser as Releaser
use go_o11y.Compiler.Pool.{Pool}
use go_o11y.Compiler.{
  Work, Parallel, Added, panicked, blocked, returned, new_parallel, add, clean_up,
}

pub data Namespace : Type 0 where
  namespace_plugin : Namespace
  namespace_subcommand : Namespace
  other_namespace : Namespace

-- String of Namespace
unfoldable pub namespace_text : Namespace → String
namespace_text namespace_plugin = "task-agent-plugins"
namespace_text namespace_subcommand = "task-agent-subcommands"
namespace_text other_namespace = "task-agent-plugins"

abbrev pub Platforms : Type 0
Platforms = Dict (List String)

-- `client` says whether there is one.
pub record Config : Type 0 where
  pub plugin : String
  pub version : String
  pub platforms : Platforms
  pub bucket : String
  pub namespace : Namespace
  pub client : Bool

pub record PluginReleaser : Type 0 where
  pub plugin : String
  pub version : String
  pub build_dir : String
  pub platforms : Platforms
  pub bucket : String
  pub namespace : String

pub record Opts : Type 0 where
  pub source : String
  pub working_dir : String
  pub ld_flags : String

unfoldable pub platforms_or_default : Platforms → Platforms
platforms_or_default [] =
    ("linux", "amd64" ∷ "arm" ∷ "arm64" ∷ "ppc64le" ∷ "s390x" ∷ [])
    ∷ ("darwin", "amd64" ∷ "arm64" ∷ [])
    ∷ ("windows", "amd64" ∷ [])
    ∷ []
platforms_or_default (p ∷ ps) = p ∷ ps

-- New, where `made` is what os.MkdirTemp gives.
unfoldable pub new_releaser : Config → Result String → Result PluginReleaser
unfolding platforms_or_default namespace_text
new_releaser cfg made =
    if str_eq cfg.plugin "" || str_eq cfg.version ""
    then err (text "plugin and version must be provided")
    else if not cfg.client
    then err (text "client must be provided")
    else elim made [
      | err e ↦ err e
      | ok dir ↦ ok (record {
        plugin = cfg.plugin;
        version = cfg.version;
        build_dir = dir;
        platforms = platforms_or_default cfg.platforms;
        bucket = if str_eq cfg.bucket "" then "circleci-binary-releases" else cfg.bucket;
        namespace = namespace_text cfg.namespace;
      })
    ]

-- How Run of the compiler ends: its pool, when all goroutines have returned, and the files that the
-- Go tool left.
pub record Compilation : Type 0 where
  pub pool : Pool
  pub files : Dict String

-- What is used of other packages and of the Go tool; how the goroutines of the compiler took turns,
-- as the end that they came to; and os.RemoveAll.
pub record Outside : Type 0 where
  pub release : Releaser.Outside
  pub compiled : Parallel → Dict String → Compilation
  pub remove_all : String → Dict String → Dict String

-- How Run ends.
pub data RunEnd : Type 0 where
  run_panicked : RunEnd
  run_blocked : RunEnd
  run_returned : Option Err × Bucket → RunEnd

-- The calls of Add, one after another. Results are not asked for.
unfoldable pub add_each : List Work → Parallel → Added
add_each [] t = returned t
add_each (w ∷ ws) t = elim (add w (λ i. "") t) [
  | panicked ↦ panicked
  | blocked ↦ blocked
  | returned t' ↦ add_each ws t'
]

module _ (o : Outside) (r : PluginReleaser) where
  unfoldable pub work_for : String → String → String → String → Work
  work_for source working_dir os arch = record {
    name = o.release.join (r.plugin ∷ os ∷ arch ∷ r.plugin ∷ []);
    source = source;
    target = working_dir;
    with_coverage = false;
    tags = "";
    environment = concat "GOOS=" os ∷ concat "GOARCH=" arch ∷ [];
    result = none;
  }

  abbrev for_archs : String → String → String → List String → List Work
  for_archs source working_dir os [] = []
  for_archs source working_dir os (a ∷ archs) =
      work_for source working_dir os a ∷ for_archs source working_dir os archs

  -- The works of the loops of build.
  abbrev pub works : String → String → Platforms → List Work
  works source working_dir [] = []
  works source working_dir ((os, archs) ∷ ps) =
      for_archs source working_dir os archs ++ works source working_dir ps

  unfoldable pub new_compiler : String → Parallel
  unfolding new_parallel
  new_compiler extra = new_parallel (record {
    base_dir = r.build_dir;
    ld_flags = concat "-s -w" (concat " " extra);
    parallelism = pos 0;
  })

  unfoldable pub publish_parameters : PublishParameters
  publish_parameters = record {
    app = o.release.join (r.namespace ∷ r.plugin ∷ []);
    bucket = r.bucket;
    path = o.release.join (r.build_dir ∷ r.plugin ∷ []);
    version = r.version;
    include_filter = none;
    tags = [];
  }

  unfoldable pub release_parameters : ReleaseParameters
  release_parameters = record {
    app = o.release.join (r.namespace ∷ r.plugin ∷ []);
    bucket = r.bucket;
    version = r.version;
    environment = "";
    tags = [];
  }

  -- upload
  unfoldable pub upload_release : Bucket → Option Err × Bucket
  unfolding unless_error publish release publish_parameters release_parameters
  upload_release b =
      let out = publish o.release publish_parameters b in
      unless_error out (release o.release release_parameters out.1)

  wrapped : String → Option Err → Option Err
  wrapped m none = none
  wrapped m (some e) = some (wrap m e)

  -- The cleanup that build returns, which is deferred: Cleanup of the compiler panics if it was called
  -- before.
  unfoldable pub clean : Parallel → Option Err × Bucket → RunEnd
  unfolding clean_up
  clean t (e, b) = elim (clean_up t) [
    | none ↦ run_panicked
    | some t' ↦ run_returned (e, record b { files = o.remove_all r.build_dir b.files })
  ]

  -- The part of Run after build.
  unfoldable pub after_build : Parallel → Option Err → Bucket → RunEnd
  unfolding upload_release wrapped clean
  after_build t (some f) b = clean t (some (wrap "build" f), b)
  after_build t none b = let (g, sent) = upload_release b in clean t (wrapped "upload" g, sent)

  -- The part of Run after the works were added. Run of the compiler returns the first error.
  unfoldable pub after_added : Parallel → Bucket → RunEnd
  unfolding after_build
  after_added t b =
      let c = o.compiled t b.files in
      after_build (record t { work = c.pool.queue; closed = c.pool.closed }) c.pool.first
        (record b { files = c.files })

  -- Run
  unfoldable pub run_releaser : Opts → Bucket → RunEnd
  unfolding add_each new_compiler after_added
  run_releaser opts b =
      let working_dir = if str_eq opts.working_dir "" then "." else opts.working_dir in
      if str_eq opts.source ""
      then run_returned (some (text "source must not be empty"), b)
      else elim (add_each (works opts.source working_dir r.platforms)
          (new_compiler opts.ld_flags)) [
            | panicked ↦ run_panicked
            | blocked ↦ run_blocked
            | returned t ↦ after_added t b
          ]
