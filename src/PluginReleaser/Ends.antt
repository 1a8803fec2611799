-- ===== src/PluginReleaser/Ends.antt =====
-- How Run of the plugin releaser ends (plugin/releaser/releaser.go).
use mathlib.Core.Path.{subst}
use go_o11y.Prelude.{
  ℕ, ◌≤◌, ◌<◌, ◌≡◌, refl, ap, ◌∙◌, arith, String, Bool, false, Option, none, some, List, [], ◌∷◌,
  ◌++◌, length, All, str_eq, Bool-cases, inl, inr, if◌then◌else◌, Dict,
}
use go_o11y.Errors.{Err, text, wrap}
use go_o11y.Releaser.{
  Bucket, PublishParameters, ReleaseParameters, publish, release, release_upload, checksums_upload,
}
use go_o11y.Releaser.Uploads.{
  unlines, lines, binaries, paths_of, publish-uploads, upload-none, unless_error-none,
}
use go_o11y.Compiler as Compiler
use go_o11y.Compiler.Pool.{Steps, started_pool}
use go_o11y.Compiler.Ends.{total, active, count, run-Ends, Steps-open}
use go_o11y.Compiler.{Cells, clean_up, Work, Parallel, Added, panicked, blocked, returned, add}
use go_o11y.PluginReleaser.Works.{
  IsWork, HasName, pairs, works_of, works-IsWork, works-works_of, add_each-room, add_each-full,
}
use go_o11y.PluginReleaser.{
  Outside, Compilation, PluginReleaser, Opts, RunEnd, run_panicked, run_blocked, run_returned,
  add_each, works, new_compiler, after_added, after_build, run_releaser, upload_release,
  publish_parameters, release_parameters, wrapped, clean,
}

module _ (o : Outside) (r : PluginReleaser) where
  -- What is in the bucket after a release of files.
  abbrev pub Published : Dict String → Bucket → Bucket → Type 0
  Published files b done =
      let app = o.release.join (r.namespace ∷ r.plugin ∷ []) in
      let p : PublishParameters = record {
        app = app;
        bucket = r.bucket;
        path = o.release.join (r.build_dir ∷ r.plugin ∷ []);
        version = r.version;
        include_filter = none;
        tags = [];
      } in
      let q : ReleaseParameters = record {
        app = app;
        bucket = r.bucket;
        version = r.version;
        environment = "";
        tags = [];
      } in
      let paths = paths_of o.release p (record b { files = files }) in
      done.uploads
      ≡ b.uploads
        ++ (binaries o.release p files paths
            ++ checksums_upload o.release p (unlines (lines o.release p files paths)) ∷ [])
        ++ release_upload o.release q ∷ []

  upload_release-Published :
      (files : Dict String) (b : Bucket)
      → (upload_release o r (record b { files = files })).0 ≡ none
      → Published files b (upload_release o r (record b { files = files })).1
  unfolding upload_release release publish_parameters release_parameters
  upload_release-Published files b h =
      let p = publish_parameters o r in
      let built = record b { files = files } in
      let out = publish o.release p built in
      let (e, k, q) = unless_error-none out (release o.release (release_parameters o r) out.1) h in
      ap (λ (x : Option Err × Bucket). x.1.uploads) q
      ∙ ap (λ (x : Bucket). x.uploads)
          (upload-none o.release p (release_upload o.release (release_parameters o r)) out.1 k)
      ∙ ap (λ x. x ++ release_upload o.release (release_parameters o r) ∷ [])
          (publish-uploads o.release p built e)

  wrapped-none : (m : String) (e : Option Err) → wrapped o r m e ≡ none → e ≡ none
  unfolding wrapped
  wrapped-none m none h = refl
  wrapped-none m (some e) h = absurd (cc h)

  -- The error that Run returns and the bucket, before the cleanup.
  uncleaned : Option Err → Bucket → Option Err × Bucket
  uncleaned (some f) b = (some (wrap "build" f), b)
  uncleaned none b = (wrapped o r "upload" (upload_release o r b).0, (upload_release o r b).1)

  removed : Option Err × Bucket → Option Err × Bucket
  removed (e, b) = (e, record b { files = o.remove_all r.build_dir b.files })

  after_build-open :
      (t : Parallel) (e : Option Err) (b : Bucket)
      → t.closed ≡ false
      → after_build o r t e b ≡ run_returned (removed (uncleaned e b))
  unfolding after_build clean clean_up uncleaned removed
  after_build-open t (some f) b h = ground (arith, h)
  after_build-open t none b h = ground (arith, h)

  uncleaned-Published :
      (e : Option Err) (files : Dict String) (b : Bucket)
      → (removed (uncleaned e (record b { files = files }))).0 ≡ none
      → (e ≡ none) × Published files b (removed (uncleaned e (record b { files = files }))).1
  unfolding uncleaned removed
  uncleaned-Published (some f) files b h = absurd (cc h)
  uncleaned-Published none files b h = (
    refl,
    upload_release-Published files b
        (wrapped-none "upload" (upload_release o r (record b { files = files })).0 h),
  )

  -- How Run ends once its works were added, when there is no binary with an empty name.
  module _ (tools : Compiler.Outside) (cells : Cells) (extra : String) (ws : List Work) where
    abbrev filled : Parallel
    filled = record (new_compiler o r extra) { work = ws }

    -- The compilation ends at an end that the goroutines of Run can come to.
    abbrev pub IsRun : Compilation → Type 0
    IsRun c =
        ((n : ℕ) × Steps tools filled.compiler (started_pool cells filled) n c.pool)
        × (total active c.pool.workers ≡ 0)

    -- It failed, or compiled each of the works.
    compiled_all :
        (c : Compilation)
        → IsRun c
        → (c.pool.closed ≡ false)
          × (c.pool.first ≡ none → (f : Work → Bool) → count f c.pool.done ≡ count f ws)
    unfolding new_compiler
    compiled_all c ((n, steps), e) =
        let (bound, progress, ends, paths) =
          run-Ends tools filled.compiler filled cells refl (omega arith) steps in
        (
          Steps-open tools filled.compiler filled cells refl steps,
          λ h. elim (ends e) [ inl g ↦ absurd (g h) | inr k ↦ k ],
        )

    abbrev Ended : Bucket → Compilation → Option Err × Bucket → Type 0
    Ended b c out =
        ((f : Dict String) × (out.1.files ≡ o.remove_all r.build_dir f))
        × (out.0 ≡ none
            → (c.pool.first ≡ none)
              × ((f : Work → Bool) → count f c.pool.done ≡ count f ws)
              × Published c.files b out.1)

    after_added-Ended :
        (b : Bucket)
        → IsRun (o.compiled filled b.files)
        → (out : Option Err × Bucket) × (after_added o r filled b ≡ run_returned out)
          × Ended b (o.compiled filled b.files) out
    unfolding after_added removed
    after_added-Ended b h =
        let c = o.compiled filled b.files in
        let (open_still, all) = compiled_all c h in
        let left = uncleaned c.pool.first (record b { files = c.files }) in
        (
          removed left,
          after_build-open (record filled { work = c.pool.queue; closed = c.pool.closed })
              c.pool.first (record b { files = c.files }) open_still,
          (
            (left.1.files, refl),
            λ e.
                let (none_failed, sent) = uncleaned-Published c.pool.first c.files b e in
                (none_failed, all none_failed, sent),
          ),
        )

  -- Run of a source, if no binary would have an empty name. Its works are one for each architecture of
  -- each platform. With more than a hundred of them the call of Add blocks, since nothing takes works
  -- from the channel before all are added. With fewer, when the goroutines of the compiler came to an
  -- end in any order, Run returns, and has removed the build directory, whether there is an error or
  -- not; and without an error no compilation failed, each of the works was compiled, and what the Go
  -- tool left has been published, and the version released.
  pub run_releaser-Ends :
      (tools : Compiler.Outside) (cells : Cells) (opts : Opts) (b : Bucket)
      → str_eq opts.source "" ≡ false
      → All (HasName o r) r.platforms
      → let dir = if str_eq opts.working_dir "" then "." else opts.working_dir in
        let ws = works_of o r opts.source dir (pairs o r r.platforms) in
        let built = o.compiled (record (new_compiler o r opts.ld_flags) { work = ws }) b.files in
        IsRun tools cells opts.ld_flags ws built
        → (100 < length ws → run_releaser o r opts b ≡ run_blocked)
          × (length ws ≤ 100
              → (out : Option Err × Bucket) × (run_releaser o r opts b ≡ run_returned out)
                × ((f : Dict String) × (out.1.files ≡ o.remove_all r.build_dir f))
                × (out.0 ≡ none
                    → (built.pool.first ≡ none)
                      × ((f : Work → Bool) → count f built.pool.done ≡ count f ws)
                      × Published built.files b out.1))
  unfolding run_releaser new_compiler
  run_releaser-Ends tools cells opts b h names =
      let dir = if str_eq opts.working_dir "" then "." else opts.working_dir in
      let ws = works_of o r opts.source dir (pairs o r r.platforms) in
      let same = works-works_of o r opts.source dir r.platforms in
      let t = new_compiler o r opts.ld_flags in
      let good =
        subst (All IsWork) same (works-IsWork o r opts.source dir r.platforms h dir_set names) in
      let ended : Added → RunEnd = λ a. elim a [
        | panicked ↦ run_panicked
        | blocked ↦ run_blocked
        | returned u ↦ after_added o r u b
      ] in
      let started = λ (c : Bool).
        if c
        then run_returned (some (text "source must not be empty"), b)
        else ended (add_each (works o r opts.source dir r.platforms) t) in
      let begun = ap started h ∙ ap (λ l. ended (add_each l t)) same in
      λ run. (
        λ big. begun ∙ ap ended (add_each-full ws t good refl (omega (arith, big)) (omega arith)),
        λ small.
            let (out, returns, (cleaned, sent)) =
              after_added-Ended tools cells opts.ld_flags ws b run in
            (
              out,
              begun ∙ ap ended (add_each-room ws t good refl (omega (arith, small))) ∙ returns,
              cleaned,
              sent,
            ),
      )
    where
      dir_set : str_eq (if str_eq opts.working_dir "" then "." else opts.working_dir) "" ≡ false
      dir_set = elim (Bool-cases (str_eq opts.working_dir "")) [
        | inl e ↦ ap (λ c. str_eq (if c then "." else opts.working_dir) "") e
        | inr e ↦ ap (λ c. str_eq (if c then "." else opts.working_dir) "") e ∙ e
      ]
