-- ===== src/Releaser/Uploads.antt =====
-- What a publishing that succeeds uploads (Publish of releases/releaser/releaser.go).
use Prim.Native.String.append
use Prim.Native.String.{◌++◌ as concat}
use text.Mathlib.TextLemmas
use go_o11y.Prelude.{
  ◌≡◌, refl, sym, ap, ◌∙◌, arith, String, Bool, true, false, Option, none, some, List, [], ◌∷◌,
  ◌++◌, map, append-nil, append_assoc, if◌then◌else◌, Dict, get,
}
use go_o11y.Errors.{Err}
use go_o11y.Closer.{error_handler}
use go_o11y.Releaser.{
  Outside, Visit, Upload, Bucket, PublishParameters, visit, walk_files, unless_error, excluded,
  upload, open_file, binary_upload, send_binary, observe_binary, upload_binaries, checksum_line,
  observe_checksum, checksums_upload, write_checksums, upload_checksums, publish,
}

-- The files that a walk without an error observes.
abbrev pub observed : Option (String → Bool) → List Visit → List String
observed include [] = []
observed include (v ∷ vs) =
    let paths = observed include vs in
    if v.is_dir then paths else if excluded include v.path then paths else v.path ∷ paths

-- Lines, each with its end.
abbrev pub unlines : List String → String
unlines [] = ""
unlines (l ∷ ls) = concat (concat l "\n") (unlines ls)

abbrev content_in : Option String → String
content_in none = ""
content_in (some c) = c

module _ {ℓ} {S : Type ℓ} where
  abbrev observe_each : (String → S → Option Err × S) → List String → S → Option Err × S
  observe_each observe [] s = (none, s)
  observe_each observe (p ∷ ps) s =
      unless_error (observe p s) (observe_each observe ps (observe p s).1)

  pub unless_error-none :
      (out rest : Option Err × S)
      → (unless_error out rest).0 ≡ none
      → (out.0 ≡ none) × (rest.0 ≡ none) × (unless_error out rest ≡ rest)
  unfolding unless_error
  unless_error-none (some e, s) rest h = absurd (cc h)
  unless_error-none (none, s) rest h = (refl, h, refl)

  unless_error-ok : (out rest : Option Err × S) → out.0 ≡ none → unless_error out rest ≡ rest
  unfolding unless_error
  unless_error-ok (some e, s) rest h = absurd (cc h)
  unless_error-ok (none, s) rest h = refl

  -- A walk without an error observes these files in turn.
  pub walk_files-observed :
      (include : Option (String → Bool)) (observe : String → S → Option Err × S) (vs : List Visit)
      (s : S)
      → (walk_files include observe vs s).0 ≡ none
      → walk_files include observe vs s ≡ observe_each observe (observed include vs) s
  unfolding walk_files visit
  walk_files-observed include observe [] s h = refl
  walk_files-observed include observe (v ∷ vs) s h =
      let (e, k, q) =
        unless_error-none (visit include observe v s)
          (walk_files include observe vs (visit include observe v s).1) h in
      q
      ∙ walk_files-observed include observe vs (visit include observe v s).1 k
      ∙ go v.walk_error v.is_dir (excluded include v.path) e
    where
      step : Option Err → Bool → Bool → Option Err × S
      step w d x = elim w as (λ _. Option Err × S) [
        | some e ↦ (some e, s)
        | none ↦ if d then (none, s) else if x then (none, s) else observe v.path s
      ]

      go :
          (w : Option Err) (d x : Bool)
          → (step w d x).0 ≡ none
          → observe_each observe (observed include vs) (step w d x).1
            ≡ observe_each observe
                (if d
                  then observed include vs
                  else if x
                  then observed include vs
                  else v.path ∷ observed include vs)
                s
      go (some e) d x z = absurd (cc z)
      go none true x z = refl
      go none false true z = refl
      go none false false z = sym (
          unless_error-ok (observe v.path s)
            (observe_each observe (observed include vs) (observe v.path s).1) z)

module _ (o : Outside) (p : PublishParameters) where
  -- What is read of a file.
  abbrev pub read_of : Dict String → String → String
  read_of files path = (o.read path (content_in (get path files))).0

  abbrev pub line_of : Dict String → String → String
  line_of files path = checksum_line o p path (read_of files path)

  pub upload-none :
      (u : Upload) (b : Bucket)
      → (upload o u b).0 ≡ none
      → (upload o u b).1 ≡ record b { uploads = b.uploads ++ u ∷ [] }
  unfolding upload
  upload-none u b h = ground (arith, h)

  observe_binary-none :
      (path : String) (b : Bucket)
      → (observe_binary o p path b).0 ≡ none
      → (observe_binary o p path b).1
        ≡ record b { uploads = b.uploads ++ binary_upload o p path (read_of b.files path) ∷ [] }
  unfolding observe_binary open_file send_binary error_handler upload
  observe_binary-none path b h = ground (arith, h)

  observe_checksum-none :
      (files : Dict String) (path text : String)
      → (observe_checksum o p files path text).0 ≡ none
      → (observe_checksum o p files path text).1 ≡ concat text (concat (line_of files path) "\n")
  unfolding observe_checksum open_file
  observe_checksum-none files path text h = ground (arith, h)

  abbrev pub binaries : Dict String → List String → List Upload
  binaries files paths = map (λ path. binary_upload o p path (read_of files path)) paths

  abbrev pub lines : Dict String → List String → List String
  lines files paths = map (line_of files) paths

  observe_each-binaries :
      (paths : List String) (b : Bucket)
      → (observe_each (observe_binary o p) paths b).0 ≡ none
      → (observe_each (observe_binary o p) paths b).1
        ≡ record b { uploads = b.uploads ++ binaries b.files paths }
  observe_each-binaries [] b h = ap (λ l. record b { uploads = l }) (sym (append-nil b.uploads))
  observe_each-binaries (path ∷ paths) b h =
      let out = observe_binary o p path b in
      let (e, k, q) = unless_error-none out (observe_each (observe_binary o p) paths out.1) h in
      let first = observe_binary-none path b e in
      let more = observe_each-binaries paths out.1 k in
      ap (λ (x : Option Err × Bucket). x.1) q
      ∙ more
      ∙ ap (λ (x : Bucket). record x { uploads = x.uploads ++ binaries x.files paths }) first
      ∙ ap (λ l. record b { uploads = l })
          (append_assoc b.uploads (binary_upload o p path (read_of b.files path) ∷ [])
            (binaries b.files paths))

  observe_each-lines :
      (files : Dict String) (paths : List String) (text : String)
      → (observe_each (observe_checksum o p files) paths text).0 ≡ none
      → (observe_each (observe_checksum o p files) paths text).1
        ≡ concat text (unlines (lines files paths))
  observe_each-lines files [] text h = sym (TextLemmas.append-nil text)
  observe_each-lines files (path ∷ paths) text h =
      let out = observe_checksum o p files path text in
      let (e, k, q) =
        unless_error-none out (observe_each (observe_checksum o p files) paths out.1) h in
      let first = observe_checksum-none files path text e in
      ap (λ (x : Option Err × String). x.1) q
      ∙ observe_each-lines files paths out.1 k
      ∙ ap (λ x. concat x (unlines (lines files paths))) first
      ∙ TextLemmas.append_assoc text (concat (line_of files path) "\n")
          (unlines (lines files paths))

  abbrev pub paths_of : Bucket → List String
  paths_of b = observed p.include_filter (o.visits p.path b.files)

  upload_binaries-none :
      (b : Bucket)
      → (upload_binaries o p b).0 ≡ none
      → (upload_binaries o p b).1
        ≡ record b { uploads = b.uploads ++ binaries b.files (paths_of b) }
  unfolding upload_binaries
  upload_binaries-none b h =
      let q =
        walk_files-observed p.include_filter (observe_binary o p) (o.visits p.path b.files) b h in
      ap (λ (x : Option Err × Bucket). x.1) q
      ∙ observe_each-binaries (paths_of b) b (sym (ap (λ (x : Option Err × Bucket). x.0) q) ∙ h)

  write_checksums-none :
      (out : Option Err × String) (b : Bucket)
      → (write_checksums o p out b).0 ≡ none
      → (out.0 ≡ none)
        × ((write_checksums o p out b).1.uploads ≡ b.uploads ++ checksums_upload o p out.1 ∷ [])
  unfolding write_checksums upload
  write_checksums-none (some e, text) b h = absurd (cc h)
  write_checksums-none (none, text) b h = (refl, ground (arith, h))

  upload_checksums-none :
      (b : Bucket)
      → (upload_checksums o p b).0 ≡ none
      → (upload_checksums o p b).1.uploads
        ≡ b.uploads ++ checksums_upload o p (unlines (lines b.files (paths_of b))) ∷ []
  unfolding upload_checksums
  upload_checksums-none b h =
      let observe = observe_checksum o p b.files in
      let out = walk_files p.include_filter observe (o.visits p.path b.files) "" in
      let (e, k) = write_checksums-none out b h in
      let q = walk_files-observed p.include_filter observe (o.visits p.path b.files) "" e in
      let written =
        ap (λ (x : Option Err × String). x.1) q
        ∙ observe_each-lines b.files (paths_of b) ""
            (sym (ap (λ (x : Option Err × String). x.0) q) ∙ e)
        ∙ append.nil (unlines (lines b.files (paths_of b))) in
      k ∙ ap (λ x. b.uploads ++ checksums_upload o p x ∷ []) written

  -- A publishing without an error uploads the files that it walked over, each compressed, and then a
  -- text with a line for each.
  pub publish-uploads :
      (b : Bucket)
      → (publish o p b).0 ≡ none
      → (publish o p b).1.uploads
        ≡ b.uploads
          ++ (binaries b.files (paths_of b)
              ++ checksums_upload o p (unlines (lines b.files (paths_of b))) ∷ [])
  unfolding publish
  publish-uploads b h =
      let out = upload_binaries o p b in
      let (e, k, q) = unless_error-none out (upload_checksums o p out.1) h in
      let first = upload_binaries-none b e in
      ap (λ (x : Option Err × Bucket). x.1.uploads) q
      ∙ upload_checksums-none out.1 k
      ∙ ap
          (λ (x : Bucket).
            x.uploads ++ checksums_upload o p (unlines (lines x.files (paths_of x))) ∷ [])
          first
      ∙ append_assoc b.uploads (binaries b.files (paths_of b))
          (checksums_upload o p (unlines (lines b.files (paths_of b))) ∷ [])
