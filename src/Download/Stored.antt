-- ===== src/Download/Stored.antt =====
-- What a download that succeeds leaves (Download of releases/download/downloader.go).
use Prim.Native.String.{◌++◌ as concat}
use package.text.Mathlib.TextLemmas.{append-nil as append_nil}
use go_o11y.Prelude.{
  ◌≡◌, refl, ap, ◌∙◌, arith, String, false, Option, none, some, inl, inr, get, put, delete, get-put,
  get-delete, str_eq, eq_iff, Bool-cases, append_cancel_left,
}
use go_o11y.Errors.{Err, text}
use go_o11y.Download.{Outside, Downloader, Disk, fill_file, download_file, after_open}
use go_o11y.Download.Fetch.{rename, rename_with, after_file, fetch, tmp_of}
use go_o11y.Download.Attempts.{Written, fill_file-Written}

module _ (o : Outside) (d : Downloader) (url target : String) where
  -- The temporary file is another.
  tmp_of-other : str_eq target (tmp_of o target) ≡ false
  unfolding tmp_of
  tmp_of-other = elim (Bool-cases (str_eq target (concat target ".tmp"))) [
    | inr e ↦ e
    | inl e ↦ absurd (
        tmp_named (
          append_cancel_left target "" ".tmp"
            (append_nil target ∙ (eq_iff target (concat target ".tmp")).0 e)))
  ]
    where
      tmp_named : ◌≡◌ {A = String} "" ".tmp" → ⊥
      tmp_named p = cc p

  -- After a success the target has the content, and the temporary file is gone.
  pub record Stored (s : Disk) : Type 0 where
    pub content : String
    pub written : Written o d url content s.world
    pub stored : get target s.files ≡ some content
    no_tmp : get (tmp_of o target) s.files ≡ none

  -- The temporary file has the content.
  record Filled (s : Disk) : Type 0 where
    pub content : String
    pub written : Written o d url content s.world
    pub filled : get (tmp_of o target) s.files ≡ some content

  after_open-Filled :
      (m f : Option Err) (s : Disk) (rest : Option Err × Disk)
      → (rest.0 ≡ none → Filled rest.1)
      → (after_open o m f s rest).0 ≡ none
      → Filled (after_open o m f s rest).1
  unfolding after_open
  after_open-Filled (some e) f s rest k h = cc
  after_open-Filled none (some e) s rest k h = cc
  after_open-Filled none none s rest k h = k h

  fill_file-Filled :
      (s : Disk)
      → (fill_file o d url (tmp_of o target) s).0 ≡ none
      → Filled (fill_file o d url (tmp_of o target) s).1
  fill_file-Filled s h =
      let (content, files, written) = fill_file-Written o d url (tmp_of o target) s h in
      record {
        content = content;
        written = written;
        filled =
            ap (get (tmp_of o target)) files
            ∙ ground (
              arith,
              get-put (tmp_of o target) (tmp_of o target) content s.files,
              eq_iff (tmp_of o target) (tmp_of o target),
            );
      }

  rename_with-Stored :
      (f : Option Err) (c : Option String) (s : Disk)
      → Filled s
      → get (tmp_of o target) s.files ≡ c
      → (rename_with o f c (tmp_of o target) target s).0 ≡ none
      → Stored (rename_with o f c (tmp_of o target) target s).1
  unfolding rename_with
  rename_with-Stored (some e) c s k p h = cc
  rename_with-Stored none none s k p h = cc
  rename_with-Stored none (some c) s k p h = record {
    content = k.content;
    written = k.written;
    stored = ground (
      arith,
      p,
      k.filled,
      get-put target target c (delete (tmp_of o target) s.files),
      eq_iff target target,
    );
    no_tmp = ground (
      arith,
      tmp_of-other,
      get-put target (tmp_of o target) c (delete (tmp_of o target) s.files),
      get-delete (tmp_of o target) (tmp_of o target) s.files,
      eq_iff (tmp_of o target) (tmp_of o target),
    );
  }

  after_file-Stored :
      (e : Option Err) (s : Disk) (rest : Option Err × Disk)
      → (e ≡ none → rest.0 ≡ none → Stored rest.1)
      → (after_file o e s rest).0 ≡ none
      → Stored (after_file o e s rest).1
  unfolding after_file
  after_file-Stored (some e) s rest k h = cc
  after_file-Stored none s rest k h = k refl h

  pub fetch-Stored :
      (s : Disk)
      → (fetch o d url target (tmp_of o target) s).0 ≡ none
      → Stored (fetch o d url target (tmp_of o target) s).1
  unfolding fetch download_file rename
  fetch-Stored s h =
      let tmp = tmp_of o target in
      let out = download_file o d url tmp s in
      let opened = record s { files = put tmp "" s.files } in
      after_file-Stored out.0 out.1 (rename o tmp target out.1)
        (λ e g.
          rename_with-Stored (o.rename_fault tmp target) (get tmp out.1.files) out.1
            (after_open-Filled (o.mkdir_fault tmp) (o.open_fault tmp) s
              (fill_file o d url tmp opened) (λ z. fill_file-Filled opened z) e)
            refl g)
        h
