-- ===== src/Download/Attempts.antt =====
-- What the attempts at a download leave in the file (downloadFile of releases/download/downloader.go).
use Prim.Native.String.append
use mathlib.Core.Path.{subst}
use Prim.Native.String.{◌++◌ as concat}
use go_o11y.Prelude.{◌≡◌, refl, ap, ◌∙◌, arith, String, put, Option, none, some}
use go_o11y.Errors.{Err, wrap, find, err_is}
use go_o11y.Closer.{error_handler}
use go_o11y.Backoff.{Retries, success, stop, give_up, context_done, again, as_permanent}
use go_o11y.HttpClient.World.{World}
use go_o11y.HttpClient.Call.{call}
use go_o11y.Download.{
  Outside, Downloader, Partial, Disk, fill_file, download_once, after_call, clear_file,
  permanent_of, pieces_after, download_request,
}

closed_none :
    (c r : Option Err)
    → error_handler c (elim r [ none ↦ none | some f ↦ some (wrap "could not get URL" f) ]) ≡ none
    → r ≡ none
unfolding error_handler
closed_none c none h = refl
closed_none c (some f) h = cc

module _ (o : Outside) where
  after_call-none :
      (e : Option Err) (p t : Partial) → after_call o e p ≡ (none, t) → (e ≡ none) × (p ≡ t)
  unfolding after_call permanent_of err_is
  after_call-none none p t h = (refl, ap (λ x. x.1) h)
  after_call-none (some e) p t h = ground (arith, h)

  after_call-some :
      (e : Option Err) (p t : Partial) (f : Err)
      → after_call o e p ≡ (some f, t)
      → find f as_permanent ≡ none
      → t.content ≡ ""
  unfolding after_call permanent_of err_is clear_file find
  after_call-some e p t f h k = ground (arith, h, k)

  module _ (d : Downloader) (url : String) where
    -- The content is what was written in one call that reported no error, and the call is the last.
    pub record Written (content : String) (w : World) : Type 0 where
      pub before : World
      pub no_error : (call o.http o.policies d.client (download_request o d url) before).0 ≡ none
      pub after : (call o.http o.policies d.client (download_request o d url) before).1 ≡ w
      pub pieces : content ≡ pieces_after o before.decoded w.decoded

    downloaded : Partial → Partial
    downloaded p =
        let w = (call o.http o.policies d.client (download_request o d url) p.world).1 in
        record { content = concat p.content (pieces_after o p.world.decoded w.decoded); world = w }

    downloaded-Written :
        (p t : Partial)
        → p.content ≡ ""
        → (call o.http o.policies d.client (download_request o d url) p.world).0 ≡ none
        → downloaded p ≡ t
        → Written t.content t.world
    unfolding downloaded
    downloaded-Written p t e h q =
        let w = (call o.http o.policies d.client (download_request o d url) p.world).1 in
        let pieces = pieces_after o p.world.decoded w.decoded in
        subst (λ (x : Partial). Written x.content x.world) q
          (record {
            before = p.world;
            no_error = h;
            after = refl;
            pieces = ap (λ c. concat c pieces) e ∙ append.nil pieces;
          })

    Retries-Written :
        (s t : Partial) (r : Option Err)
        → Retries (download_once o d url) s r t
        → s.content ≡ ""
        → r ≡ none
        → Written t.content t.world
    unfolding download_once downloaded
    Retries-Written s t none (success q) e h =
        let (a, b) =
          after_call-none (call o.http o.policies d.client (download_request o d url) s.world).0
            (downloaded s) t q in
        downloaded-Written s t e a b
    Retries-Written s t r (stop q k) e h = cc
    Retries-Written s t r (give_up q k) e h = cc
    Retries-Written s t r (context_done q k i) e h = cc
    Retries-Written s t r (again {t = m} {e = f} q k rest) e h =
        let c =
          after_call-some (call o.http o.policies d.client (download_request o d url) s.world).0
            (downloaded s) m f q k in
        Retries-Written m t r rest c h

    -- A file that is filled without an error holds what its last call wrote, and nothing of the
    -- attempts before.
    pub fill_file-Written :
        (target : String) (s : Disk)
        → (fill_file o d url target s).0 ≡ none
        → (content : String) × ((fill_file o d url target s).1.files ≡ put target content s.files)
          × Written content (fill_file o d url target s).1.world
    unfolding fill_file
    fill_file-Written target s h =
        let begun : Partial = record { content = ""; world = s.world } in
        let out = (o.retry d.download_timeout).run (download_once o d url) begun in
        (
          out.1.content,
          refl,
          Retries-Written begun out.1 out.0
              ((o.retry d.download_timeout).run_lem (download_once o d url) begun) refl
              (closed_none o.close_fault out.0 h),
        )
