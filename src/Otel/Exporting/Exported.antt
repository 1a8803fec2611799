-- ===== src/Otel/Exporting/Exported.antt =====
-- Which exporters New makes and what they are sent (o11y/otel/otel.go).
use go_o11y.Prelude.{
  ◌≡◌, refl, ap, ◌∙◌, arith, ℕ, String, Bool, true, false, not, ◌&&◌, ◌||◌, Option, none, some,
  List, [], ◌∷◌, ◌++◌, str_eq, All, ◌⊎◌, inl, inr, if◌then◌else◌,
}
use go_o11y.Errors.{Err, Result, ok, err}
use go_o11y.Otel.Exporting.{
  Exporter, ExportConfig, EndedSpan, text_exporter, new_grpc, new_http, or_failed, text_exporters,
  http_exporters, new_exporters, sample_spans, export_each, export_spans,
}

or_failed-ok :
    (fault : Exporter → Option Err) (e : Exporter) (rest : Result (List Exporter))
    (es : List Exporter)
    → or_failed fault e rest ≡ ok es
    → (l : List Exporter) × (rest ≡ ok l) × (es ≡ e ∷ l)
unfolding or_failed
or_failed-ok fault e rest es h = go (fault e) rest h
  where
    go :
        (f : Option Err) (r : Result (List Exporter))
        → (elim f as (λ _. Result (List Exporter)) [
          | some x ↦ err x
          | none ↦ elim r [ err x ↦ err x | ok l ↦ ok (e ∷ l) ]
        ])
          ≡ ok es
        → (l : List Exporter) × (r ≡ ok l) × (es ≡ e ∷ l)
    go (some x) r k = absurd (cc k)
    go none (err x) k = absurd (cc k)
    go none (ok l) k = (l, refl, cc k)

-- An exporter that is made or not.
staged :
    (fault : Exporter → Option Err) (b : Bool) (e : Exporter) (rest other : Result (List Exporter))
    (es : List Exporter)
    → (if b then or_failed fault e rest else other) ≡ ok es
    → ((b ≡ true) × (l : List Exporter) × (rest ≡ ok l) × (es ≡ e ∷ l))
      ⊎ ((b ≡ false) × (other ≡ ok es))
staged fault true e rest other es h =
    let (l, p, q) = or_failed-ok fault e rest es h in inl (refl, l, p, q)
staged fault false e rest other es h = inr (refl, h)

module _ {F : Type 0} where
  abbrev has_grpc : ExportConfig F → Bool
  has_grpc c = not (str_eq c.grpc_host_and_port "")

  abbrev has_http : ExportConfig F → Bool
  has_http c = not (str_eq c.http_traces_url "")

  -- The exporters of a configuration.
  abbrev pub exporters_of : ExportConfig F → List Exporter
  exporters_of c =
      (if has_grpc c then new_grpc c.grpc_host_and_port c.dataset ∷ [] else [])
      ++ (if has_http c then new_http c.http_traces_url c.dataset c.http_authorization ∷ [] else [])
      ++ (if c.disable_text && (has_grpc c || has_http c) then [] else text_exporter c.test ∷ [])

  -- What comes after the exporters of the two protocols, if there are some.
  texts : ExportConfig F → Bool → List Exporter
  texts c none_yet = if c.disable_text && not none_yet then [] else text_exporter c.test ∷ []

  https : ExportConfig F → List Exporter
  https c =
      if has_http c then new_http c.http_traces_url c.dataset c.http_authorization ∷ [] else []

  text_exporters-ok :
      (fault : Exporter → Option Err) (c : ExportConfig F) (b : Bool) (es : List Exporter)
      → text_exporters fault c b ≡ ok es
      → es ≡ texts c b
  unfolding text_exporters texts
  text_exporters-ok fault c b es h = go c.disable_text b h
    where
      made : or_failed fault (text_exporter c.test) (ok []) ≡ ok es → es ≡ text_exporter c.test ∷ []
      made k = let (l, p, q) = or_failed-ok fault (text_exporter c.test) (ok []) es k in cc (p, q)

      go :
          (d b : Bool)
          → (if not d || b then or_failed fault (text_exporter c.test) (ok []) else ok []) ≡ ok es
          → es ≡ (if d && not b then [] else text_exporter c.test ∷ [])
      go true true k = made k
      go true false k = cc k
      go false b k = made k

  http_exporters-ok :
      (fault : Exporter → Option Err) (c : ExportConfig F) (b : Bool) (es : List Exporter)
      → http_exporters fault c b ≡ ok es
      → es ≡ https c ++ texts c (b && not (has_http c))
  unfolding http_exporters https
  http_exporters-ok fault c b es h =
      elim (staged fault (has_http c) (new_http c.http_traces_url c.dataset c.http_authorization)
        (text_exporters fault c false) (text_exporters fault c b) es h) [
          | inl (e, l, p, q) ↦
              let tail = text_exporters-ok fault c false l p in ground (arith, e, q, tail)
          | inr (e, p) ↦ let tail = text_exporters-ok fault c b es p in ground (arith, e, tail)
        ]

  new_exporters-ok :
      (fault : Exporter → Option Err) (c : ExportConfig F) (es : List Exporter)
      → new_exporters fault c ≡ ok es
      → es ≡ exporters_of c
  unfolding new_exporters https texts
  new_exporters-ok fault c es h =
      elim (staged fault (has_grpc c) (new_grpc c.grpc_host_and_port c.dataset)
        (http_exporters fault c false) (http_exporters fault c true) es h) [
          | inl (e, l, p, q) ↦
              let tail = http_exporters-ok fault c false l p in ground (arith, e, q, tail)
          | inr (e, p) ↦ let tail = http_exporters-ok fault c true es p in ground (arith, e, tail)
        ]

  -- The first exporter that fails, with those before it.
  abbrev FirstFailed :
      (Exporter → List (EndedSpan F) → Option Err)
      → List (EndedSpan F)
      → List Exporter
      → List Exporter
      → Err
      → Type 0
  FirstFailed export spans es called f =
      (before : List Exporter) × (e : Exporter) × (after : List Exporter) × (es
        ≡ before ++ e ∷ after)
      × (called ≡ before ++ e ∷ [])
      × All (λ x. export x spans ≡ none) before
      × (export e spans ≡ some f)

  abbrev called_by : List (Exporter × List (EndedSpan F)) → List Exporter
  called_by [] = []
  called_by ((e, spans) ∷ calls) = e ∷ called_by calls

  -- What the exporters are called with, and when they are.
  abbrev pub Exports :
      (Exporter → List (EndedSpan F) → Option Err)
      → List (EndedSpan F)
      → List Exporter
      → List (Exporter × List (EndedSpan F)) × Option Err
      → Type 0
  Exports export spans es out =
      All (λ x. x.1 ≡ spans) out.0
      × (out.1 ≡ none → (called_by out.0 ≡ es) × All (λ x. export x spans ≡ none) es)
      × ((f : Err) → out.1 ≡ some f → FirstFailed export spans es (called_by out.0) f)

  export_each-Exports :
      (export : Exporter → List (EndedSpan F) → Option Err) (spans : List (EndedSpan F))
      (es : List Exporter)
      → Exports export spans es (export_each export es spans)
  unfolding export_each
  export_each-Exports export spans [] = (tt, λ h. (refl, tt), λ f h. absurd (cc h))
  export_each-Exports export spans (e ∷ es) =
      go (export e spans) refl (export_each export es spans) (export_each-Exports export spans es)
    where
      go :
          (r : Option Err)
          → export e spans ≡ r
          → (rest : List (Exporter × List (EndedSpan F)) × Option Err)
          → Exports export spans es rest
          → Exports export spans
              (e ∷ es)
              (elim r as (λ _. List (Exporter × List (EndedSpan F)) × Option Err) [
                | some f ↦ ((e, spans) ∷ [], some f)
                | none ↦ ((e, spans) ∷ rest.0, rest.1)
              ])
      go (some g) p rest ih =
          ((refl, tt), λ h. absurd (cc h), λ f h. ([], e, es, refl, refl, tt, p ∙ h))
      go none p rest (a, b, c) = (
        (refl, a),
        λ h. (ap (λ l. e ∷ l) (b h).0, (p, (b h).1)),
        λ f h.
            let (before, x, after, q, l, good, bad) = c f h in
            (e ∷ before, x, after, ap (λ l. e ∷ l) q, ap (λ l. e ∷ l) l, (p, good), bad),
      )

  -- A provider that could be made has the exporters that are configured, with the text exporter at the
  -- end unless it is disabled and there is another. It exports what is left of the spans by the
  -- sampling, the same to each exporter in turn: to all of them if it returns no error, and otherwise
  -- up to the first that fails, whose error it returns.
  pub export_spans-Exports :
      (checksum : String → ℕ) (fault : Exporter → Option Err)
      (export : Exporter → List (EndedSpan F) → Option Err) (c : ExportConfig F)
      (es : List Exporter) (spans : List (EndedSpan F))
      → new_exporters fault c ≡ ok es
      → (es ≡ exporters_of c)
        × Exports export
            (sample_spans checksum c spans)
            es
            (export_spans checksum c export es spans)
  unfolding export_spans
  export_spans-Exports checksum fault export c es spans h =
      (new_exporters-ok fault c es h, export_each-Exports export (sample_spans checksum c spans) es)
