-- ===== src/HttpMetrics/Conserved.antt =====
-- Recording and publishing at the same time (o11y/httpmetrics/provider.go): the publish loop, Close
-- and the callers that record take turns at the provider's lock, and a publisher sends between its
-- two critical sections.
use Prim.Native.String.{◌++◌ as concat}
use go_o11y.Prelude.{
  ◌≡◌, refl, arith, ap, ℕ, ◌+◌, String, Bool, true, false, Option, none, some, List, [], ◌∷◌, ◌++◌,
  str_eq, if◌then◌else◌,
}
use go_o11y.Errors.{Err}
use go_o11y.HttpMetrics.{
  MetricData, Provider, record_metric, take_data, restore, send_batch, publish, close,
}

-- The provider, the batches that publishers are sending, and what was delivered and recorded so far.
pub record Publishers (V : Type 0) : Type 0 where
  pub provider : Provider V
  pub sending : List (List (MetricData V))
  pub delivered : List (MetricData V)
  pub recorded : List (MetricData V)

abbrev pub Batch : Type 0 → Type 0
Batch V = List (MetricData V)

module _ {V : Type 0} where
  -- What a caller hands over: the metric, its name behind the provider's namespace if it has one.
  abbrev pub handed : String → String → String → V → List String → ℕ → MetricData V
  handed namespace type name value tags at = record {
    type = type;
    name = if str_eq namespace "" then name else concat namespace (concat "." name);
    timestamp = at;
    value = value;
    tags = tags;
  }

  -- What the service has got of a batch: it answers a call with no error exactly if it took the batch.
  abbrev pub got : Option Err → Batch V → Batch V
  got none batch = batch
  got (some e) batch = []

  pub data Step (s : Publishers V) : Publishers V → Type 0 where
    records :
        (type name : String) (value : V) (tags : List String) (at : ℕ)
        → Step s (record s {
          provider = record_metric type name value tags at s.provider;
          recorded = s.recorded ++ handed s.provider.namespace type name value tags at ∷ [];
        })
    takes : Step s (record s {
      provider = (take_data s.provider).1;
      sending = (take_data s.provider).0 ∷ s.sending;
    })
    sends :
        (before after : List (Batch V)) (batch : Batch V) (answer : Option Err)
        → s.sending ≡ before ++ batch ∷ after
        → Step s (record s {
          sending = before ++ after;
          provider = send_batch (λ b. answer) batch s.provider;
          delivered = s.delivered ++ got answer batch;
        })
    publishes :
        (answer : Option Err)
        → Step s (record s {
          provider = (publish (λ b. answer) s.provider).1;
          delivered = s.delivered ++ got answer s.provider.buffer;
        })
    closes :
        (answer : Option Err)
        → Step s (record s {
          provider = close (λ b. answer) s.provider;
          delivered =
              s.delivered ++ (if s.provider.stopped then [] else got answer s.provider.buffer);
        })

  pub data Run (s : Publishers V) : Publishers V → Type 0 where
    here : Run s s
    next : {t u : Publishers V} → Run s t → Step t u → Run s u

  -- The sum of a weight, such as the number of times that a metric occurs.
  abbrev pub total : (MetricData V → ℕ) → (Batch V) → ℕ
  total w [] = 0
  total w (d ∷ ds) = w d + total w ds

  abbrev pub total_sending : (MetricData V → ℕ) → List (Batch V) → ℕ
  total_sending w [] = 0
  total_sending w (b ∷ bs) = total w b + total_sending w bs

  total-append : (w : MetricData V → ℕ) (a b : (Batch V)) → total w (a ++ b) ≡ total w a + total w b
  total-append w [] b = omega arith
  total-append w (d ∷ a) b = omega (arith, total-append w a b)

  total_sending-append :
      (w : MetricData V → ℕ) (a b : List (Batch V))
      → total_sending w (a ++ b) ≡ total_sending w a + total_sending w b
  total_sending-append w [] b = omega arith
  total_sending-append w (d ∷ a) b = omega (arith, total_sending-append w a b)

  -- Whatever is recorded was delivered, is being sent, or waits in the provider, as often.
  abbrev pub Conserved : Publishers V → Type 0
  Conserved s =
      (w : MetricData V → ℕ)
      → total w s.delivered + total_sending w s.sending + total w s.provider.buffer
        ≡ total w s.recorded

  send_batch-got :
      (w : MetricData V → ℕ) (answer : Option Err) (batch : Batch V) (m : Provider V)
      → total w (got answer batch) + total w (send_batch (λ b. answer) batch m).buffer
        ≡ total w batch + total w m.buffer
  unfolding send_batch restore
  send_batch-got w none [] m = omega arith
  send_batch-got w (some e) [] m = omega arith
  send_batch-got w none (d ∷ ds) m = omega arith
  send_batch-got w (some e) (d ∷ ds) m = omega (arith, total-append w (d ∷ ds) m.buffer)

  publish-got :
      (w : MetricData V → ℕ) (answer : Option Err) (m : Provider V)
      → total w (got answer m.buffer) + total w (publish (λ b. answer) m).1.buffer
        ≡ total w m.buffer
  unfolding publish take_data
  publish-got w answer m =
      omega (arith, send_batch-got w answer m.buffer (record m { buffer = [] }))

  close-got :
      (w : MetricData V → ℕ) (answer : Option Err) (stopped : Bool) (m : Provider V)
      → m.stopped ≡ stopped
      → total w (if m.stopped then [] else got answer m.buffer)
          + total w (close (λ b. answer) m).buffer
        ≡ total w m.buffer
  unfolding close
  close-got w answer true m e = ground (arith, e)
  close-got w answer false m e =
      ground (arith, e, publish-got w answer (record m { stopped = true }))

  record_metric-handed :
      (w : MetricData V → ℕ) (type name : String) (value : V) (tags : List String) (at : ℕ)
      (m : Provider V)
      → total w (record_metric type name value tags at m).buffer
        ≡ total w m.buffer + w (handed m.namespace type name value tags at)
  unfolding record_metric
  record_metric-handed w type name value tags at m =
      omega (arith, total-append w m.buffer (handed m.namespace type name value tags at ∷ []))

  Step-Conserved : {s t : Publishers V} → Step s t → Conserved s → Conserved t
  unfolding take_data
  Step-Conserved {s} (records type name value tags at) h w = omega (
    arith,
    h w,
    record_metric-handed w type name value tags at s.provider,
    total-append w s.recorded (handed s.provider.namespace type name value tags at ∷ []),
  )
  Step-Conserved {s} takes h w = omega (arith, h w)
  Step-Conserved {s} (sends before after batch answer e) h w = omega (
    arith,
    h w,
    ap (total_sending w) e,
    total_sending-append w before (batch ∷ after),
    total_sending-append w before after,
    total-append w s.delivered (got answer batch),
    send_batch-got w answer batch s.provider,
  )
  Step-Conserved {s} (publishes answer) h w = omega (
    arith,
    h w,
    total-append w s.delivered (got answer s.provider.buffer),
    publish-got w answer s.provider,
  )
  Step-Conserved {s} (closes answer) h w = omega (
    arith,
    h w,
    total-append w s.delivered (if s.provider.stopped then [] else got answer s.provider.buffer),
    close-got w answer s.provider.stopped s.provider refl,
  )

  -- In every interleaving of callers that record metrics and of calls of Publish and Close, each at
  -- once or in its critical sections with others between, whatever the service answers: if whatever
  -- was recorded before was delivered, is being sent or waits in the provider, and as often, then so
  -- is whatever was recorded after. The service is taken to answer with no error exactly if it got
  -- the batch.
  pub Run-Conserved : {s t : Publishers V} → Run s t → Conserved s → Conserved t
  Run-Conserved here h = h
  Run-Conserved (next r p) h = Step-Conserved p (Run-Conserved r h)
