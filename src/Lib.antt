-- ===== src/Lib.antt =====
-- go-o11y: the building blocks of observable Go services. Each service gets spans with results, an
-- HTTP client and an HTTP server that report on themselves, database transactions, a worker loop
-- and metrics that are published over HTTP. This library models the logic of these parts and shows
-- what makes them correct. Paths are from the repository's root.
--
-- Errors and spans. Errors models Go error values with the standard library's errors.Is, errors.As
-- and errors.Join over the error types of the repository, and o11y/warning.go. Span models the
-- calls on a span with AddResultToSpan, End, LogError and HandlePanic of o11y/o11y.go: a span is
-- the list of the calls that it received. Every other part reports through these two.
--
-- The HTTP client. HttpClient models httpclient/httpclient.go: Config and New in Config; Request
-- with its options and validation in Request; HTTPError, extractHTTPError and doneRetrying in
-- Status; the inner newRequestFn of Call in Build; one attempt of retryRequest, with
-- shouldBackoff, setLast429, decodeBody and what the span gets, in Attempt; retryRequest and Call
-- in Call. World is the environment: net/http, net/url, the decoders and the clock are its fields,
-- and the state is the client's last 429 with the log of the requests sent and the span.
-- backoff.Retry is a parameter (Backoff): its runs are a record of what the package documents,
-- that the operation is called again after an error that is not permanent only, whatever the
-- policy, the clock and the server. HttpClient/Metrics models
-- httpclient/metrics/metrics.go, the hooks of httptrace as a list of events.
--
-- Databases. Db/Errors models db/error.go (mapError, mapExecErrors, mapBadCon, PqError),
-- Db/Querier db/unified_querier.go with the named query of db/extensions.go, Db/Tx WithTx of
-- db/transactions.go; what the database answers and what the function given does is a parameter
-- for each of the three attempts, a panic of it included. Db/Like models db/like.go.
--
-- The worker. Worker models doWork and Run of worker/worker.go over the rounds that begin before
-- the context is done; the back-off policy is a parameter.
--
-- Metrics. HttpMetrics models o11y/httpmetrics/provider.go: record, Publish, Close, and the
-- interleavings of their critical sections. Sampler models the two deterministic samplers
-- (o11y/otel/sampler.go, o11y/honeycomb/sampler.go).
--
-- OpenTelemetry. Otel/Metrics models o11y/otel/metrics.go, which takes metrics from a span's
-- fields. Otel/Spans models the spans of o11y/otel/otel.go over a store of spans, traces and
-- golden traces: AddRawField, flatten, wrapSpan and StartSpan there, startGoldenTrace,
-- MakeSpanGolden and link in Otel/Spans/Making, and End with copyAttrsFrom and sendMetric in
-- Otel/Spans/Ending. Otel/Exporting models the exporters that New makes of a Config, the sampling and
-- the export of ended spans, and the sample rates of config/o11y/o11y.go. Otel/Propagation models
-- o11y/otel/helpers.go over Spans and Baggage, where the text map propagator is a parameter.
--
-- Honeycomb models the sender of o11y/honeycomb/sender.go that passes its calls on to several
-- senders, and Honeycomb/Provider the provider of o11y/honeycomb/honeycomb.go: its configuration,
-- and the metrics of a span, which several wrappers of it record, up to the end of the span. The
-- spans themselves are those of beeline-go.
--
-- Baggage models the baggage of o11y/o11y.go, and the depth of flattening and the golden trace that
-- it carries to other services. The baggage of OpenTelemetry is a parameter.
--
-- The DNS cache. DnsCache models Resolve of httpclient/dnscache/dnscache.go; the cache that it
-- stands on is a parameter (Cache) with the documented behaviour of go-tinylfu, and so is the
-- lookup. DnsCache/Dial models DialContext of net.go beside it.
--
-- The server. Server/Tracking models the listener of httpserver/tracking.go, over runs of accepted
-- and closed connections.
--
-- The system. System models the services, clean-ups, health checks and metric producers of
-- system/system.go, lists that are added to, with the gauges of system/metrics.go and
-- system/gauges.go in System/Gauges. HealthCheck models the admin API of httpserver/healthcheck,
-- which registers the checks and answers by them; the store of health-go tells its two
-- health.Health apart. errgroup and health-go are parameters, as far as they are used.
--
-- Releases. Releases models releases/release: Releases/Versions the list of versions of list.go with
-- its refresh, Releases/S3 the releases of list_s3.go, and Releases/Handler the HTTP handler of
-- handler.go, without the routing by gin. Download models releases/download/downloader.go over a
-- disk of regular files, with the calls of the HTTP client above; the failures of the calls of
-- package os are parameters.
--
-- Building releases. Compiler models releases/compiler: the command of Compile and Add there, the
-- goroutines of Run as steps in Compiler/Pool. Releaser models the uploads of
-- releases/releaser/releaser.go, whose checksums are those that Releases/S3 reads, and
-- PluginReleaser plugin/releaser/releaser.go, which stands on both; its works are in
-- PluginReleaser/Works. The Go tool, the walk over the
-- files, gzip, SHA-256 and the S3 uploader are parameters.
--
-- Other clients. Datadog models datadog/client.go, and Closer closer/closer.go. Rabbit models the
-- pool of publishers of rabbit/publisherpool.go; go-commons-pool and the publishers are parameters.
--
-- Prelude has the shared helpers: Boolean tests on the native numbers, lists measured by them,
-- maps as association lists, Go's signed integers as ℤ, and steps that may panic. Examples has the
-- theorems at concrete inputs, and tests.
--
-- Bounds and fuel. Loops are recursion on the rounds, the events, the fields or the attempts that
-- they are given, and WithTx counts its three attempts down. Only End of a span runs on fuel, one
-- for the span and one for each golden span that follows, and golden spans are made without one of
-- their own. Lengths, counters and statuses are unbounded numbers, since the program only compares
-- and counts them; the samplers keep the width of 32 bits, by which their rates are divided, and
-- Time.Sub the bounds of a Duration.
--
-- Not modelled: making and calling the exporters of OpenTelemetry and the text formats, StatsD and
-- Rollbar clients, the gRPC, Redis, MongoDB and Vault wrappers, the drivers of the databases, the
-- propagation headers of beeline, the gin middleware, root certificates, and the test fixtures. The
-- texts of error messages are kept only where another part reads them.
mod Prelude
pub mod Errors
pub mod Span
pub mod Backoff
pub mod HttpClient
pub mod Db
pub mod Worker
pub mod HttpMetrics
pub mod Sampler
pub mod Cache
pub mod DnsCache
pub mod Honeycomb
pub mod Otel
pub mod Releases
pub mod Server
pub mod Closer
pub mod Datadog
pub mod Download
pub mod Releaser
pub mod Compiler
pub mod PluginReleaser
pub mod Rabbit
pub mod Baggage
pub mod System
pub mod HealthCheck
mod Examples
