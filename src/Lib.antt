-- ===== src/Lib.antt =====
-- slimproxy: the verification library of a local proxy for language-model APIs.
--
-- slimproxy is a local proxy in front of language-model APIs: it takes Claude-shaped requests, runs
-- them through a third-party server, and has to keep long streaming responses alive behind a CDN
-- that gives up after about 100 seconds. This library models the parts of it that decide something.
--
-- The parts and how they interact. A request passes the middlewares of proxy/ in the order in which
-- proxy.go adds them. ErrorEnvelopeMiddleware installs envelopeWriter, which holds a failure body
-- back until the handler is done and replaces what must not be shown; AccessJournalMiddleware tells
-- the journal's RejectFolder of responses that are not 2xx; InFlightMiddleware registers the request
-- in metrics.InFlight; EarlyFlushMiddleware reads the body and installs earlyFlushWriter, which
-- sends a 200 and an event-stream header before the upstream answers, beats while it waits, and must
-- then translate a late failure into an event. stallGuard wraps the provider's executor and severs
-- streams that stop moving. refusalHooks notes an upstream that refuses on policy grounds and marks
-- the answer in the client's dialect. Every completed request becomes a metrics.Sample, which
-- metrics.Health folds into alerts and the journal into an Event that its Writer puts into the file
-- of the day and queries read back. Beside the requests, tunnel.Manager starts and stops the
-- cloudflared process through which the proxy is reached from outside, keeps its record on disk, and
-- reads its log for why it did not connect; outbound.Relay, the proxy that the server is given,
-- sends each connection through the machine's own proxy or past it; and credentials lists and
-- removes the files with which the server signs in.
--
-- The files, and the code that each one is about:
--   Base, Base/*        names of the libraries passed on, Boolean tests, lists over native numbers
--   Text, Text/*        Go's strings and bytes functions, as the code calls them
--   Ordering            sort.Slice
--   Wire                calls on a response writer, and net/http's header map
--   Cause               metrics/cause.go: CauseFrom, CauseFromText
--   Envelope/Message    proxy/errorenvelope.go: safeMessage, errorTypeFor, classifyFailure
--   Envelope/Body       proxy/errorenvelope.go: claudeError, isUpstreamFailure, replacementEnvelope
--   Envelope/Writer     proxy/errorenvelope.go: envelopeWriter and itoa
--   Envelope/Safe, Delivery, Kept, Itoa, Tests   what these promise, and runs of them
--   EarlyFlush/Frame    proxy/earlyflush.go: sseErrorFrame
--   EarlyFlush/Writer   proxy/earlyflush.go: earlyFlushWriter, commitShadowLocked, tryDisarm, rearm,
--                       uploadFailed
--   EarlyFlush/Handler  proxy/earlyflush.go: WriteHeader, Write, Flush, Written, Status
--   EarlyFlush/Timer    proxy/earlyflush.go: flushNow and heartbeat
--   EarlyFlush/Finish   proxy/earlyflush.go: finish
--   EarlyFlush/Middleware   proxy/earlyflush.go: bodySniffer and EarlyFlushMiddleware
--   EarlyFlush/Steps    the interleavings of one request, as a step relation
--   EarlyFlush/Invariant, Statuses, Endings, Heard, Speech, Untouched, Late, Shadow, Admission,
--   Tests               what the writer promises, and runs of it
--   StallGuard/Ledger   proxy/stallguard.go: scanLedgerSignals
--   StallGuard/Pump     proxy/stallguard.go: pump
--   StallGuard/Install  proxy/stallguard.go: ensureStallGuard, uncoveredMethods, shouldWarnMismatch
--   StallGuard/Lines, Verdict, Coverage, Tests   what these promise, and runs of them
--   Metrics/Sample      metrics/collector.go: Sample, Route
--   Metrics/Health      metrics/health.go: classify, Observe
--   Metrics/InFlight    metrics/inflight.go and proxy/inflight.go
--   Metrics/Usage       metrics/collector.go: SampleFrom, redactAccount, quotaFromHeaders,
--                       trustedInputTokens, causeOf; metrics/nettimings.go
--   Metrics/Collector   metrics/collector.go: HandleUsage, prune, Snapshot
--   Metrics/Meter       proxy/netmeter.go: the metered body and writer
--   Metrics/History, Rows, Window, Board, Quota, Tests, Runs   what these promise, and runs of them
--   Journal/Event       journal/event.go, and FromSample of journal/writer.go
--   Journal/Query       journal/reader.go: Query, Match, SuppressesNoise
--   Journal/Reader      journal/reader.go: Read, scanDay, skipDay
--   Journal/Summary     journal/reader.go: Summarise, sortInt64
--   Journal/Rejects     journal/rejects.go: RejectFolder
--   Journal/Writer      journal/writer.go: Writer
--   Journal/Window, Ring, Search, Paths, Keys, Accounts, Totals, Sums, Sorted, Filed, Kept, Traced,
--   Together, Tests, WriterTests  what these promise, and runs of them
--   Access, Access/Tests   proxy/access.go: requestSource, AccessJournalMiddleware
--
--   Refusal/Find        proxy/requestlog.go: findRefusal
--   Refusal/Mark        proxy/refusal.go: markContentFiltered, markObject, markStreamFrame,
--                       setFinishReason
--   Refusal/Hooks       proxy/refusal.go: refusalHooks, NormalizeResponseBefore and -After
--   Refusal/Counted, Apart, Marked, Tests   what these promise, and runs of them
--   Config/Validate     proxy/config.go: Config.Validate
--   Config/Accepted, Secure, Tests   what it accepts, and runs of it
--   Translate/Translator   translate/: Describe, New, Request, NonStreamResponse, NewStream, Line
--   Translate/Checked, Tests   what New has checked, and runs of it
--   Credentials/Store   credentials/credentials.go
--   Credentials/Spared, Times, Tests   what it promises, and runs of it
--   Outbound/Relay      outbound/outbound.go: Options, Start, viaProxy, record, markDown, markBroken,
--                       Close, and the back-off of serve
--   Outbound/Connection outbound/outbound.go: handle, chain, direct
--   Outbound/Verdicts, Holds, Answers, Tests   what these promise, and runs of them
--   Tunnel/Process      tunnel/process.go: record, readRecord, verifyRecord, queryProcess's parsing
--   Tunnel/World        what the Manager asks and does; removeRecord, identityOf
--   Tunnel/Local        tunnel/manager.go: localStatus, Status, fillConnections
--   Tunnel/Stop         tunnel/manager.go: killAndConfirm, Down
--   Tunnel/Log          tunnel/manager.go: logContains
--   Tunnel/Start        tunnel/manager.go: Up, startDetached, confirmStarted; claimRecord, writeRecordTo
--   Tunnel/Ingress      tunnel/config.go: parseConfig, validTunnelID
--   Tunnel/Fields       tunnel/connectivity.go: logField, logValue
--   Tunnel/Startup      tunnel/connectivity.go: classifyStartupLog, edgeFakeIP, haShortfall
--   Tunnel/Info         tunnel/connectivity.go: ParseTunnelInfo, countEdgeConnections, findFakeIP
--   Tunnel/Kills, Settled, Downs, Launches, Outcomes, Undone, Told, Hostnames, LogLines, Causes,
--   Edges, Tests        what these promise, and runs of them
--
-- How state and operations correspond. A Go struct is a record, and a method that changes it a
-- function from the record to the record. Each critical section under a mutex is one function, so a
-- step of EarlyFlush/Steps is atomic as it is in the code; the goroutines and timers are the steps'
-- order. The calls made of the writer underneath are kept as a list, and the callbacks as a list of
-- reports, which are guarded by whether they are set. A text is the list of its code points; bytes
-- that are captured from a body are read as code points, which is exact for ASCII. The verdict of
-- outbound.Relay and the call of OnFlip that follows it are two steps, since Close takes no lock and
-- may fall between them. The calls of refusalHooks are taken one after another, so the drift of its
-- counter that overlapping calls may cause is outside. An act of tunnel.Manager is a call that was
-- made: a kill was sent, and os.Remove was called, with whether it removed the record. A fraction is a
-- natural number of billionths, or the two sides of its division. Times and durations are natural
-- numbers of nanoseconds, a later time minus an earlier one never below 0; counters and lengths are
-- natural numbers and do not wrap, since no run of the program comes near 2 ^ 63 of anything.
--
-- Parameters, which stand for code outside the repository and for what a listing of files shows:
-- gjson (a record of its three calls in StallGuard/Ledger, a function from the body to the field
-- `stream` in EarlyFlush/Middleware), json.Unmarshal into a claudeError (a function into Option in
-- Envelope/Body), the decoding and printing of JSON in Refusal/Find and Refusal/Mark,
-- strings.EqualFold, url.Parse, net.ParseIP and the environment in Config/Validate,
-- strings.EqualFold, time.Parse and filepath.Join in Credentials/Store, net.SplitHostPort and
-- net.ParseIP (functions in Access and Tunnel/Startup), yaml.Unmarshal of cloudflared's
-- configuration (its result in Tunnel/Ingress), strconv.ParseFloat, the digest of a credential and
-- the rounding of a percentage (functions in Metrics/Usage and Metrics/Collector), and the operating
-- system as tunnel.Manager meets it (the record Os of Tunnel/World: what it answers at each moment,
-- with the table of unicode.SimpleFold that strings.EqualFold goes by),
-- and the network as a connection of the relay meets it (the record Net of Outbound/Connection).
-- Nothing is assumed of them, but by Tunnel/Undone, which says what a launch leaves where os.Remove
-- succeeds and FindProcess finds. A day of the journal stands with the bounds that package time
-- gives its name, and a line with what json.Unmarshal makes of it; Credentials/Spared assumes that a
-- path is one file's, Journal/Search that a day's file holds that day's events, which Journal/Filed
-- is about, and Journal/Together that a day has the times between its bounds, and that a line reads
-- back as the event it was written from. Where a loop ranges over a Go map, the model takes the keys
-- in one order, and no theorem depends on which.
--
-- Bounds. Loops are structural recursion on their input, but for three that run on fuel: itoa's,
-- over the 20 bytes that the source gives it, which is enough for any int, and the polling loops of
-- tunnel.Manager, whose rounds wait at least 150 ms of 5 s and 300 ms of 15 s, so that 35 and 51
-- rounds are enough.
--
-- Not modelled: third_party/, the wiring in proxy/proxy.go, the reading of configuration files, the
-- command line and the terminal interface, log lines, the diagnostics, the texts that tunnel.Manager
-- shows, and the file system beyond the files named here.
pub mod Base
pub mod Text
pub mod Ordering
pub mod Wire
pub mod Cause
pub mod Envelope
pub mod EarlyFlush
pub mod StallGuard
pub mod Metrics
pub mod Journal
pub mod Access
pub mod Tunnel
pub mod Outbound
pub mod Refusal
pub mod Credentials
pub mod Config
pub mod Translate
