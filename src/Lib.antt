-- ===== src/Lib.antt =====
-- Mango WAF: a verification of the core of the firewall.
--
-- A request enters core/server.go, which asks core/pipeline.go for an action. The pipeline keeps the bans
-- and the state of each address, and asks the rules engine of rules/engine.go and the engines for
-- fingerprints, intelligence, behaviour and challenges for their answers; bans leave it for the kernel
-- map of core/xdp.go, the ban worker, the other nodes of the mesh and Cloudflare.
--
-- Common: Boolean tests on numbers, lists, bytes as Go's strings with the functions of package strings that
--   the program calls (ASCII letters only), maps with string keys as association lists,
--   signed integers, decimal numbers as strconv prints and reads them, and lists cut at an index.
-- Request: the fields of net/http's request that are read.
-- Shards: core/sharded_map.go. A map is a function from shard numbers to association lists; LoadOrStore,
--   Cleanup, Clear and Snapshot are one step each. Shards/Laws and Shards/Sweep hold the lemmas.
-- Pipeline: the state of core/pipeline.go as one record, and a state monad for its methods. State has the
--   addresses (GetOrCreate, fnv32IP) and the host tests, Bans the ban lists (BanIPLocal, banIP, isBanned,
--   UnbanIP, Cleanup), Stage determineStageWithFP, Layers and Process the layers of
--   ProcessWithFingerprint in their order. BanLaws, BanSafety and Safety follow what a request may
--   do to the bans; StageLaws and Totality its answers; Firewall puts the engine of Rules into it; Counters and
--   Banning follow single operations.
-- Rules: rules/engine.go and rules/custom.go. Rules live in a store, since the slice and the index share
--   them by pointer; Text cuts queries and cookies, Match is matchRule, Inspect the loop over the rules,
--   Registry the operations by id. Verdict and Hits, Prefilter and Payload, Keyword and Registration hold the
--   lemmas.
-- Tls: fingerprint/tls_parser.go. Extensions has the parsers of the extensions, Hello the message; a slice
--   is an array up to its capacity and a length, an index past the length and a slice past the
--   capacity are panics. Slices,
--   Roundtrip and Versions hold the lemmas.
-- Upstream: core/upstream.go, the pools by domain and GetNext; RoundRobin holds the lemmas, and
--   Health the health checks.
-- Hardening: perf/hardening.go, the request validator and the graceful degrader with its levels.
-- LogStore: core/logstore.go. Ring has the worker, RecordEvent, QueryLogs and Clear; Newest sets the ring
--   beside the list of the newest events.
-- Limiter: perf/pool.go, the token buckets and the limiter by address. Bounds follows one bucket, Sharing the
--   buckets of all addresses, Cleanup the sweep and the change of the rate, Sweeps runs with sweeps in them.
-- Challenge: challenge/challenge.go. Proof has the cookies and VerifyProof, Solve the posted solutions; Laws,
--   Sound and Eviction follow the cookies and the cache, Solutions the solutions.
-- Mesh: cluster/gossip.go and the handlers of main.go. A message is the JSON object that its bytes hold.
--   Exchange puts a node and its pipeline together, and lets one broadcast of a node reach another, as memberlist
--   transmits it; Bans and Metrics follow a ban and the metrics of the peers.
-- Cdn: core/cache.go, the cache of responses, as core/proxy.go fills it. Reuse has the steps of the cache and
--   the invariant over all that can be reached.
-- Http2: fingerprint/h2_parser.go, the frames of HTTP/2 and the fingerprint of them. Wire sets the parser beside
--   the bytes of the protocol, Known looks at the database of fingerprints.
-- Fingerprint: fingerprint/fingerprint.go with the JA3 and JA4 of a ClientHello; Database has the tables of
--   fingerprint/database.go, Composite the score, Store fingerprint/interceptor.go and Sniff
--   fingerprint/early_reject.go. Reach has the steps of the store; FastTrack sets it before the pipeline's layer.
-- Attack: core/server.go's rpsCounter and attackDetector, and core/alerts.go. Detector has the state of each
--   domain, Alerts the cooldowns; Recent and Announce look at runs of ticks and at the alerts.
-- Server: core/server.go's handleRequest, which calls the pipeline and acts on its answer. Guard, Effects and
--   Accounts look at what it hands on, bans and counts. The outcome of a posted form's verification is an answer
--   from outside, whose callbacks and whose panic the handler acts on.
-- Intel: intelligence/intelligence.go and reputation.go, `Evaluate`; Geo has the table of places, Asn
--   intelligence/asn.go and Lists the black and white lists. Score bounds the evaluation and sets it in the
--   pipeline's layer, Expiry looks at the sweep of the lists. Feeds has intelligence/feeds.go.
-- Center: config/center.go with the types of config/config.go; Load has config/config.go's Load and the two
--   validations, Store the center and its disk, Save SaveYAML, Operations what ends in a save, Diff the diff.
--   Atomic, InForce, History, Apart and Restore follow the saves, Restart sets Load beside them, Sides reads a diff back.
-- Each component has its tests in a module Tests.
--
-- Durations and times are natural numbers of nanoseconds, and a request is handled at one instant.
-- Trust scores are in hundredths, tokens of a bucket in parts of 10 ^ 9. Counters of int64 are unbounded; the
-- FNV hash is over uint32. Loops run over a list, the 256 shards or at most 20 frames, except two of the
-- ClientHello parser, whose fuel is the number of bytes left, since each round takes at least one of them, and
-- the printing of a number, whose fuel is the number, since each round divides it by ten.
--
-- Parameters, since the code does not hold them: the clock and the address functions of package net
-- (Env), the answers of the other engines (Engines), regexp.Compile, HMAC,
-- SHA-256 and MD5, and YAML, viper, JSON, paths, random bytes and what can be written (Libraries).
-- Not modelled: the dashboard and its audit log, the proxy and the listeners, the client of Cloudflare and the
-- program in the kernel, memberlist and Ristretto, the pages, logging, the command line and the test site, which
-- are input and output around these parts; the scores of detection, which are floating point; the worker that
-- hands bans to ipset; the table of built-in rules.
pub mod Common
pub mod Shards
pub mod Request
pub mod Pipeline
pub mod Rules
pub mod Tls
pub mod Hardening
pub mod Upstream
pub mod LogStore
pub mod Limiter
pub mod Challenge
pub mod Mesh
pub mod Cdn
pub mod Http2
pub mod Fingerprint
pub mod Attack
pub mod Server
pub mod Intel
pub mod Center
