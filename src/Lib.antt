-- ===== src/Lib.antt =====
-- loraplex: a router in front of vLLM servers that serve LoRA adapters. Each node places the keys of
-- requests on a consistent-hash ring of peers, forwards a request to the owner of its key or serves it
-- itself, and keeps the adapters it serves on its disk, fetched from origins and evicted by least use.
--
-- The files and the code that they are about:
--
--   Routing/Ring        internal/routing/ring.go. The state `Ring` has the sorted vnodes and the map of
--                       peers; NewRing, Update, Owner, Fallback, IsSelf, Peers, PeerCount and
--                       UpdatePeerLoad are functions on it. Placement has the invariant `WellFormed`,
--                       Clockwise the owner, Consistency two rings side by side, Rounds and Fallback
--                       the other peers.
--   Routing/Forwarder   internal/routing/forwarder.go: Decide, Forward, ForwardWithFallback and
--                       CopyResponse. A call gives the list of requests sent beside its result.
--                       Decision and Sending are about the two halves, Relaying about both.
--   Cache/Lru           internal/cache/lru.go. A list element has a handle in place of its address, and
--                       the map holds handles; sizes are int64 bit patterns. Elements, Invariant and
--                       Identifiers are about the representation, Plain and Refinement about the list
--                       of uses that it stands for, Eviction about Evict, Runs about sequences of calls.
--   Cache/World         the state that the store and the manager share: the store and the disk.
--   Cache/Store         internal/cache/store.go; Paths is about identifiers. Cache/Store/Rebuild is
--                       Rebuild; Found, Listing and Only are about what it finds, Inside about
--                       where.
--   Cache/Meta          internal/cache/meta.go.
--   Cache/Manager       internal/cache/manager.go: EnsureAdapter, its parts, revalidation, eviction.
--                       Steps and Installing are about the parts, one by one, Confinement and
--                       Success are about the whole calls.
--   Config              internal/config/config.go: defaults and checks; Config/Size is ParseSize,
--                       Config/Load is Load and loadConfig; Config/Flags is applyOverrides and
--                       splitPeers of cmd/loraplex/main.go, Config/Defaults and Config/Load/Flagged are
--                       about the defaults and the flags.
--   Proxy/Body          internal/proxy/body.go: the model, the tenant and the key of a request.
--   Proxy/Handler       internal/proxy/proxy.go: ServeHTTP as a function from a request and the state
--                       of the cache to the outcome. Branches is about
--                       its parts, Routes about where a request goes, Hops about several nodes, Headers
--                       about what vLLM gets.
--   Health              internal/health/checker.go; Overload is about its effect on the forwarder,
--                       Peers on the ring.
--   Admin               internal/admin/handler.go: the four paths. Eviction is about passing one on,
--                       Warmup about the loop over the adapters.
--   Origin              internal/origin: FromConfig; Origin/Web is http.go and huggingface.go,
--                       Origin/Bucket s3.go. Rounds, Confinement, Plain and Completeness are about
--                       what a fetch writes.
--   Discovery           internal/discovery: the base and static.go; Discovery/Heartbeat is file.go,
--                       Discovery/Kubernetes k8s.go, Discovery/Modes New and the interface. Rounds,
--                       Fresh and Own are about the heartbeat files, Following about the subscriber.
--   Server              internal/server/server.go: the routes.
--   Node                the parts together: Node/Boot is run of cmd/loraplex/main.go and Node/Main
--                       main, with the errors that are left in Refusals; Node/Step is the
--                       handlers and the rounds of the goroutines as steps in any order. Handlers,
--                       Invariant, Preservation, Start and Reach are about runs.
--   Loadgen             cmd/loadgen/main.go: a request and the report; Totals is about its counters.
--   Go                  the standard library as the code uses it: byte order (Bytes), maps (Dict),
--                       sort.Search and sort.Slice (Search, Sort), int64 (Int64), numbers as text (Decimal),
--                       os.ExpandEnv (Expand), strings.TrimSpace (Trim),
--                       time.Duration (Duration), net/http (Http),
--                       path/filepath (Path) and the file system (Fs).
--   Prelude             shared names and lemmas on lists, strings and results.
--   Tests               runs on concrete inputs, and each theorem at an input.
--
-- How the parts meet: the handler reads a request (Body), asks the forwarder, which asks the ring,
-- and asks the manager for the adapter through the field `ensure` of its record; the manager asks the
-- origins through the interface `OriginFetcher` and changes the store and the disk; the discovery
-- renews the ring through its callback, and the health checks set the loads in the ring that the
-- forwarder compares. A node has them all in one state, and each step is a call of one of them.
--
-- Parameters: SHA-256 (a function to bytes), the sort of sort.Slice (any function with the law of a
-- sort, not a stable one), the HTTP clients, the client of the AWS SDK, JSON, the float64 type of loads
-- and thresholds with the comparisons that the code makes, time.ParseDuration, YAML, the environment
-- and the name of the host.
-- The theorems on the manager alone take any origins with the law `Confined`: given an absolute target,
-- they change nothing outside of it, but for missing directories on the way there, which they may make.
-- Those on a node use the origins of the code. `KeepsOutside` of Go/Fs/Outside says the same of a whole
-- run: each path outside of the base has after it what it had before, nothing if it had nothing, unless
-- the base lies in it and it is a directory that was missing.
--
-- Loops: the loops over lists are structural. `fallback_from` runs once per vnode, which is the bound
-- of the loop in the code; `evict_loop` runs on the length of the list, which each round shortens, so
-- that it never stops early; `search` halves an interval, with its length as fuel; `walk` goes down by
-- one more than the parts of the longest path on the disk, which is as deep as a file can lie; and
-- `decimal` divides by 10 at most as often as its number says.
--
-- A call of a method is one step, since the methods hold a lock or run under singleflight; goroutines
-- are steps of their own, and interleavings within a call are not modelled, so neither is what two
-- fetches of one adapter do to each other. A request is counted from its arrival to its answer. Not
-- modelled: metrics, logging, timeouts, signals and shutdown, the flag library, a time to
-- live of less than a second, spaces that are not ASCII, symbolic links, the workers of
-- cmd/loadgen, and the mock servers under cmd/mock-vllm and e2e. A call of MkdirAll or RemoveAll that
-- fails leaves the disk as it was. The number of vnodes is an integer in the configuration; a negative
-- one, on which the first Update of the ring panics, ends the start of the discovery with an error of
-- its own, so that a ring has a natural number of them. The times that a heartbeat is written with,
-- that the system gives its file and that the scan reads are three (`TickTimes`).
pub mod Prelude
pub mod Go
pub mod Routing
pub mod Cache
pub mod Config
pub mod Proxy
pub mod Health
pub mod Admin
pub mod Origin
pub mod Discovery
pub mod Server
pub mod Node
pub mod Loadgen
mod Tests
