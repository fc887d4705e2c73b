-- ===== src/Lib.antt =====
-- algod-mesh: an agent beside each algod node of a fleet. It gossips the node's round and
-- capabilities to the other agents and proxies the requests of the host's clients to the
-- upstream that suits them: the local node, a peer's, or an external one.
--
-- This library models the core logic of internal/domain and most of internal/app: what a request
-- needs, which upstream may serve it, and which one is chosen. A request is classified
-- (Domain/Classify), a simulation's body refines the class (Domain/Request), each upstream is
-- judged for it (Domain/Eligible), and one of the eligible upstreams is selected
-- (Domain/Select). The health of an upstream comes from Domain/Judge, and the address its
-- heartbeats take from Domain/Path. The upstreams themselves are the snapshot of App/Directory,
-- which the gossip, the registry and the checks keep, and of App/Monitor for the local node.
-- Ahead of the choice, App/Handle says who is let in and App/Limiter what they may spend; after
-- it, App/Forward makes the attempts, and App/Fan asks several nodes at once.
--
-- The files, with the source of each below internal/domain if no other is named:
-- - Base: Boolean tests, lists, integers, 64-bit words, clock, text, float64 and stable sorting.
-- - Domain/Capabilities and Domain/Upstream: types.go, the nodes and what they can do.
-- - Domain/Request, Domain/Query and Domain/Classify: classify.go.
-- - Domain/Eligible and Domain/Fleet: eligible.go.
-- - Domain/Select: select.go.
-- - Domain/Judge: health.go.
-- - Domain/Path: path.go.
-- - Domain/Effort and Domain/Plan: effort.go and ratelimit.go, the price of a request and what a
--   client may spend.
-- - Domain/NodeRecord and Domain/Codec: types.go and codec.go, the records of the registry and
--   the messages of the gossip.
-- - App/TxnPins and App/Stats: txnpins.go and stats.go of internal/app, which node took a
--   transaction, and what the router has seen of each upstream.
-- - App/Router: the pure parts of router.go of internal/app, the order in which upstreams are
--   asked and when the externals are checked.
-- - App/Handle and App/StatusBook: router.go of internal/app, who is let in, how a request is
--   relaxed, held or answered, and the status that waiting clients share.
-- - App/Account: ratelimit.go of internal/app, the allowance of one client, the admission of a
--   request and its bill.
-- - App/Identity and App/Limiter: ratelimit.go of internal/app, who a request is billed to, and
--   the table of the clients with its timers, and in Limiter/Saved what survives a restart.
-- - Domain/Endpoint: endpoint.go, and NormalizeAddr of path.go, over the parsers of net and
--   net/url.
-- - App/Options, App/Link and App/Directory: directory.go of internal/app. Link has the
--   addresses of one node and their pings, Directory the state, with the messages in Gossip, the
--   registry's records in Records, the probes and checks in Checks, the snapshot for the router
--   in View, and what is reported of the links in Status. Every critical section is a function
--   of the state, the time and the state of the local node.
-- - App/Monitor: monitor.go of internal/app, what an observation of the local node changes, and
--   the search for the oldest round that it serves.
-- - App/Forward: forwardSelected and answerFailure of router.go of internal/app, the attempts of
--   one request.
-- - App/Fan: pending.go, and handleBroadcast of router.go of internal/app, the answer that a
--   client gets of several.
-- - App/RegistrySync: registrysync.go of internal/app, the node's own record and the records for
--   the directory.
-- - Config/Tokens: the tokens of the rate limits, in internal/config/config.go and
--   internal/agent/agent.go.
-- - Tests: nodes and requests at which the theorems are applied.
-- Below each of them stand the modules of its theorems, named for what they prove.
--
-- Numbers: a uint64 is a natural number, with its wrap-around written out where the code adds
-- (Base/Word); an int that is never negative is a natural number, else an integer. A time is the
-- nanoseconds since Go's zero time, a duration a signed number of them (Base/Clock). A string is
-- a list of bytes. A float64 is a parameter, a type with the operations that the code uses;
-- theorems that need its order take it as a hypothesis, which holds of values that are not NaN.
-- A pointer that may be nil is an Option. A method that changes its receiver returns the new
-- one. A loop is a recursion on a list, but for the binary search of App/Monitor/Oldest, whose
-- fuel of 64 steps is enough for a distance below 2 ^ 64. AES-GCM, ed25519, HMAC and JSON are
-- records of functions, with their documented laws as hypotheses of the round trips. Random
-- draws are a function from the draw and its bound to the index.
--
-- Not modelled: the options of internal/config but for the tokens, the adapters (sockets, files,
-- HTTP, the chain), the goroutines and locks around the logic, logs and metrics, and the texts
-- of JSON.
pub mod App
pub mod Base
pub mod Config
pub mod Domain
pub mod Tests
