-- ===== src/Lib.antt =====
-- A model of stouter, a service mesh daemon: nodes host services, gossip a versioned configuration
-- and each other's health, and subscribers forward local connections through tunnels to the nodes
-- that host a service.
--
-- The parts, the files that model them and the code they are about:
--   Config: src/config.rs. The configuration's data; Mutate has upsert_service, remove_service
--     and rename_service, Routes has set_routes and the validation and matching of routes, Ports has
--     local_port_for. Groups, Removal, Renaming, RouteValidity, RouteOrder and Ports prove what these
--     do. Settings has a node's own configuration with SubscribeFilter and TracingConfig, Names the
--     sorting of names, Validation Config::validate; Domains, LocalPorts and Soundness prove what it
--     checks.
--   Health: src/health.rs. HealthTracker, a round of run_health_checks (check_round) and the reading
--     of a probe's answer. Proofs in Tracker and Reports.
--   State: src/state.rs. SharedState and its indexes, and in Pool the idle connections of StreamPool.
--     Proofs in Indexes and Pool.
--   Gossip: src/gossip/messages.rs and src/gossip/mod.rs. Merge has what is done with a message,
--     Addresses the repair of received addresses, Admin the admin requests and the poll of the
--     configuration file, Frames the framing. Proofs in Versions, Authority, Health, Discovery, Snapshot
--     and Frames.
--   Node: src/node/tunnel.rs and src/node/relay.rs. The answer to a tunnel request and its bytes, also
--     as src/subscribe/proxy.rs reads them. Proofs in Answers.
--   Subscribe: Balancer models src/subscribe/balancer.rs and Proxy src/subscribe/proxy.rs: from a
--     client's connection to the attempts on nodes. Proofs in the modules below them. Http models
--     src/subscribe/http.rs: HttpProxy::attempt in Http, request bodies in Requests, select_route in
--     Choosing, hop-by-hop headers in Headers, TraceContext in Trace, the headers that handle sends in Outgoing,
--     node_uri and node_id_from_uri in Authority, texts in Bytes. Proofs in Retries, Endings,
--     Attempting, Finishing, Looping, Serving, Tickets, Stripping, Forwarding, TraceText, Hops and Hex. Manager models the loop of
--     manage_proxies of src/subscribe/mod.rs; proofs in Entries, Consistency, Starting, Passes and
--     Settling. Listener models src/subscribe/listener.rs, with proofs in Dispatching, and Tunnels
--     establish_tunnel of src/subscribe/proxy.rs with MuxPool of src/mux.rs, with proofs in Sources.
--     Api models the handlers of src/subscribe/api.rs; Shown has the passes of manage_proxies one after
--     the other and what the API then answers.
--   Telemetry: src/telemetry.rs. The queue of spans and run_exporter; proofs in Delivery and Bounds.
--   Prelude: lists, maps, results and numbers that the others share. Tests: small inputs.
--
-- The parts meet in SharedState: gossip and health checks write it, the proxy reads the backends of a
-- service from it, and asks the balancer for one after the other.
--
-- State is passed explicitly: a method takes the state and returns the new one; a lock or an atomic
-- swap makes it one step. What a handler sends or writes is a list of effects. Machine integers
-- wrap around as in a release build (u32 and u64 counters by % 2 ^ 32 and % 2 ^ 64; saturating
-- operations by min). The balancer's i64 weights are unbounded integers. Instants and durations
-- are numbers of nanoseconds. A HashMap is an association list with the newest value of each key; what
-- depends on its order is sorted as in the source, and the loops over a map in Subscribe.Manager and
-- Subscribe.Api go through its entries in their order. Texts are compared by their code points. Loops are
-- structural; the attempts for a client count down from the smaller of three and the number of
-- backends, which is the loop's own bound, so no fuel can run out.
--
-- Parameters, as code that is not in the repository: which texts are header names (the http crate), the
-- MessagePack codec (rmp_serde), the parsing of addresses and URLs, the clock, the outcome of
-- connecting, what nodes answer, whether the retry budget allows a retry, random bytes and tickets, and
-- what other connections do to the balancer while one client waits. The http crate's HeaderMap is the
-- interface Subscribe.Http.Headers.HeaderMap, whose laws are those of a map with several values under a
-- name in lower case.
--
-- Not modelled: the loading and saving of files, the waiting of StreamPool::take and
-- InFlightTracker, the retry budget's floating-point amount, the parsing of whole URIs around the
-- authority of a node, the JSON of spans and of the REST API, the metrics of a request, reverse
-- connection upkeep, the yamux driver, TLS and certificates and the command line. They are
-- I/O or glue around other crates, or follow the parts above.
pub mod Prelude
pub mod Config
pub mod Health
pub mod State
pub mod Gossip
pub mod Node
pub mod Subscribe
pub mod Telemetry
pub mod Tests
