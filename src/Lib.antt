-- ===== src/Lib.antt =====
-- Tailroute: Docker services on a Tailscale network under their own hostnames.
--
-- An agent on each Docker host finds the services of its containers (by their labels), adds those
-- that the admin has enabled and those of its configuration, serves them through an HTTP proxy, and
-- registers their hostnames with the controller. The controller keeps the registrations in a
-- database and answers DNS queries for a hostname with the address of the agent that owns it, as
-- long as that agent is heard of.
--
-- The parts, by the crates under crates/:
--   Base: names of the libraries, tests on numbers, results, keys, and Rust's `str` as lists of code
--     points with the operations that the program calls; the values of headers as text. No code of the repository.
--   Common (tailsvc-common/src): Hostname for hostname.rs, Backend for backend.rs, Labels for
--     labels.rs, Auth for auth.rs, Errors for error.rs, Api for the messages of api.rs.
--   Storage (tailsvc-storage/src/store.rs and migrations/): the tables as lists of rows, each SQL
--     statement as a function on them, each method of `Storage` as a function from the database to
--     its result and the new database. Tokens, Agents, Routes, Leases and Enabled hold the methods;
--     their child modules hold the proofs.
--   Docker (tailsvc-docker/src): Resolve for backend_resolve.rs, Inspect for docker_runtime.rs,
--     Candidate for candidate.rs, on what the Docker client reports.
--   Dns (tailsvc-dns/src): Registry for registry.rs, Cache and Server for server.rs, on decoded
--     messages, and Tcp for its connections over TCP.
--   Proxy (tailsvc-proxy/src): Routes for routes.rs, Handle and WebSocket for proxy.rs.
--   Controller (tailsvc-controller/src): Config, Sessions and State for the files of those names,
--     Agents, Admin and Overview for the handlers of api.rs, Probe and Backup for probe.rs and
--     backup.rs, Router for the routing and for the tasks of main.rs and lib.rs, Supervise for the
--     restarts of the DNS server. A handler takes the shared state and returns its answer and the new
--     state; the `?` of the source is the bind of `Handler`. System is the controller as a whole: a
--     step relation whose steps are the calls that the handlers and tasks make, in any order.
--   Agent (tailsvc-agent/src): StaticRoutes for static_routes.rs, Probe, Reconcile, Loop and Start for
--     reconcile.rs, Client for controller_client.rs, Tailscale for tailscale.rs, and the flags and the
--     answers of ready.rs.
-- The tests that run the theorems at concrete inputs stand in modules called Tests.
--
-- How the state corresponds: the database is the record `Database`; a `HashMap` is an association
-- list whose `insert` replaces; the shared maps behind locks are plain fields that a handler returns
-- anew, so that a handler runs as a whole. How handlers and tasks interleave is the step relation of
-- Controller.System: a step is one call of the storage, one renewal of the registry (with tables that
-- may have been read earlier), or one use of the sessions; the use of an enrollment token is split at
-- its await (Storage.Tokens). Within a step no other runs.
--
-- Numbers are natural numbers. Instants and durations are nanoseconds since the epoch, in the
-- agent's retries milliseconds; one reading of a clock serves a call. A port is read with the bound
-- of its type (16 or 32 bits), and an IPv4 address is the number of its four octets. Loops over lists
-- that the call is given are structural recursions. The loop over a connection has fuel, and one
-- round more than the client sends bytes is enough; the endless loops of the agent and of the
-- controller's tasks are the step relations of Agent.Loop and Controller.System.
--
-- What is not under crates/ is a parameter: the IDNA encoder, the URL parser, the password hash
-- (`IsArgon2`: a password verifies against its own hash), chrono's timestamps (`IsRfc3339`: they are
-- read back and are ordered as the instants are), JSON texts, the DNS resolver and the backend of
-- the proxy. Random texts are arguments.
--
-- Not modelled: sockets, HTTP and the DNS wire format, the bytes of an upgraded connection, the
-- loading of configurations and of the password file, the connections of the probes (whose outcomes
-- are arguments), the copying of the database, and the start-up of the programs on the command line.
pub mod Base
pub mod Common
pub mod Storage
pub mod Docker
pub mod Dns
pub mod Proxy
pub mod Controller
pub mod Agent
