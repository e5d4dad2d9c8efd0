-- ===== src/Lib.antt =====
-- Models and theorems for qoe-test-harness, a field tool that validates a low-latency (LLD / L4S)
-- deployment on a user's line.
--
-- A client exchanges small UDP packets with a server (core/protocol): a handshake that proves that the
-- client receives at its address, probes and their echoes, and load in both directions. The round
-- trips go into fixed-bin histograms, and a run's measurements into a verdict (core/compute). The
-- server (server/server.go) answers the packets and, behind the handshake, sends downstream load. The
-- reports of runs (core/report) go into a store (storage), which lists them for the engineer view.
--
-- Files and code:
--   Prelude        shared names: Boolean tests, lists, results, signed integers, texts, Go maps, and
--                  float64 as a record of operations (Floats) with the facts that a theorem may use, and
--                  calls that may fail on a world (Calls)
--   Protocol       core/protocol: Bytes (encoding/binary), Header, Packet, Handshake, Start, Load;
--                  marshal_x and unmarshal_x are X.Marshal and UnmarshalX
--   Compute        core/compute: Histogram (observe, merge, total, quantile), Cdf, Stats, Verdict
--                  (evaluate, with what verdict.go and result.go declare)
--   Server         server/server.go: handle is Server.handle, and each case of its switch is a function
--                  of the same name; retire is the deferred function of downLoop. Serving: open_server
--                  is Listen, serve_round a round of Serve, begin_down and down_tick are the start and
--                  a tick of downLoop. Process: Serve over the events it comes upon, and
--                  server/cmd/qoe-server/main.go (run_server)
--   Net            core/net: Pace (pace.go: due is Pacer.Due, mark_sent is MarkSent), Conn (the values of
--                  conn.go) and Loopback (loopback.go: send_probe, recv_echo, and the load's three calls;
--                  Simulator: the path as the surroundings of a run); Seams is the two interfaces of
--                  conn.go and core/clock's Clock over one world; Udp (udpconn.go), UpLoad (udpload.go)
--                  and DownLoad (udpdown.go) over the calls of Socket, with the handshake of both clients
--                  in Hello; LoadFlow: what the two commands open
--   Batch, Engine  core/engine/engine.go: batch_probe is BatchProbe and run_full RunFull, over any
--                  Seams; fill_defaults is New
--   Report         core/report/report.go: the record of a run
--   Storage        storage/store.go: the filter and the store in memory (save, list), and what a Store
--                  promises (Contract); Postgres: storage/postgres.go, the query (list_query) and the
--                  adapter over a database (Adapter: save_run, list_runs)
--   Dashboard      dashboard/dashboard.go: ingest, api_runs and api_cdf over a store; Routes: Handler and
--                  index, with serve for a request. Fleet: the dashboard over a store that keeps the
--                  contract, OverMemory: the store in memory as one
--   Render         cli/internal/render/render.go: field and engineer, the two views of a report
--   Cli            cli/cmd/qoe-cli/main.go: validate is the run of runValidation up to its report, submit
--                  sends the report to the dashboard, and Validation has the whole of runValidation;
--                  Diagnostic: main without -run (diagnose, diagnosis_text)
--   Latency        cli/cmd/qoe-latency/main.go: probe, two classes of probes in turn; Scenarios: the
--                  scenarios of main in their order; Printed: its tables
--   Examples       runs on concrete values, over a float64 stand-in of thousandths
--
-- Conventions. Byte buffers are lists of bytes, a store returns the buffer as it is afterwards, and the
-- pairs (value, error) of Go are results. Integers of w bits keep their wrap-around. A read out of
-- range is the error of a result, so that "returns a value" also says "does not panic". Locks are left
-- out: each operation of the server is one step under its lock, and the orders in which packets, ends
-- of flows and closing come are the sequences of steps of Server.Reachability. A flow may end there at
-- any moment, whether its time is over or not.
--
-- Bounds. The binary search of binIndex is recursion on fuel, with as many rounds as there are edges;
-- the interval loses at least one edge each round, so they are enough. The drain loops of BatchProbe
-- and of qoe-latency's probe have no bound in the source: they take as many rounds as their argument
-- says, and one more than there are probes is enough over the simulated path. All other loops are
-- structural recursion.
--
-- Parameters. HMAC-SHA-256 is any function of key and message; float64 is any structure of the record
-- Float64, with the facts of IEEE 754 arithmetic listed in Ordered and Rounded where a theorem uses
-- rounding; the text of a formatted number and net.UDPAddr's String are any functions. The sort of the
-- store is any function that, on the runs to be listed, does what a sort does; that of BaseRTT is any
-- function that keeps the number of samples. A socket is any record of the calls on it, which act on a
-- world; a timer's tick and a round of a receive loop are steps that the caller takes. A database is any
-- record of the two calls of database/sql; Documented is what a theorem takes of PostgreSQL, of the
-- statements and the arguments that the adapter sends. What the two commands open is any record of the
-- calls on it; Reliable is what a theorem takes of them. The conversion int(x) of a float64 is a
-- parameter for a value in range that is not negative; BaseRTT converts NaN too when its percentile is
-- NaN, which Go leaves to the implementation, and there the model panics, as the code does on amd64.
--
-- Not modelled: the layout of control messages, the timers and the goroutines themselves, the text of
-- the dashboard's page, the encoding in JSON and the headers of HTTP, the database itself, the calls of
-- the log, and the parsing of flags.
pub mod Prelude
pub mod Protocol
pub mod Compute
pub mod Net
pub mod Server
pub mod Dashboard
pub mod Batch
pub mod Engine
pub mod Latency
pub mod Report
pub mod Render
pub mod Cli
pub mod Storage
pub mod Examples
