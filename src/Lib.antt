-- ===== src/Lib.antt =====
-- A verification library for gobol, a collection of Go packages that services share.
--
-- The parts and how they interact:
--
-- * scheduler/task.go and scheduler/scheduler.go are Scheduler.antt. A Task is shared by pointer, so
--   tasks live on a heap (`World.heap`); a goroutine of Start is an entry of `World.loops`, and its round
--   after the wait is `wake`. The manager's sync.Map is `World.task_map`. Interleavings are sequences of
--   calls and wake-ups (`Step`, `Reach` in Scheduler/Invariant.antt). Scheduler/Refinement.antt states what
--   the manager promises (`spec`, on a table from ids to flags).
-- * hashing/byteconv.go and hashing/sortconv.go are Hashing/Convert.antt, hashing/hashing.go is
--   Hashing/Generate.antt. A value of an `interface{}` is a `Value`, as package reflect shows it; a map
--   carries its entries in the order in which MapKeys gives them, which a theorem quantifies over where
--   the order must not matter. `sort` stands for sort.Sort, on keys that are distinct.
-- * timeline/flattener.go is Timeline/Flattener.antt; it hashes the parameters of a point with Hashing.
--   A turn of beginCycle is `cycle`, with its `Range` in `flush`.
-- * timeline/transport.go is Timeline/Channel.antt, Timeline/Config.antt and Timeline/Core.antt; a turn of
--   transferDataLoop is `turn`.
-- * timeline/http.go is Timeline/Http/Convert.antt and Timeline/Http/Transfer.antt; timeline/opentsdb.go is
--   Timeline/OpenTsdb/Convert.antt, Timeline/OpenTsdb/Connection.antt and, with the address and the
--   connection as state, Timeline/OpenTsdb/Recovery.antt.
-- * timeline/manager.go is Timeline/Manager.antt, over either transport, with or without a flattener.
-- * election/election.go and election/structs.go are Election.antt, Election/Run.antt and
--   Election/Nodes.antt, with GetSyncMapSize of util/collections.go. A call of the ZooKeeper client takes
--   and gives its state, which other nodes may change in it. A round of the loop of
--   listenForNodeEvents is `node_round`; `feedback` is the sequence of the signals that were sent, whether
--   they have been received or not. Election/Settings.antt reads the durations of New, and
--   Election/Session.antt is the goroutine of connect: an event of the session, with the attempts to
--   connect again that follow if the session is lost. `session_turn` says whether the sends of a turn find room
--   in the feedback channel; elsewhere a send is one that has found it.
-- * snitch/custom_point.go, snitch/point_funcs.go and snitch/snitch_dynamic.go are Snitch/Point.antt and
--   Snitch/Registry.antt. A point is reached by its key, as by its pointer; a cron job is `run_job`.
--   A call on a point, and one of getPoint for a key, is one step where no other overlaps it; the two parts of
--   getPoint are apart in `insert_point` and Snitch/Registry/Race.antt, those of Run in `collect` and
--   Snitch/Point/Lost.antt.
--   snitch/snitch.go is Snitch/Service.antt (New, start, runtimeLoop) and Snitch/Client.antt (the clients
--   for HTTP and UDP). In `steps` the cron jobs of the points and the posts of the HTTP client run together.
-- * What rip and tester/httpserver use of net/http is NetHttp.antt: the headers, the response that the
--   server sends, also where its length is bounded (NetHttp/Bounded.antt), and a handler as the tree of the
--   calls that it makes on a response writer (`Handler`, `serve`).
-- * rip/rip.go is Rip/Respond.antt, rip/gzip_middleware.go is Rip/Gzip.antt, rip/log_middleware.go is
--   Rip/LogWriter.antt and Rip/LogMiddleware.antt, and rip/router.go is Rip/Router.antt. Both middlewares take
--   any response writer, so that they can be put into each other, and the log middleware counts its requests
--   with Snitch.
-- * files/scanner.go and files/structs.go are Files/Scanner.antt, over the walk of a tree in Files/Walk.antt;
--   files/file_ops.go is Files/Operations.antt, on the contents of the files by path.
-- * tester/httpserver/httpserver.go is Tester/Uri.antt and Tester/Server.antt; tester/httpserver/utils.go, with
--   ParseResponse, is Tester/Client.antt and, for the wait, Tester/Wait.antt.
-- * solar/solr_service.go is Solar.antt, solar/solr_search.go is Solar/Search.antt and solar/solr_admin.go is
--   Solar/Admin.antt. The state is the cache of interfaces and the server behind go-solr.
-- * logh/logh.go is Logh.antt. cassandra/cassandra.go, cockroach/connection.go, compress/gzip.go and
--   loader/loader.go are the modules of Services.
--
-- Base.antt passes on what the parts share: lists over the native numbers, texts as lists of bytes,
-- integers, the order of float64 values as bit patterns, sync.Map as an association list, and Outcome:
-- a value, an error or a panic.
--
-- Bounds: int64 and uint64 values keep their range as a hypothesis where a property needs it. Only the
-- wait for a request in Tester/Wait.antt runs on fuel, ten turns, which a theorem shows to be enough. The
-- retries of the OpenTSDB transport and the attempts to connect to ZooKeeper again run over a list of the
-- answers that are given, and their result says whether the loop has ended within them; theorems say when it
-- ends. A send on a full channel is the result `waits` or `none`.
--
-- Parameters: the digests of the crypto packages, the arithmetic of float64, the serializers, the HTTP
-- client, the TCP connection, the ZooKeeper client, the cron parser, the host name and the clock, the
-- compressor of compress/gzip, the coders of encoding/json, the lookup of httprouter, how many bytes a call
-- of Read gives, the regular expression of the scanner, go-solr, the rule of zerolog for enabled events,
-- gocql, gorm, docker, the decoders of loader and the resolver of TCP addresses.
--
-- Not modelled: what is logged, the time that passes in a wait, overlapping calls and the data race of
-- unsynchronised fields beyond the interleavings above, statuses of HTTP that WriteHeader refuses and, for rip,
-- those that allow no body and a Content-Length that bounds it, two paths of one file, errors of reading
-- and writing an open file, Close of tester/httpserver, GetConnection and Close of cockroach, and the
-- packages util, but for GetSyncMapSize, and structs, which hold declarations and wrappers of the
-- standard library.
pub mod Base
pub mod Scheduler
pub mod Hashing
pub mod Timeline
pub mod Election
pub mod Snitch
pub mod NetHttp
pub mod Rip
pub mod Files
pub mod Tester
pub mod Solar
pub mod Logh
pub mod Services
