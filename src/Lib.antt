-- ===== src/Lib.antt =====
-- A model of the advanced flex HTTP server (c++/systemicai): an HTTP and WebSocket server over
-- plain and SSL connections, on Boost.Beast and Boost.Asio. Paths below are from the repository's
-- root, under src/c++/systemicai.
--
-- The parts of the program, and the files that model them:
-- * http/server/functions.cpp, the media type of a path, the path of a served file: Functions,
--   with Functions/Mime (the table of media types), Functions/Resolve (how a path is read, part by
--   part; from the root for absolute and relative paths alike, so it is exact for a process that
--   works in /) and Functions/Paths (where the built paths lead). `fail` is in Errors, with the error
--   codes.
-- * http/server/settings.h, the settings and their property tree: ServerSettings, with
--   ServerSettings/RoundTrip and ServerSettings/Bounds; PropertyTree is the interface of Boost's
--   property trees.
-- * http/server/handlers/handler.hpp, the default handler and the dispatch to registered handlers:
--   Handler, with Handler/Answer (what is answered), Handler/Containment (which files are looked
--   at) and Handler/Registry (the registered handlers).
-- * http/server/sessions.hpp, `http_session` with its queue, `plain_http_session` and
--   `ssl_http_session`: Session. A function of the model takes the session and returns it changed;
--   an asynchronous operation that is started is a number or an entry in the state (`reads`,
--   `writes`, `handshakes`, `shutdowns`). Session/Wire delivers the completions of outstanding
--   operations, in any order, with any error codes and requests; Session/Queue has the laws of the
--   queue, Session/Invariant and Session/Schedules the invariant, Session/Flow and
--   Session/Pipelining the order of the responses, Session/Drain the way in which the queue runs
--   empty, Session/Upgrade the change to a WebSocket session while no response is queued, Session/Closing the end of the
--   stream while a response is being written, Session/Settling and Session/Rest how a session
--   comes to rest, Session/LastResponse the response that ends a connection. Session/Specification
--   says what the pipelining promises, with no operation or queue of the code; Session/Simulation
--   and Session/Refinement take each completion to a step of it, and Session/Availability each
--   step of it to completions.
-- * http/server/sessions.hpp, `websocket_session` and the classes derived from it: WebSocket, with
--   WebSocket/Wire (completions and messages), WebSocket/Echo (what is sent back) and
--   WebSocket/Exchange (a run in which no operation fails).
-- * http/server/server.cpp and server.h: Detector and Detector/Schedules for `detect_session`;
--   Listener for `listener`, with Listener/Construction (how the acceptor is set up),
--   Listener/Events (the completions) and Listener/Connections (accepts and the detectors of the
--   connections).
-- * The whole server, server.cpp with sessions.hpp: Server, the listener, its detectors and the
--   HTTP and WebSocket sessions that they lead to, one link for each connection, driven by one
--   schedule; Server/Links relates a step of the server to one of its parts, Server/Sessions has
--   the order on each connection, Server/Progress what a connection can do whatever there is on the
--   others, Server/Outlived and Server/Lifetime how long the detector of a session is held. A
--   session keeps a reference to the settings of its detector, which is gone by then: what is read
--   through it is the parameter `dangling`.
-- * http/server/service.hpp, the service: Service, with Service/Steps (what the caller of `start`,
--   its threads and other threads do next), Service/Phases (the states it can be in),
--   Service/Lifecycle (the stages it goes through), Service/Shutdown and Service/Refusal (how it
--   ends, and where it never starts).
-- * The whole program, cmd/httpd.cpp with http/server/service.hpp and what runs on its context:
--   Program, with Program/Contexts (what a step of the service leaves of the listener),
--   Program/Connections (the connections, from the settings file on) and Program/Progress (that
--   each of them can go on).
-- * common/certificate.h, loading of certificates: Certificate, with Certificate/Loading (three
--   files) and Certificate/Streams (three streams). An SSL context is the row of calls made on it.
-- * cmd/httpd.cpp, the command: Command, with Command/Startup; `main` is `run_main`. Logging has
--   the filter of the log that its `set_log_filter` sets.
-- * http/client/settings.h, the settings of the client: ClientSettings, with
--   ClientSettings/RoundTrip.
-- * http/client/api.hpp, an example client: Client for its class signing, with Client/Exchange and
--   Client/Termination; Client/Master and Client/Child for the classes master and child, which
--   Client/Classes sets beside it.
-- * tst/c++/systemicai/http/client/api.cpp (from the root), the program `client`: ClientCommand,
--   with ClientCommand/Certificates and ClientCommand/Ending; `main` is `run_main`.
-- * tst/c++/systemicai/http/server/server.cpp (from the root), another server program: TestServer,
--   with TestServer/Startup, TestServer/Threads (how many are spawned), TestServer/Shutdown (how they
--   end) and TestServer/Lifetime (from the arguments to the return of `main`). The header with its listener is not in the repository.
--
-- How the parts interact: `main` loads the settings and the certificates and starts the service,
-- which runs a listener; the listener makes a detector for each connection, and this launches a
-- session; a session reads a request, calls `handle_request` with its queue as `send`, and this
-- calls `path_cat` and `mime_type`; the settings carry the document root and the version that the
-- responses show. In the model `handle_request` takes `send` as a function on the state of its
-- owner, and the session passes `queue_send`.
--
-- Conventions. A string is the list of its bytes; `string_view` has the members of
-- `std::string_view`. A size is a natural number, and an `int` a signed one. Boost's parts are
-- parameters: `beast::iequals`, the file system, the texts of error codes, `need_eof`, property
-- trees, `to_lower`, `Poco::URI`; where a theorem needs a law of them, it is among its hypotheses,
-- and the tests show values that satisfy it. A schedule is a list of completions, and Common/Runs
-- runs it by the step function of the component, as long as each completion is one of an
-- outstanding operation. A schedule may have completions that the code cannot have: a write that
-- succeeds although the stream is shut down for sending or moved away. What holds after any schedule
-- holds after those that the code can have; what a session can do is shown where its stream is open.
-- Fuel is used in one place, for the run of the `io_context` by the program
-- `client`: six steps, one for each operation of the client, which ClientCommand/Ending shows to
-- be enough. The other loops of the source run over lists.
--
-- Not modelled: the bytes on the wire, the parser of requests and the limits that it applies, what
-- a timeout does when it expires, threads inside a session (it runs on its own strand), the
-- lifetime of objects but for the detectors (what is read through the reference to a detector that
-- is gone is taken to be the same at each read), and the details of Boost's sockets, TLS and resolver.
-- In the service one step follows another; the creation of threads and of the set of signals is
-- taken to succeed. `HandlerRegistry::addHandler` does not compile when it is used; the header
-- with the listener of tst/c++/systemicai/http/server/server.cpp is not in the repository; the
-- classes of handlers/default.hpp and of common/exception.h are used nowhere.
mod Common
pub mod Errors
pub mod Functions
pub mod PropertyTree
pub mod ServerSettings
pub mod Handler
pub mod Session
pub mod WebSocket
pub mod Detector
pub mod Listener
pub mod Service
pub mod Certificate
pub mod Logging
pub mod Command
pub mod Client
pub mod ClientSettings
pub mod Server
pub mod ClientCommand
pub mod Program
pub mod TestServer
