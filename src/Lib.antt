-- ===== src/Lib.antt =====
-- A verification library of asabru-commons, the C++ support library of the Asabru proxy.
--
-- The program's parts, and the files that model them. Paths are from the repository's root.
--
-- - src/http (http_message.h, http_message.cpp, uri.h): `Http` and its child modules. `Method`,
--   `Version` and `Status` hold the enumerations and their conversions; `Message` the class
--   `HttpMessageInterface`; `Request` the class `HttpRequest`, its `to_string` and
--   `string_to_request`; `Response` the same of `HttpResponse`. Functions keep their names, with the
--   loops and blocks of the two parsers as functions of their own (`split_body`, `start_request`,
--   `read_headers`, `read_header`, `read_response_headers`, `body_of`).
-- - src/thread_safe_queue: `ThreadSafeQueue`. src/thread_pool: `ThreadPool`, a relation `Step` on
--   `Pool` with a constructor for each thing that a thread, a caller of `push` or the destructor
--   can do next, and `Reach` for the states that a pool of `n` threads can come to.
--   src/util/ThreadPoolSingleton.h: `ThreadPool.Singleton`.
-- - src/load_balancer: `LoadBalancer`, the strategies as functions on their static variables.
-- - src/ComputationContext.*, src/TypeFactory.*, src/util/libnameothy.*, src/util/globothy.*,
--   src/CommandDispatcher.h, src/BaseComputationCommand.h: `Commands`. The dispatcher finds a
--   command by the type factory, which loads plugins, and runs it on a context.
-- - src/authentication: `Authentication`. `CachedFileList` and `MemoryMappedListFile` are the lists
--   of tokens with the bytes of their files; `Basic` is `BasicAuthenticationStrategy` with the
--   factory, on the `CachedFileList` of its revoked tokens and the contexts of `Commands`, its
--   constructor in `Basic.Environment`. `Compactor` is its compacting thread with the destructor and
--   the calls of other threads, a relation `Step` over the interface `RevocationList`, which
--   `CachedFileList` fills. `Basic` also has a round of the thread as one function.
-- - src/authorization and src/afcas: `Authorization`. `InitData` reads the configuration from XML,
--   `AfcasClient` sends it to the AFCAS service with the command dispatcher and asks the service,
--   `Strategy` is `AfcasAuthorizationStrategy` with its factory.
-- - src/scheduler: `Scheduler`, the loop of `start` as rounds at clock readings.
-- - src/Utils.h: `Utils`.
-- - src/ProtocolHelper.h and src/util/endian_utils.h: `ProtocolHelper`, the readers of integers and
--   texts over the byte order of the host, with the conversions in `Endian`. A variable that is
--   filled by `memcpy` is the bytes of its memory.
-- - src/file_transfer: `Payload`, the packets with their arrays as the bytes of their memory.
-- - src/LineGrabber.h: `LineGrabber`, its loops on the memory from the index on.
-- - src/logger: `Logger`. `Queue` and `Writer` are the queue of entries and the writers, `Strategy` the
--   strategies and their factory, and `Worker` the logger with its thread, a
--   relation `Step` with a constructor for each thing that can happen next, and `Reach`. `Database` is
--   the access to SQLite, `OverTcp` the network writer on the client of `Network`, and
--   `OverSqlite` the database writer on `Database`.
-- - src/ProtocolHelper.cpp, src/logger/util/TcpClient.h, src/util/network_utils.h, CloseSocket of
--   src/util/ThreadUtils.cpp: `Network`, with `Sockets` for the functions on sockets and `TcpClient`
--   for the client of the network logger. The logger takes its client as two functions of `System`,
--   to send and to connect again.
-- - src/util/PythonInterpreter.*: `PythonInterpreter`, `Execute` over the contexts of `Commands`, with
--   the references to objects of Python that it releases.
--
-- `Strings` has the operations of `std::string`, `std::map` and `std::istringstream` that the code
-- calls, as the C++ standard describes them; `Base` has lists over the native numbers, `ℤ`, tests,
-- and `Outcome`: a value, an exception or undefined behaviour. Machine integers: the position of a
-- round robin goes through `size_t` and back to `int` by `to_size` and `to_int` of `Base.Int`, which
-- wrap around; counts of servers are below the bound of an `int`. Loops are recursion on the
-- text or the list that they read. `split` of `Utils` runs on fuel, one more than the text has bytes,
-- which is enough since a delimiter that is not empty is taken off in each round; `flush_loop` of
-- `Logger.Writer` runs for as many rounds as there are entries, each of which takes one. Undefined
-- behaviour, such as a write behind an array, ends a call with a failure of its own.
--
-- Not modelled, as other programs' code or pure I/O: what is logged and printed for debugging, the
-- vendored JSON library, what nothing calls of src/util/ThreadUtils.cpp, the generator of UUIDs,
-- the structures of src/config, and the test harness. The dynamic linker and the plugins are a
-- parameter (`PluginSystem`), as are the JWT library (`Jwt`), the XML library (`Xml`), what is
-- called of the JSON library (`Json`), the media of the logger (`System`), environment variables
-- (`Environment`), SQLite (`Sqlite`), the calls on sockets (`SocketSystem`, `NetSystem`) and the C
-- API of Python (`Python`). Whether the system opens a file, `malloc`, `glob` and the date are
-- arguments. A wait of the logger's thread ends by a notification only.
pub mod Base
pub mod LoadBalancer
pub mod ThreadSafeQueue
pub mod ThreadPool
pub mod Strings
pub mod Http
pub mod Commands
pub mod Authentication
pub mod Authorization
pub mod Scheduler
pub mod Utils
pub mod ProtocolHelper
pub mod Payload
pub mod PythonInterpreter
pub mod Network
pub mod LineGrabber
pub mod Logger
