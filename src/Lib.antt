-- ===== src/Lib.antt =====
-- CAPIO is a middleware that lets the applications of a workflow stream files to each other. A client
-- library (src/posix) intercepts the system calls of an application and sends requests through a
-- buffer in shared memory; a server (src/server) answers them, and lets a reader wait until the file
-- is there, is long enough or is committed. The streaming rules of the files come from a CAPIO-CL
-- configuration in JSON.
--
-- The files and what they model:
-- Prelude and its children: names of the library, tests, lists, integers, texts as lists of codes,
-- association lists for maps, and the result of a call, a value or a fault that ends the process.
-- Constants: src/common/capio/constants.hpp.
-- Path: paths as std::filesystem takes them apart, and fileToBeHandled.
-- Glob: match_globs of src/server/utils/common.hpp.
-- Clients: ClientManager, src/server/client-manager/client_manager.hpp.
-- Engine: CapioCLEngine, src/server/capio-cl-engine/capio_cl_engine.hpp, the table of the files.
-- JsonParser: JsonParser::parse, src/server/capio-cl-engine/json_parser.hpp, from the document that
-- simdjson has read; Number is is_int and std::stol, Parse the sections of the document.
-- Disk: the file system as the server sees it, a parameter, and the paths of the commit tokens.
-- FileManager: CapioFileManager, src/server/file-manager/file_manager_impl.hpp, with the state of the
-- whole server: its table, its clients, the two queues of waiting threads, the tokens.
-- Monitor: a round of the thread that polls the file system, src/server/file-manager/fs_monitor.hpp.
-- Lock: src/server/utils/distributed_semaphore.hpp, the steps of processes that create one file.
-- Queue: the circular buffer of src/common/capio/queue.hpp, its calls one by one, and in
-- Queue.Threads the steps of a writer and a reader that run at the same time.
-- Environment: src/common/capio/env.hpp and src/posix/utils/env.hpp.
-- Wire, Requests: sprintf of a request in the client, sscanf in the server, and in Requests.Bounds the
-- length of a request.
-- Handlers: the handlers of src/server/client-manager/handlers and the loop of
-- src/server/client-manager/request_handler_engine.hpp. Each handler is the parser of its arguments
-- and an operation named on_ and the request's name.
-- FdTable: the client's tables of open files, src/posix/utils/filesystem.hpp.
-- Cache: the two request caches of the client, src/posix/utils/cache.hpp.
-- Posix: the client's handlers of close, dup, open, lseek, read, write, rename and unlink, in
-- src/posix/handlers, over those tables; what the kernel answers is an argument. Posix.Asking: the
-- handlers of the other calls, which ask the server for its consent and leave the call to the kernel.
-- Snapshot: src/posix/utils/snapshot.hpp, the tables as the segments that a process leaves for its
-- successor of execve.
-- Process: src/posix/utils/clone.hpp with the handlers of fork, execve and exit_group.
-- Hook: the table of handlers and the dispatch, src/posix/libcapio_posix.cpp.
-- Tests: examples.
--
-- The state of the server is passed from call to call; an operation that can end the process returns
-- a Result. An unordered_map is an association list, whose order is its iteration order: nothing is
-- assumed of it. The file system is an argument of each operation, fixed while one request is served
-- and free to change from one request to the next. isCommitted calls itself on the dependencies of a
-- file; the model bounds the depth by the number fuel of the file system's record, which has to exceed
-- the longest chain of dependencies.
--
-- Not modelled: the creation of shared memory and the waiting on semaphores (a step that would wait is
-- not possible), logging, the parsing of JSON text by simdjson and of the command line, the start-up
-- of the server and its signals, the control module, and the library that intercepts system calls.
-- Posix takes the text of a request as it is; the buffer it is printed to is in Requests and in
-- Handlers.Transport. A step of Queue.Threads copies a whole element. ERR_EXIT ends the process; in a
-- build with CAPIO_LOG an option of the server lets it go on, which is not modelled. A path of a
-- snapshot is read after its segment was unmapped; what is read there is a parameter.
pub mod Prelude
pub mod Queue
pub mod Environment
pub mod Lock
pub mod Monitor
pub mod Hook
pub mod Process
pub mod Snapshot
pub mod Constants
pub mod Path
pub mod Glob
pub mod Clients
pub mod Engine
pub mod JsonParser
pub mod Disk
pub mod FileManager
pub mod Wire
pub mod Requests
pub mod Handlers
pub mod FdTable
pub mod Cache
pub mod Posix
pub mod Tests
