-- ===== src/Lib.antt =====
-- ehttp: an HTTP server library in C++. Bytes that the event loop receives are given to a watcher,
-- which feeds them to the request of the connection; a request that is complete is routed to a
-- handler of the application, and the response that the handler fills is written out in chunks as the
-- socket takes them. The files model these parts:
--
--   StringUtils    src/string_utils.cpp: ss_split_str, ss_str_tolower
--   RequestParam   RequestParam of src/sim_parser.cpp: the parameters of a query, parse_query_url
--   Unescape       ishex and unescape of src/sim_parser.cpp
--   RequestLine    RequestLine of src/sim_parser.cpp: method, URL, version, parameters of the URL
--   RequestBody    FileItem and RequestBody of src/sim_parser.cpp
--   Request        Request of src/sim_parser.cpp. Multipart has the callbacks of the multipart parser
--                  and ss_parse_multipart_data, Callbacks the callbacks of the HTTP parser, Parse
--                  parse_request. Fragments, Headers, Collect, Ending, Rejected, Passing, Accepted, Get,
--                  Form and Post prove what these make of requests, Resized, Sized, Calls and Reads that
--                  it does not matter where the bytes were cut
--   Response       Response of src/sim_parser.cpp: gen_response, readsome, rollback. Output is the
--                  string stream that it writes to, Layout the bytes as lines, Reading the chunks
--   HttpServer     src/http_server.cpp: Method has HttpMethod, Routes has Resource, add_mapping and
--                  handle_request, Watcher has on_readable and on_writeable of HttpEpollWatcher,
--                  Server the settings, start and join of HttpServer
--   EpollSocket    src/epoll_socket.cpp: the clients, their counter and their map, accepting, closing
--                  and clearing idle ones. Events has the handlers of events, Tasks the tasks for the
--                  pool and the steps of event loop and threads, Starting what start_epoll does up to
--                  the loop of events, Loop the loop. Clients, Idle, Balance, Held, Effects, Accepting,
--                  Lifecycle and Busy prove what the steps keep, Listening what listens, Draining,
--                  Stopping and Ending how a stopped socket ends
--   ThreadPool     src/threadpool.cpp: the state of a pool and what runs under its mutex. Steps has the
--                  interleavings as a step relation, Sections and Restart what each section keeps,
--                  Safety what holds in every reachable state, Queueing a queue with servers and
--                  Refinement that the pool is one, Threads the creation and the joining of threads
--   SimpleConfig   get_config_map of src/simple_config.cpp
--   SimpleLog      src/simple_log.cpp: FileAppender has the log file and its rotation by days, Log the
--                  levels, the configuration and the calls that log. Rotation, Shift, Preparing and
--                  Keeping prove what becomes of the bytes of a log, Levels what is logged
--   Base, Std      shared lemmas, and the containers and streams of the C++ library that the code
--                  uses: std::map and std::set (Std/OrdMap), std::multimap (Std/MultiMap), reading a
--                  std::stringstream with std::getline (Std/Stream), printing numbers and atoi
--                  (Std/Decimal)
--   Tests          the theorems at concrete inputs
--
-- A text is a list of bytes. An operation that changes an object returns the new object beside its
-- result; an int result is a value of the type ℤ of Base/Int. An uncaught C++ exception, and the
-- use of the last element of an empty vector, is the value `none` of an Option.
--
-- The HTTP parser, the multipart parser and the JSON library are not modelled: HttpParser
-- (Request/Parse) and MultipartParser (Request/Multipart) are records of what the callbacks see of
-- these parsers, namely the calls that some bytes lead to, as long as the callbacks return 0, and
-- how far the parser got at each of them, which is left open in the theorems about whole requests
-- (Request/Passing), as it differs from call to call; the theorems that name the calls of a request
-- suppose that the parser calls once for each part of it, and those about reads that it may cut
-- them. JSON values are a type parameter with a function that writes them. What recv and send
-- return, and the handlers, are arguments as well.
--
-- The loops of ss_split_str, parse_query_url and get_config_map run on fuel: one round more than
-- the text has bytes, which is enough because each round takes a byte or ends the stream, and the
-- theorems about them hold for every input. Printing a number takes as many rounds as the number,
-- and one. The loop of calls of on_writeable (Watcher/Serving) has its fuel as an argument, with a
-- theorem that says how much is enough.
--
-- The loop of events runs over a list of rounds, each of them what epoll_wait returns; the threads'
-- part is the step relation of EpollSocket/Tasks, whose steps leave idle clearing out. The files
-- that a log is written to are a map from paths to bytes, and the answers of the system
-- (localtime_r, mkdir, whether a path opens) are a record. Undefined behaviour, such as a name that
-- overflows a buffer or an event of a client that was released, is the value `none` as well.
--
-- Not modelled: the JSON texts of EpollContext::to_string, get_clients_info and the built-in list
-- of clients; the signal that reloads the configuration, and the formats of log lines; of the
-- thread pool, the callbacks that a thread calls when it starts and ends. Log lines and time stamps
-- are left out of what is modelled elsewhere. A section under a mutex is one step. A start of a
-- stopped pool of which threads still run is left out. The numbers of bytes are natural numbers: a
-- request is limited to 10 MB, far below the range of an int.
pub mod Base
pub mod Std
pub mod StringUtils
pub mod RequestParam
pub mod Unescape
pub mod RequestLine
pub mod RequestBody
pub mod Request
pub mod Response
pub mod HttpServer
pub mod ThreadPool
pub mod EpollSocket
pub mod SimpleConfig
pub mod SimpleLog
pub mod Tests
