-- ===== src/Lib.antt =====
-- Sharegres is a proxy in front of several PostgreSQL servers. It speaks the PostgreSQL protocol to its
-- clients, parses each statement with libpg_query, finds from the parse tree the table and the shard
-- key, and sends the statement to one shard, to all shards of the table, or to a default server. This
-- library models the program's own C code under src/ and proves properties of it.
--
-- The parts, the files that model them, and the code that they follow:
--   MsgBuf, Message   src/protocol/message.c: growing byte buffers and the messages built in them.
--                     A MsgBuf is its bytes, its capacity and its read position; each msgbuf_ and
--                     msg_write_ function is the function of the same name without the prefix.
--   Json              src/parser/json_util.c: the scanner of parse trees. A `const char *` is the list
--                     of the bytes up to the terminator. Json.Value has JSON values and their text.
--                     Find has json_find_key on printed values, Recursive json_find_key_recursive.
--   QueryParser       src/parser/query_parser.c: parse_query and what it extracts, with the conditions
--                     in Condition, the second pass over an INSERT in Insert, and the rest in Parse.
--                     Select runs parse_query over the printed tree of a SELECT with one condition.
--   ShardMap          src/router/shard_map.c: shards, table rules, the shard of a key.
--   Router            src/router/router.c: router_decide. Single, Keyed and Scatter prove its
--                     decisions, Statement those from a statement's text.
--   Libpq             the interface of libpq, which is not part of the repository: a record of its calls
--                     over a state of its own, and the documented behaviour that some theorems rely on.
--   ConnPool          src/pool/conn_pool.c and health_check.c: the pool of a shard. History has the
--                     calls of a pool as a step relation, with what its clients hold, and
--                     Refine its abstract view as a counter.
--   Session           src/session/session.h and session.c: the state of a client session, its receive
--                     buffer (Receive), its backend connections (Backend), the sending of what is
--                     queued (Send), a result's rows (Forward) and other results (Results), and the
--                     epoll callbacks: session_on_backend_readable in BackendReadable,
--                     session_on_scatter_readable in ScatterReadable, and those of the client's socket,
--                     with session_create, in Client.
--   FeProtocol        src/protocol/fe_protocol.c: startup (Startup), queries (Query, and the execution
--                     on one or several shards in FeProtocol itself), and the message loop (Process);
--                     src/executor/copy_handler.c in Copy.
--   Config            src/config.c: the text of the file (Text), its sections (Sections) and what is built
--                     from them (Load); src/main.c, as far as it makes the configuration, in Start.
--                     Valid proves the invariant of a loaded configuration, and Start.Routable follows
--                     it through the router into execute_scatter.
--   Timer             src/event/timer.c: the timer queue over a clock and callbacks that are parameters.
--   EventLoop         src/event/event_loop.c: the epoll loop over a record of its calls, Os, with the
--                     handlers' memory and the callbacks among them. Dispatch has the callbacks of a
--                     batch of events as a relation, whatever the callbacks do to the handlers; it is
--                     a fault to read a handler that was freed.
--   Base              what these share: lists and signed integers over native numbers, byte strings.
-- A session's handlers pass on one state: the session, the pools of all shards, and libpq's state. A
-- query goes from FeProtocol.Process to FeProtocol.Query, from there to QueryParser and Router, and
-- with the decision back to the execution in FeProtocol, which takes connections from ConnPool.
--
-- Numbers: `size_t` and `uint64_t` wrap at 2 ^ 64 where the code can reach that, the total of a message
-- at 2 ^ 32. `int` counters do not overflow in the model. `char` is signed, as on x86-64.
-- Fuel: the scanner's loops have one round for each byte of the text and one more, the nesting of values
-- is bounded by the length of the text; the theorems on printed values show that this is enough for
-- them, and the result `none` is a read past the terminator or a loop that does not end. The growth of
-- a buffer has 64 rounds, which reach any size that a theorem allows. The message loop has one round
-- for each received byte and one more; a round that goes on takes five bytes at least, but for a total
-- that wraps to 0.
-- The loops over libpq's results and COPY rows run on fuel that is an argument, since libpq decides how
-- many there are; one round more than there are results is enough.
-- session_send has one round for each unsent byte and one more, and a round sends a byte at least.
-- A timer's carry has one round for each nanosecond, and a round takes a second.
--
-- The event loop's run has its rounds as fuel, since it only ends on a signal or an error.
--
-- Not modelled: of src/main.c the sockets, the signals and the accept loop, which calls session_create
-- for each client; src/log.c, which only prints; and libpg_query, whose pg_query_parse is a parameter.
-- The handlers that Session and FeProtocol register are not yet joined with the event loop's memory of
-- handlers. Memory that is allocated and freed is otherwise not modelled, nor are failures of malloc;
-- log messages are left out.
pub mod Base
pub mod MsgBuf
pub mod Message
pub mod Json
pub mod QueryParser
pub mod ShardMap
pub mod Router
pub mod Libpq
pub mod ConnPool
pub mod Session
pub mod FeProtocol
pub mod Config
pub mod Timer
pub mod EventLoop
