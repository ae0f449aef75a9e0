-- ===== src/Lib.antt =====
-- tinycache: a sharded in-memory cache that speaks the RESP protocol.
--
-- The server makes a pool of shards, each with its own thread, and gives each connection a home shard.
-- A session reads bytes into a buffer and calls `RespParser::parse` until it returns a value or waits
-- for more; `Command::toCommand` makes a command of a value; the executor runs it at the shards of its
-- keys; the answer is a value again, which `RespSerializer::serialize` prints. On each shard's thread an
-- expiration loop sweeps keys whose deadline has passed.
--
-- The shard (include/lruShard.hpp, src/lruShard.cpp):
--   Shard/State, Shard    `LruShard` with its list of nodes, its multimap of deadlines, its index and
--                         its counters, and every member function. An iterator is the address of a
--                         node or an entry; to read or erase through one that points at nothing is the
--                         fault `dangling`. `splice` takes a node off and puts it in front.
--   Shard/Time            `is_expired` and the sums of time points, whose signed overflow is a fault.
--                         Clock readings are arguments: `ttl` takes two.
--   FlatMap, FlatMap/Assoc  what the shard uses of `boost::unordered_flat_map`, a parameter, and an
--                         association list that meets it.
--   Shard/Spec            what a shard promises, without addresses: entries in the order of their last
--                         use, the limit and the two counters.
--   Shard/Nodes, Expiries, Links, Valid   the invariant: index and list agree, deadlines are sorted,
--                         nodes and deadlines point at each other, `used_payload_bytes_` is the sum of
--                         the payloads and within the limit.
--   Shard/Eviction, Relink, InPlace, Due, Refines/*   each operation against Shard/Spec.
--   Shard/Timed, Home     deadlines of 64 bits, and shards that only hold keys of their own.
--   Shard/Seen            what each operation does to the entry of one key.
--   Shard/Laws, Reachable what clients rely on across calls, and the states that calls lead to.
--
-- The protocol:
--   Resp                  include/respValue.hpp; a value is a tag and a variant, as in the source.
--   Resp/Decimal          `std::to_chars` on a buffer of 32 bytes.
--   Resp/Serializer       src/respSerializer.cpp: the size estimate and the printing loop, with their
--                         stacks. `std::get` at the wrong alternative is the result `bad_variant`.
--   Resp/Emit, Output, Estimate   the text of a value by recursion, and that both loops agree with it.
--   Resp/Parser           src/respParser.cpp; a position in the buffer is the tail from there on.
--   Resp/Numbers, Reading, Nesting, RoundTrip   the parser on printed values.
--   Resp/Cuts, Rounds, Streaming  the parser on a buffer that is cut short or that grows.
--   Resp/Typed, Returns   the values that the parser can return at all.
--
-- Commands:
--   Command, Command/Shape, Arguments  src/command.cpp and include/utils.hpp.
--   Executor, Executor/Numbers  the functions of src/commandExecutor.cpp that run GET, SET, DEL, EXPIRE,
--                         TTL and PING, with `std::stoull`. An index outside the arguments is a fault.
--   Executor/Answers      their answers and what they leave of the shard.
--   Executor/Glob         `glob_match`; Executor/Matches, Inversion, Rounds and Refusals hold the relation
--                         of pattern and text that it is compared with, and the proofs.
--   Executor/Catalog, Info, Values  COMMAND, CONFIG and INFO; `kCommands` of include/command.hpp.
--   Executor/Typed        their answers as values that the serializer can print.
--
-- Shards together:
--   Router, Pool, Pool/Lifecycle, Pinning  include/shardRouter.hpp, src/shardPool.cpp. A shard is
--                         reached by `local_shard`, whose assertion on the thread is the fault `wrong_thread`, or by
--                         `run_on_shard`, which is one step.
--   Dispatch              `execute_single_shard` and `execute_multi_shard`: a command becomes a task, what
--                         it still has to do at the shards. Between two steps of a task its coroutine is
--                         suspended.
--   Dispatch/Keys, Commands, Sound, Progress  commands on a shard that only holds its own keys, and the
--                         steps of a task.
--   Dispatch/Groups, Deletion, Places, Accepts, Single, Written  the grouping of DEL, the place of a key,
--                         `execute`, and a key from several sessions.
--   Dispatch/Home         the look of `execute_multi_shard` at the home shard, which must be in the pool.
--   Dispatch/Equivalence  `execute_single_shard` beside `execute_multi_shard`.
--   Dispatch/Counts       the number of keys in the calls of DEL.
--   Dispatch/Alone        a command up to its answer, while no one else uses the shards.
--   Dispatch/Overflows, Safe  the same with no assumption on deadlines.
--   Dispatch/Table, Lookup  the table that a pool of shards shows: under each key, the entry in the shard
--                         of the key.
--   Dispatch/Forgets, Tables, Lookups, Stores  DEL, GET, TTL, EXPIRE and SET against that table.
--   Expiration, Expiration/Sweeps  src/expirationController.cpp: the wait that a round plans, and the sweep.
--   System, System/Safety, Answers, Typed  pool, clients and expiration loops as a system whose steps
--                         come in any order: a client starts a command, a task takes a step, a shard is swept.
--
-- Connections:
--   Session               src/session.cpp: the bytes that the socket delivers, in pieces, to the messages
--                         that are written. What a command does is a parameter.
--   Session/Rounds, Chunks, Requests, Answers  the loop over the buffer when more bytes come, and a
--                         connection from its start to its end.
--   Session/Full          a buffer that fills up with a request that is not complete.
--   Session/Fine, Replies, Safety  a session under any bytes, with a command that may overflow a deadline.
--                         A socket delivers no more bytes than the room that `read` prepared.
--   Connection, Connection/Safety  a session with the executor and a pool of its own, from bytes to bytes.
--   Connection/Replay, Asks, Conversation  any conversation of a lone client, against one table.
--   Config, Server, Server/Bounds  src/config.cpp, src/server.cpp: the settings with their clamps, and the
--                         home shards of connections.
--   Server/Run, Shutdown  `main` and `Server::run` with the handler of the signals, on a list of what
--                         happens on the server's event loop: connections, failures to accept, signals.
--
-- Numbers: sizes and counters are natural numbers with `% 2 ^ 64` where the code adds; an `int64_t` is
-- an integer. Bytes are their unsigned values.
--
-- Fuel: a loop that is not structural runs on fuel, with an outcome of its own when it runs out.
-- `enforce_max_memory` gets the length of the list, of which each round removes a node;
-- `remove_expired_keys` the number of deadlines; the parser one more than the bytes it is given, of
-- which each round consumes one; the session's loop over its buffer the bytes in it, of which each
-- request takes one at least; a task the steps that it has left; the serializer's loops the number of
-- values; `glob_match`, for each byte of the text and twice more, the bytes of pattern and text and one.
--
-- Between two commands of a conversation that is compared with a table no sweep runs; System has the
-- sweeps among the commands.
--
-- Not modelled: sockets and how they are opened, the event loops of asio, threads and the call that pins
-- them to a core, and the TOML reader. What they do is an argument (the pieces that a socket delivers,
-- the connections and signals in their order, the order of steps, the readings of the clock, the
-- settings) or a hypothesis (a timer completes no earlier than it was set to). Logging, `reserve` and
-- the failure of an allocation are left out everywhere.
pub mod Prelude
pub mod FlatMap
pub mod Shard
pub mod Resp
pub mod Command
pub mod Executor
pub mod Router
pub mod Pool
pub mod Dispatch
pub mod Expiration
pub mod System
pub mod Session
pub mod Connection
pub mod Config
pub mod Server
mod Tests
