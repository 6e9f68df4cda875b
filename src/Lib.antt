-- ===== src/Lib.antt =====
-- HPE distributed key-value store: a model of the C++ program and the theorems on it.
--
-- A key (an int) is hashed onto a ring of tokens; the node of the first token clockwise is its
-- primary, and the next other node its buddy. A request goes through the distributor of a process,
-- which reads and writes its own store for keys that it owns and calls the others through a client
-- interface. Each node keeps its entries in a Boost map in shared memory or in a mapped file, and
-- the nodes learn of each other by gossip, whose live members make the ring.
--
-- Files of the development, and the code that each is about:
-- - Prelude: Boolean tests, lists, `int` and `std::string` as the other files use them.
-- - Murmur: src/MurmurHash3.cpp, `MurmurHash3_x86_32` and `murmur3_32`; X86Wide and X64Wide are
--   `MurmurHash3_x86_128` and `MurmurHash3_x64_128`. Bits is about exclusive or and products of
--   words, Finalizer about `fmix32` and `fmix64`.
-- - Decimal: `std::to_string(int)`, with which the ring turns a key into bytes; Parse is
--   `std::stoi` and the reading of a word from a stream, which RoundTrip is about.
-- - Ring: src/ConsistentHashRing.cpp. `rebuild`, `findToken`, `getPrimaryNode`, `getBuddyNode`,
--   `getKeyRangeAssignments` and `getKeyRanges` have functions of these names; an iterator is an
--   index. Its children prove: Sorted, Sorting and Order what `rebuild` leaves, Primary and Buddy
--   the lookups, Ranges and Table the table of ranges, Gap its ends at UINT32_MAX, Disruption what
--   a join moves, Nodes that the lookups give nodes of the map, Ids and Unordered what of the map
--   the ring depends on, Grouped `getKeyRanges`.
-- - Gossip: src/GossipMembership.cpp, in State, Merge and Rounds. The object is the record
--   `GossipMembership`, and `mergeView`, `getMemberView`, `start`, `stop`, `setChangeCallback`,
--   `doGossipRound`, `detectFailures`, `pickRandomPeer` and `notifyChange` have functions of these
--   names; `gossip_tick` is a round of `gossipLoop`. Shape is about the table, Versions,
--   Convergence and Agreement are about what the merges leave known of generations, heartbeats and
--   states, Endpoints about the whole records, Failures about `detectFailures`, Self about the
--   node's own entry, Alive and SameSet about the set of live members, Notices about the calls of
--   the callback. Generations has the generation file and the constructor with it. Rumours,
--   Changes, Restarts, Seeds and Runs are about several nodes, whose steps are the type `Step`.
-- - Store: src/KVStore.cpp, the operations on keys in Defs. Boost is the record `Segment` in
--   Store/Boost, with its documented behaviour in `IsMap`; Store/Assoc is an instance of both. An
--   operation returns what it prints as a `Report`. Effects and Writes are about the effect of the
--   operations that write, Success about when they succeed, Reads about `Find`, Refinement about
--   runs against an abstract map. Printing has `GetMemoryStats`, `PrintMemoryStats` and
--   `ListAllKeys`, which Listing is about. The life of a store: Platform is what is used of named
--   segments, files and mutexes, with its documented behaviour in `IsPlatform`, and Images an
--   instance; Boot and Storage have the creation, the connection and `cleanupStorage`, Lifecycle
--   the constructor (`construct`), `get_instance` and the destructor (`destruct`). Startup, on
--   Ensures and Ready, is about every way the constructor returns, Restart about a start on an old
--   file, Shutdown about a start after the destructor, Release about what the destructor leaves,
--   Connection about clients, Sharing about a client and a server with one tag.
-- - Client: include/IKVClient.hpp, as a record of operations on a world.
-- - Server: src/KVServer.cpp, the handlers, as `handle` on a `Request`. Network is what is used of
--   Thallium, with its documented behaviour in `IsRpc`. Remote: src/KVClient.cpp, as an instance of
--   the client interface over a network.
-- - Peers: `sendGossipExchange` over the network, answered by the handlers of Server.
-- - Distributor: src/KVDistributor.cpp, every operation, in State, Requests and Membership. Routes
--   is about the requests to one node, Reads and Failover about `get`, RoundTrip about `get` after
--   a write, Undone about a key that the primary lost, Current about the ring.
-- - Config: src/config.cpp and include/config.hpp, over the record `Json` for nlohmann::json; Size
--   is about `read_size`.
-- - ServerMain: src/main_server.cpp, the arguments, `parseMemorySize`, `findNodeId` and the
--   callback of the ring; Node is the launch and the clean end, Signals the signals and the
--   watcher. Rings has the server's ring, as the calls of the callback make it, Departure is about
--   the ring after another server has stopped, Identity about `findNodeId`.
-- - Shell: src/main_client.cpp, `parseCommand`, the loop over the commands (`run_line`), the
--   benchmarks, the refresh of the membership and the node tag. Words and Commands are about the
--   lines, Refresh about the membership, Session about how a client finds a server's storage.
--   Benchmarks has the random values and the metrics, Main the whole `main`, with what it prints
--   for a reply.
-- - Cluster: the distributor over the client of Remote and the handlers of Server.
-- - Timer: src/Timer.cpp.
-- - Tests: vectors of the hash, and an instance of each theorem.
--
-- How state is modelled: an operation takes the record of its object and returns the new one. A
-- mutex that the code holds for a whole operation makes it one step. The clock, the random index,
-- the RPC exchange of the gossip, Thallium and Boost are arguments; the working directory with the
-- generation file is state. An `int` is an integer of ℤ, on which the program only compares;
-- `uint32_t`, `uint64_t` and `size_t` are natural numbers with the wrap-around written out; a
-- `std::string` is its list of bytes. An unordered map is an association list in the order in which
-- it is iterated.
--
-- The construction of a store is a sequence of steps on the store as far as it is built and on the
-- platform; an exception that a step throws is part of its result. Undefined behaviour, such as
-- `args[0]` of an empty vector, is the result `none`.
--
-- Fuel: the do-while loop of `getBuddyNode`, the digits of a number and the loop of `parseCommand`
-- run on fuel. The first is given the number of tokens, one for each step round the ring; the
-- second n + 1 rounds, and n falls in each; the third the length of the line, of which each round
-- takes a character.
--
-- A run of several gossip nodes is a sequence of steps of single nodes and of exchanges of two.
-- Bounds: a gossip exchange is one step, so that a merge between its request and its answer is one
-- before or after it. A benchmark of the client is one event, so that a refresh of the membership
-- by the background thread comes before or after it, not between its operations. A process has a
-- segment that it opened as a value of its own, which is put under the segment's name when the
-- process lets it go: writes of two processes to one segment at the same time are not in the model.
-- Of the console output, what the store prints of its memory and its keys, the help and the replies
-- of the client and the assignments of the server's ring are values; the rest, and the log, is left
-- out.
--
-- Not modelled: the engine, the banners and the creation of threads of src/main_server.cpp and
-- src/main_client.cpp, whose threads' steps are the events of a run; the prompt and the times of
-- the insertion in the benchmarks; and the serialisation of records, which is Thallium's. Code of
-- third parties (Boost, Thallium, nlohmann::json, the arithmetic on `double`) is a parameter.
pub mod Prelude
pub mod Murmur
pub mod Config
pub mod Decimal
pub mod Ring
pub mod Gossip
pub mod Store
pub mod Client
pub mod ServerMain
pub mod Server
pub mod Shell
pub mod Network
pub mod Remote
pub mod Cluster
pub mod Peers
pub mod Timer
pub mod Distributor
mod Tests
