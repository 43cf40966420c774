-- ===== src/Lib.antt =====
-- TorrentSync: the core of its distributed hash table (BEP 5), the part of the program under
-- torrentsync/dht that finds nodes by their identifiers.
--
-- The program's parts and the files that model them:
--   * NodeData (torrentsync/dht/NodeData.h, NodeData.cpp, Distance.h): 160-bit identifiers as two
--     64-bit words and a 32-bit word; their comparisons, distance, `splitInHalf`, and the codec
--     `read`, `write` and the constructor from a buffer; the hexadecimal form, with `parseIDFromHex` of
--     torrentsync/utils/Buffer.cpp; random identifiers. Files NodeData.antt, NodeData/Split.antt,
--     NodeData/Codec.antt, NodeData/Hex.antt, NodeData/Random.antt and their children.
--   * Node (torrentsync/dht/Node.h, Node.cpp): an identifier with its freshness and endpoint, and
--     the 26-byte packed form. Node.antt and its children.
--   * NodeBucket (torrentsync/dht/NodeBucket.h): a bounded, sorted bucket of nodes between two
--     identifiers. NodeBucket.antt and its children.
--   * NodeTree (torrentsync/dht/NodeTree.h, NodeTree.cpp): the buckets that tile the identifiers;
--     `addNode` splits a full bucket that holds the table's own identifier, `getClosestNodes`
--     searches three buckets. NodeTree.antt, NodeTree/Closest.antt and their children.
--   * Bencode (torrentsync/dht/message/BEncodeEncoder.h, BEncodeEncoder.cpp, BEncodeDecoder.h,
--     BEncodeDecoder.cpp): the encoder, which appends to a growing buffer, and the decoder, which
--     flattens a message into a map. Bencode.antt, Bencode/Encoder.antt, Bencode/Decoder.antt,
--     Bencode/Decoder/Parse.antt; Bencode/Stream.antt is the stream of the standard library, and
--     Bencode/Encoder/Contract.antt the abstract encoder.
--   * Message (torrentsync/dht/message/Message.h, Message.cpp, Query.h, Query.cpp, Reply.h,
--     Reply.cpp, query/, reply/): parsing and making the messages. Message.antt,
--     Message/Query.antt, Message/Reply.antt and their children. A reply carries the packed nodes
--     of Node.
--   * Callback (torrentsync/dht/Callback.h, Callback.cpp): what waits for a reply, and the
--     constraints that a message has to meet. Callback.antt.
--   * Yield (torrentsync/utils/Yield.h): the elements between two iterators. Yield.antt.
--   * RoutingTable (torrentsync/dht/RoutingTable.h, RoutingTable.cpp and the files
--     RoutingTable_InitializeTable.cpp, RoutingTable_MessageHandlers.cpp and
--     RoutingTable_RecvMessage.cpp): the handlers that answer the messages of other nodes and
--     contact the first ones. RoutingTable.antt holds the state; RoutingTable/Transactions.antt,
--     Sending.antt, Waiting.antt (the callbacks), Handlers.antt, Actions.antt (what the callbacks
--     do), Receiving.antt and Starting.antt the operations; Events.antt the handlers that the I/O
--     service calls. Triples.antt has conditions before and after a handler, Soundness.antt the
--     invariant of the table with its proof under each handler, Answers.antt and Rounds.antt whole
--     handlers.
--   * App (torrentsync/App.h, App.cpp): the application as the steps of its I/O service, from the
--     constructor on. App.antt; App/Safety.antt and App/Answers.antt are about every state that it
--     reaches.
--   * Log (torrentsync/utils/log): the logger, its sinks and the stream of a message. Log.antt.
--     The other parts leave their messages to the log out.
--   * Common: tests, lists, results of functions and the laws of bit operations.
--
-- Function names keep the source's words: `addNode` is `add_node`, `splitInHalf` is
-- `split_in_half`. A C++ exception, a failed `assert` and undefined behaviour are the results
-- `throws`, `aborts` and `undefined` of the type Outcome. Numbers are unbounded, with the
-- wrap-around of a word written out as `% 2 ^ w`. The clock is the argument `now`, and the byte
-- order of the host an argument of type Endian. Memory that the program reads before it is set
-- is an argument too. Each operation of the tree holds the lock throughout, so it is one step.
-- Loops are structural recursion on a list or a count, but for the decoder's, which takes two more
-- than the number of bytes as its fuel: every round takes at least a byte from the stream.
-- `boost::lexical_cast` is the parameter Boost with the documented behaviour IsBoost, and the
-- memory that `reserve` finds the parameter Reserve. A handler of the routing table is a function
-- of the state, which also comes back after an exception; the record Host holds what the machine
-- and the libraries do meanwhile: the clock, the resolver, and how opening and binding end. The
-- state holds the operations that the I/O service has not finished: the packets under way, and
-- how many receives and timers. The service may finish them in any order.
--
-- Not modelled: the random generator and `Finally` (its one use runs at once), the
-- serialisation of the table, which always throws, `getEndpoint`, the printing of buffers and
-- nodes, the tests and their mocking library, and the memory of a packet while it is sent.
pub mod Common
pub mod NodeData
pub mod Node
pub mod NodeBucket
pub mod NodeTree
pub mod Bencode
pub mod Message
pub mod Callback
pub mod Yield
pub mod RoutingTable
pub mod App
pub mod Log
