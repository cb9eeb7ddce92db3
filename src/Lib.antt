-- ===== src/Lib.antt =====
-- A verification library for Bicast, which sends data products from a publisher to subscribers by
-- multicast and, where that loses something, through a network of peers (P2P). The modules model
-- the parts that decide what goes over a connection and whom a node talks to; the code is named by
-- its path from the repository's root.
--
-- - Base: lists, results, maps and sets that the modules share. `std::unordered_map` is an
--   association list and `std::unordered_set` a list, in the order of iteration. An exception is a
--   value of `Error`; the outcome of an operation that may throw is a `Result`.
-- - Xprt (main/inet/Xprt.cpp): integers, strings, times and durations on a stream of bytes. The
--   writer's side is the bytes sent and how many more the connection accepts; the reader's is the
--   bytes that still arrive. An operation succeeds, reports a lost connection, or throws.
-- - Proto (main/BicastProto.cpp): PDU, product and segment IDs, product information, sets of IDs.
--   SHA-256 is a parameter.
-- - DataSeg (main/p2p/DataSeg.cpp): the cut of a product into segments, and their serialization.
--   The maximum segment size of main/RunPar is a parameter.
-- - Inet (main/inet/InetAddr.cpp, SockAddr.cpp): order, equality, serialization and kinds of
--   addresses. A handle is its value; a null pointer is `none`. A host is little-endian.
-- - ProdFile (main/repository/ProdFile.cpp): the file into which a subscriber saves segments. It is
--   the content of its memory map; whether the system's calls succeed is an argument. ProdFile.Pub is
--   a publisher's file, and `getDataSeg` (main/repository/Repository.cpp) of the file of an entry.
-- - FileUtil (main/misc/FileUtil.cpp): the removal of a file with the directories that become empty. A
--   directory is the number of its other entries.
-- - HashSetQueue (main/misc/HashSetQueue.h): a queue without duplicates as a hash table of links,
--   over any type of values with a decidable equality and a default value.
-- - Repository (main/repository/Repository.cpp): the products of a node. `unordered_set<ProdEntry>` is a
--   map by product ID, the priority queue of deletions a sorted list, the queue of open products the
--   hash table of HashSetQueue. What the removal of a file comes to is an argument; an exception ends
--   the thread of deletions. Repository.Sub is a subscriber's repository. The segment size, the
--   number of open files, the time for which products are kept, and whether a file of a size can be
--   mapped are parameters. The loop that closes files takes the size of the queue as fuel, which is
--   enough by Repository.Lru. Repository.Sub.Reach has the calls and rounds of threads as steps.
-- - Bookkeeper.Pub and Bookkeeper.Sub (main/p2p/Bookkeeper.cpp): which peer is the worst, which
--   datum is requested from whom, and who is asked next. Addresses and notices are any types with a
--   decidable equality. Each operation is a function from state to state with the method's name in
--   snake case; `erase` of a notice and of a peer are `erase_notice` and `erase_peer`.
-- - SrvrInfo and Tracker (main/p2p/P2pSrvrInfo.h, .cpp, Tracker.cpp): what is known of P2P
--   servers and the order in which they are tried. The queue is the list of a `std::set` in the
--   order of `QueueComp`, whose calls abort on an unknown server. A wait on a condition is an
--   outcome, and the clock is an argument. A delay queue that `read` empties while `runDelayQueue` waits
--   for its top is not modelled.
-- - Peer (main/p2p/Peer.cpp): a peer's notices, heartbeats, requests and backlog. Peer.Queue is the table
--   of requests without an answer. What a connection takes is an argument. The loops over the table and
--   over a product's segments take fuel; the table's length, and the number of segments, are enough.
-- - Rpc (main/p2p/Rpc.cpp): the protocol data units on a transport, as a data type. The call of the
--   peer for a unit is the unit itself.
-- - PeerConn (main/p2p/PeerConn.cpp): how three sockets become one connection, over any type of
--   transports with a remote address; the constructor of the connection reads each transport's
--   identifier, which is an argument.
-- - P2pMgr (main/p2p/P2pMgr.cpp): the peers of a node. P2pMgr.Books is the interface of a bookkeeper,
--   with its laws, that the manager is built over; P2pMgr.SubBooks fills it with Bookkeeper.Sub, and
--   P2pMgr.PubBooks with Bookkeeper.Pub. What a
--   call asks of peers and of the node is a list of messages. P2pMgr.Sub is a subscriber's manager.
-- - Notice (main/p2p/Notice.h, .cpp): what peers announce, and by what maps tell it apart.
-- - Tests: concrete runs.
--
-- The parts meet in the addresses: the tracker sorts and sends those of Inet, and everything that is
-- sent goes through Xprt. A call of the tracker and of a bookkeeper holds a mutex from start to end,
-- so that a run is a sequence of calls. Loops are recursion on the list or the count that they run
-- over, so that fuel is needed by the loops named above only; wrap-around is written out with `% 2 ^ w`.
--
-- Not modelled: sockets and other calls of the operating system, text output, logging, hash codes,
-- threads, the search of directories, and, so far, the manager's
-- loops that accept and connect peers, the node, multicast and the disposition of products.
pub mod Base
pub mod Xprt
pub mod Proto
pub mod DataSeg
pub mod Inet
pub mod FileUtil
pub mod HashSetQueue
pub mod ProdFile
pub mod Repository
pub mod Bookkeeper
pub mod SrvrInfo
pub mod Tracker
pub mod Notice
pub mod Peer
pub mod Rpc
pub mod PeerConn
pub mod P2pMgr
pub mod Tests
