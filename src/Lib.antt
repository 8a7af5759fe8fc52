-- ===== src/Lib.antt =====
-- A file system over the network: yfs (cse-Yet-Another-File-System).
--
-- Parts and files. yfs_client.cc keeps directories and files in extents, byte strings under a
-- 64-bit number, and takes a lock for each i-number that it works on. It calls extent_client.cc, a
-- write-back cache in front of extent_server.cc, and the lock client, which flushes an extent to the
-- server when its lock goes back (lock_release_action in lock_client_cache.h). lock_server_cache.cc
-- hands out the locks. All of these speak over rpc/rpc.cc, which numbers requests (xid) and keeps a
-- window of replies so that a request that is sent twice is run once.
--
--   * Base: comparisons, lists and std::map over native numbers.
--   * Rpc.ReplyWindow: rpcs::checkduplicate_and_update, add_reply, free_reply_window (rpc/rpc.cc).
--     Contents has what entering and trimming keep, Duplicates and Reordering histories of requests.
--   * Rpc.XidWindow: rpcc::update_xid_rep (rpc/rpc.cc). Order, Place and Compress have its lemmas,
--     Received what its front means.
--   * Rpc.Marshall: marshall and unmarshall (rpc/marshall.h, rpc/rpc.cc) for bytes, integers and
--     strings. Wire has one value, RoundTrip a list of them, Header the headers, Containers the
--     templates for std::vector and std::map.
--   * Rpc.Dispatch: rpcs::dispatch, reg1, updatestat and rpcbind (rpc/rpc.cc). Executed has what a
--     dispatch does to the window of a client, OnceOnly runs of many clients, Duplicate a request
--     that is sent again.
--   * Rpc.Caller: rpcc::call1, bind and the constructor (rpc/rpc.cc). Deadline has its end, Upcall
--     rpcc::got_pdu and cancel. Rpc.Timespec: cmp_timespec and add_timespec (rpc/rpc.cc).
--   * Rpc.Stub: the templates rpcs::reg, rpcc::call and call_m (rpc/rpc.h). EndToEnd has a call from
--     the arguments to the result, through Marshall, Dispatch and Caller.
--   * Rpc.Link: connection::send, write_cb and closeconn (rpc/connection.cc) among many threads. Frames,
--     Owner and Turns have its invariant, Order what reaches the socket.
--   * Rpc.Channel: rpcc::get_refconn (rpc/rpc.cc) with incref and decref (rpc/connection.cc), and the
--     connections in memory. Objects has one object, Counted all calls of a client.
--   * Rpc.Connection, Rpc.Pdu: connection (rpc/connection.cc): compare, and the framing of messages.
--     Pdu.Sending and Pdu.Delivery have the two directions.
--   * Rpc.Fifo, Rpc.ThrPool: rpc/fifo.h and rpc/thr_pool.cc. ThrPool.Drain has a
--     pool that ends, End the destructor after any use of the pool.
--   * Rpc.Poll: PollMgr and SelectAIO (rpc/pollmgr.cc). Watched has what is watched and whose callbacks
--     there are, Round a round of wait_loop, Epoll EPollAIO and how it compares with SelectAIO.
--   * Handles: handle and handle_mgr (handle.cc). Entries has its objects, Counted their counts.
--   * Extent.Server: extent_server.cc. Calls is the RPC interface that extent_smain.cc registers,
--     Invariant the agreement of the two maps, Spec a plain store of extents.
--   * Extent.Client: extent_client.cc, with the server that it calls. Invariant has the store seen
--     through the cache; Lookup and Flush what each method does to it.
--   * Lock.Server: lock_server_cache.cc. Calls is the interface that lock_smain.cc registers, Spec a
--     table of holders and waiting lines, Exclusion what follows for the clients.
--   * Lock.Client: lock_client_cache.cc, on the state under its mutex. Exclusion has its threads.
--   * Lock.System: the caching lock server and its clients together. Token has what a client's step does
--     to one lock, Moves and Invariant who owns it, Acquire and Steps each step, Exclusion all runs.
--   * Lock.Plain: lock_server.cc, without caching. Spec is a lock that is handed on.
--   * Yfs.Numbers, Yfs.Split, Yfs.Entries: n2i, filename, isfile, isdir and split of yfs_client.cc,
--     and its loops over the entries of a directory. Entries.Listing is a directory as a list.
--   * Yfs.Services: what yfs_client calls, as a record, and the shape of its methods. Yfs.Laws is the
--     interface that its methods rely on, and Yfs.Cached the implementation by the extent client and
--     the extent server.
--   * Yfs.Files, Yfs.Dirs: the methods of yfs_client.cc. Their child modules say what each does to
--     the store of extents. Yfs.Locks: which locks each method holds when it returns.
--   * Fuse: the handlers of fuse.cc. Inums is generate_inum, Replies the number of answers, NewFile a
--     file that is made and looked up.
--   * Tests modules: runs on concrete states.
--
-- State and time. A C++ method is a function of the state that it changes. time(NULL) is an
-- argument. What an RPC does (it ran and its reply came, it ran and its reply was lost, it never
-- ran) is an argument too. A handler that runs under a mutex is one step, and a history is the list
-- of the steps in the order in which they get the mutex; an acquire at the lock server is two steps,
-- since it gives up the mutex before it asks the owner for the lock. An acquire of the lock client is
-- a step for each turn of its loop. A thread in connection::send has a step for each time that it gets
-- the mutex, and a wait on a condition variable may end at any time. block_remove_fd is two steps, since
-- it gives up its mutex while it waits. extent_server takes no mutex, so there a handler has a start and
-- an end, and handlers that race are undefined. In the thread pool a thread that waits goes on after a
-- signal, or by itself; a wait in lock_server.cc that ends by itself is an outcome of its own.
--
-- Lock.System takes a turn of acquire with its call to the server as one step, because the client keeps
-- its mutex during the call, so its handlers wait; and the server's release with its retry call as
-- one, because the server keeps its mutex. A release of the client is two steps: its release under the
-- mutex, and the call as it reaches the server. The ids of clients (host and port) differ and are not
-- empty.
--
-- Numbers are natural numbers. unsigned int wraps at 2 ^ 32, in the size of an extent and in xids,
-- and the sum of offset and size in write at 2 ^ 64. Byte strings are lists of numbers. The int that
-- holds the capacity of a marshall overflows where doubling it does not fit into 31 bits, which is
-- recorded, and does not happen in messages of up to 2 ^ 29 bytes.
--
-- Bounds and fuel. split runs a round for each separator; each shortens the text, so its length and
-- one is enough. filename has fuel for twenty digits, enough below 10 ^ 20 and so for 64 bits.
--
-- What a directory holds, as the theorems on it read it: the i-number and the name of each entry,
-- with a space between any two pieces. A well-formed entry has an i-number below 2 ^ 64 and a name
-- that is not empty and has no space. A file's data is read as a C string by write.
--
-- What is behind a system call is a parameter: read and write on a connection, epoll_ctl (by what its
-- manual says of it), clock_gettime, rand,
-- and the handlers that a server has registered. A dispatch runs its handler in one step; a failed
-- VERIFY ends the run.
--
-- call1 runs a round for each deadline, and each doubles the wait: n + 2 rounds are enough for a
-- timeout below 1000 * 2 ^ n milliseconds. generate_inum draws until a number is free, so it has as
-- much fuel as draws that are looked at.
--
-- Not modelled: sockets, tcpsconn, EPollAIO::wait_ready, the references of the RPC server to connections,
-- marshall's moves of buffers, the FUSE library, lock_client.cc (which only calls the lock server that
-- no program starts), logging, and the testers. In a call of
-- rpcc::call1, what other threads do to the client is left out, and so are the duplicates that it
-- sends in lossy tests.
-- lock_server_cache::wake_up is not started by the program. The revoke and retry calls to a lock
-- client are an argument and an output of the lock server's steps. yfs_client ignores what the lock
-- client answers, and Yfs.Cached stands for one client whose calls all reach the
-- server; the flushes by give_back's thread come between its calls there.
pub mod Base
pub mod Rpc
pub mod Extent
pub mod Lock
pub mod Yfs
pub mod Fuse
pub mod Handles
