-- ===== src/Lib.antt =====
-- Kamino: an in-memory distributed key-value store. This library models the code that keeps the
-- data and decides what a replica holds, and proves it correct.
--
-- How the parts interact: the server decodes a command, hashes its key, finds the owners of the
-- key's partition in the routing table, and writes through the storage engine of the owner and of
-- the replicas, which merge writes by their time stamps. A client writes commands by the codec of
-- the protocol crate, which the server reads them by.
--
-- Storage (crates/kamino-storage/src):
--  * Storage/Outcome.antt is error.rs: a call returns a value, an error or panics.
--  * Storage/Entry.antt is entry.rs: `Entry`, `is_expired`, `encoded_len`, `encode_into`, `decode`.
--  * Storage/Table.antt and Table/Scan.antt are table.rs: `with_capacity`, `append`, `get`, `delete`,
--    `scan`, `seal`, `recycle`, the counts. Table/Valid.antt has the invariant.
--  * Storage/Compaction.antt is compaction.rs: `compact_table`.
--  * Storage/RamBlock.antt is ramblock.rs: `new`, `ensure_writable_for`, `find_live`, `put`, `get`,
--    `delete`, `scan`, `len`, `inuse`, and `put_lww` of engine.rs; Storage/RamBlock/Compact.antt is
--    its `compact`, Storage/RamBlock/Transfer.antt its `export` and `import`.
--  * Storage/Eviction.antt is eviction.rs: one pass of each sweeper, and `evict_one`.
--  * Storage/Locker.antt is locker.rs for one key: `acquire` and the drop of a guard as steps, which
--    the tasks take in any order.
--
-- Cluster (crates/kamino-cluster/src):
--  * Cluster/Message.antt is message.rs and core's member.rs: `Member`, `GossipEvent`;
--    Cluster/Envelope.antt is the envelope of message.rs, over a body codec that is a parameter;
--    in its binary form an IPv6 address has no flow information and no scope.
--  * Cluster/Membership.antt is membership.rs: the view behind its lock (`Inner`), `bootstrap`,
--    `apply` with `apply_alive`, `apply_suspect`, `apply_dead`, `bump_local_incarnation`,
--    `reap_suspects`, `evict_tombstones`, `snapshot`, `snapshot_all`, `live_count`.
--  * Cluster/Gossip.antt is gossip.rs: `push`, `drain_for_send`, `budget_for`.
--  * Cluster/Routing/Table.antt and Cluster/Routing/Store.antt are routing/table.rs and
--    routing/store.rs; Cluster/Routing/Coordinator.antt is one round of the loop of
--    routing/coordinator.rs, where no other task runs in between, and `bump_signature_to_at_least` of
--    cluster.rs; Coordinator/Updates.antt is `apply_routing_update` of cluster.rs with the calls of a
--    rebuild as steps, which the tasks of a node take in any order.
--
-- Server (crates/kamino-server/src):
--  * Server/Replication.antt is replication.rs: `TimestampSource` with one round of `next` as a step,
--    `replicate_put` and `replicate_delete` as `replicate`, `read_from_backups`, `aggregate`.
--
-- Protocol (crates/kamino-protocol/src):
--  * Protocol/Frame.antt is frame.rs, Protocol/Error.antt is error.rs.
--  * Protocol/Text.antt is what the crate uses of the standard library's text: `from_utf8`, the
--    decimal text of an integer, and `parse` at the integer types.
--  * Protocol/Codec.antt is the reading side of codec.rs: `RespCodec`, `decode`, `parse_frame` with
--    its parts. A reader answers a value and the number of bytes that it took. Codec/Encode.antt is
--    `encode_frame`; what a call that stops has written stays in the buffer. Codec/Grammar.antt is the
--    wire form of a frame, independent of both.
--  * Protocol/Command.antt is the data of command.rs and hello.rs; Command/Parse.antt is
--    `Command::parse`, with its helpers in Command/Arguments.antt and its option loops in
--    Command/Options.antt; Command/Print.antt is `to_frame`.
--  * Protocol/Wire.antt puts the two together, as a client and a server do.
--
-- Conventions: `usize` and `u64` are natural numbers, with the bound written out where the code
-- relies on one (an offset in a table fits in 32 bits, since `offset_to_u32` panics otherwise). A
-- length prefix is a byte. `i64` is the integers, with the predicate `InI64`. A method that mutates
-- returns its result beside the object as the call left it, also on an error. A hash map is an
-- association list with distinct keys: the order of its iteration is one of those that the code may
-- see. A method that takes a lock for its whole body is a function of what the lock guards. Debug
-- assertions and trace messages are not modelled: the model is of a release build.
--
-- Taken as parameters (Storage/Deps.antt): the bitmap of the `roaring` crate, with the laws of a
-- set that is iterated in ascending order; the capacity that an allocation gets, at least what was
-- asked; the text of a floating-point number (`FloatText`), where a number is its bit pattern and
-- all NaNs are one. A hasher is a function of the bytes. Parameters of the definitions
-- that use them are also the random sample of a sweep, the forwarding of a command to a backup, the
-- encoding of a datagram's body, and, for a round of the coordinator, the build of a table and its
-- encoding.
--
-- Fuel: the loop that raises the signature clock runs on `target - current` rounds, which is enough
-- since a round adds one; `parse_frame` runs on the levels
-- that are left, 33 at the top, and answers the error of the program where none is left; the
-- decimal text of `n` takes `n + 1` rounds at most; the number of binary digits is taken of at most 32. All other recursion
-- is structural.
--
-- Not modelled: sockets, timers and tasks, the command handlers, the hash ring,
-- the clients, the configuration, metrics.
pub mod Prelude
pub mod Storage
pub mod Cluster
pub mod Protocol
pub mod Server
