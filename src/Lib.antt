-- ===== src/Lib.antt =====
-- A distributed object store: storage nodes keep chunks in slots of one file, the metadata service
-- keeps objects, their chunks and the nodes, and a hash ring shares the objects out between
-- metadata nodes.
--
-- The parts, and the files that model them:
-- - ChunkStore (storage-node/src/chunk_store.rs). ChunkStore/Header is `ChunkHeader` and its byte
--   layout; ChunkStore/File is the file, `write_all_at` and `read_exact_at`; ChunkStore/Slots is
--   `write_chunk_at`, `read_chunk_header` and `read_chunk_optimized`; ChunkStore/Store is the
--   struct `ChunkStore` with `open` (as `open_store`), `put_chunk`, `get_chunk`, `delete_chunk` and
--   `recover_index`. Store/Model has the invariant and the abstract view, a partial map from ids
--   to data, and the files under Store and Slots are named for the operation they are about.
-- - StorageNode (storage-node/src/main.rs): the requests of the service, with the statuses and
--   counters, and `construct`. StorageNode/Serves and StorageNode/Requests are about runs of requests.
--   StorageNode/Config (storage-node/src/config.rs) is the configuration, and Config/Load is about
--   what `load` gives.
-- - Settings: the environment, and the functions of `str` that the programs read it with. Startup
--   (the `main.rs` of api-gateway, storage-node and replication-service): how each connects with the
--   metadata service; Startup/Rounds is about the address that each takes and the number of rounds.
-- - Retry (storage-node/src/grpc_utils.rs): the loop of `call_with_retry` over the outcomes of its
--   attempts, with the attempts that are left as its fuel.
-- - HashRing (storage-metadata/src/hash_ring.rs). The ring is an association list in the order
--   of its positions. HashRing/Order, Owner, Members and Ranges are about that order, about who
--   owns a key, about the nodes of a ring, and about the ranges that migration uses.
-- - MetadataStore (storage-metadata/src/metadata_store.rs). Types has the data, `new` (as
--   `new_store`), `save` and `generate_unique_id`; Objects and Chunks have the operations; Listing,
--   Keeps, Removals and Steps have the invariant and the runs of these operations; Migration and
--   Owned are about moving objects between metadata nodes.
-- - ChunkIndex (storage-metadata/src/chunk_index.rs): the map from chunks to objects.
-- - MetadataNode (storage-metadata/src/main.rs, forwarding.rs, cluster_service.rs, cluster.rs): a
--   node's state and its routing. Local has the requests on a node's own store, Cluster the requests
--   as they come to a node that may forward them, Global those that concern all nodes and the health
--   check, Membership the ring as nodes come and go, Migrate (migration.rs) the objects of a node
--   that joins. Reads is about `get_object` of a node, Settled and Anywhere about a cluster that
--   agrees, Runs about runs of requests and the invariant of every store, Watch about ticks of the
--   watcher, Moved about what a node that joins receives. A cluster is a map from addresses to
--   nodes, and the gossip is a parameter.
-- - Clients (protos/src/clients.rs): the traits by which the services are called, as records of
--   calls on the state of everything outside the caller.
-- - Gateway (api-gateway/src/handlers.rs): Names is `validate_object_name`; State is `AppState`,
--   `get_or_connect` and what a handler returns; Retry is `retry_with_backoff`; Upload, Download and
--   Dispatch are the handlers. Upload/Chunking, Upload/Rollback and Upload/Stored are about the cut
--   into pieces, about errors, and about what an upload has done; Download/Streaming is about the
--   two ways to read.
-- - Services: what the gateway relies on, as laws of the clients about a view of what the services
--   hold. Gateway/Mocks (api-gateway/src/clients.rs) is the wrappers of the generated clients and
--   the services in memory, which the gateway's own tests call: Metadata, Storage and, for the two
--   together, Services are the code; Chunks, Mirrors, Writes and Lawful are about the view that they
--   keep. Gateway/RoundTrip is about an upload and a download over any services with those laws:
--   Stored and Pieces about the pieces, OnOk and Streamed about a multipart stream, Read and Served
--   about the download, Put and Multipart about the two ways to upload.
-- - System: a metadata node that serves its own store, and storage nodes by their addresses, as the
--   services of the gateway. System/Calls is the clients: each call is a request of MetadataNode or
--   StorageNode, the calls that neither an upload nor a download makes are those of any clients, and
--   what `rand` gives is a parameter. StorageCalls, Listed, MetadataCalls and Answers are about the
--   calls, Holds and Lawful about the view that they keep, RoundTrip about an upload and a download.
-- - Replication (replication-service/src/main.rs): `run_replication_cycle` and its metrics.
--   Replication/Nodes is about the choice of a target and its clean-up, Outcomes has the ways in which
--   a round for one chunk ends, Rounds and Loop are about a round and a cycle; Replication/Service is
--   the loop of `main`, tick by tick.
-- - Common: maps, results and lists. An operation takes a state to a result and a state, so that
--   what is changed before an error stays changed.
--
-- The gateway asks the metadata service for the place of a chunk, writes it to that storage node,
-- and confirms it; the replication service copies chunks from node to node and records it. The
-- storage node's put, get and delete requests are calls of the chunk store; the metadata service
-- locates an object's owner by the ring and keeps its own objects in the metadata store.
--
-- Numbers. Machine integers are natural numbers; a cast or an addition that wraps has its `% 2 ^ w`,
-- and theorems that need the range of an argument say so.
--
-- The system. The file is a function from positions to bytes with a size, and a stream of answers:
-- each call moves up to so many bytes, or fails; what the opening of a file answers is an argument of
-- `open_store` and `new_store`. A `save` of the metadata, which writes a second file and renames it,
-- fails or succeeds as one. CRC-32, xxh3, serde_json, the random numbers
-- and the test for a URI are parameters.
--
-- Fuel. `write_loop` and `read_loop` take the length of the buffer as fuel, since each round moves
-- at least one byte; that this is enough is a part of their theorems. `generate_unique_id` takes
-- the list of the numbers drawn, and goes on forever only where that list is used up.
-- `pieces` and `flush_full` take the length of the bytes as fuel, since each round takes a piece
-- away; a chunk size of 0 is a panic of the one and an endless loop of the other. The retries
-- of the gateway are a recursion on the number that is left. `storage_node_loop` and
-- `replication_loop` count up to five with fuel of six and five.
-- `vnode_key` writes ten decimal digits at most, which is what a u32 has.
--
-- Concurrency. Every operation of the chunk store but `get_chunk` holds the write lock of the index,
-- and the metadata store is behind a lock of the service, so that operations are taken one after
-- another. In the gateway, what `join_all` runs at once is taken in the order of the chunks, and a
-- streamed body is read to its end before the next request. A request of a metadata node is one
-- step, also where the code takes the lock twice or asks peers in between. A panic under the write
-- lock of the index poisons it, and each later operation of the chunk store then panics.
--
-- Errors. The text of a message is left out, and so are durations. The gateway's extractors of
-- requests, base64 and the test for an alphanumeric character are parameters.
--
-- Not modelled: tracing, the metrics of the metadata service and its cache of connections to peers;
-- the timers of the replication, the watcher and the health checks; the gateway's router, the
-- registration of a storage node, the connections that its real clients make and `handle_metrics`; the generated protocol code.
pub mod ChunkIndex
pub mod ChunkStore
pub mod Clients
pub mod Common
pub mod Gateway
pub mod HashRing
pub mod MetadataNode
pub mod MetadataStore
pub mod Replication
pub mod Retry
pub mod Services
pub mod Settings
pub mod Startup
pub mod StorageNode
pub mod System
