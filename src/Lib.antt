-- ===== src/Lib.antt =====
-- biei and ishikari: a renderer cluster and a tile server for PMTiles archives.
--
-- The repository has two servers over shared crates. `ishikari` reads tiles from PMTiles archives:
-- crates/mmpf-pmtiles parses the archive and walks its directories, and asks a backend for byte
-- ranges. `biei` renders map images: a node takes a task, the dispatcher of crates/biei-core
-- decides which node of the cluster renders it, and the worker pool of that node gives it to one of
-- its renderer slots. This library models these parts, the chunked storage below the tile server
-- and the single-flight table, each by functions that run.
--
-- Pmtiles (crates/mmpf-pmtiles/src/format.rs and reader.rs). Bytes are numbers below 256, and a
-- slice is a list that a read shortens. Varint is read_u64_varint, TileId the tile coordinates and
-- ids, Kinds the compression and tile types, Get the reads of the crate bytes, Header the fixed
-- header, Decompress the limits round the decoders, Directory the directories with their binary
-- search, Walker DirectoryWalker, Reader ArchiveReader over a backend with a state of its own. A
-- Result is Pmtiles.Error or a value; a panic of the byte reader is an error of its own.
--
-- Workers (crates/biei-core/src/worker_pool.rs, and SourceCache of worker.rs). State is PoolState,
-- one list per Vec; Affinity the addlayer sources of a worker; Pick is pick_score and
-- best_available_worker; Reserve is try_reserve and reserve_best_available; Accounts is the life of
-- a task (reservation, dispatch, WorkerCompletion) as steps, so that every interleaving of tasks is
-- a sequence of them; SourceCache is the cache of a renderer slot. Stages is run_stages of
-- worker.rs and the turns of worker_loop, which are a task or a tick of the repair. What the renderer
-- holds follows run_actor of servers/biei/src/renderer/actor/protocol.rs: a failure may lose the
-- profile, a task of another style is refused, and a new actor holds nothing.
--
-- Dispatch (crates/biei-core/src/dispatcher.rs and hrw.rs, and the views of types.rs). View is what
-- a node knows of the cluster, Hrw the rendezvous weight, TopHrw top_hrw_candidates, Warm the first
-- tier, Swap the third tier with its drain estimate, Decide decide_view and materialize_candidates.
-- A decision names workers by their index; the pool takes it as a hint. Durations have their largest
-- value: a sum that the source saturates or checks does so, and one that panics is none.
--
-- Chunks (crates/ishikari-core/src/storage/chunked_store). Store is the reads of store.rs, Fetcher
-- the range fetches of fetcher.rs, Group the cutting and caching of a fetched group, Pending the
-- fetch state of a tileset in coordinator.rs with the steps of callers, scheduler and groups: the
-- receivers of the callers, what is sent to them, and the Notify that the scheduler waits on.
-- Caches is what the library relies on of the package moka.
--
-- Renders (crates/biei-core/src/render_cache.rs). Identity is addlayer_identity, Outputs the cache
-- of rendered images with its flights and the check of the grants, as steps of callers in any
-- order; Namespaces is how NamespaceSet of types.rs is made.
--
-- Routing (crates/ishikari-core/src/storage/routing.rs). HrwRouter, which chooses the peers of a
-- tile.
--
-- Nodes (crates/biei-core/src/node.rs). What a node does with a task: the cache of images, the
-- decision, the local route, the failover over peers and the overflow, in Handling; Outcomes has
-- the outcomes of types.rs. Outside is what the clock, the admission of renders, the preparation of
-- profiles, the pool and the peers answer at each question, and a Run records the calls; Once and
-- Served are the results about them.
--
-- CacheControl (crates/mmpf-http/src/cache_control.rs). The tokenizer of Cache-Control headers, and
-- the policy read from them.
--
-- Flights (crates/mmpf-common/src/singleflight.rs). SingleFlight, which the caches of both servers
-- use: one caller fetches for a key and the others wait; its steps are those of callers in any
-- order.
--
-- Prelude holds what these share: tests on numbers, lists, sets and maps by a Boolean equality,
-- comparisons in the way of a derived Ord, results. Tests runs the code on small inputs.
--
-- Numbers are natural numbers; where the source wraps or checks, that is written out (usize has 64
-- bits). Loops are recursion on their list. Four loops run on fuel: the binary search, on the
-- length of the directory, which is enough as every round halves the range; the traversal of
-- directories, on the depth limit plus 1, as every leaf adds to the depth; the tokenizer of
-- Cache-Control, on the length of the text, as every round takes a character; and the rescans of
-- reserve_best_available, on the list of the rounds, which other tasks cause.
--
-- What is not in the repository is a parameter: the decoders of flate2, brotli and zstd, xy2h of
-- fast_hilbert, the hash of twox_hash, the generator of rand_xoshiro, the backend of a reader, the
-- cache of moka. Their documented behaviour is a hypothesis where a result needs it (IsCurve,
-- IsGenerator, IsKept). The time, the bytes of a string and the order of strings are arguments as
-- well.
--
-- Not modelled: the channels and tasks of the asynchronous runtime, the loading of the cluster
-- view, authentication, the serving of HTTP, gossip and terrain code, the metadata document of an
-- archive, and the native renderer.
pub mod Prelude
pub mod Pmtiles
pub mod Workers
pub mod Dispatch
pub mod Flights
pub mod Caches
pub mod CacheControl
pub mod Renders
pub mod Routing
pub mod Nodes
pub mod Chunks
mod Tests
