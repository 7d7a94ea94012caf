-- ===== src/Lib.antt =====
-- A verification library for graphlearn_torch, a library for sampling and training on large
-- graphs. The paths below are from the repository's root; "P/" stands for
-- graphlearn_torch/python/.
--
-- The parts, and how they meet:
-- * A partitioner (P/partition/base.py) cuts a graph into parts, writes for each node, edge and
--   feature row the part that holds it into a book, and may cache rows of other parts in a part.
--   Partition.Base has its fields, getters and `_partition_graph`: a loop over chunks of edges
--   (chunk_loop), each split by part (chunk_part, append_parts), then joined (collect_parts).
--   Partition.Chunks, Collect and Edges are its lemmas, Partition.Topology its results.
--   Partition.Cache is `cat_feature_cache`. Partition.Files has the functions that save and load one
--   part, Partition.Run has `partition` and Partition.Run.Load `load_partition`; Parts, Loaded,
--   Features and Savers are lemmas, and Partition.Run.RoundTrip puts them together. Partition.Random is
--   P/partition/random_partitioner.py.
-- * Workers can also partition together (P/distributed/dist_random_partitioner.py), each a part of
--   the data. Distributed.Partitioner has the manager of a worker, its remote calls, and the group
--   as a step relation in which the calls of a chunk are performed in any order; Chunked has the
--   loop of `_partition_by_chunk`, Exchange the programs that exchange chunks with the others,
--   Methods the methods of a partitioner, and Whole its `partition`. Sums, Conserve, Runs, Values,
--   Books, Agree, Progress and Ends are about the group, Split, Covered, Sent, Keeps, Aligned, Rows,
--   Rounds and Completes about what a worker sends, Nodes and NodeBook about the nodes, EdgeChunks,
--   Joined, EdgeRound and EdgeParts about the edges. Utils.Common is `index_select`
--   (P/utils/common.py).
-- * A feature store (P/data/feature.py) keeps the rows of a part. Data.Feature has the lookup on the
--   CPU and the split of the tensor between devices.
-- * A distributed feature (P/distributed/dist_feature.py) answers a request for any ids: it asks each
--   part for its ids and stitches the answers. Distributed.Feature has the operations, in the order
--   and with the tests of the methods.
-- * Processes have roles and ranks (P/distributed/dist_context.py: Distributed.Context). A request
--   for a part goes to one of the workers that hold it (P/distributed/rpc.py: Distributed.Rpc.Router), which the workers find out
--   from each other (Distributed.Rpc.Sync).
-- * Workers gather objects from their group (`all_gather`). Distributed.Rpc.Gather has the group as a
--   function from workers to their states, with one step for each handler or wait; Objects, Workers
--   and Steps are lemmas, Agreement and Delivery the results. Distributed.Rpc.Names has the table of
--   names of `init_rpc`, with Table, and Distributed.Rpc.Register the callees of a process.
-- * The distributed sampler (P/distributed/dist_neighbor_sampler.py) splits the seeds of a hop by the
--   parts that hold them and stitches the answers (graphlearn_torch/csrc/cpu/stitch_sample_results.cc):
--   Distributed.Sampler has both, the copies of the stitching with their offsets included; Offsets,
--   Slots and Stitched are about it.
-- * A sample travels to the loader as a message, a dictionary of tensors: Distributed.Message has the
--   sampler's `_colloate_fn`, the loader's `_collate_fn` (P/distributed/dist_loader.py) and `to_data`
--   (P/loader/transform.py), with RoundTrip.
-- * In an epoch, the seeds are divided among sampling workers (P/distributed/dist_sampling_producer.py:
--   Distributed.Producer with Ranges and Epoch), and the loader waits for a number of messages
--   (Distributed.Loader).
-- * The coroutines of a process run in an event loop that bounds their number by a semaphore
--   (P/distributed/event_loop.py). Distributed.EventLoop has the calls of its threads as a step
--   relation, one step for each acquire or release, and Permits their invariants.
-- * A sampler (P/sampler/neighbor_sampler.py, with the types of P/sampler/base.py) draws neighbors of
--   some seeds hop by hop, and an inducer (graphlearn_torch/csrc/cpu/inducer.cc) numbers the nodes in
--   the order in which they come. Sampler.Base has the types, Sampler.Inducer the inducer with lemmas
--   in Numbering and Edges, Sampler.Neighbor the loop over the hops, with Relabels and Bounds, and
--   Sampler.Links the samples for links, with Endpoints. Sampler.Hops has the number of hops for each
--   edge type.
-- * Typing has the shared types and the reversal of edge types (P/typing.py), Utils.Tensor has id2idx (P/utils/tensor.py).
--
-- What stands for what. Torch is the record of the tensor operations that the code calls, with the
-- documented behaviour of each as a law; Torch.Concrete is an instance that runs. A tensor of one
-- dimension is a list, a tensor of rows is a list of rows, whose type is a parameter. An exception
-- is `none`. A value that is one thing for a homogeneous graph and a dictionary for a heterogeneous
-- one is a PerType. A dictionary is an association list in order of insertion. The loops of
-- `_partition_graph` recurse on the counts that the code gives to `range`, so no fuel is needed; a loop
-- over a loader gets a number of calls, one more than the messages it expects.
-- A group of workers that partition is a step relation, in which the calls that a worker has issued
-- for its chunk may be performed in any order: more orders than the code has, which performs its own
-- at once. A worker that raises stops the run of the group.
-- The output directory is a function from paths to entries, and a path is a list of components, with
-- `part{n}` as a constructor of its own. No file stands where a directory is wanted, and what is
-- written is on disk.
--
-- Not modelled: CUDA and C++ code behind py_graphlearn_torch, except the inducer and the stitching of
-- samples on the CPU; numbers of neighbors -1, for all neighbors, except in `_max_sampled_nodes`, and
-- the room that is reserved for an inducer; lookups in GPU memory; sampling on heterogeneous graphs; the frequency partitioner; datasets; sharing memory between processes, the
-- transport of RPC, logging, and the conversion of arguments to tensors, which are I/O or are not in
-- this language. Integers are unbounded naturals, since tensors of ids hold 64-bit integers that
-- count items in memory; so are the 32-bit numbers of nodes in an inducer and the 32-bit counters of
-- loops in C++, which a sample of 2^31 nodes or edges would exceed.
pub mod Prelude
pub mod Torch
pub mod Typing
pub mod Utils
pub mod Partition
pub mod Data
pub mod Distributed
pub mod Sampler
pub mod Tests
