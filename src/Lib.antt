-- ===== src/Lib.antt =====
-- A verification library for the message indexer of this repository: the payload parser
-- (protocol/), and the indexer's storage, workers and sync state machines (indexer-lib/).
--
-- How the program works. A node sends blocks and changes of the virtual (selected) chain. The block
-- processor parses each transaction's payload (protocol/src/operation/deserializer.rs), stores the
-- messages it finds and an acceptance entry for each, and marks the rest to skip
-- (indexer-lib/src/block_processor.rs). The virtual chain processor moves the acceptance entries of
-- the transactions that a chain block accepts, remembers the ids whose block is still missing, and
-- takes a removed chain block's effects back (indexer-lib/src/virtual_chain_processor.rs). The
-- selected chain syncer decides between forwarding a change to that processor, queueing it, and
-- fetching history (indexer-lib/src/selected_chain_syncer.rs); the historical syncer fetches the
-- blocks between two cursors (indexer-lib/src/historical_syncer.rs). All state is in partitions of an
-- embedded key-value store (indexer-lib/src/database/).
--
-- Files.
--   Prelude        shared names: native numbers, lists, tests, and results (errors, panics and closed
--                  channels are values of Error)
--   Bytes          byte strings, big- and little-endian integers, lexicographic order
--   Store          the interface of the store (fjall) with its documented laws; Store/Memory meets it
--                  with a sorted list; Store/Scan, Single, Update and Ordered are the lemmas on scans,
--                  updates and keys that start with a score
--   Keys           indexer-lib/src/database/resolution_keys.rs; packed structs are their fields in order
--   Processing     indexer-lib/src/database/processing/, one child for each partition, and children for
--                  what is proved: Removal, Retries, Pruning, PendingScan, Entries
--   Metadata       indexer-lib/src/database/metadata.rs
--   Headers        indexer-lib/src/database/headers/
--   Messages       indexer-lib/src/database/messages/
--   Keyspace       the partitions that a transaction sees, and its commit
--   FifoSet        indexer-lib/src/fifo_set.rs over the interface of the ringmap dependency, whose
--                  capacity is a lower bound that does not shrink
--   Protocol       protocol/src/operation.rs and protocol/src/operation/deserializer.rs
--   BlockProcessor, VirtualChain, SelectedChain, HistoricalSyncer
--                  the workers and syncers named above; in HistoricalSyncer, Shown and Outcome say
--                  from the blocks alone what shows a target and what a sync leaves, and Batched,
--                  Target and Ending are what is proved of it
--   Progress       the percentage that both historical syncers log at every 100th batch, which may
--                  panic, over the operations of the Uint192 dependency
--   Intersection   indexer-lib/src/database/util.rs
--   Periodic       indexer-lib/src/periodic_processor.rs: the two prunings; its children are the answers
--                  about scores (DaaResolution) and senders (SenderResolution), the pass over unknown
--                  transactions (UnknownTxs), the requests to the resolver (Asking), the tick and the
--                  loop (Worker), the ticker (Ticker), and for each what is
--                  proved of it; Completed joins the answers about a score and a sender
--   Resolver       indexer-lib/src/resolver.rs
--   Subscriber     indexer-lib/src/subscriber.rs
--   Examples       test data and instances of the theorems
--
-- How state and operations correspond. A partition operation is a function from the partition's tree to
-- its result, over any store that meets the interface. A write transaction is the keyspace as it sees
-- it, passed on from step to step; a read transaction is the keyspace it was opened on; a commit takes
-- from outside whether it meets a conflict. A worker's method is a function from the worker's state to
-- its next state and, where the source returns an error and the worker stops, that error. What comes
-- from outside (the answers of the node, the order of events, the fate of a commit, the class of a
-- script, whether a channel takes a message) is an argument. A retry loop takes the list of what its
-- attempts meet. A byte is a natural number, and a string of bytes is a list; fixed-size arrays are
-- lists whose length is a hypothesis where it matters. Counters of 64 bits wrap. Loops over
-- collections and over the rounds of a channel are recursion on a list, so no fuel is used: a list of
-- rounds or events that ends early leaves the loop waiting.
--
-- How the parts interact. The subscriber passes the node's blocks to the block processor and its chain
-- changes to the selected chain syncer, and opens the gaps that the historical syncers close. The
-- historical sync of the selected chain (SelectedChain/History) sends its batches to the virtual chain
-- processor, and reports to the state machine in SelectedChain. The periodic processor sends requests
-- over two channels, which the resolver takes one at a time; its responses are notifications of the
-- periodic processor. Both share the count of requests in progress. Write transactions of different
-- workers are taken one after another: each sees what the one before it committed, and whether a
-- commit meets a conflict is an input. The parts of a tick follow each other without another writer.
--
-- Not modelled: thread setup, time, logging (but for Progress) and metrics, the compaction of the metadata partition, the
-- node's RPC client, the store's internals, the writes of the message partitions outside a transaction
-- (which no worker uses), and the program's wiring (indexer/src/main.rs).
pub mod Prelude
pub mod Bytes
pub mod Store
pub mod Keys
pub mod Processing
pub mod Metadata
pub mod Headers
pub mod Messages
pub mod Keyspace
pub mod VirtualChain
pub mod FifoSet
pub mod BlockProcessor
pub mod Progress
pub mod Protocol
pub mod HistoricalSyncer
pub mod SelectedChain
pub mod Intersection
pub mod Periodic
pub mod Resolver
pub mod Subscriber
pub mod Examples
