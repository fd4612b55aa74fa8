-- ===== src/Lib.antt =====
-- Percona ClusterSync for MongoDB (PCSM) clones the collections of a source cluster to a target
-- cluster and then replicates the changes of the source, as a long running program that saves
-- checkpoints and can be paused, resumed and finalized.
--
-- The parts, and the files that model them (a function keeps its Go name, in the spelling of
-- this library):
-- - Sel (sel/sel.go): the namespace filter, MakeFilter.
-- - Errors (errors/errors.go, topo/errors.go) and Errors/Retry (RunWithRetry of topo/topo.go):
--   an error is a value, with its wrapping; which errors are transient; the retry loop, on a
--   call that is a function of the state of the target.
-- - Bson: the BSON values that the program builds. Events (pcsm/events.go): the change events,
--   and Events/Parse, their parser.
-- - Watch (watchChangeEvents of pcsm/repl.go): the reader of the change stream, which keeps a
--   transaction back until it is complete. The cursor is the list of what its calls find.
-- - Bulk (pcsm/bulk.go): the two bulk writers; Bulk/Update, the updates that they send.
-- - Catalog (pcsm/catalog.go): the record of the collections and indexes of the target;
--   Catalog/Indexes (CreateIndexes), Catalog/Commands (create, drop, rename, modify and shard),
--   Catalog/Finalize. Target is what these ask of the target cluster.
-- - Repl (the rest of pcsm/repl.go): its life cycle and checkpoint; Repl/Ddl (applyDDLChange,
--   doModify); Repl/Loop (run, doBulkOps).
-- - Exec: a function that returns a value or an error and changes a state, as the clone, the
--   copy manager and the server have many; Exec/Rules, how to prove what holds at its end.
-- - Topo (topo/schema.go and the queries of topo/topo.go): what the program asks a cluster;
--   Topo/Version (topo/version.go).
-- - Clone (pcsm/clone.go): its life cycle, checkpoint and size estimate, and createIndexes;
--   Clone/Collect (collectSizeMap, listPrioritizedNamespaces), Clone/Copying
--   (doCollectionClone), Clone/Run (doClone, run).
-- - Copy (pcsm/copy.go): the options of the copy manager and readSegment, which makes batches
--   of documents; Copy/Segments, the two segmenters, which split a collection by its keys, and
--   Copy/Keys, how they are made; Copy/Inserts (insertBatch).
-- - Pcsm (pcsm/pcsm.go): the state machine over Clone and Repl; Pcsm/Checkpoints, Pcsm/Status,
--   Pcsm/Finish (Finalize); Pcsm/Recovery, the way back from a checkpoint, with its BSON;
--   Pcsm/Runs, its steps in any order.
-- - Heartbeat (heartbeat.go) and Recovery (recovery.go): the two documents on the target that
--   keep other programs away and hold the last checkpoint. Pcsm fills the interface that
--   Recovery asks for.
-- - Server (main.go): the HTTP handlers; Server/Options, its options; Server/Setup, how it
--   starts and ends.
-- - Prelude: what the other files share: the names of the libraries, lists, keys with a Boolean
--   equality, and association lists (a Go map is one, so the order of a loop over a map is that
--   of the list).
--
-- How they fit: Watch sends events to Repl/Loop, which queues writes in Bulk, and gives all
-- other events to Repl/Ddl, which calls Catalog. Pcsm starts Clone, then Repl, and joins their
-- checkpoints. Clone reads the source by Topo, makes collections by Catalog and has them copied
-- by the copy manager. Server takes the heartbeat, recovers Pcsm and gives it the commands of
-- its requests.
--
-- The MongoDB driver and the clusters are not modelled: what a call does is a parameter, a
-- function of a state W of the target to an error and a new state. Where Go runs several calls
-- at once they run one after the other here. A goroutine that outlives a call is a step of its
-- own. Locks, logging and metrics are left out. Numbers are the native natural numbers; the
-- sizes of the clone wrap round at 2 ^ 64. The retry loop recurses on the number of retries
-- that are left, all others on a list; and only two run on fuel: the reading of all segments
-- (read_all), which the sum of the places of the ranges bounds, and the copying of a collection
-- that is renamed again and again (clone_rounds), which has no bound in the program; its result
-- false says that the fuel was used up, and no result below rests on it.
--
-- Not modelled: how the workers of pcsm/copy.go pass batches on (the clone gets the list of
-- their updates), the commands, the HTTP client and the JSON of main.go, connecting
-- (topo/connect.go), the configuration, logging and metrics, and the monitors of pcsm/pcsm.go,
-- which only measure and log, but for the pause after the initial sync.
pub mod Bson
pub mod Bulk
pub mod Catalog
pub mod Clone
pub mod Copy
pub mod Errors
pub mod Events
pub mod Exec
pub mod Heartbeat
pub mod Pcsm
pub mod Prelude
pub mod Recovery
pub mod Repl
pub mod Sel
pub mod Server
pub mod Target
pub mod Topo
pub mod Watch
