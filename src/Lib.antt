-- ===== src/Lib.antt =====
-- Verification of Octa, a task runner: models of parts of its crates, and their correctness.
--
-- Octa plans tasks as a graph, runs them, prints their output and caches their results in a local
-- content-addressed store with an optional remote one. The parts modelled here, with the file of
-- this library and the sources, from the root of the repository:
--
--   Dag              crates/octa-dag/src/dag.rs: the graph of tasks (add_node, add_dependency,
--                    has_cycle, is_linear).
--   Circuit          crates/octa-cache-http/src/circuit.rs: the circuit breaker of the remote
--                    cache (permit, success, failure).
--   Text             the operations of Rust's `str` that the models use.
--   RelativePath     crates/octa-cache-protocol/src/path.rs: portable paths (new, from_path,
--                    is_within).
--   OutputRoots      crates/octa-cache/src/bundle/path.rs: the declared output roots of a task, by
--                    means of RelativePath.
--   Digest           crates/octa-cache-protocol/src/digest.rs: digests, their hexadecimal form and
--                    their wire form.
--   BlobDescriptor   crates/octa-cache-protocol/src/result.rs: the descriptor of an output bundle.
--   ActionResult     the same file: the metadata of a cached result (ActionResultV1::validate), by
--                    means of BlobDescriptor and RelativePath.
--   Layered          crates/octa-cache/src/layered.rs: the local store in front of a remote one.
--                    Lookup, Blobs and Actions hold the operations, Runs what a run of one is; a
--                    store is called with digests and descriptors of the two modules above.
--   Restore          crates/octa-cache/src/restore.rs and restore/journal.rs: the transaction that
--                    replaces the outputs of a task, and its recovery. Exec is the machine it runs
--                    on, State the directories and markers, Transaction the code; the modules
--                    below them follow one root (Roots, Revert, Kept, NewRoot), the recovery
--                    (Recovery) and all roots together (Atomic, Whole, Endings, AllOrNothing).
--   Collection       crates/octa-cache/src/local/gc.rs: the garbage collection of the local store,
--                    its passes over actions, candidates and blobs (Pass and the parent).
--   LocalStore       crates/octa-cache/src/local/mod.rs and object.rs: the local store of records and
--                    blobs. The parent holds the disk with its script of errors, Objects the
--                    quarantine, the publication and the reservation in the counter of Ledger,
--                    Operations the methods of the store. Ends says what holds when one returns or
--                    fails; Quarantine, Blobs, Publication, Reserved, Writes, Actions, Written,
--                    Records and Missing prove it. Tier puts the store below the calls of Layered.
--   HttpClient       crates/octa-cache-http/src/client.rs and transport.rs: the remote cache over
--                    HTTP, the retries of a request (the parent), its bounded bodies (Body) and the
--                    calls and what they make of a response (Calls); it asks the circuit breaker of
--                    Circuit for permits and uses the digests of Digest.
--   Ledger           crates/octa-cache/src/local/capacity.rs and the limits of
--                    crates/octa-cache-protocol/src/capacity.rs: the persistent byte counter
--                    (open, try_reserve, release, reconcile). Bytes is about what stands in its
--                    file, Operations about the methods.
--   KeepOrder        crates/octa-output/src/keep_order.rs: output in the order of declaration.
--   InteractiveScope crates/octa-executor/src/interactive_scope_tracker.rs and
--                    runtime_coordinator.rs: the exclusive guard of interactive tasks.
--   Scheduler        crates/octa-executor/src/executor.rs: the scheduling of a plan over the graph
--                    of Dag. The parent holds what a worker does between two points at which others
--                    can act, Runs every interleaving of these, Lowering the degrees, Invariant,
--                    Publishing, Preserved and Order what every run keeps, Accounting, Counting and
--                    Completion what a run without failures keeps and has done. Results is what
--                    complete_execution makes of the workers' results, Deferred is run_deferred,
--                    LastFirst its order, and Cleanup what it does after a run.
--   Finder           crates/octa-finder/src/lib.rs: tasks by path (find_exact, find_descendant) and
--                    by pattern (matches_segments, collect_matching).
--   Common           shared names, Boolean tests, lists and association lists.
--
-- Conventions. A Rust struct is a record and an enum is a data type. A mutable method takes the
-- state and returns the next one; asynchronous or shared code is a relation of steps, in any order in
-- which they can come. A `HashMap` is an association list: the order of the list stands for an order
-- of iteration. A `Result` is a type of the module's own. A panic is a value of the result where the code can reach one. Text is a list
-- of code points, a byte string a list of bytes.
--
-- Bounds and fuel. The loops of the graph pop a node at most once each on a well-formed graph, so
-- their fuel is one more than the number of nodes; the statements on `has_cycle` and `is_linear`
-- exclude running out. Each call of find_descendant cuts off a segment, so the number of segments is
-- its fuel. The generation of the circuit breaker wraps at 2 ^ 64, its failures saturate
-- at 2 ^ 32 - 1, its clock ends at a parameter. The byte counter is below 2 ^ 64 and is checked where
-- the code checks it.
--
-- The loops of the restoration run over its list of roots, the passes of the collection over their
-- lists of files, and the retries of a request over the attempts that remain, so they need no fuel.
-- Each action of a restoration on the disk takes the next entry of a script of faults: it happens, it
-- fails without effect, or the process stops there. A recovery that meets no fault ends.
--
-- Each action of the local store on the disk takes the next answer of a script: it happens, or fails
-- with an error and without an effect. A write of the counter takes its next answer from a script of
-- its own: it happens, it is refused, or it stops with the file truncated to some of the bytes. The
-- local store is used by one process: its locks are actions
-- that can fail, and a collection that a full store starts is a parameter. So what a collection of
-- another process does between a publication and the release of its reservation is left out. The loop that verifies a blob
-- runs over the reads of its decoder.
--
-- The stores of a layered cache are any functions of a world; what a statement needs of them is a
-- record of laws among its hypotheses. Not modelled are the hash functions, the compression, the
-- network below a response (and with it the addresses and the uploads of the HTTP client), the
-- parsing of task files, the execution of commands and the fairness of locks. Of the file system a
-- restoration sees single actions that survive a stop once they happened: the order in which a disk
-- flushes them, the locks on outputs, the checks of the workspace and the text of the journal are left
-- out. A collection has neither errors of reading nor the limit on the number of entries. Of the
-- local store, opening, status and prune, the access markers and the bytes of temporary files are left
-- out.
pub mod Common
pub mod Text
pub mod RelativePath
pub mod OutputRoots
pub mod Digest
pub mod BlobDescriptor
pub mod ActionResult
pub mod Layered
pub mod KeepOrder
pub mod InteractiveScope
pub mod Ledger
pub mod LocalStore
pub mod Collection
pub mod HttpClient
pub mod Restore
pub mod Scheduler
pub mod Finder
pub mod Dag
pub mod Circuit
