-- ===== src/Lib.antt =====
-- The rrc engine of the repository, the part that decides what a model call sees: a thread's messages
-- are chunked and serialized into a query, prerequisite edges are recorded in a graph, the graph is
-- walked back from the prompt, and a budget is filled with the groups of messages that the selection
-- names. With it three parts that its callers stand on: the retries of remote calls, the registry of
-- the runners that hold an engine, and the registry of the approvals that the runners wait for.
--
-- The parts and the files that model them:
--   - Rrc/Predicate: rrc/predicate.go. Predicates as a data type with the source's constructors,
--   `EvalPredicate`, `CompilePredicate` and `ThreadScopeOf`.
--   - Rrc/Message, Rrc/Protocol: proto/grudge/thread/v1 and rrc/protocol.go. `NewProtocolIndex` and
--   `CloseGroup`. The breadth-first loop takes fuel: a round for the root and one for each entry of
--   the index, which is enough since a message enters the queue only when its id is new.
--   - Rrc/Chunk: rrc/chunk. `Split` and `findBoundary` on bytes, `strings.TrimSpace` on UTF-8. The loop
--   takes fuel: a round for each byte and one more, since each round advances.
--   - Rrc/LocalContext: rrc/local_context.go. The windows of a thread and their serialization; the
--   digest (sha256 and hex) is an argument.
--   - Rrc/Detect: rrc/detect.go and rrc/acceptance.go, but for the sampling seed.
--   - Rrc/Edge, Rrc/Dag, Rrc/ScoreCache, Rrc/Engine: proto/grudge/rrc/v1, rrc/dag.go,
--   rrc/score_cache.go, the state of rrc/engine.go with `Fork` and `Merge`, and `RecordProvenance`
--   and `AddEdges` of rrc/provenance.go.
--   - Rrc/Assembly, Rrc/Assemble: rrc/assembly.go. Assembly has the helpers; Assemble has the loop that
--   drops messages of Local Context (one round for each message, and one more), the shed loop (one
--   round for each selected message, and one more), and Whole the function itself. The store and the
--   locked selection event are arguments.
--   - Rrc/Selection: rrc/selection.go. `extractSubgraph` over a queue that is the heap of Prelude/Heap.
--   Its loop takes a round for each edge of the graph and one more, which is enough since an edge is
--   pushed at most once. Rrc/Reduction: `transitiveReduction`; the depth of its search takes a level
--   for each selected message and one more. Rrc/Select: `selectLocked` of rrc/engine.go over both.
--   - Rrc/Provenance: the first phase of `provenanceMassWalk` in rrc/provenance.go, which finds the
--   messages; its loop takes a round for each contributor of an anchor and each edge, and one more.
--   - Rrc/TokenScale: rrc/tokenscale/tokenscale.go, the rings of admitted ratios, without the file.
--   - Core/Retry: core/httpc/retry/retry.go and core/httpc/status.go. `Do` with the operation, the
--   context and the random numbers as arguments, and the classes of errors.
--   - Service/Runtime: service/runtime/registry.go. Every operation; calls of `GetOrBuild`, cut at
--   their locks, interleave in a step relation with all the others.
--   - Service/Approvals: service/approvals/registry.go. The verdicts and answers that runners wait for.
--   - Prelude: what the parts share; Prelude/Heap is Go's container/heap on a slice. Tests:
--   concrete data, on which every theorem with hypotheses is applied.
--
-- Floating-point numbers are the interface Rrc/Floats: no law of them is assumed but where a theorem
-- names it. Go maps are association lists, and sets are the lists of their keys. Integers of the code
-- that cannot be negative (positions, token counts) are native naturals; the others are ℤ. Overflow
-- of 64-bit counters is left out, as are locks: each operation is what one holder of the lock does.
--
-- Not modelled: the rest of the selection event (rrc/prerequisite_selection.go, `ApplyMMR`) and the
-- second phase of the provenance walk, which sums masses; the adapters under core; the other services
-- under service and adkbridge, which are I/O around the engine; the web client; generated code.
pub mod Prelude
pub mod Rrc
pub mod Core
pub mod Service
pub mod Tests
