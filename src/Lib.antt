-- ===== src/Lib.antt =====
-- A verification library for testkit, Go packages for testing controllers.
--
-- The repository's packages are independent of one another, but for ctrltest, which uses assert and
-- managedfields. Parts of four of them are modelled here.
--
-- modelcheck explores the states of a model. A System (modelcheck/modelcheck.go) has initial states,
-- actors that yield moves, invariants and recoverables. Explore (modelcheck/explore.go) searches it
-- breadth first: workers expand the states of a chunk in parallel, their successors are merged in
-- node, actor, move order into a graph that keeps no states, and a key index (modelcheck/index.go)
-- says which are new. findTrap then marks, from the nodes that meet a goal backwards, which can
-- reach it. The states of a violation's trace are rebuilt by replaying moves (modelcheck/replay.go).
--
--   Modelcheck/Index     modelcheck/index.go: hash128, keyIndex, newKeyIndex, lookup, insert, grow and
--                        place in Defs. The table is a list, `& mask` is `% (mask + 1)`, an index out
--                        of range is the result `fault`. `probe` and `place_from` have as fuel the
--                        table's length: a probe that has come round has seen each slot.
--   Modelcheck/System    modelcheck/modelcheck.go: State, Actor, Invariant, Recoverable, System, New,
--                        the chained methods, Attach, Options, Step. Clone, Key, Moves, ok and goal
--                        are caller code, and the hash of a key is SHA-256: fields of the records
--                        State, Actor, Invariant and Recoverable. `Run` is a result or a panic.
--   Modelcheck/Explore   modelcheck/explore.go: stateGraph and explorer are the record Core, and the
--                        goal column and invViol the record Verdicts. intern, addNode, merge and
--                        expand are in Defs; evaluate, expandChunk and run in Search. The fuel of
--                        `search` is MaxStates + 2 levels: each level but the last finds a node.
--                        `expand_level` has as fuel the number of its states. Cases inverts the steps
--                        of a merge, Counts counts nodes, Chunks and Workers compare chunk sizes,
--                        Parents and Tree follow the parent column, Kept the key index, Sound it and the
--                        targets of the edges.
--   Modelcheck/Trap      modelcheck/explore.go: resolveRecoverables and the search of findTrap, with
--                        the reverse adjacency counted, summed and filled in two passes as the code
--                        does. The fuel of `spread` is the number of nodes: each is queued once at
--                        most. Graph says what an edge is and when a node recovers, without the
--                        code's lists; Starts, Filled and Reverse are about the two passes.
--   Modelcheck/Replay    modelcheck/replay.go: state, step, trace, confirm and firstDiff. The fuel of `walk` is
--                        one more than the number of nodes.
--   Modelcheck/Result    modelcheck/explore.go: Explore, verb, the violations and their exits;
--                        modelcheck/modelcheck.go: Violation and Result.
--
-- etcdsim (etcdsim/etcdsim.go) is an in-memory etcd cluster. A test builds it with New, NewHealthy or
-- NewHealthyAt, injects faults, and hands its clients to the code under test. Every client call goes
-- through enter, which runs the test's hooks with the mutex released and then may fail as FailNext
-- asked. The hooks of a cluster are data of an arbitrary type here, with a function that runs one.
--
--   Etcd/Types, Build    member, Cluster, New, NewHealthy, NewHealthyAt, admit
--   Etcd/Faults          SetDBSize, SetHealthy, SetAlarm, SplitLeaderView, RemoveMember,
--                        StallLeaderMove, FailNext, Hook, DBSize, mustMember, sorted, checkMethod
--   Etcd/Client          Client, enter, byEndpoint, Status, Members, Health, MoveLeader, Defragment,
--                        Close. A reply is a value, an error, or `fatal`, where the runtime stops.
--   Etcd/Members, Sorting, Invariant, Election, Transfer, Reach, Calls, Defrag, FailNext, Order hold
--                        lemmas and theorems, each named for what it is about. Reach has the step
--                        relation of a test with its clients.
--
-- fakeapi wraps client-go's object tracker (fakeapi/tracker.go) so that metadata.generation moves as
-- on a server.
--
--   Fakeapi/Types        what the code takes from apimachinery and client-go: records of operations,
--                        with the documented behaviour as laws (MetaLaws, StoreLaws)
--   Fakeapi/Tracker      generationTracker: Add, Create, Update, Patch, Apply, stampGeneration,
--                        appliedGeneration, defaultGeneration, sameContent, content. A generation is
--                        an int64 and wraps.
--   Fakeapi/Content, Generation, History, Applied hold its lemmas and theorems.
--   Fakeapi/WriteBack    fakeapi/writeback.go: createFunc, updateFunc, writeBackGeneration over a
--                        record of the client's calls, Client
--
-- ctrltest simulates, among much else, the garbage collector that envtest lacks (ctrltest/gc.go). On
-- each tick it lists the watched kinds, drives the foreground and orphan finalizers, and collects
-- dependents whose owners are gone. It talks to an API server that others write to as well.
--
--   Gc/Types             objects' metadata, and the record Server: the client's calls on a state that
--                        holds what others will write between two calls
--   Gc/Collect           resolveOwner, ownerDangling, collect, deleteLive, stripOwnerRefs
--   Gc/Sweep             removeFinalizer, foregroundDeleteDependents, orphanDependents, sweepGC,
--                        listWatched, tickGC. The number of tries of RetryOnConflict is an argument.
--   Gc/Safe, Strip       the deletions and the new owner lists that these ask for
--
-- A test of ctrltest hands each controller a client that records its writes (ctrltest/recorder.go),
-- and the manager a reconciler that the interceptor has wrapped (ctrltest/interceptor.go), which lets
-- requests through by namespace and records each pass with the range of the log that it covers. A
-- test reads the log through cursors and matchers (ctrltest/matchers.go), and measures whether a namespace
-- has gone quiet (ctrltest/quiescence.go). Or it runs as a script of steps, each of which permits
-- just the changes that may follow it (ctrltest/script.go).
--
--   Ctrl/Op, Kind        Op, inScope; kindOf, KindSuffix, Expect, the target of an apply
--   Ctrl/Recorder        Recorder, addKey, add, addApply and the readings of the log
--   Ctrl/Cursor          Cursor, CursorFor, attemptCursor, next, take, position, advanceTo
--   Ctrl/Client          recordingClient and its subresource writers, over the record Wrapped of the
--                        client underneath, whose state also tells the time
--   Ctrl/Wait            waitForNext, waitWithinQuiet, waitForAll, compareMultiset, waitForMatching: a
--                        wait runs over a list of polls, each with what is filed before it and whether
--                        the deadline is past behind it
--   Ctrl/Gate            Activate, Deactivate, Pause, refuse
--   Ctrl/Intercept       Interceptor, Reconcile, append and the readings of its log
--   Ctrl/Passes          intercepted.Reconcile as the phases of a call, in steps that interleave with
--                        the gate's callers, other calls and recorded writes
--   Ctrl/Unconverged     Unconverged of ctrltest/quiescence.go
--   Ctrl/Quiescence      ctrltest/quiescence.go: churnMonitor, topCounts, quiescenceError, vacuous and
--                        TryQuiescent, over a list of turns of its loop, each with the stream's answer,
--                        what is filed, and the clock. The fuel of `drain` is one more than the log's
--                        length: each round but the last takes an op.
--   Script/Allow, Assign ctrltest/script.go: Allow and its constructors, validation and flattening;
--                        augment, matchAll, orderedFit, assignEvents. The fuel of `augment` is the
--                        number of leaves: each call visits one more before the next. Where the code
--                        changes an array of leaves in place, the new list is a result.
--   Script/Step          TryStep and TryFinish, over the list of what each call of next hears
--   Script/Taken, Augment, Fit, Assigned, Search, Count, Exact, Blame, Closed, Walk and
--   Passing are about these. Meaning says what permissions mean, without the code.
--   Ctrl/Stream, Refine, Quiet, Tally, Served, Multiset, Matched and Suffix are about the log and what
--   reads it; Gates, GateRun, Filed, Clamp, Sequence, Traffic, Attributed, Doors and Admission about
--   the interceptor; LastWord, Converged, Report, Settled and Verdict about quiescence.
--
-- Prelude has the shared names: lists under native numbers, parts of lists, texts, tests, lookups,
-- sorting, integers, decimals.
-- Examples runs the models on small inputs.
--
-- Bounds: counts and sizes that Go keeps in an int are natural numbers, or integers where the code
-- meets negative ones, without wrap; the narrow columns of the graph (int32, uint32, uint16) panic
-- where index32, offset32 and merge do. Options with negative values are not modelled.
-- Durations and instants of ctrltest are natural numbers too.
--
-- Not modelled: locks and goroutines. A call of the cluster holds its mutex from enter to the end, so
-- it is one step, and hooks run before it, where the code has the mutex released. Workers write to
-- one slot each, so a parallel loop is a map over its items; parallelFor's handling of a panicking
-- worker is left out. The texts of panics and of formatted violations (replay.go's describe and
-- mismatch, trace.go) are left out too. assert, golden and tools/assertfix are wrappers over reflect,
-- go-cmp, files and go/ast. The rest of ctrltest and of fakeapi, and managedfields, are not modelled.
-- Errors are their texts, and the texts of failed waits are left out.
pub mod Prelude
pub mod Etcd
pub mod Modelcheck
pub mod Ctrl
pub mod Fakeapi
pub mod Gc
pub mod Script
pub mod Examples
