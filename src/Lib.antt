-- ===== src/Lib.antt =====
-- Verification of ORGModuleServices: the host side of GPU resources that versions share, frame after
-- frame. What is modelled, by file:
--
-- BackingPool: include/ORGModuleServices/BackingPool.h and src/BackingPool.cpp, the pool of GPU
-- allocations: Backing (one allocation and the tests on it), Store (the vectors), State (the
-- steps the operations share), Acquire, and Upkeep (leases, pins, availability, Trim, Count).
-- A backing is named by its generation, which stands for the pointer. Each call is one step,
-- except that during an Acquire other threads may pin: the argument `pins` says how many
-- consumers come to each backing after the look at the free list and before the claims. The
-- clock's completed point is an argument, the same throughout a call, and the allocation hook is
-- a function whose `none` is a throw. The sort of candidates keeps the order of equals, which
-- std::ranges::sort leaves open. Circulation holds the invariant of the pool's lists, Candidates
-- and Choosing the search of an Acquire, Placement, Exclusive and Granting its result, Life and
-- Reach the life of a pool, Epochs the floor of a journal.
-- Growth/Policy: include/ORGModuleServices/GrowthPolicy.h, GrowthPolicy::Next and NextAs. `next`
-- doubles with fuel: 64 rounds, since a capacity of at least 1 passes every 64-bit need after at
-- most 64 doublings. `no_fuel` is the fault of a loop without rounds left.
-- Growth/Window: include/ORGModuleServices/ElasticCapacity.h, ShrinkPolicy, ShrinkWindow and
-- FitCapacity: a capacity grows at once and shrinks after a window of low asks. ElasticCapacity is a
-- call of FitCapacity on its two members. A point of the steady clock is its nanoseconds.
-- Growth/Contents: include/ORGModuleServices/GrowableBufferTypes.h, the extents, requirements and
-- contents of growable buffers, which size themselves by Growth/Policy.
-- Exchange: include/ORGModuleServices/Async/PublicationExchange.h, the three slots between one
-- producer and one consumer. Each call is a chain of steps of at most one atomic operation each
-- (`producer_step`, `consumer_step`); Exchange/WaitFree bounds a producer's call.
-- Images: include/ORGModuleServices/BufferImage.h and src/BufferImage.cpp, pages of 64 KB. The loop
-- of `pages_from` has the bytes as fuel: each round makes a page of one at least.
-- Journal: include/ORGModuleServices/BufferJournal.h and src/BufferJournal.cpp. Each call is one step
-- under its mutex; a page that a capture shares is cloned before it is written, so pages are
-- values. The loop that copies a write has its bytes as fuel, since each round copies one.
-- Versions: include/ORGModuleServices/VersionedBufferBuild.h and src/VersionedBufferBuild.cpp:
-- Version (inputs and outcomes), Choice (the class), Intervals (the set of byte intervals), Delta
-- (overlapping writes resolved), Predecessor (`BuildFromPredecessor`), Replay, Snapshot (`Build`)
-- and Build, which picks one of the two. A build acquires from BackingPool, chooses its class by
-- Growth, and is given the answers of its hooks and of the upload service: a pointer to data is
-- a function from an index to the byte, a buffer is a number, and each error text is a
-- constructor. std::bit_ceil is undefined past 2 ^ 63; `bit_ceil` stops there.
-- Pump: include/ORGModuleServices/Async/SerializedTaskPump.h. A compare-exchange that is retried
-- until it holds is one step on the word as it then is, so the threads' steps interleave at the
-- atomic operations; Word has the word as one number, Delayed the delayed notifications under
-- their mutex, Stats the counters. The epoch has 62 bits, and the runs are those that leave it
-- room.
-- Clock: include/ORGModuleServices/BackingPool.h and src/BackingPool.cpp, RetirementClock. Advance,
-- Subscribe and RunReached are steps of one atomic operation at most, of any number of threads; a
-- compare-exchange that is retried until it holds is one step. A walk over a taken list is one
-- step with the point it reads first, and the wakes it runs are noted in their order.
-- Leased: include/ORGModuleServices/Async/LeasedArraySlots.h, the vectors that slots and readers
-- share. A vector is named by a number and its use count is counted from who names it.
-- Assembly: include/ORGModuleServices/Async/RevisionAssembly.h. Assembly has the fragments, the
-- revisions and the steps of a thread in Settle, Attach and CountDown, Calls has Resolve, Fail, Begin,
-- Set, Seal and Collect, and Runs the steps of all. What fragments require is a function that nothing
-- changes, a weak pointer's lock is answered by an argument once the revision is given up, and so is
-- TryReplace, whose steps are in Exchange. Debts counts what is still to be counted down; Settling,
-- Steps, Keeping, Sealing and Collecting keep Invariant; the slots that Collect moves out of a
-- revision stay in it here, where nothing reads them again. Sequences and statistics of 64 bits are
-- taken to have room.
-- Closed, Picked, Walked and Newest are about the closure and about what Collect takes.
-- Journaled: include/ORGModuleServices/JournaledBufferSet.h and src/JournaledBufferSet.cpp. Journaled
-- has the sink, Publishing the set: a part's emit is a function from its target to its writes and
-- the position it returns, each pool is one of BackingPool, the class is Growth's. A lease that
-- Publish copies and drops again within a call is not copied here. Undone, Outcomes, Ranges and
-- Sealed are about what a publication leaves.
-- Flights: src/CompletionFlight.h, the result of a request and the callbacks of all that joined it, as
-- steps of its threads; Served is about the callbacks.
-- PipelineService: include/ORGModuleServices/PipelineService.h and src/PipelineService.cpp, over Flights.
-- PipelineService has Request, its task and Retire, Publishing PublishReady, Runs the steps of all; the
-- map of flights is a list with a new flight at any place, since the order of its walk is not known, and
-- the runs have more than the service does: a build may end again. Single, Keys and Kept are
-- about the active pipelines and the builds in flight.
-- Pipelines: include/ORGModuleServices/PipelineRegistry.h and src/PipelineRegistry.cpp. Pipelines has
-- the registry, Register and RequestReload; Pipelines/Paths the names of shader files, as bytes;
-- Reloads Service, StartBatch, the completions and FinishBatch; Publishing the rest; Runs the calls in
-- any order. Service is one step, in which the executor and the rebuilds answer as arguments say; a
-- call of a completion is a step of its own. A slot's payload is in its entry, which is not live once
-- the slot is gone. Counting and Counted are about a reload's count, Asking, Asked, Remembered
-- and Picking about what a reload takes, Finishing about its end.
-- Common: tests, results, machine integers and lists. Examples: tests at concrete inputs.
--
-- Numbers are natural numbers; where the code computes in std::uint64_t or std::uint32_t, the
-- wrap-around is written out (`u64`, `u32`). The pool's loops run
-- over its vectors and need no fuel.
--
-- Not modelled: memory orders, the interleaving of single atomic operations but in Exchange, Pump,
-- Clock and Assembly, telemetry, the host's hooks but for their answers, the destructors of the pool and the
-- clock, the clock's count of waiters, readiness tokens over upload tickets (another library's),
-- what a host sets on a version (its state, what it keeps alive), and the repository's other parts
-- (the registries of growable buffers, artifact builds, the listeners of the pipeline registry,
-- shader compilation, the render graph's contexts).
pub mod Assembly
pub mod BackingPool
pub mod Common
pub mod Examples
pub mod Exchange
pub mod Flights
pub mod Growth
pub mod Images
pub mod Journaled
pub mod Leased
pub mod Journal
pub mod PipelineService
pub mod Pipelines
pub mod Pump
pub mod Clock
pub mod Versions
