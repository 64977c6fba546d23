-- ===== src/Lib.antt =====
-- Fairlead, a gateway that routes requests to model backends and runs asynchronous jobs on workers.
--
-- The program's parts. A job registry (src/jobs.rs) keeps the jobs, three FIFO queues, the idempotency
-- keys and the order of submission behind one lock, and saves a snapshot to an optional SQLite store
-- (src/storage.rs) after every change, which a start loads. A worker registry (src/workers.rs) keeps the
-- workers and how many slots of each are in use. The handlers (src/scheduler.rs, and those in src/jobs.rs
-- and src/workers.rs) use both: a claim takes a slot and then a job, a report ends a lease and gives the
-- slot back, and the sweep for expired leases does so for workers that vanished. The result of a finished
-- job is posted to its callback URL (src/callbacks.rs). A synchronous request (src/proxy/mod.rs) is
-- admitted by the priority limiter (src/priority.rs) and sent to a backend that its workload may use, by
-- the pools of its workload, the reports on the memory of the nodes (src/resources.rs), the backend of
-- the same caller before, the node, and the rank (src/router/fallback.rs), among those whose circuit
-- breaker (src/router/circuit.rs) is not open; a failed request goes to the next backend. What happens is
-- counted (src/metrics.rs). The workloads, backends and pools are validated at the start (src/config.rs).
--
-- The files. Base: tests, lists, results, maps, text, decimals and their parsing.
-- Config: src/config.rs; priorities, with Workloads, Numbers, Backends, Pools, and InPools and Pools/Sound for
-- what an accepted policy has.
-- Storage: src/storage.rs, the snapshot that is written; Load reads it, and Load/Sorted, Positions, Rows,
-- Records, Requeued and RoundTrip lead from the written rows back to the registry, and Restart to the
-- registry of a server that starts again.
-- Jobs: src/jobs.rs; Types and Queues have the data, Store has `persist_locked`, Start the start from a
-- snapshot, Submit has `submit`, Views the readers, Callbacks the callback bookkeeping, Leases claim,
-- renew, complete and fail, Cancel, Expiry and Prune
-- the rest; Calls has all calls as one type. Jobs/Steps is the state machine of all calls but pruning,
-- Jobs/Valid the invariant, Jobs/Effects says what each call does in the terms of the code, Jobs/Outcomes
-- spells the answers and the records out, field by field, and Jobs/Held counts the leases.
-- Workers: src/workers.rs; Types, Registry, Views, with Valid and Slots for its invariants.
-- Scheduler: src/scheduler.rs and the handlers; State, Handlers, Finish, Preview, Requests, with Slots for
-- the accounting of slots and Preview/First for the choice of the preview.
-- Callbacks: src/callbacks.rs, with Marks and Delivery for what a delivery does.
-- Metrics: src/metrics.rs. Resources: src/resources.rs, with Filed and Fresh for the reports that count.
-- Router: src/router; Circuit, Affinity, Fallback, with Choice, Kept and Exhausted for its result.
-- PriorityLimiter: src/priority.rs.
-- Proxy: src/proxy/mod.rs; Types, Labels, Selection and Forward have the code. Allowed, Moved, Chosen,
-- Resourced, Counts and Exhausted are about the selection, Attempts with Failures and Rounds about the
-- loop, Ends, Replies, Answers and Permits about a whole request.
-- Examples: small concrete runs.
--
-- How state and operations correspond. An operation takes the state and returns the new state with the
-- answer of the code. The lock of a registry makes its operations atomic, so that a history is a list of
-- calls. The time is an argument, in the unit of the code (milliseconds for jobs, nanoseconds for
-- workers, circuits and resource reports). What SQLite answers to a save is an argument too: a fault makes
-- `persist_locked` fail, and the change in memory stays, as in the code. JSON values are a type with
-- equality. A hash map is an association list whose keys are unique. Machine integers wrap: `u32`, `u64`,
-- `u128`. Handlers run one after another; a handler that sweeps takes the moment of the sweep and that of
-- its own call. The network is a function that answers the n-th request (`send` in Proxy/Forward, `post`
-- in Callbacks), and one request or delivery is followed at a time; the functions of other libraries that
-- Proxy uses, on header values and on loads, are the fields of a record `Outside`.
--
-- Bounds and fuel. The loop of `forward` has no bound in the code: its model has as fuel one more than
-- the number of backends, which is enough since no round tries a backend that was tried before. A
-- delivery recurses on the attempts that are left. All other loops are structural recursion over the lists that they walk; the
-- decimal text of a number recurses on the order of numbers. Where a counter could wrap, the theorem says
-- how large it may be.
--
-- Not modelled: HTTP servers and clients, serialization and logging; the rendering of the metrics, and
-- the sums and reports that are floating point numbers; the reading of the environment and of JSON in
-- src/config.rs; opening and migrating the SQLite file; the timers that start sweeps, prunings and
-- deliveries; the health probes; the counting of metrics by the handlers of the scheduler. Loads of
-- backends are floating point numbers, whose comparison is a parameter.
pub mod Base
pub mod Config
pub mod Jobs
pub mod Storage
pub mod Workers
pub mod Scheduler
pub mod Metrics
pub mod Callbacks
pub mod Resources
pub mod Proxy
pub mod Router
pub mod PriorityLimiter
pub mod Examples
