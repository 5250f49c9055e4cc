-- ===== src/Lib.antt =====
-- StacyVM's control plane: a manager that spawns, finds and destroys sandboxes for its clients, on this
-- worker, on remote workers, or several to a virtual machine of a pool.
--
-- How a spawn goes through the parts. A request has its owner id checked and its timeouts bounded by
-- the owner's quota (Orchestrator/Admission/Quota.antt). The manager decides whether it may be let in:
-- the time to live, the worker that the scheduler selects (Orchestrator/Placement.antt), and the numbers
-- of sandboxes in all and of the owner (Orchestrator/Admission/Decision.antt). A request that finds the
-- limits reached may wait in a queue, and is decided again under the admission lock
-- (Orchestrator/Admission/Queue.antt). It then gets a runtime from a provider, a worker or the pool
-- (Orchestrator/VmPool.antt), a lease (Store/Leases.antt), a row (Store/Sandboxes.antt), and a place in
-- the manager's cache (Orchestrator/Lifecycle.antt, and Request, Spawn, Access, Paths and Destroy below it). Events tell
-- subscribers of it (Orchestrator/Events.antt), and what a runtime prints is kept by line
-- (Providers/RingBuffer.antt).
--
-- The files and the code that they model:
--   Base.antt and below: numbers, integers, lists, texts (strings.TrimSpace and strings.EqualFold over
--     ASCII) and maps, the maps of Go as association lists.
--   Orchestrator/Events.antt: internal/orchestrator/events.go, one function per method (publish,
--     publish_local, subscribe, unsubscribe, history_of for History, stats).
--   Orchestrator/VmPool.antt: internal/orchestrator/vm_pool.go. Acquire lets go of its mutex, so that it
--     is claim, then register; acquire composes the two.
--   Orchestrator/Placement.antt: internal/orchestrator/scheduler.go.
--   Orchestrator/Admission/Quota.antt, Decision.antt, Queue.antt: internal/orchestrator/manager.go
--     (normalizeOwnerID, resolveExecTimeout, ownerLimitOverrides; evaluateSpawnAdmission and
--     EvaluateSpawnRequestAdmission; waitForSpawnCapacity and acquireSpawnAdmission).
--   Orchestrator/Lifecycle.antt: the manager's state (sandboxes, rows, leases, pool), and the logs of the
--     calls, events and audits that it makes; Lifecycle/Request.antt and Spawn.antt have Spawn, spawnPooled, spawnRemote
--     and spawnDirect, Lifecycle/Destroy.antt has Destroy, destroyPooled, destroyRemote, Prune and
--     pruneExpired, Lifecycle/Access.antt has Get, ExtendTTL and the lookups, and
--     Lifecycle/Paths.antt has scopedPath and scopedPathForOperation with filepath.Clean and Join, all of
--     internal/orchestrator/manager.go.
--   Orchestrator/Lifecycle/Files.antt and Exec.antt: WriteFile to GlobFiles, and Exec, ExecStream,
--     ConsoleLog and Stats of internal/orchestrator/manager.go. A stream is the list of its chunks.
--   Orchestrator/Reconcile.antt and Reconcile/Runtimes.antt: Reconcile and reconcileRemoteOwnedSandbox, and
--     reconcileProviderRuntimes, of internal/orchestrator/manager.go. A step answers whether the database took its writes.
--   Worker/Protocol.antt: internal/workerproto/protocol.go, the messages to a worker and their validation.
--   Worker/Rpc.antt: handleRPC and authenticate of internal/worker/rpc.go; Rpc/Checks.antt has what its
--     handlers check, Rpc/Handlers.antt the handlers.
--   Providers/Registry.antt: internal/providers/registry.go.
--   Environments/Records.antt, Dockerfile.antt, Publish.antt, Attempts.antt, Build.antt and Jobs.antt:
--     internal/environments/manager.go, with its rows of internal/store; cancel_build is CancelBuild of
--     internal/api/routes/environments.go. processBuild is cut where it can stop, each piece a function
--     of the record that it goes on with (run_build, load_spec, check_spec and so on to finalize).
--   Store/Records.antt: internal/store/store.go. Store/Leases.antt and Store/Sandboxes.antt:
--     internal/store/sqlite.go, each statement a function on the table.
--   Providers/RingBuffer.antt: internal/providers/ringbuf.go.
--   AgentProto.antt: internal/agentproto/io.go, the frames of the messages to a guest's agent.
--   Api/WorkerAuth.antt: internal/api/middleware/auth.go, validateWorkerCredentials and what it calls;
--     the signature and the decoding of a token's payload are arguments.
--   Api/Keys.antt: internal/api/middleware/auth.go, the keys of the API, in front of a route of the
--     administrator as internal/api/server.go puts them; an identity of OIDC is an argument.
--   Api/RateLimit.antt: internal/api/middleware/ratelimit.go; tokens are counted in units of one part in
--     60 * 10^9, so that what the source computes in floats is exact.
--   Api/Policy.antt: internal/api/middleware/policy.go; what filepath.Match answers is an argument.
--
-- State is passed explicitly. What the clock, a provider, a worker and the database answer is an argument
-- (records of answers), so that the statements hold whatever they answer. Where two methods can be
-- interleaved, the halves between locks are the steps of a relation (VmPool/Users.antt,
-- Admission/Queue/Waiters.antt).
--
-- A manager that starts again reconciles its rows with what runs (Orchestrator/Reconcile.antt). A remote
-- worker serves the manager's calls (Worker/Rpc.antt), and takes a change of a sandbox only with a token of
-- the sandbox's lease, which the manager has from Store/Leases.antt.
--
-- Container images for sandboxes are built apart from this, by a queue of builds (Environments/Jobs.antt), each
-- processed from its spec to its artifacts (Environments/Build.antt).
--
-- Bounds. Counters, times and durations are natural numbers or integers without wrap: none comes near
-- the ends of 64 bits. The decimal text of a number is made with one unit of fuel more than the number,
-- which is more than its digits. The rounds of the admission lock are a list of what each round meets.
--
-- Not modelled: OIDC, the HTTP routes, the providers' own calls, the transport to workers, loading the
-- configuration, metrics and logs, and the tables of the store that no modelled part reads; the
-- statements of the store are modelled one by one, without the database's failures, which the manager's
-- operations take as arguments.
pub mod Base
pub mod AgentProto
pub mod Api
pub mod Environments
pub mod Orchestrator
pub mod Providers
pub mod Store
pub mod Worker
