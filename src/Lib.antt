-- ===== src/Lib.antt =====
-- The core of the control plane that drives a task through planning, development, acceptance,
-- integration and publishing. A task is in one of 17 states (Types, StateMachine); jobs of its
-- stages are given to workers that are capable of them (Capability, WorkerPolicy), within limits
-- and under locks (Concurrency), each under a lease (Lease); a failed job is retried, handed to
-- another worker or given up (Retry), repeated fingerprints and states are found (DoomLoop), orphans are
-- retried or blocked (Orphan), and what a job may touch is classified (SideEffect). Dispatch puts
-- these together: it gives a task its next job. What a service changes of a task is a TaskUpdate,
-- and the tasks with the log of their transitions are the store of TaskService. Result takes a
-- worker's result of a job: it asks the gate (RunGate), makes the updates, moves the task on and
-- releases the job's lease and slot. A task that is accepted by hand passes the gates of Acceptance,
-- which ask the checklist (Checklist) and the documents (StaleCheck). Integration and Publish carry
-- an accepted task to the main branch and to the outside, by the repository's policy (RepoPolicy)
-- and the check of the base (BaseSha).
--
-- Files, and the code they model:
--   Types          src/types/base.ts
--   StateMachine   src/domain/state-machine: ALLOWED_TRANSITIONS is get_allowed_transitions, and a
--                  method of StateMachine is a function of the same words; Mapping is
--                  state-mapping.ts. A thrown error is `thrown` of an Outcome.
--   Capability     src/domain/capability/capability-manager.ts; the registry is a map by worker
--   WorkerPolicy   src/domain/worker/worker-policy.ts; DEFAULT_WORKER_CAPABILITIES of
--                  src/store/utils.ts
--   SideEffect     src/domain/side-effect/side-effect-analyzer.ts
--   Retry          src/domain/retry/retry-manager.ts; Text has toLowerCase and includes
--   Lease          src/domain/lease/lease-manager.ts
--   Concurrency    src/domain/concurrency/concurrency-manager.ts: Jobs (canAccept, recordStart,
--                  recordComplete), Queues (enqueue, dequeue), Locks (acquireLock and its kin),
--                  Versions (checkAndUpdateVersion)
--   DoomLoop       src/domain/doom-loop/doom-loop-detector.ts: Fingerprints (checkLoop),
--                  Transitions (trackTransition, detectLoop)
--   Orphan         src/domain/orphan: orphan-recovery.ts; Scan is orphan-scanner.ts, whose calls of
--                  its context are a list of effects
--   Dispatch       src/domain/dispatch/dispatch-orchestrator.ts; Steps is dispatch from its last
--                  step to its first
--   TaskUpdate     src/domain/task/task-update.ts; an object with missing keys is a function
--   RunTimeout     src/domain/run/run-timeout-service.ts
--   Fingerprint    src/store/utils.ts: simpleHash, on the codes of a text
--   RunGate        src/domain/run-system/run-system-gate.ts
--   Task           src/types/task.ts: a task with the fields that the services below use
--   TaskService    src/store/services/task-service.ts: the store is a map of tasks and the log
--   Result         src/domain/result: Updates, Steps (finalizeJob), Rejections, Reworks, Stages
--                  (stage-result-handlers.ts) and Apply, which is applyResult
--   StaleCheck     src/domain/stale-check/stale-docs-validator.ts
--   Checklist      src/domain/checklist/manual-checklist-service.ts
--   Acceptance     src/domain/acceptance/acceptance-service.ts
--   RepoPolicy     src/domain/repo-policy/repo-policy-service.ts
--   BaseSha        src/domain/integration-check/base-sha-validator.ts
--   Delivery       the store and the task of the next two
--   Integration    src/domain/integration/integration-orchestrator.ts, and integrate and
--                  completeIntegrate of src/store/control-plane-store.ts
--   Publish        src/domain/publish/publish-orchestrator.ts, and the store's publish,
--                  approvePublish and completePublish; a token is compared by its codes
--   TypedRef       src/domain/typed-ref/typed-ref-utils.ts, and the pattern of
--                  src/domain/task/task-validator.ts
--   Risk           src/domain/risk: risk-assessor.ts and risk-integration-service.ts; Forced and Kinds
--                  are about the factors of a result, Levels about its level
--   Session        src/domain/worker/session-registry: reuse.ts, and of registry.ts the search for
--                  candidates, leaseSession and markSessionDead
--   JsMap          Map and Set of the language with text keys; Base has what all files share.
--
-- An object of a class is a record of its fields. A method that changes them takes the record and
-- returns it with the method's result. A method that reads the clock takes each reading as an
-- argument, in milliseconds since the epoch; an ISO text of a time stands for that number. What
-- randomUUID and Math.random return is an argument as well; Math.random is a numerator over 2^53.
-- A quotient of counts, which the code computes as a float, is a pair of numbers. Configurations
-- are complete: the spread of a partial configuration over the defaults is done. A result of
-- a worker has the fields that its type requires, but for the artifacts, which may be missing: the
-- TypeError that the code then throws is an error of Result. Optional fields
-- are Options; an empty text counts as missing where the code tests it so. Counts, limits and
-- durations are natural numbers; the code's are floats, equal to these below 2^53. Loops run over
-- lists by structural recursion; the one fuel is the eight digits of a hash, enough for the 2^31
-- that it is at most.
--
-- A Map lists its entries in the order of insertion, and so does Object.entries for keys that are
-- no array indices. Text is lower-cased as ASCII. The objects that a getter returns are shared with
-- the table in the code; that a caller writes to one is not modelled.
--
-- Not modelled: the printing of the two fingerprints and the hash of generateFingerprint, so
-- elsewhere a fingerprint is any text; the prompt, the context and the compiled instruction of a
-- job; timers; the printed summaries; the checks of a result against its schema, whose errors are
-- an argument; the files of a patch, of which Risk has the number; the
-- checkpoints that are kept; the ranking, the warm pool and the cleanup of sessions; and what lies outside the core:
-- routes, the wiring of the store and its Redis backend, worker adapters and executors, the
-- connectors to remote services, prompts and retrospectives, and the packages. The tasks of
-- Delivery have more fields than those of TaskService, so Integration and Publish work on a store
-- of their own with the same transition.
pub mod Base
pub mod JsMap
pub mod Types
pub mod StateMachine
pub mod Capability
pub mod WorkerPolicy
pub mod SideEffect
pub mod Text
pub mod Retry
pub mod Lease
pub mod Concurrency
pub mod DoomLoop
pub mod Orphan
pub mod Dispatch
pub mod TaskUpdate
pub mod Fingerprint
pub mod RunTimeout
pub mod RunGate
pub mod Task
pub mod TaskService
pub mod Result
pub mod StaleCheck
pub mod Checklist
pub mod Acceptance
pub mod RepoPolicy
pub mod BaseSha
pub mod Delivery
pub mod Integration
pub mod Publish
pub mod TypedRef
pub mod Risk
pub mod Session
