-- ===== src/Lib.antt =====
-- The private cloud control plane: the acceptance of mutations, the persisted sagas of the
-- provisioning orchestrator, the projection of their events, and reconciliation.
--
-- A client's request is accepted by the control API's store, which marks the instance as busy and
-- appends a command to its outbox, and reaches the orchestrator through Kafka. The orchestrator stores
-- one workflow row for it and advances the row in turns: a worker claims the row under a lease, makes
-- one provider call at most, and asks the store for one write, which ends the lease. Its events come back to the control API, whose projection store writes what they say into the
-- rows and documents of the instance and its operation. The reconciler observes instances at the
-- provider and records drift. The parts and their files:
--
--   Prelude       numbers, texts, Boolean tests, lists and the library names that the rest uses.
--   Contracts     packages/contracts and packages/provider-sdk: commands, events, and the requests,
--                 responses and errors of the provider port.
--   Workflow      packages/application/src.
--     Stage         workflow-stage.ts: stages, actions, spellings, the progress table.
--     Step          ports.ts: `ClaimedWorkflow` and the arguments of the store's writes; the monad
--                   of a step, which records its provider calls and returns or throws.
--     Values        lifecycle-workflow.ts: the constants, and what failures and progress are made of.
--     Engine        lifecycle-workflow.ts: `progress`, `fail`, `manualReview`, `context`,
--                   `ownership`, `requiredResource`, `failureValue` and their helpers.
--     Outcome       lifecycle-workflow.ts: `handleMutationResult`, `pollTask`, `handleTaskResult`.
--     Recovery      lifecycle-workflow.ts: `handleProviderError`, `retryOrDeadLetter`, and `runOne`
--                   after the claim.
--     Create, Power, Resize, Snapshot, Retain, Purge
--                   the capabilities: `execute` and the steps it chooses between.
--     Executors     the table of executors that the worker registers, and the data of the commands
--                   that each of them runs.
--     Registry      workflow-registry.ts: the rotation over the executors.
--     Transitions   the stage table as a specification, and the proof that a turn keeps to it.
--     Evidence      what the provider must have shown before a success or a purge.
--     Address       under whose claim a turn writes.
--     Discipline    the provider calls of a turn, and the mutation whose answer is lost.
--     Tests         concrete claims and providers.
--
--   Store         packages/postgres-adapter/src/workflow-store.ts.
--     Table         tables as lists of rows: select, update.
--     Rows          the rows of schema `workflow` and of `audit.entries`.
--     Lease         `claimNext`, `readyWorkflow`, `assertLease`, `releaseLease`.
--     Writes        `checkpoint`, `complete`, `deadLetterWorkflow`, and what they append.
--     Inbox         `insertCommandReceipt`, the rows of a new workflow, and what a replay compares.
--     Admission     `admitCommand`: `admitOriginalDelivery` and `admitAuthorizedReplayCommand`.
--     Authorization `admitReplayRequest`, `deadLetterCommand`, `quarantineRecord`.
--     Replay, Idempotence, Authorization/Granted
--                   what an admission and an authorization rest on.
--     Fencing       who may claim, who may write, what a write touches, and what the other
--                   transactions of the store leave of the leases.
--     Tests, ReplayTests
--                   stores with one workflow.
--
--   Orchestrator  `runOne` over the store: claim, step, write, and what a throw leaves behind.
--     Turns         the turn of a worker that was superseded.
--     Tests         turns on a store with a power workflow and a purge.
--
--   Control       packages/postgres-adapter/src: schemas `control` and `projection`.
--     Rows, Keyed, Transaction
--                   the tables, the searches by a key, and a transaction that commits or throws.
--     Projection    projection-store.ts: what workflow events, dead letters and drift reports make of
--                   the instances, operations and documents. Events, Traces, Steps, Endings and Apply
--                   hold the code; Outcomes and Once what an event leaves, Agreement, Duplicates,
--                   Snapshots and Release what follows.
--     Reconciliation
--                   reconciliation-store.ts, and in Worker the sweep of
--                   apps/reconciler/src/app/reconciliation-worker.ts. Taken, Origins, Claims,
--                   Starvation and Intent hold the proofs.
--     Acceptance    control-plane-store.ts and instance-guard.ts: `acceptPowerAction`,
--                   `acceptResize`, `acceptRetention`, `acceptPurge`, `releaseIpv4Lease`. Records,
--                   Guards, Writes, Methods and Removals hold the code; Commands, Rules and Outcomes
--                   what an acceptance leaves, Exclusion, Repeats, Purges, Quota, Leases,
--                   Readiness and Success what follows.
--
--   Adapters/PlanGate
--                   packages/provider-adapters/src/terraform/plan-gate.ts: what a plan may change.
--                   Verdict, Decision and Recovery hold the proofs.
--
--   Domain        packages/domain/src/index.ts.
--     Drift         `classifyDrift`.
--     Resize        `validateResize`.
--     Addresses     `allocateIpv4`, from the parsed pool on.
--     Tests         concrete snapshots, sizes and pools.
--
-- A step is a function of the claim, of what it reads from outside (`Env`: the clock, the random
-- source, fresh identifiers) and of the provider, which is a record of functions and a parameter
-- everywhere. Its value is the call of the store that the code makes last; no step makes two. A call
-- of the provider that throws a `ProviderTransportError` is caught by `recover` as `runOne` does; any
-- other error leaves the turn. UUIDs and moments are numbers; moments are milliseconds. The random
-- source gives a multiple of 2^-53 in [0, 1), or a value that the code refuses. The wall clock is
-- read once in a turn.
--
-- A method of the store is one transaction, and one function: it returns the database after it, or
-- throws and leaves the database as it was. The lemmas of `Store` hold for rows of any type of data;
-- `Orchestrator` keeps the commands of every action in one database, and narrows a claim to the data of
-- its executor as `runOne` does. The unique keys of `workflow.replay_requests` end a transaction that
-- would repeat one; those of the other tables whose identifiers are drawn afresh are left out. Its moment is an argument, of the database's clock for a
-- claim and of the process's clock for a write, and nothing orders the two. The validators of stored
-- commands and requests are generated code, and the parameters `valid` and `valid_request`;
-- `canonicalSha256` is the parameter `hash`; whether the query builder throws where an
-- UPDATE changed no row is the parameter `strict`. Rows are not locked, since no transaction runs
-- while another does.
--
-- The text of an error that is thrown is shortened where the source writes a value into it.
-- An address is its number, and a set of dotted texts a test on numbers.
--
-- In the rows of `Control`, the fields that no event or acceptance changes stand as one number,
-- `request`. `text` writes an identifier as a text, and `locked` tells which rows another transaction
-- holds, for `SKIP LOCKED`. In the sweep, sizes of which one is NaN count as none. An acceptance takes
-- fresh identifiers and the process's clock as `FreshValues`; its advisory lock and its row lock have no
-- effect, since it runs alone. The identifiers of outbox rows are left out.
--
-- Not modelled: the parsing of addresses, names and SSH keys, telemetry spans and counters,
-- cancellation signals, the HTTP and console applications, Kafka, the concrete provider adapters but
-- for the plan gate, the acceptance of creations, snapshots and replays by the control-plane store,
-- its reads, and the SQL schema.
pub mod Prelude
pub mod Contracts
pub mod Workflow
pub mod Store
pub mod Domain
pub mod Orchestrator
pub mod Adapters
pub mod Control
