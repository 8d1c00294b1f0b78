-- ===== src/Lib.antt =====
-- A model of atlasic, a Go library for agents that speak the A2A protocol.
--
-- A client's message becomes a task. The service writes each change of a task twice: as an event at
-- the end of the task's stream and in a snapshot of the task, both under a version that counts the
-- events. A job is queued for the task, a worker runs the agent for it under the task's lock, and
-- the agent changes the task through a handle. Clients that wait for the task poll its stream.
--
-- The files and the code that they model:
--   * A2a and below: a2a/a2a.go. Messages, tasks, artifacts, events, and the `Validate` methods.
--   * Storage: storage.go, as a record of operations (`Storage`) and the laws that clients rely on
--     (`Lawful`). Storage/FileSystem and below: filesystem_storage.go, with one definition for each
--     method and a proof of the laws (Storage/FileSystem/Laws). Storage/S3 and below: the same for
--     awsadp/s3_storage.go, over the calls of the AWS client as a parameter (Storage/ObjectStore).
--     Storage/S3/Files: awsadp/s3_file.go.
--     Storage/Abstract and below: the storage as functions, and backends as its implementations.
--   * Updater and below: `TaskUpdater` of task_updater.go. Updater/Replay has the fold of a stream
--     that serves as the specification of event sourcing.
--   * Service: the state of `AgentService` and its writes (`applyTaskUpdates`, `createNewTask`,
--     `addMessage`, `updateStatus`, `upsertArtifact` of task_updater.go). Service/Coherence says what
--     it is for a task to be coherent: the storage holds it at the version of its stream, and the
--     stream replays to it. Service/Torn: a failure between the two writes.
--   * Service/Messages: `processMessage`, `GetTask`, `CancelTask` and the push notification configs
--     of atlasic.go. Service/Polling: `SendMessage`, `SendStreamingMessage`, `TaskResubscription` and
--     their polling loops. Service/Jobs: `ProcessJob` of atlasic.go and task_handle.go.
--     Service/Monitoring: the monitor of heartbeats and cancellations that runs beside an agent.
--     Service/Handle: what an agent reads through task_handle.go. Service/Metadata: the output modes
--     and the agent card.
--   * Locker and below: task_locker.go. Queue and below: jobqueue.go. Queue/Sqs:
--     awsadp/sqs_jobqueue.go, over the calls of the AWS client as a parameter.
--   * Transport and below: transport/handler.go (Handler, from `ServeHTTP` in Handler/Serving to the
--     methods of the service; Wrapping; Cards), transport/extension.go (Extensions) and
--     transport/content_negotiation.go (Negotiation), over any agent service. Transport/Service: the
--     library's own service behind the handler.
--   * Auth and below: auth.go, the authenticators that the handler asks.
--   * Runner and below: model/runner.go, model/tool_resolver.go, and of model/model.go the hooks
--     (Runner/Hooks) and the parts that carry tool uses (Runner/Parts). Runner/Ollama: the messages
--     of model/ollama/model.go.
--   * Prompt and below: package prompt, which writes tasks and messages for a model, and its tool.
--   * Prelude: helpers. Prelude/Exec: functions that read and write a state and may fail; what was
--     written before an error stays written. Tests: the theorems at concrete inputs.
--
-- The operations are over any storage and any job queue, taken as parameters. Ids and times come
-- from functions of a counter, push deliveries are a list of those asked for, and logging is left
-- out. A uint64 version is a natural number with its sums taken modulo 2 ^ 64; where a theorem needs
-- that a count has not wrapped, it says so. The ids of tasks and contexts are taken to be plain file
-- names, and JSON to give back what was encoded.
--
-- There is no fuel, but for the digits of a number, which are at most as many as the number or one
-- (Prelude/Numerals): the loops recurse on the list that they walk. A polling loop walks a list of
-- rounds, each with what other goroutines did to the state since the last one, and after the last
-- round the request's context ends, with what they did up to then; so do the polls of SQS, the steps of the runner and the rounds of
-- the monitor. An agent is a well-founded tree of calls on its handle, so that every run of it ends.
--
-- Not modelled: the virtual file systems of storage.go, the worker loop and the `Server` of
-- atlasic.go, the builder of extended agent cards and the client of package transport, the readers
-- of token claims in auth.go, the push notifier, the remote agent and the id generator, the model
-- providers but Ollama, and package atlasictest. Each call of the service runs alone, but for the
-- rounds of the polling loops and of the monitor.
pub mod Prelude
pub mod A2a
pub mod Storage
pub mod Updater
pub mod Service
pub mod Locker
pub mod Queue
pub mod Transport
pub mod Auth
pub mod Runner
pub mod Prompt
pub mod Tests
