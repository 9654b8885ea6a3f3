-- ===== src/Lib.antt =====
-- Verification of OpenHermit, a multi-agent platform: a gateway that authenticates callers and
-- routes them to agents, agents that run tools under access policies and approvals, channel
-- adapters, and a command line.
--
-- A request comes to the gateway, which gives it an identity (Auth) and shows it sessions
-- (Sessions); a session is opened for a user with a role (Admission). The identity is one of a user
-- (Users), to which a channel's user is linked by a token (LinkTokens). An agent is given the tools
-- that the policies leave visible (Policy, Access); a guarded call needs an approved request
-- (Approval) or waits at a gate for a human's answer (Gate). Plugins may change or veto what an
-- agent does (Events); the events of a session go through a broker (Broker) to the connections
-- (Sockets); schedules start runs of their own (Schedules). Answers go back to the channels in
-- chunks (Channels). The routes over HTTP (Routes) reach sessions by the same checks as the
-- connections, and their rows are written and deleted in a store (SessionStore).
--
-- The files and the code:
-- - Prelude and its children: arrays, strings, maps and UTF-8. A string is the list of its UTF-16
--   code units; a `Map` is an association list in insertion order; numbers are natural numbers, and
--   instants are milliseconds where the code keeps ISO texts, which have the same order.
-- - Policy: apps/agent/src/core/policy.ts. `evaluateAccess` is `evaluate_access`, and
--   `resolveToolMatches`, `resolveFilePathMatches`, `resolveExecMatches` and `resolveMcpMatches`
--   are in Policy/Tools, Policy/Files, Policy/Exec and Policy/Mcp; the map of best rows that two of
--   them fill is in Policy/Best, and the deprecated resolutions in Policy/Grants. PolicyStore:
--   packages/store/src/impl/policy-store.ts.
-- - Approval: packages/store/src/impl/approval-request-store.ts, and `checkApprovalOrRequest` of
--   apps/agent/src/tools/shared.ts. The table is the list of its rows.
-- - Access: the filter and the wrapper of the tools in apps/agent/src/agent-runner.ts; in
--   Access/Guards `checkFilePath` of apps/agent/src/tools/file.ts and the guard of
--   apps/agent/src/tools/sandbox-exec.ts.
-- - Auth and Auth/Registry: apps/gateway/src/auth.ts.
-- - LinkTokens: apps/agent/src/identity-link-tokens.ts. Logs: apps/gateway/src/log-buffer.ts. Gate:
--   apps/agent/src/agent-runner/approval-gate.ts.
-- - Schedules: packages/store/src/impl/schedule-store.ts; Schedules/Scheduler:
--   apps/agent/src/core/scheduler.ts, as a machine whose runs each stand at one `await`.
-- - Events: apps/agent/src/events.ts. Users: packages/store/src/impl/user-store.ts.
-- - Sessions: apps/agent/src/session-utils.ts, apps/agent/src/agent-runner/session-index.ts and the
--   query of packages/store/src/impl/session-store.ts; Sessions/Listing:
--   apps/gateway/src/session-listing.ts.
-- - Channels: `splitMessage` of apps/channels/telegram, slack and discord, src/formatting.ts in
--   each.
-- - CliArgs: apps/cli/src/args.ts. Sse: packages/sdk/src/sse.ts. ExecBackends:
--   apps/agent/src/core/exec-backend.ts, the manager in ExecBackends/Manager. Secrets:
--   apps/agent/src/core/security.ts, `resolveSecrets` and `interpolateSecrets`.
-- - Workspace: apps/agent/src/core/workspace.ts; a path is its segments from `/`, and each answer
--   of the file system is a field of `FileSystem`.
-- - ToolResults: apps/agent/src/agent-runner/tool-result-persistence.ts, and Compaction:
--   apps/agent/src/agent-runner/context-compaction.ts, the truncation of tool results in
--   Compaction/Truncated, the summaries in Compaction/Summary and the retained window in
--   Compaction/Window. Output: apps/agent/src/core/bounded-string.ts. Env:
--   packages/shared/src/env.ts.
-- - Admission: `resolveSessionUser` and the checks of `openSession` in
--   apps/agent/src/agent-runner.ts.
-- - Broker: `SessionEventBroker` of apps/agent/src/runtime.ts, as a machine whose loops of
--   `publish` each await one subscriber. Sockets: the requests of apps/gateway/src/ws-handler.ts,
--   with `verifySessionAccess` of apps/agent/src/agent-runner.ts, over Auth, Users, Sessions and
--   Broker.
-- - Routes: the session routes of apps/gateway/src/app.ts with `requireAuth`,
--   `enforceSessionNamespace`, `resolveRunner` and `requireSessionAccessHttp`, over Auth and the
--   access check of Sockets; Routes/Transports compares them with the requests of Sockets.
-- - SessionStore: packages/store/src/impl/session-store.ts, whose `list` is in Sessions;
--   SessionStore/Deletion: `deleteSession` of apps/agent/src/agent-runner.ts over it.
-- - Tests: the theorems at concrete inputs.
--
-- Fuel: `split_message` runs with as many rounds as the message has characters, and a round takes
-- at least one; the search for an unused id runs with one round more than there are used ids. The
-- search for the nearest directory that exists runs with as many rounds as the path has segments,
-- and each takes one off. Every other loop is structural: those that choose how many messages are
-- kept go over their number. A database statement has its whole effect or throws and has none; the
-- deletion of a session is two statements.
--
-- Parameters: the verification of a JWT's signature, the cron library, the handlers of plugins, the
-- factories of execution backends, the answers of the file system, the agent that writes summaries
-- and the store that keeps them, `JSON.parse`, `toLocaleString`, the products with 0.7, 0.8 and 0.2
-- rounded down, what a plain object inherits under a name, the random tokens, ids and the clock.
--
-- Not modelled: the language model's turns, the HTTP routes that are not those of sessions, the
-- modes `wait` and `stream` of an answer, the writing of the stream of events over HTTP, the
-- upgrade to a WebSocket, the interfaces of the chat services, the execution backends themselves,
-- the SQL of the stores beyond its effect on rows, user interfaces, metrics and tracing. Rows that
-- a query gives without an order are in the order of the table.
pub mod Prelude
pub mod Policy
pub mod Approval
pub mod Access
pub mod Admission
pub mod Auth
pub mod Broker
pub mod LinkTokens
pub mod Logs
pub mod Gate
pub mod Channels
pub mod Routes
pub mod Schedules
pub mod Secrets
pub mod Events
pub mod ExecBackends
pub mod Sessions
pub mod SessionStore
pub mod Sockets
pub mod Sse
pub mod CliArgs
pub mod ToolResults
pub mod Compaction
pub mod Output
pub mod Env
pub mod Users
pub mod Workspace
pub mod Tests
pub mod PolicyStore
