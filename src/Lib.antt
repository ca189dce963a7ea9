-- ===== src/Lib.antt =====
-- Meergate's web application and MCP server, the parts of them that decide: whether a release may go
-- out, how a run is started, followed and replayed, in what order its steps can be executed, how a
-- test is edited, and what the pages show of services, tests and runs.
--
-- The parts and their files:
-- - Data: the records of web/src/lib/api.ts that the other parts read, with the fields they read.
-- - Confidence: web/src/lib/confidence.ts. `computeConfidence` is Confidence/Score (the signals,
--   the weights, the score) and Confidence/Blockers (the blockers and the whole result);
--   `computeGateChecks` and `gateStatusFromChecks` are Confidence/Checks. Both read the counts of
--   Confidence, so the score and the gate are derived from the same numbers.
-- - GateStatus: web/src/lib/gate-status.ts, the coverage of a service and the service of a test.
-- - Cinema: web/src/hooks/use-cinema-mode.ts. Cinema has the state and the reducer of the events,
--   Cinema/Controls the controls with the timers of the replay, and Cinema/Replay the events that
--   `loadReplayData` makes of recorded results.
-- - RunDag: web/src/components/run-dag-viewer.tsx, `topologicalBatches`.
-- - RunEvents: web/src/hooks/use-run-events.ts, the events of a live run: the merge after a
--   reconnection, the attempts to reconnect, and the end of the effect.
-- - Builder: web/src/app/builder/page.tsx, `manifestToNodes` and the steps of `buildManifest`.
--   Builder/Editor has the diagram's operations, Builder/Connect the connections and what they
--   map, with the dialog of web/src/components/builder/connection-mapper-dialog.tsx in
--   Builder/Mapping, and Builder/Run a run of the edited test: `handleRun`, the polling, whose
--   requests and answers interleave, and what the nodes show. What React Flow itself deletes is in
--   Builder/Editor; its `addEdge` and `reconnectEdge` are parameters. The id `step-k` of a node is
--   the number k.
-- - CatalogSteps: web/src/lib/catalog-to-step.ts, the step of an endpoint or of a method.
-- - McpClient: mcp/src/api-client.ts, the requests of the MCP server to the API and the token of its
--   session. `fetch` and the encoders of a URL are parameters.
-- - Api: web/src/lib/api.ts, `fetchJSON` with `fetch` as a parameter that is given the headers
--   beside the other settings of a request. Api/Calls has the requests, by what they are about.
-- - McpTools: mcp/src/tools.ts, resources.ts and index.ts, the tools that the MCP server offers over
--   its client.
-- - Overview: web/src/components/service-gate-board.tsx, and Overview/Page the overview of
--   web/src/app/dashboard/page.tsx. Both read GateStatus.
-- - ReleaseGate: web/src/app/release-gates/[serviceId]/page.tsx and
--   web/src/components/new-release-modal.tsx, which makes the requests of Api/Calls/Catalog.
-- - Analytics: web/src/app/analytics/page.tsx. Utils: web/src/lib/utils.ts, with which it exports.
-- - TestList: web/src/components/test-list.tsx. Sessions: web/src/app/sessions/[id]/page.tsx.
-- - Schedules: web/src/app/schedules/page.tsx. Alerts: web/src/app/alerts/page.tsx.
-- - Auth: web/src/lib/auth.ts and web/src/lib/dashboard-config.ts.
-- - Base holds what the parts share; Examples runs the definitions on small inputs.
--
-- How the code is modelled: a value that may be null or undefined is an Option; a Map is an
-- association list in which a key set again keeps its place; sets are lists; a React
-- state and the refs beside it are one record that a control takes and returns. Floating-point
-- numbers are an interface, Double: its operations, and as hypotheses the laws of IEEE 754 that a
-- theorem uses (each operation is monotone on numbers that are not negative, and exact on whole
-- numbers). Double/Fixed is an instance. Counts, percentages, sequence numbers and milliseconds
-- are natural numbers. `localeCompare` and `Date` are parameters. The stable sort of an array is an
-- insertion sort that keeps the order of equal elements.
--
-- Fuel: the `while` loop of `topologicalBatches` takes one more round than there are steps. Each
-- round but the last removes a step, so it does not run out.
--
-- Not modelled: rendering, styles and palettes, the texts of the interface, and the server and the
-- test engine, which are written in Go.
pub mod Base
pub mod Data
pub mod Double
pub mod Confidence
pub mod GateStatus
pub mod Cinema
pub mod RunDag
pub mod RunEvents
pub mod Builder
pub mod McpClient
pub mod Api
pub mod Overview
pub mod McpTools
pub mod Utils
pub mod Analytics
pub mod TestList
pub mod ReleaseGate
pub mod Schedules
pub mod Alerts
pub mod Sessions
pub mod Auth
pub mod CatalogSteps
pub mod Examples
