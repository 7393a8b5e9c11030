-- ===== src/Lib.antt =====
-- Agent Launchpad: the server that lets a tenant's coding agents act only as far as their owner allows.
--
-- A human's message starts a run. The agent service mints the run a token, whose row in the store says
-- what the run may do. The agent calls tools through the gateway, which reads that row on each call,
-- checks scopes, grants and the flow of information, records the call in the audit trail, and raises a
-- card for the human where it refuses. The human's decision on a card widens the row, a grant or the
-- agent. Grants and tokens are revoked, and the model is called through a proxy that reads the same
-- row.
--
-- Files, and the code they are about (under apps/server/src):
--   Types (types.ts): rows as records, string unions as data types.
--   Action, Store (store.ts, errors.ts): a handler is a function from the world to a result and the
--     next world; `mutate` keeps the data of a body that throws; `snapshot` is `read_db`.
--   Audit, Secrets (audit.ts, redact.ts): `recordEvent`, the redactor, and the four secret patterns,
--     each matched as its regular expression is, with alternatives written out.
--   Grants (grants.ts), Classify (classify.ts), Ifc and Ifc/Screen (ifc.ts).
--   Approvals (approvals.ts): the cards; Effects is what an answer changes, Answers `decideApproval`.
--   Gateway (gateway.ts): Context is `authenticate` and `audit`, Jail the path check, Checks the
--     guards, Cards the cards of refused calls, Tools the five tools and the request. Flow, Pipeline,
--     Outbound, Bodies, Trail, Reads, CrmReads, Powers, Leaks, Paths, Confined, Authentic and Isolated
--     hold the proofs about them.
--   Service (agent-service.ts): Ownership, Agents, Mint, Execution, Requests; Killing, Narrowing,
--     Closing and Recovery hold proofs.
--   Auth (auth.ts), LlmProxy (llm-proxy.ts), Workspace (workspace.ts) and Workspace/Files
--     (workspace-files.ts).
--   Store/Raw has the rows of the stored file, Store/Migration is `migrateDatabase` and
--     `loadFingerprints`, and Store/Stored what is written to the file.
--   Config (config.ts), and Ark with Ark/Estimator (scope-estimator.ts) and Ark/Intent (nl-grant.ts);
--     Ark/Least, Ark/Phrases and Ark/Quiet hold proofs.
--   Codex (codex-runner.ts): Events parses a line, Output reads the chunks, Outcome is the table of
--     processes and the end of a run, Container is container-codex-runner.ts and runner-factory.ts;
--     Lines, Chunks, Processes, Endings, Cancelling and Ceiling hold proofs.
--   Routes (app.ts): the routes and their gate; Routes/Handlers has their handlers, and Routes/Owned is
--     about the gate.
--   History: Steps has a step for each body of `mutate` but the one that resets the store for a
--     demonstration (seed.ts); Traces is what it means that a handler changes the store by such steps,
--     and Growth, Kept, Forever, Handlers, Calls and Runs hold proofs. Handlers that run at the same
--     time interleave their mutations, which is one sequence of steps.
--   Base and Text: lists, tests, optional values and texts that the files share. Tests: examples.
--
-- Choices. A timestamp is the number of milliseconds that its ISO text stands for; those texts are
-- ordered as the numbers. The clock and `randomUUID` are streams of the world, of which each call takes
-- the next; within one synchronous mutation the clock is read once. Texts are sequences of code points,
-- and case is that of ASCII; lengths count code points, but units of UTF-16 in Config, Codex, Ark and
-- Routes. What a process prints comes in chunks of bytes, and each chunk is decoded by itself. A path
-- is the stack of its segments, as `path.resolve` computes it; symbolic links are not followed. Every
-- function here ends by structural recursion, so there is no fuel.
--
-- Parameters, for code outside the repository or without a model: the signature check of tokens, the
-- digest of fingerprints, the tenant's records behind row-level security, the webhook sink, `fetch`,
-- `JSON.parse` and `JSON.stringify`, the decoding of a chunk of bytes, the schema of the environment,
-- the check of a UUID, and the tree and the bytes of a workspace's files. The service takes the runner,
-- the estimator and the parser of grant requests as it does in the source.
--
-- Not modelled: the rendering of answers as MCP messages, failures to write the store's file, failures
-- to write a file of a workspace (a folder of that name, a full disk) with the folders that are made
-- for it, signals and timers of processes, the shapes that zod checks, numbers in Codex's events that
-- are not natural, the database's own policies, seed and demonstration data, and the web client.
pub mod Base
pub mod Types
pub mod Text
pub mod Routes
pub mod Secrets
pub mod Action
pub mod Store
pub mod Audit
pub mod Grants
pub mod Classify
pub mod Ifc
pub mod Approvals
pub mod Ark
pub mod Codex
pub mod Config
pub mod Gateway
pub mod Workspace
pub mod Service
pub mod Auth
pub mod LlmProxy
pub mod History
pub mod Tests
