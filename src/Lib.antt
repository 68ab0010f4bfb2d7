-- ===== src/Lib.antt =====
-- The core of the AGOPS server, which lets agents pay, swap and deploy on Casper under the policies of
-- their organisations: the money, the policies, and who may change them.
--
-- The program's parts and how they interact. An org's policies are layered and compiled into one
-- effective policy (src/engines/control). A request to spend goes to the Casper Guard
-- (src/engines/casper-guard): it takes an idempotency lock, evaluates the intent against the policy,
-- reserves the amount in the agent's Redis keys (src/engines/ledger/window.ts with src/redis/lua),
-- inserts a decision and a hold in Postgres, looks at the kill switches once more, calls the signer
-- and marks the decision as signed. A worker reconciles signed decisions with what the chain says
-- and settles or releases their holds, and anchors what is settled. Provisioning
-- (src/engines/provisioning with src/engines/enforcement/allocation-eval.ts) gives agents their
-- float out of the org's budget and deposits, and takes it back when an agent retires. The policies
-- are rows of the Control store; a canvas (src/engines/control/graph-builder) is validated, compiled
-- and deployed to agents and policies of that store. Identity (src/engines/identity) says who calls a
-- route, in which org and with which role, and keeps an org's members, keys and invitations.
--
-- Which file models which part:
--   Prelude             shared names, Boolean tests, lists, equality as an interface
--   Control/Policy      src/engines/control/policy-compile.ts, policy types of src/contracts/index.ts
--   Control/Epoch       src/engines/control/epoch.ts, publish.ts, epoch-bump.lua and
--                       src/engines/enforcement/policy-epoch-guard.ts: the cache of policies
--   Ledger/Hot          src/engines/ledger/window.ts and the scripts reserve.lua,
--                       reserve-with-policy.lua, settle.lua, release.lua and window-sum.lua: `Hot` is
--                       one agent's keys, a function is one script
--   Guard/Intent        src/engines/casper-guard/types.ts
--   Guard/Evaluate      evaluateCasperGuardPolicy of policy.ts, quote-verification.ts
--   Guard/Store         src/engines/casper-guard/store.ts over the tables and CHECKs of
--                       src/db/migrations/0009_casper_guard.sql: `Db` is the decision and hold
--                       tables, a function is one statement or transaction
--   Guard/Authorize     authorizeCasperGuardIntent, resolveCasperGuardTerminalFailure and
--                       revokeAgentInFlight of policy.ts: `World` is the tables, every agent's keys,
--                       the kill switches, the locks and the calls of the signer
--   Guard/Reconcile     src/engines/casper-guard/reconcile-worker.ts and the anchors of store.ts
--   Guard/Stored        the stored intent of src/engines/casper-guard/types.ts and its fields
--   Guard/Settlement    src/lib/casper/settlement-reader.ts and the routing of src/config/casper-guard.ts
--   Provisioning/Book   allocation-eval.ts, deposit.ts, confirm.ts, teardown.ts and their scripts:
--                       `Book` is the keys of one org and its agents
--   Control/Store, Control/Layers
--                       src/engines/control/store.ts over src/db/migrations/0002_control.sql, and the
--                       agents' status of kill-switch.ts
--   Control/Canvas, Control/Graph, Control/Graph/Validate
--                       graph-builder/graph-schema.ts, compiler.ts and validate.ts
--   Control/Flow        trading-flow.ts and attach-trading-flow.ts
--   Control/Deploy      graph-builder/deploy.ts
--   Identity/Roles, Identity/Principal
--                       src/engines/identity/access/roles.ts, principal.ts and route-guard.ts
--   Identity/Tables, Identity/Invitations
--                       api-key-store.ts, membership-store.ts, members-store.ts, invitation-store.ts and
--                       account/session-store.ts: `Directory` is their tables
--   Identity/Handlers, Identity/Members
--                       org/members-routes.ts, access/api-key-routes.ts and the creation of an org:
--                       a `Request` is a call of a route, `serve` is its guard and handler
-- The children of these modules hold the proofs, and the modules called Tests small runs of the code.
-- A function of the model has the name of the source's function in snake_case.
--
-- Conventions. Amounts are natural numbers: the schemas let only canonical decimal strings through,
-- and the scripts of the spend windows compute on the strings exactly. The script that reserves an
-- allocation compares doubles: its test is a parameter, taken to be exact up to 2 ^ 53 where a theorem
-- says so. Identifiers, hashes and keys are numbers where the code only compares them. A Lua script and an SQL statement or transaction are one step each. Awaits of
-- the authorization are points where an arbitrary function changes the world; the other parts are
-- single calls, and their theorems are about every sequence of calls. A throw is a value. Loops run
-- over lists, and the one that retries has the five rounds of the source; the recursive query over the
-- teams takes a number of steps, of which one more than there are teams is enough.
--
-- Parameters that stand for code outside the repository: the signer, the trade quoter, the settlement
-- reader of a reconciliation and, of the live readers, the node, the facilitator and the trade client,
-- the anchorer, the decision hash, the digest of a token, the vault of the delegated keys, and
-- the answers of the payment gateway; and of Lua the test of the allocation script. Of that test the
-- solvency theorem assumes that it is exact up to 2 ^ 53, and of the others nothing is assumed but that
-- they are functions.
--
-- Not modelled: errors of the Redis and Postgres connections, the texts of messages, events and logs,
-- labels and other text that is only shown, the HTTP and MCP routes outside Identity, the parse of
-- cookies and of request bodies, passwords, mail and OAuth, custody and key storage, the org's kill
-- switch as a write, the JSON codec of the policies, and the clients of Casper nodes.
pub mod Prelude
pub mod Control
pub mod Ledger
pub mod Guard
pub mod Provisioning
pub mod Identity
