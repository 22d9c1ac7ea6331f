-- ===== src/Lib.antt =====
-- Constrails: a verification library of the agent safety kernel.
--
-- The program stands between an agent and its tools. A request names an agent, a tool and parameters. The
-- kernel asks the capability manager whether the agent's manifest permits the call, the risk engine for a
-- score and a level, and the policy engine for a decision; it makes its own decision of these, counts the
-- call against a quota, and then denies it, asks for an approval, or hands it to the broker, which calls the
-- adapter of the tool. What happened is written to an audit table whose rows form a hash chain. A granted
-- approval can be replayed. In front of the kernel stands an HTTP API that authenticates a request by a key or
-- a bearer token, and beside it a command line for operators.
--
-- The parts, and the files of the repository that they model:
--   Models, Config        src/constrail/models.py and config.py: the records and the settings.
--   Policy                src/constrail/policy/policy_engine.py: `evaluate`, `evaluate_simple`, `evaluate_opa`.
--   Capability            src/constrail/capability/manager.py: loading and lookup of manifests;
--                         Capability/Manager: `is_tool_allowed`; Capability/Paths: `os.path.normpath`.
--   CapabilityStore       src/constrail/capability_store.py: the stored manifests.
--   Audit                 `_log_audit` of src/constrail/kernel_v2.py; Audit/Verify: audit_verify.py and
--                         audit_checkpoint.py.
--   Risk                  src/constrail/risk/risk_engine.py.
--   RateLimits            src/constrail/rate_limits.py.
--   Approval              src/constrail/approval.py: rows and webhooks; Approval/Outbox: the outbox, its worker,
--                         `create_request`, `decide`, `retry_webhook`; Approval/Queries: what only reads.
--   Sandbox               src/constrail/sandbox.py: `sandbox_health`, `enforce_sandbox_posture`.
--   Broker                src/constrail/tool_broker/broker.py.
--   Kernel                src/constrail/kernel_v2.py: Kernel/Process is `process`, cut at its branches, and
--                         Kernel/Replay is `replay_approved` with src/constrail/sandbox_records.py.
--   Auth                  src/constrail/auth.py; Auth/Bearer: tokens; Auth/Steps: the calls that write, as a step relation.
--   Adapters              src/constrail/adapters: Adapters/Exec, Adapters/Filesystem, Adapters/Http; Adapters/Docker:
--                         the executors of src/constrail/sandbox.py.
--   Api                   src/constrail/kernel.py: credentials; Api/Actions, Api/Approvals, Api/Listings,
--                         Api/Monitoring: the handlers.
--   Metrics               src/constrail/metrics.py.
--   Cli                   src/constrail/cli.py: the commands for approvals and manifests.
--   Prelude               shared tests, lists, texts, and a stable sort.
--   Examples              concrete data and examples.
-- The other files hold what is proved, named for it.
--
-- Tables are lists of records, in the order of insertion, and an operation takes a table and gives the next
-- one. A query with an order is a stable sort. Operations run one after another, each with one reading of
-- the clock and with fresh identifiers as arguments; concurrent sessions are not modelled. Times are
-- microseconds and never negative. The loop of `approval-worker-serve` runs on fuel, of which one more than
-- the bound on its cycles is enough; every other loop runs over a list or counts down the cycles of the worker.
--
-- Code outside the repository is a parameter: the hash of an audit payload (`digest`), the receiver of
-- webhooks and the addresses that urllib refuses (`net`), the database's comparison of an enum column with
-- a text (`decision_filter`), the reply of the policy server (`OpaReply`), the host of an address
-- (`hostname`), Python's `str` of a value (`text_of`), float arithmetic with the laws of comparison that
-- are used (`Floats`), the docker command and socket of the host (`Host`), the JWT library (`Jwt`), the
-- file system (`Files`), the HTTP client, the processes of the sandbox, and, where the kernel is
-- concerned, what an adapter does with a call (`Adapter`). A trace lists the calls that adapters were
-- given, the last first.
--
-- Not modelled: the routing and the validation of the web framework, the health route, the commands that
-- only print, the interrupt that stops the worker service, the database's connections and failures (but
-- for the audit row that is dropped and the key that is there already), migrations, and log output.
pub mod Prelude
pub mod Models
pub mod Config
pub mod Policy
pub mod Capability
pub mod Audit
pub mod Risk
pub mod RateLimits
pub mod Approval
pub mod Sandbox
pub mod Broker
pub mod CapabilityStore
pub mod Auth
pub mod Adapters
pub mod Api
pub mod Cli
pub mod Kernel
pub mod Metrics
pub mod Examples
