-- ===== src/Broker/Laws.antt =====
-- What the broker dispatches.
use constrails.Prelude.{String, none, [], ◌∷◌, ◌≡◌, ◌≢◌, ◌⊎◌, arith, lookup, concat}
use constrails.Models.{ToolCall, allow, sandbox}
use constrails.Config.{Settings}
use constrails.Sandbox.{Host, enforce_sandbox_posture}
use constrails.Broker.{Adapters, ExecutionContext, Trace, execute, execute_direct, execute_sandbox}

module _ (settings : Settings) (host : Host) (adapters : Adapters) (call : ToolCall)
    (context : ExecutionContext) (trace : Trace) where
  abbrev operation : String
  operation = concat ("sandboxed tool '" ∷ call.tool ∷ "'" ∷ [])

  -- When the broker hands a call to an adapter.
  abbrev pub Dispatches : Type 0
  Dispatches =
      (lookup call.tool adapters ≢ none)
      × ((context.decision ≡ allow)
          ⊎ (context.decision ≡ sandbox) × (enforce_sandbox_posture settings host operation ≡ none))

  dispatched : Dispatches → (execute settings host adapters call context trace).1 ≡ call ∷ trace
  unfolding execute execute_sandbox execute_direct
  dispatched d = ground arith

  not_dispatched : ¬ Dispatches → (execute settings host adapters call context trace).1 ≡ trace
  unfolding execute execute_sandbox execute_direct
  not_dispatched n = ground (arith, n)

  pub execute_trace_cases :
      ((execute settings host adapters call context trace).1 ≡ trace)
      ⊎ ((execute settings host adapters call context trace).1 ≡ call ∷ trace)
  unfolding execute execute_sandbox execute_direct
  execute_trace_cases = ground arith

  -- A call is handed to an adapter, once, if an adapter is registered for its tool, and the decision is
  -- to allow it, or to sandbox it where the posture is not refused. Otherwise no adapter is reached.
  pub execute_trace :
      (Dispatches → (execute settings host adapters call context trace).1 ≡ call ∷ trace)
      × (¬ Dispatches → (execute settings host adapters call context trace).1 ≡ trace)
  execute_trace = (dispatched, not_dispatched)
