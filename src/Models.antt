-- ===== src/Models.antt =====
-- src/constrail/models.py: the data that the components pass to one another.
-- A UUID and a datetime are numbers. A Python float is its 64-bit pattern, a number too: what the
-- arithmetic on such patterns is, is a parameter of the one component that computes with them.
use constrails.Prelude.{ℕ, ℤ, Bool, String, Option, List}

abbrev pub Uuid : Type 0
Uuid = ℕ

-- Microseconds since a fixed date.
abbrev pub Time : Type 0
Time = ℕ

abbrev pub Float : Type 0
Float = ℕ

-- The values of JSON, as Python holds them.
mutual
  pub data Value : Type 0 where
    null : Value
    bool : Bool → Value
    int : ℤ → Value
    float : Float → Value
    str : String → Value
    obj : Fields → Value
    arr : Items → Value

  pub data Fields : Type 0 where
    end : Fields
    field : String → Value → Fields → Fields

  pub data Items : Type 0 where
    nil : Items
    cons : Value → Items → Items

-- Dict[str, Any]
abbrev pub Dict : Type 0
Dict = List (String × Value)

pub record AgentIdentity : Type 0 where
  pub agent_id : String
  pub tenant_id : Option String
  pub namespace : Option String
  pub session_id : Option String
  pub capability_hash : Option String
  pub trust_level : Float

pub record ToolCall : Type 0 where
  pub tool : String
  pub parameters : Dict
  pub call_id : Uuid

-- What kernel.py writes under the key "auth" of the context.
pub record AuthContext : Type 0 where
  pub auth_type : Option String
  pub auth_subject : Option String
  pub auth_token_id : Option String
  pub auth_key_id : Option String
  pub role : Option String

-- The context: its entry "auth", which the API sets, and the entries that the agent sent.
pub record Context : Type 0 where
  pub auth : Option AuthContext
  pub entries : Dict

pub record ActionRequest : Type 0 where
  pub agent : AgentIdentity
  pub call : ToolCall
  pub context : Context
  pub request_id : Uuid
  pub timestamp : Time

pub data RiskLevel : Type 0 where
  low medium high critical : RiskLevel

pub data Decision : Type 0 where
  allow deny approval_required sandbox quarantine : Decision

pub data ToolResultStatus : Type 0 where
  success error blocked timeout : ToolResultStatus

pub record ToolResult : Type 0 where
  pub success : Bool
  pub error : Option String
  pub payload : Option Value
  pub metadata : Dict
  pub status : ToolResultStatus

pub record RiskAssessment : Type 0 where
  pub score : Float
  pub level : RiskLevel
  pub factors : List String
  pub explanation : Option String

pub record PolicyEvaluation : Type 0 where
  pub decision : Decision
  pub rule_ids : List String
  pub message : Option String

-- `approval_url` is the address /v1/approval/<id>, given by its id.
pub record ActionResponse : Type 0 where
  pub request_id : Uuid
  pub decision : Decision
  pub result : Option ToolResult
  pub error : Option String
  pub approval_id : Option Uuid
  pub approval_url : Option Uuid
  pub sandbox_id : Option String
