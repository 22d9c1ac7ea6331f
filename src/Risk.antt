-- ===== src/Risk.antt =====
-- src/constrail/risk/risk_engine.py: the risk score and level of a request.
-- Python's float arithmetic, its formatting and `str` of a context are parameters (`Floats`); the laws
-- that the theorems use are those of IEEE 754 comparison.
pub mod Laws
pub mod Chain
use constrails.Prelude.{
  ℕ, String, Bool, true, false, not, ◌&&◌, ◌||◌, Option, none, some, List, [], ◌∷◌, ◌++◌, map, ◌≡◌,
  ◌==◌, if◌then◌else◌, any, keep, take, lookup, insert, member, concat, contains, codes, lower,
  occurs_in, sort_by, leb,
}
use constrails.Models.{
  Float, Value, str, Dict, Context, ActionRequest, RiskLevel, low, medium, high, critical,
  RiskAssessment,
}
use constrails.Config.{Settings}
use constrails.Audit.{AuditRecord}

pub record Floats : Type 0 where
  pub add : Float → Float → Float
  pub sub : Float → Float → Float
  pub mul : Float → Float → Float
  -- `a < b` and `a >= b`
  pub lt : Float → Float → Bool
  pub ge : Float → Float → Bool
  pub repr : Float → String
  -- f"{x:.2f}"
  pub fixed2 : Float → String
  pub context_text : Context → List ℕ
  pub lt_irrefl : (a : Float) → lt a a ≡ false
  pub lt_asymm : (a b : Float) → lt a b ≡ true → lt b a ≡ false
  pub ge_trans : (a b c : Float) → ge a b ≡ true → ge b c ≡ true → ge a c ≡ true
  pub zero_lt_one : lt 0 0x3FF0000000000000 ≡ true

-- The literals of the source, as 64-bit patterns.
abbrev pub f_zero : Float
f_zero = 0

abbrev f_tenth : Float
f_tenth = 0x3FB999999999999A

abbrev f_two_tenths : Float
f_two_tenths = 0x3FC999999999999A

abbrev f_three_tenths : Float
f_three_tenths = 0x3FD3333333333333

abbrev pub f_chain : Float
f_chain = 0x3FD6666666666666

abbrev f_four_tenths : Float
f_four_tenths = 0x3FD999999999999A

abbrev f_half : Float
f_half = 0x3FE0000000000000

abbrev pub f_one : Float
f_one = 0x3FF0000000000000

pub record Profile : Type 0 where
  pub base_risk : Float
  pub category : String

abbrev profile : Float → String → Profile
profile base_risk category = record { base_risk = base_risk; category = category }

abbrev default_profiles : List (String × Profile)
default_profiles =
    ("read_file", profile f_tenth "filesystem")
    ∷ ("write_file", profile 0x3FE3333333333333 "filesystem")
    ∷ ("delete_file", profile 0x3FE999999999999A "filesystem")
    ∷ ("exec", profile 0x3FECCCCCCCCCCCCD "execution")
    ∷ ("shell", profile f_one "execution")
    ∷ ("network_request", profile f_half "network")
    ∷ ("database_query", profile f_four_tenths "data_access")
    ∷ ("send_message", profile f_three_tenths "communication")
    ∷ []

-- `default_profiles.update(loaded)`
unfoldable pub update {ℓ} : {V : Type ℓ} → List (String × V) → List (String × V) → List (String × V)
update m [] = m
update m ((k, v) ∷ more) = update (insert k v m) more

-- `none`: there is no profiles file, or it cannot be read.
unfoldable pub load_tool_risk_profiles : Option (List (String × Profile)) → List (String × Profile)
unfolding update
load_tool_risk_profiles none = default_profiles
load_tool_risk_profiles (some loaded) = update default_profiles loaded

unfoldable pub later_start : AuditRecord → AuditRecord → Bool
later_start a b = leb b.start_time a.start_time

-- `_recent_agent_tools`, where the database answers; where it does not, the rows are the empty list.
unfoldable pub recent_agent_tools : Settings → List AuditRecord → String → List String
recent_agent_tools settings rows agent_id =
    map (λ r. r.tool)
      (take settings.exfiltration_lookback_limit
        (sort_by later_start (keep (λ r. r.agent_id == agent_id) rows)))

-- A text value in which one of the words occurs.
abbrev has_word : List String → String × Value → Bool
has_word words (k, str s) = any (λ w. contains s w) words
has_word words (k, v) = false

abbrev has_sensitive_key : String × Value → Bool
has_sensitive_key (k, v) =
    any (λ w. occurs_in (codes w) (lower (codes k))) ("password" ∷ "secret" ∷ "key" ∷ "token" ∷ [])

abbrev pub profile_of : List (String × Profile) → String → Profile
profile_of profiles tool = elim (lookup tool profiles) [
  | none ↦ profile f_half "unknown"
  | some p ↦ p
]

module _ (floats : Floats) where
  open floats use {add, sub, mul, lt, ge, repr, fixed2, context_text}

  -- Python's `min` keeps its first argument unless the second is smaller, and so `max`.
  abbrev pub min_float : Float → Float → Float
  min_float a b = if lt b a then b else a

  abbrev pub max_float : Float → Float → Float
  max_float a b = if lt a b then b else a

  unfoldable pub category_risk : Dict → String → Float
  category_risk params category =
      if category == "filesystem"
      then (if any (has_word (".." ∷ "/" ∷ "\\" ∷ [])) params
          then add f_zero f_three_tenths
          else f_zero)
      else if category == "execution"
      then (if any (has_word ("|" ∷ "&" ∷ ";" ∷ [])) params then add f_zero f_half else f_zero)
      else if category == "network"
      then (if any (has_word ("http://" ∷ "https://" ∷ [])) params
          then add f_zero f_two_tenths
          else f_zero)
      else f_zero

  unfoldable pub assess_parameters : Dict → String → Float
  unfolding category_risk
  assess_parameters params category =
      let risk = category_risk params category in
      min_float (if any has_sensitive_key params then add risk f_four_tenths else risk) f_one

  unfoldable pub assess_request_chain : Settings → List AuditRecord → ActionRequest → Float
  assess_request_chain settings rows request =
      if not settings.exfiltration_read_then_network_enabled
      then f_zero
      else if not (request.call.tool == "http_request")
      then f_zero
      else if any (λ tool. member tool ("read_file" ∷ "list_directory" ∷ []))
          (recent_agent_tools settings rows request.agent.agent_id)
      then f_chain
      else f_zero

  unfoldable pub assess_context : Context → Float
  assess_context context =
      let text = lower (context_text context) in
      if any (λ phrase. occurs_in (codes phrase) text)
        ("delete" ∷ "destroy" ∷ "exfiltrate" ∷ "steal" ∷ "hack" ∷ "bypass" ∷ [])
      then f_half
      else f_zero

  abbrev pub clamp : Float → Float
  clamp score = max_float f_zero (min_float f_one score)

  unfoldable pub level_of : Settings → Float → RiskLevel
  level_of settings score =
      if ge score settings.risk_threshold_critical
      then critical
      else if ge score settings.risk_threshold_high
      then high
      else if ge score settings.risk_threshold_medium
      then medium
      else low

  -- The sum of the five parts, before the clamp.
  unfoldable pub raw_score : Settings → Profile → List AuditRecord → ActionRequest → Float
  unfolding assess_parameters assess_context assess_request_chain
  raw_score settings p rows request =
      let s1 = add f_zero (mul p.base_risk f_four_tenths) in
      let s2 = add s1 (mul (sub f_one request.agent.trust_level) f_three_tenths) in
      let s3 = add s2 (mul (assess_parameters request.call.parameters p.category) f_two_tenths) in
      let s4 = add s3 (mul (assess_context request.context) f_tenth) in
      add s4 (assess_request_chain settings rows request)

  unfoldable pub assess :
      Settings → List (String × Profile) → List AuditRecord → ActionRequest → RiskAssessment
  unfolding raw_score level_of
  assess settings profiles rows request =
      let tool = request.call.tool in
      let p = profile_of profiles tool in
      let param_risk = assess_parameters request.call.parameters p.category in
      let context_risk = assess_context request.context in
      let chain_risk = assess_request_chain settings rows request in
      let score = clamp (raw_score settings p rows request) in
      record {
        score = score;
        level = level_of settings score;
        factors =
            (concat ("tool_" ∷ tool ∷ "_base_risk:" ∷ repr p.base_risk ∷ [])
              ∷ concat ("agent_trust:" ∷ repr request.agent.trust_level ∷ [])
              ∷ concat ("parameter_risk:" ∷ fixed2 param_risk ∷ [])
              ∷ [])
            ++ (if lt f_zero context_risk then "context_sensitive" ∷ [] else [])
            ++ (if lt f_zero chain_risk
                then concat ("chain_risk:" ∷ fixed2 chain_risk ∷ []) ∷ []
                else []);
        explanation = some (
            concat (
              "Risk score "
              ∷ fixed2 score
              ∷ " derived from tool '"
              ∷ tool
              ∷ "' (base "
              ∷ repr p.base_risk
              ∷ "), agent trust "
              ∷ repr request.agent.trust_level
              ∷ ", parameter risk "
              ∷ fixed2 param_risk
              ∷ "."
              ∷ []));
      }
