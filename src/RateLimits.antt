-- ===== src/RateLimits.antt =====
-- src/constrail/rate_limits.py: quota events, the burst check, pruning and the summaries.
-- `now` is the clock's reading; datetimes count microseconds. The threshold tables are read as
-- parsed (Config). Of a listed event all fields but the row's number are modelled, and the sorted
-- sets of names in the summary are left out.
pub mod Laws
pub mod Tallies
use constrails.Prelude.{
  ℕ, ◌+◌, ◌-◌, ◌*◌, String, Bool, true, false, ◌&&◌, Option, none, some, List, [], ◌∷◌, ◌++◌, ◌==◌,
  if◌then◌else◌, ltb, leb, not, opt_eq, truthy, or_default, count, keep, lookup, insert, length,
  take, sort_by,
}
use constrails.Models.{Time}
use constrails.Config.{Settings}

pub record QuotaEvent : Type 0 where
  pub agent_id : String
  pub tenant_id : Option String
  pub tool : String
  pub event_type : String
  pub created_at : Time

pub record QuotaResult : Type 0 where
  pub agent_id : String
  pub tenant_id : Option String
  pub tool : String
  pub event_type : String
  pub window_seconds : ℕ
  pub agent_count : ℕ
  pub tool_count : ℕ
  pub blocked : Bool
  pub effective_threshold : ℕ
  pub threshold_scope : String
  pub tool_threshold : Option ℕ
  pub tenant_threshold : Option ℕ

-- A table that does not parse is empty.
unfoldable pub thresholds : Option (List (String × ℕ)) → List (String × ℕ)
thresholds none = []
thresholds (some m) = m

abbrev pub seconds : ℕ → Time
seconds n = n * 1000000

abbrev pub since : Time → QuotaEvent → Bool
since start e = leb start e.created_at

abbrev pub of_agent : String → Time → QuotaEvent → Bool
of_agent agent_id start e = e.agent_id == agent_id && since start e

abbrev pub of_tool : String → String → Time → QuotaEvent → Bool
of_tool agent_id tool start e = e.agent_id == agent_id && (e.tool == tool && since start e)

abbrev pub tenant_threshold_of : Settings → Option String → Option ℕ
tenant_threshold_of settings none = none
tenant_threshold_of settings (some t) =
    if t == "" then none else lookup t (thresholds settings.rate_limit_tenant_thresholds)

abbrev pub tool_threshold_of : Settings → String → Option ℕ
tool_threshold_of settings tool = lookup tool (thresholds settings.rate_limit_tool_thresholds)

-- The threshold, its scope and the verdict, from the two counts.
abbrev pub verdict : ℕ → Option ℕ → Option ℕ → ℕ → ℕ → ℕ × String × Bool
verdict default (some tenant) tool scoped_count tool_count =
    (tenant, "tenant", ltb tenant scoped_count)
verdict default none (some tool) scoped_count tool_count = (tool, "tool", ltb tool tool_count)
verdict default none none scoped_count tool_count = (default, "default", ltb default scoped_count)

unfoldable pub record_and_check :
    Settings
    → Time
    → String
    → Option String
    → String
    → String
    → List QuotaEvent
    → QuotaResult × List QuotaEvent
record_and_check settings now agent_id tenant_id tool event_type events =
    let window_start = now - seconds settings.rate_limit_window_seconds in
    let row : QuotaEvent = record {
      agent_id = agent_id;
      tenant_id = tenant_id;
      tool = tool;
      event_type = event_type;
      created_at = now;
    } in
    let stored = events ++ row ∷ [] in
    let scoped_count = count (of_agent agent_id window_start) stored in
    let tool_count = count (of_tool agent_id tool window_start) stored in
    let tool_threshold = tool_threshold_of settings tool in
    let tenant_threshold = tenant_threshold_of settings tenant_id in
    let v =
      verdict settings.anomaly_burst_threshold tenant_threshold tool_threshold scoped_count
        tool_count in
    (
      record {
        agent_id = agent_id;
        tenant_id = tenant_id;
        tool = tool;
        event_type = event_type;
        window_seconds = settings.rate_limit_window_seconds;
        agent_count = scoped_count;
        tool_count = tool_count;
        blocked = v.2;
        effective_threshold = v.0;
        threshold_scope = v.1;
        tool_threshold = tool_threshold;
        tenant_threshold = tenant_threshold;
      },
      stored,
    )

-- An optional filter of a query: `None`, and an empty text, filter nothing.
abbrev filter_text : Option String → String → Bool
filter_text none s = true
filter_text (some f) s = if f == "" then true else s == f

abbrev filter_tenant : Option String → Option String → Bool
filter_tenant f t = if truthy f then opt_eq t f else true

abbrev recent : Time → Option ℕ → QuotaEvent → Bool
recent now none e = true
recent now (some n) e = if ltb 0 n then since (now - seconds n) e else true

abbrev newest_first : QuotaEvent → QuotaEvent → Bool
newest_first a b = leb b.created_at a.created_at

unfoldable pub list_events :
    Time
    → Option String
    → Option String
    → Option String
    → Option ℕ
    → ℕ
    → List QuotaEvent
    → List QuotaEvent
list_events now agent_id tenant_id tool limit_seconds limit events = take limit (
    sort_by newest_first (
      keep
        (λ e.
          filter_text agent_id e.agent_id
          && (filter_tenant tenant_id e.tenant_id
              && (filter_text tool e.tool && recent now limit_seconds e)))
        events))

-- `prune_events`: how many rows were deleted, and those that stay.
unfoldable pub prune_events : Time → ℕ → List QuotaEvent → ℕ × List QuotaEvent
prune_events now older_than_seconds events =
    let cutoff = now - seconds older_than_seconds in
    (count (λ e. not (since cutoff e)) events, keep (since cutoff) events)

-- `counts[key] = counts.get(key, 0) + 1`
abbrev pub get_count : Option ℕ → ℕ
get_count none = 0
get_count (some n) = n

unfoldable pub tally :
    (QuotaEvent → String) → List (String × ℕ) → List QuotaEvent → List (String × ℕ)
tally key counts [] = counts
tally key counts (row ∷ rows) =
    tally key (insert (key row) (get_count (lookup (key row) counts) + 1) counts) rows

pub record QuotaSummary : Type 0 where
  pub total_events : ℕ
  pub per_tool : List (String × ℕ)
  pub per_tenant : List (String × ℕ)

abbrev pub tenant_key : QuotaEvent → String
tenant_key e = or_default e.tenant_id "default"

-- The rows that the summary's query selects.
unfoldable pub selected :
    Time → Option String → Option String → Option ℕ → List QuotaEvent → List QuotaEvent
selected now agent_id tenant_id limit_seconds events =
    keep
      (λ e.
        filter_text agent_id e.agent_id
        && (filter_tenant tenant_id e.tenant_id && recent now limit_seconds e))
      events

unfoldable pub summary :
    Time → Option String → Option String → Option ℕ → List QuotaEvent → QuotaSummary
summary now agent_id tenant_id limit_seconds events =
    let rows = selected now agent_id tenant_id limit_seconds events in
    record {
      total_events = length rows;
      per_tool = tally (λ e. e.tool) [] rows;
      per_tenant = tally tenant_key [] rows;
    }
