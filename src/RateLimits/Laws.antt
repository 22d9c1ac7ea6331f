-- ===== src/RateLimits/Laws.antt =====
-- When a call is blocked, and that pruning does not change it.
use constrails.Prelude.{
  ℕ, ◌+◌, ◌-◌, ◌*◌, ◌==◌, ◌&&◌, ◌≤◌, String, Bool, true, not, Option, none, some, List, [], ◌∷◌,
  ◌++◌, ◌≡◌, ◌↔◌, refl, eq_refl, leb, le→leb, count, keep, count-append, count_mono, arith, length,
  length-append,
}
use constrails.Models.{Time}
use constrails.Config.{Settings}
use constrails.RateLimits.{
  QuotaEvent, QuotaResult, seconds, since, of_agent, of_tool, tenant_threshold_of,
  tool_threshold_of, verdict, record_and_check, prune_events,
}

module _ (settings : Settings) (now : Time) (agent_id : String) (tenant_id : Option String)
    (tool : String) (event_type : String) where
  abbrev start : Time
  start = now - settings.rate_limit_window_seconds * 1000000

  -- The limit that holds for the call: the tenant's, or else the tool's, or else the default.
  abbrev pub limit_for : Option ℕ → Option ℕ → ℕ
  limit_for (some tenant) t = tenant
  limit_for none (some t) = t
  limit_for none none = settings.anomaly_burst_threshold

  -- The events of the agent in the window, and those with the tool.
  abbrev pub of_the_agent : QuotaEvent → Bool
  of_the_agent e = e.agent_id == agent_id && leb start e.created_at

  abbrev pub of_the_tool : QuotaEvent → Bool
  of_the_tool e = e.agent_id == agent_id && (e.tool == tool && leb start e.created_at)

  -- The events in the window before the call that count against that limit: the agent's, and where the
  -- limit is a tool's, those of the agent with the tool.
  abbrev pub prior_for : Option ℕ → Option ℕ → List QuotaEvent → ℕ
  prior_for (some tenant) t events = count of_the_agent events
  prior_for none (some t) events = count of_the_tool events
  prior_for none none events = count of_the_agent events

  abbrev pub check : List QuotaEvent → QuotaResult × List QuotaEvent
  check = record_and_check settings now agent_id tenant_id tool event_type

  abbrev row : QuotaEvent
  row = record {
    agent_id = agent_id;
    tenant_id = tenant_id;
    tool = tool;
    event_type = event_type;
    created_at = now;
  }

  start_le : leb start now ≡ true
  start_le = le→leb start now (omega arith)

  count_row : count (of_agent agent_id start) (row ∷ []) ≡ 1
  unfolding count
  count_row = rw (eq_refl agent_id, start_le)

  count_tool_row : count (of_tool agent_id tool start) (row ∷ []) ≡ 1
  unfolding count
  count_tool_row = rw (eq_refl agent_id, eq_refl tool, start_le)

  agent_count_lem :
      (events : List QuotaEvent)
      → (check events).0.agent_count ≡ count (of_agent agent_id start) events + 1
  unfolding record_and_check
  agent_count_lem events = rw (count-append, count_row)

  tool_count_lem :
      (events : List QuotaEvent)
      → (check events).0.tool_count ≡ count (of_tool agent_id tool start) events + 1
  unfolding record_and_check
  tool_count_lem events = rw (count-append, count_tool_row)

  verdict-blocked_iff :
      (tenant tool_limit : Option ℕ) (events : List QuotaEvent)
      → ((verdict settings.anomaly_burst_threshold tenant tool_limit
            (count (of_agent agent_id start) events + 1)
            (count (of_tool agent_id tool start) events + 1)).2
          ≡ true)
        ↔ (limit_for tenant tool_limit ≤ prior_for tenant tool_limit events)
  verdict-blocked_iff (some tenant) tool_limit events = ground arith
  verdict-blocked_iff none (some tool_limit) events = ground arith
  verdict-blocked_iff none none events = ground arith

  -- A call is blocked exactly if the events in the window before it, those that count against its
  -- limit, are as many as the limit or more. The limit is the tenant's if it has one, or else the
  -- tool's if it has one, or else the default, and only the tool's counts the tool's events alone.
  pub record_and_check-blocked_iff :
      (events : List QuotaEvent)
      → ((check events).0.blocked ≡ true) ↔ (
          limit_for (tenant_threshold_of settings tenant_id) (tool_threshold_of settings tool)
          ≤ prior_for
              (tenant_threshold_of settings tenant_id)
              (tool_threshold_of settings tool)
              events)
  unfolding record_and_check
  record_and_check-blocked_iff events =
      rw (count-append, count_row, count-append, count_tool_row)
        (verdict-blocked_iff (tenant_threshold_of settings tenant_id)
          (tool_threshold_of settings tool) events)

  -- The counts that a check reports are those of the window with the call itself: at least one event of
  -- the agent with the tool, and no more of those than of the agent; one event more is stored.
  pub record_and_check_counts :
      (events : List QuotaEvent)
      → (1 ≤ (check events).0.tool_count)
        × ((check events).0.tool_count ≤ (check events).0.agent_count)
        × (length (check events).1 ≡ length events + 1)
  unfolding record_and_check
  record_and_check_counts events = (
    omega (arith, tool_count_lem events),
    count_mono (of_tool agent_id tool start) (of_agent agent_id start) (events ++ row ∷ [])
        (λ e h. ground arith),
    length-append events (row ∷ []),
  )

-- Keeping the rows of one test does not change the count of a test that implies it.
count-keep :
    (p q : QuotaEvent → Bool) (events : List QuotaEvent)
    → ((e : QuotaEvent) → p e ≡ true → q e ≡ true)
    → count p (keep q events) ≡ count p events
unfolding count keep
count-keep p q [] h = refl
count-keep p q (e ∷ events) h = ground (arith, count-keep p q events h, h e)

count-add-keep :
    (q : QuotaEvent → Bool) (events : List QuotaEvent)
    → count (λ e. not (q e)) events + length (keep q events) ≡ length events
unfolding count keep
count-add-keep q [] = refl
count-add-keep q (e ∷ events) = ground (arith, count-add-keep q events)

-- Pruning deletes what it counts, and nothing else: the deleted and the kept rows are all the rows.
pub prune_events-length :
    (now : Time) (older_than_seconds : ℕ) (events : List QuotaEvent)
    → (prune_events now older_than_seconds events).0
        + length (prune_events now older_than_seconds events).1
      ≡ length events
unfolding prune_events
prune_events-length now older events = count-add-keep (since (now - seconds older)) events

-- Pruning the rows that are older than a duration at least as long as the window does not change the
-- result of a check that is made at the same time or later.
pub record_and_check-prune_events :
    (settings : Settings) (pruned now : Time) (older_than_seconds : ℕ) (agent_id : String)
    (tenant_id : Option String) (tool event_type : String) (events : List QuotaEvent)
    → pruned ≤ now
    → settings.rate_limit_window_seconds ≤ older_than_seconds
    → (record_and_check settings now agent_id tenant_id tool event_type
        (prune_events pruned older_than_seconds events).1).0
      ≡ (record_and_check settings now agent_id tenant_id tool event_type events).0
unfolding record_and_check prune_events
record_and_check-prune_events settings pruned now older agent_id tenant_id tool event_type events h
      w =
    let start = now - seconds settings.rate_limit_window_seconds in
    let cutoff = pruned - seconds older in
    let later : cutoff ≤ start = omega arith in
    rw (
      count-append (of_agent agent_id start),
      count-append (of_tool agent_id tool start),
      count-keep (of_agent agent_id start) (since cutoff) events (λ e k. ground arith),
      count-keep (of_tool agent_id tool start) (since cutoff) events (λ e k. ground arith),
      ← count-append (of_agent agent_id start),
      ← count-append (of_tool agent_id tool start),
    )
