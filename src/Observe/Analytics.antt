-- ===== src/Observe/Analytics.antt =====
-- The page of frontend/src/features/analytics/pages/AnalyticsPage.tsx: its counters and the bars of
-- its distributions.
use workflow_enterprise_comp.Prelude.{
  ℕ, ◌+◌, ◌≤◌, ◌<◌, String, Bool, Option, none, some, List, [], ◌∷◌, map, str_eq, get_or,
  if◌then◌else◌, leb, length, ◌==◌, All, arith, ◌||◌,
}
use workflow_enterprise_comp.Constants.{Meta, Tone, neutral, info, success, warning, danger, lookup}
use workflow_enterprise_comp.Entities.{CountPair, AnalyticsSummary}
use workflow_enterprise_comp.Session.{AuthState, can}
use workflow_enterprise_comp.Paths.Perm.{Perm, route}
use workflow_enterprise_comp.Services.Observe.{
  Summary, summary, compliances, audits, violations, deadlines,
}
use workflow_enterprise_comp.Pages.Cells.{meta_of}

abbrev pub total_labels : List (String × String)
total_labels =
    ("regulations", "Regulations")
    ∷ ("compliances", "Compliances")
    ∷ ("audits", "Audits")
    ∷ ("checklists", "Checklists")
    ∷ ("alerts", "Alerts")
    ∷ ("reports", "Reports")
    ∷ ("violations", "Violations")
    ∷ ("corrective_actions", "Corrective actions")
    ∷ ("deadlines", "Deadlines")
    ∷ ("audit_logs", "Audit log entries")
    ∷ []

-- Which of the five queries are made. The summary is asked for where the user may read the summary
-- or the compliances.
unfoldable pub enabled : AuthState → Summary → Bool
enabled a summary = can a (route Perm.analytics_summary) || can a (route Perm.analytics_compliances)
enabled a compliances = can a (route Perm.analytics_compliances)
enabled a audits = can a (route Perm.analytics_audits)
enabled a violations = can a (route Perm.analytics_violations)
enabled a deadlines = can a (route Perm.analytics_deadlines)

-- `map[key] = count`: a later count of a key takes the place of the earlier one.
unfoldable pub put : String → ℕ → List (String × ℕ) → List (String × ℕ)
put key count [] = (key, count) ∷ []
put key count ((k, n) ∷ m) = if str_eq k key then (k, count) ∷ m else (k, n) ∷ put key count m

unfoldable pub totals_from : List (String × ℕ) → List CountPair → List (String × ℕ)
unfolding put
totals_from m [] = m
totals_from m (t ∷ ts) = totals_from (put t.key t.count m) ts

abbrev counted : Option AnalyticsSummary → List CountPair
counted none = []
counted (some s) = s.totals

unfoldable pub totals : Option AnalyticsSummary → List (String × ℕ)
unfolding totals_from
totals answer = totals_from [] (counted answer)

unfoldable pub sum : List (String × ℕ) → ℕ
sum [] = 0
sum ((k, n) ∷ m) = n + sum m

-- The counter of all records.
unfoldable pub total_records : Option AnalyticsSummary → ℕ
unfolding totals sum
total_records answer = sum (totals answer)

-- The counters by entity, in the order of the labels.
unfoldable pub entity_counts : Option AnalyticsSummary → List (String × ℕ)
unfolding totals lookup
entity_counts answer = map (λ l. (l.1, get_or (lookup l.0 (totals answer)) 0)) total_labels

abbrev pub max2 : ℕ → ℕ → ℕ
max2 a b = if leb a b then b else a

-- `Math.max(1, …)`.
unfoldable pub max_count : List CountPair → ℕ
max_count [] = 1
max_count (d ∷ ds) = max2 d.count (max_count ds)

pub record Bar : Type 0 where
  pub label : String
  pub tone : Tone
  pub count : ℕ
  -- The width is count / max of the whole.
  pub max : ℕ

unfoldable pub bar : List (String × Meta) → ℕ → CountPair → Bar
bar meta max d = record {
  label = (meta_of meta d.key).label;
  tone = (meta_of meta d.key).tone;
  count = d.count;
  max = max;
}

pub data Distribution : Type 0 where
  bars_loading no_records : Distribution
  bars : List Bar → Distribution

abbrev bars_or_none : List (String × Meta) → Option (List CountPair) → Distribution
bars_or_none meta none = no_records
bars_or_none meta (some ds) =
    if length ds == 0 then no_records else bars (map (bar meta (max_count ds)) ds)

unfoldable pub distribution : List (String × Meta) → Bool → Option (List CountPair) → Distribution
unfolding max_count bar
distribution meta loading data? = if loading then bars_loading else bars_or_none meta data?

unfoldable pub tone_class : Tone → String
tone_class neutral = "bg-slate-400"
tone_class info = "bg-primary-500"
tone_class success = "bg-success-500"
tone_class warning = "bg-warning-500"
tone_class danger = "bg-danger-500"

-- A bar is drawn by a share of the whole that is not above it.
abbrev pub IsDrawable : Bar → Type 0
IsDrawable b = (b.count ≤ b.max) × (0 < b.max)

max_count-pos : (ds : List CountPair) → 0 < max_count ds
unfolding max_count
max_count-pos [] = omega arith
max_count-pos (d ∷ ds) = ground (arith, max_count-pos ds)

bars_below :
    (meta : List (String × Meta)) (m : ℕ) (ds : List CountPair)
    → max_count ds ≤ m
    → 0 < m
    → All IsDrawable (map (bar meta m) ds)
unfolding max_count bar
bars_below meta m [] h p = tt
bars_below meta m (d ∷ ds) h p =
    ((ground (arith, h), p), bars_below meta m ds (ground (arith, h)) p)

-- In every distribution each bar fills at most the whole width, and the width is defined: no
-- distribution is divided by zero.
pub bars-IsDrawable :
    (meta : List (String × Meta)) (ds : List CountPair)
    → All IsDrawable (map (bar meta (max_count ds)) ds)
bars-IsDrawable meta ds = bars_below meta (max_count ds) ds (omega arith) (max_count-pos ds)
