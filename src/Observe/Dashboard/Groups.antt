-- ===== src/Observe/Dashboard/Groups.antt =====
-- The groups of a summary in the order in which the dashboard shows them.
use workflow_enterprise_comp.Prelude.{ℕ, ◌≤◌, ◌==◌, Bool, List, [], ◌∷◌, filter, length, All}
use workflow_enterprise_comp.Json
use workflow_enterprise_comp.Observe.Dashboard.{Group}

-- No group follows one with fewer records.
abbrev pub IsDescending : List Group → Type 0
IsDescending [] = Unit
IsDescending (g ∷ gs) = All (λ h. h.count ≤ g.count) gs × IsDescending gs

-- How many groups pass a test.
abbrev pub count_of : (Group → Bool) → List Group → ℕ
count_of p gs = length (filter p gs)

-- The groups with so many records, in their order.
abbrev pub with_count : ℕ → List Group → List Group
with_count n gs = filter (λ g. g.count == n) gs
