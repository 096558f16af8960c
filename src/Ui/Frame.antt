-- ===== src/Ui/Frame.antt =====
-- The frame around the pages: frontend/src/components/layout/Header.tsx and AppLayout.tsx.
use workflow_enterprise_comp.Prelude.{String, Bool, true, false, not, Option, List, [], ◌∷◌, get_or}
use workflow_enterprise_comp.Constants.{lookup}

abbrev pub titles : List (String × String)
titles =
    ("/app", "Dashboard")
    ∷ ("/app/compliances", "Compliances")
    ∷ ("/app/alerts", "Alerts")
    ∷ ("/app/audit-logs", "Audit log")
    ∷ ("/app/users", "Users")
    ∷ []

unfoldable pub title : String → String
unfolding lookup
title pathname = get_or (lookup pathname titles) "ComplianceHub"

abbrev pub display_name : Option String → String
display_name username = get_or username "Account"

abbrev pub display_role : Option String → String
display_role role_name = get_or role_name "Member"

pub record Layout : Type 0 where
  pub collapsed : Bool
  pub mobile_open : Bool

abbrev pub initial : Layout
initial = record { collapsed = false; mobile_open = false }

pub data Event : Type 0 where
  collapse_toggled mobile_opened mobile_closed navigated : Event

-- The drawer of a small screen is closed by a change of the route.
unfoldable pub step : Event → Layout → Layout
step collapse_toggled s = record s { collapsed = not s.collapsed }
step mobile_opened s = record s { mobile_open = true }
step mobile_closed s = record s { mobile_open = false }
step navigated s = record s { mobile_open = false }
