-- ===== src/Entities.antt =====
-- The entities of frontend/src/types/entities.ts as records with the source's fields, those of
-- `BaseEntity` first. An optional field is an option; of a field that may be null as well, null
-- and undefined are one, since the console tests such fields for truth only. `unknown` is JSON.
use workflow_enterprise_comp.Prelude.{ℕ, String, Option, List}
use workflow_enterprise_comp.Json.{Json}

pub record Permission : Type 0 where
  pub name : String
  pub route : String

pub record Role : Type 0 where
  pub id : String
  pub created_at : String
  pub updated_at : String
  pub name : String
  pub code : String
  pub description : Option String
  pub permissions : Option (List Permission)

pub record User : Type 0 where
  pub id : String
  pub created_at : String
  pub updated_at : String
  pub username : String
  pub email : Option String
  pub role_id : Option String
  pub role : Option Role
  pub status : String
  pub last_login_at : Option String

pub record LoginUser : Type 0 where
  pub id : String
  pub username : String
  pub email : Option String
  pub role_id : Option String
  pub role_code : String
  pub role_name : Option String
  pub last_login : Option String

pub record LoginResponse : Type 0 where
  pub access_token : String
  pub token_type : String
  pub expires_in : ℕ
  pub user : LoginUser

pub record MeResponse : Type 0 where
  pub user : User
  pub role : Role
  pub permissions : List Permission

pub record Compliance : Type 0 where
  pub id : String
  pub created_at : String
  pub updated_at : String
  pub name : String
  pub description : Option String
  pub status : String
  pub risk_level : String
  pub owner_id : Option String
  pub regulation_id : Option String
  pub due_date : Option String
  pub last_reviewed_at : Option String
  pub metadata : Option Json

pub record Alert : Type 0 where
  pub id : String
  pub created_at : String
  pub updated_at : String
  pub type : String
  pub title : String
  pub message : Option String
  pub severity : String
  pub status : String
  pub entity_type : Option String
  pub entity_id : Option String
  pub acknowledged_by : Option String
  pub resolved_at : Option String

pub record Violation : Type 0 where
  pub id : String
  pub created_at : String
  pub updated_at : String
  pub title : String
  pub description : Option String
  pub severity : String
  pub status : String
  pub compliance_id : Option String
  pub regulation_id : Option String
  pub detected_at : Option String
  pub resolved_at : Option String

pub record Regulation : Type 0 where
  pub id : String
  pub created_at : String
  pub updated_at : String
  pub title : String
  pub code : String
  pub description : Option String
  pub jurisdiction : Option String
  pub status : String
  pub effective_date : Option String
  pub expiry_date : Option String

pub record Checklist : Type 0 where
  pub id : String
  pub created_at : String
  pub updated_at : String
  pub title : String
  pub description : Option String
  pub status : String
  pub compliance_id : Option String
  pub owner_id : Option String
  pub due_date : Option String
  pub items : Option Json

pub record Deadline : Type 0 where
  pub id : String
  pub created_at : String
  pub updated_at : String
  pub title : String
  pub description : Option String
  pub status : String
  pub entity_type : Option String
  pub entity_id : Option String
  pub deadline_at : String
  pub completed_at : Option String

pub record CorrectiveAction : Type 0 where
  pub id : String
  pub created_at : String
  pub updated_at : String
  pub title : String
  pub description : Option String
  pub status : String
  pub violation_id : Option String
  pub owner_id : Option String
  pub due_date : Option String
  pub completed_at : Option String

pub record Audit : Type 0 where
  pub id : String
  pub created_at : String
  pub updated_at : String
  pub title : String
  pub description : Option String
  pub status : String
  pub compliance_id : Option String
  pub auditor_id : Option String
  pub scheduled_at : Option String
  pub started_at : Option String
  pub completed_at : Option String

pub record Report : Type 0 where
  pub id : String
  pub created_at : String
  pub updated_at : String
  pub title : String
  pub type : String
  pub status : String
  pub description : Option String
  pub compliance_id : Option String
  pub content : Option Json
  pub generated_at : Option String

pub record AuditLog : Type 0 where
  pub id : String
  pub created_at : String
  pub updated_at : String
  pub action : String
  pub status : String
  pub entity_type : Option String
  pub entity_id : Option String
  pub actor_id : Option String
  pub ip : Option String
  pub user_agent : Option String
  pub before_data : Option Json
  pub after_data : Option Json
  pub changes : Option Json
  pub metadata : Option Json

pub record BusEvent : Type 0 where
  pub id : String
  pub subject : String
  pub type : String
  pub payload : Option Json
  pub timestamp : String

pub record SagaSummary : Type 0 where
  pub id : String
  pub type : String
  pub entity_id : String
  pub status : String
  pub current_step : ℕ
  pub error : Option String
  pub created_at : String
  pub updated_at : String
  pub completed_at : Option String

pub record CountPair : Type 0 where
  pub key : String
  pub count : ℕ

pub record AnalyticsSummary : Type 0 where
  pub totals : List CountPair
  pub open_violations : ℕ
  pub open_alerts : ℕ
  pub overdue_deadlines : ℕ
