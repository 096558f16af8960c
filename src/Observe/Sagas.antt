-- ===== src/Observe/Sagas.antt =====
-- The page of frontend/src/features/sagas/pages/SagasPage.tsx.
use workflow_enterprise_comp.Prelude.{
  ℕ, String, Bool, ◌||◌, Option, none, some, List, [], ◌∷◌, nonempty, truthy, if◌then◌else◌, ◌+s◌,
  decimal, length, ◌==◌,
}
use workflow_enterprise_comp.Json.{Json}
use workflow_enterprise_comp.Client.{Request}
use workflow_enterprise_comp.Constants.{Meta, status_meta, saga_type_label}
use workflow_enterprise_comp.Format.{short_id}
use workflow_enterprise_comp.Entities.{SagaSummary}
use workflow_enterprise_comp.Pages.Cells.{meta_of}
use workflow_enterprise_comp.Services.Observe.{sagas_search, sagas_get}

abbrev pub limits : List ℕ
limits = 10 ∷ 25 ∷ 50 ∷ 100 ∷ []

pub record SagaList : Type 0 where
  pub type_filter : String
  pub status_filter : String
  pub limit : ℕ
  pub view_target : Option SagaSummary

abbrev pub initial : SagaList
initial = record { type_filter = ""; status_filter = ""; limit = 50; view_target = none }

-- `text || undefined`.
abbrev chosen : String → Option String
chosen text = if nonempty text then some text else none

unfoldable pub search : SagaList → Request
search s = sagas_search (chosen s.type_filter) (chosen s.status_filter) (some s.limit)

unfoldable pub has_filters : SagaList → Bool
has_filters s = nonempty s.type_filter || nonempty s.status_filter

unfoldable pub clear : SagaList → SagaList
clear s = record s { type_filter = ""; status_filter = "" }

-- The request for the live state of the saga that is viewed.
unfoldable pub detail_request : Option SagaSummary → Option Request
detail_request none = none
detail_request (some s) = some (sagas_get s.type s.entity_id)

unfoldable pub detail_text : (Json → String) → Option Json → Bool → String
detail_text print (some v) is_loading = print v
detail_text print none is_loading =
    if is_loading then "Loading live state…" else "No live state in Redis (saga finished)."

unfoldable pub detail_title : Option SagaSummary → String
detail_title none = ""
detail_title (some s) = "Saga — " +s saga_type_label (some s.type)

-- A row of the list: the type, the line below it, the error and the status.
pub record SagaRow : Type 0 where
  pub type : String
  pub line : String
  pub error : Option String
  pub status : Meta

unfoldable pub saga_row : SagaSummary → SagaRow
saga_row s = record {
  type = saga_type_label (some s.type);
  line =
      short_id (some s.id)
      +s (" · entity " +s (short_id (some s.entity_id) +s (" · step " +s decimal s.current_step)));
  error = if truthy s.error then s.error else none;
  status = meta_of status_meta s.status;
}

pub data Sagas : Type 0 where
  sagas_error sagas_loading sagas_empty : Sagas
  sagas_shown : List SagaSummary → Sagas

abbrev sagas_or_none : Option (List SagaSummary) → Sagas
sagas_or_none none = sagas_empty
sagas_or_none (some ss) = if length ss == 0 then sagas_empty else sagas_shown ss

unfoldable pub sagas_state : (is_error is_loading : Bool) → Option (List SagaSummary) → Sagas
sagas_state is_error is_loading ss =
    if is_error then sagas_error else if is_loading then sagas_loading else sagas_or_none ss
