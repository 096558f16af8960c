-- ===== src/Pages/Common.antt =====
-- What the list pages share: the filters, the dates, the menu of a row, and the mutations with the
-- toasts that they raise. The query library runs a mutation; `Outcome` is how it ends.
use workflow_enterprise_comp.Prelude.{
  String, Bool, not, ◌&&◌, Option, none, some, List, [], ◌∷◌, nonempty, truthy, if◌then◌else◌, ◌+s◌,
}
use workflow_enterprise_comp.Json.{Fields, field, str}
use workflow_enterprise_comp.Client.{Request, ApiError, method_name, user_message}
use workflow_enterprise_comp.Http.{DateRangeSpec}
use workflow_enterprise_comp.Toasts.{ToastKind, error, ToastState, notify}

-- The value of `DateRangeInputs`, frontend/src/components/ui/Toolbar.tsx.
pub record DateRangeValue : Type 0 where
  pub from : Option String
  pub to : Option String

stamp : String → Option String → Option (Option String)
stamp suffix none = none
stamp suffix (some day) = if nonempty day then some (some (day +s suffix)) else none

-- `dateToRange`, for the column that the page filters by.
unfoldable pub date_to_range : String → DateRangeValue → Option DateRangeSpec
unfolding stamp
date_to_range column v =
    if not (truthy v.from) && not (truthy v.to)
    then none
    else some (record {
      range_field = some column;
      from = stamp "T00:00:00.000Z" v.from;
      to = stamp "T23:59:59.999Z" v.to;
    })

-- `if (text) f.key = text`.
unfoldable pub filter_field : String → String → Fields → Fields
filter_field key text fs = if nonempty text then field key (str text) fs else fs

pub record Note : Type 0 where
  pub kind : ToastKind
  pub title : String
  pub description : Option String

abbrev pub note : ToastKind → String → Option String → Note
note kind title description = record { kind = kind; title = title; description = description }

pub record Mutation (A T : Type 0) : Type 0 where
  pub request : A → Request
  pub success_note : T → Note
  pub failure : String

-- A mutation ends with a record, with an API error, or with another one.
pub data Outcome (T : Type 0) : Type 0 where
  succeeded : T → Outcome T
  failed : ApiError → Outcome T
  lost : Outcome T

abbrev raise : Note → ToastState → ToastState
raise n = notify n.kind n.title n.description

-- The callbacks of a mutation, as far as they raise toasts.
unfoldable pub finish : {A T : Type 0} → Mutation A T → Outcome T → ToastState → ToastState
finish m (succeeded x) s = raise (m.success_note x) s
finish m (failed e) s = raise (note error m.failure (some (user_message e))) s
finish m lost s = raise (note error m.failure none) s

-- What an item of a row's menu does: a request, or opening the form, the confirmation or the view.
pub data Act : Type 0 where
  call : Request → Act
  edit ask_delete view : Act

-- `...(test ? [item] : [])`.
abbrev pub when : Bool → Act → List Act
when test x = if test then x ∷ [] else []

-- The route that the backend checks for a request.
abbrev pub route_of : Request → String
route_of r = method_name r.method +s (" " +s r.path)
