-- ===== src/Observe/Notifications/Sending.antt =====
-- What the form of the notifications page sends, and what it keeps.
use workflow_enterprise_comp.Prelude.{
  String, ◌++◌, All, Bool, true, false, not, ◌&&◌, ◌||◌, ◌≡◌, List, [], ◌∷◌, nonempty, is_some,
  trim, if◌then◌else◌, arith, refl, Bool-cases, inl, inr,
}
use workflow_enterprise_comp.Options.{entity_type_to_option}
use workflow_enterprise_comp.Observe.Notifications.{
  Form, Edit, type_picked, severity_picked, title_typed, message_typed, entity_type_picked,
  entity_picked, edit, validate, submit, SendOutcome, sent, failed, lost, settle,
}

-- The form asks for a notification just where neither the type nor the title is blank, and
-- otherwise shows an error.
pub submit_iff :
    (s : Form)
    → (is_some (submit s).1 ≡ (nonempty (trim s.type) && nonempty (trim s.title)))
      × (is_some (submit s).1
          ≡ not (is_some (submit s).0.type_error || is_some (submit s).0.title_error))
unfolding submit validate
submit_iff s = ground arith

abbrev pub run : List Edit → Form → Form
run [] s = s
run (e ∷ es) s = run es (edit e s)

-- The edit picks no type of entity.
abbrev pub KeepsType : Edit → Type 0
KeepsType (entity_type_picked v) = ⊥
KeepsType _ = Unit

-- The entity that is picked last, or the given one.
abbrev pub last_pick : String → List Edit → String
last_pick id [] = id
last_pick id (entity_picked v ∷ es) = last_pick v es
last_pick id (_ ∷ es) = last_pick id es

abbrev pub has_picker : String → Bool
has_picker entity_type = is_some (entity_type_to_option entity_type)

run-keeps :
    (es : List Edit) (s : Form)
    → All KeepsType es
    → ((run es s).entity_type ≡ s.entity_type)
      × ((run es s).entity_id
          ≡ (if has_picker s.entity_type then last_pick s.entity_id es else s.entity_id))
unfolding edit
run-keeps [] s h = (refl, ground arith)
run-keeps (type_picked v ∷ es) s h = run-keeps es (edit (type_picked v) s) h.1
run-keeps (severity_picked v ∷ es) s h = run-keeps es (edit (severity_picked v) s) h.1
run-keeps (title_typed v ∷ es) s h = run-keeps es (edit (title_typed v) s) h.1
run-keeps (message_typed v ∷ es) s h = run-keeps es (edit (message_typed v) s) h.1
run-keeps (entity_type_picked v ∷ es) s h = absurd h.0
run-keeps (entity_picked v ∷ es) s h = elim (Bool-cases (has_picker s.entity_type)) [
  | inl linked ↦ ground (arith, linked, run-keeps es (record s { entity_id = v }) h.1)
  | inr unlinked ↦ ground (arith, unlinked, run-keeps es s h.1)
]

run-append : (es fs : List Edit) (s : Form) → run (es ++ fs) s ≡ run fs (run es s)
run-append [] fs s = refl
run-append (e ∷ es) fs s = run-append es fs (edit e s)

-- However the form is filled in before and after its type of entity is picked for the last time, its
-- entity is the one that was picked last since then, where the type has a picker, and otherwise
-- empty: it is never left over from another type.
pub run-picks :
    (before after : List Edit) (type : String) (s : Form)
    → All KeepsType after
    → ((run (before ++ entity_type_picked type ∷ after) s).entity_type ≡ type)
      × ((run (before ++ entity_type_picked type ∷ after) s).entity_id
          ≡ (if has_picker type then last_pick "" after else ""))
unfolding edit
run-picks before after type s h =
    rw (run-append before (entity_type_picked type ∷ after) s)
      (run-keeps after (edit (entity_type_picked type) (run before s)) h)

abbrev pub is_sent : SendOutcome → Bool
is_sent (sent t u) = true
is_sent _ = false

-- Once a notification is sent the title and the message are empty and all else is as it was; once
-- sending has failed the form is as it was.
pub settle_keeps :
    (s : Form) (o : SendOutcome)
    → ((settle o s).title ≡ (if is_sent o then "" else s.title))
      × ((settle o s).message ≡ (if is_sent o then "" else s.message))
      × ((settle o s).type ≡ s.type)
      × ((settle o s).severity ≡ s.severity)
      × ((settle o s).entity_type ≡ s.entity_type)
      × ((settle o s).entity_id ≡ s.entity_id)
unfolding settle
settle_keeps s (sent t u) = (refl, refl, refl, refl, refl, refl)
settle_keeps s (failed e) = (refl, refl, refl, refl, refl, refl)
settle_keeps s lost = (refl, refl, refl, refl, refl, refl)
