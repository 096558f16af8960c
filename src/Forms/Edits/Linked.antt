-- ===== src/Forms/Edits/Linked.antt =====
-- The entity that the form of a deadline links to.
use workflow_enterprise_comp.Prelude.{
  true, not, ◌||◌, ◌≡◌, none, List, [], ◌∷◌, nonempty, is_some, refl, arith, Bool-cases, inl, inr,
}
use workflow_enterprise_comp.Options.{entity_type_to_option}
use workflow_enterprise_comp.Forms.Deadlines.{DeadlineForm, seed}
use workflow_enterprise_comp.Forms.Edits.Deadlines.{
  Edit, edit, title_set, description_set, deadline_at_set, status_set, entity_type_set,
  entity_id_set,
}

abbrev pub run : List Edit → DeadlineForm → DeadlineForm
run [] f = f
run (e ∷ es) f = run es (edit e f)

abbrev pub IsLinked : DeadlineForm → Type 0
IsLinked f = (not (nonempty f.entity_id) || is_some (entity_type_to_option f.entity_type)) ≡ true

edit-IsLinked : (e : Edit) (f : DeadlineForm) → IsLinked f → IsLinked (edit e f)
unfolding edit
edit-IsLinked (title_set v) f h = h
edit-IsLinked (description_set v) f h = h
edit-IsLinked (deadline_at_set v) f h = h
edit-IsLinked (status_set v) f h = h
edit-IsLinked (entity_type_set v) f h = refl
edit-IsLinked (entity_id_set v) f h =
    elim (Bool-cases (is_some (entity_type_to_option f.entity_type))) [
      | inl linked ↦ ground (arith, linked)
      | inr unlinked ↦ rw unlinked h
    ]

run-IsLinked : (es : List Edit) (f : DeadlineForm) → IsLinked f → IsLinked (run es f)
run-IsLinked [] f h = h
run-IsLinked (e ∷ es) f h = run-IsLinked es (edit e f) (edit-IsLinked e f h)

-- However the form of a new deadline is filled in, it links to an entity only of a type that has a
-- picker: never to one that is left over from another type.
pub new-IsLinked : (es : List Edit) → IsLinked (run es (seed none))
unfolding seed
new-IsLinked es = run-IsLinked es (seed none) refl
