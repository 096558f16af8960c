-- ===== src/Forms/Edits/Users.antt =====
-- The fields of the form of frontend/src/features/users/components/UserFormModal.tsx as
-- they are filled in.
use workflow_enterprise_comp.Prelude.{String}
use workflow_enterprise_comp.Forms.Users.{UserForm}

pub data Edit : Type 0 where
  username_set : String → Edit
  email_set : String → Edit
  password_set : String → Edit
  role_id_set : String → Edit
  status_set : String → Edit

unfoldable pub edit : Edit → UserForm → UserForm
edit (username_set v) f = record f { username = v }
edit (email_set v) f = record f { email = v }
edit (password_set v) f = record f { password = v }
edit (role_id_set v) f = record f { role_id = v }
edit (status_set v) f = record f { status = v }
