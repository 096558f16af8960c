-- ===== src/Access.antt =====
-- The permission middleware of the backend, backend/internal/rbac/rbac.go, for a request that the
-- authentication has passed. The routes that a role is granted come from the cache or the
-- database, both outside the model: `granted` is what they answer, nothing where they fail.
pub mod Mirror
use Prim.Native.String
use workflow_enterprise_comp.Prelude.{
  String, Bool, true, false, ◌&&◌, ◌||◌, not, Option, none, some, List, str_eq, nonempty,
  if◌then◌else◌, any, ◌+s◌,
}
use text.Mathlib.Text.{starts_with}

-- `isPublic`.
unfoldable pub is_public : String → String → Bool
is_public method path =
    (str_eq method "GET" && str_eq path "/health")
    || (str_eq method "GET" && str_eq path "/health/ready")
    || (str_eq method "GET" && str_eq path "/metrics")
    || starts_with path "/swagger"
    || str_eq path "/api/v1/auth/login"
    || str_eq path "/ws"

pub data Verdict : Type 0 where
  next unauthorized forbidden failed : Verdict

-- `contains`.
contains : List String → String → Bool
contains list v = any (λ (s : String). str_eq s v) list

allowed : Option (List String) → String → Verdict
unfolding contains
allowed none route = failed
allowed (some routes) route = if contains routes route then next else forbidden

-- `Permission`, for the role that the token names.
unfoldable pub permission : String → Option (List String) → String → String → Verdict
unfolding is_public allowed contains
permission role granted method path =
    if is_public method path
    then next
    else if str_eq role "admin"
    then next
    else if not (nonempty role)
    then unauthorized
    else allowed granted (method +s (" " +s path))
