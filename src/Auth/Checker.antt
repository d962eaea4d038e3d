-- ===== src/Auth/Checker.antt =====
-- `PermissionChecker` of packages/auth/rbac.py. A permission of a group is a dictionary there; a
-- key that is missing is `none` here.
pub mod Grants
pub mod Decisions
use net_graphy.Prelude.{
  ℕ, String, ◌<>◌, ◌≡◌, refl, Bool, true, false, not, ◌&&◌, ◌||◌, Option, none, some, List, [], ◌∷◌,
  contains, is_empty, nat_eq, Result, ok, raised, ◌>>=◌, ◌==◌, if◌then◌else◌,
}
use Prim.Native.Char.{code}
use net_graphy.Auth.Roles.{AuthError, authorization_error, role_allows}

pub record ObjectPermission : Type 0 where
  pub enabled : Option Bool
  pub can_read : Option Bool
  pub can_create : Option Bool
  pub can_update : Option Bool
  pub can_delete : Option Bool
  pub object_types : Option (List String)
  pub can_execute_jobs : Option Bool
  pub allowed_jobs : Option (List String)

-- The literals of the roles, and their text.
pub data RoleType : Type 0 where
  viewer editor operator admin superadmin : RoleType

abbrev pub role_text : RoleType → String
role_text viewer = "viewer"
role_text editor = "editor"
role_text operator = "operator"
role_text admin = "admin"
role_text superadmin = "superadmin"

-- The fields of `AuthContext` that the checks read.
pub record AuthContext : Type 0 where
  pub user_id : String
  pub role : RoleType
  pub groups : List String
  pub object_permissions : List ObjectPermission

-- perm.get(key, default), and the truth value of perm.get(key)
abbrev pub flag_or : Bool → Option Bool → Bool
flag_or default none = default
flag_or default (some b) = b

abbrev pub names_or_empty : Option (List String) → List String
names_or_empty none = []
names_or_empty (some names) = names

-- resource.split(":", 1): what stands before the first colon, and behind it.
unfoldable pub split_once : String → String × String
split_once String.[] = ("", "")
split_once (String.◌∷◌ c s) =
    let (front, back) = split_once s in
    if nat_eq (code c) b':' then ("", s) else (String.◌∷◌ c front, back)

unfoldable pub job_grants : ObjectPermission → String → Bool
job_grants p name =
    let allowed = names_or_empty p.allowed_jobs in
    flag_or false p.can_execute_jobs
    && (is_empty allowed || (contains name allowed || contains "*" allowed))

unfoldable pub crud_grants : ObjectPermission → String → String → Bool
crud_grants p action name =
    let types = names_or_empty p.object_types in
    (is_empty types || contains name types)
    && ((action == "read" && flag_or false p.can_read)
        || ((action == "write" && (flag_or false p.can_create || flag_or false p.can_update))
            || (action == "delete" && flag_or false p.can_delete)))

-- The body of the loop of `_check_object_permissions`: whether it returns True.
unfoldable pub grants : String → String → String → ObjectPermission → Bool
grants action type name p =
    if not (flag_or true p.enabled)
    then false
    else if action == "execute" && type == "job"
    then job_grants p name
    else if type == "node" || type == "edge"
    then crud_grants p action name
    else false

unfoldable pub any_grants : String → String → String → List ObjectPermission → Bool
any_grants action type name [] = false
any_grants action type name (p ∷ ps) =
    let rest = any_grants action type name ps in if grants action type name p then true else rest

unfoldable pub check_object_permissions : AuthContext → String → String → Bool
check_object_permissions ctx action resource =
    let (type, name) = split_once resource in any_grants action type name ctx.object_permissions

unfoldable pub check_permission : AuthContext → String → String → Result AuthError Bool
check_permission ctx action resource =
    if role_text ctx.role == "superadmin"
    then ok true
    else role_allows (role_text ctx.role) action resource >>= λ by_role.
        if by_role then ok true else ok (check_object_permissions ctx action resource)

unfoldable pub require_permission : AuthContext → String → String → Result AuthError (Unit {0})
require_permission ctx action resource = check_permission ctx action resource >>= λ allowed.
    if allowed then ok tt else raised (authorization_error action resource)

-- action_map.get(action), read from the permission; none where the action is not in the map.
unfoldable pub object_flag : String → ObjectPermission → Option Bool
object_flag action p =
    if action == "read"
    then some (flag_or false p.can_read)
    else if action == "create"
    then some (flag_or false p.can_create)
    else if action == "update"
    then some (flag_or false p.can_update)
    else if action == "delete"
    then some (flag_or false p.can_delete)
    else none

-- Whether the loop of `check_object_permission` returns True at this permission.
unfoldable pub object_grants : String → String → ObjectPermission → Bool
object_grants action node_type p =
    let types = names_or_empty p.object_types in
    flag_or true p.enabled
    && (not (not (is_empty types) && not (contains node_type types))
        && flag_or false (object_flag action p))

unfoldable pub any_object_grants : String → String → List ObjectPermission → Bool
any_object_grants action node_type [] = false
any_object_grants action node_type (p ∷ ps) =
    let rest = any_object_grants action node_type ps in
    if object_grants action node_type p then true else rest

unfoldable pub check_object_permission : AuthContext → String → String → Bool
check_object_permission ctx action node_type =
    if role_text ctx.role == "superadmin"
    then true
    else any_object_grants action node_type ctx.object_permissions

-- Whether the loop of `check_job_permission` returns True at this permission.
unfoldable pub job_object_grants : String → ObjectPermission → Bool
job_object_grants job_name p =
    let allowed = names_or_empty p.allowed_jobs in
    flag_or true p.enabled
    && (flag_or false p.can_execute_jobs && (is_empty allowed || contains job_name allowed))

unfoldable pub any_job_grants : String → List ObjectPermission → Bool
any_job_grants job_name [] = false
any_job_grants job_name (p ∷ ps) =
    let rest = any_job_grants job_name ps in if job_object_grants job_name p then true else rest

unfoldable pub check_job_permission : AuthContext → String → Result AuthError Bool
check_job_permission ctx job_name =
    if role_text ctx.role == "superadmin"
    then ok true
    else role_allows (role_text ctx.role) "execute" ("job:" <> job_name) >>= λ by_role.
        if by_role then ok true else ok (any_job_grants job_name ctx.object_permissions)
