-- ===== src/Auth/Roles.antt =====
-- The roles of packages/auth/rbac.py and what each grants, itself and by inheritance.
pub mod Inheritance
use net_graphy.Prelude.{
  ℕ, String, ◌<>◌, ◌≡◌, refl, Bool, true, false, ◌||◌, Option, none, some, List, [], ◌∷◌, ◌++◌, any,
  contains, Result, ok, raised, ◌>>=◌, ◌==◌, if◌then◌else◌,
}
use net_graphy.Glob.{fnmatch}

-- `AuthorizationError` with the action and the resource of its message, and the `ValueError` of
-- an unknown role.
pub data AuthError : Type 0 where
  authorization_error : String → String → AuthError
  unknown_role : String → AuthError

-- `_ROLE_OWN_PERMISSIONS`; the sets are lists.
unfoldable pub role_own_permissions : String → List String
role_own_permissions role =
    if role == "viewer"
    then "read:node:*" ∷ "read:edge:*" ∷ "read:query:*" ∷ "read:schema:*" ∷ []
    else if role == "editor"
    then "write:node:*" ∷ "write:edge:*" ∷ "execute:query:*" ∷ []
    else if role == "operator"
    then "execute:job:*" ∷ "manage:sync:*" ∷ "manage:parser:*" ∷ "manage:iac:*" ∷ []
    else if role == "admin"
    then "manage:user:*" ∷ "manage:group:*" ∷ "manage:role:*" ∷ "manage:schema:*" ∷ "execute:cypher"
      ∷ []
    else if role == "superadmin"
    then "*" ∷ []
    else []

-- `_ROLE_ORDER`, from the least to the most privileged.
abbrev pub role_order : List String
role_order = "viewer" ∷ "editor" ∷ "operator" ∷ "admin" ∷ "superadmin" ∷ []

-- The loop of `get_role_permissions`, which ends behind the role.
unfoldable pub collect : String → List String → List String
collect role [] = []
collect role (r ∷ rs) =
    let rest = collect role rs in role_own_permissions r ++ (if r == role then [] else rest)

unfoldable pub get_role_permissions : String → Result AuthError (List String)
get_role_permissions role =
    if contains role role_order then ok (collect role role_order) else raised (unknown_role role)

-- `_permission_matches`
unfoldable pub permission_matches : String → String → String → Bool
permission_matches action resource granted =
    if granted == "*" then true else fnmatch (action <> (":" <> resource)) granted

-- any(_permission_matches(perm, action, resource) for perm in get_role_permissions(role))
unfoldable pub role_allows : String → String → String → Result AuthError Bool
role_allows role action resource =
    get_role_permissions role >>= λ perms. ok (any (permission_matches action resource) perms)
