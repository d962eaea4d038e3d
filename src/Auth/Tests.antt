-- ===== src/Auth/Tests.antt =====
-- The checks at concrete users and groups.
use net_graphy.Prelude.{
  ◌≡◌, ◌↔◌, ◌⊎◌, refl, true, false, none, some, List, [], ◌∷◌, arith, ok, contains, eq_iff, any,
}
use net_graphy.Glob.{fnmatch, fits, accepts, scan, tokens, closes, set_token, ranges}
use net_graphy.Auth.Roles.{
  role_own_permissions, collect, get_role_permissions, permission_matches, role_allows,
}
use net_graphy.Auth.Roles.Inheritance.{colons, no_later, role_monotone, bare_resource_denied}
use net_graphy.Auth.Checker.{
  ObjectPermission, RoleType, viewer, AuthContext, split_once, check_object_permissions,
  check_permission, job_object_grants, any_job_grants, check_job_permission, any_grants, grants,
  job_grants,
}
use net_graphy.Auth.Checker.Grants.{Any, Granted, check_object_permissions_iff}
use net_graphy.Auth.Checker.Decisions.{check_permission-append, check_permission-job, star_jobs}

abbrev nothing : ObjectPermission
nothing = record {
  enabled = none;
  can_read = none;
  can_create = none;
  can_update = none;
  can_delete = none;
  object_types = none;
  can_execute_jobs = none;
  allowed_jobs = none;
}

abbrev edits_devices : ObjectPermission
edits_devices = record nothing { can_update = some true; object_types = some ("Device" ∷ []) }

abbrev runs_any_job : ObjectPermission
runs_any_job = record nothing { can_execute_jobs = some true; allowed_jobs = some ("*" ∷ []) }

abbrev runs_backup : ObjectPermission
runs_backup = record nothing { can_execute_jobs = some true; allowed_jobs = some ("backup" ∷ []) }

abbrev switched_off : ObjectPermission
switched_off = record edits_devices { enabled = some false }

abbrev user_with : RoleType → List ObjectPermission → AuthContext
user_with role permissions = record {
  user_id = "u1";
  role = role;
  groups = "noc" ∷ [];
  object_permissions = permissions;
}

check_object_permissions_iff_example :
    (check_object_permissions
        (user_with viewer (switched_off ∷ edits_devices ∷ []))
        "write"
        "node:Device"
      ≡ true)
    ↔ Any
        (Granted "write" (split_once "node:Device").0 (split_once "node:Device").1)
        (switched_off ∷ edits_devices ∷ [])
check_object_permissions_iff_example =
    check_object_permissions_iff (user_with viewer (switched_off ∷ edits_devices ∷ [])) "write"
      "node:Device"

role_monotone_example : role_allows "operator" "write" "node:Device" ≡ ok true
unfolding no_later contains role_allows get_role_permissions collect role_own_permissions
    permission_matches fnmatch fits accepts tokens scan closes set_token ranges
role_monotone_example = role_monotone "editor" "operator" "write" "node:Device" refl refl

check_permission-append_example :
    let with = λ (l : List ObjectPermission).
      check_permission
        (record (user_with viewer []) { object_permissions = l })
        "write"
        "node:Device" in
    (with (edits_devices ∷ runs_backup ∷ []) ≡ ok true)
    ↔ ((with (edits_devices ∷ []) ≡ ok true) ⊎ (with (runs_backup ∷ []) ≡ ok true))
check_permission-append_example =
    check_permission-append (user_with viewer []) (edits_devices ∷ []) (runs_backup ∷ []) "write"
      "node:Device"

bare_resource_denied_example : role_allows "admin" "manage" "parser" ≡ ok false
unfolding colons contains permission_matches fnmatch fits accepts tokens scan closes set_token
    ranges
bare_resource_denied_example =
    bare_resource_denied "manage" "parser" refl refl "admin" refl
      (λ e. ground (arith, eq_iff "admin" "superadmin")) refl

-- "*" passes one of the two checks of a job.
star_disagrees :
    (check_permission (user_with viewer (runs_any_job ∷ [])) "execute" "job:backup" ≡ ok true)
    × (check_job_permission (user_with viewer (runs_any_job ∷ [])) "backup" ≡ ok false)
unfolding check_permission check_job_permission check_object_permissions split_once any_grants
    grants job_grants any_job_grants job_object_grants role_allows get_role_permissions contains
    collect role_own_permissions permission_matches fnmatch fits accepts tokens scan closes
    set_token ranges
star_disagrees = (refl, refl)

check_permission-job_example :
    (check_permission (user_with viewer (runs_any_job ∷ [])) "execute" "job:backup" ≡ ok true) ↔ (
      (check_job_permission (user_with viewer (runs_any_job ∷ [])) "backup" ≡ ok true)
      ⊎ (any star_jobs (runs_any_job ∷ []) ≡ true))
check_permission-job_example = check_permission-job (user_with viewer (runs_any_job ∷ [])) "backup"
