-- ===== src/Auth/Checker/Decisions.antt =====
-- The decisions of the checker as a whole.
use text.Mathlib.TextLemmas.{nil-append, cons-append, append_assoc}
use net_graphy.Prelude.{
  String, ◌<>◌, ◌≡◌, ◌↔◌, ◌⊎◌, refl, ap, ◌∙◌, true, false, ◌||◌, List, [], ◌∷◌, ◌++◌, arith,
  contains, ◌==◌, ok, Result, any, Bool, inl, if◌then◌else◌, ◌&&◌,
}
use net_graphy.Auth.Roles.{AuthError, get_role_permissions, role_allows}
use net_graphy.Auth.Roles.Inheritance.{colons}
use net_graphy.Auth.Checker.{
  ObjectPermission, RoleType, viewer, editor, operator, admin, superadmin, role_text, AuthContext,
  flag_or, names_or_empty, split_once, job_grants, grants, any_grants, check_object_permissions,
  check_permission, job_object_grants, any_job_grants, check_job_permission,
}

any_grants-append :
    (action type name : String) (ps qs : List ObjectPermission)
    → any_grants action type name (ps ++ qs)
      ≡ (any_grants action type name ps || any_grants action type name qs)
unfolding any_grants
any_grants-append action type name [] qs = refl
any_grants-append action type name (p ∷ ps) qs =
    ground (arith, any_grants-append action type name ps qs)

-- A user with the permissions of two groups may do what either group may do, and nothing else,
-- beyond the role.
pub check_permission-append :
    (ctx : AuthContext) (ps qs : List ObjectPermission) (action resource : String)
    → let with = λ (l : List ObjectPermission).
      check_permission (record ctx { object_permissions = l }) action resource in
      (with (ps ++ qs) ≡ ok true) ↔ ((with ps ≡ ok true) ⊎ (with qs ≡ ok true))
unfolding check_permission check_object_permissions
check_permission-append ctx ps qs action resource =
    let e = any_grants-append action (split_once resource).0 (split_once resource).1 ps qs in
    (λ h. ground (arith, e), λ h. ground (arith, e))

split_once-append : (p s : String) → colons p ≡ 0 → split_once (p <> (":" <> s)) ≡ (p, s)
unfolding split_once colons
split_once-append String.[] s h = rw nil-append (split_once_colon s)
  where
    split_once_colon : (s : String) → split_once (":" <> s) ≡ ("", s)
    split_once_colon s = rw (cons-append ":" "" s, nil-append)
split_once-append (String.◌∷◌ c p) s h = rw cons-append (ground (arith, split_once-append p s))

split_job : (name : String) → split_once ("job:" <> name) ≡ ("job", name)
split_job name =
    ap split_once (append_assoc "job" ":" name)
    ∙ split_once-append "job" name (unfold colons in refl)

-- Whether a permission is one to execute the jobs "*".
abbrev pub star_jobs : ObjectPermission → Bool
star_jobs p =
    flag_or true p.enabled
    && (flag_or false p.can_execute_jobs && contains "*" (names_or_empty p.allowed_jobs))

any_grants-star :
    (name : String) (ps : List ObjectPermission)
    → any_grants "execute" "job" name ps ≡ (any_job_grants name ps || any star_jobs ps)
unfolding any_grants any_job_grants job_object_grants grants job_grants
any_grants-star name [] = refl
any_grants-star name (p ∷ ps) = ground (arith, any_grants-star name ps)

-- A role of the program is always known.
role_allows-ok :
    (r : RoleType) (action resource : String)
    → (b : Bool) × (role_allows (role_text r) action resource ≡ ok b)
unfolding role_allows get_role_permissions contains
role_allows-ok viewer action resource = (_, refl)
role_allows-ok editor action resource = (_, refl)
role_allows-ok operator action resource = (_, refl)
role_allows-ok admin action resource = (_, refl)
role_allows-ok superadmin action resource = (_, refl)

-- Executing a job passes `check_permission` exactly when it passes `check_job_permission` or one of
-- the user's group permissions is enabled, is for executing jobs and lists "*" among its jobs: that
-- is all in which the two checks differ.
pub check_permission-job :
    (ctx : AuthContext) (name : String)
    → (check_permission ctx "execute" ("job:" <> name) ≡ ok true)
      ↔ ((check_job_permission ctx name ≡ ok true) ⊎ (any star_jobs ctx.object_permissions ≡ true))
unfolding check_job_permission check_permission check_object_permissions
check_permission-job ctx name =
    let (b, r) = role_allows-ok ctx.role "execute" ("job:" <> name) in
    let same = any_grants-star name ctx.object_permissions in
    rw (split_job, r) (by_verdicts (role_text ctx.role == "superadmin") b _ _ _ same)
  where
    verdict : Bool → Bool → Bool → Result AuthError Bool
    verdict super by_role granted =
        if super then ok true else if by_role then ok true else ok granted

    by_verdicts :
        (super by_role x y z : Bool)
        → x ≡ (y || z)
        → (verdict super by_role x ≡ ok true) ↔ ((verdict super by_role y ≡ ok true) ⊎ (z ≡ true))
    by_verdicts true by_role x y z e = (λ h. inl refl, λ h. refl)
    by_verdicts false true x y z e = (λ h. inl refl, λ h. refl)
    by_verdicts false false x y z e = (λ h. ground (arith, e), λ h. ground (arith, e, h))
