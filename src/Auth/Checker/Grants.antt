-- ===== src/Auth/Checker/Grants.antt =====
-- The permissions of groups against a statement of what they grant.
use net_graphy.Prelude.{
  String, ◌≡◌, ◌↔◌, ◌⊎◌, refl, Bool, true, false, ◌&&◌, ◌||◌, inl, inr, Option, List, [], ◌∷◌,
  arith, contains, is_empty, eq_iff, ◌==◌, Bool-cases, false≢true, &&-eq-true,
}
use net_graphy.Auth.Checker.{
  ObjectPermission, AuthContext, flag_or, names_or_empty, split_once, job_grants, crud_grants,
  grants, any_grants, check_object_permissions,
}

-- An entry of the list has the property.
abbrev pub Any : (ObjectPermission → Type 0) → List ObjectPermission → Type 0
Any P [] = ⊥
Any P (p ∷ ps) = P p ⊎ Any P ps

-- The names given, where none stands for all.
abbrev pub Covers : Option (List String) → String → Type 0
Covers names name = (names_or_empty names ≡ []) ⊎ (contains name (names_or_empty names) ≡ true)

-- What a permission says of an action on a node type or an edge type.
abbrev pub AllowsAction : ObjectPermission → String → Type 0
AllowsAction p action =
    ((action ≡ "read") × (flag_or false p.can_read ≡ true))
    ⊎ ((action ≡ "write")
        × ((flag_or false p.can_create ≡ true) ⊎ (flag_or false p.can_update ≡ true)))
    ⊎ ((action ≡ "delete") × (flag_or false p.can_delete ≡ true))

-- Jobs by name, or all of them by an empty list or by "*".
abbrev pub GrantsJob : String → String → String → ObjectPermission → Type 0
GrantsJob action type name p =
    (action ≡ "execute")
    × (type ≡ "job")
    × (flag_or false p.can_execute_jobs ≡ true)
    × (Covers p.allowed_jobs name ⊎ (contains "*" (names_or_empty p.allowed_jobs) ≡ true))

-- Actions on the node types and edge types that the permission covers.
abbrev pub GrantsAction : String → String → String → ObjectPermission → Type 0
GrantsAction action type name p =
    ((type ≡ "node") ⊎ (type ≡ "edge")) × Covers p.object_types name × AllowsAction p action

abbrev pub Granted : String → String → String → ObjectPermission → Type 0
Granted action type name p =
    (flag_or true p.enabled ≡ true)
    × (GrantsJob action type name p ⊎ GrantsAction action type name p)

is_empty-eq : (xs : List String) → (is_empty xs ≡ true) ↔ (xs ≡ [])
is_empty-eq [] = (λ h. refl, λ h. refl)
is_empty-eq (x ∷ xs) = (λ h. absurd (false≢true h), λ h. cc)

Covers-iff :
    (names : Option (List String)) (name : String)
    → ((is_empty (names_or_empty names) || contains name (names_or_empty names)) ≡ true)
      ↔ Covers names name
Covers-iff names name =
    let xs = names_or_empty names in
    (
      λ h. elim (Bool-cases (is_empty xs)) [
        | inl e ↦ inl ((is_empty-eq xs).0 e)
        | inr e ↦ inr (ground arith)
      ],
      λ h. elim h [ inl e ↦ ground (arith, (is_empty-eq xs).1 e) | inr e ↦ ground arith ],
    )

job_iff :
    (p : ObjectPermission) (name : String)
    → (job_grants p name ≡ true) ↔ (
        (flag_or false p.can_execute_jobs ≡ true)
        × (Covers p.allowed_jobs name ⊎ (contains "*" (names_or_empty p.allowed_jobs) ≡ true)))
unfolding job_grants
job_iff p name =
    let xs = names_or_empty p.allowed_jobs in
    (
      λ h. (
        ground arith,
        elim (Bool-cases (contains "*" xs)) [
          | inl e ↦ inr e
          | inr e ↦ inl ((Covers-iff p.allowed_jobs name).0 (ground arith))
        ],
      ),
      λ h. elim (h.1) [
        | inl c ↦ ground (arith, h.0, (Covers-iff p.allowed_jobs name).1 c)
        | inr e ↦ ground (arith, h.0)
      ],
    )

abbrev flags_allow : ObjectPermission → String → Bool
flags_allow p action =
    (action == "read" && flag_or false p.can_read)
    || ((action == "write" && (flag_or false p.can_create || flag_or false p.can_update))
        || (action == "delete" && flag_or false p.can_delete))

flags_iff :
    (p : ObjectPermission) (action : String) → (flags_allow p action ≡ true) ↔ AllowsAction p action
flags_iff p action = (
  λ h. ground (arith, eq_iff action "read", eq_iff action "write", eq_iff action "delete"),
  λ h. ground (arith, eq_iff action "read", eq_iff action "write", eq_iff action "delete"),
)

crud_iff :
    (p : ObjectPermission) (action name : String)
    → (crud_grants p action name ≡ true) ↔ (Covers p.object_types name × AllowsAction p action)
unfolding crud_grants
crud_iff p action name = (
  λ h.
      let (a, b) = (&&-eq-true _ _).0 h in
      ((Covers-iff p.object_types name).0 a, (flags_iff p action).0 b),
  λ h. (&&-eq-true _ _).1 ((Covers-iff p.object_types name).1 h.0, (flags_iff p action).1 h.1),
)

module _ (action type name : String) (p : ObjectPermission) where
  grants-cases :
      grants action type name p ≡ true
      → (flag_or true p.enabled ≡ true)
        × (((action ≡ "execute") × (type ≡ "job") × (job_grants p name ≡ true))
            ⊎ (((type ≡ "node") ⊎ (type ≡ "edge")) × (crud_grants p action name ≡ true)))
  unfolding grants
  grants-cases h =
      ground
        (arith, eq_iff action "execute", eq_iff type "job", eq_iff type "node", eq_iff type "edge")

  grants-Granted : grants action type name p ≡ true → Granted action type name p
  grants-Granted h =
      let (on, cases) = grants-cases h in
      (
        on,
        elim cases [
          | inl (a, t, j) ↦ let (f, c) = (job_iff p name).0 j in inl (a, t, f, c)
          | inr (t, c) ↦ let (k, a) = (crud_iff p action name).0 c in inr (t, k, a)
        ],
      )

  job-grants :
      flag_or true p.enabled ≡ true
      → action ≡ "execute"
      → type ≡ "job"
      → job_grants p name ≡ true
      → grants action type name p ≡ true
  unfolding grants
  job-grants on a t j = ground (arith, eq_iff action "execute", eq_iff type "job")

  crud-grants :
      flag_or true p.enabled ≡ true
      → (type ≡ "node") ⊎ (type ≡ "edge")
      → crud_grants p action name ≡ true
      → grants action type name p ≡ true
  unfolding grants
  crud-grants on t c = ground (
    arith,
    eq_iff type "job",
    eq_iff type "node",
    eq_iff type "edge",
    eq_iff "node" "job",
    eq_iff "edge" "job",
  )

  Granted-grants : Granted action type name p → grants action type name p ≡ true
  Granted-grants (on, inl (a, t, f, c)) = job-grants on a t ((job_iff p name).1 (f, c))
  Granted-grants (on, inr (t, k, a)) = crud-grants on t ((crud_iff p action name).1 (k, a))

module _ (action type name : String) where
  any_grants-Any :
      (ps : List ObjectPermission)
      → any_grants action type name ps ≡ true
      → Any (Granted action type name) ps
  unfolding any_grants
  any_grants-Any [] h = absurd (false≢true h)
  any_grants-Any (p ∷ ps) h = elim (Bool-cases (grants action type name p)) [
    | inl e ↦ inl (grants-Granted action type name p e)
    | inr e ↦ inr (any_grants-Any ps (ground arith))
  ]

  Any-any_grants :
      (ps : List ObjectPermission)
      → Any (Granted action type name) ps
      → any_grants action type name ps ≡ true
  unfolding any_grants
  Any-any_grants [] h = absurd h
  Any-any_grants (p ∷ ps) (inl g) = rw (Granted-grants action type name p g)
  Any-any_grants (p ∷ ps) (inr r) = ground (arith, Any-any_grants ps r)

-- The permissions of a user's groups grant an action on a resource exactly when one that is enabled
-- grants it: a job that it lists, or an action on a node type or edge type that it covers.
pub check_object_permissions_iff :
    (ctx : AuthContext) (action resource : String)
    → (check_object_permissions ctx action resource ≡ true)
      ↔ Any (Granted action (split_once resource).0 (split_once resource).1) ctx.object_permissions
unfolding check_object_permissions
check_object_permissions_iff ctx action resource = (
  any_grants-Any action _ _ ctx.object_permissions,
  Any-any_grants action _ _ ctx.object_permissions,
)
