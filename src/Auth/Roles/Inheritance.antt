-- ===== src/Auth/Roles/Inheritance.antt =====
-- What roles inherit, and what they grant.
use text.Mathlib.TextLemmas.{nil-append, cons-append}
use Prim.Native.Char.{code}
use net_graphy.Prelude.{
  ℕ, ◌+◌, ◌≤◌, ◌<◌, String, ◌<>◌, ◌≡◌, ◌≢◌, refl, ap, ◌∙◌, Bool, true, false, not, ◌&&◌, ◌||◌, inl,
  inr, List, [], ◌∷◌, ◌++◌, arith, any, any-append, contains, eq_iff, starts_with, Bool-cases, ok,
  ◌==◌, if◌then◌else◌, nat_eq, false≢true,
}
use net_graphy.Glob.Laws.{is_plain, fnmatch_prefix}
use net_graphy.Auth.Roles.{
  role_own_permissions, role_order, collect, get_role_permissions, permission_matches, role_allows,
}

-- `hi` is in the order, and `lo` comes no later than `hi`.
unfoldable pub no_later : String → String → List String → Bool
no_later lo hi [] = false
no_later lo hi (r ∷ rs) =
    let rest = no_later lo hi rs in
    if r == lo then contains hi (r ∷ rs) else if r == hi then false else rest

any-own :
    (test : String → Bool) (r : String) (b : Bool) (rest : List String)
    → any test (role_own_permissions r ++ (if b then [] else rest))
      ≡ (any test (role_own_permissions r) || (not b && any test rest))
any-own test r true rest = any-append test (role_own_permissions r) []
any-own test r false rest = any-append test (role_own_permissions r) rest

any-collect :
    (test : String → Bool) (role r : String) (rs : List String)
    → any test (collect role (r ∷ rs))
      ≡ (any test (role_own_permissions r) || (not (r == role) && any test (collect role rs)))
unfolding collect
any-collect test role r rs = any-own test r (r == role) (collect role rs)

collect_monotone :
    (test : String → Bool) (lo hi : String) (order : List String)
    → no_later lo hi order ≡ true
    → any test (collect lo order) ≡ true
    → any test (collect hi order) ≡ true
unfolding no_later
collect_monotone test lo hi [] n h = absurd (false≢true n)
collect_monotone test lo hi (r ∷ rs) n h =
    ground
      (arith, any-collect test lo r rs, any-collect test hi r rs, collect_monotone test lo hi rs)

no_later-contains :
    (lo hi : String) (order : List String)
    → no_later lo hi order ≡ true
    → (contains lo order ≡ true) × (contains hi order ≡ true)
unfolding no_later contains
no_later-contains lo hi [] n = absurd (false≢true n)
no_later-contains lo hi (r ∷ rs) n =
    ground (arith, eq_iff r lo, eq_iff lo r, eq_iff hi r, no_later-contains lo hi rs)

-- A role that stands no earlier in the order is granted whatever the other is granted.
pub role_monotone :
    (lo hi action resource : String)
    → no_later lo hi role_order ≡ true
    → role_allows lo action resource ≡ ok true
    → role_allows hi action resource ≡ ok true
unfolding role_allows get_role_permissions
role_monotone lo hi action resource n h = ground (
  arith,
  no_later-contains lo hi role_order n,
  collect_monotone (permission_matches action resource) lo hi role_order n,
)

-- The colons of a text.
unfoldable pub colons : String → ℕ
colons String.[] = 0
colons (String.◌∷◌ c s) = (if nat_eq (code c) b':' then 1 else 0) + colons s

colons-append : (s t : String) → colons (s <> t) ≡ colons s + colons t
unfolding colons
colons-append String.[] t = rw nil-append (omega arith)
colons-append (String.◌∷◌ c s) t = rw cons-append (omega (arith, colons-append s t))

colons-starts_with : (s p : String) → starts_with s p ≡ true → colons p ≤ colons s
unfolding colons starts_with
colons-starts_with s String.[] h = omega arith
colons-starts_with String.[] (String.◌∷◌ d p) h = absurd (false≢true h)
colons-starts_with (String.◌∷◌ c s) (String.◌∷◌ d p) h = ground (arith, colons-starts_with s p)

module _ (action resource : String) (a : colons action ≡ 0) (r : colons resource ≡ 0) where
  required-colons : colons (action <> (":" <> resource)) ≡ 1
  required-colons =
      colons-append action (":" <> resource)
      ∙ (ap (λ n. colons action + n) (colons-append ":" resource) ∙ unfold colons in omega arith)

  -- A pattern for resources with a colon takes none without.
  refused :
      (p : String)
      → is_plain p ≡ true
      → 1 < colons p
      → ((p <> "*") == "*") ≡ false
      → permission_matches action resource (p <> "*") ≡ false
  unfolding permission_matches
  refused p plain two ne = elim (Bool-cases (starts_with (action <> (":" <> resource)) p)) [
    | inl e ↦
        absurd
          (omega (arith, required-colons, colons-starts_with (action <> (":" <> resource)) p e))
    | inr e ↦ rw (ne, fnmatch_prefix p (action <> (":" <> resource)) plain) e
  ]

  abbrev IsDenied : String → Type 0
  IsDenied g = permission_matches action resource g ≡ false

  viewer_denied : any (permission_matches action resource) (role_own_permissions "viewer") ≡ false
  unfolding role_own_permissions is_plain colons
  viewer_denied = ground (
    arith,
    refused "read:node:" refl (omega arith) refl,
    refused "read:edge:" refl (omega arith) refl,
    refused "read:query:" refl (omega arith) refl,
    refused "read:schema:" refl (omega arith) refl,
  )

  editor_denied : any (permission_matches action resource) (role_own_permissions "editor") ≡ false
  unfolding role_own_permissions is_plain colons
  editor_denied = ground (
    arith,
    refused "write:node:" refl (omega arith) refl,
    refused "write:edge:" refl (omega arith) refl,
    refused "execute:query:" refl (omega arith) refl,
  )

  operator_denied :
      any (permission_matches action resource) (role_own_permissions "operator") ≡ false
  unfolding role_own_permissions is_plain colons
  operator_denied = ground (
    arith,
    refused "execute:job:" refl (omega arith) refl,
    refused "manage:sync:" refl (omega arith) refl,
    refused "manage:parser:" refl (omega arith) refl,
    refused "manage:iac:" refl (omega arith) refl,
  )

  admin_denied :
      permission_matches action resource "execute:cypher" ≡ false
      → any (permission_matches action resource) (role_own_permissions "admin") ≡ false
  unfolding role_own_permissions is_plain colons
  admin_denied e = ground (
    arith,
    refused "manage:user:" refl (omega arith) refl,
    refused "manage:group:" refl (omega arith) refl,
    refused "manage:role:" refl (omega arith) refl,
    refused "manage:schema:" refl (omega arith) refl,
  )

  -- No role below superadmin is granted an action on a resource that is named without a colon,
  -- such as "parser", "sync" or "iac", other than to execute "cypher": the patterns of the roles
  -- all ask for one more part.
  pub bare_resource_denied :
      (role : String)
      → contains role role_order ≡ true
      → role ≢ "superadmin"
      → permission_matches action resource "execute:cypher" ≡ false
      → role_allows role action resource ≡ ok false
  unfolding role_allows get_role_permissions
  bare_resource_denied role known ne e =
      let test = permission_matches action resource in
      let none_matches : any test (collect role role_order) ≡ false =
        unfold contains in
        ground (
          arith,
          viewer_denied,
          editor_denied,
          operator_denied,
          admin_denied e,
          any-collect test role "viewer" ("editor" ∷ "operator" ∷ "admin" ∷ "superadmin" ∷ []),
          any-collect test role "editor" ("operator" ∷ "admin" ∷ "superadmin" ∷ []),
          any-collect test role "operator" ("admin" ∷ "superadmin" ∷ []),
          any-collect test role "admin" ("superadmin" ∷ []),
          eq_iff role "superadmin",
          eq_iff role "viewer",
          eq_iff "viewer" role,
          eq_iff role "editor",
          eq_iff "editor" role,
          eq_iff role "operator",
          eq_iff "operator" role,
          eq_iff role "admin",
          eq_iff "admin" role,
        ) in
      rw (known, none_matches)
