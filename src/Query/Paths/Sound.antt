-- ===== src/Query/Paths/Sound.antt =====
-- Each branch of the resolution against what it promises.
use net_graphy.Prelude.{
  String, ◌≡◌, ◌≢◌, inl, inr, true, false, none, some, List, [], ◌∷◌, arith, contains, ==_refl,
  Bool-cases, Option-cases, split,
}
use net_graphy.Prelude.Dict.{lookup}
use net_graphy.Schema.Models.{AttributeDefinition, NodeTypeDefinition, EdgeTypeDefinition}
use net_graphy.Schema.Registry.{get_node_type}
use net_graphy.Query.Models.{FilterOperator, FilterCondition, Direction, ResolvedPath}
use net_graphy.Query.EdgeIndex.{QueryValidator, edge_at}
use net_graphy.Query.Paths.{
  validate_operator, towards, is_relationship_operator, resolve_relationship_filter, find_target,
  resolve_two_part_path, resolve_three_part_path, resolve_direct, resolve_parts,
  resolve_filter_path,
}
use net_graphy.Query.Paths.Legal.{
  IsDirect, IsOnEdge, IsTarget, IsAtFarEnd, IsRelationship, Legal, direct, on_edge, at_far_end,
  relationship,
}

module _ (v : QueryValidator) (nt : NodeTypeDefinition) (op : FilterOperator)
    (p : ResolvedPath) where
  resolve_filter-IsRelationship :
      (alias : String)
      → is_relationship_operator op ≡ true
      → resolve_relationship_filter v alias op nt ≡ (some p, [])
      → IsRelationship v nt op p alias
  unfolding resolve_relationship_filter
  resolve_filter-IsRelationship alias e h = ground arith

  resolve_direct-relationship :
      (a path : String)
      → is_relationship_operator op ≡ true
      → resolve_direct v a op nt path ≡ (some p, [])
      → resolve_relationship_filter v a op nt ≡ (some p, [])
  unfolding resolve_direct
  resolve_direct-relationship a path e h = ground arith

  resolve_direct-IsDirect :
      (a path : String)
      → is_relationship_operator op ≡ false
      → resolve_direct v a op nt path ≡ (some p, [])
      → IsDirect nt op p a
  unfolding resolve_direct validate_operator
  resolve_direct-IsDirect a path e h = elim (Option-cases (lookup a nt.attributes)) [
    | inl q ↦ absurd (ground arith)
    | inr (d, q) ↦ (d, q, ground arith, ground arith, ground arith, (ground arith, ground arith))
  ]

  -- An attribute of the edge is taken before one of the far end.
  two_part-OnEdge :
      (alias a path : String) {et : EdgeTypeDefinition} {d : AttributeDefinition}
      → edge_at v nt.metadata.name alias ≡ some et
      → lookup a et.attributes ≡ some d
      → resolve_two_part_path v alias a op nt path ≡ (some p, [])
      → IsOnEdge v nt op p alias a
  unfolding resolve_two_part_path validate_operator
  two_part-OnEdge alias a path {et} {d} q r h =
      (et, d, (q, ground arith), r, ground arith, ground arith, (ground arith, ground arith))

  find_target-here :
      (et : EdgeTypeDefinition) (dir : Direction) (t : String) (types : List String)
      (alias a path : String) {target : NodeTypeDefinition} {d : AttributeDefinition}
      → get_node_type v.registry t ≡ some target
      → lookup a target.attributes ≡ some d
      → find_target v et dir (t ∷ types) alias a op path ≡ (some p, [])
      → IsTarget v op p et dir t a
  unfolding find_target validate_operator
  find_target-here et dir t types alias a path {target} {d} e q h =
      (target, d, e, q, ground arith, ground arith, (ground arith, ground arith))

  find_target-later :
      (et : EdgeTypeDefinition) (dir : Direction) (t : String) (types : List String)
      (alias a path : String)
      → ((target : NodeTypeDefinition)
          → get_node_type v.registry t ≡ some target
          → lookup a target.attributes ≡ none)
      → find_target v et dir (t ∷ types) alias a op path ≡ (some p, [])
      → find_target v et dir types alias a op path ≡ (some p, [])
  unfolding find_target
  find_target-later et dir t types alias a path lacks h =
      elim (Option-cases (get_node_type v.registry t)) [
        | inl e ↦ ground arith
        | inr (target, e) ↦ ground (arith, lacks target e)
      ]

  -- The type that a search finds is one of those searched.
  find_target-IsTarget :
      (et : EdgeTypeDefinition) (dir : Direction) (types : List String) (alias a path : String)
      → find_target v et dir types alias a op path ≡ (some p, [])
      → (type : String) × (contains type types ≡ true) × IsTarget v op p et dir type a
  unfolding find_target contains
  find_target-IsTarget et dir [] alias a path h = absurd (ground arith)
  find_target-IsTarget et dir (t ∷ types) alias a path h =
      let rest = find_target-IsTarget et dir types alias a path in
      elim (Option-cases (get_node_type v.registry t)) [
        | inl e ↦ found_later rest (λ target q. absurd (ground arith))
        | inr (target, e) ↦ elim (Option-cases (lookup a target.attributes)) [
          | inl q ↦ found_later rest (λ other r. ground arith)
          | inr (d, q) ↦
              (t, ground (arith, ==_refl t), find_target-here et dir t types alias a path e q h)
        ]
      ]
    where
      found_later :
          (find_target v et dir types alias a op path ≡ (some p, [])
            → (type : String) × (contains type types ≡ true) × IsTarget v op p et dir type a)
          → ((target : NodeTypeDefinition)
              → get_node_type v.registry t ≡ some target
              → lookup a target.attributes ≡ none)
          → (type : String) × (contains type (t ∷ types) ≡ true) × IsTarget v op p et dir type a
      found_later rest lacks =
          let (type, m, target) = rest (find_target-later et dir t types alias a path lacks h) in
          (type, ground arith, target)

  two_part-AtFarEnd :
      (alias a path : String) {et : EdgeTypeDefinition}
      → edge_at v nt.metadata.name alias ≡ some et
      → lookup a et.attributes ≡ none
      → resolve_two_part_path v alias a op nt path ≡ (some p, [])
      → (et.query.traversable ≡ true)
        × (find_target v et
              (towards et nt.metadata.name).0
              (towards et nt.metadata.name).1
              alias
              a
              op
              path
            ≡ (some p, []))
  unfolding resolve_two_part_path
  two_part-AtFarEnd alias a path {et} q r h = ground arith

  no_edge :
      (alias a path : String)
      → edge_at v nt.metadata.name alias ≡ none
      → resolve_two_part_path v alias a op nt path ≢ (some p, [])
  unfolding resolve_two_part_path
  no_edge alias a path q h = ground arith

  two_part-Legal :
      (alias a path : String)
      → resolve_two_part_path v alias a op nt path ≡ (some p, [])
      → Legal v nt op p
  two_part-Legal alias a path h = elim (Option-cases (edge_at v nt.metadata.name alias)) [
    | inl q ↦ absurd (no_edge alias a path q h)
    | inr (et, q) ↦ elim (Option-cases (lookup a et.attributes)) [
      | inr (d, r) ↦ on_edge alias a (two_part-OnEdge alias a path q r h)
      | inl r ↦
          let (follow, search_found) = two_part-AtFarEnd alias a path q r h in
          let (type, m, target) =
            find_target-IsTarget et (towards et nt.metadata.name).0 (towards et nt.metadata.name).1
              alias a path search_found in
          at_far_end alias type a (et, (q, follow), m, target)
    ]
  ]

  three_part-Legal :
      (alias type a path : String)
      → resolve_three_part_path v alias type a op nt path ≡ (some p, [])
      → IsAtFarEnd v nt op p alias type a
  unfolding resolve_three_part_path validate_operator
  three_part-Legal alias type a path h = elim (Option-cases (edge_at v nt.metadata.name alias)) [
    | inl q ↦ absurd (ground arith)
    | inr (et, q) ↦ elim (Option-cases (get_node_type v.registry type)) [
      | inl r ↦ absurd (ground arith)
      | inr (target, r) ↦ elim (Option-cases (lookup a target.attributes)) [
        | inl k ↦ absurd (ground arith)
        | inr (d, k) ↦ (
          et,
          (q, ground arith),
          ground arith,
          (target, d, r, k, ground arith, ground arith, (ground arith, ground arith)),
        )
      ]
    ]
  ]

  resolve_parts-Legal :
      (parts : List String) (path : String)
      → resolve_parts v parts op nt path ≡ (some p, [])
      → Legal v nt op p
  unfolding resolve_parts
  resolve_parts-Legal [] path h = absurd (ground arith)
  resolve_parts-Legal (a ∷ []) path h = elim (Bool-cases (is_relationship_operator op)) [
    | inl e ↦
        relationship a (resolve_filter-IsRelationship a e (resolve_direct-relationship a path e h))
    | inr e ↦ direct a (resolve_direct-IsDirect a path e h)
  ]
  resolve_parts-Legal (a ∷ b ∷ []) path h = two_part-Legal a b path h
  resolve_parts-Legal (a ∷ b ∷ c ∷ []) path h = at_far_end a b c (three_part-Legal a b c path h)
  resolve_parts-Legal (a ∷ b ∷ c ∷ d ∷ parts) path h = absurd (ground arith)

-- A path that resolves without an error is legal: its attribute is known to the schema and of a
-- type that allows the operator, its edges are known and traversable, it leads to a type that the
-- edge allows, and a test of existence or count is one that the edge supports. An attribute of
-- the type itself is filterable.
pub resolve-Legal :
    (v : QueryValidator) (nt : NodeTypeDefinition) (c : FilterCondition) {p : ResolvedPath}
    → resolve_filter_path v c nt ≡ (some p, [])
    → Legal v nt c.operator p
unfolding resolve_filter_path
resolve-Legal v nt c {p} h = resolve_parts-Legal v nt c.operator p (split b'.' c.path) c.path h
