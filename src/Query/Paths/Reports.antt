-- ===== src/Query/Paths/Reports.antt =====
-- What a resolution reports, and what it does not ask.
use net_graphy.Prelude.{
  String, ◌≡◌, ◌≢◌, inl, inr, none, some, List, [], ◌∷◌, arith, Option-cases, split,
}
use net_graphy.Schema.Models.{NodeTypeDefinition, EdgeTypeDefinition}
use net_graphy.Query.Models.{FilterOperator, FilterCondition, Direction, ResolvedPath}
use net_graphy.Query.EdgeIndex.{QueryValidator, edge_at}
use net_graphy.Query.Paths.{
  towards, resolve_relationship_filter, find_target, resolve_two_part_path, resolve_three_part_path,
  resolve_direct, resolve_parts, resolve_filter_path,
}

module _ (v : QueryValidator) (nt : NodeTypeDefinition) (op : FilterOperator) where
  find_target_reports :
      (et : EdgeTypeDefinition) (dir : Direction) (types : List String) (alias a path : String)
      → (find_target v et dir types alias a op path).1 ≡ []
      → (find_target v et dir types alias a op path).0 ≢ none
  unfolding find_target
  find_target_reports et dir [] alias a path h = ground arith
  find_target_reports et dir (t ∷ types) alias a path h =
      ground (arith, find_target_reports et dir types alias a path)

  relationship_reports :
      (a : String)
      → (resolve_relationship_filter v a op nt).1 ≡ []
      → (resolve_relationship_filter v a op nt).0 ≢ none
  unfolding resolve_relationship_filter
  relationship_reports a h = ground arith

  direct_reports :
      (a path : String)
      → (resolve_direct v a op nt path).1 ≡ []
      → (resolve_direct v a op nt path).0 ≢ none
  unfolding resolve_direct
  direct_reports a path h = ground (arith, relationship_reports a)

  two_part_reports :
      (alias a path : String)
      → (resolve_two_part_path v alias a op nt path).1 ≡ []
      → (resolve_two_part_path v alias a op nt path).0 ≢ none
  unfolding resolve_two_part_path
  two_part_reports alias a path h = elim (Option-cases (edge_at v nt.metadata.name alias)) [
    | inl q ↦ ground arith
    | inr (et, q) ↦ ground (
      arith,
      find_target_reports et (towards et nt.metadata.name).0 (towards et nt.metadata.name).1 alias a
          path,
    )
  ]

  three_part_reports :
      (alias type a path : String)
      → (resolve_three_part_path v alias type a op nt path).1 ≡ []
      → (resolve_three_part_path v alias type a op nt path).0 ≢ none
  unfolding resolve_three_part_path
  three_part_reports alias type a path h = ground arith

  parts_reports :
      (parts : List String) (path : String)
      → (resolve_parts v parts op nt path).1 ≡ []
      → (resolve_parts v parts op nt path).0 ≢ none
  unfolding resolve_parts
  parts_reports [] path h = ground arith
  parts_reports (a ∷ []) path h = direct_reports a path h
  parts_reports (a ∷ b ∷ []) path h = two_part_reports a b path h
  parts_reports (a ∷ b ∷ c ∷ []) path h = three_part_reports a b c path h
  parts_reports (a ∷ b ∷ c ∷ d ∷ parts) path h = ground arith

-- A resolution that appends no error has a path.
pub resolve_reports :
    (v : QueryValidator) (nt : NodeTypeDefinition) (c : FilterCondition)
    → (resolve_filter_path v c nt).1 ≡ []
    → (p : ResolvedPath) × (resolve_filter_path v c nt ≡ (some p, []))
unfolding resolve_filter_path
resolve_reports v nt c h =
    elim (Option-cases (resolve_parts v (split b'.' c.path) c.operator nt c.path).0) [
      | inl e ↦ absurd (parts_reports v nt c.operator (split b'.' c.path) c.path h e)
      | inr (p, e) ↦ (p, cc (e, h))
    ]
