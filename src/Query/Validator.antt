-- ===== src/Query/Validator.antt =====
-- `QueryValidator.validate` and `_validate_filter_group`, packages/query_engine/validator.py.
pub mod Filters
pub mod Accepts
use net_graphy.Prelude.{
  ℕ, ◌+◌, String, not, ◌&&◌, Option, none, some, List, [], ◌∷◌, ◌++◌, ltb, ◌==◌, if◌then◌else◌,
  Result, ok, raised,
}
use net_graphy.Prelude.Dict.{lookup, has}
use net_graphy.Schema.Models.{NodeTypeDefinition}
use net_graphy.Schema.Registry.{get_node_type}
use net_graphy.Query.Models.{
  FilterGroup, group, Conditions, none_left, condition, nested, SortField, QueryAst, ResolvedPath,
}
use net_graphy.Query.EdgeIndex.{QueryValidator}
use net_graphy.Query.Paths.{
  QueryError, unknown_entity, limit_exceeds, sort_unknown, not_sortable, unknown_return_field,
  nesting_exceeds, Resolution, resolve_filter_path,
}

-- The two lists that `validate` hands down: resolved paths, and errors.
pub record Findings : Type 0 where
  pub resolved : List ResolvedPath
  pub errors : List QueryError

abbrev pub nothing_found : Findings
nothing_found = record { resolved = []; errors = [] }

abbrev pub found : Resolution → Findings → Findings
found (none, es) rest = record { resolved = rest.resolved; errors = es ++ rest.errors }
found (some path, es) rest = record { resolved = path ∷ rest.resolved; errors = es ++ rest.errors }

abbrev pub join_findings : Findings → Findings → Findings
join_findings a b = record { resolved = a.resolved ++ b.resolved; errors = a.errors ++ b.errors }

module _ (v : QueryValidator) (nt : NodeTypeDefinition) (max_depth : ℕ) where
  unfoldable mutual
    pub validate_group : FilterGroup → ℕ → Findings
    validate_group (group op conditions) depth =
        let within = validate_conditions conditions depth in
        if ltb max_depth depth
        then record { resolved = []; errors = nesting_exceeds max_depth ∷ [] }
        else within

    pub validate_conditions : Conditions → ℕ → Findings
    validate_conditions none_left depth = nothing_found
    validate_conditions (condition c rest) depth =
        found (resolve_filter_path v c nt) (validate_conditions rest depth)
    validate_conditions (nested g rest) depth =
        join_findings (validate_group g (depth + 1)) (validate_conditions rest depth)

unfoldable pub validate_filters :
    QueryValidator → NodeTypeDefinition → Option FilterGroup → Findings
validate_filters v nt none = nothing_found
validate_filters v nt (some g) = validate_group v nt nt.query.max_filter_nesting g 0

unfoldable pub sort_errors : NodeTypeDefinition → String → List SortField → List QueryError
sort_errors nt entity [] = []
sort_errors nt entity (sf ∷ sort) =
    let rest = sort_errors nt entity sort in
    elim (lookup sf.field nt.attributes) [
      | none ↦ sort_unknown entity sf.field ∷ rest
      | some attr ↦ if attr.query.sortable then rest else not_sortable entity sf.field ∷ rest
    ]

unfoldable pub field_errors : NodeTypeDefinition → String → List String → List QueryError
field_errors nt entity [] = []
field_errors nt entity (f ∷ fields) =
    let rest = field_errors nt entity fields in
    if not (has f nt.attributes) && not (f == "id")
    then unknown_return_field entity f ∷ rest
    else rest

abbrev pub selected : Option (List String) → List String
selected none = []
selected (some fields) = fields

unfoldable pub limit_errors : NodeTypeDefinition → QueryAst → List QueryError
limit_errors nt ast =
    if ltb nt.query.max_page_size ast.pagination.limit
    then limit_exceeds ast.pagination.limit nt.query.max_page_size ast.entity ∷ []
    else []

unfoldable pub shape_errors : NodeTypeDefinition → QueryAst → List QueryError
shape_errors nt ast =
    limit_errors nt ast
    ++ (sort_errors nt ast.entity ast.sort ++ field_errors nt ast.entity (selected ast.fields))

abbrev pub raise_errors :
    List QueryError → List ResolvedPath → Result (List QueryError) (List ResolvedPath)
raise_errors [] resolved = ok resolved
raise_errors (e ∷ es) resolved = raised (e ∷ es)

unfoldable pub validate : QueryValidator → QueryAst → Result (List QueryError) (List ResolvedPath)
validate v ast = elim (get_node_type v.registry ast.entity) [
  | none ↦ raised (unknown_entity ast.entity ∷ [])
  | some nt ↦
      let findings = validate_filters v nt ast.filters in
      raise_errors (shape_errors nt ast ++ findings.errors) findings.resolved
]
