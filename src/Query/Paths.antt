-- ===== src/Query/Paths.antt =====
-- The resolution of one filter path: `_resolve_filter_path` and the methods that it calls, of
-- packages/query_engine/validator.py. Each returns its path and the errors that it appends; an
-- error is a constructor with what its message shows.
pub mod Legal
pub mod Sound
pub mod Reports
use net_graphy.Prelude.{
  ℕ, String, ◌<>◌, Bool, true, false, not, ◌&&◌, Option, none, some, List, [], ◌∷◌, contains,
  starts_with, split, if◌then◌else◌,
}
use net_graphy.Prelude.Dict.{lookup}
use net_graphy.Schema.Models.{
  AttributeType, type_value, AttributeDefinition, NodeTypeDefinition, EdgeTypeDefinition,
}
use net_graphy.Schema.Registry.{get_node_type}
use net_graphy.Query.Models.{
  FilterOperator, operator_value, operators_by_type, FilterCondition, Direction, outgoing, incoming,
  ResolvedPathSegment, ResolvedPath,
}
use net_graphy.Query.EdgeIndex.{QueryValidator, edge_at}

pub data QueryError : Type 0 where
  unknown_entity : String → QueryError
  limit_exceeds : ℕ → ℕ → String → QueryError
  sort_unknown not_sortable unknown_return_field : String → String → QueryError
  nesting_exceeds : ℕ → QueryError
  unknown_attribute not_filterable : String → String → QueryError
  path_too_deep : String → QueryError
  unknown_relationship : String → String → QueryError
  not_traversable no_existence_filter no_count_filter : String → QueryError
  operator_not_supported : FilterOperator → String → String → String → QueryError
  unknown_edge_or_target : String → String → QueryError
  invalid_target : String → String → String → QueryError
  unknown_target_type : String → QueryError

abbrev pub Resolution : Type 0
Resolution = Option ResolvedPath × List QueryError

abbrev or_none : Option (List String) → List String
or_none none = []
or_none (some names) = names

-- OPERATORS_BY_TYPE.get(attr.type.value, set())
unfoldable pub allowed_operators : AttributeType → List String
allowed_operators t = or_none (lookup (type_value t) operators_by_type)

unfoldable pub validate_operator : AttributeDefinition → FilterOperator → String → List QueryError
validate_operator attr operator context =
    if contains (operator_value operator) (allowed_operators attr.type)
    then []
    else operator_not_supported operator context attr.name (type_value attr.type) ∷ []

abbrev pub head? : List String → Option String
head? [] = none
head? (t ∷ ts) = some t

-- "incoming" when the type is among the edge's targets, and then the far end is a source.
unfoldable pub towards : EdgeTypeDefinition → String → Direction × List String
towards et type =
    if contains type et.target.node_types
    then (incoming, et.source.node_types)
    else (outgoing, et.target.node_types)

abbrev pub is_existence_operator : FilterOperator → Bool
is_existence_operator FilterOperator.exists = true
is_existence_operator FilterOperator.not_exists = true
is_existence_operator _ = false

-- operator.value.startswith("count_")
unfoldable pub is_count_operator : FilterOperator → Bool
is_count_operator operator = starts_with (operator_value operator) "count_"

-- The operators that a path of one part sends to `_resolve_relationship_filter`.
abbrev pub is_relationship_operator : FilterOperator → Bool
is_relationship_operator FilterOperator.exists = true
is_relationship_operator FilterOperator.not_exists = true
is_relationship_operator FilterOperator.count_eq = true
is_relationship_operator FilterOperator.count_gt = true
is_relationship_operator FilterOperator.count_gte = true
is_relationship_operator FilterOperator.count_lt = true
is_relationship_operator FilterOperator.count_lte = true
is_relationship_operator _ = false

abbrev pub attribute_segment : String → ResolvedPathSegment
attribute_segment name = record {
  edge_type = none;
  direction = outgoing;
  target_type = none;
  attribute = some name;
}

abbrev pub refuse : QueryError → Resolution
refuse e = (none, e ∷ [])

module _ (v : QueryValidator) where
  unfoldable pub resolve_relationship_filter :
      String → FilterOperator → NodeTypeDefinition → Resolution
  resolve_relationship_filter alias operator nt = elim (edge_at v nt.metadata.name alias) [
    | none ↦ refuse (unknown_relationship alias nt.metadata.name)
    | some et ↦
        let is_existence = is_existence_operator operator in
        let is_count = is_count_operator operator in
        if not et.query.traversable
        then refuse (not_traversable alias)
        else if is_existence && not et.query.supports_existence_filter
        then refuse (no_existence_filter alias)
        else if is_count && not et.query.supports_count_filter
        then refuse (no_count_filter alias)
        else let (direction, target_types) = towards et nt.metadata.name in
          (
            some (record {
              raw_path = alias;
              segments =
                  record {
                    edge_type = some et.metadata.name;
                    direction = direction;
                    target_type = head? target_types;
                    attribute = none;
                  }
                  ∷ [];
              is_relationship_existence = is_existence;
              is_relationship_count = is_count;
            }),
            [],
          )
  ]

  -- The first target type that has the attribute.
  unfoldable pub find_target :
      EdgeTypeDefinition
      → Direction
      → List String
      → String
      → String
      → FilterOperator
      → String
      → Resolution
  find_target et direction [] alias attr operator path = refuse (unknown_edge_or_target attr alias)
  find_target et direction (tt_name ∷ types) alias attr operator path =
      let rest = find_target et direction types alias attr operator path in
      elim (get_node_type v.registry tt_name) [
        | none ↦ rest
        | some target ↦ elim (lookup attr target.attributes) [
          | none ↦ rest
          | some definition ↦ (
            some (record {
              raw_path = path;
              segments =
                  record {
                    edge_type = some et.metadata.name;
                    direction = direction;
                    target_type = some tt_name;
                    attribute = none;
                  }
                  ∷ attribute_segment attr
                  ∷ [];
              is_relationship_existence = false;
              is_relationship_count = false;
            }),
            validate_operator definition operator tt_name,
          )
        ]
      ]

  unfoldable pub resolve_two_part_path :
      String → String → FilterOperator → NodeTypeDefinition → String → Resolution
  resolve_two_part_path alias attr operator nt path = elim (edge_at v nt.metadata.name alias) [
    | none ↦ refuse (unknown_relationship alias nt.metadata.name)
    | some et ↦
        let (direction, target_types) = towards et nt.metadata.name in
        if not et.query.traversable
        then refuse (not_traversable alias)
        else elim (lookup attr et.attributes) [
          | none ↦ find_target et direction target_types alias attr operator path
          | some definition ↦ (
            some (record {
              raw_path = path;
              segments =
                  record {
                    edge_type = some et.metadata.name;
                    direction = direction;
                    target_type = none;
                    attribute = some attr;
                  }
                  ∷ [];
              is_relationship_existence = false;
              is_relationship_count = false;
            }),
            validate_operator definition operator ("edge:" <> et.metadata.name),
          )
        ]
  ]

  unfoldable pub resolve_three_part_path :
      String → String → String → FilterOperator → NodeTypeDefinition → String → Resolution
  resolve_three_part_path alias type attr operator nt path =
      elim (edge_at v nt.metadata.name alias) [
        | none ↦ refuse (unknown_relationship alias nt.metadata.name)
        | some et ↦
            let (direction, valid_targets) = towards et nt.metadata.name in
            if not et.query.traversable
            then refuse (not_traversable alias)
            else if not (contains type valid_targets)
            then refuse (invalid_target type alias nt.metadata.name)
            else elim (get_node_type v.registry type) [
              | none ↦ refuse (unknown_target_type type)
              | some target ↦ elim (lookup attr target.attributes) [
                | none ↦ refuse (unknown_attribute type attr)
                | some definition ↦
                    if not definition.query.filterable then refuse (not_filterable type attr) else (
                      some (record {
                        raw_path = path;
                        segments =
                            record {
                              edge_type = some et.metadata.name;
                              direction = direction;
                              target_type = some type;
                              attribute = none;
                            }
                            ∷ attribute_segment attr
                            ∷ [];
                        is_relationship_existence = false;
                        is_relationship_count = false;
                      }),
                      validate_operator definition operator type,
                    )
              ]
            ]
      ]

  unfoldable pub resolve_direct : String → FilterOperator → NodeTypeDefinition → String → Resolution
  resolve_direct attr operator nt path =
      if is_relationship_operator operator
      then resolve_relationship_filter attr operator nt
      else elim (lookup attr nt.attributes) [
        | none ↦ refuse (unknown_attribute nt.metadata.name attr)
        | some definition ↦
            if not definition.query.filterable
            then refuse (not_filterable nt.metadata.name attr)
            else (
              some (record {
                raw_path = path;
                segments = attribute_segment attr ∷ [];
                is_relationship_existence = false;
                is_relationship_count = false;
              }),
              validate_operator definition operator nt.metadata.name,
            )
      ]

  -- The cases of `_resolve_filter_path` on the number of parts.
  unfoldable pub resolve_parts :
      List String → FilterOperator → NodeTypeDefinition → String → Resolution
  resolve_parts (a ∷ []) operator nt path = resolve_direct a operator nt path
  resolve_parts (a ∷ b ∷ []) operator nt path = resolve_two_part_path a b operator nt path
  resolve_parts (a ∷ b ∷ c ∷ []) operator nt path = resolve_three_part_path a b c operator nt path
  resolve_parts _ operator nt path = refuse (path_too_deep path)

  unfoldable pub resolve_filter_path : FilterCondition → NodeTypeDefinition → Resolution
  resolve_filter_path c nt = resolve_parts (split b'.' c.path) c.operator nt c.path
