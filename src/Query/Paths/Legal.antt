-- ===== src/Query/Paths/Legal.antt =====
-- What a resolved path promises the compiler, stated against the schema and the edge index.
use net_graphy.Prelude.{String, ◌≡◌, true, false, Option, none, some, [], ◌∷◌, contains}
use net_graphy.Prelude.Dict.{lookup}
use net_graphy.Schema.Models.{AttributeDefinition, NodeTypeDefinition, EdgeTypeDefinition}
use net_graphy.Schema.Registry.{get_node_type}
use net_graphy.Query.Models.{
  FilterOperator, operator_value, Direction, ResolvedPathSegment, ResolvedPath,
}
use net_graphy.Query.EdgeIndex.{QueryValidator, edge_at}
use net_graphy.Query.Paths.{
  allowed_operators, towards, is_existence_operator, is_count_operator, is_relationship_operator,
  head?, attribute_segment,
}

-- The operator is one that the attribute's type allows.
abbrev pub Supports : FilterOperator → AttributeDefinition → Type 0
Supports op d = contains (operator_value op) (allowed_operators d.type) ≡ true

abbrev pub IsPlain : ResolvedPath → Type 0
IsPlain p = (p.is_relationship_existence ≡ false) × (p.is_relationship_count ≡ false)

-- The edge that an alias names for a type, where queries may follow it.
abbrev pub Follows : QueryValidator → NodeTypeDefinition → String → EdgeTypeDefinition → Type 0
Follows v nt alias et = (edge_at v nt.metadata.name alias ≡ some et) × (et.query.traversable ≡ true)

abbrev pub edge_segment :
    EdgeTypeDefinition → NodeTypeDefinition → Option String → Option String → ResolvedPathSegment
edge_segment et nt target attr = record {
  edge_type = some et.metadata.name;
  direction = (towards et nt.metadata.name).0;
  target_type = target;
  attribute = attr;
}

-- An attribute of the type itself: known, filterable, and of a type that allows the operator.
abbrev pub IsDirect : NodeTypeDefinition → FilterOperator → ResolvedPath → String → Type 0
IsDirect nt op p a =
    (d : AttributeDefinition) × (lookup a nt.attributes ≡ some d)
    × (d.query.filterable ≡ true)
    × Supports op d
    × (p.segments ≡ attribute_segment a ∷ [])
    × IsPlain p

-- An attribute of the edge.
abbrev pub IsOnEdge :
    QueryValidator → NodeTypeDefinition → FilterOperator → ResolvedPath → String → String → Type 0
IsOnEdge v nt op p alias a =
    (et : EdgeTypeDefinition) × (d : AttributeDefinition) × Follows v nt alias et
    × (lookup a et.attributes ≡ some d)
    × Supports op d
    × (p.segments ≡ edge_segment et nt none (some a) ∷ [])
    × IsPlain p

-- An attribute of a node type that the registry knows.
abbrev pub IsTarget :
    QueryValidator
    → FilterOperator
    → ResolvedPath
    → EdgeTypeDefinition
    → Direction
    → String
    → String
    → Type 0
IsTarget v op p et dir type a =
    (target : NodeTypeDefinition) × (d : AttributeDefinition) × (get_node_type v.registry type
      ≡ some target)
    × (lookup a target.attributes ≡ some d)
    × Supports op d
    × (p.segments
        ≡ record {
          edge_type = some et.metadata.name;
          direction = dir;
          target_type = some type;
          attribute = none;
        }
          ∷ attribute_segment a
          ∷ [])
    × IsPlain p

-- An attribute of a node type at the far end of the edge.
abbrev pub IsAtFarEnd :
    QueryValidator
    → NodeTypeDefinition
    → FilterOperator
    → ResolvedPath
    → String
    → String
    → String
    → Type 0
IsAtFarEnd v nt op p alias type a =
    (et : EdgeTypeDefinition) × Follows v nt alias et
    × (contains type (towards et nt.metadata.name).1 ≡ true)
    × IsTarget v op p et (towards et nt.metadata.name).0 type a

-- The edge alone, for the operators that ask whether it is there or how often.
abbrev pub IsRelationship :
    QueryValidator → NodeTypeDefinition → FilterOperator → ResolvedPath → String → Type 0
IsRelationship v nt op p alias =
    (et : EdgeTypeDefinition) × Follows v nt alias et
    × (is_relationship_operator op ≡ true)
    × (p.segments ≡ edge_segment et nt (head? (towards et nt.metadata.name).1) none ∷ [])
    × (p.is_relationship_existence ≡ is_existence_operator op)
    × (p.is_relationship_count ≡ is_count_operator op)
    × (is_existence_operator op ≡ true → et.query.supports_existence_filter ≡ true)
    × (is_count_operator op ≡ true → et.query.supports_count_filter ≡ true)

pub data Legal (v : QueryValidator) (nt : NodeTypeDefinition) (op : FilterOperator)
    (p : ResolvedPath) : Type 0 where
  direct : (a : String) → IsDirect nt op p a → Legal v nt op p
  on_edge : (alias a : String) → IsOnEdge v nt op p alias a → Legal v nt op p
  at_far_end : (alias type a : String) → IsAtFarEnd v nt op p alias type a → Legal v nt op p
  relationship : (alias : String) → IsRelationship v nt op p alias → Legal v nt op p
