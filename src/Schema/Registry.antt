-- ===== src/Schema/Registry.antt =====
-- packages/schema_engine/registry.py: the state of `SchemaRegistry`, loading and its queries. What
-- is logged is returned as a list.
pub mod Mixins
pub mod Loading
pub mod References
use net_graphy.Prelude.{
  String, Bool, true, false, not, ◌||◌, Option, none, some, List, [], ◌∷◌, ◌++◌, contains, is_given,
  if◌then◌else◌, Result, ok, raised, keep,
}
use net_graphy.Prelude.Dict.{Dict, lookup, insert, has, values}
use net_graphy.Schema.Models.{
  AttributeDefinition, NodeTypeDefinition, EdgeTypeDefinition, MixinDefinition, EnumTypeDefinition,
}

pub record SchemaRegistry : Type 0 where
  pub node_types : Dict NodeTypeDefinition
  pub edge_types : Dict EdgeTypeDefinition
  pub mixins : Dict MixinDefinition
  pub enum_types : Dict EnumTypeDefinition

abbrev pub empty_registry : SchemaRegistry
empty_registry = record { node_types = []; edge_types = []; mixins = []; enum_types = [] }

unfoldable pub get_node_type : SchemaRegistry → String → Option NodeTypeDefinition
unfolding lookup
get_node_type r name = lookup name r.node_types

unfoldable pub get_edge_type : SchemaRegistry → String → Option EdgeTypeDefinition
unfolding lookup
get_edge_type r name = lookup name r.edge_types

unfoldable pub get_mixin : SchemaRegistry → String → Option MixinDefinition
unfolding lookup
get_mixin r name = lookup name r.mixins

unfoldable pub get_enum_type : SchemaRegistry → String → Option EnumTypeDefinition
unfolding lookup
get_enum_type r name = lookup name r.enum_types

-- `SchemaNotFoundError` with the kind and the name of its message.
pub data SchemaError : Type 0 where
  not_found : String → String → SchemaError

unfoldable pub require_node_type : SchemaRegistry → String → Result SchemaError NodeTypeDefinition
require_node_type r name = elim (get_node_type r name) [
  | none ↦ raised (not_found "NodeType" name)
  | some defn ↦ ok defn
]

unfoldable pub require_edge_type : SchemaRegistry → String → Result SchemaError EdgeTypeDefinition
require_edge_type r name = elim (get_edge_type r name) [
  | none ↦ raised (not_found "EdgeType" name)
  | some defn ↦ ok defn
]

-- What a schema file defines.
pub data Definition : Type 0 where
  node_type : NodeTypeDefinition → Definition
  edge_type : EdgeTypeDefinition → Definition
  mixin : MixinDefinition → Definition
  enum_type : EnumTypeDefinition → Definition

-- `_register`
unfoldable pub register : Definition → SchemaRegistry → SchemaRegistry
register (node_type d) r = record r { node_types = insert d.metadata.name d r.node_types }
register (edge_type d) r = record r { edge_types = insert d.metadata.name d r.edge_types }
register (mixin d) r = record r { mixins = insert d.metadata.name d r.mixins }
register (enum_type d) r = record r { enum_types = insert d.metadata.name d r.enum_types }

unfoldable pub register_all : List Definition → SchemaRegistry → SchemaRegistry
register_all [] r = r
register_all (d ∷ ds) r = register_all ds (register d r)

-- The innermost loop of `_resolve_mixins`: attributes that are not yet there.
unfoldable pub add_missing :
    Dict AttributeDefinition → Dict AttributeDefinition → Dict AttributeDefinition
add_missing [] attrs = attrs
add_missing ((name, attr) ∷ more) attrs =
    add_missing more (if has name attrs then attrs else insert name attr attrs)

unfoldable pub merge_mixins :
    Dict MixinDefinition → List String → Dict AttributeDefinition → Dict AttributeDefinition
merge_mixins mixins [] attrs = attrs
merge_mixins mixins (name ∷ names) attrs =
    merge_mixins mixins names
      (elim (lookup name mixins) [ none ↦ attrs | some m ↦ add_missing m.attributes attrs ])

abbrev pub with_mixins : Dict MixinDefinition → NodeTypeDefinition → NodeTypeDefinition
with_mixins mixins nt = record nt { attributes = merge_mixins mixins nt.mixins nt.attributes }

unfoldable pub resolve_each :
    Dict MixinDefinition → Dict NodeTypeDefinition → Dict NodeTypeDefinition
resolve_each mixins [] = []
resolve_each mixins ((name, nt) ∷ types) = (name, with_mixins mixins nt) ∷ resolve_each mixins types

unfoldable pub resolve_mixins : SchemaRegistry → SchemaRegistry
resolve_mixins r = record r { node_types = resolve_each r.mixins r.node_types }

pub data ReferenceError : Type 0 where
  unknown_source unknown_target : String → String → ReferenceError

unfoldable pub unknown_types :
    SchemaRegistry → (String → ReferenceError) → List String → List ReferenceError
unknown_types r report [] = []
unknown_types r report (t ∷ ts) =
    let rest = unknown_types r report ts in if has t r.node_types then rest else report t ∷ rest

unfoldable pub edge_references : SchemaRegistry → Dict EdgeTypeDefinition → List ReferenceError
edge_references r [] = []
edge_references r ((name, et) ∷ edges) =
    unknown_types r (unknown_source et.metadata.name) et.source.node_types
    ++ (unknown_types r (unknown_target et.metadata.name) et.target.node_types
        ++ edge_references r edges)

-- `_validate_references`: the errors are logged, and the registry stays as it is.
unfoldable pub validate_references : SchemaRegistry → List ReferenceError
validate_references r = edge_references r r.edge_types

-- `load_from_directories`, from the definitions that the loader has read.
unfoldable pub load : List Definition → SchemaRegistry → SchemaRegistry × List ReferenceError
load defs r =
    let loaded = resolve_mixins (register_all defs r) in (loaded, validate_references loaded)

unfoldable pub touching : String → Dict EdgeTypeDefinition → List EdgeTypeDefinition
touching type [] = []
touching type ((name, et) ∷ edges) =
    let rest = touching type edges in
    if contains type et.source.node_types || contains type et.target.node_types
    then et ∷ rest
    else rest

unfoldable pub get_edges_for_node_type : SchemaRegistry → String → List EdgeTypeDefinition
get_edges_for_node_type r type = touching type r.edge_types

pub record Index : Type 0 where
  pub label : String
  pub property : String
  pub unique : Bool

unfoldable pub indexes_of : String → Dict AttributeDefinition → List Index
indexes_of label [] = []
indexes_of label ((name, attr) ∷ attrs) =
    let rest = indexes_of label attrs in
    if attr.indexed
    then record { label = label; property = name; unique = attr.unique } ∷ rest
    else rest

unfoldable pub get_indexes_for_type : SchemaRegistry → String → List Index
get_indexes_for_type r type = elim (get_node_type r type) [
  | none ↦ []
  | some defn ↦ indexes_of type defn.attributes
]
