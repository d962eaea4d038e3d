-- ===== src/Query/EdgeIndex.antt =====
-- `QueryValidator.__init__` and `_build_edge_index` of packages/query_engine/validator.py.
use net_graphy.Prelude.{String, ◌<>◌, Option, none, some, List, [], ◌∷◌, is_given, if◌then◌else◌}
use net_graphy.Prelude.Dict.{Dict, lookup, insert, values}
use net_graphy.Schema.Models.{EdgeTypeDefinition}
use net_graphy.Schema.Registry.{SchemaRegistry}
use net_graphy.Query.Slug.{slugify}

abbrev pub EdgeIndex : Type 0
EdgeIndex = Dict (Dict EdgeTypeDefinition)

pub record QueryValidator : Type 0 where
  pub registry : SchemaRegistry
  pub edge_by_alias : EdgeIndex

-- et.query.query_alias or _slugify(et.metadata.name)
unfoldable pub alias_of : EdgeTypeDefinition → String
alias_of et = elim et.query.query_alias [
  | none ↦ slugify et.metadata.name
  | some a ↦ if is_given (some a) then a else slugify et.metadata.name
]

abbrev pub or_empty : Option (Dict EdgeTypeDefinition) → Dict EdgeTypeDefinition
or_empty none = []
or_empty (some edges) = edges

-- One entry: an empty table is made for the type when it has none.
unfoldable pub index_entry : String → String → EdgeTypeDefinition → EdgeIndex → EdgeIndex
index_entry type alias et index = insert type (insert alias et (or_empty (lookup type index))) index

unfoldable pub index_all : List String → String → EdgeTypeDefinition → EdgeIndex → EdgeIndex
index_all [] alias et index = index
index_all (type ∷ types) alias et index = index_all types alias et (index_entry type alias et index)

unfoldable pub index_edges : List EdgeTypeDefinition → EdgeIndex → EdgeIndex
index_edges [] index = index
index_edges (et ∷ ets) index =
    let alias = alias_of et in
    index_edges ets (
      index_all et.target.node_types ("inv_" <> alias) et
        (index_all et.source.node_types alias et index))

unfoldable pub build_edge_index : SchemaRegistry → QueryValidator
build_edge_index r = record { registry = r; edge_by_alias = index_edges (values r.edge_types) [] }

-- self._edge_by_alias.get(type, {}).get(alias)
unfoldable pub edge_at : QueryValidator → String → String → Option EdgeTypeDefinition
edge_at v type alias = lookup alias (or_empty (lookup type v.edge_by_alias))
