-- ===== src/Schema/Registry/References.antt =====
-- What it means that loading reports no unresolved reference.
use net_graphy.Prelude.{
  String, ◌<>◌, ◌≡◌, ◌≢◌, refl, true, some, List, [], ◌∷◌, ◌==◌, Bool-cases, inl, inr,
  if◌then◌else◌, some-injective, All, All-contains, append-eq-nil, contains, subst,
}
use net_graphy.Prelude.Dict.{Dict, lookup, insert, has, values, lookup-insert}
use net_graphy.Schema.Models.{EdgeTypeDefinition}
use net_graphy.Schema.Registry.{
  SchemaRegistry, load, Definition, validate_references, edge_references, unknown_types,
  ReferenceError, unknown_source, unknown_target,
}
use net_graphy.Query.EdgeIndex.{
  EdgeIndex, or_empty, alias_of, index_entry, index_all, index_edges, build_edge_index, edge_at,
}
use net_graphy.Query.Paths.{towards}

-- Every end of the edge is a registered node type.
abbrev pub EndsKnown : SchemaRegistry → EdgeTypeDefinition → Type 0
EndsKnown r et =
    All (λ t. has t r.node_types ≡ true) et.source.node_types
    × All (λ t. has t r.node_types ≡ true) et.target.node_types

unknown_types-All :
    (r : SchemaRegistry) (report : String → ReferenceError) (ts : List String)
    → unknown_types r report ts ≡ []
    → All (λ t. has t r.node_types ≡ true) ts
unfolding unknown_types
unknown_types-All r report [] h = tt
unknown_types-All r report (t ∷ ts) h = elim (Bool-cases (has t r.node_types)) [
  | inl e ↦ (e, unknown_types-All r report ts (rw e at h))
  | inr e ↦ cc (rw e at h)
]

edge_references-All :
    (r : SchemaRegistry) (edges : Dict EdgeTypeDefinition)
    → edge_references r edges ≡ []
    → All (EndsKnown r) (values edges)
unfolding edge_references
edge_references-All r [] h = tt
edge_references-All r ((name, et) ∷ edges) h =
    let (a, more) =
      append-eq-nil (unknown_types r (unknown_source et.metadata.name) et.source.node_types) _ h in
    let (b, rest) =
      append-eq-nil (unknown_types r (unknown_target et.metadata.name) et.target.node_types) _
        more in
    (
      (unknown_types-All r _ et.source.node_types a, unknown_types-All r _ et.target.node_types b),
      edge_references-All r edges rest,
    )

-- A write to the index is seen at its type and alias, and nowhere else.
lookup-index_entry :
    (type alias t a : String) (et : EdgeTypeDefinition) (index : EdgeIndex)
    → lookup a (or_empty (lookup t (index_entry type alias et index))) ≡ (
        if type == t
        then (if alias == a then some et else lookup a (or_empty (lookup type index)))
        else lookup a (or_empty (lookup t index)))
unfolding index_entry
lookup-index_entry type alias t a et index =
    rw (lookup-insert type t (insert alias et (or_empty (lookup type index))) index)
      (elim (Bool-cases (type == t)) [
        | inl e ↦ rw e (lookup-insert alias a et (or_empty (lookup type index)))
        | inr e ↦ rw e refl
      ])

-- Every edge in an index has the property.
module _ (P : EdgeTypeDefinition → Type 0) where
  abbrev Indexed : EdgeIndex → Type 0
  Indexed index =
      (type alias : String) (et : EdgeTypeDefinition)
      → lookup alias (or_empty (lookup type index)) ≡ some et
      → P et

  index_entry-Indexed :
      (type alias : String) (et : EdgeTypeDefinition) (index : EdgeIndex)
      → P et
      → Indexed index
      → Indexed (index_entry type alias et index)
  index_entry-Indexed type alias et index p all t a e h =
      let read = rw (lookup-index_entry type alias t a et index) at h in
      elim (Bool-cases (type == t)) [
        | inl same ↦ elim (Bool-cases (alias == a)) [
          | inl here ↦ subst P (some-injective (rw (same, here) at read)) p
          | inr there ↦ all type a e (rw (same, there) at read)
        ]
        | inr other ↦ all t a e (rw other at read)
      ]

  index_all-Indexed :
      (types : List String) (alias : String) (et : EdgeTypeDefinition) (index : EdgeIndex)
      → P et
      → Indexed index
      → Indexed (index_all types alias et index)
  unfolding index_all
  index_all-Indexed [] alias et index p all = all
  index_all-Indexed (type ∷ types) alias et index p all =
      index_all-Indexed types alias et (index_entry type alias et index) p
        (index_entry-Indexed type alias et index p all)

  index_edges-Indexed :
      (edges : List EdgeTypeDefinition) (index : EdgeIndex)
      → All P edges
      → Indexed index
      → Indexed (index_edges edges index)
  unfolding index_edges
  index_edges-Indexed [] index ps all = all
  index_edges-Indexed (et ∷ ets) index ps all = index_edges-Indexed ets _ ps.1 (
      index_all-Indexed et.target.node_types ("inv_" <> alias_of et) et _ ps.0
        (index_all-Indexed et.source.node_types (alias_of et) et index ps.0 all))

no_entry :
    (t a : String) (e : EdgeTypeDefinition)
    → lookup a (or_empty (lookup t (let none_yet : EdgeIndex = [] in none_yet))) ≢ some e
unfolding lookup
no_entry t a e h = cc

-- Where loading reports no unresolved reference, every alias of the validator's edge index leads,
-- from any node type, to types that the loaded registry has.
pub load-towards :
    (defs : List Definition) (r : SchemaRegistry) (type alias far : String)
    {et : EdgeTypeDefinition}
    → (load defs r).1 ≡ []
    → edge_at (build_edge_index (load defs r).0) type alias ≡ some et
    → contains far (towards et type).1 ≡ true
    → has far (load defs r).0.node_types ≡ true
unfolding load validate_references build_edge_index edge_at towards
load-towards defs r type alias far {et} clean found reach =
    let loaded = (load defs r).0 in
    let ends : EndsKnown loaded et =
      index_edges-Indexed (EndsKnown loaded) (values loaded.edge_types) []
        (edge_references-All loaded loaded.edge_types clean) (λ t a e h. absurd (no_entry t a e h))
        type alias et found in
    elim (Bool-cases (contains type et.target.node_types)) [
      | inl back ↦ All-contains _ far et.source.node_types (rw back at reach) ends.0
      | inr forth ↦ All-contains _ far et.target.node_types (rw forth at reach) ends.1
    ]
