-- ===== src/Query/Listing/Targets.antt =====
-- The listed far ends of an edge against those that resolution takes.
use net_graphy.Prelude.{String, ◌≡◌, true, false, ◌&&◌, none, some, arith, contains}
use net_graphy.Schema.Models.{NodeTypeDefinition, EdgeTypeDefinition}
use net_graphy.Query.Models.{FilterOperator}
use net_graphy.Query.EdgeIndex.{QueryValidator, edge_at}
use net_graphy.Query.Paths.{towards, resolve_three_part_path}
use net_graphy.Query.Listing.{listed_targets}

-- Where a node type is not both a source and a target of an edge, the listing offers the edge's far
-- ends that resolution takes. Where it is both, the listing offers the targets, and a path of three
-- parts to a target that is not also a source is refused.
pub listed_targets-resolve :
    (v : QueryValidator) (nt : NodeTypeDefinition) (op : FilterOperator)
    (alias type attr path : String) {et : EdgeTypeDefinition}
    → edge_at v nt.metadata.name alias ≡ some et
    → ((contains nt.metadata.name et.target.node_types
            && contains nt.metadata.name et.source.node_types)
          ≡ false
        → listed_targets et nt.metadata.name ≡ (towards et nt.metadata.name).1)
      × ((contains nt.metadata.name et.target.node_types
              && contains nt.metadata.name et.source.node_types)
            ≡ true
          → contains type et.source.node_types ≡ false
          → (listed_targets et nt.metadata.name ≡ et.target.node_types)
            × ((resolve_three_part_path v alias type attr op nt path).0 ≡ none))
unfolding listed_targets towards resolve_three_part_path
listed_targets-resolve v nt op alias type attr path {et} e =
    (λ h. ground arith, λ h k. (ground arith, ground (arith, e)))
