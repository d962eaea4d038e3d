-- ===== src/Query/Reports/Directions.antt =====
-- The two readings of an edge's direction: `_edge_direction` and `_edge_target` of
-- packages/query_engine/report_compiler.py, and that of packages/query_engine/validator.py.
use net_graphy.Prelude.{String, ◌≡◌, refl, true, false, ◌&&◌, ◌||◌, contains, Bool-cases, inl, inr}
use net_graphy.Schema.Models.{EdgeTypeDefinition}
use net_graphy.Query.Paths.{head?, towards}
use net_graphy.Query.Reports.{edge_direction, edge_target}

-- For an entity at one end of an edge type and not at both, the columns of a report go in the
-- direction in which the filters go, and to the first type that the filters may name.
pub edge_direction-towards :
    (et : EdgeTypeDefinition) (entity : String)
    → (contains entity et.source.node_types || contains entity et.target.node_types) ≡ true
    → (contains entity et.source.node_types && contains entity et.target.node_types) ≡ false
    → (edge_direction et entity ≡ (towards et entity).0)
      × (edge_target et entity ≡ head? (towards et entity).1)
unfolding edge_direction edge_target towards
edge_direction-towards et entity one not_both =
    elim (Bool-cases (contains entity et.source.node_types)) [
      | inl s ↦ elim (Bool-cases (contains entity et.target.node_types)) [
        | inl t ↦ cc (rw (s, t) at not_both)
        | inr t ↦ rw (s, t) (refl, refl)
      ]
      | inr s ↦ elim (Bool-cases (contains entity et.target.node_types)) [
        | inl t ↦ rw (s, t) (refl, refl)
        | inr t ↦ cc (rw (s, t) at one)
      ]
    ]
