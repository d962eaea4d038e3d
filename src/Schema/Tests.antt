-- ===== src/Schema/Tests.antt =====
-- The schema library at concrete data.
use mathlib.Core.Option
use net_graphy.Prelude.{◌<>◌, ◌≡◌, refl, true, false, List, [], ◌∷◌, any, contains}
use net_graphy.Prelude.Dict.{Dict, lookup, insert, has}
use net_graphy.Value.{Value, str, int, pos}
use net_graphy.Schema.Models.{
  AttributeType, NodeTypeDefinition, MixinDefinition, default_query_node,
}
use net_graphy.Schema.Registry.{
  SchemaRegistry, empty_registry, Definition, node_type, edge_type, mixin, register, register_all,
  load, resolve_mixins, resolve_each, merge_mixins, add_missing, validate_references,
  edge_references, unknown_types,
}
use net_graphy.Schema.Registry.References.{load-towards}
use net_graphy.Schema.Properties.{Libraries}
use net_graphy.Schema.Validation.Conforms.{Conforms}
use net_graphy.Schema.Validation.Edges
use net_graphy.Schema.Migration.{diff_schemas, generate_migration_plan, remove_change, add_change}
use net_graphy.Schema.Migration.Risk.{rank, generate_migration_plan-risk_level}
use net_graphy.Schema.Migration.Changes.{about, diff_schemas-changes}
use net_graphy.Query.EdgeIndex.{
  build_edge_index, index_edges, index_all, index_entry, edge_at, alias_of,
}
use net_graphy.Query.Paths.{towards}
use net_graphy.Query.Slug.{slugify}
use net_graphy.Query.Sample.{registry, device, location, located_at, attribute, named}

-- A stand-in for the pattern and address libraries, at the texts of these tests.
abbrev libs : Libraries
libs = record {
  matches = λ pattern s. true;
  is_ip_address = λ s. contains s ("10.0.0.1" ∷ []);
  is_ip_network = λ s. contains s ("10.0.0.0/8" ∷ []);
}

abbrev given : Dict Value
given = ("hostname", str "core1") ∷ ("rack_units", int (pos 2)) ∷ ("_source", str "nmap") ∷ []

abbrev since : Dict Value
since = ("source_id", str "a") ∷ ("since", str "2024-01-01") ∷ []

abbrev tracked : MixinDefinition
tracked = record {
  metadata = named "Tracked";
  attributes = ("owner", attribute "owner" AttributeType.string) ∷ [];
}

abbrev server : NodeTypeDefinition
server = record {
  metadata = named "Server";
  attributes = ("cpu", attribute "cpu" AttributeType.integer) ∷ [];
  mixins = "Tracked" ∷ [];
  query = default_query_node;
}

abbrev files : List Definition
files =
    mixin tracked
    ∷ node_type device
    ∷ node_type location
    ∷ edge_type located_at
    ∷ node_type server
    ∷ []

load-towards_example : has "Location" (load files empty_registry).0.node_types ≡ true
unfolding load register_all register resolve_mixins resolve_each merge_mixins add_missing
    validate_references edge_references unknown_types insert lookup build_edge_index index_edges
    index_all index_entry edge_at alias_of contains towards slugify
load-towards_example =
    load-towards files empty_registry "Device" "located_at" "Location" {et = located_at} refl refl
      refl

generate_migration_plan-risk_level_example :
    (rank (generate_migration_plan (add_change "Rack" ∷ remove_change "Port" ∷ [])).risk_level ≡ 2)
    × ((generate_migration_plan (add_change "Rack" ∷ remove_change "Port" ∷ [])).warnings
        ≡ ("DANGEROUS: " <> (remove_change "Port").description) ∷ [])
generate_migration_plan-risk_level_example =
    generate_migration_plan-risk_level (add_change "Rack" ∷ remove_change "Port" ∷ [])

abbrev fewer : SchemaRegistry
fewer = record registry { node_types = ("Device", device) ∷ [] }

diff_schemas-changes_example :
    (any (about "add_node_type" "Location") (diff_schemas registry fewer) ≡ false)
    × (any (about "remove_node_type" "Location") (diff_schemas registry fewer) ≡ true)
unfolding lookup
diff_schemas-changes_example =
    diff_schemas-changes registry fewer "Location" (refl, (refl, tt)) (refl, tt)
