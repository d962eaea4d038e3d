-- ===== src/Query/Tests.antt =====
-- Runs of the query engine over the sample registry, and the theorems at concrete data.
use net_graphy.Prelude.{
  ◌≡◌, refl, true, false, none, some, List, [], ◌∷◌, ok, All, arith, contains, starts_with, split,
}
use net_graphy.Prelude.Dict.{lookup, insert}
use net_graphy.Schema.Models.{type_value, NodeTypeDefinition, AttributeType}
use net_graphy.Schema.Registry.{get_node_type}
use net_graphy.Query.Models.{operator_value, outgoing, incoming, ResolvedPath}
use net_graphy.Query.Slug.{slugify}
use net_graphy.Query.EdgeIndex.{
  alias_of, index_entry, index_all, index_edges, build_edge_index, edge_at,
}
use net_graphy.Query.Paths.{
  allowed_operators, validate_operator, towards, is_count_operator, resolve_relationship_filter,
  resolve_three_part_path, resolve_direct, resolve_parts, resolve_filter_path, attribute_segment,
}
use net_graphy.Query.Validator.{
  validate_group, validate_filters, sort_errors, field_errors, limit_errors, shape_errors, validate,
}
use net_graphy.Query.Sample.{registry, validator, in_dallas, query_of, device, attribute}
use net_graphy.Query.Validator.Filters.{LegalPaths, filters_of, conditions_of, nesting}
use net_graphy.Query.Validator.Accepts.{Accepted, validate_sound, validate_complete}

-- The index that the constructor builds.
validator_built : build_edge_index registry ≡ validator
unfolding build_edge_index index_edges index_all index_entry alias_of slugify lookup insert
validator_built = refl

abbrev pub dallas_paths : List ResolvedPath
dallas_paths =
    record {
      raw_path = "located_at.Location.city";
      segments =
          record {
            edge_type = some "LOCATED_AT";
            direction = outgoing;
            target_type = some "Location";
            attribute = none;
          }
          ∷ attribute_segment "city"
          ∷ [];
      is_relationship_existence = false;
      is_relationship_count = false;
    }
    ∷ record {
      raw_path = "rack_units";
      segments = attribute_segment "rack_units" ∷ [];
      is_relationship_existence = false;
      is_relationship_count = false;
    }
    ∷ record {
      raw_path = "peers_with";
      segments =
          record {
            edge_type = some "PEERS_WITH";
            direction = incoming;
            target_type = some "Device";
            attribute = none;
          }
          ∷ [];
      is_relationship_existence = true;
      is_relationship_count = false;
    }
    ∷ []

validate-in_dallas : validate validator (query_of in_dallas) ≡ ok dallas_paths
unfolding validate shape_errors sort_errors field_errors limit_errors validate_filters
    validate_group resolve_filter_path resolve_parts resolve_direct resolve_three_part_path
    resolve_relationship_filter validate_operator allowed_operators towards is_count_operator
    edge_at get_node_type lookup type_value operator_value contains starts_with split
validate-in_dallas = refl

validate_sound_example :
    (nt : NodeTypeDefinition) × Accepted validator (query_of in_dallas) nt
    × LegalPaths validator nt (filters_of (some in_dallas)) dallas_paths
validate_sound_example = validate_sound validator (query_of in_dallas) validate-in_dallas

dallas-Accepted : Accepted validator (query_of in_dallas) device
unfolding get_node_type lookup nesting conditions_of
dallas-Accepted = record {
  of_type = refl;
  page = omega arith;
  sorts = ((attribute "hostname" AttributeType.string, refl, refl), tt);
  returns = (refl, (refl, tt));
  nests = omega arith;
}

dallas_resolves :
    All (λ c. (resolve_filter_path validator c device).1 ≡ []) (filters_of (some in_dallas))
unfolding conditions_of resolve_filter_path resolve_parts resolve_direct resolve_three_part_path
    resolve_relationship_filter validate_operator allowed_operators towards is_count_operator
    edge_at get_node_type lookup type_value operator_value contains starts_with split
dallas_resolves = (refl, (refl, (refl, tt)))

validate_complete_example :
    (ps : List ResolvedPath) × (validate validator (query_of in_dallas) ≡ ok ps)
validate_complete_example =
    validate_complete validator (query_of in_dallas) device dallas-Accepted dallas_resolves
