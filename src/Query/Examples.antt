-- ===== src/Query/Examples.antt =====
-- Resolution and compilation at concrete data.
use net_graphy.Query.Paths.{find_target}
use net_graphy.Prelude.{
  List, map, Option, String, ◌<>◌, ◌≡◌, ◌≢◌, refl, false, none, some, [], ◌∷◌, ok, All, contains,
  split, join, ◌↔◌, ◌&&◌, true,
}
use net_graphy.Prelude.Decimal.{show}
use net_graphy.Prelude.Dict.{lookup, insert}
use net_graphy.Value.{Value, str, int, pos, Items, subscript, item_at}
use net_graphy.Schema.Models.{type_value, EdgeTypeDefinition}
use net_graphy.Schema.Registry.{get_node_type}
use net_graphy.Query.Models.{
  FilterOperator, operator_value, FilterCondition, FilterGroup, group, condition, nested, none_left,
  op_and, op_or, outgoing, QueryAst, ResolvedPath, desc, ResolvedPathSegment,
}
use net_graphy.Query.EdgeIndex.{edge_at, QueryValidator}
use net_graphy.Query.Paths.{
  allowed_operators, validate_operator, towards, resolve_two_part_path, resolve_three_part_path,
  resolve_parts, resolve_filter_path, attribute_segment, resolve_direct,
}
use net_graphy.Query.Paths.Legal.{Legal}
use net_graphy.Query.Paths.Sound.{resolve-Legal}
use net_graphy.Query.Compiler.{
  param_name, next_param, rel_key, next_rel_var, operator_to_cypher, last_part,
  compile_direct_filter, relationship_pattern, existence_text, match_clause,
  compile_traversal_filter,
}
use net_graphy.Query.Assembly.{
  CompiledQuery, path_map_from, compile_existence_filter, compile_segments, compile_resolved,
  compile_condition, group_text, compile_filter_group, compile_parts, add_where, compile_filters,
  build_core, build_return, build_order, build_pagination, finish, compile, started,
}
use net_graphy.Query.Assembly.Injection.{
  same_group, same_condition, same_nested, same_end, compile-SameGroup,
}
use net_graphy.Query.Assembly.BoundValues.{compile_binds}
use net_graphy.Query.Assembly.Compared.{AreBound}
use net_graphy.Query.Validator.Filters.{conditions_of}
use net_graphy.Query.Sample.{validator, in_dallas, query_of, filter_on, device, located_at}
use net_graphy.Query.Tests.{dallas_paths}
use net_graphy.Query.Validator.Accepts.{IsSortable}
use net_graphy.Query.Listing.{get_sortable_fields, listed_targets}
use net_graphy.Query.Listing.Fields.{get_sortable_fields-IsSortable}
use net_graphy.Query.Listing.Targets.{listed_targets-resolve}
use net_graphy.Query.Compiler.Repeats.{
  equals, equality_on, attribute_of, matched, repeated_traversal,
}
use net_graphy.Query.Validator.{
  validate_group, validate_filters, sort_errors, field_errors, limit_errors, shape_errors, validate,
}
use net_graphy.Query.Pipeline.{validated_compiles}

abbrev city_is : Value → FilterCondition
city_is v = filter_on "located_at.Location.city" FilterOperator.eq v

abbrev city_path : ResolvedPath
city_path = record {
  raw_path = "located_at.Location.city";
  segments =
      record {
        edge_type = some "LOCATED_AT";
        direction = outgoing;
        target_type = some "Location";
        attribute = none;
      }
      ∷ attribute_segment "city"
      ∷ [];
  is_relationship_existence = false;
  is_relationship_count = false;
}

resolve-Legal_example : Legal validator device FilterOperator.eq city_path
unfolding resolve_filter_path resolve_parts resolve_three_part_path validate_operator
    allowed_operators towards edge_at get_node_type lookup type_value operator_value contains split
resolve-Legal_example = resolve-Legal validator device (city_is (str "Dallas")) refl

abbrev option_list : {A : Type 0} → Option A → List A
option_list none = []
option_list (some a) = a ∷ []

-- Whether it is filterable is not asked of an attribute that a path of two parts reaches.
hidden_attribute :
    (map
        (λ (rp : ResolvedPath). map (λ (seg : ResolvedPathSegment). seg.attribute) rp.segments)
        (option_list
          (resolve_two_part_path validator "located_at" "door_code" FilterOperator.eq device
            "located_at.door_code").0)
      ≡ (none ∷ some "door_code" ∷ []) ∷ [])
    × ((resolve_two_part_path validator "located_at" "door_code" FilterOperator.eq device
          "located_at.door_code").1
        ≡ [])
    × ((resolve_three_part_path validator "located_at" "Location" "door_code" FilterOperator.eq
          device "located_at.Location.door_code").0
        ≡ none)
unfolding resolve_two_part_path resolve_three_part_path find_target validate_operator edge_at
    get_node_type lookup towards allowed_operators type_value operator_value contains
hidden_attribute = (refl, refl, refl)

abbrev dallas_core : String
dallas_core =
    "MATCH (n:Device)\nMATCH (n)-[r1:LOCATED_AT]->(t1:Location)\nWHERE t1.city = $p0 AND (n.rack_units > $p1 OR EXISTS { (n)<-[:PEERS_WITH]-() })\nRETURN "

abbrev compiled : Value → CompiledQuery
compiled city =
    let params =
      ("p0", city)
      ∷ ("p1", int (pos 2))
      ∷ ("__skip", int (pos 0))
      ∷ ("__limit", int (pos 50))
      ∷ [] in
    record {
      data_query =
          dallas_core
          <> "DISTINCT n.id AS id, n.hostname AS hostname\nORDER BY n.hostname DESC\nSKIP $__skip LIMIT $__limit";
      data_params = params;
      count_query = some (dallas_core <> "count(DISTINCT n) AS total");
      count_params = some params;
    }

abbrev in_city : Value → FilterGroup
in_city city = group op_and (
    condition (city_is city) (
      nested
        (group op_or (
          condition (filter_on "rack_units" FilterOperator.gt (int (pos 2)))
            (condition (filter_on "peers_with" FilterOperator.exists Value.null) none_left)))
        none_left))

abbrev of_city : Value → QueryAst
of_city city = record (query_of in_dallas) { filters = some (in_city city) }

compile-of_city : (city : Value) → compile (of_city city) dallas_paths none ≡ ok (compiled city)
unfolding param_name next_param rel_key next_rel_var operator_to_cypher last_part
    compile_direct_filter relationship_pattern existence_text match_clause compile_traversal_filter
    path_map_from compile_existence_filter compile_segments compile_resolved compile_condition
    group_text compile_filter_group compile_parts add_where compile_filters build_core build_return
    build_order build_pagination finish compile lookup insert show join split
compile-of_city city = refl

compile-SameGroup_example :
    ((compiled (str "Dallas")).data_query ≡ (compiled (str "' OR true //")).data_query)
    × ((compiled (str "Dallas")).count_query ≡ (compiled (str "' OR true //")).count_query)
compile-SameGroup_example =
    compile-SameGroup (of_city (str "Dallas")) dallas_paths none
      (same_group op_and (
        same_condition (city_is (str "Dallas")) (str "' OR true //") (
          same_nested
            (same_group op_or (
              same_condition (filter_on "rack_units" FilterOperator.gt (int (pos 2))) (int (pos 2))
                (same_condition (filter_on "peers_with" FilterOperator.exists Value.null) Value.null
                  same_end)))
            same_end)))
      (compile-of_city (str "Dallas")) (compile-of_city (str "' OR true //"))

compile_binds_example :
    All
      (AreBound (path_map_from dallas_paths []) (compiled (str "Dallas")).data_params)
      (conditions_of (in_city (str "Dallas")))
    × (lookup "__skip" (compiled (str "Dallas")).data_params ≡ some (int (pos 0)))
    × (lookup "__limit" (compiled (str "Dallas")).data_params ≡ some (int (pos 50)))
compile_binds_example =
    compile_binds (of_city (str "Dallas")) dallas_paths none (in_city (str "Dallas"))
      (compile-of_city (str "Dallas"))

get_sortable_fields-IsSortable_example :
    (contains "rack_units" (get_sortable_fields validator "Device") ≡ true)
    ↔ IsSortable device (record { field = "rack_units"; direction = desc })
unfolding get_node_type lookup contains
get_sortable_fields-IsSortable_example =
    get_sortable_fields-IsSortable validator "Device" device
      (record { field = "rack_units"; direction = desc }) refl (refl, (refl, tt))

abbrev door_code : String
door_code = "door_code"

-- An edge from devices to devices and locations.
abbrev uplink : EdgeTypeDefinition
uplink = record located_at { target = record { node_types = "Device" ∷ "Location" ∷ [] } }

abbrev with_uplink : QueryValidator
with_uplink = record validator { edge_by_alias = ("Device", ("uplink", uplink) ∷ []) ∷ [] }

listed_targets-resolve_example :
    ((contains "Device" uplink.target.node_types && contains "Device" uplink.source.node_types)
        ≡ false
      → listed_targets uplink "Device" ≡ (towards uplink "Device").1)
    × ((contains "Device" uplink.target.node_types && contains "Device" uplink.source.node_types)
          ≡ true
        → contains "Location" uplink.source.node_types ≡ false
        → (listed_targets uplink "Device" ≡ "Device" ∷ "Location" ∷ [])
          × ((resolve_three_part_path with_uplink "uplink" "Location" "city" FilterOperator.eq
                device "uplink.Location.city").0
              ≡ none))
unfolding edge_at lookup
listed_targets-resolve_example =
    listed_targets-resolve with_uplink device FilterOperator.eq "uplink" "Location" "city"
      "uplink.Location.city" {et = uplink} refl

abbrev to_location : ResolvedPathSegment
to_location = record {
  edge_type = some "LOCATED_AT";
  direction = outgoing;
  target_type = some "Location";
  attribute = none;
}

repeated_traversal_example :
    let key = rel_key "LOCATED_AT" outgoing in
    let first =
      equals
        (attribute_of ("t" <> show 1) (attribute_segment "city"))
        (str "Dallas")
        (matched to_location (started "Device")) in
    (compile_traversal_filter
        (equality_on "located_at.Location.city" (str "Dallas"))
        to_location
        (attribute_segment "city")
        (started "Device")
      ≡ ok first)
    × (compile_traversal_filter
          (equality_on "located_at.Location.name" (str "DC1"))
          to_location
          (attribute_segment "name")
          first.1
        ≡ ok (equals (attribute_of ("t_" <> key) (attribute_segment "name")) (str "DC1") first.1))
    × ("t_" <> key ≢ "t" <> show 1)
unfolding lookup
repeated_traversal_example =
    repeated_traversal (str "Dallas") (str "DC1") "located_at.Location.city"
      "located_at.Location.name" to_location (attribute_segment "city") (attribute_segment "name")
      (started "Device") refl

-- Racks of at least two units, and at most ten.
abbrev rack_range : FilterGroup
rack_range = group op_and (
    condition
      (filter_on "rack_units" FilterOperator.between
        (Value.list (Items.cons (int (pos 2)) (Items.cons (int (pos 10)) Items.nil))))
      none_left)

validated_compiles_example :
    (x : CompiledQuery) × (compile
        (query_of rack_range)
        (record {
          raw_path = "rack_units";
          segments = attribute_segment "rack_units" ∷ [];
          is_relationship_existence = false;
          is_relationship_count = false;
        }
          ∷ [])
        none
      ≡ ok x)
unfolding validate shape_errors sort_errors field_errors limit_errors validate_filters
    validate_group resolve_filter_path resolve_parts resolve_direct validate_operator
    allowed_operators get_node_type lookup type_value operator_value contains split conditions_of
    subscript item_at
validated_compiles_example =
    validated_compiles validator (query_of in_dallas) rack_range none refl ((tt, tt), tt)
