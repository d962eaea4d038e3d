-- ===== src/Query/ReportExamples.antt =====
-- Reports at concrete data.
use net_graphy.Prelude.{
  ℕ, ◌≤◌, ◌≡◌, refl, false, none, some, [], ◌∷◌, Result, ok, map, each, raised, contains, split,
  join, starts_with, List, String, ◌<>◌, ◌>>=◌,
}
use net_graphy.Prelude.Decimal.{show}
use net_graphy.Prelude.Dict.{lookup, insert}
use net_graphy.Value.{str, int, pos}
use net_graphy.Schema.Models.{type_value}
use net_graphy.Schema.Registry.{get_node_type}
use net_graphy.Query.Models.{
  FilterOperator, operator_value, FilterGroup, group, condition, none_left, op_and, outgoing,
  incoming,
}
use net_graphy.Query.EdgeIndex.{edge_at}
use net_graphy.Query.Paths.{
  towards, resolve_filter_path, resolve_parts, resolve_direct, validate_operator, allowed_operators,
  attribute_segment,
}
use net_graphy.Query.Validator.{
  validate, shape_errors, sort_errors, field_errors, limit_errors, validate_filters, validate_group,
}
use net_graphy.Query.Compiler.{
  compile_direct_filter, operator_to_cypher, next_param, param_name, last_part,
}
use net_graphy.Query.Assembly.{
  path_map_from, compile_filters, compile_filter_group, compile_condition, compile_resolved,
  compile_segments, group_text, add_where, build_core, started,
}
use net_graphy.Query.Assembly.Injection.{same_group, same_condition, same_end}
use net_graphy.Query.Slug.{slugify}
use net_graphy.Query.Reports.{
  ReportColumn, ReportDefinition, root, root_rows, edge_direction, edge_target, is_one_to_many,
}
use net_graphy.Query.Reports.Columns
use net_graphy.Query.Reports.Compiling.{
  CompiledReport, ReportError, compile_report, compile_report_filters, compile_shape, finish_report,
  report_params, build_report_order, header_map,
}
use net_graphy.Query.Reports.Execution.{Outside, export_csv, stream_csv}
use net_graphy.Query.Reports.Execution.Streams.{received, export_csv-stream_csv}
use net_graphy.Query.Reports.Compiling.Limits.{
  IsPaged, compile_report-limit, compile_report-SameGroup,
}
use net_graphy.Query.Reports.Available.{
  get_available_columns, relationship_columns, node_column, edge_attribute_column,
}
use net_graphy.Query.Reports.Directions.{edge_direction-towards}
use net_graphy.Query.Sample.{validator, located_at, peers_with, filter_on}

abbrev column : String → ReportColumn
column path = record { path = path; source = root; display_label = none; alias = none }

abbrev hostname_is : String → FilterGroup
hostname_is name =
    group op_and (condition (filter_on "hostname" FilterOperator.eq (str name)) none_left)

abbrev cities : ReportDefinition
cities = record {
  root_entity = "Device";
  columns = column "hostname" ∷ column "located_at.Location.city" ∷ [];
  filters = none;
  row_mode = root_rows;
  sort = [];
  pagination = record { limit = 50; offset = 20 };
  group_by = [];
  aggregate_function = "count";
  max_export_rows = 10;
}

abbrev cities_of : String → ReportDefinition
cities_of name = record cities { filters = some (hostname_is name) }

abbrev text_of : Result ReportError CompiledReport → String
text_of (ok x) = x.query.data_query
text_of (raised e) = ""

-- The WHERE of the filter stands behind the OPTIONAL MATCH of the column, and so belongs to it.
filter_behind_optional :
    text_of (compile_report validator (cities_of "core1"))
    ≡ "MATCH (n:Device)\nOPTIONAL MATCH (n)-[re1:LOCATED_AT]->(te1:Location)\nWHERE n.hostname = $p0\nRETURN DISTINCT n.hostname AS device_hostname, te1.city AS location_city\nORDER BY device_hostname\nSKIP $__skip LIMIT $__limit"
unfolding compile_report compile_report_filters validate get_node_type shape_errors limit_errors
    sort_errors field_errors validate_filters validate_group resolve_filter_path resolve_parts split
    resolve_direct validate_operator contains allowed_operators type_value operator_value show
    insert lookup join starts_with add_where build_core compile_condition compile_filter_group
    compile_filters compile_resolved compile_segments group_text path_map_from compile_direct_filter
    operator_to_cypher next_param param_name last_part slugify edge_at edge_direction edge_target
    is_one_to_many Columns.add_column_match Columns.find_match Columns.rel_var Columns.target_var
    Columns.root_column Columns.related_column Columns.resolve_column_parts Columns.resolve_columns
    compile_shape finish_report report_params build_report_order header_map
filter_behind_optional = refl

compile_report-limit_example :
    IsPaged cities (compile_shape validator cities (started "Device") root_rows)
    × ((n : ℕ) × (lookup "__limit" (report_params cities []) ≡ some (int (pos n)))
        × ((n ≤ 50) × (n ≤ 10))
        × (lookup "__skip" (report_params cities []) ≡ some (int (pos 20))))
unfolding compile_report compile_report_filters compile_shape finish_report
compile_report-limit_example = compile_report-limit validator cities refl

compile_report-SameGroup_example :
    text_of (compile_report validator (cities_of "core1"))
    ≡ text_of (compile_report validator (cities_of "core2"))
unfolding compile_report compile_report_filters validate get_node_type shape_errors limit_errors
    sort_errors field_errors validate_filters validate_group resolve_filter_path resolve_parts split
    resolve_direct validate_operator contains allowed_operators type_value operator_value show
    insert lookup join starts_with add_where build_core compile_condition compile_filter_group
    compile_filters compile_resolved compile_segments group_text path_map_from compile_direct_filter
    operator_to_cypher next_param param_name last_part slugify edge_at edge_direction edge_target
    is_one_to_many Columns.add_column_match Columns.find_match Columns.rel_var Columns.target_var
    Columns.root_column Columns.related_column Columns.resolve_column_parts Columns.resolve_columns
    compile_shape finish_report report_params build_report_order header_map
compile_report-SameGroup_example =
    compile_report-SameGroup validator cities
      (record {
        raw_path = "hostname";
        segments = attribute_segment "hostname" ∷ [];
        is_relationship_existence = false;
        is_relationship_count = false;
      }
        ∷ [])
      (same_group op_and (
        same_condition (filter_on "hostname" FilterOperator.eq (str "core1")) (str "core2")
          same_end))
      refl refl refl refl

edge_direction-towards_example :
    (edge_direction located_at "Location" ≡ incoming)
    × (edge_target located_at "Location" ≡ some "Device")
unfolding edge_direction edge_target towards contains
edge_direction-towards_example = edge_direction-towards located_at "Location" refl refl

-- At both ends of an edge type the columns and the filters go in opposite directions.
opposite_directions :
    (edge_direction peers_with "Device" ≡ outgoing) × ((towards peers_with "Device").0 ≡ incoming)
unfolding edge_direction towards contains
opposite_directions = (refl, refl)

-- A database that answers every query with two rows, and a `csv` that ends each cell with a bar.
abbrev bars : List String → String
bars [] = "\n"
bars (cell ∷ cells) = cell <> ("|" <> bars cells)

abbrev two_rows : Outside
two_rows = record {
  execute_read =
      λ query params. ok ((("hostname", str "core1") ∷ []) ∷ (("hostname", str "core2") ∷ []) ∷ []);
  dumps = λ v. "json";
  str_of = λ v. "text";
  write_row = bars;
}

export_csv-stream_csv_example :
    export_csv two_rows validator cities
    ≡ (stream_csv two_rows validator cities >>= λ texts. ok (received texts))
export_csv-stream_csv_example = export_csv-stream_csv two_rows validator cities

offered :
    map (λ c. c.path) (get_available_columns validator "Device")
    ≡ "hostname" ∷ "rack_units" ∷ "located_at.Location.city" ∷ "located_at.Location.door_code"
      ∷ "located_at.edge.since" ∷ "located_at.count" ∷ "peers_with.Device.hostname"
      ∷ "peers_with.Device.rack_units" ∷ "peers_with.count" ∷ []
unfolding get_available_columns relationship_columns node_column edge_attribute_column get_node_type
    lookup edge_target is_one_to_many contains starts_with each
offered = refl
