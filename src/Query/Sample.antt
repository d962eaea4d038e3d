-- ===== src/Query/Sample.antt =====
-- A small registry and queries over it, for the tests and the examples.
use net_graphy.Prelude.{String, true, false, none, some, [], ◌∷◌}
use net_graphy.Value.{Value, str, int, pos}
use net_graphy.Schema.Models.{
  AttributeType, AttributeDefinition, SchemaMetadata, NodeTypeDefinition, EdgeTypeDefinition,
  many_to_many, many_to_one, default_query_attribute, default_query_node, default_query_edge,
}
use net_graphy.Schema.Registry.{SchemaRegistry}
use net_graphy.Query.Models.{
  FilterOperator, FilterCondition, FilterGroup, group, none_left, condition, nested, desc, QueryAst,
  op_and, op_or,
}
use net_graphy.Query.EdgeIndex.{QueryValidator}

abbrev pub named : String → SchemaMetadata
named n = record { name = n; display_name = none; description = none; category = none; tags = [] }

abbrev pub attribute : String → AttributeType → AttributeDefinition
attribute n t = record {
  name = n;
  type = t;
  required = false;
  unique = false;
  indexed = false;
  default = none;
  max_length = none;
  min_value = none;
  max_value = none;
  enum_values = none;
  enum_ref = none;
  reference_node_type = none;
  auto_set = none;
  validation_regex = none;
  ui = record { list_column = false; list_column_order = none };
  health = record {
    sensitive = false;
    required_for_health = false;
    editable = true;
    searchable = true;
    display_priority = pos 0;
  };
  query = default_query_attribute;
}

abbrev pub hidden : AttributeDefinition → AttributeDefinition
hidden a = record a { query = record (a.query) { filterable = false; sortable = false } }

abbrev pub device : NodeTypeDefinition
device = record {
  metadata = named "Device";
  attributes =
      ("hostname", attribute "hostname" AttributeType.string)
      ∷ ("rack_units", attribute "rack_units" AttributeType.integer)
      ∷ [];
  mixins = [];
  query = default_query_node;
}

abbrev pub location : NodeTypeDefinition
location = record {
  metadata = named "Location";
  attributes =
      ("city", attribute "city" AttributeType.string)
      ∷ ("door_code", hidden (attribute "door_code" AttributeType.string))
      ∷ [];
  mixins = [];
  query = default_query_node;
}

abbrev pub located_at : EdgeTypeDefinition
located_at = record {
  metadata = named "LOCATED_AT";
  source = record { node_types = "Device" ∷ [] };
  target = record { node_types = "Location" ∷ [] };
  cardinality = many_to_one;
  attributes = ("since", attribute "since" AttributeType.date) ∷ [];
  query = default_query_edge;
}

abbrev pub peers_with : EdgeTypeDefinition
peers_with = record {
  metadata = named "PEERS_WITH";
  source = record { node_types = "Device" ∷ [] };
  target = record { node_types = "Device" ∷ [] };
  cardinality = many_to_many;
  attributes = [];
  query = default_query_edge;
}

abbrev pub registry : SchemaRegistry
registry = record {
  node_types = ("Device", device) ∷ ("Location", location) ∷ [];
  edge_types = ("LOCATED_AT", located_at) ∷ ("PEERS_WITH", peers_with) ∷ [];
  mixins = [];
  enum_types = [];
}

abbrev pub validator : QueryValidator
validator = record {
  registry = registry;
  edge_by_alias =
      (
        "Device",
        ("located_at", located_at)
            ∷ ("peers_with", peers_with)
            ∷ ("inv_peers_with", peers_with)
            ∷ [],
      )
      ∷ ("Location", ("inv_located_at", located_at) ∷ [])
      ∷ [];
}

abbrev pub filter_on : String → FilterOperator → Value → FilterCondition
filter_on p op x = record { path = p; operator = op; value = x }

abbrev pub query_of : FilterGroup → QueryAst
query_of g = record {
  entity = "Device";
  filters = some g;
  sort = record { field = "hostname"; direction = desc } ∷ [];
  pagination = record { limit = 50; offset = 0 };
  fields = some ("id" ∷ "hostname" ∷ []);
  include_total = true;
  include_relationship_summary = false;
}

abbrev pub in_dallas : FilterGroup
in_dallas = group op_and (
    condition (filter_on "located_at.Location.city" FilterOperator.eq (str "Dallas")) (
      nested
        (group op_or (
          condition (filter_on "rack_units" FilterOperator.gt (int (pos 2)))
            (condition (filter_on "peers_with" FilterOperator.exists Value.null) none_left)))
        none_left))
