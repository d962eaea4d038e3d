-- ===== src/Schema/Models.antt =====
-- packages/schema_engine/models.py: the schema definitions as they are loaded from YAML. The parts
-- that only the web client or a generator reads (icons, tabs, MCP, agents, health) are left out.
use net_graphy.Prelude.{ℕ, String, Bool, true, false, Option, none, List, []}
use net_graphy.Prelude.Dict.{Dict}
use net_graphy.Value.{Value, ℤ}

-- `list[string]` and `list[integer]` are the last two.
pub data AttributeType : Type 0 where
  string text integer float boolean datetime date json : AttributeType
  ip_address cidr mac_address url email enum reference : AttributeType
  list_string list_integer : AttributeType

-- `AttributeType.value`
unfoldable pub type_value : AttributeType → String
type_value AttributeType.string = "string"
type_value AttributeType.text = "text"
type_value AttributeType.integer = "integer"
type_value AttributeType.float = "float"
type_value AttributeType.boolean = "boolean"
type_value AttributeType.datetime = "datetime"
type_value AttributeType.date = "date"
type_value AttributeType.json = "json"
type_value AttributeType.ip_address = "ip_address"
type_value AttributeType.cidr = "cidr"
type_value AttributeType.mac_address = "mac_address"
type_value AttributeType.url = "url"
type_value AttributeType.email = "email"
type_value AttributeType.enum = "enum"
type_value AttributeType.reference = "reference"
type_value AttributeType.list_string = "list[string]"
type_value AttributeType.list_integer = "list[integer]"

pub data Cardinality : Type 0 where
  one_to_one one_to_many many_to_one many_to_many : Cardinality

pub data RiskLevel : Type 0 where
  safe cautious dangerous : RiskLevel

-- The two fields of `UIAttributeMetadata` that the server reads.
pub record UiAttributeMetadata : Type 0 where
  pub list_column : Bool
  pub list_column_order : Option ℕ

pub record AttributeHealthMetadata : Type 0 where
  pub sensitive : Bool
  pub required_for_health : Bool
  pub editable : Bool
  pub searchable : Bool
  pub display_priority : ℤ

pub record QueryAttributeMetadata : Type 0 where
  pub filterable : Bool
  pub sortable : Bool
  pub reportable : Bool
  pub exact_match : Bool
  pub supports_contains : Bool
  pub supports_prefix : Bool
  pub supports_range : Bool
  pub supports_regex : Bool
  pub case_sensitive : Bool
  pub default_return_field : Bool
  pub export_default : Bool
  pub formatter_hint : Option String

pub record QueryNodeMetadata : Type 0 where
  pub default_list_fields : List String
  pub default_report_fields : List String
  pub default_sort_field : Option String
  pub default_page_size : ℕ
  pub max_page_size : ℕ
  pub max_export_rows : ℕ
  pub primary_search_fields : List String
  pub relationship_filters_enabled : Bool
  pub max_traversal_depth : ℕ
  pub max_filter_nesting : ℕ

pub record QueryEdgeMetadata : Type 0 where
  pub traversable : Bool
  pub traversable_in_reports : Bool
  pub query_alias : Option String
  pub supports_existence_filter : Bool
  pub supports_count_filter : Bool
  pub supports_row_expansion : Bool

-- `default: Any` is `none` for Python's `None`.
pub record AttributeDefinition : Type 0 where
  pub name : String
  pub type : AttributeType
  pub required : Bool
  pub unique : Bool
  pub indexed : Bool
  pub default : Option Value
  pub max_length : Option ℕ
  pub min_value : Option Value
  pub max_value : Option Value
  pub enum_values : Option (List String)
  pub enum_ref : Option String
  pub reference_node_type : Option String
  pub auto_set : Option String
  pub validation_regex : Option String
  pub ui : UiAttributeMetadata
  pub health : AttributeHealthMetadata
  pub query : QueryAttributeMetadata

pub record SchemaMetadata : Type 0 where
  pub name : String
  pub display_name : Option String
  pub description : Option String
  pub category : Option String
  pub tags : List String

pub record NodeTypeDefinition : Type 0 where
  pub metadata : SchemaMetadata
  pub attributes : Dict AttributeDefinition
  pub mixins : List String
  pub query : QueryNodeMetadata

pub record EdgeSourceTarget : Type 0 where
  pub node_types : List String

pub record EdgeTypeDefinition : Type 0 where
  pub metadata : SchemaMetadata
  pub source : EdgeSourceTarget
  pub target : EdgeSourceTarget
  pub cardinality : Cardinality
  pub attributes : Dict AttributeDefinition
  pub query : QueryEdgeMetadata

pub record MixinDefinition : Type 0 where
  pub metadata : SchemaMetadata
  pub attributes : Dict AttributeDefinition

pub record EnumValue : Type 0 where
  pub name : String
  pub display_name : Option String
  pub description : Option String

pub record EnumTypeDefinition : Type 0 where
  pub metadata : SchemaMetadata
  pub values : List EnumValue

pub record SchemaChange : Type 0 where
  pub change_type : String
  pub target : String
  pub risk_level : RiskLevel
  pub description : String

-- No operation is generated yet, so a plan has none.
pub record MigrationPlan : Type 0 where
  pub changes : List SchemaChange
  pub risk_level : RiskLevel
  pub warnings : List String

-- The defaults of the query metadata.
abbrev pub default_query_attribute : QueryAttributeMetadata
default_query_attribute = record {
  filterable = true;
  sortable = true;
  reportable = true;
  exact_match = true;
  supports_contains = false;
  supports_prefix = false;
  supports_range = false;
  supports_regex = false;
  case_sensitive = true;
  default_return_field = false;
  export_default = false;
  formatter_hint = none;
}

abbrev pub default_query_node : QueryNodeMetadata
default_query_node = record {
  default_list_fields = [];
  default_report_fields = [];
  default_sort_field = none;
  default_page_size = 50;
  max_page_size = 200;
  max_export_rows = 10000;
  primary_search_fields = [];
  relationship_filters_enabled = true;
  max_traversal_depth = 3;
  max_filter_nesting = 4;
}

abbrev pub default_query_edge : QueryEdgeMetadata
default_query_edge = record {
  traversable = true;
  traversable_in_reports = true;
  query_alias = none;
  supports_existence_filter = true;
  supports_count_filter = true;
  supports_row_expansion = true;
}
