-- ===== src/Query/Reports.antt =====
-- packages/query_engine/report_models.py and `ReportCompiler` of
-- packages/query_engine/report_compiler.py.
pub mod Columns
pub mod Compiling
pub mod Directions
pub mod Available
pub mod Execution
use net_graphy.Prelude.{
  ℕ, String, Bool, Option, none, some, List, [], ◌∷◌, contains, if◌then◌else◌, is_empty,
}
use net_graphy.Schema.Models.{
  EdgeTypeDefinition, Cardinality, one_to_one, one_to_many, many_to_one, many_to_many,
}
use net_graphy.Query.Models.{FilterGroup, SortField, Pagination, Direction, outgoing, incoming}
use net_graphy.Query.Paths.{head?}

pub data ColumnSource : Type 0 where
  root related edge aggregate : ColumnSource

-- `ColumnSource.value`
abbrev pub source_text : ColumnSource → String
source_text root = "root"
source_text related = "related"
source_text edge = "edge"
source_text aggregate = "aggregate"

pub record ReportColumn : Type 0 where
  pub path : String
  pub source : ColumnSource
  pub display_label : Option String
  pub alias : Option String

pub data RowMode : Type 0 where
  root_rows expanded_rows aggregate_rows : RowMode

-- The parts of a report that its query depends on.
pub record ReportDefinition : Type 0 where
  pub root_entity : String
  pub columns : List ReportColumn
  pub filters : Option FilterGroup
  pub row_mode : RowMode
  pub sort : List SortField
  pub pagination : Pagination
  pub group_by : List String
  pub aggregate_function : String
  pub max_export_rows : ℕ

-- `_edge_direction`
unfoldable pub edge_direction : EdgeTypeDefinition → String → Direction
edge_direction et entity = if contains entity et.source.node_types then outgoing else incoming

-- `_edge_target`
unfoldable pub edge_target : EdgeTypeDefinition → String → Option String
edge_target et entity =
    if contains entity et.source.node_types
    then head? et.target.node_types
    else head? et.source.node_types

abbrev many_ahead : Cardinality → Bool
many_ahead one_to_one = Bool.false
many_ahead one_to_many = Bool.true
many_ahead many_to_one = Bool.false
many_ahead many_to_many = Bool.true

abbrev many_behind : Cardinality → Bool
many_behind one_to_one = Bool.false
many_behind one_to_many = Bool.false
many_behind many_to_one = Bool.true
many_behind many_to_many = Bool.true

-- `_is_one_to_many`
unfoldable pub is_one_to_many : EdgeTypeDefinition → String → Bool
is_one_to_many et entity =
    if contains entity et.source.node_types
    then many_ahead et.cardinality
    else many_behind et.cardinality
