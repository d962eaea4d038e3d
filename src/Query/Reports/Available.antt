-- ===== src/Query/Reports/Available.antt =====
-- `ReportCompiler.get_available_columns` of packages/query_engine/report_compiler.py: the columns
-- that a client may choose from. Their labels and formats are left out.
use net_graphy.Prelude.{
  String, ◌<>◌, Bool, false, not, ◌&&◌, ◌||◌, none, some, List, [], ◌∷◌, ◌++◌, each, is_given,
  starts_with, if◌then◌else◌,
}
use net_graphy.Prelude.Dict.{lookup}
use net_graphy.Schema.Models.{
  AttributeDefinition, NodeTypeDefinition, EdgeTypeDefinition, type_value,
}
use net_graphy.Schema.Registry.{get_node_type}
use net_graphy.Query.EdgeIndex.{QueryValidator, or_empty}
use net_graphy.Query.Reports.{
  ColumnSource, root, related, edge, aggregate, edge_target, is_one_to_many,
}

pub record AvailableColumn : Type 0 where
  pub path : String
  pub source : ColumnSource
  pub data_type : String
  pub causes_expansion : Bool

-- `attr.query.reportable and not attr.health.sensitive`
abbrev pub is_reportable : AttributeDefinition → Bool
is_reportable attr = attr.query.reportable && not attr.health.sensitive

unfoldable pub node_column :
    String → ColumnSource → Bool → String × AttributeDefinition → List AvailableColumn
node_column before source many (name, attr) =
    if is_reportable attr
    then record {
      path = before <> name;
      source = source;
      data_type = type_value attr.type;
      causes_expansion = many;
    }
      ∷ []
    else []

unfoldable pub edge_attribute_column :
    String → Bool → String × AttributeDefinition → List AvailableColumn
edge_attribute_column alias many (name, attr) =
    record {
      path = alias <> (".edge." <> name);
      source = edge;
      data_type = type_value attr.type;
      causes_expansion = many;
    }
    ∷ []

abbrev pub columns_to :
    String → EdgeTypeDefinition → String → Bool → NodeTypeDefinition → List AvailableColumn
columns_to alias et type many target =
    each (node_column (alias <> ("." <> (type <> "."))) related many) target.attributes
    ++ (each (edge_attribute_column alias many) et.attributes
        ++ (record {
          path = alias <> ".count";
          source = aggregate;
          data_type = "integer";
          causes_expansion = false;
        }
            ∷ []))

module _ (v : QueryValidator) (entity : String) where
  unfoldable pub relationship_columns : String × EdgeTypeDefinition → List AvailableColumn
  relationship_columns (alias, et) =
      if starts_with alias "inv_" || not et.query.traversable_in_reports
      then []
      else elim (edge_target et entity) [
        | none ↦ []
        | some type ↦
            if not (is_given (some type)) then [] else elim (get_node_type v.registry type) [
              | none ↦ []
              | some target ↦ columns_to alias et type (is_one_to_many et entity) target
            ]
      ]

  unfoldable pub get_available_columns : List AvailableColumn
  get_available_columns = elim (get_node_type v.registry entity) [
    | none ↦ []
    | some nt ↦
        each (node_column "" root false) nt.attributes
        ++ each relationship_columns (or_empty (lookup entity v.edge_by_alias))
  ]
