-- ===== src/Schema/Migration.antt =====
-- packages/schema_engine/validators/schema_validator.py: `diff_schemas` and
-- `generate_migration_plan`.
pub mod Changes
pub mod Risk
use net_graphy.Prelude.{
  String, ◌<>◌, Bool, Option, none, some, List, [], ◌∷◌, ◌++◌, each, if◌then◌else◌,
}
use net_graphy.Prelude.Dict.{values}
use net_graphy.Schema.Models.{
  RiskLevel, safe, cautious, dangerous, SchemaChange, MigrationPlan, NodeTypeDefinition,
}
use net_graphy.Schema.Registry.{SchemaRegistry, get_node_type}

abbrev pub add_change : String → SchemaChange
add_change name = record {
  change_type = "add_node_type";
  target = name;
  risk_level = safe;
  description = "New node type: " <> name;
}

abbrev pub remove_change : String → SchemaChange
remove_change name = record {
  change_type = "remove_node_type";
  target = name;
  risk_level = dangerous;
  description = "Removed node type: " <> name;
}

-- The change of a node type that the registry does not have.
unfoldable pub unless_known :
    SchemaRegistry → (String → SchemaChange) → NodeTypeDefinition → List SchemaChange
unless_known r change nt = elim (get_node_type r nt.metadata.name) [
  | none ↦ change nt.metadata.name ∷ []
  | some other ↦ []
]

unfoldable pub diff_schemas : SchemaRegistry → SchemaRegistry → List SchemaChange
diff_schemas old new =
    each (unless_known old add_change) (values new.node_types)
    ++ each (unless_known new remove_change) (values old.node_types)

abbrev pub raise_risk : RiskLevel → RiskLevel → RiskLevel
raise_risk dangerous most = dangerous
raise_risk cautious safe = cautious
raise_risk cautious most = most
raise_risk safe most = most

abbrev pub warning : SchemaChange → List String
warning change = elim change.risk_level [
  | dangerous ↦ ("DANGEROUS: " <> change.description) ∷ []
  | _ ↦ []
]

-- The loop over the changes, from the greatest risk so far.
unfoldable pub max_risk : RiskLevel → List SchemaChange → RiskLevel
max_risk most [] = most
max_risk most (change ∷ changes) = max_risk (raise_risk change.risk_level most) changes

unfoldable pub generate_migration_plan : List SchemaChange → MigrationPlan
generate_migration_plan changes = record {
  changes = changes;
  risk_level = max_risk safe changes;
  warnings = each warning changes;
}
