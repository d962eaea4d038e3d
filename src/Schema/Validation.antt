-- ===== src/Schema/Validation.antt =====
-- packages/schema_engine/registry.py: `SchemaRegistry.validate_node_properties` and
-- `SchemaRegistry.validate_edge_properties`.
pub mod Conforms
pub mod Edges
pub mod Defaults
use net_graphy.Prelude.{
  String, Bool, true, false, not, ◌&&◌, ◌||◌, Option, none, some, List, [], ◌∷◌, ◌++◌, each,
  contains, starts_with, if◌then◌else◌, ◌==◌,
}
use net_graphy.Prelude.Dict.{Dict, lookup, insert, has}
use net_graphy.Value.{Value, null}
use net_graphy.Schema.Models.{AttributeDefinition, NodeTypeDefinition, EdgeTypeDefinition}
use net_graphy.Schema.Registry.{SchemaRegistry, get_node_type, get_edge_type}
use net_graphy.Schema.Properties.{
  Libraries, PropertyError, unknown_type, missing_required, unknown_attribute, null_required,
  validate_attribute_value, is_none,
}

-- `attr_def.required and attr_def.auto_set is None`
abbrev pub demanded : AttributeDefinition → Bool
demanded d = d.required && is_none d.auto_set

unfoldable pub missing_node : Dict Value → String × AttributeDefinition → List PropertyError
missing_node properties (name, d) =
    if demanded d && (is_none d.default && not (has name properties))
    then missing_required name ∷ []
    else []

abbrev pub with_default : String → AttributeDefinition → Dict Value → Dict Value
with_default name d properties = elim d.default [
  | none ↦ properties
  | some v ↦ if has name properties then properties else insert name v properties
]

-- The loop that writes the defaults into the dictionary of the caller.
unfoldable pub with_defaults : Dict AttributeDefinition → Dict Value → Dict Value
with_defaults [] properties = properties
with_defaults ((name, d) ∷ attrs) properties = with_defaults attrs (with_default name d properties)

unfoldable pub unknown_node : Dict AttributeDefinition → String × Value → List PropertyError
unknown_node attrs (key, v) =
    if starts_with key "_" || key == "id"
    then []
    else if has key attrs
    then []
    else unknown_attribute key ∷ []

unfoldable pub missing_edge : Dict Value → String × AttributeDefinition → List PropertyError
missing_edge properties (name, d) =
    if d.required && not (has name properties) then missing_required name ∷ [] else []

module _ (lib : Libraries) where
  unfoldable pub value_errors : String → Value → AttributeDefinition → List PropertyError
  value_errors key null d = if demanded d then null_required key ∷ [] else []
  value_errors key v d = validate_attribute_value lib key v d

  unfoldable pub entry_errors : Dict AttributeDefinition → String × Value → List PropertyError
  entry_errors attrs (key, v) =
      if key == "id"
      then []
      else elim (lookup key attrs) [ none ↦ [] | some d ↦ value_errors key v d ]

  -- The errors, and the properties with their defaults.
  unfoldable pub validate_node_properties :
      SchemaRegistry → String → Dict Value → List PropertyError × Dict Value
  validate_node_properties r type properties = elim (get_node_type r type) [
    | none ↦ (unknown_type type ∷ [], properties)
    | some defn ↦
        let full = with_defaults defn.attributes properties in
        (
          each (missing_node properties) defn.attributes
              ++ (each (unknown_node defn.attributes) full
                  ++ each (entry_errors defn.attributes) full),
          full,
        )
  ]

  unfoldable pub edge_value_errors : String → Value → AttributeDefinition → List PropertyError
  edge_value_errors key null d = []
  edge_value_errors key v d = validate_attribute_value lib key v d

  unfoldable pub edge_entry_errors : Dict AttributeDefinition → String × Value → List PropertyError
  edge_entry_errors attrs (key, v) =
      if contains key ("id" ∷ "source_id" ∷ "target_id" ∷ []) then [] else elim (lookup key attrs) [
        | none ↦ unknown_attribute key ∷ []
        | some d ↦ edge_value_errors key v d
      ]

  unfoldable pub validate_edge_properties :
      SchemaRegistry → String → Dict Value → List PropertyError
  validate_edge_properties r type properties = elim (get_edge_type r type) [
    | none ↦ unknown_type type ∷ []
    | some defn ↦
        each (missing_edge properties) defn.attributes
        ++ each (edge_entry_errors defn.attributes) properties
  ]
