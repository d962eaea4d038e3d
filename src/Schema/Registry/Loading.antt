-- ===== src/Schema/Registry/Loading.antt =====
-- What a loaded registry holds.
use mathlib.Core.Option
use net_graphy.Prelude.{or_else, String, Option, none, some, List, [], ◌∷◌, ◌==◌, if◌then◌else◌}
use net_graphy.Schema.Models.{MixinDefinition, NodeTypeDefinition}
use net_graphy.Schema.Registry.{Definition, node_type, mixin}

-- The last definition of a kind that has the name, in the order in which they are loaded.
unfoldable pub last_node_type : String → List Definition → Option NodeTypeDefinition
last_node_type name [] = none
last_node_type name (node_type d ∷ ds) =
    or_else (last_node_type name ds) (if d.metadata.name == name then some d else none)
last_node_type name (_ ∷ ds) = last_node_type name ds

unfoldable pub last_mixin : String → List Definition → Option MixinDefinition
last_mixin name [] = none
last_mixin name (mixin d ∷ ds) =
    or_else (last_mixin name ds) (if d.metadata.name == name then some d else none)
last_mixin name (_ ∷ ds) = last_mixin name ds

-- A node type without its attributes.
abbrev pub other_fields : NodeTypeDefinition → NodeTypeDefinition
other_fields nt = record nt { attributes = [] }
