-- ===== src/Schema/Validation/Edges.antt =====
-- What it means that the properties of an edge are reported without errors.
use net_graphy.Prelude.{String, ◌≡◌, ◌≢◌, true, false, some, [], ◌∷◌, contains, ◌⊎◌}
use net_graphy.Prelude.Dict.{Dict, lookup, has}
use net_graphy.Value.{Value, null}
use net_graphy.Schema.Models.{AttributeDefinition}
use net_graphy.Schema.Properties.{Libraries}
use net_graphy.Schema.Properties.Fits.{Fits}

-- A required attribute is among the properties, whatever its default.
abbrev pub Supplied : Dict Value → String × AttributeDefinition → Type 0
Supplied properties (name, d) = d.required ≡ true → has name properties ≡ true

-- The keys that name the edge and its ends are not attributes.
abbrev pub IsAttribute : String → Type 0
IsAttribute key = contains key ("id" ∷ "source_id" ∷ "target_id" ∷ []) ≡ false

module _ (lib : Libraries) where
  abbrev pub Acceptable : Dict AttributeDefinition → String × Value → Type 0
  Acceptable attrs (key, v) =
      IsAttribute key
      → (d : AttributeDefinition) × (lookup key attrs ≡ some d)
        × ((v ≡ null) ⊎ ((v ≢ null) × Fits lib d v))
