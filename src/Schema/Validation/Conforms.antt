-- ===== src/Schema/Validation/Conforms.antt =====
-- What it means that the properties of a node or an edge are reported without errors.
use net_graphy.Prelude.{String, ◌≡◌, ◌≢◌, ◌⊎◌, true, false, Option, none, some, All, starts_with}
use mathlib.Core.Option
use net_graphy.Prelude.Dict.{Dict, lookup, has}
use net_graphy.Value.{Value, null}
use net_graphy.Schema.Models.{AttributeDefinition}
use net_graphy.Schema.Properties.{Libraries}
use net_graphy.Schema.Properties.Fits.{Fits}
use net_graphy.Schema.Validation.{with_defaults}

-- A required attribute that nothing sets is among the properties.
abbrev pub Supplied : Dict Value → String × AttributeDefinition → Type 0
Supplied properties (name, d) =
    d.required ≡ true → d.auto_set ≡ none → d.default ≡ none → has name properties ≡ true

-- An internal name, the id, or an attribute of the type.
abbrev pub Known : Dict AttributeDefinition → String × Value → Type 0
Known attrs (key, v) = (starts_with key "_" ≡ true) ⊎ ((key ≡ "id") ⊎ (has key attrs ≡ true))

module _ (lib : Libraries) where
  -- A null where the attribute is not required or is set automatically, or a value that it takes.
  abbrev pub NullOrFits : AttributeDefinition → Value → Type 0
  NullOrFits d v =
      ((v ≡ null) × ((d.required ≡ false) ⊎ (d.auto_set ≢ none))) ⊎ ((v ≢ null) × Fits lib d v)

  abbrev pub Acceptable : Dict AttributeDefinition → String × Value → Type 0
  Acceptable attrs (key, v) =
      key ≢ "id" → (d : AttributeDefinition) → lookup key attrs ≡ some d → NullOrFits d v

  abbrev pub Conforms : Dict AttributeDefinition → Dict Value → Type 0
  Conforms attrs properties =
      All (Supplied properties) attrs
      × (All (Known attrs) (with_defaults attrs properties)
          × All (Acceptable attrs) (with_defaults attrs properties))
