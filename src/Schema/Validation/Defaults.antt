-- ===== src/Schema/Validation/Defaults.antt =====
-- The defaults that `validate_node_properties` of packages/schema_engine/registry.py writes.
use net_graphy.Prelude.{
  or_else, or_else_assoc, or_else-none, String, ◌≡◌, refl, ap, sym, ◌∙◌, Bool, true, false, Option,
  none, [], ◌∷◌, if◌then◌else◌, ◌==◌, Option-cases, inl, inr, eq_iff, arith,
}
use net_graphy.Prelude.Dict.{Dict, lookup, lookup-insert}
use net_graphy.Value.{Value}
use net_graphy.Schema.Models.{AttributeDefinition}
use net_graphy.Schema.Validation.{with_default, with_defaults}

-- The first default of the attributes of a name.
unfoldable pub default_of : Dict AttributeDefinition → String → Option Value
default_of [] key = none
default_of ((name, d) ∷ attrs) key =
    let rest = default_of attrs key in if name == key then or_else d.default rest else rest

unchanged {ℓ} : {A : Type ℓ} (b : Bool) (x : Option A) → x ≡ or_else x (if b then none else none)
unchanged true x = sym (or_else-none x)
unchanged false x = sym (or_else-none x)

or_else-if {ℓ} :
    {A : Type ℓ} (b : Bool) (x y : Option A)
    → or_else (if b then x else none) y ≡ (if b then or_else x y else y)
or_else-if true x y = refl
or_else-if false x y = refl

lookup-with_default :
    (key name : String) (d : AttributeDefinition) (properties : Dict Value)
    → lookup key (with_default name d properties)
      ≡ or_else (lookup key properties) (if name == key then d.default else none)
lookup-with_default key name d properties = elim (Option-cases d.default) [
  | inl e ↦ rw e (unchanged (name == key) (lookup key properties))
  | inr (v, e) ↦ rw e (ground (arith, lookup-insert name key v properties, eq_iff name key))
]

-- After the defaults are written, a key has the value that was given, and else the first default
-- of an attribute of that name.
pub lookup-with_defaults :
    (key : String) (attrs : Dict AttributeDefinition) (properties : Dict Value)
    → lookup key (with_defaults attrs properties)
      ≡ or_else (lookup key properties) (default_of attrs key)
unfolding with_defaults default_of
lookup-with_defaults key [] properties = sym (or_else-none (lookup key properties))
lookup-with_defaults key ((name, d) ∷ attrs) properties =
    lookup-with_defaults key attrs (with_default name d properties)
    ∙ (ap (λ o. or_else o (default_of attrs key)) (lookup-with_default key name d properties)
        ∙ (or_else_assoc (lookup key properties) _ _
            ∙ ap (or_else (lookup key properties))
                (or_else-if (name == key) d.default (default_of attrs key))))
