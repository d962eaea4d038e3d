-- ===== src/Schema/Registry/Mixins.antt =====
-- What a node type has once its mixins are resolved.
use net_graphy.Prelude.{
  or_else, or_else_assoc, or_else-none, String, ◌≡◌, refl, Option, none, some, List, [], ◌∷◌, arith,
  eq_iff, ◌==◌, Bool-cases, Option-cases, inl, inr, if◌then◌else◌, ◌∙◌, ap, sym,
}
use mathlib.Core.Option
use net_graphy.Prelude.Dict.{Dict, lookup, insert, has, lookup-insert}
use net_graphy.Schema.Models.{AttributeDefinition, MixinDefinition, NodeTypeDefinition}
use net_graphy.Schema.Registry.{
  SchemaRegistry, get_node_type, get_mixin, add_missing, merge_mixins, with_mixins, resolve_each,
  resolve_mixins,
}

abbrev attribute_of : String → Option MixinDefinition → Option AttributeDefinition
attribute_of a none = none
attribute_of a (some m) = lookup a m.attributes

-- The attribute in the first of the named mixins that has it.
unfoldable pub inherited :
    (String → Option MixinDefinition) → List String → String → Option AttributeDefinition
inherited find [] a = none
inherited find (name ∷ names) a = or_else (attribute_of a (find name)) (inherited find names a)

pub inherited_same :
    (f g : String → Option MixinDefinition) (names : List String) (a : String)
    → ((name : String) → f name ≡ g name)
    → inherited f names a ≡ inherited g names a
unfolding inherited
inherited_same f g [] a h = refl
inherited_same f g (name ∷ names) a h =
    cc (ap (attribute_of a) (h name), inherited_same f g names a h)

lookup_first :
    (a name : String) (d : AttributeDefinition) (more : Dict AttributeDefinition)
    → lookup a ((name, d) ∷ more) ≡ or_else (if name == a then some d else none) (lookup a more)
unfolding lookup
lookup_first a name d more = ground arith

lookup-add_one :
    (a name : String) (d : AttributeDefinition) (attrs : Dict AttributeDefinition)
    → lookup a (if has name attrs then attrs else insert name d attrs)
      ≡ or_else (lookup a attrs) (if name == a then some d else none)
lookup-add_one a name d attrs = ground (arith, lookup-insert name a d attrs, eq_iff name a)

lookup-add_missing :
    (a : String) (more attrs : Dict AttributeDefinition)
    → lookup a (add_missing more attrs) ≡ or_else (lookup a attrs) (lookup a more)
unfolding add_missing
lookup-add_missing a [] attrs = unfold lookup in sym (or_else-none (lookup a attrs))
lookup-add_missing a ((name, d) ∷ more) attrs =
    lookup-add_missing a more (if has name attrs then attrs else insert name d attrs)
    ∙ (ap (λ x. or_else x (lookup a more)) (lookup-add_one a name d attrs)
        ∙ (or_else_assoc (lookup a attrs) (if name == a then some d else none) (lookup a more)
            ∙ ap (or_else (lookup a attrs)) (sym (lookup_first a name d more))))

lookup-merge_mixins :
    (mixins : Dict MixinDefinition) (names : List String) (a : String)
    (attrs : Dict AttributeDefinition)
    → lookup a (merge_mixins mixins names attrs)
      ≡ or_else (lookup a attrs) (inherited (λ n. lookup n mixins) names a)
unfolding merge_mixins inherited
lookup-merge_mixins mixins [] a attrs = sym (or_else-none (lookup a attrs))
lookup-merge_mixins mixins (name ∷ names) a attrs = elim (Option-cases (lookup name mixins)) [
  | inl e ↦ rw (e, merge_mixins, inherited) (lookup-merge_mixins mixins names a attrs)
  | inr (m, e) ↦
      rw (e, merge_mixins, inherited)
        (lookup-merge_mixins mixins names a (add_missing m.attributes attrs)
          ∙ (ap (λ x. or_else x (inherited (λ n. lookup n mixins) names a))
                (lookup-add_missing a m.attributes attrs)
              ∙ or_else_assoc (lookup a attrs) (lookup a m.attributes)
                  (inherited (λ n. lookup n mixins) names a)))
]

pub lookup-resolve_each :
    (mixins : Dict MixinDefinition) (name : String) (types : Dict NodeTypeDefinition)
    → lookup name (resolve_each mixins types) ≡ Option.map (with_mixins mixins) (lookup name types)
unfolding resolve_each lookup
lookup-resolve_each mixins name [] = refl
lookup-resolve_each mixins name ((k, nt) ∷ types) = elim (Bool-cases (k == name)) [
  | inl e ↦ rw e refl
  | inr e ↦ rw e (lookup-resolve_each mixins name types)
]

-- Resolving mixins leaves the names of node types as they are. An attribute of a type is then its
-- own where it has one of that name, and else that of the first of its mixins, in the order in
-- which it names them, that is known and has one.
pub resolve_mixins-lookup :
    (r : SchemaRegistry) (type : String) (a : String)
    → Option.map (λ nt. lookup a nt.attributes) (get_node_type (resolve_mixins r) type)
      ≡ Option.map
          (λ nt. or_else (lookup a nt.attributes) (inherited (get_mixin r) nt.mixins a))
          (get_node_type r type)
unfolding resolve_mixins get_node_type get_mixin
resolve_mixins-lookup r type a =
    ap (Option.map (λ nt. lookup a nt.attributes)) (lookup-resolve_each r.mixins type r.node_types)
    ∙ by_attribute (lookup type r.node_types)
  where
    by_attribute :
        (o : Option NodeTypeDefinition)
        → Option.map (λ nt. lookup a nt.attributes) (Option.map (with_mixins r.mixins) o)
          ≡ Option.map
              (λ nt. or_else (lookup a nt.attributes) (inherited (get_mixin r) nt.mixins a))
              o
    by_attribute none = refl
    by_attribute (some nt) = ap some (lookup-merge_mixins r.mixins nt.mixins a nt.attributes)
