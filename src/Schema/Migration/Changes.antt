-- ===== src/Schema/Migration/Changes.antt =====
-- What the difference of two registries holds.
use net_graphy.Prelude.{
  String, ◌≡◌, refl, ◌∙◌, subst, Bool, true, false, not, ◌&&◌, ◌||◌, Option, none, some, List, [],
  ◌∷◌, each, All, any, any-append, arith, eq_iff, if◌then◌else◌, ◌==◌, Bool-cases, Option-cases,
  inl, inr,
}
use net_graphy.Prelude.Dict.{Dict, values, lookup, insert, has}
use net_graphy.Schema.Models.{SchemaChange, NodeTypeDefinition, MixinDefinition}
use net_graphy.Schema.Registry.{
  SchemaRegistry, get_node_type, Definition, node_type, edge_type, mixin, enum_type, register,
  register_all, resolve_mixins, resolve_each, load,
}
use net_graphy.Schema.Migration.{add_change, remove_change, unless_known, diff_schemas}

abbrev named : String → NodeTypeDefinition → Bool
named name nt = nt.metadata.name == name

-- A change of the kind that is about the name.
abbrev pub about : String → String → SchemaChange → Bool
about kind name change = change.change_type == kind && change.target == name

-- Every node type stands under its own name.
abbrev pub IsKeyed : SchemaRegistry → Type 0
IsKeyed r = All (λ (key, nt). key ≡ nt.metadata.name) r.node_types

insert-own_name :
    (nt : NodeTypeDefinition) (types : Dict NodeTypeDefinition)
    → All (λ (key, d). key ≡ d.metadata.name) types
    → All (λ (key, d). key ≡ d.metadata.name) (insert nt.metadata.name nt types)
unfolding insert
insert-own_name nt [] all = (refl, tt)
insert-own_name nt ((key, d) ∷ types) all = elim (Bool-cases (key == nt.metadata.name)) [
  | inl e ↦ rw e ((eq_iff key nt.metadata.name).0 e, all.1)
  | inr e ↦ rw e (all.0, insert-own_name nt types all.1)
]

register_all-IsKeyed :
    (defs : List Definition) (r : SchemaRegistry) → IsKeyed r → IsKeyed (register_all defs r)
unfolding register_all register
register_all-IsKeyed [] r h = h
register_all-IsKeyed (node_type d ∷ defs) r h =
    register_all-IsKeyed defs _ (insert-own_name d r.node_types h)
register_all-IsKeyed (edge_type d ∷ defs) r h = register_all-IsKeyed defs _ h
register_all-IsKeyed (mixin d ∷ defs) r h = register_all-IsKeyed defs _ h
register_all-IsKeyed (enum_type d ∷ defs) r h = register_all-IsKeyed defs _ h

resolve_each-own_name :
    (mixins : Dict MixinDefinition) (types : Dict NodeTypeDefinition)
    → All (λ (key, d). key ≡ d.metadata.name) types
    → All (λ (key, d). key ≡ d.metadata.name) (resolve_each mixins types)
unfolding resolve_each
resolve_each-own_name mixins [] h = tt
resolve_each-own_name mixins ((key, d) ∷ types) h = (h.0, resolve_each-own_name mixins types h.1)

-- Loading definitions keeps every node type under its own name.
pub load-IsKeyed :
    (defs : List Definition) (r : SchemaRegistry) → IsKeyed r → IsKeyed (load defs r).0
unfolding load resolve_mixins
load-IsKeyed defs r h =
    resolve_each-own_name (register_all defs r).mixins (register_all defs r).node_types
      (register_all-IsKeyed defs r h)

-- Under their own names, the types are found by looking them up.
any-named :
    (name : String) (types : Dict NodeTypeDefinition)
    → All (λ (key, nt). key ≡ nt.metadata.name) types
    → any (named name) (values types) ≡ has name types
unfolding lookup
any-named name [] h = refl
any-named name ((key, nt) ∷ types) h =
    subst (λ k. (k == name || any (named name) (values types)) ≡ has name ((key, nt) ∷ types)) h.0
      (first_or_later (key == name) (lookup name types) (any-named name types h.1))
  where
    first_or_later :
        {later : Bool} (here : Bool) (o : Option NodeTypeDefinition)
        → later ≡ elim o [ none ↦ false | some v ↦ true ]
        → (here || later) ≡ elim (if here then some nt else o) [ none ↦ false | some v ↦ true ]
    first_or_later true o e = refl
    first_or_later false o e = e

change_of_one :
    (r : SchemaRegistry) (make : String → SchemaChange) (kind name : String) (own : Bool)
    → ((n : String) → about kind name (make n) ≡ (own && n == name))
    → (nt : NodeTypeDefinition)
    → any (about kind name) (unless_known r make nt)
      ≡ (own && (named name nt && not (has name r.node_types)))
unfolding get_node_type unless_known
change_of_one r make kind name own h nt = elim (Bool-cases (nt.metadata.name == name)) [
  | inl e ↦
      subst
        (λ n.
          any (about kind name) (unless_known r make nt)
          ≡ (own && (named name nt && not (has n r.node_types))))
        ((eq_iff nt.metadata.name name).0 e)
        (elim (Option-cases (lookup nt.metadata.name r.node_types)) [
          | inl missing ↦
              rw (unless_known, get_node_type, has, missing, h nt.metadata.name, e) (ground arith)
          | inr (other, found) ↦ rw (unless_known, get_node_type, has, found, e) (ground arith)
        ])
  | inr e ↦ elim (Option-cases (lookup nt.metadata.name r.node_types)) [
    | inl missing ↦
        rw (unless_known, get_node_type, has, missing, h nt.metadata.name, e) (ground arith)
    | inr (other, found) ↦ rw (unless_known, get_node_type, has, found, e) (ground arith)
  ]
]

any_change :
    (r : SchemaRegistry) (make : String → SchemaChange) (kind name : String) (own : Bool)
    → ((n : String) → about kind name (make n) ≡ (own && n == name))
    → (types : List NodeTypeDefinition)
    → any (about kind name) (each (unless_known r make) types)
      ≡ (own && (any (named name) types && not (has name r.node_types)))
unfolding each
any_change r make kind name own h [] = ground arith
any_change r make kind name own h (nt ∷ types) =
    any-append (about kind name) (unless_known r make nt) (each (unless_known r make) types)
    ∙ ground
        (arith, change_of_one r make kind name own h nt, any_change r make kind name own h types)

or_false : (b : Bool) → (b || false) ≡ b
or_false true = refl
or_false false = refl

-- Between registries with every type under its own name, a node type is reported as added exactly
-- when the new one has it and the old one does not, and as removed the other way round.
pub diff_schemas-changes :
    (old new : SchemaRegistry) (name : String)
    → IsKeyed old
    → IsKeyed new
    → (any (about "add_node_type" name) (diff_schemas old new)
        ≡ (has name new.node_types && not (has name old.node_types)))
      × (any (about "remove_node_type" name) (diff_schemas old new)
          ≡ (has name old.node_types && not (has name new.node_types)))
unfolding diff_schemas
diff_schemas-changes old new name ko kn = (
  both "add_node_type" true false (λ n. refl) (λ n. refl) (or_false _),
  both "remove_node_type" false true (λ n. refl) (λ n. refl) refl,
)
  where
    both :
        (kind : String) (adds removes : Bool)
        → ((n : String) → about kind name (add_change n) ≡ (adds && n == name))
        → ((n : String) → about kind name (remove_change n) ≡ (removes && n == name))
        → {expected : Bool}
        → ((adds && (has name new.node_types && not (has name old.node_types)))
            || (removes && (has name old.node_types && not (has name new.node_types))))
          ≡ expected
        → any (about kind name) (diff_schemas old new) ≡ expected
    both kind adds removes a b e =
        any-append (about kind name) (each (unless_known old add_change) (values new.node_types)) _
        ∙ (cc (
          any_change old add_change kind name adds a (values new.node_types),
          any_change new remove_change kind name removes b (values old.node_types),
          any-named name new.node_types kn,
          any-named name old.node_types ko,
        )
            ∙ e)
