-- ===== src/Query/Listing/Fields.antt =====
-- The listed fields against what validation accepts.
use net_graphy.Prelude.{
  String, ◌≡◌, ◌↔◌, refl, Bool, true, false, not, some, List, [], ◌∷◌, arith, contains, is_empty,
  subst, eq_iff, if◌then◌else◌, ==_refl, ◌==◌, Bool-cases, inl, inr, false≢true,
}
use net_graphy.Prelude.Dict.{Dict, lookup, keys}
use net_graphy.Schema.Models.{AttributeDefinition, NodeTypeDefinition}
use net_graphy.Schema.Registry.{get_node_type}
use net_graphy.Query.Models.{SortField}
use net_graphy.Query.EdgeIndex.{QueryValidator}
use net_graphy.Query.Validator.Accepts.{IsSortable}
use net_graphy.Query.Listing.{sortable_names, get_sortable_fields}

-- The keys of a dictionary are distinct.
abbrev pub IsDict : Dict AttributeDefinition → Type 0
IsDict [] = Unit
IsDict ((k, a) ∷ d) = (contains k (keys d) ≡ false) × IsDict d

-- The names of the attributes that pass a test.
unfoldable pub names_where : (AttributeDefinition → Bool) → Dict AttributeDefinition → List String
names_where test [] = []
names_where test ((k, a) ∷ d) = let rest = names_where test d in if test a then k ∷ rest else rest

module _ (test : AttributeDefinition → Bool) where
  listed-has :
      (k : String) (d : Dict AttributeDefinition)
      → contains k (names_where test d) ≡ true
      → contains k (keys d) ≡ true
  unfolding names_where contains
  listed-has k [] h = h
  listed-has k ((j, a) ∷ d) h = ground (arith, listed-has k d)

  listed-lookup :
      (k : String) (d : Dict AttributeDefinition)
      → IsDict d
      → contains k (names_where test d) ≡ true
      → (a : AttributeDefinition) × (lookup k d ≡ some a) × (test a ≡ true)
  unfolding names_where contains lookup
  listed-lookup k [] w h = absurd (false≢true h)
  listed-lookup k ((j, a) ∷ d) w h = elim (Bool-cases (j == k)) [
    | inl e ↦ elim (Bool-cases (test a)) [
      | inl s ↦ (a, rw e refl, s)
      | inr s ↦ absurd (
          shadowed (subst (λ i. contains i (keys d) ≡ false) ((eq_iff j k).0 e) w.0)
            (listed-has k d (ground (arith, s))))
    ]
    | inr e ↦
        let (x, f, s) = listed-lookup k d w.1 (ground (arith, eq_iff j k, eq_iff k j)) in
        (x, rw e f, s)
  ]
    where
      shadowed : contains k (keys d) ≡ false → contains k (keys d) ≡ true → ⊥
      shadowed absent present = ground arith

  lookup-listed :
      (k : String) (d : Dict AttributeDefinition) {a : AttributeDefinition}
      → lookup k d ≡ some a
      → test a ≡ true
      → contains k (names_where test d) ≡ true
  unfolding names_where contains lookup
  lookup-listed k [] h s = absurd (ground arith)
  lookup-listed k ((j, b) ∷ d) {a} h s = elim (Bool-cases (j == k)) [
    | inl e ↦ ground (arith, eq_iff j k, eq_iff k j, ==_refl k)
    | inr e ↦ ground (arith, lookup-listed k d {a = a})
  ]

  -- The names that are listed are those under which an attribute that passes is found.
  contains-names_where :
      (k : String) (d : Dict AttributeDefinition)
      → IsDict d
      → (contains k (names_where test d) ≡ true)
        ↔ ((a : AttributeDefinition) × (lookup k d ≡ some a) × (test a ≡ true))
  contains-names_where k d w =
      (listed-lookup k d w, λ (a, found, passes). lookup-listed k d found passes)

sortable_names-where :
    (d : Dict AttributeDefinition) → sortable_names d ≡ names_where (λ a. a.query.sortable) d
unfolding sortable_names names_where
sortable_names-where [] = refl
sortable_names-where ((k, a) ∷ d) = rw (sortable_names-where d) refl

-- The listed sortable fields of a type are exactly the fields that a query may sort by.
pub get_sortable_fields-IsSortable :
    (v : QueryValidator) (entity : String) (nt : NodeTypeDefinition) (sf : SortField)
    → get_node_type v.registry entity ≡ some nt
    → IsDict nt.attributes
    → (contains sf.field (get_sortable_fields v entity) ≡ true) ↔ IsSortable nt sf
unfolding get_sortable_fields
get_sortable_fields-IsSortable v entity nt sf e w =
    rw (e, get_sortable_fields, sortable_names-where)
      (contains-names_where (λ a. a.query.sortable) sf.field nt.attributes w)

-- Whether an attribute is a column of lists.
abbrev pub is_column : AttributeDefinition → Bool
is_column a = a.ui.list_column

-- Whether an attribute is among the default fields, where the schema does not configure them: a
-- column of lists, or, for a type without such columns, one that is not sensitive.
unfoldable pub is_shown : NodeTypeDefinition → AttributeDefinition → Bool
is_shown nt a =
    if is_empty (names_where is_column nt.attributes) then not a.health.sensitive else is_column a
