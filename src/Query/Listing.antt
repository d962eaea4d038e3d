-- ===== src/Query/Listing.antt =====
-- What the validator lists for clients: `get_sortable_fields`, `get_default_fields` and
-- `get_allowed_filter_paths` of packages/query_engine/validator.py. Of an offered path the
-- description and the enum values are left out.
pub mod Fields
pub mod Targets
use Prim.Native.Nat.{Ordering}
use Prim.Native.String.{compare}
use net_graphy.Prelude.{
  ℕ, String, ◌<>◌, Bool, true, false, not, ◌&&◌, ◌||◌, Option, none, some, List, [], ◌∷◌, ◌++◌, map,
  contains, is_empty, ltb, nat_eq, if◌then◌else◌, starts_with,
}
use net_graphy.Prelude.Dict.{Dict, lookup}
use net_graphy.Schema.Models.{
  AttributeDefinition, AttributeType, type_value, NodeTypeDefinition, EdgeTypeDefinition,
}
use net_graphy.Schema.Registry.{get_node_type}
use net_graphy.Query.EdgeIndex.{QueryValidator, or_empty}
use net_graphy.Query.Paths.{allowed_operators}

module _ {ℓ} {A : Type ℓ} (le : A → A → Bool) where
  -- Python's `sorted`, which is stable.
  unfoldable pub place : A → List A → List A
  place x [] = x ∷ []
  place x (y ∷ ys) = let later = y ∷ place x ys in if le x y then x ∷ y ∷ ys else later

  unfoldable pub sorted : List A → List A
  sorted [] = []
  sorted (x ∷ xs) = place x (sorted xs)

abbrev pub text_le : String → String → Bool
text_le a b = elim (compare a b) [ Ordering.gt ↦ false | _ ↦ true ]

-- The order of pairs: the number first, then the name.
abbrev pub column_le : ℕ × String → ℕ × String → Bool
column_le (m, a) (n, b) = ltb m n || (nat_eq m n && text_le a b)

unfoldable pub sortable_names : Dict AttributeDefinition → List String
sortable_names [] = []
sortable_names ((name, attr) ∷ attrs) =
    let rest = sortable_names attrs in if attr.query.sortable then name ∷ rest else rest

unfoldable pub get_sortable_fields : QueryValidator → String → List String
get_sortable_fields v entity = elim (get_node_type v.registry entity) [
  | none ↦ []
  | some nt ↦ sortable_names nt.attributes
]

-- `attr.ui.list_column_order or 999`: a zero counts as not given.
abbrev pub order_or_last : Option ℕ → ℕ
order_or_last none = 999
order_or_last (some n) = if nat_eq n 0 then 999 else n

unfoldable pub list_columns : Dict AttributeDefinition → List (ℕ × String)
list_columns [] = []
list_columns ((name, attr) ∷ attrs) =
    let rest = list_columns attrs in
    if attr.ui.list_column then (order_or_last attr.ui.list_column_order, name) ∷ rest else rest

unfoldable pub shown_names : Dict AttributeDefinition → List String
shown_names [] = []
shown_names ((name, attr) ∷ attrs) =
    let rest = shown_names attrs in if not attr.health.sensitive then name ∷ rest else rest

abbrev pub second_names : List (ℕ × String) → List String
second_names [] = []
second_names ((n, name) ∷ cs) = name ∷ second_names cs

unfoldable pub default_names : NodeTypeDefinition → List String
default_names nt =
    let columns = sorted column_le (list_columns nt.attributes) in
    if not (is_empty nt.query.default_list_fields)
    then nt.query.default_list_fields
    else if not (is_empty columns)
    then second_names columns
    else shown_names nt.attributes

unfoldable pub get_default_fields : QueryValidator → String → List String
get_default_fields v entity = elim (get_node_type v.registry entity) [
  | none ↦ "id" ∷ []
  | some nt ↦ "id" ∷ default_names nt
]

pub record FilterPath : Type 0 where
  pub path : String
  pub type : String
  pub operators : List String

abbrev pub offer : String → AttributeType → FilterPath
offer path type = record {
  path = path;
  type = type_value type;
  operators = sorted text_le (allowed_operators type);
}

unfoldable pub filterable_paths : String → Dict AttributeDefinition → List FilterPath
filterable_paths prefix [] = []
filterable_paths prefix ((name, attr) ∷ attrs) =
    let rest = filterable_paths prefix attrs in
    if attr.query.filterable then offer (prefix <> name) attr.type ∷ rest else rest

unfoldable pub edge_attribute_paths : String → Dict AttributeDefinition → List FilterPath
edge_attribute_paths alias [] = []
edge_attribute_paths alias ((name, attr) ∷ attrs) =
    offer (alias <> ("." <> name)) attr.type ∷ edge_attribute_paths alias attrs

-- The types at the far end as the listing has them: the sources only where the type is not itself one.
unfoldable pub listed_targets : EdgeTypeDefinition → String → List String
listed_targets et entity =
    if contains entity et.target.node_types && not (contains entity et.source.node_types)
    then et.source.node_types
    else et.target.node_types

unfoldable pub target_paths : QueryValidator → String → List String → List FilterPath
target_paths v alias [] = []
target_paths v alias (tt_name ∷ types) =
    let rest = target_paths v alias types in
    elim (get_node_type v.registry tt_name) [
      | none ↦ rest
      | some tt ↦ filterable_paths (alias <> ("." <> (tt_name <> "."))) tt.attributes ++ rest
    ]

unfoldable pub relationship_paths :
    QueryValidator → String → Dict EdgeTypeDefinition → List FilterPath
relationship_paths v entity [] = []
relationship_paths v entity ((alias, et) ∷ edges) =
    let rest = relationship_paths v entity edges in
    let existence : FilterPath = record {
      path = alias;
      type = "relationship_existence";
      operators = "exists" ∷ "not_exists" ∷ [];
    } in
    let counts : FilterPath = record {
      path = alias;
      type = "relationship_count";
      operators = "count_eq" ∷ "count_gt" ∷ "count_gte" ∷ "count_lt" ∷ "count_lte" ∷ [];
    } in
    if starts_with alias "inv_" || not et.query.traversable
    then rest
    else (if et.query.supports_existence_filter then existence ∷ [] else [])
      ++ ((if et.query.supports_count_filter then counts ∷ [] else [])
          ++ (target_paths v alias (listed_targets et entity)
              ++ (edge_attribute_paths alias et.attributes ++ rest)))

unfoldable pub get_allowed_filter_paths : QueryValidator → String → List FilterPath
get_allowed_filter_paths v entity = elim (get_node_type v.registry entity) [
  | none ↦ []
  | some nt ↦
      filterable_paths "" nt.attributes
      ++ relationship_paths v entity (or_empty (lookup entity v.edge_by_alias))
]
