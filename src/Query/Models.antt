-- ===== src/Query/Models.antt =====
-- packages/query_engine/models.py: the query AST and what validation makes of it.
use net_graphy.Prelude.{ℕ, String, Bool, Option, List, [], ◌∷◌}
use net_graphy.Prelude.Dict.{Dict}
use net_graphy.Value.{Value}

pub data FilterOperator : Type 0 where
  eq neq contains_text not_contains starts_with ends_with regex : FilterOperator
  is_in not_in gt gte lt lte between is_null is_not_null exists not_exists : FilterOperator
  count_eq count_gt count_gte count_lt count_lte : FilterOperator

-- `FilterOperator.value`
unfoldable pub operator_value : FilterOperator → String
operator_value FilterOperator.eq = "eq"
operator_value FilterOperator.neq = "neq"
operator_value FilterOperator.contains_text = "contains"
operator_value FilterOperator.not_contains = "not_contains"
operator_value FilterOperator.starts_with = "starts_with"
operator_value FilterOperator.ends_with = "ends_with"
operator_value FilterOperator.regex = "regex"
operator_value FilterOperator.is_in = "in"
operator_value FilterOperator.not_in = "not_in"
operator_value FilterOperator.gt = "gt"
operator_value FilterOperator.gte = "gte"
operator_value FilterOperator.lt = "lt"
operator_value FilterOperator.lte = "lte"
operator_value FilterOperator.between = "between"
operator_value FilterOperator.is_null = "is_null"
operator_value FilterOperator.is_not_null = "is_not_null"
operator_value FilterOperator.exists = "exists"
operator_value FilterOperator.not_exists = "not_exists"
operator_value FilterOperator.count_eq = "count_eq"
operator_value FilterOperator.count_gt = "count_gt"
operator_value FilterOperator.count_gte = "count_gte"
operator_value FilterOperator.count_lt = "count_lt"
operator_value FilterOperator.count_lte = "count_lte"

abbrev equality : List String
equality = "eq" ∷ "neq" ∷ "is_null" ∷ "is_not_null" ∷ []

abbrev ordering : List String
ordering = "eq" ∷ "neq" ∷ "gt" ∷ "gte" ∷ "lt" ∷ "lte" ∷ "between" ∷ "is_null" ∷ "is_not_null" ∷ []

abbrev numeric : List String
numeric =
    "eq" ∷ "neq" ∷ "gt" ∷ "gte" ∷ "lt" ∷ "lte" ∷ "between" ∷ "in" ∷ "not_in" ∷ "is_null"
    ∷ "is_not_null" ∷ []

abbrev prefixed : List String
prefixed = "eq" ∷ "neq" ∷ "contains" ∷ "starts_with" ∷ "is_null" ∷ "is_not_null" ∷ []

abbrev null_tests : List String
null_tests = "is_null" ∷ "is_not_null" ∷ []

-- The sets of `OPERATORS_BY_TYPE`, as lists.
abbrev pub operators_by_type : Dict (List String)
operators_by_type =
    (
      "string",
      "eq" ∷ "neq" ∷ "contains" ∷ "not_contains" ∷ "starts_with" ∷ "ends_with" ∷ "regex" ∷ "in"
          ∷ "not_in" ∷ "is_null" ∷ "is_not_null" ∷ [],
    )
    ∷ (
      "text",
      "eq" ∷ "neq" ∷ "contains" ∷ "not_contains" ∷ "starts_with" ∷ "ends_with" ∷ "in" ∷ "is_null"
          ∷ "is_not_null" ∷ [],
    )
    ∷ ("enum", "eq" ∷ "neq" ∷ "in" ∷ "not_in" ∷ "is_null" ∷ "is_not_null" ∷ [])
    ∷ ("integer", numeric)
    ∷ ("float", numeric)
    ∷ ("boolean", equality)
    ∷ ("datetime", ordering)
    ∷ ("date", ordering)
    ∷ (
      "ip_address",
      "eq" ∷ "neq" ∷ "contains" ∷ "starts_with" ∷ "in" ∷ "is_null" ∷ "is_not_null" ∷ [],
    )
    ∷ ("cidr", prefixed)
    ∷ ("mac_address", "eq" ∷ "neq" ∷ "contains" ∷ "in" ∷ "is_null" ∷ "is_not_null" ∷ [])
    ∷ ("url", prefixed)
    ∷ ("email", prefixed)
    ∷ ("json", null_tests)
    ∷ ("reference", "eq" ∷ "neq" ∷ "in" ∷ "is_null" ∷ "is_not_null" ∷ [])
    ∷ ("list[string]", null_tests)
    ∷ ("list[integer]", null_tests)
    ∷ ("relationship_existence", "exists" ∷ "not_exists" ∷ [])
    ∷ ("relationship_count", "count_eq" ∷ "count_gt" ∷ "count_gte" ∷ "count_lt" ∷ "count_lte" ∷ [])
    ∷ []

pub data SortDirection : Type 0 where
  asc desc : SortDirection

pub data LogicalOperator : Type 0 where
  op_and op_or op_not : LogicalOperator

pub record FilterCondition : Type 0 where
  pub path : String
  pub operator : FilterOperator
  pub value : Value

-- A group is its operator and its conditions; a condition is a `FilterCondition` or a group.
mutual
  pub data FilterGroup : Type 0 where
    group : LogicalOperator → Conditions → FilterGroup

  pub data Conditions : Type 0 where
    none_left : Conditions
    condition : FilterCondition → Conditions → Conditions
    nested : FilterGroup → Conditions → Conditions

pub record SortField : Type 0 where
  pub field : String
  pub direction : SortDirection

pub record Pagination : Type 0 where
  pub limit : ℕ
  pub offset : ℕ

pub record QueryAst : Type 0 where
  pub entity : String
  pub filters : Option FilterGroup
  pub sort : List SortField
  pub pagination : Pagination
  pub fields : Option (List String)
  pub include_total : Bool
  pub include_relationship_summary : Bool

pub data Direction : Type 0 where
  outgoing incoming : Direction

pub record ResolvedPathSegment : Type 0 where
  pub edge_type : Option String
  pub direction : Direction
  pub target_type : Option String
  pub attribute : Option String

pub record ResolvedPath : Type 0 where
  pub raw_path : String
  pub segments : List ResolvedPathSegment
  pub is_relationship_existence : Bool
  pub is_relationship_count : Bool
