-- ===== src/Query/Compiler.antt =====
-- `QueryCompiler` of packages/query_engine/compiler.py: a validated query becomes Cypher text with
-- parameters. The state is threaded through; `value[0]` may raise.
pub mod Params
pub mod Repeats
use net_graphy.Prelude.{
  ℕ, ◌+◌, String, ◌<>◌, Bool, true, false, Option, none, some, List, [], ◌∷◌, ◌++◌, Result, ok,
  ◌>>=◌, if◌then◌else◌, is_blank, split,
}
use net_graphy.Prelude.Decimal.{show}
use net_graphy.Prelude.Dict.{Dict, lookup, insert}
use net_graphy.Value.{Value, PyError, subscript}
use net_graphy.Query.Models.{
  FilterOperator, FilterCondition, Direction, outgoing, incoming, ResolvedPathSegment,
}

-- `_CompilerState`
pub record CompilerState : Type 0 where
  pub match_clauses : List String
  pub where_clauses : List String
  pub params : Dict Value
  pub param_counter : ℕ
  pub rel_vars : Dict String
  pub rel_counter : ℕ

abbrev pub initial : CompilerState
initial = record {
  match_clauses = [];
  where_clauses = [];
  params = [];
  param_counter = 0;
  rel_vars = [];
  rel_counter = 0;
}

unfoldable pub param_name : ℕ → String
param_name n = "p" <> show n

unfoldable pub next_param : CompilerState → String × CompilerState
next_param st = (param_name st.param_counter, record st { param_counter = st.param_counter + 1 })

abbrev pub bind_param : String → Value → CompilerState → CompilerState
bind_param name v st = record st { params = insert name v st.params }

abbrev pub direction_text : Direction → String
direction_text outgoing = "outgoing"
direction_text incoming = "incoming"

unfoldable pub rel_key : String → Direction → String
rel_key edge_type direction = edge_type <> ("_" <> direction_text direction)

-- The relationship variable, the target variable, and whether they are new.
unfoldable pub next_rel_var :
    String → Direction → CompilerState → (String × String × Bool) × CompilerState
next_rel_var edge_type direction st =
    let key = rel_key edge_type direction in
    let n = st.rel_counter + 1 in
    elim (lookup key st.rel_vars) [
      | some var ↦ ((var, "t_" <> key, false), st)
      | none ↦ (
        ("r" <> show n, "t" <> show n, true),
        record st { rel_counter = n; rel_vars = insert key ("r" <> show n) st.rel_vars },
      )
    ]

-- What a step of the compiler returns: a text and the state, or an exception.
abbrev pub Step : Type 0
Step = Result PyError (String × CompilerState)

-- One parameter, written after the expression and the operator's word.
abbrev pub with_param : String → String → Value → CompilerState → Step
with_param before after v st =
    let (param, st') = next_param st in
    ok (before <> ("$" <> (param <> after)), bind_param param v st')

unfoldable pub operator_to_cypher : String → FilterOperator → Value → CompilerState → Step
operator_to_cypher f FilterOperator.eq v st = with_param (f <> " = ") "" v st
operator_to_cypher f FilterOperator.neq v st = with_param (f <> " <> ") "" v st
operator_to_cypher f FilterOperator.contains_text v st = with_param (f <> " CONTAINS ") "" v st
operator_to_cypher f FilterOperator.not_contains v st =
    with_param ("NOT " <> (f <> " CONTAINS ")) "" v st
operator_to_cypher f FilterOperator.starts_with v st = with_param (f <> " STARTS WITH ") "" v st
operator_to_cypher f FilterOperator.ends_with v st = with_param (f <> " ENDS WITH ") "" v st
operator_to_cypher f FilterOperator.regex v st = with_param (f <> " =~ ") "" v st
operator_to_cypher f FilterOperator.is_in v st = with_param (f <> " IN ") "" v st
operator_to_cypher f FilterOperator.not_in v st = with_param ("NOT " <> (f <> " IN ")) "" v st
operator_to_cypher f FilterOperator.gt v st = with_param (f <> " > ") "" v st
operator_to_cypher f FilterOperator.gte v st = with_param (f <> " >= ") "" v st
operator_to_cypher f FilterOperator.lt v st = with_param (f <> " < ") "" v st
operator_to_cypher f FilterOperator.lte v st = with_param (f <> " <= ") "" v st
operator_to_cypher f FilterOperator.between v st =
    let (lo, st₁) = next_param st in
    let (hi, st₂) = next_param st₁ in
    subscript v 0 >>= λ low. subscript v 1 >>= λ high.
    ok (
      "$" <> (lo <> (" <= " <> (f <> (" <= $" <> hi)))),
      bind_param hi high (bind_param lo low st₂),
    )
operator_to_cypher f FilterOperator.is_null v st = ok (f <> " IS NULL", (next_param st).1)
operator_to_cypher f FilterOperator.is_not_null v st = ok (f <> " IS NOT NULL", (next_param st).1)
operator_to_cypher f _ v st = with_param (f <> " = ") "" v st

-- cond.path.split(".")[-1]
unfoldable pub last_part : List String → String
last_part [] = ""
last_part (p ∷ []) = p
last_part (p ∷ q ∷ ps) = last_part (q ∷ ps)

unfoldable pub compile_direct_filter : FilterCondition → CompilerState → Step
compile_direct_filter c st =
    operator_to_cypher ("n." <> last_part (split b'.' c.path)) c.operator c.value st

-- A name that may be missing, as a formatted string shows it.
abbrev pub shown : Option String → String
shown none = "None"
shown (some name) = name

unfoldable pub relationship_pattern : Direction → String → String
relationship_pattern outgoing edge_type = "(n)-[:" <> (edge_type <> "]->()")
relationship_pattern incoming edge_type = "(n)<-[:" <> (edge_type <> "]-()")

unfoldable pub existence_text : FilterOperator → String → String
existence_text FilterOperator.exists pattern = "EXISTS { " <> (pattern <> " }")
existence_text _ pattern = "NOT EXISTS { " <> (pattern <> " }")

unfoldable pub count_symbol : FilterOperator → String
count_symbol FilterOperator.count_gt = ">"
count_symbol FilterOperator.count_gte = ">="
count_symbol FilterOperator.count_lt = "<"
count_symbol FilterOperator.count_lte = "<="
count_symbol _ = "="

unfoldable pub compile_count_filter : FilterCondition → ResolvedPathSegment → CompilerState → Step
compile_count_filter c seg st =
    with_param
      ("size(["
        <> (relationship_pattern seg.direction (shown seg.edge_type)
            <> (" | 1]) " <> (count_symbol c.operator <> " "))))
      "" c.value st

unfoldable pub match_clause : Direction → String → String → String → String → String
match_clause outgoing rel edge target label =
    "MATCH (n)-[" <> (rel <> (":" <> (edge <> ("]->(" <> (target <> (label <> ")"))))))
match_clause incoming rel edge target label =
    "MATCH (n)<-[" <> (rel <> (":" <> (edge <> ("]-(" <> (target <> (label <> ")"))))))

abbrev pub add_match : Bool → String → CompilerState → CompilerState
add_match is_new clause st =
    if is_new then record st { match_clauses = st.match_clauses ++ clause ∷ [] } else st

unfoldable pub compile_edge_attr_filter :
    FilterCondition → ResolvedPathSegment → CompilerState → Step
compile_edge_attr_filter c seg st =
    let edge = shown seg.edge_type in
    let ((rel, target, is_new), st') = next_rel_var edge seg.direction st in
    operator_to_cypher (rel <> ("." <> shown seg.attribute)) c.operator c.value
      (add_match is_new (match_clause seg.direction rel edge target "") st')

abbrev pub label_text : Option String → String
label_text none = ""
label_text (some type) = if is_blank type then "" else ":" <> type

unfoldable pub compile_traversal_filter :
    FilterCondition → ResolvedPathSegment → ResolvedPathSegment → CompilerState → Step
compile_traversal_filter c edge_seg attr_seg st =
    let edge = shown edge_seg.edge_type in
    let ((rel, target, is_new), st') = next_rel_var edge edge_seg.direction st in
    operator_to_cypher (target <> ("." <> shown attr_seg.attribute)) c.operator c.value (
      add_match is_new
        (match_clause edge_seg.direction rel edge target (label_text edge_seg.target_type)) st')
