-- ===== src/Query/Assembly.antt =====
-- `QueryCompiler.compile`, `compile_aggregate` and the clauses that they assemble, of
-- packages/query_engine/compiler.py.
pub mod SameValues
pub mod Injection
pub mod Bindings
pub mod Compared
pub mod BoundValues
pub mod Returns
use net_graphy.Prelude.{
  String, ◌<>◌, not, ◌&&◌, Option, none, some, List, [], ◌∷◌, ◌++◌, map, Result, ok, raised, ◌>>=◌,
  ◌==◌, if◌then◌else◌, is_given, is_blank, join, is_empty,
}
use net_graphy.Prelude.Dict.{Dict, lookup, insert}
use net_graphy.Value.{Value, int, pos, PyError}
use net_graphy.Query.Models.{
  FilterCondition, FilterGroup, group, Conditions, none_left, condition, nested, asc, desc,
  LogicalOperator, op_and, op_or, op_not, SortField, Pagination, QueryAst, ResolvedPathSegment,
  ResolvedPath,
}
use net_graphy.Query.Compiler.{
  CompilerState, initial, Step, compile_direct_filter, existence_text, relationship_pattern,
  compile_count_filter, compile_edge_attr_filter, compile_traversal_filter, shown,
}

abbrev pub PathMap : Type 0
PathMap = Dict ResolvedPath

-- {rp.raw_path: rp for rp in resolved_paths}
unfoldable pub path_map_from : List ResolvedPath → PathMap → PathMap
path_map_from [] m = m
path_map_from (rp ∷ rps) m = path_map_from rps (insert rp.raw_path rp m)

abbrev pub Piece : Type 0
Piece = Result PyError (List String × CompilerState)

unfoldable pub compile_existence_filter :
    FilterCondition → ResolvedPathSegment → CompilerState → Step
compile_existence_filter c seg st =
    ok (existence_text c.operator (relationship_pattern seg.direction (shown seg.edge_type)), st)

-- The dispatch on the segments of a path that is neither an existence nor a count filter. Segments
-- of any other form compile to the empty text, which is dropped.
unfoldable pub compile_segments : FilterCondition → List ResolvedPathSegment → CompilerState → Step
compile_segments c (s ∷ []) st =
    if is_given s.attribute && not (is_given s.edge_type)
    then compile_direct_filter c st
    else if is_given s.edge_type && is_given s.attribute
    then compile_edge_attr_filter c s st
    else ok ("", st)
compile_segments c (s ∷ t ∷ []) st =
    if is_given s.edge_type && is_given t.attribute
    then compile_traversal_filter c s t st
    else ok ("", st)
compile_segments c _ st = ok ("", st)

-- rp.segments[0]
abbrev pub with_first : List ResolvedPathSegment → (ResolvedPathSegment → Step) → Step
with_first [] f = raised PyError.index_error
with_first (s ∷ ss) f = f s

unfoldable pub compile_resolved : FilterCondition → ResolvedPath → CompilerState → Step
compile_resolved c rp st =
    if rp.is_relationship_existence
    then with_first rp.segments (λ s. compile_existence_filter c s st)
    else if rp.is_relationship_count
    then with_first rp.segments (λ s. compile_count_filter c s st)
    else compile_segments c rp.segments st

unfoldable pub compile_condition : PathMap → FilterCondition → CompilerState → Step
compile_condition paths c st = elim (lookup c.path paths) [
  | none ↦ compile_direct_filter c st
  | some rp ↦ compile_resolved c rp st
]

abbrev pub add_part : String → List String → List String
add_part expr parts = if is_blank expr then parts else expr ∷ parts

abbrev pub bracketed : String → String
bracketed expr = if is_blank expr then "" else "(" <> (expr <> ")")

unfoldable pub group_text : LogicalOperator → List String → String
group_text op [] = ""
group_text op_not (p ∷ ps) = "NOT (" <> (join " AND " (p ∷ ps) <> ")")
group_text op_and (p ∷ ps) = join " AND " (p ∷ ps)
group_text op_or (p ∷ ps) = join " OR " (p ∷ ps)

module _ (paths : PathMap) where
  unfoldable mutual
    pub compile_filter_group : FilterGroup → CompilerState → Step
    compile_filter_group (group op cs) st =
        compile_parts cs st >>= λ (parts, st'). ok (group_text op parts, st')

    pub compile_parts : Conditions → CompilerState → Piece
    compile_parts none_left st = ok ([], st)
    compile_parts (condition c rest) st = compile_condition paths c st >>= λ (expr, st₁).
        compile_parts rest st₁ >>= λ (parts, st₂). ok (add_part expr parts, st₂)
    compile_parts (nested g rest) st = compile_filter_group g st >>= λ (expr, st₁).
        compile_parts rest st₁ >>= λ (parts, st₂). ok (add_part (bracketed expr) parts, st₂)

unfoldable pub add_where : String → CompilerState → CompilerState
add_where expr st =
    if is_blank expr then st else record st { where_clauses = st.where_clauses ++ expr ∷ [] }

unfoldable pub compile_filters :
    PathMap → Option FilterGroup → CompilerState → Result PyError CompilerState
compile_filters paths none st = ok st
compile_filters paths (some g) st =
    compile_filter_group paths g st >>= λ (expr, st'). ok (add_where expr st')

unfoldable pub build_core : CompilerState → String
build_core st =
    if is_empty st.where_clauses
    then join "\n" st.match_clauses
    else join "\n" (st.match_clauses ++ ("WHERE " <> join " AND " st.where_clauses) ∷ [])

abbrev field_expr : String → String
field_expr f = if f == "id" then "n.id AS id" else "n." <> (f <> (" AS " <> f))

unfoldable pub build_return : List String → String
build_return [] = "RETURN DISTINCT n"
build_return (f ∷ fs) = "RETURN DISTINCT " <> join ", " (map field_expr (f ∷ fs))

-- The text is stripped, so an ascending field leaves no blank behind it.
abbrev sort_expr : SortField → String
sort_expr sf = elim sf.direction [ asc ↦ "n." <> sf.field | desc ↦ "n." <> (sf.field <> " DESC") ]

unfoldable pub build_order : List SortField → String
build_order [] = "ORDER BY n.id"
build_order (sf ∷ sort) = "ORDER BY " <> join ", " (map sort_expr (sf ∷ sort))

abbrev pub pagination_clause : String
pagination_clause = "SKIP $__skip LIMIT $__limit"

unfoldable pub build_pagination : Pagination → CompilerState → CompilerState
build_pagination p st = record st {
  params = insert "__limit" (int (pos p.limit)) (insert "__skip" (int (pos p.offset)) st.params);
}

-- `CompiledQuery`, without the CSV columns, which only reports have.
pub record CompiledQuery : Type 0 where
  pub data_query : String
  pub data_params : Dict Value
  pub count_query : Option String
  pub count_params : Option (Dict Value)

abbrev pub started : String → CompilerState
started entity = record initial { match_clauses = ("MATCH (n:" <> (entity <> ")")) ∷ [] }

-- ast.fields or default_fields or []
abbrev pub chosen_fields : Option (List String) → Option (List String) → List String
chosen_fields (some (f ∷ fs)) defaults = f ∷ fs
chosen_fields _ none = []
chosen_fields _ (some fs) = fs

unfoldable pub finish : QueryAst → Option (List String) → CompilerState → CompiledQuery
finish ast defaults st =
    let core = build_core st in
    let params = (build_pagination ast.pagination st).params in
    record {
      data_query =
          core
          <> ("\n"
              <> (build_return (chosen_fields ast.fields defaults)
                  <> ("\n" <> (build_order ast.sort <> ("\n" <> pagination_clause)))));
      data_params = params;
      count_query =
          if ast.include_total then some (core <> "\nRETURN count(DISTINCT n) AS total") else none;
      count_params = if ast.include_total then some params else none;
    }

unfoldable pub compile :
    QueryAst → List ResolvedPath → Option (List String) → Result PyError CompiledQuery
compile ast resolved defaults =
    compile_filters (path_map_from resolved []) ast.filters (started ast.entity) >>= λ st.
    ok (finish ast defaults st)

unfoldable pub aggregate_text : CompilerState → Option String → String
aggregate_text st group_by =
    if is_given group_by
    then build_core st
      <> ("\nRETURN n."
          <> (shown group_by
              <> (" AS "
                  <> (shown group_by <> ", count(DISTINCT n) AS count\nORDER BY count DESC"))))
    else build_core st <> "\nRETURN count(DISTINCT n) AS total"

unfoldable pub compile_aggregate :
    String → List ResolvedPath → Option FilterGroup → Option String → Result PyError CompiledQuery
compile_aggregate entity resolved filters group_by =
    compile_filters (path_map_from resolved []) filters (started entity) >>= λ st. ok (record {
      data_query = aggregate_text st group_by;
      data_params = st.params;
      count_query = none;
      count_params = none;
    })
