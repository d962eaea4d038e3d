-- ===== src/Query/Reports/Compiling.antt =====
-- `ReportCompiler.compile` and `_compile_aggregate` of packages/query_engine/report_compiler.py.
pub mod Limits
use net_graphy.Prelude.{
  ℕ, String, ◌<>◌, Bool, true, false, not, Option, none, some, List, [], ◌∷◌, ◌++◌, map, keep, any,
  Result, ok, raised, ◌>>=◌, ltb, length, join, is_blank, is_empty, is_given, split, if◌then◌else◌,
  ◌==◌, contains,
}
use net_graphy.Prelude.Spaces.{strip}
use net_graphy.Prelude.Dict.{Dict, lookup, insert}
use net_graphy.Value.{Value, int, pos, PyError}
use net_graphy.Query.Models.{FilterGroup, SortField, asc, desc, Pagination, QueryAst, ResolvedPath}
use net_graphy.Query.EdgeIndex.{QueryValidator}
use net_graphy.Query.Paths.{QueryError}
use net_graphy.Query.Validator.{validate}
use net_graphy.Query.Compiler.{CompilerState}
use net_graphy.Query.Assembly.{
  path_map_from, compile_filters, build_core, pagination_clause, started, CompiledQuery,
}
use net_graphy.Query.Slug.{slugify}
use net_graphy.Query.Reports.{
  ReportColumn, ReportDefinition, ColumnSource, root, source_text, RowMode, aggregate_rows,
}
use net_graphy.Query.Reports.Columns.{
  ResolvedColumn, ColumnMatches, no_matches, resolve_columns, header_or,
}

pub record ColumnMeta : Type 0 where
  pub path : String
  pub source : String
  pub display_label : String
  pub csv_header : String
  pub is_expansion : Bool

-- `CompiledQuery` with what only reports have.
pub record CompiledReport : Type 0 where
  pub query : CompiledQuery
  pub csv_headers : List String
  pub column_meta : List ColumnMeta

pub data ReportError : Type 0 where
  invalid : List QueryError → ReportError
  not_compiled : PyError → ReportError

abbrev pub smaller : ℕ → ℕ → ℕ
smaller a b = if ltb b a then b else a

unfoldable pub report_params : ReportDefinition → Dict Value → Dict Value
report_params report params =
    insert "__limit" (int (pos (smaller report.pagination.limit report.max_export_rows)))
      (insert "__skip" (int (pos report.pagination.offset)) params)

-- {rc.column.path: rc.csv_header for rc in columns}
unfoldable pub header_map : List ResolvedColumn → Dict String → Dict String
header_map [] m = m
header_map (rc ∷ rcs) m = header_map rcs (insert rc.column.path rc.csv_header m)

abbrev sort_text : Dict String → SortField → String
sort_text headers sf =
    let alias : String = elim (lookup sf.field headers) [ none ↦ sf.field | some h ↦ h ] in
    elim sf.direction [ asc ↦ strip (alias <> " ") | desc ↦ strip (alias <> " DESC") ]

-- `_build_order`
unfoldable pub build_report_order : List SortField → List ResolvedColumn → String
build_report_order [] [] = ""
build_report_order [] (rc ∷ rcs) = "ORDER BY " <> rc.csv_header
build_report_order (sf ∷ sort) columns =
    "ORDER BY " <> join ", " (map (sort_text (header_map columns [])) (sf ∷ sort))

abbrev pub meta_of : ResolvedColumn → ColumnMeta
meta_of rc = record {
  path = rc.column.path;
  source = source_text rc.column.source;
  display_label = header_or rc.column.display_label rc.column.path;
  csv_header = rc.csv_header;
  is_expansion = rc.is_expansion;
}

unfoldable pub finish_report :
    ReportDefinition → CompilerState → List ResolvedColumn → CompiledReport
finish_report report st columns =
    let core = build_core st in
    let expansion = any (λ rc. rc.is_expansion) columns in
    let order = build_report_order report.sort columns in
    let params = report_params report st.params in
    record {
      query = record {
        data_query =
            core
            <> ("\nRETURN "
                <> ((if expansion then "" else "DISTINCT ")
                    <> (join ", " (map (λ rc. rc.cypher_expr <> (" AS " <> rc.csv_header)) columns)
                        <> ((if is_blank order then "" else "\n" <> order)
                            <> ("\n" <> pagination_clause)))));
        data_params = params;
        count_query =
            some
              (core <> ("\nRETURN count(" <> ((if expansion then "*" else "n") <> ") AS total")));
        count_params = some params;
      };
      csv_headers = map (λ rc. rc.csv_header) columns;
      column_meta = map meta_of columns;
    }

-- The columns of the report that are grouped by where the report names none.
abbrev pub is_root_field : ReportColumn → Bool
is_root_field col = elim col.source [ root ↦ not (is_dotted col.path) | _ ↦ false ]
  where
    is_dotted : String → Bool
    is_dotted path = ltb 1 (length (split b'.' path))

unfoldable pub groups_of : ReportDefinition → List String
groups_of report =
    if is_empty report.group_by
    then map (λ col. col.path) (keep is_root_field report.columns)
    else report.group_by

abbrev pub group_header : ReportDefinition → String → String
group_header report gb = slugify report.root_entity <> ("_" <> gb)

-- A path with more than one part is left out of what is returned.
abbrev pub group_part : ReportDefinition → String → List String
group_part report gb =
    if ltb 1 (length (split b'.' gb))
    then []
    else ("n." <> (gb <> (" AS " <> group_header report gb))) ∷ []

abbrev pub column_meta_of : ReportDefinition → String → ColumnMeta
column_meta_of report gb = record {
  path = gb;
  source = "root";
  display_label = gb;
  csv_header = group_header report gb;
  is_expansion = false;
}

abbrev pub aggregate_meta : String → String → ColumnMeta
aggregate_meta name label = record {
  path = name;
  source = "aggregate";
  display_label = label;
  csv_header = name;
  is_expansion = false;
}

abbrev aggregate_query : Dict Value → String → CompiledQuery
aggregate_query params text = record {
  data_query = text;
  data_params = params;
  count_query = none;
  count_params = none;
}

abbrev all_parts : (String → List String) → List String → List String
all_parts f [] = []
all_parts f (x ∷ xs) = f x ++ all_parts f xs

unfoldable pub compile_report_aggregate : ReportDefinition → CompilerState → CompiledReport
compile_report_aggregate report st =
    let groups = groups_of report in
    let agg = if is_blank report.aggregate_function then "count" else report.aggregate_function in
    let total = agg <> "_total" in
    let query_of = aggregate_query (report_params report st.params) in
    if is_empty groups
    then record {
      query = query_of (build_core st <> "\nRETURN count(n) AS total");
      csv_headers = "total" ∷ [];
      column_meta = aggregate_meta "total" "Total" ∷ [];
    }
    else record {
      query = query_of (
          build_core st
          <> ("\nRETURN "
              <> (join ", " (
                    all_parts (group_part report) groups
                    ++ ((agg <> ("(DISTINCT n) AS " <> total)) ∷ []))
                  <> ("\nORDER BY " <> (total <> (" DESC\n" <> pagination_clause))))));
      csv_headers = map (group_header report) groups ++ (total ∷ []);
      column_meta = map (column_meta_of report) groups ++ (aggregate_meta total total ∷ []);
    }

-- The query whose filters are validated.
abbrev pub filter_ast : ReportDefinition → QueryAst
filter_ast report = record {
  entity = report.root_entity;
  filters = report.filters;
  sort = [];
  pagination = record { limit = 50; offset = 0 };
  fields = none;
  include_total = true;
  include_relationship_summary = false;
}

abbrev pub or_not_compiled : {A : Type 0} → Result PyError A → Result ReportError A
or_not_compiled (ok a) = ok a
or_not_compiled (raised e) = raised (not_compiled e)

unfoldable pub compile_report_filters :
    QueryValidator → ReportDefinition → Result ReportError CompilerState
compile_report_filters v report = elim report.filters [
  | none ↦ ok (started report.root_entity)
  | some g ↦ elim (validate v (filter_ast report)) [
    | raised errors ↦ raised (invalid errors)
    | ok resolved ↦
        or_not_compiled
          (compile_filters (path_map_from resolved []) (some g) (started report.root_entity))
  ]
]

abbrev pub with_matches : ColumnMatches → CompilerState → CompilerState
with_matches m st = record st { match_clauses = st.match_clauses ++ m.clauses }

-- What follows the filters, by the row mode.
unfoldable pub compile_shape :
    QueryValidator → ReportDefinition → CompilerState → RowMode → CompiledReport
compile_shape v report st aggregate_rows = compile_report_aggregate report st
compile_shape v report st _ =
    let (columns, m) =
      resolve_columns v report.root_entity report.row_mode report.columns no_matches in
    finish_report report (with_matches m st) columns

unfoldable pub compile_report :
    QueryValidator → ReportDefinition → Result ReportError CompiledReport
compile_report v report = elim (compile_report_filters v report) [
  | raised e ↦ raised e
  | ok st ↦ ok (compile_shape v report st report.row_mode)
]
