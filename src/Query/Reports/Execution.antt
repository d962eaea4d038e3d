-- ===== src/Query/Reports/Execution.antt =====
-- `ReportExecutor` of packages/query_engine/report_executor.py: running a report and its export as
-- CSV, whole and row by row. The metadata of a result is left out, and a total that is no integer is
-- kept as it is.
pub mod Streams
use net_graphy.Prelude.{
  ℕ, String, ◌<>◌, Bool, true, false, not, Option, none, some, List, [], ◌∷◌, ◌++◌, map, length,
  Result, ok, raised, ◌>>=◌, if◌then◌else◌,
}
use net_graphy.Prelude.Dict.{Dict, lookup, insert}
use net_graphy.Value.{Value, null, int, pos, list, dict}
use net_graphy.Query.EdgeIndex.{QueryValidator}
use net_graphy.Query.Reports.{ReportDefinition, RowMode}
use net_graphy.Query.Reports.Compiling.{CompiledReport, ColumnMeta, ReportError, compile_report}

abbrev pub Row : Type 0
Row = Dict Value

-- The graph database, `json.dumps` at values that it can write, `str` of a value, and the text that the module `csv` writes for a
-- row, by its writer and by its `DictWriter` alike.
pub record Outside : Type 0 where
  pub execute_read : String → Dict Value → Result String (List Row)
  pub dumps : Value → String
  pub str_of : Value → String
  pub write_row : List String → String

pub record ReportResult : Type 0 where
  pub columns : List ColumnMeta
  pub rows : List Row
  pub total_count : Option Value
  pub row_mode : RowMode
  pub csv_headers : List String

pub data ExecutionError : Type 0 where
  report_refused : ReportError → ExecutionError
  not_read : String → ExecutionError

abbrev pub export_report : ReportDefinition → ReportDefinition
export_report report = record report {
  pagination = record { limit = report.max_export_rows; offset = 0 };
}

abbrev pub or_empty_text : Option String → String
or_empty_text none = ""
or_empty_text (some t) = t

module _ (o : Outside) where
  abbrev pub read : String → Dict Value → Result ExecutionError (List Row)
  read query params = elim (o.execute_read query params) [
    | ok rows ↦ ok rows
    | raised e ↦ raised (not_read e)
  ]

  -- `count_result.rows[0].get("total", len(data_result.rows))`, where there is a row.
  abbrev pub total_of : List Row → List Row → Option Value
  total_of [] rows = none
  total_of (first ∷ more) rows = elim (lookup "total" first) [
    | none ↦ some (int (pos (length rows)))
    | some total ↦ some total
  ]

  unfoldable pub count_rows : CompiledReport → List Row → Result ExecutionError (Option Value)
  count_rows compiled rows = elim compiled.query.count_query [
    | none ↦ ok none
    | some query ↦ elim compiled.query.count_params [
      | none ↦ ok none
      | some params ↦ read query params >>= λ counted. ok (total_of counted rows)
    ]
  ]

  unfoldable pub execute : QueryValidator → ReportDefinition → Result ExecutionError ReportResult
  execute v report = elim (compile_report v report) [
    | raised e ↦ raised (report_refused e)
    | ok compiled ↦ read compiled.query.data_query compiled.query.data_params >>= λ rows.
        (count_rows compiled rows >>= λ total. ok (record {
          columns = compiled.column_meta;
          rows = rows;
          total_count = total;
          row_mode = report.row_mode;
          csv_headers = compiled.csv_headers;
        }))
  ]

  -- The text of a value in a cell.
  unfoldable pub value_text : Value → String
  value_text null = ""
  value_text (list vs) = o.dumps (list vs)
  value_text (dict fs) = o.dumps (dict fs)
  value_text v = o.str_of v

  abbrev pub cell : Row → String → String
  cell row header = elim (lookup header row) [ none ↦ "" | some v ↦ value_text v ]

  -- `safe_row`
  unfoldable pub safe_row : Row → List String → Dict String → Dict String
  safe_row row [] safe = safe
  safe_row row (header ∷ headers) safe = safe_row row headers (insert header (cell row header) safe)

  -- `DictWriter.writerow`: the values in the order of the field names.
  unfoldable pub write_dict : List String → Dict String → String
  write_dict headers row = o.write_row (map (λ h. or_empty_text (lookup h row)) headers)

  unfoldable pub export_rows : List String → List Row → String
  export_rows headers [] = ""
  export_rows headers (row ∷ rows) =
      write_dict headers (safe_row row headers []) <> export_rows headers rows

  unfoldable pub export_csv : QueryValidator → ReportDefinition → Result ExecutionError String
  export_csv v report = execute v (export_report report) >>= λ result.
      ok (o.write_row result.csv_headers <> export_rows result.csv_headers result.rows)

  -- What is yielded, in order.
  unfoldable pub stream_csv :
      QueryValidator → ReportDefinition → Result ExecutionError (List String)
  stream_csv v report = execute v (export_report report) >>= λ result. ok (
      o.write_row result.csv_headers
      ∷ map (λ row. o.write_row (map (cell row) result.csv_headers)) result.rows)
