-- ===== src/Query/Reports/Compiling/Limits.antt =====
-- What a compiled report keeps to: its filters' values and its limits.
use net_graphy.Prelude.{
  ℕ, ◌≤◌, ◌≡◌, refl, sym, ◌∙◌, ap, Option, some, List, [], ◌∷◌, Result, ok, raised, arith,
  Bool-cases, Result-cases, ok_once, inl, inr, is_empty, subst, String, ◌<>◌, ◌⊎◌, true,
}
use text.Mathlib.TextLemmas.{append_assoc}
use net_graphy.Query.Reports.Columns.{ResolvedColumn}
use net_graphy.Prelude.Dict.{Dict, lookup, lookup-insert, lookup-insert_self}
use net_graphy.Value.{Value, int, pos, PyError}
use net_graphy.Query.Models.{FilterGroup, ResolvedPath}
use net_graphy.Query.EdgeIndex.{QueryValidator}
use net_graphy.Query.Validator.{validate}
use net_graphy.Query.Compiler.{CompilerState}
use net_graphy.Query.Assembly.{path_map_from, compile_filters, build_core, started}
use net_graphy.Query.Assembly.Injection.{SameGroup, filters-Same}
use net_graphy.Query.Assembly.SameValues.{SameState}
use net_graphy.Query.Reports.{ReportDefinition, RowMode, aggregate_rows}
use net_graphy.Query.Reports.Compiling.{
  groups_of, CompiledReport, report_params, finish_report, compile_report_aggregate, filter_ast,
  compile_report_filters, compile_shape, compile_report, smaller, or_not_compiled,
}

is_empty-nil : {A : Type 0} (xs : List A) → is_empty xs ≡ true → xs ≡ []
is_empty-nil [] h = refl
is_empty-nil (x ∷ xs) h = cc

aggregate-params :
    (report : ReportDefinition) (st : CompilerState)
    → (compile_report_aggregate report st).query.data_params ≡ report_params report st.params
unfolding compile_report_aggregate
aggregate-params report st = elim (Bool-cases (is_empty (groups_of report))) [
  | inl e ↦ rw e refl
  | inr e ↦ rw e refl
]

-- The parameters of a report are those of its filters, and its page.
shape-params :
    (v : QueryValidator) (report : ReportDefinition) (st : CompilerState) (mode : RowMode)
    → (compile_shape v report st mode).query.data_params ≡ report_params report st.params
unfolding compile_shape finish_report
shape-params v report st aggregate_rows = aggregate-params report st
shape-params v report st _ = refl

smaller-least : (a b : ℕ) → (smaller a b ≤ a) × (smaller a b ≤ b)
smaller-least a b = (ground arith, ground arith)

-- A report that compiles has passed its filters, and what follows them never fails.
compiled_shape :
    (v : QueryValidator) (report : ReportDefinition) {x : CompiledReport}
    → compile_report v report ≡ ok x
    → (st : CompilerState) × (compile_report_filters v report ≡ ok st)
      × (compile_shape v report st report.row_mode ≡ x)
unfolding compile_report
compiled_shape v report h = elim (Result-cases (compile_report_filters v report)) [
  | inl (st, e) ↦ (st, e, ok_once {r = compile_report v report} (rw (compile_report, e) refl) h)
  | inr (bad, e) ↦ cc (rw (compile_report, e) at h)
]

page-skip :
    (report : ReportDefinition) (params : Dict Value)
    → lookup "__skip" (report_params report params) ≡ some (int (pos report.pagination.offset))
unfolding report_params
page-skip report params =
    lookup-insert "__limit" "__skip"
      (int (pos (smaller report.pagination.limit report.max_export_rows))) _
    ∙ lookup-insert_self "__skip" (int (pos report.pagination.offset)) params

-- The text stands at the end of the other.
abbrev pub EndsWith : String → String → Type 0
EndsWith end text = (front : String) × (text ≡ front <> end)

EndsWith-append : (end text front : String) → EndsWith end text → EndsWith end (front <> text)
EndsWith-append end text front (f, e) = (front <> f, rw e (sym (append_assoc front f end)))

-- The text of a query ends with the page; that of an aggregate without groups has none and ends with
-- the one count that it returns.
abbrev pub IsPaged : ReportDefinition → CompiledReport → Type 0
IsPaged report x =
    EndsWith "SKIP $__skip LIMIT $__limit" x.query.data_query
    ⊎ ((report.row_mode ≡ aggregate_rows)
        × ((groups_of report ≡ []) × EndsWith "RETURN count(n) AS total" x.query.data_query))

aggregate-IsPaged :
    (report : ReportDefinition) (st : CompilerState)
    → report.row_mode ≡ aggregate_rows
    → IsPaged report (compile_report_aggregate report st)
unfolding compile_report_aggregate
aggregate-IsPaged report st mode = elim (Bool-cases (is_empty (groups_of report))) [
  | inl e ↦ inr (
    mode,
    (is_empty-nil (groups_of report) e, rw e (EndsWith-append _ _ (build_core st) ("\n", refl))),
  )
  | inr e ↦ rw e (
      inl (
        EndsWith-append _ _ (build_core st) (
          EndsWith-append _ _ "\nRETURN " (
            EndsWith-append _ _ _
              (EndsWith-append _ _ "\nORDER BY " (EndsWith-append _ _ _ (" DESC\n", refl)))))))
]

finish-IsPaged :
    (report : ReportDefinition) (st : CompilerState) (columns : List ResolvedColumn)
    → EndsWith "SKIP $__skip LIMIT $__limit" (finish_report report st columns).query.data_query
unfolding finish_report
finish-IsPaged report st columns = EndsWith-append _ _ _ (
    EndsWith-append _ _ "\nRETURN "
      (EndsWith-append _ _ _ (EndsWith-append _ _ _ (EndsWith-append _ _ _ ("\n", refl)))))

shape-IsPaged :
    (v : QueryValidator) (report : ReportDefinition) (st : CompilerState) (mode : RowMode)
    → report.row_mode ≡ mode
    → IsPaged report (compile_shape v report st mode)
unfolding compile_shape
shape-IsPaged v report st aggregate_rows e = aggregate-IsPaged report st e
shape-IsPaged v report st _ e = inl (finish-IsPaged report _ _)

-- Where a report compiles, the text of its query ends with a page of "$__skip" and "$__limit", unless
-- it is an aggregate without groups, which returns one count. Its parameter "__limit" is a number that exceeds neither the limit of its
-- page nor that of an export, and "__skip" is the offset of its page.
pub compile_report-limit :
    (v : QueryValidator) (report : ReportDefinition) {x : CompiledReport}
    → compile_report v report ≡ ok x
    → IsPaged report x
      × ((n : ℕ) × (lookup "__limit" x.query.data_params ≡ some (int (pos n)))
          × ((n ≤ report.pagination.limit) × (n ≤ report.max_export_rows))
          × (lookup "__skip" x.query.data_params ≡ some (int (pos report.pagination.offset))))
unfolding compile_report
compile_report-limit v report {x} h =
    let (st, passed, shape) = compiled_shape v report h in
    let params : x.query.data_params ≡ report_params report st.params =
      ap (λ c. c.query.data_params) (sym shape) ∙ shape-params v report st report.row_mode in
    (
      subst (IsPaged report) shape (shape-IsPaged v report st report.row_mode refl),
      (
        smaller report.pagination.limit report.max_export_rows,
        rw params (unfold report_params in (lookup-insert_self "__limit" _ _)),
        smaller-least _ _,
        rw params (page-skip report st.params),
      ),
    )

aggregate-text :
    (report : ReportDefinition) (st : CompilerState)
    → (compile_report_aggregate report st).query.data_query
      ≡ (compile_report_aggregate report (record st { params = [] })).query.data_query
unfolding compile_report_aggregate build_core
aggregate-text report st = elim (Bool-cases (is_empty (groups_of report))) [
  | inl e ↦ rw e refl
  | inr e ↦ rw e refl
]

-- The text does not depend on the parameters.
shape-text :
    (v : QueryValidator) (report : ReportDefinition) (st : CompilerState) (mode : RowMode)
    → (compile_shape v report st mode).query.data_query
      ≡ (compile_shape v report (record st { params = [] }) mode).query.data_query
unfolding compile_shape finish_report build_core
shape-text v report st aggregate_rows = aggregate-text report st
shape-text v report st _ = refl

-- Nor on the filters that the state comes from.
shape-filters :
    (v : QueryValidator) (report : ReportDefinition) (g : Option FilterGroup) (st : CompilerState)
    (mode : RowMode)
    → (compile_shape v (record report { filters = g }) st mode).query.data_query
      ≡ (compile_shape v report st mode).query.data_query
unfolding compile_shape finish_report compile_report_aggregate groups_of report_params
shape-filters v report g st aggregate_rows = refl
shape-filters v report g st _ = refl

or_failed-ok : {A : Type 0} (r : Result PyError A) {a : A} → or_not_compiled r ≡ ok a → r ≡ ok a
or_failed-ok (ok b) h = cc
or_failed-ok (raised e) h = cc

filters-ok :
    (v : QueryValidator) (report : ReportDefinition) (g : FilterGroup)
    (resolved : List ResolvedPath) {st : CompilerState}
    → validate v (filter_ast (record report { filters = some g })) ≡ ok resolved
    → compile_report_filters v (record report { filters = some g }) ≡ ok st
    → compile_filters (path_map_from resolved []) (some g) (started report.root_entity) ≡ ok st
unfolding compile_report_filters
filters-ok v report g resolved valid h = or_failed-ok _ (rw (compile_report_filters, valid) at h)

-- Two reports that differ only in the values that their filters compare with, whose filters pass
-- validation with the same resolved paths, and that both compile, have the same query text.
pub compile_report-SameGroup :
    (v : QueryValidator) (report : ReportDefinition) (resolved : List ResolvedPath)
    {g h : FilterGroup} {x y : CompiledReport}
    → SameGroup g h
    → validate v (filter_ast (record report { filters = some g })) ≡ ok resolved
    → validate v (filter_ast (record report { filters = some h })) ≡ ok resolved
    → compile_report v (record report { filters = some g }) ≡ ok x
    → compile_report v (record report { filters = some h }) ≡ ok y
    → x.query.data_query ≡ y.query.data_query
compile_report-SameGroup v report resolved {g} {h} {x} {y} same vg vh p q =
    let (s, ps, shape_g) = compiled_shape v (record report { filters = some g }) p in
    let (t, pt, shape_h) = compiled_shape v (record report { filters = some h }) q in
    let texts = λ (c : CompiledReport). c.query.data_query in
    let states : SameState s t =
      filters-Same (path_map_from resolved []) same (started report.root_entity)
        (filters-ok v report g resolved vg ps) (filters-ok v report h resolved vh pt) in
    ap texts (sym shape_g)
    ∙ (shape-filters v report (some g) s report.row_mode
        ∙ (shape-text v report s report.row_mode
            ∙ (ap (λ st. (compile_shape v report st report.row_mode).query.data_query) states
                ∙ (sym (shape-text v report t report.row_mode)
                    ∙ (sym (shape-filters v report (some h) t report.row_mode)
                        ∙ ap texts shape_h)))))
