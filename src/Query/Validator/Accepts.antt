-- ===== src/Query/Validator/Accepts.antt =====
-- What `validate` accepts, in the words of the schema.
use net_graphy.Prelude.{
  ◌≤◌, String, ◌≡◌, ◌↔◌, refl, inl, inr, true, ◌||◌, some, List, [], ◌∷◌, ◌++◌, arith, All,
  append-eq-nil, Option-cases, ok, ◌==◌, subst,
}
use net_graphy.Prelude.Dict.{lookup, has}
use net_graphy.Schema.Models.{AttributeDefinition, NodeTypeDefinition}
use net_graphy.Schema.Registry.{get_node_type}
use net_graphy.Query.Models.{SortField, QueryAst, ResolvedPath}
use net_graphy.Query.EdgeIndex.{QueryValidator}
use net_graphy.Query.Paths.{QueryError, resolve_filter_path}
use net_graphy.Query.Validator.{
  validate_filters, sort_errors, field_errors, limit_errors, shape_errors, selected, raise_errors,
  validate,
}
use net_graphy.Query.Validator.Filters.{
  Resolves, LegalPaths, Resolves-LegalPaths, filters_of, nesting_of, filters-Resolves,
  filters_clean,
}

abbrev pub IsSortable : NodeTypeDefinition → SortField → Type 0
IsSortable nt sf =
    (d : AttributeDefinition) × (lookup sf.field nt.attributes ≡ some d) × (d.query.sortable ≡ true)

abbrev pub IsReturnable : NodeTypeDefinition → String → Type 0
IsReturnable nt f = (has f nt.attributes || f == "id") ≡ true

sort-IsSortable :
    (nt : NodeTypeDefinition) (entity : String) (sort : List SortField)
    → sort_errors nt entity sort ≡ []
    → All (IsSortable nt) sort
unfolding sort_errors
sort-IsSortable nt entity [] h = tt
sort-IsSortable nt entity (sf ∷ sort) h = elim (Option-cases (lookup sf.field nt.attributes)) [
  | inl e ↦ absurd (ground arith)
  | inr (d, e) ↦ ((d, e, ground arith), sort-IsSortable nt entity sort (ground arith))
]

sort_clean :
    (nt : NodeTypeDefinition) (entity : String) (sort : List SortField)
    → All (IsSortable nt) sort
    → sort_errors nt entity sort ≡ []
unfolding sort_errors
sort_clean nt entity [] all = refl
sort_clean nt entity (sf ∷ sort) all =
    let (d, e, s) = all.0 in ground (arith, e, s, sort_clean nt entity sort all.1)

fields-IsReturnable :
    (nt : NodeTypeDefinition) (entity : String) (fields : List String)
    → (field_errors nt entity fields ≡ []) ↔ All (IsReturnable nt) fields
unfolding field_errors
fields-IsReturnable nt entity [] = (λ h. tt, λ h. refl)
fields-IsReturnable nt entity (f ∷ fields) =
    let ih = fields-IsReturnable nt entity fields in
    (λ h. (ground arith, ih.0 (ground arith)), λ h. ground (arith, ih.1 h.1))

-- What an accepted query satisfies, in the words of the schema.
pub record Accepted (v : QueryValidator) (ast : QueryAst) (nt : NodeTypeDefinition) : Type 0 where
  pub of_type : get_node_type v.registry ast.entity ≡ some nt
  pub page : ast.pagination.limit ≤ nt.query.max_page_size
  pub sorts : All (IsSortable nt) ast.sort
  pub returns : All (IsReturnable nt) (selected ast.fields)
  pub nests : nesting_of ast.filters ≤ nt.query.max_filter_nesting

module _ (v : QueryValidator) (ast : QueryAst) where
  raise_errors-ok :
      (es : List QueryError) (qs : List ResolvedPath) {ps : List ResolvedPath}
      → raise_errors es qs ≡ ok ps
      → (es ≡ []) × (qs ≡ ps)
  raise_errors-ok [] qs h = (refl, cc)
  raise_errors-ok (e ∷ es) qs h = cc

  validate-eq-ok :
      {ps : List ResolvedPath}
      → validate v ast ≡ ok ps
      → (nt : NodeTypeDefinition) × (get_node_type v.registry ast.entity ≡ some nt)
        × (shape_errors nt ast ++ (validate_filters v nt ast.filters).errors ≡ [])
        × ((validate_filters v nt ast.filters).resolved ≡ ps)
  unfolding validate
  validate-eq-ok {ps} h = elim (Option-cases (get_node_type v.registry ast.entity)) [
    | inl e ↦ absurd (ground arith)
    | inr (nt, e) ↦
        let r = validate_filters v nt ast.filters in
        let (a, b) =
          raise_errors-ok (shape_errors nt ast ++ r.errors) r.resolved (rw (e, validate) at h) in
        (nt, e, a, b)
  ]

  -- A query that passes validation stays within the page limit and the nesting limit of its type,
  -- sorts by sortable attributes, returns known ones, and has one legal path for each condition
  -- of its filter, in the order of the conditions.
  pub validate_sound :
      {ps : List ResolvedPath}
      → validate v ast ≡ ok ps
      → (nt : NodeTypeDefinition) × Accepted v ast nt × LegalPaths v nt (filters_of ast.filters) ps
  unfolding shape_errors limit_errors
  validate_sound {ps} h =
      let (nt, e, clean, out) = validate-eq-ok h in
      let r = validate_filters v nt ast.filters in
      let (shape, filters) = append-eq-nil (shape_errors nt ast) r.errors clean in
      let (limit, others) = append-eq-nil (limit_errors nt ast) _ shape in
      let (sorts, fields) = append-eq-nil (sort_errors nt ast.entity ast.sort) _ others in
      let (deep, all) = filters-Resolves v nt ast.filters filters in
      (
        nt,
        record {
          of_type = e;
          page = ground (arith, limit);
          sorts = sort-IsSortable nt ast.entity ast.sort sorts;
          returns = (fields-IsReturnable nt ast.entity (selected ast.fields)).0 fields;
          nests = deep;
        },
        Resolves-LegalPaths v nt (filters_of ast.filters) ps
            (subst (Resolves v nt (filters_of ast.filters)) out all),
      )

  -- A query of a known type within the page limit and the nesting limit, that sorts by sortable
  -- attributes and returns known ones, and of which each condition resolves without an error, passes.
  pub validate_complete :
      (nt : NodeTypeDefinition)
      → Accepted v ast nt
      → All (λ c. (resolve_filter_path v c nt).1 ≡ []) (filters_of ast.filters)
      → (ps : List ResolvedPath) × (validate v ast ≡ ok ps)
  unfolding validate shape_errors limit_errors
  validate_complete nt a all = (
    (validate_filters v nt ast.filters).resolved,
    rw (a.of_type, validate)
        (ground (
          arith,
          a.page,
          sort_clean nt ast.entity ast.sort a.sorts,
          (fields-IsReturnable nt ast.entity (selected ast.fields)).1 a.returns,
          filters_clean v nt ast.filters a.nests all,
        )),
  )
