-- ===== src/Query/Assembly/Injection.antt =====
-- The values of a query never reach the text of the query.
use net_graphy.Prelude.{String, ◌≡◌, refl, Option, some, List, [], arith, ok, >>=-eq-ok, ap, subst}
use net_graphy.Value.{Value}
use net_graphy.Query.Models.{
  FilterCondition, FilterGroup, group, Conditions, none_left, condition, nested, LogicalOperator,
  QueryAst, ResolvedPath,
}
use net_graphy.Query.Compiler.{CompilerState}
use net_graphy.Query.Assembly.{
  PathMap, path_map_from, compile_condition, compile_filter_group, compile_parts, add_where,
  compile_filters, build_core, finish, started, CompiledQuery, compile,
}
use net_graphy.Query.Assembly.SameValues.{SameState, Same, Same-bind, condition-Same}

-- Two filters that may differ in the values compared with, and in nothing else.
mutual
  pub data SameGroup : FilterGroup → FilterGroup → Type 0 where
    same_group :
        (op : LogicalOperator) {cs ds : Conditions}
        → SameConditions cs ds
        → SameGroup (group op cs) (group op ds)

  pub data SameConditions : Conditions → Conditions → Type 0 where
    same_end : SameConditions none_left none_left
    same_condition :
        (c : FilterCondition) (w : Value) {cs ds : Conditions}
        → SameConditions cs ds
        → SameConditions (condition c cs) (condition (record c { value = w }) ds)
    same_nested :
        {g h : FilterGroup} {cs ds : Conditions}
        → SameGroup g h
        → SameConditions cs ds
        → SameConditions (nested g cs) (nested h ds)

module _ (paths : PathMap) where
  mutual
    unfolding compile_filter_group

    group-Same :
        {g h : FilterGroup}
        → SameGroup g h
        → (s t : CompilerState) → SameState s t
        → Same (compile_filter_group paths g s) (compile_filter_group paths h t)
    group-Same (same_group op {cs} {ds} r) s t k =
        Same-bind (compile_parts paths cs s) (compile_parts paths ds t) _ _ (parts-Same r s t k)
          λ parts s' t' k'. (refl, k')

    parts-Same :
        {cs ds : Conditions}
        → SameConditions cs ds
        → (s t : CompilerState) → SameState s t
        → Same (compile_parts paths cs s) (compile_parts paths ds t)
    parts-Same same_end s t k = (refl, k)
    parts-Same (same_condition c w {cs} {ds} r) s t k =
        Same-bind (compile_condition paths c s) (compile_condition paths (record c { value = w }) t)
          _ _ (condition-Same c w s t k paths)
          λ expr s₁ t₁ k₁.
            Same-bind (compile_parts paths cs s₁) (compile_parts paths ds t₁) _ _
              (parts-Same r s₁ t₁ k₁) λ parts s₂ t₂ k₂. (refl, k₂)
    parts-Same (same_nested {g} {h} {cs} {ds} q r) s t k =
        Same-bind (compile_filter_group paths g s) (compile_filter_group paths h t) _ _
          (group-Same q s t k)
          λ expr s₁ t₁ k₁.
            Same-bind (compile_parts paths cs s₁) (compile_parts paths ds t₁) _ _
              (parts-Same r s₁ t₁ k₁) λ parts s₂ t₂ k₂. (refl, k₂)

  pub filters-Same :
      {g h : FilterGroup}
      → SameGroup g h
      → (s : CompilerState) {s' t' : CompilerState} → compile_filters paths (some g) s ≡ ok s'
      → compile_filters paths (some h) s ≡ ok t'
      → SameState s' t'
  unfolding compile_filters add_where
  filters-Same {g} {h} r s p q =
      let ((t₁, s₁), e, f) = >>=-eq-ok (compile_filter_group paths g s) _ p in
      let ((t₂, s₂), e', f') = >>=-eq-ok (compile_filter_group paths h s) _ q in
      let k : Same (ok (t₁, s₁)) (ok (t₂, s₂)) =
        subst (λ m. Same m (ok (t₂, s₂))) e
          (subst (λ m. Same (compile_filter_group paths g s) m) e' (group-Same r s s refl)) in
      ground (arith, k, f, f')

core-Same : (s t : CompilerState) → SameState s t → build_core s ≡ build_core t
unfolding build_core
core-Same s t h = ap build_core h

-- Two queries that differ only in the values that their filters compare with, and that both
-- compile, have the same query text and the same count query: no value is written into a text.
pub compile-SameGroup :
    (ast : QueryAst) (resolved : List ResolvedPath) (defaults : Option (List String))
    {g h : FilterGroup} {x y : CompiledQuery}
    → SameGroup g h
    → compile (record ast { filters = some g }) resolved defaults ≡ ok x
    → compile (record ast { filters = some h }) resolved defaults ≡ ok y
    → (x.data_query ≡ y.data_query) × (x.count_query ≡ y.count_query)
unfolding compile finish
compile-SameGroup ast resolved defaults {g} {h} {x} {y} r p q =
    let paths = path_map_from resolved [] in
    let start = started ast.entity in
    let (s, e, f) = >>=-eq-ok (compile_filters paths (some g) start) _ p in
    let (t, e', f') = >>=-eq-ok (compile_filters paths (some h) start) _ q in
    let core = core-Same s t (filters-Same paths r start e e') in ground (arith, core, f, f')
