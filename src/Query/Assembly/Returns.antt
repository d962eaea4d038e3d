-- ===== src/Query/Assembly/Returns.antt =====
-- When the compiler returns: its only exceptions are those of `between` and of a test of a
-- relationship without a segment.
use net_graphy.Prelude.{
  String, ◌≡◌, refl, false, not, ◌&&◌, Option, none, some, List, [], ◌∷◌, All, All-append_left,
  All-append_right, is_empty, is_given, Bool-cases, Option-cases, inl, inr, false≢true, sym, Result,
  ok, raised, ◌>>=◌, subst,
}
use net_graphy.Prelude.Dict.{lookup}
use net_graphy.Value.{Value, PyError, subscript}
use net_graphy.Query.Models.{
  FilterOperator, FilterCondition, FilterGroup, group, Conditions, none_left, condition, nested,
  QueryAst, ResolvedPathSegment, ResolvedPath,
}
use net_graphy.Query.Validator.Filters.{conditions_of, conditions_in}
use net_graphy.Query.Compiler.{
  CompilerState, operator_to_cypher, compile_direct_filter, compile_edge_attr_filter,
  compile_traversal_filter, compile_count_filter,
}
use net_graphy.Query.Assembly.{
  PathMap, path_map_from, compile_existence_filter, compile_segments, with_first, compile_resolved,
  compile_condition, compile_filter_group, compile_parts, compile_filters, CompiledQuery, compile,
  started,
}

abbrev pub Returns : {A : Type 0} → Result PyError A → Type 0
Returns (ok a) = Unit
Returns (raised e) = ⊥

Returns-bind :
    {A B : Type 0} (m : Result PyError A) (f : A → Result PyError B)
    → Returns m
    → ((a : A) → Returns (f a))
    → Returns (m >>= f)
Returns-bind (ok a) f h k = k a
Returns-bind (raised e) f h k = absurd h

Returns-ok : {A : Type 0} (m : Result PyError A) → Returns m → (a : A) × (m ≡ ok a)
Returns-ok (ok a) h = (a, refl)
Returns-ok (raised e) h = absurd h

-- The value has what the operator reads of it.
abbrev pub Supplies : FilterOperator → Value → Type 0
Supplies FilterOperator.between v = Returns (subscript v 0) × Returns (subscript v 1)
Supplies _ v = Unit

abbrev pub HasSegments : Option ResolvedPath → Type 0
HasSegments none = Unit
HasSegments (some rp) = is_empty rp.segments ≡ false

abbrev pub IsCompilable : PathMap → FilterCondition → Type 0
IsCompilable paths c = Supplies c.operator c.value × HasSegments (lookup c.path paths)

operator-Returns :
    (f : String) (op : FilterOperator) (v : Value) (s : CompilerState)
    → Supplies op v
    → Returns (operator_to_cypher f op v s)
unfolding operator_to_cypher
operator-Returns f FilterOperator.between v s h =
    Returns-bind (subscript v 0) _ h.0 λ low. Returns-bind (subscript v 1) _ h.1 λ high. tt
operator-Returns f FilterOperator.is_null v s h = tt
operator-Returns f FilterOperator.is_not_null v s h = tt
operator-Returns f _ v s h = tt

module _ (c : FilterCondition) (s : CompilerState) (h : Supplies c.operator c.value) where
  segments-Returns : (segs : List ResolvedPathSegment) → Returns (compile_segments c segs s)
  unfolding compile_segments compile_direct_filter compile_edge_attr_filter compile_traversal_filter
  segments-Returns [] = tt
  segments-Returns (a ∷ []) =
      elim (Bool-cases (is_given a.attribute && not (is_given a.edge_type))) [
        | inl e ↦ rw e (operator-Returns _ c.operator c.value _ h)
        | inr e ↦ rw e (elim (Bool-cases (is_given a.edge_type && is_given a.attribute)) [
          | inl f ↦ rw f (operator-Returns _ c.operator c.value _ h)
          | inr f ↦ rw f tt
        ])
      ]
  segments-Returns (a ∷ b ∷ []) = elim (Bool-cases (is_given a.edge_type && is_given b.attribute)) [
    | inl e ↦ rw e (operator-Returns _ c.operator c.value _ h)
    | inr e ↦ rw e tt
  ]
  segments-Returns (a ∷ b ∷ d ∷ segs) = tt

  existence-Returns :
      (segs : List ResolvedPathSegment)
      → is_empty segs ≡ false
      → Returns (with_first segs (λ a. compile_existence_filter c a s))
  unfolding compile_existence_filter
  existence-Returns [] n = absurd (false≢true (sym n))
  existence-Returns (a ∷ segs) n = tt

  count-Returns :
      (segs : List ResolvedPathSegment)
      → is_empty segs ≡ false
      → Returns (with_first segs (λ a. compile_count_filter c a s))
  unfolding compile_count_filter
  count-Returns [] n = absurd (false≢true (sym n))
  count-Returns (a ∷ segs) n = tt

  resolved-Returns :
      (rp : ResolvedPath) → is_empty rp.segments ≡ false → Returns (compile_resolved c rp s)
  unfolding compile_resolved
  resolved-Returns rp n = elim (Bool-cases rp.is_relationship_existence) [
    | inl e ↦ rw e (existence-Returns rp.segments n)
    | inr e ↦ rw e (elim (Bool-cases rp.is_relationship_count) [
      | inl f ↦ rw f (count-Returns rp.segments n)
      | inr f ↦ rw f (segments-Returns rp.segments)
    ])
  ]

  condition-Returns :
      (paths : PathMap) → HasSegments (lookup c.path paths) → Returns (compile_condition paths c s)
  unfolding compile_condition compile_direct_filter
  condition-Returns paths n = elim (Option-cases (lookup c.path paths)) [
    | inl e ↦ rw (e, compile_condition) (operator-Returns _ c.operator c.value s h)
    | inr (rp, e) ↦ rw (e, compile_condition) (resolved-Returns rp (subst HasSegments e n))
  ]

module _ (paths : PathMap) where
  mutual
    unfolding compile_filter_group conditions_of

    group-Returns :
        (g : FilterGroup) (s : CompilerState)
        → All (IsCompilable paths) (conditions_of g)
        → Returns (compile_filter_group paths g s)
    group-Returns (group op cs) s all =
        Returns-bind (compile_parts paths cs s) _ (parts-Returns cs s all) λ r. tt

    parts-Returns :
        (cs : Conditions) (s : CompilerState)
        → All (IsCompilable paths) (conditions_in cs)
        → Returns (compile_parts paths cs s)
    parts-Returns none_left s all = tt
    parts-Returns (condition c rest) s all =
        Returns-bind (compile_condition paths c s) _ (condition-Returns c s all.0.0 paths all.0.1)
          λ r. Returns-bind (compile_parts paths rest r.1) _ (parts-Returns rest r.1 all.1) λ q. tt
    parts-Returns (nested g rest) s all =
        Returns-bind (compile_filter_group paths g s) _
          (group-Returns g s
            (All-append_left (IsCompilable paths) (conditions_of g) (conditions_in rest) all))
          λ r.
            Returns-bind (compile_parts paths rest r.1) _
              (parts-Returns rest r.1
                (All-append_right (IsCompilable paths) (conditions_of g) (conditions_in rest) all))
              λ q. tt

-- A query with a filter compiles, where the value of each `between` has its two bounds and each
-- resolved path has a segment.
pub compile_returns :
    (ast : QueryAst) (resolved : List ResolvedPath) (defaults : Option (List String))
    (g : FilterGroup)
    → All (IsCompilable (path_map_from resolved [])) (conditions_of g)
    → (x : CompiledQuery) × (compile (record ast { filters = some g }) resolved defaults ≡ ok x)
unfolding compile compile_filters
compile_returns ast resolved defaults g all =
    Returns-ok (compile (record ast { filters = some g }) resolved defaults) (
      Returns-bind (compile_filters (path_map_from resolved []) (some g) (started ast.entity)) _
        (Returns-bind (compile_filter_group (path_map_from resolved []) g (started ast.entity)) _
          (group-Returns (path_map_from resolved []) g (started ast.entity) all) λ r. tt)
        λ st. tt)
