-- ===== src/Query/Assembly/Compared.antt =====
-- The values that a single condition compares with, and that its compilation binds them.
use net_graphy.Prelude.{
  String, Bool, if◌then◌else◌, false, inl, inr, Option, none, some, List, [], ◌∷◌, ◌&&◌, Bool-cases,
  Option-cases, is_given, All,
}
use net_graphy.Prelude.Dict.{Dict, lookup, lookup-insert_self}
use net_graphy.Value.{Value}
use net_graphy.Query.Models.{FilterCondition, ResolvedPathSegment, ResolvedPath}
use net_graphy.Query.Compiler.{
  CompilerState, param_name, compile_direct_filter, compile_edge_attr_filter,
  compile_traversal_filter, compile_count_filter, next_param,
}
use net_graphy.Query.Compiler.Params.{compared, IsBound, Binds, Binds-nil, operator-Binds}
use net_graphy.Query.Assembly.{
  PathMap, with_first, compile_existence_filter, compile_segments, compile_resolved,
  compile_condition,
}

-- Whether segments end in an attribute, of the type, of an edge or of the far end.
unfoldable pub is_attribute_path : List ResolvedPathSegment → Bool
is_attribute_path (a ∷ []) = is_given a.attribute
is_attribute_path (a ∷ b ∷ []) = is_given a.edge_type && is_given b.attribute
is_attribute_path _ = false

-- The values that a condition compares with, by what its path resolves to: the count that the edges
-- are compared with, or what the operator compares an attribute with.
unfoldable pub compared_at : FilterCondition → Option ResolvedPath → List Value
compared_at c none = compared c.operator c.value
compared_at c (some rp) =
    if rp.is_relationship_existence
    then []
    else if rp.is_relationship_count
    then c.value ∷ []
    else if is_attribute_path rp.segments
    then compared c.operator c.value
    else []

abbrev pub compared_values : PathMap → FilterCondition → List Value
compared_values paths c = compared_at c (lookup c.path paths)

-- Each value that the condition compares with is bound.
abbrev pub AreBound : PathMap → Dict Value → FilterCondition → Type 0
AreBound paths params c = All (IsBound params) (compared_values paths c)

module _ (c : FilterCondition) (s : CompilerState) where
  segments-Binds :
      (segs : List ResolvedPathSegment)
      → Binds
          (if is_attribute_path segs then compared c.operator c.value else [])
          (compile_segments c segs s)
  unfolding is_attribute_path compile_segments compile_direct_filter compile_edge_attr_filter
      compile_traversal_filter
  segments-Binds [] = tt
  segments-Binds (a ∷ []) = elim (Bool-cases (is_given a.attribute)) [
    | inl p ↦ elim (Bool-cases (is_given a.edge_type)) [
      | inl e ↦ rw (p, e) (operator-Binds _ c.operator c.value _)
      | inr e ↦ rw (p, e) (operator-Binds _ c.operator c.value _)
    ]
    | inr p ↦ rw p (Binds-nil {A = String} _)
  ]
  segments-Binds (a ∷ b ∷ []) = elim (Bool-cases (is_given a.edge_type && is_given b.attribute)) [
    | inl p ↦ rw p (operator-Binds _ c.operator c.value _)
    | inr p ↦ rw p tt
  ]
  segments-Binds (a ∷ b ∷ d ∷ segs) =
      Binds-nil {A = String} (compile_segments c (a ∷ b ∷ d ∷ segs) s)

  count-Binds :
      (segs : List ResolvedPathSegment)
      → Binds (c.value ∷ []) (with_first segs (λ a. compile_count_filter c a s))
  unfolding compile_count_filter next_param
  count-Binds [] = tt
  count-Binds (a ∷ segs) =
      ((s.param_counter, lookup-insert_self (param_name s.param_counter) c.value s.params), tt)

  pub condition-Binds :
      (paths : PathMap) → Binds (compared_values paths c) (compile_condition paths c s)
  unfolding compile_condition compile_resolved compile_direct_filter compared_at
  condition-Binds paths = elim (Option-cases (lookup c.path paths)) [
    | inl e ↦ rw (e, compile_condition) (operator-Binds _ c.operator c.value s)
    | inr (rp, e) ↦ elim (Bool-cases rp.is_relationship_existence) [
      | inl x ↦
          rw (e, compile_condition, x)
            (Binds-nil {A = String} (with_first rp.segments (λ a. compile_existence_filter c a s)))
      | inr x ↦ elim (Bool-cases rp.is_relationship_count) [
        | inl n ↦ rw (e, compile_condition, x, n) (count-Binds rp.segments)
        | inr n ↦ rw (e, compile_condition, x, n) (segments-Binds rp.segments)
      ]
    ]
  ]
