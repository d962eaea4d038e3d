-- ===== src/Query/Assembly/Bindings.antt =====
-- No step of the compilation of a filter overwrites or forgets a parameter.
use net_graphy.Prelude.{
  String, refl, Bool, true, false, not, inl, inr, List, [], ◌∷◌, ◌&&◌, arith, Bool-cases,
  Option-cases, is_given,
}
use net_graphy.Prelude.Dict.{lookup}
use net_graphy.Query.Models.{
  FilterCondition, FilterGroup, group, Conditions, none_left, condition, nested,
  ResolvedPathSegment, ResolvedPath, Direction,
}
use net_graphy.Query.Compiler.{
  CompilerState, next_rel_var, next_param, add_match, operator_to_cypher, compile_direct_filter,
  compile_count_filter, compile_edge_attr_filter, compile_traversal_filter, shown,
}
use net_graphy.Query.Compiler.Params.{
  IsFresh, Kept, Kept-refl, Kept-trans, Kept-same, Keeps, Keeps-trans, Keeps-bind, operator-Keeps,
  bind-Kept,
}
use net_graphy.Query.Assembly.{
  PathMap, compile_existence_filter, compile_segments, with_first, compile_resolved,
  compile_condition, compile_filter_group, compile_parts,
}

add_match-Kept :
    (b : Bool) (clause : String) (s : CompilerState) → IsFresh s → Kept s (add_match b clause s)
add_match-Kept true clause s h = Kept-same refl (omega arith) h
add_match-Kept false clause s h = Kept-refl h

rel_var-Kept :
    (e : String) (d : Direction) (s : CompilerState) → IsFresh s → Kept s (next_rel_var e d s).1
unfolding next_rel_var
rel_var-Kept e d s h = Kept-same (ground arith) (ground arith) h

module _ (c : FilterCondition) (s : CompilerState) (h : IsFresh s) where
  -- A filter over an edge, whatever text it makes of the variables.
  edge-Keeps :
      (edge : String) (d : Direction) (text : String) (b : Bool) (clause : String)
      → Keeps s (
          operator_to_cypher text c.operator c.value (add_match b clause (next_rel_var edge d s).1))
  edge-Keeps edge d text b clause =
      let moved = next_rel_var edge d s in
      let k = rel_var-Kept edge d s h in
      let l = add_match-Kept b clause moved.1 k.fresh in
      Keeps-trans (operator_to_cypher text c.operator c.value (add_match b clause moved.1))
        (Kept-trans k l)
        (operator-Keeps text c.operator c.value (add_match b clause moved.1) l.fresh)

  direct-Keeps : Keeps s (compile_direct_filter c s)
  unfolding compile_direct_filter
  direct-Keeps = operator-Keeps _ c.operator c.value s h

  edge_attr-Keeps : (a : ResolvedPathSegment) → Keeps s (compile_edge_attr_filter c a s)
  unfolding compile_edge_attr_filter
  edge_attr-Keeps a = edge-Keeps (shown a.edge_type) a.direction _ _ _

  traversal-Keeps : (a b : ResolvedPathSegment) → Keeps s (compile_traversal_filter c a b s)
  unfolding compile_traversal_filter
  traversal-Keeps a b = edge-Keeps (shown a.edge_type) a.direction _ _ _

  segments-Keeps : (segs : List ResolvedPathSegment) → Keeps s (compile_segments c segs s)
  unfolding compile_segments
  segments-Keeps [] = Kept-refl h
  segments-Keeps (a ∷ []) = elim (Bool-cases (is_given a.attribute && not (is_given a.edge_type))) [
    | inl e ↦ rw e direct-Keeps
    | inr e ↦ rw e (elim (Bool-cases (is_given a.edge_type && is_given a.attribute)) [
      | inl f ↦ rw f (edge_attr-Keeps a)
      | inr f ↦ rw f (Kept-refl h)
    ])
  ]
  segments-Keeps (a ∷ b ∷ []) = elim (Bool-cases (is_given a.edge_type && is_given b.attribute)) [
    | inl e ↦ rw e (traversal-Keeps a b)
    | inr e ↦ rw e (Kept-refl h)
  ]
  segments-Keeps (a ∷ b ∷ d ∷ segs) = Kept-refl h

  existence-Keeps :
      (segs : List ResolvedPathSegment)
      → Keeps s (with_first segs (λ a. compile_existence_filter c a s))
  unfolding compile_existence_filter
  existence-Keeps [] = tt
  existence-Keeps (a ∷ segs) = Kept-refl h

  count-Keeps :
      (segs : List ResolvedPathSegment)
      → Keeps s (with_first segs (λ a. compile_count_filter c a s))
  unfolding compile_count_filter next_param
  count-Keeps [] = tt
  count-Keeps (a ∷ segs) = bind-Kept s c.value h

  resolved-Keeps : (rp : ResolvedPath) → Keeps s (compile_resolved c rp s)
  unfolding compile_resolved
  resolved-Keeps rp = elim (Bool-cases rp.is_relationship_existence) [
    | inl e ↦ rw e (existence-Keeps rp.segments)
    | inr e ↦ rw e (elim (Bool-cases rp.is_relationship_count) [
      | inl f ↦ rw f (count-Keeps rp.segments)
      | inr f ↦ rw f (segments-Keeps rp.segments)
    ])
  ]

  pub condition-Keeps : (paths : PathMap) → Keeps s (compile_condition paths c s)
  condition-Keeps paths = elim (Option-cases (lookup c.path paths)) [
    | inl e ↦ unfold compile_condition in rw (e, compile_condition) direct-Keeps
    | inr (rp, e) ↦ unfold compile_condition in rw (e, compile_condition) (resolved-Keeps rp)
  ]

module _ (paths : PathMap) where
  mutual
    unfolding compile_filter_group

    pub group-Keeps :
        (g : FilterGroup) (s : CompilerState) → IsFresh s → Keeps s (compile_filter_group paths g s)
    group-Keeps (group op cs) s h =
        Keeps-bind s (compile_parts paths cs s) _ (parts-Keeps cs s h) λ parts t k. Kept-refl k

    pub parts-Keeps :
        (cs : Conditions) (s : CompilerState) → IsFresh s → Keeps s (compile_parts paths cs s)
    parts-Keeps none_left s h = Kept-refl h
    parts-Keeps (condition c rest) s h =
        Keeps-bind s (compile_condition paths c s) _ (condition-Keeps c s h paths) λ expr t k.
          Keeps-bind t (compile_parts paths rest t) _ (parts-Keeps rest t k)
            λ parts u l. Kept-refl l
    parts-Keeps (nested g rest) s h =
        Keeps-bind s (compile_filter_group paths g s) _ (group-Keeps g s h) λ expr t k.
          Keeps-bind t (compile_parts paths rest t) _ (parts-Keeps rest t k)
            λ parts u l. Kept-refl l
