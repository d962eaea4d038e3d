-- ===== src/Query/Assembly/SameValues.antt =====
-- One condition, compiled with two values: the text is the same, and the states differ at most in
-- what is bound to parameters.
use net_graphy.Prelude.{
  String, ◌<>◌, ◌≡◌, refl, Bool, true, false, List, [], ◌∷◌, arith, Result, ok, raised, ◌>>=◌,
  Bool-cases, Option-cases, subst, is_given, not, ◌&&◌, inl, inr,
}
use net_graphy.Prelude.Dict.{lookup}
use net_graphy.Value.{Value, PyError}
use net_graphy.Query.Models.{
  Direction, FilterOperator, FilterCondition, ResolvedPathSegment, ResolvedPath,
}
use net_graphy.Query.Compiler.{
  CompilerState, rel_key, shown, add_match, match_clause, label_text, next_param, next_rel_var,
  operator_to_cypher, compile_direct_filter, compile_count_filter, compile_edge_attr_filter,
  compile_traversal_filter,
}
use net_graphy.Query.Assembly.{
  PathMap, compile_existence_filter, compile_segments, with_first, compile_resolved,
  compile_condition,
}

-- Two states that may differ in the values bound to parameters.
abbrev pub SameState : CompilerState → CompilerState → Type 0
SameState s t = record s { params = [] } ≡ record t { params = [] }

-- Where both runs return, they return the same text and the same state but for bound values.
abbrev pub Same :
    {A : Type 0} → Result PyError (A × CompilerState) → Result PyError (A × CompilerState) → Type 0
Same (ok (a, s)) (ok (b, t)) = (a ≡ b) × SameState s t
Same _ _ = Unit

Same-raised :
    {A : Type 0} (m : Result PyError (A × CompilerState)) (e : PyError) → Same m (raised e)
Same-raised (ok (a, s)) e = tt
Same-raised (raised d) e = tt

pub Same-bind :
    {A B : Type 0} (m n : Result PyError (A × CompilerState))
    (f g : A × CompilerState → Result PyError (B × CompilerState))
    → Same m n
    → ((a : A) (s t : CompilerState) → SameState s t → Same (f (a, s)) (g (a, t)))
    → Same (m >>= f) (n >>= g)
Same-bind (ok (a, s)) (ok (b, t)) f g h k =
    subst (λ x. Same (f (a, s)) (g (x, t))) h.0 (k a s t h.1)
Same-bind (ok (a, s)) (raised e) f g h k = Same-raised (f (a, s)) e
Same-bind (raised e) n f g h k = tt

operator-Same :
    (f : String) (op : FilterOperator) (v w : Value) (s t : CompilerState)
    → SameState s t
    → Same (operator_to_cypher f op v s) (operator_to_cypher f op w t)
unfolding operator_to_cypher next_param
operator-Same f FilterOperator.between v w s t h = ground arith
operator-Same f FilterOperator.eq v w s t h = ground arith
operator-Same f _ v w s t h = ground arith

direct-Same :
    (c : FilterCondition) (w : Value) (s t : CompilerState)
    → SameState s t
    → Same (compile_direct_filter c s) (compile_direct_filter (record c { value = w }) t)
unfolding compile_direct_filter
direct-Same c w s t h = operator-Same _ c.operator c.value w s t h

count-Same :
    (c : FilterCondition) (w : Value) (seg : ResolvedPathSegment) (s t : CompilerState)
    → SameState s t
    → Same (compile_count_filter c seg s) (compile_count_filter (record c { value = w }) seg t)
unfolding compile_count_filter next_param
count-Same c w seg s t h = ground arith

next_rel_var-Same :
    (e : String) (d : Direction) (s t : CompilerState)
    → SameState s t
    → ((next_rel_var e d s).0 ≡ (next_rel_var e d t).0)
      × SameState (next_rel_var e d s).1 (next_rel_var e d t).1
unfolding next_rel_var
next_rel_var-Same e d s t h = elim (Option-cases (lookup (rel_key e d) s.rel_vars)) [
  | inl q ↦ ground (arith, q)
  | inr (x, q) ↦ ground (arith, q)
]

add_match-Same :
    (b : Bool) (clause : String) (s t : CompilerState)
    → SameState s t
    → SameState (add_match b clause s) (add_match b clause t)
add_match-Same true clause s t h = ground arith
add_match-Same false clause s t h = h

-- A filter over an edge, whatever it makes of the variables.
edge-Same :
    (edge : String) (d : Direction) (c : FilterCondition) (w : Value)
    (text : String × String × Bool → String) (clause : String × String × Bool → String)
    (s t : CompilerState)
    → SameState s t
    → let (x, s') = next_rel_var edge d s in
      let (y, t') = next_rel_var edge d t in
      Same
        (operator_to_cypher (text x) c.operator c.value (add_match x.2 (clause x) s'))
        (operator_to_cypher (text y) c.operator w (add_match y.2 (clause y) t'))
edge-Same edge d c w text clause s t h =
    let (e, k) = next_rel_var-Same edge d s t h in
    let (x, s') = next_rel_var edge d s in
    subst
      (λ y. Same (operator_to_cypher (text x) c.operator c.value (add_match x.2 (clause x) s')) (
        operator_to_cypher (text y) c.operator w
          (add_match y.2 (clause y) (next_rel_var edge d t).1)))
      e (operator-Same (text x) c.operator c.value w _ _ (add_match-Same x.2 (clause x) s' _ k))

edge_attr-Same :
    (c : FilterCondition) (w : Value) (seg : ResolvedPathSegment) (s t : CompilerState)
    → SameState s t
    → Same
        (compile_edge_attr_filter c seg s)
        (compile_edge_attr_filter (record c { value = w }) seg t)
unfolding compile_edge_attr_filter
edge_attr-Same c w seg s t h =
    edge-Same (shown seg.edge_type) seg.direction c w (λ x. x.0 <> ("." <> shown seg.attribute))
      (λ x. match_clause seg.direction x.0 (shown seg.edge_type) x.1 "") s t h

traversal-Same :
    (c : FilterCondition) (w : Value) (a b : ResolvedPathSegment) (s t : CompilerState)
    → SameState s t
    → Same
        (compile_traversal_filter c a b s)
        (compile_traversal_filter (record c { value = w }) a b t)
unfolding compile_traversal_filter
traversal-Same c w a b s t h =
    edge-Same (shown a.edge_type) a.direction c w (λ x. x.1 <> ("." <> shown b.attribute))
      (λ x. match_clause a.direction x.0 (shown a.edge_type) x.1 (label_text a.target_type)) s t h

module _ (c : FilterCondition) (w : Value) (s t : CompilerState) (h : SameState s t) where
  segments-Same :
      (segs : List ResolvedPathSegment)
      → Same (compile_segments c segs s) (compile_segments (record c { value = w }) segs t)
  unfolding compile_segments
  segments-Same [] = (refl, h)
  segments-Same (a ∷ []) = elim (Bool-cases (is_given a.attribute && not (is_given a.edge_type))) [
    | inl e ↦ rw e (direct-Same c w s t h)
    | inr e ↦ rw e (elim (Bool-cases (is_given a.edge_type && is_given a.attribute)) [
      | inl f ↦ rw f (edge_attr-Same c w a s t h)
      | inr f ↦ rw f (refl, h)
    ])
  ]
  segments-Same (a ∷ b ∷ []) = elim (Bool-cases (is_given a.edge_type && is_given b.attribute)) [
    | inl e ↦ rw e (traversal-Same c w a b s t h)
    | inr e ↦ rw e (refl, h)
  ]
  segments-Same (a ∷ b ∷ d ∷ segs) = (refl, h)

  existence-Same :
      (segs : List ResolvedPathSegment)
      → Same
          (with_first segs (λ a. compile_existence_filter c a s))
          (with_first segs (λ a. compile_existence_filter (record c { value = w }) a t))
  unfolding compile_existence_filter
  existence-Same [] = tt
  existence-Same (a ∷ segs) = (refl, h)

  first_count-Same :
      (segs : List ResolvedPathSegment)
      → Same
          (with_first segs (λ a. compile_count_filter c a s))
          (with_first segs (λ a. compile_count_filter (record c { value = w }) a t))
  first_count-Same [] = tt
  first_count-Same (a ∷ segs) = count-Same c w a s t h

  resolved-Same :
      (rp : ResolvedPath)
      → Same (compile_resolved c rp s) (compile_resolved (record c { value = w }) rp t)
  unfolding compile_resolved
  resolved-Same rp = elim (Bool-cases rp.is_relationship_existence) [
    | inl e ↦ rw e (existence-Same rp.segments)
    | inr e ↦ rw e (elim (Bool-cases rp.is_relationship_count) [
      | inl f ↦ rw f (first_count-Same rp.segments)
      | inr f ↦ rw f (segments-Same rp.segments)
    ])
  ]

  pub condition-Same :
      (paths : PathMap)
      → Same (compile_condition paths c s) (compile_condition paths (record c { value = w }) t)
  unfolding compile_condition
  condition-Same paths = elim (Option-cases (lookup c.path paths)) [
    | inl e ↦ rw (e, compile_condition) (direct-Same c w s t h)
    | inr (rp, e) ↦ rw (e, compile_condition) (resolved-Same rp)
  ]
