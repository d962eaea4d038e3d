-- ===== src/Query/Compiler/Repeats.antt =====
-- A second filter over the same edge and direction.
use text.Mathlib.TextLemmas.{append_assoc, append_cancel_left, cons-append}
use net_graphy.Prelude.{
  ℕ, ◌+◌, String, ◌<>◌, ◌≡◌, ◌≢◌, refl, ap, sym, ◌∙◌, true, none, some, [], ◌∷◌, ◌++◌, starts_with,
  false≢true, ok,
}
use net_graphy.Prelude.Decimal.{show, show-starts_with}
use net_graphy.Prelude.Dict.{lookup, insert, lookup-insert_self}
use net_graphy.Query.Models.{FilterOperator, FilterCondition, ResolvedPathSegment}
use net_graphy.Value.{Value}
use net_graphy.Query.Compiler.{
  CompilerState, rel_key, next_rel_var, match_clause, label_text, shown, operator_to_cypher,
  next_param, param_name, bind_param, compile_traversal_filter,
}

-- The condition that a variable's attribute equals a value, as it is compiled in a state.
abbrev pub equals : String → Value → CompilerState → String × CompilerState
equals expression v st = (
  (expression <> " = ") <> ("$" <> (param_name st.param_counter <> "")),
  bind_param (param_name st.param_counter) v (record st { param_counter = st.param_counter + 1 }),
)

equals-operator :
    (expression : String) (v : Value) (st : CompilerState)
    → operator_to_cypher expression FilterOperator.eq v st ≡ ok (equals expression v st)
unfolding operator_to_cypher next_param
equals-operator expression v st = refl

numeral-underscore : (key : String) (n : ℕ) → "t_" <> key ≢ "t" <> show n
numeral-underscore key n h =
    let same : "_" <> key ≡ show n =
      append_cancel_left "t" ("_" <> key) (show n) (sym (append_assoc "t" "_" key) ∙ h) in
    absurd (
      false≢true (
        sym (show-starts_with n) ∙ (ap (λ t. starts_with t "_") (sym same) ∙ underscore_first key)))
  where
    underscore_first : (t : String) → starts_with ("_" <> t) "_" ≡ true
    underscore_first t = unfold starts_with in rw (cons-append "_" "" t) refl

abbrev pub equality_on : String → Value → FilterCondition
equality_on path v = record { path = path; operator = FilterOperator.eq; value = v }

abbrev pub attribute_of : String → ResolvedPathSegment → String
attribute_of var seg = var <> ("." <> shown seg.attribute)

-- The state in which an edge has been matched to the next variables.
abbrev pub matched : ResolvedPathSegment → CompilerState → CompilerState
matched edge s =
    let n = show (s.rel_counter + 1) in
    record s {
      match_clauses =
          s.match_clauses
          ++ match_clause edge.direction ("r" <> n) (shown edge.edge_type) ("t" <> n)
              (label_text edge.target_type)
            ∷ [];
      rel_counter = s.rel_counter + 1;
      rel_vars = insert (rel_key (shown edge.edge_type) edge.direction) ("r" <> n) s.rel_vars;
    }

module _ (v w : Value) (path path' : String) (edge a b : ResolvedPathSegment)
    (s : CompilerState) where
  abbrev key : String
  key = rel_key (shown edge.edge_type) edge.direction

  abbrev fresh_target : String
  fresh_target = "t" <> show (s.rel_counter + 1)

  first_traversal :
      lookup key s.rel_vars ≡ none
      → compile_traversal_filter (equality_on path v) edge a s
        ≡ ok (equals (attribute_of fresh_target a) v (matched edge s))
  unfolding compile_traversal_filter next_rel_var
  first_traversal e = rw (e, next_rel_var) (equals-operator _ v (matched edge s))

  later_traversal :
      (st : CompilerState) {var : String}
      → lookup key st.rel_vars ≡ some var
      → compile_traversal_filter (equality_on path' w) edge b st
        ≡ ok (equals (attribute_of ("t_" <> key) b) w st)
  unfolding compile_traversal_filter next_rel_var
  later_traversal st e = rw (e, next_rel_var) (equals-operator _ w st)

  -- Of two filters for equality over one edge and direction, the first adds a MATCH clause with a
  -- new target variable and tests that variable. The second adds no clause, and tests a variable
  -- named "t_" and the key of the edge, which is not the variable of the clause.
  pub repeated_traversal :
      lookup key s.rel_vars ≡ none
      → let first = equals (attribute_of fresh_target a) v (matched edge s) in
        (compile_traversal_filter (equality_on path v) edge a s ≡ ok first)
        × (compile_traversal_filter (equality_on path' w) edge b first.1
            ≡ ok (equals (attribute_of ("t_" <> key) b) w first.1))
        × ("t_" <> key ≢ fresh_target)
  repeated_traversal e = (
    first_traversal e,
    later_traversal (equals (attribute_of fresh_target a) v (matched edge s)).1
        (lookup-insert_self key ("r" <> show (s.rel_counter + 1)) s.rel_vars),
    numeral-underscore key (s.rel_counter + 1),
  )
