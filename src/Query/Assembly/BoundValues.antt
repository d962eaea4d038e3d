-- ===== src/Query/Assembly/BoundValues.antt =====
-- Each value that a filter compares with is bound to a parameter of the compiled query.
use Prim.Native.Char.{code}
use text.Mathlib.TextLemmas.{cons-append, head-eq_of_cons-eq}
use net_graphy.Prelude.{sym, ◌∙◌}
use net_graphy.Prelude.Decimal.{show}
use net_graphy.Prelude.{
  ℕ, String, ◌<>◌, ◌≡◌, refl, ap, inl, inr, Option, some, List, [], ◌∷◌, ◌++◌, arith, eq_iff,
  Bool-cases, Result, ok, raised, ◌>>=◌, >>=-eq-ok, ◌==◌, All, All-append, subst,
}
use net_graphy.Prelude.Dict.{Dict, lookup, insert, lookup-insert, lookup-insert_self}
use net_graphy.Value.{Value, int, pos, PyError}
use net_graphy.Query.Models.{
  FilterCondition, FilterGroup, group, Conditions, none_left, condition, nested, QueryAst,
  ResolvedPath,
}
use net_graphy.Query.Compiler.{CompilerState, param_name}
use net_graphy.Query.Compiler.Params.{IsFresh, Kept-refl, Keeps, Keeps-bind, Binds}
use net_graphy.Query.Assembly.{
  PathMap, path_map_from, compile_condition, compile_filter_group, compile_parts, add_where,
  compile_filters, finish, started, CompiledQuery, compile, build_pagination,
}
use net_graphy.Query.Validator.Filters.{conditions_of, conditions_in}
use net_graphy.Prelude.{All-map}
use net_graphy.Query.Assembly.Bindings.{condition-Keeps, group-Keeps, parts-Keeps}
use net_graphy.Query.Assembly.Compared.{compared_values, AreBound, condition-Binds}

module _ (paths : PathMap) where
  -- A run that returns has bound the value of each condition that compares.
  abbrev BindsAll :
      {A : Type 0} → List FilterCondition → Result PyError (A × CompilerState) → Type 0
  BindsAll cs (ok (a, t)) = All (AreBound paths t.params) cs
  BindsAll cs (raised e) = Unit

  Binds-BindsAll :
      {A : Type 0} (c : FilterCondition) (m : Result PyError (A × CompilerState))
      → Binds (compared_values paths c) m
      → BindsAll (c ∷ []) m
  Binds-BindsAll c (ok (a, t)) h = (h, tt)
  Binds-BindsAll c (raised e) h = tt

  BindsAll-later :
      {A : Type 0} (cs ds : List FilterCondition) (t : CompilerState)
      (m : Result PyError (A × CompilerState))
      → All (AreBound paths t.params) cs
      → Keeps t m
      → BindsAll ds m
      → BindsAll (cs ++ ds) m
  BindsAll-later cs ds t (ok (a, u)) h k l =
      All-append _ cs ds
        (All-map _ _ cs
          (λ c b.
            All-map _ _ (compared_values paths c)
              (λ v q. let (n, e) = q in (n, k.keeps (param_name n) v e)) b)
          h)
        l
  BindsAll-later cs ds t (raised e) h k l = tt

  BindsAll-bind :
      {A B : Type 0} (cs ds : List FilterCondition) (s : CompilerState)
      (m : Result PyError (A × CompilerState))
      (f : A × CompilerState → Result PyError (B × CompilerState))
      → Keeps s m
      → BindsAll cs m
      → ((a : A) (t : CompilerState) → IsFresh t → Keeps t (f (a, t)) × BindsAll ds (f (a, t)))
      → BindsAll (cs ++ ds) (m >>= f)
  BindsAll-bind cs ds s (ok (a, t)) f k b h =
      let (kept, bound) = h a t k.fresh in BindsAll-later cs ds t (f (a, t)) b kept bound
  BindsAll-bind cs ds s (raised e) f k b h = tt

  BindsAll-map :
      {A B : Type 0} (cs : List FilterCondition) (m : Result PyError (A × CompilerState))
      (g : A → B)
      → BindsAll cs m
      → BindsAll cs (m >>= λ (a, t). ok (g a, t))
  BindsAll-map cs (ok (a, t)) g h = h
  BindsAll-map cs (raised e) g h = tt

  mutual
    unfolding compile_filter_group conditions_of

    group-BindsAll :
        (g : FilterGroup) (s : CompilerState)
        → IsFresh s
        → BindsAll (conditions_of g) (compile_filter_group paths g s)
    group-BindsAll (group op cs) s h =
        BindsAll-map (conditions_in cs) (compile_parts paths cs s) _ (parts-BindsAll cs s h)

    parts-BindsAll :
        (cs : Conditions) (s : CompilerState)
        → IsFresh s
        → BindsAll (conditions_in cs) (compile_parts paths cs s)
    parts-BindsAll none_left s h = tt
    parts-BindsAll (condition c rest) s h =
        BindsAll-bind (c ∷ []) (conditions_in rest) s (compile_condition paths c s) _
          (condition-Keeps c s h paths)
          (Binds-BindsAll c (compile_condition paths c s) (condition-Binds c s paths))
          λ expr t k. (
            Keeps-bind t (compile_parts paths rest t) _ (parts-Keeps paths rest t k)
                (λ parts u l. Kept-refl l),
            BindsAll-map (conditions_in rest) (compile_parts paths rest t) _
                (parts-BindsAll rest t k),
          )
    parts-BindsAll (nested g rest) s h =
        BindsAll-bind (conditions_of g) (conditions_in rest) s (compile_filter_group paths g s) _
          (group-Keeps paths g s h) (group-BindsAll g s h)
          λ expr t k. (
            Keeps-bind t (compile_parts paths rest t) _ (parts-Keeps paths rest t k)
                (λ parts u l. Kept-refl l),
            BindsAll-map (conditions_in rest) (compile_parts paths rest t) _
                (parts-BindsAll rest t k),
          )

-- No parameter of a filter is called like the page's.
param_name-ne : (n : ℕ) (rest : String) → ("_" <> rest) ≡ param_name n → ⊥
unfolding param_name
param_name-ne n rest e = omega (
  arith,
  ap code (head-eq_of_cons-eq (sym (cons-append "_" "" rest) ∙ (e ∙ cons-append "p" "" (show n)))),
)

lookup-page :
    (n : ℕ) (rest : String) (v w : Value) (d : Dict Value)
    → lookup (param_name n) d ≡ some w
    → lookup (param_name n) (insert ("_" <> rest) v d) ≡ some w
lookup-page n rest v w d e = elim (Bool-cases (("_" <> rest) == param_name n)) [
  | inl q ↦ absurd (param_name-ne n rest ((eq_iff _ _).0 q))
  | inr q ↦ rw (lookup-insert, q) e
]

initial-IsFresh : (entity : String) → IsFresh (started entity)
initial-IsFresh entity = record { free = λ n le. unfold lookup in refl }

filters-BindsAll :
    (paths : PathMap) (g : FilterGroup) (s : CompilerState) {t : CompilerState}
    → IsFresh s
    → compile_filters paths (some g) s ≡ ok t
    → All (AreBound paths t.params) (conditions_of g)
unfolding compile_filters add_where
filters-BindsAll paths g s {t} h e =
    let ((text, u), q, r) = >>=-eq-ok (compile_filter_group paths g s) _ e in
    let b : BindsAll paths (conditions_of g) (ok (text, u)) =
      subst (BindsAll paths (conditions_of g)) q (group-BindsAll paths g s h) in
    let same : u.params ≡ t.params = ground (arith, r) in
    subst (λ d. All (AreBound paths d) (conditions_of g)) same b

-- Where a query with a filter compiles, each value that a condition compares with is bound to a
-- parameter of the query: the value or both ends of the range that an attribute is compared with, or
-- the number that a count of edges is compared with, by the resolved path that the compiler finds
-- under the path of the condition, an attribute where it finds none. "__skip" and "__limit" are the
-- page asked for.
pub compile_binds :
    (ast : QueryAst) (resolved : List ResolvedPath) (defaults : Option (List String))
    (g : FilterGroup) {x : CompiledQuery}
    → compile (record ast { filters = some g }) resolved defaults ≡ ok x
    → All (AreBound (path_map_from resolved []) x.data_params) (conditions_of g)
      × (lookup "__skip" x.data_params ≡ some (int (pos ast.pagination.offset)))
      × (lookup "__limit" x.data_params ≡ some (int (pos ast.pagination.limit)))
unfolding compile finish build_pagination
compile_binds ast resolved defaults g {x} e =
    let paths = path_map_from resolved [] in
    let start = started ast.entity in
    let (t, q, r) = >>=-eq-ok (compile_filters paths (some g) start) _ e in
    let bound = filters-BindsAll paths g start (initial-IsFresh ast.entity) q in
    let page = ast.pagination in
    let skip = insert "__skip" (int (pos page.offset)) t.params in
    let same : insert "__limit" (int (pos page.limit)) skip ≡ x.data_params = ground (arith, r) in
    (
      subst (λ d. All (AreBound paths d) (conditions_of g)) same
          (All-map _ _ (conditions_of g)
            (λ c. All-map _ _ (compared_values paths c) (λ v q.
              let (n, k) = q in
              (
                n,
                lookup-page n "_limit" (int (pos page.limit)) v skip
                    (lookup-page n "_skip" (int (pos page.offset)) v t.params k),
              )))
            bound),
      subst (λ d. lookup "__skip" d ≡ some (int (pos page.offset))) same
          (rw lookup-insert (lookup-insert_self "__skip" (int (pos page.offset)) t.params)),
      subst (λ d. lookup "__limit" d ≡ some (int (pos page.limit))) same
          (lookup-insert_self "__limit" (int (pos page.limit)) skip),
    )
