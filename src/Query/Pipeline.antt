-- ===== src/Query/Pipeline.antt =====
-- Validation and compilation together, as the executor runs them.
use net_graphy.Prelude.{
  String, ◌≡◌, false, Option, some, List, [], ◌∷◌, All, All-map, is_empty, Bool-cases, inl, inr, ok,
  ap, ◌==◌,
}
use net_graphy.Prelude.Dict.{lookup, insert, lookup-insert}
use net_graphy.Schema.Models.{NodeTypeDefinition}
use net_graphy.Query.Models.{FilterOperator, FilterCondition, FilterGroup, QueryAst, ResolvedPath}
use net_graphy.Query.EdgeIndex.{QueryValidator}
use net_graphy.Query.Paths.Legal.{Legal, direct, on_edge, at_far_end, relationship}
use net_graphy.Query.Validator.{validate}
use net_graphy.Query.Validator.Filters.{LegalPaths, conditions_of}
use net_graphy.Query.Validator.Accepts.{validate_sound}
use net_graphy.Query.Assembly.{PathMap, path_map_from, CompiledQuery, compile}
use net_graphy.Query.Assembly.Returns.{Supplies, HasSegments, IsCompilable, compile_returns}

Legal-HasSegments :
    (v : QueryValidator) (nt : NodeTypeDefinition) (op : FilterOperator) (p : ResolvedPath)
    → Legal v nt op p
    → is_empty p.segments ≡ false
Legal-HasSegments v nt op p (direct a (d, e, f, s, segs, plain)) = ap is_empty segs
Legal-HasSegments v nt op p (on_edge alias a (et, d, f, e, s, segs, plain)) = ap is_empty segs
Legal-HasSegments v nt op p
      (at_far_end alias type a (et, f, m, (target, d, e, k, s, segs, plain))) =
    ap is_empty segs
Legal-HasSegments v nt op p (relationship alias (et, f, r, segs, e, k, x, y)) = ap is_empty segs

LegalPaths-HasSegments :
    (v : QueryValidator) (nt : NodeTypeDefinition) (cs : List FilterCondition)
    (ps : List ResolvedPath)
    → LegalPaths v nt cs ps
    → All (λ p. is_empty p.segments ≡ false) ps
LegalPaths-HasSegments v nt [] [] h = tt
LegalPaths-HasSegments v nt [] (p ∷ ps) h = absurd h
LegalPaths-HasSegments v nt (c ∷ cs) [] h = absurd h
LegalPaths-HasSegments v nt (c ∷ cs) (p ∷ ps) h =
    (Legal-HasSegments v nt c.operator p h.0, LegalPaths-HasSegments v nt cs ps h.1)

insert-HasSegments :
    (k : String) (p : ResolvedPath) (m : PathMap)
    → is_empty p.segments ≡ false
    → ((j : String) → HasSegments (lookup j m))
    → (j : String) → HasSegments (lookup j (insert k p m))
insert-HasSegments k p m n all j =
    rw (lookup-insert k j p m)
      (elim (Bool-cases (k == j)) [ inl e ↦ rw e n | inr e ↦ rw e (all j) ])

-- Each path that the compiler looks up has a segment.
path_map-HasSegments :
    (ps : List ResolvedPath) (m : PathMap)
    → All (λ p. is_empty p.segments ≡ false) ps
    → ((j : String) → HasSegments (lookup j m))
    → (j : String) → HasSegments (lookup j (path_map_from ps m))
unfolding path_map_from
path_map-HasSegments [] m n all j = all j
path_map-HasSegments (p ∷ ps) m n all j =
    path_map-HasSegments ps (insert p.raw_path p m) n.1 (insert-HasSegments p.raw_path p m n.0 all)
      j

-- A query with a filter that passes validation compiles with the paths that validation resolved,
-- where the value of each `between` has its two bounds.
pub validated_compiles :
    (v : QueryValidator) (ast : QueryAst) (g : FilterGroup) (defaults : Option (List String))
    {ps : List ResolvedPath}
    → validate v (record ast { filters = some g }) ≡ ok ps
    → All (λ c. Supplies c.operator c.value) (conditions_of g)
    → (x : CompiledQuery) × (compile (record ast { filters = some g }) ps defaults ≡ ok x)
unfolding lookup
validated_compiles v ast g defaults {ps} h supplied =
    let (nt, accepted, legal) = validate_sound v (record ast { filters = some g }) h in
    let filled = LegalPaths-HasSegments v nt (conditions_of g) ps legal in
    compile_returns ast ps defaults g (
      All-map (λ c. Supplies c.operator c.value) (IsCompilable (path_map_from ps []))
        (conditions_of g) (λ c s. (s, path_map-HasSegments ps [] filled (λ j. tt) c.path)) supplied)
