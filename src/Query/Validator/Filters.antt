-- ===== src/Query/Validator/Filters.antt =====
-- The filter of a query and what `_validate_filter_group` says of it: it leaves no error exactly
-- where the nesting is within the limit and each condition resolves.
use net_graphy.Prelude.{
  ap, All-append_left, All-append_right, ℕ, ◌+◌, ◌≤◌, ◌≡◌, refl, inl, inr, Option, none, some, List,
  [], ◌∷◌, ◌++◌, arith, All, append-eq-nil, Bool-cases, ltb, subst, sym,
}
use Prim.Native.Nat.{max}
use net_graphy.Schema.Models.{NodeTypeDefinition}
use net_graphy.Query.Models.{
  FilterCondition, FilterGroup, group, Conditions, none_left, condition, nested, ResolvedPath,
}
use net_graphy.Query.EdgeIndex.{QueryValidator}
use net_graphy.Query.Paths.{Resolution, resolve_filter_path}
use net_graphy.Query.Paths.Legal.{Legal}
use net_graphy.Query.Paths.Sound.{resolve-Legal}
use net_graphy.Query.Paths.Reports.{resolve_reports}
use net_graphy.Query.Validator.{
  Findings, found, validate_group, validate_conditions, validate_filters,
}

-- The conditions of a group, in the order in which they are written, those of nested groups too.
unfoldable mutual
  pub conditions_of : FilterGroup → List FilterCondition
  conditions_of (group op cs) = conditions_in cs

  pub conditions_in : Conditions → List FilterCondition
  conditions_in none_left = []
  conditions_in (condition c rest) = c ∷ conditions_in rest
  conditions_in (nested g rest) = conditions_of g ++ conditions_in rest

-- How deep groups stand within a group.
unfoldable mutual
  pub nesting : FilterGroup → ℕ
  nesting (group op cs) = nesting_in cs

  pub nesting_in : Conditions → ℕ
  nesting_in none_left = 0
  nesting_in (condition c rest) = nesting_in rest
  nesting_in (nested g rest) = max (nesting g + 1) (nesting_in rest)

module _ (v : QueryValidator) (nt : NodeTypeDefinition) where
  -- Each condition has its path, in the same order, and no path is left over.
  abbrev pub Resolves : List FilterCondition → List ResolvedPath → Type 0
  Resolves [] [] = Unit
  Resolves (c ∷ cs) (p ∷ ps) = (resolve_filter_path v c nt ≡ (some p, [])) × Resolves cs ps
  Resolves [] (p ∷ ps) = ⊥
  Resolves (c ∷ cs) [] = ⊥

  abbrev pub LegalPaths : List FilterCondition → List ResolvedPath → Type 0
  LegalPaths [] [] = Unit
  LegalPaths (c ∷ cs) (p ∷ ps) = Legal v nt c.operator p × LegalPaths cs ps
  LegalPaths [] (p ∷ ps) = ⊥
  LegalPaths (c ∷ cs) [] = ⊥

  Resolves-append :
      (cs ds : List FilterCondition) (ps qs : List ResolvedPath)
      → Resolves cs ps
      → Resolves ds qs
      → Resolves (cs ++ ds) (ps ++ qs)
  Resolves-append [] ds [] qs h k = k
  Resolves-append [] ds (p ∷ ps) qs h k = absurd h
  Resolves-append (c ∷ cs) ds [] qs h k = absurd h
  Resolves-append (c ∷ cs) ds (p ∷ ps) qs h k = (h.0, Resolves-append cs ds ps qs h.1 k)

  pub Resolves-LegalPaths :
      (cs : List FilterCondition) (ps : List ResolvedPath) → Resolves cs ps → LegalPaths cs ps
  Resolves-LegalPaths [] [] h = tt
  Resolves-LegalPaths [] (p ∷ ps) h = absurd h
  Resolves-LegalPaths (c ∷ cs) [] h = absurd h
  Resolves-LegalPaths (c ∷ cs) (p ∷ ps) h =
      (resolve-Legal v nt c h.0, Resolves-LegalPaths cs ps h.1)

found-clean :
    (r : Resolution) (rest : Findings)
    → (found r rest).errors ≡ []
    → (r.1 ≡ []) × (rest.errors ≡ [])
found-clean (none, es) rest h = append-eq-nil es rest.errors h
found-clean (some p, es) rest h = append-eq-nil es rest.errors h

found_clean :
    (r : Resolution) (rest : Findings) → r.1 ≡ [] → rest.errors ≡ [] → (found r rest).errors ≡ []
found_clean (none, es) rest h k = cc (ap (λ xs. xs ++ rest.errors) h)
found_clean (some p, es) rest h k = cc (ap (λ xs. xs ++ rest.errors) h)

module _ (v : QueryValidator) (nt : NodeTypeDefinition) (max_depth : ℕ) where
  found-Resolves :
      (c : FilterCondition) (cs : List FilterCondition) (rest : Findings)
      → (resolve_filter_path v c nt).1 ≡ []
      → Resolves v nt cs rest.resolved
      → Resolves v nt (c ∷ cs) (found (resolve_filter_path v c nt) rest).resolved
  found-Resolves c cs rest h r =
      let (p, e) = resolve_reports v nt c h in
      subst (λ x. Resolves v nt (c ∷ cs) (found x rest).resolved) (sym e) (e, r)

  mutual
    unfolding validate_group conditions_of nesting

    group-Resolves :
        (g : FilterGroup) (d : ℕ)
        → (validate_group v nt max_depth g d).errors ≡ []
        → (d + nesting g ≤ max_depth)
          × Resolves v nt (conditions_of g) (validate_group v nt max_depth g d).resolved
    group-Resolves (group op cs) d h = elim (Bool-cases (ltb max_depth d)) [
      | inl e ↦ absurd (ground arith)
      | inr e ↦ rw e (conditions-Resolves cs d (ground arith) (ground arith))
    ]

    conditions-Resolves :
        (cs : Conditions) (d : ℕ)
        → d ≤ max_depth
        → (validate_conditions v nt max_depth cs d).errors ≡ []
        → (d + nesting_in cs ≤ max_depth)
          × Resolves v nt (conditions_in cs) (validate_conditions v nt max_depth cs d).resolved
    conditions-Resolves none_left d k h = (omega arith, tt)
    conditions-Resolves (condition c rest) d k h =
        let after = validate_conditions v nt max_depth rest d in
        let (here, later) = found-clean (resolve_filter_path v c nt) after h in
        let (deep, all) = conditions-Resolves rest d k later in
        (deep, found-Resolves c (conditions_in rest) after here all)
    conditions-Resolves (nested g rest) d k h =
        let inner = validate_group v nt max_depth g (d + 1) in
        let after = validate_conditions v nt max_depth rest d in
        let (here, later) = append-eq-nil inner.errors after.errors h in
        let (deep, all) = group-Resolves g (d + 1) here in
        let (deep', all') = conditions-Resolves rest d k later in
        (
          omega arith,
          Resolves-append v nt (conditions_of g) (conditions_in rest) inner.resolved after.resolved
              all all',
        )

  mutual
    unfolding validate_group conditions_of nesting

    -- Within the nesting limit, conditions that resolve leave no error.
    group_clean :
        (g : FilterGroup) (d : ℕ)
        → d + nesting g ≤ max_depth
        → All (λ c. (resolve_filter_path v c nt).1 ≡ []) (conditions_of g)
        → (validate_group v nt max_depth g d).errors ≡ []
    group_clean (group op cs) d k all = ground (arith, conditions_clean cs d k all)

    conditions_clean :
        (cs : Conditions) (d : ℕ)
        → d + nesting_in cs ≤ max_depth
        → All (λ c. (resolve_filter_path v c nt).1 ≡ []) (conditions_in cs)
        → (validate_conditions v nt max_depth cs d).errors ≡ []
    conditions_clean none_left d k all = refl
    conditions_clean (condition c rest) d k all =
        found_clean (resolve_filter_path v c nt) (validate_conditions v nt max_depth rest d) all.0
          (conditions_clean rest d k all.1)
    conditions_clean (nested g rest) d k all = cc (
      group_clean g (d + 1) (omega arith)
          (All-append_left _ (conditions_of g) (conditions_in rest) all),
      conditions_clean rest d (omega arith)
          (All-append_right _ (conditions_of g) (conditions_in rest) all),
    )

abbrev pub filters_of : Option FilterGroup → List FilterCondition
filters_of none = []
filters_of (some g) = conditions_of g

abbrev pub nesting_of : Option FilterGroup → ℕ
nesting_of none = 0
nesting_of (some g) = nesting g

pub filters-Resolves :
    (v : QueryValidator) (nt : NodeTypeDefinition) (o : Option FilterGroup)
    → (validate_filters v nt o).errors ≡ []
    → (nesting_of o ≤ nt.query.max_filter_nesting)
      × Resolves v nt (filters_of o) (validate_filters v nt o).resolved
unfolding validate_filters
filters-Resolves v nt none h = (omega arith, tt)
filters-Resolves v nt (some g) h =
    let (deep, all) = group-Resolves v nt nt.query.max_filter_nesting g 0 h in (omega arith, all)

pub filters_clean :
    (v : QueryValidator) (nt : NodeTypeDefinition) (o : Option FilterGroup)
    → nesting_of o ≤ nt.query.max_filter_nesting
    → All (λ c. (resolve_filter_path v c nt).1 ≡ []) (filters_of o)
    → (validate_filters v nt o).errors ≡ []
unfolding validate_filters
filters_clean v nt none k all = refl
filters_clean v nt (some g) k all =
    group_clean v nt nt.query.max_filter_nesting g 0 (omega arith) all
