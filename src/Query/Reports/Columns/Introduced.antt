-- ===== src/Query/Reports/Columns/Introduced.antt =====
-- The MATCH clauses that the columns of a report add, and the variables that they introduce.
use net_graphy.Prelude.{
  ◌+◌, String, ◌≡◌, inl, inr, refl, subst, true, Option, none, some, List, [], ◌∷◌, ◌++◌, contains,
  ==_refl, ◌==◌, Bool-cases, Option-cases, some-injective,
}
use net_graphy.Prelude.Dict.{lookup, lookup-insert}
use net_graphy.Schema.Models.{EdgeTypeDefinition}
use net_graphy.Query.Models.{Direction}
use net_graphy.Query.Reports.{edge_direction}
use net_graphy.Query.Reports.Columns.{
  ColumnMatches, match_text, rel_var, target_var, add_column_match, find_match,
}

contains-left :
    (c : String) (xs ys : List String) → contains c xs ≡ true → contains c (xs ++ ys) ≡ true
unfolding contains
contains-left c [] ys h = cc
contains-left c (x ∷ xs) ys h = elim (Bool-cases (c == x)) [
  | inl e ↦ rw e refl
  | inr e ↦ rw e (contains-left c xs ys (rw e at h))
]

contains-last : (c : String) (xs : List String) → contains c (xs ++ (c ∷ [])) ≡ true
unfolding contains
contains-last c [] = rw (==_refl c) refl
contains-last c (x ∷ xs) = elim (Bool-cases (c == x)) [
  | inl e ↦ rw e refl
  | inr e ↦ rw e (contains-last c xs)
]

-- A MATCH clause among the clauses introduces the two variables.
abbrev pub Introduces : List String → String → String → Type 0
Introduces clauses rel target =
    (word : String) × (direction : Direction) × (type : String) × (label : String) × (contains
        (match_text word direction rel type target label) clauses
      ≡ true)

abbrev pub IsIntroduced : ColumnMatches → String × String → Type 0
IsIntroduced m (rel, target) = Introduces m.clauses rel target

-- Every pair of variables that is kept for a key is introduced.
unfoldable pub AllIntroduced : ColumnMatches → Type 0
AllIntroduced m =
    (key : String) (vars : String × String) → lookup key m.added ≡ some vars → IsIntroduced m vars

abbrev pub Grows : ColumnMatches → ColumnMatches → Type 0
Grows m m' = (c : String) → contains c m.clauses ≡ true → contains c m'.clauses ≡ true

pub IsIntroduced-Grows :
    (m m' : ColumnMatches) (vars : String × String)
    → Grows m m'
    → IsIntroduced m vars
    → IsIntroduced m' vars
IsIntroduced-Grows m m' vars g (word, direction, type, label, h) =
    (word, direction, type, label, g _ h)

add_column_match-Grows :
    (key word label : String) (et : EdgeTypeDefinition) (entity : String) (m : ColumnMatches)
    → Grows m (add_column_match key word label et entity m)
unfolding add_column_match
add_column_match-Grows key word label et entity m c h = contains-left c m.clauses _ h

add_column_match-new :
    (key word label : String) (et : EdgeTypeDefinition) (entity : String) (m : ColumnMatches)
    → IsIntroduced
        (add_column_match key word label et entity m)
        (rel_var (m.counter + 1), target_var (m.counter + 1))
unfolding add_column_match
add_column_match-new key word label et entity m =
    (word, edge_direction et entity, et.metadata.name, label, contains-last _ m.clauses)

add_column_match-AllIntroduced :
    (key word label : String) (et : EdgeTypeDefinition) (entity : String) (m : ColumnMatches)
    → AllIntroduced m
    → AllIntroduced (add_column_match key word label et entity m)
unfolding AllIntroduced add_column_match
add_column_match-AllIntroduced key word label et entity m all j vars h =
    let read =
      rw (lookup-insert key j (rel_var (m.counter + 1), target_var (m.counter + 1)) m.added) at h in
    elim (Bool-cases (key == j)) [
      | inl e ↦
          subst (IsIntroduced (add_column_match key word label et entity m))
            (some-injective (rw e at read)) (add_column_match-new key word label et entity m)
      | inr e ↦
          IsIntroduced-Grows m (add_column_match key word label et entity m) vars
            (add_column_match-Grows key word label et entity m) (all j vars (rw e at read))
    ]

-- What a step over the matches keeps.
unfoldable pub Sound : ColumnMatches → Option (String × String) × ColumnMatches → Type 0
Sound m (found, m') =
    AllIntroduced m'
    × (Grows m m' × ((vars : String × String) → found ≡ some vars → IsIntroduced m' vars))

pub find_match-Sound :
    (key word label : String) (et : Option EdgeTypeDefinition) (entity : String) (m : ColumnMatches)
    → AllIntroduced m
    → Sound m (find_match key word label et entity m)
unfolding find_match Sound AllIntroduced
find_match-Sound key word label et entity m all = elim (Option-cases (lookup key m.added)) [
  | inr (vars, e) ↦
      rw (find_match, e)
        (all, ((λ c h. h), λ vars' q. subst (IsIntroduced m) (some-injective q) (all key vars e)))
  | inl e ↦ rw (find_match, e) (from_edge et)
]
  where
    from_edge :
        (et : Option EdgeTypeDefinition)
        → Sound m (elim et [
          | none ↦ (none, m)
          | some found ↦ (
            some (rel_var (m.counter + 1), target_var (m.counter + 1)),
            add_column_match key word label found entity m,
          )
        ])
    from_edge none = (all, ((λ c h. h), λ vars q. cc))
    from_edge (some found) = (
      add_column_match-AllIntroduced key word label found entity m all,
      (
        add_column_match-Grows key word label found entity m,
        λ vars q.
            subst (IsIntroduced (add_column_match key word label found entity m)) (some-injective q)
              (add_column_match-new key word label found entity m),
      ),
    )
