-- ===== src/Query/Reports/Columns.antt =====
-- packages/query_engine/report_compiler.py: `_resolve_columns`.
pub mod Introduced
pub mod Variables
use net_graphy.Prelude.{
  ℕ, ◌+◌, String, ◌<>◌, Bool, true, false, ◌&&◌, Option, none, some, List, [], ◌∷◌, ◌++◌, is_given,
  split, if◌then◌else◌, ◌==◌,
}
use net_graphy.Prelude.Decimal.{show}
use net_graphy.Prelude.Dict.{Dict, lookup, insert}
use net_graphy.Schema.Models.{EdgeTypeDefinition}
use net_graphy.Query.Models.{Direction, outgoing, incoming}
use net_graphy.Query.EdgeIndex.{QueryValidator, edge_at}
use net_graphy.Query.Slug.{slugify}
use net_graphy.Query.Compiler.{label_text}
use net_graphy.Query.Reports.{
  ReportColumn, RowMode, expanded_rows, edge_direction, edge_target, is_one_to_many,
}

-- `_ResolvedColumn`, without the fields that nothing reads. `match_var` is the variable that the
-- column reads, which the source keeps as `edge_var` for an edge attribute.
pub record ResolvedColumn : Type 0 where
  pub column : ReportColumn
  pub cypher_expr : String
  pub csv_header : String
  pub match_var : Option String
  pub is_expansion : Bool

-- The MATCH clauses that the columns add, `added_matches` and `match_counter`.
pub record ColumnMatches : Type 0 where
  pub clauses : List String
  pub added : Dict (String × String)
  pub counter : ℕ

abbrev pub no_matches : ColumnMatches
no_matches = record { clauses = []; added = []; counter = 0 }

abbrev pub is_expanded : RowMode → Bool
is_expanded expanded_rows = true
is_expanded _ = false

-- `col.alias or default`
abbrev pub header_or : Option String → String → String
header_or none default = default
header_or (some alias) default = if is_given (some alias) then alias else default

abbrev pub match_text : String → Direction → String → String → String → String → String
match_text word outgoing rel edge_type target label =
    word <> (" (n)-[" <> (rel <> (":" <> (edge_type <> ("]->(" <> (target <> (label <> ")")))))))
match_text word incoming rel edge_type target label =
    word <> (" (n)<-[" <> (rel <> (":" <> (edge_type <> ("]-(" <> (target <> (label <> ")")))))))

unfoldable pub rel_var : ℕ → String
rel_var n = "re" <> show n

unfoldable pub target_var : ℕ → String
target_var n = "te" <> show n

-- A new MATCH for a key.
unfoldable pub add_column_match :
    String → String → String → EdgeTypeDefinition → String → ColumnMatches → ColumnMatches
add_column_match key word label et entity m =
    let n = m.counter + 1 in
    record {
      clauses =
          m.clauses
          ++ (match_text word (edge_direction et entity) (rel_var n) et.metadata.name (target_var n)
                label
              ∷ []);
      added = insert key (rel_var n, target_var n) m.added;
      counter = n;
    }

-- The variables of a key, from a new MATCH where there is none yet, and none where the entity has
-- no such edge.
unfoldable pub find_match :
    String
    → String
    → String
    → Option EdgeTypeDefinition
    → String
    → ColumnMatches
    → Option (String × String) × ColumnMatches
find_match key word label found entity m = elim (lookup key m.added) [
  | some vars ↦ (some vars, m)
  | none ↦ elim found [
    | none ↦ (none, m)
    | some et ↦ (
      some (rel_var (m.counter + 1), target_var (m.counter + 1)),
      add_column_match key word label et entity m,
    )
  ]
]

abbrev pub expands : Option EdgeTypeDefinition → String → RowMode → Bool
expands none entity mode = false
expands (some et) entity mode = is_one_to_many et entity && is_expanded mode

abbrev pub target_of : Option EdgeTypeDefinition → String → Option String
target_of none entity = none
target_of (some et) entity = edge_target et entity

abbrev pub cons_some {ℓ} : {A : Type ℓ} → Option A → List A → List A
cons_some none xs = xs
cons_some (some x) xs = x ∷ xs

abbrev pub count_pattern : Direction → String → String
count_pattern outgoing type = "(n)-[:" <> (type <> "]->()")
count_pattern incoming type = "(n)<-[:" <> (type <> "]-()")

module _ (v : QueryValidator) (root_entity : String) (row_mode : RowMode) where
  abbrev pub edge_of : String → Option EdgeTypeDefinition
  edge_of alias = edge_at v root_entity alias

  unfoldable pub root_column : ReportColumn → String → ResolvedColumn
  root_column col f = record {
    column = col;
    cypher_expr = "n." <> f;
    csv_header = header_or col.alias (slugify root_entity <> ("_" <> f));
    match_var = none;
    is_expansion = false;
  }

  unfoldable pub edge_column :
      ReportColumn → String → String → ColumnMatches → Option ResolvedColumn × ColumnMatches
  edge_column col alias f m =
      let et = edge_of alias in
      let (vars, m') =
        find_match ("edge_" <> alias) "MATCH" (label_text (target_of et root_entity)) et root_entity
          m in
      elim vars [
        | none ↦ (none, m')
        | some (rel, target) ↦ (
          some (record {
            column = col;
            cypher_expr = rel <> ("." <> f);
            csv_header = header_or col.alias (alias <> ("_" <> f));
            match_var = some rel;
            is_expansion = expands et root_entity row_mode;
          }),
          m',
        )
      ]

  unfoldable pub count_column : ReportColumn → String → Option ResolvedColumn
  count_column col alias = elim (edge_of alias) [
    | none ↦ none
    | some et ↦ some (record {
      column = col;
      cypher_expr =
          "size([" <> (count_pattern (edge_direction et root_entity) et.metadata.name <> " | 1])");
      csv_header = header_or col.alias (alias <> "_count");
      match_var = none;
      is_expansion = false;
    })
  ]

  -- A field of the node at the far end, whose type is given.
  unfoldable pub related_column :
      ReportColumn
      → String
      → String
      → String
      → ColumnMatches
      → Option ResolvedColumn × ColumnMatches
  related_column col alias type f m =
      let et = edge_of alias in
      let word = if is_expanded row_mode then "MATCH" else "OPTIONAL MATCH" in
      let (vars, m') =
        find_match ("rel_" <> (alias <> ("_" <> type))) word (label_text (some type)) et root_entity
          m in
      elim vars [
        | none ↦ (none, m')
        | some (rel, target) ↦ (
          some (record {
            column = col;
            cypher_expr = target <> ("." <> f);
            csv_header = header_or col.alias (slugify type <> ("_" <> f));
            match_var = some target;
            is_expansion = expands et root_entity row_mode;
          }),
          m',
        )
      ]

  -- The type at the far end is the first that the edge has there.
  unfoldable pub near_column :
      ReportColumn → String → String → ColumnMatches → Option ResolvedColumn × ColumnMatches
  near_column col alias f m = elim (target_of (edge_of alias) root_entity) [
    | none ↦ (none, m)
    | some type ↦ if is_given (some type) then related_column col alias type f m else (none, m)
  ]

  -- A column by the parts of its path; none where it is left out.
  unfoldable pub resolve_column_parts :
      ReportColumn → List String → ColumnMatches → Option ResolvedColumn × ColumnMatches
  resolve_column_parts col [] m = (none, m)
  resolve_column_parts col (f ∷ []) m = (some (root_column col f), m)
  resolve_column_parts col (alias ∷ f ∷ []) m =
      if f == "count" then (count_column col alias, m) else near_column col alias f m
  resolve_column_parts col (alias ∷ type ∷ f ∷ []) m =
      if type == "edge" then edge_column col alias f m else related_column col alias type f m
  resolve_column_parts col (alias ∷ f ∷ _ ∷ _ ∷ _) m = near_column col alias f m

  unfoldable pub resolve_columns :
      List ReportColumn → ColumnMatches → List ResolvedColumn × ColumnMatches
  resolve_columns [] m = ([], m)
  resolve_columns (col ∷ cols) m =
      let (first, m₁) = resolve_column_parts col (split b'.' col.path) m in
      let (rest, m₂) = resolve_columns cols m₁ in (cons_some first rest, m₂)
