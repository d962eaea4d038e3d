-- ===== src/Query/Reports/Columns/Variables.antt =====
-- The variables that the columns of a report read.
use net_graphy.Prelude.{String, ◌<>◌, ◌≡◌, ◌⊎◌, Option, some, List}
use net_graphy.Query.Reports.Columns.{ResolvedColumn, ColumnMatches}
use net_graphy.Query.Reports.Columns.Introduced.{AllIntroduced, Grows, Introduces}

-- The number of the root's edges of a type, in either direction.
abbrev pub CountsEdges : String → Type 0
CountsEdges text =
    (type : String) × ((text ≡ "size([" <> (("(n)-[:" <> (type <> "]->()")) <> " | 1])"))
      ⊎ (text ≡ "size([" <> (("(n)<-[:" <> (type <> "]-()")) <> " | 1])")))

-- What a column is made of: a property of the root, a count of the root's edges, or a property of a
-- variable that a MATCH clause introduces.
abbrev pub Reads : List String → ResolvedColumn → Type 0
Reads clauses rc =
    ((rest : String) × (rc.cypher_expr ≡ "n." <> rest))
    ⊎ (CountsEdges rc.cypher_expr
        ⊎ ((rel : String) × (target : String) × (rest : String) × Introduces clauses rel target
            × ((rc.cypher_expr ≡ rel <> ("." <> rest))
                ⊎ (rc.cypher_expr ≡ target <> ("." <> rest)))))

SoundColumn : ColumnMatches → Option ResolvedColumn × ColumnMatches → Type 0
SoundColumn m (first, m') =
    AllIntroduced m'
    × (Grows m m' × ((rc : ResolvedColumn) → first ≡ some rc → Reads m'.clauses rc))
