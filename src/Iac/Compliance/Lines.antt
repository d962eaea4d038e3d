-- ===== src/Iac/Compliance/Lines.antt =====
-- packages/iac/compliance.py: `_compare_cli`, the comparison line by line.
pub mod Laws
use Prim.Native.Nat.{Ordering}
use Prim.Native.String.{compare}
use net_graphy.Prelude.{
  ℕ, String, Bool, true, false, not, ◌&&◌, ◌||◌, Option, none, some, List, [], ◌∷◌, contains, keep,
  map, is_blank, is_empty, starts_with, join, length, if◌then◌else◌, ◌==◌,
}
use net_graphy.Prelude.Spaces.{strip, rstrip, splitlines}
use net_graphy.Iac.Compliance.{DiffSummary, line_counts, FeatureCompliance, Libraries}

-- `line.strip() and not line.strip().startswith("!")`
abbrev pub is_significant : String → Bool
is_significant line = not (is_blank (strip line)) && not (starts_with (strip line) "!")

-- `[l.rstrip() for l in text.splitlines() if l.strip() and not l.strip().startswith("!")]`
unfoldable pub significant_lines : String → List String
significant_lines text = map rstrip (keep is_significant (splitlines text))

-- A set of lines is the sorted list of its elements.
unfoldable pub insert_line : String → List String → List String
insert_line line [] = line ∷ []
insert_line line (l ∷ ls) =
    let later = insert_line line ls in
    elim (compare line l) [
      | Ordering.lt ↦ line ∷ l ∷ ls
      | Ordering.eq ↦ l ∷ ls
      | Ordering.gt ↦ l ∷ later
    ]

unfoldable pub set_of : List String → List String
set_of [] = []
set_of (l ∷ ls) = insert_line l (set_of ls)

-- `a - b`
unfoldable pub difference : List String → List String → List String
difference a b = keep (λ line. not (contains line b)) a

-- `a == b` of two lists of lines.
unfoldable pub same_lines : List String → List String → Bool
same_lines [] [] = true
same_lines (a ∷ xs) (b ∷ ys) = let rest = same_lines xs ys in a == b && rest
same_lines _ _ = false

module _ (lib : Libraries) where
  unfoldable pub compare_cli : FeatureCompliance → String → String → Bool → FeatureCompliance
  compare_cli result actual intended ordered =
      let actual_lines = set_of (significant_lines actual) in
      let intended_lines = set_of (significant_lines intended) in
      let missing = difference intended_lines actual_lines in
      let extra = difference actual_lines intended_lines in
      let same = is_empty missing && is_empty extra in
      let in_order =
        if ordered && same
        then same_lines (significant_lines actual) (significant_lines intended)
        else result.ordered in
      let compliant = if ordered && same then in_order else same in
      record result {
        missing = join "\n" missing;
        extra = join "\n" extra;
        ordered = in_order;
        compliant = compliant;
        diff_summary =
            line_counts (length missing) (length extra) (length actual_lines)
              (length intended_lines)
              (if compliant then none else some (lib.unified_diff actual intended));
      }
