-- ===== src/Iac/Compliance/Sections.antt =====
-- packages/iac/compliance.py: `_extract_cli_feature`, the part of a configuration that belongs to a
-- feature.
pub mod Laws
use net_graphy.Prelude.{
  ℕ, ◌-◌, String, ◌≡◌, refl, Bool, true, false, not, ◌||◌, Option, none, some, List, [], ◌∷◌, any,
  keep, map, is_blank, is_empty, starts_with, join, ltb, if◌then◌else◌, ◌==◌,
}
use net_graphy.Prelude.Spaces.{lstrip, strip, splitlines, text_length}
use net_graphy.Iac.Compliance.{Libraries}

-- `[line.strip() for line in match_config.strip().splitlines() if line.strip()]`
unfoldable pub patterns_of : String → List String
patterns_of match_config =
    keep (λ p. not (is_blank p)) (map strip (splitlines (strip match_config)))

-- The number of characters that `lstrip` removes.
abbrev pub indent : String → ℕ
indent line = text_length line - text_length (lstrip line)

abbrev pub is_separator : String → Bool
is_separator stripped = is_blank stripped || starts_with stripped "!"

module _ (lib : Libraries) where
  -- Whether a line starts a section.
  unfoldable pub opens : List String → String → Bool
  opens patterns line =
      let stripped = lstrip line in
      any (λ p. starts_with stripped p || lib.matches p stripped) patterns

  -- The body of the loop: the indent of the section that the loop is in after the line, if it is in
  -- one, and whether the line is extracted.
  unfoldable pub step : List String → Option ℕ → String → Option ℕ × Bool
  step patterns section line =
      if opens patterns line then (some (indent line), true) else inside section
    where
      inside : Option ℕ → Option ℕ × Bool
      inside none = (none, false)
      inside (some depth) =
          if is_separator (lstrip line) || ltb depth (indent line)
          then (some depth, true)
          else (none, false)

  unfoldable pub extract_lines : List String → Option ℕ → List String → List String
  extract_lines patterns section [] = []
  extract_lines patterns section (line ∷ lines) =
      let (next, extracted) = step patterns section line in
      let rest = extract_lines patterns next lines in if extracted then line ∷ rest else rest

  unfoldable pub extract_cli_feature : String → String → String
  extract_cli_feature config match_config =
      if is_blank config || is_blank match_config
      then ""
      else (let patterns = patterns_of match_config in
          if is_empty patterns
          then ""
          else join "\n" (extract_lines patterns none (splitlines config)))
