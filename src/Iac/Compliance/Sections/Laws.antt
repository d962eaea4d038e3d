-- ===== src/Iac/Compliance/Sections/Laws.antt =====
-- What the lines of a feature are.
use net_graphy.Prelude.{
  ℕ, String, ◌≡◌, ◌↔◌, ◌⊎◌, inl, inr, refl, sym, ◌∙◌, ap, subst, Bool, true, false, ◌||◌, Option,
  none, some, List, [], ◌∷◌, ltb, if◌then◌else◌, Bool-cases, some-injective, false≢true,
}
use net_graphy.Prelude.Spaces.{lstrip}
use net_graphy.Iac.Compliance.{Libraries}
use net_graphy.Iac.Compliance.Sections.{indent, is_separator, opens, step, extract_lines}

-- A blank line, a separator, or a line deeper than the section's first.
abbrev pub IsChild : ℕ → String → Type 0
IsChild depth line = (is_separator (lstrip line) || ltb depth (indent line)) ≡ true

module _ (lib : Libraries) (patterns : List String) where
  -- With the lines read so far, the last one first: the last line that opens a section has this
  -- indent, and the lines behind it are its children.
  unfoldable pub InSection : List String → ℕ → Type 0
  InSection [] depth = ⊥
  InSection (line ∷ before) depth =
      ((opens lib patterns line ≡ true) × (indent line ≡ depth))
      ⊎ ((opens lib patterns line ≡ false) × (IsChild depth line × InSection before depth))

  -- A line of the feature: it opens a section, or it is a child of the one that is open.
  abbrev pub Belongs : List String → String → Type 0
  Belongs before line =
      (opens lib patterns line ≡ true)
      ⊎ ((depth : ℕ) × (InSection before depth × IsChild depth line))

  -- What is extracted of the lines that follow those read so far.
  pub data Extracted : List String → List String → List String → Type 0 where
    done : {before : List String} → Extracted before [] []
    taken :
        {before lines out : List String} {line : String}
        → Belongs before line
        → Extracted (line ∷ before) lines out
        → Extracted before (line ∷ lines) (line ∷ out)
    left :
        {before lines out : List String} {line : String}
        → ¬ (Belongs before line)
        → Extracted (line ∷ before) lines out
        → Extracted before (line ∷ lines) out

  -- The section that the loop is in after lines, the last one first.
  unfoldable reached : List String → Option ℕ
  reached [] = none
  reached (line ∷ before) = (step lib patterns (reached before) line).0

  step-open :
      (section : Option ℕ) (line : String)
      → opens lib patterns line ≡ true
      → step lib patterns section line ≡ (some (indent line), true)
  unfolding step
  step-open section line e = rw e refl

  step-outside :
      (line : String)
      → opens lib patterns line ≡ false
      → step lib patterns none line ≡ (none, false)
  unfolding step
  step-outside line e = rw e refl

  -- Inside of a section, by whether the line is a child.
  step-inside :
      (depth : ℕ) (line : String) {child : Bool}
      → opens lib patterns line ≡ false
      → (is_separator (lstrip line) || ltb depth (indent line)) ≡ child
      → step lib patterns (some depth) line ≡ (if child then (some depth, true) else (none, false))
  unfolding step
  step-inside depth line e c = rw (e, c) refl

  reached-InSection :
      (before : List String) (depth : ℕ) → (reached before ≡ some depth) ↔ InSection before depth
  unfolding reached InSection
  reached-InSection [] depth = (λ h. cc, λ h. absurd h)
  reached-InSection (line ∷ before) depth = elim (Bool-cases (opens lib patterns line)) [
    | inl e ↦
        rw (reached, step-open (reached before) line e)
          (λ h. inl (e, some-injective h), λ h. elim h [ inl (o, d) ↦ ap some d | inr (o, r) ↦ cc ])
    | inr e ↦
        let ih = reached-InSection before depth in
        (
          λ h. inr (e, from_state (reached before) ih e h),
          λ h. elim h [
            | inl (o, d) ↦ cc
            | inr (o, (c, r)) ↦ rw (reached, ih.1 r, step-inside depth line e c) refl
          ],
        )
  ]
    where
      from_state :
          (section : Option ℕ)
          → ((section ≡ some depth) ↔ InSection before depth)
          → opens lib patterns line ≡ false
          → (step lib patterns section line).0 ≡ some depth
          → IsChild depth line × InSection before depth
      from_state none ih e h = cc (rw (step-outside line e) at h)
      from_state (some k) ih e h =
          elim (Bool-cases (is_separator (lstrip line) || ltb k (indent line))) [
            | inl c ↦
                let same = some-injective (rw (step-inside k line e c) at h) in
                (subst (λ d. IsChild d line) same c, ih.0 (ap some same))
            | inr c ↦ cc (rw (step-inside k line e c) at h)
          ]

  -- A line is extracted when it belongs to the feature.
  step-Belongs :
      (before : List String) (line : String)
      → ((step lib patterns (reached before) line).1 ≡ true) ↔ Belongs before line
  step-Belongs before line = elim (Bool-cases (opens lib patterns line)) [
    | inl e ↦ (λ h. inl e, λ h. rw (step-open (reached before) line e) refl)
    | inr e ↦ (
      λ h. inr (from_state (reached before) (reached-InSection before) e h),
      λ h. elim h [
        | inl o ↦ cc
        | inr (k, (r, c)) ↦ rw ((reached-InSection before k).1 r, step-inside k line e c) refl
      ],
    )
  ]
    where
      from_state :
          (section : Option ℕ)
          → ((k : ℕ) → (section ≡ some k) ↔ InSection before k)
          → opens lib patterns line ≡ false
          → (step lib patterns section line).1 ≡ true
          → (depth : ℕ) × (InSection before depth × IsChild depth line)
      from_state none r e h = cc (rw (step-outside line e) at h)
      from_state (some k) r e h =
          elim (Bool-cases (is_separator (lstrip line) || ltb k (indent line))) [
            | inl c ↦ (k, ((r k).0 refl, c))
            | inr c ↦ cc (rw (step-inside k line e c) at h)
          ]

  extract_lines-after :
      (before lines : List String)
      → Extracted before lines (extract_lines lib patterns (reached before) lines)
  unfolding extract_lines reached
  extract_lines-after before [] = done
  extract_lines-after before (line ∷ lines) =
      let rest = extract_lines-after (line ∷ before) lines in
      elim (Bool-cases (step lib patterns (reached before) line).1) [
        | inl e ↦ rw e (taken ((step-Belongs before line).0 e) rest)
        | inr e ↦ rw e (left (λ b. false≢true (sym e ∙ (step-Belongs before line).1 b)) rest)
      ]

  -- Of the lines of a configuration exactly those that belong to the feature are extracted, in their
  -- order: the lines that start with or match a pattern behind their indent, and behind each of them
  -- the blank lines, the separators and the deeper lines, up to the first line that is none of these.
  pub extract_lines-Extracted :
      (lines : List String) → Extracted [] lines (extract_lines lib patterns none lines)
  extract_lines-Extracted lines = unfold reached in extract_lines-after [] lines
