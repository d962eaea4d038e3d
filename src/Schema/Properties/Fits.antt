-- ===== src/Schema/Properties/Fits.antt =====
-- What `_validate_attribute_value` of packages/schema_engine/registry.py accepts.
use net_graphy.Prelude.{
  ℕ, suc, String, ◌≡◌, ◌≢◌, ◌↔◌, refl, Bool, true, false, not, ◌&&◌, Option, none, some, List, [],
  ◌∷◌, arith, inl, inr, ◌⊎◌, both-eq-nil, some-injective, subst, zero, contains, ltb, ◌≤◌,
  if◌then◌else◌, is_empty, Bool-cases, Option-cases, nat_eq, is_blank,
}
use net_graphy.Prelude.Spaces.{text_length}
use net_graphy.Value.{Value, str}
use net_graphy.Value.Numbers.{less_than}
use net_graphy.Schema.Models.{AttributeType, AttributeDefinition}
use net_graphy.Schema.Formats.{is_mac, is_email, is_url}
use net_graphy.Schema.Properties.{
  Libraries, PropertyError, check_type, names_or_none, enum_errors, exceeds, length_errors,
  is_below, is_above, range_errors, fails_pattern, pattern_errors, format_errors,
  validate_attribute_value, bound_errors, too_long,
}
use net_graphy.Schema.Properties.Types.{HasType, check_type-none}

-- An enumeration without values takes every text.
unfoldable pub Listed : AttributeType → AttributeDefinition → Value → Type 0
Listed AttributeType.enum d (str s) =
    names_or_none d.enum_values ≢ [] → contains s (names_or_none d.enum_values) ≡ true
Listed type d v = Unit

abbrev Within : Option ℕ → ℕ → Type 0
Within limit n = (m : ℕ) → limit ≡ some m → m ≢ 0 → n ≤ m

unfoldable pub Short : AttributeType → AttributeDefinition → Value → Type 0
Short AttributeType.string d (str s) = Within d.max_length (text_length s)
Short AttributeType.text d (str s) = Within d.max_length (text_length s)
Short type d v = Unit

abbrev Between : AttributeDefinition → Value → Type 0
Between d v =
    ((least : Value) → d.min_value ≡ some least → less_than v least ≡ false)
    × ((most : Value) → d.max_value ≡ some most → less_than most v ≡ false)

unfoldable pub InRange : AttributeType → AttributeDefinition → Value → Type 0
InRange AttributeType.integer d v = Between d v
InRange AttributeType.float d v = Between d v
InRange type d v = Unit

module _ (lib : Libraries) where
  unfoldable pub MatchesPattern : AttributeDefinition → Value → Type 0
  MatchesPattern d (str s) =
      (p : String) → d.validation_regex ≡ some p → is_blank p ≡ false → lib.matches p s ≡ true
  MatchesPattern d v = Unit

  unfoldable pub WellFormed : AttributeType → Value → Type 0
  WellFormed AttributeType.ip_address (str s) = lib.is_ip_address s ≡ true
  WellFormed AttributeType.cidr (str s) = lib.is_ip_network s ≡ true
  WellFormed AttributeType.mac_address (str s) = is_mac s ≡ true
  WellFormed AttributeType.email (str s) = is_email s ≡ true
  WellFormed AttributeType.url (str s) = is_url s ≡ true
  WellFormed type v = Unit

  -- A value that an attribute takes.
  abbrev pub Fits : AttributeDefinition → Value → Type 0
  Fits d v =
      HasType d.type v
      × (Listed d.type d v
          × (Short d.type d v × (InRange d.type d v × (MatchesPattern d v × WellFormed d.type v))))

-- An error that is reported when the test is true.
reported :
    {P : Type 0} (b : Bool) (e : PropertyError)
    → ((b ≡ false) ↔ P)
    → ((if b then e ∷ [] else []) ≡ []) ↔ P
reported true e d = (λ h. cc, λ p. cc (d.1 p))
reported false e d = (λ h. d.0 refl, λ p. refl)

-- An error that is reported when the test is false.
missed : (b : Bool) (e : PropertyError) → ((if b then [] else e ∷ []) ≡ []) ↔ (b ≡ true)
missed true e = (λ h. refl, λ h. refl)
missed false e = (λ h. cc, λ h. cc)

is_among :
    (s : String) (names : List String)
    → ((not (is_empty names) && not (contains s names)) ≡ false)
      ↔ (names ≢ [] → contains s names ≡ true)
is_among s [] = (λ h k. absurd (k refl), λ h. refl)
is_among s (n ∷ names) = elim (Bool-cases (contains s (n ∷ names))) [
  | inl e ↦ (λ h k. e, λ h. rw e refl)
  | inr e ↦ (λ h. cc (rw e at h), λ h. cc (rw (h (λ k. cc)) at e))
]

Nat-cases : (k : ℕ) → (k ≡ 0) ⊎ (k ≢ 0)
Nat-cases zero = inl refl
Nat-cases (suc k) = inr (λ h. omega arith)

bounded : (k n : ℕ) → ((not (nat_eq k 0) && ltb k n) ≡ false) ↔ (k ≢ 0 → n ≤ k)
bounded k n = (
  λ h nonzero. ground arith,
  λ h. elim (Nat-cases k) [
    | inl e ↦ ground arith
    | inr nonzero ↦ let within = h nonzero in ground arith
  ],
)

exceeds-Within : (limit : Option ℕ) (n : ℕ) → (exceeds limit n ≡ false) ↔ Within limit n
exceeds-Within none n = (λ h m e. cc, λ h. refl)
exceeds-Within (some k) n = (
  λ h m e. subst (λ j. j ≢ 0 → n ≤ j) (some-injective e) ((bounded k n).0 h),
  λ h. (bounded k n).1 (h k refl),
)

short_enough :
    (name s : String) (d : AttributeDefinition)
    → ((if exceeds d.max_length (text_length s) then too_long name ∷ [] else []) ≡ [])
      ↔ Within d.max_length (text_length s)
short_enough name s d = reported _ _ (exceeds-Within d.max_length (text_length s))

length_errors-Short :
    (name : String) (v : Value) (d : AttributeDefinition) (type : AttributeType)
    → (length_errors name v d type ≡ []) ↔ Short type d v
unfolding length_errors Short
length_errors-Short name (str s) d AttributeType.string = short_enough name s d
length_errors-Short name (str s) d AttributeType.text = short_enough name s d
length_errors-Short name (str s) d _ = (λ h. tt, λ h. refl)
length_errors-Short name _ d AttributeType.string = (λ h. tt, λ h. refl)
length_errors-Short name _ d _ = (λ h. tt, λ h. refl)

enum_errors-Listed :
    (name : String) (v : Value) (d : AttributeDefinition) (type : AttributeType)
    → (enum_errors name v d type ≡ []) ↔ Listed type d v
unfolding enum_errors Listed
enum_errors-Listed name (str s) d AttributeType.enum =
    reported _ _ (is_among s (names_or_none d.enum_values))
enum_errors-Listed name (str s) d _ = (λ h. tt, λ h. refl)
enum_errors-Listed name _ d AttributeType.enum = (λ h. tt, λ h. refl)
enum_errors-Listed name _ d _ = (λ h. tt, λ h. refl)

is_below-false :
    (v : Value) (least : Option Value)
    → (is_below v least ≡ false) ↔ ((w : Value) → least ≡ some w → less_than v w ≡ false)
is_below-false v none = (λ h w e. cc, λ h. refl)
is_below-false v (some w) =
    (λ h u e. subst (λ x. less_than v x ≡ false) (some-injective e) h, λ h. h w refl)

is_above-false :
    (v : Value) (most : Option Value)
    → (is_above v most ≡ false) ↔ ((w : Value) → most ≡ some w → less_than w v ≡ false)
is_above-false v none = (λ h w e. cc, λ h. refl)
is_above-false v (some w) =
    (λ h u e. subst (λ x. less_than x v ≡ false) (some-injective e) h, λ h. h w refl)

bound_errors-Between :
    (name : String) (v : Value) (d : AttributeDefinition)
    → (bound_errors name v d ≡ []) ↔ Between d v
bound_errors-Between name v d =
    both-eq-nil _ _ (reported _ _ (is_below-false v d.min_value))
      (reported _ _ (is_above-false v d.max_value))

range_errors-InRange :
    (name : String) (v : Value) (d : AttributeDefinition) (type : AttributeType)
    → (range_errors name v d type ≡ []) ↔ InRange type d v
unfolding range_errors InRange
range_errors-InRange name v d AttributeType.integer = bound_errors-Between name v d
range_errors-InRange name v d AttributeType.float = bound_errors-Between name v d
range_errors-InRange name v d _ = (λ h. tt, λ h. refl)

module _ (lib : Libraries) where
  fails_pattern-false :
      (regex : Option String) (s : String)
      → (fails_pattern lib regex s ≡ false)
        ↔ ((p : String) → regex ≡ some p → is_blank p ≡ false → lib.matches p s ≡ true)
  fails_pattern-false none s = (λ h p e. cc, λ h. refl)
  fails_pattern-false (some r) s = (
    λ h p e blank. elim (Bool-cases (lib.matches p s)) [
      | inl m ↦ m
      | inr m ↦ cc (rw (some-injective e, blank, m) at h)
    ],
    λ h. elim (Bool-cases (is_blank r)) [
      | inl blank ↦ rw blank refl
      | inr solid ↦ rw (solid, h r refl solid) refl
    ],
  )

  pattern_errors-Matches :
      (name : String) (v : Value) (d : AttributeDefinition)
      → (pattern_errors lib name v d ≡ []) ↔ MatchesPattern lib d v
  unfolding pattern_errors MatchesPattern
  pattern_errors-Matches name (str s) d = reported _ _ (fails_pattern-false d.validation_regex s)
  pattern_errors-Matches name _ d = (λ h. tt, λ h. refl)

  format_errors-WellFormed :
      (name : String) (v : Value) (type : AttributeType)
      → (format_errors lib name v type ≡ []) ↔ WellFormed lib type v
  unfolding format_errors WellFormed
  format_errors-WellFormed name (str s) AttributeType.ip_address = missed (lib.is_ip_address s) _
  format_errors-WellFormed name (str s) AttributeType.cidr = missed (lib.is_ip_network s) _
  format_errors-WellFormed name (str s) AttributeType.mac_address = missed (is_mac s) _
  format_errors-WellFormed name (str s) AttributeType.email = missed (is_email s) _
  format_errors-WellFormed name (str s) AttributeType.url = missed (is_url s) _
  format_errors-WellFormed name (str s) _ = (λ h. tt, λ h. refl)
  format_errors-WellFormed name _ AttributeType.ip_address = (λ h. tt, λ h. refl)
  format_errors-WellFormed name _ _ = (λ h. tt, λ h. refl)

  -- A value passes without an error exactly when the attribute takes it.
  pub validate_attribute_value-Fits :
      (name : String) (v : Value) (d : AttributeDefinition)
      → (validate_attribute_value lib name v d ≡ []) ↔ Fits lib d v
  unfolding validate_attribute_value
  validate_attribute_value-Fits name v d =
      let typed = check_type-none name v d.type in
      let rest = both-eq-nil _ _ (enum_errors-Listed name v d d.type) (
        both-eq-nil _ _ (length_errors-Short name v d d.type) (
          both-eq-nil _ _ (range_errors-InRange name v d d.type) (
            both-eq-nil _ _ (pattern_errors-Matches name v d)
              (format_errors-WellFormed name v d.type)))) in
      elim (Option-cases (check_type name v d.type)) [
        | inl e ↦ (
          λ h. (typed.0 e, rest.0 (rw (validate_attribute_value, e) at h)),
          λ h. rw (validate_attribute_value, e) (rest.1 h.1),
        )
        | inr (err, e) ↦
            (λ h. cc (rw (validate_attribute_value, e) at h), λ h. cc (rw (typed.1 h.0) at e))
      ]
