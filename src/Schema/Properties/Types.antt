-- ===== src/Schema/Properties/Types.antt =====
-- The types of values that packages/schema_engine/registry.py checks in `_check_type`.
use net_graphy.Prelude.{
  ℕ, suc, String, ◌≡◌, ◌↔◌, refl, Bool, true, none, inl, inr, ◌⊎◌, Bool-cases, Option-cases, subst,
  sym,
}
use net_graphy.Value.{Value, bool, int, float, str, list, dict, Items, nil, cons, Fields, ℤ}
use net_graphy.Schema.Models.{AttributeType}
use net_graphy.Schema.Properties.{
  is_str, is_int, is_number, is_bool, is_json, is_whole, first_bad, check_items, check_type,
  checked,
}

abbrev IsText : Value → Type 0
IsText v = (s : String) × (v ≡ str s)

-- An integer that is not a Boolean.
abbrev IsWhole : Value → Type 0
IsWhole v = (z : ℤ) × (v ≡ int z)

abbrev IsTruth : Value → Type 0
IsTruth v = (b : Bool) × (v ≡ bool b)

abbrev IsFloat : Value → Type 0
IsFloat v = (m : ℤ) × (s : ℕ) × (v ≡ float m s)

abbrev Every : (Value → Type 0) → Items → Type 0
Every P nil = Unit
Every P (cons v vs) = P v × Every P vs

abbrev IsListOf : (Value → Type 0) → Value → Type 0
IsListOf P v = (vs : Items) × (v ≡ list vs) × Every P vs

abbrev IsInteger : Value → Type 0
IsInteger v = IsWhole v ⊎ IsTruth v

abbrev IsNumber : Value → Type 0
IsNumber v = IsFloat v ⊎ IsInteger v

abbrev IsJson : Value → Type 0
IsJson v = ((fs : Fields) × (v ≡ dict fs)) ⊎ (((vs : Items) × (v ≡ list vs)) ⊎ IsText v)

-- The values of a type. A Boolean counts as an integer.
unfoldable pub HasType : AttributeType → Value → Type 0
HasType AttributeType.integer v = IsInteger v
HasType AttributeType.float v = IsNumber v
HasType AttributeType.boolean v = IsTruth v
HasType AttributeType.json v = IsJson v
HasType AttributeType.list_string v = IsListOf IsText v
HasType AttributeType.list_integer v = IsListOf IsWhole v
HasType _ v = IsText v

-- `b` says whether `P` holds.
abbrev Decides : Bool → Type 0 → Type 0
Decides b P = (b ≡ true) ↔ P

is_str-IsText : (v : Value) → Decides (is_str v) (IsText v)
is_str-IsText (str s) = (λ h. (s, refl), λ h. refl)
is_str-IsText _ = (λ h. cc, λ h. let (s, e) = h in cc)

is_whole-IsWhole : (v : Value) → Decides (is_whole v) (IsWhole v)
is_whole-IsWhole (int z) = (λ h. (z, refl), λ h. refl)
is_whole-IsWhole _ = (λ h. cc, λ h. let (s, e) = h in cc)

is_bool-IsTruth : (v : Value) → Decides (is_bool v) (IsTruth v)
is_bool-IsTruth (bool b) = (λ h. (b, refl), λ h. refl)
is_bool-IsTruth _ = (λ h. cc, λ h. let (s, e) = h in cc)

is_int-HasType : (v : Value) → Decides (is_int v) (IsInteger v)
is_int-HasType (int z) = (λ h. inl (z, refl), λ h. refl)
is_int-HasType (bool b) = (λ h. inr (b, refl), λ h. refl)
is_int-HasType _ = (λ h. cc, λ h. elim h [ inl (z, e) ↦ cc | inr (b, e) ↦ cc ])

is_number-HasType : (v : Value) → Decides (is_number v) (IsNumber v)
is_number-HasType (int z) = (λ h. inr (inl (z, refl)), λ h. refl)
is_number-HasType (bool b) = (λ h. inr (inr (b, refl)), λ h. refl)
is_number-HasType (float m s) = (λ h. inl (m, s, refl), λ h. refl)
is_number-HasType _ =
    (λ h. cc, λ h. elim h [ inl (m, s, e) ↦ cc | inr (inl (z, e)) ↦ cc | inr (inr (b, e)) ↦ cc ])

is_json-IsJson : (v : Value) → Decides (is_json v) (IsJson v)
is_json-IsJson (dict fs) = (λ h. inl (fs, refl), λ h. refl)
is_json-IsJson (list vs) = (λ h. inr (inl (vs, refl)), λ h. refl)
is_json-IsJson (str s) = (λ h. inr (inr (s, refl)), λ h. refl)
is_json-IsJson _ =
    (λ h. cc, λ h. elim h [ inl (m, e) ↦ cc | inr (inl (z, e)) ↦ cc | inr (inr (b, e)) ↦ cc ])

checked-none :
    (name : String) (type : AttributeType) (test : Value → Bool) (P : Value → Type 0) (v : Value)
    → Decides (test v) (P v)
    → (checked name type test v ≡ none) ↔ P v
checked-none name type test P v d = elim (Bool-cases (test v)) [
  | inl e ↦ (λ h. d.0 e, λ p. rw e refl)
  | inr e ↦ (λ h. cc (rw e at h), λ p. rw (d.1 p) refl)
]

first_bad-Every :
    (test : Value → Bool) (P : Value → Type 0) (all : (v : Value) → Decides (test v) (P v)) (i : ℕ)
    (vs : Items)
    → (first_bad test i vs ≡ none) ↔ Every P vs
unfolding first_bad
first_bad-Every test P all i nil = (λ h. tt, λ h. refl)
first_bad-Every test P all i (cons v vs) =
    let rest = first_bad-Every test P all (suc i) vs in
    elim (Bool-cases (test v)) [
      | inl e ↦ (λ h. ((all v).0 e, rest.0 (rw e at h)), λ h. rw e (rest.1 h.1))
      | inr e ↦ (λ h. cc (rw e at h), λ h. cc (rw ((all v).1 h.0) at e))
    ]

list-injective : {vs ws : Items} → list vs ≡ list ws → vs ≡ ws
list-injective h = cc

check_items-none :
    (name : String) (type : AttributeType) (test : Value → Bool) (P : Value → Type 0)
    (all : (v : Value) → Decides (test v) (P v)) (v : Value)
    → (check_items name type test v ≡ none) ↔ IsListOf P v
unfolding check_items
check_items-none name type test P all (list vs) =
    let every = first_bad-Every test P all 0 vs in
    elim (Option-cases (first_bad test 0 vs)) [
      | inl e ↦ (λ h. (vs, refl, every.0 e), λ h. rw (check_items, e) refl)
      | inr (i, e) ↦ (λ h. cc (rw (check_items, e) at h), λ h. cc (rw (every.1 (listed h)) at e))
    ]
  where
    listed : IsListOf P (list vs) → Every P vs
    listed (ws, e, all_ws) = subst (Every P) (sym (list-injective e)) all_ws
check_items-none name type test P all _ = (λ h. cc, λ h. let (vs, e, every) = h in cc)

pub check_type-none :
    (name : String) (v : Value) (type : AttributeType)
    → (check_type name v type ≡ none) ↔ HasType type v
unfolding check_type HasType
check_type-none name v AttributeType.integer =
    checked-none name _ is_int IsInteger v (is_int-HasType v)
check_type-none name v AttributeType.float =
    checked-none name _ is_number IsNumber v (is_number-HasType v)
check_type-none name v AttributeType.boolean =
    checked-none name _ is_bool IsTruth v (is_bool-IsTruth v)
check_type-none name v AttributeType.json = checked-none name _ is_json IsJson v (is_json-IsJson v)
check_type-none name v AttributeType.list_string =
    check_items-none name _ is_str IsText is_str-IsText v
check_type-none name v AttributeType.list_integer =
    check_items-none name _ is_whole IsWhole is_whole-IsWhole v
check_type-none name v _ = checked-none name _ is_str IsText v (is_str-IsText v)
