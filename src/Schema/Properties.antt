-- ===== src/Schema/Properties.antt =====
-- The checks of packages/schema_engine/registry.py on the properties of nodes and edges.
pub mod Types
pub mod Fits
use net_graphy.Prelude.{
  ℕ, suc, String, Bool, true, false, not, ◌&&◌, ◌||◌, Option, none, some, List, [], ◌∷◌, ◌++◌,
  contains, is_empty, is_given, starts_with, ltb, nat_eq, if◌then◌else◌, ◌==◌,
}
use net_graphy.Prelude.Dict.{Dict, lookup, insert, has}
use net_graphy.Prelude.Spaces.{text_length}
use net_graphy.Value.{Value, null, bool, int, float, str, list, dict, Items, nil, cons}
use net_graphy.Value.Numbers.{less_than}
use net_graphy.Schema.Models.{
  AttributeType, string, text, integer, boolean, datetime, date, json, ip_address, cidr,
  mac_address, url, email, enum, reference, list_string, list_integer, AttributeDefinition,
  NodeTypeDefinition,
}
use net_graphy.Schema.Formats.{is_mac, is_email, is_url}
use net_graphy.Schema.Registry.{SchemaRegistry, get_node_type, get_edge_type}

-- `re.match` of a pattern that the schema gives, and what the module `ipaddress` reads as an address
-- or a network. A pattern that does not compile is not modelled.
pub record Libraries : Type 0 where
  pub matches : String → String → Bool
  pub is_ip_address : String → Bool
  pub is_ip_network : String → Bool

pub data PropertyError : Type 0 where
  unknown_type missing_required unknown_attribute null_required : String → PropertyError
  wrong_type : String → AttributeType → PropertyError
  wrong_item : String → ℕ → AttributeType → PropertyError
  not_allowed too_long below_min above_max no_match not_ip not_cidr not_mac not_email not_url :
      String → PropertyError

abbrev pub is_str : Value → Bool
is_str (str s) = true
is_str _ = false

-- isinstance(value, int), which a Boolean is too.
abbrev pub is_int : Value → Bool
is_int (int z) = true
is_int (bool b) = true
is_int _ = false

abbrev pub is_number : Value → Bool
is_number (float m s) = true
is_number v = is_int v

abbrev pub is_bool : Value → Bool
is_bool (bool b) = true
is_bool _ = false

abbrev pub is_json : Value → Bool
is_json (dict fs) = true
is_json (list vs) = true
is_json (str s) = true
is_json _ = false

-- isinstance(item, int) and not isinstance(item, bool)
abbrev pub is_whole : Value → Bool
is_whole (int z) = true
is_whole _ = false

-- The first item that fails, with its position.
unfoldable pub first_bad : (Value → Bool) → ℕ → Items → Option ℕ
first_bad test i nil = none
first_bad test i (cons v vs) =
    let rest = first_bad test (suc i) vs in if test v then rest else some i

unfoldable pub check_items : String → AttributeType → (Value → Bool) → Value → Option PropertyError
check_items name type test (list vs) = elim (first_bad test 0 vs) [
  | none ↦ none
  | some i ↦ some (wrong_item name i type)
]
check_items name type test _ = some (wrong_type name type)

abbrev checked : String → AttributeType → (Value → Bool) → Value → Option PropertyError
checked name type test v = if test v then none else some (wrong_type name type)

unfoldable pub check_type : String → Value → AttributeType → Option PropertyError
check_type name v AttributeType.integer = checked name AttributeType.integer is_int v
check_type name v AttributeType.float = checked name AttributeType.float is_number v
check_type name v AttributeType.boolean = checked name AttributeType.boolean is_bool v
check_type name v AttributeType.json = checked name AttributeType.json is_json v
check_type name v AttributeType.list_string = check_items name AttributeType.list_string is_str v
check_type name v AttributeType.list_integer =
    check_items name AttributeType.list_integer is_whole v
check_type name v type = checked name type is_str v

abbrev pub names_or_none : Option (List String) → List String
names_or_none none = []
names_or_none (some names) = names

unfoldable pub enum_errors :
    String → Value → AttributeDefinition → AttributeType → List PropertyError
enum_errors name (str s) d AttributeType.enum =
    let values = names_or_none d.enum_values in
    if not (is_empty values) && not (contains s values) then not_allowed name ∷ [] else []
enum_errors name v d type = []

-- `attr_def.max_length and len(value) > attr_def.max_length`
abbrev pub exceeds : Option ℕ → ℕ → Bool
exceeds none n = false
exceeds (some limit) n = not (nat_eq limit 0) && ltb limit n

unfoldable pub length_errors :
    String → Value → AttributeDefinition → AttributeType → List PropertyError
length_errors name (str s) d AttributeType.string =
    if exceeds d.max_length (text_length s) then too_long name ∷ [] else []
length_errors name (str s) d AttributeType.text =
    if exceeds d.max_length (text_length s) then too_long name ∷ [] else []
length_errors name v d type = []

abbrev pub is_below : Value → Option Value → Bool
is_below v none = false
is_below v (some least) = less_than v least

abbrev pub is_above : Value → Option Value → Bool
is_above v none = false
is_above v (some most) = less_than most v

abbrev pub bound_errors : String → Value → AttributeDefinition → List PropertyError
bound_errors name v d =
    (if is_below v d.min_value then below_min name ∷ [] else [])
    ++ (if is_above v d.max_value then above_max name ∷ [] else [])

unfoldable pub range_errors :
    String → Value → AttributeDefinition → AttributeType → List PropertyError
range_errors name v d AttributeType.integer = bound_errors name v d
range_errors name v d AttributeType.float = bound_errors name v d
range_errors name v d type = []

abbrev pub is_none {ℓ} : {A : Type ℓ} → Option A → Bool
is_none none = true
is_none (some a) = false

module _ (lib : Libraries) where
  abbrev pub fails_pattern : Option String → String → Bool
  fails_pattern none s = false
  fails_pattern (some pattern) s = is_given (some pattern) && not (lib.matches pattern s)

  unfoldable pub pattern_errors : String → Value → AttributeDefinition → List PropertyError
  pattern_errors name (str s) d =
      if fails_pattern d.validation_regex s then no_match name ∷ [] else []
  pattern_errors name v d = []

  unfoldable pub format_errors : String → Value → AttributeType → List PropertyError
  format_errors name (str s) AttributeType.ip_address =
      if lib.is_ip_address s then [] else not_ip name ∷ []
  format_errors name (str s) AttributeType.cidr =
      if lib.is_ip_network s then [] else not_cidr name ∷ []
  format_errors name (str s) AttributeType.mac_address = if is_mac s then [] else not_mac name ∷ []
  format_errors name (str s) AttributeType.email = if is_email s then [] else not_email name ∷ []
  format_errors name (str s) AttributeType.url = if is_url s then [] else not_url name ∷ []
  format_errors name v type = []

  unfoldable pub validate_attribute_value :
      String → Value → AttributeDefinition → List PropertyError
  validate_attribute_value name v d = elim (check_type name v d.type) [
    | some e ↦ e ∷ []
    | none ↦
        enum_errors name v d d.type
        ++ (length_errors name v d d.type
            ++ (range_errors name v d d.type
                ++ (pattern_errors name v d ++ format_errors name v d.type)))
  ]
