-- ===== src/Iac/Compliance/Json.antt =====
-- packages/iac/compliance.py: `_extract_json_feature`, `_compare_json` and `_json_diff`. The keys of
-- a difference come in the order of the intended data and then of the actual; in Python that order
-- is the one of a set.
pub mod Laws
use net_graphy.Prelude.{
  ℕ, String, Bool, true, false, not, ◌&&◌, ◌||◌, Option, none, some, List, [], ◌∷◌, contains, keep,
  map, is_blank, Result, ok, raised, if◌then◌else◌, ◌==◌,
}
use net_graphy.Prelude.Spaces.{strip, splitlines}
use net_graphy.Value.{
  Value, null, bool, int, float, str, list, dict, Items, nil, cons, Fields, end, field,
}
use net_graphy.Value.Equality.{find_field, field_count, value_eq, among, truthy}
use net_graphy.Iac.Compliance.{DiffSummary, key_counts, FeatureCompliance, Libraries}

abbrev pub has_field : String → Fields → Bool
has_field k fs = elim (find_field k fs) [ none ↦ false | some v ↦ true ]

unfoldable pub fields_named : List String → Fields → Fields
fields_named keys end = end
fields_named keys (field k v fs) =
    let rest = fields_named keys fs in if contains k keys then field k v rest else rest

-- `data.items()` of data that is no object raises.
abbrev pub filtered : List String → Value → Result String Value
filtered keys (dict fs) = ok (dict (fields_named keys fs))
filtered keys _ = raised "object has no attribute 'items'"

-- The items that are not in the others, and nothing where there are none.
unfoldable pub items_outside : Items → Items → Items
items_outside nil others = nil
items_outside (cons v vs) others =
    let rest = items_outside vs others in if among v others then rest else cons v rest

abbrev pub list_or_none : Items → Value
list_or_none nil = null
list_or_none (cons v vs) = list (cons v vs)

-- The fields whose keys the others do not have.
unfoldable pub fields_outside : Fields → Fields → Fields
fields_outside end others = end
fields_outside (field k v fs) others =
    let rest = fields_outside fs others in if has_field k others then rest else field k v rest

abbrev pub put : String → Value → Fields → Fields
put k v fs = if truthy v then field k v fs else fs

abbrev pub append_fields : Fields → Fields → Fields
append_fields end gs = gs
append_fields (field k v fs) gs = field k v (append_fields fs gs)

unfoldable mutual
  -- What is missing of the intended, and what is extra in the actual.
  pub json_diff : Value → Value → Value × Value
  json_diff (dict fs) (dict gs) =
      let (missing, extra) = diff_fields fs gs in
      (dict missing, dict (append_fields extra (fields_outside gs fs)))
  json_diff (list vs) (list ws) =
      (list_or_none (items_outside vs ws), list_or_none (items_outside ws vs))
  json_diff v w = if value_eq v w then (null, null) else (v, w)

  -- The keys of the intended object.
  pub diff_fields : Fields → Fields → Fields × Fields
  diff_fields end gs = (end, end)
  diff_fields (field k v fs) gs =
      let (missing, extra) = diff_fields fs gs in
      elim (find_field k gs) [
        | none ↦ (field k v missing, extra)
        | some w ↦ let (m, e) = json_diff v w in (put k m missing, put k e extra)
      ]

-- `len(v) if isinstance(v, dict) else 0`
abbrev pub count_keys : Value → ℕ
count_keys (dict fs) = field_count fs
count_keys _ = 0

module _ (lib : Libraries) where
  unfoldable pub extract_json_feature : String → String → Result String String
  extract_json_feature config match_config = elim (lib.loads config) [
    | none ↦ ok config
    | some loaded ↦
        if is_blank (strip match_config)
        then ok config
        else elim (filtered
            (keep (λ k. not (is_blank k)) (map strip (splitlines (strip match_config)))) loaded) [
              | ok kept ↦ ok (lib.dumps_sorted kept)
              | raised e ↦ raised e
            ]
  ]

  -- `json.loads(text) if text else {}`
  unfoldable pub load_or_empty : String → Option Value
  load_or_empty text = if is_blank text then some (dict end) else lib.loads text

  abbrev dumped : Value → String
  dumped v = if truthy v then lib.dumps v else ""

  abbrev pub with_difference : FeatureCompliance → Value × Value → FeatureCompliance
  with_difference result (missing, extra) = record result {
    missing = dumped missing;
    extra = dumped extra;
    compliant = not (truthy missing) && not (truthy extra);
    diff_summary = key_counts (count_keys missing) (count_keys extra);
  }

  abbrev parse_error : FeatureCompliance → FeatureCompliance
  parse_error result = record result { compliant = false; missing = "JSON parse error" }

  unfoldable pub compare_json : FeatureCompliance → String → String → Bool → FeatureCompliance
  compare_json result actual intended ordered = elim (load_or_empty actual) [
    | none ↦ parse_error result
    | some actual_data ↦ elim (load_or_empty intended) [
      | none ↦ parse_error result
      | some intended_data ↦ with_difference result (json_diff intended_data actual_data)
    ]
  ]
