-- ===== src/Iac/Compliance/Json/Laws.antt =====
-- What compliance of JSON configurations means.
use net_graphy.Prelude.{
  true_iff, String, ◌≡◌, refl, subst, Bool, true, false, not, some, ◌==◌, Bool-cases, Option-cases,
  inl, inr, eq_iff, &&-eq-true,
}
use net_graphy.Value.{Value, dict, Fields, end, field}
use net_graphy.Value.Equality.{find_field, truthy}
use net_graphy.Iac.Compliance.{FeatureCompliance, Libraries}
use net_graphy.Iac.Compliance.Json.{
  has_field, fields_outside, append_fields, put, json_diff, diff_fields, load_or_empty,
  compare_json,
}

dict-falsy : (fs : Fields) → truthy (dict fs) ≡ false → fs ≡ end
unfolding truthy
dict-falsy end h = refl
dict-falsy (field k v fs) h = cc

IsWithin : Fields → Fields → Type 0
IsWithin fs gs = (k : String) → has_field k fs ≡ true → has_field k gs ≡ true

-- A first field whose key the others have.
field-IsWithin :
    (k : String) (v : Value) (fs gs : Fields)
    → has_field k gs ≡ true
    → IsWithin fs gs
    → IsWithin (field k v fs) gs
unfolding IsWithin
field-IsWithin k v fs gs here rest j h = elim (Bool-cases (k == j)) [
  | inl e ↦ subst (λ x. has_field x gs ≡ true) ((eq_iff k j).0 e) here
  | inr e ↦ rest j (rw (has_field, find_field, e) at h)
]

fields_outside-IsWithin : (fs gs : Fields) → fields_outside fs gs ≡ end → IsWithin fs gs
unfolding fields_outside
fields_outside-IsWithin end gs h = unfold IsWithin in (λ k a. cc)
fields_outside-IsWithin (field k v fs) gs h = elim (Bool-cases (has_field k gs)) [
  | inl e ↦ field-IsWithin k v fs gs e (fields_outside-IsWithin fs gs (rw e at h))
  | inr e ↦ cc (rw e at h)
]

put-end : (k : String) (m : Value) (fs : Fields) → put k m fs ≡ end → fs ≡ end
put-end k m fs h = elim (Bool-cases (truthy m)) [ inl e ↦ cc (rw e at h) | inr e ↦ rw e at h ]

diff_fields-IsWithin : (fs gs : Fields) → (diff_fields fs gs).0 ≡ end → IsWithin fs gs
unfolding diff_fields
diff_fields-IsWithin end gs h = unfold IsWithin in (λ k a. cc)
diff_fields-IsWithin (field k v fs) gs h = elim (Option-cases (find_field k gs)) [
  | inl e ↦ cc (rw (diff_fields, e) at h)
  | inr (w, e) ↦ field-IsWithin k v fs gs (rw (has_field, e) refl) (
      diff_fields-IsWithin fs gs
        (put-end k (json_diff v w).0 (diff_fields fs gs).0 (rw (diff_fields, e) at h)))
]

append_fields-end : (fs gs : Fields) → append_fields fs gs ≡ end → gs ≡ end
append_fields-end end gs h = h
append_fields-end (field k v fs) gs h = cc

json_diff-keys :
    (k : String) (fs gs : Fields)
    → truthy (json_diff (dict fs) (dict gs)).0 ≡ false
    → truthy (json_diff (dict fs) (dict gs)).1 ≡ false
    → has_field k fs ≡ has_field k gs
unfolding json_diff IsWithin
json_diff-keys k fs gs m e =
    let missing = dict-falsy _ m in
    let extra = append_fields-end _ _ (dict-falsy _ e) in
    true_iff (has_field k fs) (has_field k gs) (diff_fields-IsWithin fs gs missing k)
      (fields_outside-IsWithin gs fs extra k)

not-eq-true : (b : Bool) → not b ≡ true → b ≡ false
not-eq-true true h = cc
not-eq-true false h = refl

-- Where the actual and the intended configuration are JSON objects, an empty text counting as an
-- object without keys, and they are compliant, they have the same keys.
pub compare_json-keys :
    (lib : Libraries) (result : FeatureCompliance) (actual intended : String) (ordered : Bool)
    (k : String) (fs gs : Fields)
    → load_or_empty lib actual ≡ some (dict gs)
    → load_or_empty lib intended ≡ some (dict fs)
    → (compare_json lib result actual intended ordered).compliant ≡ true
    → has_field k fs ≡ has_field k gs
unfolding compare_json
compare_json-keys lib result actual intended ordered k fs gs a i h =
    let (m, e) =
      (&&-eq-true (not (truthy (json_diff (dict fs) (dict gs)).0))
          (not (truthy (json_diff (dict fs) (dict gs)).1))).0
        (rw (compare_json, a, i) at h) in
    json_diff-keys k fs gs (not-eq-true _ m) (not-eq-true _ e)
