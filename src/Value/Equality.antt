-- ===== src/Value/Equality.antt =====
-- Python's equality and truth of values.
use net_graphy.Prelude.{
  ℕ, ◌+◌, String, Bool, true, false, not, ◌&&◌, ◌||◌, Option, none, some, is_blank, nat_eq,
  if◌then◌else◌, ◌==◌,
}
use net_graphy.Value.{
  Value, null, bool, int, float, str, list, dict, Items, nil, cons, Fields, end, field, pos, negsuc,
}
use net_graphy.Value.Numbers.{number, less_than}

abbrev pub find_field : String → Fields → Option Value
find_field k end = none
find_field k (field j v fs) = if j == k then some v else find_field k fs

abbrev pub field_count : Fields → ℕ
field_count end = 0
field_count (field k v fs) = field_count fs + 1

-- Two numbers of which neither is less.
abbrev number_eq : Value → Value → Bool
number_eq a b = elim (number b) [ none ↦ false | some m ↦ not (less_than a b || less_than b a) ]

unfoldable mutual
  -- `a == b`
  pub value_eq : Value → Value → Bool
  value_eq null null = true
  value_eq null _ = false
  value_eq (bool a) w = number_eq (bool a) w
  value_eq (int a) w = number_eq (int a) w
  value_eq (float m s) w = number_eq (float m s) w
  value_eq (str s) (str t) = s == t
  value_eq (str s) _ = false
  value_eq (list vs) (list ws) = items_eq vs ws
  value_eq (list vs) _ = false
  value_eq (dict fs) (dict gs) = nat_eq (field_count fs) (field_count gs) && fields_in fs gs
  value_eq (dict fs) _ = false

  pub items_eq : Items → Items → Bool
  items_eq nil nil = true
  items_eq nil _ = false
  items_eq (cons v vs) nil = false
  items_eq (cons v vs) (cons w ws) = value_eq v w && items_eq vs ws

  pub fields_in : Fields → Fields → Bool
  fields_in end gs = true
  fields_in (field k v fs) gs = elim (find_field k gs) [
    | none ↦ false
    | some w ↦ value_eq v w && fields_in fs gs
  ]

-- `v in vs`
unfoldable pub among : Value → Items → Bool
among v nil = false
among v (cons w ws) = value_eq w v || among v ws

-- bool(v)
unfoldable pub truthy : Value → Bool
truthy null = false
truthy (bool b) = b
truthy (int (pos n)) = not (nat_eq n 0)
truthy (int (negsuc n)) = true
truthy (float (pos n) s) = not (nat_eq n 0)
truthy (float (negsuc n) s) = true
truthy (str s) = not (is_blank s)
truthy (list nil) = false
truthy (list (cons v vs)) = true
truthy (dict end) = false
truthy (dict (field k v fs)) = true
