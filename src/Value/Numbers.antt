-- ===== src/Value/Numbers.antt =====
-- Python's order of numbers. A Boolean is a number, and an integer and a float compare exactly.
use net_graphy.Prelude.{
  ◌≡◌, refl, ℕ, ◌+◌, ◌-◌, ◌*◌, ◌^◌, Bool, true, false, Option, none, some, ltb, if◌then◌else◌,
}
use net_graphy.Value.{Value, bool, int, float, ℤ, pos, negsuc}

abbrev lt_int : ℤ → ℤ → Bool
lt_int (pos m) (pos n) = ltb m n
lt_int (pos m) (negsuc n) = false
lt_int (negsuc m) (pos n) = true
lt_int (negsuc m) (negsuc n) = ltb n m

-- z * 2 ^ k
abbrev scaled : ℤ → ℕ → ℤ
scaled (pos n) k = pos (n * 2 ^ k)
scaled (negsuc n) k = negsuc ((n + 1) * 2 ^ k - 1)

-- The mantissa and the scale of a number.
abbrev pub number : Value → Option (ℤ × ℕ)
number (bool b) = some (pos (if b then 1 else 0), 0)
number (int z) = some (z, 0)
number (float m s) = some (m, s)
number _ = none

abbrev lt_scaled : Option (ℤ × ℕ) → Option (ℤ × ℕ) → Bool
lt_scaled (some (m, s)) (some (n, t)) = lt_int (scaled m t) (scaled n s)
lt_scaled _ _ = false

-- `a < b` of two numbers.
unfoldable pub less_than : Value → Value → Bool
less_than a b = lt_scaled (number a) (number b)

half_less_than_one : less_than (float (pos 1) 1) (bool true) ≡ true
unfolding less_than
half_less_than_one = refl

negative_order : less_than (int (negsuc 2)) (float (negsuc 4) 1) ≡ true
unfolding less_than
negative_order = refl
