-- ===== src/Prelude/Decimal.antt =====
-- `str(n)` of a number, as formatted strings write it.
use Prim.Native.Char.{code}
use text.Mathlib.TextLemmas.{nil-append, cons-append}
use net_graphy.Prelude.{
  ℕ, zero, suc, ◌+◌, ◌-◌, ◌*◌, ◌/◌, ◌%◌, ◌<◌, String, ◌<>◌, ◌≡◌, refl, sym, ap, ◌∙◌, inl, inr,
  arith, Bool-cases, starts_with, false, ltb, if◌then◌else◌,
}

digit : ℕ → String
digit zero = "0"
digit (suc zero) = "1"
digit (suc (suc zero)) = "2"
digit (suc (suc (suc zero))) = "3"
digit (suc (suc (suc (suc zero)))) = "4"
digit (suc (suc (suc (suc (suc zero))))) = "5"
digit (suc (suc (suc (suc (suc (suc zero)))))) = "6"
digit (suc (suc (suc (suc (suc (suc (suc zero))))))) = "7"
digit (suc (suc (suc (suc (suc (suc (suc (suc zero)))))))) = "8"
digit _ = "9"

-- The fuel bounds the number of digits; a number has fewer digits than its successor counts.
show_within : ℕ → ℕ → String
show_within zero n = ""
show_within (suc f) n =
    let front = show_within f (n / 10) in if ltb n 10 then digit n else front <> digit (n % 10)

unfoldable pub show : ℕ → String
unfolding show_within digit
show n = show_within (suc n) n

show_1204 : show 1204 ≡ "1204"
unfolding show
show_1204 = refl

-- Reads the digits of a text after those that gave `acc`.
read_from : ℕ → String → ℕ
read_from acc String.[] = acc
read_from acc (String.◌∷◌ c s) = read_from (acc * 10 + (code c - 48)) s

read_from-append : (acc : ℕ) (s t : String) → read_from acc (s <> t) ≡ read_from (read_from acc s) t
unfolding read_from
read_from-append acc String.[] t = rw nil-append
read_from-append acc (String.◌∷◌ c s) t =
    rw cons-append (read_from-append (acc * 10 + (code c - 48)) s t)

read_from-digit : (acc d : ℕ) → d < 10 → read_from acc (digit d) ≡ acc * 10 + d
unfolding read_from digit
read_from-digit acc zero h = omega arith
read_from-digit acc (suc zero) h = omega arith
read_from-digit acc (suc (suc zero)) h = omega arith
read_from-digit acc (suc (suc (suc zero))) h = omega arith
read_from-digit acc (suc (suc (suc (suc zero)))) h = omega arith
read_from-digit acc (suc (suc (suc (suc (suc zero))))) h = omega arith
read_from-digit acc (suc (suc (suc (suc (suc (suc zero)))))) h = omega arith
read_from-digit acc (suc (suc (suc (suc (suc (suc (suc zero))))))) h = omega arith
read_from-digit acc (suc (suc (suc (suc (suc (suc (suc (suc zero)))))))) h = omega arith
read_from-digit acc (suc (suc (suc (suc (suc (suc (suc (suc (suc d))))))))) h = omega arith

read-show_within : (f n : ℕ) → n < f → read_from 0 (show_within f n) ≡ n
unfolding show_within
read-show_within zero n h = absurd (omega arith)
read-show_within (suc f) n h = elim (Bool-cases (ltb n 10)) [
  | inl e ↦ rw e (read_from-digit 0 n (ground arith) ∙ omega arith)
  | inr e ↦
      rw (e, read_from-append, read-show_within f (n / 10) (ground arith))
        (read_from-digit (n / 10) (n % 10) (omega arith) ∙ omega arith)
]

-- Different numbers are written differently.
pub show-injective : (m n : ℕ) → show m ≡ show n → m ≡ n
unfolding show
show-injective m n h =
    sym (read-show_within (suc m) m (omega arith))
    ∙ (ap (read_from 0) h ∙ read-show_within (suc n) n (omega arith))

digit-starts_with : (d : ℕ) → starts_with (digit d) "_" ≡ false
unfolding digit starts_with
digit-starts_with zero = refl
digit-starts_with (suc zero) = refl
digit-starts_with (suc (suc zero)) = refl
digit-starts_with (suc (suc (suc zero))) = refl
digit-starts_with (suc (suc (suc (suc zero)))) = refl
digit-starts_with (suc (suc (suc (suc (suc zero))))) = refl
digit-starts_with (suc (suc (suc (suc (suc (suc zero)))))) = refl
digit-starts_with (suc (suc (suc (suc (suc (suc (suc zero))))))) = refl
digit-starts_with (suc (suc (suc (suc (suc (suc (suc (suc zero)))))))) = refl
digit-starts_with (suc (suc (suc (suc (suc (suc (suc (suc (suc d))))))))) = refl

append-starts_with :
    (s t : String)
    → starts_with s "_" ≡ false
    → starts_with t "_" ≡ false
    → starts_with (s <> t) "_" ≡ false
unfolding starts_with
append-starts_with String.[] t h k = rw nil-append k
append-starts_with (String.◌∷◌ c s) t h k = rw cons-append (ground (arith, h))

show_within-starts_with : (f n : ℕ) → starts_with (show_within f n) "_" ≡ false
unfolding show_within
show_within-starts_with zero n = unfold starts_with in refl
show_within-starts_with (suc f) n = elim (Bool-cases (ltb n 10)) [
  | inl e ↦ rw e (digit-starts_with n)
  | inr e ↦ rw e (
      append-starts_with (show_within f (n / 10)) (digit (n % 10))
        (show_within-starts_with f (n / 10)) (digit-starts_with (n % 10)))
]

-- A numeral does not begin with an underscore.
pub show-starts_with : (n : ℕ) → starts_with (show n) "_" ≡ false
unfolding show
show-starts_with n = show_within-starts_with (suc n) n
