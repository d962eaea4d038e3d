-- ===== src/Prelude/Texts.antt =====
-- Texts compared whole, tested for membership, and taken apart at a character.
use Prim.Native.Nat.{ℕ}
use Prim.Native.Char.{Char, code}
use Prim.Native.String.{String, ◌++◌ as ◌<>◌}
use mathlib.Core.Path.{◌≡◌, refl, sym, subst}
use mathlib.Core.Logic.{inl, inr}
use mathlib.Core.Bool.{Bool, true, false, not, ◌||◌, false≢true}
use mathlib.Core.Option.{Option, none, some}
use mathlib.Core.List.{List, [], ◌∷◌}
use native.Mathlib.Omega.{arith}
use text.Mathlib.Text.{◌==◌ as str_eq}
use text.Mathlib.TextEquality.{eq_iff}
use net_graphy.Prelude.Tests.{Bool-cases, nat_eq, if◌then◌else◌}
use net_graphy.Prelude.Lists.{All}

infix 50 ◌==◌
abbrev pub ◌==◌ : String → String → Bool
s == t = str_eq s t

pub ==_refl : (s : String) → (s == s) ≡ true
==_refl s = (eq_iff s s).1 refl

-- `key in names`
unfoldable pub contains : String → List String → Bool
contains key [] = false
contains key (name ∷ names) = key == name || contains key names

-- A fact about every entry holds of a text that is among them.
pub All-contains {κ} :
    (P : String → Type κ) (key : String) (names : List String)
    → contains key names ≡ true
    → All P names
    → P key
unfolding contains
All-contains P key [] h all = absurd (false≢true h)
All-contains P key (name ∷ names) h all = elim (Bool-cases (key == name)) [
  | inl e ↦ subst P (sym ((eq_iff key name).0 e)) all.0
  | inr e ↦ All-contains P key names (ground arith) all.1
]

-- The truth value of a text, and of an optional text: false for `None` and for "".
abbrev pub is_blank : String → Bool
is_blank String.[] = true
is_blank (String.◌∷◌ c s) = false

abbrev pub is_given : Option String → Bool
is_given none = false
is_given (some s) = not (is_blank s)

-- `s.startswith(p)`
unfoldable pub starts_with : String → String → Bool
starts_with s String.[] = true
starts_with String.[] (String.◌∷◌ d p) = false
starts_with (String.◌∷◌ c s) (String.◌∷◌ d p) =
    let rest = starts_with s p in if nat_eq (code c) (code d) then rest else false

-- `sep.join(texts)`
unfoldable pub join : String → List String → String
join sep [] = ""
join sep (t ∷ []) = t
join sep (t ∷ u ∷ ts) = t <> (sep <> join sep (u ∷ ts))

abbrev onto_first : Char → List String → List String
onto_first c [] = String.◌∷◌ c String.[] ∷ []
onto_first c (t ∷ ts) = String.◌∷◌ c t ∷ ts

-- `s.split(sep)` at a separator of one character, given by its code point.
unfoldable pub split : ℕ → String → List String
split sep String.[] = "" ∷ []
split sep (String.◌∷◌ c s) =
    let rest = split sep s in if nat_eq (code c) sep then "" ∷ rest else onto_first c rest
