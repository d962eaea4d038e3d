-- ===== src/Glob/Laws.antt =====
-- Patterns that end in a star.
use Prim.Native.Char.{Char, code}
use text.Mathlib.TextLemmas.{nil-append, cons-append}
use net_graphy.Prelude.{
  String, ◌<>◌, ◌≡◌, refl, Bool, true, false, not, ◌&&◌, ◌||◌, [], ◌∷◌, none, arith, nat_eq,
  starts_with,
}
use net_graphy.Glob.{star, exactly, scan, tokens, accepts, fits, fnmatch}

is_special : Char → Bool
is_special c = nat_eq (code c) b'*' || (nat_eq (code c) b'?' || nat_eq (code c) b'[')

-- No character of the text is special in a pattern.
unfoldable pub is_plain : String → Bool
unfolding is_special
is_plain String.[] = true
is_plain (String.◌∷◌ c s) = not (is_special c) && is_plain s

fits_all : (s : String) → fits (star ∷ []) s ≡ true
unfolding fits
fits_all String.[] = refl
fits_all (String.◌∷◌ c s) = fits_all s

scan_plain :
    (c : Char) (p : String)
    → is_special c ≡ false
    → scan none (String.◌∷◌ c p) ≡ exactly c ∷ scan none p
unfolding scan is_special
scan_plain c p h = ground arith

codes_equal : (c d : Char) → nat_eq (code c) (code d) ≡ nat_eq (code d) (code c)
codes_equal c d = ground arith

scan_prefix : (p s : String) → is_plain p ≡ true → fits (scan none (p <> "*")) s ≡ starts_with s p
unfolding is_plain fits starts_with accepts
scan_prefix String.[] s h = rw nil-append (unfold scan in fits_all s)
scan_prefix (String.◌∷◌ c p) String.[] h = rw (cons-append, scan_plain c (p <> "*") (ground arith))
scan_prefix (String.◌∷◌ c p) (String.◌∷◌ d s) h = rw (
  cons-append,
  scan_plain c (p <> "*") (ground arith),
  scan_prefix p s (ground arith),
  codes_equal c d,
)

-- A plain text with a star behind it matches the texts that begin with it, and no others.
pub fnmatch_prefix : (p s : String) → is_plain p ≡ true → fnmatch s (p <> "*") ≡ starts_with s p
unfolding fnmatch
fnmatch_prefix p s h = unfold tokens in scan_prefix p s h
