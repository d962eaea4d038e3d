-- ===== src/Glob.antt =====
-- `fnmatch.fnmatch` of Python's standard library (POSIX, where case is kept): a pattern matches a
-- whole text; `*` stands for any text, `?` for any character, `[...]` for one of a set. The program
-- matches permissions and event types by it.
pub mod Laws
use Prim.Native.Char.{Char, code}
use net_graphy.Prelude.{
  String, ◌<>◌, Bool, true, false, not, ◌&&◌, ◌||◌, List, [], ◌∷◌, Option, none, some, any, leb,
  nat_eq, if◌then◌else◌, ◌==◌,
}

-- A set `[a-z0]` is its ranges, and whether it is negated.
pub data Token : Type 0 where
  star any_char : Token
  exactly : Char → Token
  one_of : Bool → List (Char × Char) → Token

-- What stands between brackets: a hyphen between two characters makes a range.
unfoldable pub ranges : String → List (Char × Char)
ranges String.[] = []
ranges (String.◌∷◌ a (String.◌∷◌ h (String.◌∷◌ b s))) =
    let range = (a, b) ∷ ranges s in
    let single = (a, a) ∷ ranges (String.◌∷◌ h (String.◌∷◌ b s)) in
    if nat_eq (code h) b'-' then range else single
ranges (String.◌∷◌ a s) = (a, a) ∷ ranges s

unfoldable pub set_token : String → Token
set_token String.[] = one_of false []
set_token (String.◌∷◌ c s) =
    if nat_eq (code c) b'!' then one_of true (ranges s) else one_of false (ranges (String.◌∷◌ c s))

-- A `]` that stands first in a set, or first behind its `!`, belongs to the set.
abbrev may_close : String → Bool
may_close body = not (body == "" || body == "!")

-- Whether a set that has begun with `body` is closed further on.
unfoldable pub closes : String → String → Bool
closes body String.[] = false
closes body (String.◌∷◌ c s) =
    let later = closes (body <> String.◌∷◌ c "") s in
    if nat_eq (code c) b']' && may_close body then true else later

-- Inside brackets the text collected so far is at hand; an unclosed `[` stands for itself.
unfoldable pub scan : Option String → String → List Token
scan _ String.[] = []
scan (some body) (String.◌∷◌ c s) =
    let closed = set_token body ∷ scan none s in
    let onward = scan (some (body <> String.◌∷◌ c "")) s in
    if nat_eq (code c) b']' && may_close body then closed else onward
scan none (String.◌∷◌ c s) =
    let plain = scan none s in
    let in_set = scan (some "") s in
    if nat_eq (code c) b'*'
    then star ∷ plain
    else if nat_eq (code c) b'?'
    then any_char ∷ plain
    else if nat_eq (code c) b'[' && closes "" s
    then in_set
    else exactly c ∷ plain

unfoldable pub tokens : String → List Token
unfolding scan closes set_token ranges
tokens pattern = scan none pattern

abbrev pub in_range : Char → Char × Char → Bool
in_range c (a, b) = leb (code a) (code c) && leb (code c) (code b)

-- One token that is not a star, at one character.
unfoldable pub accepts : Token → Char → Bool
accepts star c = false
accepts any_char c = true
accepts (exactly d) c = nat_eq (code d) (code c)
accepts (one_of true rs) c = not (any (in_range c) rs)
accepts (one_of false rs) c = any (in_range c) rs

unfoldable pub fits : List Token → String → Bool
fits [] String.[] = true
fits [] (String.◌∷◌ c s) = false
fits (star ∷ ts) String.[] = fits ts ""
fits (star ∷ ts) (String.◌∷◌ c s) = fits ts (String.◌∷◌ c s) || fits (star ∷ ts) s
fits (any_char ∷ ts) String.[] = false
fits (any_char ∷ ts) (String.◌∷◌ c s) = fits ts s
fits (exactly d ∷ ts) String.[] = false
fits (exactly d ∷ ts) (String.◌∷◌ c s) =
    let rest = fits ts s in if accepts (exactly d) c then rest else false
fits (one_of n rs ∷ ts) String.[] = false
fits (one_of n rs ∷ ts) (String.◌∷◌ c s) =
    let rest = fits ts s in if accepts (one_of n rs) c then rest else false

unfoldable pub fnmatch : String → String → Bool
fnmatch name pattern = fits (tokens pattern) name
