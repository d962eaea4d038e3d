-- ===== src/Schema/Formats.antt =====
-- The patterns of packages/schema_engine/registry.py for MAC addresses, emails and URLs. Each is
-- deterministic, so it is read from the left without going back; `$` stands before a last line feed too.
use Prim.Native.Char.{Char, code}
use net_graphy.Prelude.{
  ℕ, zero, suc, String, ◌≡◌, refl, Bool, true, false, not, ◌&&◌, ◌||◌, Option, none, some, leb,
  nat_eq, ◌==◌, starts_with, if◌then◌else◌,
}
use net_graphy.Prelude.Spaces.{is_space}

abbrev at_end : String → Bool
at_end s = s == "" || s == "\n"

within : ℕ → ℕ → Char → Bool
within lo hi c = leb lo (code c) && leb (code c) hi

is_digit : Char → Bool
unfolding within
is_digit = within b'0' b'9'

is_alphanumeric : Char → Bool
unfolding within is_digit
is_alphanumeric c = is_digit c || (within b'a' b'z' c || within b'A' b'Z' c)

is_hex : Char → Bool
unfolding within is_digit
is_hex c = is_digit c || (within b'a' b'f' c || within b'A' b'F' c)

drop_separator : String → String
drop_separator String.[] = ""
drop_separator (String.◌∷◌ c s) =
    if nat_eq (code c) b':' || (nat_eq (code c) b'-' || nat_eq (code c) b'.')
    then s
    else String.◌∷◌ c s

-- ([0-9a-fA-F]{2}[:\-.]?){n}[0-9a-fA-F]{2}$
paired : ℕ → String → Bool
unfolding is_hex drop_separator
paired zero (String.◌∷◌ c (String.◌∷◌ d s)) = is_hex c && (is_hex d && at_end s)
paired (suc n) (String.◌∷◌ c (String.◌∷◌ d s)) =
    let rest = paired n (drop_separator s) in if is_hex c && is_hex d then rest else false
paired _ _ = false

-- What follows n hexadecimal digits.
after_hex : ℕ → String → Option String
unfolding is_hex
after_hex zero s = some s
after_hex (suc n) String.[] = none
after_hex (suc n) (String.◌∷◌ c s) = let rest = after_hex n s in if is_hex c then rest else none

after_dot : Option String → Option String
after_dot (some (String.◌∷◌ c s)) = if nat_eq (code c) b'.' then some s else none
after_dot _ = none

four_hex : Option String → Option String
unfolding after_hex
four_hex none = none
four_hex (some s) = after_hex 4 s

ended : Option String → Bool
ended none = false
ended (some s) = at_end s

-- `_MAC_RE`
unfoldable pub is_mac : String → Bool
unfolding paired four_hex after_dot ended
is_mac s = paired 5 s || ended (four_hex (after_dot (four_hex (after_dot (four_hex (some s))))))

-- What a class of characters takes, as far as it goes: whether it takes any, and what follows.
run_of : (Char → Bool) → String → Bool × String
run_of p String.[] = (false, "")
run_of p (String.◌∷◌ c s) =
    let (any, rest) = run_of p s in if p c then (true, rest) else (false, String.◌∷◌ c s)

is_local : Char → Bool
unfolding is_alphanumeric
is_local c =
    is_alphanumeric c
    || (nat_eq (code c) b'_'
        || (nat_eq (code c) b'.' || (nat_eq (code c) b'+' || nat_eq (code c) b'-')))

is_host : Char → Bool
unfolding is_alphanumeric
is_host c = is_alphanumeric c || nat_eq (code c) b'-'

is_domain : Char → Bool
unfolding is_host
is_domain c = is_host c || nat_eq (code c) b'.'

-- A run of the class, then the character, then what the test takes.
run_then : (Char → Bool) → ℕ → (String → Bool) → String → Bool
unfolding run_of
run_then p sep test s = let (any, rest) = run_of p s in any && behind rest
  where
    behind : String → Bool
    behind String.[] = false
    behind (String.◌∷◌ c t) = nat_eq (code c) sep && test t

run_to_end : (Char → Bool) → String → Bool
unfolding run_of
run_to_end p s = let (any, rest) = run_of p s in any && at_end rest

-- `_EMAIL_RE`
unfoldable pub is_email : String → Bool
unfolding run_then run_to_end is_local is_host is_domain
is_email = run_then is_local b'@' (run_then is_host b'.' (run_to_end is_domain))

drop_text : String → String → String
drop_text String.[] s = s
drop_text (String.◌∷◌ d p) String.[] = ""
drop_text (String.◌∷◌ d p) (String.◌∷◌ c s) = drop_text p s

-- `_URL_RE`
unfoldable pub is_url : String → Bool
unfolding run_to_end drop_text
is_url s =
    let solid = run_to_end (λ c. not (is_space c)) in
    if starts_with s "http://"
    then solid (drop_text "http://" s)
    else starts_with s "https://" && solid (drop_text "https://" s)

macs :
    (is_mac "00:1a:2B:3c:4d:5e" && (is_mac "001a.2b3c.4d5e" && not (is_mac "00:1a:2b:3c:4d")))
    ≡ true
unfolding is_mac
macs = refl

emails : (is_email "noc@example.org" && not (is_email "noc@example")) ≡ true
unfolding is_email
emails = refl

urls : (is_url "https://example.org/x" && not (is_url "https://a b")) ≡ true
unfolding is_url starts_with is_space
urls = refl
