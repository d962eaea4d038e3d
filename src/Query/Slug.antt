-- ===== src/Query/Slug.antt =====
-- `_slugify` of packages/query_engine/validator.py. Names are ASCII: only A to Z are lowered.
use Prim.Native.Char.{Char, code}
use net_graphy.Prelude.{
  String, ◌<>◌, ◌≡◌, refl, Bool, true, false, not, ◌&&◌, ◌||◌, leb, nat_eq, if◌then◌else◌,
}

is_upper : Char → Bool
is_upper c = leb b'A' (code c) && leb (code c) b'Z'

is_lower : Char → Bool
is_lower c = leb b'a' (code c) && leb (code c) b'z'

is_lower_or_digit : Char → Bool
unfolding is_lower
is_lower_or_digit c = is_lower c || (leb b'0' (code c) && leb (code c) b'9')

lowered : String → String → Char → Char
lowered (String.◌∷◌ u us) (String.◌∷◌ l ls) c =
    let rest = lowered us ls c in if nat_eq (code u) (code c) then l else rest
lowered _ _ c = c

lower : String → String
lower String.[] = ""
lower (String.◌∷◌ c s) =
    String.◌∷◌ (lowered "ABCDEFGHIJKLMNOPQRSTUVWXYZ" "abcdefghijklmnopqrstuvwxyz" c) (lower s)

-- re.sub(r"(.)([A-Z][a-z]+)", r"\1_\2", name); the flag is set inside the run `[a-z]+` of a match.
words : Bool → String → String
words run (String.◌∷◌ c (String.◌∷◌ u (String.◌∷◌ l s))) =
    let in_run = String.◌∷◌ c (words true (String.◌∷◌ u (String.◌∷◌ l s))) in
    let matched = String.◌∷◌ c ("_" <> String.◌∷◌ u (String.◌∷◌ l (words true s))) in
    let onward = String.◌∷◌ c (words false (String.◌∷◌ u (String.◌∷◌ l s))) in
    if run && is_lower c
    then in_run
    else if not (nat_eq (code c) 10) && (is_upper u && is_lower l)
    then matched
    else onward
words run s = s

-- re.sub(r"([a-z0-9])([A-Z])", r"\1_\2", s1)
boundaries : String → String
boundaries (String.◌∷◌ c (String.◌∷◌ u s)) =
    let matched = String.◌∷◌ c ("_" <> String.◌∷◌ u (boundaries s)) in
    let onward = String.◌∷◌ c (boundaries (String.◌∷◌ u s)) in
    if is_lower_or_digit c && is_upper u then matched else onward
boundaries s = s

unfoldable pub slugify : String → String
unfolding lower lowered words boundaries is_upper is_lower is_lower_or_digit
slugify name = lower (boundaries (words false name))

slugify_upper : slugify "LOCATED_AT" ≡ "located_at"
unfolding slugify
slugify_upper = refl

slugify_pascal : slugify "HTTPServerHasIPv4Link2Port" ≡ "http_server_has_i_pv4_link2_port"
unfolding slugify
slugify_pascal = refl
