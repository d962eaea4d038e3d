-- ===== src/Prelude/Spaces.antt =====
-- White space and the ends of lines of a text, as Python's `str` has them.
use Prim.Native.Char.{Char, code}
use net_graphy.Prelude.{
  ℕ, ◌+◌, String, ◌≡◌, refl, Bool, true, false, ◌||◌, ◌&&◌, List, [], ◌∷◌, if◌then◌else◌, leb,
  nat_eq,
}

-- `c.isspace()`, and `\s` of a pattern.
unfoldable pub is_space : Char → Bool
is_space c =
    let n = code c in
    (leb 9 n && leb n 13)
    || ((leb 28 n && leb n 32)
        || (nat_eq n 133
            || (nat_eq n 160
                || (nat_eq n 5760
                    || ((leb 8192 n && leb n 8202)
                        || (nat_eq n 8232
                            || (nat_eq n 8233
                                || (nat_eq n 8239 || (nat_eq n 8287 || nat_eq n 12288)))))))))

-- `s.lstrip()`
unfoldable pub lstrip : String → String
lstrip String.[] = ""
lstrip (String.◌∷◌ c s) = let rest = lstrip s in if is_space c then rest else String.◌∷◌ c s

-- Whether nothing but white space follows.
unfoldable pub all_space : String → Bool
all_space String.[] = true
all_space (String.◌∷◌ c s) = is_space c && all_space s

-- `s.rstrip()`
unfoldable pub rstrip : String → String
rstrip String.[] = ""
rstrip (String.◌∷◌ c s) =
    let rest = String.◌∷◌ c (rstrip s) in if is_space c && all_space s then "" else rest

-- `s.strip()`
unfoldable pub strip : String → String
strip s = rstrip (lstrip s)

-- len(s)
unfoldable pub text_length : String → ℕ
text_length String.[] = 0
text_length (String.◌∷◌ c s) = text_length s + 1

-- The characters at which `splitlines` ends a line. A carriage return and a line feed are one end.
unfoldable pub ends_line : Char → Bool
ends_line c =
    let n = code c in
    (leb 10 n && leb n 13)
    || ((leb 28 n && leb n 30) || (nat_eq n 133 || (nat_eq n 8232 || nat_eq n 8233)))

-- Puts a character before the first of the lines that follow.
abbrev onto_line : Char → List String → List String
onto_line c [] = String.◌∷◌ c String.[] ∷ []
onto_line c (l ∷ ls) = String.◌∷◌ c l ∷ ls

-- The lines of what follows, where `fresh` says that a line has ended just before, and `returned`
-- that it has ended at a carriage return.
unfoldable pub lines_from : Bool → Bool → String → List String
lines_from fresh returned String.[] = if fresh then [] else "" ∷ []
lines_from fresh returned (String.◌∷◌ c s) =
    let skipped = lines_from true false s in
    let ended = "" ∷ lines_from true (nat_eq (code c) 13) s in
    let onward = onto_line c (lines_from false false s) in
    if returned && nat_eq (code c) 10 then skipped else if ends_line c then ended else onward

-- `s.splitlines()`
unfoldable pub splitlines : String → List String
splitlines s = lines_from true false s

splitlines_mixed : splitlines "a\r\nb\n\nc" ≡ "a" ∷ "b" ∷ "" ∷ "c" ∷ []
unfolding splitlines lines_from ends_line
splitlines_mixed = refl

splitlines_last : splitlines "a\n" ≡ "a" ∷ []
unfolding splitlines lines_from ends_line
splitlines_last = refl
