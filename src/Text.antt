-- ===== src/Text.antt =====
-- Python's `str` as its list of code points, with what the service calls on it: `==`, `strip`,
-- `lower`, `split` and slices. A set of strings is a list with `member`.
pub mod Equality
pub mod Numerals
pub mod Splitting
use Prim.Native.Char.{code}
use Prim.Native.String.{String}
use checkin_service.Base.{
  ℕ, zero, suc, ◌+◌, ◌-◌, is_some, ◌≡◌, Bool, true, false, not, ◌&&◌, ◌||◌, Option, none, some,
  List, [], ◌∷◌, ◌++◌, leb, ◌==◌, if◌then◌else◌,
}

abbrev pub Text : Type 0
Text = List ℕ

-- a literal
abbrev pub txt : String → Text
txt String.[] = []
txt (String.◌∷◌ c s) = code c ∷ txt s

-- `s.isascii()`
unfoldable pub is_ascii : Text → Bool
is_ascii [] = true
is_ascii (c ∷ s) = leb c 127 && is_ascii s

-- `s == t`
unfoldable pub text_eq : Text → Text → Bool
text_eq [] [] = true
text_eq [] (d ∷ t) = false
text_eq (c ∷ s) [] = false
text_eq (c ∷ s) (d ∷ t) = c == d && text_eq s t

-- `s in {…}`
unfoldable pub member : Text → List Text → Bool
unfolding text_eq
member s [] = false
member s (t ∷ ts) = text_eq s t || member s ts

-- `not s`
abbrev pub is_empty : Text → Bool
is_empty [] = true
is_empty (c ∷ s) = false

-- `not o`, of an optional string
abbrev pub is_falsy : Option Text → Bool
is_falsy none = true
is_falsy (some s) = is_empty s

-- `o or t`
abbrev pub or_else : Option Text → Text → Text
or_else none t = t
or_else (some s) t = if is_empty s then t else s

-- the code points that `str.strip` removes
unfoldable pub is_space : ℕ → Bool
is_space c =
    (leb 9 c && leb c 13)
    || (leb 28 c && leb c 32)
    || c == 133
    || c == 160
    || c == 5760
    || (leb 8192 c && leb c 8202)
    || c == 8232
    || c == 8233
    || c == 8239
    || c == 8287
    || c == 12288

unfoldable pub lstrip : Text → Text
lstrip [] = []
lstrip (c ∷ s) = let rest = lstrip s in if is_space c then rest else c ∷ s

unfoldable pub rstrip : Text → Text
rstrip [] = []
rstrip (c ∷ s) = let rest = rstrip s in if is_space c && is_empty rest then [] else c ∷ rest

unfoldable pub strip : Text → Text
unfolding lstrip rstrip
strip s = rstrip (lstrip s)

-- `str.lower` at one code point, as far as the result can be ASCII: the letters, and the Kelvin
-- sign. Every other code point is left alone.
unfoldable pub lower_char : ℕ → ℕ
lower_char c = if leb 65 c && leb c 90 then c + 32 else if c == 8490 then 107 else c

unfoldable pub lower : Text → Text
unfolding lower_char
lower [] = []
lower (c ∷ s) = lower_char c ∷ lower s

-- `str.upper` at one code point of Latin-1, as far as the result can be ASCII: the letters, and the
-- sharp s. Every other code point is left alone.
unfoldable pub upper_char : ℕ → Text
upper_char c =
    if leb 97 c && leb c 122 then (c - 32) ∷ [] else if c == 223 then 83 ∷ 83 ∷ [] else c ∷ []

unfoldable pub upper : Text → Text
unfolding upper_char
upper [] = []
upper (c ∷ s) = upper_char c ++ upper s

-- the first part of a split is longer by one character
unfoldable pub push : ℕ → List Text → List Text
push c [] = (c ∷ []) ∷ []
push c (p ∷ ps) = (c ∷ p) ∷ ps

-- `s.split(d)` at a delimiter of one character
unfoldable pub split : ℕ → Text → List Text
unfolding push
split d [] = [] ∷ []
split d (c ∷ s) = let rest = split d s in if c == d then [] ∷ rest else push c rest

-- `s[:n]`
abbrev pub take : ℕ → Text → Text
take zero s = []
take (suc n) [] = []
take (suc n) (c ∷ s) = c ∷ take n s

-- `s.startswith(p)`, and `s[len(p):]` of such a text
unfoldable pub after_prefix : Text → Text → Option Text
after_prefix [] s = some s
after_prefix (c ∷ p) [] = none
after_prefix (c ∷ p) (d ∷ s) = if c == d then after_prefix p s else none

-- `p in s`, of a text p
unfoldable pub contains : Text → Text → Bool
contains p [] = is_empty p
contains p (c ∷ s) = is_some (after_prefix p (c ∷ s)) || contains p s
