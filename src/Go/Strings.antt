-- ===== src/Go/Strings.antt =====
-- Go strings and the functions of package `strings` that the collectors call. A string is the
-- list of its code points. It stands for its UTF-8 encoding: every separator and prefix that the
-- program looks for is ASCII, so no search or cut falls inside an encoded character, and bytewise
-- order is the order of code points.
pub mod Laws
pub mod Rows
pub mod Table
use Prim.Native.Char.{code}
use Prim.Native.String.{String}
use zfs_nas_dashboard.Prelude.{
  ℕ, suc, ◌+◌, Bool, true, false, not, ◌&&◌, ◌||◌, List, [], ◌∷◌, ◌++◌, Option, none, some, ltb,
  leb, ◌==◌, if◌then◌else◌, drop, length,
}

abbrev pub Text : Type 0
Text = List ℕ

-- The code points of a literal.
abbrev pub codes : String → Text
codes String.[] = []
codes (String.◌∷◌ c s) = code c ∷ codes s

-- `unicode.IsSpace`.
unfoldable pub is_space : ℕ → Bool
is_space c =
    leb 0x09 c && leb c 0x0d
    || c == 0x20
    || c == 0x85
    || c == 0xa0
    || c == 0x1680
    || leb 0x2000 c && leb c 0x200a
    || c == 0x2028
    || c == 0x2029
    || c == 0x202f
    || c == 0x205f
    || c == 0x3000

-- `a == b`.
unfoldable pub text_eq : Text → Text → Bool
text_eq [] [] = true
text_eq (a ∷ x) (b ∷ y) = a == b && text_eq x y
text_eq _ _ = false

-- `a < b`.
unfoldable pub text_lt : Text → Text → Bool
text_lt x [] = false
text_lt [] (b ∷ y) = true
text_lt (a ∷ x) (b ∷ y) = ltb a b || a == b && text_lt x y

unfoldable pub has_prefix : Text → Text → Bool
has_prefix s [] = true
has_prefix [] (p ∷ ps) = false
has_prefix (c ∷ s) (p ∷ ps) = c == p && has_prefix s ps

unfoldable pub trim_prefix : Text → Text → Text
unfolding has_prefix
trim_prefix s p = if has_prefix s p then drop (length p) s else s

pub trim_left : Text → Text
trim_left [] = []
trim_left (c ∷ s) = if is_space c then trim_left s else c ∷ s

-- Puts `c` in front of the trimmed rest, unless it is a space at the end.
pub cons_trimmed : ℕ → Text → Text
cons_trimmed c [] = if is_space c then [] else c ∷ []
cons_trimmed c (d ∷ s) = c ∷ d ∷ s

pub trim_right : Text → Text
trim_right [] = []
trim_right (c ∷ s) = cons_trimmed c (trim_right s)

unfoldable pub trim_space : Text → Text
unfolding trim_left trim_right cons_trimmed is_space
trim_space s = trim_right (trim_left s)

-- Puts `c` in front of the first word.
abbrev pub extend : ℕ → List Text → List Text
extend c [] = (c ∷ []) ∷ []
extend c (w ∷ ws) = (c ∷ w) ∷ ws

-- `strings.Split` at a separator of one character: one part more than separators.
unfoldable pub split : ℕ → Text → List Text
split sep [] = [] ∷ []
split sep (c ∷ s) = let rest = split sep s in if c == sep then [] ∷ rest else extend c rest

abbrev pub opens_word : Text → Bool
opens_word [] = false
opens_word (c ∷ _) = not (is_space c)

-- `strings.Fields`: the maximal runs of characters that are no spaces.
unfoldable pub fields : Text → List Text
unfolding is_space
fields [] = []
fields (c ∷ s) =
    let rest = fields s in
    if is_space c then rest else if opens_word s then extend c rest else (c ∷ []) ∷ rest

after_first : Option ℕ → Option ℕ
after_first none = none
after_first (some i) = some (suc i)

-- `strings.Index`: where `sub` begins first.
unfoldable pub index : Text → Text → Option ℕ
unfolding has_prefix after_first
index [] sub = if has_prefix [] sub then some 0 else none
index (c ∷ s) sub = if has_prefix (c ∷ s) sub then some 0 else after_first (index s sub)

unfoldable pub contains : Text → Text → Bool
unfolding has_prefix
contains [] sub = has_prefix [] sub
contains (c ∷ s) sub = has_prefix (c ∷ s) sub || contains s sub

unfoldable pub or_here : Bool → Option ℕ → Option ℕ
or_here here (some i) = some (suc i)
or_here here none = if here then some 0 else none

-- `strings.LastIndex`: where `sub` begins last.
unfoldable pub last_index : Text → Text → Option ℕ
unfolding has_prefix or_here
last_index [] sub = if has_prefix [] sub then some 0 else none
last_index (c ∷ s) sub = or_here (has_prefix (c ∷ s) sub) (last_index s sub)

-- `strings.Join(parts, " ")`.
unfoldable pub join_spaces : List Text → Text
join_spaces [] = []
join_spaces (w ∷ []) = w
join_spaces (w ∷ v ∷ ws) = w ++ b' ' ∷ join_spaces (v ∷ ws)
