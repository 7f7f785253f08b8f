-- ===== src/Go/Strconv.antt =====
-- `strconv.ParseInt(s, 10, 64)` and `strconv.Atoi`, which agree where an int has 64 bits. Both
-- return a value beside an error: 0 on bad syntax, the nearest int64 when out of range. Where
-- the program discards the error, that value is what it goes on with.
pub mod Digits
use zfs_nas_dashboard.Prelude.{
  ℕ, zero, suc, ◌+◌, ◌-◌, ◌*◌, ◌/◌, ◌%◌, ◌^◌, ◌++◌, Bool, true, false, not, ◌&&◌, [], ◌∷◌, Option,
  none, some, arith, ltb, leb, ◌==◌, if◌then◌else◌, ℤ, pos, negsuc, sub_ℕ, IsInt64,
}
use zfs_nas_dashboard.Go.Strings.{Text}

pub data NumError : Type 0 where
  syntax out_of_range : NumError

unfoldable pub is_digit : ℕ → Bool
is_digit c = leb b'0' c && leb c b'9'

abbrev max_uint64 : ℕ
max_uint64 = 2 ^ 64 - 1

-- The loop of `ParseUint`: an overflow ends it before the characters behind are looked at.
parse_digits : ℕ → Text → ℕ × Option NumError
unfolding is_digit
parse_digits n [] = (n, none)
parse_digits n (c ∷ s) =
    if not (is_digit c)
    then (0, some syntax)
    else if ltb max_uint64 (n * 10 + (c - b'0'))
    then (max_uint64, some out_of_range)
    else parse_digits (n * 10 + (c - b'0')) s

parse_uint : Text → ℕ × Option NumError
unfolding parse_digits
parse_uint [] = (0, some syntax)
parse_uint (c ∷ s) = parse_digits 0 (c ∷ s)

-- The end of `ParseInt`, on the sign and what `ParseUint` returned.
signed : Bool → ℕ → Option NumError → ℤ × Option NumError
signed neg un (some syntax) = (pos 0, some syntax)
signed false un _ =
    if leb (2 ^ 63) un then (pos (2 ^ 63 - 1), some out_of_range) else (pos un, none)
signed true un _ =
    if ltb (2 ^ 63) un then (negsuc (2 ^ 63 - 1), some out_of_range) else (sub_ℕ 0 un, none)

unfoldable pub parse_int : Text → ℤ × Option NumError
unfolding parse_uint signed
parse_int [] = (pos 0, some syntax)
parse_int (c ∷ s) =
    let plain = parse_uint (c ∷ s) in
    let rest = parse_uint s in
    if c == b'+'
    then signed false rest.0 rest.1
    else if c == b'-'
    then signed true rest.0 rest.1
    else signed false plain.0 plain.1

unfoldable pub atoi : Text → ℤ × Option NumError
unfolding parse_int
atoi s = parse_int s

signed-IsInt64 : (neg : Bool) (un : ℕ) (e : Option NumError) → IsInt64 (signed neg un e).0
unfolding signed
signed-IsInt64 neg un e = ground arith

-- Whatever the text, the value is an int64.
pub parse_int-IsInt64 : (s : Text) → IsInt64 (parse_int s).0
unfolding parse_int
parse_int-IsInt64 [] = (omega arith, omega arith)
parse_int-IsInt64 (c ∷ s) = ground (
  arith,
  signed-IsInt64 false (parse_uint s).0 (parse_uint s).1,
  signed-IsInt64 true (parse_uint s).0 (parse_uint s).1,
  signed-IsInt64 false (parse_uint (c ∷ s)).0 (parse_uint (c ∷ s)).1,
)

-- The decimal digits, with more fuel than there are.
digits_within : ℕ → ℕ → Text
digits_within zero n = []
digits_within (suc fuel) n =
    let more = digits_within fuel (n / 10) ++ (b'0' + n % 10) ∷ [] in
    if ltb n 10 then (b'0' + n) ∷ [] else more

-- `strconv.Itoa`.
unfoldable pub itoa : ℤ → Text
unfolding digits_within
itoa (pos n) = digits_within (suc n) n
itoa (negsuc n) = b'-' ∷ digits_within (suc (suc n)) (suc n)
