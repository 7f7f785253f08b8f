-- ===== src/Collector/Zfs/Arc.antt =====
-- `parseARC`: the kernel's arcstats, and the floats that it computes with.
use zfs_nas_dashboard.Prelude.{
  ℕ, ◌+◌, Bool, Option, none, some, List, [], ◌∷◌, ltb, if◌then◌else◌, ℤ, pos, ◌+ℤ◌, ltb_ℤ, wrap64,
}
use zfs_nas_dashboard.Go.Strings.{Text, codes, split, fields}
use zfs_nas_dashboard.Go.Strconv.{NumError, parse_int}
use zfs_nas_dashboard.Go.Map.{text_keys, insert, lookup, get_or_zero}
use zfs_nas_dashboard.Collector.Smart.{Status, no_status, green, amber, red}

-- A float64: the value of `strconv.ParseFloat` with its error discarded, conversion from int64,
-- division, `>=`, and the three literals of the code.
pub record Float64 : Type 1 where
  pub F : Type 0
  pub parse_float : Text → F
  pub of_int64 : ℤ → F
  pub div : F → F → F
  pub ge : F → F → Bool
  pub zero_float : F
  pub four_fifths : F
  pub one_half : F

pub record ArcStats (F : Type 0) : Type 0 where
  pub hit_rate : F
  pub size_bytes : ℤ
  pub max_bytes : ℤ
  pub status : Status

abbrev pub empty_arc : (fl : Float64) → ArcStats fl.F
empty_arc fl = record {
  hit_rate = fl.zero_float;
  size_bytes = pos 0;
  max_bytes = pos 0;
  status = no_status;
}

-- The bytes of a text.
byte_count : Text → ℕ
byte_count [] = 0
byte_count (c ∷ s) =
    (if ltb c 0x80 then 1 else if ltb c 0x800 then 2 else if ltb c 0x10000 then 3 else 4)
    + byte_count s

-- `bufio.Scanner`: it stops at the first line that does not fit its buffer of 65536 bytes.
unfoldable pub scan_tokens : List Text → List Text
unfolding byte_count
scan_tokens [] = []
scan_tokens (line ∷ lines) =
    let rest = scan_tokens lines in if ltb (byte_count line) 65536 then line ∷ rest else []

unfoldable pub put_value : Text → ℤ × Option NumError → List (Text × ℤ) → List (Text × ℤ)
put_value key (v, none) values = insert key v values
put_value key (v, some _) values = values

-- One line: three fields of which the last is an integer.
unfoldable pub add_value : List (Text × ℤ) → List Text → List (Text × ℤ)
unfolding put_value
add_value values (key ∷ _ ∷ v ∷ []) = put_value key (parse_int v) values
add_value values _ = values

unfoldable pub add_values : List (Text × ℤ) → List Text → List (Text × ℤ)
add_values values [] = values
add_values values (line ∷ lines) = add_values (add_value values (fields line)) lines

unfoldable pub arc_values : Text → List (Text × ℤ)
arc_values out = add_values [] (scan_tokens (split b'\n' out))

unfoldable pub value_at : Text → Text → ℤ
value_at out key = get_or_zero (pos 0) (lookup key (arc_values out))

unfoldable pub hit_rate : (fl : Float64) → ℤ → ℤ → fl.F
hit_rate fl hits misses =
    let total = wrap64 (hits +ℤ misses) in
    if ltb_ℤ (pos 0) total then fl.div (fl.of_int64 hits) (fl.of_int64 total) else fl.zero_float

unfoldable pub hit_status : (fl : Float64) → fl.F → Status
hit_status fl rate =
    if fl.ge rate fl.four_fifths then green else if fl.ge rate fl.one_half then amber else red

unfoldable pub parse_arc : (fl : Float64) → Text → ArcStats fl.F
parse_arc fl out =
    let rate = hit_rate fl (value_at out (codes "hits")) (value_at out (codes "misses")) in
    record {
      hit_rate = rate;
      size_bytes = value_at out (codes "size");
      max_bytes = value_at out (codes "c_max");
      status = hit_status fl rate;
    }
