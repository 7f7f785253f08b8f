-- ===== src/Collector/Zfs/ArcValues.antt =====
-- Which values of arcstats count, and what the status says of the hit rate.
use zfs_nas_dashboard.Prelude.{
  ◌≡◌, refl, ap, ◌∙◌, ◌↔◌, Bool, true, false, Option, none, some, List, [], ◌∷◌, arith, ℤ, pos,
}
use zfs_nas_dashboard.Go.Strings.{Text, codes, text_eq, split, fields}
use zfs_nas_dashboard.Go.Strconv.{NumError, parse_int}
use zfs_nas_dashboard.Go.Map.{text_keys, insert, lookup, lookup-insert, get_or_zero}
use zfs_nas_dashboard.Collector.Smart.{green, red}
use zfs_nas_dashboard.Collector.Smart.Attributes.{later_or, later_or-none}
use zfs_nas_dashboard.Collector.Zfs.Arc.{
  Float64, scan_tokens, put_value, add_value, add_values, arc_values, value_at, hit_rate,
  hit_status, parse_arc,
}

abbrev given : Bool → ℤ → Option NumError → Option ℤ
given false v e = none
given true v none = some v
given true v (some _) = none

-- The value that a line has for `key`: it has three fields, of which the first is the key and the
-- last an integer.
abbrev pub value_in : Text → List Text → Option ℤ
value_in key (k ∷ _ ∷ v ∷ []) = given (text_eq k key) (parse_int v).0 (parse_int v).1
value_in key _ = none

abbrev pub last_value : Text → List Text → Option ℤ
last_value key [] = none
last_value key (line ∷ lines) = later_or (last_value key lines) (value_in key (fields line))

lookup-put_value :
    (key k : Text) (v : ℤ) (e : Option NumError) (m : List (Text × ℤ))
    → lookup key (put_value k (v, e) m) ≡ later_or (given (text_eq k key) v e) (lookup key m)
unfolding put_value lookup insert
lookup-put_value key k v none m = lookup-insert k key v m ∙ ground arith
lookup-put_value key k v (some e) m = ground arith

lookup-add_value :
    (key : Text) (fs : List Text) (m : List (Text × ℤ))
    → lookup key (add_value m fs) ≡ later_or (value_in key fs) (lookup key m)
unfolding add_value
lookup-add_value key (k ∷ x ∷ v ∷ []) m = lookup-put_value key k (parse_int v).0 (parse_int v).1 m
lookup-add_value key [] m = refl
lookup-add_value key (_ ∷ []) m = refl
lookup-add_value key (_ ∷ _ ∷ []) m = refl
lookup-add_value key (_ ∷ _ ∷ _ ∷ _ ∷ fs) m = refl

lookup-add_values :
    (key : Text) (lines : List Text) (m : List (Text × ℤ))
    → lookup key (add_values m lines) ≡ later_or (last_value key lines) (lookup key m)
unfolding add_values
lookup-add_values key [] m = refl
lookup-add_values key (line ∷ lines) m =
    lookup-add_values key lines (add_value m (fields line))
    ∙ rw (lookup-add_value key (fields line) m) (ground arith)

abbrev pub last_or_zero : Text → Text → ℤ
last_or_zero out key = get_or_zero (pos 0) (last_value key (scan_tokens (split b'\n' out)))

value_at-last : (out key : Text) → value_at out key ≡ last_or_zero out key
unfolding value_at arc_values lookup
value_at-last out key = ap (get_or_zero (pos 0)) (
    lookup-add_values key (scan_tokens (split b'\n' out)) []
    ∙ later_or-none (last_value key (scan_tokens (split b'\n' out))))

-- Size, limit, hits and misses are the values of the last line that has three fields, the name
-- first and an integer last, or zero if there is none. The status is green exactly from a rate of
-- 0.80 on and red exactly below 0.50, provided that a float which is at least 0.80 is at least 0.50.
pub parse_arc-last_value :
    (fl : Float64) (out : Text)
    → ((x : fl.F) → fl.ge x fl.four_fifths ≡ true → fl.ge x fl.one_half ≡ true)
    → let arc = parse_arc fl out in
      (arc.size_bytes ≡ last_or_zero out (codes "size"))
      × (arc.max_bytes ≡ last_or_zero out (codes "c_max"))
      × (arc.hit_rate
          ≡ hit_rate fl (last_or_zero out (codes "hits")) (last_or_zero out (codes "misses")))
      × ((arc.status ≡ green) ↔ (fl.ge arc.hit_rate fl.four_fifths ≡ true))
      × ((arc.status ≡ red) ↔ (fl.ge arc.hit_rate fl.one_half ≡ false))
unfolding parse_arc
parse_arc-last_value fl out mono =
    let rate = hit_rate fl (value_at out (codes "hits")) (value_at out (codes "misses")) in
    (
      value_at-last out (codes "size"),
      value_at-last out (codes "c_max"),
      rw (value_at-last out (codes "hits"), value_at-last out (codes "misses")),
      (unfold hit_status in ground arith),
      (unfold hit_status in ground (arith, mono rate)),
    )
