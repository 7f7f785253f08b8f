-- ===== src/Collector/Smart/Attributes.antt =====
-- internal/collector/smart.go: which entry of smartctl's table of attributes counts.
use zfs_nas_dashboard.Prelude.{
  ◌≡◌, refl, ◌∙◌, Option, none, some, List, [], ◌∷◌, arith, if◌then◌else◌, ℤ, pos, eqb_ℤ,
}
use zfs_nas_dashboard.Go.Strings.{Text}
use zfs_nas_dashboard.Go.Map.{int_keys, lookup, insert, lookup-insert, get_or_zero}
use zfs_nas_dashboard.Config.{Config}
use zfs_nas_dashboard.Collector.Smart.{
  DiskInfo, SmartctlAttrJson, SmartctlAttrsJson, SmartctlJson, fill_attr_map, reported, or_else,
  parse_attributes,
}

-- The raw value of an attribute: that of its last entry in the table.
abbrev pub later_or : Option ℤ → Option ℤ → Option ℤ
later_or (some v) w = some v
later_or none w = w

abbrev pub last_raw : ℤ → List SmartctlAttrJson → Option ℤ
last_raw id [] = none
last_raw id (a ∷ table) =
    later_or (last_raw id table) (if eqb_ℤ a.id id then some a.raw_value else none)

pub lookup-fill_attr_map :
    (id : ℤ) (table : List SmartctlAttrJson) (m : List (ℤ × ℤ))
    → lookup id (fill_attr_map m table) ≡ later_or (last_raw id table) (lookup id m)
unfolding fill_attr_map
lookup-fill_attr_map id [] m = refl
lookup-fill_attr_map id (a ∷ table) m =
    lookup-fill_attr_map id table (insert a.id a.raw_value m)
    ∙ ground (arith, lookup-insert a.id id a.raw_value m)

pub later_or-none : (o : Option ℤ) → later_or o none ≡ o
later_or-none none = refl
later_or-none (some v) = refl

attr_map-last_raw :
    (id : ℤ) (table : List SmartctlAttrJson)
    → lookup id (fill_attr_map [] table) ≡ last_raw id table
unfolding lookup
attr_map-last_raw id table = lookup-fill_attr_map id table [] ∙ later_or-none (last_raw id table)

-- On a table that decodes, the last entry of each attribute counts: the temperature is attribute
-- 194 if positive, else 190 if positive, else absent; the counters are 5, 197, 198 and 9, or zero.
pub parse_attributes-last_raw :
    (json : SmartctlJson) (out : Text) (cfg : Config) (info : DiskInfo) (v : SmartctlAttrsJson)
    → json.attributes out ≡ some v
    → info.celsius ≡ none
    → let info' = parse_attributes json out cfg info in
      (info'.celsius
        ≡ or_else (reported (last_raw (pos 194) v.table)) (reported (last_raw (pos 190) v.table)))
      × (info'.realloc_sectors ≡ get_or_zero (pos 0) (last_raw (pos 5) v.table))
      × (info'.pending_sectors ≡ get_or_zero (pos 0) (last_raw (pos 197) v.table))
      × (info'.uncorr_errors ≡ get_or_zero (pos 0) (last_raw (pos 198) v.table))
      × (info'.power_on_hours ≡ get_or_zero (pos 0) (last_raw (pos 9) v.table))
unfolding parse_attributes
parse_attributes-last_raw json out cfg info v e n =
    let at = λ (id : ℤ). attr_map-last_raw id v.table in
    rw
      (
        e,
        parse_attributes,
        at (pos 194),
        at (pos 190),
        at (pos 5),
        at (pos 197),
        at (pos 198),
        at (pos 9),
        n,
      )
      (ground arith, refl, refl, refl, refl)
