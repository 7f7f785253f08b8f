-- ===== src/Collector/Zfs/Lists.antt =====
-- `parseZFSList` and `parseSnapshots`: the rows of `zfs list -Hp`.
use zfs_nas_dashboard.Prelude.{ℕ, Option, none, some, List, [], ◌∷◌, take, ℤ}
use zfs_nas_dashboard.Go.Strings.{Text, codes, trim_space, split, fields, index}
use zfs_nas_dashboard.Go.Strconv.{parse_int}
use zfs_nas_dashboard.Collector.Zfs.Arc.{Float64}

pub record Dataset (F : Type 0) : Type 0 where
  pub name : Text
  pub used_bytes : ℤ
  pub avail_bytes : ℤ
  pub refer_bytes : ℤ
  pub compress_ratio : F
  pub compression : Text

pub record Snapshot : Type 0 where
  pub name : Text
  pub dataset : Text
  pub creation : Text
  pub used_bytes : ℤ

-- A line with fewer than six fields is skipped.
unfoldable pub dataset_of : (fl : Float64) → List Text → Option (Dataset fl.F)
dataset_of fl (name ∷ used ∷ avail ∷ refer ∷ ratio ∷ compression ∷ _) = some (record {
  name = name;
  used_bytes = (parse_int used).0;
  avail_bytes = (parse_int avail).0;
  refer_bytes = (parse_int refer).0;
  compress_ratio = fl.parse_float ratio;
  compression = compression;
})
dataset_of fl _ = none

-- A loop that appends what each line gives.
abbrev pub cons_some {ℓ} : {A : Type ℓ} → Option A → List A → List A
cons_some none xs = xs
cons_some (some x) xs = x ∷ xs

unfoldable pub each_line {ℓ} : {A : Type ℓ} → (List Text → Option A) → List Text → List A
each_line f [] = []
each_line f (line ∷ lines) = cons_some (f (fields line)) (each_line f lines)

unfoldable pub parse_zfs_list : (fl : Float64) → Text → List (Dataset fl.F)
parse_zfs_list fl output = each_line (dataset_of fl) (split b'\n' (trim_space output))

-- The part before the "@".
pub cut_at : Text → Option ℕ → Text
cut_at name none = name
cut_at name (some idx) = take idx name

unfoldable pub dataset_part : Text → Text
unfolding cut_at
dataset_part name = cut_at name (index name (codes "@"))

unfoldable pub snapshot_of : List Text → Option Snapshot
snapshot_of (name ∷ used ∷ creation ∷ _) = some (record {
  name = name;
  dataset = dataset_part name;
  creation = creation;
  used_bytes = (parse_int used).0;
})
snapshot_of _ = none

unfoldable pub parse_snapshots : Text → List Snapshot
parse_snapshots output = each_line snapshot_of (split b'\n' (trim_space output))
