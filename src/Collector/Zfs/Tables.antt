-- ===== src/Collector/Zfs/Tables.antt =====
-- What the parsers of `zfs list` make of the tables that it prints.
use zfs_nas_dashboard.Prelude.{
  ◌≡◌, refl, ap, ◌∙◌, Bool, true, not, ◌&&◌, Option, none, some, List, [], ◌∷◌, ◌++◌, map, arith,
  ◌==◌, length, take, All,
}
use zfs_nas_dashboard.Go.Strings.{Text, codes, split, fields, index, trim_space}
use zfs_nas_dashboard.Go.Strings.Rows.{
  some_row, words_of, rows, is_word, all_words, rows-trim_space,
}
use zfs_nas_dashboard.Go.Strings.Table.{printed, IsTable, rows-printed, rows-spaced}
use zfs_nas_dashboard.Go.Strconv.{parse_int}
use zfs_nas_dashboard.Collector.Zfs.Arc.{Float64}
use zfs_nas_dashboard.Collector.Zfs.Lists.{
  Dataset, Snapshot, dataset_of, cons_some, each_line, parse_zfs_list, dataset_part, snapshot_of,
  parse_snapshots,
}

abbrev pub each_row {ℓ} : {A : Type ℓ} → (List Text → Option A) → List (List Text) → List A
each_row f [] = []
each_row f (r ∷ rs) = cons_some (f r) (each_row f rs)

pub each_line-rows {ℓ} :
    {A : Type ℓ} (f : List Text → Option A) (lines : List Text)
    → f [] ≡ none
    → each_line f lines ≡ each_row f (words_of lines)
unfolding each_line
each_line-rows f [] h = refl
each_line-rows f (line ∷ lines) h = step (fields line) (each_line-rows f lines h)
  where
    step :
        (ws : List Text)
        → each_line f lines ≡ each_row f (words_of lines)
        → cons_some (f ws) (each_line f lines) ≡ each_row f (some_row ws (words_of lines))
    step [] e = rw h e
    step (w ∷ ws) e = ap (cons_some (f (w ∷ ws))) e

-- The six columns of a dataset's row.
pub record DatasetRow : Type 0 where
  pub name : Text
  pub used : Text
  pub avail : Text
  pub refer : Text
  pub ratio : Text
  pub compression : Text

abbrev pub dataset_words : DatasetRow → List Text
dataset_words r = r.name ∷ r.used ∷ r.avail ∷ r.refer ∷ r.ratio ∷ r.compression ∷ []

abbrev pub read_dataset : (fl : Float64) → DatasetRow → Dataset fl.F
read_dataset fl r = record {
  name = r.name;
  used_bytes = (parse_int r.used).0;
  avail_bytes = (parse_int r.avail).0;
  refer_bytes = (parse_int r.refer).0;
  compress_ratio = fl.parse_float r.ratio;
  compression = r.compression;
}

datasets-IsTable :
    (rs : List DatasetRow)
    → All (λ r. all_words (dataset_words r) ≡ true) rs
    → IsTable (map dataset_words rs)
datasets-IsTable [] h = tt
datasets-IsTable (r ∷ rs) h = (ground arith, h.0, datasets-IsTable rs h.1)

each_row-datasets :
    (fl : Float64) (rs : List DatasetRow)
    → each_row (dataset_of fl) (map dataset_words rs) ≡ map (read_dataset fl) rs
unfolding dataset_of
each_row-datasets fl [] = refl
each_row-datasets fl (r ∷ rs) = ap (◌∷◌ (read_dataset fl r)) (each_row-datasets fl rs)

parse_zfs_list-rows :
    (fl : Float64) (output : Text)
    → parse_zfs_list fl output ≡ each_row (dataset_of fl) (rows output)
unfolding parse_zfs_list
parse_zfs_list-rows fl output =
    each_line-rows (dataset_of fl) (split b'\n' (trim_space output)) (unfold dataset_of in refl)
    ∙ ap (each_row (dataset_of fl)) (rows-trim_space output)

-- A table of `zfs list -Hp`, whose columns are words, is read row by row and column by column.
pub parse_zfs_list-printed :
    (fl : Float64) (rs : List DatasetRow)
    → All (λ r. all_words (dataset_words r) ≡ true) rs
    → parse_zfs_list fl (printed (map dataset_words rs)) ≡ map (read_dataset fl) rs
parse_zfs_list-printed fl rs h =
    parse_zfs_list-rows fl (printed (map dataset_words rs))
    ∙ ap (each_row (dataset_of fl)) (rows-printed (map dataset_words rs) (datasets-IsTable rs h))
    ∙ each_row-datasets fl rs

-- The bug: ZFS allows spaces in a dataset's name, and the columns are split at them too. The row
-- of a dataset with a name of two words is read under the first word, with every other column
-- moved by one.
pub parse_zfs_list-spaced_name :
    (fl : Float64) (word : Text) (r : DatasetRow)
    → is_word word ≡ true
    → all_words (dataset_words r) ≡ true
    → parse_zfs_list fl (word ++ b' ' ∷ printed (dataset_words r ∷ []))
      ≡ record {
        name = word;
        used_bytes = (parse_int r.name).0;
        avail_bytes = (parse_int r.used).0;
        refer_bytes = (parse_int r.avail).0;
        compress_ratio = fl.parse_float r.refer;
        compression = r.ratio;
      }
        ∷ []
unfolding dataset_of
parse_zfs_list-spaced_name fl word r h k =
    parse_zfs_list-rows fl (word ++ b' ' ∷ printed (dataset_words r ∷ []))
    ∙ ap (each_row (dataset_of fl)) (rows-spaced word (dataset_words r) h k)

-- The columns of a snapshot's row; its name is the dataset, "@" and the tag.
pub record SnapshotRow : Type 0 where
  pub dataset : Text
  pub tag : Text
  pub used : Text
  pub creation : Text

abbrev pub full_name : SnapshotRow → Text
full_name r = r.dataset ++ b'@' ∷ r.tag

abbrev pub snapshot_words : SnapshotRow → List Text
snapshot_words r = full_name r ∷ r.used ∷ r.creation ∷ []

abbrev pub read_snapshot : SnapshotRow → Snapshot
read_snapshot r = record {
  name = full_name r;
  dataset = r.dataset;
  creation = r.creation;
  used_bytes = (parse_int r.used).0;
}

abbrev pub no_at : Text → Bool
no_at [] = true
no_at (c ∷ s) = not (c == b'@') && no_at s

abbrev pub is_snapshot_row : SnapshotRow → Bool
is_snapshot_row r = no_at r.dataset && all_words (snapshot_words r)

index-at : (d t : Text) → no_at d ≡ true → index (d ++ b'@' ∷ t) (codes "@") ≡ some (length d)
unfolding index
index-at [] t h = ground arith
index-at (c ∷ d) t h = rw (index-at d t (ground arith)) (ground arith)

take-length : (d t : Text) → take (length d) (d ++ t) ≡ d
take-length [] t = refl
take-length (c ∷ d) t = ap (◌∷◌ c) (take-length d t)

dataset_part-at : (d t : Text) → no_at d ≡ true → dataset_part (d ++ b'@' ∷ t) ≡ d
unfolding dataset_part
dataset_part-at d t h = rw (index-at d t h, dataset_part) (take-length d (b'@' ∷ t))

snapshots-IsTable :
    (rs : List SnapshotRow)
    → All (λ r. is_snapshot_row r ≡ true) rs
    → IsTable (map snapshot_words rs)
snapshots-IsTable [] h = tt
snapshots-IsTable (r ∷ rs) h = (ground arith, ground (arith, h.0), snapshots-IsTable rs h.1)

each_row-snapshots :
    (rs : List SnapshotRow)
    → All (λ r. is_snapshot_row r ≡ true) rs
    → each_row snapshot_of (map snapshot_words rs) ≡ map read_snapshot rs
unfolding snapshot_of
each_row-snapshots [] h = refl
each_row-snapshots (r ∷ rs) h =
    rw (dataset_part-at r.dataset r.tag (ground (arith, h.0)))
      (ap (◌∷◌ (read_snapshot r)) (each_row-snapshots rs h.1))

-- The list of snapshots that `zfs list` prints, each a dataset without "@", "@" and a tag, is read
-- back in order: names, datasets, sizes and times of creation.
pub parse_snapshots-printed :
    (rs : List SnapshotRow)
    → All (λ r. is_snapshot_row r ≡ true) rs
    → parse_snapshots (printed (map snapshot_words rs)) ≡ map read_snapshot rs
unfolding parse_snapshots
parse_snapshots-printed rs h =
    let out = printed (map snapshot_words rs) in
    each_line-rows snapshot_of (split b'\n' (trim_space out)) (unfold snapshot_of in refl)
    ∙ ap (each_row snapshot_of) (rows-trim_space out)
    ∙ ap (each_row snapshot_of) (rows-printed (map snapshot_words rs) (snapshots-IsTable rs h))
    ∙ each_row-snapshots rs h
