-- ===== src/Collector/Zfs/Report.antt =====
-- A whole report of `zpool status`.
use zfs_nas_dashboard.Prelude.{
  ◌≡◌, refl, sym, ap, ◌∙◌, Bool, true, false, not, ◌&&◌, ◌||◌, List, [], ◌∷◌, ◌++◌, arith, ltb,
  if◌then◌else◌, length, All,
}
use Prim.Native.String.{String}
use mathlib.Core.List.{append_assoc, append-nil}
use zfs_nas_dashboard.Go.Strings.{Text, codes, text_eq, has_prefix, trim_space, split, fields}
use zfs_nas_dashboard.Go.Strconv.{parse_int}
use zfs_nas_dashboard.Collector.Zfs.ZpoolStatus.{
  VDev, Progress, add_vdev, ends_config, parse_line, parse_lines, empty_pool, parse_zpool_status,
}

abbrev has_key : Text → String → Bool
has_key line key = has_prefix (trim_space line) (codes key)

abbrev pub is_config : Text → Bool
is_config line =
    not (has_key line "state:" || has_key line "scan:" || has_key line "errors:")
    && has_key line "config:"

abbrev has_any_key : Text → Bool
has_any_key line =
    has_key line "state:"
    || has_key line "scan:"
    || has_key line "errors:"
    || has_key line "config:"

-- A line of the configuration table: indented, and no key.
abbrev pub is_table_line : Text → Bool
is_table_line line =
    not (has_any_key line) && (has_prefix line (codes "\t") || has_prefix line (codes " "))

abbrev pub is_short : List Text → Bool
is_short fs = ltb (length fs) 5

-- A line that adds no device wherever it stands: it has a key, or fewer than five words.
abbrev pub adds_nothing : Text → Bool
adds_nothing line = not (is_config line) && (has_any_key line || is_short (fields line))

-- The device that a row of the table stands for; none for the pool's own row, the heading and a row
-- of fewer than five words.
abbrev pub device_of : Text → List Text → List VDev
device_of pool_name (name ∷ state ∷ r ∷ w ∷ c ∷ _) =
    if text_eq name pool_name || text_eq name (codes "NAME")
    then []
    else record {
      name = name;
      state = state;
      read_errors = (parse_int r).0;
      write_errors = (parse_int w).0;
      cksum_errors = (parse_int c).0;
    }
      ∷ []
device_of pool_name _ = []

abbrev pub devices_of : Text → List Text → List VDev
devices_of pool_name [] = []
devices_of pool_name (line ∷ lines) =
    device_of pool_name (fields line) ++ devices_of pool_name lines

parse_lines-append :
    (n : Text) (p : Progress) (a b : List Text)
    → parse_lines n p (a ++ b) ≡ parse_lines n (parse_lines n p a) b
unfolding parse_lines
parse_lines-append n p [] b = refl
parse_lines-append n p (l ∷ a) b = parse_lines-append n (parse_line n p l) a b

before_config :
    (n : Text) (p : Progress) (lines : List Text)
    → p.in_config ≡ false
    → All (λ l. is_config l ≡ false) lines
    → ((parse_lines n p lines).in_config ≡ false)
      × ((parse_lines n p lines).pool.vdevs ≡ p.pool.vdevs)
unfolding parse_lines
before_config n p [] h k = (h, refl)
before_config n p (l ∷ ls) h k =
    let step : ((parse_line n p l).in_config ≡ false)
        × ((parse_line n p l).pool.vdevs ≡ p.pool.vdevs) =
      unfold parse_line in ground (arith, k.0) in
    let rest = before_config n (parse_line n p l) ls step.0 k.1 in (rest.0, rest.1 ∙ step.1)

add_vdev_lem :
    (n : Text) (fs : List Text) (p : Progress)
    → ((add_vdev n fs p).in_config ≡ p.in_config)
      × ((add_vdev n fs p).pool.vdevs ≡ p.pool.vdevs ++ device_of n fs)
unfolding add_vdev
add_vdev_lem n (name ∷ state ∷ r ∷ w ∷ c ∷ _) p = ground (arith, append-nil p.pool.vdevs)
add_vdev_lem n [] p = (refl, sym (append-nil p.pool.vdevs))
add_vdev_lem n (_ ∷ []) p = (refl, sym (append-nil p.pool.vdevs))
add_vdev_lem n (_ ∷ _ ∷ []) p = (refl, sym (append-nil p.pool.vdevs))
add_vdev_lem n (_ ∷ _ ∷ _ ∷ []) p = (refl, sym (append-nil p.pool.vdevs))
add_vdev_lem n (_ ∷ _ ∷ _ ∷ _ ∷ []) p = (refl, sym (append-nil p.pool.vdevs))

in_table :
    (n : Text) (p : Progress) (lines : List Text)
    → p.in_config ≡ true
    → All (λ l. is_table_line l ≡ true) lines
    → ((parse_lines n p lines).in_config ≡ true)
      × ((parse_lines n p lines).pool.vdevs ≡ p.pool.vdevs ++ devices_of n lines)
unfolding parse_lines
in_table n p [] h k = (h, sym (append-nil p.pool.vdevs))
in_table n p (l ∷ ls) h k =
    let (a, b) = add_vdev_lem n (fields l) p in
    let step : parse_line n p l ≡ add_vdev n (fields l) p =
      unfold parse_line ends_config in ground (arith, k.0, h) in
    let (c, d) = in_table n (parse_line n p l) ls (rw step (a ∙ h)) k.1 in
    (c, d ∙ rw (step, b) (append_assoc p.pool.vdevs (device_of n (fields l)) (devices_of n ls)))

device_of-short : (n : Text) (fs : List Text) → is_short fs ≡ true → device_of n fs ≡ []
device_of-short n (a ∷ b ∷ c ∷ d ∷ e ∷ fs) h = absurd (ground arith)
device_of-short n [] h = refl
device_of-short n (_ ∷ []) h = refl
device_of-short n (_ ∷ _ ∷ []) h = refl
device_of-short n (_ ∷ _ ∷ _ ∷ []) h = refl
device_of-short n (_ ∷ _ ∷ _ ∷ _ ∷ []) h = refl

after_table :
    (n : Text) (p : Progress) (lines : List Text)
    → All (λ l. adds_nothing l ≡ true) lines
    → (parse_lines n p lines).pool.vdevs ≡ p.pool.vdevs
unfolding parse_lines
after_table n p [] k = refl
after_table n p (l ∷ ls) k =
    let (a, b) = add_vdev_lem n (fields l) p in
    let step : (parse_line n p l).pool.vdevs ≡ p.pool.vdevs =
      unfold parse_line in
      ground (arith, k.0, b, device_of-short n (fields l), append-nil p.pool.vdevs) in
    after_table n (parse_line n p l) ls k.1 ∙ step

-- A report consists of lines without the key "config:", the line with it, the indented lines of
-- the table, and lines that have another key or fewer than five words. Then the devices of the pool
-- are those of the table's rows, in their order: each row of five words or more but the heading
-- and the pool's own, with its name, state and three counters.
pub parse_zpool_status-devices :
    (output pool_name config : Text) (head table tail : List Text)
    → split b'\n' output ≡ head ++ config ∷ (table ++ tail)
    → All (λ l. is_config l ≡ false) head
    → is_config config ≡ true
    → All (λ l. is_table_line l ≡ true) table
    → All (λ l. adds_nothing l ≡ true) tail
    → (parse_zpool_status output pool_name).vdevs ≡ devices_of pool_name table
unfolding parse_zpool_status
parse_zpool_status-devices output n config head table tail e h c t l =
    let start : Progress = record { pool = empty_pool n; in_config = false } in
    let p = parse_lines n start head in
    let q = parse_line n p config in
    let r = parse_lines n q table in
    let (_, none_yet) = before_config n start head refl h in
    let opened : q ≡ record p { in_config = true } = unfold parse_line in ground (arith, c) in
    let (_, rows) = in_table n q table (ap (λ x. x.in_config) opened) t in
    rw (e, parse_zpool_status)
      (ap (λ x. x.pool.vdevs)
          (parse_lines-append n start head (config ∷ (table ++ tail))
            ∙ lines_step p (table ++ tail)
            ∙ parse_lines-append n q table tail)
        ∙ after_table n r tail l
        ∙ rows
        ∙ ap (λ x. x.pool.vdevs ++ devices_of n table) opened
        ∙ rw none_yet)
  where
    lines_step :
        (p : Progress) (ls : List Text)
        → parse_lines n p (config ∷ ls) ≡ parse_lines n (parse_line n p config) ls
    lines_step p ls = unfold parse_lines in refl
