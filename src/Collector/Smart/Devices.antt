-- ===== src/Collector/Smart/Devices.antt =====
-- `discoverDevices` and `resolveDevice`: which disks there are, and where they are.
pub mod Paths
pub mod Names
use zfs_nas_dashboard.Prelude.{
  ℕ, ◌+◌, Bool, true, false, not, ◌&&◌, ◌||◌, Option, some, List, [], ◌∷◌, ◌++◌, leb, ◌==◌,
  if◌then◌else◌, length, drop,
}
use zfs_nas_dashboard.Prelude.Result.{Result, ok, err, ◌>>=◌}
use zfs_nas_dashboard.Go.Strings.{Text, codes, text_eq, has_prefix, contains, split, fields}
use zfs_nas_dashboard.Go.Strconv.{is_digit}
use zfs_nas_dashboard.Config.{Config}
use zfs_nas_dashboard.Collector.Runner.{Error, CommandRunner}

-- `devicePathRe`, the characters behind the dash.
is_id_char : ℕ → Bool
is_id_char c =
    leb b'a' c && leb c b'z'
    || leb b'A' c && leb c b'Z'
    || leb b'0' c && leb c b'9'
    || c == b'_'
    || c == b'.'
    || c == b':'
    || c == b'-'

abbrev all_chars : (ℕ → Bool) → Text → Bool
all_chars p [] = true
all_chars p (c ∷ s) = p c && all_chars p s

-- `p+` up to the end.
abbrev some_chars : (ℕ → Bool) → Text → Bool
some_chars p [] = false
some_chars p (c ∷ s) = p c && all_chars p s

-- `kind` and a dash, then identifier characters up to the end.
is_id_of : Text → Text → Bool
unfolding is_id_char
is_id_of kind s =
    has_prefix s (kind ++ b'-' ∷ []) && some_chars is_id_char (drop (length kind + 1) s)

abbrev by_id_dir : Text
by_id_dir = codes "/dev/disk/by-id/"

unfoldable pub is_device_path : Text → Bool
unfolding is_id_of has_prefix
is_device_path s =
    let id = drop (length by_id_dir) s in
    has_prefix s by_id_dir
    && (is_id_of (codes "ata") id
        || is_id_of (codes "nvme") id
        || is_id_of (codes "wwn") id
        || is_id_of (codes "scsi") id
        || is_id_of (codes "usb") id
        || is_id_of (codes "sas") id
        || is_id_of (codes "mpath") id)

-- A bare name stands for the path in the by-id folder.
unfoldable pub candidate_of : Text → Text
candidate_of word = if contains word (codes "/") then word else by_id_dir ++ word

unfoldable pub seen : Text → List Text → Bool
seen d [] = false
seen d (e ∷ ds) = text_eq e d || seen d ds

-- One round of the loop: the line's first word, if it is a device that is new. `devices` holds the
-- keys of the Go map `seen` too, since both are extended together.
unfoldable pub add_candidate : List Text → List Text → List Text
unfolding candidate_of
add_candidate devices [] = devices
add_candidate devices (word ∷ _) =
    let candidate = candidate_of word in
    if is_device_path candidate && not (seen candidate devices)
    then devices ++ candidate ∷ []
    else devices

unfoldable pub scan_lines : List Text → List Text → List Text
scan_lines devices [] = devices
scan_lines devices (line ∷ lines) = scan_lines (add_candidate devices (fields line)) lines

abbrev zpool_failed : Error → Error
zpool_failed e = codes "zpool status: " ++ e

abbrev or_zpool_failed : Result Error Text → Result Error Text
or_zpool_failed (ok out) = ok out
or_zpool_failed (err e) = err (zpool_failed e)

unfoldable pub discover_devices : Config → CommandRunner → Result Error (List Text)
discover_devices cfg run = do
  out ← or_zpool_failed (run (codes "zpool") (codes "status" ∷ codes "-v" ∷ cfg.pool_name ∷ []))
  ok (scan_lines [] (split b'\n' out))

-- The device nodes: `os.Stat` gives an error, a file without a device number, or the number, and
-- `os.ReadDir("/dev")` the names in it.
pub record DevDir : Type 0 where
  pub stat : Text → Option (Option ℕ)
  pub read_dir : Option (List Text)

-- `\d+n\d+` up to the end; the flag says whether a digit was read.
is_nvme_rest : Bool → Text → Bool
unfolding is_digit
is_nvme_rest digit [] = false
is_nvme_rest digit (c ∷ s) =
    let rest = is_nvme_rest true s in
    if is_digit c then rest else digit && (c == b'n' && some_chars is_digit s)

is_lower : ℕ → Bool
is_lower c = leb b'a' c && leb c b'z'

-- `blockDevRe`.
unfoldable pub is_block_dev : Text → Bool
unfolding is_nvme_rest is_lower has_prefix
is_block_dev s =
    let two = some_chars is_lower (drop 2 s) in
    has_prefix s (codes "sd") && two
    || has_prefix s (codes "nvme") && is_nvme_rest false (drop 4 s)
    || has_prefix s (codes "hd") && two
    || has_prefix s (codes "vd") && two

abbrev pub has_rdev : ℕ → Option (Option ℕ) → Bool
has_rdev target (some (some rdev)) = rdev == target
has_rdev target _ = false

-- The loop over the entries of /dev.
unfoldable pub find_node : DevDir → Text → ℕ → List Text → Text
unfolding is_block_dev
find_node devs by_id target [] = by_id
find_node devs by_id target (name ∷ names) =
    let rest = find_node devs by_id target names in
    let path = codes "/dev/" ++ name in
    if is_block_dev name && has_rdev target (devs.stat path) then path else rest

unfoldable pub find_in : DevDir → Text → Option (Option ℕ) → Option (List Text) → Text
unfolding find_node
find_in devs by_id (some (some target)) (some entries) = find_node devs by_id target entries
find_in devs by_id _ _ = by_id

unfoldable pub resolve_device : DevDir → Text → Text
unfolding find_in
resolve_device devs by_id = find_in devs by_id (devs.stat by_id) devs.read_dir
