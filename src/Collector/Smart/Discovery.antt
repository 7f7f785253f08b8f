-- ===== src/Collector/Smart/Discovery.antt =====
-- `discoverDevices`: which disks are found.
use zfs_nas_dashboard.Prelude.{
  ◌≡◌, refl, sym, ap, ◌∙◌, ◌↔◌, In, Bool, true, false, not, ◌&&◌, ◌||◌, List, [], ◌∷◌, ◌++◌, arith,
}
use zfs_nas_dashboard.Prelude.Result.{ok}
use zfs_nas_dashboard.Go.Strings.{Text, codes, text_eq, split, fields}
use zfs_nas_dashboard.Go.Strings.Laws.{text_eq_iff}
use zfs_nas_dashboard.Config.{Config}
use zfs_nas_dashboard.Collector.Runner.{CommandRunner}
use zfs_nas_dashboard.Collector.Smart.Devices.{
  is_device_path, candidate_of, seen, add_candidate, scan_lines, discover_devices,
}
use zfs_nas_dashboard.Collector.Smart.Devices.Paths.{IsDevice, is_device_path-IsDevice}
use zfs_nas_dashboard.Collector.Smart.Devices.Names.{is_named, candidate_of-is_named}

-- No device twice.
abbrev pub no_repeats : List Text → Bool
no_repeats [] = true
no_repeats (d ∷ ds) = not (seen d ds) && no_repeats ds

seen-append : (d : Text) (ds es : List Text) → seen d (ds ++ es) ≡ (seen d ds || seen d es)
unfolding seen
seen-append d [] es = refl
seen-append d (e ∷ ds) es = ground (arith, seen-append d ds es)

no_repeats-append :
    (d : Text) (ds : List Text)
    → no_repeats ds ≡ true
    → seen d ds ≡ false
    → no_repeats (ds ++ d ∷ []) ≡ true
unfolding seen
no_repeats-append d [] n h = refl
no_repeats-append d (e ∷ ds) n h =
    ground
      (arith, no_repeats-append d ds, seen-append e ds (d ∷ []), text_eq_iff d e, text_eq_iff e d)

-- A line names the device `d` by its first word, bare or with its path.
abbrev names : Text → List Text → Bool
names d [] = false
names d (word ∷ _) = text_eq (candidate_of word) d

abbrev some_line_names : Text → List Text → Bool
some_line_names d [] = false
some_line_names d (line ∷ lines) = names d (fields line) || some_line_names d lines

seen_snoc : (d e : Text) (ds : List Text) → seen d (ds ++ e ∷ []) ≡ (seen d ds || text_eq e d)
unfolding seen
seen_snoc d e ds = seen-append d ds (e ∷ []) ∙ ground arith

add_candidate_lem :
    (d : Text) (ds words : List Text)
    → no_repeats ds ≡ true
    → (no_repeats (add_candidate ds words) ≡ true)
      × (seen d (add_candidate ds words) ≡ (seen d ds || is_device_path d && names d words))
unfolding add_candidate
add_candidate_lem d ds [] n = ground arith
add_candidate_lem d ds (w ∷ ws) n = ground (
  arith,
  no_repeats-append (candidate_of w) ds,
  seen_snoc d (candidate_of w) ds,
  text_eq_iff (candidate_of w) d,
  λ (e : candidate_of w ≡ d). ap is_device_path e,
  λ (e : candidate_of w ≡ d). ap (λ x. seen x ds) e,
)

scan_lines_lem :
    (d : Text) (lines ds : List Text)
    → no_repeats ds ≡ true
    → (no_repeats (scan_lines ds lines) ≡ true)
      × (seen d (scan_lines ds lines) ≡ (seen d ds || is_device_path d && some_line_names d lines))
unfolding scan_lines
scan_lines_lem d [] ds n = ground arith
scan_lines_lem d (line ∷ lines) ds n =
    let (n', e) = add_candidate_lem d ds (fields line) n in
    let (m, f) = scan_lines_lem d lines (add_candidate ds (fields line)) n' in
    (m, f ∙ ground (arith, e))

seen-In : (d : Text) (ds : List Text) → (seen d ds ≡ true) ↔ In d ds
unfolding seen
seen-In d [] = ground arith
seen-In d (e ∷ ds) = ground (arith, text_eq_iff e d, seen-In d ds)

-- A line that names the device `d` by its first word, in full or without the folder.
abbrev first_names : Text → List Text → Bool
first_names d [] = false
first_names d (word ∷ _) = is_named d word

abbrev pub any_line_names : Text → List Text → Bool
any_line_names d [] = false
any_line_names d (line ∷ lines) = first_names d (fields line) || any_line_names d lines

names_lem : (d : Text) (words : List Text) → IsDevice d → names d words ≡ first_names d words
names_lem d [] v = refl
names_lem d (word ∷ _) v = candidate_of-is_named d word v

some_line_names_lem :
    (d : Text) (lines : List Text) → IsDevice d → some_line_names d lines ≡ any_line_names d lines
some_line_names_lem d [] v = refl
some_line_names_lem d (line ∷ lines) v =
    rw (names_lem d (fields line) v, some_line_names_lem d lines v) refl

-- When `zpool status -v` answers, `discoverDevices` lists each device once, and a path is in the
-- list exactly if it is that of a device and the first word of some line names it, in full or
-- without the folder. A device's path is /dev/disk/by-id/, a kind (ata, nvme, wwn, scsi, usb, sas
-- or mpath), a dash, and one or more letters, digits or characters of "_.:-".
pub discover_devices_lem :
    (cfg : Config) (run : CommandRunner) (out d : Text)
    → run (codes "zpool") (codes "status" ∷ codes "-v" ∷ cfg.pool_name ∷ []) ≡ ok out
    → (ds : List Text) × (discover_devices cfg run ≡ ok ds)
      × (no_repeats ds ≡ true)
      × (In d ds ↔ (IsDevice d × (any_line_names d (split b'\n' out) ≡ true)))
unfolding discover_devices
discover_devices_lem cfg run out d e =
    let lines = split b'\n' out in
    let (n, m) = scan_lines_lem d lines [] refl in
    let found : seen d (scan_lines [] lines) ≡ (is_device_path d && some_line_names d lines) =
      m ∙ unfold seen in refl in
    (
      scan_lines [] lines,
      rw e,
      n,
      (
        λ i.
            let both = sym found ∙ (seen-In d (scan_lines [] lines)).1 i in
            let v = (is_device_path-IsDevice d).0 (ground (arith, both)) in
            (v, sym (some_line_names_lem d lines v) ∙ ground (arith, both)),
        λ (v, named). (seen-In d (scan_lines [] lines)).0 (
            found
            ∙ rw ((is_device_path-IsDevice d).1 v, some_line_names_lem d lines v, named) refl),
      ),
    )
