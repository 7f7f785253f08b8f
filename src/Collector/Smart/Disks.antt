-- ===== src/Collector/Smart/Disks.antt =====
-- Which disks are reported on, where they are, and what their health says.
use zfs_nas_dashboard.Prelude.{
  ℕ, ◌≡◌, refl, ap, ◌≢◌, ◌⊎◌, inl, inr, true, ◌&&◌, Option, none, some, List, [], ◌∷◌, ◌++◌, map,
  arith, Bool-cases,
}
use zfs_nas_dashboard.Prelude.Result.{ok, ◌>>=◌, Result-cases}
use zfs_nas_dashboard.Go.Strings.{Text, codes}
use zfs_nas_dashboard.Config.{Config}
use zfs_nas_dashboard.Collector.Runner.{CommandRunner}
use zfs_nas_dashboard.Collector.Smart.Devices.{
  DevDir, resolve_device, find_in, find_node, has_rdev, is_block_dev, discover_devices,
}
use zfs_nas_dashboard.Collector.Smart.Thresholds.{read_disk-IsReadable}
use zfs_nas_dashboard.Collector.Smart.{
  failed, DiskInfo, SmartctlHealthJson, SmartctlJson, parse_health, smartctl, blank, read_identity,
  read_attributes, read_health, read_disk, read_disks, smart,
}

by_id-read_disks :
    (devs : DevDir) (json : SmartctlJson) (cfg : Config) (run : CommandRunner) (ds : List Text)
    → map (λ (info : DiskInfo). info.by_id) (read_disks (read_disk devs json cfg run) ds) ≡ ds
unfolding read_disks
by_id-read_disks devs json cfg run [] = refl
by_id-read_disks devs json cfg run (d ∷ ds) =
    let (info, e, v) = read_disk-IsReadable devs json cfg run d in
    let rest = by_id-read_disks devs json cfg run ds in rw e (ground (arith, v.same_disk, rest))

-- `Smart` fails exactly with the error of discovery; else it reports on every device that was
-- discovered, in that order: no disk is skipped.
pub smart-by_id :
    (devs : DevDir) (json : SmartctlJson) (cfg : Config) (run : CommandRunner)
    → (smart devs json cfg run >>= λ infos. ok (map (λ (info : DiskInfo). info.by_id) infos))
      ≡ discover_devices cfg run
unfolding smart
smart-by_id devs json cfg run = elim (Result-cases (discover_devices cfg run)) [
  | inl (ds, e) ↦ rw e (ap ok (by_id-read_disks devs json cfg run ds))
  | inr (msg, e) ↦ rw e
]

-- A node that stands for a device: a plain block device name under /dev with its number.
pub record IsNodeOf (devs : DevDir) (by_id path : Text) : Type 0 where
  pub rdev : ℕ
  pub name : Text
  pub same_path : path ≡ codes "/dev/" ++ name
  pub plain : is_block_dev name ≡ true
  pub device_rdev : devs.stat by_id ≡ some (some rdev)
  pub node_rdev : devs.stat path ≡ some (some rdev)

has_rdev-eq :
    (target : ℕ) (o : Option (Option ℕ)) → has_rdev target o ≡ true → o ≡ some (some target)
has_rdev-eq target none h = cc
has_rdev-eq target (some none) h = cc
has_rdev-eq target (some (some r)) h = ground arith

find_node_lem :
    (devs : DevDir) (by_id : Text) (target : ℕ) (entries : List Text)
    → devs.stat by_id ≡ some (some target)
    → (find_node devs by_id target entries ≡ by_id)
      ⊎ IsNodeOf devs by_id (find_node devs by_id target entries)
unfolding find_node
find_node_lem devs by_id target [] e = inl refl
find_node_lem devs by_id target (name ∷ names) e =
    let path = codes "/dev/" ++ name in
    elim (Bool-cases (is_block_dev name && has_rdev target (devs.stat path))) [
      | inl h ↦ rw h (
          inr (record {
            rdev = target;
            name = name;
            same_path = refl;
            plain = ground (arith, h);
            device_rdev = e;
            node_rdev = has_rdev-eq target (devs.stat path) (ground (arith, h));
          }))
      | inr h ↦ rw h (find_node_lem devs by_id target names e)
    ]

-- `resolveDevice` yields the path that it was given, or a plain block device under /dev that has
-- the same device number.
pub resolve_device-IsNodeOf :
    (devs : DevDir) (by_id : Text)
    → (resolve_device devs by_id ≡ by_id) ⊎ IsNodeOf devs by_id (resolve_device devs by_id)
unfolding resolve_device
resolve_device-IsNodeOf devs by_id = found (devs.stat by_id) devs.read_dir refl
  where
    found :
        (st : Option (Option ℕ)) (dir : Option (List Text))
        → devs.stat by_id ≡ st
        → (find_in devs by_id st dir ≡ by_id) ⊎ IsNodeOf devs by_id (find_in devs by_id st dir)
    found (some (some target)) (some entries) e = find_node_lem devs by_id target entries e
    found (some (some target)) none e = inl refl
    found (some none) dir e = inl refl
    found none dir e = inl refl

-- A health check that decodes says that the disk passed.
abbrev pub PassedIfKnown : Option SmartctlHealthJson → Type 0
PassedIfKnown none = Unit
PassedIfKnown (some v) = v.smart_status_passed ≡ true

read_health-not_failed :
    (json : SmartctlJson) (run : CommandRunner) (dev : Text) (info : DiskInfo)
    → ((out : Text) → smartctl run "-H" dev ≡ ok out → PassedIfKnown (json.health out))
    → (read_health json run dev info).health ≢ failed
unfolding read_health parse_health
read_health-not_failed json run dev info h = elim (Result-cases (smartctl run "-H" dev)) [
  | inl (out, e) ↦ rw e (ground (arith, h out e))
  | inr (msg, e) ↦ rw e (ground arith)
]

-- The bug: smartctl exits with a status other than zero when a disk's health check fails, and the
-- runner makes an error of that. Then no disk is ever reported as failed.
pub read_disk-never_failed :
    (devs : DevDir) (json : SmartctlJson) (cfg : Config) (run : CommandRunner) (by_id : Text)
    (info : DiskInfo)
    → ((dev out : Text) → smartctl run "-H" dev ≡ ok out → PassedIfKnown (json.health out))
    → read_disk devs json cfg run by_id ≡ ok info
    → info.health ≢ failed
unfolding read_disk
read_disk-never_failed devs json cfg run by_id info h e = ground (
  arith,
  read_health-not_failed json run (resolve_device devs by_id)
      (read_attributes json cfg run (resolve_device devs by_id) (
        read_identity json run (resolve_device devs by_id)
          (record (blank by_id) { dev = resolve_device devs by_id })))
      (h (resolve_device devs by_id)),
)
