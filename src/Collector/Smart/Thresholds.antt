-- ===== src/Collector/Smart/Thresholds.antt =====
-- internal/collector/smart.go: the status of a value against its thresholds, and the record of a disk.
use zfs_nas_dashboard.Prelude.{
  ℕ, ◌≤◌, ◌≡◌, refl, ◌≢◌, ◌↔◌, ◌⊎◌, inl, inr, Option, none, some, [], arith, Option-cases, ℤ, pos,
  ◌≤ℤ◌, ◌<ℤ◌,
}
use zfs_nas_dashboard.Prelude.Result.{ok, Result-cases}
use zfs_nas_dashboard.Go.Strings.{Text}
use zfs_nas_dashboard.Go.Map.{int_keys, lookup}
use zfs_nas_dashboard.Config.{Config}
use zfs_nas_dashboard.Collector.Runner.{CommandRunner}
use zfs_nas_dashboard.Collector.Smart.Devices.{DevDir, resolve_device}
use zfs_nas_dashboard.Collector.Smart.{
  Status, no_status, green, amber, red, no_health, DiskInfo, SmartctlJson, temp_status,
  threshold_status, fill_attr_map, reported, or_else, status_of, parse_identity, parse_attributes,
  parse_health, smartctl, blank, read_identity, read_attributes, read_health, read_disk,
}

abbrev pub severity : Status → ℕ
severity no_status = 0
severity green = 1
severity amber = 2
severity red = 3

-- For any thresholds, even with the warning above the critical one: the status is red exactly
-- from the critical threshold on, amber exactly from the warning threshold up to it, and else
-- green; so a larger value is never graded as less severe.
pub threshold_status_mono :
    (val val' warn crit : ℤ)
    → ((threshold_status val warn crit ≡ red) ↔ (crit ≤ℤ val))
      × ((threshold_status val warn crit ≡ amber) ↔ ((warn ≤ℤ val) × (val <ℤ crit)))
      × ((threshold_status val warn crit ≡ green) ↔ ((val <ℤ warn) × (val <ℤ crit)))
      × (val ≤ℤ val'
          → severity (threshold_status val warn crit) ≤ severity (threshold_status val' warn crit))
unfolding threshold_status
threshold_status_mono val val' warn crit =
    (ground arith, ground arith, ground arith, λ h. ground arith)

-- Temperatures are graded by the same rule.
pub temp-threshold_status :
    (val warn crit : ℤ) → temp_status val warn crit ≡ threshold_status val warn crit
unfolding temp_status threshold_status
temp-threshold_status val warn crit = refl

-- What a disk's temperature says: positive, graded, or absent and ungraded.
abbrev pub IsTempGraded : Config → Option ℤ → Status → Type 0
IsTempGraded cfg none st = st ≡ no_status
IsTempGraded cfg (some t) st = (pos 0 <ℤ t) × (st ≡ temp_status t cfg.temp_warn_c cfg.temp_crit_c)

abbrev pub IsGraded : ℤ → Status → ℤ → ℤ → Type 0
IsGraded n st warn crit = (st ≡ threshold_status n warn crit) ⊎ ((st ≡ no_status) × (n ≡ pos 0))

pub record IsReadable (cfg : Config) (by_id : Text) (info : DiskInfo) : Type 0 where
  pub same_disk : info.by_id ≡ by_id
  pub health_known : info.health ≢ no_health
  pub temp : IsTempGraded cfg info.celsius info.celsius_status
  pub realloc : IsGraded info.realloc_sectors info.realloc_status cfg.realloc_warn cfg.realloc_crit
  pub pending : IsGraded info.pending_sectors info.pending_status cfg.pending_warn cfg.pending_crit
  pub uncorr : IsGraded info.uncorr_errors info.uncorr_status cfg.uncorr_warn cfg.uncorr_crit

record IsUngraded (by_id : Text) (info : DiskInfo) : Type 0 where
  same_disk : info.by_id ≡ by_id
  no_temp : info.celsius ≡ none
  no_temp_status : info.celsius_status ≡ no_status
  no_realloc : info.realloc_sectors ≡ pos 0
  no_realloc_status : info.realloc_status ≡ no_status
  no_pending : info.pending_sectors ≡ pos 0
  no_pending_status : info.pending_status ≡ no_status
  no_uncorr : info.uncorr_errors ≡ pos 0
  no_uncorr_status : info.uncorr_status ≡ no_status

read_identity-IsUngraded :
    (json : SmartctlJson) (run : CommandRunner) (by_id dev : Text) (info : DiskInfo)
    → IsUngraded by_id info
    → IsUngraded by_id (read_identity json run dev info)
unfolding read_identity parse_identity
read_identity-IsUngraded json run by_id dev info v = ground arith

abbrev IsMeasured : Config → Text → DiskInfo → Type 0
IsMeasured cfg by_id info =
    (info.by_id ≡ by_id)
    × IsTempGraded cfg info.celsius info.celsius_status
    × IsGraded info.realloc_sectors info.realloc_status cfg.realloc_warn cfg.realloc_crit
    × IsGraded info.pending_sectors info.pending_status cfg.pending_warn cfg.pending_crit
    × IsGraded info.uncorr_errors info.uncorr_status cfg.uncorr_warn cfg.uncorr_crit

Ungraded-Measured :
    (cfg : Config) (by_id : Text) (info : DiskInfo)
    → IsUngraded by_id info
    → IsMeasured cfg by_id info
Ungraded-Measured cfg by_id info v = (
  v.same_disk,
  rw v.no_temp v.no_temp_status,
  inr (v.no_realloc_status, v.no_realloc),
  inr (v.no_pending_status, v.no_pending),
  inr (v.no_uncorr_status, v.no_uncorr),
)

reported-IsTempGraded :
    (cfg : Config) (a b : Option ℤ)
    → let t = or_else (or_else (reported a) (reported b)) none in
      IsTempGraded cfg t (status_of t cfg.temp_warn_c cfg.temp_crit_c no_status)
reported-IsTempGraded cfg a b = ground arith

parse_attributes-Measured :
    (json : SmartctlJson) (out : Text) (cfg : Config) (by_id : Text) (info : DiskInfo)
    → IsUngraded by_id info
    → IsMeasured cfg by_id (parse_attributes json out cfg info)
unfolding parse_attributes
parse_attributes-Measured json out cfg by_id info v = elim (Option-cases (json.attributes out)) [
  | inl e ↦ rw (e, parse_attributes) (Ungraded-Measured cfg by_id info v)
  | inr (v', e) ↦
      rw (e, parse_attributes)
        (
          v.same_disk,
          rw (v.no_temp, v.no_temp_status)
              (reported-IsTempGraded cfg (lookup (pos 194) (fill_attr_map [] v'.table))
                (lookup (pos 190) (fill_attr_map [] v'.table))),
          inl refl,
          inl refl,
          inl refl,
        )
]

read_attributes-Measured :
    (json : SmartctlJson) (cfg : Config) (run : CommandRunner) (by_id dev : Text) (info : DiskInfo)
    → IsUngraded by_id info
    → IsMeasured cfg by_id (read_attributes json cfg run dev info)
unfolding read_attributes
read_attributes-Measured json cfg run by_id dev info v =
    elim (Result-cases (smartctl run "-A" dev)) [
      | inl (out, e) ↦ rw e (parse_attributes-Measured json out cfg by_id info v)
      | inr (msg, e) ↦ rw e (Ungraded-Measured cfg by_id info v)
    ]

read_health-IsReadable :
    (json : SmartctlJson) (cfg : Config) (run : CommandRunner) (by_id dev : Text) (info : DiskInfo)
    → IsMeasured cfg by_id info
    → IsReadable cfg by_id (read_health json run dev info)
unfolding read_health parse_health
read_health-IsReadable json cfg run by_id dev info v = elim (Result-cases (smartctl run "-H" dev)) [
  | inl (out, e) ↦ rw e (record {
    same_disk = v.0;
    health_known = ground arith;
    temp = v.1;
    realloc = v.2;
    pending = v.3;
    uncorr = v.4;
  })
  | inr (msg, e) ↦ rw e (record {
    same_disk = v.0;
    health_known = ground arith;
    temp = v.1;
    realloc = v.2;
    pending = v.3;
    uncorr = v.4;
  })
]

-- Whatever the commands answer, `readDisk` succeeds with a record of that very disk whose health
-- is filled in, whose temperature is either positive and graded or absent with no status, and
-- whose three counters are graded by their own thresholds, or zero with no status.
pub read_disk-IsReadable :
    (devs : DevDir) (json : SmartctlJson) (cfg : Config) (run : CommandRunner) (by_id : Text)
    → (info : DiskInfo) × (read_disk devs json cfg run by_id ≡ ok info) × IsReadable cfg by_id info
unfolding read_disk
read_disk-IsReadable devs json cfg run by_id =
    let dev = resolve_device devs by_id in
    let fresh : IsUngraded by_id (record (blank by_id) { dev = dev }) = record {
      same_disk = refl;
      no_temp = refl;
      no_temp_status = refl;
      no_realloc = refl;
      no_realloc_status = refl;
      no_pending = refl;
      no_pending_status = refl;
      no_uncorr = refl;
      no_uncorr_status = refl;
    } in
    (
      _,
      refl,
      read_health-IsReadable json cfg run by_id dev _ (
          read_attributes-Measured json cfg run by_id dev _
            (read_identity-IsUngraded json run by_id dev _ fresh)),
    )
