-- ===== src/Collector/Zfs/Collection.antt =====
-- A whole ZFS collection: when it fails, and what its totals are.
use zfs_nas_dashboard.Prelude.{
  ℕ, ◌+◌, ◌^◌, ◌<◌, ◌≡◌, sym, ap, ◌∙◌, Bool, true, false, ◌||◌, List, [], ◌∷◌, arith, length, All,
  pos, ◌+ℤ◌, pos_part, neg_part, wrap64, wrap64-eq_self,
}
use zfs_nas_dashboard.Prelude.Result.{Result, ok, err}
use zfs_nas_dashboard.Go.Strings.{Text}
use zfs_nas_dashboard.Config.{Config}
use zfs_nas_dashboard.Collector.Runner.{Error, CommandRunner}
use zfs_nas_dashboard.Collector.Zfs.Lists.{Snapshot}
use zfs_nas_dashboard.Collector.Zfs.Arc.{Float64}
use zfs_nas_dashboard.Collector.Zfs.{
  ZfsResult, collect_pool, collect_datasets, collect_snapshots, total_bytes, zfs,
}

-- The sum of the sizes, without a bound.
abbrev pub sum_bytes : List Snapshot → ℕ
sum_bytes [] = 0
sum_bytes (s ∷ snapshots) = pos_part s.used_bytes + sum_bytes snapshots

abbrev pub IsNonneg : Snapshot → Type 0
IsNonneg s = neg_part s.used_bytes ≡ 0

total_bytes-sum :
    (total : ℕ) (snapshots : List Snapshot)
    → All IsNonneg snapshots
    → total + sum_bytes snapshots < 2 ^ 63
    → total_bytes (pos total) snapshots ≡ pos (total + sum_bytes snapshots)
unfolding total_bytes
total_bytes-sum total [] h b = ground arith
total_bytes-sum total (s ∷ snapshots) h b =
    let added : wrap64 (pos total +ℤ s.used_bytes) ≡ pos (total + pos_part s.used_bytes) =
      unfold ◌+ℤ◌ in ground (arith, h.0, wrap64-eq_self (pos (total + pos_part s.used_bytes))) in
    rw added (
      total_bytes-sum (total + pos_part s.used_bytes) snapshots h.1 (omega arith)
      ∙ ap pos (omega arith))

abbrev pub fails {ℓ} : {A : Type ℓ} → Result Error A → Bool
fails (ok a) = false
fails (err e) = true

zfs-ok :
    (fl : Float64) (cfg : Config) (run : CommandRunner) (arcstats : Result Error Text)
    (r : ZfsResult fl.F)
    → zfs fl cfg run arcstats ≡ ok r
    → (r.snapshots ≡ collect_snapshots cfg run)
      × (r.snapshot_count ≡ length (collect_snapshots cfg run))
      × (r.snapshot_total_bytes ≡ total_bytes (pos 0) (collect_snapshots cfg run))
unfolding zfs
zfs-ok fl cfg run arcstats r e = ground arith

-- A collection fails exactly when that of the pool or that of the datasets does, whatever the
-- snapshots and the ARC give. If it succeeds, it counts the snapshots that it lists, and their
-- total size is exact where no size is negative and the sum is below 2^63.
pub zfs_lem :
    (fl : Float64) (cfg : Config) (run : CommandRunner) (arcstats : Result Error Text)
    → (fails (zfs fl cfg run arcstats)
        ≡ (fails (collect_pool cfg run) || fails (collect_datasets fl cfg run)))
      × ((r : ZfsResult fl.F)
          → zfs fl cfg run arcstats ≡ ok r
          → (r.snapshots ≡ collect_snapshots cfg run)
            × (r.snapshot_count ≡ length r.snapshots)
            × (All IsNonneg r.snapshots
                → sum_bytes r.snapshots < 2 ^ 63
                → r.snapshot_total_bytes ≡ pos (sum_bytes r.snapshots)))
unfolding zfs
zfs_lem fl cfg run arcstats = (
  ground arith,
  λ r e.
      let (a, b, c) = zfs-ok fl cfg run arcstats r e in
      (
        a,
        b ∙ ap length (sym a),
        λ n bound.
            c
            ∙ ap (total_bytes (pos 0)) (sym a)
            ∙ total_bytes-sum 0 r.snapshots n (omega arith)
            ∙ ap pos (omega arith),
      ),
)
