-- ===== src/Poller/History.antt =====
-- internal/poller/poller.go: how much history a round keeps.
use zfs_nas_dashboard.Prelude.{ℕ, ◌*◌, ◌≤◌, ◌<◌, ◌≡◌, arith, pos, ◌*ℤ◌, ◌<ℤ◌, wrap64}
use zfs_nas_dashboard.Config.{Config}
use zfs_nas_dashboard.Poller.{history_length}

-- The largest number of hours whose nanoseconds fit.
abbrev pub max_hours : ℕ
max_hours = 2_562_047

-- What is kept is exactly the configured number of hours, up to 2562047.
pub history_length_exact :
    (cfg : Config) (n : ℕ)
    → cfg.temp_history_hours ≡ pos n
    → n ≤ max_hours
    → history_length cfg ≡ pos (n * 3_600_000_000_000)
unfolding history_length ◌*ℤ◌ wrap64
history_length_exact cfg n h b = rw h (ground arith)

-- The bug: from 2562048 to 5124095 hours the length is negative, so that the cutoff is after the
-- present.
pub history_length_overflows :
    (cfg : Config) (n : ℕ)
    → cfg.temp_history_hours ≡ pos n
    → max_hours < n
    → n ≤ 5_124_095
    → history_length cfg <ℤ pos 0
unfolding history_length ◌*ℤ◌ wrap64
history_length_overflows cfg n h a b = rw h (ground arith)
