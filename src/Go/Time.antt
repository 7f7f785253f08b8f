-- ===== src/Go/Time.antt =====
-- What the program uses of Go's package time: a time is its nanoseconds since the epoch, before
-- which it is negative, and a duration an int64 of nanoseconds.
use zfs_nas_dashboard.Prelude.{
  ℕ, ◌<◌, ◌/◌, ◌^◌, arith, ℤ, pos, negsuc, ◌+ℤ◌, ◌≤ℤ◌, ◌<ℤ◌, pos_part, neg_part, sub_ℕ, wrap64,
}

abbrev pub Time : Type 0
Time = ℤ

abbrev pub Duration : Type 0
Duration = ℤ

abbrev pub second : Duration
second = pos 1_000_000_000

-- `t.Add(d)`.
unfoldable pub add : Time → Duration → Time
add t d = t +ℤ d

-- `-d`.
unfoldable pub neg : Duration → Duration
neg d = wrap64 (sub_ℕ (neg_part d) (pos_part d))

-- `t.Unix()`: whole seconds, rounded down.
unfoldable pub unix : Time → ℤ
unix (pos n) = pos (n / 1_000_000_000)
unix (negsuc n) = negsuc (n / 1_000_000_000)

pub unix_mono : (t u : Time) → t ≤ℤ u → unix t ≤ℤ unix u
unfolding unix
unix_mono t u h = ground arith

pub add_mono : (t u : Time) (d : Duration) → t ≤ℤ u → add t d ≤ℤ add u d
unfolding add ◌+ℤ◌
add_mono t u d h = ground arith

-- A second apart, the whole seconds differ.
pub unix-lt : (t u : Time) → t +ℤ second ≤ℤ u → unix t <ℤ unix u
unfolding unix ◌+ℤ◌
unix-lt t u h = ground arith

-- What is a second short of `d` after `t` has `t` a second after `d` before it.
pub add-neg-le :
    (t u : Time) (d : ℕ)
    → d < 2 ^ 63
    → add u second ≤ℤ add t (pos d)
    → add u (neg (pos d)) +ℤ second ≤ℤ t
unfolding add neg ◌+ℤ◌ wrap64
add-neg-le t u d b h = ground arith
