-- ===== src/Broker/Hub/Backlog.antt =====
-- What one client is sent and receives along a sequence of calls, and how much waits for it.
use zfs_nas_dashboard.Prelude.{
  ℕ, suc, ◌-◌, Option, none, some, List, [], ◌∷◌, ◌++◌, ltb, ◌==◌, if◌then◌else◌,
}
use zfs_nas_dashboard.Go.Strings.{Text}
use zfs_nas_dashboard.Broker.{channel_buf}
use zfs_nas_dashboard.Broker.Calls.{
  Call, registers, unregisters, broadcasts, receives, Reply, granted, refused, message, ended,
  waits, silent,
}

-- The messages that the calls broadcast.
abbrev pub messages : List Call → List Text
messages [] = []
messages (broadcasts msg ∷ ops) = msg ∷ messages ops
messages (registers ∷ ops) = messages ops
messages (unregisters j ∷ ops) = messages ops
messages (receives j ∷ ops) = messages ops

-- The messages that client `c` receives.
abbrev pub text_of : Reply → List Text
text_of (message m) = m ∷ []
text_of (granted c) = []
text_of refused = []
text_of ended = []
text_of waits = []
text_of silent = []

abbrev pub taken_by : ℕ → Call → Reply → List Text
taken_by c (receives j) r = if j == c then text_of r else []
taken_by c registers r = []
taken_by c (unregisters j) r = []
taken_by c (broadcasts msg) r = []

abbrev pub taken : ℕ → List Call → List Reply → List Text
taken c (op ∷ ops) (r ∷ rs) = taken_by c op r ++ taken c ops rs
taken c [] rs = []
taken c (op ∷ ops) [] = []

-- How many messages wait for client `c` after a call, of `n` before it; none if the call costs it
-- its registration.
abbrev pub backlog_after : ℕ → Call → ℕ → Option ℕ
backlog_after c registers n = some n
backlog_after c (unregisters j) n = if j == c then none else some n
backlog_after c (broadcasts msg) n = if ltb n channel_buf then some (suc n) else none
backlog_after c (receives j) n = some (if j == c then n - 1 else n)

abbrev pub chain : (ℕ → Option ℕ) → Option ℕ → Option ℕ
chain f none = none
chain f (some n) = f n

unfoldable pub backlog : ℕ → List Call → ℕ → Option ℕ
backlog c [] n = some n
backlog c (op ∷ ops) n = chain (backlog c ops) (backlog_after c op n)
