-- ===== src/Poller.antt =====
-- internal/poller/poller.go: one round of the collection of SMART data and of files.
--
-- A round runs as nobody else touches the broker or the caches. The database, the
-- encoding of JSON and the collection of files are arguments; what is logged is left out.
pub mod Rounds
pub mod History
pub mod Stored
pub mod Loops
pub mod Runs
pub mod Start
mod Tests
use zfs_nas_dashboard.Prelude.{
  ℕ, zero, suc, ◌+◌, ◌-◌, ◌*◌, ◌/◌, ◌%◌, ◌^◌, ◌≤◌, ◌<◌, ◌≡◌, refl, sym, ap, subst, ◌∙◌, ◌≢◌, ◌↔◌,
  ◌⊎◌, inl, inr, Bool, true, false, not, ◌&&◌, ◌||◌, Option, none, some, List, [], ◌∷◌, ◌++◌, map,
  reverse, arith, dec_lt, ℕ_discrete, ltb, leb, ◌==◌, if◌then◌else◌, ==_iff, Bool-cases,
  Option-cases, length, get_elem?, get_elem?-lt, length-append, set, take, drop, All, ℤ, pos,
  negsuc, ◌+ℤ◌, ◌*ℤ◌, ◌≤ℤ◌, ◌<ℤ◌, ltb_ℤ, leb_ℤ, eqb_ℤ, eqb_ℤ_iff, pos_part, neg_part, IsInt64,
  wrap64,
}
use zfs_nas_dashboard.Prelude.Result.{Result, ok, err}
use zfs_nas_dashboard.Go.Strings.{Text, codes}
use zfs_nas_dashboard.Broker.{Broker, Outcome, broadcast, ◌>>=◌, panic}
use zfs_nas_dashboard.Broker
use zfs_nas_dashboard.Config.{Config}
use zfs_nas_dashboard.Collector.Smart.{DiskInfo}
use zfs_nas_dashboard.Store.Rows.{Sql, insert, prune}
use zfs_nas_dashboard.Go.Time.{add, neg}

-- The store: Insert of a reading, and Prune before the time that is this long ago. Errors are
-- only logged.
pub record Database (D : Type 0) : Type 0 where
  pub insert : Text → ℤ → D → D
  pub prune_older : ℤ → D → D

-- The store of the program, whose Insert takes the temperature as a float64.
abbrev pub store_database : {D C E : Type 0} → Sql D C E → (ℤ → C) → Database D
store_database sql float = record {
  insert = λ disk celsius s. (insert sql disk (float celsius) s).0;
  prune_older = λ d s. (prune sql (add (sql.now s) (neg d)) s).0;
}

-- `Poller`, with the data behind its store and its broker. A nil slice is the empty list.
pub record Poller (D F : Type 0) : Type 0 where
  pub store : D
  pub broker : Broker
  pub smart : List DiskInfo
  pub files : Option F

-- `New`.
abbrev pub new : {D F : Type 0} → D → Broker → Poller D F
new st br = record { store = st; broker = br; smart = []; files = none }

abbrev pub latest_smart : {D F : Type 0} → Poller D F → List DiskInfo
latest_smart p = p.smart

abbrev pub latest_files : {D F : Type 0} → Poller D F → Option F
latest_files p = p.files

-- `p.broker.Broadcast(msg)`; `snapshot` is the order of the range over the clients.
unfoldable pub publish : {D F : Type 0} → Text → List ℕ → Poller D F → Outcome (Poller D F)
publish msg snapshot p = do b ← broadcast msg snapshot p.broker; Broker.ok (record p { broker = b })

-- A disk without a temperature is skipped.
abbrev persist_one : {D : Type 0} → Database D → Text → Option ℤ → D → D
persist_one db by_id none s = s
persist_one db by_id (some c) s = db.insert by_id c s

unfoldable pub persist : {D : Type 0} → Database D → List DiskInfo → D → D
persist db [] s = s
persist db (d ∷ ds) s = persist db ds (persist_one db d.by_id d.celsius s)

-- `time.Duration(p.cfg.TempHistoryHours) * time.Hour`.
unfoldable pub history_length : Config → ℤ
history_length cfg = wrap64 (cfg.temp_history_hours *ℤ pos 3600000000000)

unfoldable pub publish_encoded :
    {D F : Type 0} → Option Text → List ℕ → Poller D F → Outcome (Poller D F)
publish_encoded none snapshot p = Broker.ok p
publish_encoded (some msg) snapshot p = publish msg snapshot p

unfoldable pub collect_smart :
    {D F E : Type 0}
    → Database D
    → (List DiskInfo → Option Text)
    → Config
    → Result E (List DiskInfo)
    → List ℕ
    → Poller D F
    → Outcome (Poller D F)
collect_smart db encode cfg (err e) snapshot p = Broker.ok p
collect_smart db encode cfg (ok disks) snapshot p =
    let cached = record p { smart = disks } in
    let pruned = db.prune_older (history_length cfg) (persist db disks cached.store) in
    publish_encoded (encode disks) snapshot (record cached { store = pruned })

unfoldable pub collect_files :
    {D F E : Type 0} → Result E F → List ℕ → Poller D F → Outcome (Poller D F)
collect_files (err e) snapshot p = Broker.ok p
collect_files (ok result) snapshot p =
    publish (codes "{\"type\":\"files\"}") snapshot (record p { files = some result })
