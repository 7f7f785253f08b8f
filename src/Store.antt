-- ===== src/Store.antt =====
-- internal/store/store.go: how the database of the temperatures is opened, and opened again on a
-- fresh file when that fails.
--
-- The file system and the SQLite driver are the argument `engine`, which works on a state of
-- their own.
pub mod Handles
pub mod Recovery
pub mod Rows
pub mod History
pub mod Tests
pub mod JournalTests
use zfs_nas_dashboard.Prelude.{
  ℕ, zero, suc, ◌+◌, ◌-◌, ◌*◌, ◌/◌, ◌%◌, ◌^◌, ◌≤◌, ◌<◌, ◌≡◌, refl, sym, ap, subst, ◌∙◌, ◌≢◌, ◌↔◌,
  ◌⊎◌, inl, inr, Bool, true, false, not, ◌&&◌, ◌||◌, Option, none, some, List, [], ◌∷◌, ◌++◌, map,
  reverse, arith, dec_lt, ℕ_discrete, ltb, leb, ◌==◌, if◌then◌else◌, ==_iff, Bool-cases,
  Option-cases, length, get_elem?, get_elem?-lt, length-append, set, take, drop, All, ℤ, pos,
  negsuc, ◌+ℤ◌, ◌*ℤ◌, ◌≤ℤ◌, ◌<ℤ◌, ltb_ℤ, leb_ℤ, eqb_ℤ, eqb_ℤ_iff, pos_part, neg_part, IsInt64,
  wrap64,
}
use zfs_nas_dashboard.Prelude.Result.{Result, ok, err}
use zfs_nas_dashboard.Go.Strings.{Text, codes}

-- The two statements of `open`: `schema` and "SELECT 1 FROM temps LIMIT 1".
pub data Statement : Type 0 where
  create_temps : Statement
  read_temps : Statement

-- What `Open` calls: filepath.Join, sql.Open, and Exec and Close of the connection, then
-- os.Remove and os.IsNotExist. `none` is the nil error.
pub record Engine (S D E : Type 0) : Type 0 where
  pub join : Text → Text → Text
  pub connect : Text → S → S × Result E D
  pub exec : D → Statement → S → S × Option E
  pub close : D → S → S × Option E
  pub remove : Text → S → S × Option E
  pub is_not_exist : E → Bool

-- The two errors that `Open` wraps.
pub data OpenError (E : Type 0) : Type 0 where
  remove_failed : E → OpenError E
  reopen_failed : E → OpenError E

-- The early return on an error, with the state as the failed call left it.
infixl 5 ◌>>=◌
abbrev pub ◌>>=◌ : {S D E : Type 0} → S × Result E D → (D × S → S × Result E D) → S × Result E D
(s, ok db) >>= k = k (db, s)
(s, err e) >>= k = (s, err e)

module _ {S D E : Type 0} (engine : Engine S D E) where
  unfoldable pub close_on_error : D → S × Option E → S × Result E D
  close_on_error db (s, none) = (s, ok db)
  close_on_error db (s, some e) = ((engine.close db s).0, err e)

  unfoldable pub open_db : Text → S → S × Result E D
  open_db path s =
      engine.connect path s
      >>= (λ c. close_on_error c.0 (engine.exec c.0 create_temps c.1))
      >>= (λ c. close_on_error c.0 (engine.exec c.0 read_temps c.1))

  -- `removeErr != nil && !os.IsNotExist(removeErr)`.
  unfoldable pub removal_error : Option E → Option E
  removal_error none = none
  removal_error (some e) = if engine.is_not_exist e then none else some e

  unfoldable pub wrap_reopen : S × Result E D → S × Result (OpenError E) D
  wrap_reopen (s, ok db) = (s, ok db)
  wrap_reopen (s, err e) = (s, err (reopen_failed e))

  unfoldable pub reopen : Text → S → Option E → S × Result (OpenError E) D
  reopen path s none = wrap_reopen (open_db path s)
  reopen path s (some e) = (s, err (remove_failed e))

  unfoldable pub recreate : Text → S × Result E D → S × Result (OpenError E) D
  recreate path (s, ok db) = (s, ok db)
  recreate path (s, err e) =
      let removed = engine.remove path s in reopen path removed.0 (removal_error removed.1)

  -- `Open`.
  unfoldable pub open_store : Text → S → S × Result (OpenError E) D
  open_store data_dir s =
      let path = engine.join data_dir (codes "temps.db") in recreate path (open_db path s)

  -- `Close`.
  unfoldable pub close_store : D → S → S × Option E
  close_store db s = engine.close db s
