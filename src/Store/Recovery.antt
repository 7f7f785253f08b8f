-- ===== src/Store/Recovery.antt =====
-- internal/store/store.go: `Open` on a database that cannot be opened.
use zfs_nas_dashboard.Prelude.{
  ◌≡◌, refl, ◌⊎◌, inl, inr, Bool, false, Option, none, some, arith, Option-cases,
}
use Prim.{⊥, absurd}
use zfs_nas_dashboard.Prelude.Result.{Result, ok, err}
use zfs_nas_dashboard.Go.Strings.{Text, codes}
use zfs_nas_dashboard.Store.{
  Statement, create_temps, read_temps, Engine, OpenError, remove_failed, ◌>>=◌, close_on_error,
  open_db, removal_error, wrap_reopen, reopen, recreate, open_store,
}

-- The result is a store, or the error of a removal that was tried.
abbrev pub Opened : {S D E : Type 0} → (E → Bool) → S × Result (OpenError E) D → Type 0
Opened {D = D} {E = E} is_not_exist r =
    ((db : D) × (r.1 ≡ ok db))
    ⊎ ((e : E) × (r.1 ≡ err (remove_failed e)) × (is_not_exist e ≡ false))

-- After a first attempt that gave a database, exactly that; after one that failed, what `Opened` says.
abbrev pub Recovers :
    {S D E : Type 0} → (E → Bool) → S × Result E D → S × Result (OpenError E) D → Type 0
Recovers is_not_exist (s, ok db) r = r ≡ (s, ok db)
Recovers is_not_exist (s, err e) r = Opened is_not_exist r

-- A connection on which the two statements of `open` run.
abbrev pub Connected : {S D E : Type 0} → (D → S → Type 0) → S × Result E D → Type 0
Connected ready (s, ok db) = ready db s
Connected ready (s, err e) = ⊥

-- The database's directory is usable as long as the process may write there and has room. There, a
-- file is gone once os.Remove returns nil or an error that says that there is none; and on a path
-- without a file the driver makes a new database, on which the statements run. No call here takes
-- the directory away.
pub record StartsFresh {S D E : Type 0} (engine : Engine S D E) (usable absent : Text → S → Type 0)
    (ready : D → S → Type 0) : Type 0 where
  pub connect-usable : (path : Text) (s : S) → usable path s → usable path (engine.connect path s).0
  pub exec-usable :
      (path : Text) (db : D) (q : Statement) (s : S)
      → usable path s
      → usable path (engine.exec db q s).0
  pub close-usable :
      (path : Text) (db : D) (s : S) → usable path s → usable path (engine.close db s).0
  pub remove-usable : (path : Text) (s : S) → usable path s → usable path (engine.remove path s).0
  pub remove-absent :
      (path : Text) (s : S)
      → usable path s
      → removal_error engine (engine.remove path s).1 ≡ none
      → absent path (engine.remove path s).0
  pub connect-Connected :
      (path : Text) (s : S)
      → usable path s
      → absent path s
      → Connected ready (engine.connect path s)
  pub exec-ready :
      (db : D) (q : Statement) (s : S)
      → ready db s
      → ((engine.exec db q s).1 ≡ none) × ready db (engine.exec db q s).0

module _ {S D E : Type 0} (engine : Engine S D E) (usable absent : Text → S → Type 0)
    (ready : D → S → Type 0) (laws : StartsFresh engine usable absent ready) where
  >>=-usable :
      (path : Text) (r : S × Result E D) (k : D × S → S × Result E D)
      → usable path r.0
      → ((c : D × S) → usable path c.1 → usable path (k c).0)
      → usable path (r >>= k).0
  >>=-usable path (s, ok db) k u h = h (db, s) u
  >>=-usable path (s, err e) k u h = u

  close_on_error-usable :
      (path : Text) (db : D) (r : S × Option E)
      → usable path r.0
      → usable path (close_on_error engine db r).0
  unfolding close_on_error
  close_on_error-usable path db (s, none) u = u
  close_on_error-usable path db (s, some e) u = laws.close-usable path db s u

  run-usable :
      (path : Text) (q : Statement) (c : D × S)
      → usable path c.1
      → usable path (close_on_error engine c.0 (engine.exec c.0 q c.1)).0
  run-usable path q c u = close_on_error-usable path c.0 _ (laws.exec-usable path c.0 q c.1 u)

  open_db-usable : (path : Text) (s : S) → usable path s → usable path (open_db engine path s).0
  unfolding open_db
  open_db-usable path s u =
      >>=-usable path _ _
        (>>=-usable path _ _ (laws.connect-usable path s u) (run-usable path create_temps))
        (run-usable path read_temps)

  >>=-Connected :
      (r : S × Result E D) (k : D × S → S × Result E D)
      → Connected ready r
      → ((c : D × S) → ready c.0 c.1 → Connected ready (k c))
      → Connected ready (r >>= k)
  >>=-Connected (s, ok db) k c h = h (db, s) c
  >>=-Connected (s, err e) k c h = absurd c

  close_on_error-Connected :
      (db : D) (r : S × Option E)
      → (r.1 ≡ none) × ready db r.0
      → Connected ready (close_on_error engine db r)
  unfolding close_on_error
  close_on_error-Connected db (s, none) h = h.1
  close_on_error-Connected db (s, some e) h = cc (h.0)

  exec-Connected :
      (q : Statement) (c : D × S)
      → ready c.0 c.1
      → Connected ready (close_on_error engine c.0 (engine.exec c.0 q c.1))
  exec-Connected q c h = close_on_error-Connected c.0 _ (laws.exec-ready c.0 q c.1 h)

  open_db-Connected :
      (path : Text) (s : S)
      → usable path s
      → absent path s
      → Connected ready (open_db engine path s)
  unfolding open_db
  open_db-Connected path s u h =
      >>=-Connected _ _
        (>>=-Connected _ _ (laws.connect-Connected path s u h) (exec-Connected create_temps))
        (exec-Connected read_temps)

  wrap_reopen-Opened :
      (r : S × Result E D) → Connected ready r → Opened engine.is_not_exist (wrap_reopen engine r)
  unfolding wrap_reopen
  wrap_reopen-Opened (s, ok db) c = inl (db, refl)
  wrap_reopen-Opened (s, err e) c = absurd c

  -- An error that `Open` returns of a removal is one of os.Remove.
  removal_error-some :
      (e : E) (r : Option E) → removal_error engine r ≡ some e → engine.is_not_exist e ≡ false
  unfolding removal_error
  removal_error-some e none h = cc h
  removal_error-some e (some d) h = grind (arith, h)

  reopen-Opened :
      (path : Text) (s : S) (r : Option E)
      → usable path s
      → (removal_error engine r ≡ none → absent path s)
      → Opened engine.is_not_exist (reopen engine path s (removal_error engine r))
  unfolding reopen
  reopen-Opened path s r u h = elim (Option-cases (removal_error engine r)) [
    | inl n ↦ rw n (wrap_reopen-Opened _ (open_db-Connected path s u (h n)))
    | inr (e, n) ↦ rw n (inr (e, refl, removal_error-some e r n))
  ]

  recreate-Recovers :
      (path : Text) (r : S × Result E D)
      → usable path r.0
      → Recovers engine.is_not_exist r (recreate engine path r)
  unfolding recreate
  recreate-Recovers path (s, ok db) u = refl
  recreate-Recovers path (s, err e) u =
      reopen-Opened path _ (engine.remove path s).1 (laws.remove-usable path s u)
        (laws.remove-absent path s u)

  -- A database that can be opened is opened as it is, and nothing is removed. From any other state,
  -- also on a damaged database, `Open` gives a store as long as the directory is usable, unless the
  -- file cannot be removed: its only error is then one of os.Remove other than "does not exist".
  -- In a usable directory, a removal that gives no other error leaves no file, and a path without a
  -- file opens as a new database.
  pub open_store-Recovers :
      (data_dir : Text) (s : S)
      → usable (engine.join data_dir (codes "temps.db")) s
      → Recovers engine.is_not_exist
          (open_db engine (engine.join data_dir (codes "temps.db")) s)
          (open_store engine data_dir s)
  unfolding open_store
  open_store-Recovers data_dir s u =
      let path = engine.join data_dir (codes "temps.db") in
      recreate-Recovers path (open_db engine path s) (open_db-usable path s u)
