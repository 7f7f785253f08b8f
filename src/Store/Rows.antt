-- ===== src/Store/Rows.antt =====
-- internal/store/store.go: the statements on the table of readings.
--
-- The connection is the argument `sql`, on a state that holds the table and the clock.
use zfs_nas_dashboard.Prelude.{Option, some, List, [], ◌∷◌, ◌++◌, ℤ}
use zfs_nas_dashboard.Go.Strings.{Text}
use zfs_nas_dashboard.Go.Time.{Time, add, neg, unix}
use zfs_nas_dashboard.Prelude.Result.{Result, ok, err}

pub record TempRow (C : Type 0) : Type 0 where
  pub ts : ℤ
  pub disk : Text
  pub celsius : C

-- The connection with its clock: time.Now, the three statements with their arguments in order, and
-- for the query what Scan gives of each row that Next reaches, and Err at the end.
pub record Sql (D C E : Type 0) : Type 0 where
  pub now : D → Time
  pub insert_temp : ℤ → Text → C → D → D × Option E
  pub select_after : ℤ → D → Result E (List (Result E (TempRow C)) × Option E)
  pub delete_before : ℤ → D → D × Option E

-- The loop over the rows, with rows.Err() at the end; a failed Scan forgets the rows before it.
unfoldable pub scan_rows :
    {C E : Type 0}
    → List (TempRow C)
    → List (Result E (TempRow C))
    → Option E
    → List (TempRow C) × Option E
scan_rows result [] e = (result, e)
scan_rows result (ok r ∷ rs) e = scan_rows (result ++ r ∷ []) rs e
scan_rows result (err x ∷ rs) e = ([], some x)

module _ {D C E : Type 0} (sql : Sql D C E) where
  -- `Insert`.
  unfoldable pub insert : Text → C → D → D × Option E
  insert disk celsius s = sql.insert_temp (unix (sql.now s)) disk celsius s

  unfoldable pub read_rows :
      Result E (List (Result E (TempRow C)) × Option E) → List (TempRow C) × Option E
  read_rows (ok (rows, e)) = scan_rows [] rows e
  read_rows (err e) = ([], some e)

  -- `GetSince`: the rows and an error, which may come with rows.
  unfoldable pub get_since : ℤ → D → List (TempRow C) × Option E
  get_since d s = read_rows (sql.select_after (unix (add (sql.now s) (neg d))) s)

  -- `Prune`.
  unfoldable pub prune : Time → D → D × Option E
  prune cutoff s = sql.delete_before (unix cutoff) s
