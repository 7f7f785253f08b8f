-- ===== src/Store/Tests.antt =====
-- A driver on one file, and runs of `Open`.
use zfs_nas_dashboard.Prelude.{
  ℕ, suc, ◌-◌, ◌≡◌, refl, ap, Bool, true, false, Option, none, some, ◌++◌, arith,
}
use zfs_nas_dashboard.Prelude.Result.{ok}
use zfs_nas_dashboard.Go.Strings.{Text, codes}
use zfs_nas_dashboard.Store.{
  Engine, recreate, open_db, close_on_error, reopen, removal_error, wrap_reopen, open_store,
}
use zfs_nas_dashboard.Store.Handles.{CountsConnections}
use zfs_nas_dashboard.Store.Recovery.{Recovers, StartsFresh, open_store-Recovers}

pub data File : Type 0 where
  no_file : File
  damaged : File
  database : File

pub record Disk : Type 0 where
  pub file : File
  pub connections : ℕ
  pub writable : Bool

-- On a database, a damaged file, or none; only the last needs the directory.
abbrev create : Bool → File → File × Option Bool
create true no_file = (database, none)
create false no_file = (no_file, some false)
create _ damaged = (damaged, some false)
create _ database = (database, none)

-- The error is true when it says that the file does not exist.
abbrev unlink : Bool → File → File × Option Bool
unlink _ no_file = (no_file, some true)
unlink true damaged = (no_file, none)
unlink true database = (no_file, none)
unlink false damaged = (damaged, some false)
unlink false database = (database, some false)

-- A driver that notices a damaged file at the first statement.
abbrev pub one_file : Engine Disk ℕ Bool
one_file = record {
  join = λ dir name. dir ++ codes "/" ++ name;
  connect = λ path s. (record s { connections = suc s.connections }, ok 0);
  exec = λ db q s. (record s { file = (create s.writable s.file).0 }, (create s.writable s.file).1);
  close = λ db s. (record s { connections = s.connections - 1 }, none);
  remove =
      λ path s. (record s { file = (unlink s.writable s.file).0 }, (unlink s.writable s.file).1);
  is_not_exist = λ e. e;
}

abbrev pub held : Disk → ℕ
held s = s.connections

pub one_file-CountsConnections : CountsConnections one_file held
one_file-CountsConnections = record {
  connect-held = λ path s. omega arith;
  exec-held = λ db q s. refl;
  close-held = λ db n s h. omega (arith, h);
  remove-held = λ path s. refl;
}

abbrev is_damaged : File → Bool
is_damaged no_file = false
is_damaged damaged = true
is_damaged database = false

abbrev Absent : Text → Disk → Type 0
Absent path s = s.file ≡ no_file

abbrev Usable : Text → Disk → Type 0
Usable path s = s.writable ≡ true

abbrev Ready : ℕ → Disk → Type 0
Ready db s = (is_damaged s.file ≡ false) × (s.writable ≡ true)

unlink-absent :
    (w : Bool) (f : File)
    → w ≡ true
    → removal_error one_file (unlink w f).1 ≡ none
    → (unlink w f).0 ≡ no_file
unfolding removal_error
unlink-absent true no_file u h = refl
unlink-absent true damaged u h = refl
unlink-absent true database u h = refl
unlink-absent false f u h = cc u

create-ready :
    (w : Bool) (f : File)
    → is_damaged f ≡ false
    → w ≡ true
    → ((create w f).1 ≡ none) × (is_damaged (create w f).0 ≡ false)
create-ready true no_file h u = (refl, refl)
create-ready true damaged h u = cc h
create-ready true database h u = (refl, refl)
create-ready false f h u = cc u

one_file-StartsFresh : StartsFresh one_file Usable Absent Ready
one_file-StartsFresh = record {
  connect-usable = λ path s u. u;
  exec-usable = λ path db q s u. u;
  close-usable = λ path db s u. u;
  remove-usable = λ path s u. u;
  remove-absent = λ path s u h. unlink-absent s.writable s.file u h;
  connect-Connected = λ path s u h. (ap is_damaged h, u);
  exec-ready = λ db q s h. let (e, d) = create-ready s.writable s.file h.0 h.1 in (e, (d, h.1));
}

abbrev damaged_disk : Disk
damaged_disk = record { file = damaged; connections = 4; writable = true }

recreated :
    open_store one_file (codes "data") damaged_disk
    ≡ (record { file = database; connections = 5; writable = true }, ok 0)
unfolding open_store recreate open_db close_on_error reopen removal_error wrap_reopen
recreated = refl

open_store-Recovers_example :
    Recovers
      (λ e. e)
      (open_db one_file (codes "data/temps.db") damaged_disk)
      (open_store one_file (codes "data") damaged_disk)
open_store-Recovers_example =
    open_store-Recovers one_file Usable Absent Ready one_file-StartsFresh (codes "data")
      damaged_disk refl
