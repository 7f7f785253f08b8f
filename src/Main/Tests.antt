-- ===== src/Main/Tests.antt =====
-- Runs of main, on the driver of one file.
use zfs_nas_dashboard.Prelude.{ℕ, ◌+◌, ◌≡◌, refl, Bool, true, false, some, ◌*ℤ◌, wrap64}
use zfs_nas_dashboard.Go.Strings.{codes}
use zfs_nas_dashboard.Go.Strconv.{atoi}
use zfs_nas_dashboard.Config.{Env, append_int, env_string, seconds, parse_config, load}
use zfs_nas_dashboard.Store.{
  close_store, recreate, open_db, close_on_error, reopen, removal_error, wrap_reopen, open_store,
}
use zfs_nas_dashboard.Store.Tests.{
  Disk, no_file, database, one_file, held, one_file-CountsConnections,
}
use zfs_nas_dashboard.Main.{
  server_failed, fatal, returned, Server, opened, configured, start, return_from, served, serve,
  main,
}
use zfs_nas_dashboard.Main.Connections.{left_open, main-held}

-- Every variable is "1".
abbrev ones : Env
ones key = codes "1"

-- A server that ends at once; the error is true when it is http.ErrServerClosed.
abbrev ends_with : Bool → Server Disk ℕ (Unit {0}) Bool
ends_with error = record { is_server_closed = λ e. e; listen = λ addr cfg p s. (s, some error) }

abbrev empty_disk : Disk
empty_disk = record { file = no_file; connections = 0; writable = true }

closed_server :
    main one_file (ends_with true) ones empty_disk
    ≡ ((record { file = database; connections = 0; writable = true }, returned))
unfolding main start configured opened serve served return_from close_store open_store recreate
    open_db close_on_error reopen removal_error wrap_reopen load parse_config append_int atoi
    seconds env_string ◌*ℤ◌ wrap64
closed_server = refl

failed_server :
    main one_file (ends_with false) ones empty_disk
    ≡ ((record { file = database; connections = 1; writable = true }, fatal (server_failed false)))
unfolding main start configured opened serve served return_from close_store open_store recreate
    open_db close_on_error reopen removal_error wrap_reopen load parse_config append_int atoi
    seconds env_string ◌*ℤ◌ wrap64
failed_server = refl

main-held_example :
    held (main one_file (ends_with false) ones empty_disk).0
    ≡ held empty_disk + left_open (main one_file (ends_with false) ones empty_disk).1
main-held_example =
    main-held one_file held one_file-CountsConnections (ends_with false) (λ addr cfg p s. refl) ones
      empty_disk
