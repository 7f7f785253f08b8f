-- ===== src/Main.antt =====
-- cmd/zfs-nas-dashboard/main.go: the configuration, the store, the server, and how they end.
--
-- `listen` is srv.ListenAndServe: what goes on while the server runs, on the state of the database
-- driver, and the error that it returns. Here signals, Shutdown and the other goroutines are within it;
-- Main/Shutdown has them apart.
pub mod Connections
pub mod Shutdown
mod Tests
use zfs_nas_dashboard.Prelude.{
  ◌≡◌, refl, ◌⊎◌, inl, inr, Bool, if◌then◌else◌, Option, none, some, List, [], ◌++◌,
}
use zfs_nas_dashboard.Prelude.Result.{Result, ok, err, Result-cases}
use zfs_nas_dashboard.Go.Strings.{Text, codes}
use zfs_nas_dashboard.Broker
use zfs_nas_dashboard.Broker.Invariant.{IsValid, new-IsValid}
use zfs_nas_dashboard.Config.{Env, Config, ConfigError, load}
use zfs_nas_dashboard.Store.{Engine, OpenError, open_store, close_store}
use zfs_nas_dashboard.Poller.{Poller, new, latest_smart, latest_files}

-- The three errors of `log.Fatal`, which exits without the deferred calls.
pub data Fatal (E V : Type 0) : Type 0 where
  config_failed : List ConfigError → Fatal E V
  store_failed : OpenError E → Fatal E V
  server_failed : V → Fatal E V

pub data Exit (E V : Type 0) : Type 0 where
  returned : Exit E V
  fatal : Fatal E V → Exit E V

-- What main calls of net/http: the comparison with http.ErrServerClosed, and the server on an
-- address, with the configuration and the state that its handlers read.
pub record Server (S D F V : Type 0) : Type 0 where
  pub is_server_closed : V → Bool
  pub listen : Text → Config → Poller D F → S → S × Option V

module _ {S D E : Type 0} (engine : Engine S D E) where
  unfoldable pub opened :
      {F V : Type 0}
      → Config
      → S × Result (OpenError E) D
      → S × Result (Fatal E V) (Config × Poller D F)
  opened cfg (s, ok st) = (s, ok (cfg, new st Broker.new))
  opened cfg (s, err e) = (s, err (store_failed e))

  unfoldable pub configured :
      {F V : Type 0}
      → Result (List ConfigError) Config
      → S
      → S × Result (Fatal E V) (Config × Poller D F)
  configured (ok cfg) s = opened cfg (open_store engine cfg.data_dir s)
  configured (err es) s = (s, err (config_failed es))

  -- The configuration and the server's state before the goroutines start.
  unfoldable pub start : {F V : Type 0} → Env → S → S × Result (Fatal E V) (Config × Poller D F)
  start env s = configured (load env) s

  -- The end of main, with the deferred `st.Close()`.
  unfoldable pub return_from : {V : Type 0} → D → S → S × Exit E V
  return_from st s = ((close_store engine st s).0, returned)

  -- `err != nil && err != http.ErrServerClosed`.
  unfoldable pub served : {F V : Type 0} → Server S D F V → D → S × Option V → S × Exit E V
  served server st (s, none) = return_from st s
  served server st (s, some e) =
      if server.is_server_closed e then return_from st s else (s, fatal (server_failed e))

  unfoldable pub serve :
      {F V : Type 0} → Server S D F V → S × Result (Fatal E V) (Config × Poller D F) → S × Exit E V
  serve server (s, ok (cfg, p)) =
      served server p.store (server.listen (codes ":" ++ cfg.port) cfg p s)
  serve server (s, err e) = (s, fatal e)

  unfoldable pub main : {F V : Type 0} → Server S D F V → Env → S → S × Exit E V
  main server env s = serve server (start env s)

  -- The program starts exactly if its configuration is read and its store opens, and then with a
  -- valid broker and empty caches; without a configuration it opens nothing.
  abbrev pub Starts :
      {F V : Type 0}
      → Result (List ConfigError) Config
      → S
      → S × Result (Fatal E V) (Config × Poller D F)
      → Type 0
  Starts (err es) s r = r ≡ (s, err (config_failed es))
  Starts {F = F} (ok cfg) s r =
      let store = open_store engine cfg.data_dir s in
      ((e : OpenError E) × (store.1 ≡ err e) × (r ≡ (store.0, err (store_failed e))))
      ⊎ ((p : Poller D F) × (store.1 ≡ ok p.store)
          × (r ≡ (store.0, ok (cfg, p)))
          × IsValid p.broker
          × (latest_smart p ≡ [])
          × (latest_files p ≡ none))

  opened-Starts :
      {F V : Type 0} (cfg : Config) (s : S) (r : S × Result (OpenError E) D)
      → open_store engine cfg.data_dir s ≡ r
      → Starts {F = F} {V = V} (ok cfg) s (opened cfg r)
  unfolding opened
  opened-Starts cfg s (s', err e) h = inl (e, rw h refl, rw h refl)
  opened-Starts cfg s (s', ok st) h =
      inr (new st Broker.new, rw h refl, rw h refl, new-IsValid, refl, refl)

  pub start_lem :
      (F V : Type 0) (env : Env) (s : S) → Starts {F = F} {V = V} (load env) s (start env s)
  unfolding start configured
  start_lem F V env s = elim (Result-cases (load env)) [
    | inl (cfg, e) ↦ rw e (opened-Starts cfg s (open_store engine cfg.data_dir s) refl)
    | inr (es, e) ↦ rw e refl
  ]
