-- ===== src/Main/Connections.antt =====
-- cmd/zfs-nas-dashboard/main.go: the database connections that the program leaves open at its end.
use zfs_nas_dashboard.Prelude.{
  ℕ, suc, ◌+◌, ◌≡◌, ◌∙◌, Bool-cases, inl, inr, List, Option, none, some, arith,
}
use zfs_nas_dashboard.Prelude.Result.{Result, ok, err}
use zfs_nas_dashboard.Go.Strings.{Text}
use zfs_nas_dashboard.Config.{Env, Config, ConfigError, load}
use zfs_nas_dashboard.Store.{Engine, OpenError}
use zfs_nas_dashboard.Store.{close_store}
use zfs_nas_dashboard.Store.Handles.{Adds, CountsConnections, open_store-held}
use zfs_nas_dashboard.Poller.{Poller}
use zfs_nas_dashboard.Main.{
  config_failed, store_failed, server_failed, Exit, returned, fatal, Server, opened, configured,
  start, return_from, served, serve, main,
}

-- The connections that an end leaves open.
abbrev pub left_open : {E V : Type 0} → Exit E V → ℕ
left_open returned = 0
left_open (fatal (config_failed es)) = 0
left_open (fatal (store_failed e)) = 0
left_open (fatal (server_failed e)) = 1

abbrev Leaves : {S E V : Type 0} → (S → ℕ) → ℕ → S × Exit E V → Type 0
Leaves held n r = held r.0 ≡ n + left_open r.1

-- Nothing that runs beside the server opens or closes a connection.
abbrev pub KeepsConnections : {S D F V : Type 0} → Server S D F V → (S → ℕ) → Type 0
KeepsConnections server held =
    (addr : Text) (cfg : Config) (p : Poller _ _) (s : _)
    → held (server.listen addr cfg p s).0 ≡ held s

module _ {S D E F V : Type 0} (engine : Engine S D E) (held : S → ℕ)
    (laws : CountsConnections engine held) (server : Server S D F V)
    (keeps : KeepsConnections server held) where
  return_from-Leaves :
      (n : ℕ) (st : D) (s : S) → held s ≡ suc n → Leaves held n (return_from engine {V = V} st s)
  unfolding return_from close_store
  return_from-Leaves n st s h = omega (arith, laws.close-held st n s h)

  served-Leaves :
      (n : ℕ) (st : D) (r : S × Option V)
      → held r.0 ≡ suc n
      → Leaves held n (served engine server st r)
  unfolding served
  served-Leaves n st (s, none) h = return_from-Leaves n st s h
  served-Leaves n st (s, some e) h = elim (Bool-cases (server.is_server_closed e)) [
    | inl t ↦ rw t (return_from-Leaves n st s h)
    | inr f ↦ rw f (omega (arith, h))
  ]

  opened-Leaves :
      (n : ℕ) (cfg : Config) (r : S × Result (OpenError E) D)
      → Adds held n r
      → Leaves held n (serve engine server (opened engine cfg r))
  unfolding serve opened
  opened-Leaves n cfg (s, ok st) h = served-Leaves n st _ (keeps _ cfg _ s ∙ omega (arith, h))
  opened-Leaves n cfg (s, err e) h = h

  configured-Leaves :
      (c : Result (List ConfigError) Config) (s : S)
      → Leaves held (held s) (serve engine server (configured engine c s))
  unfolding configured serve
  configured-Leaves (ok cfg) s =
      opened-Leaves (held s) cfg _ (open_store-held engine held laws cfg.data_dir s)
  configured-Leaves (err es) s = omega arith

  -- However main ends, no connection is left open but one: when the server fails with an error other
  -- than ErrServerClosed, the exit skips the deferred Close and leaves that of the store. A failed
  -- start and a return leave open exactly the connections that were open before. The driver must
  -- count its connections as sql.Open and Close say, and nothing beside the server may open or
  -- close one.
  pub main-held :
      (env : Env) (s : S)
      → held (main engine server env s).0 ≡ held s + left_open (main engine server env s).1
  unfolding main start
  main-held env s = configured-Leaves (load env) s
