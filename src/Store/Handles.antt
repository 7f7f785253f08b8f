-- ===== src/Store/Handles.antt =====
-- internal/store/store.go: the connections that `Open` leaves open.
use zfs_nas_dashboard.Prelude.{ℕ, suc, ◌+◌, ◌≡◌, subst, ◌∙◌, Option, none, some, arith}
use zfs_nas_dashboard.Prelude.Result.{Result, ok, err}
use zfs_nas_dashboard.Go.Strings.{Text, codes}
use zfs_nas_dashboard.Store.{
  Statement, create_temps, read_temps, Engine, ◌>>=◌, close_on_error, open_db, wrap_reopen, reopen,
  recreate, open_store,
}

-- The connections that the caller of an opening owns.
abbrev pub owned : {D E : Type 0} → Result E D → ℕ
owned (ok db) = 1
owned (err e) = 0

-- An opening that adds to `n` open connections the one that it returns.
abbrev pub Adds : {S D E : Type 0} → (S → ℕ) → ℕ → S × Result E D → Type 0
Adds held n r = held r.0 ≡ n + owned r.1

-- What the driver does with connections: sql.Open makes one unless it fails, Close gives one
-- back even when it reports an error, and nothing else touches them.
pub record CountsConnections {S D E : Type 0} (engine : Engine S D E) (held : S → ℕ) : Type 0 where
  pub connect-held : (path : Text) (s : S) → Adds held (held s) (engine.connect path s)
  pub exec-held : (db : D) (q : Statement) (s : S) → held (engine.exec db q s).0 ≡ held s
  pub close-held : (db : D) (n : ℕ) (s : S) → held s ≡ suc n → held (engine.close db s).0 ≡ n
  pub remove-held : (path : Text) (s : S) → held (engine.remove path s).0 ≡ held s

module _ {S D E : Type 0} (engine : Engine S D E) (held : S → ℕ)
    (laws : CountsConnections engine held) where
  >>=-Adds :
      (n : ℕ) (r : S × Result E D) (k : D × S → S × Result E D)
      → Adds held n r
      → ((c : D × S) → held c.1 ≡ suc n → Adds held n (k c))
      → Adds held n (r >>= k)
  >>=-Adds n (s, ok db) k a h = h (db, s) (omega (arith, a))
  >>=-Adds n (s, err e) k a h = a

  close_on_error-Adds :
      (n : ℕ) (db : D) (r : S × Option E)
      → held r.0 ≡ suc n
      → Adds held n (close_on_error engine db r)
  unfolding close_on_error
  close_on_error-Adds n db (s, none) a = omega (arith, a)
  close_on_error-Adds n db (s, some e) a = omega (arith, laws.close-held db n s a)

  exec-Adds :
      (n : ℕ) (q : Statement) (c : D × S)
      → held c.1 ≡ suc n
      → Adds held n (close_on_error engine c.0 (engine.exec c.0 q c.1))
  exec-Adds n q c a =
      close_on_error-Adds n c.0 (engine.exec c.0 q c.1) (laws.exec-held c.0 q c.1 ∙ a)

  open_db-Adds : (path : Text) (s : S) → Adds held (held s) (open_db engine path s)
  unfolding open_db
  open_db-Adds path s =
      >>=-Adds (held s) _ _
        (>>=-Adds (held s) _ _ (laws.connect-held path s) (exec-Adds (held s) create_temps))
        (exec-Adds (held s) read_temps)

  wrap_reopen-Adds :
      (n : ℕ) (r : S × Result E D) → Adds held n r → Adds held n (wrap_reopen engine r)
  unfolding wrap_reopen
  wrap_reopen-Adds n (s, ok db) a = a
  wrap_reopen-Adds n (s, err e) a = a

  reopen-Adds :
      (path : Text) (n : ℕ) (s : S) (e : Option E)
      → held s ≡ n
      → Adds held n (reopen engine path s e)
  unfolding reopen
  reopen-Adds path n s none a =
      wrap_reopen-Adds n _
        (subst (λ m. Adds held m (open_db engine path s)) a (open_db-Adds path s))
  reopen-Adds path n s (some e) a = omega (arith, a)

  recreate-Adds :
      (path : Text) (n : ℕ) (r : S × Result E D)
      → Adds held n r
      → Adds held n (recreate engine path r)
  unfolding recreate
  recreate-Adds path n (s, ok db) a = a
  recreate-Adds path n (s, err e) a =
      reopen-Adds path n _ _ (laws.remove-held path s ∙ omega (arith, a))

  -- Whatever fails on the way, `Open` leaks no connection: it leaves open exactly those that were
  -- open before, and one more, the one it returns, when it returns a store. The driver must count
  -- its connections as sql.Open and Close say.
  pub open_store-held :
      (data_dir : Text) (s : S) → Adds held (held s) (open_store engine data_dir s)
  unfolding open_store
  open_store-held data_dir s =
      recreate-Adds (engine.join data_dir (codes "temps.db")) (held s) _ (open_db-Adds _ s)
