-- ===== src/Store/History.antt =====
-- internal/store/store.go: how long a reading is shown.
use zfs_nas_dashboard.Prelude.{
  ℕ, ◌^◌, ◌<◌, ◌≡◌, refl, sym, ap, subst, ◌∙◌, ◌↔◌, ◌⊎◌, inl, inr, Option, none, List, [], ◌∷◌,
  ◌++◌, arith, In, In-append, both, ℤ, pos, ◌≤ℤ◌, ◌<ℤ◌,
}
use zfs_nas_dashboard.Prelude.Result.{Result, ok, err}
use zfs_nas_dashboard.Go.Strings.{Text}
use zfs_nas_dashboard.Go.Time.{
  Duration, second, add, neg, unix, unix_mono, add_mono, unix-lt, add-neg-le,
}
use zfs_nas_dashboard.Store.Rows.{TempRow, Sql, insert, prune, get_since, read_rows, scan_rows}

-- What SQLite does with the table, whose rows are `rows`: an insertion that reports no error has
-- put the row in, a deletion spares the rows from its cutoff on, a query that ends without an error
-- has given every row after its cutoff and no other, and the clock does not go back.
pub record KeepsRows {D C E : Type 0} (sql : Sql D C E) (rows : D → List (TempRow C)) : Type 0 where
  pub insert-row :
      (ts : ℤ) (disk : Text) (c : C) (s : D)
      → (sql.insert_temp ts disk c s).1 ≡ none
      → In (record { ts = ts; disk = disk; celsius = c }) (rows (sql.insert_temp ts disk c s).0)
  pub insert-keeps :
      (ts : ℤ) (disk : Text) (c : C) (s : D) (r : TempRow C)
      → In r (rows s)
      → In r (rows (sql.insert_temp ts disk c s).0)
  pub delete-keeps :
      (cutoff : ℤ) (s : D) (r : TempRow C)
      → In r (rows s)
      → cutoff ≤ℤ r.ts
      → In r (rows (sql.delete_before cutoff s).0)
  pub select-rows :
      (cutoff : ℤ) (s : D) (found : List (Result E (TempRow C))) (r : TempRow C)
      → sql.select_after cutoff s ≡ ok (found, none)
      → In (ok r) found ↔ (In r (rows s) × (cutoff <ℤ r.ts))
  pub insert-now :
      (ts : ℤ) (disk : Text) (c : C) (s : D) → sql.now s ≤ℤ sql.now (sql.insert_temp ts disk c s).0
  pub delete-now : (cutoff : ℤ) (s : D) → sql.now s ≤ℤ sql.now (sql.delete_before cutoff s).0

-- What happens to a store whose history has the length `d`: readings come, what is older than
-- the history is pruned, and time passes.
pub data Step {D C E : Type 0} (sql : Sql D C E) (rows : D → List (TempRow C)) (d : Duration)
    : D → D → Type 0 where
  inserts : (disk : Text) (c : C) (s : D) → Step sql rows d s (insert sql disk c s).0
  prunes : (s : D) → Step sql rows d s (prune sql (add (sql.now s) (neg d)) s).0
  waits : (s u : D) → rows u ≡ rows s → sql.now s ≤ℤ sql.now u → Step sql rows d s u

pub data Reach {D C E : Type 0} (sql : Sql D C E) (rows : D → List (TempRow C)) (d : Duration)
    (s : D) : D → Type 0 where
  here : Reach sql rows d s s
  next : {t u : D} → Reach sql rows d s t → Step sql rows d t u → Reach sql rows d s u

move-In :
    {C : Type 0} (E : Type 0) (r x : TempRow C) (result : List (TempRow C)) (B : Type 0)
    → (In r (result ++ x ∷ []) ⊎ B)
      ↔ (In r result ⊎ ((◌≡◌ {A = Result E (TempRow C)} (ok x) (ok r)) ⊎ B))
move-In E r x result B = (
  elim [
    | inl i ↦ elim ((In-append r result (x ∷ [])).0 i) [
      | inl a ↦ inl a
      | inr b ↦ elim b [ inl e ↦ inr (inl (ap ok e)) | inr n ↦ absurd n ]
    ]
    | inr b ↦ inr (inr b)
  ],
  elim [
    | inl a ↦ inl ((In-append r result (x ∷ [])).1 (inl a))
    | inr (inl e) ↦ inl ((In-append r result (x ∷ [])).1 (inr (inl (cc))))
    | inr (inr b) ↦ inr b
  ],
)

-- The loop ends without an error only if no row failed, and then has all rows.
scan_rows-In :
    {C E : Type 0} (result : List (TempRow C)) (found : List (Result E (TempRow C))) (e : Option E)
    (out : List (TempRow C)) (r : TempRow C)
    → scan_rows result found e ≡ (out, none)
    → (e ≡ none) × (In r out ↔ (In r result ⊎ In (ok r) found))
unfolding scan_rows
scan_rows-In result [] e out r h =
    (ap (λ p. p.1) h, rw (← ap (λ p. p.0) h) ((λ a. inl a), elim [ inl a ↦ a | inr b ↦ absurd b ]))
scan_rows-In {E} result (ok x ∷ found) e out r h =
    let (done, out_iff) = scan_rows-In (result ++ x ∷ []) found e out r h in
    (done, both out_iff (move-In E r x result (In (ok r) found)))
scan_rows-In result (err x ∷ found) e out r h = absurd (cc (ap (λ p. p.1) h))

-- The second of the present less the duration.
abbrev pub cutoff_at : {D C E : Type 0} → Sql D C E → Duration → D → ℤ
cutoff_at sql d s = unix (add (sql.now s) (neg d))

module _ {D C E : Type 0} (sql : Sql D C E) (rows : D → List (TempRow C)) (d : Duration)
    (laws : KeepsRows sql rows) where
  read_rows-In :
      (cutoff : ℤ) (s : D) (out : List (TempRow C)) (r : TempRow C)
      (found : Result E (List (Result E (TempRow C)) × Option E))
      → sql.select_after cutoff s ≡ found
      → read_rows sql found ≡ (out, none)
      → In r out ↔ (In r (rows s) × (cutoff <ℤ r.ts))
  unfolding read_rows
  read_rows-In cutoff s out r (ok (found, e)) q h =
      let (done, out_iff) = scan_rows-In [] found e out r h in
      both (both out_iff (elim [ inl n ↦ absurd n | inr i ↦ i ], λ i. inr i))
        (laws.select-rows cutoff s found r (q ∙ ap (λ n. ok (found, n)) done))
  read_rows-In cutoff s out r (err e) q h = absurd (cc (ap (λ p. p.1) h))

  cutoff_mono : (s u : D) → sql.now s ≤ℤ sql.now u → cutoff_at sql d s ≤ℤ cutoff_at sql d u
  cutoff_mono s u h = unix_mono _ _ (add_mono (sql.now s) (sql.now u) (neg d) h)

  -- A row that is no older than the cutoff of the end is still there.
  Reach-In :
      (s u : D) (r : TempRow C)
      → Reach sql rows d s u
      → In r (rows s)
      → (sql.now s ≤ℤ sql.now u) × (cutoff_at sql d u ≤ℤ r.ts → In r (rows u))
  unfolding insert prune
  Reach-In s u r here i = (omega arith, λ h. i)
  Reach-In s u r (next p (inserts disk c t)) i =
      let (n, k) = Reach-In s t r p i in
      let m = laws.insert-now (unix (sql.now t)) disk c t in
      let w = cutoff_mono t (insert sql disk c t).0 m in
      (omega arith, λ h. laws.insert-keeps _ disk c t r (k (omega arith)))
  Reach-In s u r (next p (prunes t)) i =
      let (n, k) = Reach-In s t r p i in
      let m = laws.delete-now (cutoff_at sql d t) t in
      let w = cutoff_mono t (prune sql (add (sql.now t) (neg d)) t).0 m in
      (omega arith, λ h. laws.delete-keeps _ t r (k (omega arith)) (omega arith))
  Reach-In s u r (next p (waits t w same later)) i =
      let (n, k) = Reach-In s t r p i in
      let m = cutoff_mono t w later in (omega arith, λ h. subst (In r) (sym same) (k (omega arith)))

  -- A GetSince that reports no error, on a connection that keeps the table, shows exactly the rows
  -- whose second is after that of the present less the duration, whatever the rows are.
  pub get_since-In :
      (s : D) (out : List (TempRow C)) (r : TempRow C)
      → get_since sql d s ≡ (out, none)
      → In r out ↔ (In r (rows s) × (cutoff_at sql d s <ℤ r.ts))
  unfolding get_since
  get_since-In s out r h = read_rows-In _ s out r _ refl h

-- A reading that was inserted without an error is shown by every later GetSince without an error,
-- until a second before the history has passed, whatever is inserted and pruned in between with the
-- same history. The connection must keep the table and not turn back its clock, and the history
-- must not be negative.
pub get_since-Shows :
    {D C E : Type 0} (sql : Sql D C E) (rows : D → List (TempRow C)) (n : ℕ)
    → KeepsRows sql rows
    → n < 2 ^ 63
    → (disk : Text) (c : C) (s u : D) (out : List (TempRow C)) → (insert sql disk c s).1 ≡ none
    → Reach sql rows (pos n) (insert sql disk c s).0 u
    → add (sql.now u) second ≤ℤ add (sql.now s) (pos n)
    → get_since sql (pos n) u ≡ (out, none)
    → In (record { ts = unix (sql.now s); disk = disk; celsius = c }) out
unfolding insert
get_since-Shows {C} sql rows n laws b disk c s u out done path young shown =
    let row : TempRow C = record { ts = unix (sql.now s); disk = disk; celsius = c } in
    let (m, kept) = Reach-In sql rows (pos n) laws _ u row path (laws.insert-row _ disk c s done) in
    let after = unix-lt _ _ (add-neg-le (sql.now s) (sql.now u) n b young) in
    (get_since-In sql rows (pos n) laws u out row shown).1 (kept (omega arith), after)
