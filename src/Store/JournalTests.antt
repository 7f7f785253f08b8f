-- ===== src/Store/JournalTests.antt =====
-- A database that is a list of rows with a clock, and readings that it shows.
use zfs_nas_dashboard.Prelude.{
  ℕ, ◌≡◌, refl, sym, ap, ◌∙◌, ◌↔◌, inl, inr, Bool, true, none, List, [], ◌∷◌, ◌++◌, map, arith,
  if◌then◌else◌, Bool-cases, In, In-append, either, both, ℤ, pos, ◌+ℤ◌, ◌<ℤ◌, ltb_ℤ, leb_ℤ, wrap64,
}
use zfs_nas_dashboard.Prelude.Result.{Result, ok}
use zfs_nas_dashboard.Go.Strings.{Text, codes}
use zfs_nas_dashboard.Go.Time.{Time, add, neg, unix}
use zfs_nas_dashboard.Store.Rows.{TempRow, Sql, insert, get_since, read_rows, scan_rows}
use zfs_nas_dashboard.Store.History.{KeepsRows, waits, here, next, get_since-Shows}

pub record Journal : Type 0 where
  pub clock : Time
  pub table : List (TempRow ℤ)

abbrev pub keep_if : (TempRow ℤ → Bool) → List (TempRow ℤ) → List (TempRow ℤ)
keep_if p [] = []
keep_if p (r ∷ rs) = if p r then r ∷ keep_if p rs else keep_if p rs

abbrev pub journal : Sql Journal ℤ Text
journal = record {
  now = λ s. s.clock;
  insert_temp = λ ts disk c s.
      (record s { table = s.table ++ record { ts = ts; disk = disk; celsius = c } ∷ [] }, none);
  select_after = λ cutoff s. ok (map ok (keep_if (λ r. ltb_ℤ cutoff r.ts) s.table), none);
  delete_before = λ cutoff s. (record s { table = keep_if (λ r. leb_ℤ cutoff r.ts) s.table }, none);
}

In-keep_if :
    (p : TempRow ℤ → Bool) (r : TempRow ℤ) (rs : List (TempRow ℤ))
    → In r (keep_if p rs) ↔ (In r rs × (p r ≡ true))
In-keep_if p r [] = (λ n. absurd n, λ h. h.0)
In-keep_if p r (x ∷ rs) =
    let rest = In-keep_if p r rs in
    elim (Bool-cases (p x)) [
      | inl e ↦ rw e (
        elim [ inl q ↦ (inl q, ap p (sym q) ∙ e) | inr i ↦ (inr (rest.0 i).0, (rest.0 i).1) ],
        λ h. elim h.0 [ inl q ↦ inl q | inr i ↦ inr (rest.1 (i, h.1)) ],
      )
      | inr e ↦ rw e (
        (λ i. (inr (rest.0 i).0, (rest.0 i).1)),
        λ h. elim h.0 [ inl q ↦ absurd (cc (ap p q)) | inr i ↦ rest.1 (i, h.1) ],
      )
    ]

In-map_ok :
    (r : TempRow ℤ) (rs : List (TempRow ℤ))
    → In {A = Result Text (TempRow ℤ)} (ok r) (map ok rs) ↔ In r rs
In-map_ok r [] = (λ n. n, λ n. n)
In-map_ok r (x ∷ rs) = either (λ e. cc, λ e. ap ok e) (In-map_ok r rs)

select-journal :
    (cutoff : ℤ) (s : Journal) (found : List (Result Text (TempRow ℤ))) (r : TempRow ℤ)
    → journal.select_after cutoff s ≡ ok (found, none)
    → In (ok r) found ↔ (In r s.table × (cutoff <ℤ r.ts))
select-journal cutoff s found r h =
    let q : map ok (keep_if (λ r. ltb_ℤ cutoff r.ts) s.table) ≡ found = cc (h) in
    rw (← q) (
      both (In-map_ok r _) (
        both (In-keep_if (λ r. ltb_ℤ cutoff r.ts) r s.table)
          ((λ p. (p.0, ground arith)), λ p. (p.0, ground arith))))

journal-KeepsRows : KeepsRows journal (λ s. s.table)
journal-KeepsRows = record {
  insert-row = λ ts disk c s h. (In-append _ s.table _).1 (inr (inl refl));
  insert-keeps = λ ts disk c s r i. (In-append r s.table _).1 (inl i);
  delete-keeps =
      λ cutoff s r i h. (In-keep_if (λ r. leb_ℤ cutoff r.ts) r s.table).1 (i, ground arith);
  select-rows = select-journal;
  insert-now = λ ts disk c s. omega arith;
  delete-now = λ cutoff s. omega arith;
}

abbrev pub at_noon : Journal
at_noon = record { clock = pos 43_200_000_000_000; table = [] }

abbrev inserted : Journal
inserted = (insert journal (codes "a") (pos 31) at_noon).0

abbrev hour_later : Journal
hour_later = record { clock = pos 46_800_000_000_000; table = inserted.table }

-- Six hours of history.
abbrev history : ℕ
history = 21_600_000_000_000

get_since-Shows_example :
    In
      (record { ts = pos 43_200; disk = codes "a"; celsius = pos 31 })
      (get_since journal (pos history) hour_later).0
unfolding insert get_since read_rows scan_rows unix add ◌+ℤ◌ neg wrap64
get_since-Shows_example =
    get_since-Shows journal (λ s. s.table) history journal-KeepsRows (omega arith) (codes "a")
      (pos 31) at_noon hour_later (get_since journal (pos history) hour_later).0 refl
      (next here (waits inserted hour_later refl (omega arith))) (omega arith) refl
