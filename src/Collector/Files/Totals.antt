-- ===== src/Collector/Files/Totals.antt =====
-- What the tally holds for each user.
use zfs_nas_dashboard.Prelude.{
  ◌≡◌, refl, ap, ◌∙◌, Bool, true, Option, none, some, List, [], ◌∷◌, arith, ℤ, pos, ◌+ℤ◌, ◌*ℤ◌,
  wrap64,
}
use zfs_nas_dashboard.Go.Strings.{Text, text_eq, split, fields, trim_space}
use zfs_nas_dashboard.Go.Strconv.{NumError, parse_int}
use zfs_nas_dashboard.Go.Map.{text_keys, lookup, lookup-insert, get_or_zero}
use zfs_nas_dashboard.Go.Strings.Laws.{text_eq_iff}
use zfs_nas_dashboard.Collector.Files.Usage.{
  Names, Tally, owner, credit, credit_blocks, add_file, tally_lines, tally_of,
}

-- The blocks that a line reports for a user, if it does.
abbrev blocks_if : Bool → ℤ → Option NumError → Option ℤ
blocks_if true b none = some b
blocks_if _ b _ = none

abbrev pub blocks_of : Names → Text → List Text → Option ℤ
blocks_of names user (uid ∷ blocks ∷ _) =
    blocks_if (text_eq (owner names uid) user) (parse_int blocks).0 (parse_int blocks).1
blocks_of names user _ = none

-- An int64 total to which blocks are added, as bytes.
abbrev pub plus_blocks : ℤ → Option ℤ → ℤ
plus_blocks total none = total
plus_blocks total (some b) = wrap64 (total +ℤ wrap64 (b *ℤ pos 512))

-- The total of one user, line by line and with no regard to any other.
abbrev pub total_of : Names → Text → ℤ → List Text → ℤ
total_of names user total [] = total
total_of names user total (line ∷ lines) =
    total_of names user (plus_blocks total (blocks_of names user (fields line))) lines

abbrev held : Text → Tally → ℤ
held user tally = get_or_zero (pos 0) (lookup user tally)

held-credit_blocks :
    (user name : Text) (b : ℤ) (e : Option NumError) (tally : Tally)
    → held user (credit_blocks name (b, e) tally)
      ≡ plus_blocks (held user tally) (blocks_if (text_eq name user) b e)
unfolding credit_blocks credit
held-credit_blocks user name b (some e) tally = ground arith
held-credit_blocks user name b none tally =
    ap (get_or_zero (pos 0))
      (lookup-insert name user (wrap64 (held name tally +ℤ wrap64 (b *ℤ pos 512))) tally)
    ∙ ground (arith, text_eq_iff name user)

held-add_file :
    (names : Names) (user : Text) (fs : List Text) (tally : Tally)
    → held user (add_file names tally fs) ≡ plus_blocks (held user tally) (blocks_of names user fs)
unfolding add_file
held-add_file names user (uid ∷ blocks ∷ _) tally =
    held-credit_blocks user (owner names uid) (parse_int blocks).0 (parse_int blocks).1 tally
held-add_file names user [] tally = refl
held-add_file names user (_ ∷ []) tally = refl

held-tally_lines :
    (names : Names) (user : Text) (lines : List Text) (tally : Tally)
    → held user (tally_lines names tally lines) ≡ total_of names user (held user tally) lines
unfolding tally_lines
held-tally_lines names user [] tally = refl
held-tally_lines names user (line ∷ lines) tally =
    held-tally_lines names user lines (add_file names tally (fields line))
    ∙ ap (λ t. total_of names user t lines) (held-add_file names user (fields line) tally)

-- For every user, "system" among them, the tally holds 512 bytes for each block of the lines whose
-- owner is that user, in int64 arithmetic; lines without two fields or with a number of blocks
-- that is no integer count for nobody.
pub tally_of-total :
    (names : Names) (output user : Text)
    → get_or_zero (pos 0) (lookup user (tally_of names output))
      ≡ total_of names user (pos 0) (split b'\n' (trim_space output))
unfolding tally_of lookup
tally_of-total names output user = held-tally_lines names user (split b'\n' (trim_space output)) []
