-- ===== src/Collector/Files/DirTree/Printed.antt =====
-- The output of `du`, and that it is read back.
use zfs_nas_dashboard.Prelude.{
  ℕ, ◌≡◌, refl, sym, ap, subst, ◌∙◌, inl, inr, Bool, true, false, not, ◌&&◌, none, some, List, [],
  ◌∷◌, ◌++◌, arith, ◌==◌, ==_iff, Bool-cases, All, if◌then◌else◌,
}
use zfs_nas_dashboard.Prelude.{ℤ, pos, negsuc, ◌<◌, ◌^◌}
use zfs_nas_dashboard.Go.Strings.{
  Text, is_space, opens_word, extend, split, fields, trim_space, join_spaces,
}
use zfs_nas_dashboard.Go.Strings.Rows.{
  some_row, words_of, rows, is_word, fields-word_space, rows-trim_space,
}
use zfs_nas_dashboard.Go.Strings.Table.{
  one_line, split_line, one_line-append, is_word-one_line, no_space-not_newline,
}
use zfs_nas_dashboard.Go.Strconv.{parse_int, itoa}
use zfs_nas_dashboard.Go.Strconv.Digits.{itoa-is_word, parse_int-itoa}
use zfs_nas_dashboard.Collector.Files.DirTree.{Entry, entry_at, entry_of, entries_of, cons_entry}

-- The lines of `du --block-size=1`: a size, a tab and a path.
abbrev pub du_lines : List Entry → Text
du_lines [] = []
du_lines (e ∷ es) = (itoa e.bytes ++ b'\t' ∷ e.path) ++ b'\n' ∷ du_lines es

-- The blanks of a text are spaces, each alone and none at the end.
abbrev pub single_spaced : Text → Bool
single_spaced [] = false
single_spaced (c ∷ []) = not (is_space c)
single_spaced (c ∷ d ∷ s) =
    (if is_space c then c == b' ' && not (is_space d) else true) && single_spaced (d ∷ s)

-- A size that is an int64 and not negative.
abbrev pub IsSize : ℤ → Type 0
IsSize (pos n) = n < 2 ^ 63
IsSize (negsuc n) = ⊥

-- A line of the report: a size, and a path whose blanks, if any, are single spaces inside.
abbrev pub IsPrintable : Entry → Type 0
IsPrintable e = IsSize e.bytes × (opens_word e.path ≡ true) × (single_spaced e.path ≡ true)

size-is_word : (z : ℤ) → IsSize z → is_word (itoa z) ≡ true
size-is_word (pos n) h = itoa-is_word n
size-is_word (negsuc n) h = absurd h

parse_int-size : (z : ℤ) → IsSize z → parse_int (itoa z) ≡ (z, none)
parse_int-size (pos n) h = parse_int-itoa n h
parse_int-size (negsuc n) h = absurd h

fields-extend :
    (c : ℕ) (s : Text)
    → is_space c ≡ false
    → opens_word s ≡ true
    → fields (c ∷ s) ≡ extend c (fields s)
unfolding fields
fields-extend c s h k = rw (h, k) refl

fields-alone :
    (c : ℕ) (s : Text)
    → is_space c ≡ false
    → opens_word s ≡ false
    → fields (c ∷ s) ≡ (c ∷ []) ∷ fields s
unfolding fields
fields-alone c s h k = rw (h, k) refl

fields-space : (c : ℕ) (s : Text) → is_space c ≡ true → fields (c ∷ s) ≡ fields s
unfolding fields
fields-space c s h = rw h refl

abbrev HasWords : List Text → Type 0
HasWords ws = (w : Text) × (vs : List Text) × (ws ≡ w ∷ vs)

extend-HasWords : (c : ℕ) (ws : List Text) → HasWords (extend c ws)
extend-HasWords c [] = (c ∷ [], [], refl)
extend-HasWords c (w ∷ ws) = (c ∷ w, ws, refl)

fields-HasWords : (s : Text) → opens_word s ≡ true → HasWords (fields s)
fields-HasWords [] h = cc h
fields-HasWords (c ∷ s) h = elim (Bool-cases (opens_word s)) [
  | inl e ↦ subst HasWords (sym (fields-extend c s (ground arith) e)) (extend-HasWords c (fields s))
  | inr e ↦ (c ∷ [], fields s, fields-alone c s (ground arith) e)
]

join_extend :
    (c : ℕ) (ws : List Text) → HasWords ws → join_spaces (extend c ws) ≡ c ∷ join_spaces ws
unfolding join_spaces
join_extend c [] (w, vs, e) = absurd (cc e)
join_extend c (w ∷ []) h = refl
join_extend c (w ∷ v ∷ ws) h = refl

join_word :
    (w : Text) (ws : List Text) → HasWords ws → join_spaces (w ∷ ws) ≡ w ++ b' ' ∷ join_spaces ws
unfolding join_spaces
join_word w [] (v, vs, e) = absurd (cc e)
join_word w (v ∷ vs) h = refl

-- Joining the words of such a text gives it back.
join_spaces-fields :
    (s : Text) → opens_word s ≡ true → single_spaced s ≡ true → join_spaces (fields s) ≡ s
join_spaces-fields [] h k = cc h
join_spaces-fields (c ∷ []) h k =
    rw (fields-alone c [] (ground arith) refl) (unfold fields in unfold join_spaces in refl)
join_spaces-fields (c ∷ d ∷ []) h k = rw (fields-extend c (d ∷ []) (ground arith) (ground arith)) (
    join_extend c (fields (d ∷ [])) (fields-HasWords (d ∷ []) (ground arith))
    ∙ ap (◌∷◌ c) (join_spaces-fields (d ∷ []) (ground arith) (ground arith)))
join_spaces-fields (c ∷ d ∷ e ∷ s) h k = elim (Bool-cases (is_space d)) [
  | inl f ↦
      let opens : opens_word (e ∷ s) ≡ true = ground (arith, k, f) in
      let rest : single_spaced (e ∷ s) ≡ true = ground (arith, k, f) in
      let space : d ≡ b' ' = ground (arith, k, f) in
      rw (fields-alone c (d ∷ e ∷ s) (ground arith) (ground (arith, f)), fields-space d (e ∷ s) f)
        (join_word (c ∷ []) (fields (e ∷ s)) (fields-HasWords (e ∷ s) opens)
          ∙ rw (join_spaces-fields (e ∷ s) opens rest, space) refl)
  | inr f ↦
      let opens : opens_word (d ∷ e ∷ s) ≡ true = ground (arith, f) in
      rw (fields-extend c (d ∷ e ∷ s) (ground arith) opens) (
        join_extend c (fields (d ∷ e ∷ s)) (fields-HasWords (d ∷ e ∷ s) opens)
        ∙ ap (◌∷◌ c) (join_spaces-fields (d ∷ e ∷ s) opens (ground (arith, k))))
]

single_spaced-one_line : (s : Text) → single_spaced s ≡ true → one_line s ≡ true
single_spaced-one_line [] h = refl
single_spaced-one_line (c ∷ []) h = ground (arith, no_space-not_newline c)
single_spaced-one_line (c ∷ d ∷ s) h =
    ground (arith, h, no_space-not_newline c, single_spaced-one_line (d ∷ s), ==_iff c b' ')

-- The entries of lines, by their words.
entries_in_rows : List (List Text) → List Entry
entries_in_rows [] = []
entries_in_rows (r ∷ rs) = cons_entry (entry_of r) (entries_in_rows rs)

entry_of_row :
    (ws : List Text) (rs : List (List Text))
    → cons_entry (entry_of ws) (entries_in_rows rs) ≡ entries_in_rows (some_row ws rs)
unfolding entry_of entries_in_rows
entry_of_row [] rs = refl
entry_of_row (w ∷ ws) rs = refl

entries_of-rows : (lines : List Text) → entries_of lines ≡ entries_in_rows (words_of lines)
unfolding entries_of entries_in_rows
entries_of-rows [] = refl
entries_of-rows (l ∷ ls) =
    ap (cons_entry (entry_of (fields l))) (entries_of-rows ls)
    ∙ entry_of_row (fields l) (words_of ls)

abbrev pub entries_in : Text → List Entry
entries_in output = entries_of (split b'\n' (trim_space output))

entry_of_columns :
    (size w : Text) (ws : List Text)
    → entry_of (size ∷ w ∷ ws) ≡ entry_at (join_spaces (w ∷ ws)) (parse_int size)
unfolding entry_of
entry_of_columns size w ws = refl

entry_of-line :
    (e : Entry) → IsPrintable e → entry_of (fields (itoa e.bytes ++ b'\t' ∷ e.path)) ≡ some e
unfolding is_space entry_at
entry_of-line e (size, opens, spaced) =
    let (w, ws, f) = fields-HasWords e.path opens in
    let path : join_spaces (w ∷ ws) ≡ e.path =
      ap join_spaces (sym f) ∙ join_spaces-fields e.path opens spaced in
    ap entry_of (
      fields-word_space (itoa e.bytes) b'\t' e.path (size-is_word e.bytes size) refl
      ∙ ap (◌∷◌ (itoa e.bytes)) f)
    ∙ entry_of_columns (itoa e.bytes) w ws
    ∙ ap (λ x. entry_at x (parse_int (itoa e.bytes))) path
    ∙ ap (entry_at e.path) (parse_int-size e.bytes size)

line-one_line : (e : Entry) → IsPrintable e → one_line (itoa e.bytes ++ b'\t' ∷ e.path) ≡ true
line-one_line e (size, opens, spaced) =
    one_line-append (itoa e.bytes) (b'\t' ∷ e.path)
      (is_word-one_line (itoa e.bytes) (size-is_word e.bytes size))
      (ground (arith, single_spaced-one_line e.path spaced))

lines_back : (es : List Entry) → All IsPrintable es → entries_in_rows (rows (du_lines es)) ≡ es
unfolding entries_in_rows
lines_back [] h = unfold split in unfold fields in refl
lines_back (e ∷ es) (p, h) =
    let line = itoa e.bytes ++ b'\t' ∷ e.path in
    ap (λ ls. entries_in_rows (words_of ls)) (split_line line (du_lines es) (line-one_line e p))
    ∙ sym (entry_of_row (fields line) (rows (du_lines es)))
    ∙ rw (entry_of-line e p, lines_back es h) refl

-- The output of `du` is read back, line by line.
pub entries_in-du_lines : (es : List Entry) → All IsPrintable es → entries_in (du_lines es) ≡ es
entries_in-du_lines es h =
    entries_of-rows (split b'\n' (trim_space (du_lines es)))
    ∙ ap entries_in_rows (rows-trim_space (du_lines es))
    ∙ lines_back es h
