-- ===== src/Go/Strings/Table.antt =====
-- Tables as the commands print them with `-H`: words joined by tabs, and a newline behind each row.
use zfs_nas_dashboard.Prelude.{
  ℕ, ◌≡◌, refl, sym, ap, ◌∙◌, ◌≢◌, inl, inr, Bool, true, false, not, ◌&&◌, List, [], ◌∷◌, ◌++◌,
  arith, ◌==◌, ==_iff, Bool-cases,
}
use mathlib.Core.List.{append_assoc}
use zfs_nas_dashboard.Go.Strings.{Text, is_space, split, fields}
use zfs_nas_dashboard.Go.Strings.Rows.{
  some_row, words_of, rows, is_word, no_space, all_words, fields-word, fields-word_space,
}

abbrev pub tabbed : List Text → Text
tabbed [] = []
tabbed (w ∷ []) = w
tabbed (w ∷ v ∷ ws) = w ++ b'\t' ∷ tabbed (v ∷ ws)

abbrev pub printed : List (List Text) → Text
printed [] = []
printed (r ∷ rs) = tabbed r ++ b'\n' ∷ printed rs

-- Rows of one word or more.
abbrev pub IsTable : List (List Text) → Type 0
IsTable [] = Unit
IsTable (r ∷ rs) = (r ≢ []) × (all_words r ≡ true) × IsTable rs

pub fields-tabbed : (r : List Text) → all_words r ≡ true → fields (tabbed r) ≡ r
unfolding fields is_space
fields-tabbed [] h = refl
fields-tabbed (w ∷ []) h = fields-word w (ground arith)
fields-tabbed (w ∷ v ∷ ws) h =
    fields-word_space w b'\t' (tabbed (v ∷ ws)) (ground arith) refl
    ∙ ap (◌∷◌ w) (fields-tabbed (v ∷ ws) (ground arith))

abbrev pub one_line : Text → Bool
one_line [] = true
one_line (c ∷ s) = not (c == b'\n') && one_line s

pub one_line-append :
    (s t : Text) → one_line s ≡ true → one_line t ≡ true → one_line (s ++ t) ≡ true
one_line-append [] t h k = k
one_line-append (c ∷ s) t h k = ground (arith, one_line-append s t)

space_newline : is_space b'\n' ≡ true
unfolding is_space
space_newline = refl

pub no_space-not_newline : (c : ℕ) → is_space c ≡ false → (c == b'\n') ≡ false
no_space-not_newline c h = elim (Bool-cases (c == b'\n')) [
  | inl e ↦ absurd (cc (h, space_newline, ap is_space ((==_iff c b'\n').0 e)))
  | inr e ↦ e
]

no_space-one_line : (w : Text) → no_space w ≡ true → one_line w ≡ true
no_space-one_line [] h = refl
no_space-one_line (c ∷ w) h = ground (arith, no_space-one_line w, no_space-not_newline c)

pub is_word-one_line : (w : Text) → is_word w ≡ true → one_line w ≡ true
is_word-one_line [] h = cc
is_word-one_line (c ∷ w) h = ground (arith, no_space-one_line w, no_space-not_newline c)

tabbed-one_line : (r : List Text) → all_words r ≡ true → one_line (tabbed r) ≡ true
tabbed-one_line [] h = refl
tabbed-one_line (w ∷ []) h = is_word-one_line w (ground arith)
tabbed-one_line (w ∷ v ∷ ws) h =
    one_line-append w (b'\t' ∷ tabbed (v ∷ ws)) (is_word-one_line w (ground arith))
      (ground (arith, tabbed-one_line (v ∷ ws)))

pub split_line : (l s : Text) → one_line l ≡ true → split b'\n' (l ++ b'\n' ∷ s) ≡ l ∷ split b'\n' s
unfolding split
split_line [] s h = refl
split_line (c ∷ l) s h = ground (arith, split_line l s)

-- Reading a printed table gives the table back.
pub rows-printed : (t : List (List Text)) → IsTable t → rows (printed t) ≡ t
unfolding split fields
rows-printed [] h = refl
rows-printed ([] ∷ rs) h = absurd (h.0 refl)
rows-printed ((w ∷ ws) ∷ rs) h =
    ap words_of (split_line (tabbed (w ∷ ws)) (printed rs) (tabbed-one_line (w ∷ ws) h.1))
    ∙ rw (fields-tabbed (w ∷ ws) h.1) (ap (◌∷◌ (w ∷ ws)) (rows-printed rs h.2))

rows_line : (l s : Text) → one_line l ≡ true → rows (l ++ b'\n' ∷ s) ≡ some_row (fields l) (rows s)
rows_line l s h = ap words_of (split_line l s h)

-- A row in front of which a word and a blank stand.
pub rows-spaced :
    (word : Text) (r : List Text)
    → is_word word ≡ true
    → all_words r ≡ true
    → rows (word ++ b' ' ∷ printed (r ∷ [])) ≡ (word ∷ r) ∷ []
unfolding split fields is_space
rows-spaced word r h k =
    let l = word ++ b' ' ∷ tabbed r in
    let lined : one_line l ≡ true =
      one_line-append word (b' ' ∷ tabbed r) (is_word-one_line word h) (tabbed-one_line r k) in
    ap rows (sym (append_assoc word (b' ' ∷ tabbed r) (b'\n' ∷ [])))
    ∙ rows_line l [] lined
    ∙ rw (fields-word_space word b' ' (tabbed r) h refl, fields-tabbed r k)
