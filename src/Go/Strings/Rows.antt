-- ===== src/Go/Strings/Rows.antt =====
-- Texts as lines of words: what `TrimSpace`, `Split` by newline and `Fields` make of a table.
use zfs_nas_dashboard.Prelude.{
  ℕ, ◌≡◌, refl, sym, ap, ◌∙◌, inl, inr, Bool, true, false, not, ◌&&◌, List, [], ◌∷◌, ◌++◌, arith,
  ◌==◌, Bool-cases,
}
use mathlib.Core.List.{append_assoc, append-nil}
use zfs_nas_dashboard.Go.Strings.{
  Text, is_space, extend, split, opens_word, fields, trim_left, trim_right, cons_trimmed,
  trim_space,
}

newline : ℕ
newline = b'\n'

abbrev pub some_row : List Text → List (List Text) → List (List Text)
some_row [] rows = rows
some_row (w ∷ ws) rows = (w ∷ ws) ∷ rows

-- The words of each line, blank lines left out.
abbrev pub words_of : List Text → List (List Text)
words_of [] = []
words_of (line ∷ lines) = some_row (fields line) (words_of lines)

abbrev pub rows : Text → List (List Text)
rows s = words_of (split b'\n' s)

-- `lines'` is `lines` with a space put at the very end.
data Padded (c : ℕ) : List Text → List Text → Type 0 where
  same_line : (w : Text) → Padded c (w ∷ []) ((w ++ c ∷ []) ∷ [])
  next_line : (w : Text) → Padded c (w ∷ []) (w ∷ [] ∷ [])
  later : (w : Text) {ls ls' : List Text} → Padded c ls ls' → Padded c (w ∷ ls) (w ∷ ls')

extend-Padded :
    (c a : ℕ) {ls ls' : List Text} → Padded c ls ls' → Padded c (extend a ls) (extend a ls')
extend-Padded c a (same_line w) = same_line (a ∷ w)
extend-Padded c a (next_line w) = next_line (a ∷ w)
extend-Padded c a (later w p) = later (a ∷ w) p

split-Padded : (c : ℕ) (s : Text) → Padded c (split b'\n' s) (split b'\n' (s ++ c ∷ []))
unfolding split
split-Padded c [] = elim (Bool-cases (c == b'\n')) [
  | inl e ↦ rw e (next_line [])
  | inr e ↦ rw e (same_line [])
]
split-Padded c (a ∷ s) = elim (Bool-cases (a == b'\n')) [
  | inl e ↦ rw e (later [] (split-Padded c s))
  | inr e ↦ rw e (extend-Padded c a (split-Padded c s))
]

opens_word-append : (c : ℕ) (s : Text) → is_space c ≡ true → opens_word (s ++ c ∷ []) ≡ opens_word s
opens_word-append c [] h = rw h
opens_word-append c (a ∷ s) h = refl

fields-append_space : (c : ℕ) (s : Text) → is_space c ≡ true → fields (s ++ c ∷ []) ≡ fields s
unfolding fields
fields-append_space c [] h = ground (arith, h)
fields-append_space c (a ∷ s) h = rw (fields-append_space c s h, opens_word-append c s h)

words_of-Padded :
    (c : ℕ) {ls ls' : List Text} → is_space c ≡ true → Padded c ls ls' → words_of ls' ≡ words_of ls
unfolding fields
words_of-Padded c h (same_line w) = rw (fields-append_space c w h)
words_of-Padded c h (next_line w) = refl
words_of-Padded c h (later w p) = ap (some_row (fields w)) (words_of-Padded c h p)

abbrev all_space : Text → Bool
all_space [] = true
all_space (c ∷ s) = is_space c && all_space s

rows-append_spaces : (ws s : Text) → all_space ws ≡ true → rows (s ++ ws) ≡ rows s
rows-append_spaces [] s h = rw append-nil
rows-append_spaces (c ∷ ws) s h =
    ap rows (sym (append_assoc s (c ∷ []) ws))
    ∙ rows-append_spaces ws (s ++ c ∷ []) (ground arith)
    ∙ words_of-Padded c (ground arith) (split-Padded c s)

-- What `trim_right` takes off is space.
trim_right-cut : (s : Text) → (ws : Text) × (all_space ws ≡ true) × (trim_right s ++ ws ≡ s)
unfolding trim_right cons_trimmed
trim_right-cut [] = ([], refl, refl)
trim_right-cut (c ∷ s) = put (trim_right-cut s)
  where
    put :
        (ws : Text) × (all_space ws ≡ true) × (trim_right s ++ ws ≡ s)
        → (ws : Text) × (all_space ws ≡ true) × (trim_right (c ∷ s) ++ ws ≡ c ∷ s)
    put (ws, h, e) = elim (Bool-cases (is_space c)) [
      | inl space ↦ cut_space (trim_right s) ws space h e
      | inr word ↦ (ws, h, keep_word (trim_right s) ws word e)
    ]
      where
        cut_space :
            (t ws : Text)
            → is_space c ≡ true
            → all_space ws ≡ true
            → t ++ ws ≡ s
            → (vs : Text) × (all_space vs ≡ true) × (cons_trimmed c t ++ vs ≡ c ∷ s)
        cut_space [] ws space h e = (c ∷ ws, ground (arith, space, h), ground (arith, space, e))
        cut_space (d ∷ t) ws space h e = (ws, h, ap (◌∷◌ c) e)

        keep_word :
            (t ws : Text) → is_space c ≡ false → t ++ ws ≡ s → cons_trimmed c t ++ ws ≡ c ∷ s
        keep_word [] ws word e = ground (arith, word, e)
        keep_word (d ∷ t) ws word e = ap (◌∷◌ c) e

rows-trim_right : (s : Text) → rows (trim_right s) ≡ rows s
rows-trim_right s =
    let (ws, h, e) = trim_right-cut s in sym (rows-append_spaces ws (trim_right s) h) ∙ ap rows e

words_of-extend :
    (c : ℕ) (ls : List Text) → is_space c ≡ true → words_of (extend c ls) ≡ words_of ls
unfolding fields
words_of-extend c [] h = rw h
words_of-extend c (w ∷ ls) h = rw h

rows-space : (c : ℕ) (s : Text) → is_space c ≡ true → rows (c ∷ s) ≡ rows s
unfolding split fields
rows-space c s h = elim (Bool-cases (c == b'\n')) [
  | inl e ↦ rw e
  | inr e ↦ rw e (words_of-extend c (split b'\n' s) h)
]

rows-trim_left : (s : Text) → rows (trim_left s) ≡ rows s
unfolding trim_left
rows-trim_left [] = refl
rows-trim_left (c ∷ s) = elim (Bool-cases (is_space c)) [
  | inl h ↦ rw h (rows-trim_left s ∙ sym (rows-space c s h))
  | inr h ↦ rw h
]

-- Trimming a text changes none of its words.
pub rows-trim_space : (s : Text) → rows (trim_space s) ≡ rows s
unfolding trim_space
rows-trim_space s = rows-trim_right (trim_left s) ∙ rows-trim_left s

-- A word: not empty, and without spaces.
abbrev pub no_space : Text → Bool
no_space [] = true
no_space (c ∷ s) = not (is_space c) && no_space s

abbrev pub is_word : Text → Bool
is_word [] = false
is_word (c ∷ s) = not (is_space c) && no_space s

abbrev pub all_words : List Text → Bool
all_words [] = true
all_words (w ∷ ws) = is_word w && all_words ws

pub fields-word_space :
    (w : Text) (c : ℕ) (s : Text)
    → is_word w ≡ true
    → is_space c ≡ true
    → fields (w ++ c ∷ s) ≡ w ∷ fields s
unfolding fields
fields-word_space [] c s h k = cc
fields-word_space (a ∷ []) c s h k = ground arith
fields-word_space (a ∷ b ∷ w) c s h k = ground (arith, fields-word_space (b ∷ w) c s)

pub fields-word : (w : Text) → is_word w ≡ true → fields w ≡ w ∷ []
unfolding fields
fields-word [] h = cc
fields-word (a ∷ []) h = ground arith
fields-word (a ∷ b ∷ w) h = ground (arith, fields-word (b ∷ w))
