-- ===== src/Collector/Smart/Devices/Paths.antt =====
-- What `devicePathRe` matches, in other words.
use zfs_nas_dashboard.Prelude.{
  ℕ, ◌+◌, ◌≤◌, ◌≡◌, refl, sym, ap, ◌∙◌, ◌≢◌, ◌↔◌, ◌⊎◌, inl, inr, Bool, true, false, ◌&&◌, ◌||◌,
  List, [], ◌∷◌, ◌++◌, arith, Bool-cases, length, drop, In, All,
}
use zfs_nas_dashboard.Go.Strings.{Text, codes, has_prefix}
use zfs_nas_dashboard.Go.Strings.Laws.{has_prefix-append, has_prefix-split, drop-append}
use zfs_nas_dashboard.Collector.Smart.Devices.{
  is_id_char, all_chars, some_chars, is_id_of, by_id_dir, is_device_path,
}

-- The kinds of devices.
abbrev pub kinds : List Text
kinds =
    codes "ata"
    ∷ codes "nvme"
    ∷ codes "wwn"
    ∷ codes "scsi"
    ∷ codes "usb"
    ∷ codes "sas"
    ∷ codes "mpath"
    ∷ []

-- A letter, a digit, or one of "_", ".", ":" and "-".
abbrev pub IsIdChar : ℕ → Type 0
IsIdChar c =
    ((b'a' ≤ c) × (c ≤ b'z'))
    ⊎ (((b'A' ≤ c) × (c ≤ b'Z')) ⊎ (((b'0' ≤ c) × (c ≤ b'9')) ⊎ In c (codes "_.:-")))

-- A path in the by-id folder: a kind, a dash, and an identifier.
abbrev pub IsDevice : Text → Type 0
IsDevice d =
    (kind : Text) × (id : Text) × In kind kinds
    × (d ≡ codes "/dev/disk/by-id/" ++ kind ++ codes "-" ++ id)
    × (id ≢ [])
    × All IsIdChar id

is_id_char-IsIdChar : (c : ℕ) → (is_id_char c ≡ true) ↔ IsIdChar c
unfolding is_id_char
is_id_char-IsIdChar c = ground arith

all_chars-All : (s : Text) → (all_chars is_id_char s ≡ true) ↔ All IsIdChar s
all_chars-All [] = ground arith
all_chars-All (c ∷ s) = ground (arith, is_id_char-IsIdChar c, all_chars-All s)

some_chars-All : (s : Text) → (some_chars is_id_char s ≡ true) ↔ ((s ≢ []) × All IsIdChar s)
some_chars-All [] = ((λ h. cc h), λ h. absurd (h.0 refl))
some_chars-All (c ∷ s) =
    ((λ h. ((λ e. cc e), (all_chars-All (c ∷ s)).0 h)), λ h. (all_chars-All (c ∷ s)).1 h.1)

-- The rest of the path is a kind of the list, a dash, and an identifier.
abbrev HasKind : List Text → Text → Type 0
HasKind ks s =
    (kind : Text) × (id : Text) × In kind ks
    × (s ≡ (kind ++ b'-' ∷ []) ++ id)
    × (id ≢ [])
    × All IsIdChar id

dashed_length : (kind : Text) → length (kind ++ b'-' ∷ []) ≡ length kind + 1
dashed_length [] = refl
dashed_length (c ∷ kind) = omega (arith, dashed_length kind)

is_id_of-split :
    (kind s : Text)
    → is_id_of kind s ≡ true
    → (id : Text) × (s ≡ (kind ++ b'-' ∷ []) ++ id) × (id ≢ []) × All IsIdChar id
unfolding is_id_of
is_id_of-split kind s h =
    let id = drop (length kind + 1) s in
    let (n, all) = (some_chars-All id).0 (ground (arith, h)) in
    (
      id,
      has_prefix-split s (kind ++ b'-' ∷ []) (ground (arith, h))
          ∙ ap (λ n. (kind ++ b'-' ∷ []) ++ drop n s) (dashed_length kind),
      n,
      all,
    )

is_id_of-join :
    (kind id : Text) → id ≢ [] → All IsIdChar id → is_id_of kind ((kind ++ b'-' ∷ []) ++ id) ≡ true
unfolding is_id_of
is_id_of-join kind id n all =
    let same : drop (length kind + 1) ((kind ++ b'-' ∷ []) ++ id) ≡ id =
      ap (λ n. drop n ((kind ++ b'-' ∷ []) ++ id)) (sym (dashed_length kind))
      ∙ drop-append (kind ++ b'-' ∷ []) id in
    ground (
      arith,
      has_prefix-append (kind ++ b'-' ∷ []) id,
      ap (some_chars is_id_char) same,
      (some_chars-All id).1 (n, all),
    )

is_some_id : List Text → Text → Bool
is_some_id [] s = false
is_some_id (k ∷ ks) s = is_id_of k s || is_some_id ks s

is_some_id-HasKind : (ks : List Text) (s : Text) → is_some_id ks s ≡ true → HasKind ks s
unfolding is_some_id
is_some_id-HasKind [] s h = cc h
is_some_id-HasKind (k ∷ ks) s h = elim (Bool-cases (is_id_of k s)) [
  | inl e ↦ let (id, f, n, all) = is_id_of-split k s e in (k, id, inl refl, f, n, all)
  | inr e ↦
      let (kind, id, i, f, n, all) = is_some_id-HasKind ks s (ground (arith, h, e)) in
      (kind, id, inr i, f, n, all)
]

HasKind-is_some_id : (ks : List Text) (s : Text) → HasKind ks s → is_some_id ks s ≡ true
unfolding is_some_id
HasKind-is_some_id [] s (kind, id, i, e, n, all) = absurd i
HasKind-is_some_id (k ∷ ks) s (kind, id, inl f, e, n, all) =
    let joined : is_id_of k s ≡ true =
      ap (is_id_of k) (e ∙ ap (λ x. (x ++ b'-' ∷ []) ++ id) (sym f)) ∙ is_id_of-join k id n all in
    ground (arith, joined)
HasKind-is_some_id (k ∷ ks) s (kind, id, inr i, e, n, all) =
    let rest = HasKind-is_some_id ks s (kind, id, i, e, n, all) in ground (arith, rest)

or_seven :
    (a b c d e f g : Bool)
    → (a || b || c || d || e || f || g) ≡ (a || (b || (c || (d || (e || (f || (g || false)))))))
or_seven true _ _ _ _ _ _ = refl
or_seven false true _ _ _ _ _ = refl
or_seven false false true _ _ _ _ = refl
or_seven false false false true _ _ _ = refl
or_seven false false false false true _ _ = refl
or_seven false false false false false true _ = refl
or_seven false false false false false false true = refl
or_seven false false false false false false false = refl

is_device_path-parts :
    (d : Text)
    → is_device_path d ≡ (has_prefix d by_id_dir && is_some_id kinds (drop (length by_id_dir) d))
unfolding is_device_path is_some_id
is_device_path-parts d =
    let id = drop (length by_id_dir) d in
    ap (λ b. has_prefix d by_id_dir && b)
      (or_seven (is_id_of (codes "ata") id) (is_id_of (codes "nvme") id) (is_id_of (codes "wwn") id)
        (is_id_of (codes "scsi") id) (is_id_of (codes "usb") id) (is_id_of (codes "sas") id)
        (is_id_of (codes "mpath") id))

-- `devicePathRe` matches exactly the devices.
pub is_device_path-IsDevice : (d : Text) → (is_device_path d ≡ true) ↔ IsDevice d
is_device_path-IsDevice d = (there, back)
  where
    there : is_device_path d ≡ true → IsDevice d
    there h =
        let parts = sym (is_device_path-parts d) ∙ h in
        let (kind, id, i, e, n, all) =
          is_some_id-HasKind kinds (drop (length by_id_dir) d) (ground (arith, parts)) in
        (
          kind,
          id,
          i,
          has_prefix-split d by_id_dir (ground (arith, parts)) ∙ ap (λ x. by_id_dir ++ x) e,
          n,
          all,
        )

    back : IsDevice d → is_device_path d ≡ true
    back (kind, id, i, e, n, all) =
        let name = (kind ++ b'-' ∷ []) ++ id in
        let cut = ap (drop (length by_id_dir)) e ∙ drop-append by_id_dir name in
        let known =
          HasKind-is_some_id kinds (drop (length by_id_dir) d) (kind, id, i, cut, n, all) in
        let prefixed = ap (λ x. has_prefix x by_id_dir) e ∙ has_prefix-append by_id_dir name in
        is_device_path-parts d ∙ rw (prefixed, known) refl
