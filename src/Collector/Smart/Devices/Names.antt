-- ===== src/Collector/Smart/Devices/Names.antt =====
-- How a line names a device: in full, or without the by-id folder.
use zfs_nas_dashboard.Prelude.{
  ℕ, ◌≡◌, refl, sym, ap, ◌∙◌, inl, inr, Bool, true, false, not, ◌&&◌, ◌||◌, List, [], ◌∷◌, ◌++◌,
  arith, ◌==◌, length, drop, In, All,
}
use zfs_nas_dashboard.Go.Strings.{Text, codes, has_prefix, contains, text_eq}
use zfs_nas_dashboard.Go.Strings.Laws.{text_eq_iff, drop-append}
use zfs_nas_dashboard.Collector.Smart.Devices.{by_id_dir, candidate_of}
use zfs_nas_dashboard.Collector.Smart.Devices.Paths.{kinds, IsIdChar, IsDevice}

abbrev is_plain : Text → Bool
is_plain [] = true
is_plain (c ∷ s) = not (c == b'/') && is_plain s

is_plain-append : (s t : Text) → is_plain (s ++ t) ≡ (is_plain s && is_plain t)
is_plain-append [] t = refl
is_plain-append (c ∷ s) t = ground (arith, is_plain-append s t)

is_plain-contains : (s : Text) → is_plain s ≡ true → contains s (codes "/") ≡ false
unfolding contains has_prefix
is_plain-contains [] h = refl
is_plain-contains (c ∷ s) h = ground (arith, is_plain-contains s)

id_char-not_slash : (c : ℕ) → IsIdChar c → (c == b'/') ≡ false
id_char-not_slash c h = ground (arith, h)

id-is_plain : (s : Text) → All IsIdChar s → is_plain s ≡ true
id-is_plain [] h = refl
id-is_plain (c ∷ s) (h, all) = rw (id_char-not_slash c h, id-is_plain s all) refl

abbrev all_plain : List Text → Bool
all_plain [] = true
all_plain (k ∷ ks) = is_plain k && all_plain ks

kind-is_plain : (ks : List Text) (k : Text) → all_plain ks ≡ true → In k ks → is_plain k ≡ true
kind-is_plain [] k h i = absurd i
kind-is_plain (x ∷ ks) k h (inl e) = ap is_plain (sym e) ∙ ground arith
kind-is_plain (x ∷ ks) k h (inr i) = kind-is_plain ks k (ground arith) i

-- A word names the device `d` in full, or by what follows the by-id folder.
abbrev pub is_named : Text → Text → Bool
is_named d word = text_eq word d || text_eq (codes "/dev/disk/by-id/" ++ word) d

-- A device has a slash, and its name in the by-id folder has none.
device-contains : (d : Text) → IsDevice d → contains d (codes "/") ≡ true
unfolding contains has_prefix
device-contains d (kind, id, i, e, n, all) = ap (λ x. contains x (codes "/")) e

bare-contains :
    (d word : Text) → IsDevice d → by_id_dir ++ word ≡ d → contains word (codes "/") ≡ false
bare-contains d word (kind, id, i, e, n, all) h =
    let name = (kind ++ b'-' ∷ []) ++ id in
    let same : word ≡ name =
      sym (drop-append by_id_dir word)
      ∙ ap (drop (length by_id_dir)) (h ∙ e)
      ∙ drop-append by_id_dir name in
    let plain : is_plain name ≡ true =
      is_plain-append (kind ++ b'-' ∷ []) id
      ∙ rw (is_plain-append kind (b'-' ∷ []), kind-is_plain kinds kind refl i, id-is_plain id all)
          refl in
    ap (λ x. contains x (codes "/")) same ∙ is_plain-contains name plain

-- A word is the candidate of a device exactly if it names it.
pub candidate_of-is_named :
    (d word : Text) → IsDevice d → text_eq (candidate_of word) d ≡ is_named d word
unfolding candidate_of
candidate_of-is_named d word v = ground (
  arith,
  text_eq_iff word d,
  text_eq_iff (by_id_dir ++ word) d,
  λ (e : word ≡ d). ap (λ x. contains x (codes "/")) e ∙ device-contains d v,
  bare-contains d word v,
)
