-- ===== src/Collector/Files/DirTree/Visible.antt =====
-- Which directories `filterWorldReadable` leaves in the tree.
use zfs_nas_dashboard.Prelude.{
  ◌≡◌, refl, sym, ap, ◌∙◌, ◌↔◌, ◌⊎◌, inl, inr, either, both, true, Option, none, some, Bool-cases,
  ℤ,
}
use zfs_nas_dashboard.Go.Strings.{Text}
use zfs_nas_dashboard.Collector.Files.DirTree.{
  DirTree, dir, Dirs, no_dirs, more_dirs, Perms, world_readable, keep_dir, filter_world_readable,
  filter_dirs,
}

-- A tree lists a directory with its path and size.
unfoldable mutual
  pub Listed : DirTree → Text → ℤ → Type 0
  Listed (dir name path size children) q z = ((path ≡ q) × (size ≡ z)) ⊎ ListedIn children q z

  pub ListedIn : Dirs → Text → ℤ → Type 0
  ListedIn no_dirs q z = ⊥
  ListedIn (more_dirs d ds) q z = Listed d q z ⊎ ListedIn ds q z

-- It lists the directory below directories that are all readable by everybody, as it is itself.
unfoldable mutual
  pub Visible : Perms → DirTree → Text → ℤ → Type 0
  Visible perms (dir name path size children) q z =
      (world_readable perms path ≡ true)
      × (((path ≡ q) × (size ≡ z)) ⊎ VisibleIn perms children q z)

  pub VisibleIn : Perms → Dirs → Text → ℤ → Type 0
  VisibleIn perms no_dirs q z = ⊥
  VisibleIn perms (more_dirs d ds) q z = Visible perms d q z ⊎ VisibleIn perms ds q z

abbrev pub ListedIf : Option DirTree → Text → ℤ → Type 0
ListedIf none q z = ⊥
ListedIf (some t) q z = Listed t q z

ListedIn-keep_dir :
    (o : Option DirTree) (ds : Dirs) (q : Text) (z : ℤ)
    → ListedIn (keep_dir o ds) q z ↔ (ListedIf o q z ⊎ ListedIn ds q z)
unfolding ListedIn
ListedIn-keep_dir none ds q z = (λ l. inr l, elim [ inl x ↦ absurd x | inr l ↦ l ])
ListedIn-keep_dir (some t) ds q z = (λ l. l, λ l. l)

mutual
  unfolding filter_world_readable filter_dirs Listed ListedIn Visible VisibleIn

  Visible-filter :
      (perms : Perms) (q : Text) (z : ℤ) (t : DirTree)
      → Visible perms t q z ↔ ListedIf (filter_world_readable perms t) q z
  Visible-filter perms q z (dir name path size children) =
      let below = VisibleIn-filter perms q z children in
      elim (Bool-cases (world_readable perms path)) [
        | inl e ↦ rw e (
          (λ v. (either (λ x. x, λ x. x) below).0 v.1),
          (λ l. (refl, (either (λ x. x, λ x. x) below).1 l)),
        )
        | inr e ↦ rw e ((λ v. cc (v.0)), λ l. absurd l)
      ]

  VisibleIn-filter :
      (perms : Perms) (q : Text) (z : ℤ) (ds : Dirs)
      → VisibleIn perms ds q z ↔ ListedIn (filter_dirs perms ds) q z
  VisibleIn-filter perms q z no_dirs = (λ v. v, λ l. l)
  VisibleIn-filter perms q z (more_dirs d ds) =
      both (either (Visible-filter perms q z d) (VisibleIn-filter perms q z ds)) (
        let kept = ListedIn-keep_dir (filter_world_readable perms d) (filter_dirs perms ds) q z in
        (kept.1, kept.0))

-- `filterWorldReadable` leaves a directory, with its size, in the tree exactly if it and all
-- directories above it can be read by everybody; nothing else is added and nothing of it lost.
pub filter_world_readable-Visible :
    (perms : Perms) (t : DirTree) (q : Text) (z : ℤ)
    → Visible perms t q z ↔ ListedIf (filter_world_readable perms t) q z
filter_world_readable-Visible perms t q z = Visible-filter perms q z t

mutual
  unfolding Listed ListedIn Visible VisibleIn

  readable_of_Visible :
      (perms : Perms) (t : DirTree) (q : Text) (z : ℤ)
      → Visible perms t q z
      → (world_readable perms q ≡ true) × Listed t q z
  readable_of_Visible perms (dir name path size children) q z (r, inl (p, s)) =
      (ap (world_readable perms) (sym p) ∙ r, inl (p, s))
  readable_of_Visible perms (dir name path size children) q z (r, inr below) =
      let (g, l) = readable_of_VisibleIn perms children q z below in (g, inr l)

  readable_of_VisibleIn :
      (perms : Perms) (ds : Dirs) (q : Text) (z : ℤ)
      → VisibleIn perms ds q z
      → (world_readable perms q ≡ true) × ListedIn ds q z
  readable_of_VisibleIn perms no_dirs q z v = absurd v
  readable_of_VisibleIn perms (more_dirs d ds) q z (inl v) =
      let (g, l) = readable_of_Visible perms d q z v in (g, inl l)
  readable_of_VisibleIn perms (more_dirs d ds) q z (inr v) =
      let (g, l) = readable_of_VisibleIn perms ds q z v in (g, inr l)

-- What the filter leaves is readable, and was there before.
pub filter_world_readable-Listed :
    (perms : Perms) (t : DirTree) (q : Text) (z : ℤ)
    → ListedIf (filter_world_readable perms t) q z
    → (world_readable perms q ≡ true) × Listed t q z
filter_world_readable-Listed perms t q z l =
    readable_of_Visible perms t q z ((filter_world_readable-Visible perms t q z).1 l)
