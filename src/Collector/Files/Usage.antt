-- ===== src/Collector/Files/Usage.antt =====
-- `parseUserUsage`: bytes by owner. The resolution of a user id to a name is an argument, and so is
-- the order in which Go ranges over the tally.
use zfs_nas_dashboard.Prelude.{
  Bool, not, Option, none, some, List, [], ◌∷◌, map, if◌then◌else◌, ℤ, pos, ◌+ℤ◌, ◌*ℤ◌, ltb_ℤ,
  eqb_ℤ, wrap64,
}
use zfs_nas_dashboard.Go.Strings.{Text, codes, text_lt, trim_space, split, fields}
use zfs_nas_dashboard.Go.Strconv.{NumError, parse_int, atoi}
use zfs_nas_dashboard.Go.Map.{text_keys, insert, lookup, get_or_zero}

pub record UserUsage : Type 0 where
  pub user : Text
  pub size_bytes : ℤ
  pub status : Text

-- `user.LookupId`: the name of a user id, if it has one.
abbrev pub Names : Type 0
Names = Text → Option Text

abbrev name_or : Text → Option Text → Text
name_or uid none = uid
name_or uid (some name) = name

-- Who a file counts for: "system" for an id below 1000, or one that is no integer.
owner_of : Names → Text → ℤ × Option NumError → Text
owner_of names uid (n, some _) = codes "system"
owner_of names uid (n, none) =
    if ltb_ℤ n (pos 1000) then codes "system" else name_or uid (names uid)

unfoldable pub owner : Names → Text → Text
unfolding owner_of
owner names uid = owner_of names uid (atoi uid)

abbrev pub Tally : Type 0
Tally = List (Text × ℤ)

-- `tally[name] += bytes`.
unfoldable pub credit : Text → ℤ → Tally → Tally
credit name bytes tally =
    insert name (wrap64 (get_or_zero (pos 0) (lookup name tally) +ℤ bytes)) tally

-- Blocks of 512 bytes, unless they are no integer.
unfoldable pub credit_blocks : Text → ℤ × Option NumError → Tally → Tally
credit_blocks name (blocks, none) tally = credit name (wrap64 (blocks *ℤ pos 512)) tally
credit_blocks name (blocks, some _) tally = tally

-- One line: a user id and a number of blocks.
unfoldable pub add_file : Names → Tally → List Text → Tally
unfolding credit_blocks
add_file names tally (uid ∷ blocks ∷ _) = credit_blocks (owner names uid) (parse_int blocks) tally
add_file names tally _ = tally

unfoldable pub tally_lines : Names → Tally → List Text → Tally
tally_lines names tally [] = tally
tally_lines names tally (line ∷ lines) =
    tally_lines names (add_file names tally (fields line)) lines

unfoldable pub tally_of : Names → Text → Tally
tally_of names output = tally_lines names [] (split b'\n' (trim_space output))

unfoldable pub usage_of : Text × ℤ → UserUsage
usage_of (name, bytes) = record { user = name; size_bytes = bytes; status = codes "green" }

-- The order of the list: larger sizes first, and equal sizes by name.
unfoldable pub less : UserUsage → UserUsage → Bool
less a b =
    if not (eqb_ℤ a.size_bytes b.size_bytes)
    then ltb_ℤ b.size_bytes a.size_bytes
    else text_lt a.user b.user

-- `sort.Slice`, as an insertion sort; Ranking shows that no other way to sort differs.
unfoldable pub insert_sorted : UserUsage → List UserUsage → List UserUsage
insert_sorted u [] = u ∷ []
insert_sorted u (v ∷ vs) = if less v u then v ∷ insert_sorted u vs else u ∷ v ∷ vs

unfoldable pub sort : List UserUsage → List UserUsage
sort [] = []
sort (u ∷ us) = insert_sorted u (sort us)

-- `ranged` is the tally in the order in which the map is ranged over.
unfoldable pub ranked : Tally → List UserUsage
ranked ranged = sort (map usage_of ranged)

unfoldable pub parse_user_usage : Names → (Tally → Tally) → Text → List UserUsage
parse_user_usage names range output = ranked (range (tally_of names output))
