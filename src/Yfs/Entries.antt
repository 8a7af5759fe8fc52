-- ===== src/Yfs/Entries.antt =====
-- The content of a directory: the i-number and the name of each entry, separated by spaces.
pub mod Listing
use cse_yet_another_file_sys.Base.{
  ℕ, zero, suc, ◌+◌, ◌-◌, Bool, true, false, not, ◌&&◌, Option, none, some, List, [], ◌∷◌, ◌++◌,
  Bytes, bytes_eq, if◌then◌else◌, take, length,
}
use cse_yet_another_file_sys.Yfs.Numbers.{filename}
use cse_yet_another_file_sys.Yfs.Split.{split, sep}

-- The loop `for(i = 1; i < key_values.size(); i += 2)` over the pairs of an i-number and a name:
-- the number that stands before the first name that is `name`.
unfoldable pub find_name : Bytes → List Bytes → Option Bytes
find_name name [] = none
find_name name (n ∷ []) = none
find_name name (n ∷ key ∷ rest) = if bytes_eq name key then some n else find_name name rest

unfoldable pub has_name : Bytes → List Bytes → Bool
unfolding find_name
has_name name key_values = elim (find_name name key_values) [ none ↦ false | some n ↦ true ]

-- The entries of `parent` with <name, new_inum> added at the end.
unfoldable pub with_entry : Bytes → Bytes → ℕ → Bytes
with_entry [] name new_inum = filename new_inum ++ sep ++ name
with_entry (c ∷ entries) name new_inum = ((c ∷ entries) ++ sep) ++ filename new_inum ++ sep ++ name

-- The loop of unlink that keeps each piece that is neither the i-number nor the name.
unfoldable pub kept : Bytes → Bytes → List Bytes → Bytes
kept unlink_inum name [] = []
kept unlink_inum name (key ∷ rest) =
    let others = kept unlink_inum name rest in
    if not (bytes_eq key unlink_inum) && not (bytes_eq key name)
    then (key ++ sep) ++ others
    else others

-- `new_entries.substr(0, new_entries.size() - 1)`; at size 0 the difference wraps, and the text is
-- taken whole.
unfoldable pub without_last : Bytes → Bytes
without_last s = take (length s - 1) s
