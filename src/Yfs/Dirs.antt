-- ===== src/Yfs/Dirs.antt =====
-- yfs_client: isExist, add_entry, create, mymkdir, lookup, readdir, unlink.
pub mod Effect
pub mod Lookup
pub mod Unlink
use cse_yet_another_file_sys.Base.{
  ℕ, Bool, true, false, not, Option, none, some, List, [], ◌∷◌, Bytes, if◌then◌else◌,
}
use cse_yet_another_file_sys.Rpc.Status.{Result}
use cse_yet_another_file_sys.Extent.Server.{Attr}
use cse_yet_another_file_sys.Yfs.Numbers.{n2i, isdir}
use cse_yet_another_file_sys.Yfs.Split.{split, sep}
use cse_yet_another_file_sys.Yfs.Entries.{find_name, has_name, with_entry, kept, without_last}
use cse_yet_another_file_sys.Yfs.Services.{
  Services, Action, Status, ok, err, ioerr, noent, exist, uninitialised, ◌>>=◌, ◌>>◌, pure, raise,
  or_ioerr, status_of, ignoring, locked,
}

-- The answer of isExist to what `get` of the directory returned.
unfoldable pub listed : Bytes → Result Bytes → Bool
unfolding has_name
listed name (Result.ok entries) = has_name name (split entries sep)
listed name (Result.err f) = false

-- The results of `lookup`: its status, and what it assigned to result_inum (with `found = true`)
-- and to result_attr.
pub record Looked : Type 0 where
  pub ret : Status (Unit {0})
  pub result_inum : Option ℕ
  pub result_attr : Option Attr

abbrev pub missing : Status (Unit {0}) → Looked
missing s = record { ret = s; result_inum = none; result_attr = none }

abbrev pub looked : ℕ → Result Attr → Looked
looked inum (Result.ok a) = record { ret = ok tt; result_inum = some inum; result_attr = some a }
looked inum (Result.err f) = record { ret = err ioerr; result_inum = some inum; result_attr = none }

module _ {W : Type 0} (d : Services W) where
  unfoldable pub is_exist : ℕ → Bytes → Action W Bool
  unfolding listed
  is_exist parent name w = let r = d.get parent w in (ok (listed name r.0), r.1)

  -- The status 1 of add_entry is IOERR for both of its callers.
  unfoldable pub add_entry : ℕ → Bytes → ℕ → Action W (Unit {0})
  unfolding with_entry
  add_entry parent name new_inum = do
    entries ← or_ioerr (d.get parent)
    or_ioerr (d.put parent (with_entry entries name new_inum))

  unfoldable pub create : ℕ → Bytes → ℕ → Action W Attr
  unfolding is_exist add_entry
  create parent name new_inum = locked d parent (
      locked d new_inum do
        there ← is_exist parent name
        if there then raise exist else do
          ignoring (d.put new_inum [])
          add_entry parent name new_inum
          or_ioerr (d.getattr new_inum))

  unfoldable pub mymkdir : ℕ → Bytes → ℕ → Action W (Unit {0})
  unfolding is_exist add_entry
  mymkdir parent name dir_inum = locked d parent (
      locked d dir_inum do
        there ← is_exist parent name
        if there
            then raise exist
            else do or_ioerr (d.put dir_inum []); add_entry parent name dir_inum)

  -- The entry's own lock is held while its attributes are read.
  unfoldable pub look_at : ℕ → W → Looked × W
  look_at inum w =
      let r = d.getattr inum (d.acquire inum w) in (looked inum r.0, d.release inum r.1)

  unfoldable pub look_for : Bytes → Result Bytes → W → Looked × W
  unfolding look_at
  look_for name (Result.err f) w = (missing (err ioerr), w)
  look_for name (Result.ok entries) w = elim (find_name name (split entries sep)) [
    | none ↦ (missing (ok tt), w)
    | some n ↦ look_at (n2i n) w
  ]

  unfoldable pub lookup : ℕ → Bytes → W → Looked × W
  unfolding look_for
  lookup parent name w =
      let r = d.get parent (d.acquire parent w) in
      let l = look_for name r.0 r.1 in (l.0, d.release parent l.1)

  unfoldable pub readdir : ℕ → Action W (List Bytes)
  readdir parent = locked d parent do entries ← or_ioerr (d.get parent); pure (split entries sep)

  -- The extent of the file that was unlinked is made empty, under its own lock. That lock is
  -- released only where this fails.
  unfoldable pub free_extent : ℕ → Action W (Unit {0})
  free_extent unlink_inum w =
      let r = d.put unlink_inum [] (d.acquire unlink_inum w) in
      elim r.0 [
        | Result.ok u ↦ (ok tt, r.1)
        | Result.err f ↦ (err ioerr, d.release unlink_inum r.1)
      ]

  unfoldable pub unlink_found : ℕ → Bytes → List Bytes → Option Bytes → Action W (Unit {0})
  unfolding free_extent kept without_last
  unlink_found parent name key_values none = raise uninitialised
  unlink_found parent name key_values (some n) =
      if isdir (n2i n)
      then raise ioerr
      else do or_ioerr (d.put parent (without_last (kept n name key_values))); free_extent (n2i n)

  unfoldable pub unlink : ℕ → Bytes → Action W (Unit {0})
  unfolding is_exist unlink_found
  unlink parent name = locked d parent do
    there ← is_exist parent name
    if not there then raise noent else do
      entries ← or_ioerr (d.get parent)
      unlink_found parent name (split entries sep) (find_name name (split entries sep))
