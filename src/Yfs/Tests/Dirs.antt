-- ===== src/Yfs/Tests/Dirs.antt =====
-- Directories with one entry.
use cse_yet_another_file_sys.Base.{bytes_eq, refl, []}
use cse_yet_another_file_sys.Yfs.Numbers.{isdir}
use cse_yet_another_file_sys.Yfs.Services.{ok}
use cse_yet_another_file_sys.Yfs.Laws.{with_content, Ends}
use cse_yet_another_file_sys.Yfs.Entries.Listing.{fields, encode, inum_of}
use cse_yet_another_file_sys.Yfs.Dirs.{lookup, readdir, unlink}
use cse_yet_another_file_sys.Yfs.Dirs.Lookup.{Finds, lookup_lem, readdir_lem}
use cse_yet_another_file_sys.Yfs.Dirs.Unlink.{unlink_lem}
use cse_yet_another_file_sys.Yfs.Tests.{
  yfs, seen, Fine, laws, a_name, file, a-IsEntry, one_file, file_list, one_file-Fine, file_listed,
  file_there,
}

lookup_lem_example : Finds seen Fine (lookup yfs 1 a_name) one_file file 0
lookup_lem_example =
    lookup_lem laws 1 a_name file_list one_file-Fine file_listed (a-IsEntry, tt) file []
      (unfold inum_of bytes_eq in refl) file_there

readdir_lem_example :
    Ends seen Fine (readdir yfs 1) one_file (ok (fields file_list)) (seen one_file)
readdir_lem_example = readdir_lem laws 1 a_name file_list one_file-Fine file_listed (a-IsEntry, tt)

unlink_lem_example :
    Ends seen Fine
      (unlink yfs 1 a_name)
      one_file
      (ok tt)
      (with_content (with_content (seen one_file) 1 (encode [])) file [])
unlink_lem_example =
    unlink_lem laws 1 a_name file [] [] one_file-Fine file_listed (a-IsEntry, tt) tt tt
      (unfold isdir in refl)
