-- ===== src/Fuse/Tests.antt =====
-- Runs of the handlers of fuse.cc on a new file system.
use cse_yet_another_file_sys.Base.{
  ℕ, ◌+◌, ◌^◌, ◌≡◌, refl, true, false, some, [], ◌∷◌, Bytes, length, arith,
}
use cse_yet_another_file_sys.Yfs.Numbers.{isdir}
use cse_yet_another_file_sys.Yfs.Files.{updatesize}
use cse_yet_another_file_sys.Yfs.Files
use cse_yet_another_file_sys.Yfs.Dirs.{mymkdir}
use cse_yet_another_file_sys.Yfs.Dirs
use cse_yet_another_file_sys.Yfs.Entries.Listing.{inum_of}
use cse_yet_another_file_sys.Yfs.Tests.{
  yfs, laws, fresh, fresh-Fine, root_there, a_name, a-IsEntry, file,
}
use cse_yet_another_file_sys.Yfs.Cached.{Machine}
use cse_yet_another_file_sys.Fuse.{
  Stat, reply_entry, file_mode, getattr, make_node, fuseserver_getattr, fuseserver_setattr,
  fuseserver_read, fuseserver_write, fuseserver_create, fuseserver_mknod, fuseserver_lookup,
  fuseserver_mkdir, fuseserver_unlink, fuseserver_readdir,
}
use cse_yet_another_file_sys.Fuse.Inums.{
  Draws, IsGenerated, Generates, generate_inum_lem, taken, number_of,
}
use cse_yet_another_file_sys.Fuse.NewFile.{lookup-make_node}
use cse_yet_another_file_sys.Fuse.Replies.{one_or_two, handlers_answer}

abbrev rand : ℕ → ℕ
rand k = k + 5

-- The first draw's number was given out before.
abbrev used : Draws
used = record { inum_set = (2 ^ 31 + 5) ∷ []; drawn = 0 }

generate_inum_lem_example : Generates rand true 2 used
unfolding taken number_of
generate_inum_lem_example = generate_inum_lem rand true 1 2 used (omega arith, tt) (omega arith)

lookup-make_node_example :
    (n : ℕ) × (s' : Draws) × (st found : Stat) × (w1 w2 : Machine) × (make_node yfs rand 2 1 a_name
        used fresh
      ≡ some (reply_entry n st ∷ [], s', w1))
    × IsGenerated rand true used n s'
    × (fuseserver_lookup yfs 1 a_name w1 ≡ (reply_entry n found ∷ [], w2))
    × (found.st_ino ≡ some n)
    × (found.st_mode ≡ file_mode)
    × (found.st_size ≡ 0)
unfolding taken inum_of number_of isdir
lookup-make_node_example =
    lookup-make_node laws rand 1 2 1 a_name [] used fresh refl (omega arith) fresh-Fine root_there
      tt a-IsEntry.1 refl refl

abbrev entry_bytes : Bytes → ℕ → Bytes
entry_bytes name ino = name

handlers_answer_example :
    (length (fuseserver_getattr yfs file fresh).0 ≡ 1)
    × (length (fuseserver_create yfs file a_name file fresh).0 ≡ 1)
    × (length (fuseserver_mknod yfs file a_name file fresh).0 ≡ 1)
    × (length (fuseserver_readdir yfs entry_bytes file 8 0 fresh).0 ≡ 1)
    × (length (fuseserver_setattr yfs file 8 false fresh).0 ≡ 1)
    × (length (fuseserver_setattr yfs file 8 true fresh).0
        ≡ one_or_two (updatesize yfs file 8 (getattr yfs file fresh).1).0)
    × (length (fuseserver_read yfs file 8 0 fresh).0 ≡ one_or_two (Files.read yfs file 8 0 fresh).0)
    × (length (fuseserver_write yfs file a_name 8 0 fresh).0
        ≡ one_or_two (Files.write yfs file a_name 8 0 fresh).0)
    × (length (fuseserver_mkdir yfs file a_name file fresh).0
        ≡ one_or_two (mymkdir yfs file a_name file fresh).0)
    × (length (fuseserver_unlink yfs file a_name fresh).0
        ≡ one_or_two (Dirs.unlink yfs file a_name fresh).0)
    × (length (fuseserver_lookup yfs file a_name fresh).0
        ≡ one_or_two (Dirs.lookup yfs file a_name fresh).0.ret)
handlers_answer_example = handlers_answer yfs file 8 0 a_name a_name file entry_bytes fresh
