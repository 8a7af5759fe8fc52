-- ===== src/Yfs/Tests/Locks.antt =====
-- The locks of methods that run on a new file system.
use cse_yet_another_file_sys.Base.{[], ◌∷◌}
use cse_yet_another_file_sys.Yfs.Files.{getfile, getdir, updatesize, read, write}
use cse_yet_another_file_sys.Yfs.Dirs.{create, mymkdir, lookup, readdir}
use cse_yet_another_file_sys.Yfs.Cached.{Machine}
use cse_yet_another_file_sys.Yfs.Locks.{Tracked, tracked, IsBalanced, methods-IsBalanced}
use cse_yet_another_file_sys.Yfs.Tests.{yfs, a_name, file, one_file}

methods-IsBalanced_example :
    IsBalanced (getfile (tracked yfs) 1)
    × IsBalanced (getdir (tracked yfs) 1)
    × IsBalanced (updatesize (tracked yfs) 1 4)
    × IsBalanced (read (tracked yfs) 1 4 0)
    × IsBalanced (write (tracked yfs) 1 a_name 4 0)
    × IsBalanced (create (tracked yfs) 1 a_name file)
    × IsBalanced (mymkdir (tracked yfs) 1 a_name file)
    × IsBalanced (readdir (tracked yfs) 1)
    × IsBalanced (lookup (tracked yfs) 1 a_name)
methods-IsBalanced_example = methods-IsBalanced yfs 1 file 4 0 a_name a_name

abbrev start : Tracked Machine
start = (one_file, 8 ∷ [])
