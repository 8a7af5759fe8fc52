-- ===== src/Fuse/Replies.antt =====
-- fuse.cc: how many answers the kernel gets for a request.
use cse_yet_another_file_sys.Base.{
  ℕ, ◌+◌, ◌≡◌, refl, ◌∙◌, true, false, Option, none, some, [], ◌∷◌, ◌++◌, Bytes, length,
  length-append, arith,
}
use cse_yet_another_file_sys.Yfs.Services.{Services, Status, ok, err}
use cse_yet_another_file_sys.Yfs.Files.{updatesize}
use cse_yet_another_file_sys.Yfs.Files
use cse_yet_another_file_sys.Yfs.Dirs.{mymkdir}
use cse_yet_another_file_sys.Yfs.Dirs
use cse_yet_another_file_sys.Fuse.{
  Stat, Answer, getattr, found_entry, failed, fuseserver_getattr, fuseserver_setattr,
  fuseserver_read, fuseserver_write, fuseserver_createhelper, fuseserver_create, fuseserver_mknod,
  fuseserver_lookup, fuseserver_mkdir, fuseserver_unlink, fuseserver_readdir, or_exist,
}

-- The answers where the method of yfs_client behind the request is OK, and where it is not.
abbrev pub one_or_two : {A : Type 0} → Status A → ℕ
one_or_two (ok a) = 1
one_or_two (err e) = 2

answers_after :
    {A : Type 0} (r : Status A) (a : Answer) → length (failed r ++ a ∷ []) ≡ one_or_two r
answers_after (ok x) a = refl
answers_after (err e) a = refl

or_exist-one : (reply : ℕ → Stat → Answer) (o : Option (ℕ × Stat)) → length (or_exist reply o) ≡ 1
or_exist-one reply none = refl
or_exist-one reply (some (ino, st)) = refl

module _ {W : Type 0} (d : Services W) where
  found_entry-one : (o : Option ℕ) (w : W) → length (found_entry d o w).0 ≡ 1
  unfolding found_entry
  found_entry-one none w = refl
  found_entry-one (some i) w = refl

  lookup-answers :
      (parent : ℕ) (name : Bytes) (w : W)
      → length (fuseserver_lookup d parent name w).0
        ≡ one_or_two (Dirs.lookup d parent name w).0.ret
  unfolding fuseserver_lookup
  lookup-answers parent name w =
      let l = Dirs.lookup d parent name w in
      length-append (failed l.0.ret) (found_entry d l.0.result_inum l.1).0
      ∙ rw (found_entry-one l.0.result_inum l.1) (sum l.0.ret)
    where
      sum : (r : Status (Unit {0})) → length (failed r) + 1 ≡ one_or_two r
      sum (ok x) = refl
      sum (err e) = refl

  -- The handlers of getattr, create, mknod and readdir, and setattr without a size, send one answer
  -- to a request. Those of setattr with a size, read, write, mkdir, unlink and lookup send one
  -- answer if the method of yfs_client that they call is OK, and two if it is not, over any
  -- services and in any state.
  pub handlers_answer :
      (ino size off : ℕ) (name buf : Bytes) (inum : ℕ) (dirent : Bytes → ℕ → Bytes) (w : W)
      → (length (fuseserver_getattr d ino w).0 ≡ 1)
        × (length (fuseserver_create d ino name inum w).0 ≡ 1)
        × (length (fuseserver_mknod d ino name inum w).0 ≡ 1)
        × (length (fuseserver_readdir d dirent ino size off w).0 ≡ 1)
        × (length (fuseserver_setattr d ino size false w).0 ≡ 1)
        × (length (fuseserver_setattr d ino size true w).0
            ≡ one_or_two (updatesize d ino size (getattr d ino w).1).0)
        × (length (fuseserver_read d ino size off w).0 ≡ one_or_two (Files.read d ino size off w).0)
        × (length (fuseserver_write d ino buf size off w).0
            ≡ one_or_two (Files.write d ino buf size off w).0)
        × (length (fuseserver_mkdir d ino name inum w).0 ≡ one_or_two (mymkdir d ino name inum w).0)
        × (length (fuseserver_unlink d ino name w).0 ≡ one_or_two (Dirs.unlink d ino name w).0)
        × (length (fuseserver_lookup d ino name w).0 ≡ one_or_two (Dirs.lookup d ino name w).0.ret)
  unfolding fuseserver_getattr fuseserver_create fuseserver_mknod fuseserver_readdir
      fuseserver_setattr fuseserver_read fuseserver_write fuseserver_mkdir fuseserver_unlink
      fuseserver_createhelper
  handlers_answer ino size off name buf inum dirent w = (
    refl,
    or_exist-one _ _,
    or_exist-one _ _,
    readdir_one,
    refl,
    answers_after _ _,
    answers_after _ _,
    answers_after _ _,
    answers_after _ _,
    answers_after _ _,
    lookup-answers ino name w,
  )
    where
      readdir_one : length (fuseserver_readdir d dirent ino size off w).0 ≡ 1
      readdir_one = ground arith
