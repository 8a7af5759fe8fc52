-- ===== src/Fuse.antt =====
-- The FUSE front end (fuse.cc): the handlers of a file system's requests, which call yfs_client.
pub mod Inums
pub mod Replies
pub mod NewFile
mod Tests
use cse_yet_another_file_sys.Base.{
  ℕ, ◌+◌, ◌%◌, ◌^◌, Bool, true, false, not, Option, none, some, List, [], ◌∷◌, ◌++◌, Bytes, ltb,
  if◌then◌else◌, length, take, drop,
}
use cse_yet_another_file_sys.Extent.Server.{Attr}
use cse_yet_another_file_sys.Yfs.Numbers.{isfile, isdir, n2i}
use cse_yet_another_file_sys.Yfs.Services.{Services, Status, ok, err, noent, Error}
use cse_yet_another_file_sys.Yfs.Files.{FileInfo, DirInfo, getfile, getdir, updatesize, c_string}
use cse_yet_another_file_sys.Yfs.Files
use cse_yet_another_file_sys.Yfs.Dirs.{Looked, create, mymkdir}
use cse_yet_another_file_sys.Yfs.Dirs
use cse_yet_another_file_sys.Fuse.Inums.{Draws, generate_inum}

-- The numbers of errno.h that are used.
pub data Errno : Type 0 where
  success enoent eexist enotdir enosys : Errno

-- struct stat. `none` is a member that was not assigned.
pub record Stat : Type 0 where
  pub st_ino : Option ℕ
  pub st_mode : ℕ
  pub st_nlink : ℕ
  pub st_atime : ℕ
  pub st_mtime : ℕ
  pub st_ctime : ℕ
  pub st_size : ℕ

-- What a handler sends: fuse_reply_err, fuse_reply_attr, and so on. An entry has its ino and attr;
-- its timeouts and generation are always 0.
pub data Answer : Type 0 where
  reply_err : Errno → Answer
  reply_attr : Stat → Answer
  reply_buf : Bytes → Answer
  reply_write : ℕ → Answer
  reply_entry reply_create : ℕ → Stat → Answer
  reply_open : Answer
  reply_statfs : ℕ → ℕ → Answer

-- S_IFREG | 0666 and S_IFDIR | 0777
abbrev pub file_mode : ℕ
file_mode = 33206

abbrev pub dir_mode : ℕ
dir_mode = 16895

-- bzero, and then st_ino.
abbrev pub blank : ℕ → Stat
blank inum = record {
  st_ino = some inum;
  st_mode = 0;
  st_nlink = 0;
  st_atime = 0;
  st_mtime = 0;
  st_ctime = 0;
  st_size = 0;
}

abbrev pub file_stat : ℕ → Status FileInfo → Bool × Stat
file_stat inum (ok info) = (
  true,
  record {
    st_ino = some inum;
    st_mode = file_mode;
    st_nlink = 1;
    st_atime = info.atime;
    st_mtime = info.mtime;
    st_ctime = info.ctime;
    st_size = info.size;
  },
)
file_stat inum (err e) = (false, blank inum)

abbrev pub dir_stat : ℕ → Status DirInfo → Bool × Stat
dir_stat inum (ok info) = (
  true,
  record {
    st_ino = some inum;
    st_mode = dir_mode;
    st_nlink = 2;
    st_atime = info.atime;
    st_mtime = info.mtime;
    st_ctime = info.ctime;
    st_size = 0;
  },
)
dir_stat inum (err e) = (false, blank inum)

-- The attributes that createhelper writes down; st_ino is left as it is on the stack.
abbrev pub new_file_stat : Attr → Stat
new_file_stat a = record {
  st_ino = none;
  st_mode = file_mode;
  st_nlink = 1;
  st_atime = a.atime;
  st_mtime = a.mtime;
  st_ctime = a.ctime;
  st_size = a.size;
}

-- reply_buf_limited, where `min` of the sizes is what `take` stops at.
unfoldable pub reply_buf_limited : Bytes → ℕ → ℕ → Answer
reply_buf_limited buf off maxsize =
    if ltb off (length buf) then reply_buf (take maxsize (drop off buf)) else reply_buf []

-- What lookup does on its failure, before it looks at `found`; likewise the other handlers that go
-- on after an error.
abbrev pub failed : {A : Type 0} → Status A → List Answer
failed (ok a) = []
failed (err e) = reply_err enoent ∷ []

-- `buf` stays empty if yfs->read fails.
abbrev pub content_of : Status Bytes → Bytes
content_of (ok buf) = buf
content_of (err e) = []

-- createhelper's entry, or EXIST (`none`) whatever went wrong.
abbrev entry_of : ℕ → Status Attr → Option (ℕ × Stat)
entry_of inum (ok a) = some (inum, new_file_stat a)
entry_of inum (err e) = none

abbrev pub or_exist : (ℕ → Stat → Answer) → Option (ℕ × Stat) → List Answer
or_exist reply none = reply_err eexist ∷ []
or_exist reply (some (ino, st)) = reply ino st ∷ []

module _ {W : Type 0} (d : Services W) where
  -- yfs_client::status, whether it is OK, and `st`.
  unfoldable pub getattr : ℕ → W → (Bool × Stat) × W
  getattr inum w =
      if isfile inum
      then (let r = getfile d inum w in (file_stat inum r.0, r.1))
      else (let r = getdir d inum w in (dir_stat inum r.0, r.1))

  unfoldable pub fuseserver_getattr : ℕ → W → List Answer × W
  unfolding getattr
  fuseserver_getattr ino w =
      let ((is_ok, st), w1) = getattr ino w in
      ((if is_ok then reply_attr st else reply_err enoent) ∷ [], w1)

  -- `sets_size` is FUSE_SET_ATTR_SIZE & to_set. The size stays within 64 bits.
  unfoldable pub fuseserver_setattr : ℕ → ℕ → Bool → W → List Answer × W
  fuseserver_setattr ino size sets_size w =
      let ((is_ok, st), w1) = getattr ino w in
      let r = updatesize d ino size w1 in
      if sets_size
      then (failed r.0 ++ reply_attr (record st { st_size = size }) ∷ [], r.1)
      else (reply_err enosys ∷ [], w)

  unfoldable pub fuseserver_read : ℕ → ℕ → ℕ → W → List Answer × W
  fuseserver_read ino size off w =
      let r = Files.read d ino size off w in (failed r.0 ++ reply_buf (content_of r.0) ∷ [], r.1)

  unfoldable pub fuseserver_write : ℕ → Bytes → ℕ → ℕ → W → List Answer × W
  fuseserver_write ino buf size off w =
      let r = Files.write d ino buf size off w in (failed r.0 ++ reply_write size ∷ [], r.1)

  unfoldable pub fuseserver_createhelper : ℕ → Bytes → ℕ → W → Option (ℕ × Stat) × W
  fuseserver_createhelper parent name inum w =
      let r = create d parent name inum w in (entry_of inum r.0, r.1)

  unfoldable pub fuseserver_create : ℕ → Bytes → ℕ → W → List Answer × W
  fuseserver_create parent name inum w =
      let r = fuseserver_createhelper parent name inum w in (or_exist reply_create r.0, r.1)

  unfoldable pub fuseserver_mknod : ℕ → Bytes → ℕ → W → List Answer × W
  fuseserver_mknod parent name inum w =
      let r = fuseserver_createhelper parent name inum w in (or_exist reply_entry r.0, r.1)

  -- What is sent once `found` is looked at.
  unfoldable pub found_entry : Option ℕ → W → List Answer × W
  found_entry none w = (reply_err enoent ∷ [], w)
  found_entry (some inum) w =
      let ((is_ok, st), w1) = getattr inum w in (reply_entry inum st ∷ [], w1)

  unfoldable pub fuseserver_lookup : ℕ → Bytes → W → List Answer × W
  fuseserver_lookup parent name w =
      let (l, w1) = Dirs.lookup d parent name w in
      let (answers, w2) = found_entry l.result_inum w1 in (failed l.ret ++ answers, w2)

  unfoldable pub fuseserver_mkdir : ℕ → Bytes → ℕ → W → List Answer × W
  fuseserver_mkdir parent name inum w =
      let r = mymkdir d parent name inum w in
      let ((is_ok, st), w1) = getattr inum r.1 in (failed r.0 ++ reply_entry inum st ∷ [], w1)

  unfoldable pub fuseserver_unlink : ℕ → Bytes → W → List Answer × W
  fuseserver_unlink parent name w =
      let r = Dirs.unlink d parent name w in (failed r.0 ++ reply_err success ∷ [], r.1)

  -- dirbuf_add for each pair of an i-number and a name; `dirent` is what fuse_add_dirent writes.
  unfoldable pub dirbuf : (Bytes → ℕ → Bytes) → List Bytes → Bytes
  dirbuf dirent (the_inum ∷ name ∷ rest) =
      dirent (c_string name) (n2i the_inum) ++ dirbuf dirent rest
  dirbuf dirent (x ∷ []) = []
  dirbuf dirent [] = []

  abbrev listing_of : (Bytes → ℕ → Bytes) → ℕ → ℕ → Status (List Bytes) → Answer
  listing_of dirent size off (ok key_values) = reply_buf_limited (dirbuf dirent key_values) off size
  listing_of dirent size off (err e) = reply_err enotdir

  unfoldable pub fuseserver_readdir : (Bytes → ℕ → Bytes) → ℕ → ℕ → ℕ → W → List Answer × W
  fuseserver_readdir dirent ino size off w =
      let r = Dirs.readdir d ino w in
      if not (isdir ino)
      then (reply_err enotdir ∷ [], w)
      else (listing_of dirent size off r.0 ∷ [], r.1)

unfoldable pub fuseserver_open : List Answer
fuseserver_open = reply_open ∷ []

unfoldable pub fuseserver_statfs : List Answer
fuseserver_statfs = reply_statfs 255 512 ∷ []

-- A handler that takes a new i-number first. `none` is for draws that do not suffice.
abbrev with_number :
    {W : Type 0}
    → (ℕ → W → List Answer × W)
    → Option (ℕ × Draws)
    → W
    → Option (List Answer × Draws × W)
with_number handler none w = none
with_number handler (some (inum, s)) w = let (answers, w') = handler inum w in some (answers, s, w')

module _ {W : Type 0} (d : Services W) (rand : ℕ → ℕ) (fuel : ℕ) where
  unfoldable pub create_file : ℕ → Bytes → Draws → W → Option (List Answer × Draws × W)
  create_file parent name s w =
      with_number (fuseserver_create d parent name) (generate_inum rand true fuel s) w

  unfoldable pub make_node : ℕ → Bytes → Draws → W → Option (List Answer × Draws × W)
  make_node parent name s w =
      with_number (fuseserver_mknod d parent name) (generate_inum rand true fuel s) w

  unfoldable pub make_dir : ℕ → Bytes → Draws → W → Option (List Answer × Draws × W)
  make_dir parent name s w =
      with_number (fuseserver_mkdir d parent name) (generate_inum rand false fuel s) w
