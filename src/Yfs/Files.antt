-- ===== src/Yfs/Files.antt =====
-- yfs_client: getfile, getdir, updatesize, read, write.
pub mod Content
pub mod Effect
use cse_yet_another_file_sys.Base.{
  ℕ, ◌+◌, ◌-◌, ◌%◌, ◌^◌, Bool, true, false, List, [], ◌∷◌, ◌++◌, Bytes, ltb, leb, ◌==◌,
  if◌then◌else◌, length, take, drop, replicate,
}
use cse_yet_another_file_sys.Extent.Server.{Attr}
use cse_yet_another_file_sys.Yfs.Services.{
  Services, Action, Status, ◌>>=◌, ◌>>◌, pure, or_ioerr, locked,
}

pub record FileInfo : Type 0 where
  pub size : ℕ
  pub atime : ℕ
  pub mtime : ℕ
  pub ctime : ℕ

pub record DirInfo : Type 0 where
  pub atime : ℕ
  pub mtime : ℕ
  pub ctime : ℕ

-- std::string(buf): the bytes up to the first NUL.
unfoldable pub c_string : Bytes → Bytes
c_string [] = []
c_string (c ∷ buf) = let rest = c_string buf in if c == 0 then [] else c ∷ rest

-- `if(size > buf_str.size()) buf_str.append(size-buf_str.size(),'\0')`, and substr(0, size).
unfoldable pub fit : ℕ → Bytes → Bytes
fit size buf_str =
    if ltb (length buf_str) size
    then take size (buf_str ++ replicate (size - length buf_str) 0)
    else take size buf_str

-- new_content of `write`, with `piece` for buf_str.substr(0,size). The sum of off and size is an
-- unsigned 64-bit number.
unfoldable pub overwrite : Bytes → Bytes → ℕ → ℕ → Bytes
overwrite content piece size off =
    let end = (off + size) % 2 ^ 64 in
    if ltb (length content) off
    then (content ++ replicate (off - length content) 0) ++ piece
    else if leb (length content) end
    then (if off == 0 then piece else take off content ++ piece)
    else if off == 0
    then piece ++ drop end content
    else take off content ++ piece ++ drop end content

-- The content that `updatesize` puts, where the attributes say `old_size`.
unfoldable pub resized : ℕ → ℕ → Bytes → Bytes
resized new_size old_size old_buf =
    if ltb old_size new_size
    then old_buf ++ replicate (new_size - old_size) 0
    else take new_size old_buf

-- What `read` returns of a content. The test `size < 0` of an unsigned number is never true.
unfoldable pub portion : ℕ → ℕ → Bytes → Bytes
portion size off content = if ltb off (length content) then take size (drop off content) else []

module _ {W : Type 0} (d : Services W) where
  unfoldable pub getfile : ℕ → Action W FileInfo
  getfile inum = locked d inum do
    a ← or_ioerr (d.getattr inum)
    pure (record { size = a.size; atime = a.atime; mtime = a.mtime; ctime = a.ctime })

  unfoldable pub getdir : ℕ → Action W DirInfo
  getdir inum = locked d inum do
    a ← or_ioerr (d.getattr inum)
    pure (record { atime = a.atime; mtime = a.mtime; ctime = a.ctime })

  unfoldable pub updatesize : ℕ → ℕ → Action W (Unit {0})
  unfolding resized
  updatesize tochange_inum new_size = locked d tochange_inum do
    old_attr ← or_ioerr (d.getattr tochange_inum)
    old_buf ← or_ioerr (d.get tochange_inum)
    or_ioerr (d.put tochange_inum (resized new_size old_attr.size old_buf))

  unfoldable pub read : ℕ → ℕ → ℕ → Action W Bytes
  unfolding portion
  read to_read size off =
      locked d to_read do content ← or_ioerr (d.get to_read); pure (portion size off content)

  -- A file whose attributes give size 0 is replaced by the piece, whatever the offset.
  unfoldable pub write : ℕ → Bytes → ℕ → ℕ → Action W (Unit {0})
  unfolding c_string fit overwrite
  write to_write buf size off = locked d to_write do
    content ← or_ioerr (d.get to_write)
    the_attr ← or_ioerr (d.getattr to_write)
    if the_attr.size == 0
        then or_ioerr (d.put to_write (fit size (c_string buf)))
        else or_ioerr (d.put to_write (overwrite content (fit size (c_string buf)) size off))
