-- ===== src/Extent/Server.antt =====
-- extent_server.cc and extent_server.h: each call takes what time(NULL) returns during it.
pub mod Calls
pub mod Invariant
pub mod Spec
use cse_yet_another_file_sys.Base.{
  ℕ, Option, none, some, [], ◌∷◌, Bytes, length, Map, lookup, insert, erase,
}
use cse_yet_another_file_sys.Rpc.Status.{Result, ok, err, ioerr, u32}

pub record Attr : Type 0 where
  pub atime : ℕ
  pub mtime : ℕ
  pub ctime : ℕ
  pub size : ℕ

pub record ExtentServer : Type 0 where
  pub content_map : Map Bytes
  pub attr_map : Map Attr

-- The attributes of an extent that is written for the first time.
abbrev pub new_attr : ℕ → Bytes → Attr
new_attr now buf = record {
  atime = u32 now;
  mtime = u32 now;
  ctime = u32 now;
  size = u32 (length buf);
}

unfoldable pub init : ℕ → ExtentServer
init now = record { content_map = (1, []) ∷ []; attr_map = (1, new_attr now []) ∷ [] }

abbrev put_attr : Option Attr → ℕ → Bytes → Attr
put_attr none now buf = new_attr now buf
put_attr (some a) now buf = record a { mtime = u32 now; ctime = u32 now; size = u32 (length buf) }

unfoldable pub put : ℕ → ExtentServer → ℕ → Bytes → Result Unit × ExtentServer
put now s id buf = (
  ok tt,
  record {
    content_map = insert id buf s.content_map;
    attr_map = insert id (put_attr (lookup id s.attr_map) now buf) s.attr_map;
  },
)

-- `get` once both iterators are known.
abbrev get_found : ℕ → ExtentServer → ℕ → Option Bytes → Option Attr → Result Bytes × ExtentServer
get_found now s id (some buf) (some a) =
    (ok buf, record s { attr_map = insert id (record a { atime = u32 now }) s.attr_map })
get_found now s id _ _ = (err ioerr, s)

unfoldable pub get : ℕ → ExtentServer → ℕ → Result Bytes × ExtentServer
get now s id = get_found now s id (lookup id s.content_map) (lookup id s.attr_map)

unfoldable pub getattr : ExtentServer → ℕ → Result Attr
getattr s id = elim (lookup id s.attr_map) [ none ↦ err ioerr | some a ↦ ok a ]

abbrev remove_found : ExtentServer → ℕ → Option Bytes → Option Attr → Result Unit × ExtentServer
remove_found s id (some buf) (some a) =
    (ok tt, record { content_map = erase id s.content_map; attr_map = erase id s.attr_map })
remove_found s id _ _ = (err ioerr, s)

unfoldable pub remove : ExtentServer → ℕ → Result Unit × ExtentServer
remove s id = remove_found s id (lookup id s.content_map) (lookup id s.attr_map)
