-- ===== src/Extent/Server/Invariant.antt =====
-- The two maps of the server agree: the same extents, with the size of the content.
use cse_yet_another_file_sys.Base.{
  ℕ, ◌≡◌, Option, none, some, Bytes, length, lookup, lookup-insert, lookup-erase, arith,
}
use cse_yet_another_file_sys.Rpc.Status.{u32}
use cse_yet_another_file_sys.Extent.Server.{Attr, ExtentServer, init, put, get, remove}

-- What the maps hold at one extent.
abbrev pub AgreesAt : Option Bytes → Option Attr → Type 0
AgreesAt none none = Unit
AgreesAt (some buf) (some a) = a.size ≡ u32 (length buf)
AgreesAt _ _ = ⊥

abbrev pub IsConsistent : ExtentServer → Type 0
IsConsistent s = (id : ℕ) → AgreesAt (lookup id s.content_map) (lookup id s.attr_map)

-- The content of an extent, if the server has it.
abbrev pub content : ExtentServer → ℕ → Option Bytes
content s id = lookup id s.content_map

pub init-IsConsistent : (now : ℕ) → IsConsistent (init now)
unfolding init lookup
init-IsConsistent now id = ground arith

pub put-IsConsistent :
    (now : ℕ) (s : ExtentServer) (id : ℕ) (buf : Bytes)
    → IsConsistent s
    → IsConsistent (put now s id buf).1
unfolding put
put-IsConsistent now s id buf h j =
    rw (lookup-insert id j buf s.content_map, lookup-insert id j _ s.attr_map)
      (ground (arith, h j, h id))

pub get-IsConsistent :
    (now : ℕ) (s : ExtentServer) (id : ℕ) → IsConsistent s → IsConsistent (get now s id).1
unfolding get
get-IsConsistent now s id h j = grind (arith, h j, h id, lookup-insert)

pub remove-IsConsistent :
    (s : ExtentServer) (id : ℕ) → IsConsistent s → IsConsistent (remove s id).1
unfolding remove
remove-IsConsistent s id h j =
    ground (arith, h j, lookup-erase id j s.content_map, lookup-erase id j s.attr_map)
