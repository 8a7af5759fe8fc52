-- ===== src/Handles.antt =====
-- handle and handle_mgr (handle.h, handle.cc): RPC clients that are shared by name and counted.
-- A name is the number that stands for its string, and an rpcc the number of the object.
pub mod Entries
pub mod Counted
mod Tests
use cse_yet_another_file_sys.Base.{
  ℕ, zero, suc, ◌+◌, ◌-◌, Bool, true, false, ◌&&◌, Option, none, some, List, [], ◌∷◌, ◌==◌,
  if◌then◌else◌, Map, lookup, insert, erase,
}

-- `id` tells the objects apart that have the same name one after the other.
pub record Hinfo : Type 0 where
  pub id : ℕ
  pub cl : Option ℕ
  pub refcnt : ℕ
  pub del : Bool

-- A handle whose `h` is not NULL: the name and the object that it points to.
abbrev pub Handle : Type 0
Handle = ℕ × ℕ

-- hmap, how many objects were made, and the handles that exist.
pub record HandleMgr : Type 0 where
  pub hmap : Map Hinfo
  pub made : ℕ
  pub handles : List Handle

abbrev pub no_handles : HandleMgr
no_handles = record { hmap = []; made = 0; handles = [] }

abbrev pub new_hinfo : ℕ → Hinfo
new_hinfo id = record { id = id; cl = none; refcnt = 1; del = false }

abbrev pub got : ℕ → HandleMgr → Option Hinfo → HandleMgr
got m s none = record {
  hmap = insert m (new_hinfo s.made) s.hmap;
  made = s.made + 1;
  handles = (m, s.made) ∷ s.handles;
}
got m s (some h) = if h.del then s else record s {
  hmap = insert m (record h { refcnt = h.refcnt + 1 }) s.hmap;
  handles = (m, h.id) ∷ s.handles;
}

-- The constructor of handle. A name that is being deleted gives a handle without an object, which
-- does nothing.
unfoldable pub get_handle : ℕ → HandleMgr → HandleMgr
get_handle m s = got m s (lookup m s.hmap)

-- delete_handle_wo on the object of the name.
abbrev pub deleted : ℕ → Hinfo → Map Hinfo → Map Hinfo
deleted m h hmap = if h.refcnt == 0 then erase m hmap else insert m (record h { del = true }) hmap

abbrev pub delete_found : ℕ → HandleMgr → Option Hinfo → HandleMgr
delete_found m s none = s
delete_found m s (some h) = record s { hmap = deleted m h s.hmap }

unfoldable pub delete_handle : ℕ → HandleMgr → HandleMgr
delete_handle m s = delete_found m s (lookup m s.hmap)

-- An object that a handle points to: `none` if it was deleted.
abbrev pub pointed : ℕ → Option Hinfo → Option Hinfo
pointed id none = none
pointed id (some h) = if h.id == id then some h else none

unfoldable pub deref : Handle → HandleMgr → Option Hinfo
deref (m, id) s = pointed id (lookup m s.hmap)

-- done_handle on the object `h`, whose handle is not among `handles` any more.
abbrev pub counted_down : ℕ → Hinfo → Map Hinfo → Map Hinfo
counted_down m h hmap =
    let h1 = record h { refcnt = h.refcnt - 1 } in
    if h1.refcnt == 0 && h.del then erase m hmap else insert m h1 hmap

abbrev pub done : Handle → List Handle → HandleMgr → Option Hinfo → Option HandleMgr
done (m, id) rest s none = none
done (m, id) rest s (some h) = some (record s { hmap = counted_down m h s.hmap; handles = rest })

-- safebind, where `bound` is the rpcc that binds, or NULL.
abbrev pub with_client : Option ℕ → Hinfo → Hinfo
with_client none h = record h { del = true }
with_client (some c) h = record h { cl = some c }

abbrev pub is_null : Option ℕ → Bool
is_null none = true
is_null (some c) = false

abbrev pub bound_to : Option ℕ → Hinfo → Hinfo
bound_to bound h = if h.del then h else if is_null h.cl then with_client bound h else h

abbrev pub bind_at : ℕ → Option ℕ → HandleMgr → Option Hinfo → Option HandleMgr
bind_at m bound s none = none
bind_at m bound s (some h) = some (record s { hmap = insert m (bound_to bound h) s.hmap })

unfoldable pub safebind : Handle → Option ℕ → HandleMgr → Option HandleMgr
unfolding deref
safebind (m, id) bound s = bind_at m bound s (deref (m, id) s)

-- The handle at a place, and the others.
unfoldable pub pick : ℕ → List Handle → Option (Handle × List Handle)
pick k [] = none
pick zero (x ∷ xs) = some (x, xs)
pick (suc k) (x ∷ xs) = elim (pick k xs) [ none ↦ none | some (y, ys) ↦ some (y, x ∷ ys) ]

-- What a program does: it makes a handle, ends one, binds one, or deletes a name.
pub data Deed : Type 0 where
  make : ℕ → Deed
  finish : ℕ → Deed
  bind : ℕ → Option ℕ → Deed
  delete : ℕ → Deed

abbrev pub finished : HandleMgr → Option (Handle × List Handle) → Option HandleMgr
finished s none = some s
finished s (some (x, rest)) = done x rest s (deref x s)

abbrev pub bound_by : Option ℕ → HandleMgr → Option (Handle × List Handle) → Option HandleMgr
bound_by bound s none = some s
bound_by bound s (some (x, rest)) = safebind x bound s

-- `none` if an object is used that was deleted. A handle that does not exist does nothing.
unfoldable pub act : Deed → HandleMgr → Option HandleMgr
unfolding get_handle delete_handle safebind
act (make m) s = some (get_handle m s)
act (finish k) s = finished s (pick k s.handles)
act (bind k bound) s = bound_by bound s (pick k s.handles)
act (delete m) s = some (delete_handle m s)

unfoldable pub act_all : List Deed → Option HandleMgr → Option HandleMgr
act_all [] o = o
act_all (d ∷ ds) none = none
act_all (d ∷ ds) (some s) = act_all ds (act d s)
