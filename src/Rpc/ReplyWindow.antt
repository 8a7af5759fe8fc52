-- ===== src/Rpc/ReplyWindow.antt =====
-- The window of replies that rpcs keeps for each client (rpc/rpc.cc and rpc/rpc.h): it decides
-- whether a request is new.
pub mod Contents
pub mod Duplicates
pub mod Reordering
use mathlib.Core.Option
use cse_yet_another_file_sys.Base.{
  ℕ, ◌≤◌, Bool, true, false, Option, none, some, List, [], ◌∷◌, Bytes, ltb, leb, ◌==◌,
  if◌then◌else◌, Map, at_or, insert,
}

-- reply_t: `buf` is the reply with its size, which means something only if `cb_present`.
pub record Reply : Type 0 where
  pub xid : ℕ
  pub cb_present : Bool
  pub buf : Bytes

-- rpcstate_t. A DONE request comes with the saved reply.
pub data RpcState : Type 0 where
  new inprogress forgotten : RpcState
  done : Bytes → RpcState

-- The window of one client: reply_window_[clt_nonce] and window_bound_[clt_nonce].
pub record Window : Type 0 where
  pub replies : List Reply
  pub bound : ℕ

abbrev pub empty : Window
empty = record { replies = []; bound = 0 }

abbrev pub state_of : Reply → RpcState
state_of r = if r.cb_present then done r.buf else inprogress

-- The loop over the whole list: the last reply with this xid decides.
unfoldable pub scan : ℕ → RpcState → List Reply → RpcState
scan xid ret [] = ret
scan xid ret (r ∷ rs) = scan xid (if xid == r.xid then state_of r else ret) rs

unfoldable pub classify : Window → ℕ → RpcState
unfolding scan
classify w xid = elim w.replies [
  | [] ↦ new
  | r ∷ rs ↦ if leb xid w.bound then forgotten else scan xid new (r ∷ rs)
]

abbrev pub started : ℕ → Reply
started xid = record { xid = xid; cb_present = false; buf = [] }

-- The new request goes before the first greater xid.
unfoldable pub enter : ℕ → List Reply → List Reply
enter xid [] = started xid ∷ []
enter xid (r ∷ rs) =
    let rest = enter xid rs in if ltb xid r.xid then started xid ∷ r ∷ rs else r ∷ rest

-- `while(head.xid <= xid_rep)`. To read the front of an empty list is undefined: `none`.
unfoldable pub trim : ℕ → List Reply → Option (List Reply)
trim xid_rep [] = none
trim xid_rep (r ∷ rs) =
    let rest = trim xid_rep rs in if leb r.xid xid_rep then rest else some (r ∷ rs)

abbrev remember : ℕ → Option (List Reply) → Option (RpcState × Window)
remember xid_rep none = none
remember xid_rep (some rs) = some (new, record { replies = rs; bound = xid_rep })

abbrev settle : Window → ℕ → ℕ → RpcState → Option (RpcState × Window)
settle w xid xid_rep new = remember xid_rep (trim xid_rep (enter xid w.replies))
settle w xid xid_rep s = some (s, w)

-- checkduplicate_and_update on the window of the client.
unfoldable pub check : Window → ℕ → ℕ → Option (RpcState × Window)
unfolding classify
check w xid xid_rep = settle w xid xid_rep (classify w xid)

-- The loop of add_reply, which stops at the first reply with this xid.
unfoldable pub fill : ℕ → Bytes → List Reply → List Reply
fill xid b [] = []
fill xid b (r ∷ rs) =
    let rest = fill xid b rs in
    if xid == r.xid then record r { cb_present = true; buf = b } ∷ rs else r ∷ rest

unfoldable pub add_reply : Window → ℕ → Bytes → Window
unfolding fill
add_reply w xid b = record w { replies = fill xid b w.replies }

-- The windows of all clients, by their nonce. A client that is not there has an empty list and the
-- bound 0, as the maps' `[]` makes them.
pub record Windows : Type 0 where
  pub reply_window : Map (List Reply)
  pub window_bound : Map ℕ

abbrev pub window_of : Windows → ℕ → Window
window_of s clt_nonce = record {
  replies = at_or [] clt_nonce s.reply_window;
  bound = at_or 0 clt_nonce s.window_bound;
}

abbrev pub put_back : Windows → ℕ → Window → Windows
put_back s clt_nonce w = record {
  reply_window = insert clt_nonce w.replies s.reply_window;
  window_bound = insert clt_nonce w.bound s.window_bound;
}

abbrev store_checked : Windows → ℕ → Option (RpcState × Window) → Option (RpcState × Windows)
store_checked s clt_nonce none = none
store_checked s clt_nonce (some (r, w)) = some (r, put_back s clt_nonce w)

unfoldable pub checkduplicate_and_update : Windows → ℕ → ℕ → ℕ → Option (RpcState × Windows)
checkduplicate_and_update s clt_nonce xid xid_rep =
    store_checked s clt_nonce (check (window_of s clt_nonce) xid xid_rep)

-- The bounds stay.
abbrev pub free_reply_window : Windows → Windows
free_reply_window s = record s { reply_window = [] }
