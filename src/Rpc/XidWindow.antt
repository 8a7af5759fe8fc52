-- ===== src/Rpc/XidWindow.antt =====
-- The window of replies that rpcc has received: rpcc::update_xid_rep in rpc/rpc.cc. Its front is the
-- xid_rep that the next request carries.
pub mod Order
pub mod Compress
pub mod Place
pub mod Received
use cse_yet_another_file_sys.Base.{
  ℕ, ◌+◌, ◌%◌, ◌^◌, Bool, Option, none, some, List, [], ◌∷◌, ◌++◌, ltb, leb, ◌==◌, if◌then◌else◌,
}
use cse_yet_another_file_sys.Rpc.Status.{u32}

-- The constructor pushes 0.
abbrev pub init : List ℕ
init = 0 ∷ []

-- Before the first greater xid, else at the end.
unfoldable pub place : ℕ → List ℕ → List ℕ
place xid [] = xid ∷ []
place xid (x ∷ xs) = let rest = place xid xs in if ltb xid x then xid ∷ x ∷ xs else x ∷ rest

-- `while(xid_rep_window_.front() + 1 == *it) pop_front()`, on what stands before `it`. The loop ends
-- when `it` itself is the front.
unfoldable pub pop_while : ℕ → List ℕ → List ℕ
pop_while x [] = []
pop_while x (y ∷ ys) = let rest = pop_while x ys in if u32 (y + 1) == x then rest else y ∷ ys

-- The loop over `it`: what stands before it, and the list from it on.
unfoldable pub compress : List ℕ → List ℕ → List ℕ
unfolding pop_while
compress front [] = front
compress front (x ∷ xs) = compress (pop_while x front ++ x ∷ []) xs

abbrev pub compress_all : List ℕ → List ℕ
compress_all [] = []
compress_all (x ∷ xs) = compress (x ∷ []) xs

-- The front of an empty window is undefined: `none`.
unfoldable pub update_xid_rep : List ℕ → ℕ → Option (List ℕ)
unfolding place compress
update_xid_rep [] xid = none
update_xid_rep (f ∷ rest) xid =
    if leb xid f then some (f ∷ rest) else some (compress_all (place xid (f ∷ rest)))
