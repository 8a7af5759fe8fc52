-- ===== src/Handles/Tests.antt =====
-- A run of the handle manager: a name is deleted while it has a handle, and is made anew.
use cse_yet_another_file_sys.Base.{◌≡◌, some, List, [], ◌∷◌, lookup, All}
use cse_yet_another_file_sys.Handles.{
  HandleMgr, no_handles, Deed, make, finish, bind, delete, act_all,
}
use cse_yet_another_file_sys.Handles.Entries.{named, PointsAt}
use cse_yet_another_file_sys.Handles.Counted.{Counts, act_all_lem}

abbrev deeds : List Deed
deeds = make 7 ∷ bind 0 (some 30) ∷ make 7 ∷ delete 7 ∷ make 7 ∷ finish 1 ∷ finish 0 ∷ make 7 ∷ []

act_all_lem_example :
    (s : HandleMgr) × (act_all deeds (some no_handles) ≡ some s)
    × All (PointsAt s.hmap) s.handles
    × Counts (lookup 7 s.hmap) (named 7 s.handles)
act_all_lem_example = act_all_lem deeds 7
