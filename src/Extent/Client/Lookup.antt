-- ===== src/Extent/Client/Lookup.antt =====
-- get, getattr and put of the extent client, seen through its cache.
use cse_yet_another_file_sys.Base.{
  ℕ, ◌≡◌, ◌==◌, if◌then◌else◌, Option, none, some, Bytes, length, lookup-insert, arith,
}
use cse_yet_another_file_sys.Rpc.Status.{Result, ok, err, ioerr, u32}
use cse_yet_another_file_sys.Extent.Server
use cse_yet_another_file_sys.Extent.Server.{Attr}
use cse_yet_another_file_sys.Extent.Server.Invariant.{get-IsConsistent}
use cse_yet_another_file_sys.Extent.Client.{World, delivered, get, getattr, put}
use cse_yet_another_file_sys.Extent.Client.Invariant.{view, IsCoherent}

abbrev pub found : Option Bytes → Result Bytes
found none = err ioerr
found (some buf) = ok buf

abbrev pub size_found : Option Bytes → Result ℕ
size_found none = err ioerr
size_found (some buf) = ok (u32 (length buf))

abbrev pub size_result : Result Attr → Result ℕ
size_result (ok a) = ok a.size
size_result (err f) = err f

module _ (now : ℕ) (w : World) (eid : ℕ) where
  pub get-found : IsCoherent w → (get delivered now w eid).0 ≡ found (view w eid)
  unfolding get Server.get
  get-found h = ground (arith, h.server eid, h.sizes eid)

  pub view-get : (j : ℕ) → IsCoherent w → view (get delivered now w eid).1 j ≡ view w j
  unfolding get Server.get
  view-get j h = grind (arith, h.server eid, lookup-insert)

  pub getattr-found :
      IsCoherent w → size_result (getattr delivered w eid).0 ≡ size_found (view w eid)
  unfolding getattr Server.getattr
  getattr-found h = ground (arith, h.server eid, h.sizes eid)

  pub view-getattr : (j : ℕ) → view (getattr delivered w eid).1 j ≡ view w j
  unfolding getattr Server.getattr
  view-getattr j = ground arith

  pub view-put :
      (buf : Bytes) (j : ℕ)
      → view (put now w eid buf).1 j ≡ (if eid == j then some buf else view w j)
  unfolding put
  view-put buf j = ground (arith, lookup-insert eid j buf w.client.content_map_cache)

  pub put-IsCoherent : (buf : Bytes) → IsCoherent w → IsCoherent (put now w eid buf).1
  unfolding put
  put-IsCoherent buf h = record {
    server = h.server;
    sizes = λ j. grind (arith, h.sizes j, lookup-insert);
    cached = λ j. grind (arith, h.cached j, lookup-insert);
  }

  pub getattr-IsCoherent : IsCoherent w → IsCoherent (getattr delivered w eid).1
  unfolding getattr Server.getattr
  getattr-IsCoherent h = record {
    server = λ j. ground (arith, h.server j);
    sizes = λ j. grind (arith, h.sizes j, h.server j, lookup-insert);
    cached = λ j. ground (arith, h.cached j);
  }

  pub get-IsCoherent : IsCoherent w → IsCoherent (get delivered now w eid).1
  unfolding get Server.get
  get-IsCoherent h = record {
    server = λ j. ground (arith, h.server j, get-IsConsistent now w.server eid h.server j);
    sizes = λ j. grind (arith, h.server eid, h.sizes j, lookup-insert);
    cached = λ j. grind (arith, h.server eid, h.cached j, lookup-insert);
  }
