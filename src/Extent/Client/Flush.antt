-- ===== src/Extent/Client/Flush.antt =====
-- flush of the extent client, which the lock client calls when a lock goes back.
use cse_yet_another_file_sys.Base.{
  ℕ, ◌≡◌, none, Bytes, lookup, lookup-insert, lookup-erase, at_or, arith,
}
use cse_yet_another_file_sys.Rpc.Status.{Failure}
use cse_yet_another_file_sys.Extent.Server
use cse_yet_another_file_sys.Extent.Server.{Attr}
use cse_yet_another_file_sys.Extent.Client.{World, delivered, lost, flush, put}
use cse_yet_another_file_sys.Extent.Client.Invariant.{view, IsCoherent}

module _ (now : ℕ) (w : World) (eid : ℕ) where
  -- An extent that is flushed is the server's, and no longer cached.
  flushed-content :
      IsCoherent w → lookup eid (flush delivered now w eid).1.server.content_map ≡ view w eid
  unfolding flush Server.put at_or
  flushed-content h = grind (arith, h.cached eid, lookup-insert)

  flushed-cache : lookup eid (flush delivered now w eid).1.client.content_map_cache ≡ none
  unfolding flush Server.put at_or
  flushed-cache = grind (arith, lookup-insert, lookup-erase)

  pub view-flush : (j : ℕ) → IsCoherent w → view (flush delivered now w eid).1 j ≡ view w j
  unfolding flush Server.put at_or
  view-flush j h = grind (arith, h.cached eid, h.cached j, lookup-insert, lookup-erase)

  pub flush-IsCoherent : IsCoherent w → IsCoherent (flush delivered now w eid).1
  unfolding flush Server.put at_or
  flush-IsCoherent h = record {
    server = λ j. grind (arith, h.server j, h.server eid, h.cached eid, lookup-insert);
    sizes = λ j. grind (
      arith,
      h.server j,
      h.server eid,
      h.sizes j,
      h.sizes eid,
      h.cached j,
      h.cached eid,
      lookup-insert,
      lookup-erase,
    );
    cached = λ j. grind (arith, h.cached j, h.cached eid, lookup-insert, lookup-erase);
  }

-- If the put that a flush sends never reaches the server, the flush drops the extent from the cache
-- all the same: after it the client sees what the server had before the write.
pub flush_loses :
    (f : Failure) (now later : ℕ) (w : World) (eid : ℕ) (buf : Bytes)
    → view (flush (lost f) later (put now w eid buf).1 eid).1 eid ≡ lookup eid w.server.content_map
unfolding flush put
flush_loses f now later w eid buf = grind (arith, lookup-insert, lookup-erase)
