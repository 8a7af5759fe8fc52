-- ===== src/Extent/Client/Invariant.antt =====
-- What the file system sees through the cache, and the invariant that makes it one store.
use cse_yet_another_file_sys.Base.{ℕ, ◌≡◌, Option, none, some, Bytes, lookup}
use cse_yet_another_file_sys.Extent.Server.{Attr}
use cse_yet_another_file_sys.Extent.Server.Invariant.{IsConsistent, AgreesAt}
use cse_yet_another_file_sys.Extent.Client.{World}

abbrev pub or_else : {A : Type 0} → Option A → Option A → Option A
or_else (some a) b = some a
or_else none b = b

-- The content of an extent: the cached one, else the server's.
abbrev pub view : World → ℕ → Option Bytes
view w id = or_else (lookup id w.client.content_map_cache) (lookup id w.server.content_map)

abbrev pub attr_view : World → ℕ → Option Attr
attr_view w id = or_else (lookup id w.client.attr_map_cache) (lookup id w.server.attr_map)

-- A dirty extent is in the cache; what is cached of a clean one is what the server has.
abbrev pub CachedAt : Option (Unit {0}) → Option Bytes → Option Bytes → Type 0
CachedAt (some u) (some buf) there = Unit
CachedAt (some u) none there = ⊥
CachedAt none (some buf) there = there ≡ some buf
CachedAt none none there = Unit

pub record IsCoherent (w : World) : Type 0 where
  pub server : IsConsistent w.server
  pub sizes : (id : ℕ) → AgreesAt (view w id) (attr_view w id)
  pub cached :
      (id : ℕ)
      → CachedAt
          (lookup id w.client.dirty_eid_set)
          (lookup id w.client.content_map_cache)
          (lookup id w.server.content_map)
