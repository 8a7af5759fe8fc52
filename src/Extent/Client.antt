-- ===== src/Extent/Client.antt =====
-- extent_client.cc and extent_client.h: a write-back cache in front of the extent server. The state
-- is the cache together with the server that it calls; what becomes of a call of the RPC library
-- is an argument, and so is what time(NULL) returns.
pub mod Invariant
pub mod Lookup
pub mod Flush
use cse_yet_another_file_sys.Base.{
  ℕ, Option, none, some, [], Bytes, Map, lookup, insert, erase, at_or,
}
use cse_yet_another_file_sys.Rpc.Status.{Failure, Result, ok, err}
use cse_yet_another_file_sys.Extent.Server
use cse_yet_another_file_sys.Extent.Server.{Attr, ExtentServer, new_attr}

-- Of a call: the server ran it and the reply arrived; the server never ran it; or the server ran
-- it and the reply was lost.
pub data Outcome : Type 0 where
  delivered : Outcome
  lost unanswered : Failure → Outcome

unfoldable pub call :
    {A : Type 0}
    → Outcome
    → (ExtentServer → Result A × ExtentServer)
    → ExtentServer
    → Result A × ExtentServer
call delivered handler s = handler s
call (lost f) handler s = (err f, s)
call (unanswered f) handler s = (err f, (handler s).1)

pub record ExtentClient : Type 0 where
  pub content_map_cache : Map Bytes
  pub attr_map_cache : Map Attr
  pub dirty_eid_set : Map (Unit {0})

-- One client and the server.
pub record World : Type 0 where
  pub client : ExtentClient
  pub server : ExtentServer

abbrev pub empty : ExtentClient
empty = record { content_map_cache = []; attr_map_cache = []; dirty_eid_set = [] }

abbrev cache_content : World → ℕ → Result Bytes × ExtentServer → Result Bytes × World
cache_content w eid (ok buf, s) = (
  ok buf,
  record {
    client = record w.client { content_map_cache = insert eid buf w.client.content_map_cache };
    server = s;
  },
)
cache_content w eid (err f, s) = (err f, record w { server = s })

unfoldable pub get : Outcome → ℕ → World → ℕ → Result Bytes × World
unfolding call
get o now w eid = elim (lookup eid w.client.content_map_cache) [
  | some buf ↦ (ok buf, w)
  | none ↦ cache_content w eid (call o (λ s. Server.get now s eid) w.server)
]

abbrev cache_attr : World → ℕ → Result Attr × ExtentServer → Result Attr × World
cache_attr w eid (ok a, s) = (
  ok a,
  record {
    client = record w.client { attr_map_cache = insert eid a w.client.attr_map_cache };
    server = s;
  },
)
cache_attr w eid (err f, s) = (err f, record w { server = s })

unfoldable pub getattr : Outcome → World → ℕ → Result Attr × World
unfolding call
getattr o w eid = elim (lookup eid w.client.attr_map_cache) [
  | some a ↦ (ok a, w)
  | none ↦ cache_attr w eid (call o (λ s. (Server.getattr s eid, s)) w.server)
]

-- The write stays in the cache, whatever it replaces.
unfoldable pub put : ℕ → World → ℕ → Bytes → Result Unit × World
put now w eid buf = (
  ok tt,
  record w {
    client = record {
      content_map_cache = insert eid buf w.client.content_map_cache;
      attr_map_cache = insert eid (new_attr now buf) w.client.attr_map_cache;
      dirty_eid_set = insert eid tt w.client.dirty_eid_set;
    };
  },
)

abbrev erase_found : {V : Type 0} → ℕ → Map V → Map V
erase_found eid m = elim (lookup eid m) [ none ↦ m | some v ↦ erase eid m ]

unfoldable pub remove : ExtentClient → ℕ → ExtentClient
remove c eid = record c {
  content_map_cache = erase_found eid c.content_map_cache;
  attr_map_cache = erase_found eid c.attr_map_cache;
}

-- `content_map_cache[eid]` makes an empty entry where there is none.
abbrev write_back : Outcome → ℕ → World → ℕ → Result Unit × World
write_back o now w eid =
    let buf = at_or [] eid w.client.content_map_cache in
    let (r, s) = call o (λ s. Server.put now s eid buf) w.server in
    (
      r,
      record {
        client = record w.client {
          content_map_cache = insert eid buf w.client.content_map_cache;
          dirty_eid_set = erase eid w.client.dirty_eid_set;
        };
        server = s;
      },
    )

abbrev drop_cached : ℕ → Result Unit × World → Result Unit × World
drop_cached eid (r, w) = (r, record w { client = remove w.client eid })

unfoldable pub flush : Outcome → ℕ → World → ℕ → Result Unit × World
unfolding call remove
flush o now w eid = elim (lookup eid w.client.dirty_eid_set) [
  | none ↦ drop_cached eid (ok tt, w)
  | some u ↦ drop_cached eid (write_back o now w eid)
]
