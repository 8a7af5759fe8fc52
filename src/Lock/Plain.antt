-- ===== src/Lock/Plain.antt =====
-- lock_server.cc: the lock server without caching, in which an acquire waits at the server until the
-- lock is free. A handler is one step under the mutex; one that waits on the condition variable is
-- woken by a release, and returns OK when it has the mutex again. A wait may also end by itself.
pub mod Spec
use cse_yet_another_file_sys.Base.{
  ℕ, zero, suc, ◌+◌, ◌-◌, ◌%◌, ◌^◌, Option, none, some, List, [], ◌∷◌, ◌++◌, ◌==◌, if◌then◌else◌,
  Map, lookup, insert, at_or,
}
use cse_yet_another_file_sys.Rpc.Status.{u32}

-- `sleepers` has the clients that wait on the condition variable of each lock. An int is kept as its
-- 32 bits.
pub record PlainServer : Type 0 where
  pub nacquire : ℕ
  pub lock_inuse_map : Map ℕ
  pub sleepers : Map (List ℕ)

abbrev pub init : PlainServer
init = record { nacquire = 0; lock_inuse_map = []; sleepers = [] }

-- What a handler does: it returns OK; it waits; it returns OK and has woken a client, if one waited;
-- it returns OK after a wait that ended by itself; or it uses an iterator at the end of the map, which
-- is undefined.
pub data Outcome : Type 0 where
  ok sleeps undefined : Outcome
  woke stirred : Option ℕ → Outcome

abbrev pub acquire_found : ℕ → ℕ → PlainServer → Option ℕ → Outcome × PlainServer
acquire_found clt lid s none = (ok, record s { lock_inuse_map = insert lid 1 s.lock_inuse_map })
acquire_found clt lid s (some n) =
    let inuse = u32 (n + 1) in
    let s1 = record s { lock_inuse_map = insert lid inuse s.lock_inuse_map } in
    if inuse == 1 then (ok, s1) else (
      sleeps,
      record s1 { sleepers = insert lid (at_or [] lid s.sleepers ++ clt ∷ []) s.sleepers },
    )

unfoldable pub acquire : ℕ → ℕ → PlainServer → Outcome × PlainServer
acquire clt lid s = acquire_found clt lid s (lookup lid s.lock_inuse_map)

-- pthread_cond_signal wakes one of those that wait: the one at a place, or the last.
unfoldable pub pick : ℕ → List ℕ → Option ℕ × List ℕ
pick k [] = (none, [])
pick zero (x ∷ xs) = (some x, xs)
pick (suc k) (x ∷ []) = (some x, [])
pick (suc k) (x ∷ y ∷ xs) = let (o, rest) = pick k (y ∷ xs) in (o, x ∷ rest)

abbrev pub release_found : ℕ → ℕ → PlainServer → Option ℕ → Outcome × PlainServer
release_found k lid s none = (undefined, s)
release_found k lid s (some n) =
    let (woken, rest) = pick k (at_or [] lid s.sleepers) in
    (
      woke woken,
      record s {
        lock_inuse_map = insert lid (u32 (n + (2 ^ 32 - 1))) s.lock_inuse_map;
        sleepers = insert lid rest s.sleepers;
      },
    )

-- `clt` is only printed; `k` is the choice of pthread_cond_signal.
unfoldable pub release : ℕ → ℕ → ℕ → PlainServer → Outcome × PlainServer
release k clt lid s = release_found k lid s (lookup lid s.lock_inuse_map)

-- pthread_cond_wait ends by itself, which nothing in acquire looks for: the client at a place returns
-- OK, as if it were woken.
unfoldable pub stir : ℕ → ℕ → PlainServer → Outcome × PlainServer
stir k lid s =
    let (who, rest) = pick k (at_or [] lid s.sleepers) in
    (stirred who, record s { sleepers = insert lid rest s.sleepers })

-- No handler changes nacquire.
abbrev pub stat : PlainServer → ℕ
stat s = s.nacquire

pub data Call : Type 0 where
  acquires : ℕ → ℕ → Call
  releases : ℕ → ℕ → ℕ → Call
  stirs : ℕ → ℕ → Call

unfoldable pub serve : Call → PlainServer → Outcome × PlainServer
unfolding acquire release stir
serve (acquires clt lid) s = acquire clt lid s
serve (releases k clt lid) s = release k clt lid s
serve (stirs k lid) s = stir k lid s

-- The outcomes of calls, and of waits that end by themselves, in the order in which they get the
-- mutex.
unfoldable pub run : List Call → PlainServer → List Outcome
run [] s = []
run (c ∷ cs) s = let (o, s1) = serve c s in o ∷ run cs s1
