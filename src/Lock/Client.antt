-- ===== src/Lock/Client.antt =====
-- lock_client_cache.cc, on the state that lockmap_mutex protects. What the lock server answers to a
-- call is an argument.
pub mod Exclusion
use cse_yet_another_file_sys.Base.{
  ℕ, Bool, true, false, Option, none, some, [], ◌∷◌, Map, lookup, insert, at_or,
}

-- client_lock_state::xxstatus; `not_here` is NONE.
pub data LockState : Type 0 where
  not_here free locked acquiring releasing : LockState

-- `lock_cv_map` is the set of the locks whose condition variable was made.
pub record LockClient : Type 0 where
  pub lockstate_map : Map LockState
  pub lock_cv_map : Map (Unit {0})

abbrev pub empty : LockClient
empty = record { lockstate_map = []; lock_cv_map = [] }

-- What the server answers to acquire: OK, RETRY, or another status.
pub data Answer : Type 0 where
  ok retry other : Answer

-- How a turn of the loop of acquire ends: acquire returns OK, the thread waits for the condition
-- variable, or the loop goes on at once.
pub data Turn : Type 0 where
  returns waits goes_on : Turn

-- `lockstate_map[lid]`, which is NONE where there is no entry.
unfoldable pub state_at : LockClient → ℕ → LockState
unfolding at_or
state_at c lid = at_or not_here lid c.lockstate_map

abbrev pub set : LockClient → ℕ → LockState → LockClient
set c lid s = record c { lockstate_map = insert lid s c.lockstate_map }

-- acquire up to its loop. Done again, it changes nothing.
unfoldable pub prepare : LockClient → ℕ → LockClient
prepare c lid = elim (lookup lid c.lockstate_map) [
  | none ↦ record {
    lockstate_map = insert lid not_here c.lockstate_map;
    lock_cv_map = insert lid tt c.lock_cv_map;
  }
  | some s ↦ c
]

abbrev ask : Answer → LockClient → ℕ → Turn × LockClient
ask ok c lid = (returns, set c lid locked)
ask retry c lid = (waits, set c lid acquiring)
ask other c lid = (goes_on, c)

abbrev turn_in : Answer → LockClient → ℕ → LockState → Turn × LockClient
turn_in answer c lid free = (returns, set c lid locked)
turn_in answer c lid not_here = ask answer c lid
turn_in answer c lid _ = (waits, c)

-- A turn of the loop of acquire. The server is asked only where the state is NONE.
unfoldable pub turn : Answer → LockClient → ℕ → Turn × LockClient
unfolding prepare state_at
turn answer c lid = turn_in answer (prepare c lid) lid (state_at (prepare c lid) lid)

-- How release goes on: it answers NOENT; or it flushes the extent and gives the lock back to the
-- server, whose status it returns; or it answers OK, and the lock stays.
pub data Release : Type 0 where
  noent gives_back keeps : Release

abbrev release_in : LockClient → ℕ → Option LockState → Release × LockClient
release_in c lid none = (noent, c)
release_in c lid (some releasing) = (gives_back, set c lid not_here)
release_in c lid (some _) = (keeps, set c lid free)

unfoldable pub release : LockClient → ℕ → Release × LockClient
release c lid = release_in c lid (lookup lid c.lockstate_map)

abbrev revoke_in : LockClient → ℕ → LockState → LockClient
revoke_in c lid locked = set c lid releasing
revoke_in c lid s = set c lid s

-- It answers OK always. `lockstate_map[lid]` makes an entry where there is none.
unfoldable pub revoke_handler : LockClient → ℕ → LockClient
unfolding state_at
revoke_handler c lid = revoke_in c lid (state_at c lid)

-- The answer is RPCERR, `false`, if the lock was never asked for.
unfoldable pub retry_handler : LockClient → ℕ → Bool × LockClient
retry_handler c lid = elim (lookup lid c.lock_cv_map) [
  | none ↦ (false, c)
  | some u ↦ (true, set c lid not_here)
]

abbrev stop_if_free : LockState → ℕ → Option ℕ → Option ℕ
stop_if_free free lid later = some lid
stop_if_free _ lid later = later

-- The loop over the map `locks`, from one of its entries on: the first key whose lock is FREE.
unfoldable pub first_free : Map LockState → Map LockState → Option ℕ
unfolding at_or
first_free locks [] = none
first_free locks ((lid, s) ∷ m) = stop_if_free (at_or not_here lid locks) lid (first_free locks m)

-- What give_back does under the mutex with the lock that it has found, whatever its state is by then.
unfoldable pub give_up : LockClient → ℕ → LockClient
give_up c lid = set c lid not_here

-- A round of give_back, if nothing comes between: the lock that is flushed and given back to the
-- server, if one is FREE. The loop looks at the states without the mutex.
unfoldable pub give_back : LockClient → Option ℕ × LockClient
unfolding first_free give_up
give_back c = elim (first_free c.lockstate_map c.lockstate_map) [
  | none ↦ (none, c)
  | some lid ↦ (some lid, give_up c lid)
]
