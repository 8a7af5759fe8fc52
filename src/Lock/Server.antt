-- ===== src/Lock/Server.antt =====
-- lock_server_cache.cc. An acquire is what it does under the mutex, and then the revoke call, which
-- it makes without the mutex; a release holds the mutex throughout.
pub mod Calls
pub mod Spec
pub mod Exclusion
use cse_yet_another_file_sys.Base.{
  ℕ, Bool, true, false, ◌||◌, not, Option, none, some, List, [], ◌∷◌, ◌++◌, Bytes, bytes_eq,
  if◌then◌else◌, Map, lookup, insert, at_or,
}

pub record LockServer : Type 0 where
  pub nacquire : ℕ
  pub where_is_lock : Map Bytes
  pub who_waiting_lock : Map (List Bytes)

abbrev pub init : LockServer
init = record { nacquire = 0; where_is_lock = []; who_waiting_lock = [] }

-- lock_protocol::xxstatus, as far as this server answers it.
pub data Status : Type 0 where
  ok retry rpcerr : Status

-- What an acquire found under the mutex: the lock is the client's, or the client waits, and
-- need_revoke tells whether the owner is asked for the lock.
pub data Verdict : Type 0 where
  granted : Verdict
  waiting : Bool → Verdict

unfoldable pub is_empty : List Bytes → Bool
is_empty [] = true
is_empty (x ∷ xs) = false

-- The loop that looks for the client in the waiting list.
unfoldable pub is_waiting : Bytes → List Bytes → Bool
is_waiting id [] = false
is_waiting id (x ∷ xs) = bytes_eq x id || is_waiting id xs

unfoldable pub enqueue : Bytes → List Bytes → List Bytes
unfolding is_waiting
enqueue id xs = if is_waiting id xs then xs else xs ++ id ∷ []

abbrev grant : LockServer → ℕ → Bytes → Verdict × LockServer
grant s lid id = (granted, record s { where_is_lock = insert lid id s.where_is_lock })

-- `who_waiting_lock[lid]` makes an empty list where there is none.
abbrev wait : LockServer → ℕ → Bytes → Verdict × LockServer
wait s lid id =
    let line = at_or [] lid s.who_waiting_lock in
    (
      waiting (is_empty line),
      record s { who_waiting_lock = insert lid (enqueue id line) s.who_waiting_lock },
    )

abbrev decide : LockServer → ℕ → Bytes → Option Bytes → Verdict × LockServer
decide s lid id none = grant s lid id
decide s lid id (some []) = grant s lid id
decide s lid id (some (c ∷ owner)) = wait s lid id

-- `acquire` up to the unlock.
unfoldable pub enter : LockServer → ℕ → Bytes → Verdict × LockServer
unfolding enqueue is_empty
enter s lid id = decide s lid id (lookup lid s.where_is_lock)

-- The rest of `acquire`, in the state `s` that the server is in by then. `revoked` tells whether the
-- revoke call to the client of that name succeeds.
unfoldable pub finish : (Bytes → Bool) → LockServer → ℕ → Verdict → Status
finish revoked s lid granted = ok
finish revoked s lid (waiting need_revoke) =
    if need_revoke
    then (if revoked (at_or [] lid s.where_is_lock) then retry else rpcerr)
    else retry

abbrev pop_front : List Bytes → Option Bytes × List Bytes
pop_front [] = (none, [])
pop_front (first ∷ rest) = (some first, rest)

-- The client that is told to retry, if one waits. `id` is not looked at.
unfoldable pub release : LockServer → ℕ → Bytes → Option Bytes × LockServer
release s lid id =
    let line = at_or [] lid s.who_waiting_lock in
    let (first, rest) = pop_front line in
    (
      first,
      record s {
        where_is_lock = insert lid [] s.where_is_lock;
        who_waiting_lock = insert lid rest s.who_waiting_lock;
      },
    )

abbrev pub stat : LockServer → ℕ → ℕ
stat s lid = s.nacquire
