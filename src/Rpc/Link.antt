-- ===== src/Rpc/Link.antt =====
-- connection::send and write_cb (rpc/connection.cc) when many threads send: each step is what a thread
-- does from one time that it gets the mutex of the connection to the time that it gives it up. A wait
-- on a condition variable may end at any time; the loops around it look again.
pub mod Frames
pub mod Owner
pub mod Turns
pub mod Order
use cse_yet_another_file_sys.Base.{
  ℕ, ◌+◌, ◌-◌, Bool, true, false, not, ◌&&◌, Option, none, some, List, [], ◌∷◌, ◌++◌, Bytes, ltb,
  if◌then◌else◌, length, Map, lookup, insert,
}
use cse_yet_another_file_sys.Rpc.Pdu.{Wpdu, Write, writepdu, is_complete, to_send}

-- Where a thread is in send, with its message: at the wait for its turn, at the wait for the
-- completion, in block_remove_fd after a write that failed, or behind the return.
pub data Phase : Type 0 where
  queued writing failing : Bytes → Phase
  returned : Bool → Phase

-- The members that send uses, the threads, the bytes that the kernel took, and the messages for which
-- send has returned true. `wpdu` is none if wpdu_.buf is NULL.
pub record Link : Type 0 where
  pub dead : Bool
  pub waiters : ℕ
  pub wpdu : Option Wpdu
  pub threads : Map Phase
  pub wire : Bytes
  pub oks : List Bytes

abbrev pub fresh : Link
fresh = record { dead = false; waiters = 0; wpdu = none; threads = []; wire = []; oks = [] }

-- What write(2) returns for a number of bytes.
abbrev pub Kernel : Type 0
Kernel = ℕ → Write

abbrev pub complete : Option Wpdu → Bool
complete none = false
complete (some u) = is_complete u u.solong

-- From the end of the loop to the return.
unfoldable pub finish : ℕ → Bytes → Link → Link
finish t b s =
    let ret = not s.dead && complete s.wpdu in
    record s {
      wpdu = none;
      threads = insert t (returned ret) s.threads;
      oks = if ret then s.oks ++ b ∷ [] else s.oks;
    }

-- After the first write of a message. `none` is a VERIFY that fails.
abbrev pub started : ℕ → Bytes → Link → Option (Bool × Wpdu × Bytes) → Option Link
started t b s none = none
started t b s (some (succ, u, out)) =
    let s1 = record s { wpdu = some u; wire = s.wire ++ out } in
    some (
      if not succ
      then record s1 { dead = true; threads = insert t (failing b) s.threads }
      else if is_complete u u.solong
      then finish t b s1
      else record s1 { threads = insert t (writing b) s.threads })

abbrev pub first_write : ℕ → Bytes → Kernel → Link → Option Wpdu → Option Link
first_write t b k s (some u) = some (record s { threads = insert t (queued b) s.threads })
first_write t b k s none =
    started t b (record s { waiters = s.waiters - 1 }) (writepdu (to_send b) (k (length b)))

-- The loop on send_wait_ and what follows, up to the next wait.
unfoldable pub try_send : ℕ → Bytes → Kernel → Link → Option Link
unfolding finish
try_send t b k s =
    if s.dead
    then some (record s { waiters = s.waiters - 1; threads = insert t (returned false) s.threads })
    else first_write t b k s s.wpdu

-- The loop on send_complete_ goes on.
abbrev pub is_under_way : Option ℕ → ℕ → Bool
is_under_way none sz = false
is_under_way (some n) sz = ltb n sz

abbrev pub goes_on : Option Wpdu → Bool
goes_on none = false
goes_on (some u) = is_under_way u.solong (length u.buf)

abbrev pub go : ℕ → Kernel → Link → Option Phase → Option Link
go t k s none = some s
go t k s (some (queued b)) = try_send t b k s
go t k s (some (writing b)) = some (if not s.dead && goes_on s.wpdu then s else finish t b s)
go t k s (some (failing b)) = some (finish t b s)
go t k s (some (returned r)) = some s

-- A thread that waits, or has removed the callbacks, has the mutex again.
unfoldable pub turn : ℕ → Kernel → Link → Option Link
unfolding try_send finish
turn t k s = go t k s (lookup t s.threads)

abbrev pub may_call : Option Phase → Bool
may_call none = true
may_call (some (returned r)) = true
may_call (some _) = false

-- A thread calls send; one that is in send cannot.
unfoldable pub send : ℕ → Bytes → Kernel → Link → Option Link
unfolding try_send
send t b k s =
    if may_call (lookup t s.threads)
    then try_send t b k (record s { waiters = s.waiters + 1 })
    else some s

abbrev pub called_back : Link → Option (Bool × Wpdu × Bytes) → Option Link
called_back s none = none
called_back s (some (succ, u, out)) =
    some (record s { dead = not succ; wpdu = some u; wire = s.wire ++ out })

abbrev pub write_more : Kernel → Link → Wpdu → Option ℕ → Option Link
write_more k s u none = some s
write_more k s u (some n) = called_back s (writepdu u (k (length u.buf - n)))

abbrev pub write_at : Kernel → Link → Option Wpdu → Option Link
write_at k s none = some s
write_at k s (some u) = write_more k s u u.solong

-- The callback that the socket can be written; a connection that is dead fails a VERIFY.
unfoldable pub write_cb : Kernel → Link → Option Link
write_cb k s = if s.dead then none else write_at k s s.wpdu

-- closeconn, up to block_remove_fd, and the same of read_cb when reading fails.
unfoldable pub closeconn : Link → Link
closeconn s = record s { dead = true }

pub data Event : Type 0 where
  sends : ℕ → Bytes → Kernel → Event
  wakes : ℕ → Kernel → Event
  writable : Kernel → Event
  closes : Event

unfoldable pub step : Event → Link → Option Link
unfolding send turn write_cb closeconn
step (sends t b k) s = send t b k s
step (wakes t k) s = turn t k s
step (writable k) s = write_cb k s
step closes s = some (closeconn s)

unfoldable pub run : List Event → Option Link → Option Link
run [] o = o
run (e ∷ es) none = none
run (e ∷ es) (some s) = run es (step e s)
