-- ===== src/Rpc/Pdu.antt =====
-- connection (rpc/connection.cc): messages over a TCP connection, each behind its size.
pub mod Sending
pub mod Delivery
use cse_yet_another_file_sys.Base.{
  ℕ, zero, suc, ◌+◌, ◌-◌, ◌*◌, ◌^◌, Bool, true, false, not, ◌&&◌, ◌||◌, Option, none, some, List,
  [], ◌∷◌, ◌++◌, Bytes, ltb, leb, ◌==◌, if◌then◌else◌, length, take, drop,
}
use cse_yet_another_file_sys.Rpc.Marshall.{get_u32}
use cse_yet_another_file_sys.Rpc.Marshall.Wire.{four, at}

abbrev pub max_pdu : ℕ
max_pdu = 10 * 2 ^ 20

-- What read(2) returns: some bytes, 0, or -1; `true` if errno is then EAGAIN. A read that returns 0
-- leaves errno as an earlier call has set it.
pub data Read : Type 0 where
  got : Bytes → Read
  closed failed : Bool → Read

-- rpdu_: the size of the message that is read, 0 between messages, and the bytes of it that are
-- there; their number is `solong`.
pub record Rpdu : Type 0 where
  pub sz : ℕ
  pub buf : Option Bytes

abbrev pub idle : Rpdu
idle = record { sz = 0; buf = none }

unfoldable pub ntohl : Bytes → ℕ
ntohl b = (get_u32 (at 0 b)).0

-- The size of a message: refused, or taken; or `undefined`, for a VERIFY that fails (EAGAIN) and for a
-- size that is negative or below 4, with which the code reads more bytes than the buffer holds.
pub data Sized : Type 0 where
  refused undefined : Sized
  taken : Rpdu → Sized

unfoldable pub sized : Read → Sized
sized (closed again) = refused
sized (failed again) = if again then undefined else refused
sized (got b) =
    if not (length b == 4)
    then refused
    else if leb (2 ^ 31) (ntohl b) || ltb (ntohl b) 4
    then undefined
    else if ltb max_pdu (ntohl b)
    then refused
    else taken (record { sz = ntohl b; buf = some b })

abbrev pub more : Bytes → Option Bytes → Option Bytes
more b none = some b
more b (some a) = some (a ++ b)

-- The second read of readpdu. An end of the connection that finds EAGAIN in errno is not seen.
unfoldable pub filled : Rpdu → Read → Bool × Rpdu
filled s (got b) = (true, record s { buf = more b s.buf })
filled s (closed again) = if again then (true, s) else (false, idle)
filled s (failed again) = if again then (true, s) else (false, idle)

abbrev pub solong : Option Bytes → ℕ
solong none = 0
solong (some b) = length b

-- A connection as read_cb sees it.
pub record Reader : Type 0 where
  pub rpdu : Rpdu
  pub dead : Bool

-- `read` is read(2) on the connection, over a state `K` of the kernel; it takes the most bytes that
-- it may return.
module _ {K : Type 0} (read : ℕ → K → Read × K) where
  abbrev pub fill : Rpdu → K → Option (Bool × Rpdu) × K
  fill s k = let r = read (s.sz - solong s.buf) k in (some (filled s r.0), r.1)

  abbrev pub begun : Rpdu → Sized → K → Option (Bool × Rpdu) × K
  begun s refused k = (some (false, s), k)
  begun s undefined k = (none, k)
  begun s (taken s') k = fill s' k

  -- `none` is undefined behaviour.
  unfoldable pub readpdu : Rpdu → K → Option (Bool × Rpdu) × K
  unfolding sized filled
  readpdu s k = if s.sz == 0 then (let r = read 4 k in begun s (sized r.0) r.1) else fill s k

  -- A message that is complete goes to the channel manager, which takes it if `accepts`.
  abbrev pub handed_on : Bool → Rpdu → Bool → Option Bytes → Reader × List Bytes
  handed_on accepts s dead none = (record { rpdu = s; dead = dead }, [])
  handed_on accepts s dead (some b) =
      if accepts && s.sz == length b
      then (record { rpdu = idle; dead = dead }, b ∷ [])
      else (record { rpdu = s; dead = dead }, [])

  abbrev pub handed : Bool → Rpdu → Bool → Reader × List Bytes
  handed accepts s dead = handed_on accepts s dead s.buf

  abbrev pub after_read : Bool → Option (Bool × Rpdu) × K → Option (Reader × List Bytes) × K
  after_read accepts (none, k) = (none, k)
  after_read accepts (some (succ, s), k) = (some (handed accepts s (not succ)), k)

  abbrev pub full_at : ℕ → Option Bytes → Bool
  full_at sz none = false
  full_at sz (some b) = leb sz (length b)

  -- The messages that were handed over are returned.
  unfoldable pub read_cb : Bool → Reader → K → Option (Reader × List Bytes) × K
  unfolding readpdu
  read_cb accepts c k =
      if c.dead
      then (some (c, []), k)
      else if full_at c.rpdu.sz c.rpdu.buf
      then (some (handed accepts c.rpdu false), k)
      else after_read accepts (readpdu c.rpdu k)

-- wpdu_: the message that is sent, and how many bytes of it were written; `none` is the -1 that a
-- failure leaves.
pub record Wpdu : Type 0 where
  pub buf : Bytes
  pub solong : Option ℕ

-- What write(2) returns: a number of bytes, or -1; `true` if errno is then EAGAIN.
pub data Write : Type 0 where
  wrote : ℕ → Write
  not_written : Bool → Write

-- The size of the whole message, in network order, over its first four bytes.
abbrev pub framed : Bytes → Bytes
framed buf = four (length buf) ++ drop 4 buf

abbrev pub sized_buf : Bytes → ℕ → Bytes
sized_buf buf zero = framed buf
sized_buf buf (suc n) = buf

-- What writepdu writes: the bytes that the kernel takes are returned too.
abbrev pub put : Bytes → ℕ → Write → Bool × Wpdu × Bytes
put buf n (wrote m) = (true, record { buf = buf; solong = some (n + m) }, take m (drop n buf))
put buf n (not_written true) = (true, record { buf = buf; solong = some n }, [])
put buf n (not_written false) = (false, record { buf = buf; solong = none }, [])

abbrev pub put_on : Wpdu → Option ℕ → Write → Option (Bool × Wpdu × Bytes)
put_on s none w = none
put_on s (some n) w =
    some (if n == length s.buf then (true, s, []) else put (sized_buf s.buf n) n w)

-- `none` is a VERIFY that fails.
unfoldable pub writepdu : Wpdu → Write → Option (Bool × Wpdu × Bytes)
writepdu s w = put_on s s.solong w

-- send and then write_cb, as often as the socket can be written: the bytes that went out, and
-- whether the whole message did, as far as these writes go.
abbrev pub is_complete : Wpdu → Option ℕ → Bool
is_complete s none = false
is_complete s (some n) = n == length s.buf

unfoldable pub send_all : Wpdu → List Write → Bytes × Bool
unfolding writepdu
send_all s [] = ([], is_complete s s.solong)
send_all s (w ∷ ws) = elim (writepdu s w) [
  | none ↦ ([], false)
  | some (succ, s', out) ↦
      let (later, ok) = send_all s' ws in if succ then (out ++ later, ok) else (out, false)
]

abbrev pub to_send : Bytes → Wpdu
to_send b = record { buf = b; solong = some 0 }
