-- ===== src/Rpc/Channel.antt =====
-- The connections of an RPC client and who refers to them: rpcc::get_refconn and the end of call1
-- (rpc/rpc.cc), and incref and decref (rpc/connection.cc). The result of connect is an argument.
pub mod Objects
pub mod Counted
use cse_yet_another_file_sys.Base.{
  ℕ, zero, suc, ◌+◌, ◌-◌, Bool, true, false, Option, none, some, List, [], ◌∷◌, ◌==◌, if◌then◌else◌,
}

-- dead_ and refno_
pub record Conn : Type 0 where
  pub dead : Bool
  pub refno : ℕ

-- The objects in memory, by their addresses.
abbrev pub Heap : Type 0
Heap = ℕ → Option Conn

abbrev pub write : Heap → ℕ → Option Conn → Heap
write h c o j = if c == j then o else h j

-- A member that is called on an object that was deleted is undefined: `none`.
abbrev increfed : Heap → ℕ → Option Conn → Option Heap
increfed h c none = none
increfed h c (some k) = some (write h c (some (record k { refno = k.refno + 1 })))

unfoldable pub incref : ℕ → Heap → Option Heap
incref c h = increfed h c (h c)

-- A count below 0 fails a VERIFY; at 0, a connection that is dead deletes itself.
abbrev pub decrefed : Heap → ℕ → Option Conn → Option Heap
decrefed h c none = none
decrefed h c (some k) =
    if k.refno == 0
    then none
    else if k.refno == 1
    then some (write h c (if k.dead then none else some (record k { refno = 0 })))
    else some (write h c (some (record k { refno = k.refno - 1 })))

unfoldable pub decref : ℕ → Heap → Option Heap
decref c h = decrefed h c (h c)

abbrev pub decref_if : Option ℕ → Heap → Option Heap
decref_if none h = some h
decref_if (some c) h = decref c h

-- `chan` is chan_, and `refs` has the connection `ch` of each call that has one. The next connection
-- that is made gets the address `next`.
pub record Channel : Type 0 where
  pub heap : Heap
  pub chan : Option ℕ
  pub refs : List ℕ
  pub next : ℕ

abbrev pub unconnected : Channel
unconnected = record { heap = λ c. none; chan = none; refs = []; next = 0 }

abbrev pub fresh_conn : Conn
fresh_conn = record { dead = false; refno = 1 }

-- connect_to_dst
abbrev pub connect : Bool → Channel → Channel
connect false s = record s { chan = none }
connect true s = record s {
  heap = write s.heap s.next (some fresh_conn);
  chan = some s.next;
  next = s.next + 1;
}

abbrev replace : Bool → Channel → Option Heap → Option Channel
replace connected s none = none
replace connected s (some h) = some (connect connected (record s { heap = h }))

abbrev check_dead : Bool → Channel → ℕ → Option Conn → Option Channel
check_dead connected s c none = none
check_dead connected s c (some k) =
    let fresh = replace connected s (decref c s.heap) in if k.dead then fresh else some s

-- The first half of get_refconn: chan_ is made anew if it is NULL or dead.
unfoldable pub refresh : Bool → Channel → Option ℕ → Option Channel
unfolding decref
refresh connected s none = some (connect connected s)
refresh connected s (some c) = check_dead connected s c (s.heap c)

abbrev pub put_ref : Channel → ℕ → Option Heap → Option Channel
put_ref s c none = none
put_ref s c (some h) = some (record s { heap = h; refs = c ∷ s.refs })

abbrev increfed_at : ℕ → Channel → Option Heap → Option Channel
increfed_at c s none = none
increfed_at c s (some h) = put_ref s c (incref c h)

-- The second half: the call's connection `old` is exchanged for chan_, if there is one; `s.refs` are
-- those of the other calls.
unfoldable pub exchange : Option ℕ → Channel → Option ℕ → Option Channel
unfolding decref incref
exchange none s none = some s
exchange (some o) s none = some (record s { refs = o ∷ s.refs })
exchange old s (some c) = increfed_at c s (decref_if old s.heap)

abbrev exchanged : Option ℕ → Option Channel → Option Channel
exchanged old none = none
exchanged old (some s) = exchange old s s.chan

unfoldable pub get_refconn : Bool → Option ℕ → Channel → Option Channel
unfolding refresh exchange
get_refconn connected old s = exchanged old (refresh connected s s.chan)

-- The connection of the call at a place, and those of the others.
unfoldable pub pick : ℕ → List ℕ → Option ℕ × List ℕ
pick k [] = (none, [])
pick zero (x ∷ xs) = (some x, xs)
pick (suc k) (x ∷ xs) = let (o, rest) = pick k xs in (o, x ∷ rest)

-- A call with ch NULL gets a connection; the call at a place in `refs` gets one again; it ends; a
-- connection dies.
pub data Act : Type 0 where
  first : Bool → Act
  again : Bool → ℕ → Act
  ends : ℕ → Act
  dies : ℕ → Act

abbrev pub ended : Channel → List ℕ → Option Heap → Option Channel
ended s rest none = none
ended s rest (some h) = some (record s { heap = h; refs = rest })

abbrev pub killed : Channel → ℕ → Option Conn → Channel
killed s c none = s
killed s c (some k) = record s { heap = write s.heap c (some (record k { dead = true })) }

unfoldable pub act : Act → Channel → Option Channel
unfolding get_refconn decref pick
act (first connected) s = get_refconn connected none s
act (again connected k) s =
    let (o, rest) = pick k s.refs in get_refconn connected o (record s { refs = rest })
act (ends k) s = let (o, rest) = pick k s.refs in ended s rest (decref_if o s.heap)
act (dies c) s = some (killed s c (s.heap c))

unfoldable pub act_all : List Act → Option Channel → Option Channel
act_all [] o = o
act_all (a ∷ acts) none = none
act_all (a ∷ acts) (some s) = act_all acts (act a s)
