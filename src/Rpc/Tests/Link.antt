-- ===== src/Rpc/Tests/Link.antt =====
-- Two threads send on a connection: the second waits for its turn, and the first needs two writes.
use cse_yet_another_file_sys.Base.{
  ℕ, ◌≡◌, ◌++◌, refl, Bytes, Option, none, some, List, [], ◌∷◌, All, lookup, insert, if◌then◌else◌,
  leb, arith,
}
use cse_yet_another_file_sys.Rpc.Pdu.{wrote, framed, writepdu}
use cse_yet_another_file_sys.Rpc.Link.{
  Link, fresh, Kernel, Event, sends, wakes, writable, closes, step, run, send, turn, write_cb,
  closeconn, try_send, finish,
}
use cse_yet_another_file_sys.Rpc.Link.Frames.{AtMost, IsPrefix, frames}
use cse_yet_another_file_sys.Rpc.Link.Order.{IsFair, IsWhole, run_lem}

-- At most five bytes at a time.
abbrev five : Kernel
five n = wrote (if leb n 5 then n else 5)

five-AtMost : (n : ℕ) → AtMost n (five n)
five-AtMost n = ground arith

abbrev hello : Bytes
hello = 0 ∷ 0 ∷ 0 ∷ 0 ∷ 1 ∷ 2 ∷ 3 ∷ []

abbrev bye : Bytes
bye = 0 ∷ 0 ∷ 0 ∷ 0 ∷ 9 ∷ []

abbrev events : List Event
events =
    sends 1 hello five
    ∷ sends 2 bye five
    ∷ wakes 2 five
    ∷ writable five
    ∷ wakes 1 five
    ∷ wakes 2 five
    ∷ closes
    ∷ []

abbrev or_fresh : Option Link → Link
or_fresh none = fresh
or_fresh (some s) = s

abbrev end : Link
end = or_fresh (run events (some fresh))

events-IsFair : All IsFair events
events-IsFair = (
  (omega arith, five-AtMost),
  (
    (omega arith, five-AtMost),
    (five-AtMost, (five-AtMost, (five-AtMost, (five-AtMost, (tt, tt))))),
  ),
)

went_out : end.wire ≡ framed hello ++ framed bye
unfolding run step send turn write_cb closeconn try_send finish lookup insert writepdu
went_out = refl

run_lem_example :
    (part b : Bytes) × (end.wire ≡ frames end.oks ++ part)
    × IsPrefix part (framed b)
    × IsWhole end.dead end.wpdu part
unfolding run step send turn write_cb closeconn try_send finish lookup insert writepdu
run_lem_example = run_lem events end events-IsFair refl
