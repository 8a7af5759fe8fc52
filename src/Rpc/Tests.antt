-- ===== src/Rpc/Tests.antt =====
-- Runs of the two windows of replies and of the marshalling.
mod Channel
mod Containers
mod Link
mod Stub
mod Dispatch
mod Pool
mod Poll
mod Pdu
mod Caller
use cse_yet_another_file_sys.Base.{
  length, replicate, Bytes, ℕ, suc, All, ◌≡◌, refl, some, List, [], ◌∷◌, false, true, arith,
}
use cse_yet_another_file_sys.Rpc.Marshall.{start, Unmarshall, okdone}
use cse_yet_another_file_sys.Rpc.Marshall.Wire.{Value, u64, text, HasRoom, at}
use cse_yet_another_file_sys.Rpc.Marshall.RoundTrip.{put_all, get_all, kinds, get_all-put_all}
use cse_yet_another_file_sys.Rpc.Marshall.Header.{
  ReqHeader, ReplyHeader, FitsReq, pack_req_header, pack_reply_header, unpack_req_header,
  unpack_reply_header, message, unpack-pack, unpack-pack_reply,
}
use cse_yet_another_file_sys.Rpc.XidWindow.{init, update_xid_rep}
use cse_yet_another_file_sys.Rpc.XidWindow.Order.{Among}
use cse_yet_another_file_sys.Rpc.XidWindow.Received.{receive, up_to, front_lem}
use cse_yet_another_file_sys.Rpc.ReplyWindow.{
  empty, new, inprogress, forgotten, done, Window, classify, check, add_reply, scan, enter, trim,
}
use cse_yet_another_file_sys.Rpc.ReplyWindow.Duplicates.{
  Event, request, reply, run, AllDistinct, at_most_once,
}
use cse_yet_another_file_sys.Rpc.ReplyWindow.Reordering.{duplicate_lem, forgotten_again}

-- Request 3 was sent twice, and request 4 after the reply to 3.
abbrev history : List Event
history = request 2 0 ∷ request 3 1 ∷ reply 3 (7 ∷ []) ∷ request 3 1 ∷ request 4 3 ∷ []

abbrev two_open : Window
two_open = record {
  replies =
      record { xid = 5; cb_present = true; buf = 9 ∷ [] }
      ∷ record { xid = 8; cb_present = false; buf = [] }
      ∷ [];
  bound = 4;
}

answered : classify two_open 5 ≡ done (9 ∷ [])
unfolding classify scan
answered = refl

waiting : classify two_open 8 ≡ inprogress
unfolding classify scan
waiting = refl

nine_is_new : classify two_open 9 ≡ new
unfolding classify scan
nine_is_new = refl

trimmed :
    check two_open 9 5
    ≡ some (
      new,
      record {
        replies =
            record { xid = 8; cb_present = false; buf = [] }
            ∷ record { xid = 9; cb_present = false; buf = [] }
            ∷ [];
        bound = 5;
      },
    )
unfolding check classify scan enter trim
trimmed = refl

at_most_once_example : (all : List ℕ) × (run empty [] history ≡ some all) × AllDistinct all
at_most_once_example = at_most_once history (ground arith)

forgotten_again_example :
    (w' : Window) × (check two_open 9 2 ≡ some (new, w'))
    × (classify two_open 4 ≡ forgotten)
    × (classify w' 4 ≡ new)
forgotten_again_example =
    forgotten_again two_open 9 2 (ground arith) nine_is_new (omega arith) 4 (omega arith)
      (λ e. omega arith) (ground arith) (λ e. cc) (omega arith)

-- Replies that came out of order, one of them twice.
front_lem_example :
    (f : ℕ) × (rest : List ℕ) × (receive init (2 ∷ 1 ∷ 5 ∷ 3 ∷ 5 ∷ []) ≡ some (f ∷ rest))
    × All (λ z. Among z (2 ∷ 1 ∷ 5 ∷ 3 ∷ 5 ∷ [])) (up_to f)
    × ¬ Among (suc f) (2 ∷ 1 ∷ 5 ∷ 3 ∷ 5 ∷ [])
front_lem_example = front_lem (2 ∷ 1 ∷ 5 ∷ 3 ∷ 5 ∷ []) (ground arith)

three_received : receive init (2 ∷ 1 ∷ 5 ∷ 3 ∷ 5 ∷ []) ≡ some (3 ∷ 5 ∷ 5 ∷ [])
unfolding receive update_xid_rep
three_received = refl

-- The arguments of a put of the extent server: the extent's number and its content.
abbrev arguments : List Value
arguments = u64 2147483653 ∷ text (104 ∷ 200 ∷ []) ∷ []

get_all-put_all_example :
    HasRoom 32 (put_all 32 start arguments)
    × ((put_all 32 start arguments).overflowed ≡ false)
    × (u : Unmarshall) × (get_all (kinds arguments) (at 32 (put_all 32 start arguments).content)
        ≡ some (arguments, u))
    × (okdone u ≡ true)
get_all-put_all_example = get_all-put_all 32 arguments (omega arith) (ground arith) (omega arith)

-- A message with room for its size and a checksum, and two bytes of content.
abbrev room : Bytes
room = replicate 12 0

abbrev content : Bytes
content = 1 ∷ 2 ∷ []

abbrev asked : ReqHeader
asked = record { xid = 9; proc = 24577; clt_nonce = 4000000000; srv_nonce = 77; xid_rep = 7 }

asked-FitsReq : FitsReq asked
asked-FitsReq = record {
  xid = omega arith;
  proc = omega arith;
  clt_nonce = omega arith;
  srv_nonce = omega arith;
  xid_rep = omega arith;
}

abbrev replied : ReplyHeader
replied = record { xid = 9; ret = 0 }
