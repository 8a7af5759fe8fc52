-- ===== src/Rpc/Tests/Dispatch.antt =====
-- Runs of rpcs::dispatch: one service with one procedure, which counts its calls.
use cse_yet_another_file_sys.Base.{
  ℕ, suc, ◌≡◌, refl, inr, Bool, false, some, [], ◌∷◌, ◌++◌, Bytes, arith, lookup, at_or,
}
use cse_yet_another_file_sys.Rpc.Connection.{Connection}
use cse_yet_another_file_sys.Rpc.Marshall.{Unmarshall, get_u32, get_byte}
use cse_yet_another_file_sys.Rpc.Marshall.Header.{
  message, pack_req_header, unpack, unpack_req_header,
}
use cse_yet_another_file_sys.Rpc.ReplyWindow.{classify}
use cse_yet_another_file_sys.Rpc.ReplyWindow.Duplicates.{AllDistinct}
use cse_yet_another_file_sys.Rpc.Dispatch.{
  Rpcs, no_windows, incref, decref, send, ran, dispatch, serve, latest_conn, reply_of,
}
use cse_yet_another_file_sys.Rpc.Dispatch.Executed.{executed_by}
use cse_yet_another_file_sys.Rpc.Dispatch.OnceOnly.{at_most_once_served}
use cse_yet_another_file_sys.Rpc.Dispatch.Duplicate.{resend_lem, IsNewCall}

-- The handler replies with the number of its calls.
abbrev count_call : ℕ → Unmarshall → ℕ → ℕ × Bytes × ℕ
count_call f req w = (0, w ∷ [], suc w)

abbrev room : Bytes
room = 0 ∷ 0 ∷ 0 ∷ 0 ∷ []

abbrev padding : Bytes
padding = 0 ∷ 0 ∷ 0 ∷ 0 ∷ 0 ∷ 0 ∷ 0 ∷ 0 ∷ 0 ∷ 0 ∷ 0 ∷ 0 ∷ []

abbrev never : Connection → Bool
never c = false

abbrev server : Rpcs
server = record {
  nonce = 5;
  procs = (7, 1) ∷ [];
  windows = no_windows;
  conns = [];
  counting = 0;
  curr_counts = 0;
  counts = [];
}

abbrev line : Connection
line = record { fd = 3; tv_sec = 10; tv_usec = 0 }

abbrev newer_line : Connection
newer_line = record { fd = 4; tv_sec = 11; tv_usec = 0 }

-- Request `xid` of client 9.
abbrev call : ℕ → ℕ → Bytes
call xid xid_rep = message room [] (1 ∷ 2 ∷ []) 24 (
    pack_req_header
      (record { xid = xid; proc = 7; clt_nonce = 9; srv_nonce = 5; xid_rep = xid_rep }))

at_most_once_served_example : AllDistinct (
    executed_by 9 [] (
      serve count_call room padding never
        (some (server, 0))
        ((line, call 2 0) ∷ (newer_line, call 2 0) ∷ (line, call 3 2) ∷ [])))
unfolding unpack_req_header unpack get_u32 get_byte
at_most_once_served_example =
    at_most_once_served count_call room padding never 9 server 0
      ((line, call 2 0) ∷ (newer_line, call 2 0) ∷ (line, call 3 2) ∷ []) (omega arith) refl
      (
        inr (omega arith, omega arith),
        (inr (omega arith, omega arith), (inr (omega arith, omega arith), tt)),
      )

first : IsNewCall count_call room padding never server 0 line (call 2 0) 1
unfolding unpack_req_header unpack get_u32 get_byte lookup classify at_or
first = record {
  header_ok = refl;
  current = refl;
  registered = refl;
  counted = ground arith;
  absent = λ h. h;
  fresh = refl;
  above = omega arith;
  succeeds = refl;
  alive = refl;
}

resend_lem_example :
    (s1 s2 : Rpcs) × (dispatch count_call room padding never server 0 line (call 2 0) ≡ (
      incref line
          ∷ ran 9 2 7
          ∷ send line (reply_of count_call room padding never 2 0 (0 ∷ []))
          ∷ decref line
          ∷ [],
      some (s1, 1),
    ))
    × (dispatch count_call room padding never s1 1 newer_line (call 2 0) ≡ (
      (latest_conn 9 newer_line s1.conns).1
          ++ send newer_line (reply_of count_call room padding never 2 0 (0 ∷ []))
            ∷ decref newer_line
            ∷ [],
      some (s2, 1),
    ))
unfolding unpack_req_header unpack get_u32 get_byte latest_conn lookup
resend_lem_example =
    resend_lem count_call room padding never server 0 line newer_line (call 2 0) 1 first
