-- ===== src/Rpc/Tests/Stub.antt =====
-- An RPC to a service that adds numbers and remembers the last name.
use cse_yet_another_file_sys.Base.{
  ℕ, ◌+◌, ◌≡◌, refl, Bool, true, false, some, List, [], ◌∷◌, Bytes, lookup, insert, arith, at_or,
}
use cse_yet_another_file_sys.Rpc.Marshall.{Unmarshall, start}
use cse_yet_another_file_sys.Rpc.Marshall.Wire.{Value, u32, text, int, string, put}
use cse_yet_another_file_sys.Rpc.Marshall.RoundTrip.{put_all}
use cse_yet_another_file_sys.Rpc.Marshall.Header.{ReqHeader}
use cse_yet_another_file_sys.Rpc.ReplyWindow.{classify}
use cse_yet_another_file_sys.Rpc.Connection.{Connection}
use cse_yet_another_file_sys.Rpc.Dispatch.{
  Rpcs, incref, no_windows, ran, send, decref, dispatch, latest_conn,
}
use cse_yet_another_file_sys.Rpc.Caller.{Rpcc, Pending, waiting}
use cse_yet_another_file_sys.Rpc.Caller.Upcall.{got_pdu}
use cse_yet_another_file_sys.Rpc.Stub.{Service, reg, call_request, call_m}
use cse_yet_another_file_sys.Rpc.Stub.EndToEnd.{IsNewRequest, handlers, rpc_lem}

abbrev sum_named : List Value → ℕ → ℕ × Value × ℕ
sum_named (u32 x ∷ text name ∷ []) w = (0, u32 (w + x), w + x)
sum_named vs w = (1, u32 0, w)

abbrev adder : Service ℕ
adder = record { kinds = int ∷ string ∷ []; meth = sum_named }

abbrev no_overrun : Unmarshall → ℕ → ℕ × Bytes × ℕ
no_overrun args w = (0, [], w)

abbrev room : Bytes
room = 0 ∷ 0 ∷ 0 ∷ 0 ∷ []

abbrev padding : Bytes
padding = 0 ∷ 0 ∷ 0 ∷ 0 ∷ 0 ∷ 0 ∷ 0 ∷ 0 ∷ 0 ∷ 0 ∷ 0 ∷ 0 ∷ []

abbrev alive : Connection → Bool
alive c = false

abbrev blank : Rpcs
blank = record {
  nonce = 5;
  procs = [];
  windows = no_windows;
  conns = [];
  counting = 0;
  curr_counts = 0;
  counts = [];
}

abbrev server : Rpcs
server = record blank { procs = (7, 7) ∷ [] }

registered : reg 7 adder (blank, []) ≡ some (server, (7, adder) ∷ [])
unfolding reg lookup insert
registered = refl

abbrev line : Connection
line = record { fd = 3; tv_sec = 10; tv_usec = 0 }

abbrev request : ReqHeader
request = record { xid = 2; proc = 7; clt_nonce = 9; srv_nonce = 5; xid_rep = 1 }

abbrev client : Rpcc
client = record {
  clt_nonce = 9;
  srv_nonce = 5;
  bind_done = true;
  destroy_wait = false;
  retrans = true;
  reachable = true;
  xid = 3;
  calls = (2, waiting) ∷ [];
  xid_rep_window = 1 ∷ [];
}

abbrev args : List Value
args = u32 30 ∷ text (97 ∷ 98 ∷ []) ∷ []

new_request : IsNewRequest alive server line request
unfolding classify at_or lookup
new_request = record {
  fits = record {
    xid = omega arith;
    proc = omega arith;
    clt_nonce = omega arith;
    srv_nonce = omega arith;
    xid_rep = omega arith;
  };
  current = refl;
  counted = ground arith;
  absent = λ h. h;
  fresh = refl;
  above = omega arith;
  alive = refl;
}

rpc_lem_example :
    ((put_all 24 start args).overflowed ≡ false)
    × ((put 24 start (u32 42)).overflowed ≡ false)
    × (s1 : Rpcs) × (b : Bytes) × (dispatch
          (handlers no_overrun ((7, adder) ∷ []) room [] padding refl alive)
          room
          padding
          alive
          server
          12
          line
          (call_request room [] request args)
        ≡ (incref line ∷ ran 9 2 7 ∷ send line b ∷ decref line ∷ [], some (s1, 42)))
    × (cl1 : Rpcc) × (got_pdu 4 24 b client ≡ some cl1)
    × (ca : Pending) × (lookup 2 cl1.calls ≡ some ca)
    × (ca.done ≡ true)
    × (call_m 24 int ca.intret ca.un ≡ some (0, some (u32 42)))
unfolding lookup latest_conn
rpc_lem_example =
    rpc_lem no_overrun ((7, adder) ∷ []) room [] padding refl alive server 12 line request 7 adder
      args new_request refl refl refl (omega arith) (omega arith) client 1 [] (omega arith) refl
      refl (omega arith) (omega arith)
