-- ===== src/Rpc/Tests/Caller.antt =====
-- Runs of rpcc: a call that gets no reply, and a reply for a call.
use cse_yet_another_file_sys.Base.{
  ℕ, ◌+◌, ◌*◌, ◌≤◌, ◌≡◌, refl, ◌⊎◌, Bool, true, false, Option, none, some, [], ◌∷◌, Bytes, ◌==◌,
  if◌then◌else◌, lookup, arith,
}
use cse_yet_another_file_sys.Rpc.Status.{u32}
use cse_yet_another_file_sys.Rpc.Connection.{Connection}
use cse_yet_another_file_sys.Rpc.Marshall.Header.{ReplyHeader, message, pack_reply_header}
use cse_yet_another_file_sys.Rpc.Timespec.{Timespec, nanos, add_timespec, second, add_timespec_lem}
use cse_yet_another_file_sys.Rpc.Caller.{Rpcc, waiting, refused, call1, timeout_failure}
use cse_yet_another_file_sys.Rpc.Caller.Deadline.{call1_lem}
use cse_yet_another_file_sys.Rpc.Caller.Upcall.{got_pdu, to_caller, got_pdu_lem}

abbrev half_past : Timespec
half_past = record { tv_sec = 7; tv_nsec = 500000000 }

add_timespec_lem_example :
    (nanos (add_timespec half_past 2500) ≡ nanos half_past + 2500 * 1000000)
    × ((add_timespec half_past 2500).tv_nsec ≤ second)
add_timespec_lem_example = add_timespec_lem half_past 2500

-- Each reading is a second later.
abbrev ticks : ℕ → Timespec
ticks k = record { tv_sec = 100 + k; tv_nsec = 5 }

abbrev no_server : ℕ → Option Connection
no_server k = none

abbrev lives : ℕ → Connection → Bool
lives k c = false

abbrev silence : ℕ → Timespec → Option ℕ
silence k t = none

abbrev client : Rpcc
client = record {
  clt_nonce = 9;
  srv_nonce = 5;
  bind_done = true;
  destroy_wait = false;
  retrans = true;
  reachable = true;
  xid = 3;
  calls = (2, waiting) ∷ [];
  xid_rep_window = 1 ∷ [];
}

call1_lem_example :
    (ret : ℕ) × (s' : Rpcc) × (call1 ticks no_server lives silence 9 7 120000 client
      ≡ some (ret, s'))
    × ((ret ≡ timeout_failure) ⊎ ((k : ℕ) × (t : Timespec) × (silence k t ≡ some ret)))
    × (lookup 2 s'.calls ≡ (if 3 == 2 then none else lookup 2 client.calls))
    × (s'.xid ≡ u32 (3 + 1))
unfolding refused
call1_lem_example =
    call1_lem ticks no_server lives silence 120000 (λ k. omega arith) (λ k. omega arith) refl
      (omega arith) 7 7 1 2 [] client (omega arith) refl refl

abbrev reply_two : ReplyHeader
reply_two = record { xid = 2; ret = 0 }

abbrev size_room : Bytes
size_room = 0 ∷ 0 ∷ 0 ∷ 24 ∷ []

abbrev zeros : Bytes
zeros = 0 ∷ 0 ∷ 0 ∷ 0 ∷ 0 ∷ 0 ∷ 0 ∷ 0 ∷ 0 ∷ 0 ∷ 0 ∷ 0 ∷ []

got_pdu_lem_example :
    (s' : Rpcc) × (got_pdu 4 24
        (message size_room zeros (7 ∷ []) 24 (pack_reply_header reply_two))
        client
      ≡ some s')
    × (lookup 2 s'.calls ≡ (
        if 2 == 2
        then to_caller reply_two (7 ∷ []) (lookup 2 client.calls)
        else lookup 2 client.calls))
got_pdu_lem_example =
    got_pdu_lem size_room zeros (7 ∷ []) 24 1 2 [] reply_two client (omega arith) (omega arith) refl
      refl
